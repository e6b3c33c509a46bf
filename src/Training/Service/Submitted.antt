-- ===== src/Training/Service/Submitted.antt =====
-- A job that is submitted, and the path that it resumes from.
use misaka_asset_gene.Prelude.{
  String, ◌≡◌, refl, sym, ap, ◌∙◌, subst, inl, inr, ◌⊎◌, true, false, Bool-cases, Option, none,
  some, List, [], ◌∷◌, ◌++◌, str_eq, ok, Result, if◌then◌else◌, arith, eq_iff, ◌↔◌,
}
use misaka_asset_gene.Prelude.Raising.{Returns}
use misaka_asset_gene.Dialog.{is_empty}
use misaka_asset_gene.Network.{Text, strip}
use misaka_asset_gene.Network.Texts.{text_eq_sound, text_eq_refl}
use misaka_asset_gene.Training.{TrainingJob, queued, Io, Executor, find_job, poll_job, enqueue}
use misaka_asset_gene.Training.Table.{
  same_text, str_eq_self, updated, mapped, poll_job-set_job, poll_job-set_job_other,
}
use misaka_asset_gene.Training.Service.{
  Parts, Files, SubmitError, is_relative_to, models, JobRequest, confined,
  validate_resume_checkpoint_path, new_job, add_job, submit_valid, submit_in, submit_job,
}

-- The path, which is no blank, is that of a directory under the project's models: both resolve, and
-- the parts of the one begin with those of the other.
abbrev pub Confined : Files → Parts → Text → Text → Type 0
Confined files dir raw t =
    (is_empty (strip raw) ≡ false)
    × ((root rest : Parts) × (files.resolve (dir ++ (models ∷ [])) ≡ some root)
        × (files.resolve (files.path raw) ≡ some (root ++ rest))
        × (files.is_dir (root ++ rest) ≡ true)
        × (t ≡ files.text (root ++ rest)))

is_relative_to_sound :
    (root p : Parts) → is_relative_to root p ≡ true → (rest : Parts) × (p ≡ root ++ rest)
unfolding is_relative_to
is_relative_to_sound [] p h = (p, refl)
is_relative_to_sound (r ∷ rs) [] h = absurd (cc)
is_relative_to_sound (r ∷ rs) (p ∷ ps) h =
    let (rest, e) = is_relative_to_sound rs ps (ground (arith, h)) in
    let same : r ≡ p = text_eq_sound r p (ground (arith, h)) in
    (rest, ap (λ x. x ∷ ps) (sym same) ∙ ap (λ x. r ∷ x) e)

is_relative_to-append : (root rest : Parts) → is_relative_to root (root ++ rest) ≡ true
unfolding is_relative_to
is_relative_to-append [] rest = refl
is_relative_to-append (r ∷ rs) rest = ground (arith, text_eq_refl r, is_relative_to-append rs rest)

text_of :
    {a b : Text} → ◌≡◌ {A = Result SubmitError (Option Text)} (ok (some a)) (ok (some b)) → a ≡ b
text_of g = cc

confined_lem :
    (files : Files) (a b : Option Parts) (t : Text)
    → confined files a b ≡ ok (some t)
    → (root rest : Parts) × (a ≡ some root)
      × (b ≡ some (root ++ rest))
      × (files.is_dir (root ++ rest) ≡ true)
      × (t ≡ files.text (root ++ rest))
unfolding confined
confined_lem files none b t h = absurd (cc)
confined_lem files (some root) none t h = absurd (cc)
confined_lem files (some root) (some p) t h = elim (Bool-cases (is_relative_to root p)) [
  | inl e ↦ elim (Bool-cases (files.is_dir p)) [
    | inl f ↦
        let (rest, q) = is_relative_to_sound root p e in
        (
          root,
          rest,
          refl,
          ap some q,
          subst (λ x. files.is_dir x ≡ true) q f,
          sym (text_of (rw (confined, e, f) at h)) ∙ ap (λ x. files.text x) q,
        )
    | inr f ↦ absurd (cc (rw (confined, e, f) at h))
  ]
  | inr e ↦ absurd (cc (rw (confined, e) at h))
]

-- A path that a request names is accepted, and resolved to a text, exactly where it is not blank, it
-- and the models directory of the project resolve, its parts are those of that directory and then
-- others or none, and it is a directory with this text.
pub validate_resume_checkpoint_path-Confined :
    (files : Files) (dir : Parts) (raw t : Text)
    → (validate_resume_checkpoint_path files dir (some raw) ≡ ok (some t))
      ↔ Confined files dir raw t
unfolding validate_resume_checkpoint_path confined
validate_resume_checkpoint_path-Confined files dir raw t = (accepted, accepts)
  where
    accepted :
        validate_resume_checkpoint_path files dir (some raw) ≡ ok (some t)
        → Confined files dir raw t
    accepted h = elim (Bool-cases (is_empty (strip raw))) [
      | inl e ↦ absurd (cc (rw (validate_resume_checkpoint_path, e) at h))
      | inr e ↦ (e, confined_lem files _ _ t (rw (validate_resume_checkpoint_path, e) at h))
    ]

    accepts :
        Confined files dir raw t
        → validate_resume_checkpoint_path files dir (some raw) ≡ ok (some t)
    accepts (e, (root, rest, a, b, d, q)) =
        rw (e, a, b, is_relative_to-append root rest, d) (ap (λ x. ok (some x)) (sym q))

find_job-append :
    (k : String) (js : List TrainingJob) (j : TrainingJob)
    → find_job k js ≡ none
    → find_job k (js ++ (j ∷ [])) ≡ (if str_eq j.id k then some j else none)
unfolding find_job
find_job-append k [] j h = refl
find_job-append k (i ∷ js) j h = elim (Bool-cases (str_eq i.id k)) [
  | inl e ↦ absurd (cc (rw (find_job, e) at h))
  | inr e ↦ rw e (find_job-append k js j (rw (find_job, e) at h))
]

find_job-append_other :
    (k : String) (js : List TrainingJob) (j : TrainingJob)
    → str_eq k j.id ≡ false
    → find_job k (js ++ (j ∷ [])) ≡ find_job k js
unfolding find_job
find_job-append_other k [] j n = ground (arith, n, eq_iff k j.id, eq_iff j.id k)
find_job-append_other k (i ∷ js) j n = elim (Bool-cases (str_eq i.id k)) [
  | inl e ↦ rw e refl
  | inr e ↦ rw e (find_job-append_other k js j n)
]

module _ (files : Files) (io : Io) (p : String) (j : TrainingJob) where
  poll_job-add_job :
      (e : Executor) → poll_job p j.id e ≡ none → poll_job p j.id (add_job files io p j e) ≡ some j
  unfolding poll_job add_job
  poll_job-add_job e h =
      rw (str_eq_self p, find_job-append j.id (e.jobs p) j h, str_eq_self j.id) refl

  poll_job-add_job_other :
      (e : Executor) (q i : String)
      → (str_eq q p ≡ false) ⊎ (str_eq i j.id ≡ false)
      → poll_job q i (add_job files io p j e) ≡ poll_job q i e
  unfolding poll_job add_job
  poll_job-add_job_other e q i (inl n) = rw n refl
  poll_job-add_job_other e q i (inr n) = elim (same_text q p) [
    | inr m ↦ rw m refl
    | inl s ↦ rw (s, str_eq_self p) (find_job-append_other i (e.jobs p) j n)
  ]

-- The job is in the queue and in its table, and nothing else of the two has changed.
pub record Submitted (e : Executor) (p k : String) (resume : Option Text) (d : Executor)
    : Type 0 where
  pub job : TrainingJob
  pub found : poll_job p k d ≡ some job
  pub status : job.status ≡ queued
  pub resumes : job.resume_checkpoint_path ≡ resume
  pub last : d.queue ≡ e.queue ++ ((p, k) ∷ [])
  pub others :
      (q i : String) → (str_eq q p ≡ false) ⊎ (str_eq i k ≡ false) → poll_job q i d ≡ poll_job q i e

-- A request for a job, in a known project, with an accepted path and a fresh id, returns where an
-- executor is wired: the job is queued, resumes from the path that was accepted, and its item is the
-- last one of the queue; the other items and all other jobs, a running one too, are as they were.
pub submit_job-Submitted :
    (files : Files) (io : Io) (p : String) (q : JobRequest) (e : Executor) (dir : Parts)
    (resume : Option Text)
    → files.project_dir p ≡ some dir
    → validate_resume_checkpoint_path files dir q.resume_checkpoint_path ≡ ok resume
    → poll_job p (files.new_id e.calls) e ≡ none
    → Returns
        (λ js d. Submitted e p (files.new_id e.calls) resume d)
        (submit_job files io true p q e)
unfolding submit_job submit_in submit_valid new_job enqueue poll_job add_job
submit_job-Submitted files io p q e dir resume known valid f =
    rw (known, valid)
      (let j = new_job files io q resume e in
        let d = add_job files io p j e in
        let f' : TrainingJob → TrainingJob = λ x. record x { status = queued } in
        record {
          job = updated (io.now d.calls) f' j;
          found =
              poll_job-set_job io p j.id f' d
              ∙ ap (mapped (updated (io.now d.calls) f')) (poll_job-add_job files io p j e f);
          status = refl;
          resumes = refl;
          last = refl;
          others = λ r i n.
              poll_job-set_job_other io p j.id r i f' d n
              ∙ poll_job-add_job_other files io p j e r i n;
        })

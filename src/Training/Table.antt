-- ===== src/Training/Table.antt =====
-- What an update of one job does to the job that a poll finds.
use misaka_asset_gene.Prelude.{
  String, ◌≡◌, refl, inl, inr, ◌⊎◌, Bool-cases, Option, none, some, List, [], ◌∷◌, str_eq, eq_iff,
  arith, true, false,
}
use misaka_asset_gene.Prelude.Int.{ℤ}
use misaka_asset_gene.Training.{TrainingJob, Executor, Io, find_job, update_job, poll_job, set_job}

pub same_text : (a b : String) → (a ≡ b) ⊎ (str_eq a b ≡ false)
same_text a b = elim (Bool-cases (str_eq a b)) [ inl e ↦ inl ((eq_iff a b).0 e) | inr e ↦ inr e ]

pub str_eq_self : (a : String) → str_eq a a ≡ true
str_eq_self a = ground (arith, eq_iff a a)

abbrev pub updated : ℤ → (TrainingJob → TrainingJob) → TrainingJob → TrainingJob
updated now f j = record (f j) { id = j.id; updated_at = now }

abbrev pub mapped : (TrainingJob → TrainingJob) → Option TrainingJob → Option TrainingJob
mapped f none = none
mapped f (some j) = some (f j)

apart : (a b c : String) → str_eq a b ≡ true → str_eq c b ≡ false → str_eq a c ≡ false
apart a b c h n = ground (arith, h, n, eq_iff a b, eq_iff c b, eq_iff a c)

find_job-update_job_other :
    (k i : String) (now : ℤ) (f : TrainingJob → TrainingJob) (js : List TrainingJob)
    → str_eq i k ≡ false
    → find_job i (update_job k now f js) ≡ find_job i js
unfolding find_job update_job
find_job-update_job_other k i now f [] n = refl
find_job-update_job_other k i now f (j ∷ js) n = elim (Bool-cases (str_eq j.id k)) [
  | inl e ↦ rw (e, apart j.id k i e n) (find_job-update_job_other k i now f js n)
  | inr e ↦ rw (e, find_job-update_job_other k i now f js n) refl
]

find_job-update_job :
    (k : String) (now : ℤ) (f : TrainingJob → TrainingJob) (js : List TrainingJob)
    → find_job k (update_job k now f js) ≡ mapped (updated now f) (find_job k js)
unfolding find_job update_job
find_job-update_job k now f [] = refl
find_job-update_job k now f (j ∷ js) = elim (Bool-cases (str_eq j.id k)) [
  | inl e ↦ rw (e, e) refl
  | inr e ↦ rw (e, e) (find_job-update_job k now f js)
]

module _ (io : Io) where
  pub poll_job-set_job :
      (p k : String) (f : TrainingJob → TrainingJob) (e : Executor)
      → poll_job p k (set_job io p k f e) ≡ mapped (updated (io.now e.calls) f) (poll_job p k e)
  unfolding poll_job set_job
  poll_job-set_job p k f e =
      rw (str_eq_self p) (find_job-update_job k (io.now e.calls) f (e.jobs p))

  pub poll_job-set_job_other :
      (p k q i : String) (f : TrainingJob → TrainingJob) (e : Executor)
      → (str_eq q p ≡ false) ⊎ (str_eq i k ≡ false)
      → poll_job q i (set_job io p k f e) ≡ poll_job q i e
  unfolding poll_job set_job
  poll_job-set_job_other p k q i f e (inl n) = rw n refl
  poll_job-set_job_other p k q i f e (inr n) = elim (same_text q p) [
    | inl s ↦ rw (s, str_eq_self p) (find_job-update_job_other k i (io.now e.calls) f (e.jobs p) n)
    | inr m ↦ rw m refl
  ]

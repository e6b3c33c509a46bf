-- ===== src/Training/Settled.antt =====
-- What the queue promises: a job that waits has its item in the queue, and no job is left running.
use misaka_asset_gene.Prelude.{
  suc, String, ◌≡◌, refl, subst, inl, inr, ◌⊎◌, Bool, Bool-cases, Option, none, some,
  some-injective, List, [], ◌∷◌, ◌++◌, any, str_eq, eq_iff, arith, true, false, ap, sym, ◌∙◌, ◌&&◌,
}
use misaka_asset_gene.Prelude.Int.{ℤ}
use misaka_asset_gene.Training.{
  TrainingJobStatus, planned, queued, running, completed, failed, blocked, TrainingJob, Command,
  RunResult, Event, reported, enqueued, cancelled, acquired, stopped, Io, Executor, poll_job,
  set_job, with_completion, with_failure, enqueue, cancel_found, cancel_job, status_of, with_status,
  with_progress, cancelled_before_start, lock_acquired, handle_event, finish_run, mark_running,
  succeeded, resume_path,
}
use misaka_asset_gene.Training.Checkpoints.{extract_output_dir_and_name}
use misaka_asset_gene.Training.Table.{
  same_text, updated, mapped, poll_job-set_job, poll_job-set_job_other,
}
use misaka_asset_gene.Training.Stable.{Stable, handle_events-kept}

-- The item of a job is in the queue.
abbrev pub waits : String → String → List (String × String) → Bool
waits p k q = any (λ i. str_eq i.0 p && str_eq i.1 k) q

abbrev pub Good : Bool → TrainingJobStatus → Type 0
Good w queued = w ≡ true
Good w running = ⊥
Good w _ = Unit

-- The jobs of the tables are good, but for those of `Ex`.
pub record Settled (Ex : String → String → Type 0) (e : Executor) : Type 0 where
  pub settled :
      (p k : String) (j : TrainingJob)
      → poll_job p k e ≡ some j
      → Ex p k ⊎ Good (waits p k e.queue) j.status

abbrev pub No : String → String → Type 0
No p k = ⊥

abbrev pub Only : String → String → String → String → Type 0
Only p k q i = (q ≡ p) × (i ≡ k)

waits_more :
    (p k : String) (q r : List (String × String)) → waits p k q ≡ true → waits p k (q ++ r) ≡ true
waits_more p k (i ∷ q) r h = elim (Bool-cases (str_eq i.0 p && str_eq i.1 k)) [
  | inl e ↦ rw e refl
  | inr e ↦ rw e (waits_more p k q r (rw e at h))
]
waits_more p k [] r h = absurd (cc)

pub waits_last : (p k : String) (q : List (String × String)) → waits p k (q ++ ((p, k) ∷ [])) ≡ true
waits_last p k [] = ground (arith, eq_iff p p, eq_iff k k)
waits_last p k (i ∷ q) = ground (arith, waits_last p k q)

Good-more : (w v : Bool) (st : TrainingJobStatus) → (w ≡ true → v ≡ true) → Good w st → Good v st
Good-more w v queued f g = f g
Good-more w v running f g = g
Good-more w v planned f g = tt
Good-more w v completed f g = tt
Good-more w v failed f g = tt
Good-more w v blocked f g = tt

mapped_status :
    (now : ℤ) (f : TrainingJob → TrainingJob) (o : Option TrainingJob) (u : TrainingJob)
    → mapped (updated now f) o ≡ some u
    → (j : TrainingJob) × (o ≡ some j) × ((f j).status ≡ u.status)
mapped_status now f none u h = absurd (cc)
mapped_status now f (some j) u h = (j, refl, ap (λ x. x.status) (some-injective h))

not-Only : (p k q i : String) → Only p k q i → (str_eq q p ≡ false) ⊎ (str_eq i k ≡ false) → ⊥
not-Only p k q i (a, b) (inl n) = ground (arith, a, n, eq_iff q p)
not-Only p k q i (a, b) (inr n) = ground (arith, b, n, eq_iff i k)

other-Good :
    (Ex Ex' : String → String → Type 0) (p k q i : String) (w v : Bool) (st : TrainingJobStatus)
    → (Ex' q i → Ex q i ⊎ Only p k q i)
    → (w ≡ true → v ≡ true)
    → (str_eq q p ≡ false) ⊎ (str_eq i k ≡ false)
    → Ex' q i ⊎ Good w st
    → Ex q i ⊎ Good v st
other-Good Ex Ex' p k q i w v st x m n (inr g) = inr (Good-more w v st m g)
other-Good Ex Ex' p k q i w v st x m n (inl y) = elim (x y) [
  | inl z ↦ inl z
  | inr o ↦ absurd (not-Only p k q i o n)
]

module _ (io : Io) {Ex : String → String → Type 0} where
  -- An update of the job `k` of `p` is good where the job is excepted or its new status is good.
  pub set_job-Settled :
      (Ex' : String → String → Type 0) (p k : String) (f : TrainingJob → TrainingJob) (e : Executor)
      (queue : List (String × String))
      → ((q i : String) → Ex' q i → Ex q i ⊎ Only p k q i)
      → ((q i : String) → waits q i e.queue ≡ true → waits q i queue ≡ true)
      → ((j : TrainingJob) → Ex p k ⊎ Good (waits p k queue) (f j).status)
      → Settled Ex' e
      → Settled Ex (record (set_job io p k f e) { queue = queue })
  unfolding set_job poll_job
  set_job-Settled Ex' p k f e queue x m g s = record {
    settled = λ q i. by_project q i (same_text q p);
  }
    where
      elsewhere :
          (q i : String) (u : TrainingJob)
          → (str_eq q p ≡ false) ⊎ (str_eq i k ≡ false)
          → poll_job q i (set_job io p k f e) ≡ some u
          → Ex q i ⊎ Good (waits q i queue) u.status
      elsewhere q i u n h =
          other-Good Ex Ex' p k q i (waits q i e.queue) (waits q i queue) u.status (x q i) (m q i) n
            (s.settled q i u (sym (poll_job-set_job_other io p k q i f e n) ∙ h))

      here :
          (u : TrainingJob)
          → poll_job p k (set_job io p k f e) ≡ some u
          → Ex p k ⊎ Good (waits p k queue) u.status
      here u h =
          let (j, a, b) =
            mapped_status (io.now e.calls) f (poll_job p k e) u
              (sym (poll_job-set_job io p k f e) ∙ h) in
          subst (λ st. Ex p k ⊎ Good (waits p k queue) st) b (g j)

      by_project :
          (q i : String)
          → (q ≡ p) ⊎ (str_eq q p ≡ false)
          → (u : TrainingJob) → poll_job q i (set_job io p k f e) ≡ some u
          → Ex q i ⊎ Good (waits q i queue) u.status
      by_project q i (inr n) u h = elsewhere q i u (inl n) h
      by_project q i (inl a) u h = elim (same_text i k) [
        | inl b ↦ rw (a, b) (here u (rw (a, b) at h))
        | inr n ↦ elsewhere q i u (inr n) h
      ]

  -- The calls of other threads, and the reports of the process of an excepted job.
  cancel_found-Settled :
      (p k : String) (o : Option TrainingJobStatus) (e : Executor)
      → Settled Ex e
      → Settled Ex (cancel_found io p k o e).1
  unfolding cancel_found poll_job
  cancel_found-Settled p k (some queued) e s =
      set_job-Settled Ex p k (with_status failed cancelled_before_start) e e.queue (λ q i x. inl x)
        (λ q i h. h) (λ j. inr tt) s
  cancel_found-Settled p k (some running) e s = record { settled = s.settled }
  cancel_found-Settled p k none e s = s
  cancel_found-Settled p k (some planned) e s = s
  cancel_found-Settled p k (some completed) e s = s
  cancel_found-Settled p k (some failed) e s = s
  cancel_found-Settled p k (some blocked) e s = s

  pub enqueue-Settled : (p k : String) (e : Executor) → Settled Ex e → Settled Ex (enqueue io p k e)
  unfolding enqueue
  enqueue-Settled p k e s =
      set_job-Settled Ex p k (λ j. record j { status = queued }) e (e.queue ++ ((p, k) ∷ []))
        (λ q i x. inl x) (λ q i h. waits_more q i e.queue ((p, k) ∷ []) h)
        (λ j. inr (waits_last p k e.queue)) s

  handle_event-Settled :
      (p k : String) (v : Event) (e : Executor)
      → Ex p k
      → Settled Ex e
      → Settled Ex (handle_event io p k v e)
  unfolding handle_event cancel_job poll_job
  handle_event-Settled p k (reported pct label) e x s =
      set_job-Settled Ex p k (with_progress pct label) e e.queue (λ q i y. inl y) (λ q i h. h)
        (λ j. inl x) s
  handle_event-Settled p k (enqueued q i) e x s = enqueue-Settled q i e s
  handle_event-Settled p k (cancelled q i) e x s =
      cancel_found-Settled q i (status_of (poll_job q i e)) e s
  handle_event-Settled p k (acquired name) e x s = record { settled = s.settled }
  handle_event-Settled p k stopped e x s = record { settled = s.settled }

  pub finish_run-Settled :
      (Ex' : String → String → Type 0) (p k : String) (c : Command) (r : RunResult) (e : Executor)
      → ((q i : String) → Ex' q i → Ex q i ⊎ Only p k q i)
      → Settled Ex' e
      → Settled Ex (finish_run io p k c r e).1
  unfolding finish_run poll_job
  finish_run-Settled Ex' p k c r e x s = elim (Bool-cases (succeeded r)) [
    | inl q ↦
        rw q (set_job-Settled Ex' p k (with_completion r) e e.queue x (λ q i h. h) (λ j. inr tt) s)
    | inr q ↦ rw q (
        set_job-Settled Ex' p k
          (with_failure r (resume_path io e.calls (extract_output_dir_and_name c.args)))
          (record e { calls = suc e.calls }) e.queue x (λ q i h. h) (λ j. inr tt)
          (record { settled = s.settled }))
  ]

  pub Settled-Stable : (p k : String) → Ex p k → Stable io p k (Settled Ex)
  unfolding mark_running poll_job
  Settled-Stable p k x = record {
    called = λ e s. record { settled = s.settled };
    marked = λ e s. record {
      settled =
          (set_job-Settled Ex p k (with_status running lock_acquired) e e.queue (λ q i y. inl y)
            (λ q i h. h) (λ j. inl x) s).settled;
    };
    meanwhile = λ n c e s.
        handle_events-kept io p k (Settled Ex) (λ v e. handle_event-Settled p k v e x)
          (io.run n c).0 e s;
    finished = λ c r e s. finish_run-Settled Ex p k c r e (λ q i y. inl y) s;
  }

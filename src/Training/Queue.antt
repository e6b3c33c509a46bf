-- ===== src/Training/Queue.antt =====
-- An item of the queue, and the queue until it is empty.
use misaka_asset_gene.Prelude.{
  ℕ, zero, suc, String, ◌≡◌, refl, subst, inl, inr, ◌⊎◌, Bool, Bool-cases, Option, none, some,
  some-injective, List, [], ◌∷◌, str_eq, arith, false, ok, err, Result, ap, sym, ◌∙◌,
}
use misaka_asset_gene.Prelude.Raising.{Holds, Ensures, Ensures-bind}
use misaka_asset_gene.Scheduler.{Error, try_begin_training}
use misaka_asset_gene.Training.{
  TrainingJobStatus, planned, queued, running, completed, failed, blocked, TrainingJob, Command,
  RunResult, Io, Executor, ExecutorError, poll_job, set_job, with_status, internal_error,
  models_active, finish_run, train, train_found, release, run_locked, run_job, settle_item,
  process_item, take_item, run_until_idle, is_queued,
}
use misaka_asset_gene.Training.Stable.{
  either_branch, Keeps-resolve_command, Keeps-run_command, train_found-kept,
}
use misaka_asset_gene.Training.Table.{same_text}
use misaka_asset_gene.Training.Settled.{
  waits, Good, Settled, No, Only, set_job-Settled, finish_run-Settled, Settled-Stable,
}

ended : (st : TrainingJobStatus) (w v : Bool) → is_queued st ≡ false → Good w st → Good v st
unfolding is_queued
ended queued w v q g = absurd (cc)
ended running w v q g = g
ended planned w v q g = tt
ended completed w v q g = tt
ended failed w v q g = tt
ended blocked w v q g = tt

waits_rest :
    (p k q i : String) (rest : List (String × String))
    → (str_eq p q ≡ false) ⊎ (str_eq k i ≡ false)
    → waits q i ((p, k) ∷ rest) ≡ waits q i rest
waits_rest p k q i rest n = ground (arith, n)

-- The item is taken from the queue: only its job may wait without one.
popped :
    (p k : String) (rest : List (String × String)) (e : Executor)
    → e.queue ≡ (p, k) ∷ rest
    → Settled No e
    → Settled (Only p k) (record e { queue = rest })
unfolding poll_job
popped p k rest e h s = record { settled = λ q i. by_project q i (same_text p q) }
  where
    still :
        (q i : String) (j : TrainingJob)
        → (str_eq p q ≡ false) ⊎ (str_eq k i ≡ false)
        → poll_job q i e ≡ some j
        → Only p k q i ⊎ Good (waits q i rest) j.status
    still q i j n f = elim (s.settled q i j f) [
      | inl x ↦ absurd x
      | inr g ↦ inr (subst (λ w. Good w j.status) (ap (waits q i) h ∙ waits_rest p k q i rest n) g)
    ]

    by_project :
        (q i : String)
        → (p ≡ q) ⊎ (str_eq p q ≡ false)
        → (j : TrainingJob) → poll_job q i e ≡ some j
        → Only p k q i ⊎ Good (waits q i rest) j.status
    by_project q i (inr n) j f = still q i j (inl n) f
    by_project q i (inl a) j f = elim (same_text k i) [
      | inl b ↦ inl (sym a, sym b)
      | inr n ↦ still q i j (inr n) f
    ]

module _ (io : Io) (p k : String) where
  ended_run :
      (c : Command) (r : RunResult) (e : Executor)
      → Settled (Only p k) e
      → Holds (λ u. Settled No) (finish_run io p k c r e)
  unfolding finish_run
  ended_run c r e s = finish_run-Settled io (Only p k) p k c r e (λ q i x. inr x) s

  -- A job that is trained to its end is good, whatever was excepted of it.
  train-Settled : Ensures (Settled (Only p k)) (λ u. Settled No) (train io p k)
  unfolding train
  train-Settled =
      let stable = Settled-Stable io {Ex = Only p k} p k (refl, refl) in
      Ensures-bind _ _ (record { kept = stable.marked })
        (λ u. Ensures-bind _ _ (Keeps-resolve_command io p k _ stable) (λ c.
          Ensures-bind _ _ (Keeps-run_command io p k _ stable c)
            (λ r. record { ensured = ended_run c r })))

  fail :
      (f : TrainingJob → TrainingJob) (e : Executor)
      → ((j : TrainingJob) → (f j).status ≡ failed)
      → Settled (Only p k) e
      → Settled No (set_job io p k f e)
  unfolding set_job
  fail f e h s =
      set_job-Settled io (Only p k) p k f e e.queue (λ q i x. inr x) (λ q i w. w)
        (λ j. inr (subst (Good (waits p k e.queue)) (sym (h j)) tt)) s

  -- The end of an item: an exception fails its job.
  settle_item-Settled :
      (r : Result ExecutorError (Unit {0}) × Executor)
      → Holds (λ u. Settled No) r
      → Settled (Only p k) r.1
      → Settled No (settle_item io p k r)
  settle_item-Settled (ok u, e) h s = h
  settle_item-Settled (err x, e) h s = fail (with_status failed internal_error) e (λ j. refl) s

  release-Settled :
      (r : Result ExecutorError (Unit {0}) × Executor)
      → Settled No (settle_item io p k r)
      → Settled No (settle_item io p k (release io r))
  unfolding release poll_job set_job
  release-Settled (ok u, e) s = record { settled = s.settled }
  release-Settled (err x, e) s = record { settled = s.settled }

  -- The job that is found is excepted only where it waits.
  here :
      (e : Executor)
      → Settled (Only p k) e
      → ((j : TrainingJob) → poll_job p k e ≡ some j → Good (waits p k e.queue) j.status)
      → Settled No e
  here e s g = record {
    settled = λ q i j f. elim (s.settled q i j f) [
      | inr x ↦ inr x
      | inl x ↦ inr (rw (x.0, x.1) (g j (rw (x.0, x.1) at f)))
    ];
  }

  train_found-Settled :
      (o : Option TrainingJob) (e : Executor)
      → poll_job p k e ≡ o
      → Settled (Only p k) e
      → ((j : TrainingJob)
          → o ≡ some j
          → is_queued j.status ≡ false
          → Good (waits p k e.queue) j.status)
      → Settled No (settle_item io p k (train_found io p k o e))
  unfolding train_found
  train_found-Settled none e f s g = here e s (λ j h. absurd (cc))
  train_found-Settled (some j) e f s g = elim (Bool-cases (is_queued j.status)) [
    | inl q ↦
        let kept : Settled (Only p k) (train io p k e).1 =
          rw (train_found, q) at
            (train_found-kept io p k _ (Settled-Stable io {Ex = Only p k} p k (refl, refl)) (some j)
              e s) in
        rw q (settle_item-Settled (train io p k e) (train-Settled.ensured e s) kept)
    | inr q ↦ rw q (
        here e s (λ i h.
          subst (λ x. Good (waits p k e.queue) x.status) (some-injective (sym f ∙ h)) (g j refl q)))
  ]

  run_locked-Settled :
      (r : Result Error (List String)) (e : Executor)
      → Settled (Only p k) e
      → ((j : TrainingJob)
          → poll_job p k e ≡ some j
          → is_queued j.status ≡ false
          → Good (waits p k e.queue) j.status)
      → Settled No (settle_item io p k (run_locked io p k r e))
  unfolding run_locked
  run_locked-Settled (err x) e s g = fail (with_status failed internal_error) e (λ j. refl) s
  run_locked-Settled (ok []) e s g =
      release-Settled (train_found io p k (poll_job p k e) e)
        (train_found-Settled (poll_job p k e) e refl s g)
  run_locked-Settled (ok (n ∷ ns)) e s g =
      fail (with_status failed (models_active (n ∷ ns))) e (λ j. refl) s

pub process_item-Settled :
    (io : Io) (i : String × String) (rest : List (String × String)) (e : Executor)
    → e.queue ≡ i ∷ rest
    → Settled No e
    → Settled No (process_item io i (record e { queue = rest }))
unfolding process_item run_job poll_job
process_item-Settled io (p, k) rest e h s =
    let b = try_begin_training k e.scheduler in
    run_locked-Settled io p k b.0 (record e { queue = rest; scheduler = b.1 })
      (record { settled = (popped p k rest e h s).settled })
      (λ j f q. elim (s.settled p k j f) [
        | inl x ↦ absurd x
        | inr g ↦ ended j.status (waits p k e.queue) (waits p k rest) q g
      ])

take_item-Settled :
    (io : Io) (turns : Executor → Executor) (q : List (String × String)) (e : Executor)
    → ((d : Executor) → Settled No d → Settled No (turns d))
    → e.queue ≡ q
    → Settled No e
    → Settled No (take_item io turns q e)
unfolding take_item
take_item-Settled io turns [] e go h s = s
take_item-Settled io turns (i ∷ rest) e go h s =
    either_branch (Settled No) e.stop_event s
      (go (process_item io i (record e { queue = rest })) (process_item-Settled io i rest e h s))

-- Any number of turns of the worker: a job that waits has its item, and no job is left running.
pub run_until_idle-Settled :
    (io : Io) (n : ℕ) (e : Executor) → Settled No e → Settled No (run_until_idle io n e)
unfolding run_until_idle
run_until_idle-Settled io zero e s = s
run_until_idle-Settled io (suc n) e s =
    take_item-Settled io (run_until_idle io n) e.queue e (run_until_idle-Settled io n) refl s

-- ===== src/Training/Frame.antt =====
-- The scheduler during a job: the lock is taken, no model moves, and the lock is given back.
use misaka_asset_gene.Prelude.{
  String, ◌≡◌, refl, inl, inr, Bool-cases, Option, none, some, List-cases, str_eq, ok, err, Result,
  ap, sym, ◌∙◌,
}
use misaka_asset_gene.Scheduler.{Scheduler, end_training, active_names}
use misaka_asset_gene.Scheduler.Calls.{try_begin_empty, try_begin_locks, try_begin_refuses}
use misaka_asset_gene.Scheduler.Lock.{lock, acquire_locked, end_training_frees}
use misaka_asset_gene.Training.Stable.{Stable, handle_events-kept, train_found-kept}
use misaka_asset_gene.Training.{
  ExecutorError, settle_item, status_of, TrainingJobStatus, planned, completed, failed, blocked,
  TrainingJob, Command, RunResult, Event, reported, enqueued, cancelled, acquired, stopped, Io,
  Executor, poll_job, queued, running, set_job, enqueue, cancel_job, cancel_found, handle_event,
  finish_run, mark_running, train_found, release, run_locked, run_job, process_item, succeeded,
}

-- The scheduler is `s`, with the lock taken for a job.
abbrev pub Locked : String → Scheduler → Executor → Type 0
Locked k s e = e.scheduler ≡ lock k s

module _ (io : Io) (k : String) (s : Scheduler) where
  cancel_found-Locked :
      (p i : String) (o : Option TrainingJobStatus) (e : Executor)
      → Locked k s e
      → Locked k s (cancel_found io p i o e).1
  unfolding cancel_found set_job
  cancel_found-Locked p i none e h = h
  cancel_found-Locked p i (some planned) e h = h
  cancel_found-Locked p i (some queued) e h = h
  cancel_found-Locked p i (some running) e h = h
  cancel_found-Locked p i (some completed) e h = h
  cancel_found-Locked p i (some failed) e h = h
  cancel_found-Locked p i (some blocked) e h = h

  cancel_job-Locked :
      (p i : String) (e : Executor) → Locked k s e → Locked k s (cancel_job io p i e).1
  unfolding cancel_job
  cancel_job-Locked p i e h = cancel_found-Locked p i (status_of (poll_job p i e)) e h

  handle_event-Locked :
      (p i : String) (v : Event) (e : Executor)
      → Locked k s e
      → Locked k s (handle_event io p i v e)
  unfolding handle_event enqueue set_job
  handle_event-Locked p i (reported pct label) e h = h
  handle_event-Locked p i (enqueued q a) e h = h
  handle_event-Locked p i (cancelled q a) e h = cancel_job-Locked q a e h
  handle_event-Locked p i (acquired name) e h = rw (h, acquire_locked name k s) refl
  handle_event-Locked p i stopped e h = h

  finish_run-Locked :
      (p : String) (c : Command) (r : RunResult) (e : Executor)
      → Locked k s e
      → Locked k s (finish_run io p k c r e).1
  unfolding finish_run set_job
  finish_run-Locked p c r e h = elim (Bool-cases (succeeded r)) [ inl q ↦ rw q h | inr q ↦ rw q h ]

  Locked-Stable : (p : String) → Stable io p k (Locked k s)
  unfolding mark_running set_job
  Locked-Stable p = record {
    called = λ e h. h;
    marked = λ e h. h;
    meanwhile = λ n c e h.
        handle_events-kept io p k (Locked k s) (handle_event-Locked p k) (io.run n c).0 e h;
    finished = finish_run-Locked p;
  }

abbrev free : Scheduler → Scheduler
free s = record s { training_lock_holder = none }

module _ (io : Io) where
  released :
      (p k : String) (s : Scheduler) (o : Option TrainingJob) (e : Executor)
      → Locked k s e
      → (release io (train_found io p k o e)).1.scheduler ≡ free s
  unfolding release
  released p k s o e h =
      ap (λ x. (end_training x).1)
        (train_found-kept io p k (Locked k s) (Locked-Stable io k s p) o e h)
      ∙ ap (λ x. x.1) (end_training_frees (lock k s))

  settle_scheduler :
      (p k : String) (r : Result ExecutorError (Unit {0}) × Executor)
      → (settle_item io p k r).scheduler ≡ r.1.scheduler
  unfolding set_job
  settle_scheduler p k (ok u, e) = refl
  settle_scheduler p k (err x, e) = refl

  run_job_scheduler :
      (p k : String) (e : Executor)
      → e.scheduler.training_lock_holder ≡ none
      → (run_job io p k e).1.scheduler ≡ e.scheduler
  unfolding run_job run_locked set_job
  run_job_scheduler p k e h = elim (Bool-cases (str_eq k "")) [
    | inl q ↦ rw (try_begin_empty k e.scheduler q) refl
    | inr q ↦ elim (List-cases (active_names e.scheduler)) [
      | inl a ↦ rw (try_begin_locks k e.scheduler q a) (
          released p k e.scheduler (poll_job p k e) _ refl
          ∙ ap (λ o. record e.scheduler { training_lock_holder = o }) (sym h))
      | inr (n, ns, a) ↦ rw (try_begin_refuses k e.scheduler n ns q a) refl
    ]
  ]

  -- A job leaves the scheduler as it found it, whether it ends, fails or raises, and whatever models
  -- other threads ask for while it runs: the lock is free again, and no model has moved.
  pub process_item_scheduler :
      (i : String × String) (e : Executor)
      → e.scheduler.training_lock_holder ≡ none
      → (process_item io i e).scheduler ≡ e.scheduler
  unfolding process_item
  process_item_scheduler (p, k) e h =
      settle_scheduler p k (run_job io p k e) ∙ run_job_scheduler p k e h

-- ===== src/Training/Outcome.antt =====
-- What becomes of a job that is trained.
use misaka_asset_gene.Prelude.{
  ℕ, sym, Option-cases, suc, String, continue, ◌≡◌, refl, subst, ap, ◌∙◌, inl, inr, Bool-cases,
  if◌then◌else◌, Option, none, some, List, [], str_eq, false, ok, err, Result,
}
use misaka_asset_gene.Prelude.Raising.{◌>>=◌}
use misaka_asset_gene.Scheduler.{active_names}
use misaka_asset_gene.Scheduler.Calls.{try_begin_locks}
use misaka_asset_gene.Training.{
  TrainingJobStatus, queued, running, completed, failed, TrainingJob, Command, RunResult, Event, Io,
  Executor, ExecutorError, poll_job, set_job, handle_events, asked, internal_error, no_command,
  io_error, of_io, live_command, built_command, found_command, resolve_command, run_command,
  finish_run, mark_running, train, train_found, release, run_locked, run_job, settle_item,
  process_item, succeeded, is_queued, with_status, with_completion, with_failure, lock_acquired,
  resume_path,
}
use misaka_asset_gene.Training.Checkpoints.{extract_output_dir_and_name}
use misaka_asset_gene.Training.Table.{updated, mapped, poll_job-set_job}
use misaka_asset_gene.Training.Stable.{handle_events-kept}
use misaka_asset_gene.Training.Found.{Found, set_job_status, handle_event-Found}

-- What the end of a run makes of its job; there is no result where something raised.
abbrev pub ended_status : Option RunResult → TrainingJobStatus
ended_status none = failed
ended_status (some r) = if succeeded r then completed else failed

abbrev result_of : Result String RunResult → Option RunResult
result_of (ok r) = some r
result_of (err x) = none

-- How the queued job `j` runs and what its process returns, where the calls to the outside are counted
-- from `n`: its command is the one that was enqueued
-- with it, or else the one that is built for it once it is marked as running.
pub data Ran (io : Io) (p : String) (j : TrainingJob) (command : Option Command) (n : ℕ)
    : Option RunResult → Type 0 where
  pending :
      (c : Command) (w : List Event × Result String RunResult)
      → command ≡ some c
      → io.run (suc n) c ≡ w
      → Ran io p j command n (result_of w.1)
  live :
      (build : ℕ → String → TrainingJob → Result String Command) (c : Command)
      (w : List Event × Result String RunResult)
      → command ≡ none
      → io.build_live_command ≡ some build
      → build (suc n) p (updated (io.now n) (with_status running lock_acquired) j) ≡ ok c
      → io.run (suc (suc n)) c ≡ w
      → Ran io p j command n (result_of w.1)
  not_built :
      (build : ℕ → String → TrainingJob → Result String Command) (x : String)
      → command ≡ none
      → io.build_live_command ≡ some build
      → build (suc n) p (updated (io.now n) (with_status running lock_acquired) j) ≡ err x
      → Ran io p j command n none
  not_wired : command ≡ none → io.build_live_command ≡ none → Ran io p j command n none

module _ (io : Io) (p k : String) where
  finish_run-Found :
      (c : Command) (r : RunResult) (e : Executor)
      → Found p k e
      → (u : TrainingJob) × (poll_job p k (finish_run io p k c r e).1 ≡ some u)
        × (u.status ≡ ended_status (some r))
  unfolding finish_run poll_job
  finish_run-Found c r e h = elim (Bool-cases (succeeded r)) [
    | inl q ↦ rw q (set_job_status io p k (with_completion r) e completed (λ j. refl) h)
    | inr q ↦ rw q (
        set_job_status io p k
          (with_failure r (resume_path io e.calls (extract_output_dir_and_name c.args)))
          (record e { calls = suc e.calls }) failed (λ j. refl) h)
  ]

  abbrev Ends : Result ExecutorError (Unit {0}) × Executor → Option RunResult → Type 0
  Ends d r =
      (u : TrainingJob) × (poll_job p k (settle_item io p k d) ≡ some u)
      × (u.status ≡ ended_status r)

  raised : (x : ExecutorError) (e : Executor) → Found p k e → Ends (err x, e) none
  raised x e h = set_job_status io p k (with_status failed internal_error) e failed (λ j. refl) h

  ended :
      (c : Command) (w : List Event × Result String RunResult) (e : Executor)
      → Found p k e
      → io.run e.calls c ≡ w
      → Ends (continue (finish_run io p k c) (run_command io p k c e)) (result_of w.1)
  unfolding run_command asked set_job poll_job finish_run
  ended c (vs, o) e h ran =
      let m : Executor = handle_events io p k vs (record e { calls = suc e.calls }) in
      let here : Found p k (record m { calls = suc m.calls }) =
        handle_events-kept io p k (Found p k) (handle_event-Found io p k) vs
          (record e { calls = suc e.calls }) h in
      rw ran (by_result o (record m { calls = suc m.calls }) here)
    where
      by_result :
          (o : Result String RunResult) (d : Executor)
          → Found p k d
          → Ends (continue (finish_run io p k c) (of_io o, d)) (result_of o)
      by_result (ok r) d here = finish_run-Found c r d here
      by_result (err x) d here = raised (io_error x) d here

  marked :
      (j : TrainingJob) (e : Executor)
      → poll_job p k e ≡ some j
      → poll_job p k (mark_running io p k e).1
        ≡ some (updated (io.now e.calls) (with_status running lock_acquired) j)
  unfolding mark_running poll_job
  marked j e f =
      poll_job-set_job io p k (with_status running lock_acquired) e
      ∙ ap (mapped (updated (io.now e.calls) (with_status running lock_acquired))) f

  abbrev Trains : TrainingJob → Executor → Type 0
  Trains j e =
      (r : Option RunResult) × Ran io p j (e.pending_commands k) e.calls r × Ends (train io p k e) r

  -- No command was enqueued: one is built.
  trained_live :
      (j : TrainingJob) (e : Executor)
      (b : Option (ℕ → String → TrainingJob → Result String Command))
      → poll_job p k e ≡ some j
      → e.pending_commands k ≡ none
      → io.build_live_command ≡ b
      → Trains j e
  unfolding train ◌>>=◌ resolve_command found_command live_command built_command asked mark_running
      set_job
  trained_live j e none f q g =
      let here = marked j e f in
      (
        none,
        subst (λ o. Ran io p j o e.calls none) (sym q) (not_wired refl g),
        rw (q, here, g) (raised (no_command j.id) (mark_running io p k e).1 (_, here)),
      )
  trained_live j e (some build) f q g =
      let here = marked j e f in
      by_build
        (build (suc e.calls) p (updated (io.now e.calls) (with_status running lock_acquired) j))
        refl
    where
      by_build :
          (o : Result String Command)
          → build (suc e.calls) p (updated (io.now e.calls) (with_status running lock_acquired) j)
            ≡ o
          → Trains j e
      by_build (err x) h = (
        none,
        subst (λ o. Ran io p j o e.calls none) (sym q) (not_built build x refl g h),
        rw (q, marked j e f, g, h)
            (raised (io_error x) (record (mark_running io p k e).1 { calls = suc (suc e.calls) })
              (_, marked j e f)),
      )
      by_build (ok c) h =
          let w = io.run (suc (suc e.calls)) c in
          (
            result_of w.1,
            subst (λ o. Ran io p j o e.calls (result_of w.1)) (sym q)
                (live build c w refl g h refl),
            rw (q, marked j e f, g, h)
                (ended c w (record (mark_running io p k e).1 { calls = suc (suc e.calls) })
                  (_, marked j e f) refl),
          )

  trained : (j : TrainingJob) (e : Executor) → poll_job p k e ≡ some j → Trains j e
  unfolding train ◌>>=◌ resolve_command found_command mark_running set_job
  trained j e f = elim (Option-cases (e.pending_commands k)) [
    | inl q ↦ trained_live j e io.build_live_command f q refl
    | inr (c, q) ↦
        let w = io.run (suc e.calls) c in
        (
          result_of w.1,
          pending c w q refl,
          rw q (ended c w (mark_running io p k e).1 (_, marked j e f) refl),
        )
  ]

release-poll :
    (io : Io) (p k : String) (r : Result ExecutorError (Unit {0}) × Executor)
    → poll_job p k (settle_item io p k (release io r)) ≡ poll_job p k (settle_item io p k r)
unfolding release poll_job set_job
release-poll io p k (ok u, e) = refl
release-poll io p k (err x, e) = refl

-- An item of the queue whose job is queued and has an id that is not empty, taken while no model is
-- active, is run to its end: with the command that was enqueued with the job, or else with the one
-- that is built for it. The job is then completed where the process returns with exit code zero, and
-- failed where it returns with another one, where the run raises and where no command is built. This
-- holds whatever happens during the run, a cancellation of the job too.
pub process_item_outcome :
    (io : Io) (p k : String) (j : TrainingJob) (e : Executor)
    → str_eq k "" ≡ false
    → active_names e.scheduler ≡ []
    → poll_job p k e ≡ some j
    → j.status ≡ queued
    → (r : Option RunResult) × Ran io p j (e.pending_commands k) e.calls r
      × ((u : TrainingJob) × (poll_job p k (process_item io (p, k) e) ≡ some u)
          × (u.status ≡ ended_status r))
unfolding process_item run_job run_locked train_found poll_job is_queued
process_item_outcome io p k j e n a f q =
    let d : Executor = record e {
      scheduler = record e.scheduler { training_lock_holder = some k };
    } in
    let (r, ran, (u, g, o)) = trained io p k j d f in
    (
      r,
      ran,
      rw (try_begin_locks k e.scheduler n a, f, q) (u, release-poll io p k (train io p k d) ∙ g, o),
    )

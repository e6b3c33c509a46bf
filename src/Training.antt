-- ===== src/Training.antt =====
-- core/training/executor.py: the queue of training jobs over the scheduler's training lock. What the
-- executor calls (the clock, the asset store, the builders of a command line, the process) is the
-- record `Io`: the answer to the n-th call. While a process runs it reports progress and other threads
-- call in between, each call as one step, since each takes the lock: a run is a list of such events.
pub mod Checkpoints
pub mod Table
pub mod Stable
pub mod Frame
pub mod Settled
pub mod Queue
pub mod Drain
pub mod Found
pub mod Outcome
pub mod Service
mod Examples
use misaka_asset_gene.Prelude.{
  ℕ, zero, suc, ◌+◌, String, Bool, true, false, not, ◌&&◌, ◌||◌, Option, none, some, List, [], ◌∷◌,
  ◌++◌, map, str_eq, if◌then◌else◌, any, Result, ok, err, Exec, pure,
}
use misaka_asset_gene.Prelude.Raising.{◌>>=◌, ◌>>◌}
use misaka_asset_gene.Prelude.Int.{ℤ, pos}
use misaka_asset_gene.Dialog.{Modality, image, voice, is_empty}
use misaka_asset_gene.Network.{Text}
use misaka_asset_gene.Scheduler.{Error, Scheduler, acquire, end_training, try_begin_training}
use misaka_asset_gene.Training.Checkpoints.{discover_resume_checkpoint, extract_output_dir_and_name}

pub data TrainingJobStatus : Type 0 where
  planned queued running completed failed blocked : TrainingJobStatus

-- The note of a job: one constructor for each text of the source.
pub data Note : Type 0 where
  job_created cancelled_before_start lock_acquired finished internal_error : Note
  models_active : List String → Note
  exit_with : ℤ → Note

pub record TrainingJob : Type 0 where
  pub id : String
  pub title : Text
  pub modality : Modality
  pub worker : Text
  pub dataset_path : Text
  pub status : TrainingJobStatus
  pub note : Note
  pub progress : ℤ
  pub progress_label : Option Text
  pub exit_code : Option ℤ
  pub stderr_tail : Option Text
  pub resume_checkpoint_path : Option Text
  pub created_at : ℤ
  pub updated_at : ℤ

pub record Command : Type 0 where
  pub args : List Text
  pub cwd : Text

pub record RunResult : Type 0 where
  pub exit_code : ℤ
  pub stderr_tail : Text

pub succeeded : RunResult → Bool
succeeded r = elim r.exit_code [ pos n ↦ elim n [ zero ↦ true | suc k ↦ false ] | _ ↦ false ]

-- What happens during a run: a report of the process, or a call of another thread.
pub data Event : Type 0 where
  reported : ℤ → Text → Event
  enqueued cancelled : String → String → Event
  acquired : String → Event
  stopped : Event

-- `build_live_command` answers for `_build_live_command`, which needs both resolvers.
pub record Io : Type 0 where
  pub now : ℕ → ℤ
  pub build_live_command : Option (ℕ → String → TrainingJob → Result String Command)
  pub run : ℕ → Command → List Event × Result String RunResult
  -- The subdirectories of a path that is a directory, and the path of one of them.
  pub subdirectories : ℕ → Text → Option (List Text)
  pub resolve : Text → Text → Text

-- `jobs` is the file of each project, `cancels` counts the signals to the runner.
pub record Executor : Type 0 where
  pub jobs : String → List TrainingJob
  pub scheduler : Scheduler
  pub queue : List (String × String)
  pub current_job_id : Option String
  pub pending_commands : String → Option Command
  pub stop_event : Bool
  pub cancels : ℕ
  pub calls : ℕ

pub data ExecutorError : Type 0 where
  scheduler_error : Error → ExecutorError
  io_error : String → ExecutorError
  job_not_found : String → String → ExecutorError
  no_command : String → ExecutorError

abbrev pub Work : Type 0 → Type 0
Work = Exec Executor ExecutorError

pub is_queued : TrainingJobStatus → Bool
is_queued queued = true
is_queued _ = false

pub find_job : String → List TrainingJob → Option TrainingJob
find_job k [] = none
find_job k (j ∷ js) = let rest = find_job k js in if str_eq j.id k then some j else rest

pub update_job : String → ℤ → (TrainingJob → TrainingJob) → List TrainingJob → List TrainingJob
update_job k now f js =
    map (λ j. if str_eq j.id k then record (f j) { id = j.id; updated_at = now } else j) js

-- `_write_jobs` of a project.
abbrev pub write_jobs :
    String → List TrainingJob → (String → List TrainingJob) → String → List TrainingJob
write_jobs p js jobs q = if str_eq q p then js else jobs q

pub poll_job : String → String → Executor → Option TrainingJob
unfolding find_job
poll_job p k e = find_job k (e.jobs p)

abbrev pub status_of : Option TrainingJob → Option TrainingJobStatus
status_of none = none
status_of (some j) = some j.status

abbrev pub of_io : {A : Type 0} → Result String A → Result ExecutorError A
of_io (ok a) = ok a
of_io (err m) = err (io_error m)

-- The changes of a job that the executor makes.
abbrev pub with_status : TrainingJobStatus → Note → TrainingJob → TrainingJob
with_status st n j = record j { status = st; note = n }

abbrev pub with_progress : ℤ → Text → TrainingJob → TrainingJob
with_progress pct label j = record j { progress = pct; progress_label = some label }

abbrev pub completed_label : Text
completed_label = b'C' ∷ b'o' ∷ b'm' ∷ b'p' ∷ b'l' ∷ b'e' ∷ b't' ∷ b'e' ∷ b'd' ∷ []

abbrev pub with_completion : RunResult → TrainingJob → TrainingJob
with_completion r j = record j {
  status = completed;
  progress = pos 100;
  progress_label = some completed_label;
  exit_code = some r.exit_code;
  note = finished;
}

abbrev pub with_failure : RunResult → Option Text → TrainingJob → TrainingJob
with_failure r resume j = record j {
  status = failed;
  exit_code = some r.exit_code;
  stderr_tail = if is_empty r.stderr_tail then none else some r.stderr_tail;
  note = exit_with r.exit_code;
  resume_checkpoint_path = resume;
}

module _ (io : Io) where
  -- The jobs of a project are read, one of them is updated, and they are written.
  pub set_job : String → String → (TrainingJob → TrainingJob) → Executor → Executor
  unfolding update_job
  set_job p k f e = record e {
    jobs = write_jobs p (update_job k (io.now e.calls) f (e.jobs p)) e.jobs;
    calls = suc e.calls;
  }

  pub enqueue : String → String → Executor → Executor
  unfolding set_job
  enqueue p k e = record (set_job p k (λ j. record j { status = queued }) e) {
    queue = e.queue ++ ((p, k) ∷ []);
  }

  pub cancel_found : String → String → Option TrainingJobStatus → Executor → Bool × Executor
  unfolding set_job
  cancel_found p k (some queued) e =
      (true, set_job p k (with_status failed cancelled_before_start) e)
  cancel_found p k (some running) e = (true, record e { cancels = suc e.cancels })
  cancel_found p k _ e = (false, e)

  pub cancel_job : String → String → Executor → Bool × Executor
  unfolding poll_job cancel_found
  cancel_job p k e = cancel_found p k (status_of (poll_job p k e)) e

  pub handle_event : String → String → Event → Executor → Executor
  unfolding enqueue cancel_job
  handle_event p k (reported pct label) e = set_job p k (with_progress pct label) e
  handle_event p k (enqueued q i) e = enqueue q i e
  handle_event p k (cancelled q i) e = (cancel_job q i e).1
  handle_event p k (acquired name) e = record e { scheduler = (acquire name e.scheduler).1 }
  handle_event p k stopped e = record e { stop_event = true }

  pub handle_events : String → String → List Event → Executor → Executor
  unfolding handle_event
  handle_events p k [] e = e
  handle_events p k (v ∷ vs) e = handle_events p k vs (handle_event p k v e)

  -- A call to the outside.
  pub asked : {A : Type 0} → (ℕ → Result String A) → Work A
  asked f e = (of_io (f e.calls), record e { calls = suc e.calls })

  pub built_command :
      String
      → TrainingJob
      → Option (ℕ → String → TrainingJob → Result String Command)
      → Work Command
  unfolding asked
  built_command p j (some build) e = asked (λ n. build n p j) e
  built_command p j none e = (err (no_command j.id), e)

  pub live_command : String → String → Option TrainingJob → Work Command
  unfolding built_command
  live_command p k none e = (err (job_not_found k p), e)
  live_command p k (some j) e = built_command p j io.build_live_command e

  pub found_command : String → String → Option Command → Work Command
  unfolding live_command poll_job
  found_command p k (some c) e = (ok c, e)
  found_command p k none e = live_command p k (poll_job p k e) e

  pub resolve_command : String → String → Work Command
  unfolding found_command
  resolve_command p k e = found_command p k (e.pending_commands k) e

  -- `self._runner.run`, with what happens meanwhile.
  pub run_command : String → String → Command → Work RunResult
  unfolding handle_events asked
  run_command p k c e =
      let r = io.run e.calls c in
      asked (λ n. r.1) (handle_events p k r.0 (record e { calls = suc e.calls }))

  pub resume_path : ℕ → Option Text × Option Text → Option Text
  unfolding discover_resume_checkpoint
  resume_path n (some dir, some name) =
      elim (discover_resume_checkpoint (io.subdirectories n dir) name) [
        | some found ↦ some (io.resolve dir found)
        | none ↦ none
      ]
  resume_path n _ = none

  pub finish_run : String → String → Command → RunResult → Work (Unit {0})
  unfolding resume_path set_job extract_output_dir_and_name succeeded
  finish_run p k c r e =
      let resume = resume_path e.calls (extract_output_dir_and_name c.args) in
      (
        ok tt,
        if succeeded r
            then set_job p k (with_completion r) e
            else set_job p k (with_failure r resume) (record e { calls = suc e.calls }),
      )

  pub mark_running : String → String → Work (Unit {0})
  unfolding set_job
  mark_running p k e = (
    ok tt,
    record (set_job p k (with_status running lock_acquired) e) { current_job_id = some k },
  )

  pub train : String → String → Work (Unit {0})
  unfolding mark_running resolve_command run_command finish_run
  train p k = do
    mark_running p k
    c ← resolve_command p k
    r ← run_command p k c
    finish_run p k c r

  -- The body of the `try` under the lock.
  pub train_found : String → String → Option TrainingJob → Work (Unit {0})
  unfolding train is_queued
  train_found p k none e = (ok tt, e)
  train_found p k (some j) e = let go = train p k e in if is_queued j.status then go else (ok tt, e)

  -- Its `finally`.
  pub release : {A : Type 0} → Result ExecutorError A × Executor → Result ExecutorError A × Executor
  release (r, e) = (r, record e { scheduler = (end_training e.scheduler).1; current_job_id = none })

  pub run_locked : String → String → Result Error (List String) → Work (Unit {0})
  unfolding train_found release poll_job set_job
  run_locked p k (err x) e = (err (scheduler_error x), e)
  run_locked p k (ok []) e = release (train_found p k (poll_job p k e) e)
  run_locked p k (ok (n ∷ ns)) e =
      (ok tt, set_job p k (with_status failed (models_active (n ∷ ns))) e)

  pub run_job : String → String → Work (Unit {0})
  unfolding run_locked
  run_job p k e =
      let b = try_begin_training k e.scheduler in run_locked p k b.0 (record e { scheduler = b.1 })

  abbrev pub settle_item : String → String → Result ExecutorError (Unit {0}) × Executor → Executor
  settle_item p k (ok u, e) = e
  settle_item p k (err x, e) = set_job p k (with_status failed internal_error) e

  pub process_item : String × String → Executor → Executor
  unfolding run_job set_job
  process_item i e = settle_item i.0 i.1 (run_job i.0 i.1 e)

  -- One turn of the loop, with the turns that follow it.
  pub take_item : (Executor → Executor) → List (String × String) → Executor → Executor
  unfolding process_item
  take_item turns [] e = e
  take_item turns (i ∷ rest) e =
      let go = turns (process_item i (record e { queue = rest })) in if e.stop_event then e else go

  -- Fuel: the number of items to take at most.
  pub run_until_idle : ℕ → Executor → Executor
  unfolding take_item
  run_until_idle zero e = e
  run_until_idle (suc n) e = take_item (run_until_idle n) e.queue e

  pub enqueue_with_command : String → String → Command → Executor → Executor
  unfolding enqueue
  enqueue_with_command p k c e =
      enqueue p k
        (record e { pending_commands = λ i. if str_eq i k then some c else e.pending_commands i })

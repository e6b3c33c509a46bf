-- ===== src/Training/Examples.antt =====
-- One job in the queue, and a process that reports progress while a model is asked for.
use misaka_asset_gene.Prelude.{
  ◌↔◌, ◌==◌, arith, Option, ℕ, String, ◌≡◌, ◌≢◌, refl, inl, inr, none, some, some-injective, [],
  ◌∷◌, length, any, str_eq, true, false, ok, Bool-cases, subst, if◌then◌else◌, ◌⊎◌, All, ◌++◌,
}
use misaka_asset_gene.Prelude.Int.{pos}
use misaka_asset_gene.Dialog.{image}
use misaka_asset_gene.Network.{Text, text_eq}
use misaka_asset_gene.Scheduler.{Scheduler, active_names}
use misaka_asset_gene.Training.{
  planned, queued, running, completed, job_created, TrainingJob, Command, RunResult, reported,
  acquired, Io, Executor, poll_job, find_job, update_job, set_job, enqueue, run_until_idle,
  process_item,
}
use misaka_asset_gene.Training.Service.{
  Files, models, JobRequest, validate_resume_checkpoint_path, submit_job,
}
use misaka_asset_gene.Training.Service.Submitted.{
  Confined, validate_resume_checkpoint_path-Confined, Submitted, submit_job-Submitted,
}
use misaka_asset_gene.Stream.{Until, Shown, last_frame}
use misaka_asset_gene.Training.Service.Stream.{
  is_terminal, same_signature, stream_job_progress, stream_job_progress-Shown,
}
use misaka_asset_gene.Prelude.Raising.{Returns}
use misaka_asset_gene.Training.Checkpoints.{
  state_suffix, step_of, IsLatest, discover_resume_checkpoint, discover_resume_checkpoint-IsLatest,
}
use misaka_asset_gene.Training.Settled.{Good, Settled, No, enqueue-Settled}
use misaka_asset_gene.Training.Drain.{Quiet, run_until_idle_drains}
use misaka_asset_gene.Training.Frame.{process_item_scheduler}
use misaka_asset_gene.Training.Outcome.{ended_status, Ran, process_item_outcome}

abbrev job : TrainingJob
job = record {
  id = "j";
  title = [];
  modality = image;
  worker = [];
  dataset_path = [];
  status = planned;
  note = job_created;
  progress = pos 0;
  progress_label = none;
  exit_code = none;
  stderr_tail = none;
  resume_checkpoint_path = none;
  created_at = pos 0;
  updated_at = pos 0;
}

abbrev command : Command
command = record { args = []; cwd = [] }

abbrev result : RunResult
result = record { exit_code = pos 0; stderr_tail = [] }

abbrev outside : Io
outside = record {
  now = λ n. pos n;
  build_live_command = none;
  run = λ n c. (reported (pos 50) [] ∷ acquired "m" ∷ [], ok result);
  subdirectories = λ n d. none;
  resolve = λ d n. d;
}

abbrev scheduler : Scheduler
scheduler = record {
  budget = record { vram_budget_mb = 8; ram_budget_mb = 8 };
  clock = λ n. pos n;
  reads = 0;
  models = [];
  transitions = [];
  training_lock_holder = none;
}

abbrev start : Executor
start = record {
  jobs = λ p. job ∷ [];
  scheduler = scheduler;
  queue = [];
  current_job_id = none;
  pending_commands = λ k. some command;
  stop_event = false;
  cancels = 0;
  calls = 0;
}

start-Settled : Settled No start
unfolding poll_job find_job
start-Settled = record {
  settled = λ p k j h. elim (Bool-cases (str_eq "j" k)) [
    | inl e ↦ inr (subst (λ x. Good false x.status) (some-injective (rw e at h)) tt)
    | inr e ↦ absurd (cc (rw e at h))
  ];
}

abbrev waiting : Executor
waiting = enqueue outside "p" "j" start

quiet : Quiet outside
quiet n c = refl

waiting_free :
    (waiting.scheduler.training_lock_holder ≡ none)
    × (waiting.stop_event ≡ false)
    × (active_names waiting.scheduler ≡ [])
    × (waiting.queue ≡ ("p", "j") ∷ [])
    × (waiting.pending_commands "j" ≡ some command)
unfolding enqueue set_job active_names
waiting_free = (refl, refl, refl, refl, refl)

found : (j : TrainingJob) × (poll_job "p" "j" waiting ≡ some j) × (j.status ≡ queued)
unfolding enqueue set_job poll_job find_job update_job
found = (_, refl, refl)

process_item_scheduler_example :
    (process_item outside ("p", "j") waiting).scheduler ≡ waiting.scheduler
process_item_scheduler_example = process_item_scheduler outside ("p", "j") waiting waiting_free.0

run_until_idle_drains_example :
    let d = run_until_idle outside (length waiting.queue) waiting in
    (d.queue ≡ [])
    × (d.scheduler ≡ waiting.scheduler)
    × ((p k : String) (j : TrainingJob)
        → poll_job p k d ≡ some j
        → (j.status ≢ queued) × (j.status ≢ running))
run_until_idle_drains_example =
    run_until_idle_drains outside waiting quiet
      (enqueue-Settled outside "p" "j" start start-Settled) waiting_free.1 waiting_free.0

process_item_outcome_example :
    (r : Option RunResult) × Ran outside "p" found.0 (some command) 1 r
    × ((u : TrainingJob) × (poll_job "p" "j" (process_item outside ("p", "j") waiting) ≡ some u)
        × (u.status ≡ ended_status r))
unfolding enqueue set_job
process_item_outcome_example =
    process_item_outcome outside "p" "j" found.0 waiting refl waiting_free.2 found.1 found.2

abbrev model_name : Text
model_name = b'm' ∷ []

abbrev ninth : Text
ninth = model_name ++ state_suffix ++ (b'9' ∷ [])

abbrev tenth : Text
tenth = model_name ++ state_suffix ++ (b'1' ∷ b'0' ∷ [])

-- The tenth state is found, although its name is before the ninth's in the order of texts.
tenth_found : discover_resume_checkpoint (some (tenth ∷ ninth ∷ [])) model_name ≡ some tenth
unfolding discover_resume_checkpoint text_eq
tenth_found = refl

discover_resume_checkpoint-IsLatest_example :
    let final = model_name ++ state_suffix in
    let names = tenth ∷ ninth ∷ [] in
    let found = discover_resume_checkpoint (some names) model_name in
    ((any (text_eq final) names ≡ true) × (found ≡ some final))
    ⊎ ((any (text_eq final) names ≡ false)
        × (((m : Text × ℕ) × (found ≡ some m.0) × IsLatest final names m)
            ⊎ ((found ≡ none) × All (λ n. step_of final n ≡ none) names)))
discover_resume_checkpoint-IsLatest_example =
    discover_resume_checkpoint-IsLatest (tenth ∷ ninth ∷ []) model_name

abbrev files : Files
files = record {
  path = λ t. models ∷ t ∷ [];
  text = λ p. model_name;
  resolve = λ p. some p;
  is_dir = λ p. true;
  project_dir = λ p. some [];
  new_id = λ n. "new";
}

abbrev request : JobRequest
request = record {
  title = model_name;
  modality = image;
  dataset_path = model_name;
  worker = none;
  resume_checkpoint_path = none;
}

no_job : poll_job "p" "new" start ≡ none
unfolding poll_job find_job
no_job = refl

no_path : validate_resume_checkpoint_path files [] none ≡ ok none
unfolding validate_resume_checkpoint_path
no_path = refl

submit_job-Submitted_example :
    Returns
      (λ js d. Submitted start "p" "new" none d)
      (submit_job files outside true "p" request start)
submit_job-Submitted_example =
    submit_job-Submitted files outside "p" request start [] none refl no_path no_job

validate_resume_checkpoint_path-Confined_example :
    (validate_resume_checkpoint_path files [] (some model_name) ≡ ok (some model_name))
    ↔ Confined files [] model_name model_name
validate_resume_checkpoint_path-Confined_example =
    validate_resume_checkpoint_path-Confined files [] model_name model_name

abbrev done : TrainingJob
done = record job { status = completed }

abbrev polled : ℕ → Option TrainingJob
polled n = if n == 0 then some job else some done

ends : Until (λ i. is_terminal i.status) same_signature polled (λ n. pos n) (pos 9) 1 0 done
unfolding is_terminal
ends = (job, refl, refl, (refl, refl))

stream_job_progress-Shown_example :
    Shown
      (λ i. is_terminal i.status)
      same_signature
      polled
      (λ n. pos n)
      (pos 9)
      done
      (last_frame none (stream_job_progress polled (λ n. pos n) (pos 9) 2))
stream_job_progress-Shown_example =
    stream_job_progress-Shown polled (λ n. pos n) (pos 9) 1 2 done (omega arith) ends

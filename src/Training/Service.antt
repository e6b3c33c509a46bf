-- ===== src/Training/Service.antt =====
-- core/training/service.py over the executor, whose table of jobs is the service's file. A path is the
-- list of its parts; what the file system says of one is an argument.
pub mod Submitted
pub mod Stream
use misaka_asset_gene.Prelude.{
  ℕ, suc, String, Bool, true, false, not, ◌&&◌, Option, none, some, List, [], ◌∷◌, ◌++◌,
  if◌then◌else◌, Result, ok, err, Exec,
}
use misaka_asset_gene.Prelude.Int.{ℤ, pos}
use misaka_asset_gene.Dialog.{Modality, image, is_empty}
use misaka_asset_gene.Network.{Text, strip, text_eq}
use misaka_asset_gene.Training.{
  TrainingJob, planned, job_created, Io, Executor, Work, enqueue, poll_job, find_job, cancel_job,
  write_jobs,
}

abbrev pub Parts : Type 0
Parts = List Text

pub record Files : Type 0 where
  -- `Path(...)` and `str` of a path.
  pub path : Text → Parts
  pub text : Parts → Text
  -- `Path.resolve`, which may raise an `OSError`.
  pub resolve : Parts → Option Parts
  pub is_dir : Parts → Bool
  -- `get_project`, which raises for an unknown project.
  pub project_dir : String → Option Parts
  -- `uuid.uuid4().hex`.
  pub new_id : ℕ → String

pub data SubmitError : Type 0 where
  project_not_found training_validation os_error : SubmitError

-- `relative_to` does not raise.
unfoldable pub is_relative_to : Parts → Parts → Bool
is_relative_to [] p = true
is_relative_to (r ∷ rs) [] = false
is_relative_to (r ∷ rs) (p ∷ ps) = text_eq r p && is_relative_to rs ps

abbrev pub models : Text
models = b'm' ∷ b'o' ∷ b'd' ∷ b'e' ∷ b'l' ∷ b's' ∷ []

pub record JobRequest : Type 0 where
  pub title : Text
  pub modality : Modality
  pub dataset_path : Text
  pub worker : Option Text
  pub resume_checkpoint_path : Option Text

abbrev pub kohya_ss : Text
kohya_ss = b'k' ∷ b'o' ∷ b'h' ∷ b'y' ∷ b'a' ∷ b'-' ∷ b's' ∷ b's' ∷ []

abbrev pub gpt_sovits : Text
gpt_sovits = b'g' ∷ b'p' ∷ b't' ∷ b'-' ∷ b's' ∷ b'o' ∷ b'v' ∷ b'i' ∷ b't' ∷ b's' ∷ []

abbrev pub default_worker : Modality → Text
default_worker image = kohya_ss
default_worker _ = gpt_sovits

pub worker_of : Option Text → Modality → Text
worker_of none m = default_worker m
worker_of (some t) m = if is_empty t then default_worker m else strip t

module _ (files : Files) where
  pub confined : Option Parts → Option Parts → Result SubmitError (Option Text)
  unfolding is_relative_to
  confined none resolved = err os_error
  confined (some root) none = err training_validation
  confined (some root) (some p) =
      if not (is_relative_to root p)
      then err training_validation
      else if files.is_dir p
      then ok (some (files.text p))
      else err training_validation

  unfoldable pub validate_resume_checkpoint_path :
      Parts → Option Text → Result SubmitError (Option Text)
  unfolding confined
  validate_resume_checkpoint_path project_dir none = ok none
  validate_resume_checkpoint_path project_dir (some raw) =
      if is_empty (strip raw)
      then ok none
      else confined (files.resolve (project_dir ++ (models ∷ []))) (files.resolve (files.path raw))

  module _ (io : Io) where
    pub new_job : JobRequest → Option Text → Executor → TrainingJob
    unfolding worker_of
    new_job q resume e = record {
      id = files.new_id e.calls;
      title = strip q.title;
      modality = q.modality;
      worker = worker_of q.worker q.modality;
      dataset_path = strip q.dataset_path;
      status = planned;
      note = job_created;
      progress = pos 0;
      progress_label = none;
      exit_code = none;
      stderr_tail = none;
      resume_checkpoint_path = resume;
      created_at = io.now e.calls;
      updated_at = io.now e.calls;
    }

    pub add_job : String → TrainingJob → Executor → Executor
    add_job p j e = record e {
      jobs = write_jobs p (e.jobs p ++ (j ∷ [])) e.jobs;
      calls = suc e.calls;
    }

    -- The job is added, and put in the queue where there is an executor.
    pub submit_valid :
        Bool
        → String
        → JobRequest
        → Result SubmitError (Option Text)
        → Exec Executor SubmitError (List TrainingJob)
    unfolding new_job add_job
    submit_valid wired p q (err x) e = (err x, e)
    submit_valid wired p q (ok resume) e =
        let j = new_job q resume e in
        let d = if wired then enqueue io p j.id (add_job p j e) else add_job p j e in
        (ok (d.jobs p), d)

    pub submit_in :
        Bool → String → JobRequest → Option Parts → Exec Executor SubmitError (List TrainingJob)
    unfolding validate_resume_checkpoint_path submit_valid
    submit_in wired p q none e = (err project_not_found, e)
    submit_in wired p q (some dir) e =
        submit_valid wired p q (validate_resume_checkpoint_path dir q.resume_checkpoint_path) e

    pub submit_job : Bool → String → JobRequest → Exec Executor SubmitError (List TrainingJob)
    unfolding submit_in
    submit_job wired p q e = submit_in wired p q (files.project_dir p) e

    pub cancel : Bool → String → String → Executor → Bool × Executor
    cancel wired p k e = if wired then cancel_job io p k e else (false, e)

  pub poll : String → String → Executor → Result SubmitError (Option TrainingJob)
  poll p k e = elim (files.project_dir p) [
    | none ↦ err project_not_found
    | some d ↦ ok (poll_job p k e)
  ]

-- ===== src/Training/Service/Stream.antt =====
-- core/training/service.py, `stream_job_progress`.
use misaka_asset_gene.Prelude.{ℕ, ◌<◌, Bool, true, false, ◌&&◌, Option, none, some, List}
use misaka_asset_gene.Prelude.Int.{ℤ, leb_ℤ}
use misaka_asset_gene.Network.{Text, text_eq}
use misaka_asset_gene.Stream.{last_frame, stream_progress, Until, Shown, stream_progress-Shown}
use misaka_asset_gene.Training.{
  TrainingJobStatus, planned, queued, running, completed, failed, blocked, TrainingJob,
}

-- `_TERMINAL_STATUSES`.
unfoldable pub is_terminal : TrainingJobStatus → Bool
is_terminal completed = true
is_terminal failed = true
is_terminal _ = false

status_eq : TrainingJobStatus → TrainingJobStatus → Bool
status_eq planned planned = true
status_eq queued queued = true
status_eq running running = true
status_eq completed completed = true
status_eq failed failed = true
status_eq blocked blocked = true
status_eq _ _ = false

label_eq : Option Text → Option Text → Bool
label_eq none none = true
label_eq (some a) (some b) = text_eq a b
label_eq _ _ = false

-- The signatures of two jobs are equal.
pub same_signature : TrainingJob → TrainingJob → Bool
unfolding status_eq label_eq
same_signature i j =
    status_eq i.status j.status
    && (leb_ℤ i.progress j.progress && leb_ℤ j.progress i.progress)
    && label_eq i.progress_label j.progress_label

module _ (poll_job : ℕ → Option TrainingJob) (clock : ℕ → ℤ) (deadline : ℤ) where
  -- The frames of at most `k` polls.
  pub stream_job_progress : ℕ → List TrainingJob
  unfolding is_terminal same_signature
  stream_job_progress k =
      stream_progress (λ j. is_terminal j.status) same_signature poll_job clock deadline k 0 none

  -- A stream that polls until the job ends, before its deadline, has shown the job as it ended: its last
  -- frame is the job, or one of the same status, progress and label.
  pub stream_job_progress-Shown :
      (m k : ℕ) (j : TrainingJob)
      → m < k
      → Until (λ i. is_terminal i.status) same_signature poll_job clock deadline m 0 j
      → Shown
          (λ i. is_terminal i.status)
          same_signature
          poll_job
          clock
          deadline
          j
          (last_frame none (stream_job_progress k))
  unfolding stream_job_progress
  stream_job_progress-Shown m k j l u =
      stream_progress-Shown (λ i. is_terminal i.status) same_signature poll_job clock deadline m k 0
        none j l u

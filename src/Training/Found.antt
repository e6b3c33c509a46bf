-- ===== src/Training/Found.antt =====
-- A job stays in its table, whatever happens during a run.
use misaka_asset_gene.Prelude.{String, ◌≡◌, subst, ap, ◌∙◌, inl, inr, Option, none, some}
use misaka_asset_gene.Training.{
  TrainingJobStatus, planned, queued, running, completed, failed, blocked, TrainingJob, Event,
  reported, enqueued, cancelled, acquired, stopped, Io, Executor, poll_job, set_job, status_of,
  enqueue, cancel_found, cancel_job, handle_event, with_status, with_progress,
  cancelled_before_start,
}
use misaka_asset_gene.Training.Table.{
  same_text, updated, mapped, poll_job-set_job, poll_job-set_job_other,
}

-- The job is in its table.
abbrev pub Found : String → String → Executor → Type 0
Found p k e = (j : TrainingJob) × (poll_job p k e ≡ some j)

module _ (io : Io) (p k : String) where
  pub set_job_status :
      (f : TrainingJob → TrainingJob) (e : Executor) (st : TrainingJobStatus)
      → ((j : TrainingJob) → (f j).status ≡ st)
      → Found p k e
      → (u : TrainingJob) × (poll_job p k (set_job io p k f e) ≡ some u) × (u.status ≡ st)
  set_job_status f e st h (j, a) = (
    updated (io.now e.calls) f j,
    poll_job-set_job io p k f e ∙ ap (mapped (updated (io.now e.calls) f)) a,
    h j,
  )

  set_job-Found :
      (q i : String) (f : TrainingJob → TrainingJob) (e : Executor)
      → Found p k e
      → Found p k (set_job io q i f e)
  set_job-Found q i f e (j, a) = elim (same_text p q) [
    | inr n ↦ (j, poll_job-set_job_other io q i p k f e (inl n) ∙ a)
    | inl s ↦ elim (same_text k i) [
      | inr n ↦ (j, poll_job-set_job_other io q i p k f e (inr n) ∙ a)
      | inl t ↦
          subst (λ x. Found p k (set_job io x i f e)) s
            (subst (λ x. Found p k (set_job io p x f e)) t
              (
                updated (io.now e.calls) f j,
                poll_job-set_job io p k f e ∙ ap (mapped (updated (io.now e.calls) f)) a,
              ))
    ]
  ]

  cancel_found-Found :
      (q i : String) (o : Option TrainingJobStatus) (e : Executor)
      → Found p k e
      → Found p k (cancel_found io q i o e).1
  unfolding cancel_found poll_job
  cancel_found-Found q i (some queued) e h =
      set_job-Found q i (with_status failed cancelled_before_start) e h
  cancel_found-Found q i none e h = h
  cancel_found-Found q i (some planned) e h = h
  cancel_found-Found q i (some running) e h = h
  cancel_found-Found q i (some completed) e h = h
  cancel_found-Found q i (some failed) e h = h
  cancel_found-Found q i (some blocked) e h = h

  pub handle_event-Found :
      (v : Event) (e : Executor) → Found p k e → Found p k (handle_event io p k v e)
  unfolding handle_event cancel_job enqueue poll_job
  handle_event-Found (reported pct label) e h = set_job-Found p k (with_progress pct label) e h
  handle_event-Found (enqueued q i) e h = set_job-Found q i (λ j. record j { status = queued }) e h
  handle_event-Found (cancelled q i) e h = cancel_found-Found q i (status_of (poll_job q i e)) e h
  handle_event-Found (acquired name) e h = h
  handle_event-Found stopped e h = h

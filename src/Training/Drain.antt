-- ===== src/Training/Drain.antt =====
-- The queue runs empty where nothing comes in meanwhile.
use misaka_asset_gene.Prelude.{
  ℕ, zero, suc, String, ◌≡◌, refl, subst, sym, ap, ◌∙◌, ◌≢◌, ◌⊎◌, ◌≤◌, if◌then◌else◌, inl, inr,
  Bool, Option, none, some, List, [], ◌∷◌, length, any, true, false, ok, err, Result, arith,
}
use misaka_asset_gene.Scheduler.{Error, try_begin_training}
use misaka_asset_gene.Training.{
  TrainingJobStatus, planned, queued, running, completed, failed, blocked, TrainingJob, Command,
  Event, reported, enqueued, cancelled, acquired, stopped, Io, Executor, ExecutorError, poll_job,
  set_job, status_of, cancel_found, cancel_job, handle_event, handle_events, finish_run,
  mark_running, release, run_locked, run_job, settle_item, process_item, take_item, run_until_idle,
  succeeded,
}
use misaka_asset_gene.Training.Stable.{either_branch, Stable, train_found-kept}
use misaka_asset_gene.Training.Settled.{waits, Good, Settled, No}
use misaka_asset_gene.Training.Queue.{run_until_idle-Settled}
use misaka_asset_gene.Training.Frame.{process_item_scheduler}

-- Another thread puts a job in the queue, or stops the worker.
abbrev pub disturbs : Event → Bool
disturbs (enqueued p k) = true
disturbs stopped = true
disturbs _ = false

closed :
    (w : Bool) (st : TrainingJobStatus) → w ≡ false → ⊥ ⊎ Good w st → (st ≢ queued) × (st ≢ running)
closed w st n (inl x) = absurd x
closed w queued n (inr g) = absurd (cc)
closed w running n (inr g) = absurd g
closed w planned n (inr g) = ((λ h. absurd (cc)), (λ h. absurd (cc)))
closed w completed n (inr g) = ((λ h. absurd (cc)), (λ h. absurd (cc)))
closed w failed n (inr g) = ((λ h. absurd (cc)), (λ h. absurd (cc)))
closed w blocked n (inr g) = ((λ h. absurd (cc)), (λ h. absurd (cc)))

-- Nobody does so during a run.
abbrev pub Quiet : Io → Type 0
Quiet io = (n : ℕ) (c : Command) → any disturbs (io.run n c).0 ≡ false

abbrev Waiting : List (String × String) → Executor → Type 0
Waiting q e = (e.queue ≡ q) × (e.stop_event ≡ false)

module _ (io : Io) (q : List (String × String)) where
  cancel_found-Waiting :
      (p k : String) (o : Option TrainingJobStatus) (e : Executor)
      → Waiting q e
      → Waiting q (cancel_found io p k o e).1
  unfolding cancel_found set_job
  cancel_found-Waiting p k none e h = h
  cancel_found-Waiting p k (some planned) e h = h
  cancel_found-Waiting p k (some queued) e h = h
  cancel_found-Waiting p k (some running) e h = h
  cancel_found-Waiting p k (some completed) e h = h
  cancel_found-Waiting p k (some failed) e h = h
  cancel_found-Waiting p k (some blocked) e h = h

  handle_event-Waiting :
      (p k : String) (v : Event) (e : Executor)
      → disturbs v ≡ false
      → Waiting q e
      → Waiting q (handle_event io p k v e)
  unfolding handle_event cancel_job set_job
  handle_event-Waiting p k (reported pct label) e d h = h
  handle_event-Waiting p k (enqueued a b) e d h = absurd (cc)
  handle_event-Waiting p k (cancelled a b) e d h =
      cancel_found-Waiting a b (status_of (poll_job a b e)) e h
  handle_event-Waiting p k (acquired name) e d h = h
  handle_event-Waiting p k stopped e d h = absurd (cc)

  handle_events-Waiting :
      (p k : String) (vs : List Event) (e : Executor)
      → any disturbs vs ≡ false
      → Waiting q e
      → Waiting q (handle_events io p k vs e)
  unfolding handle_events
  handle_events-Waiting p k [] e d h = h
  handle_events-Waiting p k (v ∷ vs) e d h =
      handle_events-Waiting p k vs (handle_event io p k v e) (ground (arith, d))
        (handle_event-Waiting p k v e (ground (arith, d)) h)

  Waiting-Stable : Quiet io → (p k : String) → Stable io p k (Waiting q)
  unfolding mark_running finish_run set_job
  Waiting-Stable quiet p k = record {
    called = λ e h. h;
    marked = λ e h. h;
    meanwhile = λ n c e h. handle_events-Waiting p k (io.run n c).0 e (quiet n c) h;
    finished = λ c r e h. either_branch (Waiting q) (succeeded r) h h;
  }

  settle_item-Waiting :
      (p k : String) (r : Result ExecutorError (Unit {0}) × Executor)
      → Waiting q r.1
      → Waiting q (settle_item io p k r)
  unfolding set_job
  settle_item-Waiting p k (ok u, e) h = h
  settle_item-Waiting p k (err x, e) h = h

  run_locked-Waiting :
      Quiet io
      → (p k : String) (r : Result Error (List String)) (e : Executor) → Waiting q e
      → Waiting q (run_locked io p k r e).1
  unfolding run_locked release set_job
  run_locked-Waiting quiet p k (err x) e h = h
  run_locked-Waiting quiet p k (ok []) e h =
      train_found-kept io p k (Waiting q) (Waiting-Stable quiet p k) (poll_job p k e) e h
  run_locked-Waiting quiet p k (ok (n ∷ ns)) e h = h

  process_item-Waiting :
      Quiet io
      → (i : String × String) (e : Executor) → Waiting q e
      → Waiting q (process_item io i e)
  unfolding process_item run_job
  process_item-Waiting quiet (p, k) e h =
      let b = try_begin_training k e.scheduler in
      settle_item-Waiting p k (run_job io p k e)
        (run_locked-Waiting quiet p k b.0 (record e { scheduler = b.1 }) h)

-- The worker is done: nothing waits, and the scheduler is as it was.
abbrev Drained : Executor → Executor → Type 0
Drained e d = (d.queue ≡ []) × (d.scheduler ≡ e.scheduler)

else_branch :
    {A : Type 0} (P : A → Type 0) (b : Bool) (x y : A) → b ≡ false → P y → P (if b then x else y)
else_branch P true x y h p = absurd (cc)
else_branch P false x y h p = p

run_until_idle-Drained :
    (io : Io) (n : ℕ) (q : List (String × String)) (e : Executor)
    → Quiet io
    → length q ≤ n
    → Waiting q e
    → e.scheduler.training_lock_holder ≡ none
    → Drained e (run_until_idle io n e)
unfolding run_until_idle take_item
run_until_idle-Drained io zero [] e quiet l w f = (w.0, refl)
run_until_idle-Drained io zero (i ∷ rest) e quiet l w f = absurd (omega arith)
run_until_idle-Drained io (suc n) [] e quiet l w f =
    subst (λ x. Drained e (take_item io (run_until_idle io n) x e)) (sym w.0) (w.0, refl)
run_until_idle-Drained io (suc n) (i ∷ rest) e quiet l w f =
    let d = process_item io i (record e { queue = rest }) in
    let same : d.scheduler ≡ e.scheduler =
      process_item_scheduler io i (record e { queue = rest }) f in
    let done =
      run_until_idle-Drained io n rest d quiet (omega arith)
        (process_item-Waiting io rest quiet i (record e { queue = rest }) (refl, w.1))
        (ap (λ s. s.training_lock_holder) same ∙ f) in
    subst (λ x. Drained e (take_item io (run_until_idle io n) x e)) (sym w.0)
      (else_branch (Drained e) e.stop_event _ _ w.1 (done.0, done.1 ∙ same))

-- The worker ends its queue, with as many turns as it has items, where no other thread adds to it or
-- stops the worker: then the queue is empty, no job is queued or running, and the scheduler is as it
-- was, with the lock free, given that at first each queued job had its item, no job was running and
-- the lock was free.
pub run_until_idle_drains :
    (io : Io) (e : Executor)
    → Quiet io
    → Settled No e
    → e.stop_event ≡ false
    → e.scheduler.training_lock_holder ≡ none
    → let d = run_until_idle io (length e.queue) e in
      (d.queue ≡ [])
      × (d.scheduler ≡ e.scheduler)
      × ((p k : String) (j : TrainingJob)
          → poll_job p k d ≡ some j
          → (j.status ≢ queued) × (j.status ≢ running))
run_until_idle_drains io e quiet s stop f =
    let d =
      run_until_idle-Drained io (length e.queue) e.queue e quiet (omega arith) (refl, stop) f in
    let t = run_until_idle-Settled io (length e.queue) e s in
    (d.0, d.1, λ p k j h. closed _ j.status (ap (waits p k) d.0) (t.settled p k j h))

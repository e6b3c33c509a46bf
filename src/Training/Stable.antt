-- ===== src/Training/Stable.antt =====
-- What a job keeps: a property of the executor that each of its steps keeps.
use misaka_asset_gene.Prelude.{
  ℕ, suc, String, Option, none, some, List, [], ◌∷◌, Result, Bool, true, false, if◌then◌else◌,
  Bool-cases, inl, inr, ◌≡◌, refl,
}
use misaka_asset_gene.Prelude.Raising.{Keeps, Keeps-bind}
use misaka_asset_gene.Training.{
  TrainingJob, Command, RunResult, Event, Io, Executor, poll_job, handle_event, handle_events,
  asked, built_command, live_command, found_command, resolve_command, run_command, finish_run,
  mark_running, train, train_found, is_queued,
}

-- The steps of the job `k` of the project `p` keep `I`.
pub record Stable (io : Io) (p k : String) (I : Executor → Type 0) : Type 0 where
  pub called : (e : Executor) → I e → I (record e { calls = suc e.calls })
  pub marked : (e : Executor) → I e → I (mark_running io p k e).1
  pub meanwhile :
      (n : ℕ) (c : Command) (e : Executor) → I e → I (handle_events io p k (io.run n c).0 e)
  pub finished : (c : Command) (r : RunResult) (e : Executor) → I e → I (finish_run io p k c r e).1

pub either_branch :
    {A : Type 0} (P : A → Type 0) (b : Bool) {x y : A} → P x → P y → P (if b then x else y)
either_branch P true px py = px
either_branch P false px py = py

pub handle_events-kept :
    (io : Io) (p k : String) (I : Executor → Type 0)
    → ((v : Event) (e : Executor) → I e → I (handle_event io p k v e))
    → (vs : List Event) (e : Executor) → I e
    → I (handle_events io p k vs e)
unfolding handle_events
handle_events-kept io p k I h [] e i = i
handle_events-kept io p k I h (v ∷ vs) e i =
    handle_events-kept io p k I h vs (handle_event io p k v e) (h v e i)

module _ (io : Io) (p k : String) (I : Executor → Type 0) (s : Stable io p k I) where
  live-kept :
      (o : Option TrainingJob) (b : Option (ℕ → String → TrainingJob → Result String Command))
      (e : Executor)
      → io.build_live_command ≡ b
      → I e
      → I (live_command io p k o e).1
  unfolding live_command built_command asked
  live-kept none b e q i = i
  live-kept (some j) none e q i = rw (live_command, q) i
  live-kept (some j) (some build) e q i = rw q (s.called e i)

  found-kept : (o : Option Command) (e : Executor) → I e → I (found_command io p k o e).1
  unfolding found_command
  found-kept (some c) e i = i
  found-kept none e i = live-kept (poll_job p k e) io.build_live_command e refl i

  pub Keeps-resolve_command : Keeps I (resolve_command io p k)
  unfolding resolve_command
  Keeps-resolve_command = record { kept = λ e i. found-kept (e.pending_commands k) e i }

  pub Keeps-run_command : (c : Command) → Keeps I (run_command io p k c)
  unfolding run_command asked
  Keeps-run_command c = record { kept = λ e i. s.called _ (s.meanwhile e.calls c _ (s.called e i)) }

  Keeps-train : Keeps I (train io p k)
  unfolding train
  Keeps-train =
      Keeps-bind _ _ (record { kept = s.marked })
        (λ u.
          Keeps-bind _ _ Keeps-resolve_command
            (λ c. Keeps-bind _ _ (Keeps-run_command c) (λ r. record { kept = s.finished c r })))

  pub train_found-kept :
      (o : Option TrainingJob) (e : Executor) → I e → I (train_found io p k o e).1
  unfolding train_found
  train_found-kept none e i = i
  train_found-kept (some j) e i = elim (Bool-cases (is_queued j.status)) [
    | inl q ↦ rw q (Keeps-train.kept e i)
    | inr q ↦ rw q i
  ]

-- ===== src/Fidelity/Service/Progress.antt =====
-- core/consultant/fidelity_service.py, `stream_loop_progress`; the store at the n-th poll is an argument.
use misaka_asset_gene.Prelude.{ℕ, ◌<◌, String, Bool, true, false, ◌&&◌, Option, none, List, ◌==◌}
use misaka_asset_gene.Prelude.Int.{ℤ, leb_ℤ}
use misaka_asset_gene.Stream.{last_frame, stream_progress, Until, Shown, stream_progress-Shown}
use misaka_asset_gene.Fidelity.{
  LoopStatus, pending_critique, critiquing, awaiting_user, building_mask, refining, passed_all,
  stopped_max_rounds, stopped_regression_recovered, stopped_unverified, failed,
}
use misaka_asset_gene.Fidelity.Store.{Loop, FidelityStore, get_loop}
use misaka_asset_gene.Fidelity.Service.{is_terminal}

pub status_eq : LoopStatus → LoopStatus → Bool
status_eq pending_critique pending_critique = true
status_eq critiquing critiquing = true
status_eq awaiting_user awaiting_user = true
status_eq building_mask building_mask = true
status_eq refining refining = true
status_eq passed_all passed_all = true
status_eq stopped_max_rounds stopped_max_rounds = true
status_eq stopped_regression_recovered stopped_regression_recovered = true
status_eq stopped_unverified stopped_unverified = true
status_eq failed failed = true
status_eq _ _ = false

-- The signatures of two loops are equal.
pub same_signature : Loop → Loop → Bool
unfolding status_eq
same_signature l m =
    status_eq l.status m.status
    && (l.current_round == m.current_round)
    && (leb_ℤ l.best_pass_count m.best_pass_count && leb_ℤ m.best_pass_count l.best_pass_count)

module _ (store : ℕ → FidelityStore) (clock : ℕ → ℤ) (deadline : ℤ) (project i : String) where
  abbrev pub polled : ℕ → Option Loop
  polled n = get_loop project i (store n)

  -- The frames of at most `k` polls.
  pub stream_loop_progress : ℕ → List Loop
  unfolding is_terminal same_signature
  stream_loop_progress k =
      stream_progress (λ l. is_terminal l.status) same_signature polled clock deadline k 0 none

  -- A stream that polls until the loop ends, before its deadline, has shown the loop as it ended: its
  -- last frame is the loop, or one of the same status, round and number of passes.
  pub stream_loop_progress-Shown :
      (m k : ℕ) (l : Loop)
      → m < k
      → Until (λ x. is_terminal x.status) same_signature polled clock deadline m 0 l
      → Shown
          (λ x. is_terminal x.status)
          same_signature
          polled
          clock
          deadline
          l
          (last_frame none (stream_loop_progress k))
  unfolding stream_loop_progress
  stream_loop_progress-Shown m k l lt u =
      stream_progress-Shown (λ x. is_terminal x.status) same_signature polled clock deadline m k 0
        none l lt u

-- ===== src/Fidelity/Outcome.antt =====
-- `decide_round_outcome`: the status, the best asset so far and the next target.
use misaka_asset_gene.Prelude.{◌<◌, ◌≡◌, ◌↔◌, ◌⊎◌, true, false, arith}
use misaka_asset_gene.Prelude.Int.{pos, ◌≤ℤ◌, ◌<ℤ◌}
use misaka_asset_gene.Fidelity.{
  awaiting_user, passed_all, stopped_regression_recovered, RoundFacts, decide_round_outcome,
}

-- The loop has passed exactly when no check failed and none is unverified.
pub passed_iff :
    (f : RoundFacts)
    → ((decide_round_outcome f).status ≡ passed_all)
      ↔ (f.new_fail_count ≡ 0) × (f.new_unverified_count ≡ 0)
unfolding decide_round_outcome
passed_iff f = (λ h. ground arith, λ h. ground arith)

-- The loop waits for another round exactly when a check failed and the rounds are not used up.
pub awaits_iff :
    (f : RoundFacts)
    → (((decide_round_outcome f).status ≡ awaiting_user)
        ⊎ ((decide_round_outcome f).status ≡ stopped_regression_recovered))
      ↔ (0 < f.new_fail_count) × (f.completed_round_index < f.max_rounds)
unfolding decide_round_outcome
awaits_iff f = (λ h. ground arith, λ h. ground arith)

-- Unless the loop has passed, the pass count of the best asset never falls, and it is at least that of
-- the new asset; the next target is always the best asset.
pub best_so_far :
    (f : RoundFacts)
    → let out = decide_round_outcome f in
      (out.next_target_asset_id ≡ out.best_asset_id)
      × ((out.status ≡ passed_all)
          ⊎ ((f.best_pass_count ≤ℤ out.best_pass_count)
              × (pos f.new_pass_count ≤ℤ out.best_pass_count)))
unfolding decide_round_outcome
best_so_far f = ground arith

-- A regression is reported exactly when the loop has not passed and the new asset passes fewer checks
-- than the best one; then the best asset is kept, else the new asset becomes the best one.
pub regressed_iff :
    (f : RoundFacts)
    → let out = decide_round_outcome f in
      ((out.regressed ≡ true)
        × (pos f.new_pass_count <ℤ f.best_pass_count)
        × (out.best_asset_id ≡ f.best_asset_id)
        × (out.best_pass_count ≡ f.best_pass_count))
      ⊎ ((out.regressed ≡ false)
          × ((out.status ≡ passed_all) ⊎ (f.best_pass_count ≤ℤ pos f.new_pass_count))
          × (out.best_asset_id ≡ f.new_asset_id)
          × (out.best_pass_count ≡ pos f.new_pass_count))
unfolding decide_round_outcome
regressed_iff f = ground arith

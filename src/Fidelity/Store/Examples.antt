-- ===== src/Fidelity/Store/Examples.antt =====
-- A store with one loop that waits for a round, and two rounds of it.
use misaka_asset_gene.Prelude.{
  String, ◌≡◌, refl, true, false, Option, some, none, List, [], ◌∷◌, err, map,
}
use misaka_asset_gene.Prelude.Int.{pos}
use misaka_asset_gene.Fidelity.{
  LoopStatus, awaiting_user, building_mask, stopped_regression_recovered, pending_critique,
}
use misaka_asset_gene.Fidelity.Store.{
  Loop, LoopRound, FidelityStore, integrity_error, status_value, is_one_of, create_loop, list_loops,
  claim_round, is_claimed, append_round, list_rounds, latest_round,
}
use misaka_asset_gene.Fidelity.Store.Claims.{claim_round_once}

abbrev loop : Loop
loop = record {
  id = "l1";
  project_id = "p";
  root_asset_id = "a0";
  character_sheet_id = "c";
  outfit_variant = "casual";
  status = awaiting_user;
  current_round = 1;
  max_rounds = 4;
  best_asset_id = "a1";
  best_pass_count = pos 3;
  auto_continue = false;
  mode = "default";
  last_error = none;
  created_at = 1;
  updated_at = 2;
}

abbrev store : FidelityStore
store = record { loops = loop ∷ []; rounds = []; clock = λ n. n; reads = 5 }

abbrev awaiting : List LoopStatus
awaiting = awaiting_user ∷ stopped_regression_recovered ∷ []

first_claim : (claim_round "p" "l1" awaiting building_mask store).0 ≡ true
unfolding claim_round is_claimed is_one_of status_value
first_claim = refl

duplicate_id :
    (create_loop "l1" "p" "a0" "c" "casual" 4 false "default" pending_critique store).0
    ≡ err (integrity_error "l1")
unfolding create_loop
duplicate_id = refl

listed : list_loops "p" store ≡ loop ∷ []
unfolding list_loops
listed = refl

abbrev with_rounds : FidelityStore
with_rounds =
    (append_round "r2" "l1" 1 "a1" [] 3 1 none none
      (append_round "r1" "l1" 0 "a0" [] 2 2 none none store).1).1

rounds_in_order : map (λ r. r.asset_id) (list_rounds "l1" with_rounds) ≡ "a0" ∷ "a1" ∷ []
unfolding list_rounds append_round
rounds_in_order = refl

abbrev map_asset : Option LoopRound → Option String
map_asset none = none
map_asset (some r) = some r.asset_id

latest_is_a1 : map_asset (latest_round "l1" with_rounds) ≡ some "a1"
unfolding latest_round append_round
latest_is_a1 = refl

claim_round_once_example :
    (claim_round "p" "l1" awaiting building_mask
      (claim_round "p" "l1" awaiting building_mask store).1).0
    ≡ false
claim_round_once_example =
    claim_round_once "p" "l1" awaiting building_mask store (unfold is_one_of status_value in refl)

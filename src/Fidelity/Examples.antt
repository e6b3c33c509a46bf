-- ===== src/Fidelity/Examples.antt =====
-- A critique of three checks: two failures whose boxes meet, and a check that passed beside them.
use misaka_asset_gene.Prelude.{
  ℕ, ◌≤◌, String, ◌≡◌, refl, ◌⊎◌, inl, true, not, ◌&&◌, some, List, [], ◌∷◌, length, total,
  if◌then◌else◌,
}
use misaka_asset_gene.Prelude.Int.{pos, ◌-ℤ◌, ◌+ℤ◌}
use misaka_asset_gene.Fidelity.Geometry.{
  Bbox, inside, clip_rect_excluding, bbox_overlaps, iou_at_least, bboxes_overlap, dilate_bbox,
}
use misaka_asset_gene.Fidelity.Geometry.Clip.{covers, clip_rect_excluding-covers}
use misaka_asset_gene.Fidelity.{
  Verdict, pass, fail, CheckResult, overlaps_any, select_top_k_failed, raw_chosen,
  build_mask_regions, awaiting_user, stopped_regression_recovered, RoundFacts, decide_round_outcome,
  subtract_pieces, initial_best_pass_count,
}
use misaka_asset_gene.Fidelity.Selection.{In, result_covers, select_top_k_failed_once}
use misaka_asset_gene.Fidelity.Selection.Greedy.{select_top_k_failed-maximal}
use misaka_asset_gene.Fidelity.Masks.{region_covers, build_mask_regions_keep}

abbrev box : ℕ → ℕ → ℕ → ℕ → Bbox
box a b c d = record { x0 = pos a; y0 = pos b; x1 = pos c; y1 = pos d }

abbrev result : String → Verdict → ℕ → Bbox → CheckResult
result i v c b = record { id = i; confidence = c; region_bbox = some b; verdict = v }

abbrev hair : CheckResult
hair = result "hair" fail 90 (box 10 10 50 50)

abbrev collar : CheckResult
collar = result "collar" fail 70 (box 40 40 80 80)

abbrev eyes : CheckResult
eyes = result "eyes" pass 80 (box 45 20 90 35)

abbrev critique : List CheckResult
critique = collar ∷ eyes ∷ hair ∷ []

-- The weaker of two failures whose boxes meet is not selected.
selection : select_top_k_failed critique 2 ≡ hair ∷ []
unfolding select_top_k_failed bbox_overlaps
selection = refl

-- The passed check beside the failure is cut down to the part outside of the failure's box.
mask : build_mask_regions (hair ∷ []) critique 12 8 (record { num = 3; den = 10 }) ≡ (
  record { bbox = box 10 10 50 50; dilate = 12; feather = 8 } ∷ [],
  record { bbox = box 50 20 90 35; dilate = 0; feather = 0 } ∷ [],
  eyes ∷ [],
)
unfolding build_mask_regions subtract_pieces clip_rect_excluding iou_at_least bboxes_overlap
    dilate_bbox ◌+ℤ◌ ◌-ℤ◌
mask = refl

clip_rect_excluding-covers_example :
    total (covers (pos 60) (pos 25)) (clip_rect_excluding (box 45 20 90 35) (box 10 10 50 50)) ≡ (
      if inside (pos 60) (pos 25) (box 45 20 90 35)
        && not (inside (pos 60) (pos 25) (box 10 10 50 50))
      then 1
      else 0)
clip_rect_excluding-covers_example =
    clip_rect_excluding-covers (box 45 20 90 35) (box 10 10 50 50) (pos 60) (pos 25)

build_mask_regions_keep_example :
    total
      (region_covers (pos 46) (pos 25))
      (build_mask_regions (hair ∷ []) critique 12 8 (record { num = 3; den = 10 })).1
    ≡ 0
build_mask_regions_keep_example =
    build_mask_regions_keep (hair ∷ []) critique 12 8 (record { num = 3; den = 10 }) (pos 46)
      (pos 25) (unfold raw_chosen inside in refl)

select_top_k_failed_once_example :
    total (result_covers (pos 46) (pos 25)) (select_top_k_failed critique 2) ≤ 1
select_top_k_failed_once_example = select_top_k_failed_once critique 2 (pos 46) (pos 25)

select_top_k_failed-maximal_example :
    (2 ≤ length (select_top_k_failed critique 2))
    ⊎ (overlaps_any collar (select_top_k_failed critique 2) ≡ true)
    ⊎ In collar (select_top_k_failed critique 2)
select_top_k_failed-maximal_example = select_top_k_failed-maximal critique 2 collar (inl refl) refl

abbrev first_round : RoundFacts
first_round = record {
  new_asset_id = "a1";
  new_pass_count = 1;
  new_fail_count = 2;
  new_unverified_count = 0;
  completed_round_index = 1;
  max_rounds = 4;
  best_asset_id = "a0";
  best_pass_count = pos 2;
}

recovers : (decide_round_outcome first_round).status ≡ stopped_regression_recovered
unfolding decide_round_outcome
recovers = refl

baseline_advances :
    (decide_round_outcome (record first_round { best_pass_count = initial_best_pass_count })).status
    ≡ awaiting_user
unfolding decide_round_outcome
baseline_advances = refl

-- ===== src/Fidelity/Planning/Examples.antt =====
-- A plan for a failure beside a passed check, with tags that differ in their case and spaces.
use misaka_asset_gene.Prelude.{
  false, ◌≡◌, refl, Option, some, none, List, [], ◌∷◌, map, leb, if◌then◌else◌, ◌+◌, ◌&&◌,
}
use misaka_asset_gene.Prelude.Int.{pos, ◌-ℤ◌}
use misaka_asset_gene.Dialog.{is_space, img2img}
use misaka_asset_gene.Network.{Text, strip, text_eq}
use misaka_asset_gene.Fidelity.Geometry.{bbox_area}
use misaka_asset_gene.Fidelity.{CheckResult, fail, build_mask_regions, select_top_k_failed}
use misaka_asset_gene.Fidelity.Planning.{
  head, FidelityCheck, RoundPlan, PlanLimits, split, join, split_commas, tag_key, dedupe_casefold,
  merge_negative, build_refine_request, plan_round, select_strategy_for_round, checks_of,
  check_by_id,
}
use misaka_asset_gene.Fidelity.Planning.Plans.{Sound, plan_round-Sound}

-- The folding of the Latin capitals.
abbrev fold : Text → Text
fold t = map (λ c. if leb 65 c && leb c 90 then c + 32 else c) t

abbrev tags : List Text
tags =
    (b'R' ∷ b'e' ∷ b'd' ∷ 32 ∷ 32 ∷ b'b' ∷ [])
    ∷ (32 ∷ b'r' ∷ b'e' ∷ b'd' ∷ 9 ∷ b'B' ∷ [])
    ∷ (32 ∷ [])
    ∷ (b'c' ∷ [])
    ∷ []

deduped : dedupe_casefold fold tags ≡ (b'R' ∷ b'e' ∷ b'd' ∷ 32 ∷ 32 ∷ b'b' ∷ []) ∷ (b'c' ∷ []) ∷ []
unfolding dedupe_casefold tag_key split join strip text_eq is_space
deduped = refl

appended :
    merge_negative fold (some (b'a' ∷ b',' ∷ 32 ∷ b'c' ∷ b',' ∷ [])) tags
    ≡ b'a' ∷ b',' ∷ 32 ∷ b'c' ∷ b',' ∷ 32 ∷ b'R' ∷ b'e' ∷ b'd' ∷ 32 ∷ 32 ∷ b'b' ∷ []
unfolding merge_negative tag_key split join split_commas strip text_eq is_space
appended = refl

abbrev hair : CheckResult
hair = record {
  id = "hair";
  confidence = 90;
  region_bbox = some (record { x0 = pos 0; y0 = pos 0; x1 = pos 50; y1 = pos 50 });
  verdict = fail;
}

abbrev limits : PlanLimits
limits = record {
  k = 2;
  tag_cap = 60;
  area_threshold = record { num = 4; den = 10 };
  mask_dilate = 12;
  mask_feather = 8;
  subtract_iou_threshold = record { num = 3; den = 10 };
}

abbrev checks : List FidelityCheck
checks =
    record {
      id = "hair";
      region_hint = head;
      fine_detail = false;
      fix_tags = tags;
      negative_tags = [];
    }
    ∷ []

abbrev planned : Option RoundPlan
planned = plan_round fold 1 "a0" checks (hair ∷ []) 60 60 limits

is_planned : (p : RoundPlan) × (planned ≡ some p) × (p.strategy ≡ some img2img)
unfolding plan_round select_strategy_for_round select_top_k_failed bbox_area ◌-ℤ◌
is_planned = (_, refl, refl)

request_keeps_negative : (build_refine_request fold is_planned.0 "m1" none).negative ≡ none
unfolding build_refine_request is_planned plan_round checks_of check_by_id build_mask_regions
request_keeps_negative = refl

plan_round-Sound_example : Sound fold (hair ∷ []) limits is_planned.0
plan_round-Sound_example =
    plan_round-Sound fold 1 "a0" checks (hair ∷ []) 60 60 limits is_planned.0 is_planned.1

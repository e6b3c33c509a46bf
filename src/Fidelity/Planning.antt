-- ===== src/Fidelity/Planning.antt =====
-- core/consultant/fidelity_loop.py, the plan of a round: tags, strategy and refine request. A text is
-- its code points. `casefold` stands for the table behind `str.casefold`.
pub mod Tags
pub mod Fields
pub mod Keys
pub mod Plans
mod Examples
use misaka_asset_gene.Prelude.{
  ℕ, ◌+◌, ◌*◌, String, Bool, true, false, not, ◌&&◌, ◌||◌, Option, none, some, List, [], ◌∷◌, ◌++◌,
  ◌==◌, ltb, leb, map, str_eq, if◌then◌else◌, select, take, any, total, length,
}
use misaka_asset_gene.Dialog.{is_space, is_empty, RefineStrategy, img2img}
use misaka_asset_gene.Network.{Text, strip, text_eq}
use misaka_asset_gene.Fidelity.Geometry.{Bbox, Ratio, bbox_area}
use misaka_asset_gene.Fidelity.{
  CheckResult, is_fail, MaskRegion, select_top_k_failed, build_mask_regions,
}

-- What the planner reads of a `FidelityCheck`.
pub data BodyRegion : Type 0 where
  head face torso waist legs background : BodyRegion

pub record FidelityCheck : Type 0 where
  pub id : String
  pub region_hint : BodyRegion
  pub fine_detail : Bool
  pub fix_tags : List Text
  pub negative_tags : List Text

-- `str.split()`: the word that is open in front, and the words behind it.
split_open : Text → Text × List Text
split_open [] = ([], [])
split_open (c ∷ cs) =
    let rest = split_open cs in
    if is_space c then ([], close rest.0 rest.1) else (c ∷ rest.0, rest.1)
  where
    close : Text → List Text → List Text
    close [] ws = ws
    close (d ∷ ds) ws = (d ∷ ds) ∷ ws

pub split : Text → List Text
unfolding split_open
split t = select (λ w. not (is_empty w)) ((split_open t).0 ∷ (split_open t).1)

-- `sep.join(words)`.
join_rest : Text → List Text → Text
join_rest sep [] = []
join_rest sep (w ∷ ws) = sep ++ (w ++ join_rest sep ws)

unfoldable pub join : Text → List Text → Text
unfolding join_rest
join sep [] = []
join sep (w ∷ ws) = w ++ join_rest sep ws

-- `text.split(",")`: the first field, and the fields behind it.
split_commas_open : Text → Text × List Text
split_commas_open [] = ([], [])
split_commas_open (c ∷ cs) =
    let rest = split_commas_open cs in
    if c == b',' then ([], rest.0 ∷ rest.1) else (c ∷ rest.0, rest.1)

unfoldable pub split_commas : Text → List Text
unfolding split_commas_open
split_commas t = (split_commas_open t).0 ∷ (split_commas_open t).1

abbrev pub comma_space : Text
comma_space = b',' ∷ 32 ∷ []

-- `reason`, a text for the log, is left out.
pub record RoundPlan : Type 0 where
  pub round_index : ℕ
  pub target_asset_id : String
  pub chosen_check_ids : List String
  pub reasserted_check_ids : List String
  pub mask_regions : List MaskRegion
  pub mask_subtract : List MaskRegion
  pub instruction : Text
  pub instruction_tags : List Text
  pub negative_tags : List Text
  pub strategy : Option RefineStrategy

-- `params["negative"]` is `negative`; `prompt_mode` is always `append`, so it is no field.
pub record RefineRequest : Type 0 where
  pub instruction : Text
  pub strategy : Option RefineStrategy
  pub mask_asset_id : String
  pub negative : Option Text

-- The keyword arguments of `plan_round`.
pub record PlanLimits : Type 0 where
  pub k : ℕ
  pub tag_cap : ℕ
  pub area_threshold : Ratio
  pub mask_dilate : ℕ
  pub mask_feather : ℕ
  pub subtract_iou_threshold : Ratio

-- The area of the chosen boxes.
pub failed_area : List CheckResult → ℕ
failed_area = total (λ r. elim r.region_bbox [ none ↦ 0 | some b ↦ bbox_area b ])

-- The quotient of the areas is compared by its cross products; a size that is not positive is 0 here.
pub select_strategy_for_round : List CheckResult → ℕ → ℕ → Ratio → Option RefineStrategy
unfolding failed_area
select_strategy_for_round chosen width height t =
    if (width == 0) || (height == 0)
    then none
    else if ltb (t.num * (width * height)) (failed_area chosen * t.den)
    then some img2img
    else none

-- `checks_by_id`: a later check of the same id takes the place of an earlier one.
pub check_by_id : String → List FidelityCheck → Option FidelityCheck
check_by_id i [] = none
check_by_id i (c ∷ cs) = elim (check_by_id i cs) [
  | some d ↦ some d
  | none ↦ if str_eq c.id i then some c else none
]

pub checks_of : List FidelityCheck → List CheckResult → List FidelityCheck
unfolding check_by_id
checks_of checks [] = []
checks_of checks (r ∷ rs) = elim (check_by_id r.id checks) [
  | none ↦ checks_of checks rs
  | some c ↦ c ∷ checks_of checks rs
]

abbrev pub tags_of : (FidelityCheck → List Text) → List FidelityCheck → List Text
tags_of f [] = []
tags_of f (c ∷ cs) = f c ++ tags_of f cs

module _ (casefold : Text → Text) where
  -- The key under which two tags count as the same.
  pub tag_key : Text → Text
  tag_key t = casefold (join (32 ∷ []) (split t))

  -- The loop of `_dedupe_casefold`, with the keys seen so far.
  pub dedupe_from : List Text → List Text → List Text
  dedupe_from seen [] = []
  dedupe_from seen (t ∷ ts) =
      let s = strip t in
      let skip = dedupe_from seen ts in
      let keep = dedupe_from (tag_key s ∷ seen) ts in
      if is_empty s then skip else if any (text_eq (tag_key s)) seen then skip else s ∷ keep

  pub dedupe_casefold : List Text → List Text
  unfolding dedupe_from
  dedupe_casefold ts = dedupe_from [] ts

  pub build_instruction_tags : List FidelityCheck → List FidelityCheck → ℕ → Text × List Text
  unfolding dedupe_casefold
  build_instruction_tags chosen reasserted tag_cap =
      let tags = take tag_cap (
        dedupe_casefold
          (tags_of (λ c. c.fix_tags) chosen ++ tags_of (λ c. c.fix_tags) reasserted)) in
      (join comma_space tags, tags)

  pub build_negative_tags : List FidelityCheck → List FidelityCheck → ℕ → List Text
  unfolding dedupe_casefold
  build_negative_tags chosen reasserted tag_cap = take tag_cap (
      dedupe_casefold
        (tags_of (λ c. c.negative_tags) chosen ++ tags_of (λ c. c.negative_tags) reasserted))

  -- `(inherited_negative or "")` without its blank fields, then the tags.
  pub merge_negative : Option Text → List Text → Text
  unfolding dedupe_casefold
  merge_negative inherited tags =
      let given : Text = elim inherited [ none ↦ [] | some t ↦ t ] in
      join comma_space
        (dedupe_casefold (select (λ f. not (is_empty f)) (map strip (split_commas given)) ++ tags))

  pub build_refine_request : RoundPlan → String → Option Text → RefineRequest
  unfolding merge_negative
  build_refine_request plan mask inherited = record {
    instruction = plan.instruction;
    strategy = plan.strategy;
    mask_asset_id = mask;
    negative =
        if is_empty plan.negative_tags
        then none
        else some (merge_negative inherited plan.negative_tags);
  }

  pub plan_round :
      ℕ → String → List FidelityCheck → List CheckResult → ℕ → ℕ → PlanLimits → Option RoundPlan
  unfolding build_instruction_tags build_negative_tags select_strategy_for_round checks_of
  plan_round round_index target checks results width height lim =
      let chosen = select_top_k_failed results lim.k in
      let built =
        build_mask_regions chosen results lim.mask_dilate lim.mask_feather
          lim.subtract_iou_threshold in
      let chosen_checks = checks_of checks chosen in
      let reasserted_checks = checks_of checks built.2 in
      let told = build_instruction_tags chosen_checks reasserted_checks lim.tag_cap in
      if is_empty (select (λ r. is_fail r.verdict) results)
      then none
      else some (record {
        round_index = round_index;
        target_asset_id = target;
        chosen_check_ids = map (λ r. r.id) chosen;
        reasserted_check_ids = map (λ r. r.id) built.2;
        mask_regions = built.0;
        mask_subtract = built.1;
        instruction = told.0;
        instruction_tags = told.1;
        negative_tags = build_negative_tags chosen_checks reasserted_checks lim.tag_cap;
        strategy = select_strategy_for_round chosen width height lim.area_threshold;
      })

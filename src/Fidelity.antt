-- ===== src/Fidelity.antt =====
-- core/consultant/fidelity_loop.py, the pure decisions of the fidelity loop, with the types of
-- core/models/schemas.py that they work on. A confidence is a float between 0 and 1 of which only
-- the order is used: a number here. A ratio stands for a threshold (`Geometry.Ratio`).
pub mod Geometry
pub mod Selection
pub mod Masks
pub mod Outcome
pub mod Summary
pub mod Store
pub mod Planning
pub mod Service
mod Examples
use misaka_asset_gene.Prelude.{
  ℕ, zero, suc, ◌+◌, ◌*◌, ◌-◌, String, Bool, true, false, not, ◌&&◌, ◌||◌, Option, none, some, List,
  [], ◌∷◌, ◌++◌, str_eq, leb, ltb, ◌==◌, if◌then◌else◌, select, any, total, length,
}
use misaka_asset_gene.Prelude.Int.{ℤ, pos, negsuc, ltb_ℤ, leb_ℤ}
use Geometry.{
  Bbox, Ratio, bbox_overlaps, bboxes_overlap, dilate_bbox, bbox_area, iou_at_least,
  clip_rect_excluding,
}

pub data Verdict : Type 0 where
  pass fail unverified : Verdict

abbrev pub is_fail : Verdict → Bool
is_fail fail = true
is_fail _ = false

abbrev pub is_pass : Verdict → Bool
is_pass pass = true
is_pass _ = false

abbrev pub is_unverified : Verdict → Bool
is_unverified unverified = true
is_unverified _ = false

-- `passed` is `verdict == "pass"` for every result (`_sync_verdict_and_passed`), so it is no field.
pub record CheckResult : Type 0 where
  pub id : String
  pub confidence : ℕ
  pub region_bbox : Option Bbox
  pub verdict : Verdict

abbrev pub passed : CheckResult → Bool
passed r = is_pass r.verdict

-- `sum(1 for result in results if …)`.
abbrev pub count_if : (CheckResult → Bool) → List CheckResult → ℕ
count_if p = total (λ r. if p r then 1 else 0)

pub summarize_pass_fail : List CheckResult → ℕ × ℕ
summarize_pass_fail rs = let pass_count = count_if passed rs in (pass_count, length rs - pass_count)

pub summarize_verdicts : List CheckResult → ℕ × ℕ × ℕ
summarize_verdicts rs = (
  count_if (λ r. is_pass r.verdict) rs,
  count_if (λ r. is_fail r.verdict) rs,
  count_if (λ r. is_unverified r.verdict) rs,
)

-- `sorted(fails, key=confidence, reverse=True)`: equal keys keep their order.
pub insert_by_confidence : CheckResult → List CheckResult → List CheckResult
insert_by_confidence x [] = x ∷ []
insert_by_confidence x (r ∷ rs) =
    if ltb x.confidence r.confidence then r ∷ insert_by_confidence x rs else x ∷ r ∷ rs

pub sort_by_confidence : List CheckResult → List CheckResult
unfolding insert_by_confidence
sort_by_confidence [] = []
sort_by_confidence (r ∷ rs) = insert_by_confidence r (sort_by_confidence rs)

abbrev pub overlaps_any : CheckResult → List CheckResult → Bool
overlaps_any r chosen = any (λ c. bbox_overlaps r.region_bbox c.region_bbox) chosen

-- The `for` loop; `chosen` is in the order of choice.
pub choose : ℕ → List CheckResult → List CheckResult → List CheckResult
choose k chosen [] = chosen
choose k chosen (r ∷ rs) =
    let skip = choose k chosen rs in
    let take = choose k (chosen ++ r ∷ []) rs in
    if leb k (length chosen) then chosen else if overlaps_any r chosen then skip else take

pub select_top_k_failed : List CheckResult → ℕ → List CheckResult
unfolding choose sort_by_confidence
select_top_k_failed rs k = choose k [] (sort_by_confidence (select (λ r. is_fail r.verdict) rs))

pub record MaskRegion : Type 0 where
  pub bbox : Bbox
  pub dilate : ℕ
  pub feather : ℕ

-- The boxes of the chosen results that have one: `raw_chosen`.
unfoldable pub raw_chosen : List CheckResult → List Bbox
raw_chosen [] = []
raw_chosen (r ∷ rs) = elim r.region_bbox [ none ↦ raw_chosen rs | some b ↦ b ∷ raw_chosen rs ]

-- The first loop of `build_mask_regions`.
unfoldable pub chosen_regions : ℕ → ℕ → List Bbox → List MaskRegion
chosen_regions dilate feather [] = []
chosen_regions dilate feather (b ∷ bs) =
    record { bbox = b; dilate = dilate; feather = feather } ∷ chosen_regions dilate feather bs

-- The raw boxes whose dilated extent the box meets.
abbrev pub overlapping_raw : ℕ → List Bbox → Bbox → List Bbox
overlapping_raw dilate raws b = select (λ raw. bboxes_overlap b (dilate_bbox raw dilate)) raws

-- `clipped.extend(_clip_rect_excluding(piece, raw))` over the pieces, for each raw box in turn.
pub clip_all : Bbox → List Bbox → List Bbox
clip_all raw [] = []
clip_all raw (p ∷ ps) = clip_rect_excluding p raw ++ clip_all raw ps

pub clip_pieces : List Bbox → List Bbox → List Bbox
unfolding clip_all
clip_pieces [] ps = ps
clip_pieces (raw ∷ raws) ps = clip_pieces raws (clip_all raw ps)

-- What a passed result with a box subtracts: nothing where it is the region of a chosen failure.
pub subtract_pieces : Ratio → List Bbox → Bbox → List Bbox
unfolding clip_pieces
subtract_pieces t raws b =
    if any (λ raw. iou_at_least t b raw) raws then [] else clip_pieces raws (b ∷ [])

abbrev pub bbox_eq : Bbox → Bbox → Bool
bbox_eq a b =
    leb_ℤ a.x0 b.x0
    && leb_ℤ b.x0 a.x0
    && (leb_ℤ a.y0 b.y0 && leb_ℤ b.y0 a.y0)
    && (leb_ℤ a.x1 b.x1 && leb_ℤ b.x1 a.x1 && (leb_ℤ a.y1 b.y1 && leb_ℤ b.y1 a.y1))

abbrev pub is_empty {ℓ} : {A : Type ℓ} → List A → Bool
is_empty [] = true
is_empty (x ∷ xs) = false

-- A round of the second loop goes on to its body: the result passed, and its box is new and meets a
-- dilated region.
abbrev pub is_relevant : ℕ → List Bbox → List Bbox → CheckResult → Bbox → Bool
is_relevant dilate raws seen r b =
    passed r && not (is_empty (overlapping_raw dilate raws b)) && not (any (λ s. bbox_eq b s) seen)

-- The second loop: the pieces to subtract, and the results to reassert.
pub reassert_loop :
    ℕ → Ratio → List Bbox → List Bbox → List CheckResult → List Bbox × List CheckResult
reassert_loop dilate t raws seen [] = ([], [])
reassert_loop dilate t raws seen (r ∷ rs) =
    let skip = reassert_loop dilate t raws seen rs in
    elim r.region_bbox [
      | none ↦ skip
      | some b ↦
          let rest = reassert_loop dilate t raws (b ∷ seen) rs in
          if is_relevant dilate raws seen r b
          then (subtract_pieces t (overlapping_raw dilate raws b) b ++ rest.0, r ∷ rest.1)
          else skip
    ]

-- The subtracted boxes carry no dilation and no feather.
unfoldable pub subtract_region : Bbox → MaskRegion
subtract_region b = record { bbox = b; dilate = 0; feather = 0 }

abbrev pub map_regions : List Bbox → List MaskRegion
map_regions [] = []
map_regions (b ∷ bs) = subtract_region b ∷ map_regions bs

unfoldable pub build_mask_regions :
    List CheckResult
    → List CheckResult
    → ℕ
    → ℕ
    → Ratio
    → List MaskRegion × List MaskRegion × List CheckResult
unfolding raw_chosen chosen_regions reassert_loop subtract_region
build_mask_regions chosen results dilate feather t =
    let raws = raw_chosen chosen in
    let rest = reassert_loop dilate t raws [] results in
    (chosen_regions dilate feather raws, map_regions rest.0, rest.1)

pub data LoopStatus : Type 0 where
  pending_critique critiquing awaiting_user building_mask refining passed_all stopped_max_rounds
        stopped_regression_recovered stopped_unverified failed :
      LoopStatus

pub record RoundOutcome : Type 0 where
  pub status : LoopStatus
  pub next_target_asset_id : String
  pub best_asset_id : String
  pub best_pass_count : ℤ
  pub regressed : Bool

-- `decide_round_outcome`; counts are numbers, but `best_pass_count` may be the sentinel -1.
abbrev pub initial_best_pass_count : ℤ
initial_best_pass_count = negsuc 0

pub record RoundFacts : Type 0 where
  pub new_asset_id : String
  pub new_pass_count : ℕ
  pub new_fail_count : ℕ
  pub new_unverified_count : ℕ
  pub completed_round_index : ℕ
  pub max_rounds : ℕ
  pub best_asset_id : String
  pub best_pass_count : ℤ

-- The two shapes of outcome: the new asset becomes the best one, or the best one is kept.
abbrev pub advance_outcome : LoopStatus → RoundFacts → RoundOutcome
advance_outcome st f = record {
  status = st;
  next_target_asset_id = f.new_asset_id;
  best_asset_id = f.new_asset_id;
  best_pass_count = pos f.new_pass_count;
  regressed = false;
}

abbrev pub revert_outcome : LoopStatus → RoundFacts → RoundOutcome
revert_outcome st f = record {
  status = st;
  next_target_asset_id = f.best_asset_id;
  best_asset_id = f.best_asset_id;
  best_pass_count = f.best_pass_count;
  regressed = true;
}

pub decide_round_outcome : RoundFacts → RoundOutcome
decide_round_outcome f =
    let reached_cap = leb f.max_rounds f.completed_round_index in
    let regression = ltb_ℤ (pos f.new_pass_count) f.best_pass_count in
    if (f.new_fail_count == 0) && (f.new_unverified_count == 0)
    then advance_outcome passed_all f
    else if f.new_fail_count == 0
    then (if regression
        then revert_outcome stopped_unverified f
        else advance_outcome stopped_unverified f)
    else if regression
    then revert_outcome (if reached_cap then stopped_max_rounds else stopped_regression_recovered) f
    else advance_outcome (if reached_cap then stopped_max_rounds else awaiting_user) f

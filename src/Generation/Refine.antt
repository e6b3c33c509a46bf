-- ===== src/Generation/Refine.antt =====
-- core/generation/refine.py. A text is its code points; `lower` and `casefold` stand for the tables
-- behind `str.lower` and `str.casefold`. A parameter is any value; the two default strengths are values
-- that are given. `reason`, a text for the record of the job, is left out.
pub mod Stages
pub mod Plan
pub mod Prompt
use misaka_asset_gene.Prelude.{
  ℕ, suc, ◌+◌, Bool, true, false, not, ◌&&◌, ◌||◌, Option, none, some, List, [], ◌∷◌, ◌++◌, map,
  select, any, total, length, ltb, ◌==◌, if◌then◌else◌, String, str_eq,
}
use misaka_asset_gene.Dialog.{
  is_empty, RefineStrategy, metadata_only, param_retune, img2img, inpaint, full_regen,
}
use misaka_asset_gene.Network.{Text, strip, text_eq}
use misaka_asset_gene.Fidelity.Planning.{join, split_commas, dedupe_casefold}
use misaka_asset_gene.Generation.Keywords.{
  metadata_keywords, local_edit_keywords, regen_keywords, base_markers, detail_markers,
  prop_markers, polish_markers,
}

pub data GenerationRecipe : Type 0 where
  auto txt2img img2img_recipe inpaint_recipe : GenerationRecipe

pub data DecompositionPass : Type 0 where
  base_composition character_detail prop_accessory final_polish : DecompositionPass

pub record DecompositionStep : Type 0 where
  pub stage : DecompositionPass
  pub prompt : Text

pub data RefinePromptMode : Type 0 where
  append_mode replace_mode : RefinePromptMode

-- TUNABLE_PARAMS.
abbrev pub tunable_params : List String
tunable_params =
    "sampler" ∷ "sampler_name" ∷ "scheduler" ∷ "cfg" ∷ "steps" ∷ "seed" ∷ "denoise" ∷ "resolution"
    ∷ "width" ∷ "height" ∷ "upscaler" ∷ "negative" ∷ []

-- `needle in haystack`.
unfoldable pub is_prefix : Text → Text → Bool
is_prefix [] t = true
is_prefix (c ∷ cs) [] = false
is_prefix (c ∷ cs) (d ∷ ds) = c == d && is_prefix cs ds

unfoldable pub is_infix : Text → Text → Bool
unfolding is_prefix
is_infix s [] = is_empty s
is_infix s (c ∷ cs) = is_prefix s (c ∷ cs) || is_infix s cs

unfoldable pub is_tunable : String → Bool
is_tunable k = any (λ t. str_eq t k) tunable_params

abbrev pub Params : Type 0 → Type 0
Params V = List (String × V)

pub record RefineRequest (V : Type 0) : Type 0 where
  pub instruction : Text
  pub strategy : Option RefineStrategy
  pub params : Params V
  pub mask_asset_id : Option Text

pub record RefinePlan (V : Type 0) : Type 0 where
  pub strategy : RefineStrategy
  pub recipe : Option GenerationRecipe
  pub params : Params V
  pub param_delta : Params V
  pub prompt_delta : Text
  pub decomposition : List DecompositionStep
  pub requires_mask : Bool

unfoldable pub filter_params : {V : Type 0} → Params V → Params V
unfolding is_tunable
filter_params ps = select (λ p. is_tunable p.0) ps

unfoldable pub has_key : {V : Type 0} → String → Params V → Bool
has_key k ps = any (λ p. str_eq p.0 k) ps

-- `params.setdefault(k, v)`.
unfoldable pub set_default : {V : Type 0} → String → V → Params V → Params V
unfolding has_key
set_default k v ps = if has_key k ps then ps else ps ++ (k, v) ∷ []

unfoldable pub recipe_for : RefineStrategy → Option GenerationRecipe
recipe_for metadata_only = none
recipe_for param_retune = some txt2img
recipe_for img2img = some img2img_recipe
recipe_for inpaint = some inpaint_recipe
recipe_for full_regen = some txt2img

-- A text that is there and not empty.
abbrev pub is_given : Option Text → Bool
is_given none = false
is_given (some t) = not (is_empty t)

-- The fields of `re.split(r"[；;。\n]+", text)`, with an empty one between two separators in a row; the
-- caller drops the empty fields.
abbrev pub is_separator : ℕ → Bool
is_separator c = c == 0xff1b || c == b';' || c == 0x3002 || c == b'\n'

split_open : Text → Text × List Text
split_open [] = ([], [])
split_open (c ∷ cs) =
    let rest = split_open cs in
    if is_separator c then ([], rest.0 ∷ rest.1) else (c ∷ rest.0, rest.1)

pub split_segments : Text → List Text
unfolding split_open
split_segments t = select (λ s. not (is_empty s)) (map strip ((split_open t).0 ∷ (split_open t).1))

abbrev pub Stages : Type 0
Stages = List (DecompositionPass × List Text)

abbrev pub stage_markers : Stages
stage_markers =
    (base_composition, base_markers)
    ∷ (character_detail, detail_markers)
    ∷ (prop_accessory, prop_markers)
    ∷ (final_polish, polish_markers)
    ∷ []

module _ (lower : Text → Text) where
  unfoldable pub has_any : Text → List Text → Bool
  unfolding is_infix
  has_any text keywords = any (λ k. is_infix (lower k) (lower text)) keywords

  unfoldable pub select_strategy : {V : Type 0} → RefineRequest V → RefineStrategy
  unfolding has_any filter_params
  select_strategy request = elim request.strategy [
    | some s ↦ s
    | none ↦
        if is_given request.mask_asset_id || has_any request.instruction local_edit_keywords
        then inpaint
        else if has_any request.instruction regen_keywords
        then full_regen
        else if has_any request.instruction metadata_keywords
        then metadata_only
        else if is_empty (filter_params request.params)
        then img2img
        else param_retune
  ]

  -- The segments of a stage that no stage before it has claimed.
  unfoldable pub matched_segments : List Text → List Text → List Text → List Text
  unfolding has_any
  matched_segments segments claimed markers =
      select (λ s. has_any s markers && not (any (λ c. text_eq c s) claimed)) segments

  -- The loop of `_dedup_decomposition_steps`. The sign between the segments is U+FF1B.
  unfoldable pub dedup_steps : List Text → List Text → Stages → List DecompositionStep
  unfolding matched_segments
  dedup_steps segments claimed [] = []
  dedup_steps segments claimed (s ∷ ss) =
      let matched = matched_segments segments claimed s.1 in
      let skip = dedup_steps segments claimed ss in
      let keep = dedup_steps segments (matched ++ claimed) ss in
      if is_empty matched
      then skip
      else record { stage = s.0; prompt = join (0xff1b ∷ []) matched } ∷ keep

  unfoldable pub dedup_decomposition_steps : List Text → Stages → List DecompositionStep
  unfolding dedup_steps
  dedup_decomposition_steps segments stages = dedup_steps segments [] stages

  abbrev pub aspect_count : Text → ℕ
  aspect_count text = total (λ s. if has_any text s.1 then 1 else 0) stage_markers

  unfoldable pub decompose_prompt : Text → List DecompositionStep
  unfolding dedup_decomposition_steps
  decompose_prompt instruction =
      let text = strip instruction in
      if ltb (length text) 40
      then []
      else if ltb (aspect_count text) 2
      then []
      else dedup_decomposition_steps (split_segments text) stage_markers

  module _ {V : Type 0} (default_img2img_denoise default_inpaint_denoise : V) where
    unfoldable pub default_params : RefineStrategy → Params V → Params V
    unfolding set_default
    default_params img2img ps = set_default "denoise" default_img2img_denoise ps
    default_params inpaint ps = set_default "denoise" default_inpaint_denoise ps
    default_params _ ps = ps

    abbrev pub is_inpaint : RefineStrategy → Bool
    is_inpaint inpaint = true
    is_inpaint _ = false

    unfoldable pub plan_refine : RefineRequest V → RefinePlan V
    unfolding select_strategy recipe_for filter_params default_params decompose_prompt
    plan_refine request =
        let strategy = select_strategy request in
        let tunable = filter_params request.params in
        record {
          strategy = strategy;
          recipe = recipe_for strategy;
          params = default_params strategy tunable;
          param_delta = tunable;
          prompt_delta = strip request.instruction;
          decomposition = elim (recipe_for strategy) [
            | none ↦ []
            | some r ↦ decompose_prompt request.instruction
          ];
          requires_mask = is_inpaint strategy;
        }

module _ (casefold : Text → Text) where
  unfoldable pub dedupe_comma_tags : Text → Text
  dedupe_comma_tags text = join (b',' ∷ 32 ∷ []) (dedupe_casefold casefold (split_commas text))

  unfoldable pub compose_prompt : Option Text → Text → RefinePromptMode → Text
  unfolding dedupe_comma_tags
  compose_prompt parent instruction replace_mode = strip instruction
  compose_prompt none instruction append_mode = strip instruction
  compose_prompt (some p) instruction append_mode =
      if is_empty p
      then strip instruction
      else if is_empty (strip instruction)
      then strip p
      else dedupe_comma_tags (strip p ++ (b',' ∷ 32 ∷ strip instruction))

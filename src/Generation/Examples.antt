-- ===== src/Generation/Examples.antt =====
-- A picture that is refined with a mask, and the prompt of its child.
use misaka_asset_gene.Prelude.{ℕ, ◌≡◌, refl, false, ◌||◌, some, none, List, [], ◌∷◌, any}
use misaka_asset_gene.Dialog.{is_space, is_empty}
use misaka_asset_gene.Network.{Text, strip, text_eq, lower}
use misaka_asset_gene.Fidelity.Planning.{join, split_commas, tag_key, dedupe_casefold}
use misaka_asset_gene.Fidelity.Planning.Keys.{has_key_of}
use misaka_asset_gene.Generation.Refine.{
  RefineRequest, stage_markers, append_mode, dedup_decomposition_steps, plan_refine, compose_prompt,
  base_composition, prop_accessory,
}
use misaka_asset_gene.Generation.Refine.Stages.{steps_by_stage, dedup_decomposition_steps-by_stage}
use misaka_asset_gene.Generation.Refine.Plan.{Plans, plan_refine-Plans}
use misaka_asset_gene.Generation.Refine.Prompt.{compose_prompt-keys}

-- A marker of a prop, and one of the composition.
abbrev hat : Text
hat = b'h' ∷ b'a' ∷ b't' ∷ []

abbrev camera : Text
camera = b'c' ∷ b'a' ∷ b'm' ∷ b'e' ∷ b'r' ∷ b'a' ∷ []

abbrev segments : List Text
segments = hat ∷ camera ∷ hat ∷ []

abbrev request : RefineRequest ℕ
request = record {
  instruction = hat;
  strategy = none;
  params = ("steps", 30) ∷ ("color", 1) ∷ [];
  mask_asset_id = some camera;
}

-- A segment that stands twice stays twice in its step.
repeated :
    dedup_decomposition_steps lower segments stage_markers
    ≡ record { stage = base_composition; prompt = camera }
      ∷ record { stage = prop_accessory; prompt = join (0xff1b ∷ []) (hat ∷ hat ∷ []) }
      ∷ []
unfolding dedup_decomposition_steps lower text_eq join
repeated = refl

request_params : (plan_refine lower 50 70 request).params ≡ ("steps", 30) ∷ ("denoise", 70) ∷ []
unfolding plan_refine
request_params = refl

dedup_decomposition_steps-by_stage_example :
    dedup_decomposition_steps lower segments stage_markers
    ≡ steps_by_stage lower segments [] stage_markers
dedup_decomposition_steps-by_stage_example =
    dedup_decomposition_steps-by_stage lower segments stage_markers

plan_refine-Plans_example : Plans request (plan_refine lower 50 70 request)
plan_refine-Plans_example = plan_refine-Plans lower 50 70 request

hat_filled : is_empty (strip hat) ≡ false
unfolding strip is_space
hat_filled = refl

compose_prompt-keys_example :
    any
      (λ t. text_eq hat (tag_key lower t))
      (dedupe_casefold lower (split_commas (compose_prompt lower (some camera) hat append_mode)))
    ≡ (has_key_of lower hat (split_commas (strip camera))
        || has_key_of lower hat (split_commas (strip hat)))
compose_prompt-keys_example = compose_prompt-keys lower camera hat hat refl hat_filled

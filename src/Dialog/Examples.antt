-- ===== src/Dialog/Examples.antt =====
-- A text dialog from its first question to its plan.
use misaka_asset_gene.Prelude.{◌≡◌, refl, false, some, none, List, [], ◌∷◌}
use misaka_asset_gene.Dialog.{
  intake, generate, training, str, other, Slots, lookup, required_slots_for, optional_slots_for,
  is_unfilled, is_checklist_complete, next_state, missing_slots,
}
use misaka_asset_gene.Dialog.Progress.{Turn, run_dialog}

abbrev filled : Slots
filled = ("objective", str (b'x' ∷ [])) ∷ []

abbrev blank : Slots
blank = ("objective", str (32 ∷ 0x3000 ∷ [])) ∷ []

blank_is_missing : missing_slots none blank ≡ "objective" ∷ []
unfolding missing_slots required_slots_for lookup is_unfilled
blank_is_missing = refl

-- A value that is false but neither null nor text counts as filled.
false_is_filled : is_unfilled (some (other false)) ≡ false
unfolding is_unfilled
false_is_filled = refl

optional_of_training : optional_slots_for (some training) ≡ "i2v_recipe" ∷ []
unfolding optional_slots_for
optional_of_training = refl

abbrev turn : Slots → Turn
turn s = record { modality = none; slots = s; accept = false }

abbrev turns : List Turn
turns = turn blank ∷ turn filled ∷ turn filled ∷ []

generates : run_dialog intake turns ≡ generate
unfolding run_dialog next_state is_checklist_complete missing_slots required_slots_for lookup
    is_unfilled
generates = refl

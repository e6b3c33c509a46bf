-- ===== src/Dialog.antt =====
-- core/consultant/state_machine.py: the consultant dialog, its checklists and its transitions.
-- A slot value is null, a text (its code points), or any other JSON value; `slots` is the dict's
-- `get`, as an association list.
pub mod Checklist
pub mod Progress
pub mod Engine
mod Examples
use misaka_asset_gene.Prelude.{
  ℕ, ◌+◌, String, Bool, true, false, not, ◌&&◌, ◌||◌, Option, none, some, List, [], ◌∷◌, ◌++◌, map,
  str_eq, ◌==◌, leb, if◌then◌else◌, select, any, Result, ok, err,
}

pub data ConsultantState : Type 0 where
  intake clarify summary generate refine accept : ConsultantState

pub data Modality : Type 0 where
  text music image voice video training : Modality

pub data RefineStrategy : Type 0 where
  metadata_only param_retune img2img inpaint full_regen : RefineStrategy

pub data SlotValue : Type 0 where
  null : SlotValue
  str : List ℕ → SlotValue
  -- A number, a Boolean, a list or a dict, with its truth value.
  other : Bool → SlotValue

abbrev pub Slots : Type 0
Slots = List (String × SlotValue)

-- `slots.get(key)`; the first entry of a key stands for the dict's.
pub lookup : String → Slots → Option SlotValue
lookup k [] = none
lookup k ((j, v) ∷ s) = if str_eq j k then some v else lookup k s

-- `REQUIRED_SLOTS` and `OPTIONAL_SLOTS`.
pub required_slots : Modality → List String
required_slots music = "usage" ∷ "mood" ∷ "tempo" ∷ "instruments" ∷ "length" ∷ []
required_slots image = "usage" ∷ "resolution" ∷ "style" ∷ "background" ∷ []
required_slots voice = "persona" ∷ "tone" ∷ "language" ∷ "lipsync" ∷ []
required_slots video = "usage" ∷ "duration" ∷ "audio_track" ∷ "camera" ∷ []
required_slots text = "objective" ∷ []
required_slots training =
    "character_sheet" ∷ "dataset_pack" ∷ "training_recipe" ∷ "lora_preset" ∷ []

pub optional_slots : Modality → List String
optional_slots training = "i2v_recipe" ∷ []
optional_slots _ = []

-- `modality.value if modality else Modality.TEXT.value`.
abbrev pub or_text : Option Modality → Modality
or_text (some m) = m
or_text none = text

pub required_slots_for : Option Modality → List String
unfolding required_slots
required_slots_for m = required_slots (or_text m)

pub optional_slots_for : Option Modality → List String
unfolding optional_slots
optional_slots_for m = optional_slots (or_text m)

-- The characters that `str.strip` removes.
unfoldable pub is_space : ℕ → Bool
is_space c =
    leb 9 c && leb c 13
    || leb 28 c && leb c 32
    || c == 0x85
    || c == 0xa0
    || c == 0x1680
    || leb 0x2000 c && leb c 0x200a
    || c == 0x2028
    || c == 0x2029
    || c == 0x202f
    || c == 0x205f
    || c == 0x3000

-- `not value.strip()`: nothing is left of a text of spaces alone.
pub is_blank : List ℕ → Bool
unfolding is_space
is_blank [] = true
is_blank (c ∷ cs) = is_space c && is_blank cs

-- The condition under which `missing_slots` counts a slot as not filled.
pub is_unfilled : Option SlotValue → Bool
unfolding is_blank
is_unfilled none = true
is_unfilled (some null) = true
is_unfilled (some (str s)) = is_blank s
is_unfilled (some (other b)) = false

pub missing_slots : Option Modality → Slots → List String
missing_slots m slots = select (λ k. is_unfilled (lookup k slots)) (required_slots_for m)

-- `slot not in unfilled`, over the list of the missing slots.
pub checklist_status : Option Modality → Slots → List (String × Bool)
checklist_status m slots =
    let unfilled = missing_slots m slots in
    map (λ k. (k, not (any (λ j. str_eq j k) unfilled))) (required_slots_for m)

abbrev pub is_empty {ℓ} : {A : Type ℓ} → List A → Bool
is_empty [] = true
is_empty (x ∷ xs) = false

pub is_checklist_complete : Option Modality → Slots → Bool
is_checklist_complete m slots = is_empty (missing_slots m slots)

-- `_ALLOWED_TRANSITIONS`, as the test of membership in each set.
pub allowed_transition : ConsultantState → ConsultantState → Bool
allowed_transition intake clarify = true
allowed_transition intake summary = true
allowed_transition clarify clarify = true
allowed_transition clarify summary = true
allowed_transition summary generate = true
allowed_transition summary clarify = true
allowed_transition generate refine = true
allowed_transition generate accept = true
allowed_transition refine refine = true
allowed_transition refine generate = true
allowed_transition refine accept = true
allowed_transition _ _ = false

pub can_transition : ConsultantState → ConsultantState → Bool
unfolding allowed_transition
can_transition current intake = true
can_transition current target = allowed_transition current target

pub data TransitionError : Type 0 where
  illegal : ConsultantState → ConsultantState → TransitionError

pub assert_transition : ConsultantState → ConsultantState → Result TransitionError (Unit {0})
assert_transition current target =
    if can_transition current target then ok tt else err (illegal current target)

pub refine_target_state : RefineStrategy → Bool → ConsultantState
refine_target_state strategy true = accept
refine_target_state metadata_only false = refine
refine_target_state _ false = generate

pub next_state : ConsultantState → Option Modality → Slots → Bool → ConsultantState
next_state intake m slots acc = if is_checklist_complete m slots then summary else clarify
next_state clarify m slots acc = if is_checklist_complete m slots then summary else clarify
next_state summary m slots acc = generate
next_state generate m slots acc = if acc then accept else refine
next_state refine m slots acc = if acc then accept else refine
next_state accept m slots acc = accept

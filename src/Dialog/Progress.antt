-- ===== src/Dialog/Progress.antt =====
-- The transitions: every computed step is legal, and no dialog gets past Clarify on an open checklist.
use misaka_asset_gene.Prelude.{
  ◌≡◌, ◌∙◌, inl, inr, Bool, true, false, not, Option, List, [], ◌∷◌, arith, any, Bool-cases,
}
use misaka_asset_gene.Dialog.{
  ConsultantState, intake, clarify, refine, accept, Modality, RefineStrategy, Slots, can_transition,
  next_state, is_checklist_complete, refine_target_state,
}

-- The state that has no step of its own.
abbrev pub is_final : ConsultantState → Bool
is_final accept = true
is_final _ = false

-- The state that `next_state` computes is a legal target, except at Accept, which has none: there
-- the computed state is Accept itself, and is not legal.
pub next_state-can_transition :
    (s : ConsultantState) (m : Option Modality) (slots : Slots) (acc : Bool)
    → can_transition s (next_state s m slots acc) ≡ not (is_final s)
unfolding can_transition next_state
next_state-can_transition s m slots acc = ground arith

-- One turn of the dialog: the modality, the slots and the acceptance at the time of the call.
pub record Turn : Type 0 where
  pub modality : Option Modality
  pub slots : Slots
  pub accept : Bool

abbrev pub is_complete_turn : Turn → Bool
is_complete_turn t = is_checklist_complete t.modality t.slots

-- The state after some turns.
unfoldable pub run_dialog : ConsultantState → List Turn → ConsultantState
run_dialog s [] = s
run_dialog s (t ∷ ts) = run_dialog (next_state s t.modality t.slots t.accept) ts

-- Behind the checklist.
abbrev pub is_past : ConsultantState → Bool
is_past intake = false
is_past clarify = false
is_past _ = true

next_state-is_past :
    (s : ConsultantState) (t : Turn)
    → is_past s ≡ false
    → is_past (next_state s t.modality t.slots t.accept) ≡ is_complete_turn t
unfolding next_state
next_state-is_past s t h = ground arith

stays_past :
    (s : ConsultantState) (t : Turn)
    → is_past s ≡ true
    → is_past (next_state s t.modality t.slots t.accept) ≡ true
unfolding next_state
stays_past s t h = ground arith

run_dialog_past :
    (s : ConsultantState) (ts : List Turn) → is_past s ≡ true → is_past (run_dialog s ts) ≡ true
unfolding run_dialog
run_dialog_past s [] h = h
run_dialog_past s (t ∷ ts) h =
    run_dialog_past (next_state s t.modality t.slots t.accept) ts (stays_past s t h)

-- A dialog that starts in Intake or Clarify is past the checklist exactly when at some turn the
-- checklist was complete.
pub run_dialog-is_past :
    (s : ConsultantState) (ts : List Turn)
    → is_past s ≡ false
    → is_past (run_dialog s ts) ≡ any is_complete_turn ts
unfolding run_dialog
run_dialog-is_past s [] h = h
run_dialog-is_past s (t ∷ ts) h = elim (Bool-cases (is_complete_turn t)) [
  | inl c ↦
      rw c (
        run_dialog_past (next_state s t.modality t.slots t.accept) ts
          (next_state-is_past s t h ∙ c))
  | inr c ↦ rw c (
      run_dialog-is_past (next_state s t.modality t.slots t.accept) ts
        (next_state-is_past s t h ∙ c))
]

-- From Refine, the target of every refine strategy is a legal step.
pub refine_target_state-can_transition :
    (r : RefineStrategy) (acc : Bool) → can_transition refine (refine_target_state r acc) ≡ true
unfolding can_transition refine_target_state
refine_target_state-can_transition r acc = ground arith

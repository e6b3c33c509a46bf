-- ===== src/Dialog/Checklist.antt =====
-- The checklist: what it means for a slot to be missing, and that the three views of it agree.
use misaka_asset_gene.Prelude.{
  String, ◌≡◌, refl, ap, ◌∙◌, ◌&&◌, ◌↔◌, inl, inr, Bool, true, false, not, Option, List, [], ◌∷◌,
  arith, map, str_eq, eq_iff, select, any, All, Bool-cases,
}
use mathlib.Core.Path.{ap₂}
use misaka_asset_gene.Dialog.{
  Modality, Slots, lookup, required_slots_for, is_unfilled, missing_slots, checklist_status,
  is_checklist_complete, is_empty,
}

module _ (p : String → Bool) where
  select-nil : (ks : List String) → is_empty (select p ks) ≡ true → All (λ k. p k ≡ false) ks
  select-nil [] h = tt
  select-nil (k ∷ ks) h = elim (Bool-cases (p k)) [
    | inl e ↦ absurd (cc (rw e at h))
    | inr e ↦ (e, select-nil ks (rw e at h))
  ]

  nil-select : (ks : List String) → All (λ k. p k ≡ false) ks → is_empty (select p ks) ≡ true
  nil-select [] h = refl
  nil-select (k ∷ ks) h = rw h.0 (nil-select ks h.1)

-- The checklist is complete exactly when every required slot has a value that is not blank.
pub is_checklist_complete_iff :
    (m : Option Modality) (slots : Slots)
    → (is_checklist_complete m slots ≡ true)
      ↔ All (λ k. is_unfilled (lookup k slots) ≡ false) (required_slots_for m)
unfolding is_checklist_complete missing_slots
is_checklist_complete_iff m slots = (
  select-nil (λ k. is_unfilled (lookup k slots)) (required_slots_for m),
  nil-select (λ k. is_unfilled (lookup k slots)) (required_slots_for m),
)

any-select :
    (p : String → Bool) (k : String) (ks : List String)
    → any (λ j. str_eq j k) (select p ks) ≡ (p k && any (λ j. str_eq j k) ks)
any-select p k [] = ground arith
any-select p k (x ∷ ks) = elim (Bool-cases (p x)) [
  | inl e ↦ rw e (ground (arith, e, any-select p k ks, eq_iff x k))
  | inr e ↦ rw e (ground (arith, e, any-select p k ks, eq_iff x k))
]

any_self : (k : String) (ks : List String) → any (λ j. str_eq j k) (k ∷ ks) ≡ true
any_self k ks = ground (arith, eq_iff k k)

status_of :
    (p : String → Bool) (all ks : List String)
    → All (λ k. any (λ j. str_eq j k) all ≡ true) ks
    → map {B = String × Bool} (λ k. (k, not (any (λ j. str_eq j k) (select p all)))) ks
      ≡ map {B = String × Bool} (λ k. (k, not (p k))) ks
status_of p all [] h = refl
status_of p all (k ∷ ks) h =
    ap₂ ◌∷◌
      (ap {B = String × Bool} (λ b. (k, not b)) (any-select p k all ∙ rw h.0 (and-true (p k))))
      (status_of p all ks h.1)
  where
    and-true : (b : Bool) → (b && true) ≡ b
    and-true true = refl
    and-true false = refl

All-weaken :
    (x : String) (all ks : List String)
    → All (λ k. any (λ j. str_eq j k) all ≡ true) ks
    → All (λ k. any (λ j. str_eq j k) (x ∷ all) ≡ true) ks
All-weaken x all [] h = tt
All-weaken x all (k ∷ ks) h = (ground (arith, h.0), All-weaken x all ks h.1)

All-in : (ks : List String) → All (λ k. any (λ j. str_eq j k) ks ≡ true) ks
All-in [] = tt
All-in (k ∷ ks) = (any_self k ks, All-weaken k ks ks (All-in ks))

-- The status map has one entry for each required slot, in order, and marks a slot as filled exactly
-- when its value is neither missing, null nor blank.
pub checklist_status_lem :
    (m : Option Modality) (slots : Slots)
    → checklist_status m slots
      ≡ map {B = String × Bool}
          (λ k. (k, not (is_unfilled (lookup k slots))))
          (required_slots_for m)
unfolding checklist_status missing_slots
checklist_status_lem m slots =
    status_of (λ k. is_unfilled (lookup k slots)) (required_slots_for m) (required_slots_for m)
      (All-in (required_slots_for m))

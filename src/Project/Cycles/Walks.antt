-- ===== src/Project/Cycles/Walks.antt =====
-- The references of projects as a graph: core/project/cross_project.py, `detect_cycles`, is about the
-- walks that start at a project.
use misaka_asset_gene.Prelude.{
  ℕ, ◌≤◌, ◌<◌, ◌≡◌, refl, ap, ◌∙◌, ◌⊎◌, inl, inr, true, false, Bool-cases, some, List, [], ◌∷◌,
  total, if◌then◌else◌, length, arith,
}
use mathlib.Core.Bool.{false≢true}
use mathlib.Core.List.{Memᴰ}
use misaka_asset_gene.Network.{Text, text_eq}
use misaka_asset_gene.Network.Texts.{text_eq_sound, text_eq_refl}
use misaka_asset_gene.Project.References.{Reference, parse_reference}
use misaka_asset_gene.Project.Cycles.{is_among}

module _ (projects : List Text) (refs : Text → List Text) where
  -- A reference of the project `u`, which has a directory, to another project `v`.
  unfoldable pub Edge : Text → Text → Type 0
  Edge u v =
      (is_among u projects ≡ true)
      × (r : Text) × Memᴰ r (refs u)
      × (d : Reference) × (parse_reference r ≡ some d)
      × (text_eq d.project u ≡ false)
      × (v ≡ d.project)

  unfoldable pub Walk : Text → List Text → Type 0
  unfolding Edge
  Walk u [] = Unit
  Walk u (v ∷ vs) = Edge u v × Walk v vs

  -- A walk from `u` that stops at the first project seen before it.
  unfoldable pub Closes : List Text → Text → List Text → Type 0
  unfolding Edge
  Closes visited u [] = ⊥
  Closes visited u (v ∷ vs) =
      Edge u v
      × (((is_among v visited ≡ true) × (vs ≡ []))
          ⊎ ((is_among v visited ≡ false) × Closes (u ∷ visited) v vs))

-- The projects that are not on the way yet.
pub unseen : List Text → List Text → ℕ
unfolding is_among
unseen projects visited = total (λ p. if is_among p visited then 0 else 1) projects

pub is_among_cons :
    (x y : Text) (ys : List Text) → is_among x ys ≡ true → is_among x (y ∷ ys) ≡ true
unfolding is_among
is_among_cons x y ys h = ground (arith, h)

pub unseen_le : (ps visited : List Text) (u : Text) → unseen ps (u ∷ visited) ≤ unseen ps visited
unfolding unseen
unseen_le [] visited u = omega arith
unseen_le (p ∷ ps) visited u = ground (arith, unseen_le ps visited u, is_among_cons p u visited)

pub unseen_lt :
    (ps visited : List Text) (u : Text)
    → is_among u ps ≡ true
    → is_among u visited ≡ false
    → unseen ps (u ∷ visited) < unseen ps visited
unfolding unseen is_among
unseen_lt [] visited u m fresh = absurd (false≢true m)
unseen_lt (p ∷ ps) visited u m fresh = elim (Bool-cases (text_eq p u)) [
  | inl e ↦
      let q : p ≡ u = text_eq_sound p u e in
      let new : is_among p visited ≡ false = ap (λ x. is_among x visited) q ∙ fresh in
      ground (arith, new, unseen_le ps visited u, ap (λ x. text_eq u x) q, text_eq_refl u)
  | inr e ↦
      ground
        (arith, e, m, unseen_lt ps visited u, unseen_le ps visited u, is_among_cons p u visited)
]

pub unseen-nil : (ps : List Text) → unseen ps [] ≡ length ps
unfolding unseen is_among
unseen-nil [] = refl
unseen-nil (p ∷ ps) = omega (arith, unseen-nil ps)

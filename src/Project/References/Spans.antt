-- ===== src/Project/References/Spans.antt =====
-- core/project/cross_project.py, REFERENCE_PATTERN: the longest prefix of a class of characters.
use misaka_asset_gene.Prelude.{
  ℕ, ◌≡◌, refl, ap, inl, inr, Bool, true, false, not, Bool-cases, Option, none, some, [], ◌∷◌, ◌++◌,
  if◌then◌else◌, All,
}
use mathlib.Core.Bool.{false≢true}
use mathlib.Core.Option.{none-ne-some}
use misaka_asset_gene.Dialog.{is_empty}
use misaka_asset_gene.Network.{Text}
use misaka_asset_gene.Project.References.{span}

-- Every character of the text is of the class.
unfoldable pub Consists : (ℕ → Bool) → Text → Type 0
Consists p = All (λ c. p c ≡ true)

-- No character of the class comes next.
unfoldable pub Stops : (ℕ → Bool) → Text → Type 0
Stops p [] = Unit
Stops p (c ∷ cs) = p c ≡ false

pub span-append :
    (p : ℕ → Bool) (xs ys : Text) → Consists p xs → Stops p ys → span p (xs ++ ys) ≡ (xs, ys)
unfolding span Consists Stops
span-append p [] [] h s = refl
span-append p [] (y ∷ ys) h s = rw s refl
span-append p (x ∷ xs) ys (e, h) s = rw (e, span-append p xs ys h s) refl

pub span-Consists :
    (p : ℕ → Bool) (t : Text)
    → (t ≡ (span p t).0 ++ (span p t).1) × Consists p (span p t).0 × Stops p (span p t).1
unfolding span Consists Stops
span-Consists p [] = (refl, tt, tt)
span-Consists p (c ∷ cs) = elim (Bool-cases (p c)) [
  | inl e ↦ let (q, h, s) = span-Consists p cs in rw e (ap (λ x. c ∷ x) q, (e, h), s)
  | inr e ↦ rw e (refl, tt, e)
]

pub guard-some {ℓ} :
    {A : Type ℓ} (b : Bool) (o : Option A) (x : A)
    → (if b then o else none) ≡ some x
    → (b ≡ true) × (o ≡ some x)
guard-some true o x h = (refl, h)
guard-some false o x h = absurd (none-ne-some _ h)

pub not_empty : (t : Text) → not (is_empty t) ≡ true → is_empty t ≡ false
not_empty [] h = absurd (false≢true h)
not_empty (c ∷ t) h = refl

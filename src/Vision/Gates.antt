-- ===== src/Vision/Gates.antt =====
-- core/llm/vision.py: the two-pass rule and the gates on one result, case by case.
use misaka_asset_gene.Prelude.{
  ℕ, ◌≡◌, refl, sym, ap, ◌∙◌, subst, inl, inr, ◌⊎◌, true, false, Bool-cases, Option, none, some,
  some-injective, List, ltb,
}
use misaka_asset_gene.Fidelity.Geometry.{Bbox}
use misaka_asset_gene.Fidelity.{Verdict, pass, fail, unverified, is_fail, CheckResult, passed}
use misaka_asset_gene.Fidelity.Planning.{FidelityCheck}
use misaka_asset_gene.Vision.{
  Settings, too_large, region_compatible, with_verdict, result_by_id, merge_result, fail_at,
  apply_fail_side_gates, pass_at, apply_localized_pass_gate, apply_anti_hallucination_gates,
  is_pass,
}

-- The second pass passes the check of the result, or it does not.
abbrev pub SecondPasses : List CheckResult → CheckResult → Type 0
SecondPasses pass_b x = (q : CheckResult) × (result_by_id x.id pass_b ≡ some q) × (passed q ≡ true)

abbrev pub SecondFails : List CheckResult → CheckResult → Type 0
SecondFails pass_b x = (q : CheckResult) → result_by_id x.id pass_b ≡ some q → passed q ≡ false

-- The box is there, not too large, and in the band of the picture where the check looks.
abbrev pub Placed : FidelityCheck → ℕ → ℕ → CheckResult → Type 0
Placed c w h x =
    (b : Bbox) × (x.region_bbox ≡ some b)
    × (too_large w h b ≡ false)
    × (region_compatible c.region_hint b h ≡ true)

-- The box is there and not too large, and the confidence is enough for a `pass`.
abbrev pub Trusted : Settings → ℕ → ℕ → CheckResult → Type 0
Trusted s w h x =
    ((b : Bbox) × (x.region_bbox ≡ some b) × (too_large w h b ≡ false))
    × (ltb x.confidence s.misaka_fidelity_pass_min_confidence ≡ false)

-- Why a result of the first pass counts as passed: one of the two passes passes the check, or the
-- failure is out of place and is discarded.
abbrev pub CountsPassed : List CheckResult → FidelityCheck → ℕ → ℕ → CheckResult → Type 0
CountsPassed pass_b c w h x =
    (passed x ≡ true) ⊎ SecondPasses pass_b x ⊎ ((x.verdict ≡ fail) × (Placed c w h x → ⊥))

as_passed : (x : CheckResult) (v : Verdict) → passed (with_verdict v x) ≡ true → v ≡ pass
as_passed x pass h = refl
as_passed x fail h = absurd (cc)
as_passed x unverified h = absurd (cc)

kept_pass : (a : CheckResult) → passed a ≡ true → a ≡ with_verdict pass a
kept_pass a e = ap (λ v. with_verdict v a) (as_passed a a.verdict e)

pub merge_cases :
    (a : CheckResult) (o : Option CheckResult)
    → ((merge_result a o ≡ with_verdict pass a)
        × ((passed a ≡ true) ⊎ ((q : CheckResult) × (o ≡ some q) × (passed q ≡ true))))
      ⊎ ((merge_result a o ≡ a)
          × (passed a ≡ false)
          × ((q : CheckResult) → o ≡ some q → passed q ≡ false))
unfolding merge_result
merge_cases a none = elim (Bool-cases (passed a)) [
  | inl e ↦ inl (kept_pass a e, inl e)
  | inr e ↦ inr (refl, e, λ q g. absurd (cc))
]
merge_cases a (some b) = elim (Bool-cases (passed a)) [
  | inl e ↦ elim (Bool-cases (passed b)) [
    | inl f ↦ inl (rw (e, f) (kept_pass a e), inl e)
    | inr f ↦ inl (rw (e, f) refl, inl e)
  ]
  | inr e ↦ elim (Bool-cases (passed b)) [
    | inl f ↦ inl (rw (e, f) refl, inr (b, refl, f))
    | inr f ↦ inr (rw (e, f) refl, e, λ q g. subst (λ x. passed x ≡ false) (some-injective g) f)
  ]
]

pub merge_id : (a : CheckResult) (o : Option CheckResult) → (merge_result a o).id ≡ a.id
merge_id a o = elim (merge_cases a o) [
  | inl (e, f) ↦ ap (λ x. x.id) e
  | inr (e, f, g) ↦ ap (λ x. x.id) e
]

-- The gate on a `pass`, and the one on a `fail`.
pub pass_at_cases :
    (s : Settings) (w h : ℕ) (x : CheckResult)
    → (let r = pass_at s w h x.region_bbox (with_verdict pass x) in
        (Trusted s w h x × (r ≡ with_verdict pass x))
        ⊎ ((Trusted s w h x → ⊥) × (r ≡ with_verdict unverified x)))
unfolding pass_at
pass_at_cases s w h x = by_box x.region_bbox refl
  where
    by_box :
        (o : Option Bbox)
        → x.region_bbox ≡ o
        → (let r = pass_at s w h o (with_verdict pass x) in
            (Trusted s w h x × (r ≡ with_verdict pass x))
            ⊎ ((Trusted s w h x → ⊥) × (r ≡ with_verdict unverified x)))
    by_box none e = inr (λ t. (let (b, q, f) = t.0 in absurd (cc (sym e ∙ q))), refl)
    by_box (some b) e = elim (Bool-cases (too_large w h b)) [
      | inl f ↦ inr (
        λ t.
            let (d, q, n) = t.0 in
            absurd (cc (sym f ∙ ap (too_large w h) (some-injective (sym e ∙ q)) ∙ n)),
        rw f refl,
      )
      | inr f ↦ elim (Bool-cases (ltb x.confidence s.misaka_fidelity_pass_min_confidence)) [
        | inl g ↦ inr (λ t. absurd (cc (sym g ∙ t.1)), rw (f, g) refl)
        | inr g ↦ inl (((b, e, f), g), rw (f, g) refl)
      ]
    ]

pub fail_at_cases :
    (c : FidelityCheck) (w h : ℕ) (x : CheckResult)
    → (let r = fail_at c w h x.region_bbox x in
        (Placed c w h x × (r ≡ x)) ⊎ ((Placed c w h x → ⊥) × (r ≡ with_verdict pass x)))
unfolding fail_at
fail_at_cases c w h x = by_box x.region_bbox refl
  where
    by_box :
        (o : Option Bbox)
        → x.region_bbox ≡ o
        → (let r = fail_at c w h o x in
            (Placed c w h x × (r ≡ x)) ⊎ ((Placed c w h x → ⊥) × (r ≡ with_verdict pass x)))
    by_box none e = inr (λ t. (let (b, q, f, g) = t in absurd (cc (sym e ∙ q))), refl)
    by_box (some b) e = elim (Bool-cases (too_large w h b)) [
      | inl f ↦ inr (
        λ t.
            let (d, q, n, m) = t in
            absurd (cc (sym f ∙ ap (too_large w h) (some-injective (sym e ∙ q)) ∙ n)),
        rw f refl,
      )
      | inr f ↦ elim (Bool-cases (region_compatible c.region_hint b h)) [
        | inl g ↦ inl ((b, e, f, g), rw (f, g) refl)
        | inr g ↦ inr (
          λ t.
              let (d, q, n, m) = t in
              let same : b ≡ d = some-injective (sym e ∙ q) in
              absurd (cc (sym g ∙ ap (λ y. region_compatible c.region_hint y h) same ∙ m)),
          rw (f, g) refl,
        )
      ]
    ]

pub not_passed :
    (w h : ℕ) (s : Settings) (x : CheckResult)
    → is_pass x.verdict ≡ false
    → apply_localized_pass_gate x w h s ≡ x
unfolding apply_localized_pass_gate
not_passed w h s x e = rw e refl

pub not_failed :
    (c : FidelityCheck) (w h : ℕ) (x : CheckResult)
    → is_fail x.verdict ≡ false
    → apply_fail_side_gates x c w h ≡ x
unfolding apply_fail_side_gates
not_failed c w h x e = rw e refl

pub failed :
    (c : FidelityCheck) (w h : ℕ) (x : CheckResult)
    → is_fail x.verdict ≡ true
    → apply_fail_side_gates x c w h ≡ fail_at c w h x.region_bbox x
unfolding apply_fail_side_gates
failed c w h x e = rw e refl

-- The gates keep the id of a result.
fail_at_id :
    (c : FidelityCheck) (w h : ℕ) (o : Option Bbox) (x : CheckResult)
    → (fail_at c w h o x).id ≡ x.id
unfolding fail_at
fail_at_id c w h none x = refl
fail_at_id c w h (some b) x = elim (Bool-cases (too_large w h b)) [
  | inl e ↦ rw e refl
  | inr e ↦ elim (Bool-cases (region_compatible c.region_hint b h)) [
    | inl f ↦ rw (e, f) refl
    | inr f ↦ rw (e, f) refl
  ]
]

pass_at_id :
    (s : Settings) (w h : ℕ) (o : Option Bbox) (x : CheckResult) → (pass_at s w h o x).id ≡ x.id
unfolding pass_at
pass_at_id s w h none x = refl
pass_at_id s w h (some b) x = elim (Bool-cases (too_large w h b)) [
  | inl e ↦ rw e refl
  | inr e ↦ elim (Bool-cases (ltb x.confidence s.misaka_fidelity_pass_min_confidence)) [
    | inl f ↦ rw (e, f) refl
    | inr f ↦ rw (e, f) refl
  ]
]

localized_id :
    (w h : ℕ) (s : Settings) (x : CheckResult) → (apply_localized_pass_gate x w h s).id ≡ x.id
unfolding apply_localized_pass_gate
localized_id w h s x = elim (Bool-cases (is_pass x.verdict)) [
  | inl e ↦ rw e (pass_at_id s w h x.region_bbox x)
  | inr e ↦ rw e refl
]

fail_side_id :
    (c : FidelityCheck) (w h : ℕ) (x : CheckResult) → (apply_fail_side_gates x c w h).id ≡ x.id
unfolding apply_fail_side_gates
fail_side_id c w h x = elim (Bool-cases (is_fail x.verdict)) [
  | inl e ↦ rw e (fail_at_id c w h x.region_bbox x)
  | inr e ↦ rw e refl
]

pub gates_id :
    (x : CheckResult) (c : FidelityCheck) (w h : ℕ) (s : Settings)
    → (apply_anti_hallucination_gates x c w h s).id ≡ x.id
unfolding apply_anti_hallucination_gates
gates_id x c w h s = localized_id w h s (apply_fail_side_gates x c w h) ∙ fail_side_id c w h x

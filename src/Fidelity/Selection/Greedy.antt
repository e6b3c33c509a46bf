-- ===== src/Fidelity/Selection/Greedy.antt =====
-- The order of the selection, and what it leaves out.
use misaka_asset_gene.Prelude.{
  ℕ, ◌≤◌, ◌≡◌, refl, sym, ◌∙◌, subst, ap, ◌⊎◌, inl, inr, true, false, List, [], ◌∷◌, ◌++◌, arith,
  leb, ltb, length, select, All, Bool-cases,
}
use mathlib.Core.List.{append-nil, append_assoc}
use misaka_asset_gene.Fidelity.{
  CheckResult, fail, is_fail, insert_by_confidence, sort_by_confidence, overlaps_any, choose,
  select_top_k_failed,
}
use misaka_asset_gene.Fidelity.Selection.{
  In, Descending, Descending-snoc, All-snoc, All-insert_by_confidence,
}

Descending-insert_by_confidence :
    (x : CheckResult) (rs : List CheckResult)
    → Descending rs
    → Descending (insert_by_confidence x rs)
unfolding insert_by_confidence
Descending-insert_by_confidence x [] d = (tt, tt)
Descending-insert_by_confidence x (r ∷ rs) d = elim (Bool-cases (ltb x.confidence r.confidence)) [
  | inl e ↦ rw e (
    All-insert_by_confidence (λ y. y.confidence ≤ r.confidence) x rs (ground (arith, e)) d.0,
    Descending-insert_by_confidence x rs d.1,
  )
  | inr e ↦ rw e ((ground (arith, e), below x r rs (ground (arith, e)) d.0), d)
]
  where
    below :
        (x r : CheckResult) (xs : List CheckResult)
        → r.confidence ≤ x.confidence
        → All (λ y. y.confidence ≤ r.confidence) xs
        → All (λ y. y.confidence ≤ x.confidence) xs
    below x r [] h a = tt
    below x r (y ∷ ys) h a = (omega (arith, h, a.0), below x r ys h a.1)

Descending-sort_by_confidence : (rs : List CheckResult) → Descending (sort_by_confidence rs)
unfolding sort_by_confidence
Descending-sort_by_confidence [] = tt
Descending-sort_by_confidence (r ∷ rs) =
    Descending-insert_by_confidence r (sort_by_confidence rs) (Descending-sort_by_confidence rs)

tails :
    (cs : List CheckResult) (r : CheckResult) (rs : List CheckResult)
    → All (λ c. All (λ x. x.confidence ≤ c.confidence) (r ∷ rs)) cs
    → All (λ c. All (λ x. x.confidence ≤ c.confidence) rs) cs
tails [] r rs h = tt
tails (c ∷ cs) r rs h = (h.0.1, tails cs r rs h.1)

heads :
    (cs : List CheckResult) (r : CheckResult) (rs : List CheckResult)
    → All (λ c. All (λ x. x.confidence ≤ c.confidence) (r ∷ rs)) cs
    → All (λ c. r.confidence ≤ c.confidence) cs
heads [] r rs h = tt
heads (c ∷ cs) r rs h = (h.0.0, heads cs r rs h.1)

choose-Descending :
    (k : ℕ) (chosen rs : List CheckResult)
    → Descending chosen
    → Descending rs
    → All (λ c. All (λ x. x.confidence ≤ c.confidence) rs) chosen
    → Descending (choose k chosen rs)
unfolding choose
choose-Descending k chosen [] d e a = d
choose-Descending k chosen (r ∷ rs) d e a = elim (Bool-cases (leb k (length chosen))) [
  | inl full ↦ rw full d
  | inr room ↦ elim (Bool-cases (overlaps_any r chosen)) [
    | inl o ↦ rw (room, o) (choose-Descending k chosen rs d e.1 (tails chosen r rs a))
    | inr o ↦
        rw (room, o)
          (choose-Descending k (chosen ++ r ∷ []) rs
            (Descending-snoc chosen r d (heads chosen r rs a)) e.1
            (All-snoc (λ c. All (λ x. x.confidence ≤ c.confidence) rs) chosen r
              (tails chosen r rs a) e.0))
  ]
]

-- The selection is in order of falling confidence.
pub select_top_k_failed-Descending :
    (rs : List CheckResult) (k : ℕ) → Descending (select_top_k_failed rs k)
unfolding select_top_k_failed
select_top_k_failed-Descending rs k =
    choose-Descending k [] _ tt (Descending-sort_by_confidence (select (λ r. is_fail r.verdict) rs))
      tt

-- The loop only adds behind what it has.
choose_extends :
    (k : ℕ) (chosen rs : List CheckResult)
    → (ext : List CheckResult) × (choose k chosen rs ≡ chosen ++ ext)
unfolding choose
choose_extends k chosen [] = ([], sym (append-nil chosen))
choose_extends k chosen (r ∷ rs) = elim (Bool-cases (leb k (length chosen))) [
  | inl full ↦ ([], rw full (sym (append-nil chosen)))
  | inr room ↦ elim (Bool-cases (overlaps_any r chosen)) [
    | inl o ↦ let (ext, e) = choose_extends k chosen rs in (ext, rw (room, o) e)
    | inr o ↦
        let (ext, e) = choose_extends k (chosen ++ r ∷ []) rs in
        (r ∷ ext, rw (room, o) (e ∙ append_assoc chosen (r ∷ []) ext))
  ]
]

-- Why a failure may be missing: the selection is full, or the failure's box meets a selected one.
abbrev pub Accounted : ℕ → List CheckResult → CheckResult → Type 0
Accounted k sel r = (k ≤ length sel) ⊎ (overlaps_any r sel ≡ true) ⊎ In r sel

any-append :
    (r : CheckResult) (xs ys : List CheckResult)
    → overlaps_any r xs ≡ true
    → overlaps_any r (xs ++ ys) ≡ true
any-append r [] ys h = cc
any-append r (x ∷ xs) ys h = ground (arith, h, any-append r xs ys)

In-append : (r : CheckResult) (xs ys : List CheckResult) → In r ys → In r (xs ++ ys)
In-append r [] ys i = i
In-append r (x ∷ xs) ys i = inr (In-append r xs ys i)

In-choose :
    (k : ℕ) (r : CheckResult) (chosen rs : List CheckResult) → In r (choose k (chosen ++ r ∷ []) rs)
In-choose k r chosen rs =
    let (ext, e) = choose_extends k (chosen ++ r ∷ []) rs in
    subst (In r) (sym (e ∙ append_assoc chosen (r ∷ []) ext))
      (In-append r chosen (r ∷ ext) (inl refl))

overlaps-choose :
    (k : ℕ) (r : CheckResult) (chosen rs : List CheckResult)
    → overlaps_any r chosen ≡ true
    → overlaps_any r (choose k chosen rs) ≡ true
overlaps-choose k r chosen rs h =
    let (ext, e) = choose_extends k chosen rs in
    subst (λ s. overlaps_any r s ≡ true) (sym e) (any-append r chosen ext h)

choose_full :
    (k : ℕ) (sel : List CheckResult) (rs : List CheckResult)
    → k ≤ length sel
    → All (Accounted k sel) rs
choose_full k sel [] h = tt
choose_full k sel (r ∷ rs) h = (inl h, choose_full k sel rs h)

module _ (k : ℕ) (chosen rs : List CheckResult) (r : CheckResult) where
  choose_stop : leb k (length chosen) ≡ true → choose k chosen (r ∷ rs) ≡ chosen
  unfolding choose
  choose_stop h = rw h

  choose_skip :
      leb k (length chosen) ≡ false
      → overlaps_any r chosen ≡ true
      → choose k chosen (r ∷ rs) ≡ choose k chosen rs
  unfolding choose
  choose_skip h o = rw (h, o)

  choose_take :
      leb k (length chosen) ≡ false
      → overlaps_any r chosen ≡ false
      → choose k chosen (r ∷ rs) ≡ choose k (chosen ++ r ∷ []) rs
  unfolding choose
  choose_take h o = rw (h, o)

choose-Accounted :
    (k : ℕ) (chosen rs : List CheckResult) → All (Accounted k (choose k chosen rs)) rs
choose-Accounted k chosen [] = tt
choose-Accounted k chosen (r ∷ rs) = elim (Bool-cases (leb k (length chosen))) [
  | inl full ↦
      subst (λ s. All (Accounted k s) (r ∷ rs)) (sym (choose_stop k chosen rs r full))
        (choose_full k chosen (r ∷ rs) (ground (arith, full)))
  | inr room ↦ elim (Bool-cases (overlaps_any r chosen)) [
    | inl o ↦
        subst (λ s. All (Accounted k s) (r ∷ rs)) (sym (choose_skip k chosen rs r room o))
          (inr (inl (overlaps-choose k r chosen rs o)), choose-Accounted k chosen rs)
    | inr o ↦
        subst (λ s. All (Accounted k s) (r ∷ rs)) (sym (choose_take k chosen rs r room o))
          (inr (inr (In-choose k r chosen rs)), choose-Accounted k (chosen ++ r ∷ []) rs)
  ]
]

In-insert_self : (x : CheckResult) (rs : List CheckResult) → In x (insert_by_confidence x rs)
unfolding insert_by_confidence
In-insert_self x [] = inl refl
In-insert_self x (r ∷ rs) = elim (Bool-cases (ltb x.confidence r.confidence)) [
  | inl e ↦ rw e (inr (In-insert_self x rs))
  | inr e ↦ rw e (inl refl)
]

In-insert : (x r : CheckResult) (rs : List CheckResult) → In r rs → In r (insert_by_confidence x rs)
unfolding insert_by_confidence
In-insert x r [] i = absurd i
In-insert x r (y ∷ rs) (inl q) = elim (Bool-cases (ltb x.confidence y.confidence)) [
  | inl e ↦ rw e (inl q)
  | inr e ↦ rw e (inr (inl q))
]
In-insert x r (y ∷ rs) (inr i) = elim (Bool-cases (ltb x.confidence y.confidence)) [
  | inl e ↦ rw e (inr (In-insert x r rs i))
  | inr e ↦ rw e (inr (inr i))
]

In-sort : (r : CheckResult) (rs : List CheckResult) → In r rs → In r (sort_by_confidence rs)
unfolding sort_by_confidence
In-sort r [] i = absurd i
In-sort r (x ∷ rs) (inl e) =
    subst (λ y. In y (insert_by_confidence x (sort_by_confidence rs))) (sym e)
      (In-insert_self x (sort_by_confidence rs))
In-sort r (x ∷ rs) (inr i) = In-insert x r (sort_by_confidence rs) (In-sort r rs i)

In-select :
    (r : CheckResult) (rs : List CheckResult)
    → r.verdict ≡ fail
    → In r rs
    → In r (select (λ r. is_fail r.verdict) rs)
In-select r [] f i = absurd i
In-select r (x ∷ rs) f (inl e) = rw (ap (λ y. is_fail y.verdict) (sym e) ∙ ap is_fail f) (inl e)
In-select r (x ∷ rs) f (inr i) = elim (Bool-cases (is_fail x.verdict)) [
  | inl e ↦ rw e (inr (In-select r rs f i))
  | inr e ↦ rw e (In-select r rs f i)
]

All-at :
    (P : CheckResult → Type 0) (rs : List CheckResult) (r : CheckResult) → All P rs → In r rs → P r
All-at P [] r a i = absurd i
All-at P (x ∷ rs) r a (inl e) = subst P (sym e) a.0
All-at P (x ∷ rs) r a (inr i) = All-at P rs r a.1 i

-- A confirmed failure that is not selected is left out only because the selection is full or because
-- its box meets the box of a selected result.
pub select_top_k_failed-maximal :
    (rs : List CheckResult) (k : ℕ) (r : CheckResult)
    → In r rs
    → r.verdict ≡ fail
    → (k ≤ length (select_top_k_failed rs k))
      ⊎ (overlaps_any r (select_top_k_failed rs k) ≡ true)
      ⊎ In r (select_top_k_failed rs k)
unfolding select_top_k_failed
select_top_k_failed-maximal rs k r i f =
    let fails = select (λ r. is_fail r.verdict) rs in
    All-at (Accounted k (choose k [] (sort_by_confidence fails))) (sort_by_confidence fails) r
      (choose-Accounted k [] (sort_by_confidence fails)) (In-sort r fails (In-select r rs f i))

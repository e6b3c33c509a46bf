-- ===== src/Fidelity/Selection.antt =====
-- `select_top_k_failed`: how many results it picks, which, and that it leaves out none that it could take.
pub mod Greedy
use misaka_asset_gene.Prelude.{
  ℕ, suc, ◌+◌, ◌≤◌, ◌<◌, ◌≡◌, refl, sym, ◌∙◌, subst, ap, ◌⊎◌, inl, inr, Bool, true, false, ◌||◌,
  Option, List, [], ◌∷◌, ◌++◌, arith, leb, ltb, if◌then◌else◌, length, length-append, select, any,
  All, Bool-cases, none, some, ◌&&◌, total,
}
use mathlib.Core.List.{append-nil, append_assoc}
use misaka_asset_gene.Prelude.Int.{ℤ, leb_ℤ, ltb_ℤ, leb_ℤ→le, ltb_ℤ→lt, lt→ltb_ℤ}
use misaka_asset_gene.Fidelity.Geometry.{Bbox, inside, bboxes_overlap, bbox_overlaps}
use misaka_asset_gene.Fidelity.Geometry.Clip.{covers}
use misaka_asset_gene.Fidelity.{
  CheckResult, fail, is_fail, insert_by_confidence, sort_by_confidence, overlaps_any, choose,
  select_top_k_failed,
}

-- The result is in the list.
abbrev pub In : CheckResult → List CheckResult → Type 0
In r [] = ⊥
In r (x ∷ xs) = (r ≡ x) ⊎ In r xs

-- No result's box meets the box of an earlier one.
abbrev Separate : List CheckResult → Type 0
Separate [] = Unit
Separate (c ∷ cs) = All (λ x. bbox_overlaps x.region_bbox c.region_bbox ≡ false) cs × Separate cs

-- The list is in order of falling confidence.
abbrev pub Descending : List CheckResult → Type 0
Descending [] = Unit
Descending (c ∷ cs) = All (λ x. x.confidence ≤ c.confidence) cs × Descending cs

pub All-snoc :
    (P : CheckResult → Type 0) (xs : List CheckResult) (r : CheckResult)
    → All P xs
    → P r
    → All P (xs ++ r ∷ [])
All-snoc P [] r a p = (p, tt)
All-snoc P (x ∷ xs) r a p = (a.0, All-snoc P xs r a.1 p)

Separate-snoc :
    (cs : List CheckResult) (r : CheckResult)
    → Separate cs
    → overlaps_any r cs ≡ false
    → Separate (cs ++ r ∷ [])
Separate-snoc [] r s o = (tt, tt)
Separate-snoc (c ∷ cs) r s o = (
  All-snoc (λ x. bbox_overlaps x.region_bbox c.region_bbox ≡ false) cs r s.0 (ground (arith, o)),
  Separate-snoc cs r s.1 (ground (arith, o)),
)

pub Descending-snoc :
    (cs : List CheckResult) (r : CheckResult)
    → Descending cs
    → All (λ c. r.confidence ≤ c.confidence) cs
    → Descending (cs ++ r ∷ [])
Descending-snoc [] r s o = (tt, tt)
Descending-snoc (c ∷ cs) r s o =
    (All-snoc (λ x. x.confidence ≤ c.confidence) cs r s.0 o.0, Descending-snoc cs r s.1 o.1)

-- What the greedy loop keeps, and what it adds.
module _ (P : List CheckResult → Type 0) (k : ℕ) where
  choose_inv :
      (chosen rs : List CheckResult)
      → P chosen
      → ((cs : List CheckResult) (r : CheckResult)
          → P cs
          → leb k (length cs) ≡ false
          → overlaps_any r cs ≡ false
          → P (cs ++ r ∷ []))
      → P (choose k chosen rs)
  unfolding choose
  choose_inv chosen [] p step = p
  choose_inv chosen (r ∷ rs) p step = elim (Bool-cases (leb k (length chosen))) [
    | inl full ↦ rw full p
    | inr room ↦ elim (Bool-cases (overlaps_any r chosen)) [
      | inl o ↦ rw (room, o) (choose_inv chosen rs p step)
      | inr o ↦ rw (room, o) (choose_inv (chosen ++ r ∷ []) rs (step chosen r p room o) step)
    ]
  ]

-- The selection has `k` results at most.
pub length-select_top_k_failed :
    (rs : List CheckResult) (k : ℕ) → length (select_top_k_failed rs k) ≤ k
unfolding select_top_k_failed
length-select_top_k_failed rs k =
    choose_inv (λ cs. length cs ≤ k) k [] _ (omega arith)
      λ cs r p room o. rw (length-append cs (r ∷ [])) (ground (arith, p, room))

select_top_k_failed-Separate : (rs : List CheckResult) (k : ℕ) → Separate (select_top_k_failed rs k)
unfolding select_top_k_failed
select_top_k_failed-Separate rs k =
    choose_inv Separate k [] _ tt λ cs r p room o. Separate-snoc cs r p o

-- How many times the box of a result holds a point; a missing box holds none.
abbrev box_covers : ℤ → ℤ → Option Bbox → ℕ
box_covers x y none = 0
box_covers x y (some b) = covers x y b

abbrev pub result_covers : ℤ → ℤ → CheckResult → ℕ
result_covers x y r = box_covers x y r.region_bbox

-- On one axis, two ranges that share a point meet.
meets :
    (a b c d z : ℤ)
    → (leb_ℤ a z && ltb_ℤ z b) ≡ true
    → (leb_ℤ c z && ltb_ℤ z d) ≡ true
    → (ltb_ℤ a d ≡ true) × (ltb_ℤ c b ≡ true)
meets a b c d z h k =
    let ha = leb_ℤ→le a z (ground (arith, h)) in
    let hb = ltb_ℤ→lt z b (ground (arith, h)) in
    let hc = leb_ℤ→le c z (ground (arith, k)) in
    let hd = ltb_ℤ→lt z d (ground (arith, k)) in
    (lt→ltb_ℤ a d (omega (arith, ha, hd)), lt→ltb_ℤ c b (omega (arith, hc, hb)))

module _ (x y : ℤ) where
  apart :
      (a b : Option Bbox)
      → bbox_overlaps a b ≡ false
      → (box_covers x y a ≡ 0) ⊎ (box_covers x y b ≡ 0)
  unfolding bbox_overlaps bboxes_overlap inside
  apart none b n = inl refl
  apart (some a) none n = inr refl
  apart (some a) (some b) n = elim (Bool-cases (inside x y a)) [
    | inr i ↦ inl (rw i refl)
    | inl i ↦ elim (Bool-cases (inside x y b)) [
      | inr j ↦ inr (rw j refl)
      | inl j ↦
          let hx = meets a.x0 a.x1 b.x0 b.x1 x (ground (arith, i)) (ground (arith, j)) in
          let hy = meets a.y0 a.y1 b.y0 b.y1 y (ground (arith, i)) (ground (arith, j)) in
          absurd (ground (arith, n, hx.0, hx.1, hy.0, hy.1))
    ]
  ]

  others :
      (c : CheckResult) (cs : List CheckResult)
      → All (λ r. bbox_overlaps r.region_bbox c.region_bbox ≡ false) cs
      → (result_covers x y c ≡ 0) ⊎ (total (result_covers x y) cs ≡ 0)
  others c [] a = inr refl
  others c (r ∷ cs) (n, a) = elim (others c cs a) [
    | inl e ↦ inl e
    | inr e ↦ elim (apart r.region_bbox c.region_bbox n) [
      | inl f ↦ inr (omega (arith, e, f))
      | inr f ↦ inl f
    ]
  ]

  at_most_once : (o : Option Bbox) → box_covers x y o ≤ 1
  at_most_once none = omega arith
  at_most_once (some b) = elim (Bool-cases (inside x y b)) [
    | inl e ↦ rw e (omega arith)
    | inr e ↦ rw e (omega arith)
  ]

  Separate-once : (cs : List CheckResult) → Separate cs → total (result_covers x y) cs ≤ 1
  Separate-once [] s = omega arith
  Separate-once (c ∷ cs) (a, s) = elim (others c cs a) [
    | inl e ↦ omega (arith, e, Separate-once cs s)
    | inr e ↦ omega (arith, e, at_most_once c.region_bbox)
  ]

-- Every point of the picture lies in the box of one selected result at most.
pub select_top_k_failed_once :
    (rs : List CheckResult) (k : ℕ) (x y : ℤ)
    → total (result_covers x y) (select_top_k_failed rs k) ≤ 1
select_top_k_failed_once rs k x y =
    Separate-once x y (select_top_k_failed rs k) (select_top_k_failed-Separate rs k)

-- A property of results, through the filter, the sort and the loop.
module _ (P : CheckResult → Type 0) where
  pub All-insert_by_confidence :
      (x : CheckResult) (rs : List CheckResult) → P x → All P rs → All P (insert_by_confidence x rs)
  unfolding insert_by_confidence
  All-insert_by_confidence x [] p h = (p, tt)
  All-insert_by_confidence x (r ∷ rs) p h = elim (Bool-cases (ltb x.confidence r.confidence)) [
    | inl e ↦ rw e (h.0, All-insert_by_confidence x rs p h.1)
    | inr e ↦ rw e (p, h)
  ]

  All-sort_by_confidence : (rs : List CheckResult) → All P rs → All P (sort_by_confidence rs)
  unfolding sort_by_confidence
  All-sort_by_confidence [] h = tt
  All-sort_by_confidence (r ∷ rs) h =
      All-insert_by_confidence r (sort_by_confidence rs) h.0 (All-sort_by_confidence rs h.1)

  All-choose :
      (k : ℕ) (chosen rs : List CheckResult) → All P chosen → All P rs → All P (choose k chosen rs)
  unfolding choose
  All-choose k chosen [] c h = c
  All-choose k chosen (r ∷ rs) c h = elim (Bool-cases (leb k (length chosen))) [
    | inl full ↦ rw full c
    | inr room ↦ elim (Bool-cases (overlaps_any r chosen)) [
      | inl o ↦ rw (room, o) (All-choose k chosen rs c h.1)
      | inr o ↦ rw (room, o) (All-choose k (chosen ++ r ∷ []) rs (All-snoc P chosen r c h.0) h.1)
    ]
  ]

All-In : (rs : List CheckResult) → All (λ r. In r rs) rs
All-In [] = tt
All-In (r ∷ rs) = (inl refl, weaken rs (All-In rs))
  where
    weaken : (xs : List CheckResult) → All (λ x. In x rs) xs → All (λ x. In x (r ∷ rs)) xs
    weaken [] h = tt
    weaken (x ∷ xs) h = (inr h.0, weaken xs h.1)

select_fails :
    (Q : CheckResult → Type 0) (rs : List CheckResult)
    → All Q rs
    → All (λ r. Q r × (r.verdict ≡ fail)) (select (λ r. is_fail r.verdict) rs)
select_fails Q [] h = tt
select_fails Q (r ∷ rs) h = elim (Bool-cases (is_fail r.verdict)) [
  | inl e ↦ rw e ((h.0, ground (arith, e)), select_fails Q rs h.1)
  | inr e ↦ rw e (select_fails Q rs h.1)
]

-- Every selected result is one of the given results and is a confirmed failure.
pub select_top_k_failed-fails :
    (rs : List CheckResult) (k : ℕ)
    → All (λ r. In r rs × (r.verdict ≡ fail)) (select_top_k_failed rs k)
unfolding select_top_k_failed
select_top_k_failed-fails rs k =
    All-choose (λ r. In r rs × (r.verdict ≡ fail)) k [] _ tt
      (All-sort_by_confidence (λ r. In r rs × (r.verdict ≡ fail)) _
        (select_fails (λ r. In r rs) rs (All-In rs)))

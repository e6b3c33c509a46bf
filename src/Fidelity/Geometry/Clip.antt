-- ===== src/Fidelity/Geometry/Clip.antt =====
-- What `_clip_rect_excluding` covers.
use misaka_asset_gene.Prelude.{
  ◌⊎◌, ℕ, ◌+◌, ◌≡◌, refl, Bool, true, false, not, ◌&&◌, ◌||◌, List, [], arith, if◌then◌else◌, total,
  inl, inr, Bool-cases, ◌∙◌,
}
use native.Mathlib.Nat.{add-zero}
use misaka_asset_gene.Prelude.Int.{ℤ, leb_ℤ, ltb_ℤ}
use misaka_asset_gene.Fidelity.Geometry.{Bbox, inside, max_ℤ, min_ℤ, piece_if, clip_rect_excluding}

-- How many times a box covers a point.
abbrev pub covers : ℤ → ℤ → Bbox → ℕ
covers x y b = if inside x y b then 1 else 0

total-piece_if :
    (x y : ℤ) (g : Bool) (p : Bbox) (rest : List Bbox)
    → (g ≡ false → inside x y p ≡ false)
    → total (covers x y) (piece_if g p rest) ≡ covers x y p + total (covers x y) rest
total-piece_if x y true p rest h = refl
total-piece_if x y false p rest h = rw (h refl) (omega arith)

-- One axis: the coordinate `z` against a range from `r0` to `r1` and an excluded one that meets it.
abbrev within : ℤ → ℤ → ℤ → Bool
within r0 r1 z = leb_ℤ r0 z && ltb_ℤ z r1

module _ (r0 r1 e0 e1 z : ℤ) where
  abbrev Meets : Type 0
  Meets = leb_ℤ (min_ℤ r1 e1) (max_ℤ r0 e0) ≡ false

  below_lem : Meets → (leb_ℤ r0 z && ltb_ℤ z (max_ℤ r0 e0)) ≡ (within r0 r1 z && not (leb_ℤ e0 z))
  below_lem h = ground arith

  above_lem : Meets → (leb_ℤ (min_ℤ r1 e1) z && ltb_ℤ z r1) ≡ (within r0 r1 z && not (ltb_ℤ z e1))
  above_lem h = ground arith

  between_lem :
      Meets
      → (leb_ℤ (max_ℤ r0 e0) z && ltb_ℤ z (min_ℤ r1 e1))
        ≡ (within r0 r1 z && (leb_ℤ e0 z && ltb_ℤ z e1))
  between_lem h = ground arith

  one_side : Meets → (leb_ℤ e0 z || ltb_ℤ z e1) ≡ true
  one_side h = ground arith

  nothing_below : ltb_ℤ r0 (max_ℤ r0 e0) ≡ false → (leb_ℤ r0 z && ltb_ℤ z (max_ℤ r0 e0)) ≡ false
  nothing_below h = ground arith

  nothing_above : ltb_ℤ (min_ℤ r1 e1) r1 ≡ false → (leb_ℤ (min_ℤ r1 e1) z && ltb_ℤ z r1) ≡ false
  nothing_above h = ground arith

  apart :
      leb_ℤ (min_ℤ r1 e1) (max_ℤ r0 e0) ≡ true
      → (within r0 r1 z && (leb_ℤ e0 z && ltb_ℤ z e1)) ≡ false
  apart h = ground arith

and_false : (a : Bool) {b : Bool} → b ≡ false → (a && b) ≡ false
and_false a h = ground arith

abbrev bit : Bool → ℕ
bit b = if b then 1 else 0

-- The pieces above, below, left and right of the overlap, counted at a point: `u` and `v` say that
-- the point is in the range of its axis, `a`, `b`, `c` and `d` on which side of the overlap it is.
count_pieces :
    (u a b v c d : Bool)
    → (a || b) ≡ true
    → (c || d) ≡ true
    → bit (u && (v && not c))
        + (bit (u && (v && not d))
            + (bit ((u && not a) && (v && (c && d))) + (bit ((u && not b) && (v && (c && d))) + 0)))
      ≡ bit ((u && v) && not ((a && b) && (c && d)))
count_pieces u a b v c d h k = ground arith

module _ (r e : Bbox) (x y : ℤ) where
  not_both :
      (leb_ℤ (min_ℤ r.x1 e.x1) (max_ℤ r.x0 e.x0) || leb_ℤ (min_ℤ r.y1 e.y1) (max_ℤ r.y0 e.y0))
        ≡ true
      → bit (inside x y r) ≡ bit (inside x y r && not (inside x y e))
  unfolding inside
  not_both h = elim (Bool-cases (leb_ℤ (min_ℤ r.x1 e.x1) (max_ℤ r.x0 e.x0))) [
    | inl a ↦
        outside (within r.x0 r.x1 x) _ (within r.y0 r.y1 y) _ (inl (apart r.x0 r.x1 e.x0 e.x1 x a))
    | inr a ↦
        outside (within r.x0 r.x1 x) _ (within r.y0 r.y1 y) _
          (inr (apart r.y0 r.y1 e.y0 e.y1 y (rw a at h)))
  ]
    where
      outside :
          (u a v c : Bool)
          → ((u && a) ≡ false) ⊎ ((v && c) ≡ false)
          → bit (u && v) ≡ bit ((u && v) && not (a && c))
      outside u a v c h = ground arith

  four_pieces :
      (g₁ g₂ g₃ g₄ : Bool) (p₁ p₂ p₃ p₄ : Bbox)
      → (g₁ ≡ false → inside x y p₁ ≡ false)
      → (g₂ ≡ false → inside x y p₂ ≡ false)
      → (g₃ ≡ false → inside x y p₃ ≡ false)
      → (g₄ ≡ false → inside x y p₄ ≡ false)
      → total (covers x y) (piece_if g₁ p₁ (piece_if g₂ p₂ (piece_if g₃ p₃ (piece_if g₄ p₄ []))))
        ≡ covers x y p₁ + (covers x y p₂ + (covers x y p₃ + (covers x y p₄ + 0)))
  four_pieces g₁ g₂ g₃ g₄ p₁ p₂ p₃ p₄ n₁ n₂ n₃ n₄ = omega (
    arith,
    total-piece_if x y g₁ p₁ (piece_if g₂ p₂ (piece_if g₃ p₃ (piece_if g₄ p₄ []))) n₁,
    total-piece_if x y g₂ p₂ (piece_if g₃ p₃ (piece_if g₄ p₄ [])) n₂,
    total-piece_if x y g₃ p₃ (piece_if g₄ p₄ []) n₃,
    total-piece_if x y g₄ p₄ [] n₄,
  )

  abbrev ix0 : ℤ
  ix0 = max_ℤ r.x0 e.x0

  abbrev iy0 : ℤ
  iy0 = max_ℤ r.y0 e.y0

  abbrev ix1 : ℤ
  ix1 = min_ℤ r.x1 e.x1

  abbrev iy1 : ℤ
  iy1 = min_ℤ r.y1 e.y1

  pieces_count :
      leb_ℤ ix1 ix0 ≡ false
      → leb_ℤ iy1 iy0 ≡ false
      → bit (within r.x0 r.x1 x && (leb_ℤ r.y0 y && ltb_ℤ y iy0))
          + (bit (within r.x0 r.x1 x && (leb_ℤ iy1 y && ltb_ℤ y r.y1))
              + (bit ((leb_ℤ r.x0 x && ltb_ℤ x ix0) && (leb_ℤ iy0 y && ltb_ℤ y iy1))
                  + (bit ((leb_ℤ ix1 x && ltb_ℤ x r.x1) && (leb_ℤ iy0 y && ltb_ℤ y iy1)) + 0)))
        ≡ bit (
            (within r.x0 r.x1 x && within r.y0 r.y1 y)
            && not ((leb_ℤ e.x0 x && ltb_ℤ x e.x1) && (leb_ℤ e.y0 y && ltb_ℤ y e.y1)))
  pieces_count hx hy = cc (
    below_lem r.y0 r.y1 e.y0 e.y1 y hy,
    above_lem r.y0 r.y1 e.y0 e.y1 y hy,
    below_lem r.x0 r.x1 e.x0 e.x1 x hx,
    above_lem r.x0 r.x1 e.x0 e.x1 x hx,
    between_lem r.y0 r.y1 e.y0 e.y1 y hy,
    count_pieces (within r.x0 r.x1 x) (leb_ℤ e.x0 x) (ltb_ℤ x e.x1) (within r.y0 r.y1 y)
        (leb_ℤ e.y0 y) (ltb_ℤ y e.y1) (one_side r.x0 r.x1 e.x0 e.x1 x hx)
        (one_side r.y0 r.y1 e.y0 e.y1 y hy),
  )

  -- The pieces of `_clip_rect_excluding` cover each point of `r` outside of `e` exactly once, and no
  -- other point: they are `r` minus `e`, and do not overlap one another.
  pub clip_rect_excluding-covers :
      total (covers x y) (clip_rect_excluding r e)
      ≡ (if inside x y r && not (inside x y e) then 1 else 0)
  unfolding clip_rect_excluding
  clip_rect_excluding-covers =
      elim (Bool-cases
        (leb_ℤ (min_ℤ r.x1 e.x1) (max_ℤ r.x0 e.x0) || leb_ℤ (min_ℤ r.y1 e.y1) (max_ℤ r.y0 e.y0))) [
          | inl h ↦ rw h (add-zero (bit (inside x y r)) ∙ not_both h)
          | inr h ↦ rw h (
              unfold inside in
              let hx : leb_ℤ (min_ℤ r.x1 e.x1) (max_ℤ r.x0 e.x0) ≡ false = ground (arith, h) in
              let hy : leb_ℤ (min_ℤ r.y1 e.y1) (max_ℤ r.y0 e.y0) ≡ false = ground (arith, h) in
              (four_pieces (ltb_ℤ r.y0 iy0) (ltb_ℤ iy1 r.y1) (ltb_ℤ r.x0 ix0) (ltb_ℤ ix1 r.x1) _ _ _
                  _ (λ g. and_false (within r.x0 r.x1 x) (nothing_below r.y0 r.y1 e.y0 e.y1 y g))
                  (λ g. and_false (within r.x0 r.x1 x) (nothing_above r.y0 r.y1 e.y0 e.y1 y g))
                  (λ g. rw (nothing_below r.x0 r.x1 e.x0 e.x1 x g) refl)
                  (λ g. rw (nothing_above r.x0 r.x1 e.x0 e.x1 x g) refl)
                ∙ pieces_count hx hy))
        ]

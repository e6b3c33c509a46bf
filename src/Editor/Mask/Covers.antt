-- ===== src/Editor/Mask/Covers.antt =====
-- core/editor/mask.py: the mask as a set of pixels.
use misaka_asset_gene.Prelude.{
  Result-cases, err≢ok, ok-injective, ℕ, zero, suc, ◌+◌, ◌*◌, ◌≤◌, ◌<◌, ◌≡◌, refl, ap, ◌∙◌, ◌⊎◌,
  inl, inr, Bool, true, false, ◌&&◌, ◌||◌, not, Bool-cases, List, [], ◌∷◌, List-cases, any, All,
  ltb, if◌then◌else◌, ok, arith,
}
use misaka_asset_gene.Prelude.Int.{pos, ltb_ℤ}
use misaka_asset_gene.Fidelity.Geometry.{Bbox, Ratio, inside, dilate_bbox}
use misaka_asset_gene.Fidelity.{MaskRegion}
use misaka_asset_gene.Editor.Mask.{
  Grid, ratio_zero, ratio_one, MaskFromRegionsRequest, is_greater, region_value, pixel_value,
  accumulate_regions, rasterize, carve, empty_grid,
}
use misaka_asset_gene.Editor.Mask.Pixels.{brighter}
use misaka_asset_gene.Editor.Mask.Painted.{
  is_between_iff, is_between_undilated, is_painted, value_at, brightest, regions_at,
}

pos_mul : (a b : ℕ) → 0 < a → 0 < b → 0 < a * b
pos_mul a b h k = grind (arith, h, k)

mul_pos : (a b : ℕ) → 0 < a * b → 0 < a
mul_pos zero b h = absurd (omega (arith, h))
mul_pos (suc a) b h = omega arith

-- Some of the box is in the image.
pub record Meets (width height : ℕ) (b : Bbox) : Type 0 where
  pub left : ltb_ℤ b.x0 (pos width) ≡ true
  pub right : ltb_ℤ (pos 0) b.x1 ≡ true
  pub wide : ltb_ℤ b.x0 b.x1 ≡ true
  pub above : ltb_ℤ b.y0 (pos height) ≡ true
  pub below : ltb_ℤ (pos 0) b.y1 ≡ true
  pub tall : ltb_ℤ b.y0 b.y1 ≡ true

abbrev pub holds_point : ℕ → ℕ → MaskRegion → Bool
holds_point x y r = inside (pos x) (pos y) (dilate_bbox r.bbox r.dilate)

module _ (width height : ℕ) where
  -- Where a box lies outside the image, its dilation would start at the edge of the image.
  abbrev pub Placed : MaskRegion → Type 0
  Placed r = Meets width height r.bbox ⊎ (r.dilate ≡ 0)

  is_painted-inside :
      (r : MaskRegion) (x y : ℕ)
      → Placed r
      → x < width
      → y < height
      → is_painted width height r x y ≡ holds_point x y r
  unfolding is_painted inside dilate_bbox
  is_painted-inside r x y (inl m) h k =
      let across = is_between_iff width r.dilate x r.bbox.x0 r.bbox.x1 m.left m.right m.wide h in
      let down = is_between_iff height r.dilate y r.bbox.y0 r.bbox.y1 m.above m.below m.tall k in
      rw (across, down) (ground arith)
  is_painted-inside r x y (inr e) h k =
      let across = is_between_undilated width x r.bbox.x0 r.bbox.x1 h in
      let down = is_between_undilated height y r.bbox.y0 r.bbox.y1 k in
      rw (e, across, down) (ground arith)

  value_positive :
      (r : MaskRegion) (x y : ℕ)
      → (0 < (value_at width height r x y).num) × (0 < (value_at width height r x y).den)
  unfolding value_at region_value pixel_value
  value_positive r x y = (ground arith, ground arith)

  brighter_positive :
      (v w : Ratio)
      → 0 < v.den
      → 0 < w.num
      → 0 < w.den
      → (0 < (brighter v w).num) × (0 < (brighter v w).den)
  brighter_positive v w d n e = elim (Bool-cases (is_greater w v)) [
    | inl g ↦ rw g (n, e)
    | inr g ↦
        let more : w.num * v.den ≤ v.num * w.den = ground (arith, g) in
        let some_light : 0 < v.num * w.den = omega (arith, pos_mul w.num v.den n d, more) in
        rw g (mul_pos v.num w.den some_light, d)
  ]

  brightest_positive :
      (rs : List MaskRegion) (x y : ℕ) (v : Ratio)
      → 0 < v.den
      → ltb 0 (brightest width height rs x y v).num
        ≡ (ltb 0 v.num || any (λ r. is_painted width height r x y) rs)
  unfolding brightest
  brightest_positive [] x y v d = ground arith
  brightest_positive (r ∷ rs) x y v d = elim (Bool-cases (is_painted width height r x y)) [
    | inl e ↦
        let (n, k) = value_positive r x y in
        let (n', d') = brighter_positive v (value_at width height r x y) d n k in
        rw (brightest, e)
          (brightest_positive rs x y (brighter v (value_at width height r x y)) d'
            ∙ ground (arith, n'))
    | inr e ↦ rw (brightest, e) (brightest_positive rs x y v d)
  ]

  -- Regions without a feather leave 1 or 0.
  hard_value : Bool → Ratio
  hard_value b = if b then ratio_one else ratio_zero

  hard_one : (r : MaskRegion) (x y : ℕ) → r.feather ≡ 0 → value_at width height r x y ≡ ratio_one
  unfolding value_at region_value pixel_value
  hard_one r x y h = rw h refl

  brighter_hard : (b : Bool) → brighter (hard_value b) ratio_one ≡ hard_value true
  unfolding hard_value
  brighter_hard true = refl
  brighter_hard false = refl

  carve_hard : (a : Ratio) (b : Bool) → ltb 0 (carve a (hard_value b)).num ≡ (ltb 0 a.num && not b)
  unfolding carve hard_value
  carve_hard a true = ground arith
  carve_hard a false = ground arith

  brightest_hard :
      (rs : List MaskRegion) (x y : ℕ) (b : Bool)
      → All (λ r. r.feather ≡ 0) rs
      → brightest width height rs x y (hard_value b)
        ≡ hard_value (b || any (λ r. is_painted width height r x y) rs)
  unfolding brightest
  brightest_hard [] x y b h = ap hard_value (ground arith)
  brightest_hard (r ∷ rs) x y b (h, hs) = elim (Bool-cases (is_painted width height r x y)) [
    | inl e ↦
        rw (brightest, e, hard_one r x y h, brighter_hard b)
          (brightest_hard rs x y true hs ∙ ap hard_value (ground (arith, e)))
    | inr e ↦ rw (brightest, e) (brightest_hard rs x y b hs)
  ]

  any_painted :
      (rs : List MaskRegion) (x y : ℕ)
      → All Placed rs
      → x < width
      → y < height
      → any (λ r. is_painted width height r x y) rs ≡ any (holds_point x y) rs
  any_painted [] x y h inner below = refl
  any_painted (r ∷ rs) x y (h, hs) inner below =
      rw (is_painted-inside r x y h inner below, any_painted rs x y hs inner below) refl

  light :
      (rs : List MaskRegion) (x y : ℕ) (g : Grid) (b c : Bool)
      → accumulate_regions empty_grid c width height rs ≡ ok (g, b)
      → All Placed rs
      → x < width
      → y < height
      → ltb 0 (g (y * width + x)).num ≡ any (holds_point x y) rs
  unfolding empty_grid
  light rs x y g b c h inner p q =
      rw (regions_at width height rs x y empty_grid g c b h p)
        (brightest_positive rs x y ratio_zero (omega arith) ∙ any_painted rs x y inner p q)

  shade :
      (r : MaskRegion) (rs : List MaskRegion) (x y : ℕ) (g : Grid) (b c : Bool)
      → accumulate_regions empty_grid c width height (r ∷ rs) ≡ ok (g, b)
      → All Placed (r ∷ rs)
      → All (λ s. s.feather ≡ 0) (r ∷ rs)
      → x < width
      → y < height
      → g (y * width + x) ≡ hard_value (any (holds_point x y) (r ∷ rs))
  unfolding empty_grid hard_value
  shade r rs x y g b c h inner hard p q =
      regions_at width height (r ∷ rs) x y empty_grid g c b h p
      ∙ brightest_hard (r ∷ rs) x y false hard
      ∙ ap hard_value (any_painted (r ∷ rs) x y inner p q)

  -- A pixel of the mask has a value above 0 exactly when the dilated box of a region holds it and no subtracted
  -- box does, where each box meets the image or is not dilated, and those subtracted have no feather.
  pub rasterize_holds :
      (request : MaskFromRegionsRequest) (g : Grid) (c : Bool) (x y : ℕ)
      → All Placed request.regions
      → All Placed request.subtract
      → All (λ r. r.feather ≡ 0) request.subtract
      → rasterize width height request ≡ ok (g, c)
      → x < width
      → y < height
      → ltb 0 (g (y * width + x)).num
        ≡ (any (holds_point x y) request.regions && not (any (holds_point x y) request.subtract))
  unfolding rasterize
  rasterize_holds request g c x y inner_regions inner_subtract hard h p q =
      elim (Result-cases (accumulate_regions empty_grid false width height request.regions)) [
        | inl (e, k) ↦ absurd (err≢ok (rw (rasterize, k) at h))
        | inr (painted, k) ↦
            let here = light request.regions x y painted.0 painted.1 false k inner_regions p q in
            elim (List-cases request.subtract) [
              | inl e ↦
                  let same = (ok-injective (rw (rasterize, k, e) at h)).0 in
                  rw (e, ← same) (here ∙ ground arith)
              | inr (r, rs, e) ↦
                  elim (Result-cases
                    (accumulate_regions empty_grid painted.1 width height (r ∷ rs))) [
                      | inl (f, k2) ↦ absurd (err≢ok (rw (rasterize, k, e, k2) at h))
                      | inr (carved, k2) ↦
                          let same = (ok-injective (rw (rasterize, k, e, k2) at h)).0 in
                          let dark =
                            shade r rs x y carved.0 carved.1 painted.1 k2 (rw e at inner_subtract)
                              (rw e at hard) p q in
                          rw (e, ← same, dark)
                            (carve_hard (painted.0 (y * width + x)) (any (holds_point x y) (r ∷ rs))
                              ∙ ap (λ b. b && not (any (holds_point x y) (r ∷ rs))) here)
                    ]
            ]
      ]

-- ===== src/Editor/Mask/Painted.antt =====
-- core/editor/mask.py: which pixels a list of regions paints, and how bright.
use misaka_asset_gene.Prelude.{
  err≢ok, ok-injective, Result-cases, ℕ, ◌+◌, ◌-◌, ◌*◌, ◌≤◌, ◌<◌, ◌≡◌, sym, ap, ◌∙◌, inl, inr, Bool,
  true, ◌&&◌, ◌||◌, Bool-cases, List, [], ◌∷◌, leb, ltb, if◌then◌else◌, ok, arith,
}
use misaka_asset_gene.Prelude.Int.{ℤ, pos, ◌+ℤ◌, ◌-ℤ◌, leb_ℤ, ltb_ℤ}
use misaka_asset_gene.Fidelity.Geometry.{Ratio}
use misaka_asset_gene.Fidelity.{MaskRegion}
use misaka_asset_gene.Editor.Mask.{
  Axis, Grid, clamp, axis, region_value, is_bad_bbox, accumulate_region, accumulate_regions,
  paint_rows,
}
use misaka_asset_gene.Editor.Mask.Pixels.{brighter, rows_at}

clamp-Bounds :
    (low high : ℕ) (v : ℤ) → (low ≤ clamp low high v) × (low ≤ high → clamp low high v ≤ high)
unfolding clamp
clamp-Bounds low high v = (ground arith, λ h. ground (arith, h))

axis-first_le : (size dilate : ℕ) (v0 v1 : ℤ) → (axis size dilate v0 v1).first ≤ size
unfolding axis clamp ◌-ℤ◌
axis-first_le size dilate v0 v1 = ground arith

pub axis-Bounds :
    (size dilate : ℕ) (v0 v1 : ℤ)
    → ((axis size dilate v0 v1).first ≤ (axis size dilate v0 v1).stop)
      × ((axis size dilate v0 v1).stop ≤ size)
unfolding axis
axis-Bounds size dilate v0 v1 =
    let low = clamp 0 size v0 in
    let end = pos (clamp low size v1) +ℤ pos dilate in
    let first = (axis size dilate v0 v1).first in
    let b = clamp-Bounds first size end in (b.0, b.1 (axis-first_le size dilate v0 v1))

-- A point of the range that the loop runs through.
abbrev pub is_between : Axis → ℕ → Bool
is_between a z = leb a.first z && ltb z a.stop

pub is_between_iff :
    (size dilate z : ℕ) (v0 v1 : ℤ)
    → ltb_ℤ v0 (pos size) ≡ true
    → ltb_ℤ (pos 0) v1 ≡ true
    → ltb_ℤ v0 v1 ≡ true
    → z < size
    → is_between (axis size dilate v0 v1) z
      ≡ (leb_ℤ (v0 -ℤ pos dilate) (pos z) && ltb_ℤ (pos z) (v1 +ℤ pos dilate))
unfolding axis clamp ◌-ℤ◌ ◌+ℤ◌
is_between_iff size dilate z v0 v1 h0 h1 h2 h = ground (arith, h0, h1, h2, h)

pub is_between_undilated :
    (size z : ℕ) (v0 v1 : ℤ)
    → z < size
    → is_between (axis size 0 v0 v1) z
      ≡ (leb_ℤ (v0 -ℤ pos 0) (pos z) && ltb_ℤ (pos z) (v1 +ℤ pos 0))
unfolding axis clamp ◌-ℤ◌ ◌+ℤ◌
is_between_undilated size z v0 v1 h = ground (arith, h)

range-stop : (y first stop : ℕ) → first ≤ stop → ltb y (first + (stop - first)) ≡ ltb y stop
range-stop y first stop h = ground (arith, h)

module _ (width height : ℕ) where
  abbrev pub columns : MaskRegion → Axis
  columns r = axis width r.dilate r.bbox.x0 r.bbox.x1

  abbrev pub lines : MaskRegion → Axis
  lines r = axis height r.dilate r.bbox.y0 r.bbox.y1

  -- The pixel in the column `x` and the row `y` is in the range of the loops for the region.
  unfoldable pub is_painted : MaskRegion → ℕ → ℕ → Bool
  is_painted r x y = is_between (lines r) y && is_between (columns r) x

  unfoldable pub value_at : MaskRegion → ℕ → ℕ → Ratio
  value_at r x y = region_value (columns r) (lines r) r y x

  -- The brightest value that a list of regions gives to a pixel, from a first value on.
  unfoldable pub brightest : List MaskRegion → ℕ → ℕ → Ratio → Ratio
  unfolding is_painted value_at
  brightest [] x y v = v
  brightest (r ∷ rs) x y v =
      brightest rs x y (if is_painted r x y then brighter v (value_at r x y) else v)

  region_at :
      (r : MaskRegion) (x y : ℕ) (t g : Grid) (c : Bool)
      → accumulate_region t width height r ≡ ok (g, c)
      → x < width
      → g (y * width + x) ≡ (
          if is_painted r x y
          then brighter (t (y * width + x)) (value_at r x y)
          else t (y * width + x))
  unfolding accumulate_region is_painted value_at
  region_at r x y t g c h inner = elim (Bool-cases (is_bad_bbox r.bbox)) [
    | inl bad ↦ absurd (err≢ok (rw (accumulate_region, bad) at h))
    | inr good_box ↦
        let rows = lines r in
        let fits = axis-Bounds width r.dilate r.bbox.x0 r.bbox.x1 in
        let ordered = axis-Bounds height r.dilate r.bbox.y0 r.bbox.y1 in
        let here =
          rows_at width (columns r) (region_value (columns r) rows r) (rows.stop - rows.first)
            rows.first y x t fits.0 fits.1 inner in
        let same : g
            ≡ paint_rows (rows.stop - rows.first) rows.first width (columns r)
                (region_value (columns r) rows r) t =
          sym (ok-injective (rw (accumulate_region, good_box) at h)).0 in
        ap (λ k. k (y * width + x)) same ∙ (rw (← range-stop y rows.first rows.stop ordered.0) here)
  ]

  pub regions_at :
      (rs : List MaskRegion) (x y : ℕ) (t g : Grid) (b c : Bool)
      → accumulate_regions t b width height rs ≡ ok (g, c)
      → x < width
      → g (y * width + x) ≡ brightest rs x y (t (y * width + x))
  unfolding accumulate_regions brightest
  regions_at [] x y t g b c h inner = ap (λ k. k (y * width + x)) (sym (ok-injective h).0)
  regions_at (r ∷ rs) x y t g b c h inner =
      elim (Result-cases (accumulate_region t width height r)) [
        | inl (e, q) ↦ absurd (err≢ok (rw (accumulate_regions, q) at h))
        | inr (next, q) ↦
            regions_at rs x y next.0 g (next.1 || b) c (rw (accumulate_regions, q) at h) inner
            ∙ ap (brightest rs x y) (region_at r x y t next.0 next.1 q inner)
      ]

-- ===== src/Editor/Mask/Bounds.antt =====
-- core/editor/mask.py: every pixel that `_accumulate_region` writes is in the buffer of width * height
-- floats.
use misaka_asset_gene.Prelude.{
  err≢ok, ok-injective, Result-cases, ℕ, ◌+◌, ◌-◌, ◌*◌, ◌≤◌, ◌≡◌, sym, ap, ◌∙◌, inl, inr, Bool,
  Bool-cases, List, [], ◌∷◌, ◌||◌, ok, arith,
}
use misaka_asset_gene.Fidelity.{MaskRegion}
use misaka_asset_gene.Editor.Mask.{
  Grid, region_value, is_bad_bbox, accumulate_region, accumulate_regions,
}
use misaka_asset_gene.Editor.Mask.Pixels.{rows_behind}
use misaka_asset_gene.Editor.Mask.Painted.{axis-Bounds, columns, lines}

module _ (width height : ℕ) where
  region_behind :
      (r : MaskRegion) (i : ℕ) (t g : Grid) (c : Bool)
      → accumulate_region t width height r ≡ ok (g, c)
      → height * width ≤ i
      → g i ≡ t i
  unfolding accumulate_region
  region_behind r i t g c h far = elim (Bool-cases (is_bad_bbox r.bbox)) [
    | inl bad ↦ absurd (err≢ok (rw (accumulate_region, bad) at h))
    | inr good_box ↦
        let cols = columns width height r in
        let rows = lines width height r in
        let fits = axis-Bounds width r.dilate r.bbox.x0 r.bbox.x1 in
        let tall = axis-Bounds height r.dilate r.bbox.y0 r.bbox.y1 in
        let room : rows.first + (rows.stop - rows.first) ≤ height = omega (arith, tall.0, tall.1) in
        let same = (ok-injective (rw (accumulate_region, good_box) at h)).0 in
        ap (λ k. k i) (sym same)
        ∙ rows_behind width cols (region_value cols rows r) (rows.stop - rows.first) rows.first
            height i t fits.0 fits.1 room far
  ]

  -- The regions of a request, wherever their boxes lie and however they are dilated, change nothing behind
  -- the last pixel of the image: no write is out of the buffer.
  pub accumulate_regions_behind :
      (rs : List MaskRegion) (i : ℕ) (t g : Grid) (b c : Bool)
      → accumulate_regions t b width height rs ≡ ok (g, c)
      → height * width ≤ i
      → g i ≡ t i
  unfolding accumulate_regions
  accumulate_regions_behind [] i t g b c h far = ap (λ k. k i) (sym (ok-injective h).0)
  accumulate_regions_behind (r ∷ rs) i t g b c h far =
      elim (Result-cases (accumulate_region t width height r)) [
        | inl (e, q) ↦ absurd (err≢ok (rw (accumulate_regions, q) at h))
        | inr (next, q) ↦
            accumulate_regions_behind rs i next.0 g (next.1 || b) c
              (rw (accumulate_regions, q) at h) far
            ∙ region_behind r i t next.0 next.1 q far
      ]

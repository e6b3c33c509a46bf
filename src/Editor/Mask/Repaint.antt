-- ===== src/Editor/Mask/Repaint.antt =====
-- The mask of a refine round: core/consultant/fidelity_loop.py, `build_mask_regions`, gives the regions
-- that core/editor/mask.py rasterizes.
use misaka_asset_gene.Prelude.{
  both, ℕ, ◌+◌, ◌*◌, ◌<◌, ◌≡◌, refl, inl, inr, Bool, true, false, ◌&&◌, Bool-cases, List, [], ◌∷◌,
  any, total, All, ltb→lt, ok, arith,
}
use misaka_asset_gene.Prelude.Int.{ℤ, pos, ◌+ℤ◌, ◌-ℤ◌, leb_ℤ, ltb_ℤ}
use misaka_asset_gene.Fidelity.Geometry.{Bbox, Ratio, inside, dilate_bbox}
use misaka_asset_gene.Fidelity.{
  CheckResult, raw_chosen, chosen_regions, map_regions, subtract_region, build_mask_regions,
  reassert_loop,
}
use misaka_asset_gene.Fidelity.Masks.{is_in_any, region_covers, build_mask_regions_keep}
use misaka_asset_gene.Editor.Mask.{Grid, MaskFromRegionsRequest, rasterize}
use misaka_asset_gene.Editor.Mask.Covers.{Meets, Placed, holds_point, rasterize_holds}

dilated_axis :
    (v0 v1 z : ℤ) (d : ℕ)
    → (leb_ℤ v0 z && ltb_ℤ z v1) ≡ true
    → (leb_ℤ (v0 -ℤ pos d) z && ltb_ℤ z (v1 +ℤ pos d)) ≡ true
unfolding ◌+ℤ◌ ◌-ℤ◌
dilated_axis v0 v1 z d h = ground (arith, h)

module _ (x y : ℕ) where
  inside-dilate_bbox :
      (b : Bbox) (d : ℕ)
      → inside (pos x) (pos y) b ≡ true
      → inside (pos x) (pos y) (dilate_bbox b d) ≡ true
  unfolding inside dilate_bbox
  inside-dilate_bbox b d h =
      let (across, down) = both _ _ h in
      rw (dilated_axis b.x0 b.x1 (pos x) d across, dilated_axis b.y0 b.y1 (pos y) d down) refl

  any-chosen_regions :
      (d f : ℕ) (bs : List Bbox)
      → is_in_any (pos x) (pos y) bs ≡ true
      → any (holds_point x y) (chosen_regions d f bs) ≡ true
  unfolding chosen_regions
  any-chosen_regions d f [] h = h
  any-chosen_regions d f (b ∷ bs) h = elim (Bool-cases (inside (pos x) (pos y) b)) [
    | inl e ↦ rw (chosen_regions, inside-dilate_bbox b d e) refl
    | inr e ↦ ground (arith, h, e, any-chosen_regions d f bs)
  ]

  undilated : (b : Bbox) → inside (pos x) (pos y) (dilate_bbox b 0) ≡ inside (pos x) (pos y) b
  unfolding inside dilate_bbox ◌+ℤ◌ ◌-ℤ◌
  undilated b = ground arith

  any-map_regions :
      (bs : List Bbox)
      → total (region_covers (pos x) (pos y)) (map_regions bs) ≡ 0
      → any (holds_point x y) (map_regions bs) ≡ false
  unfolding subtract_region
  any-map_regions [] h = refl
  any-map_regions (b ∷ bs) h = ground (arith, h, undilated b, any-map_regions bs)

chosen-Placed :
    (width height d f : ℕ) (bs : List Bbox)
    → All (Meets width height) bs
    → All (Placed width height) (chosen_regions d f bs)
unfolding chosen_regions
chosen-Placed w h d f [] a = tt
chosen-Placed w h d f (b ∷ bs) (m, ms) = (inl m, chosen-Placed w h d f bs ms)

subtracted-Placed :
    (width height : ℕ) (bs : List Bbox)
    → All (Placed width height) (map_regions bs) × All (λ r. r.feather ≡ 0) (map_regions bs)
unfolding subtract_region
subtracted-Placed w h [] = (tt, tt)
subtracted-Placed w h (b ∷ bs) = let (p, f) = subtracted-Placed w h bs in ((inr refl, p), (refl, f))

-- What a refine round asks to repaint: each pixel of the box of a chosen failure has a value above 0 in
-- the mask of the round, whatever the passed checks subtract, where these boxes meet the image.
pub rasterize-build_mask_regions :
    (width height : ℕ) (chosen results : List CheckResult) (dilate feather : ℕ) (t : Ratio)
    (g : Grid) (c : Bool) (x y : ℕ)
    → All (Meets width height) (raw_chosen chosen)
    → rasterize width height (record {
      regions = (build_mask_regions chosen results dilate feather t).0;
      subtract = (build_mask_regions chosen results dilate feather t).1;
    })
      ≡ ok (g, c)
    → x < width
    → y < height
    → is_in_any (pos x) (pos y) (raw_chosen chosen) ≡ true
    → 0 < (g (y * width + x)).num
unfolding build_mask_regions
rasterize-build_mask_regions width height chosen results dilate feather t g c x y meets h p q k =
    let raws = raw_chosen chosen in
    let bs = (reassert_loop dilate t raws [] results).0 in
    let (placed, hard) = subtracted-Placed width height bs in
    let request : MaskFromRegionsRequest = record {
      regions = chosen_regions dilate feather raws;
      subtract = map_regions bs;
    } in
    let lit =
      rasterize_holds width height request g c x y
        (chosen-Placed width height dilate feather raws meets) placed hard h p q in
    let kept = build_mask_regions_keep chosen results dilate feather t (pos x) (pos y) k in
    ltb→lt 0 (g (y * width + x)).num
      (rw (lit, any-chosen_regions x y dilate feather raws k, any-map_regions x y bs kept) refl)

-- ===== src/Fidelity/Masks.antt =====
-- `build_mask_regions`: the subtracted boxes never cut into the box of a chosen failure.
use misaka_asset_gene.Prelude.{
  ℕ, ◌+◌, ◌≡◌, refl, ◌∙◌, ap, inl, inr, Bool, true, false, ◌&&◌, ◌||◌, none, some, List, [], ◌∷◌,
  ◌++◌, arith, if◌then◌else◌, any, total, Bool-cases, Option-cases,
}
use misaka_asset_gene.Prelude.Int.{
  ℤ, pos, ◌+ℤ◌, ◌-ℤ◌, leb_ℤ, ltb_ℤ, leb_ℤ→le, ltb_ℤ→lt, lt→ltb_ℤ, +ℤ_parts, -ℤ_parts,
}
use misaka_asset_gene.Fidelity.Geometry.{
  Bbox, Ratio, inside, bboxes_overlap, dilate_bbox, clip_rect_excluding,
}
use misaka_asset_gene.Fidelity.Geometry.Clip.{covers, clip_rect_excluding-covers}
use misaka_asset_gene.Fidelity.{
  CheckResult, MaskRegion, raw_chosen, overlapping_raw, clip_all, clip_pieces, subtract_pieces,
  is_relevant, reassert_loop, map_regions, build_mask_regions, subtract_region,
}

module _ (d : ℕ) (t : Ratio) (raws seen : List Bbox) (r : CheckResult) (rs : List CheckResult) where
  reassert_loop-none :
      r.region_bbox ≡ none → reassert_loop d t raws seen (r ∷ rs) ≡ reassert_loop d t raws seen rs
  unfolding reassert_loop
  reassert_loop-none e = rw (e, reassert_loop)

  reassert_loop_relevant :
      (b : Bbox)
      → r.region_bbox ≡ some b
      → is_relevant d raws seen r b ≡ true
      → reassert_loop d t raws seen (r ∷ rs) ≡ (
        subtract_pieces t (overlapping_raw d raws b) b ++ (reassert_loop d t raws (b ∷ seen) rs).0,
        r ∷ (reassert_loop d t raws (b ∷ seen) rs).1,
      )
  unfolding reassert_loop
  reassert_loop_relevant b e q = ground arith

  reassert_loop_skip :
      (b : Bbox)
      → r.region_bbox ≡ some b
      → is_relevant d raws seen r b ≡ false
      → reassert_loop d t raws seen (r ∷ rs) ≡ reassert_loop d t raws seen rs
  unfolding reassert_loop
  reassert_loop_skip b e q = ground arith

-- How many regions of a mask have the point in their box.
abbrev pub region_covers : ℤ → ℤ → MaskRegion → ℕ
region_covers x y m = covers x y m.bbox

-- Some box of the list holds the point.
abbrev pub is_in_any : ℤ → ℤ → List Bbox → Bool
is_in_any x y bs = any (inside x y) bs

and_left : (a b : Bool) → (a && b) ≡ true → a ≡ true
and_left a b h = ground arith

and_right : (a b : Bool) → (a && b) ≡ true → b ≡ true
and_right a b h = ground arith

-- On one axis, two ranges that share a point meet, also when one of them is dilated.
meets_dilated :
    (b0 b1 r0 r1 z : ℤ) (d : ℕ)
    → (leb_ℤ b0 z && ltb_ℤ z b1) ≡ true
    → (leb_ℤ r0 z && ltb_ℤ z r1) ≡ true
    → (ltb_ℤ b0 (r1 +ℤ pos d) ≡ true) × (ltb_ℤ (r0 -ℤ pos d) b1 ≡ true)
meets_dilated b0 b1 r0 r1 z d h k =
    let lo = leb_ℤ→le b0 z (and_left (leb_ℤ b0 z) (ltb_ℤ z b1) h) in
    let hi = ltb_ℤ→lt z b1 (and_right (leb_ℤ b0 z) (ltb_ℤ z b1) h) in
    let lo' = leb_ℤ→le r0 z (and_left (leb_ℤ r0 z) (ltb_ℤ z r1) k) in
    let hi' = ltb_ℤ→lt z r1 (and_right (leb_ℤ r0 z) (ltb_ℤ z r1) k) in
    (
      lt→ltb_ℤ b0 (r1 +ℤ pos d) (omega (arith, lo, hi', +ℤ_parts r1 (pos d))),
      lt→ltb_ℤ (r0 -ℤ pos d) b1 (omega (arith, lo', hi, -ℤ_parts r0 (pos d))),
    )

module _ (x y : ℤ) where
  total-append :
      (ps qs : List Bbox)
      → total (covers x y) (ps ++ qs) ≡ total (covers x y) ps + total (covers x y) qs
  total-append [] qs = omega arith
  total-append (p ∷ ps) qs = omega (arith, total-append ps qs)

  total-clip_all :
      (raw : Bbox) (ps : List Bbox)
      → total (covers x y) (clip_all raw ps) ≡ (if inside x y raw then 0 else total (covers x y) ps)
  unfolding clip_all
  total-clip_all raw [] = ground arith
  total-clip_all raw (p ∷ ps) =
      total-append (clip_rect_excluding p raw) (clip_all raw ps)
      ∙ ground (arith, clip_rect_excluding-covers p raw x y, total-clip_all raw ps)

  -- The pieces that are left cover a point only outside of all the excluded boxes.
  total-clip_pieces :
      (raws ps : List Bbox)
      → total (covers x y) (clip_pieces raws ps)
        ≡ (if is_in_any x y raws then 0 else total (covers x y) ps)
  unfolding clip_pieces
  total-clip_pieces [] ps = refl
  total-clip_pieces (raw ∷ raws) ps =
      total-clip_pieces raws (clip_all raw ps) ∙ ground (arith, total-clip_all raw ps)

  overlap_of_inside :
      (b raw : Bbox) (d : ℕ)
      → inside x y b ≡ true
      → inside x y raw ≡ true
      → bboxes_overlap b (dilate_bbox raw d) ≡ true
  unfolding inside bboxes_overlap dilate_bbox
  overlap_of_inside b raw d h k =
      let hx = meets_dilated b.x0 b.x1 raw.x0 raw.x1 x d (and_left _ _ h) (and_left _ _ k) in
      let hy = meets_dilated b.y0 b.y1 raw.y0 raw.y1 y d (and_right _ _ h) (and_right _ _ k) in
      rw (hx.0, hx.1, hy.0, hy.1)

  -- A raw box that holds a point of `b` is among those that `b` is clipped by.
  in_overlapping :
      (d : ℕ) (raws : List Bbox) (b : Bbox)
      → inside x y b ≡ true
      → is_in_any x y (overlapping_raw d raws b) ≡ is_in_any x y raws
  in_overlapping d [] b h = refl
  in_overlapping d (raw ∷ raws) b h = elim (Bool-cases (bboxes_overlap b (dilate_bbox raw d))) [
    | inl o ↦ rw o (ap (λ c. inside x y raw || c) (in_overlapping d raws b h))
    | inr o ↦ rw o (ground (arith, o, h, overlap_of_inside b raw d h, in_overlapping d raws b h))
  ]

  subtract_pieces_clear :
      (t : Ratio) (d : ℕ) (raws : List Bbox) (b : Bbox)
      → is_in_any x y raws ≡ true
      → total (covers x y) (subtract_pieces t (overlapping_raw d raws b) b) ≡ 0
  unfolding subtract_pieces
  subtract_pieces_clear t d raws b h =
      ground
        (arith, h, in_overlapping d raws b, total-clip_pieces (overlapping_raw d raws b) (b ∷ []))

  reassert_loop_clear :
      (t : Ratio) (d : ℕ) (raws seen : List Bbox) (rs : List CheckResult)
      → is_in_any x y raws ≡ true
      → total (covers x y) (reassert_loop d t raws seen rs).0 ≡ 0
  reassert_loop_clear t d raws seen [] h = unfold reassert_loop in refl
  reassert_loop_clear t d raws seen (r ∷ rs) h = elim (Option-cases r.region_bbox) [
    | inl e ↦ rw (reassert_loop-none d t raws seen r rs e) (reassert_loop_clear t d raws seen rs h)
    | inr (b, e) ↦ elim (Bool-cases (is_relevant d raws seen r b)) [
      | inl q ↦ rw (reassert_loop_relevant d t raws seen r rs b e q) (
          total-append (subtract_pieces t (overlapping_raw d raws b) b)
            (reassert_loop d t raws (b ∷ seen) rs).0
          ∙ omega (
            arith,
            subtract_pieces_clear t d raws b h,
            reassert_loop_clear t d raws (b ∷ seen) rs h,
          ))
      | inr q ↦
          rw (reassert_loop_skip d t raws seen r rs b e q) (reassert_loop_clear t d raws seen rs h)
    ]
  ]

  total-map_regions :
      (bs : List Bbox) → total (region_covers x y) (map_regions bs) ≡ total (covers x y) bs
  unfolding subtract_region
  total-map_regions [] = refl
  total-map_regions (b ∷ bs) = omega (arith, total-map_regions bs)

-- A point in the box of a chosen failure lies in no subtracted region: the mask that is left always
-- holds the whole box of each chosen failure.
pub build_mask_regions_keep :
    (chosen results : List CheckResult) (dilate feather : ℕ) (t : Ratio) (x y : ℤ)
    → is_in_any x y (raw_chosen chosen) ≡ true
    → total (region_covers x y) (build_mask_regions chosen results dilate feather t).1 ≡ 0
unfolding build_mask_regions
build_mask_regions_keep chosen results dilate feather t x y h =
    total-map_regions x y (reassert_loop dilate t (raw_chosen chosen) [] results).0
    ∙ reassert_loop_clear x y t dilate (raw_chosen chosen) [] results h

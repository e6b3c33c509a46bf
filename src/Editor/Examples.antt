-- ===== src/Editor/Examples.antt =====
-- A mask of one region in a small picture.
use misaka_asset_gene.Prelude.{
  ℕ, ◌≡◌, ◌<◌, ◌+◌, ◌*◌, refl, inl, true, false, ◌&&◌, not, some, none, List, [], ◌∷◌, ◌++◌, any,
  All, length, ltb, Result, ok, err, arith, Option, Bool,
}
use misaka_asset_gene.Prelude.Int.{pos, negsuc, ◌+ℤ◌, ◌-ℤ◌}
use misaka_asset_gene.Fidelity.Geometry.{Bbox, inside}
use misaka_asset_gene.Fidelity.{CheckResult, MaskRegion, fail, raw_chosen, build_mask_regions}
use misaka_asset_gene.Fidelity.Masks.{is_in_any}
use misaka_asset_gene.Editor.Image.{Bytes, read_image_size, write_png_rgb}
use misaka_asset_gene.Editor.Image.RoundTrip.{
  Segment, IsSkipped, write_segments, frame_header, read_image_size-write_png_rgb,
  read_image_size-frame_header,
}
use misaka_asset_gene.Editor.Mask.{
  Grid, MaskFromRegionsRequest, MaskBuildResult, rasterize, empty_grid, ratio_zero, ratio_one,
  accumulate_regions, is_bad_bbox, build_mask_png, bad_bbox,
}
use misaka_asset_gene.Editor.Mask.Covers.{Meets, holds_point, rasterize_holds}
use misaka_asset_gene.Editor.Mask.Built.{refusal, build_mask_png-refused, build_mask_png-Returns}
use misaka_asset_gene.Editor.Mask.Repaint.{rasterize-build_mask_regions}
use misaka_asset_gene.Editor.Mask.Bounds.{accumulate_regions_behind}

abbrev box : ℕ → ℕ → ℕ → ℕ → Bbox
box a b c d = record { x0 = pos a; y0 = pos b; x1 = pos c; y1 = pos d }

abbrev region : MaskRegion
region = record { bbox = box 1 1 3 2; dilate = 1; feather = 0 }

abbrev hole : MaskRegion
hole = record { bbox = box 2 1 3 2; dilate = 0; feather = 0 }

abbrev request : MaskFromRegionsRequest
request = record { regions = region ∷ []; subtract = hole ∷ [] }

abbrev grid_of : {E : Type 0} → Result E (Grid × Bool) → Grid
grid_of (ok p) = p.0
grid_of (err e) = λ i. ratio_zero

abbrev flag_of : {E : Type 0} → Result E (Grid × Bool) → Bool
flag_of (ok p) = p.1
flag_of (err e) = false

abbrev given : Option Bytes → Bytes
given none = []
given (some bs) = bs

-- Stand-ins for zlib.
abbrev compress : Bytes → Bytes
compress bs = bs

abbrev crc32 : Bytes → ℕ
crc32 bs = length bs

abbrev one_pixel : Bytes
one_pixel = 255 ∷ 255 ∷ 255 ∷ []

abbrev png : Bytes
png = given (write_png_rgb compress crc32 1 1 one_pixel)

one_pixel-png : write_png_rgb compress crc32 1 1 one_pixel ≡ some png
unfolding write_png_rgb
one_pixel-png = refl

read_image_size-write_png_rgb_example : read_image_size png ≡ ok (1, 1)
read_image_size-write_png_rgb_example =
    read_image_size-write_png_rgb compress crc32 1 1 one_pixel png one_pixel-png

abbrev comment : Segment
comment = record { marker = 254; payload = 7 ∷ 255 ∷ 192 ∷ [] }

comment-IsSkipped : IsSkipped comment
comment-IsSkipped = record { not_frame = refl; not_alone = refl; short = omega arith }

read_image_size-frame_header_example :
    read_image_size (
      255
      ∷ 216
      ∷ (write_segments (comment ∷ []) ++ (frame_header 192 0 17 8 640 480 ++ (255 ∷ 217 ∷ []))))
    ≡ ok (640, 480)
read_image_size-frame_header_example =
    read_image_size-frame_header (comment ∷ []) 192 0 17 8 640 480 (255 ∷ 217 ∷ [])
      (comment-IsSkipped, tt) refl

region-Meets : Meets 6 4 region.bbox
region-Meets = record {
  left = refl;
  right = refl;
  wide = refl;
  above = refl;
  below = refl;
  tall = refl;
}

hole-Meets : Meets 6 4 hole.bbox
hole-Meets = record {
  left = refl;
  right = refl;
  wide = refl;
  above = refl;
  below = refl;
  tall = refl;
}

painted :
    rasterize 6 4 request ≡ ok (grid_of (rasterize 6 4 request), flag_of (rasterize 6 4 request))
unfolding rasterize ◌+ℤ◌ ◌-ℤ◌
painted = refl

rasterize_holds_example :
    ltb 0 (grid_of (rasterize 6 4 request) (1 * 6 + 3)).num
    ≡ (any (holds_point 3 1) (region ∷ []) && not (any (holds_point 3 1) (hole ∷ [])))
rasterize_holds_example =
    rasterize_holds 6 4 request (grid_of (rasterize 6 4 request)) (flag_of (rasterize 6 4 request))
      3 1 (inl region-Meets, tt) (inl hole-Meets, tt) (refl, tt) painted (omega arith) (omega arith)

accumulated :
    accumulate_regions empty_grid false 6 4 (region ∷ [])
    ≡ ok (
      grid_of (accumulate_regions empty_grid false 6 4 (region ∷ [])),
      flag_of (accumulate_regions empty_grid false 6 4 (region ∷ [])),
    )
unfolding accumulate_regions ◌+ℤ◌ ◌-ℤ◌
accumulated = refl

abbrev behind : ℕ
behind = 24

accumulate_regions_behind_example :
    grid_of (accumulate_regions empty_grid false 6 4 (region ∷ [])) behind ≡ empty_grid behind
accumulate_regions_behind_example =
    accumulate_regions_behind 6 4 (region ∷ []) behind empty_grid
      (grid_of (accumulate_regions empty_grid false 6 4 (region ∷ []))) false
      (flag_of (accumulate_regions empty_grid false 6 4 (region ∷ []))) accumulated (omega arith)

abbrev flat : MaskRegion
flat = record { bbox = box 1 1 1 2; dilate = 0; feather = 0 }

abbrev flat_request : MaskFromRegionsRequest
flat_request = record { regions = region ∷ flat ∷ []; subtract = [] }

flat_refusal : refusal 6 4 flat_request ≡ some bad_bbox
unfolding refusal is_bad_bbox
flat_refusal = refl

build_mask_png-refused_example : build_mask_png compress crc32 6 4 flat_request ≡ err bad_bbox
build_mask_png-refused_example =
    build_mask_png-refused compress crc32 6 4 flat_request bad_bbox flat_refusal

no_refusal : refusal 6 4 request ≡ none
unfolding refusal is_bad_bbox
no_refusal = refl

build_mask_png-Returns_example :
    (m : MaskBuildResult) × (build_mask_png compress crc32 6 4 request ≡ ok m)
    × (m.width ≡ 6)
    × (m.height ≡ 4)
    × (read_image_size m.png_bytes ≡ ok (6, 4))
build_mask_png-Returns_example =
    build_mask_png-Returns compress crc32 6 4 request (λ px h. omega (arith, h)) no_refusal

-- A box that lies ten pixels to the left of the image, dilated by five, paints the first columns.
abbrev beside : MaskRegion
beside = record {
  bbox = record { x0 = negsuc 19; y0 = pos 0; x1 = negsuc 9; y1 = pos 4 };
  dilate = 5;
  feather = 0;
}

beside_painted :
    grid_of (rasterize 6 4 (record { regions = beside ∷ []; subtract = [] })) 0 ≡ ratio_one
unfolding rasterize ◌+ℤ◌ ◌-ℤ◌
beside_painted = refl

-- A box that reaches past the frame fades out at the frame.
abbrev past_frame : MaskRegion
past_frame = record {
  bbox = record { x0 = negsuc 9; y0 = negsuc 9; x1 = pos 20; y1 = pos 20 };
  dilate = 0;
  feather = 5;
}

past_frame_fades :
    grid_of (rasterize 6 4 (record { regions = past_frame ∷ []; subtract = [] })) 0
    ≡ record { num = 1; den = 5 }
unfolding rasterize ◌+ℤ◌ ◌-ℤ◌
past_frame_fades = refl

abbrev failed : CheckResult
failed = record { id = "collar"; confidence = 90; region_bbox = some (box 1 1 3 2); verdict = fail }

abbrev built : List MaskRegion × List MaskRegion × List CheckResult
built = build_mask_regions (failed ∷ []) (failed ∷ []) 1 0 (record { num = 3; den = 10 })

abbrev round_request : MaskFromRegionsRequest
round_request = record { regions = built.0; subtract = built.1 }

round_painted :
    rasterize 6 4 round_request
    ≡ ok (grid_of (rasterize 6 4 round_request), flag_of (rasterize 6 4 round_request))
unfolding rasterize ◌+ℤ◌ ◌-ℤ◌ build_mask_regions
round_painted = refl

in_failed : is_in_any (pos 2) (pos 1) (raw_chosen (failed ∷ [])) ≡ true
unfolding raw_chosen inside
in_failed = refl

failed-Meets : All (Meets 6 4) (raw_chosen (failed ∷ []))
unfolding raw_chosen
failed-Meets = (region-Meets, tt)

rasterize-build_mask_regions_example : 0 < (grid_of (rasterize 6 4 round_request) (1 * 6 + 2)).num
rasterize-build_mask_regions_example =
    rasterize-build_mask_regions 6 4 (failed ∷ []) (failed ∷ []) 1 0 (record { num = 3; den = 10 })
      (grid_of (rasterize 6 4 round_request)) (flag_of (rasterize 6 4 round_request)) 2 1
      failed-Meets round_painted (omega arith) (omega arith) in_failed

-- ===== src/Editor/Mask.antt =====
-- core/editor/mask.py, `build_mask_png`. A float is an exact fraction, and a sum or a product is not
-- rounded. The four coordinates of a box are a record, so that a box of another length does not occur.
-- A grid is a function of the index: `build_mask_png` reads and writes it within width * height.
pub mod Pixels
pub mod Painted
pub mod Covers
pub mod Built
pub mod Repaint
pub mod Bounds
use misaka_asset_gene.Prelude.{
  ℕ, zero, suc, ◌+◌, ◌-◌, ◌*◌, ◌/◌, ◌%◌, Bool, true, false, ◌&&◌, ◌||◌, Option, none, some, List,
  [], ◌∷◌, leb, ltb, ◌==◌, if◌then◌else◌, Result, ok, err,
}
use misaka_asset_gene.Prelude.Int.{ℤ, pos, ◌+ℤ◌, ◌-ℤ◌, leb_ℤ, ltb_ℤ, pos_part}
use misaka_asset_gene.Fidelity.Geometry.{Bbox, Ratio, max_ℤ, min_ℤ}
use misaka_asset_gene.Fidelity.{MaskRegion}
use misaka_asset_gene.Editor.Image.{Bytes, write_png_rgb}

abbrev pub max_mask_pixels : ℕ
max_mask_pixels = 16777216

pub data MaskError : Type 0 where
  bad_dimensions : MaskError
  no_regions : MaskError
  too_many_pixels : MaskError
  bad_bbox : MaskError
  pack_error : MaskError

pub record MaskFromRegionsRequest : Type 0 where
  pub regions : List MaskRegion
  pub subtract : List MaskRegion

pub record MaskBuildResult : Type 0 where
  pub png_bytes : Bytes
  pub width : ℕ
  pub height : ℕ
  pub coverage_ratio : Ratio
  pub clamped : Bool

abbrev pub ratio_zero : Ratio
ratio_zero = record { num = 0; den = 1 }

abbrev pub ratio_one : Ratio
ratio_one = record { num = 1; den = 1 }

-- `a > b`, by the cross products.
abbrev pub is_greater : Ratio → Ratio → Bool
is_greater a b = ltb (b.num * a.den) (a.num * b.den)

abbrev pub Grid : Type 0
Grid = ℕ → Ratio

-- `if value > target[idx]: target[idx] = value`.
unfoldable pub brighten : Grid → ℕ → Ratio → Grid
brighten target idx value i =
    if i == idx then (if is_greater value (target idx) then value else target idx) else target i

-- `max(low, min(v, high))`.
unfoldable pub clamp : ℕ → ℕ → ℤ → ℕ
clamp low high v = pos_part (max_ℤ (pos low) (min_ℤ v (pos high)))

-- What `_accumulate_region` makes of one axis: the clamped box, and the range of its dilation, which is
-- clamped again.
pub record Axis : Type 0 where
  pub low : ℕ
  pub high : ℕ
  pub first : ℕ
  pub stop : ℕ
  pub cut : Bool

unfoldable pub axis : ℕ → ℕ → ℤ → ℤ → Axis
unfolding clamp ◌-ℤ◌ ◌+ℤ◌
axis size dilate v0 v1 =
    let low = clamp 0 size v0 in
    let high = clamp low size v1 in
    let first = pos_part (max_ℤ (pos 0) (pos low -ℤ pos dilate)) in
    record {
      low = low;
      high = high;
      first = first;
      stop = clamp first size (pos high +ℤ pos dilate);
      cut =
          ltb_ℤ v0 (pos 0)
          || ltb_ℤ (pos size) v1
          || ltb_ℤ (pos low -ℤ pos dilate) (pos 0)
          || ltb_ℤ (pos size) (pos high +ℤ pos dilate);
    }

abbrev pub min_ℕ : ℕ → ℕ → ℕ
min_ℕ a b = if leb a b then a else b

-- `min(x - ex0, ex1 - 1 - x)`, where neither is negative for an `x` of the range.
unfoldable pub edge_distance : Axis → ℕ → ℕ → ℕ
edge_distance a dilate x = min_ℕ (x + dilate - a.low) (a.high + dilate - 1 - x)

unfoldable pub pixel_value : ℕ → ℕ → Ratio
pixel_value feather distance =
    if feather == 0 || leb feather distance
    then ratio_one
    else record { num = distance + 1; den = feather }

-- The inner loop, from the column `x`, and the outer loop, from the row `y`.
unfoldable pub paint_row : ℕ → ℕ → ℕ → (ℕ → Ratio) → Grid → Grid
unfolding brighten
paint_row zero x base value target = target
paint_row (suc n) x base value target =
    paint_row n (suc x) base value (brighten target (base + x) (value x))

unfoldable pub paint_rows : ℕ → ℕ → ℕ → Axis → (ℕ → ℕ → Ratio) → Grid → Grid
unfolding paint_row
paint_rows zero y width cols value target = target
paint_rows (suc n) y width cols value target =
    paint_rows n (suc y) width cols value
      (paint_row (cols.stop - cols.first) cols.first (y * width) (value y) target)

unfoldable pub region_value : Axis → Axis → MaskRegion → ℕ → ℕ → Ratio
unfolding edge_distance pixel_value
region_value cols rows r y x =
    pixel_value r.feather (min_ℕ (edge_distance cols r.dilate x) (edge_distance rows r.dilate y))

unfoldable pub is_bad_bbox : Bbox → Bool
is_bad_bbox b = leb_ℤ b.x1 b.x0 || leb_ℤ b.y1 b.y0

unfoldable pub accumulate_region : Grid → ℕ → ℕ → MaskRegion → Result MaskError (Grid × Bool)
unfolding axis paint_rows region_value is_bad_bbox
accumulate_region target width height r =
    let cols = axis width r.dilate r.bbox.x0 r.bbox.x1 in
    let rows = axis height r.dilate r.bbox.y0 r.bbox.y1 in
    if is_bad_bbox r.bbox
    then err bad_bbox
    else ok (
      paint_rows (rows.stop - rows.first) rows.first width cols (region_value cols rows r) target,
      cols.cut || rows.cut,
    )

-- `for region in ...: clamped = _accumulate_region(...) or clamped`.
unfoldable pub accumulate_regions :
    Grid → Bool → ℕ → ℕ → List MaskRegion → Result MaskError (Grid × Bool)
unfolding accumulate_region
accumulate_regions target clamped width height [] = ok (target, clamped)
accumulate_regions target clamped width height (r ∷ rs) =
    elim (accumulate_region target width height r) [
      | ok next ↦ accumulate_regions next.0 (next.1 || clamped) width height rs
      | err e ↦ err e
    ]

-- `a * (1.0 - b)`, for fractions `b` up to 1.
unfoldable pub carve : Ratio → Ratio → Ratio
carve a b = record { num = a.num * (b.den - b.num); den = a.den * b.den }

unfoldable pub empty_grid : Grid
empty_grid i = ratio_zero

-- The two unions and the subtraction. An empty `subtract` leaves the union as it is.
unfoldable pub rasterize : ℕ → ℕ → MaskFromRegionsRequest → Result MaskError (Grid × Bool)
unfolding accumulate_regions carve empty_grid
rasterize width height request =
    elim (accumulate_regions empty_grid false width height request.regions) [
      | err e ↦ err e
      | ok painted ↦ elim request.subtract [
        | [] ↦ ok painted
        | r ∷ rs ↦ elim (accumulate_regions empty_grid painted.1 width height (r ∷ rs)) [
          | err e ↦ err e
          | ok carved ↦ ok (λ i. carve (painted.0 i) (carved.0 i), carved.1)
        ]
      ]
    ]

-- `round(value * 255)`, to the even number at a half, between 0 and 255.
unfoldable pub level : Ratio → ℕ
level v =
    let whole = v.num * 255 / v.den in
    let rest = v.num * 255 % v.den in
    let rounded =
      if ltb (2 * rest) v.den || (2 * rest == v.den && whole % 2 == 0) then whole else whole + 1 in
    min_ℕ 255 rounded

-- The pixels from the index `i`.
unfoldable pub gray_pixels : ℕ → ℕ → Grid → Bytes
unfolding level
gray_pixels zero i grid = []
gray_pixels (suc n) i grid =
    level (grid i) ∷ level (grid i) ∷ level (grid i) ∷ gray_pixels n (suc i) grid

unfoldable pub total_value : ℕ → ℕ → Ratio → Grid → Ratio
total_value zero i total grid = total
total_value (suc n) i total grid =
    let value = grid i in
    total_value n (suc i)
      (record { num = total.num * value.den + value.num * total.den; den = total.den * value.den })
      grid

module _ (compress : Bytes → Bytes) (crc32 : Bytes → ℕ) where
  unfoldable pub build_mask_png : ℕ → ℕ → MaskFromRegionsRequest → Result MaskError MaskBuildResult
  unfolding rasterize gray_pixels total_value
  build_mask_png width height request =
      if width == 0 || height == 0 then err bad_dimensions else elim request.regions [
        | [] ↦ err no_regions
        | r ∷ rs ↦
            if ltb max_mask_pixels (width * height)
            then err too_many_pixels
            else elim (rasterize width height request) [
              | err e ↦ err e
              | ok (union, clamped) ↦
                  let total = total_value (width * height) 0 ratio_zero union in
                  elim (write_png_rgb compress crc32 width height
                    (gray_pixels (width * height) 0 union)) [
                      | none ↦ err pack_error
                      | some png ↦ ok (record {
                        png_bytes = png;
                        width = width;
                        height = height;
                        coverage_ratio = record {
                          num = total.num;
                          den = total.den * (width * height);
                        };
                        clamped = clamped;
                      })
                    ]
            ]
      ]

-- ===== src/Fidelity/Geometry.antt =====
-- core/consultant/fidelity_loop.py, the helpers on bounding boxes. Coordinates are integers, as a
-- dilated box may leave the image. A box holds the points with x0 ≤ x < x1 and y0 ≤ y < y1.
pub mod Clip
use misaka_asset_gene.Prelude.{
  ℕ, ◌+◌, ◌-◌, ◌*◌, Bool, true, false, ◌&&◌, ◌||◌, Option, none, some, List, [], ◌∷◌, ◌++◌, leb,
  ltb, ◌==◌, if◌then◌else◌,
}
use misaka_asset_gene.Prelude.Int.{ℤ, pos, ◌+ℤ◌, ◌-ℤ◌, leb_ℤ, ltb_ℤ, pos_part}

pub record Bbox : Type 0 where
  pub x0 : ℤ
  pub y0 : ℤ
  pub x1 : ℤ
  pub y1 : ℤ

abbrev pub max_ℤ : ℤ → ℤ → ℤ
max_ℤ a b = if leb_ℤ a b then b else a

abbrev pub min_ℤ : ℤ → ℤ → ℤ
min_ℤ a b = if leb_ℤ a b then a else b

-- A point of a box.
unfoldable pub inside : ℤ → ℤ → Bbox → Bool
inside x y b = (leb_ℤ b.x0 x && ltb_ℤ x b.x1) && (leb_ℤ b.y0 y && ltb_ℤ y b.y1)

unfoldable pub bboxes_overlap : Bbox → Bbox → Bool
bboxes_overlap a b = ltb_ℤ a.x0 b.x1 && ltb_ℤ b.x0 a.x1 && ltb_ℤ a.y0 b.y1 && ltb_ℤ b.y0 a.y1

-- `_bbox_overlaps`, where a missing box overlaps nothing.
unfoldable pub bbox_overlaps : Option Bbox → Option Bbox → Bool
unfolding bboxes_overlap
bbox_overlaps none b = false
bbox_overlaps (some a) none = false
bbox_overlaps (some a) (some b) = bboxes_overlap a b

unfoldable pub dilate_bbox : Bbox → ℕ → Bbox
dilate_bbox b n = record {
  x0 = b.x0 -ℤ pos n;
  y0 = b.y0 -ℤ pos n;
  x1 = b.x1 +ℤ pos n;
  y1 = b.y1 +ℤ pos n;
}

-- `max(0, b - a)`.
pub extent : ℤ → ℤ → ℕ
extent a b = pos_part (b -ℤ a)

unfoldable pub bbox_area : Bbox → ℕ
unfolding extent
bbox_area b = extent b.x0 b.x1 * extent b.y0 b.y1

pub intersection_area : Bbox → Bbox → ℕ
unfolding extent
intersection_area a b =
    extent (max_ℤ a.x0 b.x0) (min_ℤ a.x1 b.x1) * extent (max_ℤ a.y0 b.y0) (min_ℤ a.y1 b.y1)

-- A ratio stands for a float: the source's literals are decimal fractions.
pub record Ratio : Type 0 where
  pub num : ℕ
  pub den : ℕ

-- `_iou(a, b) >= threshold`: the quotient is compared by its cross products, and it is 0 where the
-- boxes do not meet or the union is empty.
unfoldable pub iou_at_least : Ratio → Bbox → Bbox → Bool
unfolding intersection_area bbox_area
iou_at_least t a b =
    let intersection = intersection_area a b in
    let union = bbox_area a + bbox_area b - intersection in
    if intersection == 0
    then t.num == 0
    else if ltb 0 union
    then leb (t.num * union) (intersection * t.den)
    else t.num == 0

-- `if test: pieces.append(piece)` in front of the pieces that come after it.
abbrev pub piece_if : Bool → Bbox → List Bbox → List Bbox
piece_if b p rest = if b then p ∷ rest else rest

unfoldable pub clip_rect_excluding : Bbox → Bbox → List Bbox
clip_rect_excluding r e =
    let ix0 = max_ℤ r.x0 e.x0 in
    let iy0 = max_ℤ r.y0 e.y0 in
    let ix1 = min_ℤ r.x1 e.x1 in
    let iy1 = min_ℤ r.y1 e.y1 in
    if leb_ℤ ix1 ix0 || leb_ℤ iy1 iy0
    then r ∷ []
    else piece_if (ltb_ℤ r.y0 iy0) (record { x0 = r.x0; y0 = r.y0; x1 = r.x1; y1 = iy0 })
        (piece_if (ltb_ℤ iy1 r.y1) (record { x0 = r.x0; y0 = iy1; x1 = r.x1; y1 = r.y1 })
          (piece_if (ltb_ℤ r.x0 ix0) (record { x0 = r.x0; y0 = iy0; x1 = ix0; y1 = iy1 })
            (piece_if (ltb_ℤ ix1 r.x1) (record { x0 = ix1; y0 = iy0; x1 = r.x1; y1 = iy1 }) [])))

-- ===== src/Editor/Mask/Pixels.antt =====
-- core/editor/mask.py, `_accumulate_region`: what the loops over rows and columns leave in each pixel.
use misaka_asset_gene.Prelude.{
  ℕ, zero, suc, ◌+◌, ◌-◌, ◌*◌, ◌≤◌, ◌<◌, ◌≡◌, refl, ◌∙◌, ◌⊎◌, inl, inr, true, false, ◌&&◌,
  Bool-cases, leb, ltb, ◌==◌, if◌then◌else◌, arith,
}
use misaka_asset_gene.Fidelity.Geometry.{Ratio}
use misaka_asset_gene.Editor.Mask.{Axis, Grid, is_greater, brighten, paint_row, paint_rows}

-- The later rows of a grid start behind the earlier ones.
pub row_gap : (y v w : ℕ) → y < v → y * w + w ≤ v * w
row_gap y zero w h = absurd (omega (arith, h))
row_gap y (suc v) w h = elim (Bool-cases (ltb y v)) [
  | inl e ↦ let below = row_gap y v w (ground (arith, e)) in grind (arith, below)
  | inr e ↦ let same : y ≡ v = ground (arith, h, e) in rw same (grind arith)
]

abbrev pub brighter : Ratio → Ratio → Ratio
brighter old value = if is_greater value old then value else old

module _ (base : ℕ) (value : ℕ → Ratio) where
  row_away :
      (n x i : ℕ) (t : Grid)
      → (i < base + x) ⊎ (base + x + n ≤ i)
      → paint_row n x base value t i ≡ t i
  unfolding paint_row brighten
  row_away zero x i t h = refl
  row_away (suc n) x i t h =
      let ne : (i == base + x) ≡ false = ground (arith, h) in
      row_away n (suc x) i (brighten t (base + x) (value x)) (ground (arith, h)) ∙ rw ne refl

  row_at :
      (n x z : ℕ) (t : Grid)
      → paint_row n x base value t (base + z)
        ≡ (if leb x z && ltb z (x + n) then brighter (t (base + z)) (value z) else t (base + z))
  unfolding paint_row brighten
  row_at zero x z t = ground arith
  row_at (suc n) x z t = elim (Bool-cases (z == x)) [
    | inl e ↦
        let q : z ≡ x = ground (arith, e) in
        let self : (base + x == base + x) ≡ true = ground arith in
        rw q (
          row_away n (suc x) (base + x) (brighten t (base + x) (value x)) (inl (omega arith))
          ∙ rw self (ground arith))
    | inr e ↦
        let ne : (base + z == base + x) ≡ false = ground (arith, e) in
        row_at n (suc x) z (brighten t (base + x) (value x)) ∙ rw ne (ground (arith, e))
  ]

-- Another row is before the range of columns of this one, or behind it.
apart :
    (v y z width first stop : ℕ)
    → first ≤ stop
    → stop ≤ width
    → z < width
    → (v == y) ≡ false
    → (v * width + z < y * width + first) ⊎ (y * width + first + (stop - first) ≤ v * width + z)
apart v y z width first stop ordered fits inner e = elim (Bool-cases (ltb y v)) [
  | inl h ↦
      let gap = row_gap y v width (ground (arith, h)) in inr (omega (arith, gap, ordered, fits))
  | inr h ↦ let gap = row_gap v y width (ground (arith, h, e)) in inl (omega (arith, gap, inner))
]

module _ (width : ℕ) (cols : Axis) (value : ℕ → ℕ → Ratio) where
  -- The pixel in the column `z` of the row `v`, after the rows from `y`.
  pub rows_at :
      (n y v z : ℕ) (t : Grid)
      → cols.first ≤ cols.stop
      → cols.stop ≤ width
      → z < width
      → paint_rows n y width cols value t (v * width + z) ≡ (
          if (leb y v && ltb v (y + n)) && (leb cols.first z && ltb z cols.stop)
          then brighter (t (v * width + z)) (value v z)
          else t (v * width + z))
  unfolding paint_rows
  rows_at zero y v z t ordered fits inner = ground arith
  rows_at (suc n) y v z t ordered fits inner = elim (Bool-cases (v == y)) [
    | inl e ↦
        let q : v ≡ y = ground (arith, e) in
        let count = cols.stop - cols.first in
        let t' = paint_row count cols.first (y * width) (value y) t in
        let here = row_at (y * width) (value y) count cols.first z t in
        rw q (rows_at n (suc y) y z t' ordered fits inner ∙ rw here (ground (arith, ordered)))
    | inr e ↦
        let count = cols.stop - cols.first in
        let t' = paint_row count cols.first (y * width) (value y) t in
        let away : t' (v * width + z) ≡ t (v * width + z) =
          row_away (y * width) (value y) count cols.first (v * width + z) t
            (apart v y z width cols.first cols.stop ordered fits inner e) in
        rows_at n (suc y) v z t' ordered fits inner ∙ rw away (ground (arith, e))
  ]

  -- The rows up to the height leave what is behind the last pixel.
  pub rows_behind :
      (n y height i : ℕ) (t : Grid)
      → cols.first ≤ cols.stop
      → cols.stop ≤ width
      → y + n ≤ height
      → height * width ≤ i
      → paint_rows n y width cols value t i ≡ t i
  unfolding paint_rows
  rows_behind zero y height i t ordered fits room h = refl
  rows_behind (suc n) y height i t ordered fits room h =
      let count = cols.stop - cols.first in
      let gap = row_gap y height width (omega (arith, room)) in
      let behind : y * width + cols.first + count ≤ i = omega (arith, gap, ordered, fits, h) in
      rows_behind n (suc y) height i (paint_row count cols.first (y * width) (value y) t) ordered
        fits (omega (arith, room)) h
      ∙ row_away (y * width) (value y) count cols.first i t (inr behind)

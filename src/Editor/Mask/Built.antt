-- ===== src/Editor/Mask/Built.antt =====
-- core/editor/mask.py, `build_mask_png`: which requests it refuses, and what it builds of the others.
use misaka_asset_gene.Prelude.{
  ℕ, zero, suc, ◌+◌, ◌*◌, ◌%◌, ◌≤◌, ◌<◌, ◌≡◌, refl, sym, ap, inl, inr, Bool, true, false, ◌||◌,
  Bool-cases, Option, none, some, some-injective, List, [], ◌∷◌, ◌++◌, List-cases, any, take,
  length, length-append, length-take-le, ltb, lt→ltb, ◌==◌, if◌then◌else◌, ok, err, arith,
}
use mathlib.Core.Bool.{false≢true, true≢false}
use mathlib.Core.Option.{none-ne-some}
use misaka_asset_gene.Dialog.{is_empty}
use misaka_asset_gene.Fidelity.{MaskRegion}
use misaka_asset_gene.Editor.Image.{
  Bytes, drop, pack_u32, chunk, scanlines, write_png_rgb, read_image_size, ihdr_tag, idat_tag,
  iend_tag,
}
use misaka_asset_gene.Editor.Image.RoundTrip.{read_image_size-write_png_rgb}
use misaka_asset_gene.Editor.Mask.{
  Grid, MaskError, bad_dimensions, no_regions, too_many_pixels, bad_bbox, MaskFromRegionsRequest,
  MaskBuildResult, max_mask_pixels, is_bad_bbox, accumulate_region, accumulate_regions, rasterize,
  empty_grid, gray_pixels, build_mask_png,
}

abbrev has_bad : List MaskRegion → Bool
has_bad rs = any (λ r. is_bad_bbox r.bbox) rs

accumulate_refuses :
    (w h : ℕ) (rs : List MaskRegion) (t : Grid) (c : Bool)
    → has_bad rs ≡ true
    → accumulate_regions t c w h rs ≡ err bad_bbox
unfolding accumulate_regions accumulate_region
accumulate_refuses w h [] t c b = absurd (false≢true b)
accumulate_refuses w h (r ∷ rs) t c b = elim (Bool-cases (is_bad_bbox r.bbox)) [
  | inl e ↦ rw (accumulate_regions, accumulate_region, e) refl
  | inr e ↦
      rw (accumulate_regions, accumulate_region, e)
        (accumulate_refuses w h rs _ _ (ground (arith, b, e)))
]

accumulate_returns :
    (w h : ℕ) (rs : List MaskRegion) (t : Grid) (c : Bool)
    → has_bad rs ≡ false
    → (p : Grid × Bool) × (accumulate_regions t c w h rs ≡ ok p)
unfolding accumulate_regions accumulate_region
accumulate_returns w h [] t c b = ((t, c), refl)
accumulate_returns w h (r ∷ rs) t c b =
    let e : is_bad_bbox r.bbox ≡ false = ground (arith, b) in
    let later : has_bad rs ≡ false = ground (arith, b) in
    rw (accumulate_regions, accumulate_region, e) (accumulate_returns w h rs _ _ later)

rasterize_refuses :
    (w h : ℕ) (request : MaskFromRegionsRequest)
    → (has_bad request.regions || has_bad request.subtract) ≡ true
    → rasterize w h request ≡ err bad_bbox
unfolding rasterize
rasterize_refuses w h request b = elim (Bool-cases (has_bad request.regions)) [
  | inl e ↦ rw (rasterize, accumulate_refuses w h request.regions empty_grid false e) refl
  | inr e ↦
      let (painted, k) = accumulate_returns w h request.regions empty_grid false e in
      let dark : has_bad request.subtract ≡ true = ground (arith, b, e) in
      elim (List-cases request.subtract) [
        | inl q ↦ absurd (false≢true (rw q at dark))
        | inr (r, rs, q) ↦
            rw
              (rasterize, k, q, accumulate_refuses w h (r ∷ rs) empty_grid painted.1 (rw q at dark))
              refl
      ]
]

rasterize_returns :
    (w h : ℕ) (request : MaskFromRegionsRequest)
    → (has_bad request.regions || has_bad request.subtract) ≡ false
    → (p : Grid × Bool) × (rasterize w h request ≡ ok p)
unfolding rasterize
rasterize_returns w h request b =
    let (painted, k) =
      accumulate_returns w h request.regions empty_grid false (ground (arith, b)) in
    let fine : has_bad request.subtract ≡ false = ground (arith, b) in
    elim (List-cases request.subtract) [
      | inl q ↦ rw (rasterize, k, q) (_, refl)
      | inr (r, rs, q) ↦
          let (carved, k2) = accumulate_returns w h (r ∷ rs) empty_grid painted.1 (rw q at fine) in
          rw (rasterize, k, q, k2) (_, refl)
    ]

-- Why a request is refused, by the first reason that applies.
unfoldable pub refusal : ℕ → ℕ → MaskFromRegionsRequest → Option MaskError
refusal width height request =
    if width == 0 || height == 0
    then some bad_dimensions
    else if is_empty request.regions
    then some no_regions
    else if ltb max_mask_pixels (width * height)
    then some too_many_pixels
    else if has_bad request.regions || has_bad request.subtract
    then some bad_bbox
    else none

is_empty_cons : {A : Type 0} (xs : List A) (y : A) (ys : List A) → xs ≡ y ∷ ys → is_empty xs ≡ false
is_empty_cons xs y ys q = rw q refl

filled : {A : Type 0} (xs : List A) → is_empty xs ≡ false → (y : A) × (ys : List A) × (xs ≡ y ∷ ys)
filled [] h = absurd (true≢false h)
filled (x ∷ xs) h = (x, xs, refl)

unless-none {ℓ} :
    {A : Type ℓ} (b : Bool) (x : A) (o : Option A)
    → (if b then some x else o) ≡ none
    → (b ≡ false) × (o ≡ none)
unless-none true x o h = absurd (none-ne-some _ (sym h))
unless-none false x o h = (refl, h)

-- A request that is not refused passes every test.
accepted :
    (width height : ℕ) (request : MaskFromRegionsRequest)
    → refusal width height request ≡ none
    → ((width == 0 || height == 0) ≡ false)
      × ((r : MaskRegion) × (rs : List MaskRegion) × (request.regions ≡ r ∷ rs))
      × (ltb max_mask_pixels (width * height) ≡ false)
      × ((has_bad request.regions || has_bad request.subtract) ≡ false)
unfolding refusal
accepted width height request h =
    let (z, h1) = unless-none (width == 0 || height == 0) _ _ h in
    let (e, h2) = unless-none (is_empty request.regions) _ _ h1 in
    let (m, h3) = unless-none (ltb max_mask_pixels (width * height)) _ _ h2 in
    let (b, h4) = unless-none (has_bad request.regions || has_bad request.subtract) _ _ h3 in
    (z, filled request.regions e, m, b)

sizes :
    (width height : ℕ)
    → (width == 0 || height == 0) ≡ false
    → ltb max_mask_pixels (width * height) ≡ false
    → (width < 4294967296) × (height < 4294967296)
sizes zero height z m = absurd (true≢false z)
sizes (suc w) zero z m = ground (arith, z)
sizes (suc w) (suc h) z m = (grind (arith, m), grind (arith, m))

module _ (compress : Bytes → Bytes) (crc32 : Bytes → ℕ) where
  pack_u32-Returns :
      (n : ℕ) → n < 4294967296 → (bs : Bytes) × (pack_u32 n ≡ some bs) × (length bs ≡ 4)
  unfolding pack_u32
  pack_u32-Returns n h = rw (lt→ltb n 4294967296 h) (_, refl, refl)

  chunk-Returns :
      (tag content : Bytes)
      → length content < 4294967296
      → (c : Bytes) × (chunk compress crc32 tag content ≡ some c)
  unfolding chunk
  chunk-Returns tag content h =
      let (size, p, four) = pack_u32-Returns (length content) h in
      let sum = crc32 (tag ++ content) in
      let (check, q, four_more) = pack_u32-Returns (sum % 4294967296) (omega arith) in
      rw (p, q) (_, refl)

  length-scanlines_le :
      (n y stride : ℕ) (px : Bytes)
      → length (scanlines compress crc32 n y stride px) ≤ n * (stride + 1)
  unfolding scanlines
  length-scanlines_le zero y stride px = omega arith
  length-scanlines_le (suc n) y stride px =
      let row = take stride (drop (y * stride) px) in
      let rest = scanlines compress crc32 n (suc y) stride px in
      grind (
        arith,
        length-append row rest,
        length-take-le stride (drop (y * stride) px),
        length-scanlines_le n (suc y) stride px,
      )

  write-Returns :
      (width height : ℕ) (px : Bytes)
      → width < 4294967296
      → height < 4294967296
      → length (compress (scanlines compress crc32 height 0 (width * 3) px)) < 4294967296
      → (png : Bytes) × (write_png_rgb compress crc32 width height px ≡ some png)
  unfolding write_png_rgb
  write-Returns width height px p q r =
      let idat = compress (scanlines compress crc32 height 0 (width * 3) px) in
      let (w, wp, wl) = pack_u32-Returns width p in
      let (v, vp, vl) = pack_u32-Returns height q in
      let head = w ++ v ++ (8 ∷ 2 ∷ 0 ∷ 0 ∷ 0 ∷ []) in
      let (c1, p1) = chunk-Returns ihdr_tag head (
        omega
          (arith, length-append (w ++ v) (8 ∷ 2 ∷ 0 ∷ 0 ∷ 0 ∷ []), length-append w v, wl, vl)) in
      let (c2, p2) = chunk-Returns idat_tag idat r in
      let (c3, p3) = chunk-Returns iend_tag [] (omega arith) in rw (wp, vp, p1, p2, p3) (_, refl)

  refused_box :
      (width height : ℕ) (request : MaskFromRegionsRequest) (r : MaskRegion) (rs : List MaskRegion)
      (e : MaskError)
      → (width == 0 || height == 0) ≡ false
      → request.regions ≡ r ∷ rs
      → ltb max_mask_pixels (width * height) ≡ false
      → refusal width height request ≡ some e
      → build_mask_png compress crc32 width height request ≡ err e
  unfolding build_mask_png refusal
  refused_box width height request r rs e z q m h =
      elim (Bool-cases (has_bad request.regions || has_bad request.subtract)) [
        | inl b ↦
            rw (build_mask_png, z, q, m, rasterize_refuses width height request b)
              (ap err
                (some-injective (rw (refusal, z, is_empty_cons request.regions r rs q, m, b) at h)))
        | inr b ↦
            absurd
              (none-ne-some _ (rw (refusal, z, is_empty_cons request.regions r rs q, m, b) at h))
      ]

  -- `build_mask_png` raises for a request that is refused, with the first reason that applies.
  pub build_mask_png-refused :
      (width height : ℕ) (request : MaskFromRegionsRequest) (e : MaskError)
      → refusal width height request ≡ some e
      → build_mask_png compress crc32 width height request ≡ err e
  unfolding build_mask_png refusal
  build_mask_png-refused width height request e h = elim (Bool-cases (width == 0 || height == 0)) [
    | inl z ↦ rw (build_mask_png, z) (ap err (some-injective (rw (refusal, z) at h)))
    | inr z ↦ elim (List-cases request.regions) [
      | inl q ↦ rw (build_mask_png, z, q) (ap err (some-injective (rw (refusal, z, q) at h)))
      | inr (r, rs, q) ↦ elim (Bool-cases (ltb max_mask_pixels (width * height))) [
        | inl m ↦
            rw (build_mask_png, z, q, m) (ap err (some-injective (rw (refusal, z, q, m) at h)))
        | inr m ↦ refused_box width height request r rs e z q m h
      ]
    ]
  ]

  -- `build_mask_png` builds a mask of any other request, whose PNG has the size of the image: the
  -- request names a region, each box has an extent, and the image has a positive size of at most
  -- 4096 * 4096 pixels. zlib is to compress the rows of such an image to less than 4 GB.
  pub build_mask_png-Returns :
      (width height : ℕ) (request : MaskFromRegionsRequest)
      → ((px : Bytes) → length px ≤ height * (width * 3 + 1) → length (compress px) < 4294967296)
      → refusal width height request ≡ none
      → (m : MaskBuildResult) × (build_mask_png compress crc32 width height request ≡ ok m)
        × (m.width ≡ width)
        × (m.height ≡ height)
        × (read_image_size m.png_bytes ≡ ok (width, height))
  unfolding build_mask_png refusal
  build_mask_png-Returns width height request small h =
      let (z, q, m, b) = accepted width height request h in
      let (r, rs, e) = q in
      let (p, k) = rasterize_returns width height request b in
      let (wide, tall) = sizes width height z m in
      let px = gray_pixels (width * height) 0 p.0 in
      let (png, w) = write-Returns width height px wide tall (
        small (scanlines compress crc32 height 0 (width * 3) px)
          (length-scanlines_le height 0 (width * 3) px)) in
      rw (build_mask_png, z, e, m, k, w)
        (_, refl, refl, refl, read_image_size-write_png_rgb compress crc32 width height px png w)

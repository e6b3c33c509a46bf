-- ===== src/Editor/Image/RoundTrip.antt =====
-- core/editor/mask.py: `read_image_size` finds the size in what `_write_png_rgb` writes, and in the frame
-- header of a JPEG.
use misaka_asset_gene.Prelude.{
  All, length-append, ℕ, zero, suc, ◌+◌, ◌*◌, ◌/◌, ◌%◌, ◌<◌, ◌≡◌, refl, sym, ◌∙◌, inl, inr, true,
  false, Bool-cases, Option, none, some, some-injective, List, [], ◌∷◌, ◌++◌, length, ltb, ltb→lt,
  Result, ok, arith,
}
use mathlib.Core.Option.{none-ne-some}
use mathlib.Core.List.{append_assoc}
use misaka_asset_gene.Editor.Image.{
  Bytes, drop, idat_tag, iend_tag, bytes_eq, png_signature, ihdr_tag, unpack_u32, unpack_u16,
  read_png_size, is_sof, is_standalone, scan_jpeg, read_jpeg_size, read_image_size, pack_u32, chunk,
  scanlines, write_png_rgb, ◌>>=◌, ImageHeaderError,
}

bind-some {ℓ κ} :
    {A : Type ℓ} {B : Type κ} (o : Option A) (f : A → Option B) (b : B)
    → (o >>= f) ≡ some b
    → (a : A) × (o ≡ some a) × (f a ≡ some b)
bind-some none f b h = absurd (none-ne-some _ h)
bind-some (some a) f b h = (a, refl, h)

unpack-pack :
    (n : ℕ)
    → n < 4294967296
    → (n / 16777216) * 16777216 + (n / 65536 % 256) * 65536 + (n / 256 % 256) * 256 + n % 256 ≡ n
unpack-pack n h = omega (arith, h)

-- Four bytes, from which the number is read again.
Packs : ℕ → Bytes → Type 0
unfolding unpack_u32
Packs n bs =
    (a b c d : ℕ) × (bs ≡ a ∷ b ∷ c ∷ d ∷ []) × (a * 16777216 + b * 65536 + c * 256 + d ≡ n)

pack_u32-Packs : (n : ℕ) (bs : Bytes) → pack_u32 n ≡ some bs → Packs n bs
unfolding pack_u32 Packs
pack_u32-Packs n bs h = elim (Bool-cases (ltb n 4294967296)) [
  | inl e ↦
      let q = some-injective (rw (pack_u32, e) at h) in
      (_, _, _, _, sym q, unpack-pack n (ltb→lt n 4294967296 e))
  | inr e ↦ absurd (none-ne-some _ (rw (pack_u32, e) at h))
]

-- The first chunk of a picture, whatever follows it.
read-header :
    (size w h check rest end : Bytes) (k width height : ℕ)
    → Packs k size
    → Packs width w
    → Packs height h
    → read_image_size (
        png_signature
        ++ (size ++ ihdr_tag ++ (w ++ h ++ (8 ∷ 2 ∷ 0 ∷ 0 ∷ 0 ∷ [])) ++ check)
        ++ rest
        ++ end)
      ≡ ok (width, height)
unfolding read_image_size bytes_eq read_png_size drop unpack_u32 Packs
read-header size w h check rest end k width height (a, b, c, d, p, s) (e, f, g, i, q, t)
      (j, l, m, n, r, u) =
    rw (p, q, r) (ground (arith, t, u))

module _ (compress : Bytes → Bytes) (crc32 : Bytes → ℕ) where
  chunk-Packs :
      (tag content c : Bytes)
      → chunk compress crc32 tag content ≡ some c
      → (size check : Bytes) × Packs (length content) size × (size ++ tag ++ content ++ check ≡ c)
  unfolding chunk
  chunk-Packs tag content c h =
      let sum = crc32 (tag ++ content) % 4294967296 in
      let (size, p, g) =
        bind-some (pack_u32 (length content))
          (λ size. pack_u32 sum >>= λ check. some (size ++ tag ++ content ++ check)) c h in
      let (check, q, e) =
        bind-some (pack_u32 sum) (λ check. some (size ++ tag ++ content ++ check)) c g in
      (size, check, pack_u32-Packs (length content) size p, some-injective e)

  read-chunks :
      (width height : ℕ) (w v c1 c2 c3 png : Bytes)
      → Packs width w
      → Packs height v
      → chunk compress crc32 ihdr_tag (w ++ v ++ (8 ∷ 2 ∷ 0 ∷ 0 ∷ 0 ∷ [])) ≡ some c1
      → png_signature ++ c1 ++ c2 ++ c3 ≡ png
      → read_image_size png ≡ ok (width, height)
  read-chunks width height w v c1 c2 c3 png p q h whole =
      let (size, check, r, first) =
        chunk-Packs ihdr_tag (w ++ v ++ (8 ∷ 2 ∷ 0 ∷ 0 ∷ 0 ∷ [])) c1 h in
      rw (← whole, ← first) (read-header size w v check c2 c3 _ width height r p q)

  -- `read_image_size` finds in every picture that `_write_png_rgb` writes the width and the height that
  -- it was given, whatever the pixels are and however they are compressed and summed.
  pub read_image_size-write_png_rgb :
      (width height : ℕ) (rgb_pixels png : Bytes)
      → write_png_rgb compress crc32 width height rgb_pixels ≡ some png
      → read_image_size png ≡ ok (width, height)
  unfolding write_png_rgb
  read_image_size-write_png_rgb width height px png h =
      let idat = compress (scanlines compress crc32 height 0 (width * 3) px) in
      let (w, pw, h1) = bind-some (pack_u32 width) _ png h in
      let (v, pv, h2) = bind-some (pack_u32 height) _ png h1 in
      let head = w ++ v ++ (8 ∷ 2 ∷ 0 ∷ 0 ∷ 0 ∷ []) in
      let (c1, q1, h3) = bind-some (chunk compress crc32 ihdr_tag head) _ png h2 in
      let (c2, q2, h4) = bind-some (chunk compress crc32 idat_tag idat) _ png h3 in
      let (c3, q3, h5) = bind-some (chunk compress crc32 iend_tag []) _ png h4 in
      read-chunks width height w v c1 c2 c3 png (pack_u32-Packs width w pw)
        (pack_u32-Packs height v pv) q1 (some-injective h5)

-- Segments of a JPEG that carry no frame size.
pub record Segment : Type 0 where
  pub marker : ℕ
  pub payload : Bytes

pub record IsSkipped (s : Segment) : Type 0 where
  pub not_frame : is_sof s.marker ≡ false
  pub not_alone : is_standalone s.marker ≡ false
  pub short : length s.payload < 65534

-- A segment: 0xFF, the marker, and the length in two bytes, which counts itself.
pub write_segments : List Segment → Bytes
write_segments [] = []
write_segments (s ∷ ss) =
    255
    ∷ s.marker
    ∷ (length s.payload + 2) / 256
    ∷ (length s.payload + 2) % 256
    ∷ (s.payload ++ write_segments ss)

pub frame_header : ℕ → ℕ → ℕ → ℕ → ℕ → ℕ → Bytes
frame_header marker l0 l1 precision width height =
    255
    ∷ marker
    ∷ l0
    ∷ l1
    ∷ precision
    ∷ height / 256
    ∷ height % 256
    ∷ width / 256
    ∷ width % 256
    ∷ []

drop-append : (xs ys : Bytes) → drop (length xs) (xs ++ ys) ≡ ys
unfolding drop
drop-append [] ys = refl
drop-append (x ∷ xs) ys = drop-append xs ys

scan_frame :
    (marker l0 l1 precision width height : ℕ) (rest : Bytes) (fuel : ℕ)
    → is_sof marker ≡ true
    → scan_jpeg (suc fuel) (frame_header marker l0 l1 precision width height ++ rest)
      ≡ ok (width, height)
unfolding scan_jpeg frame_header drop unpack_u16
scan_frame marker l0 l1 precision width height rest fuel h = rw h (ground arith)

two_bytes : (n : ℕ) → n < 65536 → (n / 256) * 256 + n % 256 ≡ n
two_bytes n h = omega (arith, h)

-- The jump of the loop lands behind the payload.
drop_segment :
    (payload after bs : Bytes)
    → length payload < 65534
    → drop
        (((length payload + 2) / 256) * 256 + (length payload + 2) % 256)
        ((length payload + 2) / 256 ∷ (length payload + 2) % 256 ∷ ((payload ++ after) ++ bs))
      ≡ after ++ bs
unfolding drop
drop_segment payload after bs h =
    let n : ((length payload + 2) / 256) * 256 + (length payload + 2) % 256
        ≡ suc (suc (length payload)) =
      two_bytes (length payload + 2) (omega (arith, h)) ∙ omega arith in
    rw (n, append_assoc payload after bs) (drop-append payload (after ++ bs))

scan_segments :
    (ss : List Segment) (bs : Bytes) (fuel : ℕ) (r : Result ImageHeaderError (ℕ × ℕ))
    → All IsSkipped ss
    → ((spare : ℕ) → scan_jpeg (suc spare) bs ≡ r)
    → length (write_segments ss) < fuel
    → scan_jpeg fuel (write_segments ss ++ bs) ≡ r
unfolding write_segments scan_jpeg unpack_u16
scan_segments [] bs zero r a k enough = absurd (omega (arith, enough))
scan_segments [] bs (suc fuel) r a k enough = k fuel
scan_segments (s ∷ ss) bs zero r a k enough = absurd (omega (arith, enough))
scan_segments (s ∷ ss) bs (suc fuel) r (a, a2) k enough =
    let rest =
      scan_segments ss bs fuel r a2 k
        (omega (arith, enough, length-append s.payload (write_segments ss))) in
    rw (a.not_frame, a.not_alone, drop_segment s.payload (write_segments ss) bs a.short, rest)
      (ground arith)

-- `read_image_size` finds the width and the height of a JPEG in its first frame header, whatever
-- segments stand in front of it and whatever bytes come after it; no segment may be of a frame or of a
-- marker that stands alone, or have a payload that its two length bytes cannot count.
pub read_image_size-frame_header :
    (ss : List Segment) (marker l0 l1 precision width height : ℕ) (rest : Bytes)
    → All IsSkipped ss
    → is_sof marker ≡ true
    → read_image_size (
        255
        ∷ 216
        ∷ (write_segments ss ++ (frame_header marker l0 l1 precision width height ++ rest)))
      ≡ ok (width, height)
unfolding read_image_size read_jpeg_size bytes_eq drop
read_image_size-frame_header ss marker l0 l1 precision width height rest a h =
    let frame = frame_header marker l0 l1 precision width height ++ rest in
    let fuel = suc (suc (length (write_segments ss ++ frame))) in
    let enough : length (write_segments ss) < fuel =
      omega (arith, length-append (write_segments ss) frame) in
    scan_segments ss frame fuel (ok (width, height)) a
      (λ n. scan_frame marker l0 l1 precision width height rest n h) enough

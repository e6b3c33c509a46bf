-- ===== src/Editor/Image.antt =====
-- core/editor/mask.py, `read_image_size` and `_write_png_rgb`. Bytes are a list of numbers below 256.
-- `zlib.compress` and `zlib.crc32` are arguments.
pub mod RoundTrip
pub mod Scan
use misaka_asset_gene.Prelude.{
  ℕ, zero, suc, ◌+◌, ◌-◌, ◌*◌, ◌/◌, ◌%◌, Bool, true, false, ◌&&◌, ◌||◌, Option, none, some, List,
  [], ◌∷◌, ◌++◌, any, take, length, leb, ltb, ◌==◌, if◌then◌else◌, Result, ok, err,
}

abbrev pub Bytes : Type 0
Bytes = List ℕ

unfoldable pub drop : ℕ → Bytes → Bytes
drop zero bs = bs
drop (suc n) [] = []
drop (suc n) (b ∷ bs) = drop n bs

unfoldable pub bytes_eq : Bytes → Bytes → Bool
bytes_eq [] [] = true
bytes_eq [] (c ∷ cs) = false
bytes_eq (b ∷ bs) [] = false
bytes_eq (b ∷ bs) (c ∷ cs) = b == c && bytes_eq bs cs

-- `_PNG_SIGNATURE`, `b"IHDR"`, `b"IDAT"` and `b"IEND"`.
abbrev pub png_signature : Bytes
png_signature = 137 ∷ b'P' ∷ b'N' ∷ b'G' ∷ 13 ∷ 10 ∷ 26 ∷ 10 ∷ []

abbrev pub ihdr_tag : Bytes
ihdr_tag = b'I' ∷ b'H' ∷ b'D' ∷ b'R' ∷ []

abbrev pub idat_tag : Bytes
idat_tag = b'I' ∷ b'D' ∷ b'A' ∷ b'T' ∷ []

abbrev pub iend_tag : Bytes
iend_tag = b'I' ∷ b'E' ∷ b'N' ∷ b'D' ∷ []

pub data ImageHeaderError : Type 0 where
  unrecognized_format : ImageHeaderError
  missing_ihdr : ImageHeaderError
  no_frame : ImageHeaderError

-- The number of the first four bytes, or of the first two, where there are as many.
unfoldable pub unpack_u32 : Bytes → ℕ
unpack_u32 (a ∷ b ∷ c ∷ d ∷ rest) = a * 16777216 + b * 65536 + c * 256 + d
unpack_u32 bs = 0

unfoldable pub unpack_u16 : Bytes → ℕ
unpack_u16 (a ∷ b ∷ rest) = a * 256 + b
unpack_u16 bs = 0

unfoldable pub read_png_size : Bytes → Result ImageHeaderError (ℕ × ℕ)
unfolding drop bytes_eq unpack_u32
read_png_size content =
    if ltb (length content) 24 || not_ihdr
    then err missing_ihdr
    else ok (unpack_u32 (drop 16 content), unpack_u32 (drop 20 content))
  where
    not_ihdr : Bool
    not_ihdr = if bytes_eq (take 4 (drop 12 content)) ihdr_tag then false else true

abbrev pub sof_markers : List ℕ
sof_markers = 192 ∷ 193 ∷ 194 ∷ 195 ∷ 197 ∷ 198 ∷ 199 ∷ 201 ∷ 202 ∷ 203 ∷ 205 ∷ 206 ∷ 207 ∷ []

abbrev pub is_sof : ℕ → Bool
is_sof m = any (λ k. m == k) sof_markers

-- The markers that no segment follows: SOI, TEM and RST0 to RST7.
abbrev pub is_standalone : ℕ → Bool
is_standalone m = m == 216 || m == 1 || (leb 208 m && leb m 215)

-- The loop of `_read_jpeg_size` on the bytes from the index `i`. Fuel: each turn moves on by a byte.
unfoldable pub scan_jpeg : ℕ → Bytes → Result ImageHeaderError (ℕ × ℕ)
unfolding drop unpack_u16
scan_jpeg zero bs = err no_frame
scan_jpeg (suc fuel) [] = err no_frame
scan_jpeg (suc fuel) (b ∷ []) = err no_frame
scan_jpeg (suc fuel) (b ∷ marker ∷ bs) =
    let next_byte = scan_jpeg fuel (marker ∷ bs) in
    let next_marker = scan_jpeg fuel bs in
    let next_segment = scan_jpeg fuel (drop (unpack_u16 bs) bs) in
    if b == 255
    then (if is_sof marker
        then (if ltb (length bs) 7
            then err no_frame
            else ok (unpack_u16 (drop 5 bs), unpack_u16 (drop 3 bs)))
        else if is_standalone marker
        then next_marker
        else if ltb (length bs) 2
        then err no_frame
        else next_segment)
    else next_byte

unfoldable pub read_jpeg_size : Bytes → Result ImageHeaderError (ℕ × ℕ)
unfolding scan_jpeg drop
read_jpeg_size content = scan_jpeg (length content) (drop 2 content)

unfoldable pub read_image_size : Bytes → Result ImageHeaderError (ℕ × ℕ)
unfolding read_png_size read_jpeg_size bytes_eq
read_image_size content =
    if bytes_eq (take 8 content) png_signature
    then read_png_size content
    else if bytes_eq (take 2 content) (255 ∷ 216 ∷ [])
    then read_jpeg_size content
    else err unrecognized_format

-- `struct.pack(">I", n)`, which raises where four bytes are too few.
unfoldable pub pack_u32 : ℕ → Option Bytes
pack_u32 n =
    if ltb n 4294967296
    then some (n / 16777216 ∷ n / 65536 % 256 ∷ n / 256 % 256 ∷ n % 256 ∷ [])
    else none

infixl 5 ◌>>=◌
abbrev pub ◌>>=◌ {ℓ κ} : {A : Type ℓ} {B : Type κ} → Option A → (A → Option B) → Option B
none >>= f = none
some a >>= f = f a

module _ (compress : Bytes → Bytes) (crc32 : Bytes → ℕ) where
  unfoldable pub chunk : Bytes → Bytes → Option Bytes
  unfolding pack_u32
  chunk tag data_bytes = do
    size ← pack_u32 (length data_bytes)
    check ← pack_u32 (crc32 (tag ++ data_bytes) % 4294967296)
    some (size ++ tag ++ data_bytes ++ check)

  -- The rows from `y`, each after the byte of its filter.
  unfoldable pub scanlines : ℕ → ℕ → ℕ → Bytes → Bytes
  unfolding drop
  scanlines zero y stride px = []
  scanlines (suc n) y stride px =
      0 ∷ (take stride (drop (y * stride) px) ++ scanlines n (suc y) stride px)

  unfoldable pub write_png_rgb : ℕ → ℕ → Bytes → Option Bytes
  unfolding chunk pack_u32 scanlines
  write_png_rgb width height rgb_pixels = do
    w ← pack_u32 width
    h ← pack_u32 height
    let idat = compress (scanlines height 0 (width * 3) rgb_pixels)
    c1 ← chunk ihdr_tag (w ++ h ++ (8 ∷ 2 ∷ 0 ∷ 0 ∷ 0 ∷ []))
    c2 ← chunk idat_tag idat
    c3 ← chunk iend_tag []
    some (png_signature ++ c1 ++ c2 ++ c3)

-- ===== src/Editor/Image/Scan.antt =====
-- core/editor/mask.py, `_read_jpeg_size`: the loop ends.
use misaka_asset_gene.Prelude.{ℕ, zero, suc, ◌≤◌, ◌≡◌, refl, [], ◌∷◌, length, arith}
use misaka_asset_gene.Editor.Image.{Bytes, drop, unpack_u16, scan_jpeg}

length-drop-le : (n : ℕ) (bs : Bytes) → length (drop n bs) ≤ length bs
unfolding drop
length-drop-le zero bs = omega arith
length-drop-le (suc n) [] = omega arith
length-drop-le (suc n) (b ∷ bs) = omega (arith, length-drop-le n bs)

-- The loop of `_read_jpeg_size` takes at most one turn for each byte that is left: any two amounts of
-- fuel that are no less than the number of bytes give the same result.
pub scan_jpeg-Settled :
    (f g : ℕ) (bs : Bytes) → length bs ≤ f → length bs ≤ g → scan_jpeg f bs ≡ scan_jpeg g bs
unfolding scan_jpeg
scan_jpeg-Settled zero zero bs p q = refl
scan_jpeg-Settled zero (suc g) [] p q = refl
scan_jpeg-Settled zero (suc g) (b ∷ bs) p q = absurd (omega (arith, p))
scan_jpeg-Settled (suc f) zero [] p q = refl
scan_jpeg-Settled (suc f) zero (b ∷ bs) p q = absurd (omega (arith, q))
scan_jpeg-Settled (suc f) (suc g) [] p q = refl
scan_jpeg-Settled (suc f) (suc g) (b ∷ []) p q = refl
scan_jpeg-Settled (suc f) (suc g) (b ∷ m ∷ bs) p q =
    let by_byte = scan_jpeg-Settled f g (m ∷ bs) (omega (arith, p)) (omega (arith, q)) in
    let by_marker = scan_jpeg-Settled f g bs (omega (arith, p)) (omega (arith, q)) in
    let n = unpack_u16 bs in
    let less = length-drop-le n bs in
    let by_segment =
      scan_jpeg-Settled f g (drop n bs) (omega (arith, p, less)) (omega (arith, q, less)) in
    rw (by_byte, by_marker, by_segment) refl

-- ===== src/Network/Texts.antt =====
-- Equality of texts.
use misaka_asset_gene.Prelude.{
  ℕ, inl, inr, Bool, false, Bool-cases, any, ap, ◌∙◌, ◌&&◌, ◌≡◌, refl, true, [], ◌∷◌, arith,
}
use misaka_asset_gene.Dialog.{is_space, is_empty}
use misaka_asset_gene.Network.{strip, lstrip, rstrip, Text, text_eq}

pub text_eq_sound : (s t : Text) → text_eq s t ≡ true → s ≡ t
unfolding text_eq
text_eq_sound [] [] h = refl
text_eq_sound [] (d ∷ ds) h = cc
text_eq_sound (c ∷ cs) [] h = cc
text_eq_sound (c ∷ cs) (d ∷ ds) h = ground (arith, h, text_eq_sound cs ds)

pub text_eq_sym : (s t : Text) → text_eq s t ≡ false → text_eq t s ≡ false
unfolding text_eq
text_eq_sym [] [] h = h
text_eq_sym [] (d ∷ ds) h = refl
text_eq_sym (c ∷ cs) [] h = refl
text_eq_sym (c ∷ cs) (d ∷ ds) h = ground (arith, h, text_eq_sym cs ds)

pub text_eq_refl : (s : Text) → text_eq s s ≡ true
unfolding text_eq
text_eq_refl [] = refl
text_eq_refl (c ∷ cs) = ground (arith, text_eq_refl cs)

-- `str.strip`.
lstrip-lstrip : (t : Text) → lstrip (lstrip t) ≡ lstrip t
unfolding lstrip
lstrip-lstrip [] = refl
lstrip-lstrip (c ∷ cs) = elim (Bool-cases (is_space c)) [
  | inl e ↦ rw (lstrip, e) (lstrip-lstrip cs)
  | inr e ↦ rw (lstrip, e) (rw e refl)
]

rstrip-rstrip : (t : Text) → rstrip (rstrip t) ≡ rstrip t
unfolding rstrip
rstrip-rstrip [] = refl
rstrip-rstrip (c ∷ cs) = elim (Bool-cases (is_space c && is_empty (rstrip cs))) [
  | inl e ↦ rw (rstrip, e) refl
  | inr e ↦ rw (rstrip, e) (rw (rstrip-rstrip cs, e) refl)
]

-- No blank comes to stand in front.
lstrip-rstrip : (t : Text) → lstrip (rstrip (lstrip t)) ≡ rstrip (lstrip t)
unfolding lstrip rstrip
lstrip-rstrip [] = refl
lstrip-rstrip (c ∷ cs) = elim (Bool-cases (is_space c)) [
  | inl e ↦ rw (lstrip, e) (lstrip-rstrip cs)
  | inr e ↦
      (let here : (is_space c && is_empty (rstrip cs)) ≡ false = ground (arith, e) in
        rw (lstrip, e) (rw here (rw (lstrip, e) refl)))
]

pub strip-strip : (t : Text) → strip (strip t) ≡ strip t
unfolding strip
strip-strip t = ap rstrip (lstrip-rstrip t) ∙ rstrip-rstrip (lstrip t)

pub strip-space : (t : Text) → strip (32 ∷ t) ≡ strip t
unfolding strip lstrip is_space
strip-space t = refl

module _ (p : ℕ → Bool) where
  any-lstrip : (t : Text) → any p t ≡ false → any p (lstrip t) ≡ false
  unfolding lstrip
  any-lstrip [] h = refl
  any-lstrip (c ∷ cs) h = elim (Bool-cases (is_space c)) [
    | inl e ↦ rw (lstrip, e) (any-lstrip cs (ground (arith, h)))
    | inr e ↦ rw (lstrip, e) h
  ]

  any-rstrip : (t : Text) → any p t ≡ false → any p (rstrip t) ≡ false
  unfolding rstrip
  any-rstrip [] h = refl
  any-rstrip (c ∷ cs) h = elim (Bool-cases (is_space c && is_empty (rstrip cs))) [
    | inl e ↦ rw (rstrip, e) refl
    | inr e ↦ rw (rstrip, e) (ground (arith, h, any-rstrip cs))
  ]

  pub any-strip : (t : Text) → any p t ≡ false → any p (strip t) ≡ false
  unfolding strip
  any-strip t h = any-rstrip (lstrip t) (any-lstrip t h)

-- ===== src/Fidelity/Planning/Keys.antt =====
-- Which keys the tags of a text have, before and after the deduplication.
use misaka_asset_gene.Prelude.{
  ◌≡◌, refl, sym, true, not, ◌&&◌, ◌||◌, ap, ◌∙◌, inl, inr, Bool, false, Bool-cases, List, [], ◌∷◌,
  ◌++◌, any, arith,
}
use mathlib.Core.Bool.{false≢true}
use misaka_asset_gene.Dialog.{is_empty}
use misaka_asset_gene.Network.{Text, strip, text_eq}
use misaka_asset_gene.Network.Texts.{text_eq_sound, strip-space}
use misaka_asset_gene.Fidelity.Planning.{
  split_commas, split_commas_open, tag_key, dedupe_from, dedupe_casefold,
}

module _ (casefold : Text → Text) where
  -- Some field that is not blank has the key.
  abbrev pub has_key_of : Text → List Text → Bool
  has_key_of k ts = any (λ t. not (is_empty (strip t)) && text_eq k (tag_key casefold (strip t))) ts

  seen_key :
      (k j : Text) (seen : List Text)
      → any (text_eq j) seen ≡ true
      → text_eq k j ≡ true
      → any (text_eq k) seen ≡ true
  seen_key k j seen h e = ap (λ x. any (text_eq x) seen) (text_eq_sound k j e) ∙ h

  dedupe_from-keys :
      (k : Text) (seen ts : List Text)
      → any (text_eq k) seen ≡ false
      → any (λ t. text_eq k (tag_key casefold t)) (dedupe_from casefold seen ts) ≡ has_key_of k ts
  unfolding dedupe_from
  dedupe_from-keys k seen [] h = refl
  dedupe_from-keys k seen (t ∷ ts) h =
      let s = strip t in
      let key = tag_key casefold s in
      let skip = dedupe_from-keys k seen ts h in
      elim (Bool-cases (is_empty s)) [
        | inl e ↦ rw (dedupe_from, e) skip
        | inr e ↦ elim (Bool-cases (any (text_eq key) seen)) [
          | inl a ↦ elim (Bool-cases (text_eq k key)) [
            | inl same ↦ absurd (false≢true (sym h ∙ seen_key k key seen a same))
            | inr other ↦ rw (dedupe_from, e, a, other) skip
          ]
          | inr a ↦ elim (Bool-cases (text_eq k key)) [
            | inl same ↦ rw (dedupe_from, e, a, same) refl
            | inr other ↦
                rw (dedupe_from, e, a, other)
                  (dedupe_from-keys k (key ∷ seen) ts (ground (arith, h, other)))
          ]
        ]
      ]

  -- A key is the key of a tag that is left exactly when it is the key of a tag that is not blank: no tag
  -- is lost but for one of the same key.
  pub dedupe_casefold-keys :
      (k : Text) (ts : List Text)
      → any (λ t. text_eq k (tag_key casefold t)) (dedupe_casefold casefold ts) ≡ has_key_of k ts
  unfolding dedupe_casefold
  dedupe_casefold-keys k ts = dedupe_from-keys k [] ts refl

  pub has_key_of-append :
      (k : Text) (ts us : List Text)
      → has_key_of k (ts ++ us) ≡ (has_key_of k ts || has_key_of k us)
  has_key_of-append k [] us = refl
  has_key_of-append k (t ∷ ts) us = rw (has_key_of-append k ts us) (ground arith)

  -- A blank in front of a text is no part of its fields.
  pub has_key_of-space :
      (k u : Text) → has_key_of k (split_commas (32 ∷ u)) ≡ has_key_of k (split_commas u)
  unfolding split_commas split_commas_open
  has_key_of-space k u = rw (strip-space (split_commas_open u).0) refl

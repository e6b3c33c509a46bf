-- ===== src/Fidelity/Planning/Tags.antt =====
-- The tags of a round name each wish once.
use misaka_asset_gene.Prelude.{
  ℕ, zero, suc, take, ap, ◌≡◌, refl, inl, inr, Bool, true, false, List, [], ◌∷◌, arith, Bool-cases,
  any,
}
use misaka_asset_gene.Dialog.{is_empty}
use misaka_asset_gene.Network.{Text, strip, text_eq}
use misaka_asset_gene.Network.Texts.{text_eq_sound, text_eq_refl}
use misaka_asset_gene.Fidelity.Planning.{tag_key, dedupe_from, dedupe_casefold}

module _ (casefold : Text → Text) where
  -- No tag has the key of a tag behind it.
  abbrev pub DistinctKeys : List Text → Type 0
  DistinctKeys [] = Unit
  DistinctKeys (t ∷ ts) =
      (any (λ u. text_eq (tag_key casefold t) (tag_key casefold u)) ts ≡ false) × DistinctKeys ts

  any-seen :
      (k : Text) (j : Text) (seen : List Text)
      → any (text_eq k) seen ≡ true
      → any (text_eq j) seen ≡ false
      → text_eq k j ≡ false
  any-seen k j seen h n = elim (Bool-cases (text_eq k j)) [
    | inl e ↦ (let same = ap (λ x. any (text_eq x) seen) (text_eq_sound k j e) in cc)
    | inr e ↦ e
  ]

  -- A key that was seen is not the key of a tag that comes out.
  dedupe_from-seen :
      (k : Text) (seen ts : List Text)
      → any (text_eq k) seen ≡ true
      → any (λ u. text_eq k (tag_key casefold u)) (dedupe_from casefold seen ts) ≡ false
  unfolding dedupe_from
  dedupe_from-seen k seen [] h = refl
  dedupe_from-seen k seen (t ∷ ts) h =
      let s = strip t in
      let skip = dedupe_from-seen k seen ts h in
      elim (Bool-cases (is_empty s)) [
        | inl e ↦ rw e skip
        | inr e ↦ elim (Bool-cases (any (text_eq (tag_key casefold s)) seen)) [
          | inl a ↦ rw (e, a) skip
          | inr a ↦
              rw (e, a)
                (rw (any-seen k (tag_key casefold s) seen h a)
                  (dedupe_from-seen k (tag_key casefold s ∷ seen) ts (ground (arith, h))))
        ]
      ]

  dedupe_from-DistinctKeys : (seen ts : List Text) → DistinctKeys (dedupe_from casefold seen ts)
  unfolding dedupe_from
  dedupe_from-DistinctKeys seen [] = tt
  dedupe_from-DistinctKeys seen (t ∷ ts) =
      let s = strip t in
      let skip = dedupe_from-DistinctKeys seen ts in
      elim (Bool-cases (is_empty s)) [
        | inl e ↦ rw e skip
        | inr e ↦ elim (Bool-cases (any (text_eq (tag_key casefold s)) seen)) [
          | inl a ↦ rw (e, a) skip
          | inr a ↦
              rw (e, a)
                (
                  dedupe_from-seen (tag_key casefold s) (tag_key casefold s ∷ seen) ts
                      (ground (arith, text_eq_refl (tag_key casefold s))),
                  dedupe_from-DistinctKeys (tag_key casefold s ∷ seen) ts,
                )
        ]
      ]

  -- No two tags that are left have the same key, whatever the folding of cases is.
  pub dedupe_casefold-DistinctKeys : (ts : List Text) → DistinctKeys (dedupe_casefold casefold ts)
  unfolding dedupe_casefold
  dedupe_casefold-DistinctKeys ts = dedupe_from-DistinctKeys [] ts

  any-take :
      (p : Text → Bool) (n : ℕ) (ts : List Text) → any p ts ≡ false → any p (take n ts) ≡ false
  any-take p zero ts h = refl
  any-take p (suc n) [] h = refl
  any-take p (suc n) (t ∷ ts) h = elim (Bool-cases (p t)) [
    | inl e ↦ (let h' = rw e at h in cc)
    | inr e ↦ rw e (any-take p n ts (rw e at h))
  ]

  pub DistinctKeys-take : (n : ℕ) (ts : List Text) → DistinctKeys ts → DistinctKeys (take n ts)
  DistinctKeys-take zero ts h = tt
  DistinctKeys-take (suc n) [] h = tt
  DistinctKeys-take (suc n) (t ∷ ts) h = (any-take _ n ts h.0, DistinctKeys-take n ts h.1)

-- ===== src/Fidelity/Planning/Fields.antt =====
-- Comma-separated tags: the fields of a joined text are its tags, and tags that were deduplicated stay as
-- they are.
use misaka_asset_gene.Prelude.{
  ◌≡◌, refl, ap, ◌∙◌, inl, inr, Bool, false, Bool-cases, List, [], ◌∷◌, ◌++◌, map, any, All, ◌==◌,
  arith,
}
use mathlib.Core.List.{append-nil}
use misaka_asset_gene.Dialog.{is_empty}
use misaka_asset_gene.Network.{Text, strip, text_eq}
use misaka_asset_gene.Network.Texts.{text_eq_sym, strip-strip, strip-space, any-strip}
use misaka_asset_gene.Fidelity.Planning.{
  join, join_rest, split_commas, split_commas_open, comma_space, tag_key, dedupe_from,
  dedupe_casefold,
}
use misaka_asset_gene.Fidelity.Planning.Tags.{DistinctKeys, dedupe_casefold-DistinctKeys}

abbrev has_comma : Text → Bool
has_comma t = any (λ c. c == b',') t

-- A tag as it comes out of `_dedupe_casefold` on the fields of a text.
pub record IsTag (t : Text) : Type 0 where
  pub one_field : has_comma t ≡ false
  pub stripped : strip t ≡ t
  pub filled : is_empty t ≡ false

split_open-NoComma :
    (t : Text)
    → (has_comma (split_commas_open t).0 ≡ false)
      × All (λ f. has_comma f ≡ false) (split_commas_open t).1
unfolding split_commas_open
split_open-NoComma [] = (refl, tt)
split_open-NoComma (c ∷ cs) =
    let (first, rest) = split_open-NoComma cs in
    elim (Bool-cases (c == b',')) [
      | inl e ↦ rw (split_commas_open, e) (refl, (first, rest))
      | inr e ↦ rw (split_commas_open, e) (ground (arith, e, first), rest)
    ]

-- A field without a comma in front of a text.
split_open-append :
    (t u : Text)
    → has_comma t ≡ false
    → split_commas_open (t ++ u) ≡ (t ++ (split_commas_open u).0, (split_commas_open u).1)
unfolding split_commas_open
split_open-append [] u h = refl
split_open-append (c ∷ cs) u h =
    let e : (c == b',') ≡ false = ground (arith, h) in
    let later : has_comma cs ≡ false = ground (arith, h) in
    rw (split_open-append cs u later, e) refl

split_open-join_rest :
    (ts : List Text)
    → All IsTag ts
    → split_commas_open (join_rest comma_space ts) ≡ ([], map (λ t. 32 ∷ t) ts)
unfolding split_commas_open join_rest
split_open-join_rest [] h = refl
split_open-join_rest (t ∷ ts) (h, hs) =
    rw
      (
        split_open-append t (join_rest comma_space ts) h.one_field,
        split_open-join_rest ts hs,
        append-nil t,
      )
      refl

split_open-comma :
    (t u : Text)
    → split_commas_open (t ++ (b',' ∷ u)) ≡ (
      (split_commas_open t).0,
      (split_commas_open t).1 ++ ((split_commas_open u).0 ∷ (split_commas_open u).1),
    )
unfolding split_commas_open
split_open-comma [] u = refl
split_open-comma (c ∷ cs) u = elim (Bool-cases (c == b',')) [
  | inl e ↦ rw (split_commas_open, split_open-comma cs u, e) refl
  | inr e ↦ rw (split_commas_open, split_open-comma cs u, e) refl
]

-- The fields of two texts with a comma between them.
pub split_commas-append :
    (t u : Text) → split_commas (t ++ (b',' ∷ u)) ≡ split_commas t ++ split_commas u
unfolding split_commas
split_commas-append t u = rw (split_open-comma t u) refl

module _ (casefold : Text → Text) where
  dedupe_from-IsTag :
      (seen ts : List Text)
      → All (λ t. has_comma t ≡ false) ts
      → All IsTag (dedupe_from casefold seen ts)
  unfolding dedupe_from
  dedupe_from-IsTag seen [] h = tt
  dedupe_from-IsTag seen (t ∷ ts) (h, hs) =
      let s = strip t in
      let skip = dedupe_from-IsTag seen ts hs in
      elim (Bool-cases (is_empty s)) [
        | inl e ↦ rw e skip
        | inr e ↦ elim (Bool-cases (any (text_eq (tag_key casefold s)) seen)) [
          | inl a ↦ rw (e, a) skip
          | inr a ↦
              rw (e, a)
                (
                  record { one_field = any-strip _ t h; stripped = strip-strip t; filled = e },
                  dedupe_from-IsTag (tag_key casefold s ∷ seen) ts hs,
                )
        ]
      ]

  -- None of the tags was seen.
  Unseen : List Text → List Text → Type 0
  Unseen seen ts = All (λ t. any (text_eq (tag_key casefold t)) seen ≡ false) ts

  Unseen-cons :
      (k : Text) (seen ts : List Text)
      → any (λ u. text_eq k (tag_key casefold u)) ts ≡ false
      → Unseen seen ts
      → Unseen (k ∷ seen) ts
  unfolding Unseen
  Unseen-cons k seen [] d h = tt
  Unseen-cons k seen (t ∷ ts) d (h, hs) =
      let apart : text_eq k (tag_key casefold t) ≡ false = ground (arith, d) in
      (
        ground (arith, h, text_eq_sym k (tag_key casefold t) apart),
        Unseen-cons k seen ts (ground (arith, d)) hs,
      )

  dedupe_from_tags :
      (seen ts : List Text)
      → All IsTag ts
      → DistinctKeys casefold ts
      → Unseen seen ts
      → dedupe_from casefold seen ts ≡ ts
  unfolding dedupe_from Unseen
  dedupe_from_tags seen [] a d u = refl
  dedupe_from_tags seen (t ∷ ts) (a, a2) (d, d2) (u, u2) =
      rw (dedupe_from, a.stripped, a.filled, u)
        (ap (λ x. t ∷ x)
          (dedupe_from_tags (tag_key casefold t ∷ seen) ts a2 d2
            (Unseen-cons (tag_key casefold t) seen ts d u2)))

  dedupe_from_spaced :
      (seen ts : List Text)
      → dedupe_from casefold seen (map (λ t. 32 ∷ t) ts) ≡ dedupe_from casefold seen ts
  unfolding dedupe_from
  dedupe_from_spaced seen [] = refl
  dedupe_from_spaced seen (t ∷ ts) =
      rw
        (
          dedupe_from,
          strip-space t,
          dedupe_from_spaced seen ts,
          dedupe_from_spaced (tag_key casefold (strip t) ∷ seen) ts,
        )
        refl

  Unseen-nil : (ts : List Text) → Unseen [] ts
  unfolding Unseen
  Unseen-nil [] = tt
  Unseen-nil (t ∷ ts) = (refl, Unseen-nil ts)

  fields_of :
      (t : Text) (ts : List Text)
      → IsTag t
      → All IsTag ts
      → split_commas (t ++ join_rest comma_space ts) ≡ t ∷ map (λ u. 32 ∷ u) ts
  unfolding split_commas
  fields_of t ts a a2 =
      rw
        (
          split_open-append t (join_rest comma_space ts) a.one_field,
          split_open-join_rest ts a2,
          append-nil t,
        )
        refl

  -- The fields of joined tags are the tags.
  dedupe-split-join :
      (ts : List Text)
      → All IsTag ts
      → DistinctKeys casefold ts
      → dedupe_casefold casefold (split_commas (join comma_space ts)) ≡ ts
  unfolding join split_commas dedupe_casefold dedupe_from split_commas_open strip Unseen
  dedupe-split-join [] a d = refl
  dedupe-split-join (t ∷ ts) (a, a2) (d, d2) =
      let fields : split_commas (t ++ join_rest comma_space ts) ≡ t ∷ map (λ u. 32 ∷ u) ts =
        fields_of t ts a a2 in
      let key = tag_key casefold t in
      let once : dedupe_from casefold [] (t ∷ map (λ u. 32 ∷ u) ts) ≡ t ∷ ts =
        rw (dedupe_from, a.stripped, a.filled, dedupe_from_spaced (key ∷ []) ts)
          (ap (λ x. t ∷ x)
            (dedupe_from_tags (key ∷ []) ts a2 d2 (Unseen-cons key [] ts d (Unseen-nil ts)))) in
      ap (dedupe_casefold casefold) fields ∙ once

  -- The tags of a text, deduplicated and joined, are read again as the same tags.
  pub dedupe_casefold-Settled :
      (text : Text)
      → dedupe_casefold casefold
          (split_commas (join comma_space (dedupe_casefold casefold (split_commas text))))
        ≡ dedupe_casefold casefold (split_commas text)
  unfolding split_commas dedupe_casefold
  dedupe_casefold-Settled text =
      let ts = dedupe_casefold casefold (split_commas text) in
      let fields = split_open-NoComma text in
      let tags =
        dedupe_from-IsTag [] ((split_commas_open text).0 ∷ (split_commas_open text).1) fields in
      dedupe-split-join ts tags (dedupe_casefold-DistinctKeys casefold (split_commas text))

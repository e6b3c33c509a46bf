-- ===== src/Generation/Refine/Prompt.antt =====
-- core/generation/refine.py, `_dedupe_comma_tags` and `compose_prompt`: the tags of a composed prompt.
use misaka_asset_gene.Prelude.{◌≡◌, refl, ap, false, ◌||◌, some, ◌∷◌, ◌++◌, any}
use misaka_asset_gene.Dialog.{is_empty}
use misaka_asset_gene.Network.{Text, strip, text_eq}
use misaka_asset_gene.Fidelity.Planning.{split_commas, join, tag_key, dedupe_casefold, comma_space}
use misaka_asset_gene.Fidelity.Planning.Fields.{dedupe_casefold-Settled, split_commas-append}
use misaka_asset_gene.Fidelity.Planning.Keys.{
  has_key_of, dedupe_casefold-keys, has_key_of-append, has_key_of-space,
}
use misaka_asset_gene.Generation.Refine.{append_mode, dedupe_comma_tags, compose_prompt}

module _ (casefold : Text → Text) where
  -- Deduplicating the tags of a text a second time changes nothing.
  pub dedupe_comma_tags-Settled :
      (text : Text)
      → dedupe_comma_tags casefold (dedupe_comma_tags casefold text)
        ≡ dedupe_comma_tags casefold text
  unfolding dedupe_comma_tags
  dedupe_comma_tags-Settled text = ap (join comma_space) (dedupe_casefold-Settled casefold text)

  -- A prompt that is appended to that of the parent has a tag of a key exactly where the parent's prompt
  -- or the instruction has one: no element of an earlier round is lost. Both are not blank.
  pub compose_prompt-keys :
      (p instruction k : Text)
      → is_empty p ≡ false
      → is_empty (strip instruction) ≡ false
      → any
          (λ t. text_eq k (tag_key casefold t))
          (dedupe_casefold casefold
            (split_commas (compose_prompt casefold (some p) instruction append_mode)))
        ≡ (has_key_of casefold k (split_commas (strip p))
            || has_key_of casefold k (split_commas (strip instruction)))
  unfolding compose_prompt dedupe_comma_tags
  compose_prompt-keys p instruction k h i =
      let whole = strip p ++ (b',' ∷ 32 ∷ strip instruction) in
      rw
        (
          h,
          i,
          dedupe_casefold-Settled casefold whole,
          dedupe_casefold-keys casefold k (split_commas whole),
          split_commas-append (strip p) (32 ∷ strip instruction),
          has_key_of-append casefold k (split_commas (strip p))
              (split_commas (32 ∷ strip instruction)),
          has_key_of-space casefold k (strip instruction),
        )
        refl

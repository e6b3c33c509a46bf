-- ===== src/Project/Resolve/Recorded.antt =====
-- core/project/cross_project.py: the hash that origins.json gives for a reference, and its comparison.
use misaka_asset_gene.Prelude.{
  ◌≡◌, ◌≢◌, refl, sym, ap, ◌∙◌, subst, inl, inr, ◌⊎◌, true, false, not, Bool-cases, Option, none,
  some, List, [], ◌∷◌, ◌++◌, All, arith, if◌then◌else◌,
}
use misaka_asset_gene.Dialog.{is_empty}
use misaka_asset_gene.Network.{Text, text_eq}
use misaka_asset_gene.Network.Texts.{text_eq_sound, text_eq_refl}
use misaka_asset_gene.Generation.Refine.{is_prefix}
use misaka_asset_gene.Project.Resolve.{OriginEntry, origin_hash_of, is_other_hash}

-- The entry is of this path: its own starts with the key.
abbrev Starts : Text → OriginEntry → Type 0
Starts key e = (rest : Text) × e.local_path ≡ key ++ rest

-- The hash that the record gives for a key: that of the first entry of the key, which may be empty.
pub data Recorded (key : Text) (es : List OriginEntry) : Option Text → Type 0 where
  no_entry : All (λ e. Starts key e → ⊥) es → Recorded key es none
  no_hash :
      (before after : List OriginEntry) (e : OriginEntry)
      → es ≡ before ++ e ∷ after
      → All (λ x. Starts key x → ⊥) before
      → Starts key e
      → e.sha256 ≡ []
      → Recorded key es none
  a_hash :
      (before after : List OriginEntry) (e : OriginEntry)
      → es ≡ before ++ e ∷ after
      → All (λ x. Starts key x → ⊥) before
      → Starts key e
      → e.sha256 ≢ []
      → Recorded key es (some e.sha256)

is_prefix-append : (s t : Text) → is_prefix s (s ++ t) ≡ true
unfolding is_prefix
is_prefix-append [] t = refl
is_prefix-append (c ∷ cs) t = ground (arith, is_prefix-append cs t)

is_prefix_sound : (s t : Text) → is_prefix s t ≡ true → (rest : Text) × t ≡ s ++ rest
unfolding is_prefix
is_prefix_sound [] t h = (t, refl)
is_prefix_sound (c ∷ cs) [] h = absurd (cc)
is_prefix_sound (c ∷ cs) (d ∷ ds) h =
    let (rest, e) = is_prefix_sound cs ds (ground (arith, h)) in
    let same : d ≡ c = ground (arith, h) in (rest, ap (λ x. x ∷ ds) same ∙ ap (λ x. c ∷ x) e)

not-Starts : (key : Text) (e : OriginEntry) → is_prefix key e.local_path ≡ false → Starts key e → ⊥
not-Starts key e n (rest, q) =
    absurd (cc (sym n ∙ ap (is_prefix key) q ∙ is_prefix-append key rest))

Recorded-later :
    (key : Text) (e : OriginEntry) (es : List OriginEntry) (o : Option Text)
    → (Starts key e → ⊥)
    → Recorded key es o
    → Recorded key (e ∷ es) o
Recorded-later key e es _ n (no_entry a) = no_entry (n, a)
Recorded-later key e es _ n (no_hash before after x q a s h) =
    no_hash (e ∷ before) after x (ap (λ l. e ∷ l) q) (n, a) s h
Recorded-later key e es _ n (a_hash before after x q a s h) =
    a_hash (e ∷ before) after x (ap (λ l. e ∷ l) q) (n, a) s h

here_Recorded :
    (key : Text) (e : OriginEntry) (es : List OriginEntry)
    → Starts key e
    → Recorded key (e ∷ es) (if is_empty e.sha256 then none else some e.sha256)
here_Recorded key e es s = by_hash e.sha256 refl
  where
    by_hash :
        (h : Text) → e.sha256 ≡ h → Recorded key (e ∷ es) (if is_empty h then none else some h)
    by_hash [] q = no_hash [] es e refl tt s q
    by_hash (c ∷ h) q =
        subst (λ x. Recorded key (e ∷ es) (some x)) q
          (a_hash [] es e refl tt s (λ r. absurd (cc (sym q ∙ r))))

pub origin_hash_of-Recorded :
    (key : Text) (es : List OriginEntry) → Recorded key es (origin_hash_of key es)
unfolding origin_hash_of
origin_hash_of-Recorded key [] = no_entry tt
origin_hash_of-Recorded key (e ∷ es) = elim (Bool-cases (is_prefix key e.local_path)) [
  | inl q ↦ rw q (here_Recorded key e es (is_prefix_sound key e.local_path q))
  | inr q ↦ rw q (Recorded-later key e es _ (not-Starts key e q) (origin_hash_of-Recorded key es))
]

-- The hash of the file is no other one than that of the record, or it is another one.
abbrev pub Agrees : Option Text → Text → Type 0
Agrees o h = (o ≡ none) ⊎ (o ≡ some h)

abbrev pub Differs : Option Text → Text → Type 0
Differs o h = (g : Text) × (o ≡ some g) × (g ≢ h)

pub is_other_hash-Agrees : (o : Option Text) (h : Text) → is_other_hash o h ≡ false → Agrees o h
unfolding is_other_hash
is_other_hash-Agrees none h n = inl refl
is_other_hash-Agrees (some g) h n = inr (ap some (sym (text_eq_sound h g (ground (arith, n)))))

pub is_other_hash-Differs : (o : Option Text) (h : Text) → is_other_hash o h ≡ true → Differs o h
unfolding is_other_hash
is_other_hash-Differs none h n = absurd (cc)
is_other_hash-Differs (some g) h n =
    (g, refl, λ e. absurd (cc (sym (text_eq_refl h) ∙ ap (text_eq h) (sym e) ∙ text_differs g h n)))
  where
    text_differs : (g h : Text) → not (text_eq h g) ≡ true → text_eq h g ≡ false
    text_differs g h n = ground (arith, n)

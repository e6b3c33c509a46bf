-- ===== src/Training/Checkpoints.antt =====
-- core/training/executor.py: `_discover_resume_checkpoint` and `_extract_output_dir_and_name`, on texts as
-- lists of code points. A directory is the list of the names of its subdirectories, in the order in
-- which the file system gives them; the digits are those of ASCII.
use misaka_asset_gene.Prelude.{
  ℕ, ◌+◌, ◌-◌, ◌*◌, ◌≤◌, ◌≡◌, refl, subst, sym, ◌∙◌, ltb→lt, inl, inr, ◌⊎◌, Bool, true, false, ◌&&◌,
  Option, none, some, List, [], ◌∷◌, ◌++◌, any, All, arith, ltb, leb, ◌==◌, if◌then◌else◌,
  Bool-cases, Option-cases, some-injective,
}
use misaka_asset_gene.Network.{Text, text_eq}
use misaka_asset_gene.Network.Texts.{text_eq_refl}

-- What follows a prefix.
pub after_prefix : Text → Text → Option Text
after_prefix [] t = some t
after_prefix (p ∷ ps) [] = none
after_prefix (p ∷ ps) (c ∷ cs) = let rest = after_prefix ps cs in if p == c then rest else none

abbrev pub state_suffix : Text
state_suffix = b'-' ∷ b's' ∷ b't' ∷ b'a' ∷ b't' ∷ b'e' ∷ []

pub is_digits : Text → Bool
is_digits [] = true
is_digits (c ∷ cs) = leb 48 c && leb c 57 && is_digits cs

-- `int`, on digits.
pub numeral : ℕ → Text → ℕ
numeral n [] = n
numeral n (c ∷ cs) = numeral (10 * n + (c - 48)) cs

-- The number of a directory `<output_name>-stateN`.
pub number_of : Text → Option ℕ
unfolding is_digits numeral
number_of [] = none
number_of (c ∷ cs) = if is_digits (c ∷ cs) then some (numeral 0 (c ∷ cs)) else none

pub step_of : Text → Text → Option ℕ
unfolding after_prefix number_of
step_of prefix name = elim (after_prefix prefix name) [ none ↦ none | some t ↦ number_of t ]

-- `max` over the numbered directories: the first one of the largest number.
unfoldable pub latest_state : Text → List Text → Option (Text × ℕ)
unfolding step_of
latest_state prefix [] = none
latest_state prefix (n ∷ ns) = elim (step_of prefix n) [
  | none ↦ latest_state prefix ns
  | some k ↦ elim (latest_state prefix ns) [
    | none ↦ some (n, k)
    | some m ↦ if ltb k m.1 then some m else some (n, k)
  ]
]

abbrev pub name_of : Option (Text × ℕ) → Option Text
name_of none = none
name_of (some m) = some m.0

unfoldable pub discover_resume_checkpoint : Option (List Text) → Text → Option Text
unfolding latest_state
discover_resume_checkpoint none output_name = none
discover_resume_checkpoint (some names) output_name =
    let final = output_name ++ state_suffix in
    if any (text_eq final) names then some final else name_of (latest_state final names)

abbrev pub dir_flag : Text
dir_flag = b'-' ∷ b'-' ∷ b'o' ∷ b'u' ∷ b't' ∷ b'p' ∷ b'u' ∷ b't' ∷ b'_' ∷ b'd' ∷ b'i' ∷ b'r' ∷ []

abbrev pub name_flag : Text
name_flag =
    b'-' ∷ b'-' ∷ b'o' ∷ b'u' ∷ b't' ∷ b'p' ∷ b'u' ∷ b't' ∷ b'_' ∷ b'n' ∷ b'a' ∷ b'm' ∷ b'e' ∷ []

abbrev pub equals : Text
equals = b'=' ∷ []

-- `args[i + 1]`, for a flag that stands alone.
pub value_after : Text → Text → List Text → Option Text
value_after flag arg [] = none
value_after flag arg (v ∷ vs) = if text_eq arg flag then some v else none

abbrev pub or_else : {A : Type 0} → Option A → Option A → Option A
or_else (some a) o = some a
or_else none o = o

-- The value that an argument gives to a flag, in either form.
pub flag_value : Text → Text → List Text → Option Text
unfolding after_prefix value_after
flag_value flag arg rest = or_else (after_prefix (flag ++ equals) arg) (value_after flag arg rest)

-- One turn of the loop: an argument sets the directory, or else the name.
pub read_arg : Text → List Text → Option Text × Option Text → Option Text × Option Text
unfolding flag_value
read_arg arg rest s = elim (flag_value dir_flag arg rest) [
  | some v ↦ (some v, s.1)
  | none ↦ (s.0, or_else (flag_value name_flag arg rest) s.1)
]

pub read_args : List Text → Option Text × Option Text → Option Text × Option Text
unfolding read_arg
read_args [] s = s
read_args (a ∷ rest) s = read_args rest (read_arg a rest s)

unfoldable pub extract_output_dir_and_name : List Text → Option Text × Option Text
unfolding read_args
extract_output_dir_and_name args = read_args args (none, none)

-- A directory among those of a list, with a number, and none of a larger one.
pub record IsLatest (prefix : Text) (names : List Text) (m : Text × ℕ) : Type 0 where
  pub numbered : step_of prefix m.0 ≡ some m.1
  pub among : any (text_eq m.0) names ≡ true
  pub largest : All (λ n. (k : ℕ) → step_of prefix n ≡ some k → k ≤ m.1) names

latest_state-none :
    (prefix : Text) (names : List Text)
    → latest_state prefix names ≡ none
    → All (λ n. step_of prefix n ≡ none) names
unfolding latest_state
latest_state-none prefix [] h = tt
latest_state-none prefix (n ∷ ns) h = elim (Option-cases (step_of prefix n)) [
  | inl e ↦ (e, latest_state-none prefix ns (rw (latest_state, e) at h))
  | inr (k, e) ↦ elim (Option-cases (latest_state prefix ns)) [
    | inl f ↦ absurd (cc (rw (latest_state, e, f) at h))
    | inr (m, f) ↦ elim (Bool-cases (ltb k m.1)) [
      | inl g ↦ absurd (cc (rw (latest_state, e, f, g) at h))
      | inr g ↦ absurd (cc (rw (latest_state, e, f, g) at h))
    ]
  ]
]

skipped :
    (prefix : Text) (k : ℕ) (names : List Text)
    → All (λ n. step_of prefix n ≡ none) names
    → All (λ n. (j : ℕ) → step_of prefix n ≡ some j → j ≤ k) names
skipped prefix k [] h = tt
skipped prefix k (n ∷ ns) h = ((λ j e. absurd (cc)), skipped prefix k ns h.1)

weaker :
    (prefix : Text) (i k : ℕ) (names : List Text)
    → i ≤ k
    → All (λ n. (j : ℕ) → step_of prefix n ≡ some j → j ≤ i) names
    → All (λ n. (j : ℕ) → step_of prefix n ≡ some j → j ≤ k) names
weaker prefix i k [] l h = tt
weaker prefix i k (n ∷ ns) l h = ((λ j e. omega (arith, h.0 j e)), weaker prefix i k ns l h.1)

is_first :
    (prefix n : Text) (ns : List Text) (k : ℕ) (m : Text × ℕ)
    → step_of prefix n ≡ some k
    → some (n, k) ≡ some m
    → All (λ a. (j : ℕ) → step_of prefix a ≡ some j → j ≤ k) ns
    → IsLatest prefix (n ∷ ns) m
is_first prefix n ns k m e h below = subst (IsLatest prefix (n ∷ ns)) (some-injective h) (record {
  numbered = e;
  among = rw (text_eq_refl n) refl;
  largest = ((λ j f. omega (arith, some-injective (sym e ∙ f))), below);
})

is_later :
    (prefix n : Text) (ns : List Text) (m : Text × ℕ)
    → ((k : ℕ) → step_of prefix n ≡ some k → k ≤ m.1)
    → IsLatest prefix ns m
    → IsLatest prefix (n ∷ ns) m
is_later prefix n ns m b i = record {
  numbered = i.numbered;
  among = ground (arith, i.among);
  largest = (b, i.largest);
}

latest_state-IsLatest :
    (prefix : Text) (names : List Text) (m : Text × ℕ)
    → latest_state prefix names ≡ some m
    → IsLatest prefix names m
unfolding latest_state
latest_state-IsLatest prefix [] m h = absurd (cc)
latest_state-IsLatest prefix (n ∷ ns) m h = elim (Option-cases (step_of prefix n)) [
  | inl e ↦
      is_later prefix n ns m (λ k f. absurd (cc))
        (latest_state-IsLatest prefix ns m (rw (latest_state, e) at h))
  | inr (k, e) ↦ elim (Option-cases (latest_state prefix ns)) [
    | inl f ↦
        is_first prefix n ns k m e (rw (latest_state, e, f) at h)
          (skipped prefix k ns (latest_state-none prefix ns f))
    | inr (l, f) ↦ elim (Bool-cases (ltb k l.1)) [
      | inl g ↦
          subst (IsLatest prefix (n ∷ ns)) (some-injective (rw (latest_state, e, f, g) at h)) (
            is_later prefix n ns l
              (λ j i. omega (arith, ltb→lt k l.1 g, some-injective (sym e ∙ i)))
              (latest_state-IsLatest prefix ns l f))
      | inr g ↦
          is_first prefix n ns k m e (rw (latest_state, e, f, g) at h) (
            weaker prefix l.1 k ns (ground (arith, g))
              (latest_state-IsLatest prefix ns l f).largest)
    ]
  ]
]

-- The directory that a failed job is resumed from: the final state where there is one, or else a
-- numbered state of the largest number; none only where no directory is of either kind.
pub discover_resume_checkpoint-IsLatest :
    (names : List Text) (output_name : Text)
    → let final = output_name ++ state_suffix in
      let found = discover_resume_checkpoint (some names) output_name in
      ((any (text_eq final) names ≡ true) × (found ≡ some final))
      ⊎ ((any (text_eq final) names ≡ false)
          × (((m : Text × ℕ) × (found ≡ some m.0) × IsLatest final names m)
              ⊎ ((found ≡ none) × All (λ n. step_of final n ≡ none) names)))
unfolding discover_resume_checkpoint
discover_resume_checkpoint-IsLatest names output_name =
    let final = output_name ++ state_suffix in
    elim (Bool-cases (any (text_eq final) names)) [
      | inl e ↦ inl (e, rw e refl)
      | inr e ↦ inr (
        e,
        elim (Option-cases (latest_state final names)) [
          | inl f ↦ inr (rw (e, f) refl, latest_state-none final names f)
          | inr (m, f) ↦ inl (m, rw (e, f) refl, latest_state-IsLatest final names m f)
        ],
      )
    ]

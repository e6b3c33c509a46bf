-- ===== src/Prelude/Raising.antt =====
-- Methods that raise, with a bind that stays shut, and what such a method keeps and ensures. A proof
-- about a `do` block follows the block: one rule for each of its lines.
use misaka_asset_gene.Prelude.Methods.{Result, ok, err, Exec, continue}

module _ {S E A B : Type 0} where
  infixl 5 ◌>>=◌ ◌>>◌
  unfoldable pub ◌>>=◌ : Exec S E A → (A → Exec S E B) → Exec S E B
  ◌>>=◌ m f s = continue f (m s)

  abbrev pub ◌>>◌ : Exec S E A → Exec S E B → Exec S E B
  m >> n = m >>= λ _. n

-- What holds of the value and the state where a method returns.
abbrev pub Holds : {S E A : Type 0} → (A → S → Type 0) → Result E A × S → Type 0
Holds P (ok a, s) = P a s
Holds P (err e, s) = Unit

-- The method keeps `I`, whether it returns or raises.
pub record Keeps {S E A : Type 0} (I : S → Type 0) (m : Exec S E A) : Type 0 where
  pub kept : (s : S) → I s → I (m s).1

-- Where it starts with `I` and returns, the method ends with `P`.
pub record Ensures {S E A : Type 0} (I : S → Type 0) (P : A → S → Type 0) (m : Exec S E A)
    : Type 0 where
  pub ensured : (s : S) → I s → Holds P (m s)

continue-post :
    {S E A B : Type 0} (Q : A → S → Type 0) (P : B → S → Type 0) (f : A → Exec S E B)
    (r : Result E A × S)
    → ((a : A) (s : S) → Q a s → Holds P (f a s))
    → Holds Q r
    → Holds P (continue f r)
continue-post Q P f (ok a, s) k h = k a s h
continue-post Q P f (err e, s) k h = tt

module _ {S E A B : Type 0} {I : S → Type 0} where
  continue-kept :
      (f : A → Exec S E B) (r : Result E A × S)
      → ((a : A) → Keeps I (f a))
      → I r.1
      → I (continue f r).1
  continue-kept f (ok a, s) k h = (k a).kept s h
  continue-kept f (err e, s) k h = h

  pub Keeps-bind :
      (m : Exec S E A) (f : A → Exec S E B)
      → Keeps I m
      → ((a : A) → Keeps I (f a))
      → Keeps I (m >>= f)
  unfolding ◌>>=◌
  Keeps-bind m f km kf = record { kept = λ s h. continue-kept f (m s) kf (km.kept s h) }

  continue-ensured :
      (P : B → S → Type 0) (f : A → Exec S E B) (r : Result E A × S)
      → ((a : A) → Ensures I P (f a))
      → I r.1
      → Holds P (continue f r)
  continue-ensured P f (ok a, s) k h = (k a).ensured s h
  continue-ensured P f (err e, s) k h = tt

  -- The first line keeps what the others start with.
  pub Ensures-bind :
      {P : B → S → Type 0} (m : Exec S E A) (f : A → Exec S E B)
      → Keeps I m
      → ((a : A) → Ensures I P (f a))
      → Ensures I P (m >>= f)
  unfolding ◌>>=◌
  Ensures-bind {P} m f km kf = record {
    ensured = λ s h. continue-ensured P f (m s) kf (km.kept s h);
  }

  -- The first line ensures what the others start with.
  pub Ensures-then :
      (Q : A → S → Type 0) {P : B → S → Type 0} (m : Exec S E A) (f : A → Exec S E B)
      → Ensures I Q m
      → ((a : A) (s : S) → Q a s → Holds P (f a s))
      → Ensures I P (m >>= f)
  unfolding ◌>>=◌
  Ensures-then Q {P} m f em kf = record {
    ensured = λ s h. continue-post Q P f (m s) kf (em.ensured s h);
  }

pub Holds-map :
    {S E A : Type 0} (P Q : A → S → Type 0) (r : Result E A × S)
    → ((a : A) (s : S) → P a s → Q a s)
    → Holds P r
    → Holds Q r
Holds-map P Q (ok a, s) f h = f a s h
Holds-map P Q (err e, s) f h = tt

-- The method returns, with `P`.
abbrev pub Returns : {S E A : Type 0} → (A → S → Type 0) → Result E A × S → Type 0
Returns P (ok a, s) = P a s
Returns P (err e, s) = ⊥

-- Partial correctness and a return make total correctness.
pub Returns-Holds :
    {S E A : Type 0} (Q P : A → S → Type 0) (r : Result E A × S)
    → Returns Q r
    → Holds P r
    → Returns P r
Returns-Holds Q P (ok a, s) q p = p
Returns-Holds Q P (err e, s) q p = q

pub record Yields {S E A : Type 0} (I : S → Type 0) (P : A → S → Type 0) (m : Exec S E A)
    : Type 0 where
  pub yields : (s : S) → I s → Returns P (m s)

continue-Returns :
    {S E A B : Type 0} (Q : A → S → Type 0) (P : B → S → Type 0) (f : A → Exec S E B)
    (r : Result E A × S)
    → ((a : A) (s : S) → Q a s → Returns P (f a s))
    → Returns Q r
    → Returns P (continue f r)
continue-Returns Q P f (ok a, s) k h = k a s h
continue-Returns Q P f (err e, s) k h = absurd h

module _ {S E A B : Type 0} {I : S → Type 0} where
  pub Yields-then :
      (Q : A → S → Type 0) {P : B → S → Type 0} (m : Exec S E A) (f : A → Exec S E B)
      → Yields I Q m
      → ((a : A) (s : S) → Q a s → Returns P (f a s))
      → Yields I P (m >>= f)
  unfolding ◌>>=◌
  Yields-then Q {P} m f ym kf = record {
    yields = λ s h. continue-Returns Q P f (m s) kf (ym.yields s h);
  }

  -- The first line returns, and leaves what the others start with.
  pub Yields-bind :
      {P : B → S → Type 0} (m : Exec S E A) (f : A → Exec S E B)
      → Yields I (λ _. I) m
      → ((a : A) → Yields I P (f a))
      → Yields I P (m >>= f)
  Yields-bind {P} m f ym yf = Yields-then (λ _. I) m f ym (λ a s h. (yf a).yields s h)

-- ===== src/Stream.antt =====
-- core/training/service.py and core/consultant/fidelity_service.py: the loop of the two progress
-- streams, which poll a row and send it on where it has news. The n-th poll and the n-th reading of the
-- clock are arguments.
use misaka_asset_gene.Prelude.{
  ℕ, zero, suc, ◌<◌, ◌≡◌, refl, inl, inr, ◌⊎◌, Bool, true, false, not, ◌||◌, Bool-cases, Option,
  none, some, List, [], ◌∷◌, if◌then◌else◌, arith,
}
use misaka_asset_gene.Prelude.Int.{ℤ, leb_ℤ}

-- The last frame, after one that has been sent.
unfoldable pub last_frame : {A : Type 0} → Option A → List A → Option A
last_frame o [] = o
last_frame o (j ∷ js) = last_frame (some j) js

module _ {A : Type 0} (is_terminal : A → Bool) (same_signature : A → A → Bool) where
  -- The row differs from the last frame.
  pub is_news : Option A → A → Bool
  is_news none j = true
  is_news (some i) j = not (same_signature j i)

  -- One turn of the loop, with the turns that follow it; it ends without a row, with one that has
  -- ended, and after the deadline.
  pub take_frame : (Option A → List A) → Bool → Option A → Option A → List A
  unfolding is_news
  take_frame turns late last none = []
  take_frame turns late last (some j) =
      let over = is_terminal j || late in
      let shown = turns (some j) in
      let silent = turns last in
      if is_news last j then j ∷ (if over then [] else shown) else (if over then [] else silent)

  module _ (poll : ℕ → Option A) (clock : ℕ → ℤ) (deadline : ℤ) where
    -- From the n-th poll on; the first argument is the number of polls at most.
    unfoldable pub stream_progress : ℕ → ℕ → Option A → List A
    unfolding take_frame
    stream_progress zero n last = []
    stream_progress (suc k) n last =
        take_frame (stream_progress k (suc n)) (leb_ℤ deadline (clock n)) last (poll n)

    -- The row ends at the m-th poll from the n-th on, and the deadline is not met before.
    abbrev pub Until : ℕ → ℕ → A → Type 0
    Until zero n j = (poll n ≡ some j) × (is_terminal j ≡ true)
    Until (suc m) n j =
        (i : A) × (poll n ≡ some i)
        × ((is_terminal i || leb_ℤ deadline (clock n)) ≡ false)
        × Until m (suc n) j

    -- A frame has been sent that shows the row as it is.
    abbrev pub Shown : A → Option A → Type 0
    Shown j o = (f : A) × (o ≡ some f) × ((f ≡ j) ⊎ (same_signature j f ≡ true))

    is_old : (last : Option A) (j : A) → is_news last j ≡ false → Shown j last
    unfolding is_news
    is_old none j h = absurd (cc)
    is_old (some i) j h = (i, refl, inr (ground (arith, h)))

    pub stream_progress-Shown :
        (m k n : ℕ) (last : Option A) (j : A)
        → m < k
        → Until m n j
        → Shown j (last_frame last (stream_progress k n last))
    unfolding stream_progress take_frame last_frame
    stream_progress-Shown m zero n last j l u = absurd (omega arith)
    stream_progress-Shown zero (suc k) n last j l (p, e) = elim (Bool-cases (is_news last j)) [
      | inl f ↦ rw (p, f, e) (j, refl, inl refl)
      | inr f ↦ rw (p, f, e) (is_old last j f)
    ]
    stream_progress-Shown (suc m) (suc k) n last j l (i, p, e, u) =
        elim (Bool-cases (is_news last i)) [
          | inl f ↦ rw (p, f, e) (stream_progress-Shown m k (suc n) (some i) j (omega arith) u)
          | inr f ↦ rw (p, f, e) (stream_progress-Shown m k (suc n) last j (omega arith) u)
        ]

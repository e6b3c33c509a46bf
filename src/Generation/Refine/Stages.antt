-- ===== src/Generation/Refine/Stages.antt =====
-- core/generation/refine.py, `_dedup_decomposition_steps`: the stage of each segment.
use misaka_asset_gene.Prelude.{
  ◌≡◌, refl, ap, ◌∙◌, inl, inr, Bool, true, not, ◌&&◌, ◌||◌, Bool-cases, List, [], ◌∷◌, ◌++◌,
  List-cases, select, any, if◌then◌else◌, arith,
}
use misaka_asset_gene.Dialog.{is_empty}
use misaka_asset_gene.Network.{Text, text_eq}
use misaka_asset_gene.Network.Texts.{text_eq_sound, text_eq_refl}
use misaka_asset_gene.Fidelity.Planning.{join}
use misaka_asset_gene.Generation.Refine.{
  DecompositionStep, Stages, has_any, matched_segments, dedup_steps, dedup_decomposition_steps,
}

-- A text is selected where it is in the list and passes the test.
any-select :
    (p : Text → Bool) (t : Text) (ts : List Text)
    → any (λ c. text_eq c t) (select p ts) ≡ (p t && any (λ c. text_eq c t) ts)
any-select p t [] = ground arith
any-select p t (c ∷ cs) = elim (Bool-cases (text_eq c t)) [
  | inl e ↦
      let q = ap p (text_eq_sound c t e) in
      elim (Bool-cases (p c)) [
        | inl h ↦ rw h (ground (arith, e, h, q, any-select p t cs))
        | inr h ↦ rw h (ground (arith, e, h, q, any-select p t cs))
      ]
  | inr e ↦ elim (Bool-cases (p c)) [
    | inl h ↦ rw h (ground (arith, e, any-select p t cs))
    | inr h ↦ rw h (ground (arith, e, any-select p t cs))
  ]
]

any-append : (p : Text → Bool) (xs ys : List Text) → any p (xs ++ ys) ≡ (any p xs || any p ys)
any-append p [] ys = refl
any-append p (x ∷ xs) ys = ground (arith, any-append p xs ys)

module _ (lower : Text → Text) where
  -- The segments whose first stage has the given markers, after the stages with the markers `earlier`.
  first_here : List Text → List (List Text) → List Text → List Text
  first_here segments earlier markers =
      select (λ s. has_any lower s markers && not (any (has_any lower s) earlier)) segments

  -- What `decompose_prompt` is to give: a stage in turn, each with the segments that no stage before it
  -- matches.
  pub steps_by_stage : List Text → List (List Text) → Stages → List DecompositionStep
  unfolding first_here
  steps_by_stage segments earlier [] = []
  steps_by_stage segments earlier (s ∷ ss) =
      let mine = first_here segments earlier s.1 in
      let rest = steps_by_stage segments (s.1 ∷ earlier) ss in
      if is_empty mine
      then rest
      else record { stage = s.0; prompt = join (0xff1b ∷ []) mine } ∷ rest

  -- The claimed segments are those that some earlier stage matches.
  Claims : List Text → List Text → List (List Text) → Type 0
  Claims segments claimed earlier =
      (t : Text)
      → any (λ c. text_eq c t) segments ≡ true
      → any (λ c. text_eq c t) claimed ≡ any (has_any lower t) earlier

  matched-first_here :
      (segments claimed : List Text) (earlier : List (List Text)) (markers : List Text)
      (ts : List Text)
      → Claims segments claimed earlier
      → ((t : Text) → any (λ c. text_eq c t) ts ≡ true → any (λ c. text_eq c t) segments ≡ true)
      → matched_segments lower ts claimed markers ≡ first_here ts earlier markers
  unfolding matched_segments first_here Claims
  matched-first_here segments claimed earlier markers [] k within = refl
  matched-first_here segments claimed earlier markers (t ∷ ts) k within =
      let same = k t (within t (ground (arith, text_eq_refl t))) in
      let rest =
        matched-first_here segments claimed earlier markers ts k
          (λ u h. within u (ground (arith, h))) in
      rw (same, rest) refl

  Claims-step :
      (segments claimed : List Text) (earlier : List (List Text)) (markers : List Text)
      → Claims segments claimed earlier
      → Claims segments
          (matched_segments lower segments claimed markers ++ claimed)
          (markers ∷ earlier)
  unfolding matched_segments Claims
  Claims-step segments claimed earlier markers k t h =
      let p : Text → Bool = λ s. has_any lower s markers && not (any (λ c. text_eq c s) claimed) in
      any-append (λ c. text_eq c t) (select p segments) claimed
      ∙ rw (any-select p t segments, h, k t h) (ground arith)

  steps-by_stage :
      (segments claimed : List Text) (earlier : List (List Text)) (ss : Stages)
      → Claims segments claimed earlier
      → dedup_steps lower segments claimed ss ≡ steps_by_stage segments earlier ss
  unfolding dedup_steps steps_by_stage
  steps-by_stage segments claimed earlier [] k = refl
  steps-by_stage segments claimed earlier (s ∷ ss) k =
      let same = matched-first_here segments claimed earlier s.1 segments k (λ t h. h) in
      let claims = Claims-step segments claimed earlier s.1 k in
      elim (List-cases (matched_segments lower segments claimed s.1)) [
        | inl e ↦
            rw (dedup_steps, e, ← same, e)
              (steps-by_stage segments claimed (s.1 ∷ earlier) ss (rw e at claims))
        | inr (m, ms, e) ↦
            let later =
              steps-by_stage segments (matched_segments lower segments claimed s.1 ++ claimed)
                (s.1 ∷ earlier) ss claims in
            rw (dedup_steps, ← same, later, e) refl
      ]

  -- Each step of a decomposition has exactly the segments that match the markers of its stage and of no
  -- stage before it, in their order; a stage without such a segment has no step.
  pub dedup_decomposition_steps-by_stage :
      (segments : List Text) (ss : Stages)
      → dedup_decomposition_steps lower segments ss ≡ steps_by_stage segments [] ss
  unfolding dedup_decomposition_steps Claims
  dedup_decomposition_steps-by_stage segments ss = steps-by_stage segments [] [] ss (λ t h. refl)

-- ===== src/Vision/Sound.antt =====
-- core/llm/vision.py, `critique`: where each verdict comes from.
use misaka_asset_gene.Prelude.{
  ℕ, ◌≡◌, refl, sym, ◌∙◌, subst, inl, inr, ◌⊎◌, Bool, true, false, Bool-cases, List, [], ◌∷◌, map,
  select, All, str_eq, ok, err, Result, continue,
}
use misaka_asset_gene.Prelude.Raising.{◌>>=◌, Holds, Holds-map}
use misaka_asset_gene.Network.{NetworkState}
use misaka_asset_gene.Fidelity.{unverified, CheckResult}
use misaka_asset_gene.Fidelity.Selection.{In}
use misaka_asset_gene.Fidelity.Planning.{FidelityCheck}
use misaka_asset_gene.Vision.{
  Settings, Providers, VisionError, Critique, with_verdict, apply_two_pass_gate, gate_results,
  needs_opinion, reconcile, checks_of, call_second_opinion, apply_second_opinion_gate,
  run_single_pass, critique,
}
use misaka_asset_gene.Vision.Verdicts.{Ruled, gate_results-Ruled, is_known, id_of, gate_results_ids}
use misaka_asset_gene.Vision.Opinions.{
  Doubtful, Doubtful-needs_opinion, Unanswered, verdict_of, asks, asks_needed, asks-Doubtful,
  reconcile_cases, reconcile_ids, Seconded, Opinion-Seconded,
}

module _ (providers : Providers) (pass_a pass_b : List CheckResult) (cs : List FidelityCheck)
    (w h : ℕ) (s : Settings) (net : NetworkState) where
  -- The checks that the second provider is asked for, of the results behind the gates.
  abbrev pub asked : List CheckResult → List FidelityCheck
  asked gated = checks_of (select (needs_opinion cs) gated) cs

  -- The result is ruled by the two passes and the gates, is among the results behind the gates, and
  -- has the id of one of these that is doubtful, and a second opinion is wanted.
  abbrev Questioned : List CheckResult → CheckResult → Type 0
  Questioned gated g =
      Ruled pass_a pass_b cs w h s g
      × In g gated
      × (str_eq s.misaka_fidelity_second_opinion "off" ≡ false)
      × ((d : CheckResult) × In d gated × (d.id ≡ g.id) × Doubtful cs d)

  -- Where a verdict of the critique comes from; `n` is the call after the second pass.
  pub data Sound (gated : List CheckResult) (n : ℕ) : CheckResult → Type 0 where
    stands :
        (g : CheckResult)
        → Ruled pass_a pass_b cs w h s g
        → (str_eq s.misaka_fidelity_second_opinion "off" ≡ true) ⊎ (Doubtful cs g → ⊥)
        → Sound gated n g
    decided :
        (g : CheckResult) (b : Bool)
        → Questioned gated g
        → Seconded providers s.misaka_fidelity_second_opinion net (asked gated) n b g.id
        → Sound gated n (with_verdict (verdict_of b) g)
    undecided :
        (g : CheckResult)
        → Questioned gated g
        → Unanswered
            (call_second_opinion providers s.misaka_fidelity_second_opinion (asked gated) net n).0
            g.id
        → Sound gated n (with_verdict unverified g)

  off-Sound :
      (gated rs : List CheckResult) (n : ℕ)
      → str_eq s.misaka_fidelity_second_opinion "off" ≡ true
      → All (Ruled pass_a pass_b cs w h s) rs
      → All (Sound gated n) rs
  off-Sound gated [] n e a = tt
  off-Sound gated (r ∷ rs) n e (g, a) = (stands r g (inl e), off-Sound gated rs n e a)

  not-Doubtful :
      (gated : List CheckResult) (g : CheckResult)
      → In g gated
      → asks (map (λ x. x.id) (select (needs_opinion cs) gated)) g ≡ false
      → Doubtful cs g
      → ⊥
  not-Doubtful gated g i a d =
      absurd (cc (sym (asks_needed cs gated g i (Doubtful-needs_opinion cs g d)) ∙ a))

  reconciled-Sound :
      (gated : List CheckResult) (n : ℕ) (g : CheckResult)
      → str_eq s.misaka_fidelity_second_opinion "off" ≡ false
      → In g gated
      → Ruled pass_a pass_b cs w h s g
      → Sound gated n (
          reconcile
            (map (λ x. x.id) (select (needs_opinion cs) gated))
            (call_second_opinion providers s.misaka_fidelity_second_opinion (asked gated) net n).0
            g)
  reconciled-Sound gated n g e i r =
      let mode = s.misaka_fidelity_second_opinion in
      let ids = map (λ x. x.id) (select (needs_opinion cs) gated) in
      let o = (call_second_opinion providers mode (asked gated) net n).0 in
      elim (reconcile_cases ids o g) [
        | inl (a, q) ↦ subst (Sound gated n) (sym q) (stands g r (inr (not-Doubtful gated g i a)))
        | inr (a, inl (b, p, q)) ↦ subst (Sound gated n) (sym q) (
            decided g b (r, i, e, asks-Doubtful cs gated g a)
              (Opinion-Seconded providers mode net b g.id (asked gated) n p))
        | inr (a, inr (p, q)) ↦
            subst (Sound gated n) (sym q) (undecided g (r, i, e, asks-Doubtful cs gated g a) p)
      ]

  All-Sound :
      (gated rs : List CheckResult) (n : ℕ)
      → str_eq s.misaka_fidelity_second_opinion "off" ≡ false
      → ((r : CheckResult) → In r rs → In r gated)
      → All (Ruled pass_a pass_b cs w h s) rs
      → All (Sound gated n) (
          map
            (reconcile
              (map (λ x. x.id) (select (needs_opinion cs) gated))
              (call_second_opinion providers s.misaka_fidelity_second_opinion
                (asked gated)
                net
                n).0)
            rs)
  All-Sound gated [] n e i a = tt
  All-Sound gated (r ∷ rs) n e i (g, gs) = (
    reconciled-Sound gated n r e (i r (inl refl)) g,
    All-Sound gated rs n e (λ x y. i x (inr y)) gs,
  )

  second_opinion-Sound :
      (gated : List CheckResult) (n : ℕ)
      → All (Ruled pass_a pass_b cs w h s) gated
      → Holds
          (λ out m. All (Sound gated n) out × (map id_of out ≡ map id_of gated))
          (apply_second_opinion_gate providers s gated cs net n)
  unfolding apply_second_opinion_gate
  second_opinion-Sound gated n a =
      elim (Bool-cases (str_eq s.misaka_fidelity_second_opinion "off")) [
        | inl e ↦ rw e (off-Sound gated gated n e a, refl)
        | inr e ↦ rw e (All-Sound gated gated n e (λ r i. i) a, reconcile_ids _ _ gated)
      ]

-- The results of a critique: two passes were made, the gates have ruled on the results of the first
-- one, and each of the results is sound.
abbrev pub Critiqued :
    Providers → Settings → List FidelityCheck → ℕ → ℕ → NetworkState → ℕ → List CheckResult → Type 0
Critiqued providers s cs w h net n out =
    (pass_a pass_b gated : List CheckResult) × (k l : ℕ) × (run_single_pass providers
        s.llm_provider_order cs net n
      ≡ (ok pass_a, k))
    × (run_single_pass providers s.llm_provider_order cs net k ≡ (ok pass_b, l))
    × All (Ruled pass_a pass_b cs w h s) gated
    × All (Sound providers pass_a pass_b cs w h s net gated l) out
    × (map id_of out ≡ map id_of (select (is_known cs) pass_a))

-- A critique that returns has made two passes, and its results are those of the first pass whose
-- check is one of the given ones, in their order by id, each with the verdict of the gates or of
-- the second opinion. The gates give a `pass` where one of the two passes passes the check, or
-- where the failure is discarded since its box is missing, too large or out of place, and the box
-- and the confidence can be trusted; `unverified` where one of these holds and they cannot, or
-- where the first pass has that verdict and the second one does not pass the check; and a `fail`
-- where the first pass fails the check, the second one does not pass it and the box is in its
-- place. That verdict stands where the second opinion is off, and of the results that are not
-- doubtful; a result with the id of a doubtful one, which is unverified or a passed fine detail,
-- has the verdict that the second provider gives at the call after the two passes, and is
-- unverified where that call gives none.
pub critique-Sound :
    (providers : Providers) (s : Settings) (cs : List FidelityCheck) (w h : ℕ) (net : NetworkState)
    (n : ℕ)
    → Holds (λ out m. Critiqued providers s cs w h net n out) (critique providers s cs w h net n)
unfolding critique ◌>>=◌
critique-Sound providers s cs w h net n =
    by_first (run_single_pass providers s.llm_provider_order cs net n) refl
  where
    run : Critique (List CheckResult)
    run = run_single_pass providers s.llm_provider_order cs net

    Post : List CheckResult → ℕ → Type 0
    Post out m = Critiqued providers s cs w h net n out

    gate : List CheckResult → List CheckResult → Critique (List CheckResult)
    gate a b =
        apply_second_opinion_gate providers s (gate_results (apply_two_pass_gate a b) cs w h s) cs
          net

    by_second :
        (a : List CheckResult) (k : ℕ) (r : Result VisionError (List CheckResult) × ℕ)
        → run n ≡ (ok a, k)
        → run k ≡ r
        → Holds Post (continue (gate a) r)
    by_second a k (err x, l) e f = tt
    by_second a k (ok b, l) e f =
        let gated = gate_results (apply_two_pass_gate a b) cs w h s in
        let ruled = gate_results-Ruled a b cs w h s a (λ x i. i) in
        Holds-map _ Post (gate a b l)
          (λ out m (g, i). (a, b, gated, k, l, e, f, ruled, g, i ∙ gate_results_ids b cs w h s a))
          (second_opinion-Sound providers a b cs w h s net gated l ruled)

    by_first :
        (r : Result VisionError (List CheckResult) × ℕ)
        → run n ≡ r
        → Holds Post (continue (λ a. run >>= gate a) r)
    by_first (err x, k) e = tt
    by_first (ok a, k) e = by_second a k (run k) e refl

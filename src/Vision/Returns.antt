-- ===== src/Vision/Returns.antt =====
-- A critique returns where a provider answers.
use misaka_asset_gene.Prelude.{
  ℕ, suc, ◌≡◌, ◌≢◌, refl, inl, inr, ◌⊎◌, false, ◌&&◌, not, Bool-cases, Option, Option-cases, none,
  some, List, [], ◌∷◌, String, str_eq, ok, err, Result, continue,
}
use misaka_asset_gene.Prelude.Raising.{◌>>=◌, Returns, Returns-Holds}
use misaka_asset_gene.Network.{NetworkState, online, state_eq}
use misaka_asset_gene.Fidelity.{CheckResult}
use misaka_asset_gene.Fidelity.Planning.{FidelityCheck}
use misaka_asset_gene.Vision.{
  Settings, Critic, Providers, VisionError, Critique, provider_handler, is_cloud, first_answer,
  run_single_pass, apply_second_opinion_gate, gate_results, apply_two_pass_gate, critique,
}
use misaka_asset_gene.Vision.Sound.{Critiqued, critique-Sound}

module _ (providers : Providers) (cs : List FidelityCheck) (net : NetworkState) where
  -- The provider is known, may be asked in this state of the network, and always answers.
  pub record Answers (p : String) : Type 0 where
    pub critic : Critic
    pub known : provider_handler providers p ≡ some critic
    pub open_to : (is_cloud providers p && not (state_eq net online)) ≡ false
    pub answers : (n : ℕ) → critic n cs ≢ none

  -- One of a list of providers does so.
  abbrev pub OneAnswers : List String → Type 0
  OneAnswers [] = ⊥
  OneAnswers (p ∷ ps) = Answers p ⊎ OneAnswers ps

  abbrev Done : Result VisionError (List CheckResult) × ℕ → Type 0
  Done = Returns (λ rs n. Unit {0})

  answered :
      (o : Option (List CheckResult)) (next : Critique (List CheckResult)) (n : ℕ)
      → (o ≡ none → Done (next n))
      → Done (first_answer providers o next n)
  unfolding first_answer
  answered none next n h = h refl
  answered (some rs) next n h = tt

  run_single_pass-Done :
      (ps : List String) (n : ℕ) → OneAnswers ps → Done (run_single_pass providers ps cs net n)
  unfolding run_single_pass
  run_single_pass-Done [] n a = absurd a
  run_single_pass-Done (p ∷ ps) n (inl a) =
      rw (run_single_pass, a.known, a.open_to)
        (answered (a.critic n cs) (run_single_pass providers ps cs net) (suc n)
          (λ e. absurd (a.answers n e)))
  run_single_pass-Done (p ∷ ps) n (inr a) = elim (Option-cases (provider_handler providers p)) [
    | inl e ↦ rw (run_single_pass, e) (run_single_pass-Done ps n a)
    | inr (critic, e) ↦ elim (Bool-cases (is_cloud providers p && not (state_eq net online))) [
      | inl f ↦ rw (run_single_pass, e, f) (run_single_pass-Done ps n a)
      | inr f ↦
          rw (run_single_pass, e, f)
            (answered (critic n cs) (run_single_pass providers ps cs net) (suc n)
              (λ g. run_single_pass-Done ps (suc n) a))
    ]
  ]

gate-Returns :
    (providers : Providers) (s : Settings) (rs : List CheckResult) (cs : List FidelityCheck)
    (net : NetworkState) (n : ℕ)
    → Returns (λ out m. Unit {0}) (apply_second_opinion_gate providers s rs cs net n)
unfolding apply_second_opinion_gate
gate-Returns providers s rs cs net n =
    elim (Bool-cases (str_eq s.misaka_fidelity_second_opinion "off")) [
      | inl e ↦ rw e tt
      | inr e ↦ rw e tt
    ]

follows :
    {S E A B : Type 0} (f : A → S → Result E B × S) (r : Result E A × S)
    → Returns (λ a s. Unit {0}) r
    → ((a : A) (s : S) → Returns (λ b t. Unit {0}) (f a s))
    → Returns (λ b t. Unit {0}) (continue f r)
follows f (ok a, s) h g = g a s
follows f (err x, s) h g = absurd h

critique-Done :
    (providers : Providers) (s : Settings) (cs : List FidelityCheck) (w h : ℕ) (net : NetworkState)
    (n : ℕ)
    → OneAnswers providers cs net s.llm_provider_order
    → Returns (λ out m. Unit {0}) (critique providers s cs w h net n)
unfolding critique ◌>>=◌
critique-Done providers s cs w h net n a =
    let run : Critique (List CheckResult) = run_single_pass providers s.llm_provider_order cs net in
    follows _ (run n) (run_single_pass-Done providers cs net s.llm_provider_order n a) (λ x k.
      follows _ (run k) (run_single_pass-Done providers cs net s.llm_provider_order k a) (λ y l.
        gate-Returns providers s (gate_results (apply_two_pass_gate x y) cs w h s) cs net l))

-- Where one of the providers in the order may be asked and always answers, a critique returns, and
-- its results are then as `critique-Sound` has them: two passes have been made, and each result is
-- one of the first pass with the verdict of the gates on the two or of the second opinion.
pub critique-Returns :
    (providers : Providers) (s : Settings) (cs : List FidelityCheck) (w h : ℕ) (net : NetworkState)
    (n : ℕ)
    → OneAnswers providers cs net s.llm_provider_order
    → Returns (λ out m. Critiqued providers s cs w h net n out) (critique providers s cs w h net n)
critique-Returns providers s cs w h net n a =
    Returns-Holds _ _ (critique providers s cs w h net n) (critique-Done providers s cs w h net n a)
      (critique-Sound providers s cs w h net n)

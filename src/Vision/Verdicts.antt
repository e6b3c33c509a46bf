-- ===== src/Vision/Verdicts.antt =====
-- core/llm/vision.py: how the two passes and the gates rule a result.
use misaka_asset_gene.Prelude.{
  Bool, map, select, if◌then◌else◌, String, true, false, ℕ, ◌≡◌, refl, sym, ap, ◌∙◌, subst, inl,
  inr, false, Option, none, some, List, [], ◌∷◌, All,
}
use misaka_asset_gene.Fidelity.{Verdict, pass, fail, unverified, is_fail, CheckResult, passed}
use misaka_asset_gene.Fidelity.Selection.{In}
use misaka_asset_gene.Fidelity.Planning.{FidelityCheck}
use misaka_asset_gene.Vision.{
  Settings, with_verdict, result_by_id, check_for, merge_result, apply_two_pass_gate, fail_at,
  apply_fail_side_gates, pass_at, apply_localized_pass_gate, apply_anti_hallucination_gates,
  is_pass, gate_found, gate_results,
}
use misaka_asset_gene.Vision.Gates.{
  gates_id, SecondFails, Placed, Trusted, CountsPassed, merge_cases, merge_id, pass_at_cases,
  fail_at_cases, not_passed, not_failed, failed,
}

-- What the gates make of the results of the first pass.
pub data Ruled (pass_a pass_b : List CheckResult) (cs : List FidelityCheck) (w h : ℕ) (s : Settings)
    : CheckResult → Type 0 where
  passes :
      (x : CheckResult) (c : FidelityCheck)
      → In x pass_a
      → check_for x.id cs ≡ some c
      → CountsPassed pass_b c w h x
      → Trusted s w h x
      → Ruled pass_a pass_b cs w h s (with_verdict pass x)
  doubted :
      (x : CheckResult) (c : FidelityCheck)
      → In x pass_a
      → check_for x.id cs ≡ some c
      → CountsPassed pass_b c w h x
      → (Trusted s w h x → ⊥)
      → Ruled pass_a pass_b cs w h s (with_verdict unverified x)
  fails :
      (x : CheckResult) (c : FidelityCheck)
      → In x pass_a
      → check_for x.id cs ≡ some c
      → x.verdict ≡ fail
      → SecondFails pass_b x
      → Placed c w h x
      → Ruled pass_a pass_b cs w h s x
  unsure :
      (x : CheckResult) (c : FidelityCheck)
      → In x pass_a
      → check_for x.id cs ≡ some c
      → x.verdict ≡ unverified
      → SecondFails pass_b x
      → Ruled pass_a pass_b cs w h s x

module _ (pass_a pass_b : List CheckResult) (cs : List FidelityCheck) (w h : ℕ) (s : Settings) where
  abbrev IsRuled : CheckResult → Type 0
  IsRuled = Ruled pass_a pass_b cs w h s

  module _ (x : CheckResult) (c : FidelityCheck) (i : In x pass_a)
      (f : check_for x.id cs ≡ some c) where
    counted-Ruled :
        CountsPassed pass_b c w h x → IsRuled (pass_at s w h x.region_bbox (with_verdict pass x))
    counted-Ruled p = elim (pass_at_cases s w h x) [
      | inl (t, e) ↦ subst IsRuled (sym e) (passes x c i f p t)
      | inr (t, e) ↦ subst IsRuled (sym e) (doubted x c i f p t)
    ]

    failing-Ruled :
        x.verdict ≡ fail
        → SecondFails pass_b x
        → IsRuled (apply_localized_pass_gate (fail_at c w h x.region_bbox x) w h s)
    unfolding apply_localized_pass_gate
    failing-Ruled v n = elim (fail_at_cases c w h x) [
      | inl (t, e) ↦
          subst IsRuled
            (sym
              (ap (λ y. apply_localized_pass_gate y w h s) e ∙ not_passed w h s x (ap is_pass v)))
            (fails x c i f v n t)
      | inr (t, e) ↦ rw e (counted-Ruled (inr (inr (v, t))))
    ]

    uncounted-Ruled :
        (v : Verdict)
        → x.verdict ≡ v
        → passed (with_verdict v x) ≡ false
        → SecondFails pass_b x
        → IsRuled (apply_anti_hallucination_gates x c w h s)
    unfolding apply_anti_hallucination_gates
    uncounted-Ruled pass v p n = absurd (cc)
    uncounted-Ruled unverified v p n =
        subst IsRuled
          (sym (
            ap (λ y. apply_localized_pass_gate y w h s) (not_failed c w h x (ap is_fail v))
            ∙ not_passed w h s x (ap is_pass v)))
          (unsure x c i f v n)
    uncounted-Ruled fail v p n =
        subst IsRuled
          (sym (ap (λ y. apply_localized_pass_gate y w h s) (failed c w h x (ap is_fail v))))
          (failing-Ruled v n)

    merged-Ruled :
        IsRuled (apply_anti_hallucination_gates (merge_result x (result_by_id x.id pass_b)) c w h s)
    unfolding apply_anti_hallucination_gates apply_fail_side_gates apply_localized_pass_gate
    merged-Ruled = elim (merge_cases x (result_by_id x.id pass_b)) [
      | inl (e, inl p) ↦ rw e (counted-Ruled (inl p))
      | inl (e, inr q) ↦ rw e (counted-Ruled (inr (inl q)))
      | inr (e, p, n) ↦ rw e (uncounted-Ruled x.verdict refl p n)
    ]

  gate_found-Ruled :
      (x : CheckResult) (o : Option FidelityCheck) (rest : List CheckResult)
      → In x pass_a
      → check_for x.id cs ≡ o
      → All IsRuled rest
      → All IsRuled (gate_found o (merge_result x (result_by_id x.id pass_b)) w h s rest)
  unfolding gate_found
  gate_found-Ruled x none rest i f a = a
  gate_found-Ruled x (some c) rest i f a = (merged-Ruled x c i f, a)

  pub gate_results-Ruled :
      (xs : List CheckResult)
      → ((x : CheckResult) → In x xs → In x pass_a)
      → All IsRuled (gate_results (apply_two_pass_gate xs pass_b) cs w h s)
  unfolding gate_results apply_two_pass_gate
  gate_results-Ruled [] i = tt
  gate_results-Ruled (x ∷ xs) i =
      rw (ap (λ k. check_for k cs) (merge_id x (result_by_id x.id pass_b))) (
        gate_found-Ruled x (check_for x.id cs) _ (i x (inl refl)) refl
          (gate_results-Ruled xs (λ y g. i y (inr g))))

-- The results of the first pass for the checks that are made.
abbrev is_given : Option FidelityCheck → Bool
is_given none = false
is_given (some c) = true

abbrev pub is_known : List FidelityCheck → CheckResult → Bool
is_known cs x = is_given (check_for x.id cs)

abbrev pub id_of : CheckResult → String
id_of x = x.id

gate_found_ids :
    (x m : CheckResult) (o : Option FidelityCheck) (w h : ℕ) (s : Settings)
    (rest known : List CheckResult)
    → m.id ≡ x.id
    → map id_of rest ≡ map id_of known
    → map id_of (gate_found o m w h s rest) ≡ map id_of (if is_given o then x ∷ known else known)
unfolding gate_found
gate_found_ids x m none w h s rest known i e = e
gate_found_ids x m (some c) w h s rest known i e =
    ap (λ k. k ∷ map id_of rest) (gates_id m c w h s ∙ i) ∙ ap (λ l. x.id ∷ l) e

pub gate_results_ids :
    (pass_b : List CheckResult) (cs : List FidelityCheck) (w h : ℕ) (s : Settings)
    (xs : List CheckResult)
    → map id_of (gate_results (apply_two_pass_gate xs pass_b) cs w h s)
      ≡ map id_of (select (is_known cs) xs)
unfolding gate_results apply_two_pass_gate
gate_results_ids pass_b cs w h s [] = refl
gate_results_ids pass_b cs w h s (x ∷ xs) =
    let m = merge_result x (result_by_id x.id pass_b) in
    let same : m.id ≡ x.id = merge_id x (result_by_id x.id pass_b) in
    ap
      (λ o.
        map id_of (gate_found o m w h s (gate_results (apply_two_pass_gate xs pass_b) cs w h s)))
      (ap (λ k. check_for k cs) same)
    ∙ gate_found_ids x m (check_for x.id cs) w h s _ _ same (gate_results_ids pass_b cs w h s xs)

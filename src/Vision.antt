-- ===== src/Vision.antt =====
-- core/llm/vision.py: the critic of an image, in two passes and with a second opinion, and the gates on
-- its verdicts. What the providers answer to the n-th call is an argument; the texts of the notes are
-- left out. A confidence is a number with the order of the floats, and a fraction is compared by its
-- cross product.
pub mod Gates
pub mod Verdicts
pub mod Opinions
pub mod Sound
pub mod Returns
mod Examples
use misaka_asset_gene.Prelude.{
  ℕ, zero, suc, ◌+◌, ◌*◌, String, Bool, true, false, not, ◌&&◌, ◌||◌, Option, none, some, List, [],
  ◌∷◌, map, str_eq, if◌then◌else◌, ltb, leb, ◌==◌, select, any, Result, ok, err, Exec, pure,
}
use misaka_asset_gene.Prelude.Raising.{◌>>=◌, ◌>>◌}
use misaka_asset_gene.Prelude.Int.{ℤ, pos, ◌+ℤ◌, leb_ℤ}
use misaka_asset_gene.Network.{NetworkState, online, offline, degraded, state_eq}
use misaka_asset_gene.Fidelity.Geometry.{Bbox, bbox_area}
use misaka_asset_gene.Fidelity.{
  Verdict, pass, fail, unverified, is_fail, is_unverified, CheckResult, passed,
}
use misaka_asset_gene.Fidelity.Planning.{
  BodyRegion, head, face, torso, waist, legs, background, FidelityCheck,
}

pub record Settings : Type 0 where
  pub llm_provider_order : List String
  pub misaka_fidelity_second_opinion : String
  pub misaka_fidelity_pass_min_confidence : ℕ

-- `critique_image` of a provider, at the n-th call.
abbrev pub Critic : Type 0
Critic = ℕ → List FidelityCheck → Option (List CheckResult)

pub record Providers : Type 0 where
  pub ollama : Critic
  pub openai : Critic
  pub gemini : Critic

pub data VisionError : Type 0 where
  no_provider : VisionError

-- A number of calls so far, and an error.
abbrev pub Critique : Type 0 → Type 0
Critique = Exec ℕ VisionError

-- `_MAX_BBOX_AREA_FRACTION`, 0.6, of the image's area; an image without an area has no fraction.
pub too_large : ℕ → ℕ → Bbox → Bool
too_large w h b = not (w == 0) && not (h == 0) && ltb (3 * (w * h)) (5 * bbox_area b)

-- `_REGION_VERTICAL_BAND`, in hundredths of the height.
pub band : BodyRegion → ℕ × ℕ
band head = (0, 35)
band face = (0, 35)
band torso = (20, 65)
band waist = (45, 75)
band legs = (60, 100)
band background = (0, 100)

scaled : ℕ → ℤ → ℤ
scaled zero a = pos 0
scaled (suc n) a = a +ℤ scaled n a

-- The middle of the box is in the band: `(y0 + y1) / 2 / height`, by its cross product.
pub region_compatible : BodyRegion → Bbox → ℕ → Bool
unfolding band scaled
region_compatible r b zero = (band r).0 == 0
region_compatible r b (suc h) =
    let center = scaled 100 (b.y0 +ℤ b.y1) in
    leb_ℤ (pos ((band r).0 * (2 * suc h))) center && leb_ℤ center (pos ((band r).1 * (2 * suc h)))

abbrev pub with_verdict : Verdict → CheckResult → CheckResult
with_verdict v r = record r { verdict = v }

-- `{result.id: result for result in results}.get(k)`: the last one of the id.
pub result_by_id : String → List CheckResult → Option CheckResult
result_by_id k [] = none
result_by_id k (r ∷ rs) = elim (result_by_id k rs) [
  | some q ↦ some q
  | none ↦ if str_eq r.id k then some r else none
]

pub check_for : String → List FidelityCheck → Option FidelityCheck
check_for k [] = none
check_for k (c ∷ cs) = elim (check_for k cs) [
  | some d ↦ some d
  | none ↦ if str_eq c.id k then some c else none
]

pub merge_result : CheckResult → Option CheckResult → CheckResult
merge_result a none = a
merge_result a (some b) =
    if passed a || passed b then (if passed a && passed b then a else with_verdict pass a) else a

pub apply_two_pass_gate : List CheckResult → List CheckResult → List CheckResult
unfolding merge_result result_by_id
apply_two_pass_gate pass_a pass_b = map (λ a. merge_result a (result_by_id a.id pass_b)) pass_a

pub fail_at : FidelityCheck → ℕ → ℕ → Option Bbox → CheckResult → CheckResult
unfolding too_large region_compatible
fail_at c w h none r = with_verdict pass r
fail_at c w h (some b) r =
    if too_large w h b
    then with_verdict pass r
    else if region_compatible c.region_hint b h
    then r
    else with_verdict pass r

pub apply_fail_side_gates : CheckResult → FidelityCheck → ℕ → ℕ → CheckResult
unfolding fail_at
apply_fail_side_gates r c w h = if is_fail r.verdict then fail_at c w h r.region_bbox r else r

abbrev pub is_pass : Verdict → Bool
is_pass pass = true
is_pass _ = false

pub pass_at : Settings → ℕ → ℕ → Option Bbox → CheckResult → CheckResult
unfolding too_large
pass_at s w h none r = with_verdict unverified r
pass_at s w h (some b) r =
    if too_large w h b
    then with_verdict unverified r
    else if ltb r.confidence s.misaka_fidelity_pass_min_confidence
    then with_verdict unverified r
    else r

pub apply_localized_pass_gate : CheckResult → ℕ → ℕ → Settings → CheckResult
unfolding pass_at
apply_localized_pass_gate r w h s = if is_pass r.verdict then pass_at s w h r.region_bbox r else r

pub apply_anti_hallucination_gates : CheckResult → FidelityCheck → ℕ → ℕ → Settings → CheckResult
unfolding apply_fail_side_gates apply_localized_pass_gate
apply_anti_hallucination_gates r c w h s =
    apply_localized_pass_gate (apply_fail_side_gates r c w h) w h s

-- The results of known checks, gated.
pub gate_found :
    Option FidelityCheck → CheckResult → ℕ → ℕ → Settings → List CheckResult → List CheckResult
unfolding apply_anti_hallucination_gates
gate_found none r w h s rest = rest
gate_found (some c) r w h s rest = apply_anti_hallucination_gates r c w h s ∷ rest

pub gate_results : List CheckResult → List FidelityCheck → ℕ → ℕ → Settings → List CheckResult
unfolding gate_found check_for
gate_results [] cs w h s = []
gate_results (r ∷ rs) cs w h s = gate_found (check_for r.id cs) r w h s (gate_results rs cs w h s)

pub is_fine_detail_check : CheckResult → List FidelityCheck → Bool
unfolding check_for
is_fine_detail_check r cs = elim (check_for r.id cs) [ none ↦ false | some c ↦ c.fine_detail ]

pub needs_opinion : List FidelityCheck → CheckResult → Bool
unfolding is_fine_detail_check
needs_opinion cs r = is_unverified r.verdict || (is_pass r.verdict && is_fine_detail_check r cs)

pub mark_unverified_no_opinion : CheckResult → CheckResult
mark_unverified_no_opinion r = if is_unverified r.verdict then r else with_verdict unverified r

pub reconcile_second_opinion : CheckResult → Option CheckResult → CheckResult
unfolding mark_unverified_no_opinion
reconcile_second_opinion r none = mark_unverified_no_opinion r
reconcile_second_opinion r (some q) = if passed q then with_verdict pass r else with_verdict fail r

-- The results with the opinions, where there are any. `ids` are the checks that need one.
pub reconcile : List String → Option (List CheckResult) → CheckResult → CheckResult
unfolding mark_unverified_no_opinion reconcile_second_opinion result_by_id
reconcile ids none r = if any (λ i. str_eq i r.id) ids then mark_unverified_no_opinion r else r
reconcile ids (some os) r =
    if any (λ i. str_eq i r.id) ids then reconcile_second_opinion r (result_by_id r.id os) else r

pub checks_of : List CheckResult → List FidelityCheck → List FidelityCheck
unfolding check_for
checks_of [] cs = []
checks_of (r ∷ rs) cs =
    let rest = checks_of rs cs in elim (check_for r.id cs) [ none ↦ rest | some c ↦ c ∷ rest ]

module _ (providers : Providers) where
  -- `_SECOND_OPINION_HANDLERS`.
  pub second_opinion_handler : String → Option Critic
  second_opinion_handler mode =
      if str_eq mode "gemini"
      then some providers.gemini
      else if str_eq mode "openai"
      then some providers.openai
      else none

  pub ask : Critic → List FidelityCheck → ℕ → Option (List CheckResult) × ℕ
  ask critic cs n = (critic n cs, suc n)

  pub call_second_opinion :
      String → List FidelityCheck → NetworkState → ℕ → Option (List CheckResult) × ℕ
  unfolding second_opinion_handler ask
  call_second_opinion mode [] net n = (none, n)
  call_second_opinion mode (c ∷ cs) net n = elim (second_opinion_handler mode) [
    | none ↦ (none, n)
    | some critic ↦ if state_eq net online then ask critic (c ∷ cs) n else (none, n)
  ]

  pub apply_second_opinion_gate :
      Settings → List CheckResult → List FidelityCheck → NetworkState → Critique (List CheckResult)
  unfolding needs_opinion call_second_opinion reconcile checks_of
  apply_second_opinion_gate s rs cs net n =
      let mode = s.misaka_fidelity_second_opinion in
      let needy = select (needs_opinion cs) rs in
      let o = call_second_opinion mode (checks_of needy cs) net n in
      if str_eq mode "off"
      then (ok rs, n)
      else (ok (map (reconcile (map (λ r. r.id) needy) o.0) rs), o.1)

  -- `provider_handlers` and `_CLOUD_PROVIDERS`.
  pub provider_handler : String → Option Critic
  provider_handler p =
      if str_eq p "ollama"
      then some providers.ollama
      else if str_eq p "openai" || str_eq p "chatgpt"
      then some providers.openai
      else if str_eq p "gemini"
      then some providers.gemini
      else none

  pub is_cloud : String → Bool
  is_cloud p = str_eq p "openai" || str_eq p "chatgpt" || str_eq p "gemini"

  pub first_answer :
      Option (List CheckResult) → Critique (List CheckResult) → Critique (List CheckResult)
  first_answer (some rs) next n = (ok rs, n)
  first_answer none next n = next n

  pub run_single_pass :
      List String → List FidelityCheck → NetworkState → Critique (List CheckResult)
  unfolding provider_handler is_cloud first_answer
  run_single_pass [] cs net n = (err no_provider, n)
  run_single_pass (p ∷ ps) cs net n =
      let skip = run_single_pass ps cs net n in
      elim (provider_handler p) [
        | none ↦ skip
        | some critic ↦
            if is_cloud p && not (state_eq net online)
            then skip
            else first_answer (critic n cs) (run_single_pass ps cs net) (suc n)
      ]

  pub critique : Settings → List FidelityCheck → ℕ → ℕ → NetworkState → Critique (List CheckResult)
  unfolding run_single_pass apply_two_pass_gate gate_results apply_second_opinion_gate
  critique s cs w h net = do
    a ← run_single_pass s.llm_provider_order cs net
    b ← run_single_pass s.llm_provider_order cs net
    apply_second_opinion_gate s (gate_results (apply_two_pass_gate a b) cs w h s) cs net

-- ===== src/Vision/Opinions.antt =====
-- core/llm/vision.py: which results ask for a second opinion, and what it does to them.
use misaka_asset_gene.Prelude.{
  ◌∙◌, ℕ, ◌≡◌, refl, ap, subst, inl, inr, ◌⊎◌, Bool, true, false, Bool-cases, Option, Option-cases,
  none, some, some-injective, List, [], ◌∷◌, map, select, any, ◌||◌, ◌&&◌, String, str_eq, eq_iff,
  arith, if◌then◌else◌,
}
use misaka_asset_gene.Network.{NetworkState, online, state_eq}
use misaka_asset_gene.Fidelity.{Verdict, pass, fail, unverified, is_unverified, CheckResult, passed}
use misaka_asset_gene.Fidelity.Selection.{In}
use misaka_asset_gene.Fidelity.Planning.{FidelityCheck}
use misaka_asset_gene.Vision.Verdicts.{id_of}
use misaka_asset_gene.Vision.{
  Critic, Providers, is_pass, with_verdict, result_by_id, check_for, is_fine_detail_check,
  needs_opinion, mark_unverified_no_opinion, reconcile_second_opinion, reconcile,
  second_opinion_handler, call_second_opinion, ask,
}

-- The second opinion passes the check, or it does not.
abbrev pub Opinion : Option (List CheckResult) → Bool → String → Type 0
Opinion o b k =
    (os : List CheckResult) × (q : CheckResult) × (o ≡ some os)
    × (result_by_id k os ≡ some q)
    × (passed q ≡ b)

-- It says nothing on the check.
abbrev pub Unanswered : Option (List CheckResult) → String → Type 0
Unanswered o k = (os : List CheckResult) → o ≡ some os → result_by_id k os ≡ none

-- A result that is not to be trusted without a second opinion: one that is not verified, or a `pass` of
-- a check of a fine detail.
abbrev pub Doubtful : List FidelityCheck → CheckResult → Type 0
Doubtful cs r =
    (r.verdict ≡ unverified)
    ⊎ ((r.verdict ≡ pass)
        × ((c : FidelityCheck) × (check_for r.id cs ≡ some c) × (c.fine_detail ≡ true)))

-- The verdict that a boolean stands for.
abbrev pub verdict_of : Bool → Verdict
verdict_of b = if b then pass else fail

abbrev pub asks : List String → CheckResult → Bool
asks ids r = any (λ i. str_eq i r.id) ids

fine_detail_found :
    (cs : List FidelityCheck) (r : CheckResult)
    → is_fine_detail_check r cs ≡ true
    → (c : FidelityCheck) × (check_for r.id cs ≡ some c) × (c.fine_detail ≡ true)
unfolding is_fine_detail_check
fine_detail_found cs r h = elim (Option-cases (check_for r.id cs)) [
  | inl e ↦ absurd (cc (rw (is_fine_detail_check, e) at h))
  | inr (c, e) ↦ (c, e, (rw (is_fine_detail_check, e) at h))
]

pub needs_opinion-Doubtful :
    (cs : List FidelityCheck) (r : CheckResult) → needs_opinion cs r ≡ true → Doubtful cs r
unfolding needs_opinion
needs_opinion-Doubtful cs r h = by_verdict r.verdict refl h
  where
    by_verdict :
        (v : Verdict) → r.verdict ≡ v → needs_opinion cs (with_verdict v r) ≡ true → Doubtful cs r
    by_verdict unverified e h = inl e
    by_verdict pass e h = inr (e, fine_detail_found cs (with_verdict pass r) h)
    by_verdict fail e h = absurd (cc)

found_fine_detail :
    (cs : List FidelityCheck) (r : CheckResult) (c : FidelityCheck)
    → check_for r.id cs ≡ some c
    → c.fine_detail ≡ true
    → is_fine_detail_check r cs ≡ true
unfolding is_fine_detail_check
found_fine_detail cs r c f g = rw (is_fine_detail_check, f) g

pub Doubtful-needs_opinion :
    (cs : List FidelityCheck) (r : CheckResult) → Doubtful cs r → needs_opinion cs r ≡ true
unfolding needs_opinion
Doubtful-needs_opinion cs r (inl e) =
    ap (λ v. is_unverified v || (is_pass v && is_fine_detail_check r cs)) e
Doubtful-needs_opinion cs r (inr (e, (c, f, g))) =
    ap (λ v. is_unverified v || (is_pass v && is_fine_detail_check r cs)) e
    ∙ found_fine_detail cs r c f g

marked :
    (r : CheckResult) (v : Verdict)
    → mark_unverified_no_opinion (with_verdict v r) ≡ with_verdict unverified r
unfolding mark_unverified_no_opinion
marked r pass = refl
marked r fail = refl
marked r unverified = refl

-- What the second opinion does to a result: nothing where it is not asked, else its verdict is that of
-- the second opinion, or `unverified` where that has none.
pub reconcile_cases :
    (ids : List String) (o : Option (List CheckResult)) (r : CheckResult)
    → ((asks ids r ≡ false) × (reconcile ids o r ≡ r))
      ⊎ ((asks ids r ≡ true)
          × (((b : Bool) × Opinion o b r.id × (reconcile ids o r ≡ with_verdict (verdict_of b) r))
              ⊎ (Unanswered o r.id × (reconcile ids o r ≡ with_verdict unverified r))))
unfolding reconcile
reconcile_cases ids none r = elim (Bool-cases (asks ids r)) [
  | inr e ↦ inl (e, rw e refl)
  | inl e ↦ inr (e, inr ((λ os q. absurd (cc)), rw e (marked r r.verdict)))
]
reconcile_cases ids (some os) r = elim (Bool-cases (asks ids r)) [
  | inr e ↦ inl (e, rw e refl)
  | inl e ↦ inr (e, answered e (result_by_id r.id os) refl)
]
  where
    answered :
        asks ids r ≡ true
        → (a : Option CheckResult) → result_by_id r.id os ≡ a
        → ((b : Bool) × Opinion (some os) b r.id
            × (reconcile ids (some os) r ≡ with_verdict (verdict_of b) r))
          ⊎ (Unanswered (some os) r.id × (reconcile ids (some os) r ≡ with_verdict unverified r))
    answered e none f = inr (
      (λ ps q. subst (λ x. result_by_id r.id x ≡ none) (some-injective q) f),
      rw (e, f) (marked r r.verdict),
    )
    answered e (some q) f = elim (Bool-cases (passed q)) [
      | inl g ↦ inl (true, (os, q, refl, f, g), rw (e, f, reconcile_second_opinion, g) refl)
      | inr g ↦ inl (false, (os, q, refl, f, g), rw (e, f, reconcile_second_opinion, g) refl)
    ]

-- A result that needs an opinion has its id among those that ask for one.
pub asks_needed :
    (cs : List FidelityCheck) (rs : List CheckResult) (r : CheckResult)
    → In r rs
    → needs_opinion cs r ≡ true
    → asks (map (λ x. x.id) (select (needs_opinion cs) rs)) r ≡ true
asks_needed cs [] r i h = absurd i
asks_needed cs (x ∷ rs) r (inl e) h =
    let g : needs_opinion cs x ≡ true = subst (λ y. needs_opinion cs y ≡ true) e h in
    rw g (ground (arith, eq_iff x.id r.id, ap (λ y. y.id) e))
asks_needed cs (x ∷ rs) r (inr i) h = elim (Bool-cases (needs_opinion cs x)) [
  | inl e ↦ rw e (ground (arith, asks_needed cs rs r i h))
  | inr e ↦ rw e (asks_needed cs rs r i h)
]

pub reconcile_ids :
    (ids : List String) (o : Option (List CheckResult)) (rs : List CheckResult)
    → map id_of (map (reconcile ids o) rs) ≡ map id_of rs
reconcile_ids ids o [] = refl
reconcile_ids ids o (r ∷ rs) =
    ap (λ k. k ∷ map id_of (map (reconcile ids o) rs)) same
    ∙ ap (λ l. r.id ∷ l) (reconcile_ids ids o rs)
  where
    same : (reconcile ids o r).id ≡ r.id
    same = elim (reconcile_cases ids o r) [
      | inl (a, e) ↦ ap id_of e
      | inr (a, inl (b, p, e)) ↦ ap id_of e
      | inr (a, inr (p, e)) ↦ ap id_of e
    ]

-- An id is among those that ask only for a result that is doubtful.
pub asks-Doubtful :
    (cs : List FidelityCheck) (rs : List CheckResult) (r : CheckResult)
    → asks (map (λ x. x.id) (select (needs_opinion cs) rs)) r ≡ true
    → (d : CheckResult) × In d rs × (d.id ≡ r.id) × Doubtful cs d
asks-Doubtful cs [] r h = absurd (cc)
asks-Doubtful cs (x ∷ rs) r h = elim (Bool-cases (needs_opinion cs x)) [
  | inr e ↦ let (d, i, f, g) = asks-Doubtful cs rs r (rw e at h) in (d, inr i, f, g)
  | inl e ↦ elim (Bool-cases (str_eq x.id r.id)) [
    | inl f ↦ (x, inl refl, ground (arith, f, eq_iff x.id r.id), needs_opinion-Doubtful cs x e)
    | inr f ↦ let (d, i, g, k) = asks-Doubtful cs rs r (rw (e, f) at h) in (d, inr i, g, k)
  ]
]

module _ (providers : Providers) (mode : String) (net : NetworkState) where
  -- The second provider has been asked online, at the call `n` and for these checks, and its answer
  -- passes the check or does not.
  abbrev pub Seconded : List FidelityCheck → ℕ → Bool → String → Type 0
  Seconded asked n b k =
      (critic : Critic) × (second_opinion_handler providers mode ≡ some critic)
      × (state_eq net online ≡ true)
      × Opinion (critic n asked) b k

  pub Opinion-Seconded :
      (b : Bool) (k : String) (cs : List FidelityCheck) (n : ℕ)
      → Opinion (call_second_opinion providers mode cs net n).0 b k
      → Seconded cs n b k
  unfolding call_second_opinion ask
  Opinion-Seconded b k [] n (os, q, e, f, p) = absurd (cc)
  Opinion-Seconded b k (c ∷ cs) n o = elim (Option-cases (second_opinion_handler providers mode)) [
    | inl f ↦ absurd (cc (rw (call_second_opinion, f) at o.2))
    | inr (critic, f) ↦ elim (Bool-cases (state_eq net online)) [
      | inl g ↦ (critic, f, g, (rw (call_second_opinion, f, g) at o))
      | inr g ↦ absurd (cc (rw (call_second_opinion, f, g) at o.2))
    ]
  ]

-- ===== src/Project/Cycles/Reported.antt =====
-- core/project/cross_project.py, `detect_cycles`: the walks it reports.
use misaka_asset_gene.Prelude.{
  ℕ, zero, suc, ◌≤◌, ◌≡◌, refl, sym, ap, ◌∙◌, subst, ◌⊎◌, inl, inr, ◌↔◌, true, false, Bool-cases,
  Option-cases, some, List, [], ◌∷◌, ◌++◌, length, arith,
}
use mathlib.Core.Bool.{false≢true}
use mathlib.Core.List.{Memᴰ, append_assoc}
use mathlib.Core.List.Memᴰ
use misaka_asset_gene.Network.{Text, text_eq}
use misaka_asset_gene.Network.Texts.{text_eq_sym}
use misaka_asset_gene.Project.References.{Reference, parse_reference}
use misaka_asset_gene.Project.Cycles.{is_among, cycles_from, detect_from, detect_cycles}
use misaka_asset_gene.Project.Cycles.Walks.{Edge, Closes, unseen, unseen_lt, unseen-nil}

pub fresh_after :
    (u v : Text) (visited : List Text)
    → text_eq v u ≡ false
    → is_among v visited ≡ false
    → is_among v (u ∷ visited) ≡ false
unfolding is_among
fresh_after u v visited other new = ground (arith, text_eq_sym v u other, new)

module _ (projects : List Text) (refs : Text → List Text) where
  -- What follows the reference of `u` to the project `v`.
  After : List Text → Text → Text → List Text → Type 0
  After visited u v rest =
      ((is_among v visited ≡ true) × (rest ≡ []))
      ⊎ ((is_among v visited ≡ false) × Closes projects refs (u ∷ visited) v rest)

  -- The reference `r` of `u` leads to the report of `c`.
  Leads : List Text → List Text → Text → List Text → Text → Type 0
  unfolding After
  Leads visited path u c r =
      (d : Reference) × (parse_reference r ≡ some d)
      × (text_eq d.project u ≡ false)
      × (rest : List Text) × (c ≡ path ++ (d.project ∷ rest))
      × After visited u d.project rest

  Found : List Text → List Text → Text → List Text → List Text → Type 0
  Found visited path u c rs = (r : Text) × Memᴰ r rs × Leads visited path u c r

  Found-tail :
      (visited path : List Text) (u : Text) (c : List Text) (r : Text) (rs : List Text)
      → Found visited path u c rs
      → Found visited path u c (r ∷ rs)
  unfolding Found
  Found-tail visited path u c r rs (s, m, h) = (s, Memᴰ.tail m, h)

  -- What the search from another project is to report.
  Sought : List Text → List Text → Text → (Text → List (List Text)) → Type 0
  Sought visited path u go =
      (c : List Text) (v : Text)
      → text_eq v u ≡ false
      → is_among v visited ≡ false
      → Memᴰ c (go v) ↔ (
          (rest : List Text) × (c ≡ path ++ (v ∷ rest)) × Closes projects refs (u ∷ visited) v rest)

  module _ (visited path : List Text) (u : Text) (go : Text → List (List Text))
      (below : Sought visited path u go) where
    found :
        (c : List Text) (rs : List Text)
        → Memᴰ c (cycles_from go u visited path rs)
        → Found visited path u c rs
    unfolding cycles_from Found Leads After Sought
    found c [] m = absurd (Memᴰ.not-nil m)
    found c (r ∷ rs) m = elim (Option-cases (parse_reference r)) [
      | inl e ↦ Found-tail visited path u c r rs (found c rs (rw (cycles_from, e) at m))
      | inr (d, e) ↦ elim (Bool-cases (text_eq d.project u)) [
        | inl same ↦ Found-tail visited path u c r rs (found c rs (rw (cycles_from, e, same) at m))
        | inr other ↦ elim (Bool-cases (is_among d.project visited)) [
          | inl seen ↦ elim (Memᴰ.cases_cons (rw (cycles_from, e, other, seen) at m)) [
            | inl q ↦ (r, Memᴰ.head refl, (d, e, other, [], q, inl (seen, refl)))
            | inr m' ↦ Found-tail visited path u c r rs (found c rs m')
          ]
          | inr new ↦
              elim (Memᴰ.append_cases (go d.project) (rw (cycles_from, e, other, new) at m)) [
                | inl i ↦
                    let (rest, q, k) = (below c d.project other new).0 i in
                    (r, Memᴰ.head refl, (d, e, other, rest, q, inr (new, k)))
                | inr m' ↦ Found-tail visited path u c r rs (found c rs m')
              ]
        ]
      ]
    ]

    reported :
        (c : List Text) (rs : List Text)
        → Found visited path u c rs
        → Memᴰ c (cycles_from go u visited path rs)
    unfolding cycles_from Found Leads After Sought
    reported c [] (r, m, h) = absurd (Memᴰ.not-nil m)
    reported c (r ∷ rs) (s, Memᴰ.head p, (d, e, other, rest, q, inl (seen, last))) =
        let e' : parse_reference r ≡ some d = ap parse_reference (sym p) ∙ e in
        rw (cycles_from, e', other, seen) (Memᴰ.head (q ∙ ap (λ x. path ++ (d.project ∷ x)) last))
    reported c (r ∷ rs) (s, Memᴰ.head p, (d, e, other, rest, q, inr (new, k))) =
        let e' : parse_reference r ≡ some d = ap parse_reference (sym p) ∙ e in
        rw (cycles_from, e', other, new)
          (Memᴰ.append_left _ ((below c d.project other new).1 (rest, q, k)))
    reported c (r ∷ rs) (s, Memᴰ.tail m, h) =
        let later = reported c rs (s, m, h) in
        elim (Option-cases (parse_reference r)) [
          | inl e ↦ rw (cycles_from, e) later
          | inr (d, e) ↦ elim (Bool-cases (text_eq d.project u)) [
            | inl same ↦ rw (cycles_from, e, same) later
            | inr other ↦ elim (Bool-cases (is_among d.project visited)) [
              | inl seen ↦ rw (cycles_from, e, other, seen) (Memᴰ.tail later)
              | inr new ↦ rw (cycles_from, e, other, new) (Memᴰ.append_right (go d.project) later)
            ]
          ]
        ]

  Closes-here :
      (visited : List Text) (u : Text) (rest : List Text)
      → Closes projects refs visited u rest
      → is_among u projects ≡ true
  unfolding Closes Edge
  Closes-here visited u [] k = absurd k
  Closes-here visited u (v ∷ rest) (edge, more) = edge.0

  -- A report by way of a reference is a walk that closes, and the reverse.
  found-Closes :
      (visited path : List Text) (u : Text) (c : List Text)
      → is_among u projects ≡ true
      → Found visited path u c (refs u)
        ↔ ((rest : List Text) × (c ≡ path ++ rest) × Closes projects refs visited u rest)
  unfolding Closes Edge Found Leads After
  found-Closes visited path u c here = (forth, λ h. back h.0 h.1 h.2)
    where
      forth :
          Found visited path u c (refs u)
          → (rest : List Text) × (c ≡ path ++ rest) × Closes projects refs visited u rest
      forth (r, m, (d, e, other, rest, q, after)) =
          (d.project ∷ rest, q, ((here, r, m, d, e, other, refl), after))

      back :
          (rest : List Text)
          → c ≡ path ++ rest
          → Closes projects refs visited u rest
          → Found visited path u c (refs u)
      back [] q k = absurd k
      back (v ∷ rest) q ((h, r, m, d, e, other, same), after) = (
        r,
        m,
        (
          d,
          e,
          other,
          rest,
          q ∙ ap (λ x. path ++ (x ∷ rest)) same,
          subst (λ x. After visited u x rest) same after,
        ),
      )

  Reports : ℕ → Type 0
  Reports fuel =
      (u : Text) (visited path c : List Text)
      → is_among u visited ≡ false
      → unseen projects visited ≤ fuel
      → Memᴰ c (detect_from projects refs fuel u visited path)
        ↔ ((rest : List Text) × (c ≡ path ++ rest) × Closes projects refs visited u rest)

  sought :
      (fuel : ℕ) (u : Text) (visited path : List Text)
      → Reports fuel
      → is_among u visited ≡ false
      → is_among u projects ≡ true
      → unseen projects visited ≤ suc fuel
      → Sought visited path u
          (λ d. detect_from projects refs fuel d (u ∷ visited) (path ++ (d ∷ [])))
  unfolding Sought Reports
  sought fuel u visited path ih fresh here enough c v other new =
      let enough' : unseen projects (u ∷ visited) ≤ fuel =
        omega (arith, unseen_lt projects visited u here fresh, enough) in
      let h' =
        ih v (u ∷ visited) (path ++ (v ∷ [])) c (fresh_after u v visited other new) enough' in
      (
        λ m. let h = h'.0 m in (h.0, h.1 ∙ append_assoc path (v ∷ []) h.0, h.2),
        λ h. h'.1 (h.0, h.1 ∙ sym (append_assoc path (v ∷ []) h.0), h.2),
      )

  detect_from-reported : (fuel : ℕ) → Reports fuel
  unfolding detect_from Reports
  detect_from-reported zero u visited path c fresh enough = (
    λ m. absurd (Memᴰ.not-nil m),
    λ h.
        absurd (
          omega
            (arith, unseen_lt projects visited u (Closes-here visited u h.0 h.2) fresh, enough)),
  )
  detect_from-reported (suc fuel) u visited path c fresh enough =
      elim (Bool-cases (is_among u projects)) [
        | inl here ↦
            let below = sought fuel u visited path (detect_from-reported fuel) fresh here enough in
            let forth = found visited path u _ below c (refs u) in
            let back = reported visited path u _ below c (refs u) in
            rw here (
              λ m. (found-Closes visited path u c here).0 (forth m),
              λ h. back ((found-Closes visited path u c here).1 h),
            )
        | inr away ↦ rw away (
          λ m. absurd (Memᴰ.not-nil m),
          λ h. absurd (false≢true (sym away ∙ Closes-here visited u h.0 h.2)),
        )
      ]

  -- `detect_cycles` reports, from the project itself, exactly the walks along references between the
  -- projects that have a directory that stop at the first project that is on the way already, the
  -- project before it aside; the fuel is always enough.
  pub detect_cycles_iff :
      (u : Text) (c : List Text)
      → Memᴰ c (detect_cycles projects refs u)
        ↔ ((rest : List Text) × (c ≡ u ∷ rest) × Closes projects refs [] u rest)
  unfolding detect_cycles Reports
  detect_cycles_iff u c =
      detect_from-reported (suc (length projects)) u [] (u ∷ []) c refl
        (omega (arith, unseen-nil projects))

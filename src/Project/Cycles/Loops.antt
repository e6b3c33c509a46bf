-- ===== src/Project/Cycles/Loops.antt =====
-- core/project/cross_project.py, `detect_cycles`: a report stands for a loop of references, and every loop
-- is reported.
use misaka_asset_gene.Prelude.{
  ℕ, zero, suc, ◌≤◌, ◌<◌, ◌≡◌, refl, sym, subst, inl, inr, ◌↔◌, true, false, Bool-cases, List, [],
  ◌∷◌, ◌++◌, ltb, ltb→lt, List-cases, length, length-append, arith,
}
use mathlib.Core.Bool.{false≢true}
use mathlib.Core.List.{Memᴰ}
use mathlib.Core.List.Memᴰ
use misaka_asset_gene.Network.{Text, text_eq}
use misaka_asset_gene.Network.Texts.{text_eq_sound}
use misaka_asset_gene.Project.Cycles.{is_among, detect_cycles}
use misaka_asset_gene.Project.Cycles.Walks.{Edge, Walk, Closes, unseen, unseen_lt, unseen-nil}
use misaka_asset_gene.Project.Cycles.Reported.{detect_cycles_iff, fresh_after}

module _ (projects : List Text) (refs : Text → List Text) where
  -- A walk from one project to another.
  Route : Text → List Text → Text → Type 0
  Route u [] w = u ≡ w
  Route u (v ∷ vs) w = Edge projects refs u v × Route v vs w

  Route-append :
      (u v w : Text) (vs ws : List Text) → Route u vs v → Route v ws w → Route u (vs ++ ws) w
  unfolding Route
  Route-append u v w [] ws p q = subst (λ x. Route x ws w) (sym p) q
  Route-append u v w (x ∷ vs) ws (e, p) q = (e, Route-append x v w vs ws p q)

  Route-Walk : (u w : Text) (vs : List Text) → Route u vs w → Walk projects refs u vs
  unfolding Route Walk
  Route-Walk u w [] p = tt
  Route-Walk u w (v ∷ vs) (e, p) = (e, Route-Walk v w vs p)

  another : (u v : Text) → Edge projects refs u v → text_eq v u ≡ false
  unfolding Edge
  another u v (here, r, m, d, q, other, same) = subst (λ x. text_eq x u ≡ false) (sym same) other

  -- Walks that are too long close.
  long-Closes :
      (visited : List Text) (u : Text) (vs : List Text)
      → is_among u visited ≡ false
      → unseen projects visited < length vs
      → Walk projects refs u vs
      → (ws : List Text) × Closes projects refs visited u ws
  unfolding Walk Closes Edge
  long-Closes visited u [] fresh long w = absurd (omega (arith, long))
  long-Closes visited u (v ∷ vs) fresh long (e, w) = elim (Bool-cases (is_among v visited)) [
    | inl seen ↦ (v ∷ [], (e, inl (seen, refl)))
    | inr new ↦
        let less = unseen_lt projects visited u e.0 fresh in
        let other : text_eq v u ≡ false = another u v e in
        let (ws, k) =
          long-Closes (u ∷ visited) v vs (fresh_after u v visited other new)
            (omega (arith, less, long)) w in
        (v ∷ ws, (e, inr (new, k)))
  ]

  -- Every project on the way leads to where the way has come.
  LeadsTo : List Text → Text → Type 0
  unfolding Route
  LeadsTo visited u = (x : Text) → is_among x visited ≡ true → (vs : List Text) × Route x vs u

  LeadsTo-step :
      (visited : List Text) (u v : Text)
      → LeadsTo visited u
      → Edge projects refs u v
      → LeadsTo (u ∷ visited) v
  unfolding LeadsTo is_among Route
  LeadsTo-step visited u v way e x m = elim (Bool-cases (text_eq u x)) [
    | inl here ↦ (v ∷ [], (subst (λ y. Edge projects refs y v) (text_eq_sound u x here) e, refl))
    | inr there ↦
        let (vs, p) = way x (ground (arith, there, m)) in
        (vs ++ (v ∷ []), Route-append x u v vs (v ∷ []) p (e, refl))
  ]

  -- A walk to a project, and a loop there.
  Loop : Text → Type 0
  unfolding Route
  Loop u = (v : Text) × (vs ws : List Text) × Route u vs v × Route v ws v × (0 < length ws)

  Closes-Loop :
      (visited : List Text) (u : Text) (vs : List Text)
      → LeadsTo visited u
      → Closes projects refs visited u vs
      → Loop u
  unfolding Closes Loop LeadsTo Route
  Closes-Loop visited u [] way k = absurd k
  Closes-Loop visited u (v ∷ vs) way (e, inl (seen, last)) =
      let (ws, p) = way v seen in
      (
        v,
        v ∷ [],
        ws ++ (v ∷ []),
        (e, refl),
        Route-append v u v ws (v ∷ []) p (e, refl),
        omega (arith, length-append ws (v ∷ [])),
      )
  Closes-Loop visited u (v ∷ vs) way (e, inr (new, k)) =
      let (z, us, ws, p, q, n) =
        Closes-Loop (u ∷ visited) v vs (LeadsTo-step visited u v way e) k in
      (z, v ∷ us, ws, (e, p), q, n)

  -- A loop is walked as often as one likes.
  around :
      (v : Text) (ws : List Text)
      → Route v ws v
      → 0 < length ws
      → (n : ℕ) → (vs : List Text) × Route v vs v × (n ≤ length vs)
  unfolding Route
  around v ws p some_way zero = ([], refl, omega arith)
  around v ws p some_way (suc n) =
      let (vs, q, long) = around v ws p some_way n in
      (ws ++ vs, Route-append v v v ws vs p q, omega (arith, length-append ws vs, some_way, long))

  long-Walk :
      (u : Text) → Loop u → (n : ℕ) → (vs : List Text) × Walk projects refs u vs × (n ≤ length vs)
  unfolding Loop
  long-Walk u (v, us, ws, p, q, some_way) n =
      let (vs, r, long) = around v ws q some_way n in
      (
        us ++ vs,
        Route-Walk u v (us ++ vs) (Route-append u v v us vs p r),
        omega (arith, length-append us vs, long),
      )

  -- `detect_cycles` reports nothing exactly when no walk along references from the project, between
  -- projects that have a directory, has more steps than there are such projects: it misses no loop that
  -- the project leads to, through itself or not.
  pub detect_cycles-nil_iff :
      (u : Text)
      → (detect_cycles projects refs u ≡ [])
        ↔ ((vs : List Text) → Walk projects refs u vs → length vs ≤ length projects)
  unfolding is_among LeadsTo
  detect_cycles-nil_iff u = (short, none_found)
    where
      short :
          detect_cycles projects refs u ≡ []
          → (vs : List Text) → Walk projects refs u vs
          → length vs ≤ length projects
      short e vs w = elim (Bool-cases (ltb (length projects) (length vs))) [
        | inl long ↦
            let more : unseen projects [] < length vs =
              omega (arith, unseen-nil projects, ltb→lt (length projects) (length vs) long) in
            let (ws, k) = long-Closes [] u vs refl more w in
            absurd (
              Memᴰ.not-nil (rw e at ((detect_cycles_iff projects refs u (u ∷ ws)).1 (ws, refl, k))))
        | inr fits ↦ ground (arith, fits)
      ]

      none_found :
          ((vs : List Text) → Walk projects refs u vs → length vs ≤ length projects)
          → detect_cycles projects refs u ≡ []
      none_found h = elim (List-cases (detect_cycles projects refs u)) [
        | inl e ↦ e
        | inr (c, cs, e) ↦
            let (rest, q, k) = (detect_cycles_iff projects refs u c).0 (rw e (Memᴰ.head refl)) in
            let loop = Closes-Loop [] u rest (λ x m. absurd (false≢true m)) k in
            let (vs, w, long) = long-Walk u loop (suc (length projects)) in
            absurd (omega (arith, h vs w, long))
      ]

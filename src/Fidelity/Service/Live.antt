-- ===== src/Fidelity/Service/Live.antt =====
-- A run of the service comes back where the outside answers: no step of its own raises.
use misaka_asset_gene.Prelude.{
  ℕ, zero, suc, ◌<◌, String, ◌≡◌, refl, ◌∙◌, sym, inl, inr, true, false, Option, none, some, List,
  [], ◌∷◌, ◌++◌, All, any, select, str_eq, eq_iff, arith, Bool-cases, if◌then◌else◌, Result, ok,
  err, ltb,
}
use misaka_asset_gene.Prelude.Raising.{
  ◌>>=◌, Returns, Returns-Holds, Yields, Yields-then, Yields-bind,
}
use misaka_asset_gene.Network.{Text}
use misaka_asset_gene.Fidelity.{CheckResult}
use misaka_asset_gene.Fidelity.Planning.{FidelityCheck, RoundPlan, RefineRequest, plan_round}
use misaka_asset_gene.Fidelity.Store.{
  Loop, LoopRound, save_loop, append_round, latest_round, best_round, list_rounds,
}
use misaka_asset_gene.Fidelity.Service.{
  Io, World, ServiceError, asked, peek, stored, saved, handled, on_error, apply_outcome, Attempt,
  settle, attempt, run_plan, refine_from, run_refine_round, auto_rounds, run_auto_continue,
  is_awaiting, target_of, source_of, default_limits,
}
use misaka_asset_gene.Fidelity.Service.Auto.{Finished, Shown, run_auto_continue-Finished}

-- Every call to the outside is answered, and no id is given twice.
pub record Responsive (io : Io) : Type 0 where
  pub images : (n : ℕ) (a : String) → (x : ℕ × ℕ) × (io.read_asset_image n a ≡ ok x)
  pub critics :
      (n : ℕ) (a : String) (c : List FidelityCheck)
      → (x : List CheckResult) × (io.critique n a c ≡ ok x)
  pub masks : (n : ℕ) (p a : String) (q : RoundPlan) → (x : String) × (io.build_mask n p a q ≡ ok x)
  pub negatives : (n : ℕ) (a : String) → (x : Option Text) × (io.inherited_negative n a ≡ ok x)
  pub refines :
      (n : ℕ) (p a : String) (q : RefineRequest)
      → (x : String × String) × (io.refine n p a q ≡ ok x)
  pub fresh_ids : (n m : ℕ) → io.new_id n ≡ io.new_id m → n ≡ m

best_round-some :
    (rs : List LoopRound) (r : LoopRound) → (q : LoopRound) × (best_round (r ∷ rs) ≡ some q)
unfolding best_round
best_round-some rs r = by_rest (best_round rs)
  where
    by_rest :
        (o : Option LoopRound)
        → (q : LoopRound) × ((elim o [
          | none ↦ some r
          | some q ↦ if ltb r.round_index q.round_index then some q else some r
        ])
            ≡ some q)
    by_rest none = (r, refl)
    by_rest (some q) = elim (Bool-cases (ltb r.round_index q.round_index)) [
      | inl e ↦ (q, rw e)
      | inr e ↦ (r, rw e)
    ]

-- A round that is appended to a loop's rounds is found again.
best_round-append :
    (i : String) (r : LoopRound) (rs : List LoopRound)
    → r.loop_id ≡ i
    → (q : LoopRound) × (best_round (select (λ x. str_eq x.loop_id i) (rs ++ r ∷ [])) ≡ some q)
best_round-append i r [] e = rw ((eq_iff r.loop_id i).1 e) (best_round-some [] r)
best_round-append i r (x ∷ rs) e = elim (Bool-cases (str_eq x.loop_id i)) [
  | inl t ↦ rw t (best_round-some _ x)
  | inr t ↦ rw t (best_round-append i r rs e)
]

module _ (io : Io) (live : Responsive io) where
  -- The ids of the rounds so far come from calls that were made.
  abbrev Given : ℕ → List LoopRound → Type 0
  Given n rs = All (λ r. (k : ℕ) × (r.id ≡ io.new_id k) × (k < n)) rs

  -- What a round of the loop starts with: it has a round, and ids that were given.
  abbrev pub Started : Loop → World → Type 0
  Started l w =
      Given w.calls w.store.rounds × ((r : LoopRound) × (latest_round l.id w.store ≡ some r))

  Given-suc : (n : ℕ) (rs : List LoopRound) → Given n rs → Given (suc n) rs
  Given-suc n [] h = tt
  Given-suc n (r ∷ rs) ((k, e, b), h) = ((k, e, omega arith), Given-suc n rs h)

  Given-append :
      (n : ℕ) (rs : List LoopRound) (r : LoopRound)
      → r.id ≡ io.new_id n
      → Given n rs
      → Given (suc n) (rs ++ r ∷ [])
  Given-append n [] r e h = ((n, e, omega arith), tt)
  Given-append n (x ∷ rs) r e ((k, f, b), h) = ((k, f, omega arith), Given-append n rs r e h)

  unused :
      (n : ℕ) (rs : List LoopRound) → Given n rs → any (λ q. str_eq q.id (io.new_id n)) rs ≡ false
  unused n [] h = refl
  unused n (r ∷ rs) ((k, e, b), h) = elim (Bool-cases (str_eq r.id (io.new_id n))) [
    | inl t ↦ absurd (omega (arith, live.fresh_ids k n (sym e ∙ (eq_iff r.id (io.new_id n)).0 t)))
    | inr t ↦ rw t (unused n rs h)
  ]

  Yields-asked :
      {A : Type 0} (l : Loop) (f : ℕ → Result String A)
      → ((n : ℕ) → (a : A) × (f n ≡ ok a))
      → Yields (Started l) (λ _. Started l) (asked f)
  unfolding asked
  Yields-asked l f h = record {
    yields = λ w s. rw (h w.calls).1 (Given-suc w.calls w.store.rounds s.0, s.1);
  }

  Yields-saved : (l l₁ : Loop) → Yields (Started l) (λ _. Started l) (saved l₁)
  unfolding saved stored save_loop latest_round
  Yields-saved l l₁ = record { yields = λ w s. s }

  -- What a step of the round gives back with the loop: the same id, and what the next round starts with.
  abbrev pub Next : Loop → Loop → World → Type 0
  Next l l' w = (l'.id ≡ l.id) × Started l w

  settle-Yields :
      (l : Loop) (k : ℕ) (best : _) (a : Attempt)
      → Yields (Started l) (Next l) (settle io l k best a)
  unfolding settle asked stored append_round apply_outcome saved save_loop latest_round ◌>>=◌
  settle-Yields l k best a = record {
    yields = λ w s. rw (unused w.calls w.store.rounds s.0) (
      refl,
      (
        Given-append w.calls w.store.rounds _ refl s.0,
        best_round-append l.id _ w.store.rounds refl,
      ),
    );
  }

  handled-Returns :
      {A : Type 0} (l : Loop) (P : A → World → Type 0) (r : Result ServiceError A × World)
      → Returns P r
      → Returns P (handled l r)
  unfolding handled
  handled-Returns l P (ok a, w) h = h
  handled-Returns l P (err e, w) h = absurd h

  attempt-Yields :
      (l : Loop) (checks : List FidelityCheck) (target : String) (plan : RoundPlan)
      → Yields (Started l) (λ _. Started l) (attempt io l checks target plan)
  unfolding attempt
  attempt-Yields l checks target plan = Yields-bind _ _ (Yields-saved l _) λ _.
      Yields-bind _ _ (Yields-asked l _ (λ n. live.masks n l.project_id target plan)) λ mask.
        Yields-bind _ _ (Yields-saved l _) λ _.
          Yields-bind _ _ (Yields-asked l _ (λ n. live.negatives n target)) λ inherited.
            Yields-bind _ _ (Yields-asked l _ (λ n. live.refines n l.project_id target _)) λ made.
              Yields-bind _ _ (Yields-saved l _) λ _.
                Yields-bind _ _ (Yields-asked l _ (λ n. live.images n made.0)) λ _.
                  Yields-bind _ _ (Yields-asked l _ (λ n. live.critics n made.0 checks))
                    λ results. record { yields = λ w s. s }

  run_plan-Yields :
      (l : Loop) (checks : List FidelityCheck) (results : List CheckResult) (target : String)
      (plan : Option RoundPlan)
      → Yields (Started l) (Next l) (run_plan io l checks results target plan)
  unfolding run_plan on_error saved stored save_loop latest_round
  run_plan-Yields l checks results target none = record { yields = λ w s. (refl, s) }
  run_plan-Yields l checks results target (some plan) =
      Yields-then (λ _. Started l) (on_error l (attempt io l checks target plan)) _
        (record {
          yields = λ w s.
              handled-Returns l (λ _. Started l) (attempt io l checks target plan w)
                ((attempt-Yields l checks target plan).yields w s);
        })
        λ a w s. (settle-Yields l _ _ a).yields w s

  run_refine_round-Yields :
      (l : Loop) (checks : List FidelityCheck)
      → Yields (Started l) (Next l) (run_refine_round io l checks)
  unfolding run_refine_round refine_from peek ◌>>=◌
  run_refine_round-Yields l checks = record { yields = λ w s. rw s.1.1 (by_latest w s s.1.0) }
    where
      by_latest :
          (w : World)
          → Started l w
          → (r : LoopRound) → Returns (Next l) (refine_from io l checks (some r) w)
      by_latest w s latest =
          let target = target_of l latest in
          let results = (source_of l (list_rounds l.id w.store) latest).critic_results in
          let plan = λ (size : ℕ × ℕ).
            plan_round io.casefold (suc l.current_round) target checks results size.0 size.1
              default_limits in
          (Yields-bind {P = Next l} (asked (λ n. io.read_asset_image n target))
              (λ size. run_plan io l checks results target (plan size))
              (Yields-asked l _ (λ n. live.images n target))
              (λ size. run_plan-Yields l checks results target (plan size))).yields
            w s

  auto_rounds-Returns :
      (n : ℕ) (l : Loop) (checks : List FidelityCheck) (w : World)
      → Started l w
      → Returns (λ _ _. Unit {0}) (auto_rounds io n l checks w)
  unfolding auto_rounds
  auto_rounds-Returns zero l checks w s = tt
  auto_rounds-Returns (suc n) l checks w s = elim (Bool-cases (is_awaiting l.status)) [
    | inl e ↦ rw e (
        (Yields-then (Next l) {P = λ _ _. Unit {0}} (run_refine_round io l checks)
            (λ l'. auto_rounds io n l' checks) (run_refine_round-Yields l checks)
            λ l' w' r. auto_rounds-Returns n l' checks w' (rw r.0 r.1)).yields
          w s)
    | inr e ↦ rw e tt
  ]

  -- Where the outside answers each call and gives no id twice, an automatic run of a loop that has a
  -- round returns, and the loop has then stopped: before the guard on the number of rounds, given that
  -- a loop that waits has rounds left.
  pub run_auto_continue_stops :
      (l : Loop) (checks : List FidelityCheck) (w : World)
      → (is_awaiting l.status ≡ true → l.current_round < l.max_rounds)
      → Shown l w
      → Started l w
      → Returns (Finished l) (run_auto_continue io l checks w)
  unfolding run_auto_continue
  run_auto_continue_stops l checks w h q s =
      Returns-Holds (λ _ _. Unit {0}) (Finished l) (run_auto_continue io l checks w)
        (auto_rounds-Returns (suc l.max_rounds) l checks w s)
        (run_auto_continue-Finished io l checks w h q)

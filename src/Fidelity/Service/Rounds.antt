-- ===== src/Fidelity/Service/Rounds.antt =====
-- A round of the service against the life cycle of a loop: what a round that returns may do to the
-- loop's status, counter and best asset.
use misaka_asset_gene.Prelude.{
  ℕ, suc, ◌≤◌, ◌<◌, String, ◌≡◌, refl, inl, inr, ◌⊎◌, Option, none, some, List, arith, Bool-cases,
  ◌==◌, leb, ok,
}
use misaka_asset_gene.Prelude.Raising.{◌>>=◌, Holds, Keeps, Keeps-bind, Ensures, Ensures-bind}
use misaka_asset_gene.Prelude.Int.{ℤ, pos, ◌≤ℤ◌, ◌<ℤ◌, ltb_ℤ}
use misaka_asset_gene.Fidelity.{
  CheckResult, LoopStatus, awaiting_user, passed_all, stopped_max_rounds,
  stopped_regression_recovered, stopped_unverified, RoundOutcome, decide_round_outcome,
  summarize_pass_fail, summarize_verdicts,
}
use misaka_asset_gene.Fidelity.Planning.{FidelityCheck, RoundPlan, plan_round}
use misaka_asset_gene.Fidelity.Store.{
  Loop, LoopRound, get_loop, save_loop, saved_row, list_rounds, latest_round,
}
use misaka_asset_gene.Fidelity.Store.Claims.{get_loop-save_loop}
use misaka_asset_gene.Fidelity.Service.{
  Io, World, asked, peek, stored, saved, apply_outcome, Attempt, facts_of, no_plan_status, settle,
  attempt, run_plan, refine_from, run_refine_round, default_limits, target_of, source_of,
}
use misaka_asset_gene.Fidelity.Service.Posts.{
  Present, Keeps-asked, saved-Present, Keeps-on_error, Keeps-append_round,
}

pub record View : Type 0 where
  pub status : LoopStatus
  pub round : ℕ
  pub best_asset_id : String
  pub best_pass_count : ℤ

abbrev pub view : Loop → View
view l = record {
  status = l.status;
  round = l.current_round;
  best_asset_id = l.best_asset_id;
  best_pass_count = l.best_pass_count;
}

-- The status after the `k`-th round of at most `max`: on, up to the cap, or nothing left to repair.
abbrev pub After : ℕ → ℕ → LoopStatus → LoopStatus → Type 0
After max k on st =
    ((k < max) × (st ≡ on)) ⊎ ((max ≤ k) × (st ≡ stopped_max_rounds)) ⊎ (st ≡ stopped_unverified)

-- The life cycle: a round passes, improves on the best asset or goes back to it, or finds nothing left
-- to repair.
pub data RoundStep (max : ℕ) (v : View) : View → Type 0 where
  passes :
      (a : String) (n : ℕ)
      → RoundStep max v (record {
        status = passed_all;
        round = suc v.round;
        best_asset_id = a;
        best_pass_count = pos n;
      })
  improves :
      (st : LoopStatus) (a : String) (n : ℕ)
      → v.best_pass_count ≤ℤ pos n
      → After max (suc v.round) awaiting_user st
      → RoundStep max v
          (record { status = st; round = suc v.round; best_asset_id = a; best_pass_count = pos n })
  reverts :
      (st : LoopStatus) (n : ℕ)
      → pos n <ℤ v.best_pass_count
      → After max (suc v.round) stopped_regression_recovered st
      → RoundStep max v (record v { status = st; round = suc v.round })
  ends :
      (st : LoopStatus)
      → (st ≡ passed_all) ⊎ (st ≡ stopped_unverified)
      → RoundStep max v (record v { status = st })

abbrev outcome_view : RoundOutcome → ℕ → View
outcome_view o k = record {
  status = o.status;
  round = k;
  best_asset_id = o.best_asset_id;
  best_pass_count = o.best_pass_count;
}

-- The decision of a round is a step of the life cycle.
decide-RoundStep :
    (l : Loop) (a : Attempt)
    → RoundStep l.max_rounds (view l) (
        outcome_view
          (decide_round_outcome (facts_of l (suc l.current_round) l.best_pass_count a))
          (suc l.current_round))
unfolding decide_round_outcome facts_of
decide-RoundStep l a =
    let n = (summarize_pass_fail a.critic_results).0 in
    elim (Bool-cases ((summarize_verdicts a.critic_results).1 == 0)) [
      | inl e ↦ elim (Bool-cases ((summarize_verdicts a.critic_results).2 == 0)) [
        | inl u ↦ rw (e, u) (passes a.asset_id n)
        | inr u ↦ elim (Bool-cases (ltb_ℤ (pos n) l.best_pass_count)) [
          | inl g ↦ rw (e, u, g) (reverts stopped_unverified n (ground (arith, g)) (inr (inr refl)))
          | inr g ↦
              rw (e, u, g)
                (improves stopped_unverified a.asset_id n (ground (arith, g)) (inr (inr refl)))
        ]
      ]
      | inr e ↦ elim (Bool-cases (ltb_ℤ (pos n) l.best_pass_count)) [
        | inl g ↦ elim (Bool-cases (leb l.max_rounds (suc l.current_round))) [
          | inl c ↦
              rw (e, g, c)
                (reverts stopped_max_rounds n (ground (arith, g))
                  (inr (inl (ground (arith, c), refl))))
          | inr c ↦
              rw (e, g, c)
                (reverts stopped_regression_recovered n (ground (arith, g))
                  (inl (ground (arith, c), refl)))
        ]
        | inr g ↦ elim (Bool-cases (leb l.max_rounds (suc l.current_round))) [
          | inl c ↦
              rw (e, g, c)
                (improves stopped_max_rounds a.asset_id n (ground (arith, g))
                  (inr (inl (ground (arith, c), refl))))
          | inr c ↦
              rw (e, g, c)
                (improves awaiting_user a.asset_id n (ground (arith, g))
                  (inl (ground (arith, c), refl)))
        ]
      ]
    ]

-- What a round makes of a loop, in the object that it returns and in the table.
pub record Rounded (l l' : Loop) (w : World) : Type 0 where
  pub same_id : l'.id ≡ l.id
  pub same_project : l'.project_id ≡ l.project_id
  pub same_max : l'.max_rounds ≡ l.max_rounds
  pub step : RoundStep l.max_rounds (view l) (view l')
  pub row : Loop
  pub stored_row : get_loop l.project_id l.id w.store ≡ some row
  pub stored_view : view row ≡ view l'

saved-Rounded :
    (l : Loop) (v : View)
    → RoundStep l.max_rounds (view l) v
    → Ensures (Present l) (Rounded l) (
        saved (record l {
          status = v.status;
          current_round = v.round;
          best_asset_id = v.best_asset_id;
          best_pass_count = v.best_pass_count;
        }))
unfolding saved stored save_loop saved_row
saved-Rounded l v st = record {
  ensured = λ w p. record {
    same_id = refl;
    same_project = refl;
    same_max = refl;
    step = st;
    row = _;
    stored_row =
        get_loop-save_loop
          (record l {
            status = v.status;
            current_round = v.round;
            best_asset_id = v.best_asset_id;
            best_pass_count = v.best_pass_count;
          })
          p.0 w.store p.1;
    stored_view = refl;
  };
}

Keeps-status : (l : Loop) (st : LoopStatus) → Keeps (Present l) (saved (record l { status = st }))
Keeps-status l st = record { kept = λ w p. saved-Present (record l { status = st }) w p }

module _ (io : Io) where
  Keeps-attempt :
      (l : Loop) (checks : List FidelityCheck) (target : String) (plan : RoundPlan)
      → Keeps (Present l) (attempt io l checks target plan)
  unfolding attempt
  Keeps-attempt l checks target plan = Keeps-bind _ _ (Keeps-status l _) λ _.
      Keeps-bind _ _ (Keeps-asked l _) λ mask. Keeps-bind _ _ (Keeps-status l _) λ _.
        Keeps-bind _ _ (Keeps-asked l _) λ inherited. Keeps-bind _ _ (Keeps-asked l _) λ made.
          Keeps-bind _ _ (Keeps-status l _) λ _.
            Keeps-bind _ _ (Keeps-asked l _)
              λ _. Keeps-bind _ _ (Keeps-asked l _) λ results. record { kept = λ w p. p }

  settle-Rounded :
      (l : Loop) (a : Attempt)
      → Ensures (Present l) (Rounded l) (settle io l (suc l.current_round) l.best_pass_count a)
  unfolding settle apply_outcome
  settle-Rounded l a = Ensures-bind _ _ (Keeps-asked l (λ n. ok (io.new_id n))) λ i.
      Ensures-bind _ _ (Keeps-append_round l i l.id a.asset_id _ _ _ _ _ _)
        λ r. saved-Rounded l _ (decide-RoundStep l a)

  run_plan-Rounded :
      (l : Loop) (checks : List FidelityCheck) (results : List CheckResult) (target : String)
      (plan : Option RoundPlan)
      → Ensures (Present l) (Rounded l) (run_plan io l checks results target plan)
  unfolding run_plan
  run_plan-Rounded l checks results target none =
      saved-Rounded l (record (view l) { status = no_plan_status results })
        (ends (no_plan_status results) (ground arith))
  run_plan-Rounded l checks results target (some plan) =
      Ensures-bind _ _ (Keeps-on_error l _ (Keeps-attempt l checks target plan))
        λ a. settle-Rounded l a

  -- A round of the service that returns is a step of the loop's life cycle, and the table then holds
  -- the loop as it is returned.
  pub run_refine_round-Rounded :
      (l : Loop) (checks : List FidelityCheck)
      → Ensures (Present l) (Rounded l) (run_refine_round io l checks)
  unfolding run_refine_round refine_from peek ◌>>=◌
  run_refine_round-Rounded l checks = record {
    ensured = λ w p. by_latest w p (latest_round l.id w.store);
  }
    where
      by_latest :
          (w : World)
          → Present l w
          → (r : Option LoopRound) → Holds (Rounded l) (refine_from io l checks r w)
      by_latest w p none = tt
      by_latest w p (some latest) =
          let target = target_of l latest in
          let results = (source_of l (list_rounds l.id w.store) latest).critic_results in
          let plan = λ (size : ℕ × ℕ).
            plan_round io.casefold (suc l.current_round) target checks results size.0 size.1
              default_limits in
          (Ensures-bind {P = Rounded l} (asked (λ n. io.read_asset_image n target))
              (λ size. run_plan io l checks results target (plan size)) (Keeps-asked l _)
              (λ size. run_plan-Rounded l checks results target (plan size))).ensured
            w p

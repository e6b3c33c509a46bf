-- ===== src/Fidelity/Service/Requests.antt =====
-- core/consultant/fidelity_service.py: the requests `start_loop`, `advance` and `get`, with the claim of
-- a round and the locks.
pub mod Claimed
mod Examples
use misaka_asset_gene.Prelude.{
  ℕ, suc, String, Bool, true, false, not, Option, none, some, List, [], ◌∷◌, map, str_eq,
  if◌then◌else◌, select, any, Result, ok, err, pure,
}
use misaka_asset_gene.Prelude.Raising.{◌>>=◌, ◌>>◌}
use misaka_asset_gene.Fidelity.{passed, LoopStatus, pending_critique, building_mask}
use misaka_asset_gene.Fidelity.Planning.{FidelityCheck, RoundPlan, plan_round}
use misaka_asset_gene.Fidelity.Store.{Loop, LoopRound, create_loop, claim_round, list_rounds}
use misaka_asset_gene.Fidelity.Service.{
  Io, World, ServiceError, conflict, not_awaiting, Svc, asked, stored, is_awaiting,
  awaiting_statuses, target_of, source_of, default_limits, require_loop, sheet_checks,
  run_baseline_critique, run_refine_round, run_auto_continue,
}

-- `FidelityLoopStartRequest`, with `auto_continue` resolved by the route.
pub record StartRequest : Type 0 where
  pub character_sheet_id : String
  pub outfit_variant : String
  pub max_rounds : ℕ
  pub auto_continue : Bool
  pub mode : String

pub record LoopData : Type 0 where
  pub loop : Loop
  pub rounds : List LoopRound
  pub unresolved_check_ids : List String
  pub next_round_plan : Option RoundPlan

-- `rounds[-1]`.
pub last_round : List LoopRound → Option LoopRound
last_round [] = none
last_round (r ∷ rs) = elim (last_round rs) [ none ↦ some r | some q ↦ some q ]

pub unresolved_of : Option LoopRound → List String
unresolved_of none = []
unresolved_of (some r) = map (λ c. c.id) (select (λ c. not (passed c)) r.critic_results)

abbrev pub ok_or_none : {A : Type 0} → Result ServiceError (Option A) → Option A
ok_or_none (ok a) = a
ok_or_none (err e) = none

-- The lock of a loop is taken and given back.
abbrev pub acquire_lock : String → World → World
acquire_lock i w = record w { locks = i ∷ w.locks }

abbrev pub release_lock :
    {A : Type 0} → String → Result ServiceError A × World → Result ServiceError A × World
release_lock i (r, w) = (r, record w { locks = select (λ j. not (str_eq j i)) w.locks })

module _ (io : Io) where
  -- `_preview_next_plan`: an exception gives no plan.
  pub preview_next_plan : Loop → List FidelityCheck → LoopRound → World → Option RoundPlan × World
  unfolding asked target_of source_of
  preview_next_plan l checks latest w =
      let source = source_of l (list_rounds l.id w.store) latest in
      let r : Result ServiceError (Option RoundPlan) × World =
        (do
          asked (λ n. io.get_project n l.project_id)
          size ← asked (λ n. io.read_asset_image n (target_of l latest))
          pure (
              plan_round io.casefold (suc l.current_round) (target_of l latest) checks
                source.critic_results size.0 size.1 default_limits))
          w in
      (ok_or_none r.0, r.1)

  pub next_plan : Loop → List FidelityCheck → Option LoopRound → World → Option RoundPlan × World
  unfolding preview_next_plan is_awaiting
  next_plan l checks none w = (none, w)
  next_plan l checks (some latest) w =
      if is_awaiting l.status then preview_next_plan l checks latest w else (none, w)

  pub to_data : Loop → List FidelityCheck → Svc LoopData
  unfolding next_plan last_round unresolved_of
  to_data l checks w =
      let rounds = list_rounds l.id w.store in
      let latest = last_round rounds in
      let plan = next_plan l checks latest w in
      (
        ok (record {
          loop = l;
          rounds = rounds;
          unresolved_check_ids = unresolved_of latest;
          next_round_plan = plan.0;
        }),
        plan.1,
      )

  pub start_loop : String → String → StartRequest → Svc LoopData
  unfolding asked sheet_checks stored run_baseline_critique run_auto_continue to_data
  start_loop project asset q = do
    asked (λ n. io.get_project n project)
    checks ← sheet_checks io project q.character_sheet_id q.outfit_variant q.mode
    asked (λ n. io.read_asset_image n asset)
    i ← asked (λ n. ok (io.new_id n))
    l ← stored (
        create_loop i project asset q.character_sheet_id q.outfit_variant q.max_rounds
          q.auto_continue q.mode pending_critique)
    l₁ ← run_baseline_critique io l checks
    l₂ ← (if l₁.auto_continue then run_auto_continue io l₁ checks else pure l₁)
    to_data l₂ checks

  -- `advance` behind the claim: the loop object is the one that was read before it.
  pub claimed_round : String → Loop → Svc LoopData
  unfolding sheet_checks run_refine_round to_data
  claimed_round project l = do
    checks ← sheet_checks io project l.character_sheet_id l.outfit_variant l.mode
    l' ← run_refine_round io l checks
    to_data l' checks

  pub claim_and_run : String → Loop → Svc LoopData
  unfolding claimed_round
  claim_and_run project l w =
      let c = claim_round project l.id awaiting_statuses building_mask w.store in
      let go = claimed_round project l (record w { store = c.1 }) in
      if c.0 then go else (err (conflict l.id), record w { store = c.1 })

  pub advance_loop : String → Loop → Svc LoopData
  unfolding claim_and_run is_awaiting
  advance_loop project l w =
      let run = release_lock l.id (claim_and_run project l (acquire_lock l.id w)) in
      if is_awaiting l.status
      then (if any (λ j. str_eq j l.id) w.locks then (err (conflict l.id), w) else run)
      else (err (not_awaiting l.id l.status), w)

  pub advance : String → String → Svc LoopData
  unfolding asked require_loop advance_loop
  advance project i = do
    asked (λ n. io.get_project n project)
    l ← require_loop project i
    advance_loop project l

  pub get : String → String → Svc LoopData
  unfolding require_loop sheet_checks to_data
  get project i = do
    l ← require_loop project i
    checks ← sheet_checks io project l.character_sheet_id l.outfit_variant l.mode
    to_data l checks

-- ===== src/Fidelity/Service.antt =====
-- core/consultant/fidelity_service.py: the loop of refine rounds over the store. What the service
-- calls (image files, the critic, the mask, the refine job, the project and its character sheets) is
-- the record `Io`: the answer to the n-th call of a run, which may be an exception. An exception of
-- the outside carries its text.
pub mod Posts
pub mod Rounds
pub mod Auto
pub mod Live
pub mod Requests
pub mod Progress
pub mod Sample
mod Examples
use misaka_asset_gene.Prelude.{
  ℕ, zero, suc, ◌+◌, String, Bool, true, false, not, ◌&&◌, ◌||◌, Option, none, some, List, [], ◌∷◌,
  ◌++◌, map, str_eq, if◌then◌else◌, select, any, Result, ok, err, Exec, pure,
}
use misaka_asset_gene.Prelude.Raising.{◌>>=◌, ◌>>◌}
use misaka_asset_gene.Prelude.Int.{ℤ}
use misaka_asset_gene.Dialog.{is_empty}
use misaka_asset_gene.Network.{Text}
use misaka_asset_gene.Fidelity.Geometry.{Ratio}
use misaka_asset_gene.Fidelity.{
  CheckResult, is_unverified, passed, summarize_pass_fail, summarize_verdicts, LoopStatus,
  pending_critique, critiquing, awaiting_user, building_mask, refining, passed_all,
  stopped_max_rounds, stopped_regression_recovered, stopped_unverified, failed, RoundOutcome,
  RoundFacts, initial_best_pass_count, decide_round_outcome,
}
use misaka_asset_gene.Fidelity.Planning.{
  FidelityCheck, RoundPlan, RefineRequest, PlanLimits, plan_round, build_refine_request,
}
use misaka_asset_gene.Fidelity.Store.{
  Loop, LoopRound, FidelityStore, StoreError, integrity_error, create_loop, get_loop, save_loop,
  claim_round, append_round, list_rounds, latest_round,
}

pub record CharacterSheet : Type 0 where
  pub id : String
  pub sheet_source_path : Option String

pub record Io : Type 0 where
  pub casefold : Text → Text
  pub new_id : ℕ → String
  pub get_project : ℕ → String → Result String (Unit {0})
  pub character_sheet : ℕ → String → String → Result String (Option CharacterSheet)
  -- `load_character_sources` and `parse_character_checklist`, on a path, a variant and a mode.
  pub parse_checks : ℕ → String → String → String → Result String (List FidelityCheck)
  -- `_read_asset_image`, of which the size is used here.
  pub read_asset_image : ℕ → String → Result String (ℕ × ℕ)
  pub critique : ℕ → String → List FidelityCheck → Result String (List CheckResult)
  pub build_mask : ℕ → String → String → RoundPlan → Result String String
  pub inherited_negative : ℕ → String → Result String (Option Text)
  pub refine : ℕ → String → String → RefineRequest → Result String (String × String)

-- `locks` holds the ids of the loops whose in-process lock is taken.
pub record World : Type 0 where
  pub store : FidelityStore
  pub locks : List String
  pub calls : ℕ

pub data ServiceError : Type 0 where
  loop_not_found : String → ServiceError
  unknown_character_sheet : String → ServiceError
  no_sheet_source_path : String → ServiceError
  not_awaiting : String → LoopStatus → ServiceError
  conflict : String → ServiceError
  no_rounds : String → ServiceError
  io_error : String → ServiceError
  store_error : StoreError → ServiceError

abbrev pub Svc : Type 0 → Type 0
Svc = Exec World ServiceError

-- `_TERMINAL_LOOP_STATUSES` and `_AWAITING_ROUND_STATUSES`.
pub is_terminal : LoopStatus → Bool
is_terminal passed_all = true
is_terminal stopped_max_rounds = true
is_terminal stopped_unverified = true
is_terminal failed = true
is_terminal _ = false

abbrev pub awaiting_statuses : List LoopStatus
awaiting_statuses = awaiting_user ∷ stopped_regression_recovered ∷ []

pub is_awaiting : LoopStatus → Bool
is_awaiting awaiting_user = true
is_awaiting stopped_regression_recovered = true
is_awaiting _ = false

abbrev pub is_recovered : LoopStatus → Bool
is_recovered stopped_regression_recovered = true
is_recovered _ = false

-- A call to the outside.
abbrev pub of_io : {A : Type 0} → Result String A → Result ServiceError A
of_io (ok a) = ok a
of_io (err m) = err (io_error m)

pub asked : {A : Type 0} → (ℕ → Result String A) → Svc A
asked f w = (of_io (f w.calls), record w { calls = suc w.calls })

-- A call of the store, and a read of it.
abbrev pub of_store : {A : Type 0} → Result StoreError A → Result ServiceError A
of_store (ok a) = ok a
of_store (err e) = err (store_error e)

pub stored : {A : Type 0} → (FidelityStore → Result StoreError A × FidelityStore) → Svc A
stored f w = (of_store (f w.store).0, record w { store = (f w.store).1 })

pub peek : {A : Type 0} → (FidelityStore → A) → Svc A
peek f w = (ok (f w.store), w)

pub saved : Loop → Svc Loop
unfolding stored
saved l = stored (save_loop l)

-- `str(error)`, for an error of the outside.
abbrev pub error_text : ServiceError → String
error_text (io_error m) = m
error_text _ = ""

-- `except Exception as error`: the loop is saved as failed, and the error goes on.
abbrev pub failed_loop : Loop → ServiceError → Loop
failed_loop l e = record l { status = failed; last_error = some (error_text e) }

pub handled : {A : Type 0} → Loop → Result ServiceError A × World → Result ServiceError A × World
unfolding saved
handled l (ok a, w) = (ok a, w)
handled l (err e, w) = (err e, (saved (failed_loop l e) w).1)

pub on_error : {A : Type 0} → Loop → Svc A → Svc A
unfolding handled
on_error l m w = handled l (m w)

pub apply_outcome : Loop → RoundOutcome → ℕ → Svc Loop
unfolding saved
apply_outcome l o round_index = saved (record l {
  status = o.status;
  current_round = round_index;
  best_asset_id = o.best_asset_id;
  best_pass_count = o.best_pass_count;
})

-- The last round of the asset.
pub find_round_for_asset : String → List LoopRound → Option LoopRound
find_round_for_asset a [] = none
find_round_for_asset a (r ∷ rs) = elim (find_round_for_asset a rs) [
  | some q ↦ some q
  | none ↦ if str_eq r.asset_id a then some r else none
]

abbrev pub or_latest : Option LoopRound → LoopRound → LoopRound
or_latest (some r) latest = r
or_latest none latest = latest

-- The asset that the next round works on, and the round whose critique it is planned from.
pub target_of : Loop → LoopRound → String
target_of l latest = if is_recovered l.status then l.best_asset_id else latest.asset_id

pub source_of : Loop → List LoopRound → LoopRound → LoopRound
unfolding find_round_for_asset
source_of l rounds latest =
    if is_recovered l.status
    then or_latest (find_round_for_asset l.best_asset_id rounds) latest
    else latest

abbrev pub default_limits : PlanLimits
default_limits = record {
  k = 2;
  tag_cap = 60;
  area_threshold = record { num = 4; den = 10 };
  mask_dilate = 12;
  mask_feather = 8;
  subtract_iou_threshold = record { num = 3; den = 10 };
}

-- What a round has made, and what the critic says of it.
pub record Attempt : Type 0 where
  pub asset_id : String
  pub critic_results : List CheckResult
  pub mask_asset_id : Option String
  pub refine_job_id : Option String

-- The facts of a round that `decide_round_outcome` is given.
pub facts_of : Loop → ℕ → ℤ → Attempt → RoundFacts
facts_of l round_index best a = record {
  new_asset_id = a.asset_id;
  new_pass_count = (summarize_pass_fail a.critic_results).0;
  new_fail_count = (summarize_verdicts a.critic_results).1;
  new_unverified_count = (summarize_verdicts a.critic_results).2;
  completed_round_index = round_index;
  max_rounds = l.max_rounds;
  best_asset_id = l.best_asset_id;
  best_pass_count = best;
}

-- The status of a loop that has nothing left to repair.
abbrev pub no_plan_status : List CheckResult → LoopStatus
no_plan_status rs = if any (λ r. is_unverified r.verdict) rs then stopped_unverified else passed_all

-- `_require_loop`.
pub require_loop : String → String → Svc Loop
require_loop project i w = elim (get_loop project i w.store) [
  | none ↦ (err (loop_not_found i), w)
  | some l ↦ (ok l, w)
]

module _ (io : Io) where
  -- The end of a round: it is recorded, and its outcome is applied.
  pub settle : Loop → ℕ → ℤ → Attempt → Svc Loop
  unfolding asked stored apply_outcome facts_of
  settle l round_index best a = do
    i ← asked (λ n. ok (io.new_id n))
    stored (
        append_round i l.id round_index a.asset_id a.critic_results
          (summarize_pass_fail a.critic_results).0 (summarize_pass_fail a.critic_results).1
          a.mask_asset_id a.refine_job_id)
    apply_outcome l (decide_round_outcome (facts_of l round_index best a)) round_index

  baseline_attempt : Loop → List FidelityCheck → Svc Attempt
  unfolding asked
  baseline_attempt l checks = do
    _ ← asked (λ n. io.read_asset_image n l.root_asset_id)
    results ← asked (λ n. io.critique n l.root_asset_id checks)
    pure (record {
      asset_id = l.root_asset_id;
      critic_results = results;
      mask_asset_id = none;
      refine_job_id = none;
    })

  pub run_baseline_critique : Loop → List FidelityCheck → Svc Loop
  unfolding baseline_attempt on_error settle
  run_baseline_critique l checks = do
    a ← on_error l (baseline_attempt l checks)
    settle l 0 initial_best_pass_count a

  -- The body of the round's `try`.
  pub attempt : Loop → List FidelityCheck → String → RoundPlan → Svc Attempt
  unfolding asked saved
  attempt l checks target plan = do
    saved (record l { status = building_mask })
    mask ← asked (λ n. io.build_mask n l.project_id target plan)
    saved (record l { status = refining })
    inherited ← asked (λ n. io.inherited_negative n target)
    made ← asked (λ n.
        io.refine n l.project_id target (build_refine_request io.casefold plan mask inherited))
    saved (record l { status = critiquing })
    _ ← asked (λ n. io.read_asset_image n made.0)
    results ← asked (λ n. io.critique n made.0 checks)
    pure (record {
      asset_id = made.0;
      critic_results = results;
      mask_asset_id = some mask;
      refine_job_id = some made.1;
    })

  pub run_plan : Loop → List FidelityCheck → List CheckResult → String → Option RoundPlan → Svc Loop
  unfolding attempt on_error settle saved
  run_plan l checks results target none = saved (record l { status = no_plan_status results })
  run_plan l checks results target (some plan) = do
    a ← on_error l (attempt l checks target plan)
    settle l (suc l.current_round) l.best_pass_count a

  pub refine_from : Loop → List FidelityCheck → Option LoopRound → Svc Loop
  unfolding run_plan asked target_of source_of
  refine_from l checks none w = (err (no_rounds l.id), w)
  refine_from l checks (some latest) w =
      (do
        size ← asked (λ n. io.read_asset_image n (target_of l latest))
        run_plan l checks (source_of l (list_rounds l.id w.store) latest).critic_results
            (target_of l latest)
            (plan_round io.casefold (suc l.current_round) (target_of l latest) checks
              (source_of l (list_rounds l.id w.store) latest).critic_results size.0 size.1
              default_limits))
        w

  pub run_refine_round : Loop → List FidelityCheck → Svc Loop
  unfolding refine_from
  run_refine_round l checks = do latest ← peek (latest_round l.id); refine_from l checks latest

  -- `guard` counts up to `max_rounds + 1` rounds; here the rounds that it leaves count down.
  pub auto_rounds : ℕ → Loop → List FidelityCheck → Svc Loop
  unfolding run_refine_round
  auto_rounds zero l checks w = (ok l, w)
  auto_rounds (suc n) l checks w =
      let go = (do l' ← run_refine_round l checks; auto_rounds n l' checks) w in
      if is_awaiting l.status then go else (ok l, w)

  pub run_auto_continue : Loop → List FidelityCheck → Svc Loop
  unfolding auto_rounds
  run_auto_continue l checks = auto_rounds (suc l.max_rounds) l checks

  -- `_load_checks`, and `_resolve_character_sheet` before it.
  pub checks_at : String → Option String → String → String → Svc (List FidelityCheck)
  unfolding asked
  checks_at sheet_id none variant mode w = (err (no_sheet_source_path sheet_id), w)
  checks_at sheet_id (some path) variant mode w =
      if str_eq path ""
      then (err (no_sheet_source_path sheet_id), w)
      else asked (λ n. io.parse_checks n path variant mode) w

  pub load_checks : CharacterSheet → String → String → Svc (List FidelityCheck)
  unfolding checks_at
  load_checks sheet variant mode = checks_at sheet.id sheet.sheet_source_path variant mode

  pub sheet_checks : String → String → String → String → Svc (List FidelityCheck)
  unfolding asked load_checks
  sheet_checks project sheet_id variant mode = do
    found ← asked (λ n. io.character_sheet n project sheet_id)
    elim found [
      | none ↦ λ w. (err (unknown_character_sheet sheet_id), w)
      | some sheet ↦ load_checks sheet variant mode
    ]

-- ===== src/Dialog/Engine.antt =====
-- core/consultant/engine.py and session_store.py: the sessions, their table, and the driver that
-- applies one transition to a session. The planner's result is an argument: its analysis is of an
-- arbitrary type `P`. A time is a number; `clock` gives the readings of `_now`.
pub mod Sessions
mod Examples
use misaka_asset_gene.Prelude.{
  ℕ, suc, String, Bool, true, false, not, ◌&&◌, ◌||◌, Option, none, some, List, [], ◌∷◌, ◌++◌,
  str_eq, ltb, if◌then◌else◌, select, any, Result, ok, err, Exec, ◌>>=◌, continue,
}
use misaka_asset_gene.Dialog.{
  ConsultantState, intake, generate, accept, Modality, training, SlotValue, null, str, other, Slots,
  lookup, required_slots_for, optional_slots_for, missing_slots, checklist_status, next_state,
  assert_transition, TransitionError, illegal,
}

pub record Plan (P : Type 0) : Type 0 where
  pub analysis : P
  pub training_character_sheet_id : Option SlotValue
  pub training_dataset_pack_id : Option SlotValue
  pub training_recipe_id : Option SlotValue
  pub training_lora_preset_id : Option SlotValue
  pub training_i2v_recipe_id : Option SlotValue

pub record ClarifyResult (P : Type 0) : Type 0 where
  pub modality : Modality
  pub analysis : Option (Plan P)

pub record Session (P : Type 0) : Type 0 where
  pub session_id : String
  pub project_id : String
  pub modality : Option Modality
  pub state : ConsultantState
  pub checklist : List (String × Bool)
  pub slots : Slots
  pub plan : Option (Plan P)
  pub last_result : Option (ClarifyResult P)
  pub created_at : ℕ
  pub updated_at : ℕ

pub record SessionStore (P : Type 0) : Type 0 where
  pub rows : List (Session P)
  pub clock : ℕ → ℕ
  pub reads : ℕ

pub data EngineError : Type 0 where
  session_not_found : String → EngineError
  illegal_transition : ConsultantState → ConsultantState → EngineError

-- A dict's `d[k] = v`, and `{**a, **b}`.
pub insert : String → SlotValue → Slots → Slots
insert k v [] = (k, v) ∷ []
insert k v ((j, w) ∷ s) = if str_eq j k then (j, v) ∷ s else (j, w) ∷ insert k v s

pub merge : Slots → Slots → Slots
unfolding insert
merge a [] = a
merge a ((k, v) ∷ b) = merge (insert k v a) b

-- `a or b` on optional values whose members are true.
abbrev pub or_else {ℓ} : {A : Type ℓ} → Option A → Option A → Option A
or_else (some a) b = some a
or_else none b = b

-- The keys that a session of the modality may hold.
unfoldable pub is_allowed_key : Option Modality → String → Bool
is_allowed_key m k =
    any (λ j. str_eq j k) (required_slots_for m) || any (λ j. str_eq j k) (optional_slots_for m)

pub merge_slots : Option Modality → Slots → Slots → Slots
unfolding merge
merge_slots m old new = merge old (select (λ e. is_allowed_key m e.0) new)

-- `slots.get(key) or None`.
abbrev pub truthy : Option SlotValue → Option SlotValue
truthy none = none
truthy (some null) = none
truthy (some (str [])) = none
truthy (some (str (c ∷ cs))) = some (str (c ∷ cs))
truthy (some (other true)) = some (other true)
truthy (some (other false)) = none

abbrev pub Engine : Type 0 → Type 0 → Type 0
Engine P A = Exec (SessionStore P) EngineError A

abbrev pub is_accepted : ConsultantState → Bool
is_accepted accept = true
is_accepted _ = false

-- A text id counts only if it is not empty.
abbrev pub non_empty : Option String → Option String
non_empty none = none
non_empty (some i) = if str_eq i "" then none else some i

abbrev pub given_id : Option String → String → String
given_id (some i) fresh = i
given_id none fresh = fresh

-- `modality or result.modality`.
abbrev pub effective_modality : Option Modality → Modality → Modality
effective_modality (some m) r = m
effective_modality none r = r

module _ {P : Type 0} where
  -- The `model_copy` of a training session's plan.
  pub with_training_ids : Slots → Plan P → Plan P
  with_training_ids s p = record p {
    training_character_sheet_id = truthy (lookup "character_sheet" s);
    training_dataset_pack_id = truthy (lookup "dataset_pack" s);
    training_recipe_id = truthy (lookup "training_recipe" s);
    training_lora_preset_id = truthy (lookup "lora_preset" s);
    training_i2v_recipe_id = truthy (lookup "i2v_recipe" s);
  }

  -- Only a training session with slots has its ids threaded into the plan.
  pub plan_for : Modality → Slots → Plan P → Plan P
  unfolding with_training_ids
  plan_for training [] p = p
  plan_for training (e ∷ s) p = with_training_ids (e ∷ s) p
  plan_for _ s p = p

  -- The plan of the session after a transition to `target`.
  pub emitted_plan :
      ConsultantState → Modality → Slots → Option (Plan P) → Option (Plan P) → Option (Plan P)
  unfolding plan_for
  emitted_plan generate m s (some analysis) old = some (plan_for m s analysis)
  emitted_plan _ m s analysis old = old

  -- `SessionStore.get`.
  pub find : String → List (Session P) → Option (Session P)
  find i [] = none
  find i (r ∷ rs) = if str_eq r.session_id i then some r else find i rs

  -- `INSERT … ON CONFLICT(session_id) DO UPDATE`; the creation time is not updated.
  pub upsert : Session P → List (Session P) → List (Session P)
  upsert x [] = x ∷ []
  upsert x (r ∷ rs) =
      if str_eq r.session_id x.session_id
      then record x { created_at = r.created_at } ∷ rs
      else r ∷ upsert x rs

  pub save : Session P → Engine P (Session P)
  unfolding upsert
  save x s =
      let x' = record x { updated_at = s.clock s.reads } in
      (ok x', record s { rows = upsert x' s.rows; reads = suc s.reads })

  pub create : String → String → Option Modality → Engine P (Session P)
  unfolding upsert
  create i project m s =
      let now = s.clock s.reads in
      let x : Session P = record {
        session_id = i;
        project_id = project;
        modality = m;
        state = intake;
        checklist = [];
        slots = [];
        plan = none;
        last_result = none;
        created_at = now;
        updated_at = now;
      } in
      (ok x, record s { rows = upsert x s.rows; reads = suc s.reads })

  -- `ORDER BY updated_at DESC LIMIT 1` over the rows that pass the test.
  pub latest : (Session P → Bool) → List (Session P) → Option (Session P)
  latest p [] = none
  latest p (r ∷ rs) =
      let rest = latest p rs in
      if p r
      then elim rest [
        | none ↦ some r
        | some x ↦ if ltb r.updated_at x.updated_at then some x else some r
      ]
      else rest

  pub latest_unfinished : String → SessionStore P → Option (Session P)
  latest_unfinished project s =
      latest (λ r. str_eq r.project_id project && not (is_accepted r.state)) s.rows

  -- The modality of a call, and the slots after the merge.
  abbrev pub call_modality : Session P → Option Modality → ClarifyResult P → Modality
  call_modality x requested result =
      effective_modality (or_else requested x.modality) result.modality

  abbrev pub call_slots : Session P → Option Modality → Slots → Slots
  call_slots x requested slots = merge_slots (or_else requested x.modality) x.slots slots

  -- The session as `_run_clarify` changes it, before it is saved.
  pub stepped_session : Session P → Option Modality → ClarifyResult P → Slots → Bool → Session P
  unfolding emitted_plan merge_slots
  stepped_session x requested result slots acc =
      let effective = call_modality x requested result in
      let merged = call_slots x requested slots in
      let target = next_state x.state (some effective) merged acc in
      record x {
        modality = some effective;
        state = target;
        checklist = checklist_status (some effective) merged;
        slots = merged;
        plan = emitted_plan target effective merged result.analysis x.plan;
        last_result = some result;
      }

  -- `_run_clarify`: the assertion comes before the save, so an illegal step leaves the table alone.
  pub run_clarify :
      Session P
      → Option Modality
      → ClarifyResult P
      → Slots
      → Bool
      → Engine P (Session P × List String)
  run_clarify x requested result slots acc s =
      let y = stepped_session x requested result slots acc in
      elim (assert_transition x.state y.state) [
        | err (illegal a b) ↦ (err (illegal_transition a b), s)
        | ok _ ↦
            (do
              saved ← save y
              λ t. (
                ok (
                  saved,
                  missing_slots (some (call_modality x requested result))
                      (call_slots x requested slots),
                ),
                t,
              ))
              s
      ]

  -- `start_session`: `fresh` is the id that `uuid4` gives where the caller gives none.
  pub start_session :
      String
      → String
      → Option String
      → Option Modality
      → ClarifyResult P
      → Engine P (Session P × List String)
  unfolding create run_clarify
  start_session project fresh given requested result s =
      let found : Option (Session P) = elim (non_empty given) [
        | none ↦ none
        | some i ↦ find i s.rows
      ] in
      elim found [
        | some x ↦ run_clarify x requested result [] false s
        | none ↦
            (do
              x ← create (given_id (non_empty given) fresh) project requested
              run_clarify x requested result [] false)
              s
      ]

  pub advance_session :
      String → Option Modality → ClarifyResult P → Slots → Bool → Engine P (Session P × List String)
  advance_session i requested result slots acc s = elim (find i s.rows) [
    | none ↦ (err (session_not_found i), s)
    | some x ↦ run_clarify x requested result slots acc s
  ]

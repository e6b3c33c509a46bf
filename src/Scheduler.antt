-- ===== src/Scheduler.antt =====
-- core/scheduler/vram.py: the scheduler that places models in VRAM (active), RAM (warm) or on disk
-- (cold). A model object is the entry of the table under its name: `register` is the only writer of
-- new entries, so a key is its model's name, and `m is not incoming` compares names.
-- Times are integers; the injected clock is the sequence of its readings, and `reads` counts them.
-- Every public method holds the one re-entrant lock throughout, so a call is one atomic step.
pub mod Table
pub mod Steps
pub mod Moves
pub mod Candidates
pub mod Bounds
pub mod Acquire
pub mod Valid
pub mod Tick
pub mod Log
pub mod Calls
pub mod Lock
pub mod Training
pub mod Report
mod Examples
use Prim.Native.String.{◌++◌ as str_append}
use misaka_asset_gene.Prelude.{
  ℕ, suc, ◌+◌, ◌*◌, String, Bool, true, false, not, ◌&&◌, Option, none, some, List, [], ◌∷◌, ◌++◌,
  map, str_eq, ltb, leb, if◌then◌else◌, Result, ok, err, Exec, ◌>>=◌, ◌>>◌, pure, select, total,
  length,
}
use misaka_asset_gene.Prelude.Int.{ℤ, pos, ◌-ℤ◌, leb_ℤ, ltb_ℤ}

pub data RuntimeState : Type 0 where
  active warm cold : RuntimeState

abbrev pub state_eq : RuntimeState → RuntimeState → Bool
state_eq active active = true
state_eq warm warm = true
state_eq cold cold = true
state_eq _ _ = false

abbrev pub warm_tier_min_ram_mb : ℕ
warm_tier_min_ram_mb = 16 * 1024

pub record SchedulerBudget : Type 0 where
  pub vram_budget_mb : ℕ
  pub ram_budget_mb : ℕ

abbrev pub warm_tier_enabled : SchedulerBudget → Bool
warm_tier_enabled b = leb warm_tier_min_ram_mb b.ram_budget_mb

pub record ManagedModel : Type 0 where
  pub name : String
  pub vram_mb : ℕ
  pub ram_mb : ℕ
  pub idle_offload_sec : ℤ
  pub cold_offload_sec : ℤ
  pub state : RuntimeState
  pub last_used_at : ℤ

pub record TransitionEvent : Type 0 where
  pub name : String
  pub from_state : RuntimeState
  pub to_state : RuntimeState
  pub reason : String
  pub at : ℤ

pub data Error : Type 0 where
  negative_budget negative_footprint empty_holder : Error
  over_budget : String → Error
  training_in_progress : String → String → Error
  cannot_fit : String → Error
  key_error : String → Error

-- `SchedulerBudget.__post_init__`: the sizes are integers until they are checked.
pub new_budget : ℤ → ℤ → Result Error SchedulerBudget
new_budget (pos v) (pos r) = ok (record { vram_budget_mb = v; ram_budget_mb = r })
new_budget _ _ = err negative_budget

-- `ManagedModel.__post_init__`.
abbrev pub new_model : String → ℤ → ℤ → ℤ → ℤ → RuntimeState → ℤ → Result Error ManagedModel
new_model n (pos v) (pos r) idle cold_after st used = ok (record {
  name = n;
  vram_mb = v;
  ram_mb = r;
  idle_offload_sec = idle;
  cold_offload_sec = cold_after;
  state = st;
  last_used_at = used;
})
new_model n _ _ idle cold_after st used = err negative_footprint

pub record Scheduler : Type 0 where
  pub budget : SchedulerBudget
  pub clock : ℕ → ℤ
  pub reads : ℕ
  pub models : List ManagedModel
  pub transitions : List TransitionEvent
  pub training_lock_holder : Option String

abbrev pub Sched : Type 0 → Type 0
Sched = Exec Scheduler Error

pub new_scheduler : SchedulerBudget → (ℕ → ℤ) → Scheduler
new_scheduler b c = record {
  budget = b;
  clock = c;
  reads = 0;
  models = [];
  transitions = [];
  training_lock_holder = none;
}

-- The table of models, as an insertion-ordered dict.
pub find : String → List ManagedModel → Option ManagedModel
find k [] = none
find k (m ∷ ms) = if str_eq m.name k then some m else find k ms

-- An assignment to a field of the object under a name.
pub update : String → (ManagedModel → ManagedModel) → List ManagedModel → List ManagedModel
update k f [] = []
update k f (m ∷ ms) = if str_eq m.name k then f m ∷ ms else m ∷ update k f ms

-- `self._models[model.name] = model`.
pub put : ManagedModel → List ManagedModel → List ManagedModel
put x [] = x ∷ []
put x (m ∷ ms) = if str_eq m.name x.name then x ∷ ms else m ∷ put x ms

abbrev pub with_state : RuntimeState → ManagedModel → ManagedModel
with_state st m = record m { state = st }

abbrev pub with_last_used : ℤ → ManagedModel → ManagedModel
with_last_used t m = record m { last_used_at = t }

-- `self._models[name]`.
pub get : String → Sched ManagedModel
get k s = elim (find k s.models) [ none ↦ (err (key_error k), s) | some m ↦ (ok m, s) ]

pub state_of : String → Sched RuntimeState
unfolding get
state_of k = do m ← get k; pure m.state

-- One summand of `_vram_used` and of `_ram_used`.
abbrev pub vram_of : ManagedModel → ℕ
vram_of m = if state_eq m.state active then m.vram_mb else 0

abbrev pub ram_of : ManagedModel → ℕ
ram_of m = if state_eq m.state warm then m.ram_mb else 0

pub vram_used : Scheduler → ℕ
vram_used s = total vram_of s.models

pub ram_used : Scheduler → ℕ
ram_used s = total ram_of s.models

-- The body of `_record` once the states differ: the write, and the entry in the log.
pub write : String → RuntimeState → RuntimeState → String → Scheduler → Scheduler
write k from to why s = record s {
  models = update k (with_state to) s.models;
  transitions =
      s.transitions
      ++ record { name = k; from_state = from; to_state = to; reason = why; at = s.clock s.reads }
        ∷ [];
  reads = suc s.reads;
}

pub record_transition : String → RuntimeState → String → Sched (Unit {0})
unfolding get
record_transition k to why = do
  m ← get k
  if state_eq m.state to then pure tt else λ s. (ok tt, write k m.state to why s)

pub demote : String → String → Sched RuntimeState
unfolding get record_transition state_of
demote k why = do
  m ← get k
  if not (state_eq m.state active) then pure m.state else λ s.
      if not (warm_tier_enabled s.budget)
      then (do record_transition k cold (str_append why ":warm_disabled"); state_of k) s
      else if ltb s.budget.ram_budget_mb (ram_used s + m.ram_mb)
      then (do record_transition k cold (str_append why ":ram_pressure"); state_of k) s
      else (do record_transition k warm why; state_of k) s

-- The branches of `evict` on the state.
evict_from : RuntimeState → String → String → Sched (Unit {0})
evict_from warm k why = record_transition k cold why
evict_from active k why = record_transition k cold (str_append why ":direct")
evict_from cold k why = pure tt

pub evict : String → String → Sched RuntimeState
unfolding get record_transition state_of evict_from
evict k why = do m ← get k; evict_from m.state k why; state_of k

-- `sorted(…, key=lambda m: m.last_used_at)`, which is stable.
pub insert_by_use : ManagedModel → List ManagedModel → List ManagedModel
insert_by_use x [] = x ∷ []
insert_by_use x (m ∷ ms) =
    if ltb_ℤ m.last_used_at x.last_used_at then m ∷ insert_by_use x ms else x ∷ m ∷ ms

pub sort_by_use : List ManagedModel → List ManagedModel
unfolding insert_by_use
sort_by_use [] = []
sort_by_use (m ∷ ms) = insert_by_use m (sort_by_use ms)

-- Other active models, least recently used first.
pub candidates : ManagedModel → Scheduler → List ManagedModel
unfolding sort_by_use
candidates incoming s =
    sort_by_use
      (select (λ m. not (str_eq m.name incoming.name) && state_eq m.state active) s.models)

-- `_vram_used() - resident + incoming.vram_mb > vram_budget_mb`, with `resident` moved over.
abbrev pub is_over : ManagedModel → ℕ → Scheduler → Bool
is_over incoming resident s =
    ltb (s.budget.vram_budget_mb + resident) (vram_used s + incoming.vram_mb)

-- The `while` loop; `index >= len(candidates)` is the empty list.
pub evict_while_over : ManagedModel → ℕ → List ManagedModel → Sched (Unit {0})
evict_while_over incoming resident [] = pure tt
evict_while_over incoming resident (c ∷ cs) =
    let rest = evict_while_over incoming resident cs in
    λ s.
      if is_over incoming resident s then (do demote c.name "vram_pressure"; rest) s else (ok tt, s)

pub free_vram_for : ManagedModel → Sched (Unit {0})
unfolding evict_while_over
free_vram_for incoming s =
    (do
      evict_while_over incoming (vram_of incoming) (candidates incoming s)
      λ t.
          if is_over incoming (vram_of incoming) t
          then (err (cannot_fit incoming.name), t)
          else (ok tt, t))
      s

abbrev pub restore_reason : RuntimeState → String
restore_reason warm = "warm_restore"
restore_reason cold = "cold_restore"
restore_reason active = "acquire"

-- `model.last_used_at = self._clock()`.
pub touch : String → Scheduler → Scheduler
touch k s = record s {
  models = update k (with_last_used (s.clock s.reads)) s.models;
  reads = suc s.reads;
}

-- The part of `acquire` behind the eviction: `previous` is the state that the model was in.
pub promote : String → RuntimeState → Sched RuntimeState
unfolding record_transition state_of
promote k previous = do
  record_transition k active (restore_reason previous)
  (λ s. (ok tt, touch k s))
  state_of k

pub acquire_unlocked : String → Sched RuntimeState
unfolding get
acquire_unlocked k = do m ← get k; free_vram_for m; promote k m.state

pub acquire : String → Sched RuntimeState
unfolding acquire_unlocked
acquire k s = elim s.training_lock_holder [
  | some holder ↦ (err (training_in_progress holder k), s)
  | none ↦ acquire_unlocked k s
]

pub begin_training : String → Sched (Unit {0})
begin_training holder s =
    if str_eq holder ""
    then (err empty_holder, s)
    else (ok tt, record s { training_lock_holder = some holder })

pub end_training : Sched (Unit {0})
end_training s = (ok tt, record s { training_lock_holder = none })

pub is_training_locked : Scheduler → Bool
is_training_locked s = elim s.training_lock_holder [ none ↦ false | some h ↦ true ]

unfoldable pub active_names : Scheduler → List String
active_names s = map (λ m. m.name) (select (λ m. state_eq m.state active) s.models)

pub try_begin_training : String → Sched (List String)
try_begin_training holder s =
    if str_eq holder "" then (err empty_holder, s) else elim (active_names s) [
      | [] ↦ (ok [], record s { training_lock_holder = some holder })
      | n ∷ ns ↦ (ok (n ∷ ns), s)
    ]

pub register : ManagedModel → Sched ManagedModel
unfolding put
register m s =
    if ltb s.budget.vram_budget_mb m.vram_mb
    then (err (over_budget m.name), s)
    else (ok m, record s { models = put m s.models })

-- The two tests of `tick` on a model that has been idle for `now - last_used_at`.
pub is_idle_active : ℤ → ManagedModel → Bool
is_idle_active now m = state_eq m.state active && leb_ℤ m.idle_offload_sec (now -ℤ m.last_used_at)

pub is_idle_warm : ℤ → ManagedModel → Bool
is_idle_warm now m = state_eq m.state warm && leb_ℤ m.cold_offload_sec (now -ℤ m.last_used_at)

tick_found : ℤ → String → ManagedModel → Sched (Unit {0})
tick_found now k m =
    if is_idle_active now m
    then (do demote k "idle"; pure tt)
    else if is_idle_warm now m
    then (do evict k "idle_cold"; pure tt)
    else pure tt

-- One round of `tick`'s loop over a snapshot of the models; the object is read afresh.
tick_model : ℤ → String → Sched (Unit {0})
tick_model now k = do m ← get k; tick_found now k m

tick_models : ℤ → List ManagedModel → Sched (Unit {0})
tick_models now [] = pure tt
tick_models now (m ∷ ms) = let rest = tick_models now ms in do tick_model now m.name; rest

-- `self._clock()` for a tick with no time given.
tick_time : Option ℤ → Sched ℤ
tick_time (some now) s = (ok now, s)
tick_time none s = (ok (s.clock s.reads), record s { reads = suc s.reads })

-- `self._transitions[before:]`.
abbrev pub drop {ℓ} : {A : Type ℓ} → ℕ → List A → List A
drop ℕ.zero xs = xs
drop (suc n) [] = []
drop (suc n) (x ∷ xs) = drop n xs

pub tick : Option ℤ → Sched (List TransitionEvent)
unfolding tick_time tick_models
tick given = do
  now ← tick_time given
  λ s. (do tick_models now s.models; λ t. (ok (drop (length s.transitions) t.transitions), t)) s

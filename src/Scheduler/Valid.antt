-- ===== src/Scheduler/Valid.antt =====
-- What the steps keep: distinct names, admitted sizes, and, while training holds the lock, the
-- absence of active models. Then every method as a run of steps.
use misaka_asset_gene.Prelude.{
  ◌≤◌, String, ◌≡◌, ◌≢◌, refl, sym, ◌∙◌, subst, inl, inr, false, Option, none, some, List, [], ◌∷◌,
  arith, str_eq, All, Bool-cases, Option-cases, err,
}
use misaka_asset_gene.Prelude.Int.{ℤ}
use misaka_asset_gene.Scheduler.{
  RuntimeState, active, warm, cold, ManagedModel, Scheduler, state_eq, find, update, with_state,
  with_last_used, write, touch, demote, evict, acquire, get, is_idle_active, is_idle_warm,
  tick_found, tick_model, tick_models, tick, training_in_progress, key_error,
}
use misaka_asset_gene.Scheduler.Table.{All-update}
use misaka_asset_gene.Scheduler.Moves.{
  Move, to_active, to_warm, to_cold, used, clock_read, Moves, here, next, Moves-trans,
  continue-Moves, demote-Moves, evict-Moves, Moves-SameFrame,
}
use misaka_asset_gene.Scheduler.Candidates.{Fresh, Distinct}
use misaka_asset_gene.Scheduler.Acquire.{IsValid, acquire-Acquired}

Distinct-update :
    (k : String) (f : ManagedModel → ManagedModel) (ms : List ManagedModel)
    → ((m : ManagedModel) → (f m).name ≡ m.name)
    → Distinct ms
    → Distinct (update k f ms)
unfolding update
Distinct-update k f [] keep d = tt
Distinct-update k f (m ∷ ms) keep d = elim (Bool-cases (str_eq m.name k)) [
  | inl e ↦ rw e (subst (λ j. Fresh j ms) (sym (keep m)) d.0, d.1)
  | inr e ↦ rw e (
    All-update (λ x. str_eq x.name m.name ≡ false) k f ms
        (λ x h. subst (λ j. str_eq j m.name ≡ false) (sym (keep x)) h) d.0,
    Distinct-update k f ms keep d.1,
  )
]

IsValid-write :
    (k why : String) (from to : RuntimeState) (s : Scheduler)
    → IsValid s
    → IsValid (write k from to why s)
unfolding write
IsValid-write k why from to s v = record {
  distinct = Distinct-update k (with_state to) s.models (λ m. refl) v.distinct;
  sized =
      All-update (λ m. m.vram_mb ≤ s.budget.vram_budget_mb) k (with_state to) s.models (λ m h. h)
        v.sized;
}

IsValid-touch : (k : String) (s : Scheduler) → IsValid s → IsValid (touch k s)
unfolding touch
IsValid-touch k s v = record {
  distinct = Distinct-update k (with_last_used (s.clock s.reads)) s.models (λ m. refl) v.distinct;
  sized =
      All-update (λ m. m.vram_mb ≤ s.budget.vram_budget_mb) k (with_last_used (s.clock s.reads))
        s.models (λ m h. h) v.sized;
}

Move-IsValid : {s t : Scheduler} → Move s t → IsValid s → IsValid t
Move-IsValid {s} (to_active k why from m l h f c r) v = IsValid-write k why from active s v
Move-IsValid {s} (to_warm k why m h a o r) v = IsValid-write k why active warm s v
Move-IsValid {s} (to_cold k why from m h f c) v = IsValid-write k why from cold s v
Move-IsValid {s} (used k) v = IsValid-touch k s v
Move-IsValid clock_read v = record { distinct = v.distinct; sized = v.sized }

pub Moves-IsValid : {s t : Scheduler} → Moves s t → IsValid s → IsValid t
Moves-IsValid here v = v
Moves-IsValid (next a m) v = Move-IsValid m (Moves-IsValid a v)

-- No model is in VRAM.
abbrev pub IsIdle : Scheduler → Type 0
IsIdle s = All (λ m. state_eq m.state active ≡ false) s.models

Move-IsIdle : {s t : Scheduler} → Move s t → s.training_lock_holder ≢ none → IsIdle s → IsIdle t
unfolding write touch
Move-IsIdle (to_active k why from m l h f c r) q i = absurd (q l)
Move-IsIdle {s} (to_warm k why m h a o r) q i =
    All-update (λ m. state_eq m.state active ≡ false) k (with_state warm) s.models (λ m h. refl) i
Move-IsIdle {s} (to_cold k why from m h f c) q i =
    All-update (λ m. state_eq m.state active ≡ false) k (with_state cold) s.models (λ m h. refl) i
Move-IsIdle {s} (used k) q i =
    All-update (λ m. state_eq m.state active ≡ false) k (with_last_used (s.clock s.reads)) s.models
      (λ m h. h) i
Move-IsIdle clock_read q i = i

-- While the training lock is held no step brings a model into VRAM.
pub Moves-IsIdle :
    {s t : Scheduler} → Moves s t → s.training_lock_holder ≢ none → IsIdle s → IsIdle t
Moves-IsIdle here q i = i
Moves-IsIdle (next a m) q i =
    Move-IsIdle m (λ e. q (sym (Moves-SameFrame a).same_holder ∙ e)) (Moves-IsIdle a q i)

get-Moves : (k : String) (s : Scheduler) → Moves s (get k s).1
unfolding get
get-Moves k s = elim (Option-cases (find k s.models)) [
  | inl e ↦ rw (e, get) here
  | inr (m, h) ↦ rw (h, get) here
]

tick_found-Moves :
    (now : ℤ) (k : String) (m : ManagedModel) (s : Scheduler) → Moves s (tick_found now k m s).1
unfolding tick_found
tick_found-Moves now k m s = elim (Bool-cases (is_idle_active now m)) [
  | inl a ↦ rw a (continue-Moves (demote k "idle") _ s (demote-Moves k "idle" s) (λ _ t. here))
  | inr a ↦ elim (Bool-cases (is_idle_warm now m)) [
    | inl w ↦
        rw (a, w)
          (continue-Moves (evict k "idle_cold") _ s (evict-Moves k "idle_cold" s) (λ _ t. here))
    | inr w ↦ rw (a, w) here
  ]
]

tick_model-Moves : (now : ℤ) (k : String) (s : Scheduler) → Moves s (tick_model now k s).1
unfolding tick_model
tick_model-Moves now k s =
    continue-Moves (get k) (tick_found now k) s (get-Moves k s) (tick_found-Moves now k)

tick_models-Moves :
    (now : ℤ) (ms : List ManagedModel) (s : Scheduler) → Moves s (tick_models now ms s).1
unfolding tick_models
tick_models-Moves now [] s = here
tick_models-Moves now (m ∷ ms) s =
    continue-Moves (tick_model now m.name) (λ _. tick_models now ms) s
      (tick_model-Moves now m.name s) (λ _ t. tick_models-Moves now ms t)

pub tick-Moves : (given : Option ℤ) (s : Scheduler) → Moves s (tick given s).1
unfolding tick
tick-Moves none s = Moves-trans (next here clock_read) (
    continue-Moves (tick_models (s.clock s.reads) s.models) _ _
      (tick_models-Moves (s.clock s.reads) s.models _) (λ _ t. here))
tick-Moves (some now) s =
    continue-Moves (tick_models now s.models) _ s (tick_models-Moves now s.models s) (λ _ t. here)

-- `acquire` on any branch: a lock that is held or a name that is not there changes nothing.
pub acquire-locked :
    (k holder : String) (s : Scheduler)
    → s.training_lock_holder ≡ some holder
    → acquire k s ≡ (err (training_in_progress holder k), s)
unfolding acquire
acquire-locked k holder s h = ground arith

pub acquire-missing :
    (k : String) (s : Scheduler)
    → s.training_lock_holder ≡ none
    → find k s.models ≡ none
    → acquire k s ≡ (err (key_error k), s)
unfolding acquire
acquire-missing k s l h = ground arith

pub acquire-Moves : (k : String) (s : Scheduler) → IsValid s → Moves s (acquire k s).1
acquire-Moves k s v = elim (Option-cases s.training_lock_holder) [
  | inr (holder, h) ↦ rw (acquire-locked k holder s h) here
  | inl l ↦ elim (Option-cases (find k s.models)) [
    | inl e ↦ rw (acquire-missing k s l e) here
    | inr (m, h) ↦ (acquire-Acquired k s m v l h).moved
  ]
]

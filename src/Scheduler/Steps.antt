-- ===== src/Scheduler/Steps.antt =====
-- Each method as one equation: the branch that a model's state takes, with the writes that it makes.
use misaka_asset_gene.Prelude.{
  ◌⊎◌, true, none, err, ◌≤◌, ◌+◌, String, ◌≡◌, refl, false, not, some, arith, str_eq, ltb,
  if◌then◌else◌, ok,
}
use misaka_asset_gene.Scheduler.{
  key_error, evict, record_transition, RuntimeState, active, warm, cold, ManagedModel, Scheduler,
  state_eq, warm_tier_enabled, find, with_state, write, demote, ram_used,
}
use misaka_asset_gene.Scheduler.Table.{find-update}
use Prim.Native.String.{◌++◌ as str_append}
use text.Mathlib.TextPositions.{eq_refl}

pub find-write :
    (k j : String) (from to : RuntimeState) (why : String) (s : Scheduler) (m : ManagedModel)
    → find j s.models ≡ some m
    → find j (write k from to why s).models ≡ some (if str_eq k j then with_state to m else m)
unfolding write
find-write k j from to why s m h =
    rw (find-update k j (with_state to) s.models (λ m. refl), h) (ground arith)

pub find-write-none :
    (k j : String) (from to : RuntimeState) (why : String) (s : Scheduler)
    → find j s.models ≡ none
    → find j (write k from to why s).models ≡ none
unfolding write
find-write-none k j from to why s h =
    rw (find-update k j (with_state to) s.models (λ m. refl), h) (ground arith)

-- The tier that a demoted model goes to, and the reason in the log.
pub demote_tier : Scheduler → ManagedModel → RuntimeState
demote_tier s m =
    if not (warm_tier_enabled s.budget)
    then cold
    else if ltb s.budget.ram_budget_mb (ram_used s + m.ram_mb)
    then cold
    else warm

pub demote_reason : Scheduler → ManagedModel → String → String
demote_reason s m why =
    if not (warm_tier_enabled s.budget)
    then str_append why ":warm_disabled"
    else if ltb s.budget.ram_budget_mb (ram_used s + m.ram_mb)
    then str_append why ":ram_pressure"
    else why

pub demote_active :
    (k why : String) (s : Scheduler) (m : ManagedModel)
    → find k s.models ≡ some m
    → m.state ≡ active
    → demote k why s
      ≡ (ok (demote_tier s m), write k active (demote_tier s m) (demote_reason s m why) s)
unfolding demote demote_tier demote_reason
demote_active k why s m h a = ground (
  arith,
  eq_refl k,
  find-write k k active cold (str_append why ":warm_disabled") s m,
  find-write k k active cold (str_append why ":ram_pressure") s m,
  find-write k k active warm why s m,
)

pub demote_idle :
    (k why : String) (s : Scheduler) (m : ManagedModel)
    → find k s.models ≡ some m
    → state_eq m.state active ≡ false
    → demote k why s ≡ (ok m.state, s)
unfolding demote
demote_idle k why s m h a = ground arith

pub demote_missing :
    (k why : String) (s : Scheduler)
    → find k s.models ≡ none
    → demote k why s ≡ (err (key_error k), s)
unfolding demote
demote_missing k why s h = ground arith

-- A demoted model is warm only if the RAM tier is on and has room for it.
pub demote_tier_cases :
    (s : Scheduler) (m : ManagedModel)
    → ((demote_tier s m ≡ warm)
        × (warm_tier_enabled s.budget ≡ true)
        × (ram_used s + m.ram_mb ≤ s.budget.ram_budget_mb))
      ⊎ (demote_tier s m ≡ cold)
unfolding demote_tier
demote_tier_cases s m = ground arith

pub evict_missing :
    (k why : String) (s : Scheduler)
    → find k s.models ≡ none
    → evict k why s ≡ (err (key_error k), s)
unfolding evict
evict_missing k why s h = ground arith

pub evict_cold :
    (k why : String) (s : Scheduler) (m : ManagedModel)
    → find k s.models ≡ some m
    → state_eq m.state cold ≡ true
    → evict k why s ≡ (ok cold, s)
unfolding evict
evict_cold k why s m h c = ground arith

-- The reason that `evict` logs.
abbrev pub evict_reason : RuntimeState → String → String
evict_reason active why = str_append why ":direct"
evict_reason _ why = why

pub evict_loaded :
    (k why : String) (s : Scheduler) (m : ManagedModel)
    → find k s.models ≡ some m
    → state_eq m.state cold ≡ false
    → evict k why s ≡ (ok cold, write k m.state cold (evict_reason m.state why) s)
unfolding evict
evict_loaded k why s m h c =
    ground (arith, eq_refl k, find-write k k m.state cold (evict_reason m.state why) s m)

pub record_transition_moved :
    (k why : String) (to : RuntimeState) (s : Scheduler) (m : ManagedModel)
    → find k s.models ≡ some m
    → state_eq m.state to ≡ false
    → record_transition k to why s ≡ (ok tt, write k m.state to why s)
unfolding record_transition
record_transition_moved k why to s m h c = ground arith

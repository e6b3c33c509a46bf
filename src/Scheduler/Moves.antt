-- ===== src/Scheduler/Moves.antt =====
-- The transition relation of core/scheduler/vram.py's module comment, with the guards under which a
-- model may change its tier, and every method as a run of its steps.
use misaka_asset_gene.Prelude.{
  ℕ, suc, ◌+◌, ◌≤◌, String, ◌≡◌, refl, ◌∙◌, inl, inr, true, false, none, some, List, [], ◌∷◌, arith,
  Result, ok, err, Bool-cases, Option-cases, ◌>>=◌, continue,
}
use misaka_asset_gene.Scheduler.{
  Sched, RuntimeState, active, warm, cold, ManagedModel, Scheduler, Error, state_eq,
  warm_tier_enabled, find, write, touch, demote, evict, ram_used, vram_used, evict_while_over,
  is_over,
}
use misaka_asset_gene.Scheduler.Steps.{
  demote_reason, demote_active, demote_idle, demote_missing, demote_tier_cases, evict_missing,
  evict_cold, evict_loaded, evict_reason,
}

pub data Move (s : Scheduler) : Scheduler → Type 0 where
  to_active :
      (k why : String) (from : RuntimeState) (m : ManagedModel)
      → s.training_lock_holder ≡ none
      → find k s.models ≡ some m
      → m.state ≡ from
      → state_eq from active ≡ false
      → vram_used s + m.vram_mb ≤ s.budget.vram_budget_mb
      → Move s (write k from active why s)
  to_warm :
      (k why : String) (m : ManagedModel)
      → find k s.models ≡ some m
      → m.state ≡ active
      → warm_tier_enabled s.budget ≡ true
      → ram_used s + m.ram_mb ≤ s.budget.ram_budget_mb
      → Move s (write k active warm why s)
  to_cold :
      (k why : String) (from : RuntimeState) (m : ManagedModel)
      → find k s.models ≡ some m
      → m.state ≡ from
      → state_eq from cold ≡ false
      → Move s (write k from cold why s)
  used : (k : String) → Move s (touch k s)
  clock_read : Move s (record s { reads = suc s.reads })

pub data Moves (s : Scheduler) : Scheduler → Type 0 where
  here : Moves s s
  next : {t u : Scheduler} → Moves s t → Move t u → Moves s u

pub Moves-trans : {s t u : Scheduler} → Moves s t → Moves t u → Moves s u
Moves-trans a here = a
Moves-trans a (next b m) = next (Moves-trans a b) m

pub state_eq-eq : (a b : RuntimeState) → state_eq a b ≡ true → a ≡ b
state_eq-eq a b h = ground arith

-- A run of a method and then of another.
pub continue-Moves :
    {A B : Type 0} (m : Sched A) (f : A → Sched B) (s : Scheduler)
    → Moves s (m s).1
    → ((a : A) (t : Scheduler) → Moves t (f a t).1)
    → Moves s ((m >>= f) s).1
continue-Moves {A = A} {B = B} m f s h k = after (m s) h
  where
    after : (r : Result Error A × Scheduler) → Moves s r.1 → Moves s (continue f r).1
    after (ok a, t) h = Moves-trans h (k a t)
    after (err e, t) h = h

demoted :
    (k why : String) (s : Scheduler) (m : ManagedModel)
    → find k s.models ≡ some m
    → m.state ≡ active
    → Moves s (demote k why s).1
demoted k why s m h a = rw (demote_active k why s m h a) (elim (demote_tier_cases s m) [
  | inl (e, on, room) ↦ rw e (next here (to_warm k (demote_reason s m why) m h a on room))
  | inr e ↦ rw e (next here (to_cold k (demote_reason s m why) active m h a refl))
])

-- A demotion makes one step at most, and only down.
pub demote-Moves : (k why : String) (s : Scheduler) → Moves s (demote k why s).1
demote-Moves k why s = elim (Option-cases (find k s.models)) [
  | inl e ↦ rw (demote_missing k why s e) here
  | inr (m, h) ↦ elim (Bool-cases (state_eq m.state active)) [
    | inl a ↦ demoted k why s m h (state_eq-eq m.state active a)
    | inr i ↦ rw (demote_idle k why s m h i) here
  ]
]

pub evict-Moves : (k why : String) (s : Scheduler) → Moves s (evict k why s).1
evict-Moves k why s = elim (Option-cases (find k s.models)) [
  | inl e ↦ rw (evict_missing k why s e) here
  | inr (m, h) ↦ elim (Bool-cases (state_eq m.state cold)) [
    | inl c ↦ rw (evict_cold k why s m h c) here
    | inr c ↦
        rw (evict_loaded k why s m h c)
          (next here (to_cold k (evict_reason m.state why) m.state m h refl c))
  ]
]

pub evict_while_over-Moves :
    (m : ManagedModel) (r : ℕ) (cs : List ManagedModel) (s : Scheduler)
    → Moves s (evict_while_over m r cs s).1
unfolding evict_while_over
evict_while_over-Moves m r [] s = here
evict_while_over-Moves m r (c ∷ cs) s = elim (Bool-cases (is_over m r s)) [
  | inl o ↦ rw o (
      continue-Moves (demote c.name "vram_pressure") _ s (demote-Moves c.name "vram_pressure" s)
        (λ _ t. evict_while_over-Moves m r cs t))
  | inr o ↦ rw o here
]

-- What no step changes: the budget, the clock and the holder of the training lock.
pub record SameFrame (s t : Scheduler) : Type 0 where
  pub same_budget : t.budget ≡ s.budget
  pub same_clock : t.clock ≡ s.clock
  pub same_holder : t.training_lock_holder ≡ s.training_lock_holder

Move-SameFrame : {s t : Scheduler} → Move s t → SameFrame s t
unfolding write touch
Move-SameFrame (to_active k why from m l h f c v) = record {
  same_budget = refl;
  same_clock = refl;
  same_holder = refl;
}
Move-SameFrame (to_warm k why m h a o r) = record {
  same_budget = refl;
  same_clock = refl;
  same_holder = refl;
}
Move-SameFrame (to_cold k why from m h f c) = record {
  same_budget = refl;
  same_clock = refl;
  same_holder = refl;
}
Move-SameFrame (used k) = record { same_budget = refl; same_clock = refl; same_holder = refl }
Move-SameFrame clock_read = record { same_budget = refl; same_clock = refl; same_holder = refl }

pub Moves-SameFrame : {s t : Scheduler} → Moves s t → SameFrame s t
Moves-SameFrame here = record { same_budget = refl; same_clock = refl; same_holder = refl }
Moves-SameFrame (next a m) =
    let f = Moves-SameFrame a in
    let g = Move-SameFrame m in
    record {
      same_budget = g.same_budget ∙ f.same_budget;
      same_clock = g.same_clock ∙ f.same_clock;
      same_holder = g.same_holder ∙ f.same_holder;
    }

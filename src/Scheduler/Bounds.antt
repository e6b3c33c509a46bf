-- ===== src/Scheduler/Bounds.antt =====
-- The budgets: what a step does to the VRAM and the RAM in use.
use misaka_asset_gene.Prelude.{
  ap, ℕ, ◌+◌, ◌≤◌, String, ◌≡◌, refl, inl, inr, some, List, [], ◌∷◌, arith, total, str_eq,
  Bool-cases,
}
use misaka_asset_gene.Scheduler.{
  RuntimeState, active, warm, cold, ManagedModel, Scheduler, find, update, with_state, vram_of,
  ram_of, write, touch, vram_used, ram_used,
}
use misaka_asset_gene.Scheduler.Table.{total-update}
use misaka_asset_gene.Scheduler.Moves.{
  Move, to_active, to_warm, to_cold, used, clock_read, Moves, here, next,
}

pub vram-write :
    (k why : String) (from to : RuntimeState) (s : Scheduler) (m : ManagedModel)
    → find k s.models ≡ some m
    → vram_used (write k from to why s) + vram_of m ≡ vram_used s + vram_of (with_state to m)
unfolding vram_used write
vram-write k why from to s m h = total-update vram_of k (with_state to) s.models m h

pub ram-write :
    (k why : String) (from to : RuntimeState) (s : Scheduler) (m : ManagedModel)
    → find k s.models ≡ some m
    → ram_used (write k from to why s) + ram_of m ≡ ram_used s + ram_of (with_state to m)
unfolding ram_used write
ram-write k why from to s m h = total-update ram_of k (with_state to) s.models m h

total-touch :
    (w : ManagedModel → ℕ) (k : String) (f : ManagedModel → ManagedModel) (ms : List ManagedModel)
    → ((m : ManagedModel) → w (f m) ≡ w m)
    → total w (update k f ms) ≡ total w ms
unfolding update
total-touch w k f [] h = refl
total-touch w k f (m ∷ ms) h = elim (Bool-cases (str_eq m.name k)) [
  | inl e ↦ rw e (omega (arith, h m))
  | inr e ↦ rw e (omega (arith, total-touch w k f ms h))
]

pub vram-touch : (k : String) (s : Scheduler) → vram_used (touch k s) ≡ vram_used s
unfolding vram_used touch
vram-touch k s = total-touch vram_of k _ s.models (λ m. refl)

pub ram-touch : (k : String) (s : Scheduler) → ram_used (touch k s) ≡ ram_used s
unfolding ram_used touch
ram-touch k s = total-touch ram_of k _ s.models (λ m. refl)

-- The models in VRAM and the copies in RAM fit their budgets.
pub record Fits (s : Scheduler) : Type 0 where
  pub vram_fits : vram_used s ≤ s.budget.vram_budget_mb
  pub ram_fits : ram_used s ≤ s.budget.ram_budget_mb

budget-write :
    (k why : String) (from to : RuntimeState) (s : Scheduler)
    → (write k from to why s).budget ≡ s.budget
unfolding write
budget-write k why from to s = refl

budget-touch : (k : String) (s : Scheduler) → (touch k s).budget ≡ s.budget
unfolding touch
budget-touch k s = refl

-- A write whose change of VRAM and of RAM leaves room keeps within the budgets.
Fits-write :
    (k why : String) (from to : RuntimeState) (s : Scheduler) (m : ManagedModel)
    → find k s.models ≡ some m
    → vram_used s + vram_of (with_state to m) ≤ s.budget.vram_budget_mb + vram_of m
    → ram_used s + ram_of (with_state to m) ≤ s.budget.ram_budget_mb + ram_of m
    → Fits (write k from to why s)
Fits-write k why from to s m h v r = record {
  vram_fits = omega (
    arith,
    vram-write k why from to s m h,
    ap (λ b. b.vram_budget_mb) (budget-write k why from to s),
  );
  ram_fits = omega (
    arith,
    ram-write k why from to s m h,
    ap (λ b. b.ram_budget_mb) (budget-write k why from to s),
  );
}

-- Every step keeps within the budgets.
pub Move-Fits : {s t : Scheduler} → Move s t → Fits s → Fits t
Move-Fits {s} (to_active k why from m l h f c v) p =
    Fits-write k why from active s m h (ground arith) (ground arith)
Move-Fits {s} (to_warm k why m h a o r) p =
    Fits-write k why active warm s m h (ground arith) (ground arith)
Move-Fits {s} (to_cold k why from m h f c) p =
    Fits-write k why from cold s m h (ground arith) (ground arith)
Move-Fits {s} (used k) p = ground (arith, vram-touch k s, ram-touch k s, budget-touch k s)
Move-Fits {s} clock_read p = record {
  vram_fits = unfold vram_used in p.vram_fits;
  ram_fits = unfold ram_used in p.ram_fits;
}

pub Moves-Fits : {s t : Scheduler} → Moves s t → Fits s → Fits t
Moves-Fits here p = p
Moves-Fits (next a m) p = Move-Fits m (Moves-Fits a p)

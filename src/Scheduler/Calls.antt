-- ===== src/Scheduler/Calls.antt =====
-- The scheduler as its users see it: any sequence of calls. The lock makes each call one step, so the
-- interleavings of threads are the lists of calls.
use misaka_asset_gene.Prelude.{
  ℕ, ◌+◌, ◌≤◌, String, ◌≡◌, subst, inl, inr, true, false, Option, none, some, List, [], ◌∷◌, arith,
  ltb, str_eq, eq_iff, Bool-cases, All, total, ok, err, List-cases,
}
use misaka_asset_gene.Prelude.Int.{ℤ}
use misaka_asset_gene.Scheduler.{
  cold, ManagedModel, SchedulerBudget, Scheduler, put, new_scheduler, vram_of, ram_of, vram_used,
  ram_used, register, acquire, demote, evict, tick, begin_training, end_training,
  try_begin_training, active_names, empty_holder,
}
use misaka_asset_gene.Scheduler.Moves.{Moves, demote-Moves, evict-Moves}
use misaka_asset_gene.Scheduler.Bounds.{Fits, Moves-Fits}
use misaka_asset_gene.Scheduler.Candidates.{Fresh, Distinct}
use misaka_asset_gene.Scheduler.Acquire.{IsValid}
use misaka_asset_gene.Scheduler.Valid.{Moves-IsValid, tick-Moves, acquire-Moves}

pub data Call : Type 0 where
  register_call : ManagedModel → Call
  acquire_call : String → Call
  demote_call evict_call : String → String → Call
  tick_call : Option ℤ → Call
  begin_call try_begin_call : String → Call
  end_call : Call

-- What a call leaves behind, whether it returns or raises.
unfoldable pub after : Call → Scheduler → Scheduler
after (register_call m) s = (register m s).1
after (acquire_call k) s = (acquire k s).1
after (demote_call k why) s = (demote k why s).1
after (evict_call k why) s = (evict k why s).1
after (tick_call now) s = (tick now s).1
after (begin_call h) s = (begin_training h s).1
after (try_begin_call h) s = (try_begin_training h s).1
after end_call s = (end_training s).1

unfoldable pub run : List Call → Scheduler → Scheduler
unfolding after
run [] s = s
run (c ∷ cs) s = run cs (after c s)

-- A model is registered with its weights on disk, as `ManagedModel`'s default says.
abbrev pub IsCold : Call → Type 0
IsCold (register_call m) = m.state ≡ cold
IsCold _ = Unit

total-put-le :
    (w : ManagedModel → ℕ) (x : ManagedModel) (ms : List ManagedModel)
    → total w (put x ms) ≤ total w ms + w x
unfolding put
total-put-le w x [] = omega arith
total-put-le w x (m ∷ ms) = elim (Bool-cases (str_eq m.name x.name)) [
  | inl e ↦ rw e (omega arith)
  | inr e ↦ rw e (omega (arith, total-put-le w x ms))
]

pub All-put :
    (P : ManagedModel → Type 0) (x : ManagedModel) (ms : List ManagedModel)
    → P x
    → All P ms
    → All P (put x ms)
unfolding put
All-put P x [] p h = (p, tt)
All-put P x (m ∷ ms) p h = elim (Bool-cases (str_eq m.name x.name)) [
  | inl e ↦ rw e (p, h.1)
  | inr e ↦ rw e (h.0, All-put P x ms p h.1)
]

Distinct-put : (x : ManagedModel) (ms : List ManagedModel) → Distinct ms → Distinct (put x ms)
unfolding put
Distinct-put x [] d = (tt, tt)
Distinct-put x (m ∷ ms) d = elim (Bool-cases (str_eq m.name x.name)) [
  | inl e ↦ rw e (subst (λ j. Fresh j ms) ((eq_iff m.name x.name).0 e) d.0, d.1)
  | inr e ↦ rw e (
    All-put (λ y. str_eq y.name m.name ≡ false) x ms
        (ground (arith, eq_iff m.name x.name, eq_iff x.name m.name)) d.0,
    Distinct-put x ms d.1,
  )
]

-- The invariant between calls.
pub record IsSound (s : Scheduler) : Type 0 where
  pub valid : IsValid s
  pub fits : Fits s

pub Moves-IsSound : {s t : Scheduler} → Moves s t → IsSound s → IsSound t
Moves-IsSound m i = record { valid = Moves-IsValid m i.valid; fits = Moves-Fits m i.fits }

cold_sizes : (m : ManagedModel) → m.state ≡ cold → (vram_of m ≡ 0) × (ram_of m ≡ 0)
cold_sizes m c = ground arith

pub register-IsSound :
    (m : ManagedModel) (s : Scheduler) → m.state ≡ cold → IsSound s → IsSound (register m s).1
unfolding register
register-IsSound m s c i = elim (Bool-cases (ltb s.budget.vram_budget_mb m.vram_mb)) [
  | inl e ↦ rw e i
  | inr e ↦ rw e (record {
    valid = record {
      distinct = Distinct-put m s.models i.valid.distinct;
      sized =
          All-put (λ m. m.vram_mb ≤ s.budget.vram_budget_mb) m s.models (ground arith)
            i.valid.sized;
    };
    fits = record {
      vram_fits =
          unfold vram_used in
          omega (arith, total-put-le vram_of m s.models, cold_sizes m c, i.fits.vram_fits);
      ram_fits =
          unfold ram_used in
          omega (arith, total-put-le ram_of m s.models, cold_sizes m c, i.fits.ram_fits);
    };
  })
]

pub relocked :
    (o : Option String) (s : Scheduler)
    → IsSound s
    → IsSound (record s { training_lock_holder = o })
unfolding vram_used ram_used
relocked o s i = record {
  valid = record { distinct = i.valid.distinct; sized = i.valid.sized };
  fits = record { vram_fits = i.fits.vram_fits; ram_fits = i.fits.ram_fits };
}

begin-IsSound : (h : String) (s : Scheduler) → IsSound s → IsSound (begin_training h s).1
unfolding begin_training
begin-IsSound h s i = elim (Bool-cases (str_eq h "")) [
  | inl e ↦ rw e i
  | inr e ↦ rw e (relocked (some h) s i)
]

pub try_begin_empty :
    (h : String) (s : Scheduler)
    → str_eq h "" ≡ true
    → try_begin_training h s ≡ (err empty_holder, s)
unfolding try_begin_training
try_begin_empty h s e = ground arith

pub try_begin_locks :
    (h : String) (s : Scheduler)
    → str_eq h "" ≡ false
    → active_names s ≡ []
    → try_begin_training h s ≡ (ok [], record s { training_lock_holder = some h })
unfolding try_begin_training
try_begin_locks h s e a = ground arith

pub try_begin_refuses :
    (h : String) (s : Scheduler) (n : String) (ns : List String)
    → str_eq h "" ≡ false
    → active_names s ≡ n ∷ ns
    → try_begin_training h s ≡ (ok (n ∷ ns), s)
unfolding try_begin_training
try_begin_refuses h s n ns e a = ground arith

try_begin-IsSound : (h : String) (s : Scheduler) → IsSound s → IsSound (try_begin_training h s).1
try_begin-IsSound h s i = elim (Bool-cases (str_eq h "")) [
  | inl e ↦ rw (try_begin_empty h s e) i
  | inr e ↦ elim (List-cases (active_names s)) [
    | inl a ↦ rw (try_begin_locks h s e a) (relocked (some h) s i)
    | inr (n, ns, a) ↦ rw (try_begin_refuses h s n ns e a) i
  ]
]

end-IsSound : (s : Scheduler) → IsSound s → IsSound (end_training s).1
unfolding end_training
end-IsSound s i = relocked none s i

pub after-IsSound : (c : Call) (s : Scheduler) → IsCold c → IsSound s → IsSound (after c s)
unfolding after
after-IsSound (register_call m) s c i = register-IsSound m s c i
after-IsSound (acquire_call k) s c i = Moves-IsSound (acquire-Moves k s i.valid) i
after-IsSound (demote_call k why) s c i = Moves-IsSound (demote-Moves k why s) i
after-IsSound (evict_call k why) s c i = Moves-IsSound (evict-Moves k why s) i
after-IsSound (tick_call now) s c i = Moves-IsSound (tick-Moves now s) i
after-IsSound (begin_call h) s c i = begin-IsSound h s i
after-IsSound (try_begin_call h) s c i = try_begin-IsSound h s i
after-IsSound end_call s c i = end-IsSound s i

pub run-IsSound : (cs : List Call) (s : Scheduler) → All IsCold cs → IsSound s → IsSound (run cs s)
unfolding run
run-IsSound [] s c i = i
run-IsSound (x ∷ cs) s c i = run-IsSound cs (after x s) c.1 (after-IsSound x s c.0 i)

pub new-IsSound : (b : SchedulerBudget) (clock : ℕ → ℤ) → IsSound (new_scheduler b clock)
unfolding new_scheduler vram_used ram_used
new-IsSound b clock = record {
  valid = record { distinct = tt; sized = tt };
  fits = record { vram_fits = omega arith; ram_fits = omega arith };
}

-- From an empty scheduler, whatever the calls and their order, the active models fit the VRAM budget
-- and the warm copies the RAM budget, provided that models are registered cold.
pub run_within_budget :
    (b : SchedulerBudget) (clock : ℕ → ℤ) (cs : List Call)
    → All IsCold cs
    → Fits (run cs (new_scheduler b clock))
run_within_budget b clock cs c =
    (run-IsSound cs (new_scheduler b clock) c (new-IsSound b clock)).fits

-- ===== src/Scheduler/Training.antt =====
-- The exclusive training lock: while a job holds it, no call brings a model into VRAM.
use misaka_asset_gene.Prelude.{
  String, ◌≡◌, ◌≢◌, refl, inl, inr, true, false, none, some, List, [], ◌∷◌, arith, ltb, str_eq,
  Bool-cases, All, select, map, ok, List-cases, ◌⊎◌,
}
use misaka_asset_gene.Scheduler.{
  active, cold, ManagedModel, Scheduler, state_eq, register, begin_training, try_begin_training,
  active_names, is_training_locked,
}
use misaka_asset_gene.Scheduler.Moves.{Moves, demote-Moves, evict-Moves, Moves-SameFrame}
use misaka_asset_gene.Scheduler.Valid.{IsIdle, Moves-IsIdle, tick-Moves, acquire-Moves}
use misaka_asset_gene.Scheduler.Calls.{
  Call, register_call, acquire_call, demote_call, evict_call, tick_call, begin_call, try_begin_call,
  end_call, after, run, IsCold, IsSound, Moves-IsSound, register-IsSound, All-put, relocked,
  try_begin_empty, try_begin_locks, try_begin_refuses,
}

-- The names that `try_begin_training` returns are none exactly when no model is in VRAM.
active_names-IsIdle :
    (ms : List ManagedModel)
    → map (λ m. m.name) (select (λ m. state_eq m.state active) ms) ≡ []
    → All (λ m. state_eq m.state active ≡ false) ms
active_names-IsIdle [] h = tt
active_names-IsIdle (m ∷ ms) h = elim (Bool-cases (state_eq m.state active)) [
  | inl a ↦ absurd (cc (rw a at h))
  | inr a ↦ (a, active_names-IsIdle ms (rw a at h))
]

-- A training job holds the lock and no model is in VRAM.
pub record IsTraining (s : Scheduler) : Type 0 where
  pub sound : IsSound s
  pub locked : is_training_locked s ≡ true
  pub idle : IsIdle s

-- The job is not ended by the call.
abbrev pub IsOther : Call → Type 0
IsOther end_call = ⊥
IsOther _ = Unit

locked-ne : (s : Scheduler) → is_training_locked s ≡ true → s.training_lock_holder ≢ none
unfolding is_training_locked
locked-ne s l e = ground arith

Moves-IsTraining : {s t : Scheduler} → Moves s t → IsTraining s → IsTraining t
unfolding is_training_locked
Moves-IsTraining {s} m i = record {
  sound = Moves-IsSound m i.sound;
  locked = ground (arith, i.locked, (Moves-SameFrame m).same_holder);
  idle = Moves-IsIdle m (locked-ne s i.locked) i.idle;
}

register-IsIdle :
    (m : ManagedModel) (s : Scheduler) → m.state ≡ cold → IsIdle s → IsIdle (register m s).1
unfolding register
register-IsIdle m s c i = elim (Bool-cases (ltb s.budget.vram_budget_mb m.vram_mb)) [
  | inl e ↦ rw e i
  | inr e ↦ rw e (All-put (λ m. state_eq m.state active ≡ false) m s.models (ground arith) i)
]

register_holder :
    (m : ManagedModel) (s : Scheduler)
    → (register m s).1.training_lock_holder ≡ s.training_lock_holder
unfolding register
register_holder m s = ground arith

register-IsTraining :
    (m : ManagedModel) (s : Scheduler) → m.state ≡ cold → IsTraining s → IsTraining (register m s).1
unfolding is_training_locked
register-IsTraining m s c i = record {
  sound = register-IsSound m s c i.sound;
  locked = ground (arith, i.locked, register_holder m s);
  idle = register-IsIdle m s c i.idle;
}

begin-IsTraining : (h : String) (s : Scheduler) → IsTraining s → IsTraining (begin_training h s).1
unfolding begin_training is_training_locked
begin-IsTraining h s i = elim (Bool-cases (str_eq h "")) [
  | inl e ↦ rw e i
  | inr e ↦ rw e (record { sound = relocked (some h) s i.sound; locked = refl; idle = i.idle })
]

try_begin-IsTraining :
    (h : String) (s : Scheduler) → IsTraining s → IsTraining (try_begin_training h s).1
unfolding is_training_locked
try_begin-IsTraining h s i = elim (Bool-cases (str_eq h "")) [
  | inl e ↦ rw (try_begin_empty h s e) i
  | inr e ↦ elim (List-cases (active_names s)) [
    | inl a ↦
        rw (try_begin_locks h s e a)
          (record { sound = relocked (some h) s i.sound; locked = refl; idle = i.idle })
    | inr (n, ns, a) ↦ rw (try_begin_refuses h s n ns e a) i
  ]
]

after-IsTraining :
    (c : Call) (s : Scheduler) → IsCold c → IsOther c → IsTraining s → IsTraining (after c s)
unfolding after
after-IsTraining (register_call m) s c o i = register-IsTraining m s c i
after-IsTraining (acquire_call k) s c o i = Moves-IsTraining (acquire-Moves k s i.sound.valid) i
after-IsTraining (demote_call k why) s c o i = Moves-IsTraining (demote-Moves k why s) i
after-IsTraining (evict_call k why) s c o i = Moves-IsTraining (evict-Moves k why s) i
after-IsTraining (tick_call now) s c o i = Moves-IsTraining (tick-Moves now s) i
after-IsTraining (begin_call h) s c o i = begin-IsTraining h s i
after-IsTraining (try_begin_call h) s c o i = try_begin-IsTraining h s i
after-IsTraining end_call s c o i = absurd o

run-IsTraining :
    (cs : List Call) (s : Scheduler)
    → All IsCold cs
    → All IsOther cs
    → IsTraining s
    → IsTraining (run cs s)
unfolding run
run-IsTraining [] s c o i = i
run-IsTraining (x ∷ cs) s c o i =
    run-IsTraining cs (after x s) c.1 o.1 (after-IsTraining x s c.0 o.0 i)

-- `try_begin_training` takes the lock exactly when it returns no name, and then no model is in VRAM;
-- when it returns names or raises, nothing has changed.
pub try_begin_training-IsTraining :
    (h : String) (s : Scheduler)
    → IsSound s
    → ((try_begin_training h s).0 ≡ ok []) × IsTraining (try_begin_training h s).1
      ⊎ ((try_begin_training h s).0 ≢ ok []) × ((try_begin_training h s).1 ≡ s)
unfolding is_training_locked
try_begin_training-IsTraining h s i = elim (Bool-cases (str_eq h "")) [
  | inl e ↦ rw (try_begin_empty h s e) (inr (λ q. cc, refl))
  | inr e ↦ elim (List-cases (active_names s)) [
    | inl a ↦ rw (try_begin_locks h s e a) (
        inl (
          refl,
          record {
            sound = relocked (some h) s i;
            locked = refl;
            idle = unfold active_names in active_names-IsIdle s.models a;
          },
        ))
    | inr (n, ns, a) ↦ rw (try_begin_refuses h s n ns e a) (inr (λ q. cc, refl))
  ]
]

-- Once `try_begin_training` has returned no name, the lock stays held and no model is in VRAM after
-- any further calls but `end_training`, provided that models are registered cold.
pub training_exclusive :
    (h : String) (s : Scheduler) (cs : List Call)
    → IsSound s
    → (try_begin_training h s).0 ≡ ok []
    → All IsCold cs
    → All IsOther cs
    → (is_training_locked (run cs (try_begin_training h s).1) ≡ true)
      × IsIdle (run cs (try_begin_training h s).1)
training_exclusive h s cs i r c o = elim (try_begin_training-IsTraining h s i) [
  | inl p ↦ let t = run-IsTraining cs (try_begin_training h s).1 c o p.1 in (t.locked, t.idle)
  | inr p ↦ absurd (p.0 r)
]

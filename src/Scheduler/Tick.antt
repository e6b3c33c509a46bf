-- ===== src/Scheduler/Tick.antt =====
-- `tick`: the idle models leave VRAM.
use misaka_asset_gene.Prelude.{
  length, String, ◌≡◌, refl, sym, ◌∙◌, subst, inl, inr, true, false, none, some, List, [], ◌∷◌,
  arith, if◌then◌else◌, str_eq, eq_iff, Bool-cases, Option-cases, ok, err, Result, continue,
  some-injective, All,
}
use misaka_asset_gene.Prelude.Int.{◌<ℤ◌, ◌-ℤ◌, ℤ}
use misaka_asset_gene.Scheduler.{
  RuntimeState, active, cold, ManagedModel, Scheduler, Error, state_eq, find, with_state, write,
  get, is_idle_active, is_idle_warm, tick_found, tick_model, tick_models, tick, drop,
}
use misaka_asset_gene.Scheduler.Steps.{
  find-write, find-write-none, demote_active, demote_tier, demote_reason, demote_tier_cases,
  evict_loaded, evict_cold, evict_reason,
}
use misaka_asset_gene.Scheduler.Candidates.{Distinct, find_self}

module _ (now : ℤ) where
  -- The model under a name has not been active and idle past its window.
  Calm : String → Scheduler → Type 0
  Calm j s = (m : ManagedModel) → find j s.models ≡ some m → is_idle_active now m ≡ false

  Calm-write :
      (j k why : String) (from to : RuntimeState) (s : Scheduler)
      → state_eq to active ≡ false
      → Calm j s
      → Calm j (write k from to why s)
  unfolding Calm is_idle_active
  Calm-write j k why from to s q c m' h = elim (Option-cases (find j s.models)) [
    | inl e ↦ cc (find-write-none k j from to why s e, h)
    | inr (m, f) ↦ ground (arith, find-write k j from to why s m f, c m f)
  ]

  Calm-write_self :
      (k why : String) (from to : RuntimeState) (s : Scheduler) (m : ManagedModel)
      → find k s.models ≡ some m
      → state_eq to active ≡ false
      → Calm k (write k from to why s)
  unfolding Calm is_idle_active
  Calm-write_self k why from to s m f q m' h =
      ground (arith, find-write k k from to why s m f, eq_iff k k)

  demote_tier_low : (s : Scheduler) (m : ManagedModel) → state_eq (demote_tier s m) active ≡ false
  demote_tier_low s m = ground (arith, demote_tier_cases s m)

  -- The three outcomes of a round on a model that is there.
  data Round (k : String) (s : Scheduler) (m : ManagedModel) : Scheduler → Type 0 where
    lowered :
        (why : String) (from to : RuntimeState)
        → state_eq to active ≡ false
        → Round k s m (write k from to why s)
    left : is_idle_active now m ≡ false → Round k s m s

  tick_model_active :
      (k : String) (s : Scheduler) (m : ManagedModel)
      → find k s.models ≡ some m
      → is_idle_active now m ≡ true
      → (tick_model now k s).1 ≡ write k active (demote_tier s m) (demote_reason s m "idle") s
  unfolding tick_model get tick_found is_idle_active
  tick_model_active k s m h a = ground (arith, demote_active k "idle" s m h)

  tick_model_warm :
      (k : String) (s : Scheduler) (m : ManagedModel)
      → find k s.models ≡ some m
      → is_idle_active now m ≡ false
      → is_idle_warm now m ≡ true
      → (tick_model now k s).1 ≡ write k m.state cold (evict_reason m.state "idle_cold") s
  unfolding tick_model get tick_found is_idle_active is_idle_warm
  tick_model_warm k s m h a w = ground (arith, evict_loaded k "idle_cold" s m h)

  tick_model_left :
      (k : String) (s : Scheduler) (m : ManagedModel)
      → find k s.models ≡ some m
      → is_idle_active now m ≡ false
      → is_idle_warm now m ≡ false
      → (tick_model now k s).1 ≡ s
  unfolding tick_model get tick_found
  tick_model_left k s m h a w = ground arith

  tick_model-Round :
      (k : String) (s : Scheduler) (m : ManagedModel)
      → find k s.models ≡ some m
      → Round k s m (tick_model now k s).1
  tick_model-Round k s m h = elim (Bool-cases (is_idle_active now m)) [
    | inl a ↦
        rw (tick_model_active k s m h a)
          (lowered (demote_reason s m "idle") active (demote_tier s m) (demote_tier_low s m))
    | inr a ↦ elim (Bool-cases (is_idle_warm now m)) [
      | inl w ↦
          rw (tick_model_warm k s m h a w)
            (lowered (evict_reason m.state "idle_cold") m.state cold refl)
      | inr w ↦ rw (tick_model_left k s m h a w) (left a)
    ]
  ]

  tick_model_missing :
      (k : String) (s : Scheduler) → find k s.models ≡ none → (tick_model now k s).1 ≡ s
  unfolding tick_model get
  tick_model_missing k s h = ground arith

  Round-Calm :
      (k j : String) {s t : Scheduler} {m : ManagedModel} → Round k s m t → Calm j s → Calm j t
  Round-Calm k j {s} (lowered why from to q) c = Calm-write j k why from to s q c
  Round-Calm k j (left a) c = c

  Round-Calm_self :
      (k : String) {s t : Scheduler} {m : ManagedModel}
      → Round k s m t
      → find k s.models ≡ some m
      → Calm k t
  Round-Calm_self k {s} {m = m} (lowered why from to q) h = Calm-write_self k why from to s m h q
  Round-Calm_self k {m = m} (left a) h =
      unfold Calm in
      λ m' h'. subst (λ x. is_idle_active now x ≡ false) (some-injective (sym h ∙ h')) a

  -- A round leaves calm what was calm, and makes its own model calm.
  tick_model-Calm : (k j : String) (s : Scheduler) → Calm j s → Calm j (tick_model now k s).1
  tick_model-Calm k j s c = elim (Option-cases (find k s.models)) [
    | inl e ↦ rw (tick_model_missing k s e) c
    | inr (m, h) ↦ Round-Calm k j (tick_model-Round k s m h) c
  ]

  tick_model-Calm_self : (k : String) (s : Scheduler) → Calm k (tick_model now k s).1
  tick_model-Calm_self k s = elim (Option-cases (find k s.models)) [
    | inl e ↦ rw (tick_model_missing k s e) (unfold Calm in λ m h. cc)
    | inr (m, h) ↦ Round-Calm_self k (tick_model-Round k s m h) h
  ]

  tick_models-Calm :
      (ms : List ManagedModel) (j : String) (s : Scheduler)
      → Calm j s
      → Calm j (tick_models now ms s).1
  unfolding tick_models
  tick_models-Calm [] j s c = c
  tick_models-Calm (m ∷ ms) j s c =
      after (tick_model now m.name s) (tick_model-Calm m.name j s c) (tick_models-Calm ms j)
    where
      after :
          (r : Result Error (Unit {0}) × Scheduler)
          → Calm j r.1
          → ((t : Scheduler) → Calm j t → Calm j (tick_models now ms t).1)
          → Calm j (continue (λ _. tick_models now ms) r).1
      after (ok a, t) c ih = ih t c
      after (err e, t) c ih = c

  -- The table has a model under a name.
  abbrev Present : String → Scheduler → Type 0
  Present j s = (m : ManagedModel) × (find j s.models ≡ some m)

  Round-Present :
      (k j : String) {s t : Scheduler} {m : ManagedModel}
      → Round k s m t
      → Present j s
      → Present j t
  Round-Present k j {s} (lowered why from to q) (m, h) =
      (if str_eq k j then with_state to m else m, find-write k j from to why s m h)
  Round-Present k j (left a) p = p

  tick_model-Present :
      (k j : String) (s : Scheduler) → Present j s → Present j (tick_model now k s).1
  tick_model-Present k j s p = elim (Option-cases (find k s.models)) [
    | inl e ↦ rw (tick_model_missing k s e) p
    | inr (m, h) ↦ Round-Present k j (tick_model-Round k s m h) p
  ]

  -- A round on a model that is there does not raise.
  tick_model_ok :
      (k : String) (s : Scheduler) (m : ManagedModel)
      → find k s.models ≡ some m
      → (tick_model now k s).0 ≡ ok tt
  unfolding tick_model get tick_found is_idle_active
  tick_model_ok k s m h = ground (
    arith,
    demote_active k "idle" s m h,
    evict_loaded k "idle_cold" s m h,
    evict_cold k "idle_cold" s m h,
  )

  All-Present :
      (k : String) (ms : List ManagedModel) (s : Scheduler)
      → All (λ m. Present m.name s) ms
      → All (λ m. Present m.name (tick_model now k s).1) ms
  All-Present k [] s p = tt
  All-Present k (m ∷ ms) s p = (tick_model-Present k m.name s p.0, All-Present k ms s p.1)

  -- The loop of `tick` over models that are there never raises, and makes each of them calm.
  tick_models_done :
      (ms : List ManagedModel) (s : Scheduler)
      → All (λ m. Present m.name s) ms
      → ((tick_models now ms s).0 ≡ ok tt) × All (λ m. Calm m.name (tick_models now ms s).1) ms
  unfolding tick_models
  tick_models_done [] s p = (refl, tt)
  tick_models_done (m ∷ ms) s p =
      after (tick_model now m.name s) (tick_model_ok m.name s p.0.0 p.0.1)
        (tick_model-Calm_self m.name s)
        (tick_models_done ms (tick_model now m.name s).1 (All-Present m.name ms s p.1))
    where
      after :
          (r : Result Error (Unit {0}) × Scheduler)
          → r.0 ≡ ok tt
          → Calm m.name r.1
          → ((tick_models now ms r.1).0 ≡ ok tt)
            × All (λ m. Calm m.name (tick_models now ms r.1).1) ms
          → ((continue (λ _. tick_models now ms) r).0 ≡ ok tt)
            × (Calm m.name (continue (λ _. tick_models now ms) r).1
                × All (λ m. Calm m.name (continue (λ _. tick_models now ms) r).1) ms)
      after (err e, t) q c h = absurd (cc q)
      after (ok a, t) q c h = (h.0, (tick_models-Calm ms m.name t c, h.1))

  found_Calm :
      (k : String) (ms : List ManagedModel) (t : Scheduler) (m : ManagedModel)
      → find k ms ≡ some m
      → All (λ m. Calm m.name t) ms
      → Calm k t
  unfolding find
  found_Calm k [] t m h c = cc
  found_Calm k (x ∷ ms) t m h c = elim (Bool-cases (str_eq x.name k)) [
    | inl e ↦ subst (λ j. Calm j t) ((eq_iff x.name k).0 e) c.0
    | inr e ↦ found_Calm k ms t m (rw e at h) c.1
  ]

  find_self-Present :
      (ms : List ManagedModel) (s : Scheduler)
      → All (λ m. find m.name s.models ≡ some m) ms
      → All (λ m. Present m.name s) ms
  find_self-Present [] s h = tt
  find_self-Present (m ∷ ms) s h = ((m, h.0), find_self-Present ms s h.1)

continue-state :
    {A B : Type 0} (g : Scheduler → B) (r : Result Error A × Scheduler)
    → (continue (λ _ t. (ok (g t), t)) r).1 ≡ r.1
continue-state g (ok a, t) = refl
continue-state g (err e, t) = refl

continue-result :
    {A B : Type 0} (g : Scheduler → B) (r : Result Error A × Scheduler) (a : A)
    → r.0 ≡ ok a
    → (continue (λ _ t. (ok (g t), t)) r).0 ≡ ok (g r.1)
continue-result g (ok a, t) b h = refl
continue-result g (err e, t) b h = absurd (cc h)

tick_state : (now : ℤ) (s : Scheduler) → (tick (some now) s).1 ≡ (tick_models now s.models s).1
unfolding tick
tick_state now s = continue-state _ (tick_models now s.models s)

-- `tick` on distinct names does not raise, and returns the part of the log that it has added.
pub tick_result :
    (now : ℤ) (s : Scheduler)
    → Distinct s.models
    → (tick (some now) s).0 ≡ ok (drop (length s.transitions) (tick (some now) s).1.transitions)
unfolding tick
tick_result now s d =
    let done =
      tick_models_done now s.models s (find_self-Present now s.models s (find_self s.models d)) in
    rw
      (continue-state (λ t. drop (length s.transitions) t.transitions) (tick_models now s.models s))
      (continue-result (λ t. drop (length s.transitions) t.transitions) (tick_models now s.models s)
        tt done.0)

tick-Calm :
    (now : ℤ) (s : Scheduler) (k : String) (m : ManagedModel)
    → Distinct s.models
    → find k s.models ≡ some m
    → Calm now k (tick (some now) s).1
tick-Calm now s k m d h =
    let done =
      tick_models_done now s.models s (find_self-Present now s.models s (find_self s.models d)) in
    subst (Calm now k) (sym (tick_state now s))
      (found_Calm now k s.models (tick_models now s.models s).1 m h done.1)

-- After `tick` at a given time, a registered model that is still active has been idle for less than
-- its window.
pub tick-idle :
    (now : ℤ) (s : Scheduler) (k : String) (m m' : ManagedModel)
    → Distinct s.models
    → find k s.models ≡ some m
    → find k (tick (some now) s).1.models ≡ some m'
    → m'.state ≡ active
    → now -ℤ m'.last_used_at <ℤ m'.idle_offload_sec
unfolding Calm is_idle_active
tick-idle now s k m m' d h h' a = ground (arith, tick-Calm now s k m d h m' h')

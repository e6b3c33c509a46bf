-- ===== src/Scheduler/Acquire.antt =====
-- `acquire` and the eviction before it.
use misaka_asset_gene.Prelude.{
  ap, ◌+◌, ◌≤◌, String, ◌≡◌, refl, sym, ◌∙◌, subst, ◌⊎◌, inl, inr, false, none, some, List, [], ◌∷◌,
  arith, if◌then◌else◌, total, str_eq, All, Bool-cases, ok, err, eq_iff, Result, continue,
}
use misaka_asset_gene.Scheduler.{
  RuntimeState, active, ManagedModel, Scheduler, Error, state_eq, find, with_state, vram_of, write,
  touch, vram_used, demote, evict_while_over, free_vram_for, candidates, is_over, acquire, promote,
  restore_reason, with_last_used,
}
use text.Mathlib.TextPositions.{eq_refl}
use misaka_asset_gene.Scheduler.Table.{find-update, find_name, All-find}
use misaka_asset_gene.Scheduler.Steps.{
  find-write, demote_active, demote_tier, demote_reason, demote_tier_cases,
}
use misaka_asset_gene.Scheduler.Moves.{
  Moves, next, to_active, used, evict_while_over-Moves, Moves-SameFrame, state_eq-eq,
}
use misaka_asset_gene.Scheduler.Bounds.{vram-write, vram-touch}
use misaka_asset_gene.Scheduler.Candidates.{
  Distinct, IsCandidate, candidates-IsCandidate, candidates-Distinct, total-candidates, Fresh,
}

-- One demotion of a candidate: it succeeds, frees the candidate's VRAM, and changes no other model.
demote_candidate_result :
    (c : ManagedModel) (s : Scheduler)
    → find c.name s.models ≡ some c
    → c.state ≡ active
    → (demote c.name "vram_pressure" s).0 ≡ ok (demote_tier s c)
demote_candidate_result c s h a = rw (demote_active c.name "vram_pressure" s c h a)

demote_candidate_vram :
    (c : ManagedModel) (s : Scheduler)
    → find c.name s.models ≡ some c
    → c.state ≡ active
    → vram_used (demote c.name "vram_pressure" s).1 + vram_of c ≡ vram_used s
demote_candidate_vram c s h a =
    let why = demote_reason s c "vram_pressure" in
    let tier = demote_tier s c in
    rw (demote_active c.name "vram_pressure" s c h a)
      (ground (arith, vram-write c.name why active tier s c h, demote_tier_cases s c, a))

demote_candidate_other :
    (c : ManagedModel) (j : String) (s : Scheduler) (m : ManagedModel)
    → find c.name s.models ≡ some c
    → c.state ≡ active
    → str_eq c.name j ≡ false
    → find j s.models ≡ some m
    → find j (demote c.name "vram_pressure" s).1.models ≡ some m
demote_candidate_other c j s m h a n g =
    rw (demote_active c.name "vram_pressure" s c h a) (
      rw
        (find-write c.name j active (demote_tier s c) (demote_reason s c "vram_pressure") s m g, n))

-- The candidates that are left are still as they were.
others_stay :
    (c : ManagedModel) (incoming : ManagedModel) (s : Scheduler) (cs : List ManagedModel)
    → IsCandidate incoming s c
    → Fresh c.name cs
    → All (IsCandidate incoming s) cs
    → All (IsCandidate incoming (demote c.name "vram_pressure" s).1) cs
others_stay c incoming s [] i f h = tt
others_stay c incoming s (x ∷ xs) i f h = (
  record {
    found =
        demote_candidate_other c x.name s x i.found i.loaded
          (ground (arith, f.0, eq_iff x.name c.name, eq_iff c.name x.name)) h.0.found;
    other = h.0.other;
    loaded = h.0.loaded;
  },
  others_stay c incoming s xs i f.1 h.1,
)

-- The eviction loop succeeds, leaves the incoming model alone, and ends within the budget or with
-- the VRAM of all candidates freed.
pub record Evicted (incoming : ManagedModel) (cs : List ManagedModel) (s : Scheduler)
    (r : Result Error (Unit {0}) × Scheduler) : Type 0 where
  pub succeeds : r.0 ≡ ok tt
  pub kept : find incoming.name r.1.models ≡ some incoming
  pub freed :
      (is_over incoming (vram_of incoming) r.1 ≡ false)
      ⊎ (vram_used r.1 + total vram_of cs ≡ vram_used s)

Evicted-next :
    (incoming c : ManagedModel) (cs : List ManagedModel) (s : Scheduler)
    (r : Result Error RuntimeState × Scheduler) (st : RuntimeState)
    → r.0 ≡ ok st
    → vram_used r.1 + vram_of c ≡ vram_used s
    → Evicted incoming cs r.1 (evict_while_over incoming (vram_of incoming) cs r.1)
    → Evicted incoming
        (c ∷ cs)
        s
        (continue (λ _. evict_while_over incoming (vram_of incoming) cs) r)
Evicted-next incoming c cs s (err e, t) st h v q = cc
Evicted-next incoming c cs s (ok a, t) st h v q = record {
  succeeds = q.succeeds;
  kept = q.kept;
  freed = freed_next q.freed;
}
  where
    freed_next :
        let r = evict_while_over incoming (vram_of incoming) cs t in
        (is_over incoming (vram_of incoming) r.1 ≡ false)
          ⊎ (vram_used r.1 + total vram_of cs ≡ vram_used t)
        → (is_over incoming (vram_of incoming) r.1 ≡ false)
          ⊎ (vram_used r.1 + total vram_of (c ∷ cs) ≡ vram_used s)
    freed_next (inl f) = inl f
    freed_next (inr f) = inr (omega (arith, v, f))

pub evict_while_over-Evicted :
    (incoming : ManagedModel) (cs : List ManagedModel) (s : Scheduler)
    → All (IsCandidate incoming s) cs
    → Distinct cs
    → find incoming.name s.models ≡ some incoming
    → Evicted incoming cs s (evict_while_over incoming (vram_of incoming) cs s)
unfolding evict_while_over
evict_while_over-Evicted incoming [] s i d h = record {
  succeeds = refl;
  kept = h;
  freed = inr (omega arith);
}
evict_while_over-Evicted incoming (c ∷ cs) s i d h =
    elim (Bool-cases (is_over incoming (vram_of incoming) s)) [
      | inr o ↦ rw o (record { succeeds = refl; kept = h; freed = inl o })
      | inl o ↦
          let i' = others_stay c incoming s cs i.0 d.0 i.1 in
          let h' =
            demote_candidate_other c incoming.name s incoming i.0.found i.0.loaded i.0.other h in
          rw o (
            Evicted-next incoming c cs s (demote c.name "vram_pressure" s) (demote_tier s c)
              (demote_candidate_result c s i.0.found i.0.loaded)
              (demote_candidate_vram c s i.0.found i.0.loaded)
              (evict_while_over-Evicted incoming cs (demote c.name "vram_pressure" s).1 i' d.1 h'))
    ]

-- What keeps `acquire` from failing: names are keys, and `register` has admitted every model.
pub record IsValid (s : Scheduler) : Type 0 where
  pub distinct : Distinct s.models
  pub sized : All (λ m. m.vram_mb ≤ s.budget.vram_budget_mb) s.models

-- The state after a successful `_free_vram_for`.
pub record Freed (m : ManagedModel) (s : Scheduler) (r : Result Error (Unit {0}) × Scheduler)
    : Type 0 where
  pub moved : Moves s r.1
  pub result : r.0 ≡ ok tt
  pub kept : find m.name r.1.models ≡ some m
  pub room : is_over m (vram_of m) r.1 ≡ false

Freed-test :
    (m : ManagedModel) (s : Scheduler) (r : Result Error (Unit {0}) × Scheduler)
    → Moves s r.1
    → Evicted m (candidates m s) s r
    → total vram_of (candidates m s) + vram_of m ≡ vram_used s
    → m.vram_mb ≤ s.budget.vram_budget_mb
    → Freed m s (
        continue
          (λ _ t.
            if is_over m (vram_of m) t then (err (Error.cannot_fit m.name), t) else (ok tt, t))
          r)
Freed-test m s (err e, t) mv q c z = absurd (cc (q.succeeds))
Freed-test m s (ok a, t) mv q c z =
    let room : is_over m (vram_of m) t ≡ false = elim q.freed [
      | inl f ↦ f
      | inr f ↦ ground (arith, f, c, z, ap (λ b. b.vram_budget_mb) (Moves-SameFrame mv).same_budget)
    ] in
    rw room (record { moved = mv; result = refl; kept = q.kept; room = room })

pub free_vram_for-Freed :
    (m : ManagedModel) (s : Scheduler)
    → Distinct s.models
    → find m.name s.models ≡ some m
    → m.vram_mb ≤ s.budget.vram_budget_mb
    → Freed m s (free_vram_for m s)
unfolding free_vram_for
free_vram_for-Freed m s d h z =
    Freed-test m s (evict_while_over m (vram_of m) (candidates m s) s)
      (evict_while_over-Moves m (vram_of m) (candidates m s) s)
      (evict_while_over-Evicted m (candidates m s) s (candidates-IsCandidate m s d)
        (candidates-Distinct m s d) h)
      (total-candidates m s d h) z

find-touch :
    (k : String) (s : Scheduler) (m : ManagedModel)
    → find k s.models ≡ some m
    → find k (touch k s).models ≡ some (with_last_used (s.clock s.reads) m)
unfolding touch
find-touch k s m h =
    rw (find-update k k (with_last_used (s.clock s.reads)) s.models (λ m. refl), h, eq_refl)

promote_active :
    (k : String) (previous : RuntimeState) (s : Scheduler) (m : ManagedModel)
    → find k s.models ≡ some m
    → m.state ≡ active
    → promote k previous s ≡ (ok active, touch k s)
unfolding promote
promote_active k previous s m h a = ground (arith, find-touch k s m h)

promote_idle :
    (k : String) (previous : RuntimeState) (s : Scheduler) (m : ManagedModel)
    → find k s.models ≡ some m
    → state_eq m.state active ≡ false
    → promote k previous s
      ≡ (ok active, touch k (write k m.state active (restore_reason previous) s))
unfolding promote
promote_idle k previous s m h a =
    let why = restore_reason previous in
    let t = write k m.state active why s in
    ground (
      arith,
      eq_refl k,
      find-write k k m.state active why s m h,
      find-touch k t (with_state active m),
    )

-- What a successful call of `acquire` leaves behind.
pub record Acquired (k : String) (s : Scheduler) (r : Result Error RuntimeState × Scheduler)
    : Type 0 where
  pub moved : Moves s r.1
  pub result : r.0 ≡ ok active
  pub loaded : (m : ManagedModel) × (find k r.1.models ≡ some m) × (m.state ≡ active)
  pub fits : vram_used r.1 ≤ s.budget.vram_budget_mb

Acquired-promote :
    (k : String) (s t : Scheduler) (m : ManagedModel)
    → Moves s t
    → s.training_lock_holder ≡ none
    → find k t.models ≡ some m
    → is_over m (vram_of m) t ≡ false
    → Acquired k s (promote k m.state t)
Acquired-promote k s t m mv l h o = elim (Bool-cases (state_eq m.state active)) [
  | inl a ↦ rw (promote_active k m.state t m h (state_eq-eq m.state active a)) (record {
    moved = next mv (used k);
    result = refl;
    loaded = (with_last_used (t.clock t.reads) m, find-touch k t m h, state_eq-eq m.state active a);
    fits = ground (arith, vram-touch k t, same_vram_budget);
  })
  | inr i ↦
      let why = restore_reason m.state in
      let u = write k m.state active why t in
      let room : vram_used t + m.vram_mb ≤ t.budget.vram_budget_mb = ground arith in
      let loaded : find k u.models ≡ some (with_state active m) =
        rw (find-write k k m.state active why t m h, eq_refl) refl in
      rw (promote_idle k m.state t m h i) (record {
        moved =
            next
              (next mv
                (to_active k why m.state m ((Moves-SameFrame mv).same_holder ∙ l) h refl i room))
              (used k);
        result = refl;
        loaded = (
          with_last_used (u.clock u.reads) (with_state active m),
          find-touch k u (with_state active m) loaded,
          refl,
        );
        fits =
            ground (
              arith,
              vram-touch k u,
              vram-write k why m.state active t m h,
              same_vram_budget,
              room,
            );
      })
]
  where
    same_vram_budget : t.budget.vram_budget_mb ≡ s.budget.vram_budget_mb
    same_vram_budget = ap (λ b. b.vram_budget_mb) (Moves-SameFrame mv).same_budget

acquire_unlocked_found :
    (k : String) (s : Scheduler) (m : ManagedModel)
    → s.training_lock_holder ≡ none
    → find k s.models ≡ some m
    → acquire k s ≡ continue (λ _. promote k m.state) (free_vram_for m s)
unfolding acquire
acquire_unlocked_found k s m l h = ground arith

-- With no training job and valid models, `acquire` of a registered model always succeeds: the model
-- becomes active, the VRAM in use is within the budget, and only permitted steps are taken.
pub acquire-Acquired :
    (k : String) (s : Scheduler) (m : ManagedModel)
    → IsValid s
    → s.training_lock_holder ≡ none
    → find k s.models ≡ some m
    → Acquired k s (acquire k s)
acquire-Acquired k s m v l h =
    let named = find_name k s.models m h in
    let freed =
      free_vram_for-Freed m s v.distinct (subst (λ j. find j s.models ≡ some m) (sym named) h)
        (All-find (λ m. m.vram_mb ≤ s.budget.vram_budget_mb) k s.models m v.sized h) in
    rw (acquire_unlocked_found k s m l h) (
      after (free_vram_for m s) freed.moved freed.result
        (subst (λ j. find j (free_vram_for m s).1.models ≡ some m) named freed.kept) freed.room)
  where
    after :
        (r : Result Error (Unit {0}) × Scheduler)
        → Moves s r.1
        → r.0 ≡ ok tt
        → find k r.1.models ≡ some m
        → is_over m (vram_of m) r.1 ≡ false
        → Acquired k s (continue (λ _. promote k m.state) r)
    after (err e, t) mv q f o = absurd (cc q)
    after (ok a, t) mv q f o = Acquired-promote k s t m mv l f o

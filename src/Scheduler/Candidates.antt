-- ===== src/Scheduler/Candidates.antt =====
-- The eviction candidates of `_free_vram_for`: which models they are, and what they hold in sum.
use misaka_asset_gene.Prelude.{
  ℕ, ◌+◌, String, ◌≡◌, refl, inl, inr, Bool, true, false, not, ◌&&◌, some, List, [], ◌∷◌, arith,
  str_eq, eq_iff, Bool-cases, some-injective, ap, select, total, All,
}
use misaka_asset_gene.Prelude.Int.{ltb_ℤ}
use misaka_asset_gene.Scheduler.{
  active, ManagedModel, Scheduler, state_eq, find, insert_by_use, sort_by_use, candidates, vram_of,
  vram_used,
}

-- Every model stands under a name of its own, as the keys of a dict do.
abbrev pub Fresh : String → List ManagedModel → Type 0
Fresh k ms = All (λ m. str_eq m.name k ≡ false) ms

abbrev pub Distinct : List ManagedModel → Type 0
Distinct [] = Unit
Distinct (m ∷ ms) = Fresh m.name ms × Distinct ms

module _ (P : ManagedModel → Type 0) where
  All-insert_by_use :
      (x : ManagedModel) (ms : List ManagedModel) → P x → All P ms → All P (insert_by_use x ms)
  unfolding insert_by_use
  All-insert_by_use x [] p h = (p, tt)
  All-insert_by_use x (m ∷ ms) p h = elim (Bool-cases (ltb_ℤ m.last_used_at x.last_used_at)) [
    | inl e ↦ rw e (h.0, All-insert_by_use x ms p h.1)
    | inr e ↦ rw e (p, h)
  ]

  All-sort_by_use : (ms : List ManagedModel) → All P ms → All P (sort_by_use ms)
  unfolding sort_by_use
  All-sort_by_use [] h = tt
  All-sort_by_use (m ∷ ms) h = All-insert_by_use m (sort_by_use ms) h.0 (All-sort_by_use ms h.1)

  All-select : (p : ManagedModel → Bool) (ms : List ManagedModel) → All P ms → All P (select p ms)
  All-select p [] h = tt
  All-select p (m ∷ ms) h = elim (Bool-cases (p m)) [
    | inl e ↦ rw e (h.0, All-select p ms h.1)
    | inr e ↦ rw e (All-select p ms h.1)
  ]

passes-select :
    (p : ManagedModel → Bool) (ms : List ManagedModel) → All (λ m. p m ≡ true) (select p ms)
passes-select p [] = tt
passes-select p (m ∷ ms) = elim (Bool-cases (p m)) [
  | inl e ↦ rw e (e, passes-select p ms)
  | inr e ↦ rw e (passes-select p ms)
]

total-insert_by_use :
    (w : ManagedModel → ℕ) (x : ManagedModel) (ms : List ManagedModel)
    → total w (insert_by_use x ms) ≡ w x + total w ms
unfolding insert_by_use
total-insert_by_use w x [] = refl
total-insert_by_use w x (m ∷ ms) = elim (Bool-cases (ltb_ℤ m.last_used_at x.last_used_at)) [
  | inl e ↦ rw e (omega (arith, total-insert_by_use w x ms))
  | inr e ↦ rw e refl
]

total-sort_by_use :
    (w : ManagedModel → ℕ) (ms : List ManagedModel) → total w (sort_by_use ms) ≡ total w ms
unfolding sort_by_use
total-sort_by_use w [] = refl
total-sort_by_use w (m ∷ ms) =
    omega (arith, total-insert_by_use w m (sort_by_use ms), total-sort_by_use w ms)

Distinct-insert_by_use :
    (x : ManagedModel) (ms : List ManagedModel)
    → Fresh x.name ms
    → Distinct ms
    → Distinct (insert_by_use x ms)
unfolding insert_by_use
Distinct-insert_by_use x [] f d = (tt, tt)
Distinct-insert_by_use x (m ∷ ms) f d = elim (Bool-cases (ltb_ℤ m.last_used_at x.last_used_at)) [
  | inl e ↦ rw e (
    All-insert_by_use (λ y. str_eq y.name m.name ≡ false) x ms
        (ground (arith, f.0, eq_iff m.name x.name, eq_iff x.name m.name)) d.0,
    Distinct-insert_by_use x ms f.1 d.1,
  )
  | inr e ↦ rw e (f, d)
]

Distinct-sort_by_use : (ms : List ManagedModel) → Distinct ms → Distinct (sort_by_use ms)
unfolding sort_by_use
Distinct-sort_by_use [] d = tt
Distinct-sort_by_use (m ∷ ms) d =
    Distinct-insert_by_use m (sort_by_use ms)
      (All-sort_by_use (λ y. str_eq y.name m.name ≡ false) ms d.0) (Distinct-sort_by_use ms d.1)

Distinct-select :
    (p : ManagedModel → Bool) (ms : List ManagedModel) → Distinct ms → Distinct (select p ms)
Distinct-select p [] d = tt
Distinct-select p (m ∷ ms) d = elim (Bool-cases (p m)) [
  | inl e ↦ rw e (All-select (λ y. str_eq y.name m.name ≡ false) p ms d.0, Distinct-select p ms d.1)
  | inr e ↦ rw e (Distinct-select p ms d.1)
]

-- A model of a table with distinct names is what a read under its name gives.
find-skip :
    (m : ManagedModel) (ms xs : List ManagedModel)
    → Fresh m.name xs
    → All (λ x. find x.name ms ≡ some x) xs
    → All (λ x. find x.name (m ∷ ms) ≡ some x) xs
unfolding find
find-skip m ms [] f h = tt
find-skip m ms (x ∷ xs) f h = (
  ground (arith, f.0, h.0, eq_iff x.name m.name, eq_iff m.name x.name),
  find-skip m ms xs f.1 h.1,
)

pub find_self : (ms : List ManagedModel) → Distinct ms → All (λ m. find m.name ms ≡ some m) ms
unfolding find
find_self [] d = tt
find_self (m ∷ ms) d =
    (ground (arith, eq_iff m.name m.name), find-skip m ms ms d.0 (find_self ms d.1))

-- The test of the candidates.
abbrev is_other : ManagedModel → ManagedModel → Bool
is_other incoming m = not (str_eq m.name incoming.name) && state_eq m.state active

pub record IsCandidate (incoming : ManagedModel) (s : Scheduler) (m : ManagedModel) : Type 0 where
  pub found : find m.name s.models ≡ some m
  pub other : str_eq m.name incoming.name ≡ false
  pub loaded : m.state ≡ active

IsCandidate-zip :
    (incoming : ManagedModel) (s : Scheduler) (ms : List ManagedModel)
    → All (λ m. find m.name s.models ≡ some m) ms
    → All (λ m. is_other incoming m ≡ true) ms
    → All (IsCandidate incoming s) ms
IsCandidate-zip incoming s [] f h = tt
IsCandidate-zip incoming s (m ∷ ms) f h = (
  record { found = f.0; other = ground (arith, h.0); loaded = ground (arith, h.0) },
  IsCandidate-zip incoming s ms f.1 h.1,
)

pub candidates-IsCandidate :
    (incoming : ManagedModel) (s : Scheduler)
    → Distinct s.models
    → All (IsCandidate incoming s) (candidates incoming s)
unfolding candidates
candidates-IsCandidate incoming s d = All-sort_by_use (IsCandidate incoming s) _ (
    IsCandidate-zip incoming s _
      (All-select (λ m. find m.name s.models ≡ some m) (is_other incoming) s.models
        (find_self s.models d))
      (passes-select (is_other incoming) s.models))

pub candidates-Distinct :
    (incoming : ManagedModel) (s : Scheduler) → Distinct s.models → Distinct (candidates incoming s)
unfolding candidates
candidates-Distinct incoming s d =
    Distinct-sort_by_use _ (Distinct-select (is_other incoming) s.models d)

total-Fresh :
    (incoming : ManagedModel) (ms : List ManagedModel)
    → Fresh incoming.name ms
    → total vram_of (select (is_other incoming) ms) ≡ total vram_of ms
total-Fresh incoming [] f = refl
total-Fresh incoming (m ∷ ms) f = elim (Bool-cases (state_eq m.state active)) [
  | inl a ↦ rw (f.0, a) (grind (arith, f.0, a, total-Fresh incoming ms f.1))
  | inr a ↦ rw (f.0, a) (grind (arith, f.0, a, total-Fresh incoming ms f.1))
]

total_others :
    (incoming : ManagedModel) (ms : List ManagedModel)
    → Distinct ms
    → find incoming.name ms ≡ some incoming
    → total vram_of (select (is_other incoming) ms) + vram_of incoming ≡ total vram_of ms
unfolding find
total_others incoming [] d h = cc
total_others incoming (m ∷ ms) d h = elim (Bool-cases (str_eq m.name incoming.name)) [
  | inl e ↦
      let same : m ≡ incoming = some-injective (rw e at h) in
      rw e
        (rw (total-Fresh incoming ms (rw (ap (λ x. x.name) same) at d.0)) (rw same (omega arith)))
  | inr e ↦ elim (Bool-cases (state_eq m.state active)) [
    | inl a ↦ rw (e, a) (grind (arith, a, total_others incoming ms d.1 (rw e at h)))
    | inr a ↦ rw (e, a) (grind (arith, a, total_others incoming ms d.1 (rw e at h)))
  ]
]

-- Together with the incoming model, the candidates hold all the VRAM in use.
pub total-candidates :
    (incoming : ManagedModel) (s : Scheduler)
    → Distinct s.models
    → find incoming.name s.models ≡ some incoming
    → total vram_of (candidates incoming s) + vram_of incoming ≡ vram_used s
unfolding candidates vram_used
total-candidates incoming s d h =
    rw (total-sort_by_use vram_of (select (is_other incoming) s.models))
      (total_others incoming s.models d h)

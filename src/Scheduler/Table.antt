-- ===== src/Scheduler/Table.antt =====
-- The table of models: reads after writes, and sums over the models under a write.
use misaka_asset_gene.Prelude.{
  ℕ, ◌+◌, ◌≤◌, String, ◌≡◌, subst, inl, inr, some, List, [], ◌∷◌, arith, str_eq, eq_iff,
  if◌then◌else◌, Bool-cases, some-injective, total, All,
}
use misaka_asset_gene.Scheduler.{ManagedModel, find, update}
use mathlib.Core.Option

-- A write that keeps names is seen under its own name alone.
pub find-update :
    (k j : String) (f : ManagedModel → ManagedModel) (ms : List ManagedModel)
    → ((m : ManagedModel) → (f m).name ≡ m.name)
    → find j (update k f ms) ≡ (if str_eq k j then Option.map f (find j ms) else find j ms)
unfolding find update
find-update k j f [] keep = ground arith
find-update k j f (m ∷ ms) keep = ground (
  arith,
  keep m,
  eq_iff m.name k,
  eq_iff m.name j,
  eq_iff k j,
  eq_iff (f m).name j,
  find-update k j f ms keep,
)

pub find_name :
    (k : String) (ms : List ManagedModel) (m : ManagedModel) → find k ms ≡ some m → m.name ≡ k
unfolding find
find_name k [] m h = cc
find_name k (x ∷ ms) m h = ground (arith, eq_iff x.name k, find_name k ms m)

-- A write moves a sum by the change of the one summand.
pub total-update :
    (w : ManagedModel → ℕ) (k : String) (f : ManagedModel → ManagedModel) (ms : List ManagedModel)
    (m : ManagedModel)
    → find k ms ≡ some m
    → total w (update k f ms) + w m ≡ total w ms + w (f m)
unfolding find update
total-update w k f [] m h = cc
total-update w k f (x ∷ ms) m h = elim (Bool-cases (str_eq x.name k)) [
  | inl e ↦ let g : x ≡ m = some-injective (rw e at h) in rw (e, ← g) (omega arith)
  | inr e ↦ rw e (omega (arith, total-update w k f ms m (rw e at h)))
]

pub total-ge-find :
    (w : ManagedModel → ℕ) (k : String) (ms : List ManagedModel) (m : ManagedModel)
    → find k ms ≡ some m
    → w m ≤ total w ms
unfolding find
total-ge-find w k [] m h = cc
total-ge-find w k (x ∷ ms) m h = ground (arith, total-ge-find w k ms m, eq_iff x.name k)

pub All-update {ℓ} :
    (P : ManagedModel → Type ℓ) (k : String) (f : ManagedModel → ManagedModel)
    (ms : List ManagedModel)
    → ((m : ManagedModel) → P m → P (f m))
    → All P ms
    → All P (update k f ms)
unfolding update
All-update P k f [] keep h = tt
All-update P k f (x ∷ ms) keep h = elim (Bool-cases (str_eq x.name k)) [
  | inl e ↦ rw e (keep x h.0, h.1)
  | inr e ↦ rw e (h.0, All-update P k f ms keep h.1)
]

pub All-find {ℓ} :
    (P : ManagedModel → Type ℓ) (k : String) (ms : List ManagedModel) (m : ManagedModel)
    → All P ms
    → find k ms ≡ some m
    → P m
unfolding find
All-find P k [] m h e = cc
All-find P k (x ∷ ms) m h e = elim (Bool-cases (str_eq x.name k)) [
  | inl t ↦ subst P (some-injective (rw t at e)) h.0
  | inr t ↦ All-find P k ms m h.1 (rw t at e)
]

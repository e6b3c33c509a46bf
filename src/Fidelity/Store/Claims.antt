-- ===== src/Fidelity/Store/Claims.antt =====
-- A round of a loop is claimed by one caller.
use misaka_asset_gene.Prelude.{
  ℕ, ap, some-injective, String, ◌≡◌, refl, ◌∙◌, inl, inr, ◌↔◌, true, false, Option, none, some,
  List, [], ◌∷◌, arith, Bool-cases, str_eq, eq_iff, if◌then◌else◌, ◌==◌, total, All,
}
use misaka_asset_gene.Fidelity.{LoopStatus}
use misaka_asset_gene.Fidelity.Store.{
  Loop, FidelityStore, is_one_of, is_row, find_loop, get_loop, update_where, saved_row, save_loop,
  is_claimed, claim_round,
}

abbrev claim_count : String → String → List LoopStatus → List Loop → ℕ
claim_count project i allowed = total (λ l. if is_claimed project i allowed l then 1 else 0)

abbrev claim_row : LoopStatus → ℕ → Loop → Loop
claim_row claim now l = record l { status = claim; updated_at = now }

-- After a claim's update no row can be claimed.
claimed_rows :
    (project i : String) (allowed : List LoopStatus) (claim : LoopStatus) (now : ℕ) (ls : List Loop)
    → is_one_of allowed claim ≡ false
    → claim_count project i allowed
        (update_where (is_claimed project i allowed) (claim_row claim now) ls)
      ≡ 0
unfolding update_where is_claimed
claimed_rows project i allowed claim now [] h = refl
claimed_rows project i allowed claim now (l ∷ ls) h =
    ground (arith, h, claimed_rows project i allowed claim now ls h)

-- A second claim of the same round fails, whatever the first one gave, provided that the status that a
-- claim sets is not one that it allows: of two callers at most one runs the round.
pub claim_round_once :
    (project i : String) (allowed : List LoopStatus) (claim : LoopStatus) (s : FidelityStore)
    → is_one_of allowed claim ≡ false
    → (claim_round project i allowed claim (claim_round project i allowed claim s).1).0 ≡ false
unfolding claim_round
claim_round_once project i allowed claim s h =
    rw (claimed_rows project i allowed claim (s.clock s.reads) s.loops h) refl

-- No two rows have one id, as the primary key has it.
abbrev pub Keyed : List Loop → Type 0
Keyed [] = Unit
Keyed (l ∷ ls) = All (λ k. str_eq k.id l.id ≡ false) ls × Keyed ls

no_other_claim :
    (project i : String) (allowed : List LoopStatus) (k : String) (ls : List Loop)
    → str_eq k i ≡ true
    → All (λ l. str_eq l.id k ≡ false) ls
    → (find_loop project i ls ≡ none) × (claim_count project i allowed ls ≡ 0)
unfolding find_loop is_claimed
no_other_claim project i allowed k [] e h = (refl, refl)
no_other_claim project i allowed k (l ∷ ls) e h =
    let rest = no_other_claim project i allowed k ls e h.1 in
    let differs : str_eq l.id i ≡ false =
      ground (arith, h.0, e, eq_iff l.id i, eq_iff k i, eq_iff l.id k) in
    (rw differs rest.0, ground (arith, differs, rest.1))

abbrev found_count : List LoopStatus → Option Loop → ℕ
found_count allowed none = 0
found_count allowed (some l) = if is_one_of allowed l.status then 1 else 0

-- At most one row is claimed: the one that `get_loop` finds, where its status allows it.
claims_found :
    (project i : String) (allowed : List LoopStatus) (ls : List Loop)
    → Keyed ls
    → claim_count project i allowed ls ≡ found_count allowed (find_loop project i ls)
unfolding find_loop is_claimed
claims_found project i allowed [] h = refl
claims_found project i allowed (l ∷ ls) h = elim (Bool-cases (str_eq l.id i)) [
  | inl e ↦
      let (f, c) = no_other_claim project i allowed l.id ls e h.0 in
      elim (Bool-cases (str_eq l.project_id project)) [
        | inl p ↦ rw (e, p, c) (ground arith)
        | inr p ↦ rw (e, p, c, f) (ground arith)
      ]
  | inr e ↦ rw (e, claims_found project i allowed ls h.1) (ground arith)
]

grants :
    (allowed : List LoopStatus) (o : Option Loop)
    → ((found_count allowed o == 1) ≡ true)
      ↔ ((l : Loop) × (o ≡ some l) × (is_one_of allowed l.status ≡ true))
grants allowed none = (λ e. ground (arith, e), λ (l, f, a). cc)
grants allowed (some l) = (
  λ e. (l, refl, ground (arith, e)),
  λ (m, f, a).
      let same : is_one_of allowed l.status ≡ true =
        ap (λ x. is_one_of allowed x.status) (some-injective f) ∙ a in
      rw same (ground arith),
)

-- Where ids are unique, a claim succeeds exactly where `get_loop` finds a loop in an allowed status.
pub claim_round_iff :
    (project i : String) (allowed : List LoopStatus) (claim : LoopStatus) (s : FidelityStore)
    → Keyed s.loops
    → ((claim_round project i allowed claim s).0 ≡ true)
      ↔ ((l : Loop) × (get_loop project i s ≡ some l) × (is_one_of allowed l.status ≡ true))
unfolding claim_round get_loop
claim_round_iff project i allowed claim s h =
    rw (claims_found project i allowed s.loops h) (grants allowed (find_loop project i s.loops))

find_loop-update_where :
    (l row : Loop) (ls : List Loop)
    → find_loop l.project_id l.id ls ≡ some row
    → find_loop l.project_id l.id (update_where (is_row l.project_id l.id) (saved_row l) ls)
      ≡ some (saved_row l row)
unfolding find_loop update_where saved_row
find_loop-update_where l row [] h = cc
find_loop-update_where l row (k ∷ ls) h = elim (Bool-cases (is_row l.project_id l.id k)) [
  | inl e ↦ rw e (rw e (ap (λ o. some (saved_row l o)) (some-injective (rw e at h))))
  | inr e ↦ rw e (rw e (find_loop-update_where l row ls (rw e at h)))
]

-- A loop whose id is in the table is read back with the columns that `save_loop` wrote; those that it does
-- not write keep the row's values.
pub get_loop-save_loop :
    (l row : Loop) (s : FidelityStore)
    → get_loop l.project_id l.id s ≡ some row
    → get_loop l.project_id l.id (save_loop l s).1
      ≡ some (saved_row (record l { updated_at = s.clock s.reads }) row)
unfolding get_loop save_loop
get_loop-save_loop l row s h =
    find_loop-update_where (record l { updated_at = s.clock s.reads }) row s.loops h

find_loop-claim :
    (project i : String) (allowed : List LoopStatus) (claim : LoopStatus) (now : ℕ) (l : Loop)
    (ls : List Loop)
    → find_loop project i ls ≡ some l
    → is_one_of allowed l.status ≡ true
    → find_loop project i (update_where (is_claimed project i allowed) (claim_row claim now) ls)
      ≡ some (claim_row claim now l)
unfolding find_loop update_where is_claimed
find_loop-claim project i allowed claim now l [] f a = cc
find_loop-claim project i allowed claim now l (k ∷ ls) f a =
    elim (Bool-cases (is_row project i k)) [
      | inl e ↦
          let same : k ≡ l = some-injective (rw e at f) in
          let ok : is_one_of allowed k.status ≡ true =
            ap (λ x. is_one_of allowed x.status) same ∙ a in
          rw (e, ok) (rw e (ap (λ x. some (claim_row claim now x)) same))
      | inr e ↦ rw e (rw e (find_loop-claim project i allowed claim now l ls (rw e at f) a))
    ]

-- A loop in an allowed status has the claimed one after a claim.
pub get_loop-claim_round :
    (project i : String) (allowed : List LoopStatus) (claim : LoopStatus) (l : Loop)
    (s : FidelityStore)
    → get_loop project i s ≡ some l
    → is_one_of allowed l.status ≡ true
    → get_loop project i (claim_round project i allowed claim s).1
      ≡ some (record l { status = claim; updated_at = s.clock s.reads })
unfolding claim_round get_loop
get_loop-claim_round project i allowed claim l s f a =
    find_loop-claim project i allowed claim (s.clock s.reads) l s.loops f a

-- What is found has the id and the project that were asked for.
pub found_row :
    (project i : String) (l : Loop) (ls : List Loop)
    → find_loop project i ls ≡ some l
    → (l.id ≡ i) × (l.project_id ≡ project)
unfolding find_loop
found_row project i l [] f = cc
found_row project i l (k ∷ ls) f = elim (Bool-cases (is_row project i k)) [
  | inl e ↦
      let same : k ≡ l = some-injective (rw e at f) in
      rw (← same) (ground (arith, e, eq_iff k.id i, eq_iff k.project_id project))
  | inr e ↦ found_row project i l ls (rw e at f)
]

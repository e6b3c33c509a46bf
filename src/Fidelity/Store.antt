-- ===== src/Fidelity/Store.antt =====
-- core/consultant/fidelity_store.py: the tables of loops and of rounds. A time is a number of
-- `clock`'s readings, and the id that `uuid4` gives is an argument. Each method is one SQL
-- transaction, so a call is one atomic step, also across processes.
pub mod Claims
mod Examples
use misaka_asset_gene.Prelude.{
  ℕ, suc, ◌+◌, String, Bool, true, false, not, ◌&&◌, ◌||◌, Option, none, some, List, [], ◌∷◌, ◌++◌,
  str_eq, leb, ltb, ◌==◌, if◌then◌else◌, select, any, total, Result, ok, err, Exec,
}
use misaka_asset_gene.Prelude.Int.{ℤ, pos}
use misaka_asset_gene.Fidelity.{
  CheckResult, LoopStatus, pending_critique, critiquing, awaiting_user, building_mask, refining,
  passed_all, stopped_max_rounds, stopped_regression_recovered, stopped_unverified, failed,
}

pub record Loop : Type 0 where
  pub id : String
  pub project_id : String
  pub root_asset_id : String
  pub character_sheet_id : String
  pub outfit_variant : String
  pub status : LoopStatus
  pub current_round : ℕ
  pub max_rounds : ℕ
  pub best_asset_id : String
  pub best_pass_count : ℤ
  pub auto_continue : Bool
  pub mode : String
  pub last_error : Option String
  pub created_at : ℕ
  pub updated_at : ℕ

pub record LoopRound : Type 0 where
  pub id : String
  pub loop_id : String
  pub round_index : ℕ
  pub asset_id : String
  pub critic_results : List CheckResult
  pub pass_count : ℕ
  pub fail_count : ℕ
  pub mask_asset_id : Option String
  pub refine_job_id : Option String
  pub created_at : ℕ

pub record FidelityStore : Type 0 where
  pub loops : List Loop
  pub rounds : List LoopRound
  pub clock : ℕ → ℕ
  pub reads : ℕ

-- A primary key that is in use.
pub data StoreError : Type 0 where
  integrity_error : String → StoreError

abbrev pub Stored : Type 0 → Type 0
Stored = Exec FidelityStore StoreError

-- `status.value`, as the table holds it.
unfoldable pub status_value : LoopStatus → String
status_value pending_critique = "pending_critique"
status_value critiquing = "critiquing"
status_value awaiting_user = "awaiting_user"
status_value building_mask = "building_mask"
status_value refining = "refining"
status_value passed_all = "passed"
status_value stopped_max_rounds = "stopped_max_rounds"
status_value stopped_regression_recovered = "stopped_regression_recovered"
status_value stopped_unverified = "stopped_unverified"
status_value failed = "failed"

-- `status IN (…)`.
unfoldable pub is_one_of : List LoopStatus → LoopStatus → Bool
unfolding status_value
is_one_of allowed st = any (λ a. str_eq (status_value a) (status_value st)) allowed

-- `id=? AND project_id=?`.
abbrev pub is_row : String → String → Loop → Bool
is_row project i l = str_eq l.id i && str_eq l.project_id project

pub create_loop :
    String → String → String → String → String → ℕ → Bool → String → LoopStatus → Stored Loop
create_loop new_id project root sheet outfit max_rounds auto_continue mode status s =
    let now = s.clock s.reads in
    let l : Loop = record {
      id = new_id;
      project_id = project;
      root_asset_id = root;
      character_sheet_id = sheet;
      outfit_variant = outfit;
      status = status;
      current_round = 0;
      max_rounds = max_rounds;
      best_asset_id = root;
      best_pass_count = pos 0;
      auto_continue = auto_continue;
      mode = mode;
      last_error = none;
      created_at = now;
      updated_at = now;
    } in
    if any (λ r. str_eq r.id new_id) s.loops
    then (err (integrity_error new_id), record s { reads = suc s.reads })
    else (ok l, record s { loops = s.loops ++ l ∷ []; reads = suc s.reads })

unfoldable pub find_loop : String → String → List Loop → Option Loop
find_loop project i [] = none
find_loop project i (l ∷ ls) = if is_row project i l then some l else find_loop project i ls

unfoldable pub get_loop : String → String → FidelityStore → Option Loop
unfolding find_loop
get_loop project i s = find_loop project i s.loops

-- `ORDER BY created_at`; SQL leaves the order of rows of one time open, here it is the table's.
pub insert_by_created : Loop → List Loop → List Loop
insert_by_created x [] = x ∷ []
insert_by_created x (l ∷ ls) =
    if ltb l.created_at x.created_at then l ∷ insert_by_created x ls else x ∷ l ∷ ls

pub sort_by_created : List Loop → List Loop
unfolding insert_by_created
sort_by_created [] = []
sort_by_created (l ∷ ls) = insert_by_created l (sort_by_created ls)

pub list_loops : String → FidelityStore → List Loop
unfolding sort_by_created
list_loops project s = sort_by_created (select (λ l. str_eq l.project_id project) s.loops)

-- The columns that `save_loop` writes; the others of the row stay.
unfoldable pub saved_row : Loop → Loop → Loop
saved_row l row = record row {
  status = l.status;
  current_round = l.current_round;
  max_rounds = l.max_rounds;
  best_asset_id = l.best_asset_id;
  best_pass_count = l.best_pass_count;
  auto_continue = l.auto_continue;
  last_error = l.last_error;
  updated_at = l.updated_at;
}

-- `UPDATE … WHERE`, on every row that the test holds of.
pub update_where : (Loop → Bool) → (Loop → Loop) → List Loop → List Loop
update_where p f [] = []
update_where p f (l ∷ ls) = (if p l then f l else l) ∷ update_where p f ls

unfoldable pub save_loop : Loop → Stored Loop
unfolding update_where saved_row
save_loop l s =
    let l' = record l { updated_at = s.clock s.reads } in
    (
      ok l',
      record s {
        loops = update_where (is_row l.project_id l.id) (saved_row l') s.loops;
        reads = suc s.reads;
      },
    )

-- The rows that a claim takes.
pub is_claimed : String → String → List LoopStatus → Loop → Bool
unfolding is_one_of
is_claimed project i allowed l = is_row project i l && is_one_of allowed l.status

pub claim_round :
    String → String → List LoopStatus → LoopStatus → FidelityStore → Bool × FidelityStore
unfolding is_claimed update_where
claim_round project i allowed claim s =
    let now = s.clock s.reads in
    (
      total (λ l. if is_claimed project i allowed l then 1 else 0) s.loops == 1,
      record s {
        loops =
            update_where (is_claimed project i allowed)
              (λ l. record l { status = claim; updated_at = now }) s.loops;
        reads = suc s.reads;
      },
    )

unfoldable pub append_round :
    String
    → String
    → ℕ
    → String
    → List CheckResult
    → ℕ
    → ℕ
    → Option String
    → Option String
    → Stored LoopRound
append_round new_id loop_id round_index asset_id results pass_count fail_count mask job s =
    let r : LoopRound = record {
      id = new_id;
      loop_id = loop_id;
      round_index = round_index;
      asset_id = asset_id;
      critic_results = results;
      pass_count = pass_count;
      fail_count = fail_count;
      mask_asset_id = mask;
      refine_job_id = job;
      created_at = s.clock s.reads;
    } in
    if any (λ q. str_eq q.id new_id) s.rounds
    then (err (integrity_error new_id), record s { reads = suc s.reads })
    else (ok r, record s { rounds = s.rounds ++ r ∷ []; reads = suc s.reads })

-- `ORDER BY round_index`.
pub insert_by_round : LoopRound → List LoopRound → List LoopRound
insert_by_round x [] = x ∷ []
insert_by_round x (r ∷ rs) =
    if ltb r.round_index x.round_index then r ∷ insert_by_round x rs else x ∷ r ∷ rs

pub sort_by_round : List LoopRound → List LoopRound
unfolding insert_by_round
sort_by_round [] = []
sort_by_round (r ∷ rs) = insert_by_round r (sort_by_round rs)

pub list_rounds : String → FidelityStore → List LoopRound
unfolding sort_by_round
list_rounds loop_id s = sort_by_round (select (λ r. str_eq r.loop_id loop_id) s.rounds)

-- `ORDER BY round_index DESC LIMIT 1`.
unfoldable pub best_round : List LoopRound → Option LoopRound
best_round [] = none
best_round (r ∷ rs) = elim (best_round rs) [
  | none ↦ some r
  | some q ↦ if ltb r.round_index q.round_index then some q else some r
]

unfoldable pub latest_round : String → FidelityStore → Option LoopRound
unfolding best_round
latest_round loop_id s = best_round (select (λ r. str_eq r.loop_id loop_id) s.rounds)

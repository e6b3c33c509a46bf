-- ===== src/Fidelity/Service/Requests/Claimed.antt =====
-- What `advance` does to a loop: a round for the caller that claims it, and nothing for any other.
use misaka_asset_gene.Prelude.{
  ℕ, suc, String, ◌≡◌, refl, ◌∙◌, sym, inl, inr, ◌⊎◌, true, false, Option, none, some, List, ◌∷◌,
  any, str_eq, Bool-cases, Result, ok, err, subst,
}
use misaka_asset_gene.Prelude.Raising.{
  ◌>>=◌, Holds, Keeps, Keeps-bind, Ensures, Ensures-bind, Ensures-then,
}
use misaka_asset_gene.Fidelity.{
  LoopStatus, pending_critique, critiquing, awaiting_user, building_mask, refining, passed_all,
  stopped_max_rounds, stopped_regression_recovered, stopped_unverified, failed,
}
use misaka_asset_gene.Fidelity.Planning.{FidelityCheck}
use misaka_asset_gene.Fidelity.Store.{
  Loop, LoopRound, FidelityStore, status_value, is_one_of, get_loop, claim_round,
}
use misaka_asset_gene.Fidelity.Store.Claims.{
  Keyed, claim_round_iff, get_loop-claim_round, found_row,
}
use misaka_asset_gene.Fidelity.Service.{
  Io, World, ServiceError, conflict, not_awaiting, unknown_character_sheet, asked, is_awaiting,
  awaiting_statuses, require_loop, sheet_checks, load_checks, checks_at, CharacterSheet,
}
use misaka_asset_gene.Fidelity.Service.Posts.{Present}
use misaka_asset_gene.Fidelity.Service.Rounds.{Rounded, run_refine_round-Rounded}
use misaka_asset_gene.Fidelity.Service.Requests.{
  LoopData, to_data, next_plan, preview_next_plan, acquire_lock, release_lock, claimed_round,
  claim_and_run, advance_loop, advance,
}

is_one_of-awaiting : (st : LoopStatus) → is_one_of awaiting_statuses st ≡ is_awaiting st
unfolding is_one_of status_value is_awaiting
is_one_of-awaiting pending_critique = refl
is_one_of-awaiting critiquing = refl
is_one_of-awaiting awaiting_user = refl
is_one_of-awaiting building_mask = refl
is_one_of-awaiting refining = refl
is_one_of-awaiting passed_all = refl
is_one_of-awaiting stopped_max_rounds = refl
is_one_of-awaiting stopped_regression_recovered = refl
is_one_of-awaiting stopped_unverified = refl
is_one_of-awaiting failed = refl

-- The table is as it was.
abbrev Same : FidelityStore → World → Type 0
Same s w = w.store ≡ s

Keeps-asked-Same :
    {A : Type 0} (s : FidelityStore) (f : ℕ → Result String A) → Keeps (Same s) (asked f)
unfolding asked
Keeps-asked-Same s f = record { kept = λ w p. p }

Rounded-same : (l l' : Loop) (w w' : World) → w'.store ≡ w.store → Rounded l l' w → Rounded l l' w'
Rounded-same l l' w w' e r = record {
  same_id = r.same_id;
  same_project = r.same_project;
  same_max = r.same_max;
  step = r.step;
  row = r.row;
  stored_row = subst (λ s. get_loop l.project_id l.id s ≡ some r.row) (sym e) r.stored_row;
  stored_view = r.stored_view;
}

module _ (io : Io) where
  Keeps-checks_at :
      (s : FidelityStore) (i : String) (path : Option String) (variant mode : String)
      → Keeps (Same s) (checks_at io i path variant mode)
  unfolding checks_at
  Keeps-checks_at s i none variant mode = record { kept = λ w p. p }
  Keeps-checks_at s i (some path) variant mode = record {
    kept = λ w p. elim (Bool-cases (str_eq path "")) [
      | inl e ↦ rw e p
      | inr e ↦ rw e ((Keeps-asked-Same s (λ n. io.parse_checks n path variant mode)).kept w p)
    ];
  }

  Keeps-sheet_checks :
      (s : FidelityStore) (project sheet variant mode : String)
      → Keeps (Same s) (sheet_checks io project sheet variant mode)
  unfolding sheet_checks load_checks
  Keeps-sheet_checks s project sheet variant mode =
      Keeps-bind _ _ (Keeps-asked-Same s (λ n. io.character_sheet n project sheet)) by_found
    where
      by_found :
          (o : Option CharacterSheet)
          → Keeps (Same s) (elim o [
            | none ↦ λ w. (err (unknown_character_sheet sheet), w)
            | some c ↦ load_checks io c variant mode
          ])
      by_found none = record { kept = λ w p. p }
      by_found (some c) = Keeps-checks_at s c.id c.sheet_source_path variant mode

  next_plan-same :
      (l : Loop) (checks : List FidelityCheck) (latest : Option LoopRound) (w : World)
      → (next_plan io l checks latest w).1.store ≡ w.store
  unfolding next_plan preview_next_plan
  next_plan-same l checks none w = refl
  next_plan-same l checks (some latest) w = elim (Bool-cases (is_awaiting l.status)) [
    | inl e ↦ rw e (
        (Keeps-bind _ _ (Keeps-asked-Same w.store (λ n. io.get_project n l.project_id)) λ _.
            Keeps-bind _ _ (Keeps-asked-Same w.store _) λ size. record { kept = λ w' p. p }).kept
          w refl)
    | inr e ↦ rw e refl
  ]

  to_data-Rounded :
      (l l' : Loop) (checks : List FidelityCheck) (w : World)
      → Rounded l l' w
      → Holds (λ d. Rounded l d.loop) (to_data io l' checks w)
  unfolding to_data
  to_data-Rounded l l' checks w r = Rounded-same l l' w _ (next_plan-same l' checks _ w) r

  claimed_round-Rounded :
      (project : String) (l : Loop)
      → Ensures (Present l) (λ d. Rounded l d.loop) (claimed_round io project l)
  unfolding claimed_round
  claimed_round-Rounded project l =
      Ensures-bind _ _
        (record {
          kept = λ w (row, p). (
            row,
            subst (λ s. get_loop l.project_id l.id s ≡ some row)
                (sym ((Keeps-sheet_checks w.store project _ _ _).kept w refl)) p,
          );
        })
        λ checks.
          Ensures-then (Rounded l) {P = λ d. Rounded l d.loop} _ _
            (run_refine_round-Rounded io l checks) (λ l' w r. to_data-Rounded l l' checks w r)

  -- The claim of a loop that waits leaves its row.
  claim-Present :
      (l : Loop) (w : World)
      → get_loop l.project_id l.id w.store ≡ some l
      → is_awaiting l.status ≡ true
      → Present l (record w {
        store = (claim_round l.project_id l.id awaiting_statuses building_mask w.store).1;
      })
  claim-Present l w f a = (
    _,
    get_loop-claim_round l.project_id l.id awaiting_statuses building_mask l w.store f
        (is_one_of-awaiting l.status ∙ a),
  )

  claim_and_run-Rounded :
      (l : Loop) (w : World)
      → get_loop l.project_id l.id w.store ≡ some l
      → is_awaiting l.status ≡ true
      → Holds (λ d. Rounded l d.loop) (claim_and_run io l.project_id l w)
  unfolding claim_and_run
  claim_and_run-Rounded l w f a =
      elim (Bool-cases (claim_round l.project_id l.id awaiting_statuses building_mask w.store).0) [
        | inl e ↦ rw e ((claimed_round-Rounded l.project_id l).ensured _ (claim-Present l w f a))
        | inr e ↦ rw e tt
      ]

  released :
      (l : Loop) (i : String) (r : Result ServiceError LoopData × World)
      → Holds (λ d. Rounded l d.loop) r
      → Holds (λ d. Rounded l d.loop) (release_lock i r)
  released l i (ok d, w) h = Rounded-same l d.loop w _ refl h
  released l i (err e, w) h = tt

  advance_loop-Rounded :
      (l : Loop) (w : World)
      → get_loop l.project_id l.id w.store ≡ some l
      → Holds (λ d. Rounded l d.loop) (advance_loop io l.project_id l w)
  unfolding advance_loop
  advance_loop-Rounded l w f = elim (Bool-cases (is_awaiting l.status)) [
    | inl a ↦ elim (Bool-cases (any (λ j. str_eq j l.id) w.locks)) [
      | inl e ↦ rw (a, e) tt
      | inr e ↦ rw (a, e) (released l l.id _ (claim_and_run-Rounded l (acquire_lock l.id w) f a))
    ]
    | inr a ↦ rw a tt
  ]

  advance_found :
      (project i : String) (l : Loop) (w : World)
      → get_loop project i w.store ≡ some l
      → io.get_project w.calls project ≡ ok tt
      → advance io project i w ≡ advance_loop io project l (record w { calls = suc w.calls })
  unfolding advance asked require_loop ◌>>=◌
  advance_found project i l w f g = rw (g, asked) (rw (f, require_loop) refl)

  -- A call of `advance` that returns has made one round: a step of the life cycle of the loop that the
  -- table held, which holds the result now.
  pub advance-Rounded :
      (project i : String) (l : Loop) (w : World)
      → get_loop project i w.store ≡ some l
      → Holds (λ d. Rounded l d.loop) (advance io project i w)
  advance-Rounded project i l w f = by_project (io.get_project w.calls project) refl
    where
      by_project :
          (r : Result String (Unit {0}))
          → io.get_project w.calls project ≡ r
          → Holds (λ d. Rounded l d.loop) (advance io project i w)
      by_project (ok _) e =
          let (same_i, same_p) = found_row project i l w.store.loops (unfold get_loop in f) in
          let own : get_loop l.project_id l.id w.store ≡ some l =
            subst (λ p. get_loop p l.id w.store ≡ some l) (sym same_p)
              (subst (λ j. get_loop project j w.store ≡ some l) (sym same_i) f) in
          rw (advance_found project i l w f e) (
            subst
              (λ p.
                Holds (λ d. Rounded l d.loop)
                  (advance_loop io p l (record w { calls = suc w.calls })))
              same_p (advance_loop-Rounded l (record w { calls = suc w.calls }) own))
      by_project (err m) e = unfold advance asked ◌>>=◌ in rw (e, asked) tt

  -- A call of `advance` is refused, with the table as it was, for a loop that does not wait for a round
  -- and for a loop whose lock another call holds.
  pub advance_refused :
      (project i : String) (l : Loop) (w : World)
      → get_loop project i w.store ≡ some l
      → io.get_project w.calls project ≡ ok tt
      → (is_awaiting l.status ≡ false) ⊎ (any (λ j. str_eq j l.id) w.locks ≡ true)
      → (e : ServiceError) × (advance io project i w ≡ (err e, record w { calls = suc w.calls }))
  unfolding advance_loop
  advance_refused project i l w f g h = elim (Bool-cases (is_awaiting l.status)) [
    | inl a ↦ (
      conflict l.id,
      rw (advance_found project i l w f g) (rw (a, advance_loop) (rw (locked a h) refl)),
    )
    | inr a ↦ (
      not_awaiting l.id l.status,
      rw (advance_found project i l w f g) (rw (a, advance_loop) refl),
    )
  ]
    where
      locked :
          is_awaiting l.status ≡ true
          → (is_awaiting l.status ≡ false) ⊎ (any (λ j. str_eq j l.id) w.locks ≡ true)
          → any (λ j. str_eq j l.id) w.locks ≡ true
      locked a (inl b) = cc
      locked a (inr b) = b

  abbrev claimed_store : String → Loop → World → FidelityStore
  claimed_store project l w = (claim_round project l.id awaiting_statuses building_mask w.store).1

  gone_sheet :
      (project : String) (l : Loop) (w : World)
      → (claim_round project l.id awaiting_statuses building_mask w.store).0 ≡ true
      → ((n : ℕ) → io.character_sheet n project l.character_sheet_id ≡ ok none)
      → claim_and_run io project l w ≡ (
        err (unknown_character_sheet l.character_sheet_id),
        record w { store = claimed_store project l w; calls = suc w.calls },
      )
  unfolding claim_and_run claimed_round sheet_checks asked ◌>>=◌
  gone_sheet project l w t c = rw t (rw (c w.calls) refl)

  stuck_result :
      (project : String) (l : Loop) (w : World)
      → get_loop project l.id w.store ≡ some l
      → Keyed w.store.loops
      → is_awaiting l.status ≡ true
      → any (λ j. str_eq j l.id) w.locks ≡ false
      → ((n : ℕ) → io.get_project n project ≡ ok tt)
      → ((n : ℕ) → io.character_sheet n project l.character_sheet_id ≡ ok none)
      → advance io project l.id w
        ≡ release_lock l.id (
          err (unknown_character_sheet l.character_sheet_id),
          record w {
            store = claimed_store project l w;
            calls = suc (suc w.calls);
            locks = l.id ∷ w.locks;
          },
        )
  unfolding advance_loop
  stuck_result project l w f keyed a free g c = rw (advance_found project l.id l w f (g w.calls)) (
      rw (a, free, advance_loop)
        (rw
          (gone_sheet project l (record w { calls = suc w.calls; locks = l.id ∷ w.locks })
            ((claim_round_iff project l.id awaiting_statuses building_mask w.store keyed).1
              (l, f, is_one_of-awaiting l.status ∙ a))
            c)
          refl))

  advance_unready :
      (project i : String) (l : Loop) (w : World)
      → get_loop project i w.store ≡ some l
      → io.get_project w.calls project ≡ ok tt
      → is_awaiting l.status ≡ false
      → (advance io project i w).0 ≡ err (not_awaiting l.id l.status)
  unfolding advance_loop
  advance_unready project i l w f g h =
      rw (advance_found project i l w f g) (rw (h, advance_loop) refl)

  -- The character sheet is gone: the claim has taken the loop out of the waiting statuses, the error
  -- comes outside of the round's `try`, and while the tables stay as they are no later call of
  -- `advance` takes the loop up again.
  pub advance_stuck :
      (project : String) (l : Loop) (w : World)
      → get_loop project l.id w.store ≡ some l
      → Keyed w.store.loops
      → is_awaiting l.status ≡ true
      → any (λ j. str_eq j l.id) w.locks ≡ false
      → ((n : ℕ) → io.get_project n project ≡ ok tt)
      → ((n : ℕ) → io.character_sheet n project l.character_sheet_id ≡ ok none)
      → let r = advance io project l.id w in
        (r.0 ≡ err (unknown_character_sheet l.character_sheet_id))
        × ((row : Loop) × (get_loop project l.id r.1.store ≡ some row)
            × (row.status ≡ building_mask))
        × ((w' : World)
            → w'.store ≡ r.1.store
            → (advance io project l.id w').0 ≡ err (not_awaiting l.id building_mask))
  advance_stuck project l w f keyed a free g c =
      let e = stuck_result project l w f keyed a free g c in
      let row : Loop = record l {
        status = building_mask;
        updated_at = w.store.clock w.store.reads;
      } in
      let p : get_loop project l.id (claimed_store project l w) ≡ some row =
        get_loop-claim_round project l.id awaiting_statuses building_mask l w.store f
          (is_one_of-awaiting l.status ∙ a) in
      rw e (
        refl,
        (row, p, refl),
        λ w' s.
            advance_unready project l.id row w'
              (subst (λ t. get_loop project l.id t ≡ some row) (sym s) p) (g w'.calls)
              (unfold is_awaiting in refl),
      )

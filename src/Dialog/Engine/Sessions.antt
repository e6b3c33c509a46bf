-- ===== src/Dialog/Engine/Sessions.antt =====
-- What the engine's calls do to the table of sessions.
use misaka_asset_gene.Prelude.{
  String, ◌≡◌, refl, ◌∙◌, inl, inr, ◌⊎◌, Bool, true, false, Option, none, some, List, [], ◌∷◌,
  arith, Bool-cases, Option-cases, if◌then◌else◌, str_eq, eq_iff, ok, err, Result, All, select,
}
use misaka_asset_gene.Dialog.{
  ConsultantState, accept, Modality, SlotValue, Slots, lookup, can_transition, next_state,
  assert_transition, missing_slots,
}
use misaka_asset_gene.Dialog.Progress.{is_final, next_state-can_transition}
use misaka_asset_gene.Dialog.Engine.{
  Session, SessionStore, ClarifyResult, EngineError, session_not_found, illegal_transition, insert,
  merge, merge_slots, is_allowed_key, find, upsert, save, run_clarify, advance_session,
  call_modality, call_slots, stepped_session,
}

-- A key that is written is read back, and no other key changes.
lookup-insert :
    (k j : String) (v : SlotValue) (s : Slots)
    → lookup j (insert k v s) ≡ (if str_eq k j then some v else lookup j s)
unfolding lookup insert
lookup-insert k j v [] = refl
lookup-insert k j v ((i, w) ∷ s) =
    ground (arith, eq_iff k j, eq_iff i k, eq_iff i j, lookup-insert k j v s)

final_accept : (c : ConsultantState) → is_final c ≡ true → c ≡ accept
final_accept c h = ground arith

module _ {P : Type 0} where
  find-upsert :
      (x : Session P) (rs : List (Session P))
      → (y : Session P) × (find x.session_id (upsert x rs) ≡ some y)
        × (y ≡ record x { created_at = y.created_at })
  unfolding find upsert
  find-upsert x [] = (x, ground (arith, eq_iff x.session_id x.session_id), refl)
  find-upsert x (r ∷ rs) = elim (Bool-cases (str_eq r.session_id x.session_id)) [
    | inl e ↦ (
      record x { created_at = r.created_at },
      rw e (ground (arith, eq_iff x.session_id x.session_id)),
      refl,
    )
    | inr e ↦ let (y, f, q) = find-upsert x rs in (y, rw e (rw e f), q)
  ]

  -- A write of one session leaves the rows of the others.
  find-upsert_ne :
      (x : Session P) (i : String) (rs : List (Session P))
      → str_eq x.session_id i ≡ false
      → find i (upsert x rs) ≡ find i rs
  unfolding find upsert
  find-upsert_ne x i [] h = ground arith
  find-upsert_ne x i (r ∷ rs) h = ground (
    arith,
    eq_iff x.session_id i,
    eq_iff r.session_id x.session_id,
    eq_iff r.session_id i,
    find-upsert_ne x i rs h,
  )

  abbrev step_state : Session P → Option Modality → ClarifyResult P → Slots → Bool → ConsultantState
  step_state x requested result slots acc =
      next_state x.state (some (call_modality x requested result)) (call_slots x requested slots)
        acc

  assert_computed :
      (x : Session P) (requested : Option Modality) (result : ClarifyResult P) (slots : Slots)
      (acc : Bool)
      → is_final x.state ≡ false
      → assert_transition x.state (step_state x requested result slots acc) ≡ ok tt
  unfolding assert_transition
  assert_computed x requested result slots acc h = ground (
    arith,
    h,
    next_state-can_transition x.state (some (call_modality x requested result))
        (call_slots x requested slots) acc,
  )

  -- The outcome of a call on a session that is not accepted.
  pub record Advanced (x : Session P) (requested : Option Modality) (result : ClarifyResult P)
      (slots : Slots) (acc : Bool) (s : SessionStore P)
      (r : Result EngineError (Session P × List String) × SessionStore P) : Type 0 where
    pub saved : Session P
    pub returned :
        r.0
        ≡ ok (
          saved,
          missing_slots (some (call_modality x requested result)) (call_slots x requested slots),
        )
    pub moved : saved.state ≡ step_state x requested result slots acc
    pub merged : saved.slots ≡ call_slots x requested slots
    pub stored :
        (y : Session P) × (find x.session_id r.1.rows ≡ some y)
        × (y ≡ record saved { created_at = y.created_at })
    pub others : (i : String) → str_eq x.session_id i ≡ false → find i r.1.rows ≡ find i s.rows

  run_clarify-Advanced :
      (x : Session P) (requested : Option Modality) (result : ClarifyResult P) (slots : Slots)
      (acc : Bool) (s : SessionStore P)
      → is_final x.state ≡ false
      → Advanced x requested result slots acc s (run_clarify x requested result slots acc s)
  unfolding run_clarify stepped_session save
  run_clarify-Advanced x requested result slots acc s h =
      let y = stepped_session x requested result slots acc in
      let y' = record y { updated_at = s.clock s.reads } in
      rw (assert_computed x requested result slots acc h, run_clarify)
        (record {
          saved = y';
          returned = refl;
          moved = refl;
          merged = refl;
          stored = find-upsert y' s.rows;
          others = λ i q. find-upsert_ne y' i s.rows q;
        })

  found_id :
      (i : String) (rs : List (Session P)) (x : Session P) → find i rs ≡ some x → x.session_id ≡ i
  unfolding find
  found_id i [] x h = cc
  found_id i (r ∷ rs) x h = ground (arith, eq_iff r.session_id i, found_id i rs x)

  advance_found :
      (i : String) (x : Session P) (requested : Option Modality) (result : ClarifyResult P)
      (slots : Slots) (acc : Bool) (s : SessionStore P)
      → find i s.rows ≡ some x
      → advance_session i requested result slots acc s ≡ run_clarify x requested result slots acc s
  unfolding advance_session
  advance_found i x requested result slots acc s f = rw (f, advance_session) refl

  advance_missing :
      (i : String) (requested : Option Modality) (result : ClarifyResult P) (slots : Slots)
      (acc : Bool) (s : SessionStore P)
      → find i s.rows ≡ none
      → advance_session i requested result slots acc s ≡ (err (session_not_found i), s)
  unfolding advance_session
  advance_missing i requested result slots acc s f = rw (f, advance_session) refl

  -- `advance_session` on a stored session that is not accepted returns the session one step further
  -- and stores it; the other sessions stay as they are.
  pub advance_session-Advanced :
      (i : String) (x : Session P) (requested : Option Modality) (result : ClarifyResult P)
      (slots : Slots) (acc : Bool) (s : SessionStore P)
      → find i s.rows ≡ some x
      → is_final x.state ≡ false
      → Advanced x requested result slots acc s (advance_session i requested result slots acc s)
  advance_session-Advanced i x requested result slots acc s f h =
      rw (advance_found i x requested result slots acc s f)
        (run_clarify-Advanced x requested result slots acc s h)

  run_clarify_accepted :
      (x : Session P) (requested : Option Modality) (result : ClarifyResult P) (slots : Slots)
      (acc : Bool) (s : SessionStore P)
      → x.state ≡ accept
      → run_clarify x requested result slots acc s ≡ (err (illegal_transition accept accept), s)
  unfolding run_clarify stepped_session next_state assert_transition can_transition
  run_clarify_accepted x requested result slots acc s h = ground arith

  -- `advance_session` raises exactly for a session that is not there and for one that is accepted, and
  -- then nothing is written.
  pub advance_session_error :
      (i : String) (requested : Option Modality) (result : ClarifyResult P) (slots : Slots)
      (acc : Bool) (s : SessionStore P)
      → (find i s.rows ≡ none)
          × (advance_session i requested result slots acc s ≡ (err (session_not_found i), s))
        ⊎ ((x : Session P) × (find i s.rows ≡ some x)
            × (x.state ≡ accept)
            × (advance_session i requested result slots acc s
                ≡ (err (illegal_transition accept accept), s)))
        ⊎ ((x : Session P) × (find i s.rows ≡ some x)
            × (is_final x.state ≡ false)
            × ((y : Session P × List String) × ((advance_session i requested result slots acc s).0
                  ≡ ok y)))
  advance_session_error i requested result slots acc s = elim (Option-cases (find i s.rows)) [
    | inl e ↦ inl (e, advance_missing i requested result slots acc s e)
    | inr (x, f) ↦ elim (Bool-cases (is_final x.state)) [
      | inl a ↦ inr (
          inl (
            x,
            f,
            final_accept x.state a,
            advance_found i x requested result slots acc s f
                ∙ run_clarify_accepted x requested result slots acc s (final_accept x.state a),
          ))
      | inr h ↦
          let done = advance_session-Advanced i x requested result slots acc s f h in
          inr (inr (x, f, h, ((done.saved, _), done.returned)))
    ]
  ]

lookup-merge_absent :
    (j : String) (a b : Slots)
    → All (λ e. str_eq e.0 j ≡ false) b
    → lookup j (merge a b) ≡ lookup j a
unfolding merge
lookup-merge_absent j a [] h = refl
lookup-merge_absent j a ((k, v) ∷ b) h =
    lookup-merge_absent j (insert k v a) b h.1 ∙ (lookup-insert k j v a ∙ rw h.0 refl)

allowed_ne :
    (m : Option Modality) (j : String) (new : Slots)
    → is_allowed_key m j ≡ false
    → All (λ e. str_eq e.0 j ≡ false) (select (λ e. is_allowed_key m e.0) new)
allowed_ne m j [] h = tt
allowed_ne m j ((k, v) ∷ new) h = elim (Bool-cases (is_allowed_key m k)) [
  | inl e ↦ rw e (ne_of_allowed k e, allowed_ne m j new h)
  | inr e ↦ rw e (allowed_ne m j new h)
]
  where
    ne_of_allowed : (k : String) → is_allowed_key m k ≡ true → str_eq k j ≡ false
    ne_of_allowed k e = ground (arith, h, eq_iff k j)

-- A key that is neither required nor optional for the modality is not written by a merge.
pub lookup-merge_slots :
    (m : Option Modality) (j : String) (old new : Slots)
    → is_allowed_key m j ≡ false
    → lookup j (merge_slots m old new) ≡ lookup j old
unfolding merge_slots
lookup-merge_slots m j old new h = lookup-merge_absent j old _ (allowed_ne m j new h)

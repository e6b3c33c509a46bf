-- ===== src/Dialog/Engine/Examples.antt =====
-- A table with three sessions: an open one, one at its summary, and an accepted one.
use misaka_asset_gene.Prelude.{ℕ, String, ◌≡◌, refl, false, some, none, [], ◌∷◌, ok}
use misaka_asset_gene.Dialog.{
  ConsultantState, clarify, summary, accept, text, Slots, str, lookup, missing_slots,
  is_checklist_complete, required_slots_for, optional_slots_for, is_unfilled, can_transition,
  next_state, assert_transition, checklist_status,
}
use misaka_asset_gene.Dialog.Engine.{
  ClarifyResult, Session, SessionStore, is_allowed_key, merge_slots, find, latest,
  latest_unfinished, start_session, advance_session, run_clarify, create, upsert, save,
  stepped_session,
}
use misaka_asset_gene.Dialog.Engine.Sessions.{Advanced, advance_session-Advanced}

abbrev session : String → ConsultantState → Slots → ℕ → Session ℕ
session i st sl t = record {
  session_id = i;
  project_id = "p";
  modality = some text;
  state = st;
  checklist = [];
  slots = sl;
  plan = none;
  last_result = none;
  created_at = t;
  updated_at = t;
}

abbrev table : SessionStore ℕ
table = record {
  rows =
      session "open" clarify [] 1
      ∷ session "shown" summary (("objective", str (b'p' ∷ [])) ∷ []) 2
      ∷ session "done" accept [] 3
      ∷ [];
  clock = λ n. n;
  reads = 10;
}

abbrev analysed : ClarifyResult ℕ
analysed = record { modality = text; analysis = none }

abbrev given : Slots
given = ("objective", str (b'p' ∷ [])) ∷ ("palette", str (b'r' ∷ [])) ∷ []

palette_is_not_allowed : is_allowed_key (some text) "palette" ≡ false
unfolding is_allowed_key required_slots_for optional_slots_for
palette_is_not_allowed = refl

-- The accepted session is the newest one, and is not taken up again.
latest_is_shown :
    latest_unfinished "p" table
    ≡ some (session "shown" summary (("objective", str (b'p' ∷ [])) ∷ []) 2)
unfolding latest_unfinished latest
latest_is_shown = refl

starts_at_clarify :
    ((y : Session ℕ) × ((start_session "p" "fresh" none none analysed table).0
        ≡ ok (y, "objective" ∷ []))
      × (y.state ≡ clarify))
unfolding start_session run_clarify create save upsert stepped_session next_state checklist_status
    missing_slots assert_transition can_transition merge_slots required_slots_for lookup is_unfilled
    is_checklist_complete
starts_at_clarify = (_, refl, refl)

advance_session-Advanced_example :
    Advanced
      (session "open" clarify [] 1)
      none
      analysed
      given
      false
      table
      (advance_session "open" none analysed given false table)
advance_session-Advanced_example =
    advance_session-Advanced "open" (session "open" clarify [] 1) none analysed given false table
      (unfold find in refl) refl

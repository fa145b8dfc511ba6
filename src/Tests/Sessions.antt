-- ===== src/Tests/Sessions.antt =====
-- The theorems on the life cycle of a session of src/store.rs at concrete rows.
use openab_control_plane.Prelude.{
  ℕ, ◌≡◌, refl, Bool, false, [], ◌∷◌, some, none, pos, unwrap_or, Has, inl,
}
use openab_control_plane.Text.{Text, codes, text_eq, text_ops}
use openab_control_plane.Store.{Session, quorum, closed, as_str}
use openab_control_plane.Store.Json.{Value}
use openab_control_plane.Store.Audit.{
  append_audit_event_locked, is_valid_event, keyed_session_audit_event, session_audit_event,
}
use openab_control_plane.Store.Database.{Database}
use openab_control_plane.Store.Actions.{same_fingerprint}
use openab_control_plane.Store.Events.{enqueue_controller_session_event_locked}
use openab_control_plane.Store.Sessions.{
  is_active, is_active_for, violates_index, checked, is_terminal, find_session, update_session,
  set_to, append_audit, advance_kind, audit_advance, audit_won, advance_state,
}
use openab_control_plane.Store.Sessions.Race.{advance, reopen, run_transition, target, second_loses}
use openab_control_plane.Store.Sessions.Create.{
  NewSession, SessionCreateOutcome, created, superseded, create_session_superseding, open_after,
  open_as, open_session, fill_session, supersede, insert_row, close_row, new_session,
  active_session_for_trigger_locked, newest_first, seat, opening_messages, superseding_detail,
}
use openab_control_plane.Store.Sessions.Active.{
  create_session_superseding-IsOnlyActive, IsOnlyActive,
}
use openab_control_plane.Store.Sessions.Final.{here, next, move, steps-Has_settled}
use openab_control_plane.Store.Sessions.Roster.{
  added, IsWithinCapacity, add_session_bots_if_capacity, add_session_bots-IsWithinCapacity,
  new_members, old_members, unique_from,
}

abbrev session : Session
session = record {
  id = codes "a";
  title = codes "x";
  state = codes "quorum";
  trigger_ref = some (codes "t");
  trigger_fingerprint = some (codes "1");
  quorum_n = pos 2;
  chair_bot = none;
  created_at = pos 5;
  closed_at = none;
  mode = codes "council";
  decision = none;
  findings_red = none;
  findings_yellow = none;
  findings_green = none;
  result_author_id = none;
  result_message_ids = none;
}

abbrev finished : Session
finished = record session { id = codes "b"; state = codes "aborted"; closed_at = some (pos 4) }

abbrev database : Database
database = record {
  controllers = [];
  tokens = [];
  action_grants = [];
  bindings = [];
  trigger_scopes = [];
  actions = [];
  controller_sessions = [];
  event_grants = [];
  events = [];
  event_audit = [];
  audit = [];
  sessions = finished ∷ session ∷ [];
  session_bots = record { session_id = codes "a"; bot_id = codes "r" } ∷ [];
  messages = [];
}

abbrev to_string : Value → Text
to_string v = []

-- The session is closed at 9.
abbrev after_close : Database × Bool
after_close =
    unwrap_or
      (run_transition to_string (codes "e") 9 9 (codes "a") quorum (advance closed 9 9 9) database)
      (database, false)

first_wins :
    run_transition to_string (codes "e") 9 9 (codes "a") quorum (advance closed 9 9 9) database
    ≡ some after_close
unfolding run_transition advance_state update_session checked violates_index is_active_for set_to
    is_terminal audit_won audit_advance find_session append_audit append_audit_event_locked
    is_valid_event keyed_session_audit_event advance_kind as_str text_ops
first_wins = refl

leaves_quorum : text_eq (target (advance closed 9 9 9)) (as_str quorum) ≡ false
unfolding target as_str text_ops
leaves_quorum = refl

race_example :
    run_transition to_string (codes "f") 10 10 (codes "a") quorum reopen after_close.0
    ≡ some (after_close.0, false)
race_example =
    second_loses to_string (codes "e") (codes "f") 9 10 9 10 (codes "a") quorum
      (advance closed 9 9 9) reopen database after_close leaves_quorum first_wins

quorum_is_live : is_terminal quorum ≡ false
unfolding is_terminal
quorum_is_live = refl

finished_is_settled : is_active finished ≡ false
unfolding is_active text_ops
finished_is_settled = refl

settled_example : Has finished after_close.0.sessions
settled_example =
    steps-Has_settled to_string finished finished_is_settled
      (next here (
        move (codes "e") 9 9 (codes "a") quorum (advance closed 9 9 9) after_close.1 quorum_is_live
          first_wins))
      (inl refl)

abbrev request : NewSession
request = record {
  title = codes "y";
  trigger_ref = some (codes "t");
  trigger_fingerprint = some (codes "2");
  quorum_n = pos 2;
  chair_bot = none;
  roster = codes "r" ∷ [];
  mode = codes "council";
  opening_inputs = [];
}

abbrev message_id : ℕ → Text
message_id n = codes "m"

abbrev after_open : Database × Session × SessionCreateOutcome
after_open =
    unwrap_or
      (create_session_superseding to_string (codes "n") (codes "e") message_id 9 9 9 9 database
        request)
      (database, session, created)

opened :
    create_session_superseding to_string (codes "n") (codes "e") message_id 9 9 9 9 database request
    ≡ some after_open
unfolding create_session_superseding open_after open_as open_session fill_session supersede
    insert_row close_row new_session active_session_for_trigger_locked newest_first seat
    opening_messages superseding_detail same_fingerprint checked violates_index is_active_for
    append_audit append_audit_event_locked is_valid_event session_audit_event
    enqueue_controller_session_event_locked text_ops
opened = refl

takes_over : after_open.2 ≡ superseded (codes "a")
unfolding create_session_superseding open_after open_as open_session fill_session supersede
    insert_row close_row new_session active_session_for_trigger_locked newest_first seat
    opening_messages superseding_detail same_fingerprint checked violates_index is_active_for
    append_audit append_audit_event_locked is_valid_event session_audit_event
    enqueue_controller_session_event_locked text_ops
takes_over = refl

index_holds : violates_index database.sessions ≡ false
unfolding violates_index is_active_for text_ops
index_holds = refl

trigger_example : IsOnlyActive (codes "t") after_open.1 after_open.0
trigger_example =
    create_session_superseding-IsOnlyActive to_string (codes "n") (codes "e") message_id 9 9 9 9
      database request (codes "t") after_open index_holds refl opened

capacity_example : IsWithinCapacity (codes "a") 2 database (
    add_session_bots_if_capacity message_id 9 database
      (codes "a")
      (codes "r" ∷ codes "s" ∷ codes "s" ∷ [])
      2
      [])
capacity_example =
    add_session_bots-IsWithinCapacity message_id 9 database (codes "a")
      (codes "r" ∷ codes "s" ∷ codes "s" ∷ []) 2 []

seats_one :
    (add_session_bots_if_capacity message_id 9 database
      (codes "a")
      (codes "r" ∷ codes "s" ∷ codes "s" ∷ [])
      2
      []).1
    ≡ added (codes "s" ∷ []) (codes "r" ∷ [])
unfolding add_session_bots_if_capacity new_members old_members unique_from text_ops
seats_one = refl

-- ===== src/Store/Sessions.antt =====
-- src/store.rs: the life cycle of a session. Every transition is an UPDATE that names the state it
-- starts from, and answers whether it changed a row.
pub mod Transitions
pub mod Updates
pub mod Create
pub mod Active
pub mod Roster
pub mod Final
pub mod Race
use openab_control_plane.Prelude.{
  ℕ, suc, ltb, leb, ◌==◌, Bool, true, false, not, ◌&&◌, ◌||◌, Option, some, none, List, [], ◌∷◌,
  ◌++◌, if◌then◌else◌, anyb, findb, filterb, first?, or_else, is_some_and, ◌>>=◌, ℤ, pos, leb_ℤ,
  update_where, count_where, order_by, length, map,
}
use openab_control_plane.Text.{Text, codes, text_eq}
use openab_control_plane.Store.Types.{
  Session, SessionState, Message, as_str, closed, aborted, quorum,
}
use openab_control_plane.Store.Json.{
  Value, Items, Fields, field, no_fields, null, flag, number, string, array, object, string_or_null,
  number_or_null, strings,
}
use openab_control_plane.Store.Audit.{
  AuditEvent, AuditOutcome, append_audit_event_locked, keyed_session_audit_event,
  session_audit_event,
}
use openab_control_plane.Store.Database.{Database, SessionBot}

-- `state NOT IN ('closed', 'aborted')`.
unfoldable pub is_active : Session → Bool
is_active s = not (text_eq s.state (codes "closed")) && not (text_eq s.state (codes "aborted"))

unfoldable pub is_active_for : Text → Session → Bool
unfolding is_active
is_active_for trigger_ref s = is_some_and s.trigger_ref (λ t. text_eq t trigger_ref) && is_active s

-- The unique index on the triggers of active sessions.
unfoldable pub violates_index : List Session → Bool
violates_index rows =
    anyb
      (λ (s : Session). is_some_and s.trigger_ref (λ t. ltb 1 (count_where (is_active_for t) rows)))
      rows

-- A statement that breaks the index is an error.
unfoldable pub checked : List Session → Option (List Session)
checked rows = if violates_index rows then none else some rows

unfoldable pub is_terminal : SessionState → Bool
is_terminal closed = true
is_terminal aborted = true
is_terminal _ = false

unfoldable pub find_session : Database → Text → Option Session
find_session db session_id = findb (λ (s : Session). text_eq s.id session_id) db.sessions

-- The UPDATE of a transition, and whether it changed exactly one row.
unfoldable pub update_session :
    Database → (Session → Bool) → (Session → Session) → Option (Database × Bool)
update_session db selected change = do
  rows ← checked (update_where selected change db.sessions)
  some (record db { sessions = rows }, count_where selected db.sessions == 1)

abbrev pub in_state : Text → SessionState → Session → Bool
in_state session_id from s = text_eq s.id session_id && text_eq s.state (as_str from)

-- The change to a state; only a terminal state sets the time of closing.
unfoldable pub set_to : SessionState → ℕ → Session → Session
set_to to closed_at s = record s {
  state = as_str to;
  closed_at = if is_terminal to then some (pos closed_at) else s.closed_at;
}

unfoldable pub append_audit : Database → AuditEvent → Option Database
append_audit db event = do
  audit ← append_audit_event_locked db.audit event
  some (record db { audit = audit })

unfoldable pub advance_kind : SessionState → Text
advance_kind quorum = codes "session.quorum_reached"
advance_kind closed = codes "session.closed"
advance_kind aborted = codes "session.aborted"
advance_kind _ = codes "session.state_changed"

abbrev pub from_to : Value → Text → Value
from_to from to = object (field (codes "from") from (field (codes "to") (string to) no_fields))

abbrev pub state_or_unknown : Option Session → Text
state_or_unknown none = codes "unknown"
state_or_unknown (some s) = s.state

abbrev pub state_or_null : Option Session → Value
state_or_null none = null
state_or_null (some s) = string s.state

-- What the calls of `now_ms()` return: the time of closing, of the change, and of its recording.
module _ (closed_at at clock : ℕ) where
  unfoldable pub audit_advance : Database → Text → SessionState → SessionState → Option Database
  audit_advance db session_id from to = do
    s ← find_session db session_id
    append_audit db (
        keyed_session_audit_event clock
          (advance_kind to
            ++ (codes ":"
                ++ (session_id ++ (codes ":" ++ (as_str from ++ (codes ":" ++ as_str to))))))
          (advance_kind to) session_id AuditOutcome.succeeded at s.trigger_ref
          (from_to (string (as_str from)) (as_str to)))

  unfoldable pub audit_won :
      Text → SessionState → SessionState → Database × Bool → Option (Database × Bool)
  audit_won session_id from to (db, false) = some (db, false)
  audit_won session_id from to (db, true) = do
    audited ← audit_advance db session_id from to
    some (audited, true)

  unfoldable pub advance_state :
      Database → Text → SessionState → SessionState → Option (Database × Bool)
  advance_state db session_id from to = do
    updated ← update_session db (in_state session_id from) (set_to to closed_at)
    audit_won session_id from to updated

  unfoldable pub state_kind : SessionState → Text
  state_kind closed = codes "session.closed"
  state_kind aborted = codes "session.aborted"
  state_kind _ = codes "session.state_changed"

  unfoldable pub audit_set :
      Text → SessionState → Option Session → Database × Bool → Option Database
  unfolding state_kind
  audit_set session_id state before (db, false) = some db
  audit_set session_id state before (db, true) = do
    s ← find_session db session_id
    append_audit db (
        keyed_session_audit_event clock
          (state_kind state
            ++ (codes ":"
                ++ (session_id
                    ++ (codes ":" ++ (state_or_unknown before ++ (codes ":" ++ as_str state))))))
          (state_kind state) session_id AuditOutcome.succeeded at s.trigger_ref
          (from_to (state_or_null before) (as_str state)))

  -- The unconditional change of a state.
  unfoldable pub set_state : Database → Text → SessionState → Option Database
  unfolding audit_set
  set_state db session_id state = do
    updated ← update_session db (λ s. text_eq s.id session_id) (set_to state closed_at)
    audit_set session_id state (find_session db session_id) updated

unfoldable pub reopened : Session → Session
reopened s = record s {
  state = codes "deliberating";
  result_author_id = none;
  result_message_ids = none;
}

unfoldable pub reopen_session : Database → Text → SessionState → Option (Database × Bool)
reopen_session db session_id from = update_session db (in_state session_id from) reopened

unfoldable pub set_session_verdict :
    Database → Text → Text → Option ℤ → Option ℤ → Option ℤ → Database
set_session_verdict db session_id decision red yellow green = record db {
  sessions =
      update_where (λ s. text_eq s.id session_id)
        (λ s. record s {
          decision = some decision;
          findings_red = red;
          findings_yellow = yellow;
          findings_green = green;
        })
        db.sessions;
}

unfoldable pub set_session_quorum : Database → Text → ℤ → Database
set_session_quorum db session_id quorum_n = record db {
  sessions =
      update_where (λ s. text_eq s.id session_id) (λ s. record s { quorum_n = quorum_n })
        db.sessions;
}

unfoldable pub set_session_chair : Database → Text → Text → Database
set_session_chair db session_id chair_bot = record db {
  sessions =
      update_where (λ s. text_eq s.id session_id) (λ s. record s { chair_bot = some chair_bot })
        db.sessions;
}

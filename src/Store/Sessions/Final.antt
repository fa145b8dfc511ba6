-- ===== src/Store/Sessions/Final.antt =====
-- A session that is closed or aborted stays as it is, but for set_state and for the transitions that
-- name a terminal state as their start.
use openab_control_plane.Prelude.{
  ℕ, ◌≡◌, refl, Bool, true, false, ◌&&◌, Option, some, ℤ, arith, Bool-cases, inl, inr, Has,
  Has-update_where,
}
use openab_control_plane.Text.{Text, codes, text_eq, text_eq_iff}
use openab_control_plane.Store.Types.{
  Session, SessionState, open_state, deliberating, quorum, closed, aborted, as_str,
}
use openab_control_plane.Store.Json.{Value}
use openab_control_plane.Store.Database.{Database}
use openab_control_plane.Store.Sessions.{is_active, in_state, is_terminal, set_to, reopened}
use openab_control_plane.Store.Sessions.Transitions.{is_stale, closed_with, close_if_active}
use openab_control_plane.Store.Sessions.Updates.{
  advance_state-IsUpdate, close_session_with_result-IsUpdate, reopen-IsUpdate,
  close_if_active-IsUpdate,
}
use openab_control_plane.Store.Sessions.Race.{
  Transition, advance, close_with, reopen, run_transition,
}

-- A step of the session's life: a transition from a state that is not terminal, or a close of
-- whatever is still active.
pub data SessionStep (to_string : Value → Text) : Database → Database → Type 0 where
  move :
      {db db' : Database} (event_id : Text) (clock event_clock : ℕ) (id : Text)
      (from : SessionState) (t : Transition) (won : Bool)
      → is_terminal from ≡ false
      → run_transition to_string event_id clock event_clock id from t db ≡ some (db', won)
      → SessionStep to_string db db'
  close_active :
      {db db' : Database} (event_id : Text) (clock event_clock : ℕ) (id event_type reason : Text)
      (stale_before : Option ℤ) (closed_at : ℕ) (won : Bool)
      → close_if_active to_string event_id clock event_clock db id event_type reason stale_before
          closed_at
        ≡ some (db', won)
      → SessionStep to_string db db'

pub data SessionSteps (to_string : Value → Text) (db : Database) : Database → Type 0 where
  here : SessionSteps to_string db db
  next :
      {db' db'' : Database}
      → SessionSteps to_string db db'
      → SessionStep to_string db' db''
      → SessionSteps to_string db db''

-- A session in a state that is not terminal is active.
live_state_is_active :
    (s : Session) (from : SessionState)
    → is_terminal from ≡ false
    → text_eq s.state (as_str from) ≡ true
    → is_active s ≡ true
unfolding is_terminal is_active as_str text_eq
live_state_is_active s open_state t e = rw ((text_eq_iff s.state (codes "open")).0 e) refl
live_state_is_active s deliberating t e = rw ((text_eq_iff s.state (codes "deliberating")).0 e) refl
live_state_is_active s quorum t e = rw ((text_eq_iff s.state (codes "quorum")).0 e) refl
live_state_is_active s closed t e = cc
live_state_is_active s aborted t e = cc

not_in_state :
    (s : Session) (id : Text) (from : SessionState)
    → is_terminal from ≡ false
    → is_active s ≡ false
    → in_state id from s ≡ false
not_in_state s id from t a = elim (Bool-cases (text_eq s.state (as_str from))) [
  | inl e ↦ absurd (cc (live_state_is_active s from t e, a))
  | inr e ↦ rw e (ground arith)
]

module _ (to_string : Value → Text) (s : Session) (settled : is_active s ≡ false) where
  transition-Has :
      (event_id : Text) (clock event_clock : ℕ) (id : Text) (from : SessionState) (t : Transition)
      (db db' : Database) (won : Bool)
      → is_terminal from ≡ false
      → run_transition to_string event_id clock event_clock id from t db ≡ some (db', won)
      → Has s db.sessions
      → Has s db'.sessions
  unfolding run_transition
  transition-Has event_id clock event_clock id from (advance to closed_at at c) db db' won n h m =
      rw (advance_state-IsUpdate closed_at at c db id from to (db', won) h).0 (
        Has-update_where s (in_state id from) (set_to to closed_at) db.sessions
          (not_in_state s id from n settled) m)
  transition-Has event_id clock event_clock id from (close_with d r y g a i f k at) db db' won n h
        m =
      rw
        (close_session_with_result-IsUpdate to_string event_id clock event_clock db id from d r y g
          a i f k at (db', won) h).0
        (Has-update_where s (in_state id from) (closed_with d r y g a i at) db.sessions
          (not_in_state s id from n settled) m)
  transition-Has event_id clock event_clock id from reopen db db' won n h m =
      rw (reopen-IsUpdate db id from (db', won) h).0 (
        Has-update_where s (in_state id from) reopened db.sessions
          (not_in_state s id from n settled) m)

  step-Has :
      {db db' : Database} → SessionStep to_string db db' → Has s db.sessions → Has s db'.sessions
  step-Has {db} {db'} (move event_id clock event_clock id from t won n h) m =
      transition-Has event_id clock event_clock id from t db db' won n h m
  step-Has {db} {db'} (close_active event_id clock event_clock id ty reason stale at won h) m =
      rw
        (close_if_active-IsUpdate to_string event_id clock event_clock db id ty reason stale at
          (db', won) h).0
        (Has-update_where s (λ x. text_eq x.id id && (is_active x && is_stale db stale x)) _
          db.sessions (rw settled (ground arith)) m)

  -- A closed or aborted session stays in the table, unchanged, over any series of close_if_active,
  -- and of advance_state, close_session_with_result and reopen_session from a state that is not
  -- terminal.
  pub steps-Has_settled :
      {db db' : Database} → SessionSteps to_string db db' → Has s db.sessions → Has s db'.sessions
  steps-Has_settled here m = m
  steps-Has_settled (next more step) m = step-Has step (steps-Has_settled more m)

-- ===== src/Store/Sessions/Race.antt =====
-- Transitions that compete for one state of a session: only the first one takes it.
use openab_control_plane.Prelude.{
  ℕ, ◌≡◌, refl, ap, Bool, true, false, Option, some, List, [], ◌∷◌, ℤ, arith, Bool-cases, inl, inr,
  update_where, count_where,
}
use openab_control_plane.Text.{Text, codes, text_eq}
use openab_control_plane.Session.{ReviewerCompletion}
use openab_control_plane.Store.Types.{Session, SessionState, as_str}
use openab_control_plane.Store.Json.{Value}
use openab_control_plane.Store.Database.{Database}
use openab_control_plane.Store.Sessions.{
  violates_index, checked, update_session, in_state, set_to, audit_won, advance_state, reopened,
  reopen_session,
}
use openab_control_plane.Store.Sessions.Transitions.{
  announce_won, closed_with, close_session_with_result,
}
use openab_control_plane.Store.Sessions.Updates.{
  reopen-IsUpdate, advance_state-IsUpdate, close_session_with_result-IsUpdate,
}

-- A call that starts from a named state, with what it is given.
pub data Transition : Type 0 where
  advance : (to : SessionState) (closed_at at clock : ℕ) → Transition
  close_with :
      (decision : Option Text) (red yellow green : Option ℤ) (author message_ids : Option Text)
      (final_messages : List Text) (completion : ReviewerCompletion) (closed_at : ℕ)
      → Transition
  reopen : Transition

unfoldable pub run_transition :
    (Value → Text)
    → Text
    → ℕ
    → ℕ
    → Text
    → SessionState
    → Transition
    → Database
    → Option (Database × Bool)
run_transition to_string event_id clock event_clock id from (advance to closed_at at c) db =
    advance_state closed_at at c db id from to
run_transition to_string event_id clock event_clock id from (close_with d r y g a m f k closed_at)
      db =
    close_session_with_result to_string event_id clock event_clock db id from d r y g a m f k
      closed_at
run_transition to_string event_id clock event_clock id from reopen db = reopen_session db id from

-- The text of the state that a transition leads to.
unfoldable pub target : Transition → Text
target (advance to closed_at at clock) = as_str to
target (close_with d r y g a m f k closed_at) = codes "closed"
target reopen = codes "deliberating"

none_left :
    (p : Session → Bool) (f : Session → Session) (rows : List Session)
    → ((s : Session) → p s ≡ true → p (f s) ≡ false)
    → count_where p (update_where p f rows) ≡ 0
none_left p f [] leaves = refl
none_left p f (s ∷ rows) leaves = elim (Bool-cases (p s)) [
  | inl e ↦ rw (e, leaves s e) (none_left p f rows leaves)
  | inr e ↦ rw (e, e) (none_left p f rows leaves)
]

none_selected :
    (p : Session → Bool) (f : Session → Session) (rows : List Session)
    → count_where p rows ≡ 0
    → update_where p f rows ≡ rows
none_selected p f [] h = refl
none_selected p f (s ∷ rows) h = elim (Bool-cases (p s)) [
  | inl e ↦ absurd (omega (arith, rw e at h))
  | inr e ↦ rw e (ap (λ xs. s ∷ xs) (none_selected p f rows (rw e at h)))
]

-- An update that selects no row of a table in order changes nothing, and says so.
update_none :
    (db : Database) (p : Session → Bool) (f : Session → Session)
    → count_where p db.sessions ≡ 0
    → violates_index db.sessions ≡ false
    → update_session db p f ≡ some (db, false)
unfolding update_session checked
update_none db p f h v = rw (none_selected p f db.sessions h) (rw (v, h) refl)

leaves_state :
    (id : Text) (from : SessionState) (t : Text) (f : Session → Session)
    → ((s : Session) → (f s).state ≡ t)
    → text_eq t (as_str from) ≡ false
    → (s : Session) → in_state id from (f s) ≡ false
leaves_state id from t f to e s = rw (to s, e) (ground arith)

-- After a transition to another state no row is left in the state that it started from.
transition_leaves :
    (to_string : Value → Text) (event_id : Text) (clock event_clock : ℕ) (id : Text)
    (from : SessionState) (t : Transition) (db : Database) (after : Database × Bool)
    → text_eq (target t) (as_str from) ≡ false
    → run_transition to_string event_id clock event_clock id from t db ≡ some after
    → (count_where (in_state id from) after.0.sessions ≡ 0)
      × (violates_index after.0.sessions ≡ false)
unfolding run_transition target set_to closed_with reopened
transition_leaves to_string event_id clock event_clock id from (advance to closed_at at c) db after
      e h =
    let u = advance_state-IsUpdate closed_at at c db id from to after h in
    (
      rw u.0 (
          none_left (in_state id from) (set_to to closed_at) db.sessions
            (λ s k. leaves_state id from (as_str to) (set_to to closed_at) (λ s. refl) e s)),
      u.2,
    )
transition_leaves to_string event_id clock event_clock id from
      (close_with d r y g a m f k closed_at) db after e h =
    let u =
      close_session_with_result-IsUpdate to_string event_id clock event_clock db id from d r y g a m
        f k closed_at after h in
    (
      rw u.0 (
          none_left (in_state id from) (closed_with d r y g a m closed_at) db.sessions (λ s k.
            leaves_state id from (codes "closed") (closed_with d r y g a m closed_at) (λ s. refl) e
              s)),
      u.2,
    )
transition_leaves to_string event_id clock event_clock id from reopen db after e h =
    let u = reopen-IsUpdate db id from after h in
    (
      rw u.0 (
          none_left (in_state id from) reopened db.sessions
            (λ s k. leaves_state id from (codes "deliberating") reopened (λ s. refl) e s)),
      u.2,
    )

transition_loses :
    (to_string : Value → Text) (event_id : Text) (clock event_clock : ℕ) (id : Text)
    (from : SessionState) (t : Transition) (db : Database)
    → count_where (in_state id from) db.sessions ≡ 0
    → violates_index db.sessions ≡ false
    → run_transition to_string event_id clock event_clock id from t db ≡ some (db, false)
unfolding run_transition advance_state close_session_with_result reopen_session audit_won
    announce_won
transition_loses to_string event_id clock event_clock id from (advance to closed_at at c) db n v =
    rw (update_none db (in_state id from) (set_to to closed_at) n v) refl
transition_loses to_string event_id clock event_clock id from (close_with d r y g a m f k closed_at)
      db n v =
    rw (update_none db (in_state id from) (closed_with d r y g a m closed_at) n v) refl
transition_loses to_string event_id clock event_clock id from reopen db n v =
    update_none db (in_state id from) reopened n v

-- Of two calls of advance_state, close_session_with_result or reopen_session that start a session
-- from the same state, the second one returns false and changes nothing, if the first one
-- succeeded as a call and leads to another state.
pub second_loses :
    (to_string : Value → Text) (event_id event_id' : Text)
    (clock clock' event_clock event_clock' : ℕ) (id : Text) (from : SessionState)
    (first second : Transition) (db : Database) (after : Database × Bool)
    → text_eq (target first) (as_str from) ≡ false
    → run_transition to_string event_id clock event_clock id from first db ≡ some after
    → run_transition to_string event_id' clock' event_clock' id from second after.0
      ≡ some (after.0, false)
second_loses to_string event_id event_id' clock clock' event_clock event_clock' id from first second
      db after e h =
    let left = transition_leaves to_string event_id clock event_clock id from first db after e h in
    transition_loses to_string event_id' clock' event_clock' id from second after.0 left.0 left.1

-- ===== src/Store/Sessions/Updates.antt =====
-- What the transitions of a session do to the rows of the sessions.
use openab_control_plane.Prelude.{
  ℕ, ◌==◌, ◌≡◌, refl, sym, ap, ◌∙◌, subst, Bool, true, false, ◌&&◌, Option, some, none, List, ◌++◌,
  ℤ, pos, ◌>>=◌, findb, Bool-cases, Option-cases, inl, inr, some_inj, update_where, count_where,
}
use openab_control_plane.Text.{Text, codes, text_eq, show_nat}
use openab_control_plane.Session.{ReviewerCompletion}
use openab_control_plane.Store.Types.{Session, SessionState}
use openab_control_plane.Store.Json.{Value}
use openab_control_plane.Store.Audit.{
  AuditEvent, append_audit_event_locked, keyed_session_audit_event, AuditOutcome,
}
use openab_control_plane.Store.Database.{ControllerSession, Database}
use openab_control_plane.Store.Events.{
  enqueue_for, enqueue_controller_event_locked, enqueue_controller_session_event_locked,
  event_destination,
}
use openab_control_plane.Store.Events.Enqueue.{enqueue_frame}
use openab_control_plane.Store.Sessions.{
  is_active, violates_index, checked, find_session, update_session, in_state, set_to, append_audit,
  audit_advance, audit_won, advance_state, reopened, reopen_session,
}
use openab_control_plane.Store.Sessions.Transitions.{
  is_stale, announce, announce_won, closed_with, close_if_active, close_session_with_result,
}

-- The rows that a predicate selects are changed, and the answer says whether there was exactly one.
abbrev pub IsUpdate : (Session → Bool) → (Session → Session) → Database → Database → Bool → Type 0
IsUpdate p f db db' won =
    (db'.sessions ≡ update_where p f db.sessions)
    × (won ≡ (count_where p db.sessions == 1))
    × (violates_index db'.sessions ≡ false)

-- A step that leaves the sessions, and the answer, as they are.
abbrev KeepsSessions : Database × Bool → Database × Bool → Type 0
KeepsSessions before after = (after.0.sessions ≡ before.0.sessions) × (after.1 ≡ before.1)

update_session_cases :
    (db : Database) (p : Session → Bool) (f : Session → Session) (after : Database × Bool)
    → update_session db p f ≡ some after
    → IsUpdate p f db after.0 after.1
unfolding update_session checked
update_session_cases db p f after h =
    elim (Bool-cases (violates_index (update_where p f db.sessions))) [
      | inl e ↦ absurd (cc (rw e at h))
      | inr e ↦
          let q = some_inj _ after (rw e at h) in
          subst (λ (x : Database × Bool). IsUpdate p f db x.0 x.1) q (refl, refl, e)
    ]

IsUpdate-then :
    (db : Database) (p : Session → Bool) (f : Session → Session)
    (then' : Database × Bool → Option (Database × Bool)) (after : Database × Bool)
    → ((x y : Database × Bool) → then' x ≡ some y → KeepsSessions x y)
    → (update_session db p f >>= λ x. then' x) ≡ some after
    → IsUpdate p f db after.0 after.1
IsUpdate-then db p f then' after keeps h = elim (Option-cases (update_session db p f)) [
  | inl e ↦ absurd (cc (rw e at h))
  | inr (x, e) ↦
      let u = update_session_cases db p f x e in
      let k = keeps x after (rw e at h) in (k.0 ∙ u.0, k.1 ∙ u.1, rw k.0 u.2)
]

pub append_audit_sessions :
    (db db' : Database) (event : AuditEvent)
    → append_audit db event ≡ some db'
    → db'.sessions ≡ db.sessions
unfolding append_audit
append_audit_sessions db db' event h =
    elim (Option-cases (append_audit_event_locked db.audit event)) [
      | inl e ↦ absurd (cc (rw e at h))
      | inr (audit, e) ↦ sym (ap (λ (d : Database). d.sessions) (some_inj _ db' (rw e at h)))
    ]

audit_advance_sessions :
    (closed_at at clock : ℕ) (db db' : Database) (id : Text) (from to : SessionState)
    → audit_advance closed_at at clock db id from to ≡ some db'
    → db'.sessions ≡ db.sessions
unfolding audit_advance
audit_advance_sessions closed_at at clock db db' id from to h =
    elim (Option-cases (find_session db id)) [
      | inl e ↦ absurd (cc (rw e at h))
      | inr (s, e) ↦ append_audit_sessions db db' _ (rw e at h)
    ]

won_keeps :
    (won : Database → Option Database) (db : Database) (y : Database × Bool)
    → ((db' : Database) → won db ≡ some db' → db'.sessions ≡ db.sessions)
    → (won db >>= λ db'. some (db', true)) ≡ some y
    → KeepsSessions (db, true) y
won_keeps won db y keeps h = elim (Option-cases (won db)) [
  | inl e ↦ absurd (cc (rw e at h))
  | inr (db', e) ↦
      subst (λ (z : Database × Bool). KeepsSessions (db, true) z)
        (some_inj (db', true) y (rw e at h)) (keeps db' e, refl)
]

audit_won_keeps :
    (closed_at at clock : ℕ) (id : Text) (from to : SessionState) (x y : Database × Bool)
    → audit_won closed_at at clock id from to x ≡ some y
    → KeepsSessions x y
unfolding audit_won
audit_won_keeps closed_at at clock id from to (db, false) y h =
    subst (λ (z : Database × Bool). KeepsSessions (db, false) z) (some_inj (db, false) y h)
      (refl, refl)
audit_won_keeps closed_at at clock id from to (db, true) y h =
    won_keeps (λ d. audit_advance closed_at at clock d id from to) db y
      (λ db'. audit_advance_sessions closed_at at clock db db' id from to) h

pub advance_state-IsUpdate :
    (closed_at at clock : ℕ) (db : Database) (id : Text) (from to : SessionState)
    (after : Database × Bool)
    → advance_state closed_at at clock db id from to ≡ some after
    → IsUpdate (in_state id from) (set_to to closed_at) db after.0 after.1
unfolding advance_state
advance_state-IsUpdate closed_at at clock db id from to after h =
    IsUpdate-then db (in_state id from) (set_to to closed_at)
      (audit_won closed_at at clock id from to) after
      (audit_won_keeps closed_at at clock id from to) h

pub reopen-IsUpdate :
    (db : Database) (id : Text) (from : SessionState) (after : Database × Bool)
    → reopen_session db id from ≡ some after
    → IsUpdate (in_state id from) reopened db after.0 after.1
unfolding reopen_session
reopen-IsUpdate db id from after h = update_session_cases db (in_state id from) reopened after h

module _ (to_string : Value → Text) (event_id : Text) (clock event_clock : ℕ) where
  enqueue_for_sessions :
      (db db' : Database) (id ty : Text) (payload : Value) (key : Text) (at : ℕ)
      (owner : Option ControllerSession)
      → enqueue_for to_string event_id event_clock db id ty payload key at owner ≡ some db'
      → db'.sessions ≡ db.sessions
  unfolding enqueue_for enqueue_controller_event_locked
  enqueue_for_sessions db db' id ty payload key at none h =
      sym (ap (λ (d : Database). d.sessions) (some_inj db db' h))
  enqueue_for_sessions db db' id ty payload key at (some s) h =
      let (events, audit, q) =
        enqueue_frame to_string event_id event_clock db db' s.controller_id (some id) ty payload key
          at (event_destination db s.controller_id ty) h in
      ap (λ (d : Database). d.sessions) q

  announced_sessions :
      (db db' : Database) (id ty : Text) (payload : Value) (key : Text) (at : ℕ)
      (event : AuditEvent)
      → (append_audit db event >>= λ audited.
          enqueue_controller_session_event_locked to_string event_id event_clock audited id ty
            payload key at)
        ≡ some db'
      → db'.sessions ≡ db.sessions
  unfolding enqueue_controller_session_event_locked
  announced_sessions db db' id ty payload key at event h =
      elim (Option-cases (append_audit db event)) [
        | inl e ↦ absurd (cc (rw e at h))
        | inr (audited, e) ↦
            enqueue_for_sessions audited db' id ty payload key at
              (findb (λ (s : ControllerSession). text_eq s.session_id id)
                audited.controller_sessions)
              (rw e at h)
            ∙ append_audit_sessions db audited event e
      ]

  announce_sessions :
      (db db' : Database) (id kind ty : Text) (detail payload : Value) (at : ℕ)
      → announce to_string event_id clock event_clock db id kind ty detail payload at ≡ some db'
      → db'.sessions ≡ db.sessions
  unfolding announce
  announce_sessions db db' id kind ty detail payload at h =
      elim (Option-cases (find_session db id)) [
        | inl e ↦ absurd (cc (rw e at h))
        | inr (s, e) ↦
            let event =
              keyed_session_audit_event clock
                (kind ++ (codes ":" ++ (id ++ (codes ":" ++ show_nat at)))) kind id
                AuditOutcome.succeeded at s.trigger_ref detail in
            announced_sessions db db' id ty payload _ at event (rw e at h)
      ]

  announce_won_keeps :
      (id kind ty : Text) (detail payload : Value) (at : ℕ) (x y : Database × Bool)
      → announce_won to_string event_id clock event_clock id kind ty detail payload at x ≡ some y
      → KeepsSessions x y
  unfolding announce_won
  announce_won_keeps id kind ty detail payload at (db, false) y h =
      subst (λ (z : Database × Bool). KeepsSessions (db, false) z) (some_inj (db, false) y h)
        (refl, refl)
  announce_won_keeps id kind ty detail payload at (db, true) y h =
      won_keeps (λ d. announce to_string event_id clock event_clock d id kind ty detail payload at)
        db y (λ db'. announce_sessions db db' id kind ty detail payload at) h

  pub close_if_active-IsUpdate :
      (db : Database) (id ty reason : Text) (stale : Option ℤ) (at : ℕ) (after : Database × Bool)
      → close_if_active to_string event_id clock event_clock db id ty reason stale at ≡ some after
      → IsUpdate
          (λ s. text_eq s.id id && (is_active s && is_stale db stale s))
          (λ s. record s { state = codes "closed"; closed_at = some (pos at) })
          db
          after.0
          after.1
  unfolding close_if_active
  close_if_active-IsUpdate db id ty reason stale at after h =
      IsUpdate-then db (λ s. text_eq s.id id && (is_active s && is_stale db stale s))
        (λ s. record s { state = codes "closed"; closed_at = some (pos at) }) _ after
        (announce_won_keeps id _ ty _ _ at) h

  pub close_session_with_result-IsUpdate :
      (db : Database) (id : Text) (from : SessionState) (decision : Option Text)
      (red yellow green : Option ℤ) (author message_ids : Option Text) (finals : List Text)
      (completion : ReviewerCompletion) (at : ℕ) (after : Database × Bool)
      → close_session_with_result to_string event_id clock event_clock db id from decision red
          yellow green author message_ids finals completion at
        ≡ some after
      → IsUpdate
          (in_state id from)
          (closed_with decision red yellow green author message_ids at)
          db
          after.0
          after.1
  unfolding close_session_with_result closed_with
  close_session_with_result-IsUpdate db id from decision red yellow green author message_ids finals
        completion at after h =
      IsUpdate-then db (in_state id from)
        (closed_with decision red yellow green author message_ids at) _ after
        (announce_won_keeps id _ _ _ _ at) h

-- ===== src/Store/Actions/Finish/Effect.antt =====
-- What `finish_controller_action` does to the database when it succeeds.
use openab_control_plane.Prelude.{
  ℕ, ◌≡◌, ◌==◌, refl, sym, Bool, true, false, Option, some, none, List, map_some, if◌then◌else◌,
  findb, ◌>>=◌, Bool-cases, Option-cases, inl, inr, some_inj, count_where,
}
use openab_control_plane.Text.{Text, codes, text_eq}
use openab_control_plane.Store.Json.{Value}
use openab_control_plane.Store.Audit.{AuditEvent}
use openab_control_plane.Store.Database.{
  ControllerAction, ControllerSession, ControllerEvent, Database,
}
use openab_control_plane.Store.Events.{enqueue_controller_event_locked, event_destination}
use openab_control_plane.Store.Events.Enqueue.{enqueue_frame}
use openab_control_plane.Store.Actions.{ControllerSessionBinding, is_action, is_open_action}
use openab_control_plane.Store.Actions.Finish.{
  admitted_intent, matches_intent, insert_session, complete_action, is_success, announce_session,
  bind_session, bind_optional, report_failure, finish_action, finish_controller_action,
}

bind_chain :
    {A B C : Type 0} (m : Option A) (k : A → Option B) (g : B → Option C) {c : C}
    → (m >>= λ a. k a >>= λ b. g b) ≡ some c
    → (a : A) × (b : B) × (m ≡ some a) × (k a ≡ some b) × (g b ≡ some c)
bind_chain none k g h = cc
bind_chain (some a) k g {c} h = elim (Option-cases (k a)) [
  | inl e ↦ absurd (cc (rw e at h))
  | inr (b, e) ↦ (a, b, refl, e, rw e at h)
]

when-eq-some :
    {A : Type 0} (b : Bool) (m : Option A) {a : A}
    → (if b then m else none) ≡ some a
    → (b ≡ true) × (m ≡ some a)
when-eq-some true m h = (refl, h)
when-eq-some false m h = cc

-- The binding of the session of an admitted open action: the sessions after it.
abbrev pub IsBinding :
    Database → Text → Text → Option ControllerSessionBinding → ℕ → List ControllerSession → Type 0
IsBinding db controller_id action_id none at sessions = sessions ≡ db.controller_sessions
IsBinding db controller_id action_id (some b) at sessions =
    (a : ControllerAction) × (text_eq b.controller_id controller_id ≡ true)
    × (admitted_intent db controller_id action_id ≡ some a)
    × (matches_intent b a ≡ true)
    × (insert_session b at db.controller_sessions ≡ some sessions)

abbrev pub IsFramed : Database → Database → Type 0
IsFramed db db' =
    (events : List ControllerEvent) × (audit : List AuditEvent) × (db'
      ≡ record db { events = events; audit = audit })

module _ (to_string : Value → Text) (id id' : Text) (clock clock' : ℕ) where
  announce_session_frame :
      (db db' : Database) (c : Text) (b : ControllerSessionBinding) (at : ℕ)
      → announce_session to_string id id' clock clock' db c b at ≡ some db'
      → IsFramed db db'
  unfolding announce_session enqueue_controller_event_locked
  announce_session_frame db db' c b at h =
      enqueue_frame to_string id clock db db' c (some b.session_id) _ _ _ at
        (event_destination db c (codes "session.opened")) h

  report_failure_frame :
      (db db' : Database) (c a : Text) (status at : ℕ)
      → report_failure to_string id id' clock clock' db c a status at ≡ some db'
      → IsFramed db db'
  unfolding report_failure enqueue_controller_event_locked
  report_failure_frame db db' c a status at h =
      elim (Option-cases (findb (is_action c a) db.actions)) [
        | inl e ↦ absurd (cc (rw e at h))
        | inr (x, e) ↦
            enqueue_frame to_string id' clock' db db' c x.session_id _ _ _ at
              (event_destination db c (codes "action.failed")) (rw e at h)
      ]

  bind_optional_cases :
      (db db' : Database) (c a : Text) (b : Option ControllerSessionBinding) (at : ℕ)
      → bind_optional to_string id id' clock clock' db c a b at ≡ some db'
      → (sessions : List ControllerSession) × IsBinding db c a b at sessions
        × IsFramed (record db { controller_sessions = sessions }) db'
  unfolding bind_optional bind_session
  bind_optional_cases db db' c a none at h =
      (db.controller_sessions, refl, (db.events, db.audit, sym (some_inj db db' h)))
  bind_optional_cases db db' c a (some b) at h =
      let done =
        bind_chain (if text_eq b.controller_id c then admitted_intent db c a else none)
          (λ x. if matches_intent b x then insert_session b at db.controller_sessions else none)
          (λ rows.
            announce_session to_string id id' clock clock'
              (record db { controller_sessions = rows }) c b at)
          h in
      let owner = when-eq-some (text_eq b.controller_id c) (admitted_intent db c a) done.2 in
      let match' =
        when-eq-some (matches_intent b done.0) (insert_session b at db.controller_sessions)
          done.3 in
      (
        done.1,
        (done.0, owner.0, owner.1, match'.0, match'.1),
        announce_session_frame (record db { controller_sessions = done.1 }) db' c b at done.4,
      )

  finish_action_cases :
      (db db' : Database) (c a : Text) (status : ℕ) (response : Text)
      (b : Option ControllerSessionBinding) (at : ℕ)
      → finish_action to_string id id' clock clock' db c a status response b at ≡ some db'
      → ((count_where (is_open_action c a) db.actions == 1) ≡ true)
        × IsFramed
            (record db {
              actions =
                  complete_action c a status response
                    (map_some (λ (x : ControllerSessionBinding). x.session_id) b)
                    at
                    db.actions;
            })
            db'
  unfolding finish_action
  finish_action_cases db db' c a status response b at h =
      elim (Bool-cases (count_where (is_open_action c a) db.actions == 1)) [
        | inl e ↦ elim (Bool-cases (is_success status)) [
          | inl s ↦ (e, (db.events, db.audit, sym (some_inj _ db' (rw (e, s) at h))))
          | inr s ↦ (e, report_failure_frame _ db' c a status at (rw (e, s) at h))
        ]
        | inr e ↦ absurd (cc (rw e at h))
      ]

-- A successful finish completes the open action, binds the session if there is one, and changes
-- nothing else but events and audit.
pub finish_cases :
    (to_string : Value → Text) (id id' : Text) (clock clock' : ℕ) (db db' : Database) (c a : Text)
    (status : ℕ) (response : Text) (b : Option ControllerSessionBinding) (at : ℕ)
    → finish_controller_action to_string id id' clock clock' db c a status response b at ≡ some db'
    → (sessions : List ControllerSession) × (events : List ControllerEvent) × (audit : List
        AuditEvent)
      × IsBinding db c a b at sessions
      × ((count_where (is_open_action c a) db.actions == 1) ≡ true)
      × (db' ≡ record db {
        controller_sessions = sessions;
        events = events;
        audit = audit;
        actions =
            complete_action c a status response
              (map_some (λ (x : ControllerSessionBinding). x.session_id) b)
              at
              db.actions;
      })
unfolding finish_controller_action
finish_cases to_string id id' clock clock' db db' c a status response b at h =
    elim (Option-cases (bind_optional to_string id id' clock clock' db c a b at)) [
      | inl e ↦ absurd (cc (rw e at h))
      | inr (bound, e) ↦
          let (sessions, binding, (events, audit, q)) =
            bind_optional_cases to_string id id' clock clock' db bound c a b at e in
          let (one, (events', audit', q')) =
            finish_action_cases to_string id id' clock clock'
              (record db { controller_sessions = sessions; events = events; audit = audit }) db' c a
              status response b at (rw q at (rw e at h)) in
          (sessions, events', audit', binding, one, q')
    ]

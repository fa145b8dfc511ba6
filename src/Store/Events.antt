-- ===== src/Store/Events.antt =====
-- src/store.rs: the durable events of the controllers: enqueued once for each key, claimed under a
-- lease, and then delivered, retried or given up.
pub mod Leases
pub mod Enqueue
pub mod Lifecycle
pub mod Exclusive
use openab_control_plane.Prelude.{
  ℕ, ltb, leb, ◌==◌, Bool, true, false, not, ◌&&◌, ◌||◌, Option, some, none, List, [], ◌∷◌, ◌++◌,
  if◌then◌else◌, anyb, findb, filterb, take, ◌>>=◌, ℤ, pos, update_where, count_where, order_by,
}
use openab_control_plane.Text.{Text, codes, text_eq}
use openab_control_plane.Store.Json.{
  Value, field, no_fields, number, string, object, string_or_null,
}
use openab_control_plane.Store.Audit.{
  AuditEvent, AuditOutcome, append_audit_event_locked, audit_event_version, audit_service,
  no_correlation,
}
use openab_control_plane.Store.Database.{
  ControllerSession, Controller, EventGrant, EventState, waiting, delivering, delivered,
  ControllerEvent, ControllerEventAudit, Database,
}

unfoldable pub is_waiting : EventState → Bool
is_waiting waiting = true
is_waiting _ = false

unfoldable pub is_delivering : EventState → Bool
is_delivering delivering = true
is_delivering _ = false

unfoldable pub is_delivered : EventState → Bool
is_delivered delivered = true
is_delivered _ = false

-- The join of the controller with its grant for the type of event.
unfoldable pub has_event_grant : List EventGrant → Text → Text → Bool
has_event_grant grants controller_id event_type =
    anyb
      (λ g. text_eq g.controller_id controller_id && text_eq g.event_type event_type && g.granted)
      grants

unfoldable pub event_destination : Database → Text → Text → Option (Text × ℤ)
unfolding has_event_grant
event_destination db controller_id event_type = do
  c ← findb (λ r. text_eq r.id controller_id) db.controllers
  endpoint ← c.event_endpoint
  key_version ← c.event_key_version
  if has_event_grant db.event_grants controller_id event_type
      then some (endpoint, key_version)
      else none

abbrev pub same_event_key : Text → Text → ControllerEvent → Bool
same_event_key controller_id idempotency_key e =
    text_eq e.controller_id controller_id && text_eq e.idempotency_key idempotency_key

-- `INSERT OR IGNORE`: an event with the same id, or with the same controller and key, is kept.
unfoldable pub insert_event : ControllerEvent → List ControllerEvent → List ControllerEvent
insert_event event rows =
    if anyb
      (λ e. text_eq e.id event.id || same_event_key event.controller_id event.idempotency_key e)
      rows
    then rows
    else rows ++ (event ∷ [])

unfoldable pub enqueued_audit : ℕ → Text → Option Text → Text → Text → ℕ → Text → AuditEvent
enqueued_audit clock controller_id session_id event_type idempotency_key occurred_at
      actual_event_id =
    let audit_event_key = codes "runtime_event.enqueued:" ++ actual_event_id in
    record {
      version = audit_event_version;
      event_id = codes "aud:" ++ (audit_service ++ (codes ":" ++ audit_event_key));
      event_key = audit_event_key;
      occurred_at = pos occurred_at;
      recorded_at = pos clock;
      service = audit_service;
      kind = codes "runtime_event.enqueued";
      outcome = AuditOutcome.pending;
      caused_by = none;
      correlation = record no_correlation {
        controller_id = some controller_id;
        session_id = session_id;
        runtime_event_id = some actual_event_id;
      };
      actor = none;
      target = none;
      detail = object (
          field (codes "event_type") (string event_type)
            (field (codes "idempotency_key") (string idempotency_key) no_fields));
      error = none;
    }

-- What the two services of the process give: `serde_json::to_string`, and for each call a fresh
-- `new_id("cev")` and `now_ms()`.
module _ (to_string : Value → Text) (event_id : Text) (clock : ℕ) where
  unfoldable pub event_body : Text → Option Text → Text → Value → ℕ → Text
  event_body controller_id session_id event_type payload occurred_at = to_string (
      object (
        field (codes "version") (string (codes "1")) (
          field (codes "event_id") (string event_id) (
            field (codes "controller_id") (string controller_id) (
              field (codes "event_type") (string event_type) (
                field (codes "session_id") (string_or_null session_id) (
                  field (codes "occurred_at") (number (pos occurred_at))
                    (field (codes "payload") payload no_fields))))))))

  unfoldable pub new_event :
      Text → Option Text → Text → Value → Text → ℕ → Text → ℤ → ControllerEvent
  unfolding event_body
  new_event controller_id session_id event_type payload idempotency_key occurred_at endpoint
        key_version =
      record {
        id = event_id;
        controller_id = controller_id;
        session_id = session_id;
        event_type = event_type;
        event_endpoint = endpoint;
        event_key_version = key_version;
        body_json = event_body controller_id session_id event_type payload occurred_at;
        idempotency_key = idempotency_key;
        state = waiting;
        attempts = 0;
        created_at = occurred_at;
        next_attempt_at = occurred_at;
        lease_until = none;
        delivered_at = none;
        last_error = none;
      }

  -- The part after the destination is read; without one nothing is enqueued. `none` is an error, on
  -- which the caller's transaction is rolled back.
  unfoldable pub enqueue_to :
      Database → Text → Option Text → Text → Value → Text → ℕ → Option (Text × ℤ) → Option Database
  enqueue_to db controller_id session_id event_type payload idempotency_key occurred_at none =
      some db
  enqueue_to db controller_id session_id event_type payload idempotency_key occurred_at
        (some (endpoint, version)) =
      do
        let events =
            insert_event
              (new_event controller_id session_id event_type payload idempotency_key occurred_at
                endpoint version)
              db.events
        actual ← findb (same_event_key controller_id idempotency_key) events
        audit ← append_audit_event_locked db.audit (
            enqueued_audit clock controller_id session_id event_type idempotency_key occurred_at
              actual.id)
        some (record db { events = events; audit = audit })

  unfoldable pub enqueue_controller_event_locked :
      Database → Text → Option Text → Text → Value → Text → ℕ → Option Database
  unfolding enqueue_to
  enqueue_controller_event_locked db controller_id session_id event_type payload idempotency_key
        occurred_at =
      enqueue_to db controller_id session_id event_type payload idempotency_key occurred_at
        (event_destination db controller_id event_type)

  -- The controller that owns the session gets the event; without one nothing is enqueued.
  unfoldable pub enqueue_for :
      Database → Text → Text → Value → Text → ℕ → Option ControllerSession → Option Database
  enqueue_for db session_id event_type payload idempotency_key occurred_at none = some db
  enqueue_for db session_id event_type payload idempotency_key occurred_at (some s) =
      enqueue_controller_event_locked db s.controller_id (some session_id) event_type payload
        idempotency_key occurred_at

  unfoldable pub enqueue_controller_session_event_locked :
      Database → Text → Text → Value → Text → ℕ → Option Database
  unfolding enqueue_for
  enqueue_controller_session_event_locked db session_id event_type payload idempotency_key
        occurred_at =
      enqueue_for db session_id event_type payload idempotency_key occurred_at
        (findb (λ s. text_eq s.session_id session_id) db.controller_sessions)

  unfoldable pub enqueue_session_intent : Database → Text → Text → Value → Option Database
  enqueue_session_intent db session_id message_id payload =
      enqueue_controller_session_event_locked db session_id (codes "session.intent") payload
        (codes "session.intent:" ++ message_id) clock

-- `INSERT … ON CONFLICT DO UPDATE` of a grant.
unfoldable pub grant_event : Text → ℕ → Text → List EventGrant → List EventGrant
grant_event controller_id now event_type grants =
    let same = λ (g : EventGrant).
      text_eq g.controller_id controller_id && text_eq g.event_type event_type in
    if anyb same grants
    then update_where same (λ g. record g { granted = true; updated_at = now }) grants
    else grants
      ++ (record {
        controller_id = controller_id;
        event_type = event_type;
        granted = true;
        updated_at = now;
      }
          ∷ [])

unfoldable pub grant_events : Text → ℕ → List Text → List EventGrant → List EventGrant
unfolding grant_event
grant_events controller_id now [] grants = grants
grant_events controller_id now (event_type ∷ event_types) grants =
    grant_events controller_id now event_types (grant_event controller_id now event_type grants)

unfoldable pub configure_controller_events :
    Database → Text → Text → ℤ → List Text → ℕ → Database × Bool
unfolding grant_events
configure_controller_events db controller_id endpoint key_version event_types now =
    let this = λ (c : Controller). text_eq c.id controller_id in
    let revoked =
      update_where (λ (g : EventGrant). text_eq g.controller_id controller_id)
        (λ g. record g { granted = false; updated_at = now }) db.event_grants in
    if not (count_where this db.controllers == 1) then (db, false) else (
      record db {
        controllers =
            update_where this
              (λ c. record c {
                event_endpoint = some endpoint;
                event_key_version = some key_version;
                updated_at = now;
              })
              db.controllers;
        event_grants = grant_events controller_id now event_types revoked;
      },
      true,
    )

-- The audit of the dead letters, newest first.
unfoldable pub controller_event_audit : Database → Text → List ControllerEventAudit
controller_event_audit db controller_id = take 200 (
    order_by
      (λ (a b : ControllerEventAudit).
        ltb b.created_at a.created_at || (a.created_at == b.created_at && leb b.id a.id))
      (filterb (λ r. text_eq r.controller_id controller_id) db.event_audit))

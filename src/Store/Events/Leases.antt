-- ===== src/Store/Events/Leases.antt =====
-- src/store.rs: claiming the due events under a lease, and settling or pruning them.
use openab_control_plane.Prelude.{
  ℕ, ◌+◌, ltb, leb, ◌==◌, Bool, not, ◌&&◌, ◌||◌, Option, some, none, List, [], ◌∷◌, ◌++◌, map,
  if◌then◌else◌, findb, filterb, take, is_some_and, ℤ, update_where, count_where, order_by, length,
}
use openab_control_plane.Text.{Text, codes, text_eq}
use openab_control_plane.Store.Database.{
  waiting, delivering, delivered, dead_letter, ControllerEvent, ControllerEventAudit, Database,
  saturating_add,
}
use openab_control_plane.Store.Events.{is_waiting, is_delivering, is_delivered}

pub record ControllerEventDelivery : Type 0 where
  pub id : Text
  pub controller_id : Text
  pub session_id : Option Text
  pub event_type : Text
  pub endpoint : Text
  pub key_version : ℤ
  pub body_json : Text
  pub attempts : ℕ
  pub created_at : ℕ

abbrev pub delivery_of : ControllerEvent → ControllerEventDelivery
delivery_of e = record {
  id = e.id;
  controller_id = e.controller_id;
  session_id = e.session_id;
  event_type = e.event_type;
  endpoint = e.event_endpoint;
  key_version = e.event_key_version;
  body_json = e.body_json;
  attempts = e.attempts;
  created_at = e.created_at;
}

abbrev pub is_expired : ℕ → ControllerEvent → Bool
is_expired now e = is_delivering e.state && is_some_and e.lease_until (λ t. leb t now)

-- The leases that have run out are given back.
unfoldable pub release_expired : ℕ → List ControllerEvent → List ControllerEvent
release_expired now =
    update_where (is_expired now) (λ e. record e { state = waiting; lease_until = none })

abbrev pub is_due : ℕ → ControllerEvent → Bool
is_due now e = is_waiting e.state && leb e.next_attempt_at now

abbrev pub due_before : ControllerEvent → ControllerEvent → Bool
due_before a b =
    ltb a.next_attempt_at b.next_attempt_at
    || (a.next_attempt_at == b.next_attempt_at && leb a.created_at b.created_at)

unfoldable pub due_ids : ℕ → ℕ → List ControllerEvent → List Text
due_ids now limit rows =
    map (λ (e : ControllerEvent). e.id)
      (take limit (order_by due_before (filterb (is_due now) rows)))

abbrev pub is_claimable : Text → ControllerEvent → Bool
is_claimable id e = text_eq e.id id && is_waiting e.state

unfoldable pub lease_event : ℕ → Text → List ControllerEvent → List ControllerEvent
lease_event lease_until id = update_where (is_claimable id) (λ e. record e {
  state = delivering;
  attempts = e.attempts + 1;
  lease_until = some lease_until;
})

-- One round of the loop: an id whose update does not change exactly one row is skipped.
unfoldable pub claim_one :
    ℕ
    → Text
    → List ControllerEvent × List ControllerEventDelivery
    → List ControllerEvent × List ControllerEventDelivery
claim_one lease_until id (rows, deliveries) =
    let leased = lease_event lease_until id rows in
    if not (count_where (is_claimable id) rows == 1)
    then (leased, deliveries)
    else elim (findb (λ (e : ControllerEvent). text_eq e.id id) leased) [
      | none ↦ (leased, deliveries)
      | some e ↦ (leased, deliveries ++ (delivery_of e ∷ []))
    ]

unfoldable pub claim_each :
    ℕ
    → List Text
    → List ControllerEvent × List ControllerEventDelivery
    → List ControllerEvent × List ControllerEventDelivery
claim_each lease_until [] state = state
claim_each lease_until (id ∷ ids) state =
    claim_each lease_until ids (claim_one lease_until id state)

unfoldable pub claim_controller_events :
    Database → ℕ → ℕ → ℕ → Database × List ControllerEventDelivery
claim_controller_events db now limit lease_ms =
    let rows = release_expired now db.events in
    let claimed = claim_each (saturating_add now lease_ms) (due_ids now limit rows) (rows, []) in
    (record db { events = claimed.0 }, claimed.1)

abbrev pub is_held : Text → ControllerEvent → Bool
is_held event_id e = text_eq e.id event_id && is_delivering e.state

unfoldable pub complete_controller_event : Database → Text → ℕ → Database × Bool
complete_controller_event db event_id delivered_at = (
  record db {
    events =
        update_where (is_held event_id)
          (λ e. record e {
            state = delivered;
            delivered_at = some delivered_at;
            lease_until = none;
            last_error = none;
          })
          db.events;
  },
  count_where (is_held event_id) db.events == 1,
)

-- `INSERT … SELECT` of a dead letter, under the next number of the table.
unfoldable pub audit_dead_letter :
    Text → Text → ℕ → ℕ → List ControllerEvent → List ControllerEventAudit
audit_dead_letter event_id error now seq [] = []
audit_dead_letter event_id error now seq (e ∷ rows) =
    if text_eq e.id event_id
    then record {
      id = seq;
      controller_id = e.controller_id;
      event_id = e.id;
      kind = codes "dead_letter";
      detail = error;
      created_at = now;
    }
      ∷ audit_dead_letter event_id error now (seq + 1) rows
    else audit_dead_letter event_id error now seq rows

unfoldable pub fail_controller_event : Database → Text → Text → Option ℕ → ℕ → Database × Bool
unfolding audit_dead_letter
fail_controller_event db event_id error (some next_attempt_at) now = (
  record db {
    events =
        update_where (is_held event_id)
          (λ e. record e {
            state = waiting;
            next_attempt_at = next_attempt_at;
            lease_until = none;
            last_error = some error;
          })
          db.events;
  },
  count_where (is_held event_id) db.events == 1,
)
fail_controller_event db event_id error none now =
    let events =
      update_where (is_held event_id)
        (λ (e : ControllerEvent). record e {
          state = dead_letter;
          lease_until = none;
          last_error = some error;
        })
        db.events in
    let updated = count_where (is_held event_id) db.events == 1 in
    (
      record db {
        events = events;
        event_audit =
            if updated
            then db.event_audit
              ++ audit_dead_letter event_id error now (length db.event_audit + 1) events
            else db.event_audit;
      },
      updated,
    )

unfoldable pub prune_delivered_controller_events : Database → ℕ → Database × ℕ
prune_delivered_controller_events db before =
    let old = λ (e : ControllerEvent).
      is_delivered e.state && is_some_and e.delivered_at (λ t. ltb t before) in
    (record db { events = filterb (λ e. not (old e)) db.events }, count_where old db.events)

-- ===== src/Tests/Events.antt =====
-- The theorems on the audit journal and the events of src/store.rs at concrete rows.
use openab_control_plane.Prelude.{
  ◌≡◌, ◌⊎◌, refl, true, false, [], ◌∷◌, ◌++◌, some, none, pos, negsuc, arith, map, All, Has, inl,
  anyb,
}
use openab_control_plane.Text.{Text, codes, text_eq, text_ops, contains}
use openab_control_plane.Store.Json.{Value, null}
use openab_control_plane.Store.Audit.{
  AuditEvent, AuditCursor, AuditOutcome, encode, decode, append_audit_event_locked, is_valid_event,
  session_audit_event, same_audit_key,
}
use openab_control_plane.Store.Audit.Cursor.{decode-encode}
use openab_control_plane.Store.Audit.Journal.{append_twice}
use openab_control_plane.Store.Database.{
  Controller, ControllerEvent, EventGrant, Database, waiting, dead_letter,
}
use openab_control_plane.Store.Events.{
  event_destination, enqueue_controller_event_locked, insert_event, new_event, enqueued_audit,
  is_waiting, is_delivering,
}
use openab_control_plane.Store.Events.Leases.{
  ControllerEventDelivery, claim_controller_events, prune_delivered_controller_events,
  release_expired, due_ids, claim_each, claim_one, lease_event,
}
use openab_control_plane.Store.Events.Enqueue.{enqueue_twice}
use openab_control_plane.Store.Events.Lifecycle.{
  EventStep, EventSteps, here, next, IsLeasedRight, steps-IsLeasedRight,
}
use openab_control_plane.Store.Events.Lifecycle as Life
use openab_control_plane.Store.Events.Lifecycle.DeadLetters.{steps-Has_dead_letter}
use openab_control_plane.Store.Events.Exclusive.{claim_exclusive, claim_series}

abbrev cursor : AuditCursor
cursor = record { recorded_at = pos 1700000000000; seq = negsuc 4 }

cursor_example : decode (encode cursor) ≡ some cursor
cursor_example = decode-encode cursor (omega arith) (omega arith)

abbrev opened : AuditEvent
opened =
    session_audit_event 8 (codes "session.opened") (codes "ses_1") AuditOutcome.accepted 7 none null

opened_is_valid : append_audit_event_locked [] opened ≡ some (opened ∷ [])
unfolding append_audit_event_locked session_audit_event is_valid_event text_ops
opened_is_valid = refl

append_example :
    (anyb (same_audit_key opened) (opened ∷ []) ≡ true)
    × (((opened ∷ []) ≡ []) ⊎ ((opened ∷ []) ≡ [] ++ (opened ∷ [])))
    × (append_audit_event_locked (opened ∷ []) opened ≡ some (opened ∷ []))
append_example = append_twice [] (opened ∷ []) opened opened_is_valid

abbrev installed : Controller
installed = record {
  id = codes "c";
  enabled = true;
  max_concurrent_sessions = 5;
  max_actions_per_minute = 60;
  event_endpoint = some (codes "https://x");
  event_key_version = some (pos 1);
  created_at = 0;
  updated_at = 0;
}

abbrev granted : EventGrant
granted = record {
  controller_id = codes "c";
  event_type = codes "session.intent";
  granted = true;
  updated_at = 0;
}

abbrev empty : Database
empty = record {
  controllers = installed ∷ [];
  tokens = [];
  action_grants = [];
  bindings = [];
  trigger_scopes = [];
  actions = [];
  controller_sessions = [];
  event_grants = granted ∷ [];
  events = [];
  event_audit = [];
  audit = [];
  sessions = [];
  session_bots = [];
  messages = [];
}

abbrev to_string : Value → Text
to_string v = []

abbrev first : ControllerEvent
first = record {
  id = codes "e1";
  controller_id = codes "c";
  session_id = none;
  event_type = codes "session.intent";
  event_endpoint = codes "https://x";
  event_key_version = pos 1;
  body_json = [];
  idempotency_key = codes "k";
  state = waiting;
  attempts = 0;
  created_at = 5;
  next_attempt_at = 5;
  lease_until = none;
  delivered_at = none;
  last_error = none;
}

abbrev enqueued : Database
enqueued = record empty {
  events = first ∷ [];
  audit =
      enqueued_audit 6 (codes "c") none (codes "session.intent") (codes "k") 5 (codes "e1") ∷ [];
}

enqueue_first :
    enqueue_controller_event_locked to_string
      (codes "e1")
      6
      empty
      (codes "c")
      none
      (codes "session.intent")
      null
      (codes "k")
      5
    ≡ some enqueued
unfolding enqueue_controller_event_locked event_destination insert_event new_event enqueued_audit
    append_audit_event_locked is_valid_event text_ops
enqueue_first = refl

enqueue_second :
    enqueue_controller_event_locked to_string
      (codes "e2")
      9
      enqueued
      (codes "c")
      none
      (codes "session.intent")
      null
      (codes "k")
      8
    ≡ some enqueued
unfolding enqueue_controller_event_locked event_destination insert_event new_event enqueued_audit
    append_audit_event_locked is_valid_event text_ops
enqueue_second = refl

destination :
    event_destination empty (codes "c") (codes "session.intent") ≡ some (codes "https://x", pos 1)
unfolding event_destination text_ops
destination = refl

enqueue_twice_example : ◌≡◌ {A = Database} enqueued enqueued
enqueue_twice_example =
    enqueue_twice to_string (codes "e1") (codes "e2") 6 9 empty enqueued enqueued (codes "c") none
      none (codes "session.intent") (codes "session.intent") null null (codes "k") 5 8
      (codes "https://x", pos 1) destination enqueue_first enqueue_second

-- The first event is enqueued and claimed.
abbrev claimed : Database
claimed = (claim_controller_events enqueued 10 4 1000).0

claimed_steps : EventSteps to_string empty claimed
claimed_steps =
    next
      (next here (
        Life.enqueue (codes "e1") 6 (codes "c") none (codes "session.intent") null (codes "k") 5
          enqueue_first))
      (Life.claim 10 4 1000 refl)

leases_example : All IsLeasedRight claimed.events
leases_example = steps-IsLeasedRight to_string claimed_steps tt

abbrev given_up : ControllerEvent
given_up = record first { state = dead_letter; last_error = some (codes "gone") }

abbrev buried : Database
buried = record empty { events = given_up ∷ [] }

abbrev pruned : Database
pruned = (prune_delivered_controller_events (claim_controller_events buried 10 4 1000).0 100).0

buried_steps : EventSteps to_string buried pruned
buried_steps = next (next here (Life.claim 10 4 1000 refl)) (Life.prune 100 refl)

dead_letter_example : Has given_up pruned.events
dead_letter_example = steps-Has_dead_letter to_string given_up refl buried_steps (inl refl)

-- The event that a claim at 10 leases until 1010 is not claimed at 500 and at 1009.
exclusive_example :
    All
      (λ (d : ControllerEventDelivery).
        All
          (λ (d' : ControllerEventDelivery). text_eq d'.id d.id ≡ false)
          (claim_series
            (claim_controller_events enqueued 10 4 1000).0
            ((500, 4, 1000) ∷ (1009, 9, 50) ∷ [])))
      (claim_controller_events enqueued 10 4 1000).1
unfolding contains
exclusive_example =
    claim_exclusive enqueued 10 4 1000 ((500, 4, 1000) ∷ (1009, 9, 50) ∷ []) (refl, tt)
      (omega arith)

claims_first :
    map (λ (d : ControllerEventDelivery). d.id) (claim_controller_events enqueued 10 4 1000).1
    ≡ codes "e1" ∷ []
unfolding claim_controller_events release_expired due_ids claim_each claim_one lease_event
    is_waiting is_delivering text_ops
claims_first = refl

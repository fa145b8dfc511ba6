-- ===== src/Store/Events/Lifecycle/DeadLetters.antt =====
-- An event that was given up stays in the table.
use openab_control_plane.Prelude.{
  ℕ, ◌≡◌, refl, Bool, false, ◌&&◌, ◌||◌, Option, some, none, List, [], ◌∷◌, anyb, arith, Bool-cases,
  inl, inr, Has, Has-append, Has-update_where, Has-filterb,
}
use openab_control_plane.Text.{Text, text_eq}
use openab_control_plane.Store.Json.{Value}
use openab_control_plane.Store.Database.{dead_letter, ControllerEvent, Database}
use openab_control_plane.Store.Events.{
  same_event_key, is_waiting, is_delivering, is_delivered, insert_event, new_event,
  enqueue_controller_event_locked, event_destination,
}
use openab_control_plane.Store.Events.Enqueue.{enqueue_to_events}
use openab_control_plane.Store.Events.Leases.{
  is_expired, is_claimable, is_held, release_expired, lease_event, claim_one, claim_each,
  claim_controller_events, due_ids, complete_controller_event, fail_controller_event,
  prune_delivered_controller_events, ControllerEventDelivery,
}
use openab_control_plane.Store.Events.Lifecycle.{
  EventStep, enqueue, configure, claim, complete, fail, prune, EventSteps, here, next,
  claim_one_rows, configure_events,
}

Has-insert_event :
    (e event : ControllerEvent) (rows : List ControllerEvent)
    → Has e rows
    → Has e (insert_event event rows)
unfolding insert_event
Has-insert_event e event rows h =
    elim (Bool-cases (
      anyb
        (λ (r : ControllerEvent).
          text_eq r.id event.id || same_event_key event.controller_id event.idempotency_key r)
        rows)) [ inl k ↦ rw k h | inr k ↦ rw k (Has-append e rows (event ∷ []) h) ]

-- A row that no operation but the pruning touches: it is settled.
abbrev pub IsSettled : ControllerEvent → Type 0
IsSettled e = (is_waiting e.state ≡ false) × (is_delivering e.state ≡ false)

module _ (e : ControllerEvent) (settled : IsSettled e) where
  not_held : (p : Bool) → (p && is_delivering e.state) ≡ false
  not_held p = rw settled.1 (ground arith)

  claim_each-Has :
      (u : ℕ) (ids : List Text) (rows : List ControllerEvent) (ds : List ControllerEventDelivery)
      → Has e rows
      → Has e (claim_each u ids (rows, ds)).0
  unfolding claim_each lease_event
  claim_each-Has u [] rows ds h = h
  claim_each-Has u (id ∷ ids) rows ds h =
      claim_each-Has u ids (claim_one u id (rows, ds)).0 (claim_one u id (rows, ds)).1 (
        rw (claim_one_rows u id rows ds)
          (Has-update_where e (is_claimable id) _ rows (rw settled.0 (ground arith)) h))

  enqueue-Has :
      (to_string : Value → Text) (event_id : Text) (clock : ℕ) (db db' : Database) (c : Text)
      (session_id : Option Text) (event_type : Text) (payload : Value) (key : Text) (at : ℕ)
      → enqueue_controller_event_locked to_string event_id clock db c session_id event_type payload
          key at
        ≡ some db'
      → Has e db.events
      → Has e db'.events
  unfolding enqueue_controller_event_locked
  enqueue-Has to_string event_id clock db db' c session_id event_type payload key at h a =
      elim (enqueue_to_events to_string event_id clock db db' c session_id event_type payload key at
        (event_destination db c event_type) h) [
          | inl q ↦ rw q a
          | inr (endpoint, v, q) ↦ rw q (
              Has-insert_event e
                (new_event to_string event_id clock c session_id event_type payload key at endpoint
                  v)
                db.events a)
        ]

  fail-Has :
      (db : Database) (event_id error : Text) (next_attempt_at : Option ℕ) (now : ℕ)
      → Has e db.events
      → Has e (fail_controller_event db event_id error next_attempt_at now).0.events
  unfolding fail_controller_event
  fail-Has db event_id error (some t) now h =
      Has-update_where e (is_held event_id) _ db.events (not_held _) h
  fail-Has db event_id error none now h =
      Has-update_where e (is_held event_id) _ db.events (not_held _) h

  step-Has :
      (to_string : Value → Text) {db db' : Database}
      → is_delivered e.state ≡ false
      → EventStep to_string db db'
      → Has e db.events
      → Has e db'.events
  unfolding claim_controller_events complete_controller_event prune_delivered_controller_events
      release_expired
  step-Has to_string {db} {db'} n (enqueue event_id clock c sid ty payload key at q) h =
      enqueue-Has to_string event_id clock db db' c sid ty payload key at q h
  step-Has to_string {db} n (configure c e' v types now q) h =
      rw q (rw (configure_events db c e' v types now) h)
  step-Has to_string {db} n (claim now limit lease_ms q) h = rw q (
      claim_each-Has _ (due_ids now limit (release_expired now db.events))
        (release_expired now db.events) []
        (Has-update_where e (is_expired now) _ db.events (rw settled.1 refl) h))
  step-Has to_string {db} n (complete event_id t q) h =
      rw q (Has-update_where e (is_held event_id) _ db.events (not_held _) h)
  step-Has to_string {db} n (fail event_id error at now q) h =
      rw q (fail-Has db event_id error at now h)
  step-Has to_string {db} n (prune before q) h = rw q (Has-filterb e _ db.events (rw n refl) h)

-- A dead letter stays in the table of events, unchanged, over any series of enqueues,
-- configurations, claims, completions, failures and prunings.
pub steps-Has_dead_letter :
    (to_string : Value → Text) {db db' : Database} (e : ControllerEvent)
    → e.state ≡ dead_letter
    → EventSteps to_string db db'
    → Has e db.events
    → Has e db'.events
unfolding is_waiting is_delivering is_delivered
steps-Has_dead_letter to_string e d here h = h
steps-Has_dead_letter to_string e d (next more step) h =
    step-Has e (rw d (refl, refl)) to_string (rw d refl) step
      (steps-Has_dead_letter to_string e d more h)

-- ===== src/Store/Events/Lifecycle.antt =====
-- What every row of the events keeps, over any series of the operations of src/store.rs on them.
pub mod DeadLetters
use openab_control_plane.Prelude.{
  ℕ, suc, ◌+◌, ltb, leb, ◌==◌, ◌≡◌, refl, sym, ap, ◌∙◌, subst, Bool, true, false, not, ◌&&◌, ◌||◌,
  Option, some, none, List, [], ◌∷◌, ◌++◌, if◌then◌else◌, anyb, findb, is_some, ℤ, arith,
  Bool-cases, Option-cases, inl, inr, All, All-append, All-update_where, All-filterb, All-if, Has,
  Has-append, Has-update_where, Has-filterb, >>=-eq-some, some_inj, update_where, count_where,
}
use openab_control_plane.Text.{Text, text_eq}
use openab_control_plane.Store.Json.{Value}
use openab_control_plane.Store.Database.{
  waiting, delivering, delivered, dead_letter, ControllerEvent, Database, EventState,
}
use openab_control_plane.Store.Events.{
  same_event_key, is_waiting, is_delivering, is_delivered, insert_event, new_event, enqueue_to,
  enqueue_controller_event_locked, configure_controller_events, event_destination,
}
use openab_control_plane.Store.Events.Enqueue.{enqueue_to_events}
use openab_control_plane.Store.Events.Leases.{
  is_expired, is_claimable, is_held, release_expired, lease_event, claim_one, claim_each,
  claim_controller_events, due_ids, complete_controller_event, fail_controller_event,
  prune_delivered_controller_events, ControllerEventDelivery,
}

-- One operation of the store on the events.
pub data EventStep (to_string : Value → Text) : Database → Database → Type 0 where
  enqueue :
      {db db' : Database} (event_id : Text) (clock : ℕ) (controller_id : Text)
      (session_id : Option Text) (event_type : Text) (payload : Value) (idempotency_key : Text)
      (occurred_at : ℕ)
      → enqueue_controller_event_locked to_string event_id clock db controller_id session_id
          event_type payload idempotency_key occurred_at
        ≡ some db'
      → EventStep to_string db db'
  configure :
      {db db' : Database} (controller_id endpoint : Text) (key_version : ℤ)
      (event_types : List Text) (now : ℕ)
      → db' ≡ (configure_controller_events db controller_id endpoint key_version event_types now).0
      → EventStep to_string db db'
  claim :
      {db db' : Database} (now limit lease_ms : ℕ)
      → db' ≡ (claim_controller_events db now limit lease_ms).0
      → EventStep to_string db db'
  complete :
      {db db' : Database} (event_id : Text) (delivered_at : ℕ)
      → db' ≡ (complete_controller_event db event_id delivered_at).0
      → EventStep to_string db db'
  fail :
      {db db' : Database} (event_id error : Text) (next_attempt_at : Option ℕ) (now : ℕ)
      → db' ≡ (fail_controller_event db event_id error next_attempt_at now).0
      → EventStep to_string db db'
  prune :
      {db db' : Database} (before : ℕ)
      → db' ≡ (prune_delivered_controller_events db before).0
      → EventStep to_string db db'

pub data EventSteps (to_string : Value → Text) (db : Database) : Database → Type 0 where
  here : EventSteps to_string db db
  next :
      {db' db'' : Database}
      → EventSteps to_string db db'
      → EventStep to_string db' db''
      → EventSteps to_string db db''

-- A property of rows that each change of a row keeps, and that a new row has.
record IsStable (P : ControllerEvent → Type 0) : Type 0 where
  fresh :
      (e : ControllerEvent) → e.state ≡ waiting → e.lease_until ≡ none → e.delivered_at ≡ none → P e
  release :
      (e : ControllerEvent)
      → P e
      → is_delivering e.state ≡ true
      → P (record e { state = waiting; lease_until = none })
  lease :
      (e : ControllerEvent) (t : ℕ)
      → P e
      → is_waiting e.state ≡ true
      → P (record e { state = delivering; attempts = e.attempts + 1; lease_until = some t })
  complete :
      (e : ControllerEvent) (t : ℕ)
      → P e
      → is_delivering e.state ≡ true
      → P (record e {
        state = delivered;
        delivered_at = some t;
        lease_until = none;
        last_error = none;
      })
  retry :
      (e : ControllerEvent) (t : ℕ) (error : Text)
      → P e
      → is_delivering e.state ≡ true
      → P (record e {
        state = waiting;
        next_attempt_at = t;
        lease_until = none;
        last_error = some error;
      })
  give_up :
      (e : ControllerEvent) (error : Text)
      → P e
      → is_delivering e.state ≡ true
      → P (record e { state = dead_letter; lease_until = none; last_error = some error })

and_left : (a b : Bool) → (a && b) ≡ true → a ≡ true
and_left a b h = ground arith

and_right : (a b : Bool) → (a && b) ≡ true → b ≡ true
and_right a b h = ground arith

pub claim_one_rows :
    (u : ℕ) (id : Text) (rows : List ControllerEvent) (ds : List ControllerEventDelivery)
    → (claim_one u id (rows, ds)).0 ≡ lease_event u id rows
unfolding claim_one
claim_one_rows u id rows ds = elim (Bool-cases (count_where (is_claimable id) rows == 1)) [
  | inl e ↦
      rw e
        (elim (Option-cases
          (findb (λ (e : ControllerEvent). text_eq e.id id) (lease_event u id rows))) [
            | inl f ↦ rw f refl
            | inr (r, f) ↦ rw f refl
          ])
  | inr e ↦ rw e refl
]

pub configure_events :
    (db : Database) (c e : Text) (v : ℤ) (types : List Text) (now : ℕ)
    → (configure_controller_events db c e v types now).0.events ≡ db.events
unfolding configure_controller_events
configure_events db c e v types now = ground arith

module _ (P : ControllerEvent → Type 0) (s : IsStable P) where
  release_expired-All :
      (now : ℕ) (rows : List ControllerEvent) → All P rows → All P (release_expired now rows)
  unfolding release_expired
  release_expired-All now rows h =
      All-update_where P P (is_expired now) _ (λ e p q. s.release e p (and_left _ _ q)) (λ e p q. p)
        rows h

  lease_event-All :
      (u : ℕ) (id : Text) (rows : List ControllerEvent) → All P rows → All P (lease_event u id rows)
  unfolding lease_event
  lease_event-All u id rows h =
      All-update_where P P (is_claimable id) _ (λ e p q. s.lease e u p (and_right _ _ q))
        (λ e p q. p) rows h

  claim_each-All :
      (u : ℕ) (ids : List Text) (rows : List ControllerEvent) (ds : List ControllerEventDelivery)
      → All P rows
      → All P (claim_each u ids (rows, ds)).0
  unfolding claim_each
  claim_each-All u [] rows ds h = h
  claim_each-All u (id ∷ ids) rows ds h =
      claim_each-All u ids (claim_one u id (rows, ds)).0 (claim_one u id (rows, ds)).1
        (rw (claim_one_rows u id rows ds) (lease_event-All u id rows h))

  insert_event-All :
      (e : ControllerEvent) (rows : List ControllerEvent)
      → P e
      → All P rows
      → All P (insert_event e rows)
  unfolding insert_event
  insert_event-All e rows p h =
      All-if P _ rows (rows ++ (e ∷ [])) h (All-append P rows (e ∷ []) h (p, tt))

  enqueue-All :
      (to_string : Value → Text) (event_id : Text) (clock : ℕ) (db db' : Database) (c : Text)
      (session_id : Option Text) (event_type : Text) (payload : Value) (key : Text) (at : ℕ)
      → enqueue_controller_event_locked to_string event_id clock db c session_id event_type payload
          key at
        ≡ some db'
      → All P db.events
      → All P db'.events
  unfolding enqueue_controller_event_locked new_event
  enqueue-All to_string event_id clock db db' c session_id event_type payload key at h a =
      elim (enqueue_to_events to_string event_id clock db db' c session_id event_type payload key at
        (event_destination db c event_type) h) [
          | inl e ↦ rw e a
          | inr (endpoint, v, e) ↦
              let event =
                new_event to_string event_id clock c session_id event_type payload key at endpoint
                  v in
              rw e (insert_event-All event db.events (s.fresh event refl refl refl) a)
        ]

  fail-All :
      (db : Database) (event_id error : Text) (next_attempt_at : Option ℕ) (now : ℕ)
      → All P db.events
      → All P (fail_controller_event db event_id error next_attempt_at now).0.events
  unfolding fail_controller_event
  fail-All db event_id error (some t) now h =
      All-update_where P P (is_held event_id) _ (λ e p q. s.retry e t error p (and_right _ _ q))
        (λ e p q. p) db.events h
  fail-All db event_id error none now h =
      All-update_where P P (is_held event_id) _ (λ e p q. s.give_up e error p (and_right _ _ q))
        (λ e p q. p) db.events h

  step-All :
      (to_string : Value → Text) {db db' : Database}
      → EventStep to_string db db'
      → All P db.events
      → All P db'.events
  unfolding claim_controller_events complete_controller_event prune_delivered_controller_events
  step-All to_string {db} {db'} (enqueue event_id clock c sid ty payload key at e) h =
      enqueue-All to_string event_id clock db db' c sid ty payload key at e h
  step-All to_string {db} (configure c e v types now q) h =
      rw q (rw (configure_events db c e v types now) h)
  step-All to_string {db} (claim now limit lease_ms q) h = rw q (
      claim_each-All _ (due_ids now limit (release_expired now db.events))
        (release_expired now db.events) [] (release_expired-All now db.events h))
  step-All to_string {db} (complete event_id t q) h = rw q (
      All-update_where P P (is_held event_id) _ (λ e p r. s.complete e t p (and_right _ _ r))
        (λ e p r. p) db.events h)
  step-All to_string {db} (fail event_id error at now q) h =
      rw q (fail-All db event_id error at now h)
  step-All to_string {db} (prune before q) h = rw q (All-filterb P _ db.events h)

  steps-All :
      (to_string : Value → Text) {db db' : Database}
      → EventSteps to_string db db'
      → All P db.events
      → All P db'.events
  steps-All to_string here h = h
  steps-All to_string (next more step) h = step-All to_string step (steps-All to_string more h)

-- Exactly the events that are being delivered have a lease, and exactly the delivered ones a time
-- of delivery.
abbrev pub IsLeasedRight : ControllerEvent → Type 0
IsLeasedRight e =
    (is_some e.lease_until ≡ is_delivering e.state)
    × (is_some e.delivered_at ≡ is_delivered e.state)

IsLeasedRight-IsStable : IsStable IsLeasedRight
unfolding is_delivering is_delivered is_waiting
IsLeasedRight-IsStable = record {
  fresh = λ e p q r. rw (p, q, r) (refl, refl);
  release = λ e p q. ground (arith, p.1);
  lease = λ e t p q. ground (arith, p.1);
  complete = λ e t p q. (refl, refl);
  retry = λ e t error p q. ground (arith, p.1);
  give_up = λ e error p q. ground (arith, p.1);
}

-- Over any series of enqueues, configurations, claims, completions, failures and prunings, exactly
-- the rows in delivering have a lease and exactly the rows in delivered have a time of delivery,
-- if it was so before.
pub steps-IsLeasedRight :
    (to_string : Value → Text) {db db' : Database}
    → EventSteps to_string db db'
    → All IsLeasedRight db.events
    → All IsLeasedRight db'.events
steps-IsLeasedRight to_string steps h =
    steps-All IsLeasedRight IsLeasedRight-IsStable to_string steps h

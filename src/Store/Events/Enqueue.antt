-- ===== src/Store/Events/Enqueue.antt =====
-- Enqueuing an event twice under one key, as the callers of src/store.rs do on a retry.
use openab_control_plane.Prelude.{
  ℕ, ◌≡◌, refl, sym, ap, ◌∙◌, subst, Bool, true, ◌||◌, Option, some, none, List, [], ◌∷◌, anyb,
  findb, ℤ, arith, Option-cases, inl, inr, some_inj, ◌>>=◌, ◌⊎◌,
}
use openab_control_plane.Text.{Text, text_eq}
use openab_control_plane.Store.Json.{Value}
use openab_control_plane.Store.Audit.{AuditEvent, same_audit_key, append_audit_event_locked}
use openab_control_plane.Store.Audit.Journal.{append_cases, append_finds}
use openab_control_plane.Store.Database.{ControllerEvent, Database}
use openab_control_plane.Store.Events.{
  same_event_key, insert_event, enqueued_audit, new_event, enqueue_to,
  enqueue_controller_event_locked, event_destination,
}

bind_twice :
    {A B C : Type 0} (m : Option A) (k : A → Option B) (g : B → C) {c : C}
    → (m >>= λ a. k a >>= λ b. some (g b)) ≡ some c
    → (a : A) × (b : B) × (m ≡ some a) × (k a ≡ some b) × (g b ≡ c)
bind_twice none k g h = cc
bind_twice (some a) k g {c} h = elim (Option-cases (k a)) [
  | inl e ↦ absurd (cc (rw e at h))
  | inr (b, e) ↦ (a, b, refl, e, some_inj (g b) c (rw e at h))
]

module _ (to_string : Value → Text) (event_id : Text) (clock : ℕ) (db db' : Database) (c : Text)
    (session_id : Option Text) (event_type : Text) (payload : Value) (key : Text) (at : ℕ) where
  -- What an enqueue with a destination has done.
  pub enqueue_to-some :
      (endpoint : Text) (v : ℤ)
      → enqueue_to to_string event_id clock db c session_id event_type payload key at
          (some (endpoint, v))
        ≡ some db'
      → (actual : ControllerEvent) × (audit : List AuditEvent) × (findb (same_event_key c key) (
            insert_event
              (new_event to_string event_id clock c session_id event_type payload key at endpoint v)
              db.events)
          ≡ some actual)
        × (append_audit_event_locked db.audit
              (enqueued_audit clock c session_id event_type key at actual.id)
            ≡ some audit)
        × (record db {
          events =
              insert_event
                (new_event to_string event_id clock c session_id event_type payload key at endpoint
                  v)
                db.events;
          audit = audit;
        }
            ≡ db')
  unfolding enqueue_to
  enqueue_to-some endpoint v h =
      bind_twice
        (findb (same_event_key c key) (
          insert_event
            (new_event to_string event_id clock c session_id event_type payload key at endpoint v)
            db.events))
        (λ actual.
          append_audit_event_locked db.audit
            (enqueued_audit clock c session_id event_type key at actual.id))
        (λ audit. record db {
          events =
              insert_event
                (new_event to_string event_id clock c session_id event_type payload key at endpoint
                  v)
                db.events;
          audit = audit;
        })
        h

  -- The rows change only by the insertion of an event with an initial state.
  pub enqueue_to_events :
      (destination : Option (Text × ℤ))
      → enqueue_to to_string event_id clock db c session_id event_type payload key at destination
        ≡ some db'
      → (db' ≡ db)
        ⊎ ((endpoint : Text) × (v : ℤ) × (db'.events
              ≡ insert_event
                  (new_event to_string event_id clock c session_id event_type payload key at
                    endpoint v)
                  db.events))
  unfolding enqueue_to
  enqueue_to_events none h = inl (sym (some_inj db db' h))
  enqueue_to_events (some (endpoint, v)) h =
      inr (endpoint, v, sym (ap (λ (d : Database). d.events) (enqueue_to-some endpoint v h).4))

  -- Nothing but the events and the audit changes.
  pub enqueue_frame :
      (destination : Option (Text × ℤ))
      → enqueue_to to_string event_id clock db c session_id event_type payload key at destination
        ≡ some db'
      → (events : List ControllerEvent) × (audit : List AuditEvent) × (db'
          ≡ record db { events = events; audit = audit })
  unfolding enqueue_to
  enqueue_frame none h = (db.events, db.audit, sym (some_inj db db' h))
  enqueue_frame (some (endpoint, v)) h =
      let done = enqueue_to-some endpoint v h in
      (
        insert_event
            (new_event to_string event_id clock c session_id event_type payload key at endpoint v)
            db.events,
        done.1,
        sym done.4,
      )

anyb_of_findb :
    {A : Type 0} (p : A → Bool) (xs : List A) {a : A} → findb p xs ≡ some a → anyb p xs ≡ true
anyb_of_findb p [] h = cc
anyb_of_findb p (x ∷ xs) {a} h = ground (arith, anyb_of_findb p xs {a = a})

anyb_mono :
    {A : Type 0} (p q : A → Bool) (xs : List A)
    → ((x : A) → p x ≡ true → q x ≡ true)
    → anyb p xs ≡ true
    → anyb q xs ≡ true
anyb_mono p q [] f h = h
anyb_mono p q (x ∷ xs) f h = ground (arith, f x, anyb_mono p q xs f)

insert_event_known :
    (event : ControllerEvent) (rows : List ControllerEvent)
    → anyb (same_event_key event.controller_id event.idempotency_key) rows ≡ true
    → insert_event event rows ≡ rows
unfolding insert_event
insert_event_known event rows h =
    rw
      (anyb_mono (same_event_key event.controller_id event.idempotency_key)
        (λ (e : ControllerEvent).
          text_eq e.id event.id || same_event_key event.controller_id event.idempotency_key e)
        rows (λ x p. ground (arith, p)) h)
      refl

key_of_new_event :
    (to_string : Value → Text) (event_id : Text) (clock : ℕ) (db : Database) (c : Text)
    (s : Option Text) (ty : Text) (payload : Value) (key : Text) (at : ℕ) (endpoint : Text) (v : ℤ)
    → anyb (same_event_key c key) db.events ≡ true
    → anyb
        (same_event_key
          (new_event to_string event_id clock c s ty payload key at endpoint v).controller_id
          (new_event to_string event_id clock c s ty payload key at endpoint v).idempotency_key)
        db.events
      ≡ true
unfolding new_event
key_of_new_event to_string event_id clock db c s ty payload key at endpoint v h = h

same_audit :
    (clock clock' : ℕ) (c : Text) (s s' : Option Text) (ty ty' key : Text) (at at' : ℕ) (id : Text)
    → same_audit_key (enqueued_audit clock c s ty key at id)
      ≡ same_audit_key (enqueued_audit clock' c s' ty' key at' id)
unfolding same_audit_key enqueued_audit
same_audit clock clock' c s s' ty ty' key at at' id = refl

append_again :
    (rows rows' rows'' : List AuditEvent) (a b : AuditEvent)
    → same_audit_key a ≡ same_audit_key b
    → append_audit_event_locked rows a ≡ some rows'
    → append_audit_event_locked rows' b ≡ some rows''
    → rows'' ≡ rows'
append_again rows rows' rows'' a b same h k = elim (append_cases rows' rows'' b k) [
  | inl (_, e) ↦ e
  | inr (f, _) ↦ absurd (cc (append_finds rows rows' a h, rw (← same) at f))
]

-- The second enqueue, once the rows of the first are known.
enqueue_known :
    (to_string : Value → Text) (event_id : Text) (clock clock' : ℕ) (rows : List AuditEvent)
    (db db' : Database) (c : Text) (s s' : Option Text) (ty ty' : Text) (payload : Value)
    (key : Text) (at at' : ℕ) (actual : ControllerEvent) (destination : Option (Text × ℤ))
    → findb (same_event_key c key) db.events ≡ some actual
    → append_audit_event_locked rows (enqueued_audit clock' c s' ty' key at' actual.id)
      ≡ some db.audit
    → enqueue_to to_string event_id clock db c s ty payload key at destination ≡ some db'
    → db' ≡ db
unfolding enqueue_to
enqueue_known to_string event_id clock clock' rows db db' c s s' ty ty' payload key at at' actual
      none f h k =
    sym (some_inj db db' k)
enqueue_known to_string event_id clock clock' rows db db' c s s' ty ty' payload key at at' actual
      (some (endpoint, v)) f h k =
    let done = enqueue_to-some to_string event_id clock db db' c s ty payload key at endpoint v k in
    let event = new_event to_string event_id clock c s ty payload key at endpoint v in
    let kept : insert_event event db.events ≡ db.events = insert_event_known event db.events (
      key_of_new_event to_string event_id clock db c s ty payload key at endpoint v
        (anyb_of_findb _ db.events f)) in
    let found : done.0 ≡ actual =
      some_inj done.0 actual (sym done.2 ∙ (ap (findb (same_event_key c key)) kept ∙ f)) in
    let audit : done.1 ≡ db.audit =
      append_again rows db.audit done.1 (enqueued_audit clock' c s' ty' key at' actual.id)
        (enqueued_audit clock c s ty key at actual.id)
        (same_audit clock' clock c s' s ty' ty key at' at actual.id) h (rw found at done.3) in
    sym done.4 ∙ (λ i. record db { events = kept i; audit = audit i })

-- After an enqueue with a destination, a further successful enqueue under the same controller and
-- idempotency key, with whatever content, id and time, leaves the database as it is.
pub enqueue_twice :
    (to_string : Value → Text) (event_id event_id' : Text) (clock clock' : ℕ)
    (db db' db'' : Database) (c : Text) (session_id session_id' : Option Text)
    (event_type event_type' : Text) (payload payload' : Value) (key : Text) (at at' : ℕ)
    (destination : Text × ℤ)
    → event_destination db c event_type ≡ some destination
    → enqueue_controller_event_locked to_string event_id clock db c session_id event_type payload
        key at
      ≡ some db'
    → enqueue_controller_event_locked to_string event_id' clock' db' c session_id' event_type'
        payload' key at'
      ≡ some db''
    → db'' ≡ db'
unfolding enqueue_controller_event_locked
enqueue_twice to_string event_id event_id' clock clock' db db' db'' c s s' ty ty' pl pl' key at at'
      (endpoint, v) d h k =
    let first =
      enqueue_to-some to_string event_id clock db db' c s ty pl key at endpoint v (rw d at h) in
    enqueue_known to_string event_id' clock' clock db.audit db' db'' c s' s ty' ty pl' key at' at
      first.0 (event_destination db' c ty')
      (subst (λ (b : Database). findb (same_event_key c key) b.events ≡ some first.0) first.4
        first.2)
      (subst
        (λ (b : Database).
          append_audit_event_locked db.audit (enqueued_audit clock c s ty key at first.0.id)
          ≡ some b.audit)
        first.4 first.3)
      k

-- ===== src/Store/Actions/Steps.antt =====
-- The journal of actions over any series of steps of src/store.rs.
use openab_control_plane.Prelude.{
  ℕ, ◌≤◌, ◌<◌, ◌≡◌, ◌⊎◌, refl, sym, ap, true, false, Option, some, none, List, [], ◌∷◌, ◌++◌, findb,
  arith, Bool-cases, inl, inr, count_where, count_where-append, update_where, findb-update_where,
  findb-append, count_where_of_findb, count_where-update_where,
}
use openab_control_plane.Text.{Text, text_eq, text_eq_iff, text_eq_refl}
use openab_control_plane.Store.Json.{Value}
use openab_control_plane.Store.Database.{ControllerAction, Database}
use openab_control_plane.Store.Actions.{
  ActionRequest, ControllerSessionBinding, ControllerActionStart, started, ControllerOpenDecision,
  is_action, is_open_action, is_processing, expire_action, new_action, insert_action,
  begin_controller_action,
}
use openab_control_plane.Store.Actions.Journal.{is_started, begin_cases}
use openab_control_plane.Store.Actions.Finish.{complete_action, finish_controller_action}
use openab_control_plane.Store.Actions.Finish.Effect.{finish_cases}

-- A step is a call of `begin_controller_action` or of `finish_controller_action`, or anything that
-- leaves the journal as it is.
pub data ActionStep (to_string : Value → Text) : Database → Database → Type 0 where
  start :
      {db db' : Database} (r : ActionRequest) (s : ControllerActionStart)
      → begin_controller_action db r ≡ some (db', s)
      → ActionStep to_string db db'
  finish :
      {db db' : Database} (id id' : Text) (clock clock' : ℕ) (controller_id action_id : Text)
      (http_status : ℕ) (response_json : Text) (session_binding : Option ControllerSessionBinding)
      (completed_at : ℕ)
      → finish_controller_action to_string id id' clock clock' db controller_id action_id
          http_status response_json session_binding completed_at
        ≡ some db'
      → ActionStep to_string db db'
  beside : {db db' : Database} → db'.actions ≡ db.actions → ActionStep to_string db db'

pub data ActionSteps (to_string : Value → Text) (db : Database) : Database → Type 0 where
  here : ActionSteps to_string db db
  next :
      {db' db'' : Database}
      → ActionSteps to_string db db'
      → ActionStep to_string db' db''
      → ActionSteps to_string db db''

-- The journal's rows change in three ways only.
abbrev pub IsJournalStep : List ControllerAction → List ControllerAction → Type 0
IsJournalStep rows rows' =
    (rows' ≡ rows)
    ⊎ ((f : ControllerAction → ControllerAction) × (c : Text) × (a : Text) × ((x : ControllerAction)
          → (f x).controller_id ≡ x.controller_id)
        × ((x : ControllerAction) → (f x).action_id ≡ x.action_id)
        × (rows' ≡ update_where (is_open_action c a) f rows))
    ⊎ ((r : ActionRequest) × (findb (is_action r.controller_id r.action_id) rows ≡ none)
        × (rows' ≡ rows ++ (new_action r ∷ [])))

step_journal :
    (to_string : Value → Text) {db db' : Database}
    → ActionStep to_string db db'
    → IsJournalStep db.actions db'.actions
unfolding expire_action insert_action complete_action
step_journal to_string {db} {db'} (start r s h) = elim (begin_cases db r db' s h) [
  | inl (e, _) ↦ inl (ap (λ (d : Database). d.actions) e)
  | inr (inl (e, _)) ↦ inr (
      inl
        (_, r.controller_id, r.action_id, λ x. refl, λ x. refl, ap (λ (d : Database). d.actions) e))
  | inr (inr (c, scopes, d, f, n, k, e, g, q, t)) ↦
      inr (inr (r, k, ap (λ (d : Database). d.actions) q))
]
step_journal to_string {db} {db'} (finish id id' clock clock' c a status response b at h) =
    let (sessions, events, audit, binding, one, q) =
      finish_cases to_string id id' clock clock' db db' c a status response b at h in
    inr (inl (_, c, a, λ x. refl, λ x. refl, ap (λ (d : Database). d.actions) q))
step_journal to_string (beside h) = inl h

same_key :
    (f : ControllerAction → ControllerAction)
    → ((x : ControllerAction) → (f x).controller_id ≡ x.controller_id)
    → ((x : ControllerAction) → (f x).action_id ≡ x.action_id)
    → (c a : Text) (x : ControllerAction) → is_action c a (f x) ≡ is_action c a x
same_key f p q c a x = rw (p x, q x) refl

-- A settled row is found under its key after every step.
abbrev IsSettledAction : ControllerAction → Type 0
IsSettledAction x = is_processing x.state ≡ false

journal_step-findb :
    (c a : Text) (rows rows' : List ControllerAction) (x : ControllerAction)
    → IsSettledAction x
    → findb (is_action c a) rows ≡ some x
    → IsJournalStep rows rows'
    → findb (is_action c a) rows' ≡ some x
journal_step-findb c a rows rows' x s h (inl e) = rw e h
journal_step-findb c a rows rows' x s h (inr (inl (f, c', a', p, q, e))) = rw e (
    findb-update_where (is_action c a) (is_open_action c' a') f rows (same_key f p q c a)
      (rw s (ground arith)) h)
journal_step-findb c a rows rows' x s h (inr (inr (r, k, e))) =
    rw e (findb-append (is_action c a) rows (new_action r ∷ []) h)

pub steps-findb :
    (to_string : Value → Text) {db db' : Database} (c a : Text) (x : ControllerAction)
    → is_processing x.state ≡ false
    → findb (is_action c a) db.actions ≡ some x
    → ActionSteps to_string db db'
    → findb (is_action c a) db'.actions ≡ some x
steps-findb to_string c a x s h here = h
steps-findb to_string c a x s h (next {db'} {db''} more step) =
    journal_step-findb c a db'.actions db''.actions x s (steps-findb to_string c a x s h more)
      (step_journal to_string step)

-- The row of a new action is the row of the action's key.
is_action-new_action :
    (c a : Text) (r : ActionRequest)
    → is_action c a (new_action r) ≡ true
    → (c ≡ r.controller_id) × (a ≡ r.action_id)
unfolding new_action
is_action-new_action c a r h = elim (Bool-cases (text_eq r.controller_id c)) [
  | inl e ↦
      (sym ((text_eq_iff r.controller_id c).0 e), sym ((text_eq_iff r.action_id a).0 (rw e at h)))
  | inr e ↦ absurd (cc (rw e at h))
]

-- No key is given up, and none is taken twice.
journal_step-count :
    (c a : Text) (rows rows' : List ControllerAction)
    → IsJournalStep rows rows'
    → (count_where (is_action c a) rows ≤ 1 → count_where (is_action c a) rows' ≤ 1)
      × (0 < count_where (is_action c a) rows → 0 < count_where (is_action c a) rows')
journal_step-count c a rows rows' (inl e) = rw e (λ h. h, λ h. h)
journal_step-count c a rows rows' (inr (inl (f, c', a', p, q, e))) =
    rw
      (
        e,
        count_where-update_where (is_action c a) (is_open_action c' a') f rows (same_key f p q c a),
      )
      (λ h. h, λ h. h)
journal_step-count c a rows rows' (inr (inr (r, k, e))) =
    elim (Bool-cases (is_action c a (new_action r))) [
      | inl t ↦
          let (p, q) = is_action-new_action c a r t in
          let none' : count_where (is_action c a) rows ≡ 0 =
            count_where_of_findb (is_action c a) rows (rw (p, q) k) in
          rw (e, count_where-append (is_action c a) rows (new_action r ∷ []), t, none')
            (λ h. omega arith, λ h. omega arith)
      | inr t ↦
          rw (e, count_where-append (is_action c a) rows (new_action r ∷ []), t)
            (λ h. omega (arith, h), λ h. omega (arith, h))
    ]

steps-known :
    (to_string : Value → Text) {db db' : Database} (c a : Text)
    → 0 < count_where (is_action c a) db.actions
    → ActionSteps to_string db db'
    → 0 < count_where (is_action c a) db'.actions
steps-known to_string c a h here = h
steps-known to_string c a h (next {db'} {db''} more step) =
    (journal_step-count c a db'.actions db''.actions (step_journal to_string step)).1
      (steps-known to_string c a h more)

-- Over any series of steps the journal holds at most one row of an action.
pub steps-count :
    (to_string : Value → Text) {db db' : Database} (c a : Text)
    → count_where (is_action c a) db.actions ≤ 1
    → ActionSteps to_string db db'
    → count_where (is_action c a) db'.actions ≤ 1
steps-count to_string c a h here = h
steps-count to_string c a h (next {db'} {db''} more step) =
    (journal_step-count c a db'.actions db''.actions (step_journal to_string step)).0
      (steps-count to_string c a h more)

new_action-is_action :
    (r : ActionRequest) → is_action r.controller_id r.action_id (new_action r) ≡ true
unfolding new_action
new_action-is_action r = rw (text_eq_refl r.controller_id, text_eq_refl r.action_id) refl

started_known :
    (db db' : Database) (r : ActionRequest) (d : Option ControllerOpenDecision)
    → begin_controller_action db r ≡ some (db', started d)
    → 0 < count_where (is_action r.controller_id r.action_id) db'.actions
unfolding is_started insert_action
started_known db db' r d h = elim (begin_cases db r db' (started d) h) [
  | inl (e, n) ↦ absurd (cc n)
  | inr (inl (e, n)) ↦ absurd (cc n)
  | inr (inr (c, scopes, d', f, n, k, e, g, q, t)) ↦
      let row : count_where (is_action r.controller_id r.action_id) (new_action r ∷ []) ≡ 1 =
        rw (new_action-is_action r) refl in
      rw q (
        omega (
          arith,
          row,
          count_where-append (is_action r.controller_id r.action_id) db.actions (new_action r ∷ []),
        ))
]

-- An action that begin_controller_action has started is never started again by a request under its
-- controller and id, after whatever further begins, finishes and steps that leave the journal
-- alone.
pub started_once :
    (to_string : Value → Text) (db : Database) {db' db'' last : Database} (r r' : ActionRequest)
    (d : Option ControllerOpenDecision) (s : ControllerActionStart)
    → begin_controller_action db r ≡ some (db', started d)
    → ActionSteps to_string db' db''
    → r'.controller_id ≡ r.controller_id
    → r'.action_id ≡ r.action_id
    → begin_controller_action db'' r' ≡ some (last, s)
    → is_started s ≡ false
unfolding is_started
started_once to_string db {db'} {db''} {last} r r' d s h steps p q k =
    elim (begin_cases db'' r' last s k) [
      | inl (e, n) ↦ n
      | inr (inl (e, n)) ↦ rw n refl
      | inr (inr (c, scopes, d', f, n, none', e, g, u, t)) ↦ absurd (
          omega (
            arith,
            steps-known to_string r.controller_id r.action_id (started_known db db' r d h) steps,
            count_where_of_findb (is_action r.controller_id r.action_id) db''.actions
                (rw (p, q) at none'),
          ))
    ]

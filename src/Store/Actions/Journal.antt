-- ===== src/Store/Actions/Journal.antt =====
-- What `begin_controller_action` does to the journal of actions, on every branch.
use openab_control_plane.Prelude.{
  ◌+◌, leb, ◌≡◌, ◌⊎◌, refl, sym, ap, Bool, true, false, ◌&&◌, Option, some, none, List, findb,
  Bool-cases, Option-cases, inl, inr, some_inj, count_where,
}
use openab_control_plane.Text.{text_eq}
use openab_control_plane.Store.Database.{
  Controller, TriggerScope, ActionState, processing, completed, indeterminate, ControllerAction,
  Database,
}
use openab_control_plane.Store.Actions.{
  controller_action_lease_ms, ActionRequest, ControllerOpenIntent, ControllerOpenDecision,
  ControllerActionDenial, ControllerActionStart, started, outcome_unknown, find_controller, refused,
  is_action, expire_action, known_action, in_window, claim_trigger, decide_open, is_create,
  current_sessions, insert_action, admit_open, admit_intent, admit, journal_action, begin_after,
  begin_for, begin_controller_action,
}

unfoldable pub is_started : ControllerActionStart → Bool
is_started (started _) = true
is_started _ = false

-- The scopes after an admission are those before it, or those with the claim of the trigger.
abbrev pub IsClaiming : Database → ActionRequest → List TriggerScope → Type 0
IsClaiming db r scopes =
    ((r.open_intent ≡ none) × (scopes ≡ db.trigger_scopes))
    ⊎ ((intent : ControllerOpenIntent) × (r.open_intent ≡ some intent)
        × (claim_trigger db r intent ≡ some scopes))

-- An admission: the action is not in the journal, the controller is known, nothing refuses the
-- request, and the rate allows it.
abbrev pub IsAdmitted : Database → ActionRequest → Database → ControllerActionStart → Type 0
IsAdmitted db r db' s =
    (c : Controller) × (scopes : List TriggerScope) × (d : Option ControllerOpenDecision)
    × (find_controller db r.controller_id ≡ some c)
    × (refused db r c ≡ none)
    × (findb (is_action r.controller_id r.action_id) db.actions ≡ none)
    × (leb c.max_actions_per_minute (count_where (in_window r) db.actions) ≡ false)
    × IsClaiming db r scopes
    × (db' ≡ insert_action db r scopes)
    × (s ≡ started d)

abbrev pub IsUnchanged : Database → Database → ControllerActionStart → Type 0
IsUnchanged db db' s = (db' ≡ db) × (is_started s ≡ false)

abbrev pub IsExpired : Database → ActionRequest → Database → ControllerActionStart → Type 0
IsExpired db r db' s =
    (db' ≡ record db { actions = expire_action r db.actions }) × (s ≡ outcome_unknown)

module _ (db : Database) (r : ActionRequest) (c : Controller) (db' : Database)
    (s : ControllerActionStart) where
  admit_open_cases :
      (scopes? : Option (List TriggerScope)) (decision : Option ControllerOpenDecision)
      → admit_open db r c scopes? decision ≡ (db', s)
      → IsUnchanged db db' s
        ⊎ ((scopes : List TriggerScope) × (d : Option ControllerOpenDecision) × (scopes?
              ≡ some scopes)
            × (db' ≡ insert_action db r scopes)
            × (s ≡ started d))
  unfolding admit_open is_started
  admit_open_cases none decision h = inl (sym (ap (λ p. p.0) h), ap (λ p. is_started p.1) (sym h))
  admit_open_cases (some scopes) none h =
      inl (sym (ap (λ p. p.0) h), ap (λ p. is_started p.1) (sym h))
  admit_open_cases (some scopes) (some d) h =
      elim (Bool-cases (is_create d && leb c.max_concurrent_sessions (current_sessions db r))) [
        | inl e ↦ let q = rw e at h in inl (sym (ap (λ p. p.0) q), ap (λ p. is_started p.1) (sym q))
        | inr e ↦
            let q = rw e at h in
            inr (scopes, some d, refl, sym (ap (λ p. p.0) q), sym (ap (λ p. p.1) q))
      ]

  admit_intent_cases :
      (intent : Option ControllerOpenIntent)
      → r.open_intent ≡ intent
      → admit_intent db r c intent ≡ (db', s)
      → IsUnchanged db db' s
        ⊎ ((scopes : List TriggerScope) × (d : Option ControllerOpenDecision) × IsClaiming db r
              scopes
            × (db' ≡ insert_action db r scopes)
            × (s ≡ started d))
  unfolding admit_intent
  admit_intent_cases none i h =
      inr (db.trigger_scopes, none, inl (i, refl), sym (ap (λ p. p.0) h), sym (ap (λ p. p.1) h))
  admit_intent_cases (some intent) i h =
      elim (admit_open_cases (claim_trigger db r intent) (decide_open db r intent) h) [
        | inl u ↦ inl u
        | inr (scopes, d, e, q, t) ↦ inr (scopes, d, inr (intent, i, e), q, t)
      ]

  known_action_cases :
      (a : ControllerAction) (state : ActionState)
      → known_action db r a state ≡ some (db', s)
      → IsUnchanged db db' s ⊎ IsExpired db r db' s
  unfolding known_action is_started
  known_action_cases a completed h = elim (Option-cases a.http_status) [
    | inl e ↦ absurd (cc (rw e at h))
    | inr (status, e) ↦ elim (Option-cases a.response_json) [
      | inl f ↦ absurd (cc (rw (e, f) at h))
      | inr (response, f) ↦
          let q = some_inj _ (db', s) (rw (e, f) at h) in
          inl (sym (ap (λ p. p.0) q), ap (λ p. is_started p.1) (sym q))
    ]
  ]
  known_action_cases a processing h =
      elim (Bool-cases (leb r.now (a.received_at + controller_action_lease_ms))) [
        | inl e ↦
            let q = some_inj _ (db', s) (rw e at h) in
            inl (sym (ap (λ p. p.0) q), ap (λ p. is_started p.1) (sym q))
        | inr e ↦
            let q = some_inj _ (db', s) (rw e at h) in
            inr (sym (ap (λ p. p.0) q), sym (ap (λ p. p.1) q))
      ]
  known_action_cases a indeterminate h =
      let q = some_inj _ (db', s) h in inl (sym (ap (λ p. p.0) q), ap (λ p. is_started p.1) (sym q))

  admit_cases :
      find_controller db r.controller_id ≡ some c
      → refused db r c ≡ none
      → findb (is_action r.controller_id r.action_id) db.actions ≡ none
      → admit db r c ≡ (db', s)
      → IsUnchanged db db' s ⊎ IsAdmitted db r db' s
  unfolding admit is_started
  admit_cases f n k h =
      elim (Bool-cases (leb c.max_actions_per_minute (count_where (in_window r) db.actions))) [
        | inl e ↦ let q = rw e at h in inl (sym (ap (λ p. p.0) q), ap (λ p. is_started p.1) (sym q))
        | inr e ↦ elim (admit_intent_cases r.open_intent refl (rw e at h)) [
          | inl u ↦ inl u
          | inr (scopes, d, g, q, t) ↦ inr (c, scopes, d, f, n, k, e, g, q, t)
        ]
      ]

  journal_action_cases :
      (known : Option ControllerAction)
      → find_controller db r.controller_id ≡ some c
      → refused db r c ≡ none
      → findb (is_action r.controller_id r.action_id) db.actions ≡ known
      → journal_action db r c known ≡ some (db', s)
      → IsUnchanged db db' s ⊎ (IsExpired db r db' s ⊎ IsAdmitted db r db' s)
  unfolding journal_action is_started
  journal_action_cases none f n k h = elim (admit_cases f n k (some_inj _ (db', s) h)) [
    | inl u ↦ inl u
    | inr a ↦ inr (inr a)
  ]
  journal_action_cases (some a) f n k h =
      elim (Bool-cases (text_eq a.request_hash r.request_hash)) [
        | inl e ↦ elim (known_action_cases a a.state (rw e at h)) [
          | inl u ↦ inl u
          | inr x ↦ inr (inl x)
        ]
        | inr e ↦
            let q = some_inj _ (db', s) (rw e at h) in
            inl (sym (ap (λ p. p.0) q), ap (λ p. is_started p.1) (sym q))
      ]

  begin_after_cases :
      (denial : Option ControllerActionDenial)
      → find_controller db r.controller_id ≡ some c
      → refused db r c ≡ denial
      → begin_after db r c denial ≡ some (db', s)
      → IsUnchanged db db' s ⊎ (IsExpired db r db' s ⊎ IsAdmitted db r db' s)
  unfolding begin_after is_started
  begin_after_cases none f n h =
      journal_action_cases (findb (is_action r.controller_id r.action_id) db.actions) f n refl h
  begin_after_cases (some d) f n h =
      let q = some_inj _ (db', s) h in inl (sym (ap (λ p. p.0) q), ap (λ p. is_started p.1) (sym q))

begin_for_cases :
    (db : Database) (r : ActionRequest) (db' : Database) (s : ControllerActionStart)
    (c : Option Controller)
    → find_controller db r.controller_id ≡ c
    → begin_for db r c ≡ some (db', s)
    → IsUnchanged db db' s ⊎ (IsExpired db r db' s ⊎ IsAdmitted db r db' s)
unfolding begin_for is_started
begin_for_cases db r db' s none f h =
    let q = some_inj _ (db', s) h in inl (sym (ap (λ p. p.0) q), ap (λ p. is_started p.1) (sym q))
begin_for_cases db r db' s (some c) f h = begin_after_cases db r c db' s (refused db r c) f refl h

-- Each answer leaves the database as it was, or expires the action, or starts it.
pub begin_cases :
    (db : Database) (r : ActionRequest) (db' : Database) (s : ControllerActionStart)
    → begin_controller_action db r ≡ some (db', s)
    → IsUnchanged db db' s ⊎ (IsExpired db r db' s ⊎ IsAdmitted db r db' s)
unfolding begin_controller_action
begin_cases db r db' s h = begin_for_cases db r db' s (find_controller db r.controller_id) refl h

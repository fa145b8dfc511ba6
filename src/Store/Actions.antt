-- ===== src/Store/Actions.antt =====
-- src/store.rs: the admission of a controller's actions, `begin_controller_action`. A denied request
-- rolls its transaction back, so it leaves the database as it was. Hashes are lists of bytes.
pub mod Finish
pub mod Journal
pub mod Steps
pub mod Replay
pub mod Rate
pub mod Scopes
use openab_control_plane.Prelude.{
  ℕ, ◌+◌, ◌*◌, min, ltb, leb, ◌==◌, Bool, true, false, not, ◌&&◌, ◌||◌, Option, some, none, List,
  [], ◌∷◌, ◌++◌, map_some, if◌then◌else◌, anyb, findb, filterb, is_some, is_some_and, unwrap_or,
  ◌>>=◌, ℤ, pos, negsuc, update_where, count_where,
}
use openab_control_plane.Text.{Text, codes, text_eq}
use openab_control_plane.Store.Types.{Session, SessionState, from_db_str, closed, aborted}
use openab_control_plane.Store.Database.{
  Controller, ActionToken, ActionGrant, Binding, TriggerScope, ActionState, processing, completed,
  indeterminate, ControllerAction, ControllerSession, Database, saturating_add,
}

abbrev pub controller_action_lease_ms : ℕ
controller_action_lease_ms = 5 * 60 * 1000

pub record ControllerCredentialHash : Type 0 where
  pub pepper_version : ℤ
  pub token_hash : Text

pub record ControllerActionReplay : Type 0 where
  pub request_hash : Text
  pub http_status : ℕ
  pub response_json : Text

pub record ControllerOpenIntent : Type 0 where
  pub trigger_ref : Text
  pub trigger_fingerprint : Option Text
  pub session_trigger_ref : Text

pub record ControllerSessionBinding : Type 0 where
  pub controller_id : Text
  pub scope : Text
  pub trigger_ref : Text
  pub trigger_fingerprint : Option Text
  pub session_id : Text

pub data ControllerOpenDecision : Type 0 where
  create : ControllerOpenDecision
  deduplicate : ControllerSessionBinding → ControllerOpenDecision
  supersede : ControllerSessionBinding → ControllerOpenDecision

pub data ControllerActionDenial : Type 0 where
  credential grant scope_denied session_ownership trigger_scope disabled : ControllerActionDenial
  rate_quota : (limit reset_at : ℕ) → ControllerActionDenial
  concurrent_session_quota : (limit current : ℕ) → ControllerActionDenial

pub data ControllerActionStart : Type 0 where
  started : Option ControllerOpenDecision → ControllerActionStart
  replay : ControllerActionReplay → ControllerActionStart
  in_progress outcome_unknown request_mismatch : ControllerActionStart
  denied : ControllerActionDenial → ControllerActionStart

-- The parameters of the call.
pub record ActionRequest : Type 0 where
  pub controller_id : Text
  pub credential_hashes : List ControllerCredentialHash
  pub action_id : Text
  pub request_hash : Text
  pub action_kind : Text
  pub scope : Text
  pub session_id : Option Text
  pub open_intent : Option ControllerOpenIntent
  pub now : ℕ

unfoldable pub eq_ℤ : ℤ → ℤ → Bool
eq_ℤ (pos a) (pos b) = a == b
eq_ℤ (negsuc a) (negsuc b) = a == b
eq_ℤ _ _ = false

unfoldable pub is_active_token : ActionRequest → ActionToken → Bool
is_active_token r t =
    text_eq t.controller_id r.controller_id
    && not (is_some t.revoked_at)
    && leb t.not_before r.now
    && not (is_some_and t.expires_at (λ e. leb e r.now))

-- The pairs of a token and a candidate that agree, in a counter of 8 bits that saturates.
unfoldable pub add_matches : ActionToken → List ControllerCredentialHash → ℕ → ℕ
unfolding eq_ℤ
add_matches token [] matches = matches
add_matches token (candidate ∷ candidates) matches = add_matches token candidates (
    if eq_ℤ candidate.pepper_version token.pepper_version
      && text_eq candidate.token_hash token.token_hash
    then min (matches + 1) 255
    else matches)

unfoldable pub credential_matches : List ActionToken → List ControllerCredentialHash → ℕ → ℕ
unfolding add_matches
credential_matches [] candidates matches = matches
credential_matches (token ∷ tokens) candidates matches =
    credential_matches tokens candidates (add_matches token candidates matches)

unfoldable pub has_grant : Database → ActionRequest → Bool
has_grant db r =
    anyb
      (λ (g : ActionGrant).
        text_eq g.controller_id r.controller_id && text_eq g.action_kind r.action_kind && g.granted)
      db.action_grants

unfoldable pub has_scope : Database → ActionRequest → Bool
has_scope db r =
    anyb
      (λ (b : Binding).
        text_eq b.controller_id r.controller_id && text_eq b.scope r.scope && b.enabled)
      db.bindings

unfoldable pub owns_session : Database → ActionRequest → Text → Bool
owns_session db r session_id =
    anyb
      (λ (s : ControllerSession).
        text_eq s.controller_id r.controller_id
        && text_eq s.scope r.scope
        && text_eq s.session_id session_id)
      db.controller_sessions

unfoldable pub find_controller : Database → Text → Option Controller
find_controller db controller_id =
    findb (λ (c : Controller). text_eq c.id controller_id) db.controllers

-- The checks before the journal is read; `none` lets the request pass.
unfoldable pub refused : Database → ActionRequest → Controller → Option ControllerActionDenial
unfolding is_active_token credential_matches has_grant has_scope owns_session
refused db r c =
    if not c.enabled && not (is_some r.session_id)
    then some disabled
    else if not
        (credential_matches (filterb (is_active_token r) db.tokens) r.credential_hashes 0 == 1)
    then some credential
    else if not (has_grant db r)
    then some grant
    else if not (has_scope db r)
    then some scope_denied
    else if is_some_and r.session_id (λ session_id. not (owns_session db r session_id))
    then some session_ownership
    else none

abbrev pub is_action : Text → Text → ControllerAction → Bool
is_action controller_id action_id a =
    text_eq a.controller_id controller_id && text_eq a.action_id action_id

unfoldable pub is_processing : ActionState → Bool
is_processing processing = true
is_processing _ = false

abbrev pub is_open_action : Text → Text → ControllerAction → Bool
is_open_action controller_id action_id a =
    is_action controller_id action_id a && is_processing a.state

unfoldable pub expire_action : ActionRequest → List ControllerAction → List ControllerAction
expire_action r =
    update_where (is_open_action r.controller_id r.action_id)
      (λ a. record a { state = indeterminate; completed_at = some r.now })

-- What a known action returns, by its state; `none` is the error of a completed row that lacks its
-- status or its response.
unfoldable pub known_action :
    Database
    → ActionRequest
    → ControllerAction
    → ActionState
    → Option (Database × ControllerActionStart)
known_action db r a completed = do
  status ← a.http_status
  response ← a.response_json
  some (
    db,
    replay
        (record { request_hash = a.request_hash; http_status = status; response_json = response }),
  )
known_action db r a processing =
    if leb r.now (a.received_at + controller_action_lease_ms)
    then some (db, in_progress)
    else some (record db { actions = expire_action r db.actions }, outcome_unknown)
known_action db r a indeterminate = some (db, outcome_unknown)

unfoldable pub in_window : ActionRequest → ControllerAction → Bool
in_window r a = text_eq a.controller_id r.controller_id && ltb r.now (a.received_at + 60000)

-- `MIN(received_at)`.
unfoldable pub oldest : List ControllerAction → Option ℕ
oldest [] = none
oldest (a ∷ rows) =
    some (elim (oldest rows) [ none ↦ a.received_at | some t ↦ min a.received_at t ])

-- `None` where another scope has claimed the trigger; else the claims with this one.
unfoldable pub claim_after :
    Database
    → ActionRequest
    → ControllerOpenIntent
    → Option TriggerScope
    → Option (List TriggerScope)
claim_after db r intent none = some (
    db.trigger_scopes
    ++ (record {
      controller_id = r.controller_id;
      trigger_ref = intent.trigger_ref;
      scope = r.scope;
      created_at = r.now;
    }
        ∷ []))
claim_after db r intent (some t) = if text_eq t.scope r.scope then some db.trigger_scopes else none

unfoldable pub claim_trigger :
    Database → ActionRequest → ControllerOpenIntent → Option (List TriggerScope)
unfolding claim_after
claim_trigger db r intent = claim_after db r intent (
    findb
      (λ (t : TriggerScope).
        text_eq t.controller_id r.controller_id && text_eq t.trigger_ref intent.trigger_ref)
      db.trigger_scopes)

unfoldable pub same_fingerprint : Option Text → Option Text → Bool
same_fingerprint (some stored) (some incoming) = text_eq stored incoming
same_fingerprint _ _ = false

unfoldable pub is_finished : SessionState → Bool
is_finished closed = true
is_finished aborted = true
is_finished _ = false

unfoldable pub is_live_session : Database → Text → Bool
unfolding is_finished
is_live_session db session_id =
    is_some_and (findb (λ (s : Session). text_eq s.id session_id) db.sessions)
      (λ s. not (is_finished (from_db_str s.state)))

abbrev pub binding_of : ControllerSession → ControllerSessionBinding
binding_of s = record {
  controller_id = s.controller_id;
  scope = s.scope;
  trigger_ref = s.trigger_ref;
  trigger_fingerprint = s.trigger_fingerprint;
  session_id = s.session_id;
}

abbrev pub is_current : Text → Text → ControllerSession → Bool
is_current controller_id trigger_ref s =
    text_eq s.controller_id controller_id && text_eq s.trigger_ref trigger_ref && s.current

-- The decision on the trigger's current session; `none` where it belongs to another scope.
unfoldable pub decide_open :
    Database → ActionRequest → ControllerOpenIntent → Option ControllerOpenDecision
unfolding same_fingerprint is_live_session
decide_open db r intent =
    elim (findb (is_current r.controller_id intent.trigger_ref) db.controller_sessions) [
      | none ↦ some create
      | some s ↦
          if not (text_eq s.scope r.scope)
          then none
          else if is_live_session db s.session_id
          then some (
              if same_fingerprint s.trigger_fingerprint intent.trigger_fingerprint
              then deduplicate (binding_of s)
              else supersede (binding_of s))
          else some create
    ]

unfoldable pub is_create : ControllerOpenDecision → Bool
is_create create = true
is_create _ = false

-- The controller's sessions that are neither closed nor aborted.
unfoldable pub current_sessions : Database → ActionRequest → ℕ
current_sessions db r =
    count_where
      (λ (s : ControllerSession).
        text_eq s.controller_id r.controller_id
        && is_some_and (findb (λ (x : Session). text_eq x.id s.session_id) db.sessions)
            (λ x. not (text_eq x.state (codes "closed") || text_eq x.state (codes "aborted"))))
      db.controller_sessions

unfoldable pub new_action : ActionRequest → ControllerAction
new_action r = record {
  controller_id = r.controller_id;
  action_id = r.action_id;
  request_hash = r.request_hash;
  action_kind = r.action_kind;
  scope = r.scope;
  session_id = r.session_id;
  state = processing;
  http_status = none;
  response_json = none;
  trigger_ref = map_some (λ (i : ControllerOpenIntent). i.trigger_ref) r.open_intent;
  trigger_fingerprint = r.open_intent >>= λ i. i.trigger_fingerprint;
  session_trigger_ref =
      map_some (λ (i : ControllerOpenIntent). i.session_trigger_ref) r.open_intent;
  received_at = r.now;
  completed_at = none;
}

unfoldable pub insert_action : Database → ActionRequest → List TriggerScope → Database
unfolding new_action
insert_action db r scopes = record db {
  trigger_scopes = scopes;
  actions = db.actions ++ (new_action r ∷ []);
}

-- The end of the admission of an `open_session`, from the claim of its trigger and the decision.
unfoldable pub admit_open :
    Database
    → ActionRequest
    → Controller
    → Option (List TriggerScope)
    → Option ControllerOpenDecision
    → Database × ControllerActionStart
admit_open db r c none decision = (db, denied trigger_scope)
admit_open db r c (some scopes) none = (db, denied trigger_scope)
admit_open db r c (some scopes) (some decision) =
    if is_create decision && leb c.max_concurrent_sessions (current_sessions db r)
    then (db, denied (concurrent_session_quota c.max_concurrent_sessions (current_sessions db r)))
    else (insert_action db r scopes, started (some decision))

unfoldable pub admit_intent :
    Database
    → ActionRequest
    → Controller
    → Option ControllerOpenIntent
    → Database × ControllerActionStart
admit_intent db r c none = (insert_action db r db.trigger_scopes, started none)
admit_intent db r c (some intent) =
    admit_open db r c (claim_trigger db r intent) (decide_open db r intent)

-- A new action, within the controller's rate.
unfoldable pub admit : Database → ActionRequest → Controller → Database × ControllerActionStart
admit db r c =
    if leb c.max_actions_per_minute (count_where (in_window r) db.actions)
    then (
      db,
      denied (
          rate_quota c.max_actions_per_minute
            (saturating_add (unwrap_or (oldest (filterb (in_window r) db.actions)) r.now) 60000)),
    )
    else admit_intent db r c r.open_intent

-- The journal's row of the action decides; a request with another hash is refused.
unfoldable pub journal_action :
    Database
    → ActionRequest
    → Controller
    → Option ControllerAction
    → Option (Database × ControllerActionStart)
journal_action db r c none = some (admit db r c)
journal_action db r c (some a) =
    if not (text_eq a.request_hash r.request_hash)
    then some (db, request_mismatch)
    else known_action db r a a.state

unfoldable pub begin_after :
    Database
    → ActionRequest
    → Controller
    → Option ControllerActionDenial
    → Option (Database × ControllerActionStart)
begin_after db r c (some denial) = some (db, denied denial)
begin_after db r c none =
    journal_action db r c (findb (is_action r.controller_id r.action_id) db.actions)

unfoldable pub begin_for :
    Database → ActionRequest → Option Controller → Option (Database × ControllerActionStart)
begin_for db r none = some (db, denied credential)
begin_for db r (some c) = begin_after db r c (refused db r c)

unfoldable pub begin_controller_action :
    Database → ActionRequest → Option (Database × ControllerActionStart)
begin_controller_action db r = begin_for db r (find_controller db r.controller_id)

-- ===== src/Store/Database.antt =====
-- src/store.rs: the tables of the controllers and of the sessions, and the transactions on them. Times and limits are
-- milliseconds and counts of an `i64` that are not negative.
use openab_control_plane.Prelude.{ℕ, ◌+◌, ◌-◌, ◌^◌, min, ℤ, Bool, Option, List}
use openab_control_plane.Text.{Text}
use openab_control_plane.Store.Audit.{AuditEvent}
use openab_control_plane.Store.Types.{Session, Message}

pub record Controller : Type 0 where
  pub id : Text
  pub enabled : Bool
  pub max_concurrent_sessions : ℕ
  pub max_actions_per_minute : ℕ
  pub event_endpoint : Option Text
  pub event_key_version : Option ℤ
  pub created_at : ℕ
  pub updated_at : ℕ

pub record ActionToken : Type 0 where
  pub id : Text
  pub controller_id : Text
  pub token_hash : Text
  pub pepper_version : ℤ
  pub not_before : ℕ
  pub expires_at : Option ℕ
  pub revoked_at : Option ℕ
  pub created_at : ℕ

pub record ActionGrant : Type 0 where
  pub controller_id : Text
  pub action_kind : Text
  pub granted : Bool
  pub updated_at : ℕ

pub record Binding : Type 0 where
  pub controller_id : Text
  pub scope : Text
  pub enabled : Bool
  pub updated_at : ℕ

pub record TriggerScope : Type 0 where
  pub controller_id : Text
  pub trigger_ref : Text
  pub scope : Text
  pub created_at : ℕ

-- The texts that the statements write in the column `state` of the journal of actions.
pub data ActionState : Type 0 where
  processing completed indeterminate : ActionState

pub record ControllerAction : Type 0 where
  pub controller_id : Text
  pub action_id : Text
  pub request_hash : Text
  pub action_kind : Text
  pub scope : Text
  pub session_id : Option Text
  pub state : ActionState
  pub http_status : Option ℕ
  pub response_json : Option Text
  pub trigger_ref : Option Text
  pub trigger_fingerprint : Option Text
  pub session_trigger_ref : Option Text
  pub received_at : ℕ
  pub completed_at : Option ℕ

pub record ControllerSession : Type 0 where
  pub controller_id : Text
  pub scope : Text
  pub trigger_ref : Text
  pub trigger_fingerprint : Option Text
  pub session_id : Text
  pub current : Bool
  pub created_at : ℕ

pub record EventGrant : Type 0 where
  pub controller_id : Text
  pub event_type : Text
  pub granted : Bool
  pub updated_at : ℕ

-- The texts that the statements write in the column `state` of the events.
pub data EventState : Type 0 where
  waiting delivering delivered dead_letter : EventState

pub record ControllerEvent : Type 0 where
  pub id : Text
  pub controller_id : Text
  pub session_id : Option Text
  pub event_type : Text
  pub event_endpoint : Text
  pub event_key_version : ℤ
  pub body_json : Text
  pub idempotency_key : Text
  pub state : EventState
  pub attempts : ℕ
  pub created_at : ℕ
  pub next_attempt_at : ℕ
  pub lease_until : Option ℕ
  pub delivered_at : Option ℕ
  pub last_error : Option Text

pub record ControllerEventAudit : Type 0 where
  pub id : ℕ
  pub controller_id : Text
  pub event_id : Text
  pub kind : Text
  pub detail : Text
  pub created_at : ℕ

-- A seat of a session's roster.
pub record SessionBot : Type 0 where
  pub session_id : Text
  pub bot_id : Text

pub record Database : Type 0 where
  pub controllers : List Controller
  pub tokens : List ActionToken
  pub action_grants : List ActionGrant
  pub bindings : List Binding
  pub trigger_scopes : List TriggerScope
  pub actions : List ControllerAction
  pub controller_sessions : List ControllerSession
  pub event_grants : List EventGrant
  pub events : List ControllerEvent
  pub event_audit : List ControllerEventAudit
  pub audit : List AuditEvent
  pub sessions : List Session
  pub session_bots : List SessionBot
  pub messages : List Message

-- `a.saturating_add(b)`.
abbrev pub saturating_add : ℕ → ℕ → ℕ
saturating_add a b = min (a + b) (2 ^ 63 - 1)

-- ===== src/Store/Audit.antt =====
-- crates/controller-protocol/src/audit.rs and the audit journal of src/store.rs.
pub mod Cursor
pub mod Journal
use openab_control_plane.Prelude.{
  ℕ, ℤ, pos, ltb, ◌==◌, leb_ℤ, Bool, true, false, not, ◌&&◌, ◌||◌, Option, some, none, List, [],
  ◌∷◌, ◌++◌, if◌then◌else◌, anyb, min, ◌>>=◌,
}
use openab_control_plane.Text.{
  Text, codes, text_eq, is_empty, trim, len, split_once, show_int, parse_i64,
}
use openab_control_plane.Store.Json.{Value}

abbrev pub audit_event_version : ℕ
audit_event_version = 1

abbrev pub default_page_limit : ℕ
default_page_limit = 100

abbrev pub max_page_limit : ℕ
max_page_limit = 500

abbrev pub audit_service : Text
audit_service = codes "openab-control-plane"

pub data AuditOutcome : Type 0 where
  pending accepted ignored denied succeeded failed retry_scheduled outcome_unknown reconciled :
      AuditOutcome

unfoldable pub outcome_text : AuditOutcome → Text
outcome_text pending = codes "pending"
outcome_text accepted = codes "accepted"
outcome_text ignored = codes "ignored"
outcome_text denied = codes "denied"
outcome_text succeeded = codes "succeeded"
outcome_text failed = codes "failed"
outcome_text retry_scheduled = codes "retry_scheduled"
outcome_text outcome_unknown = codes "outcome_unknown"
outcome_text reconciled = codes "reconciled"

unfoldable pub parse_outcome : Text → Option AuditOutcome
parse_outcome value =
    if text_eq value (codes "pending")
    then some pending
    else if text_eq value (codes "accepted")
    then some accepted
    else if text_eq value (codes "ignored")
    then some ignored
    else if text_eq value (codes "denied")
    then some denied
    else if text_eq value (codes "succeeded")
    then some succeeded
    else if text_eq value (codes "failed")
    then some failed
    else if text_eq value (codes "retry_scheduled")
    then some retry_scheduled
    else if text_eq value (codes "outcome_unknown")
    then some outcome_unknown
    else if text_eq value (codes "reconciled")
    then some reconciled
    else none

pub record AuditCorrelation : Type 0 where
  pub delivery_id : Option Text
  pub controller_id : Option Text
  pub action_id : Option Text
  pub scope : Option Text
  pub trigger_ref : Option Text
  pub trigger_fingerprint : Option Text
  pub session_id : Option Text
  pub message_id : Option Text
  pub runtime_event_id : Option Text
  pub write_id : Option Text

abbrev pub no_correlation : AuditCorrelation
no_correlation = record {
  delivery_id = none;
  controller_id = none;
  action_id = none;
  scope = none;
  trigger_ref = none;
  trigger_fingerprint = none;
  session_id = none;
  message_id = none;
  runtime_event_id = none;
  write_id = none;
}

pub record AuditActor : Type 0 where
  pub kind : Text
  pub id : Option Text
  pub display : Option Text
  pub association : Option Text

pub record AuditTarget : Type 0 where
  pub kind : Text
  pub reference : Option Text
  pub revision : Option Text

pub record AuditError : Type 0 where
  pub class : Text
  pub retryable : Bool
  pub message : Option Text
  pub status : Option ℤ

pub record AuditEvent : Type 0 where
  pub version : ℕ
  pub event_id : Text
  pub event_key : Text
  pub occurred_at : ℤ
  pub recorded_at : ℤ
  pub service : Text
  pub kind : Text
  pub outcome : AuditOutcome
  pub caused_by : Option Text
  pub correlation : AuditCorrelation
  pub actor : Option AuditActor
  pub target : Option AuditTarget
  pub detail : Value
  pub error : Option AuditError

abbrev pub has_bad_length : Text → Bool
has_bad_length value = is_empty value || ltb 256 (len value)

-- Whether `validate` accepts the event; the texts of its errors are left out.
unfoldable pub is_valid_event : AuditEvent → Bool
is_valid_event e =
    if not (e.version == audit_event_version)
    then false
    else if anyb has_bad_length (e.event_id ∷ e.event_key ∷ e.service ∷ e.kind ∷ [])
    then false
    else if not (leb_ℤ (pos 0) e.occurred_at) || not (leb_ℤ (pos 0) e.recorded_at)
    then false
    else if not (text_eq (trim e.kind) e.kind) || not (text_eq (trim e.event_key) e.event_key)
    then false
    else true

-- The unique columns of the table: the event's id, and the service with the key.
unfoldable pub same_audit_key : AuditEvent → AuditEvent → Bool
same_audit_key a b =
    text_eq a.event_id b.event_id
    || (text_eq a.service b.service && text_eq a.event_key b.event_key)

-- `INSERT OR IGNORE`; the rows stand in the order of `seq`. `none` is the error of an invalid event.
unfoldable pub append_audit_event_locked : List AuditEvent → AuditEvent → Option (List AuditEvent)
unfolding same_audit_key is_valid_event
append_audit_event_locked rows event =
    if not (is_valid_event event)
    then none
    else if anyb (same_audit_key event) rows
    then some rows
    else some (rows ++ (event ∷ []))

-- `clock` is what `now_ms()` returns.
unfoldable pub keyed_session_audit_event :
    ℕ → Text → Text → Text → AuditOutcome → ℕ → Option Text → Value → AuditEvent
keyed_session_audit_event clock event_key kind session_id outcome occurred_at trigger_ref detail =
    record {
      version = audit_event_version;
      event_id = codes "aud:" ++ (audit_service ++ (codes ":" ++ event_key));
      event_key = event_key;
      occurred_at = pos occurred_at;
      recorded_at = pos clock;
      service = audit_service;
      kind = kind;
      outcome = outcome;
      caused_by = none;
      correlation = record no_correlation {
        session_id = some session_id;
        trigger_ref = trigger_ref;
      };
      actor = none;
      target =
          some (record {
            kind = codes "openab_session";
            reference = some session_id;
            revision = none;
          });
      detail = detail;
      error = none;
    }

unfoldable pub session_audit_event :
    ℕ → Text → Text → AuditOutcome → ℕ → Option Text → Value → AuditEvent
unfolding keyed_session_audit_event
session_audit_event clock kind session_id =
    keyed_session_audit_event clock (kind ++ (codes ":" ++ session_id)) kind session_id

pub record AuditCursor : Type 0 where
  pub recorded_at : ℤ
  pub seq : ℤ

unfoldable pub encode : AuditCursor → Text
encode cursor = show_int cursor.recorded_at ++ (codes ":" ++ show_int cursor.seq)

unfoldable pub decode : Text → Option AuditCursor
decode value = do
  (recorded_at, seq) ← split_once b':' value
  recorded ← parse_i64 recorded_at
  position ← parse_i64 seq
  some (record { recorded_at = recorded; seq = position })

-- The limit of a page; 0 asks for the default.
unfoldable pub bounded_limit : ℕ → ℕ
bounded_limit limit = if limit == 0 then default_page_limit else min limit max_page_limit

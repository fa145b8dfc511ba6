-- ===== src/Store/Actions/Finish.antt =====
-- src/store.rs: `finish_controller_action`, and the queries on the journal of actions. An error rolls
-- the transaction back.
pub mod Effect
use openab_control_plane.Prelude.{
  ℕ, ltb, leb, ◌==◌, Bool, true, false, not, ◌&&◌, ◌||◌, Option, some, none, List, [], ◌∷◌, ◌++◌,
  map_some, pos, if◌then◌else◌, anyb, findb, is_some_and, or_else, ◌>>=◌, update_where, count_where,
}
use openab_control_plane.Text.{Text, codes, text_eq}
use openab_control_plane.Store.Json.{
  Value, field, no_fields, number, string, object, string_or_null,
}
use openab_control_plane.Store.Database.{
  Binding, TriggerScope, ActionState, completed, ControllerAction, ControllerSession, Database,
}
use openab_control_plane.Store.Events.{enqueue_controller_event_locked}
use openab_control_plane.Store.Actions.{
  ControllerSessionBinding, binding_of, is_action, is_open_action, is_current,
}

unfoldable pub same_option : Option Text → Option Text → Bool
same_option none none = true
same_option (some a) (some b) = text_eq a b
same_option _ _ = false

unfoldable pub is_claimed : Database → Text → Text → Text → Bool
is_claimed db controller_id trigger_ref scope =
    anyb
      (λ (t : TriggerScope).
        text_eq t.controller_id controller_id
        && text_eq t.trigger_ref trigger_ref
        && text_eq t.scope scope)
      db.trigger_scopes

-- The admitted intent of the open action: its row, joined with the claim of its trigger.
unfoldable pub admitted_intent : Database → Text → Text → Option ControllerAction
admitted_intent db controller_id action_id =
    findb
      (λ a.
        is_open_action controller_id action_id a
        && text_eq a.action_kind (codes "open_session")
        && is_some_and a.trigger_ref (λ t. is_claimed db a.controller_id t a.scope))
      db.actions

unfoldable pub matches_intent : ControllerSessionBinding → ControllerAction → Bool
unfolding same_option
matches_intent b a =
    text_eq a.scope b.scope
    && same_option a.trigger_ref (some b.trigger_ref)
    && same_option a.trigger_fingerprint b.trigger_fingerprint

-- The new current session of its trigger; a session id that is in the table is an error.
unfoldable pub insert_session :
    ControllerSessionBinding → ℕ → List ControllerSession → Option (List ControllerSession)
insert_session b completed_at rows =
    let retired =
      update_where (is_current b.controller_id b.trigger_ref)
        (λ (s : ControllerSession). record s { current = false }) rows in
    if anyb (λ (s : ControllerSession). text_eq s.session_id b.session_id) rows
    then none
    else some (
        retired
        ++ (record {
          controller_id = b.controller_id;
          scope = b.scope;
          trigger_ref = b.trigger_ref;
          trigger_fingerprint = b.trigger_fingerprint;
          session_id = b.session_id;
          current = true;
          created_at = completed_at;
        }
            ∷ []))

unfoldable pub complete_action :
    Text → Text → ℕ → Text → Option Text → ℕ → List ControllerAction → List ControllerAction
complete_action controller_id action_id http_status response_json session_id completed_at =
    update_where (is_open_action controller_id action_id) (λ a. record a {
      state = completed;
      http_status = some http_status;
      response_json = some response_json;
      completed_at = some completed_at;
      session_id = or_else session_id a.session_id;
    })

unfoldable pub is_success : ℕ → Bool
is_success http_status = leb 200 http_status && ltb http_status 300

-- `to_string` is `serde_json::to_string`; the ids and times are those that the enqueues draw.
module _ (to_string : Value → Text) (opened_id failed_id : Text)
    (opened_clock failed_clock : ℕ) where
  unfoldable pub announce_session : Database → Text → ControllerSessionBinding → ℕ → Option Database
  announce_session db controller_id b completed_at =
      enqueue_controller_event_locked to_string opened_id opened_clock db controller_id
        (some b.session_id) (codes "session.opened")
        (object (
          field (codes "scope") (string b.scope) (
            field (codes "trigger_ref") (string b.trigger_ref) (
              field (codes "trigger_fingerprint") (string_or_null b.trigger_fingerprint)
                no_fields))))
        (codes "session.opened:" ++ b.session_id) completed_at

  unfoldable pub bind_session :
      Database → Text → Text → ControllerSessionBinding → ℕ → Option Database
  bind_session db controller_id action_id b completed_at = do
    a ←
        if text_eq b.controller_id controller_id
        then admitted_intent db controller_id action_id
        else none
    rows ← if matches_intent b a then insert_session b completed_at db.controller_sessions else none
    announce_session (record db { controller_sessions = rows }) controller_id b completed_at

  unfoldable pub bind_optional :
      Database → Text → Text → Option ControllerSessionBinding → ℕ → Option Database
  bind_optional db controller_id action_id none completed_at = some db
  bind_optional db controller_id action_id (some b) completed_at =
      bind_session db controller_id action_id b completed_at

  unfoldable pub report_failure : Database → Text → Text → ℕ → ℕ → Option Database
  report_failure db controller_id action_id http_status completed_at = do
    a ← findb (is_action controller_id action_id) db.actions
    enqueue_controller_event_locked to_string failed_id failed_clock db controller_id a.session_id
        (codes "action.failed")
        (object (
          field (codes "action_id") (string action_id)
            (field (codes "http_status") (number (pos http_status)) no_fields)))
        (codes "action.failed:" ++ action_id) completed_at

  unfoldable pub finish_action :
      Database → Text → Text → ℕ → Text → Option ControllerSessionBinding → ℕ → Option Database
  finish_action db controller_id action_id http_status response_json session_binding completed_at =
      if not (count_where (is_open_action controller_id action_id) db.actions == 1)
      then none
      else if is_success http_status
      then some (record db {
        actions =
            complete_action controller_id action_id http_status response_json
              (map_some (λ (b : ControllerSessionBinding). b.session_id) session_binding)
              completed_at db.actions;
      })
      else report_failure
          (record db {
            actions =
                complete_action controller_id action_id http_status response_json
                  (map_some (λ (b : ControllerSessionBinding). b.session_id) session_binding)
                  completed_at db.actions;
          })
          controller_id action_id http_status completed_at

  unfoldable pub finish_controller_action :
      Database → Text → Text → ℕ → Text → Option ControllerSessionBinding → ℕ → Option Database
  finish_controller_action db controller_id action_id http_status response_json session_binding
        completed_at =
      do
        bound ← bind_optional db controller_id action_id session_binding completed_at
        finish_action bound controller_id action_id http_status response_json session_binding
            completed_at

unfoldable pub controller_session_for_trigger :
    Database → Text → Text → Option ControllerSessionBinding
controller_session_for_trigger db controller_id trigger_ref =
    map_some binding_of (findb (is_current controller_id trigger_ref) db.controller_sessions)

-- The row that a reconciliation may read; the columns of its record are those of the row.
unfoldable pub controller_action_for_reconciliation :
    Database → Text → Text → Text → Option ControllerAction
unfolding is_claimed
controller_action_for_reconciliation db controller_id action_id scope =
    findb
      (λ a.
        is_action controller_id action_id a
        && text_eq a.scope scope
        && anyb
            (λ (b : Binding).
              text_eq b.controller_id a.controller_id && text_eq b.scope a.scope && b.enabled)
            db.bindings
        && (not (text_eq a.action_kind (codes "open_session"))
            || not (is_some_and a.trigger_ref (λ t. true))
            || is_some_and a.trigger_ref (λ t. is_claimed db a.controller_id t a.scope)))
      db.actions

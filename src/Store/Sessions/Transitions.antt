-- ===== src/Store/Sessions/Transitions.antt =====
-- src/store.rs: the transitions that close a session and announce it, with the events they enqueue.
use openab_control_plane.Prelude.{
  ℕ, Bool, true, false, not, ◌&&◌, Option, some, none, List, [], ◌∷◌, ◌++◌, if◌then◌else◌, ◌>>=◌, ℤ,
  pos, leb_ℤ, unwrap_or,
}
use openab_control_plane.Text.{Text, codes, text_eq, show_nat}
use openab_control_plane.Session.{ReviewerCompletion}
use openab_control_plane.Store.FinalMessages.{kept_final_messages}
use openab_control_plane.Store.Types.{Session, SessionState, Message}
use openab_control_plane.Store.Json.{
  Value, field, no_fields, flag, number, string, array, object, string_or_null, number_or_null,
  strings,
}
use openab_control_plane.Store.Audit.{AuditOutcome, keyed_session_audit_event}
use openab_control_plane.Store.Database.{Database}
use openab_control_plane.Store.Events.{enqueue_controller_session_event_locked}
use openab_control_plane.Store.Sessions.{
  is_active, find_session, update_session, in_state, append_audit,
}

-- `MAX(created_at)` of the session's messages.
unfoldable pub last_message_at : Text → List Message → Option ℤ
last_message_at session_id [] = none
last_message_at session_id (m ∷ rows) =
    let rest = last_message_at session_id rows in
    if text_eq m.session_id session_id
    then some (elim rest [
      | none ↦ m.created_at
      | some t ↦ if leb_ℤ m.created_at t then t else m.created_at
    ])
    else rest

-- Whether the session has been silent since before the given time, if one is given.
unfoldable pub is_stale : Database → Option ℤ → Session → Bool
unfolding last_message_at
is_stale db none s = true
is_stale db (some before) s =
    not (leb_ℤ before (unwrap_or (last_message_at s.id db.messages) s.created_at))

unfoldable pub result_detail :
    Option Text → Option ℤ → Option ℤ → Option ℤ → Option Text → Option Text → Value
result_detail decision red yellow green author message_ids = object (
    field (codes "reason") (string (codes "normal")) (
      field (codes "decision") (string_or_null decision) (
        field (codes "findings_red") (number_or_null red) (
          field (codes "findings_yellow") (number_or_null yellow) (
            field (codes "findings_green") (number_or_null green) (
              field (codes "result_author_id") (string_or_null author)
                (field (codes "result_message_ids") (string_or_null message_ids) no_fields)))))))

-- The payload of the terminal event, which is marked where the final messages were cut.
unfoldable pub result_payload :
    Option Text → Option ℤ → Option ℤ → Option ℤ → List Text → ReviewerCompletion → Value
result_payload decision red yellow green final_messages completion =
    let kept = kept_final_messages final_messages in
    object (
      field (codes "state") (string (codes "closed")) (
        field (codes "reason") (string (codes "normal")) (
          field (codes "decision") (string_or_null decision) (
            field (codes "findings_red") (number_or_null red) (
              field (codes "findings_yellow") (number_or_null yellow) (
                field (codes "findings_green") (number_or_null green) (
                  field (codes "final_messages") (array (strings kept.0)) (
                    field (codes "required_valid_reviewers")
                      (number completion.required_valid_reviewers)
                      (field (codes "valid_reviewers") (number completion.valid_reviewers) (
                        if kept.1
                        then field (codes "final_messages_truncated") (flag true) no_fields
                        else no_fields))))))))))

unfoldable pub closed_with :
    Option Text → Option ℤ → Option ℤ → Option ℤ → Option Text → Option Text → ℕ → Session → Session
closed_with decision red yellow green author message_ids closed_at s = record s {
  state = codes "closed";
  closed_at = some (pos closed_at);
  decision = decision;
  findings_red = red;
  findings_yellow = yellow;
  findings_green = green;
  result_author_id = author;
  result_message_ids = message_ids;
}

-- `to_string` is `serde_json::to_string`; the id is that of the event, the clocks those of its audit
-- and of the session's audit.
module _ (to_string : Value → Text) (event_id : Text) (clock event_clock : ℕ) where
  unfoldable pub announce : Database → Text → Text → Text → Value → Value → ℕ → Option Database
  announce db session_id kind event_type detail payload closed_at = do
    s ← find_session db session_id
    audited ← append_audit db (
        keyed_session_audit_event clock
          (kind ++ (codes ":" ++ (session_id ++ (codes ":" ++ show_nat closed_at)))) kind session_id
          AuditOutcome.succeeded closed_at s.trigger_ref detail)
    enqueue_controller_session_event_locked to_string event_id event_clock audited session_id
        event_type payload
        (event_type ++ (codes ":" ++ (session_id ++ (codes ":" ++ show_nat closed_at)))) closed_at

  -- Only the call that changed the row announces it.
  unfoldable pub announce_won :
      Text → Text → Text → Value → Value → ℕ → Database × Bool → Option (Database × Bool)
  announce_won session_id kind event_type detail payload closed_at (db, false) = some (db, false)
  announce_won session_id kind event_type detail payload closed_at (db, true) = do
    announced ← announce db session_id kind event_type detail payload closed_at
    some (announced, true)

  unfoldable pub close_if_active :
      Database → Text → Text → Text → Option ℤ → ℕ → Option (Database × Bool)
  close_if_active db session_id event_type reason stale_before closed_at = do
    updated ←
        update_session db
          (λ s. text_eq s.id session_id && (is_active s && is_stale db stale_before s))
          (λ s. record s { state = codes "closed"; closed_at = some (pos closed_at) })
    announce_won session_id
        (if text_eq event_type (codes "session.timeout")
          then codes "session.timed_out"
          else codes "session.closed")
        event_type (object (field (codes "reason") (string reason) no_fields))
        (object (
          field (codes "state") (string (codes "closed"))
            (field (codes "reason") (string reason) no_fields)))
        closed_at updated

  unfoldable pub close_session_with_result :
      Database
      → Text
      → SessionState
      → Option Text
      → Option ℤ
      → Option ℤ
      → Option ℤ
      → Option Text
      → Option Text
      → List Text
      → ReviewerCompletion
      → ℕ
      → Option (Database × Bool)
  close_session_with_result db session_id from decision red yellow green author message_ids
        final_messages completion closed_at =
      do
        updated ←
            update_session db (in_state session_id from)
              (closed_with decision red yellow green author message_ids closed_at)
        announce_won session_id (codes "session.closed") (codes "session.terminal")
            (result_detail decision red yellow green author message_ids)
            (result_payload decision red yellow green final_messages completion) closed_at updated

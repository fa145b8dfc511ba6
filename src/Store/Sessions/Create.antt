-- ===== src/Store/Sessions/Create.antt =====
-- src/store.rs: opening a session, alone or in place of the active session of its trigger; rosters.
use openab_control_plane.Prelude.{
  ℕ, ◌+◌, ltb, ◌==◌, Bool, true, false, not, ◌&&◌, ◌||◌, Option, some, none, List, [], ◌∷◌, ◌++◌,
  if◌then◌else◌, anyb, filterb, first?, ◌>>=◌, ℤ, pos, leb_ℤ, update_where, order_by, length,
}
use openab_control_plane.Text.{Text, codes, text_eq}
use openab_control_plane.Store.Types.{Session, Message}
use openab_control_plane.Store.Json.{Value, field, no_fields, number, string, object}
use openab_control_plane.Store.Audit.{AuditOutcome, session_audit_event}
use openab_control_plane.Store.Database.{Database, SessionBot}
use openab_control_plane.Store.Actions.{same_fingerprint}
use openab_control_plane.Store.Events.{enqueue_controller_session_event_locked}
use openab_control_plane.Store.Sessions.{is_active, is_active_for, checked, append_audit}

pub record OpeningInput : Type 0 where
  pub recipient : Text
  pub content : Text

pub data SessionCreateOutcome : Type 0 where
  created deduped : SessionCreateOutcome
  superseded : (old_id : Text) → SessionCreateOutcome

-- The parameters of the call.
pub record NewSession : Type 0 where
  pub title : Text
  pub trigger_ref : Option Text
  pub trigger_fingerprint : Option Text
  pub quorum_n : ℤ
  pub chair_bot : Option Text
  pub roster : List Text
  pub mode : Text
  pub opening_inputs : List OpeningInput

-- The order of texts in the database, by their bytes.
unfoldable pub text_leb : Text → Text → Bool
text_leb [] t = true
text_leb (c ∷ s) [] = false
text_leb (c ∷ s) (d ∷ t) = ltb c d || (c == d && text_leb s t)

unfoldable pub newest_first : Session → Session → Bool
unfolding text_leb
newest_first a b =
    not (leb_ℤ a.created_at b.created_at) || (leb_ℤ b.created_at a.created_at && text_leb b.id a.id)

unfoldable pub active_session_for_trigger_locked : Database → Text → Option Session
active_session_for_trigger_locked db trigger_ref =
    first? (order_by newest_first (filterb (is_active_for trigger_ref) db.sessions))

-- `INSERT OR IGNORE` of the seats.
unfoldable pub seat : Text → List Text → List SessionBot → List SessionBot
seat session_id [] seats = seats
seat session_id (bot_id ∷ bots) seats = seat session_id bots (
    if anyb (λ (s : SessionBot). text_eq s.session_id session_id && text_eq s.bot_id bot_id) seats
    then seats
    else seats ++ (record { session_id = session_id; bot_id = bot_id } ∷ []))

-- The opening messages; `message_id` gives the ids that `new_id("msg")` draws.
unfoldable pub opening_messages : (ℕ → Text) → ℕ → Text → ℕ → List OpeningInput → List Message
opening_messages message_id n session_id at [] = []
opening_messages message_id n session_id at (input ∷ inputs) =
    record {
      id = message_id n;
      session_id = session_id;
      thread_id = none;
      author_kind = codes "client";
      author_id = none;
      audience = some input.recipient;
      content = input.content;
      reply_to = none;
      created_at = pos at;
    }
    ∷ opening_messages message_id (n + 1) session_id at inputs

abbrev pub initial_state : List OpeningInput → Text
initial_state [] = codes "open"
initial_state (input ∷ inputs) = codes "deliberating"

unfoldable pub new_session : Text → NewSession → ℕ → Session
new_session id r at = record {
  id = id;
  title = r.title;
  state = initial_state r.opening_inputs;
  trigger_ref = r.trigger_ref;
  trigger_fingerprint = r.trigger_fingerprint;
  quorum_n = r.quorum_n;
  chair_bot = r.chair_bot;
  created_at = pos at;
  closed_at = none;
  mode = r.mode;
  decision = none;
  findings_red = none;
  findings_yellow = none;
  findings_green = none;
  result_author_id = none;
  result_message_ids = none;
}

-- The insert of the row: an id that is taken, or a trigger that is active, is an error.
unfoldable pub insert_row : Session → List Session → Option (List Session)
insert_row s rows =
    if anyb (λ (x : Session). text_eq x.id s.id) rows then none else checked (rows ++ (s ∷ []))

unfoldable pub close_row : Session → ℕ → List Session → Option (List Session)
close_row existing at rows = checked (
    update_where (λ (s : Session). text_eq s.id existing.id && is_active s)
      (λ s. record s { state = codes "closed"; closed_at = some (pos at) }) rows)

-- `id` and `event_id` are what `new_id` draws, `at` is the time of the call, and the clocks are the
-- times at which the audit events are recorded.
module _ (to_string : Value → Text) (id event_id : Text) (message_id : ℕ → Text)
    (at clock close_clock event_clock : ℕ) where
  -- What follows the insert of the row: the seats, the opening messages and the audit.
  unfoldable pub fill_session : Database → NewSession → Value → List Session → Option Database
  fill_session db r detail rows =
      append_audit
        (record db {
          sessions = rows;
          session_bots = seat id r.roster db.session_bots;
          messages = db.messages ++ opening_messages message_id 0 id at r.opening_inputs;
        })
        (session_audit_event clock (codes "session.opened") id AuditOutcome.accepted at
          r.trigger_ref detail)

  unfoldable pub open_session : Database → NewSession → Value → Option (Database × Session)
  open_session db r detail = do
    rows ← insert_row (new_session id r at) db.sessions
    opened ← fill_session db r detail rows
    some (opened, new_session id r at)

  -- A session without a fingerprint and without opening inputs.
  unfoldable pub create_session :
      Database
      → Text
      → Option Text
      → ℤ
      → Option Text
      → List Text
      → Text
      → Option (Database × Session)
  unfolding open_session
  create_session db title trigger_ref quorum_n chair_bot roster mode =
      open_session db
        (record {
          title = title;
          trigger_ref = trigger_ref;
          trigger_fingerprint = none;
          quorum_n = quorum_n;
          chair_bot = chair_bot;
          roster = roster;
          mode = mode;
          opening_inputs = [];
        })
        (object (
          field (codes "state") (string (codes "open")) (
            field (codes "mode") (string mode) (
              field (codes "quorum_n") (number quorum_n)
                (field (codes "roster_size") (number (pos (length roster))) no_fields)))))

  -- The active session of the trigger gives way: it is closed, audited and announced.
  unfoldable pub supersede : Database → Session → Option Database
  supersede db existing = do
    rows ← close_row existing at db.sessions
    audited ←
        append_audit (record db { sessions = rows })
          (session_audit_event close_clock (codes "session.superseded") existing.id
            AuditOutcome.succeeded at existing.trigger_ref
            (object (field (codes "replacement_session_id") (string id) no_fields)))
    enqueue_controller_session_event_locked to_string event_id event_clock audited existing.id
        (codes "session.superseded")
        (object (field (codes "reason") (string (codes "superseded")) no_fields))
        (codes "session.superseded:" ++ existing.id) at

  unfoldable pub superseding_detail : NewSession → Value
  superseding_detail r = object (
      field (codes "state") (string (initial_state r.opening_inputs)) (
        field (codes "mode") (string r.mode) (
          field (codes "quorum_n") (number r.quorum_n) (
            field (codes "roster_size") (number (pos (length r.roster))) (
              field (codes "opening_input_count") (number (pos (length r.opening_inputs)))
                no_fields)))))

  unfoldable pub open_as :
      Database
      → NewSession
      → SessionCreateOutcome
      → Option (Database × Session × SessionCreateOutcome)
  unfolding superseding_detail
  open_as db r outcome = do
    (opened, s) ← open_session db r (superseding_detail r)
    some (opened, s, outcome)

  -- A trigger whose active session has the same fingerprint is answered by that session.
  unfoldable pub open_after :
      Database → NewSession → Option Session → Option (Database × Session × SessionCreateOutcome)
  open_after db r none = open_as db r created
  open_after db r (some existing) =
      if same_fingerprint existing.trigger_fingerprint r.trigger_fingerprint
      then some (db, existing, deduped)
      else (supersede db existing >>= λ closed_db. open_as closed_db r (superseded existing.id))

  unfoldable pub create_session_superseding :
      Database → NewSession → Option (Database × Session × SessionCreateOutcome)
  create_session_superseding db r =
      open_after db r (r.trigger_ref >>= λ t. active_session_for_trigger_locked db t)

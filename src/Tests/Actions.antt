-- ===== src/Tests/Actions.antt =====
-- The theorems on the journal of actions of src/store.rs at a controller with one open_session.
use openab_control_plane.Prelude.{
  ◌≤◌, ◌≡◌, refl, true, false, [], ◌∷◌, some, none, pos, arith, findb, count_where, some_inj, subst,
}
use openab_control_plane.Text.{Text, codes, text_eq, text_ops}
use openab_control_plane.Store.Json.{Value}
use openab_control_plane.Store.Database.{Controller, ControllerAction, Database, processing}
use openab_control_plane.Store.Events.{enqueue_controller_event_locked, event_destination}
use openab_control_plane.Store.Actions.{
  ActionRequest, ControllerSessionBinding, create, started, in_progress, replay, find_controller,
  refused, is_action, begin_controller_action, begin_for, begin_after, journal_action, admit,
  admit_intent, admit_open, claim_trigger, decide_open, current_sessions, insert_action, in_window,
  is_create, known_action, is_processing,
}
use openab_control_plane.Store.Actions.Journal.{is_started}
use openab_control_plane.Store.Actions.Finish.{
  finish_controller_action, finish_action, bind_optional, bind_session, announce_session,
  admitted_intent, matches_intent, insert_session, complete_action, is_success, is_claimed,
}
use openab_control_plane.Store.Actions.Steps.{here, started_once}
use openab_control_plane.Store.Actions.Replay.{finish-begin}
use openab_control_plane.Store.Actions.Rate.{begin-IsWithinRate, IsWithinRate}
use openab_control_plane.Store.Actions.Scopes.{IsScoped}
use openab_control_plane.Store.Actions.Scopes.Bound as Bound
use openab_control_plane.Store.Actions.Scopes.Bound.{steps-IsScoped}

abbrev request : ActionRequest
request = record {
  controller_id = codes "c";
  credential_hashes = record { pepper_version = pos 1; token_hash = codes "h" } ∷ [];
  action_id = codes "a";
  request_hash = codes "x";
  action_kind = codes "open_session";
  scope = codes "s";
  session_id = none;
  open_intent = some (record {
    trigger_ref = codes "t";
    trigger_fingerprint = none;
    session_trigger_ref = codes "c/t";
  });
  now = 100;
}

abbrev installed : Controller
installed = record {
  id = codes "c";
  enabled = true;
  max_concurrent_sessions = 5;
  max_actions_per_minute = 2;
  event_endpoint = none;
  event_key_version = none;
  created_at = 0;
  updated_at = 0;
}

abbrev pub empty : Database
empty = record {
  controllers = installed ∷ [];
  tokens =
      record {
        id = codes "k";
        controller_id = codes "c";
        token_hash = codes "h";
        pepper_version = pos 1;
        not_before = 0;
        expires_at = none;
        revoked_at = none;
        created_at = 0;
      }
      ∷ [];
  action_grants =
      record {
        controller_id = codes "c";
        action_kind = codes "open_session";
        granted = true;
        updated_at = 0;
      }
      ∷ [];
  bindings =
      record { controller_id = codes "c"; scope = codes "s"; enabled = true; updated_at = 0 } ∷ [];
  trigger_scopes = [];
  actions = [];
  controller_sessions = [];
  event_grants = [];
  events = [];
  event_audit = [];
  audit = [];
  sessions = [];
  session_bots = [];
  messages = [];
}

abbrev to_string : Value → Text
to_string v = []

abbrev admitted_row : ControllerAction
admitted_row = record {
  controller_id = codes "c";
  action_id = codes "a";
  request_hash = codes "x";
  action_kind = codes "open_session";
  scope = codes "s";
  session_id = none;
  state = processing;
  http_status = none;
  response_json = none;
  trigger_ref = some (codes "t");
  trigger_fingerprint = none;
  session_trigger_ref = some (codes "c/t");
  received_at = 100;
  completed_at = none;
}

abbrev admitted : Database
admitted = record empty {
  trigger_scopes =
      record {
        controller_id = codes "c";
        trigger_ref = codes "t";
        scope = codes "s";
        created_at = 100;
      }
      ∷ [];
  actions = admitted_row ∷ [];
}

begin_first : begin_controller_action empty request ≡ some (admitted, started (some create))
unfolding begin_controller_action begin_for begin_after journal_action admit admit_intent admit_open
    find_controller refused claim_trigger decide_open current_sessions insert_action in_window
    is_create text_ops
begin_first = refl

begin_second : begin_controller_action admitted request ≡ some (admitted, in_progress)
unfolding begin_controller_action begin_for begin_after journal_action known_action find_controller
    refused text_ops
begin_second = refl

started_once_example : is_started in_progress ≡ false
started_once_example =
    started_once to_string empty request request (some create) in_progress begin_first here refl
      refl begin_second

abbrev binding : ControllerSessionBinding
binding = record {
  controller_id = codes "c";
  scope = codes "s";
  trigger_ref = codes "t";
  trigger_fingerprint = none;
  session_id = codes "ses_1";
}

abbrev finished : Database
finished = record admitted {
  controller_sessions =
      record {
        controller_id = codes "c";
        scope = codes "s";
        trigger_ref = codes "t";
        trigger_fingerprint = none;
        session_id = codes "ses_1";
        current = true;
        created_at = 200;
      }
      ∷ [];
  actions =
      complete_action (codes "c") (codes "a") 201 (codes "ok") (some (codes "ses_1")) 200
        admitted.actions;
}

finish_first :
    finish_controller_action to_string
      (codes "e1")
      (codes "e2")
      6
      7
      admitted
      (codes "c")
      (codes "a")
      201
      (codes "ok")
      (some binding)
      200
    ≡ some finished
unfolding is_processing finish_controller_action finish_action bind_optional bind_session
    announce_session admitted_intent matches_intent insert_session complete_action is_success
    is_claimed enqueue_controller_event_locked event_destination text_ops
finish_first = refl

count_first : count_where (is_action (codes "c") (codes "a")) admitted.actions ≤ 1
unfolding text_eq
count_first = omega arith

find_first : findb (is_action (codes "c") (codes "a")) admitted.actions ≡ some admitted_row
unfolding text_eq
find_first = refl

known_controller : find_controller finished (codes "c") ≡ some installed
unfolding find_controller text_ops
known_controller = refl

not_refused : refused finished request installed ≡ none
unfolding refused text_ops
not_refused = refl

replay_example :
    begin_controller_action finished request
    ≡ some (
      finished,
      replay (record { request_hash = codes "x"; http_status = 201; response_json = codes "ok" }),
    )
replay_example =
    finish-begin to_string (codes "e1") (codes "e2") 6 7 admitted finished request installed 201
      (codes "ok") (some binding) 200 admitted_row count_first find_first finish_first here
      known_controller not_refused refl

limits :
    (k : Controller) → find_controller empty (codes "c") ≡ some k → k.max_actions_per_minute ≤ 2
unfolding find_controller text_ops
limits k h =
    subst (λ (c : Controller). c.max_actions_per_minute ≤ 2) (some_inj installed k h) (omega arith)

rate_example : IsWithinRate 2 (codes "c") admitted
rate_example =
    begin-IsWithinRate empty admitted request (started (some create)) (codes "c") 2 limits
      begin_first (λ t. omega arith)

no_claims : IsScoped empty
no_claims = record {
  one_claim = λ c trigger. omega arith;
  claimed = tt;
  one_current = λ c trigger. omega arith;
}

claims_example : IsScoped finished
claims_example =
    steps-IsScoped to_string
      (Bound.finish (codes "e1") (codes "e2") 6 7 (codes "c") (codes "a") 201 (codes "ok")
        (some binding) 200 (Bound.start request (started (some create)) Bound.here begin_first)
        finish_first)
      no_claims

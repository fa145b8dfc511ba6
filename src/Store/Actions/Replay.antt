-- ===== src/Store/Actions/Replay.antt =====
-- The answer that `finish_controller_action` stores is the one that `begin_controller_action` replays.
use openab_control_plane.Prelude.{
  ℕ, ◌≤◌, ◌<◌, ◌≡◌, refl, sym, subst, true, Option, some, none, map_some, or_else, findb, arith,
  count_where, findb-update_where_selected, ==_iff,
}
use openab_control_plane.Text.{Text, text_eq, text_eq_iff}
use openab_control_plane.Store.Json.{Value}
use openab_control_plane.Store.Database.{Controller, completed, ControllerAction, Database}
use openab_control_plane.Store.Actions.{
  ActionRequest, ControllerSessionBinding, replay, find_controller, refused, is_action,
  is_open_action, is_processing, known_action, journal_action, begin_after, begin_for,
  begin_controller_action,
}
use openab_control_plane.Store.Actions.Finish.{complete_action, finish_controller_action}
use openab_control_plane.Store.Actions.Finish.Effect.{finish_cases}
use openab_control_plane.Store.Actions.Steps.{ActionSteps, steps-findb}

-- The row of an action after its completion.
abbrev completed_row : ControllerAction → ℕ → Text → Option Text → ℕ → ControllerAction
completed_row x status response session_id at = record x {
  state = completed;
  http_status = some status;
  response_json = some response;
  completed_at = some at;
  session_id = or_else session_id x.session_id;
}

open_action_is_action :
    (c a : Text) (x : ControllerAction) → is_open_action c a x ≡ true → is_action c a x ≡ true
open_action_is_action c a x h = ground arith

finish-findb :
    (to_string : Value → Text) (id id' : Text) (clock clock' : ℕ) (db db' : Database) (c a : Text)
    (status : ℕ) (response : Text) (b : Option ControllerSessionBinding) (at : ℕ)
    (x : ControllerAction)
    → count_where (is_action c a) db.actions ≤ 1
    → findb (is_action c a) db.actions ≡ some x
    → finish_controller_action to_string id id' clock clock' db c a status response b at ≡ some db'
    → findb (is_action c a) db'.actions
      ≡ some (
          completed_row x status response
            (map_some (λ (y : ControllerSessionBinding). y.session_id) b)
            at)
unfolding complete_action
finish-findb to_string id id' clock clock' db db' c a status response b at x one h f =
    let (sessions, events, audit, binding, open_one, q) =
      finish_cases to_string id id' clock clock' db db' c a status response b at f in
    let some_open : 0 < count_where (is_open_action c a) db.actions =
      omega (arith, (==_iff (count_where (is_open_action c a) db.actions) 1).0 open_one) in
    rw q (
      findb-update_where_selected (is_action c a) (is_open_action c a) _ db.actions (λ y. refl)
        (open_action_is_action c a) one some_open h)

begin_of_completed :
    (db : Database) (r : ActionRequest) (c : Controller) (x : ControllerAction) (status : ℕ)
    (response : Text)
    → find_controller db r.controller_id ≡ some c
    → refused db r c ≡ none
    → findb (is_action r.controller_id r.action_id) db.actions ≡ some x
    → text_eq x.request_hash r.request_hash ≡ true
    → x.state ≡ completed
    → x.http_status ≡ some status
    → x.response_json ≡ some response
    → begin_controller_action db r
      ≡ some (
        db,
        replay (record {
          request_hash = x.request_hash;
          http_status = status;
          response_json = response;
        }),
      )
unfolding begin_controller_action begin_for begin_after journal_action known_action
begin_of_completed db r c x status response f n k e s p q =
    rw f (rw n (rw k (rw e (rw s (rw p (rw q refl))))))

-- Once finish_controller_action has completed the only row of an action, every request under its
-- id that passes the checks and has the hash of the row is answered by a replay of the stored
-- status and response and changes nothing, after whatever further steps on the journal.
pub finish-begin :
    (to_string : Value → Text) (id id' : Text) (clock clock' : ℕ) (db db' : Database)
    {db'' : Database} (r : ActionRequest) (c : Controller) (status : ℕ) (response : Text)
    (b : Option ControllerSessionBinding) (at : ℕ) (x : ControllerAction)
    → count_where (is_action r.controller_id r.action_id) db.actions ≤ 1
    → findb (is_action r.controller_id r.action_id) db.actions ≡ some x
    → finish_controller_action to_string id id' clock clock' db r.controller_id r.action_id status
        response b at
      ≡ some db'
    → ActionSteps to_string db' db''
    → find_controller db'' r.controller_id ≡ some c
    → refused db'' r c ≡ none
    → r.request_hash ≡ x.request_hash
    → begin_controller_action db'' r
      ≡ some (
        db'',
        replay (record {
          request_hash = r.request_hash;
          http_status = status;
          response_json = response;
        }),
      )
unfolding is_processing
finish-begin to_string id id' clock clock' db db' {db''} r c status response b at x one h f steps k
      n e =
    let row =
      completed_row x status response (map_some (λ (y : ControllerSessionBinding). y.session_id) b)
        at in
    subst
      (λ hash.
        begin_controller_action db'' r
        ≡ some (
          db'',
          replay (record { request_hash = hash; http_status = status; response_json = response }),
        ))
      (sym e)
      (begin_of_completed db'' r c row status response k n
        (steps-findb to_string r.controller_id r.action_id row refl
          (finish-findb to_string id id' clock clock' db db' r.controller_id r.action_id status
            response b at x one h f)
          steps)
        ((text_eq_iff x.request_hash r.request_hash).1 (sym e)) refl refl refl)

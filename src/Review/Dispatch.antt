-- ===== src/Review/Dispatch.antt =====
-- crates/github-pr-controller/src/lib.rs, `dispatch_terminal` as far as the choice of a plan.
pub mod Reviewers
pub mod Kinds
use openab_control_plane.Prelude.{
  ℤ, leb_ℤ, is_positive, Bool, true, false, not, ◌&&◌, ◌||◌, Option, some, none, List,
  if◌then◌else◌, is_some_and,
}
use openab_control_plane.Text.{Text, codes, text_eq, is_text}
use openab_control_plane.Store.Actions.{eq_ℤ}
use openab_control_plane.Review.Verdict.{ParsedResult, FindingsBlock, parse_final_messages}
use openab_control_plane.Review.Rows.{SessionTarget}
use openab_control_plane.Review.Closing.{ClosingPlan, plan_close, plan_insufficient_reviewers}

-- What dispatch_terminal reads of a runtime event and its JSON payload: a missing reason is the empty text, the
-- parts of `final_messages` that are no texts are left out, and a count that is no `i64` is none.
pub record RuntimeEventEnvelope : Type 0 where
  pub event_type : Text
  pub session_id : Option Text
  pub reason : Text
  pub final_messages : List Text
  pub required_valid_reviewers : Option ℤ
  pub valid_reviewers : Option ℤ

-- `reported_required == target.required_valid_reviewers`.
unfoldable pub same_count : Option ℤ → Option ℤ → Bool
unfolding eq_ℤ
same_count none none = true
same_count (some a) (some b) = eq_ℤ a b
same_count none (some b) = false
same_count (some a) none = false

unfoldable pub is_ask : SessionTarget → Bool
is_ask target = is_text (codes "ask") target.reason

unfoldable pub reviewer_gate_passed : SessionTarget → RuntimeEventEnvelope → Bool
unfolding same_count is_ask
reviewer_gate_passed target event =
    is_ask target
    || (text_eq event.reason (codes "normal")
        && is_some_and target.required_valid_reviewers is_positive
        && same_count event.required_valid_reviewers target.required_valid_reviewers
        && is_some_and event.valid_reviewers (λ valid.
          is_some_and target.required_valid_reviewers (λ required. leb_ℤ required valid)))

-- The plan that the gate lets through.
unfoldable pub gated_plan :
    SessionTarget → ParsedResult → RuntimeEventEnvelope → Text → Option ClosingPlan
unfolding reviewer_gate_passed
gated_plan target parsed event session_id =
    if reviewer_gate_passed target event
    then plan_close target parsed none session_id (is_ask target)
    else some (
        plan_insufficient_reviewers target session_id target.required_valid_reviewers
          event.valid_reviewers)

-- An event that is not handled gives none, without a plan; `session_target` is the store's answer,
-- with none also for an error.
unfoldable pub terminal_plan :
    (Text → Option FindingsBlock)
    → (Text → Option SessionTarget)
    → RuntimeEventEnvelope
    → Option (Option ClosingPlan)
terminal_plan from_str session_target event =
    if not (text_eq event.event_type (codes "session.terminal"))
    then none
    else elim event.session_id [
      | none ↦ none
      | some session_id ↦
          if not (text_eq event.reason (codes "normal"))
            && not (text_eq event.reason (codes "insufficient_valid_reviewers"))
          then none
          else elim (session_target session_id) [
            | none ↦ none
            | some target ↦
                if is_ask target && not (text_eq event.reason (codes "normal"))
                then none
                else some (
                    gated_plan target (parse_final_messages from_str event.final_messages) event
                      session_id)
          ]
    ]

-- ===== src/Coordinator/Quorum.antt =====
-- src/coordinator.rs: the quorum policy that the council and the triage council share.
pub mod Closing
pub mod Requeue
pub mod Completion
use openab_control_plane.Prelude.{
  ℕ, ◌+◌, pos, Bool, false, not, ◌&&◌, ◌||◌, Option, some, none, List, [], ◌∷◌, ◌++◌, if◌then◌else◌,
  filterb, findb, is_some, is_some_and, unwrap_or, length, leb, ltb, map,
}
use openab_control_plane.Text.{Text, codes, contains, is_text, starts_with, show_nat, text_eq}
use openab_control_plane.Store.{deliberating, quorum, state_eq}
use openab_control_plane.Session.{ReviewerCompletion, reviewers, quorum_reached}
use openab_control_plane.TurnFailure.{starts_with_runtime_error_banner}
use openab_control_plane.Council.{report_delivered}
use openab_control_plane.Council.Verdict.{trailer}
use openab_control_plane.Coordinator.Defs.{
  Ctx, Action, relay, prompt, transition, close, reassign_chair, trim_reviewer, StructuredVerdict,
}

-- A session with this trigger was opened by a controller and owes a verdict.
unfoldable pub verdict_contract : Ctx → Bool → Bool
verdict_contract cx explicit =
    explicit || is_some_and cx.trigger_ref (starts_with (codes "controller:"))

abbrev pub delivered : Ctx → Text → Bool
delivered cx bot = is_some_and (cx.latest_settled bot) report_delivered

-- Under the contract only those who delivered a report count.
unfoldable pub counted_done_voters : Ctx → Bool → List Text
counted_done_voters cx explicit =
    if not (verdict_contract cx explicit)
    then cx.done_voters
    else filterb (delivered cx) cx.done_voters

abbrev pub prompt_chair : Option Text → Text → List Action
prompt_chair none content = []
prompt_chair (some c) content = prompt c content ∷ []

unfoldable pub quorum_actions_with_contract : Ctx → Text → Bool → List Action
quorum_actions_with_contract cx content verdict_required =
    let done = counted_done_voters cx verdict_required in
    if quorum_reached cx.roster cx.chair done cx.quorum_n
    then transition deliberating quorum ∷ prompt_chair cx.chair content
    else []

unfoldable pub quorum_actions : Ctx → Text → List Action
unfolding quorum_actions_with_contract
quorum_actions cx content = quorum_actions_with_contract cx content false

-- What the controller is told of the reviewers' evidence.
unfoldable pub reviewer_completion : Ctx → Bool → ReviewerCompletion
reviewer_completion cx explicit =
    let rostered_reviewers = reviewers cx.roster cx.chair in
    let valid =
      filterb (λ bot. contains bot rostered_reviewers) (counted_done_voters cx explicit) in
    record { required_valid_reviewers = cx.quorum_n; valid_reviewers = pos (length valid) }

abbrev pub max_reviewer_rerequests : ℕ
max_reviewer_rerequests = 2

abbrev pub max_synthesis_attempts : ℕ
max_synthesis_attempts = 3

unfoldable pub reviewer_rerequest_prefix : Text
reviewer_rerequest_prefix = codes "[report-delivery re-request]"

unfoldable pub reviewer_report_delivered : Ctx → Text → Bool → Bool
reviewer_report_delivered cx bot explicit =
    not (verdict_contract cx explicit) || is_some_and (cx.latest_settled bot) report_delivered

unfoldable pub rerequest_prompt : ℕ → Text
unfolding reviewer_rerequest_prefix
rerequest_prompt attempt =
    reviewer_rerequest_prefix
    ++ (codes " attempt "
        ++ (show_nat attempt
            ++ codes
                ". Your previous completion did not deliver a report. Reply with your concise findings and end the message with [done]."))

unfoldable pub invalid_reviewer_action : Text → ℕ → Action
invalid_reviewer_action bot attempts =
    if leb max_reviewer_rerequests attempts
    then trim_reviewer bot
    else prompt bot (rerequest_prompt (attempts + 1))

-- The banner is looked for at the head only.
unfoldable pub chair_turn_errored : Text → Bool
chair_turn_errored settled = starts_with_runtime_error_banner settled

unfoldable pub synthesis_prompt : ℕ → Text
synthesis_prompt attempt =
    codes "Quorum reached. (synthesis attempt "
    ++ (show_nat attempt
        ++ codes
            ") The previous synthesis turn did not deliver a parseable verdict trailer — it may have failed mid-turn. Synthesize the final verdict now from the reviewers' reports, complete any side effect required by the opening trigger, and only then end your final message with [done]. Your final message must contain the full report body and end with the machine-readable verdict trailer your steering defines.")

-- Another candidate if there is one, else the chair whose turn failed.
unfoldable pub next_chair : Ctx → Text → Text
next_chair cx failed_chair =
    unwrap_or (findb (λ c. not (text_eq c failed_chair)) cx.chair_candidates) failed_chair

-- The finals of the other reviewers, for a chair that saw none of them.
unfoldable pub relays_to : Text → Text → List Text → List Action
relays_to next failed_chair voters =
    map (λ reviewer. relay reviewer next)
      (filterb (λ reviewer. not (text_eq reviewer next) && not (text_eq reviewer failed_chair))
        voters)

unfoldable pub requeue_synthesis : Ctx → Text → List Action
requeue_synthesis cx failed_chair =
    let next = next_chair cx failed_chair in
    let again = prompt next (synthesis_prompt (cx.synthesis_attempts + 1)) ∷ [] in
    if not (text_eq next failed_chair)
    then reassign_chair next ∷ (relays_to next failed_chair cx.done_voters ++ again)
    else again

-- Step 1: a reviewer's final goes to the chair, or is asked for again.
unfoldable pub reviewer_actions : Ctx → Text → Bool → ℕ → List Action
reviewer_actions cx bot verdict_required rerequest_attempts =
    if verdict_contract cx verdict_required
      && not (reviewer_report_delivered cx bot verdict_required)
    then invalid_reviewer_action bot rerequest_attempts ∷ []
    else elim cx.chair [ none ↦ [] | some c ↦ relay bot c ∷ [] ]

-- Step 3: the chair's own done, in the state Quorum.
unfoldable pub chair_actions : Ctx → Text → Bool → List Action
unfolding chair_turn_errored
chair_actions cx bot verdict_required =
    let verdict = unwrap_or (cx.latest_settled bot) [] in
    let parseable = is_some (trailer verdict) in
    let failed = not parseable || chair_turn_errored verdict in
    if verdict_contract cx verdict_required
      && failed
      && ltb cx.synthesis_attempts max_synthesis_attempts
    then requeue_synthesis cx bot
    else close quorum bot verdict ∷ []

unfoldable pub reviewer_step : Ctx → Text → Bool → ℕ → List Action
unfolding reviewer_actions
reviewer_step cx bot verdict_required rerequest_attempts =
    if not (is_text bot cx.chair)
    then reviewer_actions cx bot verdict_required rerequest_attempts
    else []

unfoldable pub chair_step : Ctx → Text → Bool → List Action
unfolding chair_actions
chair_step cx bot verdict_required =
    if is_text bot cx.chair && state_eq cx.state quorum
    then chair_actions cx bot verdict_required
    else []

unfoldable pub council_on_done_with_reviewer_rerequest_attempts :
    Ctx → Text → Text → Bool → ℕ → List Action
unfolding reviewer_step quorum_actions_with_contract chair_step
council_on_done_with_reviewer_rerequest_attempts cx bot content verdict_required
      rerequest_attempts =
    reviewer_step cx bot verdict_required rerequest_attempts
    ++ (quorum_actions_with_contract cx content verdict_required
        ++ chair_step cx bot verdict_required)

unfoldable pub council_on_done : Ctx → Text → Text → Bool → List Action
unfolding council_on_done_with_reviewer_rerequest_attempts
council_on_done cx bot content verdict_required =
    council_on_done_with_reviewer_rerequest_attempts cx bot content verdict_required 0

unfoldable pub parse_structured_verdict : Text → Option StructuredVerdict
parse_structured_verdict verdict_text = elim (trailer verdict_text) [
  | none ↦ none
  | some t ↦
      some (record { decision = t.decision; red = t.red; yellow = t.yellow; green = t.green })
]

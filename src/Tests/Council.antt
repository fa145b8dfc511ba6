-- ===== src/Tests/Council.antt =====
-- The theorems on src/coordinator.rs, src/session.rs and src/council, applied to a council of three.
use openab_control_plane.Prelude.{
  ◌≡◌, refl, pos, true, false, List, [], ◌∷◌, some, none, arith, unwrap_or, map_some, last?, All,
  leb_ℤ,
}
use openab_control_plane.Text.{Text, codes, contains, text_ops, parse_i64, is_text}
use openab_control_plane.Store.{quorum}
use openab_control_plane.Session.{quorum_reached}
use openab_control_plane.Session.Quorum.{quorum_reached_mono, VotesWithin, IsDistinct}
use openab_control_plane.Council.Verdict.{VerdictTrailer, trailer, parse_verdict_trailer}
use openab_control_plane.Council.Verdict.Rule.{parse_verdict_trailer-Sound, trailer_words, Sound}
use openab_control_plane.Review.Verdict as Review
use openab_control_plane.Review.Verdict.Parity.{kernel_trailer, parse_verdict_trailer-parity}
use openab_control_plane.Coordinator.{
  Ctx, verdict_contract, counted_done_voters, reviewer_completion, next_chair, prompt,
  synthesis_prompt, pipeline_on_done, lookup, solo,
  council_on_done_with_reviewer_rerequest_attempts,
}
use openab_control_plane.Coordinator.Quorum.Closing.{
  council_on_done-ClosesInOrder, ClosesInOrder, NoClose, IsDelivered,
}
use openab_control_plane.Coordinator.Quorum.Requeue.{council_on_done-requeues, TakesTurn}
use openab_control_plane.Coordinator.Quorum.Completion.{reviewer_completion-quorum_reached}
use openab_control_plane.Coordinator.Modes.Stages.{pipeline_on_done-HandsOver, HandsOver}

abbrev chair : Text
chair = codes "c"

abbrev reviewer : Text
reviewer = codes "r"

abbrev second : Text
second = codes "s"

-- The chair speaks in Quorum and has delivered no verdict.
abbrev waiting : Ctx
waiting = record {
  session_id = codes "1";
  roster = chair ∷ reviewer ∷ second ∷ [];
  chair = some chair;
  quorum_n = pos 2;
  done_voters = reviewer ∷ second ∷ [];
  latest_settled = λ bot. some (codes "looks fine");
  state = quorum;
  trigger_ref = some (codes "controller:github-pr");
  synthesis_attempts = 1;
  chair_candidates = chair ∷ second ∷ [];
}

-- The chair has delivered one.
abbrev ready : Ctx
ready = record waiting { latest_settled = λ bot. some (codes "ok\n[[verdict:approve r=0 y=0]]") }

abbrev roster_distinct : IsDistinct (chair ∷ reviewer ∷ second ∷ [])
unfolding contains text_ops
roster_distinct = (refl, (refl, (refl, tt)))

abbrev votes_distinct : IsDistinct (reviewer ∷ second ∷ [])
unfolding contains text_ops
votes_distinct = (refl, (refl, tt))

contract_holds : verdict_contract waiting false ≡ true
unfolding verdict_contract text_ops
contract_holds = refl

chair_is_asked_again : ¬ IsDelivered (unwrap_or (waiting.latest_settled chair) [])
unfolding trailer parse_verdict_trailer text_ops parse_i64
chair_is_asked_again h = cc h.0

closing_example :
    All
      (ClosesInOrder ready chair false)
      (council_on_done_with_reviewer_rerequest_attempts ready chair (codes "done") false 0)
closing_example = council_on_done-ClosesInOrder ready chair (codes "done") false 0

requeue_example :
    let actions =
      council_on_done_with_reviewer_rerequest_attempts waiting chair (codes "done") false 0 in
    let next = next_chair waiting chair in
    All NoClose actions
    × (last? actions ≡ some (prompt next (synthesis_prompt 2)))
    × TakesTurn waiting chair next
requeue_example =
    council_on_done-requeues waiting chair (codes "done") false 0 contract_holds refl refl
      chair_is_asked_again (omega arith)

completion_example :
    let completion = reviewer_completion waiting true in
    leb_ℤ completion.required_valid_reviewers completion.valid_reviewers
    ≡ quorum_reached waiting.roster waiting.chair
        (counted_done_voters waiting true)
        waiting.quorum_n
completion_example = reviewer_completion-quorum_reached waiting true roster_distinct votes_distinct

stages_example : HandsOver waiting 1 reviewer (pipeline_on_done waiting reviewer)
stages_example = pipeline_on_done-HandsOver waiting 1 reviewer roster_distinct refl

solo_is_found : lookup (codes "solo") ≡ some solo
unfolding lookup text_ops
solo_is_found = refl

votes_reach_quorum :
    quorum_reached waiting.roster waiting.chair (reviewer ∷ second ∷ []) (pos 2) ≡ true
unfolding quorum_reached text_ops
votes_reach_quorum = refl

votes_kept :
    VotesWithin waiting.chair (reviewer ∷ second ∷ []) (second ∷ chair ∷ reviewer ∷ second ∷ [])
unfolding contains is_text
votes_kept bot h k = ground arith

quorum_example :
    quorum_reached waiting.roster waiting.chair (second ∷ chair ∷ reviewer ∷ second ∷ []) (pos 2)
    ≡ true
quorum_example =
    quorum_reached_mono waiting.roster waiting.chair (reviewer ∷ second ∷ [])
      (second ∷ chair ∷ reviewer ∷ second ∷ []) (pos 2) votes_kept votes_reach_quorum

abbrev blocking_text : Text
blocking_text = codes "report\n[[verdict:approve r=1]]"

abbrev blocking_trailer : VerdictTrailer
blocking_trailer = record {
  decision = codes "request_changes";
  red = some (pos 1);
  yellow = none;
  green = none;
}

blocking_read : parse_verdict_trailer blocking_text ≡ some blocking_trailer
unfolding parse_verdict_trailer text_ops parse_i64
blocking_read = refl

trailer_example :
    (words : List Text) × (trailer_words blocking_text ≡ some words) × Sound words blocking_trailer
trailer_example = parse_verdict_trailer-Sound blocking_text blocking_read

parity_example :
    map_some kernel_trailer (Review.parse_verdict_trailer blocking_text)
    ≡ parse_verdict_trailer blocking_text
parity_example = parse_verdict_trailer-parity blocking_text

-- ===== src/Tests/Reviews.antt =====
-- The theorems on crates/github-pr-controller, applied to one pull request.
use openab_control_plane.Prelude.{
  ◌≡◌, refl, arith, pos, true, false, [], ◌∷◌, some, none, All, ◌↔◌, map, ◌++◌,
}
use openab_control_plane.Text.{Text, codes, to_ascii_lowercase, text_ops}
use openab_control_plane.Review.Rows.{SessionTarget, ReviewFindingRow}
use openab_control_plane.Review.Verdict.{VerdictTrailer, ParsedResult}
use openab_control_plane.Review.Closing.{
  ClosingPlan, canonical_commit_id, is_hexdigit, classify_target, classify_reviewed,
  classify_integrity, plan_close, review_finding, fired_waivers_of, claimed_sha, block_findings,
}
use openab_control_plane.Review.Closing.Commits.{
  canonical_commit_id-IsObjectId, IsObjectId, classify_integrity-IsVerified, IsVerified,
}
use openab_control_plane.Review.Closing.Authority.{plan_close-Authorised, AllAuthorised, Proven}
use openab_control_plane.Review.Closing.Submission.{plan_close-submits, ProvenWrites}
use openab_control_plane.Review.Closing.Outbox.{plan_close-IsQueueable, IsQueueable, kinds}
use openab_control_plane.Review.Deciding.{plan_decision}
use openab_control_plane.Review.Deciding.Kinds.{session_writes-IsDistinct}
use openab_control_plane.Review.Dispatch.{
  RuntimeEventEnvelope, is_ask, reviewer_gate_passed, gated_plan,
}
use openab_control_plane.Review.Dispatch.Reviewers.{gated_plan-IsGated, IsGated}
use openab_control_plane.Session.Quorum.{IsDistinct}
use openab_control_plane.Review.Deciding.Counts.{IsBlocker}
use openab_control_plane.Review.Deciding.Recount.{
  plan_decision-OnlyUnblocks, plan_decision-approves, OnlyUnblocks,
}

abbrev upper_sha : Text
upper_sha = codes "AAAAAAAAAABBBBBBBBBBCCCCCCCCCC0123456789"

abbrev lower_sha : Text
lower_sha = codes "aaaaaaaaaabbbbbbbbbbcccccccccc0123456789"

abbrev pull_request : SessionTarget
pull_request = record {
  repo = codes "o/r";
  pr_number = pos 7;
  head_sha = some upper_sha;
  reason = none;
  required_valid_reviewers = some (pos 2);
}

abbrev approval : VerdictTrailer
approval = record {
  decision = codes "approve";
  red = some (pos 0);
  yellow = some (pos 0);
  green = none;
}

abbrev approved : ParsedResult
approved = record {
  trailer = some approval;
  findings = some (record { head_sha = some lower_sha; findings = [] });
  source = codes "fine\n[[verdict:approve r=0 y=0]]";
}

upper_read : canonical_commit_id upper_sha ≡ some lower_sha
unfolding canonical_commit_id text_ops is_hexdigit
upper_read = refl

lower_read : canonical_commit_id lower_sha ≡ some lower_sha
unfolding canonical_commit_id text_ops is_hexdigit
lower_read = refl

same_commit : Proven pull_request approved lower_sha
same_commit = record { of_target = upper_read; of_claim = lower_read }

verified_here : (classify_integrity pull_request approved).disposition ≡ codes "verified"
unfolding classify_integrity classify_target classify_reviewed canonical_commit_id text_ops
    is_hexdigit
verified_here = refl

commit_example :
    IsObjectId lower_sha
    × (canonical_commit_id lower_sha ≡ some lower_sha)
    × (to_ascii_lowercase upper_sha ≡ lower_sha)
commit_example = canonical_commit_id-IsObjectId upper_sha lower_sha upper_read

integrity_example :
    IsVerified pull_request.head_sha
      (claimed_sha approved.findings)
      (classify_integrity pull_request approved)
integrity_example = classify_integrity-IsVerified pull_request approved verified_here

authority_example :
    (p : ClosingPlan) × (plan_close pull_request approved (some (pos 3)) (codes "s") false ≡ some p)
    × AllAuthorised pull_request approved false p.writes
authority_example = plan_close-Authorised pull_request approved (some (pos 3)) (codes "s") false

submission_example :
    (p : ClosingPlan) × (plan_close pull_request approved none (codes "s") false ≡ some p)
    × (p.decision ≡ approval.decision)
    × (p.verified_commit_id ≡ some lower_sha)
    × (p.findings ≡ map review_finding (block_findings approved.findings))
    × (p.fired_waivers ≡ fired_waivers_of (block_findings approved.findings))
    × ProvenWrites pull_request none approval lower_sha p.writes
submission_example =
    plan_close-submits pull_request approved none (codes "s") approval lower_sha refl same_commit

abbrev made_plan :
    (p : ClosingPlan) × (plan_close pull_request approved none (codes "s") false ≡ some p)
made_plan =
    let made = plan_close-Authorised pull_request approved none (codes "s") false in
    (made.0, made.1)

outbox_example : IsQueueable made_plan.0.writes
outbox_example = plan_close-IsQueueable pull_request approved none (codes "s") false made_plan.1

abbrev dismissed : ReviewFindingRow
dismissed = record {
  id = pos 1;
  session_id = codes "s";
  repo = some (codes "o/r");
  pr_number = some (pos 7);
  stable_id = codes "F1";
  severity = codes "red";
  status = codes "dismissed";
  title = codes "leak";
  path = none;
  line = none;
  raised_by = none;
  angle = none;
  head_sha = some lower_sha;
  created_at = pos 0;
  decided_by = some (codes "ann");
  decided_reason = some (codes "not a leak");
  decided_at = some (pos 1);
  waiver_id = none;
}

judgement_example :
    All
      (λ w. OnlyUnblocks lower_sha (dismissed ∷ []) true true w.1)
      (plan_decision
        (codes "o/r")
        (pos 7)
        lower_sha
        (dismissed ∷ [])
        true
        true
        none
        (codes "s")
        9).writes
judgement_example =
    plan_decision-OnlyUnblocks (codes "o/r") (pos 7) lower_sha (dismissed ∷ []) true true none
      (codes "s") 9

recount_example :
    ((plan_decision
        (codes "o/r")
        (pos 7)
        lower_sha
        (dismissed ∷ [])
        true
        true
        none
        (codes "s")
        9).decision
      ≡ codes "approve")
    ↔ All (λ row. ¬ IsBlocker lower_sha row) (dismissed ∷ [])
recount_example =
    plan_decision-approves (codes "o/r") (pos 7) lower_sha (dismissed ∷ []) true true none
      (codes "s") 9

abbrev reported : RuntimeEventEnvelope
reported = record {
  event_type = codes "session.terminal";
  session_id = some (codes "s");
  reason = codes "normal";
  final_messages = [];
  required_valid_reviewers = some (pos 2);
  valid_reviewers = some (pos 2);
}

not_an_ask : is_ask pull_request ≡ false
unfolding is_ask text_ops
not_an_ask = refl

reviewers_are_enough : reviewer_gate_passed pull_request reported ≡ true
unfolding reviewer_gate_passed text_ops
reviewers_are_enough = refl

closed_round :
    (p : ClosingPlan) × (gated_plan pull_request approved reported (codes "s") ≡ some p)
    × IsGated pull_request approved reported (codes "s") p
closed_round = gated_plan-IsGated pull_request approved reported (codes "s") not_an_ask

kinds_example : IsDistinct (
    kinds (
      closed_round.0.writes
      ++ ((plan_decision
            (codes "o/r")
            (pos 7)
            lower_sha
            (dismissed ∷ [])
            true
            true
            none
            (codes "s")
            9).writes
          ++ (plan_decision
              (codes "o/r")
              (pos 7)
              lower_sha
              []
              true
              true
              none
              (codes "s")
              10).writes)))
kinds_example =
    session_writes-IsDistinct (codes "o/r") (pos 7) lower_sha (codes "s") pull_request approved
      reported closed_round.0 (dismissed ∷ []) [] true true true true none none 9 10 closed_round.1
      (omega arith)

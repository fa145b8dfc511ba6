-- ===== src/Review/Closing/Plan.antt =====
-- crates/github-pr-controller/src/closing.rs: the round and the writes of a closed session.
use openab_control_plane.Prelude.{
  ℤ, pos, Bool, not, ◌&&◌, Option, some, none, List, [], ◌∷◌, ◌++◌, map, if◌then◌else◌, is_some,
  ◌>>=◌, or_else,
}
use openab_control_plane.Text.{Text, codes, text_eq, show_int}
use openab_control_plane.Review.Verdict.{VerdictTrailer, Finding, FindingsBlock, ParsedResult}
use openab_control_plane.Review.Rows.{
  SessionTarget, ReviewFinding, Write, Payload, comment_payload, status_payload, review_payload,
}
use openab_control_plane.Review.Closing.Integrity.{
  IntegrityDecision, canonical_commit_id, classify_integrity, claimed_sha,
}
use openab_control_plane.Review.Closing.Bodies.{
  round_marker, or_zero, blocks, status_state, status_description, review_body, answer_body,
  comment_body,
}

abbrev pub status_context : Text
status_context = codes "openab/council"

abbrev pub kind_comment : Text
kind_comment = codes "comment"

abbrev pub kind_status : Text
kind_status = codes "status"

abbrev pub kind_review : Text
kind_review = codes "review"

pub record ClosingPlan : Type 0 where
  pub decision : Text
  pub red : ℤ
  pub yellow : ℤ
  pub green : ℤ
  pub head_sha : Option Text
  pub verified_commit_id : Option Text
  pub integrity_disposition : Text
  pub findings : List ReviewFinding
  pub fired_waivers : List Text
  pub writes : List Write

-- `{body}\n\n{marker}`.
abbrev pub marked : Text → Text → Text
marked body session_id = body ++ (codes "\n\n" ++ round_marker session_id)

abbrev pub canonical_target : SessionTarget → Option Text
canonical_target target = target.head_sha >>= canonical_commit_id

-- A status is posted only against a canonical commit.
abbrev pub status_writes : SessionTarget → Option Text → Text → Text → List Write
status_writes target none state description = []
status_writes target (some sha) state description =
    (kind_status, status_payload target.repo sha sha state status_context description) ∷ []

reviewer_counts : Option ℤ → Option ℤ → Text
reviewer_counts (some valid) (some required) =
    codes " ("
    ++ (show_int valid ++ (codes "/" ++ (show_int required ++ codes " valid reviewers)")))
reviewer_counts _ _ = codes " (reviewer evidence missing)"

unfoldable pub plan_insufficient_reviewers :
    SessionTarget → Text → Option ℤ → Option ℤ → ClosingPlan
unfolding reviewer_counts
plan_insufficient_reviewers target session_id required valid =
    let body =
      codes "⚠\u{fe0f} The council failed closed"
      ++ (reviewer_counts valid required
          ++ codes
              "; no approval or change-request review was submitted. Re-run after reviewer readiness is restored.") in
    let comment = comment_payload target.repo target.pr_number none (marked body session_id) in
    record {
      decision = codes "unknown";
      red = pos 0;
      yellow = pos 0;
      green = pos 0;
      head_sha = target.head_sha;
      verified_commit_id = none;
      integrity_disposition = codes "insufficient_valid_reviewers";
      findings = [];
      fired_waivers = [];
      writes =
          (kind_comment, comment)
          ∷ status_writes target (canonical_target target) (codes "error")
              (codes "council error - insufficient valid reviewers");
    }

unfoldable pub plan_ask : SessionTarget → ParsedResult → Option ℤ → Text → ClosingPlan
plan_ask target parsed comment_id session_id = record {
  decision = codes "ask";
  red = pos 0;
  yellow = pos 0;
  green = pos 0;
  head_sha = target.head_sha;
  verified_commit_id = none;
  integrity_disposition = codes "ask";
  findings = [];
  fired_waivers = [];
  writes =
      (
        kind_comment,
        comment_payload target.repo target.pr_number comment_id
            (marked (answer_body parsed) session_id),
      )
      ∷ [];
}

abbrev counts_of : Option VerdictTrailer → ℤ × ℤ × ℤ
counts_of none = (pos 0, pos 0, pos 0)
counts_of (some t) = (or_zero t.red, or_zero t.yellow, or_zero t.green)

abbrev pub decision_of : Option VerdictTrailer → Text
decision_of none = codes "unknown"
decision_of (some t) = t.decision

abbrev pub failure_comment :
    SessionTarget → Option VerdictTrailer → Option ℤ → Text → IntegrityDecision → Payload
failure_comment target trailer comment_id session_id integrity =
    let body =
      codes "⚠\u{fe0f} Review SHA integrity failed ("
      ++ (integrity.disposition
          ++ (codes ") for `"
              ++ (decision_of trailer
                  ++ codes
                      "`. Approval or change-request review was withheld; no findings or waiver effects were recorded. Re-run the council for this pull request."))) in
    comment_payload target.repo target.pr_number comment_id (marked body session_id)

unfoldable pub plan_sha_integrity_failure :
    SessionTarget → Option VerdictTrailer → Option ℤ → Text → IntegrityDecision → ClosingPlan
plan_sha_integrity_failure target trailer comment_id session_id integrity =
    let (red, yellow, green) = counts_of trailer in
    record {
      decision = codes "sha_integrity_failed";
      red = red;
      yellow = yellow;
      green = green;
      head_sha = integrity.reviewed_sha;
      verified_commit_id = integrity.verified_commit_id;
      integrity_disposition = integrity.disposition;
      findings = [];
      fired_waivers = [];
      writes =
          (kind_comment, failure_comment target trailer comment_id session_id integrity)
          ∷ status_writes target integrity.target_commit_id (codes "error") (
              codes "council error - SHA integrity failed ("
              ++ (integrity.disposition ++ codes ")"));
    }

unfoldable pub review_finding : Finding → ReviewFinding
review_finding f = record {
  stable_id = f.id;
  severity = f.severity;
  status = f.status;
  title = f.title;
  path = f.path;
  line = f.line;
  raised_by = f.raised_by;
  angle = f.angle;
}

abbrev pub block_findings : Option FindingsBlock → List Finding
block_findings none = []
block_findings (some block) = block.findings

-- The waivers that the waived findings name.
unfoldable pub fired_waivers_of : List Finding → List Text
fired_waivers_of [] = []
fired_waivers_of (f ∷ fs) =
    let rest = fired_waivers_of fs in
    if text_eq f.status (codes "waived")
    then elim f.waiver_id [ none ↦ rest | some id ↦ id ∷ rest ]
    else rest

-- Without a verdict the claim is history, and no commit is verified.
unfoldable pub integrity_of : SessionTarget → ParsedResult → IntegrityDecision
integrity_of target parsed = elim parsed.trailer [
  | some _ ↦ classify_integrity target parsed
  | none ↦ record {
    disposition = codes "unparseable";
    target_commit_id = canonical_target target;
    verified_commit_id = none;
    reviewed_sha = or_else (claimed_sha parsed.findings) target.head_sha;
  }
]

unfoldable pub review_event : VerdictTrailer → Text
review_event t = if blocks t then codes "REQUEST_CHANGES" else codes "APPROVE"

unfoldable pub review_write : SessionTarget → VerdictTrailer → Text → Option Text → Text → Write
review_write target t commit_id reviewed_sha session_id = (
  kind_review,
  review_payload target.repo target.pr_number (review_event t) commit_id
      (marked (review_body t reviewed_sha) session_id),
)

-- `none` is the panic of `expect`.
unfoldable pub review_writes :
    SessionTarget → Option VerdictTrailer → IntegrityDecision → Text → Option (List Write)
review_writes target none integrity session_id = some []
review_writes target (some t) integrity session_id = elim integrity.verified_commit_id [
  | none ↦ none
  | some commit_id ↦ some (review_write target t commit_id integrity.reviewed_sha session_id ∷ [])
]

abbrev pub round_comment : SessionTarget → ParsedResult → Option ℤ → Text → Payload
round_comment target parsed comment_id session_id =
    comment_payload target.repo target.pr_number comment_id
      (marked (comment_body parsed parsed.trailer) session_id)

unfoldable pub round_plan :
    SessionTarget → ParsedResult → Option ℤ → Text → IntegrityDecision → List Write → ClosingPlan
round_plan target parsed comment_id session_id integrity reviews =
    let (red, yellow, green) = counts_of parsed.trailer in
    let findings = block_findings parsed.findings in
    record {
      decision = decision_of parsed.trailer;
      red = red;
      yellow = yellow;
      green = green;
      head_sha = integrity.reviewed_sha;
      verified_commit_id = integrity.verified_commit_id;
      integrity_disposition = integrity.disposition;
      findings = map review_finding findings;
      fired_waivers = fired_waivers_of findings;
      writes =
          (kind_comment, round_comment target parsed comment_id session_id)
          ∷ (status_writes target integrity.target_commit_id (status_state parsed.trailer)
                (status_description parsed.trailer)
              ++ reviews);
    }

-- The round of a verified verdict, or of a session without one.
unfoldable pub plan_round :
    SessionTarget → ParsedResult → Option ℤ → Text → IntegrityDecision → Option ClosingPlan
plan_round target parsed comment_id session_id integrity = do
  reviews ← review_writes target parsed.trailer integrity session_id
  some (round_plan target parsed comment_id session_id integrity reviews)

unfoldable pub plan_close :
    SessionTarget → ParsedResult → Option ℤ → Text → Bool → Option ClosingPlan
unfolding plan_ask plan_sha_integrity_failure plan_round
plan_close target parsed comment_id session_id is_ask =
    let integrity = integrity_of target parsed in
    if is_ask
    then some (plan_ask target parsed comment_id session_id)
    else if is_some parsed.trailer && not (text_eq integrity.disposition (codes "verified"))
    then some (plan_sha_integrity_failure target parsed.trailer comment_id session_id integrity)
    else plan_round target parsed comment_id session_id integrity

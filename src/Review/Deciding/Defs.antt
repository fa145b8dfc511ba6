-- ===== src/Review/Deciding/Defs.antt =====
-- crates/github-pr-controller/src/deciding.rs: the recomputed verdict and its writes.
use openab_control_plane.Prelude.{
  ℕ, ◌+◌, ◌*◌, ltb, ℤ, Bool, not, ◌&&◌, ◌||◌, Option, some, none, List, [], ◌∷◌, ◌++◌,
  if◌then◌else◌, filterb,
}
use openab_control_plane.Text.{Text, codes, text_eq, is_text, show_nat, contains}
use openab_control_plane.Review.Rows.{
  ReviewFindingRow, Write, comment_payload, status_payload, review_payload,
}
use openab_control_plane.Review.Closing.{status_context}

abbrev pub kind_decision_status : Text
kind_decision_status = codes "decision_status"

abbrev pub kind_decision_review : Text
kind_decision_review = codes "decision_review"

abbrev pub kind_decision_comment : Text
kind_decision_comment = codes "decision_comment"

-- The comment that asked for the decision is part of the kind.
unfoldable pub decision_kind : Text → ℕ → Text
decision_kind base comment_id = base ++ (codes ":" ++ show_nat comment_id)

unfoldable pub decision_marker : Text → Text → Text
decision_marker session_id comment_id =
    codes "<!-- openab-decision:" ++ (session_id ++ (codes ":" ++ (comment_id ++ codes " -->")))

abbrev pub waive_default_expiry_secs : ℕ
waive_default_expiry_secs = 90 * 86400

abbrev pub waive_red_expiry_secs : ℕ
waive_red_expiry_secs = 30 * 86400

-- An unknown severity counts as red.
unfoldable pub waive_expiry_secs : Text → ℕ
waive_expiry_secs severity =
    if contains severity (codes "yellow" ∷ codes "green" ∷ [])
    then waive_default_expiry_secs
    else waive_red_expiry_secs

pub record DecisionOutcome : Type 0 where
  pub red : ℕ
  pub yellow : ℕ
  pub decision : Text
  pub unblocked : Bool
  pub approval_authorized : Bool
  pub writes : List Write

abbrev pub is_live : Text → ReviewFindingRow → Bool
is_live head_sha row = is_text head_sha row.head_sha && text_eq row.status (codes "open")

-- The loop over the live rows, with its two counters.
unfoldable pub count_severities : ℕ → ℕ → List ReviewFindingRow → ℕ × ℕ
count_severities red yellow [] = (red, yellow)
count_severities red yellow (row ∷ rows) =
    count_severities (if text_eq row.severity (codes "red") then red + 1 else red)
      (if text_eq row.severity (codes "yellow") then yellow + 1 else yellow) rows

-- The open red and yellow findings on the head.
unfoldable pub open_counts : List ReviewFindingRow → Text → ℕ × ℕ
open_counts findings head_sha = count_severities 0 0 (filterb (is_live head_sha) findings)

abbrev pub is_blocking : ℕ × ℕ → Bool
is_blocking (red, yellow) = ltb 0 red || ltb 0 yellow

abbrev pub verdict_of : Bool → Text
verdict_of blocking = if blocking then codes "request_changes" else codes "approve"

abbrev pub comment_write : Text → ℤ → Option (ℤ × Text) → ℕ → List Write
comment_write repo pr_number none deciding = []
comment_write repo pr_number (some (comment_id, body)) deciding =
    (
      decision_kind kind_decision_comment deciding,
      comment_payload repo pr_number (some comment_id) body,
    )
    ∷ []

unfoldable pub approval_writes : Text → ℤ → Text → ℕ × ℕ → Text → ℕ → List Write
approval_writes repo pr_number head_sha (red, yellow) session_id deciding =
    let decision = verdict_of (is_blocking (red, yellow)) in
    let description =
      codes "Council "
      ++ (decision
          ++ (codes " - red " ++ (show_nat red ++ (codes " yellow " ++ show_nat yellow)))) in
    let marker = decision_marker session_id (show_nat deciding) in
    let body =
      codes
        "Recomputed after the author's judgement on this round's findings: no blocking findings remain on `"
      ++ (head_sha ++ (codes "`.\n\n" ++ marker)) in
    (
      decision_kind kind_decision_status deciding,
      status_payload repo head_sha head_sha (codes "success") status_context description,
    )
    ∷ (
      decision_kind kind_decision_review deciding,
      review_payload repo pr_number (codes "APPROVE") head_sha body,
    )
    ∷ []

-- Only a decision that cleared the last blocker writes a status and a review.
unfoldable pub plan_decision :
    Text
    → ℤ
    → Text
    → List ReviewFindingRow
    → Bool
    → Bool
    → Option (ℤ × Text)
    → Text
    → ℕ
    → DecisionOutcome
unfolding approval_writes
plan_decision repo pr_number head_sha findings was_blocking approval_authorized verdict_comment
      session_id deciding =
    let counts = open_counts findings head_sha in
    let blocking = is_blocking counts in
    let unblocked = was_blocking && not blocking in
    record {
      red = counts.0;
      yellow = counts.1;
      decision = verdict_of blocking;
      unblocked = unblocked;
      approval_authorized = approval_authorized;
      writes =
          comment_write repo pr_number verdict_comment deciding
          ++ (if unblocked && approval_authorized
              then approval_writes repo pr_number head_sha counts session_id deciding
              else []);
    }

-- ===== src/Tests/Rounds.antt =====
-- More theorems on crates/github-pr-controller, applied to a report and a round without proof.
use openab_control_plane.Prelude.{
  suc, ◌-◌, min, length, take, ◌≡◌, ◌≢◌, refl, ap, arith, first?, some_inj, pos, false, List, [],
  ◌∷◌, Option, some, none, All, if◌then◌else◌, inl,
}
use openab_control_plane.Text.{Text, codes, text_eq, text_ops}
use openab_control_plane.Council.{from_values}
use openab_control_plane.Council.Roster.{from_values-IsRoster, IsRoster, IsChosen}
use openab_control_plane.Review.Rows.{SessionTarget}
use openab_control_plane.Review.Verdict.{
  Finding, FindingsBlock, ParsedResult, parse_findings_block, is_valid_finding,
  parse_final_messages,
}
use openab_control_plane.Review.Verdict.Findings.{parse_findings_block-IsValid, IsValid}
use openab_control_plane.Review.Closing.{
  ClosingPlan, unfence_tables, table_block, plan_close, classify_integrity, classify_target,
  classify_reviewed, canonical_commit_id,
}
use openab_control_plane.Review.Dispatch.{
  RuntimeEventEnvelope, is_ask, reviewer_gate_passed, terminal_plan,
}
use openab_control_plane.Review.Dispatch.Reviewers.{terminal_plan-IsGated, IsGated}
use openab_control_plane.Review.Planner.{assign_angles, participating, deal, assignment_lines}
use openab_control_plane.Review.Planner.Seats.{assign_angles-take}
use openab_control_plane.Review.Closing.Tables.{unfence_tables-prose, prose}
use openab_control_plane.Review.Closing.Refusal.{plan_close-FailsClosed, FailsClosed}

abbrev configured : Text → Option Text
configured key = some (codes " a,, b ")

roster_example :
    IsRoster (from_values configured).council_roster
    × IsChosen (configured (codes "OABCP_COUNCIL_ROSTER")) (from_values configured).council_roster
roster_example = from_values-IsRoster configured

roster_of_two : (from_values configured).council_roster ≡ codes "a" ∷ codes "b" ∷ []
unfolding from_values text_ops
roster_of_two = refl

abbrev fenced : List Text
fenced = codes "Findings" ∷ codes "```" ∷ codes "| F1 | red |" ∷ codes "```" ∷ codes "end" ∷ []

tables_example : prose (unfence_tables fenced) ≡ prose fenced
tables_example = unfence_tables-prose fenced

table_is_unfenced :
    unfence_tables fenced ≡ codes "Findings" ∷ codes "| F1 | red |" ∷ codes "end" ∷ []
unfolding unfence_tables table_block text_ops
table_is_unfenced = refl

abbrev leak : Finding
leak = record {
  id = codes "F1";
  severity = codes "red";
  status = codes "open";
  waiver_id = none;
  title = codes "leak";
  path = none;
  line = none;
  raised_by = none;
  angle = none;
}

abbrev leaky : FindingsBlock
leaky = record { head_sha = none; findings = leak ∷ [] }

-- A parser that knows one text.
abbrev knows : Text → Option FindingsBlock
knows t = if text_eq t (codes "{-->}") then some leaky else none

abbrev block_text : Text
block_text = codes "report\n<!-- openab-findings {-->} -->"

block_is_read : parse_findings_block knows block_text ≡ some leaky
unfolding parse_findings_block is_valid_finding text_ops
block_is_read = refl

block_example : ((inner : Text) × (knows inner ≡ some leaky)) × All IsValid (leak ∷ [])
block_example = parse_findings_block-IsValid knows block_text block_is_read

abbrev targetless : SessionTarget
targetless = record {
  repo = codes "o/r";
  pr_number = pos 7;
  head_sha = some (codes "main");
  reason = none;
  required_valid_reviewers = none;
}

abbrev unproven : ParsedResult
unproven = record {
  trailer = some (record { decision = codes "approve"; red = none; yellow = none; green = none });
  findings = some leaky;
  source = codes "[[verdict:approve]]";
}

not_verified : (classify_integrity targetless unproven).disposition ≢ codes "verified"
unfolding classify_integrity classify_target classify_reviewed canonical_commit_id text_ops
not_verified h = omega (arith, some_inj 105 118 (ap first? h))

refusal_example :
    (p : ClosingPlan) × (plan_close targetless unproven none (codes "s") false ≡ some p)
    × FailsClosed targetless p
refusal_example = plan_close-FailsClosed targetless unproven none (codes "s") refl not_verified

-- A round whose target requires two reviewers, and of which one was valid.
abbrev of_two : SessionTarget
of_two = record targetless { required_valid_reviewers = some (pos 2) }

abbrev one_reviewer : RuntimeEventEnvelope
one_reviewer = record {
  event_type = codes "session.terminal";
  session_id = some (codes "s");
  reason = codes "normal";
  final_messages = codes "[[verdict:approve]]" ∷ [];
  required_valid_reviewers = some (pos 2);
  valid_reviewers = some (pos 1);
}

no_ask : is_ask of_two ≡ false
unfolding is_ask text_ops
no_ask = refl

gate_example :
    (p : ClosingPlan) × (terminal_plan knows (λ s. some of_two) one_reviewer ≡ some (some p))
    × IsGated of_two
        (parse_final_messages knows one_reviewer.final_messages)
        one_reviewer
        (codes "s")
        p
gate_example =
    terminal_plan-IsGated knows (λ s. some of_two) one_reviewer (codes "s") of_two refl refl refl
      no_ask (inl refl)

gate_refuses : reviewer_gate_passed of_two one_reviewer ≡ false
unfolding reviewer_gate_passed text_ops
gate_refuses = refl

abbrev bots : List Text
bots = codes "chair" ∷ codes "r1" ∷ codes "r2" ∷ codes "r3" ∷ []

abbrev foci : List Text
foci = codes "correctness" ∷ codes "security" ∷ []

seats_example :
    ((assign_angles bots foci).0 ≡ take (suc (assign_angles bots foci).1) bots)
    × ((assign_angles bots foci).1 ≡ min (length foci) (length bots - 1))
seats_example = assign_angles-take bots foci

two_seats : assign_angles bots foci ≡ (
  codes "chair" ∷ codes "r1" ∷ codes "r2" ∷ [],
  2,
  codes "Review focus assignment:\n- r1 → correctness\n- r2 → security",
)
unfolding assign_angles participating deal assignment_lines text_ops
two_seats = refl

-- ===== src/Coordinator/Modes.antt =====
-- src/coordinator.rs and src/plugins/triage/mod.rs: the four coordinators and the table of modes.
pub mod Stages
use openab_control_plane.Prelude.{
  ℕ, suc, Bool, true, false, not, ◌||◌, Option, some, none, List, [], ◌∷◌, if◌then◌else◌, filterb,
  unwrap_or, first?, positionb, get_elem?,
}
use openab_control_plane.Text.{Text, codes, is_text, starts_with, text_eq, trim_start}
use openab_control_plane.Store.{deliberating}
use openab_control_plane.Coordinator.Defs.{Ctx, Action, relay, prompt, close, StructuredVerdict}
use openab_control_plane.Coordinator.Quorum.{
  council_on_done, council_on_done_with_reviewer_rerequest_attempts, quorum_actions,
  parse_structured_verdict,
}

unfoldable pub council_quorum_prompt : Text
council_quorum_prompt =
    codes
      "Quorum reached. Chair, synthesize the final verdict, complete any side effect required by the opening trigger, and only then end your final message with [done]. Do not send [done] before the required side effect succeeds."

unfoldable pub triage_quorum_prompt : Text
triage_quorum_prompt =
    codes
      "Quorum reached. Chair: post the complete triage report NOW as ONE message — it must start with the word TRIAGE, contain the Likely Cause / Evidence / Suggested Next Actions / Confidence & Gaps sections, and end with [done] on its own final line. Do not run gh or any PR commands; there is no PR and no external side effect. The report itself is your done-signal."

unfoldable pub handoff_prompt : Text
handoff_prompt =
    codes "Your turn — continue the review, building on the prior stage's output above."

-- The implementations of the trait.
pub data Coordinator : Type 0 where
  quorum_council triage_council solo pipeline : Coordinator

unfoldable pub kind : Coordinator → Text
kind quorum_council = codes "quorum_council"
kind triage_council = codes "triage_council"
kind solo = codes "solo"
kind pipeline = codes "pipeline"

-- The reviewers start; the chair waits for the quorum.
unfoldable pub council_starters : List Text → Option Text → List Text
council_starters roster chair = filterb (λ bot. not (is_text bot chair)) roster

unfoldable pub pipeline_starters : List Text → List Text
pipeline_starters roster = elim (first? roster) [ none ↦ [] | some bot ↦ bot ∷ [] ]

unfoldable pub starters : Coordinator → List Text → Option Text → List Text
unfolding council_starters pipeline_starters
starters quorum_council roster chair = council_starters roster chair
starters triage_council roster chair = council_starters roster chair
starters solo roster chair = roster
starters pipeline roster chair = pipeline_starters roster

-- The lone bot's done closes the session.
unfoldable pub solo_on_done : Ctx → Text → List Action
solo_on_done cx bot = close deliberating bot (unwrap_or (cx.latest_settled bot) []) ∷ []

-- Each stage hands over to the next; the last one closes.
unfoldable pub pipeline_on_done : Ctx → Text → List Action
pipeline_on_done cx bot = elim (positionb (λ b. text_eq b bot) cx.roster) [
  | none ↦ []
  | some i ↦ elim (get_elem? cx.roster (suc i)) [
    | some next ↦ relay bot next ∷ prompt next handoff_prompt ∷ []
    | none ↦ close deliberating bot (unwrap_or (cx.latest_settled bot) []) ∷ []
  ]
]

unfoldable pub on_done : Coordinator → Ctx → Text → List Action
unfolding council_on_done solo_on_done pipeline_on_done
on_done quorum_council cx bot = council_on_done cx bot council_quorum_prompt false
on_done triage_council cx bot = council_on_done cx bot triage_quorum_prompt false
on_done solo cx bot = solo_on_done cx bot
on_done pipeline cx bot = pipeline_on_done cx bot

-- Solo and pipeline keep the default, which drops the count.
unfoldable pub on_done_with_reviewer_rerequest_attempts : Coordinator → Ctx → Text → ℕ → List Action
unfolding on_done
on_done_with_reviewer_rerequest_attempts quorum_council cx bot attempts =
    council_on_done_with_reviewer_rerequest_attempts cx bot council_quorum_prompt false attempts
on_done_with_reviewer_rerequest_attempts triage_council cx bot attempts =
    council_on_done_with_reviewer_rerequest_attempts cx bot triage_quorum_prompt false attempts
on_done_with_reviewer_rerequest_attempts solo cx bot attempts = on_done solo cx bot
on_done_with_reviewer_rerequest_attempts pipeline cx bot attempts = on_done pipeline cx bot

unfoldable pub on_roster_change : Coordinator → Ctx → List Action
unfolding quorum_actions
on_roster_change quorum_council cx = quorum_actions cx council_quorum_prompt
on_roster_change triage_council cx = quorum_actions cx triage_quorum_prompt
on_roster_change solo cx = []
on_roster_change pipeline cx = []

-- No coordinator rewrites the opening trigger.
unfoldable pub recipient_trigger_text : Coordinator → Text → Text → Text
recipient_trigger_text c recipient text = text

unfoldable pub reaction_counts_as_done : Coordinator → Ctx → Text → Bool
reaction_counts_as_done triage_council cx bot = not (is_text bot cx.chair)
reaction_counts_as_done _ cx bot = true

unfoldable pub accepts_text_done : Coordinator → Ctx → Text → Text → Bool
accepts_text_done triage_council cx bot text =
    not (is_text bot cx.chair) || starts_with (codes "TRIAGE") (trim_start text)
accepts_text_done _ cx bot text = true

-- Only the council reads a trailer.
unfoldable pub structured_verdict : Coordinator → Text → Option StructuredVerdict
unfolding parse_structured_verdict
structured_verdict quorum_council verdict_text = parse_structured_verdict verdict_text
structured_verdict _ verdict_text = none

unfoldable pub reopen_on_client_message : Coordinator → Bool
reopen_on_client_message solo = true
reopen_on_client_message _ = false

unfoldable pub lookup : Text → Option Coordinator
lookup mode =
    if text_eq mode (codes "council")
    then some quorum_council
    else if text_eq mode (codes "triage_council")
    then some triage_council
    else if text_eq mode (codes "solo")
    then some solo
    else if text_eq mode (codes "pipeline")
    then some pipeline
    else none

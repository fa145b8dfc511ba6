-- ===== src/Review/Verdict.antt =====
-- crates/github-pr-controller/src/verdict.rs: reading a closed session's result out of its final
-- messages. `serde_json::from_str` is a parameter.
pub mod Parity
pub mod Findings
use openab_control_plane.Prelude.{
  ℕ, ℤ, pos, negsuc, ◌+◌, Bool, true, false, not, ◌&&◌, ◌||◌, Option, some, none, List, [], ◌∷◌,
  if◌then◌else◌, map, filterb, allb, is_some, unwrap_or, last?, drop, take, is_positive, ◌>>=◌,
  length, flatten,
}
use openab_control_plane.Text.{
  Text, codes, trim, lines, is_empty, split, step_by_two, find, rfind, split_whitespace, split_once,
  parse_i64, text_eq, match_indices, join, contains,
}

pub record VerdictTrailer : Type 0 where
  pub decision : Text
  pub red : Option ℤ
  pub yellow : Option ℤ
  pub green : Option ℤ

-- A positive red or yellow count.
unfoldable pub blocking : VerdictTrailer → Bool
blocking t = is_positive (unwrap_or t.red (pos 0)) || is_positive (unwrap_or t.yellow (pos 0))

pub record Finding : Type 0 where
  pub id : Text
  pub severity : Text
  pub status : Text
  pub waiver_id : Option Text
  pub title : Text
  pub path : Option Text
  pub line : Option ℤ
  pub raised_by : Option Text
  pub angle : Option Text

pub record FindingsBlock : Type 0 where
  pub head_sha : Option Text
  pub findings : List Finding

pub record ParsedResult : Type 0 where
  pub trailer : Option VerdictTrailer
  pub findings : Option FindingsBlock
  pub source : Text

unfoldable pub unfenced_lines : Text → List Text
unfenced_lines text =
    let pieces = step_by_two (split (codes "```") text) in
    filterb (λ line. not (is_empty line)) (map trim (flatten (map lines pieces)))

-- `value.parse().ok().filter(|n| *n >= 0)`.
abbrev parse_count : Text → Option ℤ
parse_count value = elim (parse_i64 value) [
  | none ↦ none
  | some n ↦ elim n [ pos k ↦ some (pos k) | negsuc k ↦ none ]
]

abbrev Counts : Type 0
Counts = Option ℤ × Option ℤ × Option ℤ

-- The arms of the match on the key; the counts are red, yellow and green.
set_count : Text → ℤ → Counts → Option Counts
set_count key n (red, yellow, green) =
    if text_eq key (codes "r")
    then some (some n, yellow, green)
    else if text_eq key (codes "y")
    then some (red, some n, green)
    else if text_eq key (codes "g")
    then some (red, yellow, some n)
    else none

-- The loop over the parts behind the decision.
count_parts : List Text → Counts → Option Counts
unfolding set_count
count_parts [] counts = some counts
count_parts (part ∷ parts) counts = do
  (key, value) ← split_once b'=' part
  n ← parse_count value
  counts' ← set_count key n counts
  count_parts parts counts'

-- What the counts say of the decision, if anything.
derived : Option ℤ → Option ℤ → Option Text
derived red yellow =
    if is_positive (unwrap_or red (pos 0)) || is_positive (unwrap_or yellow (pos 0))
    then some (codes "request_changes")
    else if is_some red && is_some yellow
    then some (codes "approve")
    else none

-- The words between the brackets.
read_words : List Text → Option VerdictTrailer
unfolding count_parts derived
read_words [] = none
read_words (decision ∷ parts) =
    if not (text_eq decision (codes "approve")) && not (text_eq decision (codes "request_changes"))
    then none
    else do
      (red, yellow, green) ← count_parts parts (none, none, none)
      some (record {
        decision = unwrap_or (derived red yellow) decision;
        red = red;
        yellow = yellow;
        green = green;
      })

unfoldable pub parse_verdict_trailer : Text → Option VerdictTrailer
unfolding unfenced_lines read_words
parse_verdict_trailer text = do
  line ← last? (unfenced_lines text)
  start ← rfind (codes "[[verdict:") line
  let rest = drop (start + length (codes "[[verdict:")) line
  end ← find (codes "]]") rest
  read_words (split_whitespace (take end rest))

-- All or nothing: an unknown severity or status, or a blank id or title, refuses the block.
unfoldable pub is_valid_finding : Finding → Bool
is_valid_finding f =
    contains f.severity (codes "red" ∷ codes "yellow" ∷ codes "green" ∷ [])
    && contains f.status (codes "open" ∷ codes "resolved" ∷ codes "dismissed" ∷ codes "waived" ∷ [])
    && not (is_empty (trim f.id))
    && not (is_empty (trim f.title))

module _ (from_str : Text → Option FindingsBlock) where
  -- The first end at which the text parses.
  first_parse : Text → List ℕ → Option FindingsBlock
  first_parse rest [] = none
  first_parse rest (end ∷ ends) = elim (from_str (trim (take end rest))) [
    | some block ↦ some block
    | none ↦ first_parse rest ends
  ]

  unfoldable pub parse_findings_block : Text → Option FindingsBlock
  unfolding first_parse is_valid_finding
  parse_findings_block text = do
    start ← rfind (codes "<!-- openab-findings") text
    let rest = drop (start + length (codes "<!-- openab-findings")) text
    block ← first_parse rest (match_indices (codes "-->") rest)
    if allb is_valid_finding block.findings then some block else none

  -- The trailer is read from the last message, the findings from all of them joined.
  unfoldable pub parse_final_messages : List Text → ParsedResult
  unfolding parse_findings_block parse_verdict_trailer
  parse_final_messages messages = elim (last? messages) [
    | none ↦ record { trailer = none; findings = none; source = [] }
    | some closing ↦ record {
      trailer = parse_verdict_trailer closing;
      findings = parse_findings_block (join (codes "\n") messages);
      source = join (codes "\n") messages;
    }
  ]

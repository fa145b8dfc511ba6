-- ===== src/Council.antt =====
-- src/plugins/council/mod.rs: when a settled turn counts as a report, and the standing roster.
pub mod Verdict
pub mod Roster
use openab_control_plane.Prelude.{
  ℕ, Bool, true, false, not, ◌&&◌, ◌||◌, Option, some, none, List, [], ◌∷◌, leb, if◌then◌else◌,
  length, map, map_some, filterb, is_some, unwrap_or,
}
use openab_control_plane.Text.{
  Text, codes, trim, lines, first_or_empty, to_ascii_lowercase, starts_with, includes, is_empty,
  split,
}
use openab_control_plane.TurnFailure.{classify_legacy_turn_failure}

abbrev pub min_report_chars : ℕ
min_report_chars = 20

-- A short turn that only repeats a tool's output or a JSON error.
unfoldable pub is_bare_tool_echo : Text → Bool
is_bare_tool_echo text =
    let first_line = trim (first_or_empty (lines text)) in
    let lower = to_ascii_lowercase text in
    let first_lower = trim (first_or_empty (lines lower)) in
    let tool_marker =
      starts_with (codes "tool result") first_lower
      || starts_with (codes "tool output") first_lower
      || starts_with (codes "tool_result") first_lower
      || starts_with (codes "<tool_result") first_lower
      || starts_with (codes "{\"tool_result\"") first_lower
      || starts_with (codes "{\"type\":\"tool_result\"") first_lower in
    let json_error =
      starts_with (codes "{") first_line
      && includes (codes "\"error\"") lower
      && (includes (codes "jsonrpc") lower || includes (codes "\"code\"") lower) in
    (tool_marker || json_error) && leb (length (lines text)) 4

unfoldable pub report_delivered : Text → Bool
unfolding is_bare_tool_echo classify_legacy_turn_failure
report_delivered t =
    let text = trim t in
    leb min_report_chars (length text)
    && (not (is_some (classify_legacy_turn_failure text)) && not (is_bare_tool_echo text))

pub record CouncilConfig : Type 0 where
  pub council_roster : List Text

abbrev pub default_council_config : CouncilConfig
default_council_config = record {
  council_roster = codes "chair" ∷ codes "rev1" ∷ codes "rev2" ∷ [];
}

unfoldable pub csv_value : Option Text → Option (List Text)
csv_value value =
    map_some (λ v. filterb (λ item. not (is_empty item)) (map trim (split (codes ",") v))) value

-- An empty roster is refused like a missing one.
abbrev pub nonempty_roster : List Text → Option (List Text)
nonempty_roster [] = none
nonempty_roster (bot ∷ bots) = some (bot ∷ bots)

abbrev pub filter_nonempty : Option (List Text) → Option (List Text)
filter_nonempty none = none
filter_nonempty (some roster) = nonempty_roster roster

unfoldable pub from_values : (Text → Option Text) → CouncilConfig
unfolding csv_value
from_values lookup = record {
  council_roster =
      unwrap_or (filter_nonempty (csv_value (lookup (codes "OABCP_COUNCIL_ROSTER"))))
        default_council_config.council_roster;
}

-- The roster kept in the store wins over the configured one; the text says which it is.
unfoldable pub runtime_council_roster : Option (List Text) → CouncilConfig → List Text × Text
runtime_council_roster (some roster) config = (roster, codes "override")
runtime_council_roster none config = (config.council_roster, codes "config")

-- ===== src/TurnFailure.antt =====
-- src/turn_failure.rs: failures that arrive as message text.
use openab_control_plane.Prelude.{Bool, ◌&&◌, ◌||◌, Option, some, none, leb, if◌then◌else◌}
use openab_control_plane.Text.{
  Text, codes, trim, trim_start, lines, first_or_empty, to_ascii_lowercase, starts_with, includes,
  is_empty, len,
}

pub data LegacyTurnFailureKind : Type 0 where
  subscription_disabled protocol : LegacyTurnFailureKind

abbrev pub claude_subscription_disabled : Text
claude_subscription_disabled =
    codes "your organization has disabled claude subscription access for claude code"

-- The first line opens with U+26A0 and names an internal error.
unfoldable pub starts_with_runtime_error_banner : Text → Bool
starts_with_runtime_error_banner content =
    let first_line = trim (first_or_empty (lines (trim_start content))) in
    let first_lower = to_ascii_lowercase first_line in
    starts_with (codes "⚠") first_line
    && (includes (codes "-32603") first_lower || includes (codes "internal error") first_lower)

unfoldable pub classify_legacy_turn_failure : Text → Option LegacyTurnFailureKind
unfolding starts_with_runtime_error_banner
classify_legacy_turn_failure text =
    let content = trim text in
    let lower = to_ascii_lowercase content in
    let runtime_banner = starts_with_runtime_error_banner content in
    let error_shaped =
      leb (len content) 200
      || includes (codes "jsonrpc") lower
      || includes (codes "\"code\"") lower in
    if is_empty content
    then none
    else if runtime_banner && includes claude_subscription_disabled lower
    then some subscription_disabled
    else if runtime_banner
    then some protocol
    else if error_shaped
        && (includes (codes "-32603") content || includes (codes "internal error") lower)
    then some protocol
    else none

-- ===== src/Review/Closing/Integrity.antt =====
-- crates/github-pr-controller/src/closing.rs: which commit a verdict is about.
use openab_control_plane.Prelude.{
  ℕ, Bool, true, false, not, ◌&&◌, ◌||◌, Option, some, none, leb, ◌==◌, allb, if◌then◌else◌,
}
use openab_control_plane.Text.{Text, codes, len, to_ascii_lowercase, text_eq, is_empty}
use openab_control_plane.Review.Verdict.{FindingsBlock, ParsedResult}
use openab_control_plane.Review.Rows.{SessionTarget}

unfoldable pub is_hexdigit : ℕ → Bool
is_hexdigit c =
    (leb b'0' c && leb c b'9') || (leb b'a' c && leb c b'f') || (leb b'A' c && leb c b'F')

-- A complete object id of forty hexadecimal digits, in lower case.
unfoldable pub canonical_commit_id : Text → Option Text
canonical_commit_id value =
    if len value == 40 && allb is_hexdigit value then some (to_ascii_lowercase value) else none

pub record IntegrityDecision : Type 0 where
  pub disposition : Text
  pub target_commit_id : Option Text
  pub verified_commit_id : Option Text
  pub reviewed_sha : Option Text

abbrev withheld : Text → Option Text → Option Text → IntegrityDecision
withheld disposition target reviewed = record {
  disposition = disposition;
  target_commit_id = target;
  verified_commit_id = none;
  reviewed_sha = reviewed;
}

-- The claimed commit against the target's, which is known to be canonical.
unfoldable pub classify_reviewed : Text → Option Text → IntegrityDecision
classify_reviewed target none = withheld (codes "missing_reviewed_sha") (some target) none
classify_reviewed target (some raw) = elim (is_empty raw) [
  | true ↦ withheld (codes "missing_reviewed_sha") (some target) (some raw)
  | false ↦ elim (canonical_commit_id raw) [
    | none ↦ withheld (codes "invalid_reviewed_sha") (some target) (some raw)
    | some reviewed ↦
        if not (text_eq reviewed target)
        then withheld (codes "reviewed_sha_mismatch") (some target) (some raw)
        else record {
          disposition = codes "verified";
          target_commit_id = some reviewed;
          verified_commit_id = some reviewed;
          reviewed_sha = some reviewed;
        }
  ]
]

-- A missing findings block claims no commit.
abbrev pub claimed_sha : Option FindingsBlock → Option Text
claimed_sha none = none
claimed_sha (some block) = block.head_sha

unfoldable pub classify_target : Option Text → Option Text → IntegrityDecision
classify_target none claimed = withheld (codes "missing_target") none none
classify_target (some raw) claimed = elim (is_empty raw) [
  | true ↦ withheld (codes "missing_target") none (some raw)
  | false ↦ elim (canonical_commit_id raw) [
    | none ↦ withheld (codes "invalid_target") none (some raw)
    | some target ↦ classify_reviewed target claimed
  ]
]

unfoldable pub classify_integrity : SessionTarget → ParsedResult → IntegrityDecision
classify_integrity target parsed = classify_target target.head_sha (claimed_sha parsed.findings)

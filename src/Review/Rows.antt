-- ===== src/Review/Rows.antt =====
-- crates/github-pr-controller/src/store.rs: the rows that the review modules read and write, and the
-- JSON payloads of queued writes. An object of fixed shape is a constructor; `Value::Null` is `none`.
use openab_control_plane.Prelude.{ℤ, Option}
use openab_control_plane.Text.{Text}

pub record SessionTarget : Type 0 where
  pub repo : Text
  pub pr_number : ℤ
  pub head_sha : Option Text
  pub reason : Option Text
  pub required_valid_reviewers : Option ℤ

pub record ReviewFinding : Type 0 where
  pub stable_id : Text
  pub severity : Text
  pub status : Text
  pub title : Text
  pub path : Option Text
  pub line : Option ℤ
  pub raised_by : Option Text
  pub angle : Option Text

pub record ReviewFindingRow : Type 0 where
  pub id : ℤ
  pub session_id : Text
  pub repo : Option Text
  pub pr_number : Option ℤ
  pub stable_id : Text
  pub severity : Text
  pub status : Text
  pub title : Text
  pub path : Option Text
  pub line : Option ℤ
  pub raised_by : Option Text
  pub angle : Option Text
  pub head_sha : Option Text
  pub created_at : ℤ
  pub decided_by : Option Text
  pub decided_reason : Option Text
  pub decided_at : Option ℤ
  pub waiver_id : Option Text

pub record ReviewWaiver : Type 0 where
  pub id : Text
  pub repo : Text
  pub path_class : Option Text
  pub text : Text
  pub origin_pr : Option Text
  pub created_by : Text
  pub created_at : ℤ
  pub expires_at : ℤ
  pub revoked_at : Option ℤ
  pub fired_count : ℤ
  pub last_fired_at : Option ℤ
  pub source : Text
  pub renewal_count : ℤ

pub data Payload : Type 0 where
  -- repo, pr_number, comment_id, body
  comment_payload : Text → ℤ → Option ℤ → Text → Payload
  -- repo, sha, commit_id, state, context, description
  status_payload : Text → Text → Text → Text → Text → Text → Payload
  -- repo, pr_number, event, commit_id, body
  review_payload : Text → ℤ → Text → Text → Text → Payload

-- The kind of an outbox row and its payload.
abbrev pub Write : Type 0
Write = Text × Payload

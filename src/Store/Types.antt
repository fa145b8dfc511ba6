-- ===== src/Store/Types.antt =====
-- src/store.rs: the life cycle states of a session and its row.
use openab_control_plane.Prelude.{ℤ, Option, Bool, true, false, if◌then◌else◌}
use openab_control_plane.Text.{Text, codes, text_eq}

pub data SessionState : Type 0 where
  open_state deliberating quorum closed aborted : SessionState

-- The text of a state in the column `state`.
unfoldable pub as_str : SessionState → Text
as_str open_state = codes "open"
as_str deliberating = codes "deliberating"
as_str quorum = codes "quorum"
as_str closed = codes "closed"
as_str aborted = codes "aborted"

-- Any other text stands for `Open`.
unfoldable pub from_db_str : Text → SessionState
from_db_str s =
    if text_eq s (codes "deliberating")
    then deliberating
    else if text_eq s (codes "quorum")
    then quorum
    else if text_eq s (codes "closed")
    then closed
    else if text_eq s (codes "aborted")
    then aborted
    else open_state

-- `a == b` on states.
unfoldable pub state_eq : SessionState → SessionState → Bool
state_eq open_state open_state = true
state_eq deliberating deliberating = true
state_eq quorum quorum = true
state_eq closed closed = true
state_eq aborted aborted = true
state_eq _ _ = false

-- The row of a session; `state` is the text of the column, and `result_message_ids` a JSON array.
pub record Session : Type 0 where
  pub id : Text
  pub title : Text
  pub state : Text
  pub trigger_ref : Option Text
  pub trigger_fingerprint : Option Text
  pub quorum_n : ℤ
  pub chair_bot : Option Text
  pub created_at : ℤ
  pub closed_at : Option ℤ
  pub mode : Text
  pub decision : Option Text
  pub findings_red : Option ℤ
  pub findings_yellow : Option ℤ
  pub findings_green : Option ℤ
  pub result_author_id : Option Text
  pub result_message_ids : Option Text

-- The row of a message; `author_kind` is bot, client, system or status.
pub record Message : Type 0 where
  pub id : Text
  pub session_id : Text
  pub thread_id : Option Text
  pub author_kind : Text
  pub author_id : Option Text
  pub audience : Option Text
  pub content : Text
  pub reply_to : Option Text
  pub created_at : ℤ

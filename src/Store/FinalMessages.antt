-- ===== src/Store/FinalMessages.antt =====
-- src/store.rs: the cap on the final messages that the terminal event of a session carries.
pub mod Capped
use openab_control_plane.Prelude.{
  ℕ, zero, suc, ◌+◌, ◌-◌, ◌*◌, ltb, Bool, true, false, ◌||◌, List, [], ◌∷◌, if◌then◌else◌,
}
use openab_control_plane.Text.{Text, utf8_len, len}

abbrev pub final_messages_max_bytes : ℕ
final_messages_max_bytes = 256 * 1024

-- The sum of the lengths in bytes.
unfoldable pub total_len : List Text → ℕ
total_len [] = 0
total_len (m ∷ ms) = len m + total_len ms

-- The text from the first character boundary that is at least `want` bytes in.
unfoldable pub from_boundary : ℕ → Text → Text
from_boundary zero t = t
from_boundary (suc want) [] = []
from_boundary (suc want) (c ∷ t) = from_boundary (suc want - utf8_len c) t

-- The loop: the oldest part goes while the rest is too long, but never the last part.
unfoldable pub drop_oldest : ℕ → List Text → List Text × Bool
drop_oldest total [] = ([], false)
drop_oldest total (m ∷ []) = (m ∷ [], false)
drop_oldest total (m ∷ n ∷ ms) =
    let rest = drop_oldest (total - len m) (n ∷ ms) in
    if ltb final_messages_max_bytes total then (rest.0, true) else (m ∷ n ∷ ms, false)

-- A last part that is too long on its own keeps its end.
unfoldable pub clip_last : List Text → List Text × Bool
clip_last [] = ([], false)
clip_last (m ∷ []) =
    if ltb final_messages_max_bytes (len m)
    then (from_boundary (len m - final_messages_max_bytes) m ∷ [], true)
    else (m ∷ [], false)
clip_last (m ∷ n ∷ ms) = let rest = clip_last (n ∷ ms) in (m ∷ rest.0, rest.1)

-- What is kept, and whether anything was cut.
unfoldable pub kept_final_messages : List Text → List Text × Bool
unfolding drop_oldest clip_last
kept_final_messages final_messages =
    let dropped = drop_oldest (total_len final_messages) final_messages in
    let clipped = clip_last dropped.0 in (clipped.0, dropped.1 || clipped.1)

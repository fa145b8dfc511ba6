-- ===== src/Council/Verdict.antt =====
-- src/plugins/council/verdict.rs, and `unfenced_lines` of src/orchestrator.rs: the kernel's reading
-- of the chair's verdict trailer.
pub mod Rule
use openab_control_plane.Prelude.{
  ℕ, ℤ, pos, negsuc, ◌+◌, Bool, true, false, not, ◌&&◌, ◌||◌, Option, some, none, List, [], ◌∷◌,
  if◌then◌else◌, map, filterb, is_some, unwrap_or, last?, drop, take, is_positive, ◌>>=◌, length,
  leb_ℤ, flatten,
}
use openab_control_plane.Text.{
  Text, codes, trim, lines, is_empty, split, step_by_two, find, rfind, split_whitespace, split_once,
  parse_i64, text_eq,
}

pub record VerdictTrailer : Type 0 where
  pub decision : Text
  pub red : Option ℤ
  pub yellow : Option ℤ
  pub green : Option ℤ

-- The pieces outside of fences are the first, the third and so on.
unfoldable pub unfenced_lines : Text → List Text
unfenced_lines text =
    let pieces = step_by_two (split (codes "```") text) in
    filterb (λ line. not (is_empty line)) (map trim (flatten (map lines pieces)))

abbrev pub approve : Text
approve = codes "approve"

abbrev pub request_changes : Text
request_changes = codes "request_changes"

-- `filter(|n| *n >= 0)`.
abbrev pub nonnegative : Option ℤ → Option ℤ
nonnegative none = none
nonnegative (some (pos n)) = some (pos n)
nonnegative (some (negsuc n)) = none

-- One `key=value` part, put into the counts read so far.
unfoldable pub read_count : Text → ℤ → VerdictTrailer → Option VerdictTrailer
read_count key n t =
    if text_eq key (codes "r")
    then some (record t { red = some n })
    else if text_eq key (codes "y")
    then some (record t { yellow = some n })
    else if text_eq key (codes "g")
    then some (record t { green = some n })
    else none

-- The loop over the parts behind the decision.
unfoldable pub read_counts : List Text → VerdictTrailer → Option VerdictTrailer
unfolding read_count
read_counts [] t = some t
read_counts (part ∷ parts) t = do
  (key, value) ← split_once b'=' part
  n ← nonnegative (parse_i64 value)
  t' ← read_count key n t
  read_counts parts t'

-- The counts decide where they can: a positive one blocks, and both together may clear.
unfoldable pub derive_decision : VerdictTrailer → VerdictTrailer
derive_decision t =
    let blocking =
      is_positive (unwrap_or t.red (pos 0)) || is_positive (unwrap_or t.yellow (pos 0)) in
    let complete = is_some t.red && is_some t.yellow in
    if blocking
    then record t { decision = request_changes }
    else if complete
    then record t { decision = approve }
    else t

-- The parts of the trailer, split at white space.
unfoldable pub read_parts : List Text → Option VerdictTrailer
unfolding read_counts derive_decision
read_parts [] = none
read_parts (decision ∷ parts) =
    if not (text_eq decision approve) && not (text_eq decision request_changes) then none else do
      t ←
          read_counts parts
            (record { decision = decision; red = none; yellow = none; green = none })
      some (derive_decision t)

unfoldable pub parse_verdict_trailer_line : Text → Option VerdictTrailer
unfolding read_parts
parse_verdict_trailer_line line = do
  start ← rfind (codes "[[verdict:") line
  let rest = drop (start + length (codes "[[verdict:")) line
  end ← find (codes "]]") rest
  read_parts (split_whitespace (take end rest))

-- Only the last unfenced line can hold the trailer.
unfoldable pub parse_verdict_trailer : Text → Option VerdictTrailer
unfolding unfenced_lines parse_verdict_trailer_line
parse_verdict_trailer text = do line ← last? (unfenced_lines text); parse_verdict_trailer_line line

unfoldable pub trailer : Text → Option VerdictTrailer
unfolding parse_verdict_trailer
trailer = parse_verdict_trailer

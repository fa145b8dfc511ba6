-- ===== src/Orchestrator.antt =====
-- src/orchestrator.rs: which messages are a bot's result, and which texts say that it is done.
pub mod Span
use openab_control_plane.Prelude.{
  Bool, true, false, not, ◌&&◌, ◌||◌, Option, some, none, List, [], ◌∷◌, if◌then◌else◌, map,
  map_some, reverse, rfindb,
}
use openab_control_plane.Text.{Text, codes, text_eq, is_text, is_empty, trim, ends_with}
use openab_control_plane.Store.{Message}
use openab_control_plane.Session.{done_emoji}

-- Neither blank nor the placeholder of a streamed message.
unfoldable pub is_settled_content : Text → Bool
is_settled_content text = not (is_empty (trim text)) && not (text_eq (trim text) (codes "…"))

unfoldable pub is_done_signal : Text → Bool
is_done_signal text = text_eq (trim text) done_emoji || ends_with (codes "[done]") (trim text)

unfoldable pub is_latest : Text → Message → Bool
is_latest bot m = is_text bot m.author_id && is_settled_content m.content

-- The messages of the session, in the order of the store.
unfoldable pub latest_settled : List Message → Text → Option Text
unfolding is_latest
latest_settled messages bot = map_some (λ m. m.content) (rfindb (is_latest bot) messages)

unfoldable pub is_author : Text → Message → Bool
is_author author m = text_eq m.author_kind (codes "bot") && is_text author m.author_id

-- `matches!(m.author_kind.as_str(), "system" | "status")`.
unfoldable pub is_transparent : Message → Bool
is_transparent m = text_eq m.author_kind (codes "system") || text_eq m.author_kind (codes "status")

-- The loop over the older messages, newest first; its result is newest first too.
unfoldable pub span_behind : Text → List Message → List Message
unfolding is_transparent
span_behind author [] = []
span_behind author (m ∷ older) =
    let rest = span_behind author older in
    if is_transparent m
    then rest
    else if not (is_author author m)
    then []
    else if is_settled_content m.content
    then m ∷ rest
    else rest

-- From the newest message back to the last settled one of the author, and from there on the loop.
unfoldable pub span_newest_first : Text → List Message → List Message
unfolding span_behind
span_newest_first author [] = []
span_newest_first author (m ∷ older) =
    let rest = span_newest_first author older in
    if is_author author m && is_settled_content m.content
    then m ∷ span_behind author older
    else rest

-- The rows of the span, oldest first, of which the source keeps the ids.
unfoldable pub settled_span : List Message → Text → List Message
unfolding span_newest_first
settled_span messages author = reverse (span_newest_first author (reverse messages))

unfoldable pub settled_result_span : List Message → Text → List Text
unfolding settled_span
settled_result_span messages author = map (λ m. m.id) (settled_span messages author)

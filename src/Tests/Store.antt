-- ===== src/Tests/Store.antt =====
-- The theorems on src/store.rs and src/orchestrator.rs, applied to a short session.
use openab_control_plane.Prelude.{
  ◌≡◌, ◌≤◌, ◌<◌, refl, pos, ◌⊎◌, none, some, List, [], ◌∷◌, true, false, All,
}
use openab_control_plane.Text.{Text, codes, text_ops}
use openab_control_plane.Store.{Message}
use openab_control_plane.Store.FinalMessages.{
  kept_final_messages, final_messages_max_bytes, total_len,
}
use openab_control_plane.Store.FinalMessages.Capped.{
  kept_final_messages-Capped, kept_final_messages-whole, Capped,
}
use openab_control_plane.Orchestrator.{
  settled_span, settled_result_span, is_author, is_settled_content, is_done_signal,
}
use openab_control_plane.Orchestrator.Span.{settled_span-IsLastTurn, IsLastTurn, is_own}

abbrev finals : List Text
finals = codes "report" ∷ codes "[[verdict:approve]]" ∷ []

finals_example : Capped (kept_final_messages finals).0 finals
finals_example = kept_final_messages-Capped finals

whole_example :
    ((total_len finals ≤ final_messages_max_bytes) × (kept_final_messages finals ≡ (finals, false)))
    ⊎ ((final_messages_max_bytes < total_len finals) × ((kept_final_messages finals).1 ≡ true))
whole_example = kept_final_messages-whole finals

abbrev said : Text → Text → Text → Message
said id by content = record {
  id = id;
  session_id = codes "s";
  thread_id = none;
  author_kind = codes "bot";
  author_id = some by;
  audience = none;
  content = content;
  reply_to = none;
  created_at = pos 0;
}

abbrev transcript : List Message
transcript =
    said (codes "m1") (codes "r") (codes "report")
    ∷ said (codes "m2") (codes "c") (codes "part one")
    ∷ record (said (codes "m3") (codes "c") (codes "go on")) {
      author_kind = codes "system";
      author_id = none;
    }
    ∷ said (codes "m4") (codes "c") (codes "part two")
    ∷ said (codes "m5") (codes "c") (codes "…")
    ∷ []

span_example :
    (All (λ x. is_own (codes "c") x ≡ false) transcript
      × (settled_span transcript (codes "c") ≡ []))
    ⊎ IsLastTurn transcript (codes "c")
span_example = settled_span-IsLastTurn transcript (codes "c")

two_parts : settled_result_span transcript (codes "c") ≡ codes "m2" ∷ codes "m4" ∷ []
unfolding settled_result_span is_settled_content is_author text_ops
two_parts = refl

done_at_the_end : is_done_signal (codes " all good [done]\n") ≡ true
unfolding is_done_signal text_ops
done_at_the_end = refl

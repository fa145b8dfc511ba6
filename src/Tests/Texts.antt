-- ===== src/Tests/Texts.antt =====
-- The texts that the repository's own tests feed to the parsers.
use openab_control_plane.Prelude.{◌≡◌, refl, some, none, pos, negsuc}
use openab_control_plane.Text.{Text, codes, text_ops, parse_i64, show_int}
use openab_control_plane.Review.Deciding.{upsert_waived_section}
use openab_control_plane.Council.Verdict.{parse_verdict_trailer}
use openab_control_plane.TurnFailure.{classify_legacy_turn_failure, protocol}

final_line_wins :
    parse_verdict_trailer
      (codes "report\n```\n[[verdict:approve]]\n```\n[[verdict:approve r=1 y=0 g=2]]\n")
    ≡ some (record {
      decision = codes "request_changes";
      red = some (pos 1);
      yellow = some (pos 0);
      green = some (pos 2);
    })
unfolding parse_verdict_trailer text_ops parse_i64
final_line_wins = refl

open_fence_hides : parse_verdict_trailer (codes "report\n```\n[[verdict:approve]]\n") ≡ none
unfolding parse_verdict_trailer text_ops parse_i64
open_fence_hides = refl

short_internal_error : classify_legacy_turn_failure (codes " Internal error\n") ≡ some protocol
unfolding classify_legacy_turn_failure text_ops
short_internal_error = refl

printed_integers : show_int (negsuc 41) ≡ codes "-42"
unfolding show_int
printed_integers = refl

parsed_integers : parse_i64 (codes "9223372036854775808") ≡ none
unfolding parse_i64
parsed_integers = refl

abbrev unclosed : Text
unclosed = codes "<!-- openab-waived-start --> kept"

abbrev section : Text
section = codes "<!-- openab-waived-start -->F1<!-- openab-waived-end -->"

-- A second update of a body with an unclosed mark cuts what the first one kept.
kept_once :
    upsert_waived_section unclosed section
    ≡ codes
        "<!-- openab-waived-start --> kept\n\n<!-- openab-waived-start -->F1<!-- openab-waived-end -->"
unfolding upsert_waived_section text_ops
kept_once = refl

cut_later : upsert_waived_section (upsert_waived_section unclosed section) section ≡ section
unfolding upsert_waived_section text_ops
cut_later = refl

-- ===== src/Review/Deciding/Texts.antt =====
-- crates/github-pr-controller/src/deciding.rs: the replies, and the texts of earlier judgements.
use openab_control_plane.Prelude.{
  ℕ, ◌+◌, ltb, leb, Bool, ◌&&◌, ◌||◌, Option, some, none, List, [], ◌∷◌, ◌++◌, if◌then◌else◌,
  filterb, length, is_some, unwrap_or, map, map_some, take, drop, flatten,
}
use openab_control_plane.Text.{
  Text, codes, text_eq, split_whitespace, split, join, find, rfind, trim_end,
}
use openab_control_plane.Review.Rows.{ReviewFindingRow}

unfoldable pub fault : Text → Text
fault detail =
    detail
    ++ codes
        "\n\nThis is a controller fault, not yours — the command was understood and nothing was changed. Trying again is safe."

unfoldable pub usage_hint : Text → Text
usage_hint bot_handle =
    codes "\n\n---\nUsage: `@"
    ++ (bot_handle
        ++ (codes " dismiss F<n> <why it is not a defect>` · `@"
            ++ (bot_handle
                ++ (codes " waive F<n> <why we accept this defect>` · `@"
                    ++ (bot_handle
                        ++ (codes " reopen F<n>` · `@"
                            ++ (bot_handle
                                ++ (codes " review <notes>` to re-run the council · `@"
                                    ++ (bot_handle ++ codes " <question>` to ask.")))))))))

-- Control characters, of the general category Cc.
unfoldable pub is_control : ℕ → Bool
is_control c = leb c 0x1f || (leb 0x7f c && leb c 0x9f)

unfoldable pub replace : Text → Text → Text → Text
replace pattern by text = join by (split pattern text)

-- One printable line of at most `max` characters, and an ellipsis if it was cut.
unfoldable pub flat_line : Text → Text
flat_line raw =
    replace (codes "=====") (codes "-")
      (join (codes " ") (split_whitespace (map (λ c. if is_control c then 0x20 else c) raw)))

unfoldable pub bound : Text → ℕ → Text
bound raw max =
    if leb (length (flat_line raw)) max
    then flat_line raw
    else take max (flat_line raw) ++ codes "…"

-- What the chair is told of the findings that the author dismissed.
abbrev is_dismissed : ReviewFindingRow → Bool
is_dismissed row = text_eq row.status (codes "dismissed") && is_some row.decided_by

unfoldable pub dismissed_line : ReviewFindingRow → Text
dismissed_line row =
    let where_ =
      unwrap_or (map_some (λ path. codes " [" ++ (bound path 120 ++ codes "]")) row.path) [] in
    codes "- "
    ++ (row.stable_id
        ++ (codes " \""
            ++ (bound row.title 80
                ++ (codes "\""
                    ++ (where_
                        ++ (codes " — dismissed by @"
                            ++ (unwrap_or row.decided_by (codes "?")
                                ++ (codes ": \""
                                    ++ (bound (unwrap_or row.decided_reason []) 300
                                        ++ codes "\"\n")))))))))

unfoldable pub dismissed_block : List ReviewFindingRow → Option Text
unfolding dismissed_line
dismissed_block findings = elim (filterb is_dismissed findings) [
  | [] ↦ none
  | row ∷ rows ↦ some (
      codes
        "\n\n===== AUTHOR-DISMISSED FINDINGS (ADR 038) =====\nOn an earlier round of this pull request the author judged these findings not to be defects. This is the author's claim, not a settled fact: weigh the argument. If it does not hold, raise the finding again and say why it does not hold. A dismissal informs you; it does not bind you.\n"
      ++ (flatten (map dismissed_line (row ∷ rows))
          ++ codes "===== END AUTHOR-DISMISSED FINDINGS =====\n"))
]

abbrev pub waived_section_start : Text
waived_section_start = codes "<!-- openab-waived-start -->"

abbrev pub waived_section_end : Text
waived_section_end = codes "<!-- openab-waived-end -->"

-- The section of the comment is replaced, or appended to it.
unfoldable pub upsert_waived_section : Text → Text → Text
upsert_waived_section body section =
    let appended = trim_end body ++ (codes "\n\n" ++ section) in
    elim (find waived_section_start body) [
      | none ↦ appended
      | some start ↦ elim (rfind waived_section_end body) [
        | none ↦ appended
        | some end ↦
            if ltb start end
            then take start body ++ (section ++ drop (end + length waived_section_end) body)
            else appended
      ]
    ]

-- ===== src/Review/Closing/Bodies.antt =====
-- crates/github-pr-controller/src/closing.rs: the texts that are posted.
use openab_control_plane.Prelude.{
  ℕ, zero, suc, ◌+◌, ℤ, pos, Bool, not, ◌&&◌, ◌||◌, Option, some, none, List, [], ◌∷◌, ◌++◌,
  if◌then◌else◌, unwrap_or, map_some, take, drop, filterb, anyb, allb, positionb, skip_while,
  reverse, length, ◌>>=◌,
}
use openab_control_plane.Text.{
  Text, codes, trim, trim_start, trim_end, lines, is_empty, text_eq, starts_with, includes, find,
  rfind, join, to_ascii_lowercase, show_int,
}
use openab_control_plane.Review.Verdict.{VerdictTrailer, ParsedResult, blocking}

-- The mark by which a replay finds its own earlier write.
unfoldable pub round_marker : Text → Text
round_marker session_id = codes "<!-- openab-round:" ++ (session_id ++ codes " -->")

unfoldable pub open_marker : Text → Text
open_marker session_id = codes "<!-- openab-round-open:" ++ (session_id ++ codes " -->")

abbrev pub or_zero : Option ℤ → ℤ
or_zero n = unwrap_or n (pos 0)

abbrev pub blocks : VerdictTrailer → Bool
blocks t = blocking t || text_eq t.decision (codes "request_changes")

unfoldable pub status_state : Option VerdictTrailer → Text
status_state none = codes "error"
status_state (some t) = if blocks t then codes "failure" else codes "success"

unfoldable pub status_description : Option VerdictTrailer → Text
status_description none = codes "council closed without a parseable verdict"
status_description (some t) =
    t.decision
    ++ (codes " · red "
        ++ (show_int (or_zero t.red)
            ++ (codes " · yellow "
                ++ (show_int (or_zero t.yellow)
                    ++ (codes " · green " ++ show_int (or_zero t.green))))))

unfoldable pub review_body : VerdictTrailer → Option Text → Text
review_body t reviewed_sha =
    let at =
      unwrap_or (map_some (λ sha. codes " Reviewed at " ++ (sha ++ codes ".")) reviewed_sha) [] in
    codes "Council "
    ++ (t.decision
        ++ (codes " — 🔴"
            ++ (show_int (or_zero t.red)
                ++ (codes " 🟡"
                    ++ (show_int (or_zero t.yellow)
                        ++ (codes " 🟢"
                            ++ (show_int (or_zero t.green)
                                ++ (codes "."
                                    ++ (at ++ codes " Details in the review comment.")))))))))

-- A fenced block that is a table: what follows the opening fence, up to the closing one.
abbrev pub is_fence : Text → Bool
is_fence line = starts_with (codes "```") (trim line)

abbrev is_row : Text → Bool
is_row line = starts_with (codes "|") (trim_start line)

unfoldable pub table_block : Text → List Text → Option (List Text)
table_block line rest =
    if is_fence line
    then elim (positionb is_fence rest) [
      | none ↦ none
      | some close ↦
          if anyb is_row (take close rest)
            && allb (λ l. is_empty (trim l) || is_row l) (take close rest)
          then some (take close rest)
          else none
    ]
    else none

-- The loop, with the lines that it has passed over still to skip.
unfoldable pub unfence_from : ℕ → List Text → List Text
unfence_from skip [] = []
unfence_from (suc skip) (line ∷ rest) = unfence_from skip rest
unfence_from zero (line ∷ rest) = elim (table_block line rest) [
  | some block ↦ block ++ unfence_from (length block + 1) rest
  | none ↦ line ∷ unfence_from zero rest
]

unfoldable pub unfence_tables : List Text → List Text
unfolding unfence_from
unfence_tables = unfence_from 0

-- A line that ends the text without being part of it.
abbrev is_tail_line : Text → Bool
is_tail_line line = is_empty (trim line) || text_eq (trim line) (codes "[done]")

abbrev drop_tail_lines : List Text → List Text
drop_tail_lines ls = reverse (skip_while is_tail_line (reverse ls))

-- The lines above the first one that holds a trailer.
abbrev above_trailer : List Text → List Text
above_trailer ls = elim (positionb (includes (codes "[[verdict:")) ls) [
  | some at ↦ take at ls
  | none ↦ ls
]

unfoldable pub is_machine_noise_line : Text → Bool
is_machine_noise_line line =
    let t = trim line in
    let lc = to_ascii_lowercase t in
    starts_with (codes "✅ `") t
    || (starts_with (codes "⚠") t
        && (includes (codes "-32603") lc || includes (codes "internal error") lc))

unfoldable pub answer_body : ParsedResult → Text
unfolding is_machine_noise_line unfence_tables
answer_body parsed =
    let ls = drop_tail_lines (above_trailer (lines (trim_end parsed.source))) in
    let kept = filterb (λ line. not (is_machine_noise_line line)) ls in
    let body = trim (join (codes "\n") (unfence_tables kept)) in
    if is_empty body then codes "This follow-up produced no answer." else body

abbrev pub report_start : Text
report_start = codes "<!-- openab-council -->"

unfoldable pub no_verdict_notice : Text
no_verdict_notice =
    codes
      "⚠\u{fe0f} The council closed without a parseable verdict. No formal review was submitted."

unfoldable pub findings_block : Text → Option Text
findings_block text = do
  start ← find (codes "<!-- openab-findings") text
  rel ← find (codes "-->") (drop start text)
  some (take (rel + 3) (drop start text))

unfoldable pub degraded_body : VerdictTrailer → Option Text → Text
degraded_body t findings =
    let body =
      codes "⚠\u{fe0f} The council reached **"
      ++ (t.decision
          ++ (codes "** — 🔴"
              ++ (show_int (or_zero t.red)
                  ++ (codes " 🟡"
                      ++ (show_int (or_zero t.yellow)
                          ++ (codes " 🟢"
                              ++ (show_int (or_zero t.green)
                                  ++ codes
                                      " — but its written report could not be recovered (the synthesis turn failed mid-write). The verdict and findings stand; comment `@opencodezebra review` to re-run the council for a full report."))))))) in
    elim findings [ none ↦ body | some block ↦ body ++ (codes "\n\n" ++ block) ]

unfoldable pub comment_body : ParsedResult → Option VerdictTrailer → Text
unfolding findings_block degraded_body unfence_tables no_verdict_notice
comment_body parsed trailer =
    let text = trim_end parsed.source in
    elim (rfind report_start text) [
      | none ↦ elim trailer [
        | none ↦ no_verdict_notice
        | some t ↦ degraded_body t (findings_block text)
      ]
      | some at ↦ elim trailer [
        | none ↦ drop at text ++ (codes "\n\n---\n" ++ no_verdict_notice)
        | some t ↦ trim_end (
            join (codes "\n")
              (unfence_tables (drop_tail_lines (above_trailer (lines (drop at text))))))
      ]
    ]

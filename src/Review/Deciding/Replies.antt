-- ===== src/Review/Deciding/Replies.antt =====
-- crates/github-pr-controller/src/deciding.rs: the reply to the author, and the waived findings.
use openab_control_plane.Prelude.{
  ℕ, ◌/◌, ltb, ℤ, excess, Bool, ◌&&◌, ◌||◌, Option, some, none, List, [], ◌∷◌, ◌++◌, if◌then◌else◌,
  filterb, flatten, is_some, map, map_some, unwrap_or, ◌>>=◌,
}
use openab_control_plane.Text.{Text, codes, text_eq, is_text, show_nat, show_int}
use openab_control_plane.Review.Rows.{ReviewFindingRow, ReviewWaiver}
use openab_control_plane.Review.Deciding.Defs.{DecisionOutcome}
use openab_control_plane.Review.Deciding.Texts.{bound, waived_section_start, waived_section_end}

-- The place of a finding, if it has a path.
unfoldable pub place : Option Text → Option ℤ → Text
place none line = []
place (some path) none = codes " `" ++ (path ++ codes "`")
place (some path) (some line) = codes " `" ++ (path ++ (codes ":" ++ (show_int line ++ codes "`")))

unfoldable pub verb_past : Text → Text
verb_past verb =
    if text_eq verb (codes "dismiss")
    then codes "dismissed"
    else if text_eq verb (codes "waive")
    then codes "waived"
    else codes "reopened"

unfoldable pub reason_part : Text → Option Text → Text
reason_part actor none = []
reason_part actor (some reason) =
    codes "\n@" ++ (actor ++ (codes ": \"" ++ (reason ++ codes "\"\n")))

unfoldable pub waiver_part : ReviewFindingRow → Option ReviewWaiver → Text
waiver_part row none = []
waiver_part row (some waiver) =
    let days = excess waiver.expires_at waiver.created_at / 86400 in
    let scope =
      codes "\nThis acceptance is **repo-wide, not just this pull request**: waiver `"
      ++ (waiver.id
          ++ (codes "` covers `"
              ++ (waiver.repo
                  ++ (codes
                        "` and future rounds will see the finding as waived, not re-block on it. It expires in "
                      ++ (show_nat days
                          ++ codes
                              "d — after that the finding returns at full severity on the next touch. An acceptance that keeps needing renewal belongs in the repo's Review Boundaries instead.\n"))))) in
    if text_eq row.severity (codes "red")
    then scope
      ++ codes
          "\n🔴 findings get this shorter horizon on purpose (ADR 038): an accepted security defect stays conspicuous, and comes back for re-examination sooner.\n"
    else scope

unfoldable pub verdict_part : DecisionOutcome → Text → Text
verdict_part outcome bot_handle =
    if outcome.unblocked && outcome.approval_authorized
    then codes
        "\nVerdict recomputed: `request_changes` → **`approve`**. Updated the verdict comment, the commit status, and submitted a new APPROVE review that supersedes the earlier REQUEST_CHANGES.\n"
    else if outcome.unblocked
    then codes
        "\nVerdict recomputed to `approve`, but approval was withheld because this round has no verified commit proof for the current head. No commit status or APPROVE review was submitted; re-run `@"
      ++ (bot_handle ++ codes " review` for this revision.\n")
    else if ltb 0 outcome.red || ltb 0 outcome.yellow
    then codes "\nStill blocked: 🔴"
      ++ (show_nat outcome.red
          ++ (codes " 🟡"
              ++ (show_nat outcome.yellow
                  ++ codes " remain open, so the verdict stays `request_changes`.\n")))
    else []

unfoldable pub undo_part : Text → Text → Text → Text
undo_part verb bot_handle stable_id =
    if text_eq verb (codes "dismiss")
    then codes "\nWrong call? `@"
      ++ (bot_handle ++ (codes " reopen " ++ (stable_id ++ codes "` puts it back.\n")))
    else if text_eq verb (codes "waive")
    then codes "\nWrong call? `@"
      ++ (bot_handle
          ++ (codes " reopen "
              ++ (stable_id ++ codes "` reopens the finding and revokes the waiver.\n")))
    else []

-- What the author reads; every branch says something.
unfoldable pub reply_body :
    Text → ReviewFindingRow → ℕ × ℕ → DecisionOutcome → Text → Text → Option ReviewWaiver → Text
unfolding place verb_past reason_part waiver_part verdict_part undo_part
reply_body verb row (red, yellow) outcome actor bot_handle waiver =
    codes "**"
    ++ (row.stable_id
        ++ (codes " "
            ++ (verb_past verb
                ++ (codes "** — "
                    ++ (row.title
                        ++ (place row.path row.line
                            ++ (codes "\n"
                                ++ (reason_part actor row.decided_reason
                                    ++ (waiver_part row waiver
                                        ++ (codes "\nOpen findings on `"
                                            ++ (unwrap_or row.head_sha (codes "?")
                                                ++ (codes "`: 🔴"
                                                    ++ (show_nat red
                                                        ++ (codes " 🟡"
                                                            ++ (show_nat yellow
                                                            ++ (codes " → 🔴"
                                                            ++ (show_nat outcome.red
                                                            ++ (codes " 🟡"
                                                            ++ (show_nat outcome.yellow
                                                            ++ (codes "\n"
                                                            ++ (verdict_part outcome bot_handle
                                                            ++ undo_part verb bot_handle
                                                            row.stable_id)))))))))))))))))))))

abbrev is_waived_row : Text → ReviewFindingRow → Bool
is_waived_row head_sha row =
    is_text head_sha row.head_sha && text_eq row.status (codes "waived") && is_some row.decided_by

unfoldable pub severity_mark : Text → Text
severity_mark severity =
    if text_eq severity (codes "red")
    then codes "🔴"
    else if text_eq severity (codes "yellow")
    then codes "🟡"
    else codes "⚪"

-- An unlisted waiver has no countdown.
unfoldable pub expiry_part : Option Text → (Text → Option ℤ) → ℤ → Text
expiry_part waiver_id expiries now =
    unwrap_or
      (map_some
        (λ expires_at.
          codes ", expires in " ++ (show_nat (excess expires_at now / 86400) ++ codes "d"))
        (waiver_id >>= expiries))
      []

unfoldable pub waived_line : (Text → Option ℤ) → ℤ → ReviewFindingRow → Text
unfolding place severity_mark expiry_part
waived_line expiries now row =
    codes "- "
    ++ (row.stable_id
        ++ (codes " "
            ++ (severity_mark row.severity
                ++ (codes " "
                    ++ (bound row.title 80
                        ++ (place (map_some (λ path. bound path 120) row.path) row.line
                            ++ (codes " — waived by @"
                                ++ (unwrap_or row.decided_by (codes "?")
                                    ++ (expiry_part row.waiver_id expiries now
                                        ++ codes "\n")))))))))

unfoldable pub waived_section : List ReviewFindingRow → Text → (Text → Option ℤ) → ℤ → Option Text
unfolding waived_line
waived_section findings head_sha expiries now = elim (filterb (is_waived_row head_sha) findings) [
  | [] ↦ none
  | row ∷ rows ↦ some (
      waived_section_start
      ++ (codes
            "\n---\n**Waived** — accepted defects (ADR 038). Repo-scoped and expiring; not blocking, not forgotten.\n"
          ++ (flatten (map (waived_line expiries now) (row ∷ rows)) ++ waived_section_end)))
]

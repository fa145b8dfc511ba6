-- ===== src/Review/Deciding/Counts.antt =====
-- crates/github-pr-controller/src/deciding.rs: the counts of a recount are 0 where nothing blocks.
use openab_control_plane.Prelude.{
  ℕ, ◌+◌, ◌≤◌, ◌≡◌, refl, sym, ◌⊎◌, inl, inr, ◌↔◌, true, false, some, List, [], ◌∷◌, arith, All,
  filterb, Bool-cases,
}
use openab_control_plane.Text.{Text, codes, text_eq, text_eq_iff, is_text, is_text_iff}
use openab_control_plane.Review.Rows.{ReviewFindingRow}
use openab_control_plane.Review.Deciding.Defs.{count_severities, is_live, open_counts, is_blocking}

-- A row that is live on the head, with the given severity.
abbrev pub IsOpen : Text → Text → ReviewFindingRow → Type 0
IsOpen head_sha severity row =
    (row.head_sha ≡ some head_sha) × (row.status ≡ codes "open") × (row.severity ≡ severity)

abbrev pub IsBlocker : Text → ReviewFindingRow → Type 0
IsBlocker head_sha row = IsOpen head_sha (codes "red") row ⊎ IsOpen head_sha (codes "yellow") row

count_severities-red-le :
    (red yellow : ℕ) (rows : List ReviewFindingRow) → red ≤ (count_severities red yellow rows).0
unfolding count_severities
count_severities-red-le red yellow [] = omega arith
count_severities-red-le red yellow (row ∷ rows) = ground (
  arith,
  count_severities-red-le red yellow rows,
  count_severities-red-le (red + 1) yellow rows,
  count_severities-red-le red (yellow + 1) rows,
  count_severities-red-le (red + 1) (yellow + 1) rows,
)

count_severities-yellow-le :
    (red yellow : ℕ) (rows : List ReviewFindingRow) → yellow ≤ (count_severities red yellow rows).1
unfolding count_severities
count_severities-yellow-le red yellow [] = omega arith
count_severities-yellow-le red yellow (row ∷ rows) = ground (
  arith,
  count_severities-yellow-le red yellow rows,
  count_severities-yellow-le (red + 1) yellow rows,
  count_severities-yellow-le red (yellow + 1) rows,
  count_severities-yellow-le (red + 1) (yellow + 1) rows,
)

abbrev NotCounted : ReviewFindingRow → Type 0
NotCounted row = (¬ (row.severity ≡ codes "red")) × (¬ (row.severity ≡ codes "yellow"))

no_counts :
    (red yellow : ℕ) (rows : List ReviewFindingRow)
    → (count_severities red yellow rows).0 ≡ red
    → (count_severities red yellow rows).1 ≡ yellow
    → All NotCounted rows
unfolding count_severities
no_counts red yellow [] h k = tt
no_counts red yellow (row ∷ rows) h k = elim (Bool-cases (text_eq row.severity (codes "red"))) [
  | inl r ↦ ground (
    arith,
    count_severities-red-le (red + 1) yellow rows,
    count_severities-red-le (red + 1) (yellow + 1) rows,
  )
  | inr r ↦ elim (Bool-cases (text_eq row.severity (codes "yellow"))) [
    | inl y ↦ ground (arith, count_severities-yellow-le red (yellow + 1) rows)
    | inr y ↦ (
      (
        λ e. cc ((text_eq_iff row.severity (codes "red")).1 e, r),
        λ e. cc ((text_eq_iff row.severity (codes "yellow")).1 e, y),
      ),
      no_counts red yellow rows (ground arith) (ground arith),
    )
  ]
]

differs : (s t : Text) → ¬ (s ≡ t) → text_eq s t ≡ false
differs s t n = elim (Bool-cases (text_eq s t)) [
  | inl y ↦ absurd (n ((text_eq_iff s t).0 y))
  | inr y ↦ y
]

uncounted :
    (red yellow : ℕ) (rows : List ReviewFindingRow)
    → All NotCounted rows
    → count_severities red yellow rows ≡ (red, yellow)
unfolding count_severities
uncounted red yellow [] h = refl
uncounted red yellow (row ∷ rows) h =
    let r = differs row.severity (codes "red") h.0.0 in
    let y = differs row.severity (codes "yellow") h.0.1 in rw (r, y) (uncounted red yellow rows h.1)

-- A live row is one on the head that is still open.
is_live-of :
    (head_sha : Text) (row : ReviewFindingRow)
    → is_live head_sha row ≡ true
    → (row.head_sha ≡ some head_sha) × (row.status ≡ codes "open")
is_live-of head_sha row h = elim (Bool-cases (is_text head_sha row.head_sha)) [
  | inl a ↦ (
    sym ((is_text_iff head_sha row.head_sha).0 a),
    (text_eq_iff row.status (codes "open")).0 (rw a at h),
  )
  | inr a ↦ absurd (cc (rw a at h))
]

live-is :
    (head_sha : Text) (row : ReviewFindingRow)
    → row.head_sha ≡ some head_sha
    → row.status ≡ codes "open"
    → is_live head_sha row ≡ true
live-is head_sha row h k =
    rw ((is_text_iff head_sha row.head_sha).1 (sym h), (text_eq_iff row.status (codes "open")).1 k)

unfiltered :
    (head_sha : Text) (rows : List ReviewFindingRow)
    → All NotCounted (filterb (is_live head_sha) rows)
    → All (λ row. ¬ IsBlocker head_sha row) rows
unfiltered head_sha [] h = tt
unfiltered head_sha (row ∷ rows) h = elim (Bool-cases (is_live head_sha row)) [
  | inl y ↦
      let g = (rw y at h) in
      (λ b. elim b [ inl r ↦ g.0.0 r.2 | inr r ↦ g.0.1 r.2 ], unfiltered head_sha rows g.1)
  | inr n ↦
      let g = (rw n at h) in
      (
        λ b. elim b [
          | inl r ↦ cc (live-is head_sha row r.0 r.1, n)
          | inr r ↦ cc (live-is head_sha row r.0 r.1, n)
        ],
        unfiltered head_sha rows g,
      )
]

filtered :
    (head_sha : Text) (rows : List ReviewFindingRow)
    → All (λ row. ¬ IsBlocker head_sha row) rows
    → All NotCounted (filterb (is_live head_sha) rows)
filtered head_sha [] h = tt
filtered head_sha (row ∷ rows) h = elim (Bool-cases (is_live head_sha row)) [
  | inl y ↦
      let at = is_live-of head_sha row y in
      rw y (
        (λ e. h.0 (inl (at.0, at.1, e)), λ e. h.0 (inr (at.0, at.1, e))),
        filtered head_sha rows h.1,
      )
  | inr n ↦ rw n (filtered head_sha rows h.1)
]

-- The recount blocks nothing exactly where no red or yellow finding is open on the head.
pub is_blocking-open_counts :
    (findings : List ReviewFindingRow) (head_sha : Text)
    → (is_blocking (open_counts findings head_sha) ≡ false)
      ↔ All (λ row. ¬ IsBlocker head_sha row) findings
unfolding open_counts
is_blocking-open_counts findings head_sha =
    let live = filterb (is_live head_sha) findings in
    (
      λ h. unfiltered head_sha findings (no_counts 0 0 live (ground arith) (ground arith)),
      λ h. rw (uncounted 0 0 live (filtered head_sha findings h)),
    )

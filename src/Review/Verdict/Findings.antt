-- ===== src/Review/Verdict/Findings.antt =====
-- crates/github-pr-controller/src/verdict.rs: which findings a block that is read can hold.
use openab_control_plane.Prelude.{
  ℕ, ◌≡◌, ◌≢◌, ◌⊎◌, inl, inr, true, false, Option, some, List, [], ◌∷◌, >>=-eq-some, some_inj,
  arith, All, allb, Bool-cases, Option-cases, subst, sym, take, drop, length, ◌+◌,
}
use openab_control_plane.Text.{
  Text, codes, contains, text_eq, text_eq_iff, is_empty, trim, rfind, match_indices,
}
use openab_control_plane.Review.Verdict.{
  Finding, FindingsBlock, is_valid_finding, first_parse, parse_findings_block,
}

abbrev pub IsSeverity : Text → Type 0
IsSeverity s = (s ≡ codes "red") ⊎ (s ≡ codes "yellow") ⊎ (s ≡ codes "green")

abbrev pub IsStatus : Text → Type 0
IsStatus s =
    (s ≡ codes "open") ⊎ (s ≡ codes "resolved") ⊎ (s ≡ codes "dismissed") ⊎ (s ≡ codes "waived")

abbrev pub IsValid : Finding → Type 0
IsValid f = IsSeverity f.severity × IsStatus f.status × (trim f.id ≢ []) × (trim f.title ≢ [])

filled : (t : Text) → is_empty t ≡ false → t ≢ []
unfolding is_empty
filled [] h e = cc
filled (c ∷ t) h e = cc

first_or_later :
    (s t : Text) (ts : List Text) → contains s (t ∷ ts) ≡ true → (s ≡ t) ⊎ (contains s ts ≡ true)
unfolding contains
first_or_later s t ts h = elim (Bool-cases (text_eq t s)) [
  | inl y ↦ inl (sym ((text_eq_iff t s).0 y))
  | inr n ↦ inr (rw n at h)
]

sole : (s t : Text) → contains s (t ∷ []) ≡ true → s ≡ t
sole s t h = elim (first_or_later s t [] h) [ inl e ↦ e | inr k ↦ absurd (unfold contains in cc k) ]

contains-IsSeverity :
    (s : Text)
    → contains s (codes "red" ∷ codes "yellow" ∷ codes "green" ∷ []) ≡ true
    → IsSeverity s
contains-IsSeverity s h = elim (first_or_later s _ _ h) [
  | inl e ↦ inl e
  | inr k ↦ elim (first_or_later s _ _ k) [ inl e ↦ inr (inl e) | inr l ↦ inr (inr (sole s _ l)) ]
]

contains-IsStatus :
    (s : Text)
    → contains s (codes "open" ∷ codes "resolved" ∷ codes "dismissed" ∷ codes "waived" ∷ []) ≡ true
    → IsStatus s
contains-IsStatus s h = elim (first_or_later s _ _ h) [
  | inl e ↦ inl e
  | inr k ↦ elim (first_or_later s _ _ k) [
    | inl e ↦ inr (inl e)
    | inr l ↦ elim (first_or_later s _ _ l) [
      | inl e ↦ inr (inr (inl e))
      | inr o ↦ inr (inr (inr (sole s _ o)))
    ]
  ]
]

is_valid_finding-IsValid : (f : Finding) → is_valid_finding f ≡ true → IsValid f
unfolding is_valid_finding
is_valid_finding-IsValid f h = (
  contains-IsSeverity f.severity (ground (arith, h)),
  contains-IsStatus f.status (ground (arith, h)),
  filled (trim f.id) (ground (arith, h)),
  filled (trim f.title) (ground (arith, h)),
)

allb-IsValid : (fs : List Finding) → allb is_valid_finding fs ≡ true → All IsValid fs
allb-IsValid [] h = tt
allb-IsValid (f ∷ fs) h =
    (is_valid_finding-IsValid f (ground (arith, h)), allb-IsValid fs (ground (arith, h)))

module _ (from_str : Text → Option FindingsBlock) where
  first_parse-parsed :
      (rest : Text) (ends : List ℕ) {block : FindingsBlock}
      → first_parse from_str rest ends ≡ some block
      → (inner : Text) × (from_str inner ≡ some block)
  unfolding first_parse
  first_parse-parsed rest [] h = cc
  first_parse-parsed rest (end ∷ ends) h = elim (Option-cases (from_str (trim (take end rest)))) [
    | inl e ↦ first_parse-parsed rest ends (ground (arith, h, e))
    | inr (b, e) ↦ (trim (take end rest), ground (arith, h, e))
  ]

  -- A block that is read is one that the JSON parser gives for some text, and each of its findings has
  -- a known severity, a known status and an id and a title that are not blank.
  pub parse_findings_block-IsValid :
      (text : Text) {block : FindingsBlock}
      → parse_findings_block from_str text ≡ some block
      → ((inner : Text) × (from_str inner ≡ some block)) × All IsValid block.findings
  unfolding parse_findings_block
  parse_findings_block-IsValid text h =
      let (start, _, h₁) = >>=-eq-some (rfind (codes "<!-- openab-findings") text) _ h in
      let rest = drop (start + length (codes "<!-- openab-findings")) text in
      let (read, found, h₂) =
        >>=-eq-some (first_parse from_str rest (match_indices (codes "-->") rest)) _ h₁ in
      elim (Bool-cases (allb is_valid_finding read.findings)) [
        | inl y ↦
            subst (λ b. ((inner : Text) × (from_str inner ≡ some b)) × All IsValid b.findings)
              (some_inj read _ (rw y at h₂))
              (
                first_parse-parsed rest (match_indices (codes "-->") rest) found,
                allb-IsValid read.findings y,
              )
        | inr n ↦ absurd (cc (rw n at h₂))
      ]

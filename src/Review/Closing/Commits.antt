-- ===== src/Review/Closing/Commits.antt =====
-- crates/github-pr-controller/src/closing.rs: what a verified commit is.
use openab_control_plane.Prelude.{
  ℕ, ◌≡◌, refl, sym, ◌∙◌, ap, inl, inr, true, false, Option, some, none, [], ◌∷◌, arith, subst,
  Bool-cases, Option-cases, allb, ◌>>=◌, Bool, ◌&&◌, ◌||◌, leb, length, suc, ◌==◌, ==_iff, some_inj,
}
use openab_control_plane.Text.{
  Text, codes, len, utf8_len, to_lower, to_ascii_lowercase, text_eq_iff, is_empty,
}
use openab_control_plane.Review.Verdict.{ParsedResult}
use openab_control_plane.Review.Rows.{SessionTarget}
use openab_control_plane.Review.Closing.Integrity.{
  canonical_commit_id, is_hexdigit, IntegrityDecision, classify_reviewed, classify_target,
  classify_integrity, claimed_sha,
}

to_lower-is_hexdigit : (c : ℕ) → is_hexdigit c ≡ true → is_hexdigit (to_lower c) ≡ true
unfolding is_hexdigit to_lower
to_lower-is_hexdigit c h = ground arith

to_lower_idem : (c : ℕ) → to_lower (to_lower c) ≡ to_lower c
unfolding to_lower
to_lower_idem c = ground arith

utf8_len-to_lower : (c : ℕ) → utf8_len (to_lower c) ≡ utf8_len c
unfolding to_lower utf8_len
utf8_len-to_lower c = ground arith

len-to_ascii_lowercase : (t : Text) → len (to_ascii_lowercase t) ≡ len t
unfolding len to_ascii_lowercase
len-to_ascii_lowercase [] = refl
len-to_ascii_lowercase (c ∷ t) = omega (arith, utf8_len-to_lower c, len-to_ascii_lowercase t)

allb-to_ascii_lowercase :
    (t : Text) → allb is_hexdigit t ≡ true → allb is_hexdigit (to_ascii_lowercase t) ≡ true
unfolding to_ascii_lowercase
allb-to_ascii_lowercase [] h = refl
allb-to_ascii_lowercase (c ∷ t) h =
    ground (arith, to_lower-is_hexdigit c, allb-to_ascii_lowercase t)

to_ascii_lowercase_idem :
    (t : Text) → to_ascii_lowercase (to_ascii_lowercase t) ≡ to_ascii_lowercase t
unfolding to_ascii_lowercase
to_ascii_lowercase_idem [] = refl
to_ascii_lowercase_idem (c ∷ t) = cc (to_lower_idem c, to_ascii_lowercase_idem t)

canonical_commit_id_idem :
    (raw : Text) {sha : Text}
    → canonical_commit_id raw ≡ some sha
    → canonical_commit_id sha ≡ some sha
unfolding canonical_commit_id
canonical_commit_id_idem raw {sha} h =
    ground
      (arith, len-to_ascii_lowercase raw, allb-to_ascii_lowercase raw, to_ascii_lowercase_idem raw)

is_lower_hexdigit : ℕ → Bool
is_lower_hexdigit c = (leb b'0' c && leb c b'9') || (leb b'a' c && leb c b'f')

utf8_len-hexdigit : (c : ℕ) → is_hexdigit c ≡ true → utf8_len c ≡ 1
unfolding is_hexdigit utf8_len
utf8_len-hexdigit c h = ground arith

len-hexdigits : (t : Text) → allb is_hexdigit t ≡ true → len t ≡ length t
unfolding len
len-hexdigits [] h = refl
len-hexdigits (c ∷ t) h = elim (Bool-cases (is_hexdigit c)) [
  | inl y ↦ omega (arith, utf8_len-hexdigit c y, len-hexdigits t (rw y at h))
  | inr n ↦ absurd (cc (rw n at h))
]

to_lower-hexdigit : (c : ℕ) → is_hexdigit c ≡ true → is_lower_hexdigit (to_lower c) ≡ true
unfolding is_hexdigit is_lower_hexdigit to_lower
to_lower-hexdigit c h = ground arith

lower_hexdigits :
    (t : Text) → allb is_hexdigit t ≡ true → allb is_lower_hexdigit (to_ascii_lowercase t) ≡ true
unfolding to_ascii_lowercase
lower_hexdigits [] h = refl
lower_hexdigits (c ∷ t) h = ground (arith, to_lower-hexdigit c, lower_hexdigits t)

length-to_ascii_lowercase : (t : Text) → length (to_ascii_lowercase t) ≡ length t
unfolding to_ascii_lowercase
length-to_ascii_lowercase [] = refl
length-to_ascii_lowercase (c ∷ t) = ap suc (length-to_ascii_lowercase t)

-- Forty characters, each of them a digit or a letter from a to f.
pub IsObjectId : Text → Type 0
IsObjectId sha = (length sha ≡ 40) × (allb is_lower_hexdigit sha ≡ true)

accepted :
    (raw : Text) {sha : Text}
    → canonical_commit_id raw ≡ some sha
    → (len raw ≡ 40) × (allb is_hexdigit raw ≡ true) × (to_ascii_lowercase raw ≡ sha)
unfolding canonical_commit_id
accepted raw {sha} h = elim (Bool-cases (len raw == 40 && allb is_hexdigit raw)) [
  | inl y ↦
      let size : (len raw == 40) ≡ true = ground (arith, y) in
      let digits : allb is_hexdigit raw ≡ true = ground (arith, y) in
      ((==_iff (len raw) 40).0 size, digits, some_inj (to_ascii_lowercase raw) sha (rw y at h))
  | inr n ↦ absurd (cc (rw n at h))
]

-- A canonical commit id has forty characters, which are digits and letters from a to f; it is its own
-- canonical form, and what it is read from is the same text up to the case of its letters.
pub canonical_commit_id-IsObjectId :
    (raw sha : Text)
    → canonical_commit_id raw ≡ some sha
    → IsObjectId sha × (canonical_commit_id sha ≡ some sha) × (to_ascii_lowercase raw ≡ sha)
unfolding IsObjectId
canonical_commit_id-IsObjectId raw sha h =
    let (size, digits, lowered) = accepted raw {sha = sha} h in
    (
      (
        ap length (sym lowered)
            ∙ length-to_ascii_lowercase raw
            ∙ sym (len-hexdigits raw digits)
            ∙ size,
        subst (λ t. allb is_lower_hexdigit t ≡ true) lowered (lower_hexdigits raw digits),
      ),
      canonical_commit_id_idem raw {sha = sha} h,
      lowered,
    )

-- The target's head and the claimed commit are one canonical commit.
pub record IsProven (head claimed : Option Text) (sha : Text) : Type 0 where
  pub of_target : (head >>= canonical_commit_id) ≡ some sha
  pub of_claim : (claimed >>= canonical_commit_id) ≡ some sha

pub record IsVerified (head claimed : Option Text) (d : IntegrityDecision) : Type 0 where
  pub commit : Text
  pub proven : IsProven head claimed commit
  pub verified : d.verified_commit_id ≡ some commit
  pub of_status : d.target_commit_id ≡ some commit

classify_reviewed-verified :
    (target : Text) (claimed : Option Text)
    → (classify_reviewed target claimed).disposition ≡ codes "verified"
    → ((claimed >>= canonical_commit_id) ≡ some target)
      × ((classify_reviewed target claimed).verified_commit_id ≡ some target)
      × ((classify_reviewed target claimed).target_commit_id ≡ some target)
unfolding classify_reviewed
classify_reviewed-verified target none h = cc
classify_reviewed-verified target (some raw) h = elim (Option-cases (canonical_commit_id raw)) [
  | inl e ↦ ground (arith, e)
  | inr (reviewed, e) ↦ ground (arith, e, text_eq_iff reviewed target)
]

classify_target-IsVerified :
    (head claimed : Option Text)
    → (classify_target head claimed).disposition ≡ codes "verified"
    → IsVerified head claimed (classify_target head claimed)
unfolding classify_target
classify_target-IsVerified none claimed h = cc
classify_target-IsVerified (some raw) claimed h = elim (Bool-cases (is_empty raw)) [
  | inl e ↦ absurd (ground (arith, e))
  | inr full ↦ elim (Option-cases (canonical_commit_id raw)) [
    | inl e ↦ absurd (ground (arith, e, full))
    | inr (target, e) ↦
        let same : classify_target (some raw) claimed ≡ classify_reviewed target claimed =
          ground (arith, full, e) in
        let (of_claim, verified, of_status) =
          classify_reviewed-verified target claimed (ap (λ d. d.disposition) (sym same) ∙ h) in
        subst (IsVerified (some raw) claimed) (sym same) (record {
          commit = target;
          proven = record { of_target = e; of_claim = of_claim };
          verified = verified;
          of_status = of_status;
        })
  ]
]

canonical_commit_id-nonempty :
    (raw : Text) {sha : Text} → canonical_commit_id raw ≡ some sha → is_empty raw ≡ false
unfolding canonical_commit_id is_empty len
canonical_commit_id-nonempty [] h = cc
canonical_commit_id-nonempty (c ∷ raw) h = refl

abbrev pub verified_at : Text → IntegrityDecision
verified_at sha = record {
  disposition = codes "verified";
  target_commit_id = some sha;
  verified_commit_id = some sha;
  reviewed_sha = some sha;
}

pub classify_target-proven :
    (head claimed : Option Text) (sha : Text)
    → IsProven head claimed sha
    → classify_target head claimed ≡ verified_at sha
unfolding classify_target classify_reviewed
classify_target-proven none claimed sha p = cc (p.of_target)
classify_target-proven (some raw) none sha p = cc (p.of_claim)
classify_target-proven (some raw) (some claim) sha p = ground (
  arith,
  canonical_commit_id-nonempty raw p.of_target,
  canonical_commit_id-nonempty claim p.of_claim,
  text_eq_iff sha sha,
)

classify_reviewed-target :
    (target : Text) (claimed : Option Text) (sha : Text)
    → (classify_reviewed target claimed).target_commit_id ≡ some sha
    → target ≡ sha
unfolding classify_reviewed
classify_reviewed-target target none sha h = cc
classify_reviewed-target target (some raw) sha h = elim (Option-cases (canonical_commit_id raw)) [
  | inl e ↦ ground (arith, e)
  | inr (reviewed, e) ↦ ground (arith, e, text_eq_iff reviewed target)
]

-- The commit that a decision lets a status name is the target's own.
pub classify_target-target :
    (head claimed : Option Text) (sha : Text)
    → (classify_target head claimed).target_commit_id ≡ some sha
    → (head >>= canonical_commit_id) ≡ some sha
unfolding classify_target
classify_target-target none claimed sha h = cc
classify_target-target (some raw) claimed sha h = elim (Option-cases (canonical_commit_id raw)) [
  | inl e ↦ ground (arith, e)
  | inr (target, e) ↦ ground (arith, e, classify_reviewed-target target claimed sha)
]

-- A decision that says verified names one commit, for the review and for the status, and it is the
-- canonical form of the target's head and of the claimed commit.
pub classify_integrity-IsVerified :
    (target : SessionTarget) (parsed : ParsedResult)
    → (classify_integrity target parsed).disposition ≡ codes "verified"
    → IsVerified target.head_sha (claimed_sha parsed.findings) (classify_integrity target parsed)
unfolding classify_integrity
classify_integrity-IsVerified target parsed h = classify_target-IsVerified _ _ h

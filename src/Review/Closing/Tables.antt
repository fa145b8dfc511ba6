-- ===== src/Review/Closing/Tables.antt =====
-- crates/github-pr-controller/src/closing.rs: what unfencing a report's tables leaves of it.
use openab_control_plane.Prelude.{
  ℕ, zero, suc, ◌+◌, ◌≡◌, refl, sym, inl, inr, ap, ◌∙◌, subst, Bool, true, not, some, none, List,
  [], ◌∷◌, ◌++◌, arith, filterb, take, drop, length, positionb, Bool-cases, Option-cases, some_inj,
}
use openab_control_plane.Text.{Text}
use openab_control_plane.Review.Closing.Bodies.{is_fence, table_block, unfence_from, unfence_tables}

-- The lines that are no fences.
abbrev pub prose : List Text → List Text
prose = filterb λ line. not (is_fence line)

filterb-append :
    {A : Type 0} (p : A → Bool) (xs ys : List A)
    → filterb p (xs ++ ys) ≡ filterb p xs ++ filterb p ys
filterb-append p [] ys = refl
filterb-append p (x ∷ xs) ys = elim (Bool-cases (p x)) [
  | inl h ↦ rw h (ap (λ zs. x ∷ zs) (filterb-append p xs ys))
  | inr h ↦ rw h (filterb-append p xs ys)
]

-- The lines up to a fence, the fence, and what is behind it.
abbrev Splits : List Text → ℕ → Type 0
Splits rest close =
    (length (take close rest) ≡ close)
    × (prose rest ≡ prose (take close rest) ++ prose (drop (suc close) rest))

positionb-Splits :
    (rest : List Text) (close : ℕ) → positionb is_fence rest ≡ some close → Splits rest close
positionb-Splits [] close h = cc
positionb-Splits (line ∷ rest) close h = elim (Bool-cases (is_fence line)) [
  | inl f ↦ subst (Splits (line ∷ rest)) (some_inj 0 close (rw f at h)) (refl, rw f refl)
  | inr f ↦ elim (Option-cases (positionb is_fence rest)) [
    | inl e ↦ absurd (cc (rw (f, e) at h))
    | inr (i, e) ↦
        let (counted, parted) = positionb-Splits rest i e in
        subst (Splits (line ∷ rest)) (some_inj (suc i) close (rw (f, e) at h))
          (ap suc counted, rw f (ap (λ ls. line ∷ ls) parted))
  ]
]

table_block-Splits :
    (line : Text) (rest : List Text) {block : List Text}
    → table_block line rest ≡ some block
    → (is_fence line ≡ true) × (prose rest ≡ prose block ++ prose (drop (suc (length block)) rest))
unfolding table_block
table_block-Splits line rest {block} h = elim (Bool-cases (is_fence line)) [
  | inr f ↦ absurd (cc (rw f at h))
  | inl f ↦ elim (Option-cases (positionb is_fence rest)) [
    | inl e ↦ absurd (cc (rw (f, e) at h))
    | inr (close, e) ↦
        let (counted, parted) = positionb-Splits rest close e in
        let taken : take close rest ≡ block = ground (arith, h, f, e) in
        (
          f,
          subst (λ b. prose rest ≡ prose b ++ prose (drop (suc (length b)) rest)) taken
              (rw counted parted),
        )
  ]
]

step-skip :
    (skip : ℕ) (line : Text) (rest : List Text)
    → unfence_from (suc skip) (line ∷ rest) ≡ unfence_from skip rest
unfolding unfence_from
step-skip skip line rest = refl

step-plain :
    (line : Text) (rest : List Text)
    → table_block line rest ≡ none
    → unfence_from 0 (line ∷ rest) ≡ line ∷ unfence_from 0 rest
unfolding unfence_from
step-plain line rest e = ground (arith, e)

step-block :
    (line : Text) (rest : List Text) {block : List Text}
    → table_block line rest ≡ some block
    → unfence_from 0 (line ∷ rest) ≡ block ++ unfence_from (length block + 1) rest
unfolding unfence_from
step-block line rest e = ground (arith, e)

unfence_from-prose :
    (skip : ℕ) (ls : List Text) → prose (unfence_from skip ls) ≡ prose (drop skip ls)
unfence_from-prose zero [] = unfold unfence_from in refl
unfence_from-prose (suc skip) [] = unfold unfence_from in refl
unfence_from-prose (suc skip) (line ∷ rest) =
    ap prose (step-skip skip line rest) ∙ unfence_from-prose skip rest
unfence_from-prose zero (line ∷ rest) = elim (Option-cases (table_block line rest)) [
  | inl e ↦ rw (step-plain line rest e) (ground (arith, unfence_from-prose zero rest))
  | inr (block, e) ↦
      let (f, parted) = table_block-Splits line rest e in
      let plus : length block + 1 ≡ suc (length block) = omega arith in
      rw (step-block line rest e, f)
        (filterb-append _ block (unfence_from (length block + 1) rest)
          ∙ ap (λ ls. prose block ++ ls) (unfence_from-prose (length block + 1) rest)
          ∙ ap (λ n. prose block ++ prose (drop n rest)) plus
          ∙ sym parted)
]

-- Unfencing the tables of a report takes nothing but fence lines out of it: the other lines are the
-- same, in the same order.
pub unfence_tables-prose : (ls : List Text) → prose (unfence_tables ls) ≡ prose ls
unfolding unfence_tables
unfence_tables-prose ls = unfence_from-prose 0 ls

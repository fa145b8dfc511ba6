-- ===== src/Text/Decimal.antt =====
-- `to_string()` and `parse::<i64>()` are inverse on 64-bit values.
use openab_control_plane.Prelude.{
  ℕ, zero, suc, ◌+◌, ◌/◌, ◌%◌, ◌^◌, ◌<◌, ◌≡◌, ◌≢◌, refl, true, [], ◌∷◌, ◌++◌, some, Bool-cases, ap,
  ◌∙◌, inl, inr, arith, ltb, allb, All, ℤ, pos, negsuc, lt→ltb,
}
use openab_control_plane.Text.Defs.{Text, split_once}
use openab_control_plane.Text.Numerals.{
  show_from, show_nat, show_int, is_digit, read_from, read_from-show_nat, parse_digits, below,
  negate, positive, parse_i64,
}

abbrev pub IsI64 : ℤ → Type 0
IsI64 (pos n) = n < 2 ^ 63
IsI64 (negsuc n) = n < 2 ^ 63

abbrev IsNumeral : Text → Type 0
IsNumeral t = (d : ℕ) × (ds : Text) × (t ≡ d ∷ ds) × (is_digit d ≡ true) × (allb is_digit ds ≡ true)

digit_is_digit : (n : ℕ) → is_digit (48 + n % 10) ≡ true
unfolding is_digit
digit_is_digit n = ground arith

-- The digit that is put first, and what is left to print.
show_from-IsNumeral :
    (fuel n : ℕ) (rest : Text)
    → n < fuel
    → allb is_digit rest ≡ true
    → IsNumeral (show_from fuel n rest)
unfolding show_from
show_from-IsNumeral zero n rest h r = elim h [ ]
show_from-IsNumeral (suc fuel) n rest h r = elim (Bool-cases (ltb n 10)) [
  | inl e ↦ rw e (48 + n % 10, rest, refl, digit_is_digit n, r)
  | inr e ↦ rw e (
      show_from-IsNumeral fuel (n / 10) ((48 + n % 10) ∷ rest) (ground arith)
        (rw (digit_is_digit n) r))
]

show_nat-IsNumeral : (n : ℕ) → IsNumeral (show_nat n)
unfolding show_nat
show_nat-IsNumeral n = show_from-IsNumeral (suc n) n [] (omega arith) refl

parse_digits-IsNumeral : (t : Text) → IsNumeral t → parse_digits t ≡ some (read_from 0 t)
unfolding parse_digits
parse_digits-IsNumeral t (d, ds, e, p, q) = rw e (rw p (rw q refl))

parse_digits-show_nat : (n : ℕ) → parse_digits (show_nat n) ≡ some n
parse_digits-show_nat n =
    parse_digits-IsNumeral (show_nat n) (show_nat-IsNumeral n) ∙ ap some (read_from-show_nat n)

parse_i64_of_numeral :
    (t : Text) → IsNumeral t → parse_i64 t ≡ positive (below (2 ^ 63) (parse_digits t))
unfolding parse_i64 is_digit
parse_i64_of_numeral t (d, ds, e, p, q) = rw e (ground arith)

positive-below : (n : ℕ) → n < 2 ^ 63 → positive (below (2 ^ 63) (some n)) ≡ some (pos n)
unfolding positive below
positive-below n h = rw (lt→ltb _ _ h)

negate-below : (n : ℕ) → n < 2 ^ 63 → negate (below (2 ^ 63 + 1) (some (n + 1))) ≡ some (negsuc n)
unfolding negate below
negate-below n h =
    let e : ltb (n + 1) (2 ^ 63 + 1) ≡ true = ground arith in
    let f : n + 1 ≡ suc n = omega arith in rw e (rw f refl)

parse_i64_of_minus :
    (t : Text) → parse_i64 (b'-' ∷ t) ≡ negate (below (2 ^ 63 + 1) (parse_digits t))
unfolding parse_i64
parse_i64_of_minus t = refl

pub parse_i64-show_int : (z : ℤ) → IsI64 z → parse_i64 (show_int z) ≡ some z
unfolding show_int
parse_i64-show_int (pos n) h =
    parse_i64_of_numeral (show_nat n) (show_nat-IsNumeral n)
    ∙ (ap (λ o. positive (below (2 ^ 63) o)) (parse_digits-show_nat n) ∙ positive-below n h)
parse_i64-show_int (negsuc n) h =
    parse_i64_of_minus (show_nat (n + 1))
    ∙ (ap (λ o. negate (below (2 ^ 63 + 1) o)) (parse_digits-show_nat (n + 1)) ∙ negate-below n h)

-- What stands before the first separator is cut off.
pub split_once-append :
    (sep : ℕ) (s t : Text) → All (λ c. c ≢ sep) s → split_once sep (s ++ (sep ∷ t)) ≡ some (s, t)
unfolding split_once
split_once-append sep [] t h = ground arith
split_once-append sep (c ∷ s) t h = ground (arith, split_once-append sep s t h.1)

digits_have_no_colon : (t : Text) → allb is_digit t ≡ true → All (λ c. c ≢ b':') t
unfolding is_digit
digits_have_no_colon [] h = tt
digits_have_no_colon (c ∷ t) h = elim (Bool-cases (is_digit c)) [
  | inl e ↦ (λ p. absurd (ground arith), digits_have_no_colon t (ground arith))
  | inr e ↦ absurd (ground arith)
]

numeral_has_no_colon : (t : Text) → IsNumeral t → All (λ c. c ≢ b':') t
numeral_has_no_colon t (d, ds, e, p, q) = rw e (digits_have_no_colon (d ∷ ds) (rw p q))

show_nat_has_no_colon : (n : ℕ) → All (λ c. c ≢ b':') (show_nat n)
show_nat_has_no_colon n = numeral_has_no_colon (show_nat n) (show_nat-IsNumeral n)

pub show_int_has_no_colon : (z : ℤ) → All (λ c. c ≢ b':') (show_int z)
unfolding show_int
show_int_has_no_colon (pos n) = show_nat_has_no_colon n
show_int_has_no_colon (negsuc n) = (λ p. absurd (omega arith), show_nat_has_no_colon (n + 1))

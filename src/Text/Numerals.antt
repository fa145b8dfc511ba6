-- ===== src/Text/Numerals.antt =====
-- Decimal numerals: `to_string()` of an unsigned and of a signed number, and `parse::<i64>()`.
use openab_control_plane.Prelude.{
  ℕ, zero, suc, ◌+◌, ◌-◌, ◌*◌, ◌/◌, ◌%◌, ◌^◌, ◌<◌, ◌≡◌, Bool, ◌&&◌, [], ◌∷◌, Option, none, some,
  arith, ltb, leb, ◌==◌, if◌then◌else◌, allb, ℤ, pos, negsuc,
}
use openab_control_plane.Text.Defs.{Text}

unfoldable pub show_from : ℕ → ℕ → Text → Text
show_from zero n rest = rest
show_from (suc fuel) n rest =
    let more = show_from fuel (n / 10) ((48 + n % 10) ∷ rest) in
    if ltb n 10 then (48 + n % 10) ∷ rest else more

unfoldable pub show_nat : ℕ → Text
unfolding show_from
show_nat n = show_from (suc n) n []

unfoldable pub show_int : ℤ → Text
unfolding show_nat
show_int (pos n) = show_nat n
show_int (negsuc n) = b'-' ∷ show_nat (n + 1)

unfoldable pub is_digit : ℕ → Bool
is_digit c = leb b'0' c && leb c b'9'

unfoldable pub read_from : ℕ → Text → ℕ
read_from value [] = value
read_from value (d ∷ ds) = read_from (value * 10 + (d - 48)) ds

read_from-show_from :
    (fuel n : ℕ) (rest : Text) → n < fuel → read_from 0 (show_from fuel n rest) ≡ read_from n rest
unfolding read_from show_from
read_from-show_from zero n rest h = elim h [ ]
read_from-show_from (suc fuel) n rest h =
    ground (arith, read_from-show_from fuel (n / 10) ((48 + n % 10) ∷ rest))

-- A printed number reads back, so different numbers are printed differently.
pub read_from-show_nat : (n : ℕ) → read_from 0 (show_nat n) ≡ n
unfolding show_nat read_from
read_from-show_nat n = read_from-show_from (suc n) n [] (omega arith)

unfoldable pub parse_digits : Text → Option ℕ
unfolding is_digit read_from
parse_digits [] = none
parse_digits (d ∷ ds) = if allb is_digit (d ∷ ds) then some (read_from 0 (d ∷ ds)) else none

unfoldable pub below : ℕ → Option ℕ → Option ℕ
below bound none = none
below bound (some n) = if ltb n bound then some n else none

unfoldable pub negate : Option ℕ → Option ℤ
negate none = none
negate (some zero) = some (pos 0)
negate (some (suc n)) = some (negsuc n)

unfoldable pub positive : Option ℕ → Option ℤ
positive none = none
positive (some n) = some (pos n)

-- An optional sign, then digits; what does not fit 64 bits is refused.
unfoldable pub parse_i64 : Text → Option ℤ
unfolding parse_digits below negate positive
parse_i64 [] = none
parse_i64 (c ∷ ds) =
    if c == b'-'
    then negate (below (2 ^ 63 + 1) (parse_digits ds))
    else if c == b'+'
    then positive (below (2 ^ 63) (parse_digits ds))
    else positive (below (2 ^ 63) (parse_digits (c ∷ ds)))

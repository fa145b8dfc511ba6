-- ===== src/Prelude/Ints.antt =====
-- Signed integers, for `i64` values. The program's tests on them stay inside the range.
use Prim.Native.Nat.{ℕ, suc, ◌+◌, ◌-◌, ◌≤◌}
use mathlib.Core.Path.{◌≡◌, refl}
use mathlib.Core.Bool.{Bool, true, false}
use native.Mathlib.Omega.{arith}
use openab_control_plane.Prelude.Tests.{leb, ltb, if◌then◌else◌}

-- `negsuc n` is -(n + 1).
pub data ℤ : Type 0 where
  pos : ℕ → ℤ
  negsuc : ℕ → ℤ

abbrev pub leb_ℤ : ℤ → ℤ → Bool
leb_ℤ (pos a) (pos b) = leb a b
leb_ℤ (pos a) (negsuc b) = false
leb_ℤ (negsuc a) (pos b) = true
leb_ℤ (negsuc a) (negsuc b) = leb b a

-- `x > 0`.
abbrev pub is_positive : ℤ → Bool
is_positive (pos n) = ltb 0 n
is_positive (negsuc n) = false

-- `a.min(b)`.
abbrev pub min_ℤ : ℤ → ℤ → ℤ
min_ℤ a b = if leb_ℤ a b then a else b

pub leb_ℤ-mono : (z : ℤ) (m n : ℕ) → m ≤ n → leb_ℤ z (pos m) ≡ true → leb_ℤ z (pos n) ≡ true
leb_ℤ-mono (pos a) m n h t = ground arith
leb_ℤ-mono (negsuc a) m n h t = refl

-- `(a - b).max(0)`.
abbrev pub excess : ℤ → ℤ → ℕ
excess (pos a) (pos b) = a - b
excess (pos a) (negsuc b) = a + suc b
excess (negsuc a) (pos b) = 0
excess (negsuc a) (negsuc b) = b - a

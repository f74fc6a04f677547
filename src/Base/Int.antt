-- ===== src/Base/Int.antt =====
-- Signed integers, for `int` and `long`.
use adb_termux_bridge.Base.Tests.{
  ℕ, zero, suc, ◌≡◌, Bool, true, false, arith, ◌==◌, ltb, leb, if◌then◌else◌, ◌-◌, ◌+◌,
}

-- `negsuc n` is -(n + 1).
pub data ℤ : Type 0 where
  pos : ℕ → ℤ
  negsuc : ℕ → ℤ

-- -n
abbrev pub neg : ℕ → ℤ
neg zero = pos 0
neg (suc n) = negsuc n

-- `x > 0`
abbrev pub is_pos : ℤ → Bool
is_pos (pos n) = ltb 0 n
is_pos (negsuc _) = false

-- `x < 0`
abbrev pub is_neg : ℤ → Bool
is_neg (pos _) = false
is_neg (negsuc _) = true

-- The value of a nonnegative integer, and 0 of a negative one.
abbrev pub pos_part : ℤ → ℕ
pos_part (pos n) = n
pos_part (negsuc _) = 0

abbrev pub int_eq : ℤ → ℤ → Bool
int_eq (pos a) (pos b) = a == b
int_eq (negsuc a) (negsuc b) = a == b
int_eq _ _ = false

pub int_eq→eq : (a b : ℤ) → int_eq a b ≡ true → a ≡ b
int_eq→eq (pos a) (pos b) h = ground arith
int_eq→eq (negsuc a) (negsuc b) h = ground arith
int_eq→eq (pos a) (negsuc b) h = ground arith
int_eq→eq (negsuc a) (pos b) h = ground arith

pub int_eq_refl : (a : ℤ) → int_eq a a ≡ true
int_eq_refl (pos a) = ground arith
int_eq_refl (negsuc a) = ground arith

-- a - n
unfoldable pub minus : ℤ → ℕ → ℤ
minus (pos m) n = if leb n m then pos (m - n) else negsuc (n - m - 1)
minus (negsuc m) n = negsuc (m + n)

-- ===== src/Prelude/Int.antt =====
-- Signed integers over the native numbers, and Go's 64-bit arithmetic on them.
use Prim.Native.Nat.{ℕ, suc, ◌+◌, ◌-◌, ◌%◌, ◌≤◌, ◌<◌, compare, Ordering}
use mathlib.Core.Path.{◌≡◌}
use mathlib.Core.Bool.{Bool, true, false}
use native.Mathlib.Omega.{arith}

-- `negsuc n` is -(n + 1).
pub data ℤ : Type 0 where
  pos : ℕ → ℤ
  negsuc : ℕ → ℤ

abbrev pub pos_part : ℤ → ℕ
pos_part (pos n) = n
pos_part (negsuc n) = 0

abbrev pub neg_part : ℤ → ℕ
neg_part (pos n) = 0
neg_part (negsuc n) = suc n

-- a - b, as an integer.
abbrev pub sub_ℕ : ℕ → ℕ → ℤ
sub_ℕ a b = elim (compare a b) [ Ordering.lt ↦ negsuc (b - a - 1) | _ ↦ pos (a - b) ]

infixl 65 ◌+ℤ◌ ◌-ℤ◌
infix 50 ◌≤ℤ◌
unfoldable pub ◌+ℤ◌ : ℤ → ℤ → ℤ
a +ℤ b = sub_ℕ (pos_part a + pos_part b) (neg_part a + neg_part b)

unfoldable pub ◌-ℤ◌ : ℤ → ℤ → ℤ
a -ℤ b = sub_ℕ (pos_part a + neg_part b) (neg_part a + pos_part b)

abbrev pub negate : ℤ → ℤ
negate a = sub_ℕ (neg_part a) (pos_part a)

abbrev pub ◌≤ℤ◌ : ℤ → ℤ → Type 0
a ≤ℤ b = pos_part a + neg_part b ≤ pos_part b + neg_part a

abbrev pub ltb_ℤ : ℤ → ℤ → Bool
ltb_ℤ a b = elim (compare (pos_part a + neg_part b) (pos_part b + neg_part a)) [
  | Ordering.lt ↦ true
  | _ ↦ false
]

abbrev pub leb_ℤ : ℤ → ℤ → Bool
leb_ℤ a b = elim (compare (pos_part a + neg_part b) (pos_part b + neg_part a)) [
  | Ordering.gt ↦ false
  | _ ↦ true
]

pub +ℤ_parts :
    (a b : ℤ)
    → pos_part (a +ℤ b) + neg_part a + neg_part b ≡ neg_part (a +ℤ b) + pos_part a + pos_part b
unfolding ◌+ℤ◌
+ℤ_parts a b = ground arith

pub -ℤ_parts :
    (a b : ℤ)
    → pos_part (a -ℤ b) + neg_part a + pos_part b ≡ neg_part (a -ℤ b) + pos_part a + neg_part b
unfolding ◌-ℤ◌
-ℤ_parts a b = ground arith

pub eq_of_parts : (a b : ℤ) → pos_part a + neg_part b ≡ pos_part b + neg_part a → a ≡ b
eq_of_parts a b h = ground arith

-- The integer laws that `omega` and `grind` use with the operations shut.
pub ruleset int_laws = (arith, +ℤ_parts, -ℤ_parts, eq_of_parts)

-- 2 ^ 63 and 2 ^ 64.
abbrev pub half_range : ℕ
half_range = 9223372036854775808

abbrev pub full_range : ℕ
full_range = 18446744073709551616

-- The residue of n below 2 ^ 64, read in two's complement, and of -(n + 1).
abbrev wrap_pos : ℕ → ℤ
wrap_pos m = elim (compare m half_range) [ Ordering.lt ↦ pos m | _ ↦ negsuc (full_range - 1 - m) ]

abbrev wrap_neg : ℕ → ℤ
wrap_neg m = elim (compare m half_range) [ Ordering.lt ↦ negsuc m | _ ↦ pos (full_range - 1 - m) ]

-- The int64 that an integer is reduced to.
unfoldable pub int64 : ℤ → ℤ
int64 (pos n) = wrap_pos (n % full_range)
int64 (negsuc n) = wrap_neg (n % full_range)

abbrev pub IsInt64 : ℤ → Type 0
IsInt64 z = (pos_part z < half_range) × (neg_part z ≤ half_range)

-- An integer that fits is its own reduction.
pub int64-eq : (z : ℤ) → IsInt64 z → int64 z ≡ z
unfolding int64
int64-eq (pos n) h = ground arith
int64-eq (negsuc n) h = ground arith

pub int64-IsInt64 : (z : ℤ) → IsInt64 (int64 z)
unfolding int64
int64-IsInt64 (pos n) = ground arith
int64-IsInt64 (negsuc n) = ground arith

-- The sum of two int64 that are not negative comes out negative exactly when it does not fit.
pub int64_overflow :
    (a b : ℤ)
    → IsInt64 a
    → IsInt64 b
    → pos 0 ≤ℤ a
    → pos 0 ≤ℤ b
    → pos 0 ≤ℤ int64 (a +ℤ b)
    → int64 (a +ℤ b) ≡ a +ℤ b
unfolding ◌+ℤ◌ int64
int64_overflow (pos m) (pos n) ha hb pa pb h = ground arith
int64_overflow (negsuc m) b ha hb pa pb h = absurd (omega arith)
int64_overflow (pos m) (negsuc n) ha hb pa pb h = absurd (omega arith)

-- A difference within [0, b] does not wrap, and is the sum with the negated number.
pub int64_difference :
    (b c : ℤ)
    → IsInt64 b
    → pos 0 ≤ℤ c
    → c ≤ℤ b
    → (int64 (b -ℤ c) ≡ b +ℤ negate c) × (pos 0 ≤ℤ b +ℤ negate c) × IsInt64 (b +ℤ negate c)
unfolding ◌+ℤ◌ ◌-ℤ◌ int64
int64_difference (pos m) (pos n) hb pc h = ground arith
int64_difference (negsuc m) c hb pc h = absurd (omega arith)
int64_difference (pos m) (negsuc n) hb pc h = absurd (omega arith)

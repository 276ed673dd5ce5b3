-- ===== src/Prelude/Int.antt =====
-- Signed integers over the native numbers, and Go's fixed-width `int32`, `int64`. An `int32` or an
-- `int64` is the integer that it stands for; the operations that may leave the range wrap.
use Prim.Native.Nat.{ℕ, zero, suc, ◌+◌, ◌-◌, ◌*◌, ◌^◌, ◌%◌, ◌≤◌, ◌<◌}
use mathlib.Core.Path.{◌≡◌}
use mathlib.Core.Logic.{◌↔◌}
use mathlib.Core.Bool.{Bool, true}
use native.Mathlib.Omega.{arith}
use hotswap_operator.Prelude.Tests.{ltb, leb, ◌==◌, if◌then◌else◌}

-- `negsuc n` is -(n + 1).
pub data ℤ : Type 0 where
  pos : ℕ → ℤ
  negsuc : ℕ → ℤ

abbrev pub pos_part : ℤ → ℕ
pos_part (pos n) = n
pos_part (negsuc n) = 0

abbrev pub neg_part : ℤ → ℕ
neg_part (pos n) = 0
neg_part (negsuc n) = suc n

-- a - b, as an integer.
abbrev pub sub_ℕ : ℕ → ℕ → ℤ
sub_ℕ a b = if leb b a then pos (a - b) else negsuc (b - a - 1)

infixl 65 ◌+ℤ◌
infixl 70 ◌*ℤ◌
infix 50 ◌≤ℤ◌ ◌<ℤ◌ ◌=ℤ◌
unfoldable pub ◌+ℤ◌ : ℤ → ℤ → ℤ
a +ℤ b = sub_ℕ (pos_part a + pos_part b) (neg_part a + neg_part b)

unfoldable pub ◌*ℤ◌ : ℤ → ℤ → ℤ
a *ℤ b =
    sub_ℕ (pos_part a * pos_part b + neg_part a * neg_part b)
      (pos_part a * neg_part b + neg_part a * pos_part b)

abbrev pub ◌≤ℤ◌ : ℤ → ℤ → Type 0
a ≤ℤ b = pos_part a + neg_part b ≤ pos_part b + neg_part a

abbrev pub ◌<ℤ◌ : ℤ → ℤ → Type 0
a <ℤ b = pos_part a + neg_part b < pos_part b + neg_part a

abbrev pub ltb_ℤ : ℤ → ℤ → Bool
ltb_ℤ a b = ltb (pos_part a + neg_part b) (pos_part b + neg_part a)

abbrev pub leb_ℤ : ℤ → ℤ → Bool
leb_ℤ a b = leb (pos_part a + neg_part b) (pos_part b + neg_part a)

unfoldable pub ◌=ℤ◌ : ℤ → ℤ → Bool
a =ℤ b = (pos_part a + neg_part b) == (pos_part b + neg_part a)

pub =ℤ_iff : (a b : ℤ) → ((a =ℤ b) ≡ true) ↔ (a ≡ b)
unfolding ◌=ℤ◌
=ℤ_iff (pos a) (pos b) = ground arith
=ℤ_iff (pos a) (negsuc b) = ground arith
=ℤ_iff (negsuc a) (pos b) = ground arith
=ℤ_iff (negsuc a) (negsuc b) = ground arith

-- The integer that a 32-bit or 64-bit pattern stands for.
abbrev signed32 : ℕ → ℤ
signed32 u = if ltb u (2 ^ 31) then pos u else negsuc (2 ^ 32 - 1 - u)

abbrev signed64 : ℕ → ℤ
signed64 u = if ltb u (2 ^ 63) then pos u else negsuc (2 ^ 64 - 1 - u)

-- What is left of an integer in an `int32`.
unfoldable pub wrap32 : ℤ → ℤ
wrap32 (pos n) = signed32 (n % 2 ^ 32)
wrap32 (negsuc n) = signed32 (2 ^ 32 - 1 - n % 2 ^ 32)

-- What is left of an integer in an `int64`.
unfoldable pub wrap64 : ℤ → ℤ
wrap64 (pos n) = signed64 (n % 2 ^ 64)
wrap64 (negsuc n) = signed64 (2 ^ 64 - 1 - n % 2 ^ 64)

abbrev pub max_int32 : ℕ
max_int32 = 2147483647

-- The range of an `int32`.
abbrev pub IsInt32 : ℤ → Type 0
IsInt32 v = (negsuc max_int32 ≤ℤ v) × (v ≤ℤ pos max_int32)

-- `x++` on an `int32`.
unfoldable pub inc32 : ℤ → ℤ
unfolding wrap32 ◌+ℤ◌
inc32 x = wrap32 (x +ℤ pos 1)

-- Below the largest `int32` a counter that is not negative goes up by one.
pub inc32_pos : (n : ℕ) → n < max_int32 → inc32 (pos n) ≡ pos (suc n)
unfolding inc32
inc32_pos n h = ground arith

pub inc32_lem : (x : ℤ) → pos 0 ≤ℤ x → x <ℤ pos max_int32 → inc32 x ≡ pos (suc (pos_part x))
inc32_lem (pos n) h k = inc32_pos n (omega arith)
inc32_lem (negsuc n) h k = absurd (omega arith)

-- `a * b` on an `int64`.
unfoldable pub mul64 : ℤ → ℤ → ℤ
unfolding wrap64 ◌*ℤ◌
mul64 a b = wrap64 (a *ℤ b)

-- The product of two numbers stays in range where it fits 63 bits.
pub mul64_pos : (m n : ℕ) → m * n < 2 ^ 63 → mul64 (pos m) (pos n) ≡ pos (m * n)
unfolding mul64
mul64_pos m n h = ground arith

-- The number that is set, or the default where the field is 0 or less.
abbrev pub set_or : ℤ → ℕ → ℕ
set_or (pos zero) def = def
set_or (pos (suc n)) def = suc n
set_or (negsuc n) def = def

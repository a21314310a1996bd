-- ===== src/Prelude/Int.antt =====
-- Go's `int` on a 64-bit machine, as an integer that wraps around, and `uint64`.
use Prim.Native.Nat.{ℕ, suc, ◌+◌, ◌-◌, ◌*◌, ◌%◌, ◌<◌}
use mathlib.Core.Path.{◌≡◌}
use mathlib.Core.Bool.{Bool}
use native.Mathlib.Omega.{arith}
use fluidfs.Prelude.Tests.{ltb, leb, if◌then◌else◌}

-- `negsuc n` is -(n + 1).
pub data ℤ : Type 0 where
  pos : ℕ → ℤ
  negsuc : ℕ → ℤ

abbrev pub pos_part : ℤ → ℕ
pos_part (pos n) = n
pos_part (negsuc n) = 0

abbrev pub neg_part : ℤ → ℕ
neg_part (pos n) = 0
neg_part (negsuc n) = suc n

abbrev pub sub_ℕ : ℕ → ℕ → ℤ
sub_ℕ a b = if leb b a then pos (a - b) else negsuc (b - a - 1)

abbrev pub u64_mod : ℕ
u64_mod = 18446744073709551616

abbrev pub int_limit : ℕ
int_limit = 9223372036854775808

-- The `int` that has the bits of `z`.
unfoldable pub wrap : ℤ → ℤ
wrap (pos n) = let r = n % u64_mod in if ltb r int_limit then pos r else negsuc (u64_mod - r - 1)
wrap (negsuc n) = let r = n % u64_mod in if ltb r int_limit then negsuc r else pos (u64_mod - r - 1)

infixl 65 ◌+ℤ◌ ◌-ℤ◌
unfoldable pub ◌+ℤ◌ : ℤ → ℤ → ℤ
unfolding wrap
a +ℤ b = wrap (sub_ℕ (pos_part a + pos_part b) (neg_part a + neg_part b))

unfoldable pub ◌-ℤ◌ : ℤ → ℤ → ℤ
unfolding wrap
a -ℤ b = wrap (sub_ℕ (pos_part a + neg_part b) (neg_part a + pos_part b))

abbrev pub ltb_ℤ : ℤ → ℤ → Bool
ltb_ℤ a b = ltb (pos_part a + neg_part b) (pos_part b + neg_part a)

-- `uint64(z)`
unfoldable pub to_u64 : ℤ → ℕ
to_u64 (pos n) = n % u64_mod
to_u64 (negsuc n) = u64_mod - n % u64_mod - 1

-- A sum or a difference that fits is exact.
pub +ℤ-pos : (a b : ℕ) → a + b < int_limit → pos a +ℤ pos b ≡ pos (a + b)
unfolding ◌+ℤ◌
+ℤ-pos a b h = ground arith

pub -ℤ-pos : (a b : ℕ) → a < int_limit → b < int_limit → pos a -ℤ pos b ≡ sub_ℕ a b
unfolding ◌-ℤ◌
-ℤ-pos a b h k = ground arith

pub neg-+ℤ : (a b : ℕ) → a < int_limit → b < int_limit → sub_ℕ 0 a +ℤ pos b ≡ sub_ℕ b a
unfolding ◌+ℤ◌
neg-+ℤ a b h k = ground arith

pub to_u64-pos : (n : ℕ) → n < u64_mod → to_u64 (pos n) ≡ n
unfolding to_u64
to_u64-pos n h = omega arith

-- `a + b`, `a - b` and `a * b` of type `uint64`.
abbrev pub add_u64 : ℕ → ℕ → ℕ
add_u64 a b = (a + b) % u64_mod

abbrev pub sub_u64 : ℕ → ℕ → ℕ
sub_u64 a b = (a + u64_mod - b) % u64_mod

abbrev pub mul_u64 : ℕ → ℕ → ℕ
mul_u64 a b = a * b % u64_mod

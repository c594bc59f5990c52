-- ===== src/Prelude/Int.antt =====
-- Signed integers over the native numbers: Go's `time.Duration`, `int32` and `int64` values.
-- `negsuc n` is -(n + 1).
use Prim.Native.Nat.{◌%◌, ℕ, zero, suc, ◌+◌, ◌-◌, ◌≤◌, ◌<◌}
use mathlib.Core.Path.{◌≡◌}
use mathlib.Core.Bool.{Bool}
use native.Mathlib.Omega.{arith}
use roost_keeper.Prelude.Tests.{ltb, leb, ◌==◌, if◌then◌else◌}

pub data ℤ : Type 0 where
  pos : ℕ → ℤ
  negsuc : ℕ → ℤ

abbrev pub pos_part : ℤ → ℕ
pos_part (pos n) = n
pos_part (negsuc n) = 0

abbrev pub neg_part : ℤ → ℕ
neg_part (pos n) = 0
neg_part (negsuc n) = suc n

-- a - b, as an integer
abbrev pub sub_ℕ : ℕ → ℕ → ℤ
sub_ℕ a b = if leb b a then pos (a - b) else negsuc (b - a - 1)

infixl 65 ◌+ℤ◌
unfoldable pub ◌+ℤ◌ : ℤ → ℤ → ℤ
a +ℤ b = sub_ℕ (pos_part a + pos_part b) (neg_part a + neg_part b)

infix 50 ◌≤ℤ◌ ◌<ℤ◌
abbrev pub ◌≤ℤ◌ : ℤ → ℤ → Type 0
a ≤ℤ b = pos_part a + neg_part b ≤ pos_part b + neg_part a

abbrev pub ◌<ℤ◌ : ℤ → ℤ → Type 0
a <ℤ b = pos_part a + neg_part b < pos_part b + neg_part a

abbrev pub ltb_ℤ : ℤ → ℤ → Bool
ltb_ℤ a b = ltb (pos_part a + neg_part b) (pos_part b + neg_part a)

abbrev pub leb_ℤ : ℤ → ℤ → Bool
leb_ℤ a b = leb (pos_part a + neg_part b) (pos_part b + neg_part a)

-- `x++` on a signed integer whose largest value is `top`: past it the value wraps to the smallest
unfoldable pub inc : ℕ → ℤ → ℤ
inc top (pos n) = if n == top then negsuc top else pos (suc n)
inc top (negsuc zero) = pos 0
inc top (negsuc (suc n)) = negsuc n

-- `math.MaxInt32` and `math.MaxInt64`
abbrev pub max_int32 : ℕ
max_int32 = 2147483647

abbrev pub max_int64 : ℕ
max_int64 = 9223372036854775807

-- below the largest value `x++` is the successor
pub inc-pos : (top n : ℕ) → n < top → inc top (pos n) ≡ pos (suc n)
unfolding inc
inc-pos top n h = ground arith

-- the low 32 bits of an integer in two's complement
abbrev low_bits : ℤ → ℕ
low_bits (pos n) = n % 4294967296
low_bits (negsuc n) = 4294967295 - n % 4294967296

-- a sum as an `int32`: the low 32 bits, read as a signed value
unfoldable pub wrap_int32 : ℤ → ℤ
wrap_int32 a =
    let low = low_bits a in if ltb low 2147483648 then pos low else negsuc (4294967295 - low)

-- inside the range nothing is lost
pub wrap_int32_self : (n : ℕ) → n ≤ max_int32 → wrap_int32 (pos n) ≡ pos n
unfolding wrap_int32
wrap_int32_self n h = ground arith

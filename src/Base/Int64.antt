-- ===== src/Base/Int64.antt =====
-- `int64` as the 64-bit pattern of two's complement: a number below 2 ^ 64 whose upper half stands
-- for the negative values. Sums and differences wrap.
use Prim.Native.Nat.{ℕ, ◌+◌, ◌-◌, ◌%◌, ◌^◌, ◌<◌}
use mathlib.Core.Path.{◌≡◌}
use mathlib.Core.Bool.{Bool}
use native.Mathlib.Omega.{arith}
use fast_and_accurate_store.Base.Tests.{ltb, leb}

unfoldable pub add64 : ℕ → ℕ → ℕ
add64 a b = (a + b) % 2 ^ 64

unfoldable pub sub64 : ℕ → ℕ → ℕ
sub64 a b = (a + (2 ^ 64 - b % 2 ^ 64)) % 2 ^ 64

-- The signed value moved up by 2 ^ 63, so that the order of the integers is that of the numbers.
abbrev pub biased : ℕ → ℕ
biased a = (a + 2 ^ 63) % 2 ^ 64

-- a < b and a <= b of Go's `int64`.
abbrev pub lt64 : ℕ → ℕ → Bool
lt64 a b = ltb (biased a) (biased b)

abbrev pub le64 : ℕ → ℕ → Bool
le64 a b = leb (biased a) (biased b)

-- 0 < a
abbrev pub is_pos64 : ℕ → Bool
is_pos64 a = lt64 0 a

-- -n
abbrev pub neg64 : ℕ → ℕ
neg64 n = 2 ^ 64 - n

pub sub64-add : (a b : ℕ) → sub64 ((a + b) % 2 ^ 64) b ≡ a % 2 ^ 64
unfolding sub64
sub64-add a b = omega arith

pub add64-mod : (a b : ℕ) → add64 (a % 2 ^ 64) b ≡ (a + b) % 2 ^ 64
unfolding add64
add64-mod a b = omega arith

-- On patterns of non-negative values the signed order is the order of the numbers.
pub le64_iff_small : (a b : ℕ) → a < 2 ^ 63 → b < 2 ^ 63 → le64 a b ≡ leb a b
le64_iff_small a b h k = ground arith

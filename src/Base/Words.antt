-- ===== src/Base/Words.antt =====
-- The fixed-width integers of C as natural numbers: a signed value is its bit pattern.
use Prim.Native.Nat.{ℕ, ◌+◌, ◌-◌, ◌*◌, ◌/◌, ◌%◌, ◌^◌}
use mathlib.Core.Bool.{Bool}
use ch_arm_v5_system_emulato.Base.Tests.{ltb, if◌then◌else◌, ◌==◌}

abbrev pub u8 : ℕ → ℕ
u8 n = n % 2 ^ 8

abbrev pub u32 : ℕ → ℕ
u32 n = n % 2 ^ 32

abbrev pub u64 : ℕ → ℕ
u64 n = n % 2 ^ 64

infixl 75 ◌<<<◌ ◌>>>◌
abbrev pub ◌<<<◌ : ℕ → ℕ → ℕ
x <<< k = x * 2 ^ k

abbrev pub ◌>>>◌ : ℕ → ℕ → ℕ
x >>> k = x / 2 ^ k

-- `a + b` and `a - b` on `uint64_t`.
abbrev pub add64 : ℕ → ℕ → ℕ
add64 a b = u64 (a + b)

abbrev pub sub64 : ℕ → ℕ → ℕ
sub64 a b = u64 (a + 2 ^ 64 - b)

-- `~x` on `uint64_t`.
abbrev pub not64 : ℕ → ℕ
not64 x = 2 ^ 64 - 1 - x

-- Bit `i` of a number, as `(x >> i) & 1`.
abbrev pub bit : ℕ → ℕ → ℕ
bit x i = x >>> i % 2

abbrev pub test_bit : ℕ → ℕ → Bool
test_bit x i = bit x i == 1

-- `(int64_t) x >> k`: copies of the sign bit come in from the left.
abbrev pub asr64 : ℕ → ℕ → ℕ
asr64 x k = if ltb x (2 ^ 63) then x >>> k else 2 ^ 64 - 1 - (2 ^ 64 - 1 - x) >>> k

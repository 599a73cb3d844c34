-- ===== src/Config.antt =====
-- What the checks of a cache's parameters in src/cache/csim.c and src/base/handle_args.c are made
-- of: `int` arithmetic, and `__builtin_popcountll`.
pub mod Popcount
use ch_arm_v5_system_emulato.Base.{
  ℕ, zero, suc, ◌+◌, ◌-◌, ◌*◌, ◌/◌, ◌%◌, ◌^◌, Bool, ◌&&◌, ◌||◌, not, Option, none, some, ◌==◌, ltb,
  if◌then◌else◌, ℤ, pos, negsuc, pos_part, neg_part, sub_ℕ, ltb_ℤ,
}

-- The bits that are set of the lowest `n`.
unfoldable pub popcount : ℕ → ℕ → ℕ
popcount zero x = 0
popcount (suc n) x = x % 2 + popcount n (x / 2)

-- `__builtin_popcountll` of an `int`, which is converted to 64 bits first.
abbrev pub popcountll : ℤ → ℕ
popcountll (pos n) = popcount 64 n
popcountll (negsuc n) = popcount 64 (2 ^ 64 - suc n)

abbrev pub is_negative : ℤ → Bool
is_negative x = ltb_ℤ x (pos 0)

abbrev pub magnitude : ℤ → ℕ
magnitude x = pos_part x + neg_part x

abbrev pub with_sign : Bool → ℕ → ℤ
with_sign negative m = if negative then sub_ℕ 0 m else pos m

-- A result of `int` arithmetic, `none` where it overflows.
abbrev pub to_int : Bool → ℕ → Option ℤ
to_int negative m =
    if ltb m (2 ^ 31) || negative && m == 2 ^ 31 then some (with_sign negative m) else none

abbrev pub signs_differ : ℤ → ℤ → Bool
signs_differ a b = is_negative a && not (is_negative b) || not (is_negative a) && is_negative b

abbrev pub int_mul : ℤ → ℤ → Option ℤ
int_mul a b = to_int (signs_differ a b) (magnitude a * magnitude b)

-- A division by zero ends the program.
abbrev pub int_div : ℤ → ℤ → Option ℤ
int_div a b =
    if magnitude b == 0 then none else to_int (signs_differ a b) (magnitude a / magnitude b)

-- An `int` as an `unsigned int`.
abbrev pub unsigned_of : ℤ → ℕ
unsigned_of (pos n) = n
unsigned_of (negsuc n) = 2 ^ 32 - suc n

-- A block size that is a power of two and at least 8.
abbrev pub valid_block : ℤ → Bool
valid_block b = not (ltb_ℤ b (pos 8)) && popcountll b == 1

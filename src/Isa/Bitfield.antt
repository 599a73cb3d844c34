-- ===== src/Isa/Bitfield.antt =====
-- `bitfield_u32` and `bitfield_s64` of src/pipe/instr_base.c. `& ((1 << width) - 1)` is written as
-- the remainder by `2 ^ width`; every call has a width below 31.
use ch_arm_v5_system_emulato.Base.{
  ℕ, ◌+◌, ◌-◌, ◌%◌, ◌^◌, ltb, if◌then◌else◌, u64, asr64, ◌<<<◌, ◌>>>◌,
}

-- `src >> k` on an `int32_t` that is given as its bit pattern.
abbrev pub asr32 : ℕ → ℕ → ℕ
asr32 x k = if ltb x (2 ^ 31) then x >>> k else 2 ^ 32 - 1 - (2 ^ 32 - 1 - x) >>> k

-- `(int64_t) src`.
abbrev pub to_int64 : ℕ → ℕ
to_int64 x = if ltb x (2 ^ 31) then x else 2 ^ 64 - 2 ^ 32 + x

unfoldable pub bitfield_u32 : ℕ → ℕ → ℕ → ℕ
bitfield_u32 src frompos width = asr32 src frompos % 2 ^ width

unfoldable pub bitfield_s64 : ℕ → ℕ → ℕ → ℕ
bitfield_s64 src frompos width =
    asr64 (u64 ((asr64 (to_int64 src) frompos % 2 ^ width) <<< (64 - width))) (64 - width)

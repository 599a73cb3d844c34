-- ===== src/Arch/Encoding/Fields.antt =====
-- The bit fields of an instruction word by division and remainder.
use ch_arm_v5_system_emulato.Base.{ℕ, ◌/◌, ◌%◌, ◌^◌, ◌<◌, ◌≡◌, arith}
use ch_arm_v5_system_emulato.Isa.Bitfield.{bitfield_u32}

-- The fields of an instruction word.
module _ (x : ℕ) (h : x < 2 ^ 32) where
  pub field_0_5 : bitfield_u32 x 0 5 ≡ x % 32
  unfolding bitfield_u32
  field_0_5 = ground arith

  pub field_5_5 : bitfield_u32 x 5 5 ≡ x / 32 % 32
  unfolding bitfield_u32
  field_5_5 = ground arith

  pub field_16_5 : bitfield_u32 x 16 5 ≡ x / 65536 % 32
  unfolding bitfield_u32
  field_16_5 = ground arith

  pub field_10_12 : bitfield_u32 x 10 12 ≡ x / 1024 % 4096
  unfolding bitfield_u32
  field_10_12 = ground arith

  pub field_16_6 : bitfield_u32 x 16 6 ≡ x / 65536 % 64
  unfolding bitfield_u32
  field_16_6 = ground arith

  pub field_5_16 : bitfield_u32 x 5 16 ≡ x / 32 % 65536
  unfolding bitfield_u32
  field_5_16 = ground arith

  pub field_21_2 : bitfield_u32 x 21 2 ≡ x / 2097152 % 4
  unfolding bitfield_u32
  field_21_2 = ground arith

  pub field_12_4 : bitfield_u32 x 12 4 ≡ x / 4096 % 16
  unfolding bitfield_u32
  field_12_4 = ground arith

  pub field_10_1 : bitfield_u32 x 10 1 ≡ x / 1024 % 2
  unfolding bitfield_u32
  field_10_1 = ground arith

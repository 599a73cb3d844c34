-- ===== src/Mem/Examples.antt =====
-- The segments of a test program, for the tests of what uses
-- src/base/mem.c.
use ch_arm_v5_system_emulato.Base.{◌-◌, ◌^◌, [], ◌∷◌}
use ch_arm_v5_system_emulato.Mem.Bytes.{Segments}

abbrev pub segments : Segments
segments = record {
  max_addr = 2 ^ 64 - 1;
  addr_size = 64;
  seg_start_addr =
      0x0 ∷ 0x400000 ∷ 0x800000 ∷ 0x10000000 ∷ 0x400000000 ∷ 0x800000000 ∷ 0x1000000000000 ∷ [];
  seg_prot = 0x0 ∷ 0x5 ∷ 0x6 ∷ 0x6 ∷ 0x5 ∷ 0x6 ∷ 0x0 ∷ [];
}

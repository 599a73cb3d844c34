-- ===== src/Mem/Tests.antt =====
-- The memory on small inputs.
use ch_arm_v5_system_emulato.Base.{ℕ, ◌*◌, ◌%◌, ◌^◌, ltb, if◌then◌else◌, ◌≡◌, arith, sub64, ◌>>>◌}
use ch_arm_v5_system_emulato.Mem.Ptable.{empty_ptable}
use ch_arm_v5_system_emulato.Mem.Bytes.{mem_read_le, mem_write_le}
use ch_arm_v5_system_emulato.Mem.Examples.{segments}
use ch_arm_v5_system_emulato.Mem.Bytes.Empty.{empty_ptable-IsMemory}
use ch_arm_v5_system_emulato.Mem.Bytes.Flat.{byte_at}
use ch_arm_v5_system_emulato.Mem.Bytes.LittleEndian.{
  le_value, IsMemory, mem_read_le-flat, mem_write_le-flat, read-write,
}

-- The word crosses a page.
mem_write_le-flat_example :
    let ptable' = mem_write_le 0x800FFC 0x1122334455667788 8 empty_ptable in
    let j = sub64 0x801000 0x800FFC in
    (byte_at ptable' 0x801000
      ≡ (if ltb j 8 then 0x1122334455667788 >>> (8 * j) % 256 else byte_at empty_ptable 0x801000))
    × IsMemory ptable'
mem_write_le-flat_example =
    mem_write_le-flat 0x800FFC 0x1122334455667788 8 0x801000 empty_ptable empty_ptable-IsMemory
      (omega arith) (omega arith) (omega arith)

mem_read_le-flat_example :
    let (value, ptable') = mem_read_le segments 0x800FFC 8 empty_ptable in
    (value ≡ le_value (byte_at empty_ptable) 0x800FFC 8)
    × ((a : ℕ) → byte_at ptable' a ≡ byte_at empty_ptable a)
    × IsMemory ptable'
mem_read_le-flat_example =
    mem_read_le-flat segments 0x800FFC 8 empty_ptable empty_ptable-IsMemory (omega arith)

read-write_example :
    (mem_read_le segments 0x800FFC 8 (mem_write_le 0x800FFC 0x1122334455667788 8 empty_ptable)).0
    ≡ 0x1122334455667788 % 256 ^ 8
read-write_example =
    read-write segments 0x800FFC 0x1122334455667788 8 empty_ptable empty_ptable-IsMemory
      (omega arith)

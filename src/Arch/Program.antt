-- ===== src/Arch/Program.antt =====
-- Programs of data-processing instructions in the text segment, and their runs by the loop of
-- `runElf` in src/base/proc.c.
pub mod Run
pub mod Start
mod Tests
use ch_arm_v5_system_emulato.Base.{
  ℕ, suc, ◌+◌, ◌*◌, ◌/◌, ◌%◌, ◌^◌, ◌<◌, ◌≤◌, Bool, true, false, ◌&&◌, ◌||◌, not, List, [], ◌∷◌,
  length, some, ◌>>=◌, ◌==◌, if◌then◌else◌, bit_and, u32, add64, leb, ltb, ◌≡◌, refl, ap, sym, ◌∙◌,
  arith,
}
use ch_arm_v5_system_emulato.Bits.{bit_and-mask}
use ch_arm_v5_system_emulato.Hw.Ports.{imem}
use ch_arm_v5_system_emulato.Hw.Regfile.{Proc}
use ch_arm_v5_system_emulato.Cache.{Cache}
use ch_arm_v5_system_emulato.Mem.Bytes.{
  Segments, seg_start, text_seg, data_seg, addr_in_imem, is_special_addr, null_addr, io_char_addr,
  ret_from_main_addr, checkpoint_addr, mem_read_le,
}
use ch_arm_v5_system_emulato.Mem.Bytes.Flat.{byte_at}
use ch_arm_v5_system_emulato.Mem.Bytes.LittleEndian.{le_value, IsMemory, mem_read_le-flat}
use ch_arm_v5_system_emulato.Mem.Access.{MemSystem, mem_read}
use ch_arm_v5_system_emulato.Arch.{Instr, encode, IsInstr, exec_wired, IsProc}
use ch_arm_v5_system_emulato.Arch.Flow.Enter.{Avoids31}

-- The registers with their flags, and the flags that the conditions read, after a list of
-- instructions.
abbrev pub exec_all : List Instr → Proc × ℕ → Proc × ℕ
exec_all [] state = state
exec_all (i ∷ program) state = exec_all program (exec_wired i state)

-- Encodings in memory from an address on, lowest byte first.
abbrev pub Holds : (ℕ → ℕ) → ℕ → List Instr → Type 0
Holds byte pc [] = Unit {0}
Holds byte pc (i ∷ program) = (le_value byte pc 4 ≡ encode i) × Holds byte (pc + 4) program

-- Instructions with operands in range that write neither the stack pointer nor the zero register.
abbrev pub AreInstrs : List Instr → Type 0
AreInstrs [] = Unit {0}
AreInstrs (i ∷ program) = IsInstr i × Avoids31 i × AreInstrs program

-- `size` words of the text segment, which ends below 2^63.
pub record InText (segments : Segments) (pc size : ℕ) : Type 0 where
  pub positive : 0 < pc
  pub aligned : pc % 4 ≡ 0
  pub above : seg_start segments text_seg ≤ pc
  pub below : pc + 4 * size ≤ seg_start segments data_seg
  pub ends : seg_start segments data_seg < 2 ^ 63

-- A fetch from the text segment does not go through the data cache.
module _ (pc : ℕ) (mem : MemSystem) (above : seg_start mem.segments text_seg ≤ pc)
    (below : pc < seg_start mem.segments data_seg) where
  abbrev after_fetch : MemSystem
  after_fetch = record mem { ptable = (mem_read_le mem.segments pc 4 mem.ptable).1 }

  ordinary_lem : 0 < pc → seg_start mem.segments data_seg < 2 ^ 63 → is_special_addr pc ≡ false
  unfolding is_special_addr
  ordinary_lem positive ends = ground arith

  in_text : addr_in_imem mem.segments pc ≡ true
  unfolding addr_in_imem
  in_text = ground arith

  mem_read-text :
      is_special_addr pc ≡ false
      → mem_read pc 4 mem ≡ some ((mem_read_le mem.segments pc 4 mem.ptable).0, after_fetch)
  unfolding mem_read
  mem_read-text ordinary = ground arith

-- The fetch of the first of `suc size` words gives its number, and no byte changes.
pub imem-text :
    (pc size : ℕ) (mem : MemSystem)
    → InText mem.segments pc (suc size)
    → IsMemory mem.ptable
    → let x = le_value (byte_at mem.ptable) pc 4 in
      (mem' : MemSystem) × (imem pc mem ≡ some (u32 x, false, mem'))
      × (mem'.segments ≡ mem.segments)
      × (mem'.dmem_status ≡ mem.dmem_status)
      × IsMemory mem'.ptable
      × ((a : ℕ) → byte_at mem'.ptable a ≡ byte_at mem.ptable a)
unfolding imem
imem-text pc size mem text ok =
    let below : pc < seg_start mem.segments data_seg = omega (arith, text.below) in
    let ordinary = ordinary_lem pc mem text.above below text.positive text.ends in
    let (value, same, ok') = mem_read_le-flat mem.segments pc 4 mem.ptable ok (omega arith) in
    let low : bit_and pc 0x3 ≡ 0 = bit_and-mask pc 2 ∙ text.aligned in
    (
      after_fetch pc mem text.above below,
      rw
          (
            mem_read-text pc mem text.above below ordinary,
            in_text pc mem text.above below,
            low,
            value,
          )
          refl,
      refl,
      refl,
      ok',
      same,
    )

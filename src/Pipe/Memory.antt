-- ===== src/Pipe/Memory.antt =====
-- src/pipe/instr_Memory.c: the memory stage.
use ch_arm_v5_system_emulato.Base.{ℕ, false, ◌||◌, Option, some, ◌>>=◌, if◌then◌else◌, sub64}
use ch_arm_v5_system_emulato.Isa.{stat_adr, stat_ins, ◌is_stat◌}
use ch_arm_v5_system_emulato.Mem.Access.{MemSystem}
use ch_arm_v5_system_emulato.Hw.Ports.{dmem}
use ch_arm_v5_system_emulato.Pipe.Regs.{MInstr, WInstr}

-- What `memory_instr` leaves behind: `*out` (`W_in`), the wire `M_PC`, and the memory.
pub record MemoryOut : Type 0 where
  pub out : WInstr
  pub m_pc : ℕ
  pub mem : MemSystem

-- `memory_instr`. `out` and `m_pc` are `W_in` and `M_PC` before the call.
unfoldable pub memory_instr : MInstr → WInstr → ℕ → MemSystem → Option MemoryOut
memory_instr inp out m_pc mem = do
  (val_mem, error, mem') ←
      dmem inp.val_ex inp.val_b inp.m_sigs.dmem_read inp.m_sigs.dmem_write out.val_mem false mem
  let status = if error then stat_adr else inp.status
  some (record {
    out = record {
      op = inp.op;
      print_op = inp.print_op;
      w_sigs = inp.w_sigs;
      dst = inp.dst;
      val_ex = inp.val_ex;
      val_mem = val_mem;
      status = status;
    };
    m_pc =
        if status is_stat stat_adr || status is_stat stat_ins
        then sub64 inp.multipurpose_val 4
        else m_pc;
    mem = mem';
  })

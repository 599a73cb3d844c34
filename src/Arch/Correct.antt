-- ===== src/Arch/Correct.antt =====
-- An instruction that is carried out on its own from the decode stage on does what the architecture
-- says.
use ch_arm_v5_system_emulato.Base.{ℕ, List, length, some, ◌≡◌}
use ch_arm_v5_system_emulato.Hw.Adder.{FullAdder}
use ch_arm_v5_system_emulato.Hw.Regfile.{Proc}
use ch_arm_v5_system_emulato.Mem.Access.{MemSystem}
use ch_arm_v5_system_emulato.Pipe.Decode.{decode_instr}
use ch_arm_v5_system_emulato.Pipe.Decode.Registers.{RegNums}
use ch_arm_v5_system_emulato.Arch.{
  Instr, with_imm, with_reg, with_shift, with_mov, with_sel, encode, IsInstr, exec, IsProc,
}
use ch_arm_v5_system_emulato.Arch.Travel.{fetched, retire}
use ch_arm_v5_system_emulato.Arch.Registers.{retire-with_reg}
use ch_arm_v5_system_emulato.Arch.Immediates.{retire-with_imm, retire-with_shift}
use ch_arm_v5_system_emulato.Arch.Moves.{retire-with_mov, retire-with_sel}

module _ (regs : RegNums) (pc : ℕ) (proc : Proc) (rca : List FullAdder) (size : length rca ≡ 64)
    (ok : IsProc proc) where
  pub retire-exec :
      (i : Instr) (mem : MemSystem)
      → IsInstr i
      → retire proc rca mem (decode_instr regs proc (fetched (encode i) pc)).out
        ≡ some (exec i proc, mem)
  retire-exec (with_imm op d n imm) mem h =
      retire-with_imm regs pc proc rca mem op d n imm h ok size
  retire-exec (with_reg op d n m) mem h = retire-with_reg regs pc proc rca mem op d n m h ok size
  retire-exec (with_shift op d n s) mem h =
      retire-with_shift regs pc proc rca mem op d n s h ok size
  retire-exec (with_mov op d imm hw) mem h = retire-with_mov regs pc proc rca mem op d imm hw h
  retire-exec (with_sel op d n m cond) mem h =
      retire-with_sel regs pc proc rca mem op d n m cond h ok size

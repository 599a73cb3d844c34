-- ===== src/Arch/Program/Tests.antt =====
-- A program of four instructions on the guest machine.
use ch_arm_v5_system_emulato.Base.{ℕ, List, [], ◌∷◌, none, ◌≡◌, refl}
use ch_arm_v5_system_emulato.Isa.{c_lt}
use ch_arm_v5_system_emulato.Pipe.Decode.Registers.{RegNums}
use ch_arm_v5_system_emulato.Mem.Ptable.{PageTable, empty_ptable}
use ch_arm_v5_system_emulato.Mem.Bytes.{mem_write_le}
use ch_arm_v5_system_emulato.Machine.{CacheArgs}
use ch_arm_v5_system_emulato.Arch.{
  Instr, with_imm, with_reg, with_mov, with_sel, add_imm, subs, movz, csneg, exec, condition_holds,
  get_x,
}
use ch_arm_v5_system_emulato.Hw.Alu.{pack_cc}
use ch_arm_v5_system_emulato.Arch.Program.{exec_all}
use ch_arm_v5_system_emulato.Arch.Program.Start.{first_state}

-- MOVZ X1, #7; ADD X2, X1, #5; SUBS X3, X1, X2; CSNEG X4, X1, X2, LT.
abbrev program : List Instr
program =
    with_mov movz 1 7 0
    ∷ with_imm add_imm 2 1 5
    ∷ with_reg subs 3 1 2
    ∷ with_sel csneg 4 1 2 c_lt
    ∷ []

abbrev first_words : PageTable
first_words = mem_write_le 0x400000 0x91001422D28000E1 8 empty_ptable

abbrev code : PageTable
code = mem_write_le 0x400008 0xDA82B424EB020023 8 first_words

abbrev no_cache : CacheArgs
no_cache = record { a_arg = none; b_arg = none; c_arg = none; d_arg = none }

abbrev no_regs : ℕ → RegNums
no_regs n = record { src1 = 32; src2 = 32; dst = 32 }

-- 7 is less than 12, so X4 is X1, and SUBS sets N.
program_run :
    let (proc, wire) = exec_all program (first_state 0) in
    (get_x proc 4 ≡ 7) × (proc.nzcv ≡ 8) × (wire ≡ 8)
unfolding exec condition_holds pack_cc
program_run = (refl, refl, refl)

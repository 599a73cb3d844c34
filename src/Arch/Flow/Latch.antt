-- ===== src/Arch/Flow/Latch.antt =====
-- The latch of `guest.proc->NZCV` at the end of a cycle of src/base/proc.c.
use ch_arm_v5_system_emulato.Base.{
  ℕ, Bool, true, false, if◌then◌else◌, ◌==◌, ◌≡◌, refl, ap, ◌∙◌, arith,
}
use ch_arm_v5_system_emulato.Isa.{Opcode}
use ch_arm_v5_system_emulato.Hw.Regfile.{Proc, regfile_write}
use ch_arm_v5_system_emulato.Mem.Access.{MemSystem}
use ch_arm_v5_system_emulato.Pipe.Regs.{WInstr}
use ch_arm_v5_system_emulato.Pipe.Decode.{decode_instr}
use ch_arm_v5_system_emulato.Pipe.Decode.Control.{generate_dxmw_control}
use ch_arm_v5_system_emulato.Pipe.Decode.Registers.{RegNums}
use ch_arm_v5_system_emulato.Pipe.Execute.{execute_instr}
use ch_arm_v5_system_emulato.Machine.{Guest}
use ch_arm_v5_system_emulato.Arch.{
  adds, subs, ands, orr, eor, orn, lslv, lsrv, add_imm, sub_imm, lsl_imm, lsr_imm, asr_imm, movz,
  movk, csel, csinc, csinv, csneg, Instr, with_imm, with_reg, with_shift, with_mov, with_sel,
  encode, IsInstr, sets_flags,
}
use ch_arm_v5_system_emulato.Arch.Travel.{fetched}
use ch_arm_v5_system_emulato.Arch.Registers.{ite_lem}
use ch_arm_v5_system_emulato.Arch.Flow.{Flows, settled, sets, latched, commit_w}
use ch_arm_v5_system_emulato.Arch.Flow.Cycle.{executed, next}
use ch_arm_v5_system_emulato.Arch.Flow.Drain.{drained-next}
use ch_arm_v5_system_emulato.Arch.Flow.Enter.{opcode_for, encode-Decodes}

abbrev flag_control : Opcode → Bool
flag_control op = (generate_dxmw_control op).x_sigs.set_flags

abbrev Sets : Opcode → Type 0
Sets op = flag_control op ≡ true

set_flags-opcode_for : (i : Instr) → flag_control (opcode_for i) ≡ sets_flags i
unfolding generate_dxmw_control
set_flags-opcode_for (with_imm add_imm d n imm) = refl
set_flags-opcode_for (with_imm sub_imm d n imm) = refl
set_flags-opcode_for (with_reg adds d n m) = ite_lem Sets (d == 31) refl refl
set_flags-opcode_for (with_reg subs d n m) = ite_lem Sets (d == 31) refl refl
set_flags-opcode_for (with_reg ands d n m) = ite_lem Sets (d == 31) refl refl
set_flags-opcode_for (with_reg orr d n m) = refl
set_flags-opcode_for (with_reg eor d n m) = refl
set_flags-opcode_for (with_reg orn d n m) = refl
set_flags-opcode_for (with_reg lslv d n m) = refl
set_flags-opcode_for (with_reg lsrv d n m) = refl
set_flags-opcode_for (with_shift lsl_imm d n s) =
    ite_lem (λ op. flag_control op ≡ false) (s == 0) refl refl
set_flags-opcode_for (with_shift lsr_imm d n s) = refl
set_flags-opcode_for (with_shift asr_imm d n s) = refl
set_flags-opcode_for (with_mov movz d imm hw) = refl
set_flags-opcode_for (with_mov movk d imm hw) = refl
set_flags-opcode_for (with_sel csel d n m cond) = refl
set_flags-opcode_for (with_sel csinc d n m cond) = refl
set_flags-opcode_for (with_sel csinv d n m cond) = refl
set_flags-opcode_for (with_sel csneg d n m cond) = refl

-- The decode stage's register says whether the instruction sets the flags.
pub fetched-sets_flags :
    (i : Instr) (pc : ℕ) → IsInstr i → sets (fetched (encode i) pc) ≡ sets_flags i
fetched-sets_flags i pc valid = ap flag_control (encode-Decodes i valid).1 ∙ set_flags-opcode_for i

nzcv-commit_w : (w : WInstr) (proc : Proc) → (commit_w w proc).nzcv ≡ proc.nzcv
unfolding regfile_write
nzcv-commit_w w proc = ground arith

-- What the cycle after latches.
module _ (regs : RegNums) (g : Guest) (pc x : ℕ) (mem : MemSystem) (flows : Flows g) (v : ℕ) where
  nzcv-next : (next regs g pc x mem).proc.nzcv ≡ latched g
  nzcv-next = nzcv-commit_w g.w.out (record (g.proc) { nzcv = latched g; status = g.w.out.status })

  sets-next : (executed (next regs g pc x mem)).x_set_flags ≡ sets g.d.out
  unfolding execute_instr decode_instr
  sets-next = refl

  pub latched-next :
      latched (next regs g pc x mem) ≡ (if sets g.d.out then (settled regs v g).nzcv else latched g)
  latched-next =
      rw (sets-next, nzcv-next, ap (λ (p : Proc). p.nzcv) (drained-next regs g pc x mem flows v))
        refl

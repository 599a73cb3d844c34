-- ===== src/Arch/Flow.antt =====
-- The pipeline of src/base/proc.c while data-processing instructions go through it: the state in
-- which they can be in its registers, and the registers and flags once they have all come out.
pub mod Stages
pub mod Cycle
pub mod Drain
pub mod Enter
pub mod Latch
pub mod Retire
pub mod Correct
use ch_arm_v5_system_emulato.Base.{
  ℕ, ◌<◌, ◌≤◌, Bool, true, false, ◌&&◌, ◌||◌, not, if◌then◌else◌, List, length, ◌≡◌, ◌⊎◌, arith,
}
use ch_arm_v5_system_emulato.Isa.{
  Opcode, op_nop, op_ldur, op_stur, op_b, op_b_cond, op_bl, op_ret, op_hlt, op_cbz, op_cbnz, op_br,
  op_blr, op_error, ◌is◌, Stat, stat_aok, stat_bub, stat_hlt, ◌is_stat◌,
}
use ch_arm_v5_system_emulato.Hw.Regfile.{Proc, regfile_write}
use ch_arm_v5_system_emulato.Pipe.Regs.{
  DInstr, XInstr, MInstr, WInstr, MCtlSigs, WCtlSigs, zero_m_sigs,
}
use ch_arm_v5_system_emulato.Pipe.Decode.{decode_instr}
use ch_arm_v5_system_emulato.Pipe.Decode.Control.{generate_dxmw_control}
use ch_arm_v5_system_emulato.Pipe.Decode.Registers.{RegNums, extract_regs}
use ch_arm_v5_system_emulato.Pipe.Execute.{execute_instr}
use ch_arm_v5_system_emulato.Pipe.Hazard.{Ctls, error}
use ch_arm_v5_system_emulato.Pipe.Hazard.Control.{NoError}
use ch_arm_v5_system_emulato.Machine.{Guest}

-- An opcode that neither branches nor stops nor uses the memory.
abbrev pub plain : Opcode → Bool
plain op = not (
    op is op_ldur
    || op is op_stur
    || op is op_b
    || op is op_b_cond
    || op is op_bl
    || op is op_ret
    || op is op_hlt
    || op is op_cbz
    || op is op_cbnz
    || op is op_br
    || op is op_blr
    || op is op_error)

-- A write that is not made, or is of a general register by an instruction without an error.
abbrev pub IsWrite : Bool → ℕ → Stat → Type 0
IsWrite w_enable dst status = (w_enable ≡ false) ⊎ ((dst < 31) × (status ≡ stat_aok))

-- The status of an instruction, or of a bubble.
abbrev pub live_status : Stat → Bool
live_status status = status is_stat stat_aok || status is_stat stat_bub

-- The parts of a pipeline register from execute on.
pub record IsPlain (op : Opcode) (w_sigs : WCtlSigs) (dst : ℕ) (status : Stat) : Type 0 where
  pub plain_op : plain op ≡ true
  pub dst_sel : w_sigs.dst_sel ≡ false
  pub wval_sel : w_sigs.wval_sel ≡ false
  pub write : IsWrite w_sigs.w_enable dst status
  pub live : live_status status ≡ true

abbrev pub writes : DInstr → Bool
writes d = (generate_dxmw_control d.op).w_sigs.w_enable

abbrev pub target : RegNums → DInstr → ℕ
target regs d = (extract_regs d.insnbits d.op d.format regs).dst

-- Its sources are registers.
abbrev pub Sources : RegNums → DInstr → Type 0
Sources regs d =
    let nums = extract_regs d.insnbits d.op d.format regs in (nums.src1 ≤ 32) × (nums.src2 ≤ 32)

abbrev pub ctls_of : Guest → Ctls
ctls_of g = record { f = g.f.ctl; d = g.d.ctl; x = g.x.ctl; m = g.m.ctl; w = g.w.ctl }

pub live-error : (status : Stat) → live_status status ≡ true → error status ≡ false
unfolding error
live-error status h = ground arith

-- The pipeline registers hold bubbles and such instructions, and nothing is stalled or has failed.
pub record Flows (g : Guest) : Type 0 where
  pub fetching : (g.f.inp.status is_stat stat_hlt) ≡ false
  pub no_ctl_error : NoError (ctls_of g)
  pub flags : g.deassert_flags ≡ false
  pub cells : length g.rca ≡ 64
  pub size : length g.proc.gpr ≡ 31
  pub d_plain : plain g.d.out.op ≡ true
  pub d_reads :
      ((g.d.out.op is op_nop) ≡ true)
      ⊎ ((g.d.out.status ≡ stat_aok) × ((regs : RegNums) → Sources regs g.d.out))
  pub d_write : (regs : RegNums) → IsWrite (writes g.d.out) (target regs g.d.out) g.d.out.status
  pub d_live : live_status g.d.out.status ≡ true
  pub x_plain : IsPlain g.x.out.op g.x.out.w_sigs g.x.out.dst g.x.out.status
  pub x_memory : g.x.out.m_sigs ≡ zero_m_sigs
  pub m_plain : IsPlain g.m.out.op g.m.out.w_sigs g.m.out.dst g.m.out.status
  pub m_memory : g.m.out.m_sigs ≡ zero_m_sigs
  pub w_plain : IsPlain g.w.out.op g.w.out.w_sigs g.w.out.dst g.w.out.status

-- The write that an instruction will make, with the value that it has computed.
abbrev pub commit : WCtlSigs → ℕ → ℕ → Stat → Proc → Proc
commit w_sigs dst val_ex status proc =
    regfile_write dst val_ex (w_sigs.w_enable && status is_stat stat_aok) proc

abbrev pub commit_m : MInstr → Proc → Proc
commit_m m = commit m.w_sigs m.dst m.val_ex m.status

abbrev pub commit_w : WInstr → Proc → Proc
commit_w w = commit w.w_sigs w.dst w.val_ex w.status

-- Flags, and a program counter for a state between instructions.
abbrev pub put : ℕ → ℕ → Proc → Proc
put pc flags proc = record proc { pc = pc; nzcv = flags; status = stat_aok }

-- The three instructions from execute on, the oldest first.
abbrev pub drained : ℕ → Guest → Proc
drained pc g =
    let e = execute_instr g.x.out g.m.inp g.x_nzcvval g.rca in
    put pc e.x_nzcvval (commit_m e.out (commit_m g.m.out (commit_w g.w.out g.proc)))

-- One more from the decode stage on, which reads the registers that these leave.
abbrev pub settle : RegNums → DInstr → MInstr → ℕ → Proc → Guest → Proc
settle regs d out pc proc g =
    let rca = (execute_instr g.x.out g.m.inp g.x_nzcvval g.rca).rca in
    let e = execute_instr (decode_instr regs proc d).out out proc.nzcv rca in
    put pc e.x_nzcvval (commit_m e.out proc)

-- The registers when the four instructions in the pipeline have come out, and the wire `X_nzcvval`,
-- which the conditions read, as the flags.
abbrev pub settled : RegNums → ℕ → Guest → Proc
settled regs pc g =
    settle regs g.d.out (execute_instr g.x.out g.m.inp g.x_nzcvval g.rca).out pc (drained pc g) g

-- `guest.proc->NZCV` at the end of the cycle: the wire only if execute sets the flags.
abbrev pub latched : Guest → ℕ
latched g =
    let e = execute_instr g.x.out g.m.inp g.x_nzcvval g.rca in
    if e.x_set_flags then e.x_nzcvval else g.proc.nzcv

-- Whether the instruction in decode will set the flags.
abbrev pub sets : DInstr → Bool
sets d = (generate_dxmw_control d.op).x_sigs.set_flags

-- `guest.proc->NZCV` when the instruction in decode has left execute as well.
abbrev pub nzcv_after : RegNums → ℕ → Guest → ℕ
nzcv_after regs pc g = if sets g.d.out then (settled regs pc g).nzcv else latched g

-- The registers with `guest.proc->NZCV`, and the wire `X_nzcvval`, when the four instructions in the
-- pipeline have come out.
abbrev pub arch : RegNums → ℕ → Guest → Proc × ℕ
arch regs pc g =
    (record (settled regs pc g) { nzcv = nzcv_after regs pc g }, (settled regs pc g).nzcv)

-- ===== src/Arch/Flow/Retire.antt =====
-- An instruction that neither branches nor uses the memory, from the execute stage on: a write of what
-- the ALU computes.
use ch_arm_v5_system_emulato.Base.{
  ℕ, Bool, true, false, List, length, some, if◌then◌else◌, not64, Bool-cases, inl, inr, ◌≡◌, ◌≢◌,
  refl, arith,
}
use ch_arm_v5_system_emulato.Isa.{
  Opcode, op_ldur, AluOp, error_op, plus_op, minus_op, csinc_op, csneg_op, Cond,
}
use ch_arm_v5_system_emulato.Hw.Adder.{FullAdder}
use ch_arm_v5_system_emulato.Hw.Adder.Sum.{length-rca}
use ch_arm_v5_system_emulato.Hw.Alu.{alu, add_into, cond_holds}
use ch_arm_v5_system_emulato.Hw.Regfile.{Proc}
use ch_arm_v5_system_emulato.Mem.Access.{MemSystem}
use ch_arm_v5_system_emulato.Pipe.Regs.{XInstr, MInstr, zero_m, zero_w, zero_m_sigs}
use ch_arm_v5_system_emulato.Pipe.Decode.Control.{decide_alu_op, generate_dxmw_control}
use ch_arm_v5_system_emulato.Pipe.Execute.{operand_a, operand_b, execute_instr}
use ch_arm_v5_system_emulato.Pipe.Hazard.{error}
use ch_arm_v5_system_emulato.Arch.Travel.{retire}
use ch_arm_v5_system_emulato.Arch.Flow.{plain, commit_m}
use ch_arm_v5_system_emulato.Arch.Flow.Stages.{memory_plain, wback_plain, passed_on}
use ch_arm_v5_system_emulato.Base.{◌>>=◌}

-- What the ALU had in `*val_e` before does not matter.
alu-before :
    (op : AluOp) (a b hw nzcv : ℕ) (set_flags : Bool) (cond : Cond) (old old' dst : ℕ)
    (rca : List FullAdder)
    → op ≢ error_op
    → alu a b hw nzcv op set_flags cond old dst rca ≡ alu a b hw nzcv op set_flags cond old' dst rca
unfolding alu add_into
alu-before error_op a b hw nzcv set_flags cond old old' dst rca h = absurd (h refl)
alu-before plus_op a b hw nzcv set_flags cond old old' dst rca h = refl
alu-before _ a b hw nzcv set_flags cond old old' dst rca h = refl

length-alu :
    (op : AluOp) (a b hw nzcv : ℕ) (set_flags : Bool) (cond : Cond) (old dst : ℕ)
    (rca : List FullAdder)
    → length (alu a b hw nzcv op set_flags cond old dst rca).0.rca ≡ length rca
unfolding alu add_into
length-alu plus_op a b hw nzcv set_flags cond old dst rca = length-rca a b false rca
length-alu minus_op a b hw nzcv set_flags cond old dst rca = length-rca a (not64 b) true rca
length-alu csinc_op a b hw nzcv set_flags cond old dst rca =
    elim (Bool-cases (cond_holds cond nzcv)) [
      | inl e ↦ rw e refl
      | inr e ↦ rw e (length-rca b 1 false rca)
    ]
length-alu csneg_op a b hw nzcv set_flags cond old dst rca =
    elim (Bool-cases (cond_holds cond nzcv)) [
      | inl e ↦ rw e refl
      | inr e ↦ rw e (length-rca 0 (not64 b) true rca)
    ]
length-alu _ a b hw nzcv set_flags cond old dst rca = refl

pub decide_alu_op-ok : (op : Opcode) → decide_alu_op op ≢ error_op
unfolding decide_alu_op
decide_alu_op-ok op_ldur = λ e. cc
decide_alu_op-ok _ = λ e. cc

pub length-execute_instr :
    (x : XInstr) (out : MInstr) (flags : ℕ) (rca : List FullAdder)
    → length (execute_instr x out flags rca).rca ≡ length rca
unfolding execute_instr
length-execute_instr x out flags rca =
    length-alu x.alu_op (operand_a x) (operand_b x) x.val_hw flags x.x_sigs.set_flags x.cond
      out.val_ex flags rca

-- The signals of an instruction that neither branches nor uses the memory.
pub control-plain :
    (op : Opcode)
    → plain op ≡ true
    → let controls = generate_dxmw_control op in
      (controls.m_sigs ≡ zero_m_sigs)
      × (controls.w_sigs.dst_sel ≡ false)
      × (controls.w_sigs.wval_sel ≡ false)
unfolding generate_dxmw_control
control-plain op h = (ground arith, ground arith, ground arith)

-- The stages from execute on, as a write of what was computed.
module _ (x : XInstr) (before : MInstr) (q : Proc) (rca : List FullAdder) (mem : MemSystem)
    (no_memory : x.m_sigs ≡ zero_m_sigs) (no_link : x.w_sigs.dst_sel ≡ false)
    (no_load : x.w_sigs.wval_sel ≡ false) (ok : error x.status ≡ false)
    (known : x.alu_op ≢ error_op) where
  execute-before : execute_instr x before q.nzcv rca ≡ execute_instr x zero_m q.nzcv rca
  unfolding execute_instr
  execute-before =
      rw
        (alu-before x.alu_op (operand_a x) (operand_b x) x.val_hw q.nzcv x.x_sigs.set_flags x.cond
          before.val_ex 0 q.nzcv rca known)
        refl

  kept_flags :
      let e = execute_instr x zero_m q.nzcv rca in
      (if e.x_set_flags then e.x_nzcvval else q.nzcv) ≡ e.x_nzcvval
  unfolding execute_instr alu
  kept_flags = elim (Bool-cases x.x_sigs.set_flags) [ inl e ↦ rw e refl | inr e ↦ rw e refl ]

  pub retire-commit_m :
      let e = execute_instr x before q.nzcv rca in
      retire q rca mem x ≡ some (commit_m e.out (record q { nzcv = e.x_nzcvval }), mem)
  unfolding retire
  retire-commit_m =
      let e = execute_instr x zero_m q.nzcv rca in
      let passed =
        memory_plain e.out zero_w 0 mem (unfold execute_instr in no_memory)
          (unfold execute_instr in ok) in
      let written =
        wback_plain (passed_on e.out zero_w) (unfold execute_instr in no_link)
          (unfold execute_instr in no_load) in
      rw (execute-before, passed, ◌>>=◌, written, kept_flags) refl

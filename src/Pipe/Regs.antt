-- ===== src/Pipe/Regs.antt =====
-- The pipeline registers of include/pipe/instr_pipeline.h. The members of the union
-- `multipurpose_val` share one 64-bit value, so it is one field.
use ch_arm_v5_system_emulato.Base.{ℕ, Bool, false}
use ch_arm_v5_system_emulato.Isa.{
  Opcode, op_nop, Format, format_error, Cond, c_eq, Stat, stat_bub, AluOp, plus_op, PipeCtlStat,
}

-- `d_ctl_sigs_t`.
pub record DCtlSigs : Type 0 where
  pub src2_sel : Bool

-- `x_ctl_sigs_t`.
pub record XCtlSigs : Type 0 where
  pub vala_sel : Bool
  pub valb_sel : Bool
  pub set_flags : Bool

-- `m_ctl_sigs_t`.
pub record MCtlSigs : Type 0 where
  pub dmem_read : Bool
  pub dmem_write : Bool

-- `w_ctl_sigs_t`.
pub record WCtlSigs : Type 0 where
  pub dst_sel : Bool
  pub wval_sel : Bool
  pub w_enable : Bool

-- `f_instr_impl_t`.
pub record FInstr : Type 0 where
  pub pred_pc : ℕ
  pub status : Stat

-- `d_instr_impl_t`.
pub record DInstr : Type 0 where
  pub insnbits : ℕ
  pub op : Opcode
  pub print_op : Opcode
  pub format : Format
  pub multipurpose_val : ℕ
  pub status : Stat

-- `x_instr_impl_t`.
pub record XInstr : Type 0 where
  pub op : Opcode
  pub print_op : Opcode
  pub multipurpose_val : ℕ
  pub x_sigs : XCtlSigs
  pub m_sigs : MCtlSigs
  pub w_sigs : WCtlSigs
  pub alu_op : AluOp
  pub cond : Cond
  pub val_a : ℕ
  pub val_b : ℕ
  pub val_imm : ℕ
  pub val_hw : ℕ
  pub dst : ℕ
  pub status : Stat

-- `m_instr_impl_t`.
pub record MInstr : Type 0 where
  pub op : Opcode
  pub print_op : Opcode
  pub multipurpose_val : ℕ
  pub cond_holds : Bool
  pub m_sigs : MCtlSigs
  pub w_sigs : WCtlSigs
  pub val_b : ℕ
  pub dst : ℕ
  pub val_ex : ℕ
  pub status : Stat

-- `w_instr_impl_t`.
pub record WInstr : Type 0 where
  pub op : Opcode
  pub print_op : Opcode
  pub w_sigs : WCtlSigs
  pub dst : ℕ
  pub val_ex : ℕ
  pub val_mem : ℕ
  pub status : Stat

-- `pipe_reg_t`: what the stage before writes, what the stage reads, and what becomes of it at the
-- end of the cycle.
pub record PipeReg {ℓ} (A : Type ℓ) : Type ℓ where
  pub inp : A
  pub out : A
  pub ctl : PipeCtlStat

-- What `memset(.., 0, size)` and `calloc` leave: a NOP with the status of a bubble.
abbrev pub zero_m_sigs : MCtlSigs
zero_m_sigs = record { dmem_read = false; dmem_write = false }

abbrev pub zero_w_sigs : WCtlSigs
zero_w_sigs = record { dst_sel = false; wval_sel = false; w_enable = false }

abbrev pub zero_f : FInstr
zero_f = record { pred_pc = 0; status = stat_bub }

abbrev pub zero_d : DInstr
zero_d = record {
  insnbits = 0;
  op = op_nop;
  print_op = op_nop;
  format = format_error;
  multipurpose_val = 0;
  status = stat_bub;
}

abbrev pub zero_x : XInstr
zero_x = record {
  op = op_nop;
  print_op = op_nop;
  multipurpose_val = 0;
  x_sigs = record { vala_sel = false; valb_sel = false; set_flags = false };
  m_sigs = zero_m_sigs;
  w_sigs = zero_w_sigs;
  alu_op = plus_op;
  cond = c_eq;
  val_a = 0;
  val_b = 0;
  val_imm = 0;
  val_hw = 0;
  dst = 0;
  status = stat_bub;
}

abbrev pub zero_m : MInstr
zero_m = record {
  op = op_nop;
  print_op = op_nop;
  multipurpose_val = 0;
  cond_holds = false;
  m_sigs = zero_m_sigs;
  w_sigs = zero_w_sigs;
  val_b = 0;
  dst = 0;
  val_ex = 0;
  status = stat_bub;
}

abbrev pub zero_w : WInstr
zero_w = record {
  op = op_nop;
  print_op = op_nop;
  w_sigs = zero_w_sigs;
  dst = 0;
  val_ex = 0;
  val_mem = 0;
  status = stat_bub;
}

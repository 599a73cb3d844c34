-- ===== src/Isa.antt =====
-- The architectural enumerations of include/pipe/instr.h, with the extra-credit instructions (the
-- EC build), and the pipeline's of include/pipe/instr_pipeline.h. An enumeration's values matter
-- where the code compares them or turns a number into one.
pub mod Bitfield
pub mod Tables
mod Tests
use ch_arm_v5_system_emulato.Base.{ℕ, Bool, ◌==◌}

-- `opcode_t`.
pub data Opcode : Type 0 where
  op_nop op_ldur op_stur op_movk op_movz : Opcode
  op_adrp op_add_ri op_adds_rr op_cmn_rr op_sub_ri op_subs_rr op_cmp_rr : Opcode
  op_mvn op_orr_rr op_eor_rr op_ands_rr op_tst_rr : Opcode
  op_lsl_ri op_lsr_ri op_ubfm op_lsl_rr op_lsr_rr op_ubfmv op_asr : Opcode
  op_b op_b_cond op_bl op_ret op_hlt : Opcode
  op_csel op_csinv op_csinc op_csneg op_cbz op_cbnz op_br op_blr : Opcode
  op_error : Opcode

-- The value of an opcode; `OP_ERROR`, which is -1 in C, stands past the others.
abbrev pub opcode_value : Opcode → ℕ
opcode_value op_nop = 0
opcode_value op_ldur = 1
opcode_value op_stur = 2
opcode_value op_movk = 3
opcode_value op_movz = 4
opcode_value op_adrp = 5
opcode_value op_add_ri = 6
opcode_value op_adds_rr = 7
opcode_value op_cmn_rr = 8
opcode_value op_sub_ri = 9
opcode_value op_subs_rr = 10
opcode_value op_cmp_rr = 11
opcode_value op_mvn = 12
opcode_value op_orr_rr = 13
opcode_value op_eor_rr = 14
opcode_value op_ands_rr = 15
opcode_value op_tst_rr = 16
opcode_value op_lsl_ri = 17
opcode_value op_lsr_ri = 18
opcode_value op_ubfm = 19
opcode_value op_lsl_rr = 20
opcode_value op_lsr_rr = 21
opcode_value op_ubfmv = 22
opcode_value op_asr = 23
opcode_value op_b = 24
opcode_value op_b_cond = 25
opcode_value op_bl = 26
opcode_value op_ret = 27
opcode_value op_hlt = 28
opcode_value op_csel = 29
opcode_value op_csinv = 30
opcode_value op_csinc = 31
opcode_value op_csneg = 32
opcode_value op_cbz = 33
opcode_value op_cbnz = 34
opcode_value op_br = 35
opcode_value op_blr = 36
opcode_value op_error = 37

-- `==` on opcodes.
infix 50 ◌is◌
abbrev pub ◌is◌ : Opcode → Opcode → Bool
p is q = opcode_value p == opcode_value q

-- `format_t`.
pub data Format : Type 0 where
  format_error format_m format_i1 format_i2 format_rr format_ri : Format
  format_b1 format_b2 format_b3 format_s format_ec : Format

-- `cond_t`.
pub data Cond : Type 0 where
  c_eq c_ne c_cs c_cc c_mi c_pl c_vs c_vc c_hi c_ls c_ge c_lt c_gt c_le c_al c_nv c_error : Cond

-- `stat_t`.
pub data Stat : Type 0 where
  stat_bub stat_aok stat_hlt stat_adr stat_ins : Stat

abbrev pub stat_value : Stat → ℕ
stat_value stat_bub = 0
stat_value stat_aok = 1
stat_value stat_hlt = 2
stat_value stat_adr = 3
stat_value stat_ins = 4

-- `==` on statuses.
infix 50 ◌is_stat◌
abbrev pub ◌is_stat◌ : Stat → Stat → Bool
s is_stat t = stat_value s == stat_value t

-- `alu_op_t`.
pub data AluOp : Type 0 where
  plus_op minus_op inv_op or_op eor_op and_op mov_op movk_op lsl_op lsr_op asr_op pass_a_op : AluOp
  csel_op csinv_op csinc_op csneg_op cbz_op cbnz_op error_op : AluOp

-- `proc_stage_t`.
pub data ProcStage : Type 0 where
  s_fetch s_decode s_execute s_memory s_wback s_update_pc s_error : ProcStage

-- `pipe_ctl_stat_t`.
pub data PipeCtlStat : Type 0 where
  p_load p_error p_bubble p_stall : PipeCtlStat

-- `mem_status_t`.
pub data MemStatus : Type 0 where
  ready in_flight mem_error : MemStatus

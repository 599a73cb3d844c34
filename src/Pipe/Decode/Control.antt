-- ===== src/Pipe/Decode/Control.antt =====
-- The control signals and the ALU operation of an opcode: `generate_DXMW_control` and
-- `decide_alu_op` of src/pipe/instr_Decode.c.
use ch_arm_v5_system_emulato.Base.{◌||◌}
use ch_arm_v5_system_emulato.Isa.{
  Opcode, op_ldur, op_stur, op_movk, op_movz, op_adrp, op_add_ri, op_adds_rr, op_cmn_rr, op_sub_ri,
  op_subs_rr, op_cmp_rr, op_mvn, op_orr_rr, op_eor_rr, op_ands_rr, op_tst_rr, op_lsl_ri, op_lsr_ri,
  op_ubfm, op_lsl_rr, op_lsr_rr, op_ubfmv, op_asr, op_bl, op_csel, op_csinv, op_csinc, op_csneg,
  op_cbz, op_cbnz, op_blr, ◌is◌, AluOp, plus_op, minus_op, inv_op, or_op, eor_op, and_op, mov_op,
  movk_op, lsl_op, lsr_op, asr_op, pass_a_op, csel_op, csinv_op, csinc_op, csneg_op, cbz_op,
  cbnz_op,
}
use ch_arm_v5_system_emulato.Pipe.Regs.{DCtlSigs, XCtlSigs, MCtlSigs, WCtlSigs}

pub record Controls : Type 0 where
  pub d_sigs : DCtlSigs
  pub x_sigs : XCtlSigs
  pub m_sigs : MCtlSigs
  pub w_sigs : WCtlSigs

unfoldable pub generate_dxmw_control : Opcode → Controls
generate_dxmw_control op = record {
  d_sigs = record { src2_sel = op is op_stur };
  x_sigs = record {
    vala_sel = op is op_adrp || op is op_bl;
    valb_sel =
        op is op_adds_rr
        || op is op_cmn_rr
        || op is op_subs_rr
        || op is op_cmp_rr
        || op is op_mvn
        || op is op_orr_rr
        || op is op_eor_rr
        || op is op_ands_rr
        || op is op_tst_rr
        || op is op_lsl_rr
        || op is op_lsr_rr
        || op is op_ubfmv
        || op is op_csel
        || op is op_csinv
        || op is op_csinc
        || op is op_csneg;
    set_flags =
        op is op_adds_rr
        || op is op_cmn_rr
        || op is op_subs_rr
        || op is op_cmp_rr
        || op is op_ands_rr
        || op is op_tst_rr;
  };
  m_sigs = record { dmem_read = op is op_ldur; dmem_write = op is op_stur };
  w_sigs = record {
    dst_sel = op is op_bl;
    wval_sel = op is op_ldur;
    w_enable =
        op is op_ldur
        || op is op_movk
        || op is op_movz
        || op is op_adrp
        || op is op_add_ri
        || op is op_adds_rr
        || op is op_sub_ri
        || op is op_subs_rr
        || op is op_mvn
        || op is op_orr_rr
        || op is op_eor_rr
        || op is op_ands_rr
        || op is op_lsl_ri
        || op is op_lsr_ri
        || op is op_ubfm
        || op is op_lsl_rr
        || op is op_lsr_rr
        || op is op_ubfmv
        || op is op_asr
        || op is op_bl
        || op is op_csel
        || op is op_csinv
        || op is op_csinc
        || op is op_csneg
        || op is op_blr;
  };
}

unfoldable pub decide_alu_op : Opcode → AluOp
decide_alu_op op_ldur = plus_op
decide_alu_op op_stur = plus_op
decide_alu_op op_adrp = plus_op
decide_alu_op op_add_ri = plus_op
decide_alu_op op_adds_rr = plus_op
decide_alu_op op_cmn_rr = plus_op
decide_alu_op op_movk = movk_op
decide_alu_op op_movz = mov_op
decide_alu_op op_sub_ri = minus_op
decide_alu_op op_subs_rr = minus_op
decide_alu_op op_cmp_rr = minus_op
decide_alu_op op_mvn = inv_op
decide_alu_op op_orr_rr = or_op
decide_alu_op op_eor_rr = eor_op
decide_alu_op op_ands_rr = and_op
decide_alu_op op_tst_rr = and_op
decide_alu_op op_lsl_ri = lsl_op
decide_alu_op op_ubfm = lsl_op
decide_alu_op op_lsl_rr = lsl_op
decide_alu_op op_ubfmv = lsl_op
decide_alu_op op_lsr_ri = lsr_op
decide_alu_op op_lsr_rr = lsr_op
decide_alu_op op_asr = asr_op
decide_alu_op op_csel = csel_op
decide_alu_op op_csinv = csinv_op
decide_alu_op op_csinc = csinc_op
decide_alu_op op_csneg = csneg_op
decide_alu_op op_cbz = cbz_op
decide_alu_op op_cbnz = cbnz_op
decide_alu_op _ = pass_a_op

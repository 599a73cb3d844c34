-- ===== src/Pipe/Tests.antt =====
-- The stages on small inputs.
use ch_arm_v5_system_emulato.Base.{
  true, false, ◌||◌, ◌&&◌, not, ◌⊎◌, if◌then◌else◌, ◌≡◌, ◌≢◌, refl, arith, add64, ◌==◌, replicate,
}
use ch_arm_v5_system_emulato.Isa.{
  plus_op, minus_op, and_op, op_ldur, op_add_ri, op_bl, format_m, ready, stat_aok, p_load, p_bubble,
}
use ch_arm_v5_system_emulato.Hw.Regfile.{Proc, regfile_read}
use ch_arm_v5_system_emulato.Pipe.Decode.Registers.{RegNums, extract_regs}
use ch_arm_v5_system_emulato.Pipe.Decode.Control.{generate_dxmw_control, decide_alu_op}
use ch_arm_v5_system_emulato.Pipe.Decode.Laws.{control-consistent, IsRegs, extract_regs-IsRegs}
use ch_arm_v5_system_emulato.Pipe.Fetch.{predict_pc}
use ch_arm_v5_system_emulato.Pipe.Fetch.Pc.{target_of, predict_pc-target_of}
use ch_arm_v5_system_emulato.Pipe.Forward.{Pending, forward_reg}
use ch_arm_v5_system_emulato.Pipe.Forward.Newest.{all_retired, forward_reg-sp}
use ch_arm_v5_system_emulato.Pipe.Hazard.{HazardIn, HazardOut, error, handle_hazards}
use ch_arm_v5_system_emulato.Pipe.Hazard.Control.{NoError, decision, handle_hazards-decision}

abbrev no_regs : RegNums
no_regs = record { src1 = 32; src2 = 32; dst = 32 }

-- LDUR X3, [SP, #8]
extract_regs-IsRegs_example :
    let nums = extract_regs 0xF84083E3 op_ldur format_m no_regs in IsRegs 32 nums × (nums.src2 ≢ 31)
extract_regs-IsRegs_example = extract_regs-IsRegs 0xF84083E3 op_ldur format_m no_regs (λ e. cc)

-- BL to the instruction before it
predict_pc-target_of_example : predict_pc 0x400100 0x97FFFFFF op_bl 0x400100 0 ≡ (
    if 0x400100 == 0
    then (0x400100, 0)
    else (target_of 0x400100 0x97FFFFFF op_bl, add64 0x400100 4))
predict_pc-target_of_example =
    predict_pc-target_of 0x400100 0x97FFFFFF op_bl 0x400100 0 (omega arith)

target_run : target_of 0x400100 0x97FFFFFF op_bl ≡ 0x4000FC
target_run = refl

-- X2 is written by all three older instructions, SP by the one in the memory stage.
abbrev writes : Pending
writes = record {
  x_dst = 2;
  m_dst = 31;
  w_dst = 2;
  x_val_ex = 100;
  m_val_ex = 200;
  m_val_mem = 201;
  w_val_ex = 300;
  w_val_mem = 301;
  m_wval_sel = false;
  w_wval_sel = true;
  x_w_enable = true;
  m_w_enable = true;
  w_w_enable = true;
}

abbrev registers : Proc
registers = record { sp = 64; pc = 0; nzcv = 0; gpr = replicate 31 7; status = stat_aok }

-- A write of SP is pending in the memory stage.
forward_reg-sp_example :
    ((forward_reg writes 31 32 (regfile_read registers 31) 0).0 ≡ 64)
    × (regfile_read (all_retired writes stat_aok stat_aok stat_aok registers) 31 ≡ 200)
forward_reg-sp_example =
    forward_reg-sp writes registers stat_aok stat_aok stat_aok 32 0 refl
      ((omega arith, λ e. refl), (omega arith, λ e. refl), (omega arith, λ e. refl))

-- An add in decode uses the register of a load in execute.
abbrev load_use : HazardIn
load_use = record {
  d_opcode = op_add_ri;
  d_src1 = 3;
  d_src2 = 32;
  x_opcode = op_ldur;
  x_dst = 3;
  x_condval = true;
  dmem_status = ready;
  m_in_status = stat_aok;
  w_in_status = stat_aok;
  w_out_status = stat_aok;
}

abbrev loading : HazardOut
loading = record {
  ctls = record { f = p_load; d = p_load; x = p_bubble; m = p_load; w = p_load };
  deassert_flags = false;
  status = stat_aok;
}

loading-NoError : NoError loading.ctls
loading-NoError = record { f = λ e. cc; d = λ e. cc; x = λ e. cc; m = λ e. cc; w = λ e. cc }

handle_hazards-decision_example :
    let out' = handle_hazards load_use loading in
    (out'.ctls ≡ decision load_use)
    × NoError out'.ctls
    × (out'.deassert_flags ≡ (
        error load_use.m_in_status
        || error load_use.w_in_status
        || error load_use.w_out_status
        || loading.deassert_flags))
    × (out'.status
        ≡ (if error load_use.w_out_status then load_use.w_out_status else loading.status))
handle_hazards-decision_example = handle_hazards-decision load_use loading loading-NoError

control-consistent_example :
    let c = generate_dxmw_control op_ldur in
    ((c.m_sigs.dmem_read && c.m_sigs.dmem_write) ≡ false)
    × (c.w_sigs.wval_sel ≡ c.m_sigs.dmem_read)
    × ((not c.w_sigs.wval_sel || c.w_sigs.w_enable) ≡ true)
    × ((not c.w_sigs.dst_sel || c.w_sigs.w_enable) ≡ true)
    × ((not c.m_sigs.dmem_write || not c.w_sigs.w_enable) ≡ true)
    × ((c.x_sigs.set_flags ≡ false)
        ⊎ (decide_alu_op op_ldur ≡ plus_op)
        ⊎ (decide_alu_op op_ldur ≡ minus_op)
        ⊎ (decide_alu_op op_ldur ≡ and_op))
control-consistent_example = control-consistent op_ldur

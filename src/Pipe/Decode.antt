-- ===== src/Pipe/Decode.antt =====
-- src/pipe/instr_Decode.c and the table of src/pipe/instr_Decode_extractregs.c.
pub mod Control
pub mod Registers
pub mod Laws
use ch_arm_v5_system_emulato.Base.{
  ℕ, ◌-◌, ◌*◌, ◌^◌, Bool, ◌||◌, ◌==◌, if◌then◌else◌, u8, u64, sub64, asr64, bit_or, ◌<<<◌,
}
use ch_arm_v5_system_emulato.Isa.{
  Opcode, op_nop, op_ldur, op_stur, op_movk, op_movz, op_adrp, op_add_ri, op_sub_ri, op_lsl_ri,
  op_lsr_ri, op_ubfm, op_asr, op_b, op_b_cond, op_bl, op_cbz, op_cbnz, op_blr, op_csel, op_csinv,
  op_csinc, op_csneg, ◌is◌, ◌is_stat◌, stat_bub, Cond, c_eq, c_ne, c_cs, c_cc, c_mi, c_pl, c_vs,
  c_vc, c_hi, c_ls, c_ge, c_lt, c_gt, c_le, c_al, c_nv, c_error,
}
use ch_arm_v5_system_emulato.Isa.Bitfield.{bitfield_u32, bitfield_s64}
use ch_arm_v5_system_emulato.Hw.Regfile.{Proc, regfile_read}
use ch_arm_v5_system_emulato.Pipe.Regs.{DInstr, XInstr}
use ch_arm_v5_system_emulato.Pipe.Decode.Control.{Controls, generate_dxmw_control, decide_alu_op}
use ch_arm_v5_system_emulato.Pipe.Decode.Registers.{RegNums, extract_regs}

-- `extract_immval`; an `int64_t` is given as its bit pattern.
unfoldable pub extract_immval : ℕ → Opcode → ℕ
extract_immval insnbits op_add_ri = bitfield_u32 insnbits 10 12
extract_immval insnbits op_sub_ri = bitfield_u32 insnbits 10 12
extract_immval insnbits op_lsl_ri = sub64 64 (bitfield_u32 insnbits 16 6)
extract_immval insnbits op_lsr_ri = bitfield_u32 insnbits 16 6
extract_immval insnbits op_asr = bitfield_u32 insnbits 16 6
extract_immval insnbits op_ubfm = bitfield_u32 insnbits 10 6
extract_immval insnbits op_ldur = bitfield_s64 insnbits 12 9
extract_immval insnbits op_stur = bitfield_s64 insnbits 12 9
extract_immval insnbits op_adrp =
    let immhi = bitfield_u32 insnbits 5 19 in
    let immlo = bitfield_u32 insnbits 29 2 in
    let imm21 = bit_or (immhi <<< 2) immlo in u64 (asr64 (u64 (imm21 <<< 43)) 43 <<< 12)
extract_immval insnbits op_b = u64 (bitfield_s64 insnbits 0 26 <<< 2)
extract_immval insnbits op_bl = u64 (bitfield_s64 insnbits 0 26 <<< 2)
extract_immval insnbits op_b_cond = u64 (bitfield_s64 insnbits 5 19 <<< 2)
extract_immval insnbits op_cbz = u64 (bitfield_s64 insnbits 5 19 <<< 2)
extract_immval insnbits op_cbnz = u64 (bitfield_s64 insnbits 5 19 <<< 2)
extract_immval insnbits op_movz = bitfield_u32 insnbits 5 16
extract_immval insnbits op_movk = bitfield_u32 insnbits 5 16
extract_immval insnbits _ = 0

-- A field of four bits as a `cond_t`.
unfoldable pub to_cond : ℕ → Cond
to_cond n =
    if n == 0
    then c_eq
    else if n == 1
    then c_ne
    else if n == 2
    then c_cs
    else if n == 3
    then c_cc
    else if n == 4
    then c_mi
    else if n == 5
    then c_pl
    else if n == 6
    then c_vs
    else if n == 7
    then c_vc
    else if n == 8
    then c_hi
    else if n == 9
    then c_ls
    else if n == 10
    then c_ge
    else if n == 11
    then c_lt
    else if n == 12
    then c_gt
    else if n == 13
    then c_le
    else if n == 14
    then c_al
    else if n == 15
    then c_nv
    else c_error

-- The `cond` that `decode_instr` passes on.
abbrev pub cond_of : ℕ → Opcode → Cond
cond_of insnbits op =
    if op is op_b_cond
    then to_cond (bitfield_u32 insnbits 0 4)
    else if op is op_csel || op is op_csinv || op is op_csinc || op is op_csneg
    then to_cond (bitfield_u32 insnbits 12 4)
    else c_al

-- What `decode_instr` leaves behind: `*out`, and the wires `D_src1` and `D_src2`.
pub record DecodeOut : Type 0 where
  pub out : XInstr
  pub d_src1 : ℕ
  pub d_src2 : ℕ

-- `decode_instr`. `regs` holds what the uninitialised variables `src1`, `src2` and `dest` have
-- in them, which an instruction of no format passes on.
unfoldable pub decode_instr : RegNums → Proc → DInstr → DecodeOut
decode_instr regs proc inp =
    let op = inp.op in
    let insnbits = inp.insnbits in
    let controls = generate_dxmw_control op in
    let nums = extract_regs insnbits op inp.format regs in
    let bubble = inp.status is_stat stat_bub || op is op_nop in
    record {
      out = record {
        op = op;
        print_op = inp.print_op;
        multipurpose_val = inp.multipurpose_val;
        x_sigs = controls.x_sigs;
        m_sigs = controls.m_sigs;
        w_sigs = controls.w_sigs;
        alu_op = decide_alu_op op;
        cond = cond_of insnbits op;
        val_a = if bubble then 0 else regfile_read proc nums.src1;
        val_b = if bubble then 0 else regfile_read proc nums.src2;
        val_imm = if op is op_blr then inp.multipurpose_val else extract_immval insnbits op;
        val_hw = u8 (bitfield_u32 insnbits 21 2 <<< 4);
        dst = nums.dst;
        status = inp.status;
      };
      d_src1 = nums.src1;
      d_src2 = nums.src2;
    }

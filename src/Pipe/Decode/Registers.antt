-- ===== src/Pipe/Decode/Registers.antt =====
-- Register numbers: the format handlers, `fix_regs` and `extract_regs` of src/pipe/instr_Decode.c,
-- with `extract_regs_table` as src/pipe/instr_Decode_extractregs.c fills it.
use ch_arm_v5_system_emulato.Base.{ℕ, ◌||◌, ◌==◌, if◌then◌else◌}
use ch_arm_v5_system_emulato.Isa.{
  Opcode, op_ldur, op_stur, op_movk, op_add_ri, op_sub_ri, op_bl, op_csel, op_csinv, op_csinc,
  op_csneg, op_cbz, op_cbnz, op_br, op_blr, ◌is◌, Format, format_error, format_m, format_i1,
  format_i2, format_rr, format_ri, format_b1, format_b2, format_b3, format_s, format_ec,
}
use ch_arm_v5_system_emulato.Isa.Bitfield.{bitfield_u32}
use ch_arm_v5_system_emulato.Hw.Regfile.{sp_num, xzr_num}

-- The three numbers that the handlers write.
pub record RegNums : Type 0 where
  pub src1 : ℕ
  pub src2 : ℕ
  pub dst : ℕ

-- `fix_regs`: whether 31 stands for SP or XZR.
unfoldable pub fix_regs : Opcode → RegNums → RegNums
fix_regs op regs =
    let fix = λ (n : ℕ). if n == sp_num then xzr_num else n in
    let fixed = record regs { src2 = fix regs.src2 } in
    if op is op_ldur || op is op_stur
    then record fixed { dst = fix regs.dst }
    else if op is op_add_ri || op is op_sub_ri
    then fixed
    else record fixed { src1 = fix regs.src1; dst = fix regs.dst }

-- The handler of each format, through `extract_regs_table`; the formats' names are the handlers'.
unfoldable pub extract_by_format : Format → ℕ → Opcode → RegNums → RegNums
extract_by_format format_error insnbits op regs = regs
extract_by_format format_m insnbits op regs =
    if op is op_stur
    then record {
      src1 = bitfield_u32 insnbits 5 5;
      src2 = bitfield_u32 insnbits 0 5;
      dst = xzr_num;
    }
    else record {
      src1 = bitfield_u32 insnbits 5 5;
      src2 = xzr_num;
      dst = bitfield_u32 insnbits 0 5;
    }
extract_by_format format_i1 insnbits op regs =
    let dst = bitfield_u32 insnbits 0 5 in
    record { src1 = if op is op_movk then dst else xzr_num; src2 = xzr_num; dst = dst }
extract_by_format format_i2 insnbits op regs = record {
  src1 = xzr_num;
  src2 = xzr_num;
  dst = bitfield_u32 insnbits 0 5;
}
extract_by_format format_rr insnbits op regs = record {
  src1 = bitfield_u32 insnbits 5 5;
  src2 = bitfield_u32 insnbits 16 5;
  dst = bitfield_u32 insnbits 0 5;
}
extract_by_format format_ri insnbits op regs = record {
  src1 = bitfield_u32 insnbits 5 5;
  src2 = xzr_num;
  dst = bitfield_u32 insnbits 0 5;
}
extract_by_format format_b1 insnbits op regs = record {
  src1 = xzr_num;
  src2 = xzr_num;
  dst = if op is op_bl then 30 else xzr_num;
}
extract_by_format format_b2 insnbits op regs = record {
  src1 = xzr_num;
  src2 = xzr_num;
  dst = xzr_num;
}
extract_by_format format_b3 insnbits op regs = record {
  src1 = bitfield_u32 insnbits 5 5;
  src2 = xzr_num;
  dst = xzr_num;
}
extract_by_format format_s insnbits op regs = record {
  src1 = xzr_num;
  src2 = xzr_num;
  dst = xzr_num;
}
extract_by_format format_ec insnbits op regs =
    if op is op_csel || op is op_csinv || op is op_csinc || op is op_csneg
    then record {
      src1 = bitfield_u32 insnbits 5 5;
      src2 = bitfield_u32 insnbits 16 5;
      dst = bitfield_u32 insnbits 0 5;
    }
    else if op is op_cbz || op is op_cbnz
    then record { src1 = bitfield_u32 insnbits 0 5; src2 = xzr_num; dst = xzr_num }
    else if op is op_br || op is op_blr
    then record {
      src1 = bitfield_u32 insnbits 5 5;
      src2 = xzr_num;
      dst = if op is op_blr then 30 else xzr_num;
    }
    else record { src1 = xzr_num; src2 = xzr_num; dst = xzr_num }

unfoldable pub extract_regs : ℕ → Opcode → Format → RegNums → RegNums
unfolding extract_by_format fix_regs
extract_regs insnbits op format regs = fix_regs op (extract_by_format format insnbits op regs)

-- ===== src/Pipe/Decode/Laws.antt =====
-- What the later stages rely on in the output of src/pipe/instr_Decode.c.
use ch_arm_v5_system_emulato.Base.{
  ℕ, ◌≤◌, ◌<◌, true, false, ◌&&◌, ◌||◌, not, ◌≡◌, ◌≢◌, ◌⊎◌, refl, arith,
}
use ch_arm_v5_system_emulato.Isa.{Opcode, op_nop, Format, format_error, plus_op, minus_op, and_op}
use ch_arm_v5_system_emulato.Isa.Bitfield.{bitfield_u32}
use ch_arm_v5_system_emulato.Pipe.Decode.Control.{generate_dxmw_control, decide_alu_op}
use ch_arm_v5_system_emulato.Pipe.Decode.Registers.{
  RegNums, extract_by_format, fix_regs, extract_regs,
}

field_lt : (insnbits from : ℕ) → bitfield_u32 insnbits from 5 < 32
unfolding bitfield_u32
field_lt insnbits from = omega arith

-- The three numbers are at most `k`.
abbrev pub IsRegs : ℕ → RegNums → Type 0
IsRegs k regs = (regs.src1 ≤ k) × (regs.src2 ≤ k) × (regs.dst ≤ k)

extract_by_format-IsRegs :
    (format : Format) (insnbits : ℕ) (op : Opcode) (regs : RegNums)
    → format ≢ format_error
    → IsRegs 32 (extract_by_format format insnbits op regs)
unfolding extract_by_format
extract_by_format-IsRegs format_error insnbits op regs h = absurd (h refl)
extract_by_format-IsRegs _ insnbits op regs h =
    ground (arith, field_lt insnbits 0, field_lt insnbits 5, field_lt insnbits 16)

fix_regs-IsRegs : (op : Opcode) (regs : RegNums) → IsRegs 32 regs → IsRegs 32 (fix_regs op regs)
unfolding fix_regs
fix_regs-IsRegs op regs h = ground arith

fix_regs-src2 : (op : Opcode) (regs : RegNums) → (fix_regs op regs).src2 ≢ 31
unfolding fix_regs
fix_regs-src2 op regs = ground arith

-- For a format other than FORMAT_ERROR no register number that extract_regs gives is above 32, and
-- the second source is not 31.
pub extract_regs-IsRegs :
    (insnbits : ℕ) (op : Opcode) (format : Format) (regs : RegNums)
    → format ≢ format_error
    → let nums = extract_regs insnbits op format regs in IsRegs 32 nums × (nums.src2 ≢ 31)
unfolding extract_regs
extract_regs-IsRegs insnbits op format regs h = (
  fix_regs-IsRegs op (extract_by_format format insnbits op regs)
      (extract_by_format-IsRegs format insnbits op regs h),
  fix_regs-src2 op (extract_by_format format insnbits op regs),
)

-- For every opcode the control signals agree: no instruction both reads and writes memory, a
-- memory value is chosen exactly for a read and only with a register write, the link register is
-- chosen only with a register write, a memory write has no register write, and flags are set only
-- by a sum, a difference or a conjunction.
pub control-consistent :
    (op : Opcode)
    → let c = generate_dxmw_control op in
      ((c.m_sigs.dmem_read && c.m_sigs.dmem_write) ≡ false)
      × (c.w_sigs.wval_sel ≡ c.m_sigs.dmem_read)
      × ((not c.w_sigs.wval_sel || c.w_sigs.w_enable) ≡ true)
      × ((not c.w_sigs.dst_sel || c.w_sigs.w_enable) ≡ true)
      × ((not c.m_sigs.dmem_write || not c.w_sigs.w_enable) ≡ true)
      × ((c.x_sigs.set_flags ≡ false)
          ⊎ (decide_alu_op op ≡ plus_op)
          ⊎ (decide_alu_op op ≡ minus_op)
          ⊎ (decide_alu_op op ≡ and_op))
unfolding generate_dxmw_control decide_alu_op
control-consistent op_nop = ground arith
control-consistent _ = ground arith

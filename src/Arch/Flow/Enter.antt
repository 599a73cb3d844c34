-- ===== src/Arch/Flow/Enter.antt =====
-- What the fetch of a data-processing instruction brings into the pipeline.
use ch_arm_v5_system_emulato.Base.{
  ℕ, ◌+◌, ◌*◌, ◌^◌, ◌<◌, true, false, ◌==◌, inl, inr, ◌⊎◌, ◌≡◌, ◌≢◌, refl, ap, sym, ◌∙◌, arith,
}
use ch_arm_v5_system_emulato.Isa.{
  Opcode, Format, format_error, format_ri, format_rr, format_i1, format_ec, stat_aok,
}
use ch_arm_v5_system_emulato.Isa.Bitfield.{bitfield_u32}
use ch_arm_v5_system_emulato.Pipe.Decode.Control.{generate_dxmw_control}
use ch_arm_v5_system_emulato.Pipe.Decode.Registers.{RegNums, extract_regs}
use ch_arm_v5_system_emulato.Pipe.Decode.Laws.{extract_regs-IsRegs}
use ch_arm_v5_system_emulato.Pipe.Fetch.{fetch_status}
use ch_arm_v5_system_emulato.Arch.{
  adds, subs, ands, orr, eor, orn, lslv, lsrv, add_imm, sub_imm, lsl_imm, lsr_imm, asr_imm, movz,
  movk, SelOp, csel, csinc, csinv, csneg, Instr, with_imm, with_reg, with_shift, with_mov, with_sel,
  encode, IsInstr, imm_base, reg_base, shift_fields, mov_base, sel_base, cond_code,
}
use ch_arm_v5_system_emulato.Arch.Encoding.{
  Decodes, imm_opcode, reg_opcode, shift_opcode, mov_opcode, sel_opcode, imm_op, reg_op, shift_op,
  mov_op, sel_op, field_0_5,
}
use ch_arm_v5_system_emulato.Arch.Operands.{fetched_as, fetched-Decodes}
use ch_arm_v5_system_emulato.Arch.Travel.{fetched}
use mathlib.Core.Path.{subst}
use ch_arm_v5_system_emulato.Pipe.Regs.{DInstr}
use ch_arm_v5_system_emulato.Arch.Registers.{reg_base_bits, ite_lem}
use ch_arm_v5_system_emulato.Arch.Immediates.{imm_base_bits, shift_fields_bits}
use ch_arm_v5_system_emulato.Arch.Moves.{mov_base_bits, sel_base_bits}
use ch_arm_v5_system_emulato.Arch.Flow.{plain, IsWrite, Sources, writes, target}

-- The format and the opcode of an instruction.
abbrev pub format_for : Instr → Format
format_for (with_imm op d n imm) = format_ri
format_for (with_reg op d n m) = format_rr
format_for (with_shift op d n s) = format_ri
format_for (with_mov op d imm hw) = format_i1
format_for (with_sel op d n m cond) = format_ec

abbrev pub opcode_for : Instr → Opcode
opcode_for (with_imm op d n imm) = imm_opcode op
opcode_for (with_reg op d n m) = reg_opcode op d
opcode_for (with_shift op d n s) = shift_opcode op s
opcode_for (with_mov op d imm hw) = mov_opcode op
opcode_for (with_sel op d n m cond) = sel_opcode op

pub encode-Decodes : (i : Instr) → IsInstr i → Decodes (encode i) (format_for i) (opcode_for i)
encode-Decodes (with_imm op d n imm) h = imm_op op d n imm h
encode-Decodes (with_reg op d n m) (hd, hn, hm) = reg_op d n m hd hn hm op
encode-Decodes (with_shift op d n s) h = shift_op op d n s h
encode-Decodes (with_mov op d imm hw) h = mov_op op d imm hw h
encode-Decodes (with_sel op d n m cond) h = sel_op op d n m cond h

-- The destination.
abbrev pub dest : Instr → ℕ
dest (with_imm op d n imm) = d
dest (with_reg op d n m) = d
dest (with_shift op d n s) = d
dest (with_mov op d imm hw) = d
dest (with_sel op d n m cond) = d

-- The write of the instruction is not to register 31: its destination is another, or it is one of the
-- aliases CMN, CMP and TST, which write none.
abbrev pub Avoids31 : Instr → Type 0
Avoids31 i = (dest i < 31) ⊎ ((generate_dxmw_control (opcode_for i)).w_sigs.w_enable ≡ false)

pub encode-lt : (i : Instr) → IsInstr i → encode i < 2 ^ 32
unfolding encode
encode-lt (with_imm op d n imm) (hd, hn, hi) = let (low, high) = imm_base_bits op in omega arith
encode-lt (with_reg op d n m) (hd, hn, hm) = let (base, low, high) = reg_base_bits op in omega arith
encode-lt (with_shift op d n s) (hd, hn, hs) =
    let (amount, low, high) = shift_fields_bits op s hs in omega arith
encode-lt (with_mov op d imm hw) (hd, hi, hh) = let (low, high) = mov_base_bits op in omega arith
encode-lt (with_sel op d n m cond) (hd, hn, hm, hc) =
    let (base, low, high) = sel_base_bits op in omega arith

field_dest : (i : Instr) → IsInstr i → bitfield_u32 (encode i) 0 5 ≡ dest i
unfolding encode
field_dest (with_imm op d n imm) (hd, hn, hi) =
    let (low, high) = imm_base_bits op in
    field_0_5 (imm_base op + imm * 1024 + n * 32 + d) (omega arith) ∙ omega arith
field_dest (with_reg op d n m) (hd, hn, hm) =
    let (base, low, high) = reg_base_bits op in
    field_0_5 (reg_base op + m * 65536 + n * 32 + d) (omega arith) ∙ omega arith
field_dest (with_shift op d n s) (hd, hn, hs) =
    let (amount, low, high) = shift_fields_bits op s hs in
    field_0_5 (shift_fields op s + n * 32 + d) (omega arith) ∙ omega arith
field_dest (with_mov op d imm hw) (hd, hi, hh) =
    let (low, high) = mov_base_bits op in
    field_0_5 (mov_base op + hw * 2097152 + imm * 32 + d) (omega arith) ∙ omega arith
field_dest (with_sel op d n m cond) (hd, hn, hm, hc) =
    let (base, low, high) = sel_base_bits op in
    field_0_5 (sel_base op + m * 65536 + cond_code cond * 4096 + n * 32 + d) (omega arith)
    ∙ omega arith

abbrev PlainOpcode : Opcode → Type 0
PlainOpcode op = plain op ≡ true

pub plain-opcode_for : (i : Instr) → plain (opcode_for i) ≡ true
plain-opcode_for (with_imm add_imm d n imm) = refl
plain-opcode_for (with_imm sub_imm d n imm) = refl
plain-opcode_for (with_reg adds d n m) = ite_lem PlainOpcode (d == 31) refl refl
plain-opcode_for (with_reg subs d n m) = ite_lem PlainOpcode (d == 31) refl refl
plain-opcode_for (with_reg ands d n m) = ite_lem PlainOpcode (d == 31) refl refl
plain-opcode_for (with_reg orr d n m) = refl
plain-opcode_for (with_reg eor d n m) = refl
plain-opcode_for (with_reg orn d n m) = refl
plain-opcode_for (with_reg lslv d n m) = refl
plain-opcode_for (with_reg lsrv d n m) = refl
plain-opcode_for (with_shift lsl_imm d n s) = ite_lem PlainOpcode (s == 0) refl refl
plain-opcode_for (with_shift lsr_imm d n s) = refl
plain-opcode_for (with_shift asr_imm d n s) = refl
plain-opcode_for (with_mov movz d imm hw) = refl
plain-opcode_for (with_mov movk d imm hw) = refl
plain-opcode_for (with_sel csel d n m cond) = refl
plain-opcode_for (with_sel csinc d n m cond) = refl
plain-opcode_for (with_sel csinv d n m cond) = refl
plain-opcode_for (with_sel csneg d n m cond) = refl

-- Its number where it is not 31.
module _ (x : ℕ) (regs : RegNums) (low : bitfield_u32 x 0 5 < 31) where
  target-ri :
      (op : Opcode) → plain op ≡ true → (extract_regs x op format_ri regs).dst ≡ bitfield_u32 x 0 5
  unfolding extract_regs
  target-ri op h = ground arith

  target-rr :
      (op : Opcode) → plain op ≡ true → (extract_regs x op format_rr regs).dst ≡ bitfield_u32 x 0 5
  unfolding extract_regs
  target-rr op h = ground arith

  target-i1 :
      (op : Opcode) → plain op ≡ true → (extract_regs x op format_i1 regs).dst ≡ bitfield_u32 x 0 5
  unfolding extract_regs
  target-i1 op h = ground arith

  target-ec :
      (op : SelOp) → (extract_regs x (sel_opcode op) format_ec regs).dst ≡ bitfield_u32 x 0 5
  unfolding extract_regs
  target-ec csel = ground arith
  target-ec _ = ground arith

target-dest :
    (i : Instr) (x : ℕ) (regs : RegNums)
    → bitfield_u32 x 0 5 ≡ dest i
    → dest i < 31
    → (extract_regs x (opcode_for i) (format_for i) regs).dst < 31
target-dest (with_imm op d n imm) x regs e h =
    rw (target-ri x regs (rw e h) (imm_opcode op) (plain-opcode_for (with_imm op d n imm)), e) h
target-dest (with_reg op d n m) x regs e h =
    rw (target-rr x regs (rw e h) (reg_opcode op d) (plain-opcode_for (with_reg op d n m)), e) h
target-dest (with_shift op d n s) x regs e h =
    rw (target-ri x regs (rw e h) (shift_opcode op s) (plain-opcode_for (with_shift op d n s)), e) h
target-dest (with_mov op d imm hw) x regs e h =
    rw (target-i1 x regs (rw e h) (mov_opcode op) (plain-opcode_for (with_mov op d imm hw)), e) h
target-dest (with_sel op d n m cond) x regs e h = rw (target-ec x regs (rw e h) op, e) h

fetch_status-plain : (op : Opcode) → plain op ≡ true → fetch_status false op ≡ stat_aok
fetch_status-plain op h = ground arith

format_for-ok : (i : Instr) → format_for i ≢ format_error
format_for-ok (with_imm op d n imm) = λ e. cc
format_for-ok (with_reg op d n m) = λ e. cc
format_for-ok (with_shift op d n s) = λ e. cc
format_for-ok (with_mov op d imm hw) = λ e. cc
format_for-ok (with_sel op d n m cond) = λ e. cc

-- The decode stage's register after the fetch.
module _ (i : Instr) (valid : IsInstr i) (pc : ℕ) where
  abbrev d : DInstr
  d = fetched (encode i) pc

  fetched_written : d ≡ fetched_as (encode i) pc (format_for i) (opcode_for i)
  fetched_written =
      fetched-Decodes (encode i) pc (format_for i) (opcode_for i) (encode-Decodes i valid)

  pub fetched-status : d.status ≡ stat_aok
  fetched-status =
      ap (fetch_status false) (encode-Decodes i valid).1
      ∙ fetch_status-plain (opcode_for i) (plain-opcode_for i)

  pub fetched-plain : plain d.op ≡ true
  fetched-plain = ap plain (encode-Decodes i valid).1 ∙ plain-opcode_for i

  pub fetched-Sources : (regs : RegNums) → Sources regs d
  fetched-Sources regs =
      let nums =
        (extract_regs-IsRegs (encode i) (opcode_for i) (format_for i) regs (format_for-ok i)).0 in
      subst (Sources regs) (sym fetched_written) (nums.0, nums.1)

  pub fetched-IsWrite : Avoids31 i → (regs : RegNums) → IsWrite (writes d) (target regs d) d.status
  fetched-IsWrite (inl low) regs = inr (
    subst (λ y. target regs y < 31) (sym fetched_written)
        (target-dest i (encode i) regs (field_dest i valid) low),
    fetched-status,
  )
  fetched-IsWrite (inr off) regs = inl (subst (λ y. writes y ≡ false) (sym fetched_written) off)

-- ===== src/Arch/Encoding.antt =====
-- What src/pipe/instr_Fetch.c makes of an encoding: the opcode, after its aliases, and the fields.
mod Fields
pub use Fields.*
use ch_arm_v5_system_emulato.Base.{
  ℕ, ◌+◌, ◌-◌, ◌*◌, ◌/◌, ◌%◌, ◌^◌, ◌≤◌, ◌<◌, ltb, ◌==◌, if◌then◌else◌, bit_and, ◌>>>◌, Bool-cases,
  inl, inr, ◌≡◌, refl, ap, ◌∙◌, arith,
}
use ch_arm_v5_system_emulato.Bits.{bit_and-mask}
use ch_arm_v5_system_emulato.Isa.{
  Opcode, op_add_ri, op_sub_ri, op_adds_rr, op_cmn_rr, op_subs_rr, op_cmp_rr, op_ands_rr, op_tst_rr,
  op_orr_rr, op_eor_rr, op_mvn, op_lsl_rr, op_lsr_rr, op_lsl_ri, op_lsr_ri, op_ubfm, op_ubfmv,
  op_asr, op_movz, op_movk, op_csel, op_csinc, op_csinv, op_csneg, Cond, op_error, ◌is◌, Format,
  format_error, format_ri, format_rr, format_i1, format_ec,
}
use ch_arm_v5_system_emulato.Isa.Bitfield.{bitfield_u32}
use ch_arm_v5_system_emulato.Isa.Tables.{itable, ftable, init_ftable}
use ch_arm_v5_system_emulato.Isa.Tables.Complete.{encoding, itable-encoding}
use native.Mathlib.Decide.{ℕ_discrete}
use ch_arm_v5_system_emulato.Pipe.Fetch.{fix_instr_aliases}
use ch_arm_v5_system_emulato.Arch.{
  ImmOp, add_imm, sub_imm, RegOp, adds, subs, ands, orr, eor, orn, lslv, lsrv, ShiftOp, lsl_imm,
  lsr_imm, asr_imm, MovOp, movz, movk, SelOp, csel, csinc, csinv, csneg, with_imm, with_reg,
  with_shift, with_mov, with_sel, encode, IsInstr, cond_code, reg_base, shift_fields,
}

-- The opcode after the aliases.
abbrev pub opcode_of : ℕ → Opcode
opcode_of x = fix_instr_aliases x (itable (x >>> 21))

-- The format of an opcode in the table.
abbrev pub format_of : Opcode → Format
format_of op = if op is op_error then format_error else ftable op

-- What fetching an instruction word gives.
abbrev pub Decodes : ℕ → Format → Opcode → Type 0
Decodes x format op = (format_of (itable (x >>> 21)) ≡ format) × (opcode_of x ≡ op)

abbrev pub imm_opcode : ImmOp → Opcode
imm_opcode add_imm = op_add_ri
imm_opcode sub_imm = op_sub_ri

abbrev pub reg_opcode : RegOp → ℕ → Opcode
reg_opcode adds d = if d == 31 then op_cmn_rr else op_adds_rr
reg_opcode subs d = if d == 31 then op_cmp_rr else op_subs_rr
reg_opcode ands d = if d == 31 then op_tst_rr else op_ands_rr
reg_opcode orr d = op_orr_rr
reg_opcode eor d = op_eor_rr
reg_opcode orn d = op_mvn
reg_opcode lslv d = op_lsl_rr
reg_opcode lsrv d = op_lsr_rr

abbrev pub shift_opcode : ShiftOp → ℕ → Opcode
shift_opcode lsl_imm s = if s == 0 then op_lsr_ri else op_lsl_ri
shift_opcode lsr_imm s = op_lsr_ri
shift_opcode asr_imm s = op_asr

abbrev pub mov_opcode : MovOp → Opcode
mov_opcode movz = op_movz
mov_opcode movk = op_movk

abbrev pub sel_opcode : SelOp → Opcode
sel_opcode csel = op_csel
sel_opcode csinc = op_csinc
sel_opcode csinv = op_csinv
sel_opcode csneg = op_csneg

-- The table at the top eleven bits, which are one, two or four numbers.
table_at :
    (x c : ℕ) (op : Opcode)
    → x / 2097152 ≡ c
    → c < 2048
    → encoding c ≡ op
    → Decodes x (format_of op) (fix_instr_aliases x op)
table_at x c op at below enc =
    let entry : itable (x >>> 21) ≡ op = ap itable at ∙ (itable-encoding c below).1 ∙ enc in
    (ap format_of entry, ap (fix_instr_aliases x) entry)

table_at_two :
    (x c k : ℕ) (op : Opcode)
    → x / 2097152 ≡ c + k
    → k < 2
    → c < 2046
    → encoding c ≡ op
    → encoding (c + 1) ≡ op
    → Decodes x (format_of op) (fix_instr_aliases x op)
table_at_two x c k op at few below enc enc' = elim (ℕ_discrete k 0) [
  | yes e ↦ table_at x c op (omega arith) (omega arith) enc
  | no ne ↦ table_at x (c + 1) op (omega arith) (omega arith) enc'
]

aliased : (x : ℕ) (format : Format) (p q : Opcode) → Decodes x format p → p ≡ q → Decodes x format q
aliased x format p q h e = (h.0, h.1 ∙ e)

pub imm_op :
    (op : ImmOp) (d n imm : ℕ)
    → IsInstr (with_imm op d n imm)
    → Decodes (encode (with_imm op d n imm)) format_ri (imm_opcode op)
unfolding encode encoding fix_instr_aliases ftable init_ftable
imm_op add_imm d n imm (hd, hn, hi) =
    table_at_two (0x91000000 + imm * 1024 + n * 32 + d) 0x488 (imm / 2048) op_add_ri (omega arith)
      (omega arith) (omega arith) refl refl
imm_op sub_imm d n imm (hd, hn, hi) =
    table_at_two (0xD1000000 + imm * 1024 + n * 32 + d) 0x688 (imm / 2048) op_sub_ri (omega arith)
      (omega arith) (omega arith) refl refl

module _ (d n m : ℕ) (hd : d < 32) (hn : n < 32) (hm : m < 32) where
  abbrev word : RegOp → ℕ
  word op = reg_base op + m * 65536 + n * 32 + d

  low_bits : (op : RegOp) → bit_and (word op) 0x1F ≡ d
  low_bits adds = bit_and-mask (word adds) 5 ∙ omega arith
  low_bits subs = bit_and-mask (word subs) 5 ∙ omega arith
  low_bits ands = bit_and-mask (word ands) 5 ∙ omega arith
  low_bits orr = bit_and-mask (word orr) 5 ∙ omega arith
  low_bits eor = bit_and-mask (word eor) 5 ∙ omega arith
  low_bits orn = bit_and-mask (word orn) 5 ∙ omega arith
  low_bits lslv = bit_and-mask (word lslv) 5 ∙ omega arith
  low_bits lsrv = bit_and-mask (word lsrv) 5 ∙ omega arith

  shift_bit : (op : RegOp) → bit_and (word op >>> 10) 0x1 ≡ word op / 1024 % 2
  shift_bit op = bit_and-mask (word op / 1024) 1

  pub reg_op : (op : RegOp) → Decodes (encode (with_reg op d n m)) format_rr (reg_opcode op d)
  unfolding encode encoding fix_instr_aliases ftable init_ftable
  reg_op adds =
      aliased _ _ _ _ (table_at (word adds) 0x558 op_adds_rr (omega arith) (omega arith) refl)
        (rw (low_bits adds) refl)
  reg_op subs =
      aliased _ _ _ _ (table_at (word subs) 0x758 op_subs_rr (omega arith) (omega arith) refl)
        (rw (low_bits subs) refl)
  reg_op ands =
      aliased _ _ _ _ (table_at (word ands) 0x750 op_ands_rr (omega arith) (omega arith) refl)
        (rw (low_bits ands) refl)
  reg_op orr = table_at (word orr) 0x550 op_orr_rr (omega arith) (omega arith) refl
  reg_op eor = table_at (word eor) 0x650 op_eor_rr (omega arith) (omega arith) refl
  reg_op orn = table_at (word orn) 0x551 op_mvn (omega arith) (omega arith) refl
  reg_op lslv =
      aliased _ _ _ _ (table_at (word lslv) 0x4d6 op_ubfmv (omega arith) (omega arith) refl)
        ((let e : bit_and (word lslv >>> 10) 0x1 ≡ 0 = shift_bit lslv ∙ omega arith in rw e refl))
  reg_op lsrv =
      aliased _ _ _ _ (table_at (word lsrv) 0x4d6 op_ubfmv (omega arith) (omega arith) refl)
        ((let e : bit_and (word lsrv >>> 10) 0x1 ≡ 1 = shift_bit lsrv ∙ omega arith in rw e refl))

pub shift_op :
    (op : ShiftOp) (d n s : ℕ)
    → IsInstr (with_shift op d n s)
    → Decodes (encode (with_shift op d n s)) format_ri (shift_opcode op s)
unfolding encode encoding fix_instr_aliases ftable init_ftable
shift_op lsl_imm d n s (hd, hn, hs) =
    let x = shift_fields lsl_imm s + n * 32 + d in
    let imms : bit_and (x >>> 10) 0x3F ≡ 63 - s = bit_and-mask (x / 1024) 6 ∙ omega arith in
    aliased _ _ _ _
      (table_at_two x 0x69a ((64 - s) % 64 / 32) op_ubfm (omega arith) (omega arith) (omega arith)
        refl refl)
      (rw imms (ground arith))
shift_op lsr_imm d n s (hd, hn, hs) =
    let x = shift_fields lsr_imm s + n * 32 + d in
    let imms : bit_and (x >>> 10) 0x3F ≡ 63 = bit_and-mask (x / 1024) 6 ∙ omega arith in
    aliased _ _ _ _
      (table_at_two x 0x69a (s / 32) op_ubfm (omega arith) (omega arith) (omega arith) refl refl)
      (rw imms refl)
shift_op asr_imm d n s (hd, hn, hs) =
    table_at_two (shift_fields asr_imm s + n * 32 + d) 0x49a (s / 32) op_asr (omega arith)
      (omega arith) (omega arith) refl refl

mov_at :
    (x c hw : ℕ) (op : Opcode)
    → x / 2097152 ≡ c + hw
    → hw < 4
    → c < 2044
    → encoding c ≡ op
    → encoding (c + 1) ≡ op
    → encoding (c + 2) ≡ op
    → encoding (c + 3) ≡ op
    → Decodes x (format_of op) (fix_instr_aliases x op)
mov_at x c hw op at few below e0 e1 e2 e3 = elim (Bool-cases (ltb hw 2)) [
  | inl lt ↦ table_at_two x c hw op at (ground arith) (omega arith) e0 e1
  | inr ge ↦
      table_at_two x (c + 2) (hw - 2) op (let g : 2 ≤ hw = ground arith in omega arith)
        (omega arith) (omega arith) e2 (ap encoding {x = c + 2 + 1} {y = c + 3} (omega arith) ∙ e3)
]

pub mov_op :
    (op : MovOp) (d imm hw : ℕ)
    → IsInstr (with_mov op d imm hw)
    → Decodes (encode (with_mov op d imm hw)) format_i1 (mov_opcode op)
unfolding encode encoding fix_instr_aliases ftable init_ftable
mov_op movz d imm hw (hd, hi, hh) =
    mov_at (0xD2800000 + hw * 2097152 + imm * 32 + d) 0x694 hw op_movz (omega arith) hh
      (omega arith) refl refl refl refl
mov_op movk d imm hw (hd, hi, hh) =
    mov_at (0xF2800000 + hw * 2097152 + imm * 32 + d) 0x794 hw op_movk (omega arith) hh
      (omega arith) refl refl refl refl

pub sel_op :
    (op : SelOp) (d n m : ℕ) (cond : Cond)
    → IsInstr (with_sel op d n m cond)
    → Decodes (encode (with_sel op d n m cond)) format_ec (sel_opcode op)
unfolding encode encoding fix_instr_aliases ftable init_ftable
sel_op csel d n m cond (hd, hn, hm, hc) =
    let x = 0x9A800000 + m * 65536 + cond_code cond * 4096 + n * 32 + d in
    let e : bitfield_u32 x 10 1 ≡ 0 = field_10_1 x (omega arith) ∙ omega arith in
    aliased _ _ _ _ (table_at x 0x4d4 op_csel (omega arith) (omega arith) refl) (rw e refl)
sel_op csinc d n m cond (hd, hn, hm, hc) =
    let x = 0x9A800400 + m * 65536 + cond_code cond * 4096 + n * 32 + d in
    let e : bitfield_u32 x 10 1 ≡ 1 = field_10_1 x (omega arith) ∙ omega arith in
    aliased _ _ _ _ (table_at x 0x4d4 op_csel (omega arith) (omega arith) refl) (rw e refl)
sel_op csinv d n m cond (hd, hn, hm, hc) =
    let x = 0xDA800000 + m * 65536 + cond_code cond * 4096 + n * 32 + d in
    let e : bitfield_u32 x 10 1 ≡ 0 = field_10_1 x (omega arith) ∙ omega arith in
    aliased _ _ _ _ (table_at x 0x6d4 op_csneg (omega arith) (omega arith) refl) (rw e refl)
sel_op csneg d n m cond (hd, hn, hm, hc) =
    let x = 0xDA800400 + m * 65536 + cond_code cond * 4096 + n * 32 + d in
    let e : bitfield_u32 x 10 1 ≡ 1 = field_10_1 x (omega arith) ∙ omega arith in
    aliased _ _ _ _ (table_at x 0x6d4 op_csneg (omega arith) (omega arith) refl) (rw e refl)

-- ===== src/Isa/Tables.antt =====
-- The lookup tables of src/pipe/instr_base.c: `itable`, from the top eleven bits of an instruction
-- to its opcode, and `ftable`, from opcodes to formats. `none` is an assertion that fails.
pub mod Complete
use ch_arm_v5_system_emulato.Base.{
  ℕ, zero, suc, ◌+◌, ◌-◌, Bool, ◌==◌, leb, ltb, ◌&&◌, if◌then◌else◌, Option, none, some, ◌>>=◌,
}
use ch_arm_v5_system_emulato.Isa.{
  Opcode, op_nop, op_ldur, op_stur, op_movk, op_movz, op_adrp, op_add_ri, op_adds_rr, op_cmn_rr,
  op_sub_ri, op_subs_rr, op_cmp_rr, op_mvn, op_orr_rr, op_eor_rr, op_ands_rr, op_tst_rr, op_lsl_ri,
  op_lsr_ri, op_ubfm, op_lsl_rr, op_lsr_rr, op_ubfmv, op_asr, op_b, op_b_cond, op_bl, op_ret,
  op_hlt, op_csel, op_csinv, op_csinc, op_csneg, op_cbz, op_cbnz, op_br, op_blr, op_error, ◌is◌,
  opcode_value, Format, format_error, format_m, format_i1, format_i2, format_rr, format_ri,
  format_b1, format_b2, format_b3, format_s, format_ec,
}

-- A table as a function of the index.
abbrev pub Itable : Type 0
Itable = ℕ → Opcode

-- `init_itable_entry`.
pub init_itable_entry : Opcode → ℕ → Itable → Option Itable
init_itable_entry op idx itable =
    if itable idx is op_error then some (λ i. if i == idx then op else itable i) else none

-- `init_itable_range`, with `left` entries to go.
pub init_itable_range : Opcode → ℕ → ℕ → Itable → Option Itable
init_itable_range op i zero itable = some itable
init_itable_range op i (suc left) itable = do
  itable' ← init_itable_entry op i itable
  init_itable_range op (suc i) left itable'

-- `init_itable_range(op, idx1, idx2)`.
abbrev pub range : Opcode → ℕ → ℕ → Itable → Option Itable
range op idx1 idx2 itable = init_itable_range op idx1 (suc idx2 - idx1) itable

abbrev pub entry : Opcode → ℕ → Itable → Option Itable
entry op idx itable = init_itable_entry op idx itable

-- `init_itable`, the extra-credit block last.
unfoldable pub init_itable : Option Itable
unfolding init_itable_entry init_itable_range
init_itable = do
  t ← some (λ _. op_error)
  t ← entry op_ldur 0x7c2 t
  t ← entry op_stur 0x7c0 t
  t ← range op_movk 0x794 0x797 t
  t ← range op_movz 0x694 0x697 t
  t ← range op_adrp 0x480 0x487 t
  t ← range op_adrp 0x580 0x587 t
  t ← range op_adrp 0x680 0x687 t
  t ← range op_adrp 0x780 0x787 t
  t ← range op_add_ri 0x488 0x489 t
  t ← entry op_adds_rr 0x558 t
  t ← range op_sub_ri 0x688 0x689 t
  t ← entry op_subs_rr 0x758 t
  t ← entry op_mvn 0x551 t
  t ← entry op_orr_rr 0x550 t
  t ← entry op_eor_rr 0x650 t
  t ← entry op_ands_rr 0x750 t
  t ← range op_ubfm 0x69a 0x69b t
  t ← entry op_ubfmv 0x4d6 t
  t ← range op_asr 0x49a 0x49b t
  t ← range op_b 0x0a0 0x0bf t
  t ← range op_b_cond 0x2a0 0x2a7 t
  t ← range op_bl 0x4a0 0x4bf t
  t ← entry op_ret 0x6b2 t
  t ← entry op_nop 0x6a8 t
  t ← entry op_hlt 0x6a2 t
  t ← entry op_csel 0x4d4 t
  t ← entry op_csneg 0x6d4 t
  t ← range op_cbz 0x5a0 0x5a7 t
  t ← range op_cbnz 0x5a8 0x5af t
  t ← entry op_br 0x6b0 t
  entry op_blr 0x6b1 t

-- `init_ftable_entry`.
pub init_ftable_entry : Opcode → Format → (Opcode → Format) → Option (Opcode → Format)
init_ftable_entry op format ftable = elim (ftable op) [
  | format_error ↦
      if ltb (opcode_value op) 37 then some (λ o. if o is op then format else ftable o) else none
  | _ ↦ none
]

-- `init_ftable`, the extra-credit block last.
unfoldable pub init_ftable : Option (Opcode → Format)
unfolding init_ftable_entry
init_ftable = do
  t ← some (λ _. format_error)
  t ← init_ftable_entry op_ldur format_m t
  t ← init_ftable_entry op_stur format_m t
  t ← init_ftable_entry op_movk format_i1 t
  t ← init_ftable_entry op_movz format_i1 t
  t ← init_ftable_entry op_adrp format_i2 t
  t ← init_ftable_entry op_add_ri format_ri t
  t ← init_ftable_entry op_adds_rr format_rr t
  t ← init_ftable_entry op_cmn_rr format_rr t
  t ← init_ftable_entry op_sub_ri format_ri t
  t ← init_ftable_entry op_subs_rr format_rr t
  t ← init_ftable_entry op_cmp_rr format_rr t
  t ← init_ftable_entry op_mvn format_rr t
  t ← init_ftable_entry op_orr_rr format_rr t
  t ← init_ftable_entry op_eor_rr format_rr t
  t ← init_ftable_entry op_ands_rr format_rr t
  t ← init_ftable_entry op_tst_rr format_rr t
  t ← init_ftable_entry op_lsl_ri format_ri t
  t ← init_ftable_entry op_lsr_ri format_ri t
  t ← init_ftable_entry op_ubfm format_ri t
  t ← init_ftable_entry op_lsl_rr format_rr t
  t ← init_ftable_entry op_lsr_rr format_rr t
  t ← init_ftable_entry op_ubfmv format_rr t
  t ← init_ftable_entry op_asr format_ri t
  t ← init_ftable_entry op_b format_b1 t
  t ← init_ftable_entry op_b_cond format_b2 t
  t ← init_ftable_entry op_bl format_b1 t
  t ← init_ftable_entry op_ret format_b3 t
  t ← init_ftable_entry op_nop format_s t
  t ← init_ftable_entry op_hlt format_s t
  t ← init_ftable_entry op_csel format_ec t
  t ← init_ftable_entry op_csinv format_ec t
  t ← init_ftable_entry op_csinc format_ec t
  t ← init_ftable_entry op_csneg format_ec t
  t ← init_ftable_entry op_cbz format_ec t
  t ← init_ftable_entry op_cbnz format_ec t
  t ← init_ftable_entry op_br format_ec t
  init_ftable_entry op_blr format_ec t

-- The tables after their initialisation; Complete shows that no assertion of it fails.
unfoldable pub itable : Itable
itable = elim init_itable [ none ↦ λ _. op_error | some t ↦ t ]

unfoldable pub ftable : Opcode → Format
ftable = elim init_ftable [ none ↦ λ _. format_error | some t ↦ t ]

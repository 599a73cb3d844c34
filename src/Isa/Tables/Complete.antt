-- ===== src/Isa/Tables/Complete.antt =====
-- The tables of src/pipe/instr_base.c against the encodings of the instruction set.
use ch_arm_v5_system_emulato.Base.{
  ℕ, zero, suc, ◌/◌, ◌%◌, ◌<◌, Bool, true, ◌&&◌, ◌==◌, ==→eq, if◌then◌else◌, List, [], ◌∷◌, get_or,
  some, ◌≡◌, ◌↔◌, refl, sym, ap, ◌∙◌, arith,
}
use ch_arm_v5_system_emulato.Isa.{
  Opcode, op_nop, op_ldur, op_stur, op_movk, op_movz, op_adrp, op_add_ri, op_adds_rr, op_cmn_rr,
  op_sub_ri, op_subs_rr, op_cmp_rr, op_mvn, op_orr_rr, op_eor_rr, op_ands_rr, op_tst_rr, op_lsl_ri,
  op_lsr_ri, op_ubfm, op_lsl_rr, op_lsr_rr, op_ubfmv, op_asr, op_b, op_b_cond, op_bl, op_ret,
  op_hlt, op_csel, op_csinv, op_csinc, op_csneg, op_cbz, op_cbnz, op_br, op_blr, op_error, ◌is◌,
  opcode_value, format_error,
}
use ch_arm_v5_system_emulato.Isa.Tables.{init_itable, init_ftable, itable, ftable}

abbrev opcodes : List Opcode
opcodes =
    op_nop ∷ op_ldur ∷ op_stur ∷ op_movk ∷ op_movz ∷ op_adrp ∷ op_add_ri ∷ op_adds_rr ∷ op_cmn_rr
    ∷ op_sub_ri ∷ op_subs_rr ∷ op_cmp_rr ∷ op_mvn ∷ op_orr_rr ∷ op_eor_rr ∷ op_ands_rr ∷ op_tst_rr
    ∷ op_lsl_ri ∷ op_lsr_ri ∷ op_ubfm ∷ op_lsl_rr ∷ op_lsr_rr ∷ op_ubfmv ∷ op_asr ∷ op_b ∷ op_b_cond
    ∷ op_bl ∷ op_ret ∷ op_hlt ∷ op_csel ∷ op_csinv ∷ op_csinc ∷ op_csneg ∷ op_cbz ∷ op_cbnz ∷ op_br
    ∷ op_blr ∷ op_error ∷ []

opcode_at_value : (p : Opcode) → get_or opcodes (opcode_value p) op_error ≡ p
opcode_at_value op_nop = refl
opcode_at_value _ = refl

-- The test `==` on opcodes is their equality.
pub is→eq : (p q : Opcode) → (p is q) ≡ true → p ≡ q
is→eq p q h =
    sym (opcode_at_value p)
    ∙ ap (λ n. get_or opcodes n op_error) (==→eq (opcode_value p) (opcode_value q) h)
    ∙ opcode_at_value q

-- The opcode that the architecture gives to the top eleven bits of an instruction: each encoding
-- fixes its leading bits, and leaves the rest to an operand. Of ADRP bits 30 and 29 are operand
-- bits, that is bits 9 and 8 here.
unfoldable pub encoding : ℕ → Opcode
encoding i =
    if i / 32 == 0b000101
    then op_b
    else if i / 32 == 0b100101
    then op_bl
    else if i / 8 == 0b01010100
    then op_b_cond
    else if i / 8 == 0b10110100
    then op_cbz
    else if i / 8 == 0b10110101
    then op_cbnz
    else if i / 1024 == 1 && i / 8 % 32 == 0b10000
    then op_adrp
    else if i / 4 == 0b111100101
    then op_movk
    else if i / 4 == 0b110100101
    then op_movz
    else if i / 2 == 0b1001000100
    then op_add_ri
    else if i / 2 == 0b1101000100
    then op_sub_ri
    else if i / 2 == 0b1101001101
    then op_ubfm
    else if i / 2 == 0b1001001101
    then op_asr
    else if i == 0b11111000010
    then op_ldur
    else if i == 0b11111000000
    then op_stur
    else if i == 0b10101011000
    then op_adds_rr
    else if i == 0b11101011000
    then op_subs_rr
    else if i == 0b10101010001
    then op_mvn
    else if i == 0b10101010000
    then op_orr_rr
    else if i == 0b11001010000
    then op_eor_rr
    else if i == 0b11101010000
    then op_ands_rr
    else if i == 0b10011010110
    then op_ubfmv
    else if i == 0b11010110010
    then op_ret
    else if i == 0b11010101000
    then op_nop
    else if i == 0b11010100010
    then op_hlt
    else if i == 0b10011010100
    then op_csel
    else if i == 0b11011010100
    then op_csneg
    else if i == 0b11010110000
    then op_br
    else if i == 0b11010110001
    then op_blr
    else op_error

each_index : (ℕ → Bool) → ℕ → Bool
each_index test zero = true
each_index test (suc count) = each_index test count && test count

each_index-holds :
    (test : ℕ → Bool) (count i : ℕ) → i < count → each_index test count ≡ true → test i ≡ true
unfolding each_index
each_index-holds test (suc count) i below all = ground (arith, each_index-holds test count i)
each_index-holds test zero i below all = absurd (omega arith)

itable_check : each_index (λ i. itable i is encoding i) 2048 ≡ true
unfolding each_index itable init_itable encoding
itable_check = refl

-- For an index below 2048, no assertion of init_itable fails and the table has the opcode of the
-- index's encoding, OP_ERROR where there is none.
pub itable-encoding : (i : ℕ) → i < 2048 → (init_itable ≡ some itable) × (itable i ≡ encoding i)
unfolding itable init_itable
itable-encoding i h =
    (refl, is→eq (itable i) (encoding i) (each_index-holds _ 2048 i h itable_check))

-- No assertion of init_ftable fails, and exactly OP_ERROR is left with FORMAT_ERROR.
pub ftable_complete :
    (op : Opcode) → (init_ftable ≡ some ftable) × ((ftable op ≡ format_error) ↔ (op ≡ op_error))
unfolding ftable init_ftable
ftable_complete op_error = (refl, (λ h. refl, λ h. refl))
ftable_complete _ = (refl, (λ h. absurd cc, λ h. absurd cc))

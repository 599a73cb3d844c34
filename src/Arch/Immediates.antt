-- ===== src/Arch/Immediates.antt =====
-- The instructions with an immediate: ADD and SUB, which may name the stack pointer, and the shifts
-- LSL, LSR and ASR.
use ch_arm_v5_system_emulato.Base.{
  ℕ, ◌+◌, ◌-◌, ◌*◌, ◌/◌, ◌%◌, ◌^◌, ◌<◌, true, false, List, length, ◌==◌, u8, sub64, Bool-cases, inl,
  inr, some, bit_and, ◌<<<◌, ◌≡◌, refl, ◌∙◌, arith,
}
use ch_arm_v5_system_emulato.Bits.{bit_and-mask}
use ch_arm_v5_system_emulato.Pipe.Regs.{XInstr}
use ch_arm_v5_system_emulato.Isa.{
  Opcode, op_add_ri, op_sub_ri, op_lsl_ri, op_lsr_ri, op_asr, c_al, format_ri,
}
use ch_arm_v5_system_emulato.Isa.Bitfield.{bitfield_u32}
use ch_arm_v5_system_emulato.Hw.Adder.{FullAdder}
use ch_arm_v5_system_emulato.Hw.Alu.{AluOut, alu, cond_holds}
use ch_arm_v5_system_emulato.Hw.Alu.Flags.{add_into-sum, add_into-difference}
use ch_arm_v5_system_emulato.Hw.Regfile.{Proc, regfile_read, regfile_write}
use ch_arm_v5_system_emulato.Mem.Access.{MemSystem}
use ch_arm_v5_system_emulato.Pipe.Decode.{decode_instr, extract_immval}
use ch_arm_v5_system_emulato.Pipe.Decode.Registers.{RegNums, extract_regs}
use ch_arm_v5_system_emulato.Pipe.Decode.Control.{decide_alu_op, generate_dxmw_control}
use ch_arm_v5_system_emulato.Arch.{
  ImmOp, add_imm, sub_imm, ShiftOp, lsl_imm, lsr_imm, asr_imm, with_imm, with_shift, imm_base,
  shift_fields, encode, IsInstr, exec, IsProc, get_x, get_sp, imm_value, shift_value,
}
use ch_arm_v5_system_emulato.Arch.Encoding.{
  imm_opcode, shift_opcode, imm_op, shift_op, field_0_5, field_5_5, field_10_12, field_16_6,
}
use ch_arm_v5_system_emulato.Arch.Travel.{fetched, retire, retire-done}
use ch_arm_v5_system_emulato.Arch.Operands.{
  fix, fetched_as, fetched-Decodes, regfile_read-get_x, regfile_write-set_x, regfile_read-get_sp,
  regfile_write-set_sp, get_x-lt, get_sp-lt,
}

-- The value of an operation on `a` and an immediate.
abbrev value : List FullAdder → Proc → Opcode → (hw a imm : ℕ) → ℕ
value rca proc op hw a imm =
    (alu a imm hw proc.nzcv (decide_alu_op op) false c_al 0 proc.nzcv rca).0.val_e

module _ (regs : RegNums) (pc x : ℕ) (proc : Proc) (rca : List FullAdder) (mem : MemSystem) where
  abbrev hw_field : ℕ
  hw_field = u8 (bitfield_u32 x 21 2 <<< 4)

  abbrev decoded : Opcode → XInstr
  decoded op = (decode_instr regs proc (fetched_as x pc format_ri op)).out

  retire-imm :
      (op : ImmOp)
      → retire proc rca mem (decoded (imm_opcode op))
        ≡ some (
          regfile_write
              (bitfield_u32 x 0 5)
              (value rca proc
                (imm_opcode op)
                hw_field
                (regfile_read proc (bitfield_u32 x 5 5))
                (bitfield_u32 x 10 12))
              true
              proc,
          mem,
        )
  unfolding decode_instr generate_dxmw_control decide_alu_op extract_regs extract_immval
  retire-imm add_imm = retire-done proc rca mem (decoded op_add_ri) true refl
  retire-imm sub_imm = retire-done proc rca mem (decoded op_sub_ri) true refl

  abbrev Shifts : Opcode → Type 0
  Shifts op =
      retire proc rca mem (decoded op)
      ≡ some (
        regfile_write (fix (bitfield_u32 x 0 5))
            (value rca proc op hw_field (regfile_read proc (fix (bitfield_u32 x 5 5)))
              (extract_immval x op))
            true proc,
        mem,
      )

  retire-lsl : Shifts op_lsl_ri
  unfolding decode_instr generate_dxmw_control decide_alu_op extract_regs
  retire-lsl = retire-done proc rca mem (decoded op_lsl_ri) true refl

  retire-lsr : Shifts op_lsr_ri
  unfolding decode_instr generate_dxmw_control decide_alu_op extract_regs
  retire-lsr = retire-done proc rca mem (decoded op_lsr_ri) true refl

  retire-asr : Shifts op_asr
  unfolding decode_instr generate_dxmw_control decide_alu_op extract_regs
  retire-asr = retire-done proc rca mem (decoded op_asr) true refl

-- The outputs before the operation.
abbrev start : List FullAdder → Proc → AluOut
start rca proc = record { val_e = 0; cond_val = cond_holds c_al proc.nzcv; rca = rca }

-- The sum or the difference.
value-imm_value :
    (rca : List FullAdder) (proc : Proc) (op : ImmOp) (hw a imm : ℕ)
    → length rca ≡ 64
    → a < 2 ^ 64
    → imm < 4096
    → value rca proc (imm_opcode op) hw a imm ≡ imm_value op a imm
unfolding decide_alu_op alu
value-imm_value rca proc add_imm hw a imm size ha hi =
    add_into-sum a imm rca size ha (omega arith) (start rca proc) refl
value-imm_value rca proc sub_imm hw a imm size ha hi =
    add_into-difference a imm rca size ha (omega arith) (start rca proc) refl

pub imm_base_bits : (op : ImmOp) → (imm_base op % 4194304 ≡ 0) × (imm_base op < 0xF0000000)
imm_base_bits add_imm = omega arith
imm_base_bits _ = omega arith

pub retire-with_imm :
    (regs : RegNums) (pc : ℕ) (proc : Proc) (rca : List FullAdder) (mem : MemSystem) (op : ImmOp)
    (d n imm : ℕ)
    → IsInstr (with_imm op d n imm)
    → IsProc proc
    → length rca ≡ 64
    → let x = encode (with_imm op d n imm) in
      retire proc rca mem (decode_instr regs proc (fetched x pc)).out
      ≡ some (exec (with_imm op d n imm) proc, mem)
unfolding encode exec
retire-with_imm regs pc proc rca mem op d n imm (hd, hn, hi) ok size =
    let (low, high) = imm_base_bits op in
    let x = imm_base op + imm * 1024 + n * 32 + d in
    let hx : x < 2 ^ 32 = omega arith in
    let ed : bitfield_u32 x 0 5 ≡ d = field_0_5 x hx ∙ omega arith in
    let en : bitfield_u32 x 5 5 ≡ n = field_5_5 x hx ∙ omega arith in
    let ei : bitfield_u32 x 10 12 ≡ imm = field_10_12 x hx ∙ omega arith in
    rw
      (
        fetched-Decodes x pc _ _ (imm_op op d n imm (hd, hn, hi)),
        retire-imm regs pc x proc rca mem op,
        ed,
        en,
        ei,
        regfile_read-get_sp proc n hn,
        value-imm_value rca proc op (hw_field regs pc x proc rca mem) (get_sp proc n) imm size
            (get_sp-lt proc n ok) hi,
        regfile_write-set_sp proc d (imm_value op (get_sp proc n) imm) hd,
      )
      refl

-- The value of a shift by fewer than 64 places.
module _ (rca : List FullAdder) (proc : Proc) (hw a s : ℕ) (hs : s < 64) where
  low_six : bit_and s 0x3F ≡ s
  low_six = bit_and-mask s 6 ∙ omega arith

  value-lsl : value rca proc op_lsl_ri hw a s ≡ shift_value lsl_imm a s
  unfolding alu decide_alu_op
  value-lsl = rw low_six refl

  value-lsr : value rca proc op_lsr_ri hw a s ≡ shift_value lsr_imm a s
  unfolding alu decide_alu_op
  value-lsr = rw low_six refl

  value-asr : value rca proc op_asr hw a s ≡ shift_value asr_imm a s
  unfolding alu decide_alu_op
  value-asr = rw low_six refl

-- The field immr.
abbrev pub shift_amount : ShiftOp → ℕ → ℕ
shift_amount lsl_imm s = (64 - s) % 64
shift_amount _ s = s

pub shift_fields_bits :
    (op : ShiftOp) (s : ℕ)
    → s < 64
    → (shift_fields op s / 65536 % 64 ≡ shift_amount op s)
      × (shift_fields op s % 1024 ≡ 0)
      × (shift_fields op s < 0xF0000000)
shift_fields_bits lsl_imm s h = omega arith
shift_fields_bits lsr_imm s h = omega arith
shift_fields_bits asr_imm s h = omega arith

no_shift :
    (a s : ℕ) → a < 2 ^ 64 → s ≡ 0 → shift_value lsr_imm a ((64 - s) % 64) ≡ shift_value lsl_imm a s
no_shift a s h e = rw e (omega arith)

value-shift_value :
    (rca : List FullAdder) (proc : Proc) (op : ShiftOp) (hw a s x : ℕ)
    → a < 2 ^ 64
    → s < 64
    → x < 2 ^ 32
    → x / 65536 % 64 ≡ shift_amount op s
    → value rca proc (shift_opcode op s) hw a (extract_immval x (shift_opcode op s))
      ≡ shift_value op a s
unfolding extract_immval
value-shift_value rca proc lsl_imm hw a s x ha hs hx e = elim (Bool-cases (s == 0)) [
  | inl z ↦
      rw (z, field_16_6 x hx, e)
        (value-lsr rca proc hw a ((64 - s) % 64) (omega arith) ∙ no_shift a s ha (ground arith))
  | inr nz ↦
      rw (nz, field_16_6 x hx, e)
        (let e' : sub64 64 ((64 - s) % 64) ≡ s = ground arith in
          rw e' (value-lsl rca proc hw a s hs))
]
value-shift_value rca proc lsr_imm hw a s x ha hs hx e =
    rw (field_16_6 x hx, e) (value-lsr rca proc hw a s hs)
value-shift_value rca proc asr_imm hw a s x ha hs hx e =
    rw (field_16_6 x hx, e) (value-asr rca proc hw a s hs)

retire-shift :
    (regs : RegNums) (pc x : ℕ) (proc : Proc) (rca : List FullAdder) (mem : MemSystem)
    (op : ShiftOp) (s : ℕ)
    → Shifts regs pc x proc rca mem (shift_opcode op s)
retire-shift regs pc x proc rca mem lsl_imm s = elim (Bool-cases (s == 0)) [
  | inl z ↦ rw z (retire-lsr regs pc x proc rca mem)
  | inr nz ↦ rw nz (retire-lsl regs pc x proc rca mem)
]
retire-shift regs pc x proc rca mem lsr_imm s = retire-lsr regs pc x proc rca mem
retire-shift regs pc x proc rca mem asr_imm s = retire-asr regs pc x proc rca mem

pub retire-with_shift :
    (regs : RegNums) (pc : ℕ) (proc : Proc) (rca : List FullAdder) (mem : MemSystem) (op : ShiftOp)
    (d n s : ℕ)
    → IsInstr (with_shift op d n s)
    → IsProc proc
    → length rca ≡ 64
    → let x = encode (with_shift op d n s) in
      retire proc rca mem (decode_instr regs proc (fetched x pc)).out
      ≡ some (exec (with_shift op d n s) proc, mem)
unfolding encode exec
retire-with_shift regs pc proc rca mem op d n s (hd, hn, hs) ok size =
    let (amount, low, high) = shift_fields_bits op s hs in
    let x = shift_fields op s + n * 32 + d in
    let hx : x < 2 ^ 32 = omega arith in
    let ed : bitfield_u32 x 0 5 ≡ d = field_0_5 x hx ∙ omega arith in
    let en : bitfield_u32 x 5 5 ≡ n = field_5_5 x hx ∙ omega arith in
    let es : x / 65536 % 64 ≡ shift_amount op s = omega arith in
    rw
      (
        fetched-Decodes x pc _ _ (shift_op op d n s (hd, hn, hs)),
        retire-shift regs pc x proc rca mem op s,
        ed,
        en,
        regfile_read-get_x proc n hn,
        value-shift_value rca proc op (hw_field regs pc x proc rca mem) (get_x proc n) s x
            (get_x-lt proc n ok) hs hx es,
        regfile_write-set_x proc d (shift_value op (get_x proc n) s) hd,
      )
      refl

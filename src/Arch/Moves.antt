-- ===== src/Arch/Moves.antt =====
-- MOVZ and MOVK, and the conditional selections CSEL, CSINC, CSINV and CSNEG.
use ch_arm_v5_system_emulato.Base.{
  ℕ, zero, suc, ◌+◌, ◌*◌, ◌%◌, ◌^◌, ◌≤◌, ◌<◌, true, false, List, length, if◌then◌else◌, u8, u64,
  not64, Bool-cases, inl, inr, some, bit_and, bit_or, ◌<<<◌, ◌≡◌, refl, ap, ◌∙◌, arith,
}
use ch_arm_v5_system_emulato.Bits.{bit_or-zero}
use native.Mathlib.Nat.{le_refl}
use ch_arm_v5_system_emulato.Isa.{
  op_movz, op_movk, op_csel, op_csinc, op_csinv, op_csneg, Cond, c_eq, c_error, format_i1,
  format_ec,
}
use ch_arm_v5_system_emulato.Isa.Bitfield.{bitfield_u32}
use ch_arm_v5_system_emulato.Hw.Adder.{FullAdder}
use ch_arm_v5_system_emulato.Hw.Alu.{AluOut, alu, cond_holds}
use ch_arm_v5_system_emulato.Hw.Alu.Flags.{add_into-sum, add_into-difference}
use ch_arm_v5_system_emulato.Hw.Regfile.{Proc, regfile_read, regfile_write, xzr_num}
use ch_arm_v5_system_emulato.Mem.Access.{MemSystem}
use ch_arm_v5_system_emulato.Pipe.Decode.{decode_instr, extract_immval, to_cond}
use ch_arm_v5_system_emulato.Pipe.Decode.Registers.{RegNums, extract_regs}
use ch_arm_v5_system_emulato.Pipe.Decode.Control.{decide_alu_op, generate_dxmw_control}
use ch_arm_v5_system_emulato.Arch.{
  MovOp, movz, movk, SelOp, csel, csinc, csinv, csneg, with_mov, with_sel, mov_base, sel_base,
  cond_code, condition_holds, encode, IsInstr, exec, IsProc, get_x, set_x, mov_value, sel_value,
}
use ch_arm_v5_system_emulato.Arch.Encoding.{
  mov_opcode, sel_opcode, mov_op, sel_op, field_0_5, field_5_5, field_16_5, field_5_16, field_21_2,
  field_12_4,
}
use ch_arm_v5_system_emulato.Arch.Travel.{fetched, retire, retire-done}
use ch_arm_v5_system_emulato.Arch.Operands.{
  fix, fetched_as, fetched-Decodes, regfile_read-get_x, regfile_read-xzr, regfile_write-set_x,
  get_x-lt,
}

module _ (regs : RegNums) (pc x : ℕ) (proc : Proc) (rca : List FullAdder) (mem : MemSystem) where
  abbrev hw_field : ℕ
  hw_field = u8 (bitfield_u32 x 21 2 <<< 4)

  retire-movz :
      retire proc rca mem (decode_instr regs proc (fetched_as x pc format_i1 op_movz)).out
      ≡ some (
        regfile_write
            (fix (bitfield_u32 x 0 5))
            (bit_or (regfile_read proc xzr_num) (u64 (bitfield_u32 x 5 16 <<< hw_field)))
            true
            proc,
        mem,
      )
  unfolding decode_instr generate_dxmw_control decide_alu_op extract_regs extract_immval alu
  retire-movz =
      retire-done proc rca mem (decode_instr regs proc (fetched_as x pc format_i1 op_movz)).out true
        refl

  retire-movk :
      retire proc rca mem (decode_instr regs proc (fetched_as x pc format_i1 op_movk)).out
      ≡ some (
        regfile_write
            (fix (bitfield_u32 x 0 5))
            (bit_or
              (bit_and
                (regfile_read proc (fix (bitfield_u32 x 0 5)))
                (not64 (u64 (0xFFFF <<< hw_field))))
              (u64 (bitfield_u32 x 5 16 <<< hw_field)))
            true
            proc,
        mem,
      )
  unfolding decode_instr generate_dxmw_control decide_alu_op extract_regs extract_immval alu
  retire-movk =
      retire-done proc rca mem (decode_instr regs proc (fetched_as x pc format_i1 op_movk)).out true
        refl

  retire-sel :
      (op : SelOp)
      → retire proc rca mem (decode_instr regs proc (fetched_as x pc format_ec (sel_opcode op))).out
        ≡ some (
          regfile_write
              (fix (bitfield_u32 x 0 5))
              (alu
                (regfile_read proc (fix (bitfield_u32 x 5 5)))
                (regfile_read proc (fix (bitfield_u32 x 16 5)))
                hw_field
                proc.nzcv
                (decide_alu_op (sel_opcode op))
                false
                (to_cond (bitfield_u32 x 12 4))
                0
                proc.nzcv
                rca).0.val_e
              true
              proc,
          mem,
        )
  unfolding decode_instr generate_dxmw_control decide_alu_op extract_regs extract_immval
  retire-sel csel =
      retire-done proc rca mem (decode_instr regs proc (fetched_as x pc format_ec op_csel)).out true
        refl
  retire-sel csinc =
      retire-done proc rca mem (decode_instr regs proc (fetched_as x pc format_ec op_csinc)).out
        true refl
  retire-sel csinv =
      retire-done proc rca mem (decode_instr regs proc (fetched_as x pc format_ec op_csinv)).out
        true refl
  retire-sel csneg =
      retire-done proc rca mem (decode_instr regs proc (fetched_as x pc format_ec op_csneg)).out
        true refl

to_cond-cond_code : (cond : Cond) → cond_code cond < 16 → to_cond (cond_code cond) ≡ cond
unfolding to_cond
to_cond-cond_code c_error h = absurd (omega arith)
to_cond-cond_code c_eq h = refl
to_cond-cond_code _ h = refl

-- The switch of `cond_holds` is the test that the code of the condition names.
cond_holds-condition_holds :
    (cond : Cond) (nzcv : ℕ)
    → cond_code cond < 16
    → cond_holds cond nzcv ≡ condition_holds (cond_code cond) nzcv
unfolding cond_holds condition_holds
cond_holds-condition_holds c_error nzcv h = absurd (omega arith)
cond_holds-condition_holds c_eq nzcv h = ground arith
cond_holds-condition_holds _ nzcv h = ground arith

sel_lem :
    (rca : List FullAdder) (nzcv : ℕ) (op : SelOp) (hw a b : ℕ) (cond : Cond)
    → length rca ≡ 64
    → b < 2 ^ 64
    → (alu a b hw nzcv (decide_alu_op (sel_opcode op)) false cond 0 nzcv rca).0.val_e
      ≡ (if cond_holds cond nzcv then a else sel_value op b)
unfolding alu decide_alu_op
sel_lem rca nzcv csel hw a b cond size hb = refl
sel_lem rca nzcv csinv hw a b cond size hb = refl
sel_lem rca nzcv csinc hw a b cond size hb =
    let start : AluOut = record { val_e = 0; cond_val = cond_holds cond nzcv; rca = rca } in
    elim (Bool-cases (cond_holds cond nzcv)) [
      | inl e ↦ rw e refl
      | inr e ↦
          rw e (add_into-sum b 1 rca size hb (omega arith) (record start { cond_val = false }) refl)
    ]
sel_lem rca nzcv csneg hw a b cond size hb =
    let start : AluOut = record { val_e = 0; cond_val = cond_holds cond nzcv; rca = rca } in
    elim (Bool-cases (cond_holds cond nzcv)) [
      | inl e ↦ rw e refl
      | inr e ↦ rw e (
          add_into-difference 0 b rca size (omega arith) hb (record start { cond_val = false })
            refl)
    ]

-- The field hw as a number of places.
places : (hw : ℕ) → hw < 4 → u8 (hw <<< 4) ≡ 16 * hw
places hw h = omega arith

shifted : (imm hw : ℕ) → imm < 65536 → hw < 4 → u64 (imm <<< (16 * hw)) ≡ imm * 2 ^ (16 * hw)
shifted imm zero hi h = omega arith
shifted imm (suc zero) hi h = omega arith
shifted imm (suc (suc zero)) hi h = omega arith
shifted imm (suc (suc (suc zero))) hi h = omega arith
shifted imm (suc (suc (suc (suc hw)))) hi h = absurd (omega arith)

pub mov_base_bits : (op : MovOp) → (mov_base op % 8388608 ≡ 0) × (mov_base op < 0xF3000000)
mov_base_bits movz = omega arith
mov_base_bits movk = omega arith

retire-mov :
    (regs : RegNums) (pc x : ℕ) (proc : Proc) (rca : List FullAdder) (mem : MemSystem) (op : MovOp)
    (d imm hw : ℕ)
    → d < 32
    → imm < 65536
    → hw < 4
    → bitfield_u32 x 0 5 ≡ d
    → bitfield_u32 x 5 16 ≡ imm
    → bitfield_u32 x 21 2 ≡ hw
    → retire proc rca mem (decode_instr regs proc (fetched_as x pc format_i1 (mov_opcode op))).out
      ≡ some (set_x proc d (mov_value op (get_x proc d) imm hw), mem)
retire-mov regs pc x proc rca mem movz d imm hw hd hi hh ed ei eh =
    let v = imm * 2 ^ (16 * hw) in
    retire-movz regs pc x proc rca mem
    ∙ rw
        (
          ed,
          ei,
          eh,
          places hw hh,
          shifted imm hw hi hh,
          regfile_read-xzr proc,
          (bit_or-zero v v (le_refl v)).1,
          regfile_write-set_x proc d v hd,
        )
        refl
retire-mov regs pc x proc rca mem movk d imm hw hd hi hh ed ei eh =
    retire-movk regs pc x proc rca mem
    ∙ rw
        (
          ed,
          ei,
          eh,
          places hw hh,
          shifted imm hw hi hh,
          shifted 0xFFFF hw (omega arith) hh,
          regfile_read-get_x proc d hd,
        )
        (ap (λ p. some (p, mem)) (regfile_write-set_x proc d _ hd))

pub retire-with_mov :
    (regs : RegNums) (pc : ℕ) (proc : Proc) (rca : List FullAdder) (mem : MemSystem) (op : MovOp)
    (d imm hw : ℕ)
    → IsInstr (with_mov op d imm hw)
    → let x = encode (with_mov op d imm hw) in
      retire proc rca mem (decode_instr regs proc (fetched x pc)).out
      ≡ some (exec (with_mov op d imm hw) proc, mem)
unfolding encode exec
retire-with_mov regs pc proc rca mem op d imm hw (hd, hi, hh) =
    let (low, high) = mov_base_bits op in
    let x = mov_base op + hw * 2097152 + imm * 32 + d in
    let hx : x < 2 ^ 32 = omega arith in
    rw (fetched-Decodes x pc _ _ (mov_op op d imm hw (hd, hi, hh))) (
      retire-mov regs pc x proc rca mem op d imm hw hd hi hh (field_0_5 x hx ∙ omega arith)
        (field_5_16 x hx ∙ omega arith) (field_21_2 x hx ∙ omega arith))

pub sel_base_bits :
    (op : SelOp)
    → (sel_base op % 2097152 ≤ 0x400) × (sel_base op % 1024 ≡ 0) × (sel_base op < 0xF0000000)
sel_base_bits csel = omega arith
sel_base_bits csinc = omega arith
sel_base_bits csinv = omega arith
sel_base_bits csneg = omega arith

pub retire-with_sel :
    (regs : RegNums) (pc : ℕ) (proc : Proc) (rca : List FullAdder) (mem : MemSystem) (op : SelOp)
    (d n m : ℕ) (cond : Cond)
    → IsInstr (with_sel op d n m cond)
    → IsProc proc
    → length rca ≡ 64
    → let x = encode (with_sel op d n m cond) in
      retire proc rca mem (decode_instr regs proc (fetched x pc)).out
      ≡ some (exec (with_sel op d n m cond) proc, mem)
unfolding encode exec
retire-with_sel regs pc proc rca mem op d n m cond (hd, hn, hm, hc) ok size =
    let (base, low, high) = sel_base_bits op in
    let x = sel_base op + m * 65536 + cond_code cond * 4096 + n * 32 + d in
    let hx : x < 2 ^ 32 = omega arith in
    let ed : bitfield_u32 x 0 5 ≡ d = field_0_5 x hx ∙ omega arith in
    let en : bitfield_u32 x 5 5 ≡ n = field_5_5 x hx ∙ omega arith in
    let em : bitfield_u32 x 16 5 ≡ m = field_16_5 x hx ∙ omega arith in
    let ec : bitfield_u32 x 12 4 ≡ cond_code cond = field_12_4 x hx ∙ omega arith in
    rw
      (
        fetched-Decodes x pc _ _ (sel_op op d n m cond (hd, hn, hm, hc)),
        retire-sel regs pc x proc rca mem op,
        ed,
        en,
        em,
        ec,
        to_cond-cond_code cond hc,
        regfile_read-get_x proc n hn,
        regfile_read-get_x proc m hm,
        sel_lem rca proc.nzcv op (hw_field regs pc x proc rca mem) (get_x proc n) (get_x proc m)
            cond size (get_x-lt proc m ok),
        cond_holds-condition_holds cond proc.nzcv hc,
      )
      (ap (λ p. some (p, mem)) (regfile_write-set_x proc d _ hd))

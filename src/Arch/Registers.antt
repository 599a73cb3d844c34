-- ===== src/Arch/Registers.antt =====
-- The instructions on registers: ADDS, SUBS, ANDS, ORR, EOR, ORN, LSLV and LSRV.
use ch_arm_v5_system_emulato.Base.{
  ℕ, ◌+◌, ◌*◌, ◌%◌, ◌^◌, ◌≤◌, ◌<◌, Bool, true, false, List, length, ◌==◌, if◌then◌else◌, u8, u64,
  not, some, bit_and, bit_or, bit_xor, not64, ◌<<<◌, ◌>>>◌, ◌≡◌, refl, ◌∙◌, arith,
}
use ch_arm_v5_system_emulato.Pipe.Regs.{XInstr}
use ch_arm_v5_system_emulato.Isa.{
  op_cmn_rr, op_adds_rr, op_cmp_rr, op_subs_rr, op_tst_rr, op_ands_rr, op_orr_rr, op_eor_rr, op_mvn,
  op_lsl_rr, op_lsr_rr, Opcode, Cond, c_al, AluOp, plus_op, minus_op, and_op, format_rr,
}
use ch_arm_v5_system_emulato.Isa.Bitfield.{bitfield_u32}
use ch_arm_v5_system_emulato.Hw.Adder.{FullAdder}
use ch_arm_v5_system_emulato.Hw.Alu.{alu, new_flags, pack_cc}
use ch_arm_v5_system_emulato.Hw.Alu.Flags.{alu-plus, alu-minus}
use ch_arm_v5_system_emulato.Hw.Regfile.{Proc, regfile_read, regfile_write}
use ch_arm_v5_system_emulato.Mem.Access.{MemSystem}
use ch_arm_v5_system_emulato.Pipe.Decode.{decode_instr}
use ch_arm_v5_system_emulato.Pipe.Decode.Registers.{RegNums, extract_regs}
use ch_arm_v5_system_emulato.Pipe.Decode.Control.{decide_alu_op, generate_dxmw_control}
use ch_arm_v5_system_emulato.Arch.{
  reg_base, RegOp, adds, subs, ands, orr, eor, orn, lslv, lsrv, with_reg, encode, IsInstr, exec,
  IsProc, get_x, set_x, logic_flags,
}
use ch_arm_v5_system_emulato.Arch.Encoding.{reg_opcode, reg_op, field_0_5, field_5_5, field_16_5}
use ch_arm_v5_system_emulato.Arch.Travel.{fetched, retire, retire-done}
use ch_arm_v5_system_emulato.Arch.Operands.{
  fix, fetched_as, fetched-Decodes, regfile_read-get_x, regfile_write-set_x, get_x-lt,
}
use ch_arm_v5_system_emulato.Bits.{bit_and-mask, bit_and-lt}

-- The registers and flags after an operation on the registers `n` and `m`.
abbrev result : Proc → List FullAdder → Opcode → (hw d n m : ℕ) → Proc
result proc rca op hw d n m =
    let controls = generate_dxmw_control op in
    let (out, flags) =
      alu (regfile_read proc (fix n)) (regfile_read proc (fix m)) hw proc.nzcv (decide_alu_op op)
        controls.x_sigs.set_flags c_al 0 proc.nzcv rca in
    regfile_write (fix d) out.val_e controls.w_sigs.w_enable
      (record proc { nzcv = if controls.x_sigs.set_flags then flags else proc.nzcv })

-- What holds of both holds of the choice.
pub ite_lem : (P : Opcode → Type 0) (b : Bool) {p q : Opcode} → P p → P q → P (if b then p else q)
ite_lem P true h k = h
ite_lem P false h k = k

-- One operation through the stages.
module _ (regs : RegNums) (pc x : ℕ) (proc : Proc) (rca : List FullAdder) (mem : MemSystem) where
  abbrev hw_field : ℕ
  hw_field = u8 (bitfield_u32 x 21 2 <<< 4)

  abbrev decoded : Opcode → XInstr
  decoded op = (decode_instr regs proc (fetched_as x pc format_rr op)).out

  abbrev Gives : Opcode → Type 0
  Gives op =
      retire proc rca mem (decoded op)
      ≡ some (
        result proc rca op hw_field (bitfield_u32 x 0 5) (bitfield_u32 x 5 5) (bitfield_u32 x 16 5),
        mem,
      )

  retire-decoded : (op : RegOp) (d : ℕ) → Gives (reg_opcode op d)
  unfolding decode_instr generate_dxmw_control decide_alu_op extract_regs
  retire-decoded adds d =
      ite_lem Gives (d == 31) (retire-done proc rca mem (decoded op_cmn_rr) false refl)
        (retire-done proc rca mem (decoded op_adds_rr) true refl)
  retire-decoded subs d =
      ite_lem Gives (d == 31) (retire-done proc rca mem (decoded op_cmp_rr) false refl)
        (retire-done proc rca mem (decoded op_subs_rr) true refl)
  retire-decoded ands d =
      ite_lem Gives (d == 31) (retire-done proc rca mem (decoded op_tst_rr) false refl)
        (retire-done proc rca mem (decoded op_ands_rr) true refl)
  retire-decoded orr d = retire-done proc rca mem (decoded op_orr_rr) true refl
  retire-decoded eor d = retire-done proc rca mem (decoded op_eor_rr) true refl
  retire-decoded orn d = retire-done proc rca mem (decoded op_mvn) true refl
  retire-decoded lslv d = retire-done proc rca mem (decoded op_lsl_rr) true refl
  retire-decoded lsrv d = retire-done proc rca mem (decoded op_lsr_rr) true refl

-- An operation that sets the flags and, unless it is the alias for register 31, writes a register.
abbrev IsFlagOp : Opcode → AluOp → Bool → Type 0
IsFlagOp op alu_op alias =
    let controls = generate_dxmw_control op in
    (controls.w_sigs.w_enable ≡ not alias)
    × (controls.x_sigs.set_flags ≡ true)
    × (decide_alu_op op ≡ alu_op)

adds_op : (alias : Bool) → IsFlagOp (if alias then op_cmn_rr else op_adds_rr) plus_op alias
unfolding generate_dxmw_control decide_alu_op
adds_op true = (refl, refl, refl)
adds_op false = (refl, refl, refl)

subs_op : (alias : Bool) → IsFlagOp (if alias then op_cmp_rr else op_subs_rr) minus_op alias
unfolding generate_dxmw_control decide_alu_op
subs_op true = (refl, refl, refl)
subs_op false = (refl, refl, refl)

ands_op : (alias : Bool) → IsFlagOp (if alias then op_tst_rr else op_ands_rr) and_op alias
unfolding generate_dxmw_control decide_alu_op
ands_op true = (refl, refl, refl)
ands_op false = (refl, refl, refl)

compare_write :
    (proc : Proc) (d v : ℕ) → d < 32 → regfile_write (fix d) v (not (d == 31)) proc ≡ set_x proc d v
unfolding regfile_write
compare_write proc d v h = ground arith

alu-and :
    (a b hw nzcv e dst : ℕ) (cond : Cond) (rca : List FullAdder)
    → a < 2 ^ 64
    → let (out, flags) = alu a b hw nzcv and_op true cond e dst rca in
      (out.val_e ≡ bit_and a b) × (flags ≡ logic_flags (bit_and a b))
unfolding alu new_flags pack_cc
alu-and a b hw nzcv e dst cond rca ha = (refl, ground (arith, bit_and-lt 64 a b))

-- Its result is that of the architecture.
module _ (proc : Proc) (rca : List FullAdder) (hw d n m : ℕ) (hd : d < 32) (hn : n < 32)
    (hm : m < 32) (size : length rca ≡ 64) (ok : IsProc proc) where
  abbrev a : ℕ
  a = get_x proc n

  abbrev b : ℕ
  b = get_x proc m

  ha : a < 2 ^ 64
  ha = get_x-lt proc n ok

  hb : b < 2 ^ 64
  hb = get_x-lt proc m ok

  operands :
      (f : ℕ → ℕ → ℕ) (v : ℕ)
      → f a b ≡ v
      → regfile_write (fix d) (f (regfile_read proc (fix n)) (regfile_read proc (fix m))) true proc
        ≡ set_x proc d v
  operands f v e =
      rw (regfile_read-get_x proc n hn, regfile_read-get_x proc m hm, e)
        (regfile_write-set_x proc d v hd)

  flagged :
      (op : Opcode) (alu_op : AluOp) (v flags : ℕ)
      → IsFlagOp op alu_op (d == 31)
      → (let (out, nzcv) = alu a b hw proc.nzcv alu_op true c_al 0 proc.nzcv rca in
          (out.val_e ≡ v) × (nzcv ≡ flags))
      → result proc rca op hw d n m ≡ set_x (record proc { nzcv = flags }) d v
  flagged op alu_op v flags (we, sf, e) (ev, ef) =
      rw
        (
          we,
          sf,
          e,
          if◌then◌else◌,
          regfile_read-get_x proc n hn,
          regfile_read-get_x proc m hm,
          ev,
          ef,
        )
        (compare_write (record proc { nzcv = flags }) d v hd)

  result-exec :
      (op : RegOp) → result proc rca (reg_opcode op d) hw d n m ≡ exec (with_reg op d n m) proc
  unfolding generate_dxmw_control decide_alu_op exec
  result-exec adds =
      flagged _ plus_op _ _ (adds_op (d == 31))
        (alu-plus a b hw proc.nzcv 0 proc.nzcv c_al rca size ha hb)
  result-exec subs =
      flagged _ minus_op _ _ (subs_op (d == 31))
        (alu-minus a b hw proc.nzcv 0 proc.nzcv c_al rca size ha hb)
  result-exec ands =
      flagged _ and_op _ _ (ands_op (d == 31)) (alu-and a b hw proc.nzcv 0 proc.nzcv c_al rca ha)
  result-exec orr = unfold alu in operands bit_or _ refl
  result-exec eor = unfold alu in operands bit_xor _ refl
  result-exec orn = unfold alu in operands (λ a b. bit_or a (not64 b)) _ refl
  result-exec lslv =
      unfold alu in operands (λ a b. u64 (a <<< bit_and b 0x3F)) _ (rw (bit_and-mask b 6) refl)
  result-exec lsrv =
      unfold alu in operands (λ a b. a >>> bit_and b 0x3F) _ (rw (bit_and-mask b 6) refl)

pub reg_base_bits :
    (op : RegOp)
    → (reg_base op % 2097152 ≤ 0x2400) × (reg_base op % 1024 ≡ 0) × (reg_base op < 0xF0000000)
reg_base_bits adds = omega arith
reg_base_bits _ = omega arith

-- From the decode stage to the registers.
pub retire-with_reg :
    (regs : RegNums) (pc : ℕ) (proc : Proc) (rca : List FullAdder) (mem : MemSystem) (op : RegOp)
    (d n m : ℕ)
    → IsInstr (with_reg op d n m)
    → IsProc proc
    → length rca ≡ 64
    → let x = encode (with_reg op d n m) in
      retire proc rca mem (decode_instr regs proc (fetched x pc)).out
      ≡ some (exec (with_reg op d n m) proc, mem)
unfolding encode
retire-with_reg regs pc proc rca mem op d n m (hd, hn, hm) ok size =
    let (base, low, high) = reg_base_bits op in
    let x = reg_base op + m * 65536 + n * 32 + d in
    let hx : x < 2 ^ 32 = omega arith in
    let ed : bitfield_u32 x 0 5 ≡ d = field_0_5 x hx ∙ omega arith in
    let en : bitfield_u32 x 5 5 ≡ n = field_5_5 x hx ∙ omega arith in
    let em : bitfield_u32 x 16 5 ≡ m = field_16_5 x hx ∙ omega arith in
    rw
      (
        fetched-Decodes x pc _ _ (reg_op d n m hd hn hm op),
        retire-decoded regs pc x proc rca mem op d,
        ed,
        en,
        em,
      )
      (rw (result-exec proc rca _ d n m hd hn hm size ok op) refl)

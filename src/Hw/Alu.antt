-- ===== src/Hw/Alu.antt =====
-- `cond_holds` and `alu` of src/base/hw_elts.c. Output parameters that a call may leave alone are
-- arguments that hold the value before it.
pub mod Flags
pub mod Compare
use ch_arm_v5_system_emulato.Base.{
  ℕ, ◌-◌, ◌^◌, bit_and, bit_or, bit_xor, Bool, true, false, ◌&&◌, ◌||◌, not, List, ◌==◌, beq, xor,
  if◌then◌else◌, to_ℕ, test_bit, u64, not64, asr64, ◌<<<◌, ◌>>>◌,
}
use ch_arm_v5_system_emulato.Isa.{
  Cond, c_eq, c_ne, c_cs, c_cc, c_mi, c_pl, c_vs, c_vc, c_hi, c_ls, c_ge, c_lt, c_gt, c_le, c_al,
  c_nv, c_error, AluOp, plus_op, minus_op, inv_op, or_op, eor_op, and_op, mov_op, movk_op, lsl_op,
  lsr_op, asr_op, pass_a_op, csel_op, csinv_op, csinc_op, csneg_op, cbz_op, cbnz_op, error_op,
}
use ch_arm_v5_system_emulato.Hw.Adder.{FullAdder, init_rca, ripple_carry_add, last_cell}

-- The switch of `cond_holds` on the four flags.
pub cond_on : Cond → Bool → Bool → Bool → Bool → Bool
cond_on c_eq n z c v = z
cond_on c_ne n z c v = not z
cond_on c_cs n z c v = c
cond_on c_cc n z c v = not c
cond_on c_mi n z c v = n
cond_on c_pl n z c v = not n
cond_on c_vs n z c v = v
cond_on c_vc n z c v = not v
cond_on c_hi n z c v = c && not z
cond_on c_ls n z c v = not (c && not z)
cond_on c_ge n z c v = beq n v
cond_on c_lt n z c v = not (beq n v)
cond_on c_gt n z c v = not z && beq n v
cond_on c_le n z c v = not (not z && beq n v)
cond_on c_al n z c v = true
cond_on c_nv n z c v = true
cond_on c_error n z c v = false

unfoldable pub cond_holds : Cond → ℕ → Bool
unfolding cond_on
cond_holds cond flags =
    cond_on cond (test_bit flags 3) (test_bit flags 2) (test_bit flags 1) (test_bit flags 0)

-- The results of `alu`: `*val_e`, `*cond_val`, and the adder's array.
pub record AluOut : Type 0 where
  pub val_e : ℕ
  pub cond_val : Bool
  pub rca : List FullAdder

-- `init_rca(a, b, c)` and `ripple_carry_add(val_e)`.
unfoldable pub add_into : ℕ → ℕ → Bool → AluOut → AluOut
add_into val_a val_b c_in out =
    let (cells, sum) = ripple_carry_add (init_rca val_a val_b c_in out.rca) in
    record out { val_e = sum; rca = cells }

-- The switch on `ALUop`, entered with `*cond_val` set.
unfoldable pub alu_switch : AluOp → ℕ → ℕ → ℕ → AluOut → AluOut
unfolding add_into
alu_switch plus_op a b hw out = add_into a b false out
alu_switch minus_op a b hw out = add_into a (not64 b) true out
alu_switch inv_op a b hw out = record out { val_e = bit_or a (not64 b) }
alu_switch or_op a b hw out = record out { val_e = bit_or a b }
alu_switch eor_op a b hw out = record out { val_e = bit_xor a b }
alu_switch and_op a b hw out = record out { val_e = bit_and a b }
alu_switch mov_op a b hw out = record out { val_e = bit_or a (u64 (b <<< hw)) }
alu_switch movk_op a b hw out = record out {
  val_e = bit_or (bit_and a (not64 (u64 (0xFFFF <<< hw)))) (u64 (b <<< hw));
}
alu_switch lsl_op a b hw out = record out { val_e = u64 (a <<< bit_and b 0x3F) }
alu_switch lsr_op a b hw out = record out { val_e = a >>> bit_and b 0x3F }
alu_switch asr_op a b hw out = record out { val_e = asr64 a (bit_and b 0x3F) }
alu_switch pass_a_op a b hw out = record out { val_e = a }
alu_switch csel_op a b hw out = record out { val_e = if out.cond_val then a else b }
alu_switch csinv_op a b hw out = record out { val_e = if out.cond_val then a else not64 b }
alu_switch csinc_op a b hw out =
    if out.cond_val then record out { val_e = a } else add_into b 1 false out
alu_switch csneg_op a b hw out =
    if out.cond_val then record out { val_e = a } else add_into 0 (not64 b) true out
alu_switch cbz_op a b hw out = record out { val_e = a; cond_val = a == 0 }
alu_switch cbnz_op a b hw out = record out { val_e = a; cond_val = not (a == 0) }
alu_switch error_op a b hw out = out

-- `ALUop == PLUS_OP || ALUop == MINUS_OP`.
abbrev pub sets_carry : AluOp → Bool
sets_carry plus_op = true
sets_carry minus_op = true
sets_carry _ = false

-- `PACK_CC` of include/pipe/instr.h.
unfoldable pub pack_cc : Bool → Bool → Bool → Bool → ℕ
pack_cc n z c v =
    bit_or (bit_or (bit_or (to_ℕ n <<< 3) (to_ℕ z <<< 2)) (to_ℕ c <<< 1)) (to_ℕ v <<< 0)

-- What the block `if (set_flags)` puts into `*nzcv_dst`.
unfoldable pub new_flags : AluOp → AluOut → ℕ
new_flags op out =
    let top = last_cell out.rca in
    let n : ℕ = if out.val_e >>> 63 == 1 then 0x8 else 0 in
    let nz : ℕ = if out.val_e == 0 then bit_or n 0x4 else n in
    let nzc : ℕ = if sets_carry op && top.c_out then bit_or nz 0x2 else nz in
    if sets_carry op && xor top.c_out top.c_in then bit_or nzc 0x1 else nzc

-- `alu`: the outputs and `*nzcv_dst`.
unfoldable pub alu :
    (alu_vala alu_valb alu_valhw nzcv : ℕ) (op : AluOp) (set_flags : Bool) (cond : Cond)
    (val_e nzcv_dst : ℕ) (rca : List FullAdder)
    → AluOut × ℕ
unfolding alu_switch new_flags
alu alu_vala alu_valb alu_valhw nzcv op set_flags cond val_e nzcv_dst rca =
    let start : AluOut = record { val_e = val_e; cond_val = cond_holds cond nzcv; rca = rca } in
    let out = alu_switch op alu_vala alu_valb alu_valhw start in
    (out, if set_flags then new_flags op out else nzcv_dst)

-- ===== src/Hw/Alu/Compare.antt =====
-- What a condition of src/base/hw_elts.c means after a comparison.
use ch_arm_v5_system_emulato.Base.{
  ℕ, ◌^◌, ◌<◌, Bool, true, false, not, List, length, ◌==◌, leb, ltb, ◌≡◌, ap, ◌∙◌, arith, sub64,
  leb_ℤ, ltb_ℤ, eqb_ℤ, ◌-ℤ◌, signed64,
}
use ch_arm_v5_system_emulato.Isa.{
  Cond, c_eq, c_ne, c_cs, c_cc, c_mi, c_pl, c_vs, c_vc, c_hi, c_ls, c_ge, c_lt, c_gt, c_le, c_al,
  c_nv, c_error, minus_op,
}
use ch_arm_v5_system_emulato.Hw.Adder.{FullAdder}
use ch_arm_v5_system_emulato.Hw.Alu.{cond_on, cond_holds, alu, pack_cc}
use ch_arm_v5_system_emulato.Hw.Alu.Flags.{alu-minus}

-- The relation between the compared numbers that each condition names: unsigned for CS, CC, HI
-- and LS, signed for GE, LT, GT and LE.
abbrev pub compares : Cond → ℕ → ℕ → Bool
compares c_eq a b = a == b
compares c_ne a b = not (a == b)
compares c_cs a b = leb b a
compares c_cc a b = ltb a b
compares c_mi a b = leb (2 ^ 63) (sub64 a b)
compares c_pl a b = ltb (sub64 a b) (2 ^ 63)
compares c_vs a b = not (eqb_ℤ (signed64 (sub64 a b)) (signed64 a -ℤ signed64 b))
compares c_vc a b = eqb_ℤ (signed64 (sub64 a b)) (signed64 a -ℤ signed64 b)
compares c_hi a b = ltb b a
compares c_ls a b = leb a b
compares c_ge a b = leb_ℤ (signed64 b) (signed64 a)
compares c_lt a b = ltb_ℤ (signed64 a) (signed64 b)
compares c_gt a b = ltb_ℤ (signed64 b) (signed64 a)
compares c_le a b = leb_ℤ (signed64 a) (signed64 b)
compares c_al a b = true
compares c_nv a b = true
compares c_error a b = false

-- A flag that is packed is the flag that `cond_holds` reads.
pub cond_holds-pack_cc :
    (cond : Cond) (n z c v : Bool) → cond_holds cond (pack_cc n z c v) ≡ cond_on cond n z c v
unfolding cond_holds pack_cc
cond_holds-pack_cc c_eq n z c v = ground arith
cond_holds-pack_cc _ n z c v = ground arith

cond_on-compares :
    (cond : Cond) (a b : ℕ)
    → a < 2 ^ 64
    → b < 2 ^ 64
    → cond_on cond
        (leb (2 ^ 63) (sub64 a b))
        (sub64 a b == 0)
        (leb b a)
        (not (eqb_ℤ (signed64 (sub64 a b)) (signed64 a -ℤ signed64 b)))
      ≡ compares cond a b
unfolding cond_on
cond_on-compares c_eq a b ha hb = ground arith
cond_on-compares _ a b ha hb = ground arith

-- After a flag-setting subtraction of 64-bit operands on an adder of 64 cells, cond_holds answers
-- for every condition the unsigned or signed relation of the operands that the condition names.
pub cond_holds-minus :
    (a b hw nzcv e dst : ℕ) (cond : Cond) (rca : List FullAdder)
    → length rca ≡ 64
    → a < 2 ^ 64
    → b < 2 ^ 64
    → cond_holds cond (alu a b hw nzcv minus_op true c_al e dst rca).1 ≡ compares cond a b
cond_holds-minus a b hw nzcv e dst cond rca size ha hb =
    ap (cond_holds cond) (alu-minus a b hw nzcv e dst c_al rca size ha hb).1
    ∙ cond_holds-pack_cc cond _ _ _ _
    ∙ cond_on-compares cond a b ha hb

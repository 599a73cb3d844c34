-- ===== src/Hw/Alu/Flags.antt =====
-- The sum, the difference and the flags that `alu` of src/base/hw_elts.c gives are those of the
-- integers.
use ch_arm_v5_system_emulato.Base.{
  ℕ, ◌+◌, ◌*◌, ◌/◌, ◌^◌, ◌<◌, Bool, true, false, not, List, length, ◌==◌, leb, xor, to_ℕ, ◌≡◌, refl,
  ap, ◌∙◌, arith, u64, add64, sub64, not64, pos, ◌+ℤ◌, ◌-ℤ◌, eqb_ℤ, signed64, ℤ,
}
use ch_arm_v5_system_emulato.Isa.{Cond, AluOp, plus_op, minus_op}
use ch_arm_v5_system_emulato.Hw.Adder.{FullAdder, init_rca, ripple_carry_add, last_cell}
use ch_arm_v5_system_emulato.Hw.Adder.Sum.{rca-adds, rca-IsTop}
use ch_arm_v5_system_emulato.Hw.Alu.{
  cond_holds, AluOut, add_into, new_flags, alu, pack_cc, sets_carry,
}

module _ (a b s : ℕ) (k co ci : Bool) (ha : a < 2 ^ 64) (hb : b < 2 ^ 64) (hs : s < 2 ^ 64)
    (total : s + 2 ^ 64 * to_ℕ co ≡ a + b + to_ℕ k)
    (top : s / 2 ^ 63 + 2 * to_ℕ co ≡ a / 2 ^ 63 + b / 2 ^ 63 + to_ℕ ci) where
  carry_lem : co ≡ leb (2 ^ 64) (a + b + to_ℕ k)
  carry_lem = ground arith

  overflow_lem : xor co ci ≡ not (eqb_ℤ (signed64 s) (signed64 a +ℤ signed64 b +ℤ pos (to_ℕ k)))
  overflow_lem = ground arith

new_flags-pack_cc :
    (op : AluOp) (out : AluOut)
    → sets_carry op ≡ true
    → out.val_e < 2 ^ 64
    → let top = last_cell out.rca in
      new_flags op out
      ≡ pack_cc (leb (2 ^ 63) out.val_e) (out.val_e == 0) top.c_out (xor top.c_out top.c_in)
unfolding new_flags pack_cc
new_flags-pack_cc op out h lt = ground arith

-- The flags of `alu` after a sum or a difference `s`, whose exact value is `exact`.
abbrev flags_of : ℕ → Bool → ℤ → ℕ
flags_of s carry exact = pack_cc (leb (2 ^ 63) s) (s == 0) carry (not (eqb_ℤ (signed64 s) exact))

module _ (a b : ℕ) (rca : List FullAdder) (size : length rca ≡ 64) (ha : a < 2 ^ 64)
    (hb : b < 2 ^ 64) (k : Bool) (out : AluOut) (same : out.rca ≡ rca) where
  abbrev sum : ℕ
  sum = (ripple_carry_add (init_rca a b k rca)).1

  abbrev top_cell : FullAdder
  top_cell = last_cell (ripple_carry_add (init_rca a b k rca)).0

  sum-lt : sum < 2 ^ 64
  sum-lt = ground (arith, (rca-IsTop a b k rca size ha hb).top)

  add_into-val_e : (add_into a b k out).val_e ≡ u64 (a + b + to_ℕ k)
  unfolding add_into
  add_into-val_e = rw same (ground (arith, rca-adds a b k rca, sum-lt))

  add_into-flags :
      (op : AluOp)
      → sets_carry op ≡ true
      → new_flags op (add_into a b k out)
        ≡ flags_of
            (add_into a b k out).val_e
            (leb (2 ^ 64) (a + b + to_ℕ k))
            (signed64 a +ℤ signed64 b +ℤ pos (to_ℕ k))
  unfolding add_into
  add_into-flags op h =
      let exact = rca-adds a b k rca size ha hb in
      let signs = (rca-IsTop a b k rca size ha hb).adds in
      let sign = (rca-IsTop a b k rca size ha hb).top in
      let signs' : sum / 2 ^ 63 + 2 * to_ℕ top_cell.c_out
          ≡ a / 2 ^ 63 + b / 2 ^ 63 + to_ℕ top_cell.c_in =
        omega (arith, signs, sign) in
      rw (
        same,
        new_flags-pack_cc op
            (record out { val_e = sum; rca = (ripple_carry_add (init_rca a b k rca)).0 }) h sum-lt,
        overflow_lem a b sum k top_cell.c_out top_cell.c_in ha hb sum-lt exact signs',
        carry_lem a b sum k top_cell.c_out top_cell.c_in ha hb sum-lt exact signs',
      )

-- The adder as a sum and, with the complement and a carry, as a difference.
module _ (a b : ℕ) (rca : List FullAdder) (size : length rca ≡ 64) (ha : a < 2 ^ 64)
    (hb : b < 2 ^ 64) (out : AluOut) (same : out.rca ≡ rca) where
  pub add_into-sum : (add_into a b false out).val_e ≡ add64 a b
  add_into-sum = add_into-val_e a b rca size ha hb false out same ∙ ap u64 (omega arith)

  pub add_into-difference : (add_into a (not64 b) true out).val_e ≡ sub64 a b
  add_into-difference =
      add_into-val_e a (not64 b) rca size ha (omega arith) true out same ∙ ap u64 (omega arith)

-- The flags that a sum and a difference must give: N and Z of the result, C of the unsigned
-- operation, and V exactly when the signed result is not the exact one.
abbrev pub sum_flags : ℕ → ℕ → ℕ
sum_flags a b = flags_of (add64 a b) (leb (2 ^ 64) (a + b)) (signed64 a +ℤ signed64 b)

abbrev pub difference_flags : ℕ → ℕ → ℕ
difference_flags a b = flags_of (sub64 a b) (leb b a) (signed64 a -ℤ signed64 b)

module _ (a b hw nzcv e dst : ℕ) (cond : Cond) (rca : List FullAdder) (size : length rca ≡ 64)
    (ha : a < 2 ^ 64) (hb : b < 2 ^ 64) where
  exact_sum : signed64 a +ℤ signed64 b +ℤ pos 0 ≡ signed64 a +ℤ signed64 b
  exact_sum = ground arith

  plus-zero : leb (2 ^ 64) (a + b + 0) ≡ leb (2 ^ 64) (a + b)
  plus-zero = ground arith

  exact_difference : signed64 a +ℤ signed64 (not64 b) +ℤ pos 1 ≡ signed64 a -ℤ signed64 b
  exact_difference = ground arith

  borrow_lem : leb (2 ^ 64) (a + not64 b + 1) ≡ leb b a
  borrow_lem = ground arith

  -- For 64-bit operands and an adder of 64 cells, alu with PLUS_OP and set_flags gives the sum
  -- modulo 2^64 and the flags N, Z, C (carry) and V (signed overflow) of that sum.
  pub alu-plus :
      let (out, nzcv_dst) = alu a b hw nzcv plus_op true cond e dst rca in
      (out.val_e ≡ add64 a b) × (nzcv_dst ≡ sum_flags a b)
  unfolding alu
  alu-plus =
      let start : AluOut = record { val_e = e; cond_val = cond_holds cond nzcv; rca = rca } in
      let value' : (add_into a b false start).val_e ≡ add64 a b =
        add_into-sum a b rca size ha hb start refl in
      let flags = add_into-flags a b rca size ha hb false start refl plus_op refl in
      (value', flags ∙ rw (value', exact_sum, plus-zero))

  -- For 64-bit operands and an adder of 64 cells, alu with MINUS_OP and set_flags gives the
  -- difference modulo 2^64 and the flags N, Z, C (no borrow) and V (signed overflow) of that
  -- difference.
  pub alu-minus :
      let (out, nzcv_dst) = alu a b hw nzcv minus_op true cond e dst rca in
      (out.val_e ≡ sub64 a b) × (nzcv_dst ≡ difference_flags a b)
  unfolding alu
  alu-minus =
      let start : AluOut = record { val_e = e; cond_val = cond_holds cond nzcv; rca = rca } in
      let hn : not64 b < 2 ^ 64 = omega arith in
      let value' : (add_into a (not64 b) true start).val_e ≡ sub64 a b =
        add_into-difference a b rca size ha hb start refl in
      let flags = add_into-flags a (not64 b) rca size ha hn true start refl minus_op refl in
      (value', flags ∙ rw (value', borrow_lem, exact_difference))

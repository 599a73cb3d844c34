-- ===== src/Arch/Bounds.antt =====
-- The architecture keeps registers of 64 bits.
use ch_arm_v5_system_emulato.Base.{
  ℕ, ◌*◌, ◌/◌, ◌%◌, ◌^◌, ◌<◌, ◌≤◌, List, [], ◌∷◌, zero, suc, length, length-set, get_or, set,
  get_or-set_self, get_or-set_ne, ◌==◌, Bool-cases, inl, inr, not64, ◌≡◌, refl, sym, ◌∙◌, arith,
}
use native.Mathlib.Nat.{div-le_self, lt_of_le_of_lt}
use native.Mathlib.Decide.{ℕ_discrete, dec_lt}
use ch_arm_v5_system_emulato.Bits.{bit_and-lt, bit_or-lt, bit_xor-lt}
use ch_arm_v5_system_emulato.Hw.Regfile.{Proc}
use ch_arm_v5_system_emulato.Arch.{
  RegOp, adds, subs, ands, orr, eor, orn, lslv, lsrv, ImmOp, add_imm, sub_imm, ShiftOp, lsl_imm,
  lsr_imm, asr_imm, MovOp, movz, movk, SelOp, csel, csinc, csinv, csneg, Instr, with_imm, with_reg,
  with_shift, with_mov, with_sel, IsInstr, exec, exec_wired, IsProc, get_x, get_sp, set_x, set_sp,
  imm_value, reg_value, shift_value, mov_value, sel_value,
}
use ch_arm_v5_system_emulato.Arch.Operands.{get_x-lt}

div-lt : (a n : ℕ) → a < 2 ^ 64 → a / 2 ^ n < 2 ^ 64
div-lt a n h = lt_of_le_of_lt (div-le_self a (2 ^ n)) h

imm_value-lt : (op : ImmOp) (a imm : ℕ) → imm_value op a imm < 2 ^ 64
imm_value-lt add_imm a imm = omega arith
imm_value-lt sub_imm a imm = omega arith

reg_value-lt : (op : RegOp) (a b : ℕ) → a < 2 ^ 64 → b < 2 ^ 64 → reg_value op a b < 2 ^ 64
reg_value-lt adds a b ha hb = omega arith
reg_value-lt subs a b ha hb = omega arith
reg_value-lt ands a b ha hb = bit_and-lt 64 a b ha
reg_value-lt orr a b ha hb = bit_or-lt 64 a b ha hb
reg_value-lt eor a b ha hb = bit_xor-lt 64 a b ha hb
reg_value-lt orn a b ha hb = bit_or-lt 64 a (not64 b) ha (omega arith)
reg_value-lt lslv a b ha hb = omega arith
reg_value-lt lsrv a b ha hb = div-lt a (b % 64) ha

shift_value-lt : (op : ShiftOp) (a s : ℕ) → a < 2 ^ 64 → shift_value op a s < 2 ^ 64
shift_value-lt lsl_imm a s ha = omega arith
shift_value-lt lsr_imm a s ha = div-lt a s ha
shift_value-lt asr_imm a s ha = ground (arith, div-lt a s ha)

imm-lt : (imm hw : ℕ) → imm < 65536 → hw < 4 → imm * 2 ^ (16 * hw) < 2 ^ 64
imm-lt imm zero hi h = omega arith
imm-lt imm (suc zero) hi h = omega arith
imm-lt imm (suc (suc zero)) hi h = omega arith
imm-lt imm (suc (suc (suc zero))) hi h = omega arith
imm-lt imm (suc (suc (suc (suc hw)))) hi h = absurd (omega arith)

mov_value-lt :
    (op : MovOp) (old imm hw : ℕ)
    → old < 2 ^ 64
    → imm < 65536
    → hw < 4
    → mov_value op old imm hw < 2 ^ 64
mov_value-lt movz old imm hw ho hi h = imm-lt imm hw hi h
mov_value-lt movk old imm hw ho hi h =
    bit_or-lt 64 _ _ (bit_and-lt 64 old _ ho) (imm-lt imm hw hi h)

sel_value-lt : (op : SelOp) (b : ℕ) → b < 2 ^ 64 → sel_value op b < 2 ^ 64
sel_value-lt csel b h = h
sel_value-lt csinc b h = omega arith
sel_value-lt csinv b h = omega arith
sel_value-lt csneg b h = omega arith

-- A write that keeps the registers small.
get_or-nil :
    (xs : List ℕ) (i n : ℕ) (v : ℕ) → length xs ≤ i → get_or (set xs i v) n 0 ≡ get_or xs n 0
get_or-nil [] i n v h = refl
get_or-nil (x ∷ xs) zero n v h = absurd (omega arith)
get_or-nil (x ∷ xs) (suc i) zero v h = refl
get_or-nil (x ∷ xs) (suc i) (suc n) v h = get_or-nil xs i n v (omega arith)

pub small-set :
    (gpr : List ℕ) (d v : ℕ)
    → ((n : ℕ) → get_or gpr n 0 < 2 ^ 64)
    → v < 2 ^ 64
    → (n : ℕ) → get_or (set gpr d v) n 0 < 2 ^ 64
small-set gpr d v h hv n = elim (ℕ_discrete d n) [
  | yes e ↦ elim (dec_lt d (length gpr)) [
    | yes lt ↦ rw (sym e, get_or-set_self gpr d v 0 lt) hv
    | no ge ↦ rw (get_or-nil gpr d n v (omega arith)) (h n)
  ]
  | no ne ↦ rw (get_or-set_ne gpr d n v 0 ne) (h n)
]

with_gpr :
    (proc : Proc) (d v : ℕ)
    → IsProc proc
    → v < 2 ^ 64
    → IsProc (record proc { gpr = set proc.gpr d v })
with_gpr proc d v ok hv = record {
  size = length-set proc.gpr d v ∙ ok.size;
  small = small-set proc.gpr d v ok.small hv;
  sp_small = ok.sp_small;
}

set_x-IsProc : (proc : Proc) (d v : ℕ) → IsProc proc → v < 2 ^ 64 → IsProc (set_x proc d v)
set_x-IsProc proc d v ok hv = elim (Bool-cases (d == 31)) [
  | inl e ↦ rw e ok
  | inr e ↦ rw e (with_gpr proc d v ok hv)
]

set_sp-IsProc : (proc : Proc) (d v : ℕ) → IsProc proc → v < 2 ^ 64 → IsProc (set_sp proc d v)
set_sp-IsProc proc d v ok hv = elim (Bool-cases (d == 31)) [
  | inl e ↦ rw e (record { size = ok.size; small = ok.small; sp_small = hv })
  | inr e ↦ rw e (with_gpr proc d v ok hv)
]

with_flags : (proc : Proc) (flags : ℕ) → IsProc proc → IsProc (record proc { nzcv = flags })
with_flags proc flags ok = record { size = ok.size; small = ok.small; sp_small = ok.sp_small }

-- After an instruction on 64-bit registers the registers are still 31 of 64 bits.
pub exec-IsProc : (i : Instr) (proc : Proc) → IsInstr i → IsProc proc → IsProc (exec i proc)
unfolding exec
exec-IsProc (with_imm op d n imm) proc h ok =
    set_sp-IsProc proc d _ ok (imm_value-lt op (get_sp proc n) imm)
exec-IsProc (with_reg op d n m) proc h ok =
    set_x-IsProc _ d _ (with_flags proc _ ok)
      (reg_value-lt op (get_x proc n) (get_x proc m) (get_x-lt proc n ok) (get_x-lt proc m ok))
exec-IsProc (with_shift op d n s) proc h ok =
    set_x-IsProc proc d _ ok (shift_value-lt op (get_x proc n) s (get_x-lt proc n ok))
exec-IsProc (with_mov op d imm hw) proc (hd, hi, hh) ok =
    set_x-IsProc proc d _ ok (mov_value-lt op (get_x proc d) imm hw (get_x-lt proc d ok) hi hh)
exec-IsProc (with_sel op d n m cond) proc h ok =
    set_x-IsProc proc d _ ok
      (ground (arith, get_x-lt proc n ok, sel_value-lt op (get_x proc m) (get_x-lt proc m ok)))

pub exec_wired-IsProc :
    (i : Instr) (state : Proc × ℕ) → IsInstr i → IsProc state.0 → IsProc (exec_wired i state).0
exec_wired-IsProc i (proc, wire) h ok =
    with_flags _ _ (exec-IsProc i (record proc { nzcv = wire }) h (with_flags proc wire ok))

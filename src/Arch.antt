-- ===== src/Arch.antt =====
-- The data-processing instructions that src/pipe implements, as the Arm architecture describes them:
-- their encodings, and what they do to the registers and the flags. Taken from the emulator are only
-- the record of the registers, the names of the conditions and the order of the packed flags; those
-- of a sum and a difference are given over the integers in Hw/Alu/Flags.
pub mod Encoding
pub mod Travel
pub mod Operands
pub mod Registers
pub mod Immediates
pub mod Moves
pub mod Bounds
pub mod Correct
pub mod Flow
pub mod Program
mod Tests
use ch_arm_v5_system_emulato.Base.{
  ℕ, ◌+◌, ◌-◌, ◌*◌, ◌/◌, ◌%◌, ◌^◌, ◌≤◌, ◌<◌, bit_and, bit_or, bit_xor, Bool, false, get_or, set,
  ◌==◌, ◌&&◌, not, beq, test_bit, true, leb, if◌then◌else◌, u64, add64, sub64, not64, asr64, length,
  ◌≡◌,
}
use ch_arm_v5_system_emulato.Isa.{
  Cond, c_eq, c_ne, c_cs, c_cc, c_mi, c_pl, c_vs, c_vc, c_hi, c_ls, c_ge, c_lt, c_gt, c_le, c_al,
  c_nv, c_error,
}
use ch_arm_v5_system_emulato.Hw.Alu.{pack_cc}
use ch_arm_v5_system_emulato.Hw.Alu.Flags.{sum_flags, difference_flags}
use ch_arm_v5_system_emulato.Hw.Regfile.{Proc}

pub data ImmOp : Type 0 where
  add_imm sub_imm : ImmOp

pub data RegOp : Type 0 where
  adds subs ands orr eor orn lslv lsrv : RegOp

pub data ShiftOp : Type 0 where
  lsl_imm lsr_imm asr_imm : ShiftOp

pub data MovOp : Type 0 where
  movz movk : MovOp

pub data SelOp : Type 0 where
  csel csinc csinv csneg : SelOp

-- An instruction on 64-bit registers: the destination, the sources, and an immediate or a condition;
-- the field hw of MOVZ and MOVK counts the places in steps of 16.
pub data Instr : Type 0 where
  with_imm : ImmOp → (d n imm : ℕ) → Instr
  with_reg : RegOp → (d n m : ℕ) → Instr
  with_shift : ShiftOp → (d n amount : ℕ) → Instr
  with_mov : MovOp → (d imm hw : ℕ) → Instr
  with_sel : SelOp → (d n m : ℕ) → Cond → Instr

abbrev pub cond_code : Cond → ℕ
cond_code c_eq = 0
cond_code c_ne = 1
cond_code c_cs = 2
cond_code c_cc = 3
cond_code c_mi = 4
cond_code c_pl = 5
cond_code c_vs = 6
cond_code c_vc = 7
cond_code c_hi = 8
cond_code c_ls = 9
cond_code c_ge = 10
cond_code c_lt = 11
cond_code c_gt = 12
cond_code c_le = 13
cond_code c_al = 14
cond_code c_nv = 15
cond_code c_error = 16

-- The bits of an encoding that its operands do not touch.
abbrev pub imm_base : ImmOp → ℕ
imm_base add_imm = 0x91000000
imm_base sub_imm = 0xD1000000

abbrev pub reg_base : RegOp → ℕ
reg_base adds = 0xAB000000
reg_base subs = 0xEB000000
reg_base ands = 0xEA000000
reg_base orr = 0xAA000000
reg_base eor = 0xCA000000
reg_base orn = 0xAA200000
reg_base lslv = 0x9AC02000
reg_base lsrv = 0x9AC02400

-- UBFM and SBFM with their fields immr and imms.
abbrev pub shift_fields : ShiftOp → ℕ → ℕ
shift_fields lsl_imm s = 0xD3400000 + (64 - s) % 64 * 65536 + (63 - s) * 1024
shift_fields lsr_imm s = 0xD340FC00 + s * 65536
shift_fields asr_imm s = 0x9340FC00 + s * 65536

abbrev pub mov_base : MovOp → ℕ
mov_base movz = 0xD2800000
mov_base movk = 0xF2800000

abbrev pub sel_base : SelOp → ℕ
sel_base csel = 0x9A800000
sel_base csinc = 0x9A800400
sel_base csinv = 0xDA800000
sel_base csneg = 0xDA800400

unfoldable pub encode : Instr → ℕ
encode (with_imm op d n imm) = imm_base op + imm * 1024 + n * 32 + d
encode (with_reg op d n m) = reg_base op + m * 65536 + n * 32 + d
encode (with_shift op d n s) = shift_fields op s + n * 32 + d
encode (with_mov op d imm hw) = mov_base op + hw * 2097152 + imm * 32 + d
encode (with_sel op d n m cond) = sel_base op + m * 65536 + cond_code cond * 4096 + n * 32 + d

-- The operands fit their fields. Register 31 is the stack pointer for `with_imm`, and otherwise the
-- zero register.
abbrev pub IsInstr : Instr → Type 0
IsInstr (with_imm op d n imm) = (d < 32) × (n < 32) × (imm < 4096)
IsInstr (with_reg op d n m) = (d < 32) × (n < 32) × (m < 32)
IsInstr (with_shift op d n s) = (d < 32) × (n < 32) × (s < 64)
IsInstr (with_mov op d imm hw) = (d < 32) × (imm < 65536) × (hw < 4)
IsInstr (with_sel op d n m cond) = (d < 32) × (n < 32) × (m < 32) × (cond_code cond < 16)

-- Register 31 as the zero register, and as the stack pointer.
abbrev pub get_x : Proc → ℕ → ℕ
get_x proc n = if n == 31 then 0 else get_or proc.gpr n 0

abbrev pub get_sp : Proc → ℕ → ℕ
get_sp proc n = if n == 31 then proc.sp else get_or proc.gpr n 0

abbrev pub set_x : Proc → ℕ → ℕ → Proc
set_x proc d v = if d == 31 then proc else record proc { gpr = set proc.gpr d v }

abbrev pub set_sp : Proc → ℕ → ℕ → Proc
set_sp proc d v = if d == 31 then record proc { sp = v } else record proc { gpr = set proc.gpr d v }

abbrev pub imm_value : ImmOp → ℕ → ℕ → ℕ
imm_value add_imm a imm = add64 a imm
imm_value sub_imm a imm = sub64 a imm

abbrev pub reg_value : RegOp → ℕ → ℕ → ℕ
reg_value adds a b = add64 a b
reg_value subs a b = sub64 a b
reg_value ands a b = bit_and a b
reg_value orr a b = bit_or a b
reg_value eor a b = bit_xor a b
reg_value orn a b = bit_or a (not64 b)
reg_value lslv a b = a * 2 ^ (b % 64) % 2 ^ 64
reg_value lsrv a b = a / 2 ^ (b % 64)

-- The flags of a logical result.
abbrev pub logic_flags : ℕ → ℕ
logic_flags r = pack_cc (leb (2 ^ 63) r) (r == 0) false false

abbrev pub reg_flags : RegOp → ℕ → ℕ → ℕ → ℕ
reg_flags adds a b old = sum_flags a b
reg_flags subs a b old = difference_flags a b
reg_flags ands a b old = logic_flags (bit_and a b)
reg_flags _ a b old = old

abbrev pub shift_value : ShiftOp → ℕ → ℕ → ℕ
shift_value lsl_imm a s = a * 2 ^ s % 2 ^ 64
shift_value lsr_imm a s = a / 2 ^ s
shift_value asr_imm a s = asr64 a s

-- `movk` keeps the other 48 bits.
abbrev pub mov_value : MovOp → ℕ → ℕ → ℕ → ℕ
mov_value movz old imm hw = imm * 2 ^ (16 * hw)
mov_value movk old imm hw =
    bit_or (bit_and old (2 ^ 64 - 1 - 0xFFFF * 2 ^ (16 * hw))) (imm * 2 ^ (16 * hw))

abbrev pub sel_value : SelOp → ℕ → ℕ
sel_value csel b = b
sel_value csinc b = add64 b 1
sel_value csinv b = not64 b
sel_value csneg b = sub64 0 b

-- The condition of a code: the upper three bits name a test of the flags, and the lowest bit asks for
-- the opposite, but for the code 15.
abbrev pub flags_test : ℕ → (n z c v : Bool) → Bool
flags_test code n z c v =
    if code == 0
    then z
    else if code == 1
    then c
    else if code == 2
    then n
    else if code == 3
    then v
    else if code == 4
    then c && not z
    else if code == 5
    then beq n v
    else if code == 6
    then beq n v && not z
    else true

unfoldable pub condition_holds : ℕ → ℕ → Bool
condition_holds code nzcv =
    let test =
      flags_test (code / 2) (test_bit nzcv 3) (test_bit nzcv 2) (test_bit nzcv 1)
        (test_bit nzcv 0) in
    if code % 2 == 1 && not (code == 15) then not test else test

-- The registers and flags after an instruction.
unfoldable pub exec : Instr → Proc → Proc
exec (with_imm op d n imm) proc = set_sp proc d (imm_value op (get_sp proc n) imm)
exec (with_reg op d n m) proc =
    let a = get_x proc n in
    let b = get_x proc m in
    set_x (record proc { nzcv = reg_flags op a b proc.nzcv }) d (reg_value op a b)
exec (with_shift op d n s) proc = set_x proc d (shift_value op (get_x proc n) s)
exec (with_mov op d imm hw) proc = set_x proc d (mov_value op (get_x proc d) imm hw)
exec (with_sel op d n m cond) proc = set_x proc d (
    if condition_holds (cond_code cond) proc.nzcv
    then get_x proc n
    else sel_value op (get_x proc m))

-- Whether an instruction sets the flags.
abbrev pub sets_flags : Instr → Bool
sets_flags (with_reg adds d n m) = true
sets_flags (with_reg subs d n m) = true
sets_flags (with_reg ands d n m) = true
sets_flags _ = false

-- The same where the conditions read flags of their own, the second component: an instruction that
-- sets the flags sets both, and the others leave both alone. With equal flags this is `exec`.
abbrev pub exec_wired : Instr → Proc × ℕ → Proc × ℕ
exec_wired i (proc, wire) =
    let after = exec i (record proc { nzcv = wire }) in
    (record after { nzcv = if sets_flags i then after.nzcv else proc.nzcv }, after.nzcv)

-- Registers of 64 bits.
pub record IsProc (proc : Proc) : Type 0 where
  pub size : length proc.gpr ≡ 31
  pub small : (n : ℕ) → get_or proc.gpr n 0 < 2 ^ 64
  pub sp_small : proc.sp < 2 ^ 64

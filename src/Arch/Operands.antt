-- ===== src/Arch/Operands.antt =====
-- The register numbers and operands that src/pipe/instr_Decode.c takes for an instruction, against
-- the registers that the architecture names.
use ch_arm_v5_system_emulato.Base.{
  ℕ, ◌^◌, ◌<◌, true, false, ◌==◌, if◌then◌else◌, add64, ◌≡◌, refl, arith,
}
use ch_arm_v5_system_emulato.Isa.{Opcode, Format}
use ch_arm_v5_system_emulato.Hw.Regfile.{Proc, regfile_read, regfile_write, xzr_num, sp_num}
use ch_arm_v5_system_emulato.Pipe.Regs.{DInstr}
use ch_arm_v5_system_emulato.Pipe.Fetch.{fetch_status}
use ch_arm_v5_system_emulato.Isa.Tables.{itable}
use ch_arm_v5_system_emulato.Base.{◌>>>◌}
use ch_arm_v5_system_emulato.Arch.{get_x, get_sp, set_x, set_sp, IsProc}
use ch_arm_v5_system_emulato.Arch.Encoding.{Decodes}
use ch_arm_v5_system_emulato.Arch.Travel.{fetched}

-- `fix` of `fix_regs`.
abbrev pub fix : ℕ → ℕ
fix n = if n == sp_num then xzr_num else n

pub regfile_read-get_x : (proc : Proc) (n : ℕ) → n < 32 → regfile_read proc (fix n) ≡ get_x proc n
unfolding regfile_read
regfile_read-get_x proc n h = ground arith

pub regfile_read-get_sp : (proc : Proc) (n : ℕ) → n < 32 → regfile_read proc n ≡ get_sp proc n
unfolding regfile_read
regfile_read-get_sp proc n h = ground arith

pub regfile_read-xzr : (proc : Proc) → regfile_read proc xzr_num ≡ 0
unfolding regfile_read
regfile_read-xzr proc = refl

pub regfile_write-set_x :
    (proc : Proc) (d v : ℕ) → d < 32 → regfile_write (fix d) v true proc ≡ set_x proc d v
unfolding regfile_write
regfile_write-set_x proc d v h = ground arith

pub regfile_write-set_sp :
    (proc : Proc) (d v : ℕ) → d < 32 → regfile_write d v true proc ≡ set_sp proc d v
unfolding regfile_write
regfile_write-set_sp proc d v h = ground arith

pub get_x-lt : (proc : Proc) (n : ℕ) → IsProc proc → get_x proc n < 2 ^ 64
get_x-lt proc n h = ground (arith, h.small n)

pub get_sp-lt : (proc : Proc) (n : ℕ) → IsProc proc → get_sp proc n < 2 ^ 64
get_sp-lt proc n h = ground (arith, h.small n, h.sp_small)

-- What the decode stage gets, with the opcode and the format written out.
abbrev pub fetched_as : ℕ → ℕ → Format → Opcode → DInstr
fetched_as x pc format op = record {
  insnbits = x;
  op = op;
  print_op = itable (x >>> 21);
  format = format;
  multipurpose_val = add64 pc 4;
  status = fetch_status false op;
}

pub fetched-Decodes :
    (x pc : ℕ) (format : Format) (op : Opcode)
    → Decodes x format op
    → fetched x pc ≡ fetched_as x pc format op
fetched-Decodes x pc format op (e, e') = rw (e, e') refl

-- ===== src/Hw/Regfile.antt =====
-- `regfile_read` and `regfile_write` of src/base/hw_elts.c, and the registers of `proc_t`
-- (include/base/proc.h).
pub mod Laws
use ch_arm_v5_system_emulato.Base.{ℕ, Bool, List, get_or, set, ◌==◌, ltb, if◌then◌else◌}
use ch_arm_v5_system_emulato.Isa.{Stat}

abbrev pub sp_num : ℕ
sp_num = 31

abbrev pub xzr_num : ℕ
xzr_num = 32

-- The architectural state of `proc_t`, and its status.
pub record Proc : Type 0 where
  pub sp : ℕ
  pub pc : ℕ
  pub nzcv : ℕ
  pub gpr : List ℕ
  pub status : Stat

-- One of the two reads of `regfile_read`. C reads outside the array at a number above 32; the model
-- gives 0 there.
unfoldable pub regfile_read : Proc → ℕ → ℕ
regfile_read proc src =
    if src == xzr_num then 0 else if src == sp_num then proc.sp else get_or proc.gpr src 0

unfoldable pub regfile_write : ℕ → ℕ → Bool → Proc → Proc
regfile_write dst val_w w_enable proc =
    if w_enable
    then (if ltb dst sp_num
        then record proc { gpr = set proc.gpr dst val_w }
        else if dst == sp_num
        then record proc { sp = val_w }
        else proc)
    else proc

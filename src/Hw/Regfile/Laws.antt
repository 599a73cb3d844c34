-- ===== src/Hw/Regfile/Laws.antt =====
-- Reads of the register file of src/base/hw_elts.c after a write.
use ch_arm_v5_system_emulato.Base.{
  ℕ, ◌≤◌, Bool, ◌&&◌, not, length, get_or-set_self, get_or-set_ne, ◌==◌, if◌then◌else◌, ◌≡◌, arith,
}
use ch_arm_v5_system_emulato.Hw.Regfile.{Proc, xzr_num, regfile_read, regfile_write}

-- With 31 general registers and register numbers up to 32, a read after regfile_write gives the
-- written value if the write is enabled, the numbers agree and the register is not XZR, and
-- otherwise what was read before.
pub regfile_read-regfile_write :
    (proc : Proc) (dst src val : ℕ) (w_enable : Bool)
    → length proc.gpr ≡ 31
    → dst ≤ 32
    → src ≤ 32
    → regfile_read (regfile_write dst val w_enable proc) src
      ≡ (if w_enable && src == dst && not (src == xzr_num) then val else regfile_read proc src)
unfolding regfile_read regfile_write
regfile_read-regfile_write proc dst src val w_enable size hd hs =
    ground (arith, get_or-set_self proc.gpr dst val 0, get_or-set_ne proc.gpr dst src val 0)

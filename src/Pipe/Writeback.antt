-- ===== src/Pipe/Writeback.antt =====
-- src/pipe/instr_Writeback.c: the writeback stage.
use ch_arm_v5_system_emulato.Base.{ℕ, if◌then◌else◌}
use ch_arm_v5_system_emulato.Pipe.Regs.{WInstr}

-- `wback_instr`: the register as the call leaves it, and the wire `W_wval`.
unfoldable pub wback_instr : WInstr → WInstr × ℕ
wback_instr inp = (
  if inp.w_sigs.dst_sel then record inp { dst = 30 } else inp,
  if inp.w_sigs.wval_sel then inp.val_mem else inp.val_ex,
)

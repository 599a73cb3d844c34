-- ===== src/Pipe/Execute.antt =====
-- src/pipe/instr_Execute.c: the execute stage.
use ch_arm_v5_system_emulato.Base.{ℕ, Bool, List, if◌then◌else◌, bit_and, not64}
use ch_arm_v5_system_emulato.Isa.{op_adrp, op_blr, ◌is◌}
use ch_arm_v5_system_emulato.Hw.Adder.{FullAdder}
use ch_arm_v5_system_emulato.Hw.Alu.{alu}
use ch_arm_v5_system_emulato.Pipe.Regs.{XInstr, MInstr}

-- What `execute_instr` leaves behind: `*out` (`M_in`), the wires `X_nzcvval` and `X_set_flags`, and
-- the adder's array.
pub record ExecuteOut : Type 0 where
  pub out : MInstr
  pub x_nzcvval : ℕ
  pub x_set_flags : Bool
  pub rca : List FullAdder

-- The operands that `execute_instr` selects.
abbrev pub operand_a : XInstr → ℕ
operand_a inp =
    if inp.x_sigs.vala_sel
    then (if inp.op is op_adrp
        then bit_and inp.multipurpose_val (not64 0xFFF)
        else inp.multipurpose_val)
    else inp.val_a

abbrev pub operand_b : XInstr → ℕ
operand_b inp = if inp.x_sigs.valb_sel then inp.val_b else inp.val_imm

-- `execute_instr`. `out` and `x_nzcvval` are `M_in` and `X_nzcvval` before the call.
unfoldable pub execute_instr : XInstr → MInstr → ℕ → List FullAdder → ExecuteOut
execute_instr inp out x_nzcvval rca =
    let set_flags = inp.x_sigs.set_flags in
    let (res, nzcv') =
      alu (operand_a inp) (operand_b inp) inp.val_hw x_nzcvval inp.alu_op set_flags inp.cond
        out.val_ex x_nzcvval rca in
    record {
      out = record {
        op = inp.op;
        print_op = inp.print_op;
        multipurpose_val = inp.multipurpose_val;
        cond_holds = res.cond_val;
        m_sigs = inp.m_sigs;
        w_sigs = inp.w_sigs;
        val_b = inp.val_b;
        dst = inp.dst;
        val_ex = if inp.op is op_blr then inp.val_imm else res.val_e;
        status = inp.status;
      };
      x_nzcvval = nzcv';
      x_set_flags = set_flags;
      rca = res.rca;
    }

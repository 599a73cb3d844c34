-- ===== src/Hw/Tests.antt =====
-- The hardware elements on small inputs.
use ch_arm_v5_system_emulato.Base.{◌+◌, ◌-◌, ◌*◌, ◌^◌, true, to_ℕ, ◌≡◌, refl, arith, add64, sub64}
use ch_arm_v5_system_emulato.Isa.{c_al, c_lt, plus_op, minus_op}
use ch_arm_v5_system_emulato.Hw.Adder.{rca_cells, init_rca, ripple_carry_add, last_cell}
use ch_arm_v5_system_emulato.Hw.Adder.Sum.{rca-adds}
use ch_arm_v5_system_emulato.Hw.Alu.{alu, cond_holds}
use ch_arm_v5_system_emulato.Hw.Alu.Flags.{sum_flags, difference_flags, alu-plus, alu-minus}
use ch_arm_v5_system_emulato.Hw.Alu.Compare.{compares, cond_holds-minus}

-- 3 - 5 is negative and borrows.
alu_run : (alu 3 5 0 0 minus_op true c_al 0 0 rca_cells).1 ≡ 8
unfolding alu last_cell ripple_carry_add init_rca
alu_run = refl

rca-adds_example :
    (ripple_carry_add (init_rca (2 ^ 64 - 1) 5 true rca_cells)).1
      + 2 ^ 64
        * to_ℕ (last_cell (ripple_carry_add (init_rca (2 ^ 64 - 1) 5 true rca_cells)).0).c_out
    ≡ 2 ^ 64 - 1 + 5 + 1
rca-adds_example = rca-adds (2 ^ 64 - 1) 5 true rca_cells refl (omega arith) (omega arith)

alu-plus_example :
    let (out, nzcv_dst) = alu (2 ^ 63) (2 ^ 63) 0 0 plus_op true c_al 0 0 rca_cells in
    (out.val_e ≡ add64 (2 ^ 63) (2 ^ 63)) × (nzcv_dst ≡ sum_flags (2 ^ 63) (2 ^ 63))
alu-plus_example =
    alu-plus (2 ^ 63) (2 ^ 63) 0 0 0 0 c_al rca_cells refl (omega arith) (omega arith)

alu-minus_example :
    let (out, nzcv_dst) = alu 3 5 0 0 minus_op true c_al 0 0 rca_cells in
    (out.val_e ≡ sub64 3 5) × (nzcv_dst ≡ difference_flags 3 5)
alu-minus_example = alu-minus 3 5 0 0 0 0 c_al rca_cells refl (omega arith) (omega arith)

cond_holds-minus_example :
    cond_holds c_lt (alu 3 5 0 0 minus_op true c_al 0 0 rca_cells).1 ≡ compares c_lt 3 5
cond_holds-minus_example =
    cond_holds-minus 3 5 0 0 0 0 c_lt rca_cells refl (omega arith) (omega arith)

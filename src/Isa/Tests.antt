-- ===== src/Isa/Tests.antt =====
-- The tables on entries of each kind.
use ch_arm_v5_system_emulato.Base.{◌≡◌, ◌↔◌, some, refl, arith}
use ch_arm_v5_system_emulato.Isa.{op_ldur, op_b_cond, format_error, op_error}
use ch_arm_v5_system_emulato.Isa.Tables.{init_itable, init_ftable, itable, ftable}
use ch_arm_v5_system_emulato.Isa.Tables.Complete.{encoding, itable-encoding, ftable_complete}

itable_run : itable 0x7C2 ≡ op_ldur
unfolding itable init_itable
itable_run = refl

itable-encoding_example : (init_itable ≡ some itable) × (itable 0x2A3 ≡ encoding 0x2A3)
itable-encoding_example = itable-encoding 0x2A3 (omega arith)

ftable_complete_example :
    (init_ftable ≡ some ftable) × ((ftable op_b_cond ≡ format_error) ↔ (op_b_cond ≡ op_error))
ftable_complete_example = ftable_complete op_b_cond

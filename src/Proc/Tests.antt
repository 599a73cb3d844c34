-- ===== src/Proc/Tests.antt =====
-- A small program on the guest machine.
use ch_arm_v5_system_emulato.Base.{ℕ, List, [], ◌∷◌, none, get_or, set, ◌≡◌, refl, arith}
use ch_arm_v5_system_emulato.Isa.{s_fetch, s_decode, s_execute, s_memory, s_wback}
use ch_arm_v5_system_emulato.Mem.Ptable.{PageTable, empty_ptable, ptable_hash}
use ch_arm_v5_system_emulato.Pipe.Decode.Registers.{RegNums}
use ch_arm_v5_system_emulato.Machine.{Guest, CacheArgs, init_machine}
use ch_arm_v5_system_emulato.Proc.{cycle, in_order, start_elf, run_elf}
use ch_arm_v5_system_emulato.Proc.Order.Table.{orderings}
use ch_arm_v5_system_emulato.Proc.Order.All.{fetch_first, cycle-orderings}
use ch_arm_v5_system_emulato.Proc.Loop.{Ends, run_elf-Ends}
use ch_arm_v5_system_emulato.Proc.Order.{Reorders, swap, cycle-Reorders}

-- MOVZ X1, #7; ADD X2, X1, #5; RET.
abbrev code : List ℕ
code = 0xE1 ∷ 0x00 ∷ 0x80 ∷ 0xD2 ∷ 0x22 ∷ 0x14 ∷ 0x00 ∷ 0x91 ∷ 0xC0 ∷ 0x03 ∷ 0x5F ∷ 0xD6 ∷ []

abbrev program : PageTable
unfolding ptable_hash
program =
    set empty_ptable (ptable_hash 0x400)
      (record { p_num = 0x400; p_prot = 5; p_data = λ o. get_or code o 0 } ∷ [])

abbrev no_cache : CacheArgs
no_cache = record { a_arg = none; b_arg = none; c_arg = none; d_arg = none }

abbrev no_regs : ℕ → RegNums
no_regs n = record { src1 = 32; src2 = 32; dst = 32 }

abbrev machine : Guest
unfolding init_machine
machine = init_machine no_cache program []

run_elf-Ends_example :
    Ends no_regs 40 (start_elf 0x400000 machine) (run_elf 0x400000 40 no_regs machine)
run_elf-Ends_example = run_elf-Ends 0x400000 40 no_regs machine

-- Decode before fetch, as a build with a random order may do it.
abbrev reordered : Reorders in_order (s_decode ∷ s_fetch ∷ s_execute ∷ s_memory ∷ s_wback ∷ [])
reordered = swap refl

cycle-Reorders_example :
    cycle (no_regs 0) in_order (start_elf 0x400000 machine)
    ≡ cycle
        (no_regs 0)
        (s_decode ∷ s_fetch ∷ s_execute ∷ s_memory ∷ s_wback ∷ [])
        (start_elf 0x400000 machine)
cycle-Reorders_example =
    cycle-Reorders (no_regs 0) in_order (s_decode ∷ s_fetch ∷ s_execute ∷ s_memory ∷ s_wback ∷ [])
      (start_elf 0x400000 machine) reordered

cycle-orderings_example :
    cycle (no_regs 0) (get_or orderings 102 []) (start_elf 0x400000 machine)
    ≡ cycle (no_regs 0) in_order (start_elf 0x400000 machine)
unfolding orderings fetch_first
cycle-orderings_example =
    cycle-orderings (no_regs 0) 102 (start_elf 0x400000 machine) (omega arith) refl

-- ===== src/Arch/Tests.antt =====
-- An instruction that enters the pipeline at the start of a run.
use ch_arm_v5_system_emulato.Base.{
  ℕ, suc, true, false, [], none, some, add64, sub64, ◌≡◌, refl, sym, arith, inl,
}
use mathlib.Core.Path.{subst}
use ch_arm_v5_system_emulato.Hw.Regfile.{Proc}
use ch_arm_v5_system_emulato.Hw.Ports.{imem}
use ch_arm_v5_system_emulato.Mem.Ptable.{
  PageTable, empty_ptable, ptable_hash, get_page, find_page, add_page, store,
}
use ch_arm_v5_system_emulato.Mem.Bytes.{
  mem_write_le, mem_write_byte, mem_read_le, mem_read_byte, addr_in_imem, is_special_addr,
}
use ch_arm_v5_system_emulato.Mem.Access.{mem_read}
use ch_arm_v5_system_emulato.Pipe.Decode.Registers.{RegNums}
use ch_arm_v5_system_emulato.Machine.{Guest, CacheArgs, init_machine}
use ch_arm_v5_system_emulato.Proc.{cycle, in_order, start_elf}
use ch_arm_v5_system_emulato.Arch.{Instr, with_mov, movz, encode, exec_wired, IsProc}
use ch_arm_v5_system_emulato.Arch.Flow.{Flows, arch, live_status}
use ch_arm_v5_system_emulato.Arch.Flow.Correct.{cycle-exec}
use ch_arm_v5_system_emulato.Arch.Program.Start.{
  first_proc-IsProc, started, started-Flows, arch-started,
}

-- MOVZ X1, #7.
abbrev load_seven : Instr
load_seven = with_mov movz 1 7 0

abbrev code : PageTable
code = mem_write_le 0x400000 0xD28000E1910043FF 8 empty_ptable

abbrev no_regs : RegNums
no_regs = record { src1 = 32; src2 = 32; dst = 32 }

abbrev no_cache : CacheArgs
no_cache = record { a_arg = none; b_arg = none; c_arg = none; d_arg = none }

-- The run starts at the second instruction.
abbrev machine : Guest
machine = started no_cache code [] 0x400004

read_second : imem machine.f.out.pred_pc machine.mem ≡ some (encode load_seven, false, machine.mem)
unfolding start_elf init_machine imem mem_read mem_read_le mem_read_byte addr_in_imem
    is_special_addr encode mem_write_le mem_write_byte get_page find_page add_page store ptable_hash
read_second = refl

machine-IsProc : IsProc (arch no_regs 0 machine).0
machine-IsProc =
    subst (λ (t : Proc × ℕ). IsProc t.0) (sym (arch-started no_cache code [] 0x400004 no_regs 0))
      (first_proc-IsProc 0 (sub64 0x800000000 8) (omega arith))

cycle-exec_example :
    (g' : Guest) × (cycle no_regs in_order machine ≡ some g')
    × Flows g'
    × (g'.f.out.pred_pc ≡ add64 machine.f.out.pred_pc 4)
    × (g'.mem ≡ machine.mem)
    × (g'.num_instr ≡ suc machine.num_instr)
    × (live_status g'.proc.status ≡ true)
    × (arch no_regs 0 g' ≡ exec_wired load_seven (arch no_regs 0 machine))
unfolding start_elf init_machine
cycle-exec_example =
    cycle-exec no_regs no_regs machine machine.mem load_seven
      (started-Flows no_cache code [] 0x400004) (omega arith, omega arith, omega arith)
      (inl (omega arith)) refl read_second refl 0 machine-IsProc

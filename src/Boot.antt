-- ===== src/Boot.antt =====
-- `main` of src/base/archsim.c: the arguments, the machine, the ELF file and the run. Of `init` in
-- src/base/interface.c this is `init_machine`; the tables that it fills are functions here.
pub mod Memory
mod Tests
use ch_arm_v5_system_emulato.Base.{ℕ, List, Option, some, ◌>>=◌}
use ch_arm_v5_system_emulato.Mem.Ptable.{empty_ptable}
use ch_arm_v5_system_emulato.Machine.{Guest, init_machine}
use ch_arm_v5_system_emulato.Elf.{ElfFile, load_elf}
use ch_arm_v5_system_emulato.Args.{
  ArgOption, RunArgs, ArgsEnd, exits, returns, handle_args, cache_args,
}
use ch_arm_v5_system_emulato.Pipe.Decode.Registers.{RegNums}
use ch_arm_v5_system_emulato.Proc.{run_elf}

-- `init` and `loadElf`: the entry point and the guest.
unfoldable pub boot : RunArgs → ElfFile → List ℕ → Option (ℕ × Guest)
boot args file stdin = do
  let guest = init_machine (cache_args args) empty_ptable stdin
  (entry, ptable, segments) ← load_elf file guest.mem.ptable guest.mem.segments
  some (entry, record guest { mem = record (guest.mem) { ptable = ptable; segments = segments } })

-- The process exits in `handle_args`, or `runElf` ends with a guest.
pub data MainEnd : Type 0 where
  ended : ℕ → MainEnd
  ran : Guest → MainEnd

abbrev pub max_num_instr : ℕ
max_num_instr = 500

-- `main` after `handle_args`.
unfoldable pub main_with : ElfFile → List ℕ → (ℕ → RegNums) → ArgsEnd → Option MainEnd
main_with file stdin regs (exits code) = some (ended code)
main_with file stdin regs (returns args logged) = do
  (entry, guest) ← boot args file stdin
  guest' ← run_elf entry args.cycle_max regs guest
  some (ran guest')

-- `main`, with the file that `-i` names.
unfoldable pub main : List ArgOption → ElfFile → List ℕ → (ℕ → RegNums) → Option MainEnd
main options file stdin regs = do
  ends ← handle_args options max_num_instr 0
  main_with file stdin regs ends

-- ===== src/Arch/Program/Start.antt =====
-- `runElf` of src/base/proc.c from its start, on a program of data-processing instructions.
use ch_arm_v5_system_emulato.Base.{
  ℕ, ◌^◌, ◌<◌, List, set, replicate, get_or-replicate, sub64, ◌≡◌, refl, arith, inl, true, false,
}
use ch_arm_v5_system_emulato.Isa.{stat_aok}
use ch_arm_v5_system_emulato.Pipe.Decode.{decode_instr}
use ch_arm_v5_system_emulato.Pipe.Decode.Control.{generate_dxmw_control, decide_alu_op}
use ch_arm_v5_system_emulato.Pipe.Decode.Registers.{RegNums}
use ch_arm_v5_system_emulato.Pipe.Execute.{execute_instr}
use ch_arm_v5_system_emulato.Hw.Alu.{alu, pack_cc}
use ch_arm_v5_system_emulato.Hw.Regfile.{Proc, regfile_write}
use ch_arm_v5_system_emulato.Mem.Ptable.{PageTable}
use ch_arm_v5_system_emulato.Mem.Bytes.{ret_from_main_addr}
use ch_arm_v5_system_emulato.Machine.{Guest, CacheArgs, init_machine}
use ch_arm_v5_system_emulato.Proc.{start_elf}
use ch_arm_v5_system_emulato.Arch.Bounds.{small-set}
use ch_arm_v5_system_emulato.Arch.{IsProc}
use ch_arm_v5_system_emulato.Arch.Flow.{Flows, arch}

-- The registers of a new run: all zero but the stack pointer, which stands 8 below its segment's
-- start, and X30, which has the address by which main returns. Of the flags, Z is set.
abbrev pub first_proc : (pc sp : ℕ) → Proc
first_proc pc sp = record {
  sp = sp;
  pc = pc;
  nzcv = pack_cc false true false false;
  gpr = set (replicate 31 0) 30 ret_from_main_addr;
  status = stat_aok;
}

abbrev pub started : CacheArgs → PageTable → List ℕ → ℕ → Guest
started args ptable stdin entry = start_elf entry (init_machine args ptable stdin)

-- With the flags that the conditions read before an instruction has set any: `X_nzcvval`, none.
abbrev pub first_state : ℕ → Proc × ℕ
first_state pc = (first_proc pc (sub64 0x800000000 8), 0)

pub first_proc-IsProc : (pc sp : ℕ) → sp < 2 ^ 64 → IsProc (first_proc pc sp)
first_proc-IsProc pc sp h = record {
  size = refl;
  small =
      small-set (replicate 31 0) 30 ret_from_main_addr
        (λ n. rw (get_or-replicate {A = ℕ} 31 n 0) (omega arith)) (omega arith);
  sp_small = h;
}

module _ (args : CacheArgs) (ptable : PageTable) (stdin : List ℕ) (entry : ℕ) where
  abbrev g : Guest
  g = started args ptable stdin entry

  pub arch-started : (regs : RegNums) (v : ℕ) → arch regs v g ≡ first_state v
  unfolding init_machine start_elf decode_instr execute_instr generate_dxmw_control decide_alu_op
      alu regfile_write
  arch-started regs v = refl

  pub started-Flows : Flows g
  unfolding init_machine start_elf generate_dxmw_control
  started-Flows = record {
    fetching = refl;
    no_ctl_error = record { f = λ e. cc; d = λ e. cc; x = λ e. cc; m = λ e. cc; w = λ e. cc };
    flags = refl;
    cells = refl;
    size = refl;
    d_plain = refl;
    d_reads = inl refl;
    d_write = λ regs. inl refl;
    d_live = refl;
    x_plain = record {
      plain_op = refl;
      dst_sel = refl;
      wval_sel = refl;
      write = inl refl;
      live = refl;
    };
    x_memory = refl;
    m_plain = record {
      plain_op = refl;
      dst_sel = refl;
      wval_sel = refl;
      write = inl refl;
      live = refl;
    };
    m_memory = refl;
    w_plain = record {
      plain_op = refl;
      dst_sel = refl;
      wval_sel = refl;
      write = inl refl;
      live = refl;
    };
  }

-- ===== src/Machine.antt =====
-- The guest machine: `machine_t` and `init_machine` of src/base/machine.c with the globals of
-- src/base/archsim.c and src/pipe/instr_base.c that the stages communicate by.
pub mod Log
use ch_arm_v5_system_emulato.Base.{
  ℕ, ◌-◌, ◌^◌, Bool, false, List, [], ◌∷◌, Option, none, some, replicate,
}
use ch_arm_v5_system_emulato.Isa.{stat_bub, ready, p_bubble}
use ch_arm_v5_system_emulato.Cache.{Cache, create_cache}
use ch_arm_v5_system_emulato.Mem.Ptable.{PageTable}
use ch_arm_v5_system_emulato.Mem.Access.{MemSystem}
use ch_arm_v5_system_emulato.Hw.Adder.{FullAdder, rca_cells}
use ch_arm_v5_system_emulato.Hw.Regfile.{Proc}
use ch_arm_v5_system_emulato.Pipe.Regs.{
  FInstr, DInstr, XInstr, MInstr, WInstr, PipeReg, zero_f, zero_d, zero_x, zero_m, zero_w,
}

-- `guest`, the wires, and `num_instr`.
pub record Guest : Type 0 where
  pub proc : Proc
  pub f : PipeReg FInstr
  pub d : PipeReg DInstr
  pub x : PipeReg XInstr
  pub m : PipeReg MInstr
  pub w : PipeReg WInstr
  pub mem : MemSystem
  pub f_pc : ℕ
  pub d_src1 : ℕ
  pub d_src2 : ℕ
  pub x_nzcvval : ℕ
  pub x_set_flags : Bool
  pub m_pc : ℕ
  pub w_wval : ℕ
  pub deassert_flags : Bool
  pub rca : List FullAdder
  pub num_instr : ℕ

abbrev pub seg_starts : List ℕ
seg_starts =
    0x0 ∷ 0x400000 ∷ 0x800000 ∷ 0x10000000 ∷ 0x400000000 ∷ 0x800000000 ∷ 0x1000000000000 ∷ []

abbrev pub seg_prots : List ℕ
seg_prots = 0x0 ∷ 0x5 ∷ 0x6 ∷ 0x6 ∷ 0x5 ∷ 0x6 ∷ 0x0 ∷ []

-- `A`, `B`, `C` and `d` of the command line, `none` for -1.
pub record CacheArgs : Type 0 where
  pub a_arg : Option ℕ
  pub b_arg : Option ℕ
  pub c_arg : Option ℕ
  pub d_arg : Option ℕ

unfoldable pub cache_of : Option ℕ → Option ℕ → Option ℕ → Option ℕ → Option Cache
cache_of (some a) (some b) (some c) (some d) = some (create_cache a b c d)
cache_of _ _ _ _ = none

abbrev pub empty_reg {ℓ} : {A : Type ℓ} → A → PipeReg A
empty_reg zeros = record { inp = zeros; out = zeros; ctl = p_bubble }

-- `init_machine`, over globals that are zero, with the memory that the ELF loader leaves and the
-- values that `scanf` will read.
unfoldable pub init_machine : CacheArgs → PageTable → List ℕ → Guest
unfolding cache_of
init_machine args ptable stdin = record {
  proc = record { sp = 0; pc = 0; nzcv = 0; gpr = replicate 31 0; status = stat_bub };
  f = empty_reg zero_f;
  d = empty_reg zero_d;
  x = empty_reg zero_x;
  m = empty_reg zero_m;
  w = empty_reg zero_w;
  mem = record {
    segments = record {
      max_addr = 2 ^ 64 - 1;
      addr_size = 64;
      seg_start_addr = seg_starts;
      seg_prot = seg_prots;
    };
    ptable = ptable;
    cache = cache_of args.a_arg args.b_arg args.c_arg args.d_arg;
    inflight_cycles = elim (cache_of args.a_arg args.b_arg args.c_arg args.d_arg) [
      | none ↦ 0
      | some cache ↦ cache.delay
    ];
    inflight_addr = 0;
    inflight = false;
    dmem_status = ready;
    stdin = stdin;
    output = [];
  };
  f_pc = 0;
  d_src1 = 0;
  d_src2 = 0;
  x_nzcvval = 0;
  x_set_flags = false;
  m_pc = 0;
  w_wval = 0;
  deassert_flags = false;
  rca = rca_cells;
  num_instr = 0;
}

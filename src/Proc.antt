-- ===== src/Proc.antt =====
-- src/base/proc.c: the cycle of the processor and the loop of `runElf`. `none` is the end of the
-- run inside a stage (see Mem.Access). Printing is left out.
pub mod Loop
pub mod Order
mod Tests
use ch_arm_v5_system_emulato.Base.{
  ℕ, zero, suc, ◌+◌, ◌-◌, Bool, true, false, ◌&&◌, ◌||◌, not, List, [], ◌∷◌, Option, none, some,
  ◌>>=◌, set, ltb, if◌then◌else◌, sub64,
}
use ch_arm_v5_system_emulato.Isa.{
  Stat, stat_bub, stat_aok, stat_hlt, stat_adr, stat_ins, ◌is_stat◌, ProcStage, s_fetch, s_decode,
  s_execute, s_memory, s_wback, s_update_pc, s_error, PipeCtlStat, p_load, p_error, p_bubble,
  p_stall, ready,
}
use ch_arm_v5_system_emulato.Hw.Alu.{pack_cc}
use ch_arm_v5_system_emulato.Hw.Regfile.{Proc, regfile_write}
use ch_arm_v5_system_emulato.Mem.Bytes.{seg_start, stack_seg, ret_from_main_addr}
use ch_arm_v5_system_emulato.Pipe.Regs.{PipeReg, zero_f, zero_d, zero_x, zero_m, zero_w}
use ch_arm_v5_system_emulato.Pipe.Decode.{decode_instr}
use ch_arm_v5_system_emulato.Pipe.Decode.Registers.{RegNums}
use ch_arm_v5_system_emulato.Pipe.Fetch.{fetch_instr}
use ch_arm_v5_system_emulato.Pipe.Execute.{execute_instr}
use ch_arm_v5_system_emulato.Pipe.Memory.{memory_instr}
use ch_arm_v5_system_emulato.Pipe.Writeback.{wback_instr}
use ch_arm_v5_system_emulato.Pipe.Forward.{Pending, forward_reg}
use ch_arm_v5_system_emulato.Pipe.Hazard.{HazardIn, HazardOut, Ctls, handle_hazards}
use ch_arm_v5_system_emulato.Machine.{Guest, empty_reg}

-- `fetch_instr(F_out, D_in)`.
unfoldable pub fetch_stage : Guest → Option Guest
fetch_stage g = do
  r ← fetch_instr g.f.out.pred_pc g.f.inp.status g.x.out g.m.out g.d.inp g.f_pc g.mem
  some (record g {
    f = record (g.f) {
      inp = record (g.f.inp) { status = r.status };
      out = record (g.f.out) { status = r.status };
    };
    d = record (g.d) { inp = r.out };
    f_pc = r.f_pc;
    mem = r.mem;
  })

-- `decode_instr(D_out, X_in)`.
unfoldable pub decode_stage : RegNums → Guest → Guest
decode_stage regs g =
    let r = decode_instr regs g.proc g.d.out in
    record g { x = record (g.x) { inp = r.out }; d_src1 = r.d_src1; d_src2 = r.d_src2 }

-- `execute_instr(X_out, M_in)`.
unfoldable pub execute_stage : Guest → Guest
execute_stage g =
    let r = execute_instr g.x.out g.m.inp g.x_nzcvval g.rca in
    record g {
      m = record (g.m) { inp = r.out };
      x_nzcvval = r.x_nzcvval;
      x_set_flags = r.x_set_flags;
      rca = r.rca;
    }

-- `memory_instr(M_out, W_in)`.
unfoldable pub memory_stage : Guest → Option Guest
memory_stage g = do
  r ← memory_instr g.m.out g.w.inp g.m_pc g.mem
  some (record g { w = record (g.w) { inp = r.out }; m_pc = r.m_pc; mem = r.mem })

-- `wback_instr(W_out)`.
unfoldable pub wback_stage : Guest → Guest
wback_stage g =
    let (out, wval) = wback_instr g.w.out in
    record g { w = record (g.w) { out = out }; w_wval = wval }

-- The switch on a stage in the RANDOM build; the other builds run the stages in order.
unfoldable pub run_stage : RegNums → ProcStage → Guest → Option Guest
unfolding fetch_stage decode_stage execute_stage memory_stage wback_stage
run_stage regs s_fetch g = fetch_stage g
run_stage regs s_decode g = some (decode_stage regs g)
run_stage regs s_execute g = some (execute_stage g)
run_stage regs s_memory g = memory_stage g
run_stage regs s_wback g = some (wback_stage g)
run_stage regs s_update_pc g = none
run_stage regs s_error g = none

unfoldable pub run_stages : RegNums → List ProcStage → Guest → Option Guest
run_stages regs [] g = some g
run_stages regs (stage ∷ stages) g = do g' ← run_stage regs stage g; run_stages regs stages g'

-- The order of the plain build.
abbrev pub in_order : List ProcStage
in_order = s_fetch ∷ s_decode ∷ s_execute ∷ s_memory ∷ s_wback ∷ []

-- The arguments of the call of `forward_reg`. `M_val_mem` is `W_in->val_mem`.
abbrev pub pending : Guest → Pending
pending g = record {
  x_dst = g.x.out.dst;
  m_dst = g.m.out.dst;
  w_dst = g.w.out.dst;
  x_val_ex = g.m.inp.val_ex;
  m_val_ex = g.m.out.val_ex;
  m_val_mem = g.w.inp.val_mem;
  w_val_ex = g.w.out.val_ex;
  w_val_mem = g.w.out.val_mem;
  m_wval_sel = g.m.out.w_sigs.wval_sel;
  w_wval_sel = g.w.out.w_sigs.wval_sel;
  x_w_enable = g.x.out.w_sigs.w_enable;
  m_w_enable = g.m.out.w_sigs.w_enable;
  w_w_enable = g.w.out.w_sigs.w_enable;
}

unfoldable pub forward_step : Guest → Guest
forward_step g =
    let (val_a, val_b) = forward_reg (pending g) g.d_src1 g.d_src2 g.x.inp.val_a g.x.inp.val_b in
    record g { x = record (g.x) { inp = record (g.x.inp) { val_a = val_a; val_b = val_b } } }

-- The arguments of the call of `handle_hazards`, and what it changes.
abbrev pub hazard_in : Guest → HazardIn
hazard_in g = record {
  d_opcode = g.d.out.op;
  d_src1 = g.d_src1;
  d_src2 = g.d_src2;
  x_opcode = g.x.out.op;
  x_dst = g.x.out.dst;
  x_condval = g.m.inp.cond_holds;
  dmem_status = g.mem.dmem_status;
  m_in_status = g.m.inp.status;
  w_in_status = g.w.inp.status;
  w_out_status = g.w.out.status;
}

abbrev pub hazard_out : Guest → HazardOut
hazard_out g = record {
  ctls = record { f = g.f.ctl; d = g.d.ctl; x = g.x.ctl; m = g.m.ctl; w = g.w.ctl };
  deassert_flags = g.deassert_flags;
  status = g.w.out.status;
}

-- `guest.proc->status = W_out->status`, then the call of `handle_hazards`.
unfoldable pub hazard_step : Guest → Guest
hazard_step g =
    let r = handle_hazards (hazard_in g) (hazard_out g) in
    record g {
      proc = record (g.proc) { status = r.status };
      f = record (g.f) { ctl = r.ctls.f };
      d = record (g.d) { ctl = r.ctls.d };
      x = record (g.x) { ctl = r.ctls.x };
      m = record (g.m) { ctl = r.ctls.m };
      w = record (g.w) { ctl = r.ctls.w };
      deassert_flags = r.deassert_flags;
    }

-- The clocked logic: the flags, the register file, the PC and the latch of the predicted PC.
unfoldable pub clocked_step : Guest → Guest
clocked_step g =
    let flags = if not g.deassert_flags && g.x_set_flags then g.x_nzcvval else g.proc.nzcv in
    let written =
      regfile_write g.w.out.dst g.w_wval
        (g.w.out.w_sigs.w_enable && g.w.out.status is_stat stat_aok)
        (record (g.proc) { nzcv = flags }) in
    let excepting = g.w.inp.status is_stat stat_adr || g.w.inp.status is_stat stat_ins in
    let pc = if excepting then g.m_pc else g.f_pc in
    record g {
      proc = record written { pc = pc };
      f = record (g.f) { inp = record (g.f.inp) { pred_pc = pc } };
    }

-- What the last switch does to a register at the end of the cycle.
unfoldable pub latch {ℓ} : {A : Type ℓ} → A → PipeReg A → PipeReg A
latch zeros r = elim (r.ctl) [
  | p_load ↦ record r { out = r.inp }
  | p_error ↦ record r { out = zeros }
  | p_bubble ↦ record r { out = zeros }
  | p_stall ↦ r
]

abbrev pub is_error : PipeCtlStat → Bool
is_error p_error = true
is_error _ = false

unfoldable pub latch_step : Guest → Guest
unfolding latch
latch_step g =
    let failed =
      is_error g.f.ctl
      || is_error g.d.ctl
      || is_error g.x.ctl
      || is_error g.m.ctl
      || is_error g.w.ctl in
    record g {
      f = latch zero_f g.f;
      d = latch zero_d g.d;
      x = latch zero_x g.x;
      m = latch zero_m g.m;
      w = latch zero_w g.w;
      proc = record (g.proc) { status = if failed then stat_hlt else g.proc.status };
      num_instr = suc g.num_instr;
    }

-- One round of the loop, with the stages in a given order.
unfoldable pub cycle : RegNums → List ProcStage → Guest → Option Guest
cycle regs order g = do
  g' ← run_stages regs order g
  some (latch_step (clocked_step (hazard_step (forward_step g'))))

-- The loop's condition.
abbrev pub goes_on : ℕ → Guest → Bool
goes_on cycle_max g =
    (g.proc.status is_stat stat_aok || g.proc.status is_stat stat_bub) && ltb g.num_instr cycle_max

-- The `do` loop, with fuel for its rounds: `cycle_max` rounds after the first are enough. `regs` is
-- what a round's uninitialised variables hold.
unfoldable pub run_loop : ℕ → ℕ → (ℕ → RegNums) → Guest → Option Guest
run_loop zero cycle_max regs g = none
run_loop (suc fuel) cycle_max regs g = do
  g' ← cycle (regs g.num_instr) in_order g
  elim (goes_on cycle_max g') [ true ↦ run_loop fuel cycle_max regs g' | false ↦ some g' ]

-- The state of `runElf` when its loop begins.
unfoldable pub start_elf : ℕ → Guest → Guest
start_elf entry g = record g {
  proc = record (g.proc) {
    pc = entry;
    sp = sub64 (seg_start g.mem.segments stack_seg) 8;
    nzcv = pack_cc false true false false;
    gpr = set g.proc.gpr 30 ret_from_main_addr;
  };
  f = record { inp = zero_f; out = record { pred_pc = entry; status = stat_aok }; ctl = p_bubble };
  d = empty_reg zero_d;
  x = empty_reg zero_x;
  m = empty_reg zero_m;
  w = empty_reg zero_w;
  mem = record (g.mem) { dmem_status = ready };
  num_instr = 0;
}

-- `runElf`.
unfoldable pub run_elf : ℕ → ℕ → (ℕ → RegNums) → Guest → Option Guest
unfolding run_loop
run_elf entry cycle_max regs g = run_loop (suc cycle_max) cycle_max regs (start_elf entry g)

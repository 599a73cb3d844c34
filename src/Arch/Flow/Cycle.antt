-- ===== src/Arch/Flow/Cycle.antt =====
-- A cycle of src/base/proc.c in which an instruction word is fetched and only data-processing
-- instructions are in the pipeline: the whole machine after it.
use ch_arm_v5_system_emulato.Base.{
  ℕ, suc, true, false, ◌&&◌, some, ◌>>=◌, ◌==◌, if◌then◌else◌, add64, ◌≡◌, refl,
}
use ch_arm_v5_system_emulato.Isa.{p_load, stat_aok, ◌is_stat◌}
use ch_arm_v5_system_emulato.Hw.Regfile.{regfile_write}
use ch_arm_v5_system_emulato.Hw.Ports.{imem}
use ch_arm_v5_system_emulato.Mem.Access.{MemSystem}
use ch_arm_v5_system_emulato.Pipe.Regs.{PipeReg, XInstr}
use ch_arm_v5_system_emulato.Pipe.Fetch.{fetch_status}
use ch_arm_v5_system_emulato.Pipe.Decode.{decode_instr}
use ch_arm_v5_system_emulato.Pipe.Decode.Registers.{RegNums}
use ch_arm_v5_system_emulato.Pipe.Execute.{ExecuteOut, execute_instr}
use ch_arm_v5_system_emulato.Pipe.Forward.{forward_reg}
use ch_arm_v5_system_emulato.Pipe.Hazard.{error, is_in_flight}
use ch_arm_v5_system_emulato.Machine.{Guest}
use ch_arm_v5_system_emulato.Proc.{
  fetch_stage, decode_stage, execute_stage, memory_stage, wback_stage, run_stages, run_stage,
  in_order, pending, hazard_in, hazard_out, forward_step, hazard_step, clocked_step, latch_step,
  cycle,
}
use ch_arm_v5_system_emulato.Arch.Encoding.{opcode_of}
use ch_arm_v5_system_emulato.Arch.Travel.{fetched}
use ch_arm_v5_system_emulato.Arch.Flow.{plain, Flows, live-error, ctls_of, commit_w}
use ch_arm_v5_system_emulato.Pipe.Hazard.Control.{NoError}
use ch_arm_v5_system_emulato.Arch.Flow.Stages.{
  fetch_plain, passed_on, memory_plain, wback_plain, hazards_plain,
}

-- The execute stage.
abbrev pub executed : Guest → ExecuteOut
executed g = execute_instr g.x.out g.m.inp g.x_nzcvval g.rca

-- After the five stages.
abbrev pub ran : RegNums → Guest → (pc x : ℕ) → MemSystem → Guest
ran regs g pc x mem =
    let status = fetch_status false (opcode_of x) in
    let d = decode_instr regs g.proc g.d.out in
    let e = executed g in
    record g {
      f = record (g.f) {
        inp = record (g.f.inp) { status = status };
        out = record (g.f.out) { status = status };
      };
      d = record (g.d) { inp = fetched x pc };
      x = record (g.x) { inp = d.out };
      m = record (g.m) { inp = e.out };
      w = record (g.w) { inp = passed_on g.m.out g.w.inp };
      mem = mem;
      f_pc = add64 pc 4;
      d_src1 = d.d_src1;
      d_src2 = d.d_src2;
      x_nzcvval = e.x_nzcvval;
      x_set_flags = e.x_set_flags;
      rca = e.rca;
      w_wval = g.w.out.val_ex;
    }

-- The decoded instruction with its operands forwarded.
abbrev pub forwarded : RegNums → Guest → (pc x : ℕ) → MemSystem → XInstr
forwarded regs g pc x mem =
    let d = decode_instr regs g.proc g.d.out in
    let (val_a, val_b) =
      forward_reg (pending (ran regs g pc x mem)) d.d_src1 d.d_src2 d.out.val_a d.out.val_b in
    record (d.out) { val_a = val_a; val_b = val_b }

abbrev loaded {ℓ} : {A : Type ℓ} → A → PipeReg A
loaded v = record { inp = v; out = v; ctl = p_load }

-- After the cycle.
abbrev pub next : RegNums → Guest → (pc x : ℕ) → MemSystem → Guest
next regs g pc x mem =
    let e = executed g in
    let flags = if e.x_set_flags then e.x_nzcvval else g.proc.nzcv in
    record (ran regs g pc x mem) {
      proc = record (commit_w g.w.out (record (g.proc) { nzcv = flags; status = g.w.out.status })) {
        pc = add64 pc 4;
      };
      f = loaded (record { pred_pc = add64 pc 4; status = fetch_status false (opcode_of x) });
      d = loaded (fetched x pc);
      x = loaded (forwarded regs g pc x mem);
      m = loaded e.out;
      w = loaded (passed_on g.m.out g.w.inp);
      deassert_flags = false;
      num_instr = suc g.num_instr;
    }

-- Every register is to be loaded.
abbrev all_loading : Guest → Guest
all_loading h = record h {
  proc = record (h.proc) { status = h.w.out.status };
  f = record (h.f) { ctl = p_load };
  d = record (h.d) { ctl = p_load };
  x = record (h.x) { ctl = p_load };
  m = record (h.m) { ctl = p_load };
  w = record (h.w) { ctl = p_load };
  deassert_flags = false;
}

hazard_step-plain :
    (h : Guest)
    → plain h.d.out.op ≡ true
    → plain h.x.out.op ≡ true
    → is_in_flight h.mem.dmem_status ≡ false
    → error h.m.inp.status ≡ false
    → error h.w.inp.status ≡ false
    → error h.w.out.status ≡ false
    → NoError (ctls_of h)
    → h.deassert_flags ≡ false
    → hazard_step h ≡ all_loading h
unfolding hazard_step
hazard_step-plain h hd hx quiet m_ok w_ok out_ok fine flags =
    rw (hazards_plain (hazard_in h) hd hx quiet m_ok w_ok out_ok (hazard_out h) fine flags) refl

-- The end of the cycle.
loaded_all : Guest → Guest
loaded_all h =
    let flags = if h.x_set_flags then h.x_nzcvval else h.proc.nzcv in
    record h {
      proc =
          record (regfile_write h.w.out.dst h.w_wval
            (h.w.out.w_sigs.w_enable && h.w.out.status is_stat stat_aok)
            (record (h.proc) { nzcv = flags; status = h.w.out.status })) { pc = h.f_pc };
      f = loaded (record { pred_pc = h.f_pc; status = h.f.inp.status });
      d = loaded h.d.inp;
      x = loaded h.x.inp;
      m = loaded h.m.inp;
      w = loaded h.w.inp;
      deassert_flags = false;
      num_instr = suc h.num_instr;
    }

clocked-plain :
    (h : Guest)
    → error h.w.inp.status ≡ false
    → latch_step (clocked_step (all_loading h)) ≡ loaded_all h
unfolding latch_step clocked_step error loaded_all
clocked-plain h ok = rw (ok, if◌then◌else◌) refl

module _ (regs : RegNums) (g : Guest) (x : ℕ) (mem : MemSystem) (flows : Flows g)
    (here : (g.f.out.pred_pc == 0) ≡ false)
    (read : imem g.f.out.pred_pc g.mem ≡ some (x, false, mem))
    (plain_op : plain (opcode_of x) ≡ true) (quiet : is_in_flight mem.dmem_status ≡ false) where
  abbrev pc : ℕ
  pc = g.f.out.pred_pc

  run_stages-ran : run_stages regs in_order g ≡ some (ran regs g pc x mem)
  unfolding run_stages run_stage fetch_stage decode_stage execute_stage memory_stage wback_stage
  run_stages-ran =
      rw
        (
          fetch_plain pc x g.f.inp.status g.x.out g.m.out g.d.inp g.f_pc g.mem mem
              flows.x_plain.plain_op flows.m_plain.plain_op plain_op here flows.fetching read,
          ◌>>=◌,
          memory_plain g.m.out g.w.inp g.m_pc mem flows.m_memory
              (live-error g.m.out.status flows.m_plain.live),
          wback_plain g.w.out flows.w_plain.dst_sel flows.w_plain.wval_sel,
        )
        refl

  decided :
      hazard_step (forward_step (ran regs g pc x mem))
      ≡ all_loading (forward_step (ran regs g pc x mem))
  unfolding forward_step execute_instr
  decided =
      hazard_step-plain (forward_step (ran regs g pc x mem)) flows.d_plain flows.x_plain.plain_op
        quiet (live-error g.x.out.status flows.x_plain.live)
        (live-error g.m.out.status flows.m_plain.live)
        (live-error g.w.out.status flows.w_plain.live) flows.no_ctl_error flows.flags

  ends :
      latch_step (clocked_step (all_loading (forward_step (ran regs g pc x mem))))
      ≡ next regs g pc x mem
  unfolding forward_step loaded_all
  ends =
      clocked-plain (forward_step (ran regs g pc x mem))
        (live-error g.m.out.status flows.m_plain.live)

  pub cycle-next : cycle regs in_order g ≡ some (next regs g pc x mem)
  unfolding cycle
  cycle-next = rw (run_stages-ran, ◌>>=◌, decided, ends) refl

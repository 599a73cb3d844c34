-- ===== src/Arch/Flow/Correct.antt =====
-- Cycles of src/base/proc.c carry out data-processing instructions as the architecture says.
use ch_arm_v5_system_emulato.Base.{
  ℕ, suc, true, false, length, Option, some, ◌==◌, if◌then◌else◌, add64, inr, ◌≡◌, refl, ap, sym,
  ◌∙◌, arith,
}
use mathlib.Core.Path.{subst}
use ch_arm_v5_system_emulato.Isa.{stat_hlt, ◌is_stat◌}
use ch_arm_v5_system_emulato.Hw.Regfile.{Proc, regfile_write}
use ch_arm_v5_system_emulato.Hw.Ports.{imem}
use ch_arm_v5_system_emulato.Mem.Access.{MemSystem}
use ch_arm_v5_system_emulato.Pipe.Regs.{DInstr, XInstr, WInstr}
use ch_arm_v5_system_emulato.Pipe.Decode.{decode_instr}
use ch_arm_v5_system_emulato.Pipe.Decode.Registers.{RegNums}
use ch_arm_v5_system_emulato.Pipe.Execute.{execute_instr}
use ch_arm_v5_system_emulato.Pipe.Hazard.{error, is_in_flight}
use ch_arm_v5_system_emulato.Machine.{Guest}
use ch_arm_v5_system_emulato.Proc.{cycle, in_order}
use ch_arm_v5_system_emulato.Arch.{Instr, encode, IsInstr, exec, sets_flags, exec_wired, IsProc}
use ch_arm_v5_system_emulato.Arch.Flow.Latch.{fetched-sets_flags, latched-next}
use ch_arm_v5_system_emulato.Arch.Travel.{fetched}
use ch_arm_v5_system_emulato.Arch.Encoding.{opcode_of}
use ch_arm_v5_system_emulato.Pipe.Fetch.{fetch_status}
use ch_arm_v5_system_emulato.Arch.Correct.{retire-exec}
use ch_arm_v5_system_emulato.Arch.Flow.{
  Flows, IsPlain, live_status, settled, nzcv_after, arch, commit_m, commit_w, put, drained,
}
use ch_arm_v5_system_emulato.Base.{none}
use ch_arm_v5_system_emulato.Arch.Flow.Cycle.{executed, forwarded, next, cycle-next}
use ch_arm_v5_system_emulato.Arch.Flow.Drain.{drained-next, commit-put, length-commit}
use ch_arm_v5_system_emulato.Arch.Flow.Enter.{
  Avoids31, fetched-status, fetched-plain, fetched-Sources, fetched-IsWrite,
}
use ch_arm_v5_system_emulato.Arch.Flow.Retire.{
  decide_alu_op-ok, length-execute_instr, control-plain, retire-commit_m,
}

-- The value and the state of a result.
first_of : {A : Type 0} → Option (Proc × A) → Proc → Proc
first_of none p = p
first_of (some (q, a)) p = q

-- What a stage passes on is again of an instruction that may be in the pipeline.
module _ (regs : RegNums) (g : Guest) (mem : MemSystem) (i : Instr) (flows : Flows g)
    (valid : IsInstr i) (avoids : Avoids31 i) where
  abbrev d : DInstr
  d = fetched (encode i) g.f.out.pred_pc

  no_halt : (fetch_status false (opcode_of (encode i)) is_stat stat_hlt) ≡ false
  no_halt = rw (fetched-status i valid g.f.out.pred_pc) refl

  decoded-IsPlain :
      let x = forwarded regs g g.f.out.pred_pc (encode i) mem in
      IsPlain x.op x.w_sigs x.dst x.status
  unfolding decode_instr
  decoded-IsPlain =
      let (no_memory, no_link, no_load) = control-plain g.d.out.op flows.d_plain in
      record {
        plain_op = flows.d_plain;
        dst_sel = no_link;
        wval_sel = no_load;
        write = flows.d_write regs;
        live = flows.d_live;
      }

  executed-IsPlain : let m = (executed g).out in IsPlain m.op m.w_sigs m.dst m.status
  unfolding execute_instr
  executed-IsPlain = flows.x_plain

  next-Flows : Flows (next regs g g.f.out.pred_pc (encode i) mem)
  unfolding decode_instr execute_instr
  next-Flows = record {
    fetching = no_halt;
    no_ctl_error = record { f = λ e. cc; d = λ e. cc; x = λ e. cc; m = λ e. cc; w = λ e. cc };
    flags = refl;
    cells = length-execute_instr g.x.out g.m.inp g.x_nzcvval g.rca ∙ flows.cells;
    size =
        length-commit g.w.out.w_sigs g.w.out.dst g.w.out.val_ex g.w.out.status (record (g.proc) {
          nzcv = if (executed g).x_set_flags then (executed g).x_nzcvval else g.proc.nzcv;
          status = g.w.out.status;
        })
        ∙ flows.size;
    d_plain = fetched-plain i valid g.f.out.pred_pc;
    d_reads = inr (fetched-status i valid g.f.out.pred_pc, fetched-Sources i valid g.f.out.pred_pc);
    d_write = fetched-IsWrite i valid g.f.out.pred_pc avoids;
    d_live = rw (fetched-status i valid g.f.out.pred_pc) refl;
    x_plain = decoded-IsPlain;
    x_memory = (control-plain g.d.out.op flows.d_plain).0;
    m_plain = executed-IsPlain;
    m_memory = flows.x_memory;
    w_plain = flows.m_plain;
  }

status-commit_w : (w : WInstr) (proc : Proc) → (commit_w w proc).status ≡ proc.status
unfolding regfile_write
status-commit_w w proc = ground arith

next-live :
    (regs : RegNums) (g : Guest) (mem : MemSystem) (i : Instr)
    → Flows g
    → live_status (next regs g g.f.out.pred_pc (encode i) mem).proc.status ≡ true
next-live regs g mem i flows =
    ap live_status (
      status-commit_w g.w.out (record (g.proc) {
        nzcv = if (executed g).x_set_flags then (executed g).x_nzcvval else g.proc.nzcv;
        status = g.w.out.status;
      }))
    ∙ flows.w_plain.live

-- The fifth instruction.
module _ (regs regs' : RegNums) (g : Guest) (mem : MemSystem) (i : Instr) (v : ℕ) (flows : Flows g)
    (valid : IsInstr i) (ok : IsProc (settled regs v g)) where
  abbrev pc : ℕ
  pc = g.f.out.pred_pc

  abbrev g' : Guest
  g' = next regs g pc (encode i) mem

  abbrev q : Proc
  q = drained v g'

  abbrev entered : XInstr
  entered = (decode_instr regs' q (fetched (encode i) pc)).out

  abbrev result : Proc
  result =
      (let e = execute_instr entered (executed g').out q.nzcv (executed g').rca in
        commit_m e.out (put v e.x_nzcvval q))

  cells : length (executed g').rca ≡ 64
  cells =
      length-execute_instr g'.x.out g'.m.inp g'.x_nzcvval g'.rca
      ∙ length-execute_instr g.x.out g.m.inp g.x_nzcvval g.rca
      ∙ flows.cells

  q-settled : q ≡ settled regs v g
  q-settled = drained-next regs g pc (encode i) mem flows v

  error-aok : error (fetched (encode i) pc).status ≡ false
  unfolding error
  error-aok = rw (fetched-status i valid pc) refl

  result-exec : result ≡ exec i q
  unfolding decode_instr first_of
  result-exec =
      let (no_memory, no_link, no_load) =
        control-plain (fetched (encode i) pc).op (fetched-plain i valid pc) in
      let retired =
        sym (
          retire-commit_m entered (executed g').out q (executed g').rca mem no_memory no_link
            no_load error-aok (decide_alu_op-ok (fetched (encode i) pc).op))
        ∙ retire-exec regs' pc q (executed g').rca cells (subst IsProc (sym q-settled) ok) i mem
            valid in
      ap (λ r. first_of r q) retired

  settled-next : settled regs' v g' ≡ exec i (settled regs v g)
  settled-next =
      let e = execute_instr entered (executed g').out q.nzcv (executed g').rca in
      sym (commit-put e.out.w_sigs e.out.dst e.out.val_ex e.out.status v e.x_nzcvval q)
      ∙ result-exec
      ∙ ap (exec i) q-settled

  flags-next :
      nzcv_after regs' v g'
      ≡ (if sets_flags i then (exec i (settled regs v g)).nzcv else nzcv_after regs v g)
  flags-next =
      rw
        (
          fetched-sets_flags i pc valid,
          ap (λ (p : Proc). p.nzcv) settled-next,
          latched-next regs g pc (encode i) mem flows v,
        )
        refl

  arch-next : arch regs' v g' ≡ exec_wired i (arch regs v g)
  arch-next =
      ap (λ (s : Proc × ℕ). (record (s.0) { nzcv = s.1 }, (s.0).nzcv))
        {x = (settled regs' v g', nzcv_after regs' v g')}
        {y = (
          exec i (settled regs v g),
          if sets_flags i then (exec i (settled regs v g)).nzcv else nzcv_after regs v g,
        )}
        (rw (settled-next, flags-next) refl)

-- One cycle.
module _ (regs regs' : RegNums) (g : Guest) (mem : MemSystem) (i : Instr) (flows : Flows g)
    (valid : IsInstr i) (avoids : Avoids31 i) (here : (g.f.out.pred_pc == 0) ≡ false)
    (read : imem g.f.out.pred_pc g.mem ≡ some (encode i, false, mem))
    (quiet : is_in_flight mem.dmem_status ≡ false) where
  -- If the pipeline holds bubbles and data-processing instructions that write general registers or
  -- none, the adder has 64 cells and the registers that these instructions leave are 31 of 64
  -- bits, then a cycle that fetches, with a data cache that is not in flight, the encoding of one
  -- more such instruction at a PC other than 0 runs, leaves the pipeline in such a state, moves
  -- the predicted PC by 4, and takes what the pipeline leaves, the registers with NZCV and the
  -- flags X_nzcvval that the conditions read, to what the instruction makes of it in the
  -- architecture: one that sets flags sets both, and the others change neither.
  pub cycle-exec :
      (v : ℕ)
      → IsProc (arch regs v g).0
      → (g' : Guest) × (cycle regs in_order g ≡ some g')
        × Flows g'
        × (g'.f.out.pred_pc ≡ add64 g.f.out.pred_pc 4)
        × (g'.mem ≡ mem)
        × (g'.num_instr ≡ suc g.num_instr)
        × (live_status g'.proc.status ≡ true)
        × (arch regs' v g' ≡ exec_wired i (arch regs v g))
  cycle-exec v ok = (
    next regs g g.f.out.pred_pc (encode i) mem,
    cycle-next regs g (encode i) mem flows here read (fetched-plain i valid g.f.out.pred_pc) quiet,
    next-Flows regs g mem i flows valid avoids,
    refl,
    refl,
    refl,
    next-live regs g mem i flows,
    arch-next regs regs' g mem i v flows valid
        (record { size = ok.size; small = ok.small; sp_small = ok.sp_small }),
  )

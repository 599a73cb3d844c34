-- ===== src/Arch/Flow/Drain.antt =====
-- The instructions in the pipeline come out the same whether a cycle is run before or not:
-- forwarding gives the values that the registers will have.
use ch_arm_v5_system_emulato.Base.{
  ℕ, ◌≤◌, Bool, true, false, ◌&&◌, not, List, length, length-set, add64, ◌==◌, if◌then◌else◌,
  Bool-cases, inl, inr, ◌≡◌, refl, ap, sym, ◌∙◌, arith,
}
use ch_arm_v5_system_emulato.Isa.{Opcode, op_nop, ◌is◌, Stat, stat_aok}
use ch_arm_v5_system_emulato.Hw.Adder.{FullAdder}
use ch_arm_v5_system_emulato.Hw.Alu.{alu}
use ch_arm_v5_system_emulato.Hw.Regfile.{Proc, regfile_read, regfile_write}
use ch_arm_v5_system_emulato.Hw.Regfile.Laws.{regfile_read-regfile_write}
use ch_arm_v5_system_emulato.Mem.Access.{MemSystem}
use ch_arm_v5_system_emulato.Pipe.Regs.{XInstr, MInstr, WCtlSigs}
use ch_arm_v5_system_emulato.Pipe.Decode.{decode_instr}
use ch_arm_v5_system_emulato.Pipe.Decode.Control.{generate_dxmw_control}
use ch_arm_v5_system_emulato.Pipe.Decode.Registers.{RegNums, extract_regs}
use ch_arm_v5_system_emulato.Pipe.Execute.{execute_instr}
use ch_arm_v5_system_emulato.Pipe.Forward.{Pending, forward_one, forward_reg}
use ch_arm_v5_system_emulato.Machine.{Guest}
use ch_arm_v5_system_emulato.Proc.{pending}
use ch_arm_v5_system_emulato.Arch.Flow.{
  IsWrite, Flows, commit, commit_m, commit_w, put, drained, settled, Sources,
}
use ch_arm_v5_system_emulato.Arch.Flow.Cycle.{executed, ran, forwarded, next}

-- A write and a read.
abbrev after : Bool → ℕ → ℕ → ℕ → ℕ → ℕ
after w_enable dst val s old = if w_enable && dst == s && not (dst == 0x1F) then val else old

read-commit :
    (w_sigs : WCtlSigs) (dst val : ℕ) (status : Stat) (proc : Proc) (s : ℕ)
    → IsWrite w_sigs.w_enable dst status
    → length proc.gpr ≡ 31
    → s ≤ 32
    → regfile_read (commit w_sigs dst val status proc) s
      ≡ after w_sigs.w_enable dst val s (regfile_read proc s)
read-commit w_sigs dst val status proc s (inl off) size hs = rw off (unfold regfile_write in refl)
read-commit w_sigs dst val status proc s (inr (lt, ok)) size hs =
    rw
      (
        ok,
        regfile_read-regfile_write proc dst s val (w_sigs.w_enable && true) size (omega arith) hs,
      )
      (ground arith)

pub length-commit :
    (w_sigs : WCtlSigs) (dst val : ℕ) (status : Stat) (proc : Proc)
    → length (commit w_sigs dst val status proc).gpr ≡ length proc.gpr
unfolding regfile_write
length-commit w_sigs dst val status proc = ground (arith, length-set proc.gpr dst val)

pub commit-put :
    (w_sigs : WCtlSigs) (dst val : ℕ) (status : Stat) (pc flags : ℕ) (proc : Proc)
    → commit w_sigs dst val status (put pc flags proc)
      ≡ put pc flags (commit w_sigs dst val status proc)
unfolding regfile_write
commit-put w_sigs dst val status pc flags proc = ground arith

read-put :
    (pc flags : ℕ) (proc : Proc) (s : ℕ) → regfile_read (put pc flags proc) s ≡ regfile_read proc s
unfolding regfile_read
read-put pc flags proc s = refl

-- Without loads, `forward_reg` takes the newest of the three writes.
forward_one-after :
    (p : Pending) (s val : ℕ)
    → p.m_wval_sel ≡ false
    → p.w_wval_sel ≡ false
    → forward_one p s val
      ≡ after p.x_w_enable p.x_dst p.x_val_ex s
          (after p.m_w_enable p.m_dst p.m_val_ex s (after p.w_w_enable p.w_dst p.w_val_ex s val))
unfolding forward_one
forward_one-after p s val hm hw = rw (hm, hw) refl

-- The operands.
module _ (regs : RegNums) (g : Guest) (pc x : ℕ) (mem : MemSystem) (flows : Flows g) where
  read-drained :
      (e : MInstr) (v flags s : ℕ)
      → IsWrite e.w_sigs.w_enable e.dst e.status
      → s ≤ 32
      → regfile_read (put v flags (commit_m e (commit_m g.m.out (commit_w g.w.out g.proc)))) s
        ≡ after e.w_sigs.w_enable e.dst e.val_ex s (
            after g.m.out.w_sigs.w_enable g.m.out.dst g.m.out.val_ex s
              (after g.w.out.w_sigs.w_enable g.w.out.dst g.w.out.val_ex s (regfile_read g.proc s)))
  read-drained e v flags s he hs =
      let m = g.m.out in
      let w = g.w.out in
      let p1 = commit_w w g.proc in
      let p2 = commit_m m p1 in
      let size1 : length p1.gpr ≡ 31 =
        length-commit w.w_sigs w.dst w.val_ex w.status g.proc ∙ flows.size in
      let size2 : length p2.gpr ≡ 31 = length-commit m.w_sigs m.dst m.val_ex m.status p1 ∙ size1 in
      read-put v flags (commit_m e p2) s
      ∙ read-commit e.w_sigs e.dst e.val_ex e.status p2 s he size2 hs
      ∙ ap (after e.w_sigs.w_enable e.dst e.val_ex s) (
          read-commit m.w_sigs m.dst m.val_ex m.status p1 s flows.m_plain.write size1 hs
          ∙ ap (after m.w_sigs.w_enable m.dst m.val_ex s) (
              read-commit w.w_sigs w.dst w.val_ex w.status g.proc s flows.w_plain.write flows.size
                hs))

  forwarded_operand :
      (v s : ℕ)
      → s ≤ 32
      → forward_one (pending (ran regs g pc x mem)) s (regfile_read g.proc s)
        ≡ regfile_read (drained v g) s
  unfolding execute_instr
  forwarded_operand v s hs =
      forward_one-after (pending (ran regs g pc x mem)) s (regfile_read g.proc s)
        flows.m_plain.wval_sel flows.w_plain.wval_sel
      ∙ sym (read-drained (executed g).out v (executed g).x_nzcvval s flows.x_plain.write hs)

  -- An instruction other than a bubble has its operands as if it were decoded afterwards.
  forwarded-decode_instr :
      (v : ℕ)
      → (g.d.out.op is op_nop) ≡ false
      → g.d.out.status ≡ stat_aok
      → Sources regs g.d.out
      → forwarded regs g pc x mem ≡ (decode_instr regs (drained v g) g.d.out).out
  unfolding decode_instr forward_reg
  forwarded-decode_instr v op ok (h1, h2) =
      let nums = extract_regs g.d.out.insnbits g.d.out.op g.d.out.format regs in
      rw (op, ok, if◌then◌else◌, forwarded_operand v nums.src1 h1, forwarded_operand v nums.src2 h2)
        refl

-- An instruction that writes nothing and sets no flags.
module _ (x : XInstr) (out : MInstr) (flags : ℕ) (rca : List FullAdder)
    (no_write : x.w_sigs.w_enable ≡ false) (no_flags : x.x_sigs.set_flags ≡ false) where
  idle-flags : (execute_instr x out flags rca).x_nzcvval ≡ flags
  unfolding execute_instr alu
  idle-flags = rw no_flags refl

  idle-commit : (proc : Proc) → commit_m (execute_instr x out flags rca).out proc ≡ proc
  unfolding execute_instr regfile_write
  idle-commit proc = rw no_write refl

nop-control :
    (op : Opcode)
    → (op is op_nop) ≡ true
    → let controls = generate_dxmw_control op in
      (controls.w_sigs.w_enable ≡ false) × (controls.x_sigs.set_flags ≡ false)
unfolding generate_dxmw_control
nop-control op h = (ground arith, ground arith)

-- The writes that are under way go to the same registers, whatever the flags and the PC.
put-drained :
    (g : Guest) (e : MInstr) (v flags pc' flags' : ℕ) (status : Stat)
    → put v flags (
        commit_m e (
          commit_m g.m.out
            (record (commit_w g.w.out (record (g.proc) { nzcv = flags'; status = status })) {
              pc = pc';
            })))
      ≡ put v flags (commit_m e (commit_m g.m.out (commit_w g.w.out g.proc)))
unfolding regfile_write
put-drained g e v flags pc' flags' status = ground arith

put-commit :
    (e : MInstr) (v flags : ℕ) (p q : Proc)
    → put v flags p ≡ put v flags q
    → put v flags (commit_m e p) ≡ put v flags (commit_m e q)
put-commit e v flags p q same =
    sym (commit-put e.w_sigs e.dst e.val_ex e.status v flags p)
    ∙ ap (commit_m e) same
    ∙ commit-put e.w_sigs e.dst e.val_ex e.status v flags q

module _ (regs : RegNums) (g : Guest) (pc x : ℕ) (mem : MemSystem) (flows : Flows g) (v : ℕ) where
  abbrev e : MInstr
  e = (executed g).out

  abbrev flags : ℕ
  flags = (executed g).x_nzcvval

  abbrev run : XInstr → Proc → Proc
  run y proc =
      let r = execute_instr y e flags (executed g).rca in put v r.x_nzcvval (commit_m r.out proc)

  abbrev behind : Proc
  behind = commit_m e (commit_m g.m.out (next regs g pc x mem).proc)

  abbrev decoded : XInstr
  decoded = (decode_instr regs (drained v g) g.d.out).out

  same_writes : (n : ℕ) → put v n behind ≡ put v n (drained v g)
  same_writes n =
      put-drained g e v n (add64 pc 4) (if (executed g).x_set_flags then flags else g.proc.nzcv)
        g.w.out.status

  idle_run :
      (y : XInstr) (proc : Proc)
      → y.w_sigs.w_enable ≡ false
      → y.x_sigs.set_flags ≡ false
      → run y proc ≡ put v flags proc
  idle_run y proc no_write no_flags =
      let r = execute_instr y e flags (executed g).rca in
      ap (λ n. put v n (commit_m r.out proc))
        (idle-flags y e flags (executed g).rca no_write no_flags)
      ∙ ap (put v flags) (idle-commit y e flags (executed g).rca no_write no_flags proc)

  runs_same : run (forwarded regs g pc x mem) behind ≡ run decoded (drained v g)
  unfolding decode_instr
  runs_same = elim (Bool-cases (g.d.out.op is op_nop)) [
    | inl nop ↦
        let (no_write, no_flags) = nop-control g.d.out.op nop in
        idle_run (forwarded regs g pc x mem) behind no_write no_flags
        ∙ same_writes flags
        ∙ sym (idle_run decoded (drained v g) no_write no_flags)
    | inr op ↦ elim (flows.d_reads) [
      | inl nop ↦ cc
      | inr (ok, sources) ↦
          let r = execute_instr decoded e flags (executed g).rca in
          ap (λ y. run y behind)
            (forwarded-decode_instr regs g pc x mem flows v op ok (sources regs))
          ∙ put-commit r.out v r.x_nzcvval behind (drained v g) (same_writes r.x_nzcvval)
    ]
  ]

  pub drained-next : drained v (next regs g pc x mem) ≡ settled regs v g
  drained-next = runs_same

-- ===== src/Arch/Program/Run.antt =====
-- The loop of `runElf` over a program of data-processing instructions.
use ch_arm_v5_system_emulato.Base.{
  ℕ, suc, ◌+◌, ◌*◌, ◌<◌, true, false, List, [], ◌∷◌, length, some, ◌>>=◌, ◌==◌, u32, add64, ◌≡◌,
  refl, ap, sym, ◌∙◌, arith,
}
use mathlib.Core.Path.{subst}
use ch_arm_v5_system_emulato.Pipe.Decode.Registers.{RegNums}
use ch_arm_v5_system_emulato.Pipe.Hazard.{is_in_flight}
use ch_arm_v5_system_emulato.Mem.Bytes.{Segments}
use ch_arm_v5_system_emulato.Mem.Bytes.Flat.{byte_at}
use ch_arm_v5_system_emulato.Mem.Bytes.LittleEndian.{le_value, le_value-ext, IsMemory}
use ch_arm_v5_system_emulato.Mem.Access.{MemSystem}
use ch_arm_v5_system_emulato.Machine.{Guest}
use ch_arm_v5_system_emulato.Hw.Regfile.{Proc}
use ch_arm_v5_system_emulato.Proc.{cycle, in_order, run_loop, goes_on}
use ch_arm_v5_system_emulato.Arch.{Instr, encode, IsInstr, exec_wired, IsProc}
use ch_arm_v5_system_emulato.Arch.Bounds.{exec_wired-IsProc}
use ch_arm_v5_system_emulato.Arch.Flow.{Flows, live_status, arch}
use ch_arm_v5_system_emulato.Arch.Flow.Enter.{Avoids31, encode-lt}
use ch_arm_v5_system_emulato.Arch.Flow.Correct.{cycle-exec}
use ch_arm_v5_system_emulato.Arch.Program.{exec_all, Holds, AreInstrs, InText, imem-text}

-- The machine before and after some rounds: a program of `size` words is still to be fetched.
pub record Ready (g : Guest) (size : ℕ) : Type 0 where
  pub flows : Flows g
  pub memory : IsMemory g.mem.ptable
  pub quiet : is_in_flight g.mem.dmem_status ≡ false
  pub text : InText g.mem.segments g.f.out.pred_pc size

goes_on-live :
    (cycle_max : ℕ) (g : Guest)
    → live_status g.proc.status ≡ true
    → g.num_instr < cycle_max
    → goes_on cycle_max g ≡ true
goes_on-live cycle_max g live h = ground arith

run_loop-step :
    (fuel cycle_max : ℕ) (regs : ℕ → RegNums) (g g' : Guest)
    → cycle (regs g.num_instr) in_order g ≡ some g'
    → goes_on cycle_max g' ≡ true
    → run_loop (suc fuel) cycle_max regs g ≡ run_loop fuel cycle_max regs g'
unfolding run_loop
run_loop-step fuel cycle_max regs g g' runs on = rw (runs, ◌>>=◌, on) refl

Holds-ext :
    (f g : ℕ → ℕ) (pc : ℕ) (program : List Instr)
    → ((a : ℕ) → g a ≡ f a)
    → Holds f pc program
    → Holds g pc program
Holds-ext f g pc [] same h = tt
Holds-ext f g pc (i ∷ program) same (h, rest) =
    (le_value-ext g f pc 4 same ∙ h, Holds-ext f g (pc + 4) program same rest)

rest_text :
    (s s' : Segments) (pc pc' size : ℕ)
    → s' ≡ s
    → pc' ≡ pc + 4
    → InText s pc (suc size)
    → InText s' pc' size
rest_text s s' pc pc' size es ep text =
    rw (es, ep)
      (record {
        positive = omega arith;
        aligned = omega (arith, text.aligned);
        above = omega (arith, text.above);
        below = omega (arith, text.below);
        ends = text.ends;
      })

-- One round.
record Stepped (regs : ℕ → RegNums) (v size : ℕ) (i : Instr) (g : Guest) : Type 0 where
  pub g' : Guest
  pub runs : cycle (regs g.num_instr) in_order g ≡ some g'
  pub live : live_status g'.proc.status ≡ true
  pub ready : Ready g' size
  pub pc : g'.f.out.pred_pc ≡ g.f.out.pred_pc + 4
  pub rounds : g'.num_instr ≡ suc g.num_instr
  pub bytes : (a : ℕ) → byte_at g'.mem.ptable a ≡ byte_at g.mem.ptable a
  pub result : arch (regs g'.num_instr) v g' ≡ exec_wired i (arch (regs g.num_instr) v g)

abbrev After : (ℕ → RegNums) → ℕ → Instr → Guest → MemSystem → Type 0
After regs v i g mem =
    (g' : Guest) × (cycle (regs g.num_instr) in_order g ≡ some g')
    × Flows g'
    × (g'.f.out.pred_pc ≡ add64 g.f.out.pred_pc 4)
    × (g'.mem ≡ mem)
    × (g'.num_instr ≡ suc g.num_instr)
    × (live_status g'.proc.status ≡ true)
    × (arch (regs (suc g.num_instr)) v g' ≡ exec_wired i (arch (regs g.num_instr) v g))

stepped :
    (regs : ℕ → RegNums) (v size : ℕ) (i : Instr) (g : Guest) (mem : MemSystem)
    → Ready g (suc size)
    → mem.segments ≡ g.mem.segments
    → mem.dmem_status ≡ g.mem.dmem_status
    → IsMemory mem.ptable
    → ((a : ℕ) → byte_at mem.ptable a ≡ byte_at g.mem.ptable a)
    → After regs v i g mem
    → Stepped regs v size i g
stepped regs v size i g mem ready segments status memory bytes
      (g', runs, flows, pc', same, rounds, live, result) =
    let pc = g.f.out.pred_pc in
    let four : g'.f.out.pred_pc ≡ pc + 4 =
      pc' ∙ (let b = ready.text.below in let e = ready.text.ends in omega arith) in
    record {
      g' = g';
      runs = runs;
      live = live;
      ready = record {
        flows = flows;
        memory = subst (λ m. IsMemory m.ptable) (sym same) memory;
        quiet = ap (λ m. is_in_flight m.dmem_status) same ∙ ap is_in_flight status ∙ ready.quiet;
        text =
            rest_text g.mem.segments g'.mem.segments pc g'.f.out.pred_pc size
              (ap (λ m. m.segments) same ∙ segments) four ready.text;
      };
      pc = four;
      rounds = rounds;
      bytes = λ a. ap (λ m. byte_at m.ptable a) same ∙ bytes a;
      result = ap (λ n. arch (regs n) v g') rounds ∙ result;
    }

round-exec :
    (regs : ℕ → RegNums) (v size : ℕ) (i : Instr) (g : Guest)
    → Ready g (suc size)
    → le_value (byte_at g.mem.ptable) g.f.out.pred_pc 4 ≡ encode i
    → IsInstr i
    → Avoids31 i
    → IsProc (arch (regs g.num_instr) v g).0
    → Stepped regs v size i g
round-exec regs v size i g ready word valid avoids ok =
    let pc = g.f.out.pred_pc in
    let (mem', read, segments, status, memory, bytes) =
      imem-text pc size g.mem ready.text ready.memory in
    let number : u32 (le_value (byte_at g.mem.ptable) pc 4) ≡ encode i =
      ap u32 word ∙ (let lt = encode-lt i valid in omega arith) in
    let here : (pc == 0) ≡ false = (let p = ready.text.positive in ground arith) in
    stepped regs v size i g mem' ready segments status memory bytes (
      cycle-exec (regs g.num_instr) (regs (suc g.num_instr)) g mem' i ready.flows valid avoids here
        (read ∙ ap (λ x. some (x, false, mem')) number) (ap is_in_flight status ∙ ready.quiet) v ok)

-- What a run does.
pub record Ran (regs : ℕ → RegNums) (cycle_max fuel v : ℕ) (g : Guest) (program : List Instr)
    : Type 0 where
  pub g' : Guest
  pub runs : run_loop (length program + fuel) cycle_max regs g ≡ run_loop fuel cycle_max regs g'
  pub flows : Flows g'
  pub pc : g'.f.out.pred_pc ≡ g.f.out.pred_pc + 4 * length program
  pub rounds : g'.num_instr ≡ g.num_instr + length program
  pub bytes : (a : ℕ) → byte_at g'.mem.ptable a ≡ byte_at g.mem.ptable a
  pub result : arch (regs g'.num_instr) v g' ≡ exec_all program (arch (regs g.num_instr) v g)

module _ (regs : ℕ → RegNums) (cycle_max fuel v : ℕ) where
  pub run_loop-exec_all :
      (program : List Instr) (g : Guest)
      → Ready g (length program)
      → Holds (byte_at g.mem.ptable) g.f.out.pred_pc program
      → AreInstrs program
      → IsProc (arch (regs g.num_instr) v g).0
      → g.num_instr + length program < cycle_max
      → Ran regs cycle_max fuel v g program
  run_loop-exec_all [] g ready holds valid ok below = record {
    g' = g;
    runs = ap (λ n. run_loop n cycle_max regs g) (omega arith);
    flows = ready.flows;
    pc = omega arith;
    rounds = omega arith;
    bytes = λ a. refl;
    result = refl;
  }
  run_loop-exec_all (i ∷ program) g ready (word, rest) (valid, avoids, others) ok below =
      let s = round-exec regs v (length program) i g ready word valid avoids ok in
      let rest' =
        subst (λ x. Holds (byte_at s.g'.mem.ptable) x program) (sym s.pc)
          (Holds-ext (byte_at g.mem.ptable) (byte_at s.g'.mem.ptable) (g.f.out.pred_pc + 4) program
            s.bytes rest) in
      let ok' =
        subst (λ (t : Proc × ℕ). IsProc t.0) (sym s.result)
          (exec_wired-IsProc i (arch (regs g.num_instr) v g) valid ok) in
      let on = goes_on-live cycle_max s.g' s.live (let e = s.rounds in omega arith) in
      let r =
        run_loop-exec_all program s.g' s.ready rest' others ok' (let e = s.rounds in omega arith) in
      record {
        g' = r.g';
        runs =
            ap (λ n. run_loop n cycle_max regs g) (omega arith)
            ∙ run_loop-step (length program + fuel) cycle_max regs g s.g' s.runs on
            ∙ r.runs;
        flows = r.flows;
        pc = omega (arith, r.pc, s.pc);
        rounds = omega (arith, r.rounds, s.rounds);
        bytes = λ a. r.bytes a ∙ s.bytes a;
        result = r.result ∙ ap (exec_all program) s.result;
      }

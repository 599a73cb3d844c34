-- ===== src/Proc/Loop.antt =====
-- The loop of `runElf` in src/base/proc.c ends.
use mathlib.Core.Option.{some-injective}
use ch_arm_v5_system_emulato.Base.{
  ℕ, zero, suc, ◌+◌, ◌-◌, ◌≤◌, ◌<◌, max, true, false, Option, none, some, ◌>>=◌, Bool-cases,
  Option-cases, List, [], ◌∷◌, ◌≡◌, inl, inr, refl, sym, ap, ◌∙◌, arith,
}
use ch_arm_v5_system_emulato.Isa.{ProcStage, s_fetch}
use ch_arm_v5_system_emulato.Pipe.Decode.Registers.{RegNums}
use ch_arm_v5_system_emulato.Machine.{Guest}
use ch_arm_v5_system_emulato.Proc.{
  run_stage, run_stages, in_order, forward_step, hazard_step, clocked_step, latch_step, cycle,
  goes_on, run_loop, start_elf, run_elf,
}

num_instr-run_stage :
    (regs : RegNums) (stage : ProcStage) (g g' : Guest)
    → run_stage regs stage g ≡ some g'
    → g'.num_instr ≡ g.num_instr
unfolding run_stage
num_instr-run_stage regs s_fetch g g' h = ground arith
num_instr-run_stage regs _ g g' h = ground arith

num_instr-run_stages :
    (regs : RegNums) (stages : List ProcStage) (g g' : Guest)
    → run_stages regs stages g ≡ some g'
    → g'.num_instr ≡ g.num_instr
unfolding run_stages
num_instr-run_stages regs [] g g' h = ground arith
num_instr-run_stages regs (stage ∷ stages) g g' h = elim (Option-cases (run_stage regs stage g)) [
  | inl e ↦ cc (rw e at h)
  | inr (g1, e) ↦
      num_instr-run_stages regs stages g1 g' (rw e at h) ∙ num_instr-run_stage regs stage g g1 e
]

num_instr-end :
    (g : Guest)
    → (latch_step (clocked_step (hazard_step (forward_step g)))).num_instr ≡ suc g.num_instr
unfolding latch_step clocked_step hazard_step forward_step
num_instr-end g = refl

num_instr-some :
    (g g' : Guest)
    → some (latch_step (clocked_step (hazard_step (forward_step g)))) ≡ some g'
    → g'.num_instr ≡ suc g.num_instr
num_instr-some g g' h =
    let last : latch_step (clocked_step (hazard_step (forward_step g))) ≡ g' =
      some-injective _ _ h in
    ap (λ (g2 : Guest). g2.num_instr) (sym last) ∙ num_instr-end g

-- A cycle counts one.
pub num_instr-cycle :
    (regs : RegNums) (order : List ProcStage) (g g' : Guest)
    → cycle regs order g ≡ some g'
    → g'.num_instr ≡ suc g.num_instr
unfolding cycle
num_instr-cycle regs order g g' h = elim (Option-cases (run_stages regs order g)) [
  | inl e ↦ cc (rw e at h)
  | inr (g1, e) ↦ num_instr-some g1 g' (rw e at h) ∙ ap suc (num_instr-run_stages regs order g g1 e)
]

-- The states after rounds that go on.
pub data Rounds (regs : ℕ → RegNums) (cycle_max : ℕ) (start : Guest) : Guest → Type 0 where
  first : Rounds regs cycle_max start start
  next :
      {g g' : Guest}
      → Rounds regs cycle_max start g
      → cycle (regs g.num_instr) in_order g ≡ some g'
      → goes_on cycle_max g' ≡ true
      → Rounds regs cycle_max start g'

-- How the loop ends: with a state at which its condition is false, or inside a stage of a round.
pub data Ends (regs : ℕ → RegNums) (cycle_max : ℕ) (start : Guest) : Option Guest → Type 0 where
  returned :
      {g g' : Guest}
      → Rounds regs cycle_max start g
      → cycle (regs g.num_instr) in_order g ≡ some g'
      → goes_on cycle_max g' ≡ false
      → g'.num_instr ≤ max 1 cycle_max
      → Ends regs cycle_max start (some g')
  stopped :
      {g : Guest}
      → Rounds regs cycle_max start g
      → cycle (regs g.num_instr) in_order g ≡ none
      → Ends regs cycle_max start none

goes_on-lt : (cycle_max : ℕ) (g : Guest) → goes_on cycle_max g ≡ true → g.num_instr < cycle_max
goes_on-lt cycle_max g h = ground arith

run_loop-Ends :
    (fuel cycle_max : ℕ) (regs : ℕ → RegNums) (start g : Guest)
    → Rounds regs cycle_max start g
    → g.num_instr ≤ cycle_max - 1
    → cycle_max < fuel + g.num_instr
    → Ends regs cycle_max start (run_loop fuel cycle_max regs g)
unfolding run_loop
run_loop-Ends zero cycle_max regs start g r le lt = ground arith
run_loop-Ends (suc fuel) cycle_max regs start g r le lt =
    elim (Option-cases (cycle (regs g.num_instr) in_order g)) [
      | inl e ↦ rw e (stopped r e)
      | inr (g', e) ↦ rw e (elim (Bool-cases (goes_on cycle_max g')) [
        | inl t ↦
            rw (◌>>=◌, t)
              (run_loop-Ends fuel cycle_max regs start g' (next r e t)
                (let lt' = goes_on-lt cycle_max g' t in omega arith)
                (let n = num_instr-cycle (regs g.num_instr) in_order g g' e in omega arith))
        | inr f ↦
            rw (◌>>=◌, f)
              (returned r e f
                (let n = num_instr-cycle (regs g.num_instr) in_order g g' e in ground arith))
      ])
    ]

-- The loop of runElf ends within max 1 cycle_max rounds: it returns a state reached by rounds of
-- the code at which the loop's condition is false, or a round ended the run.
pub run_elf-Ends :
    (entry cycle_max : ℕ) (regs : ℕ → RegNums) (g : Guest)
    → Ends regs cycle_max (start_elf entry g) (run_elf entry cycle_max regs g)
unfolding run_elf start_elf
run_elf-Ends entry cycle_max regs g =
    run_loop-Ends (suc cycle_max) cycle_max regs (start_elf entry g) (start_elf entry g) first
      (ground arith) (ground arith)

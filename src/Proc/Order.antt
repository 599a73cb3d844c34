-- ===== src/Proc/Order.antt =====
-- The order of the stages in a cycle (src/base/proc.c, src/base/stage_ordering.c): only the fetch
-- and the memory stage touch the same state.
pub mod Table
pub mod All
use mathlib.Core.Path.{fun_ext}
use ch_arm_v5_system_emulato.Base.{
  Bool, true, false, ◌&&◌, List, ◌∷◌, Option, none, some, ◌>>=◌, Option-cases, ◌≡◌, inl, inr, refl,
  sym, ap, ◌∙◌, arith,
}
use ch_arm_v5_system_emulato.Isa.{ProcStage, s_fetch, s_memory, s_update_pc, s_error}
use ch_arm_v5_system_emulato.Pipe.Decode.Registers.{RegNums}
use ch_arm_v5_system_emulato.Pipe.Fetch.{fetch_instr}
use ch_arm_v5_system_emulato.Pipe.Memory.{memory_instr}
use ch_arm_v5_system_emulato.Machine.{Guest}
use ch_arm_v5_system_emulato.Proc.{
  run_stage, run_stages, fetch_stage, memory_stage, decode_stage, execute_stage, wback_stage, cycle,
}

-- Whether a stage uses the memory.
abbrev pub uses_mem : ProcStage → Bool
uses_mem s_fetch = true
uses_mem s_memory = true
uses_mem _ = false

abbrev fails : Guest → Option Guest
fails g = none

none_after : (r : Option Guest) → (r >>= fails) ≡ none
none_after none = refl
none_after (some g) = refl

-- The fetch stage, and a stage that does not use the memory.
swap_fetch :
    (regs : RegNums) (b : ProcStage) (g : Guest)
    → uses_mem b ≡ false
    → (fetch_stage g >>= run_stage regs b) ≡ (run_stage regs b g >>= fetch_stage)
unfolding run_stage fetch_stage decode_stage execute_stage wback_stage
swap_fetch regs s_fetch g h = absurd cc
swap_fetch regs s_memory g h = absurd cc
swap_fetch regs s_update_pc g h = none_after (fetch_stage g)
swap_fetch regs s_error g h = none_after (fetch_stage g)
swap_fetch regs _ g h =
    elim (Option-cases
      (fetch_instr g.f.out.pred_pc g.f.inp.status g.x.out g.m.out g.d.inp g.f_pc g.mem)) [
        | inl e ↦ rw (◌>>=◌, e) refl
        | inr (r, e) ↦ rw (◌>>=◌, e) refl
      ]

-- The memory stage, and a stage that does not use the memory.
swap_memory :
    (regs : RegNums) (b : ProcStage) (g : Guest)
    → uses_mem b ≡ false
    → (memory_stage g >>= run_stage regs b) ≡ (run_stage regs b g >>= memory_stage)
unfolding run_stage memory_stage decode_stage execute_stage wback_stage
swap_memory regs s_fetch g h = absurd cc
swap_memory regs s_memory g h = absurd cc
swap_memory regs s_update_pc g h = none_after (memory_stage g)
swap_memory regs s_error g h = none_after (memory_stage g)
swap_memory regs _ g h = elim (Option-cases (memory_instr g.m.out g.w.inp g.m_pc g.mem)) [
  | inl e ↦ rw (◌>>=◌, e) refl
  | inr (r, e) ↦ rw (◌>>=◌, e) refl
]

swap_own :
    (regs : RegNums) (a b : ProcStage) (g : Guest)
    → uses_mem a ≡ false
    → uses_mem b ≡ false
    → (run_stage regs a g >>= run_stage regs b) ≡ (run_stage regs b g >>= run_stage regs a)
unfolding run_stage decode_stage execute_stage wback_stage
swap_own regs s_fetch b g ha hb = absurd cc
swap_own regs s_memory b g ha hb = absurd cc
swap_own regs a s_fetch g ha hb = absurd cc
swap_own regs a s_memory g ha hb = absurd cc
swap_own regs _ _ g ha hb = refl

swap_stages :
    (regs : RegNums) (a b : ProcStage) (g : Guest)
    → (uses_mem a && uses_mem b) ≡ false
    → (run_stage regs a g >>= run_stage regs b) ≡ (run_stage regs b g >>= run_stage regs a)
unfolding run_stage
swap_stages regs s_fetch b g h = swap_fetch regs b g h
swap_stages regs s_memory b g h = swap_memory regs b g h
swap_stages regs a s_fetch g h = sym (swap_fetch regs a g (ground arith))
swap_stages regs a s_memory g h = sym (swap_memory regs a g (ground arith))
swap_stages regs a b g h = swap_own regs a b g (ground arith) (ground arith)

-- Orders that differ by exchanges of neighbours, never of two stages that both use the memory.
pub data Reorders : List ProcStage → List ProcStage → Type 0 where
  same : {s : List ProcStage} → Reorders s s
  swap :
      {a b : ProcStage} {rest : List ProcStage}
      → (uses_mem a && uses_mem b) ≡ false
      → Reorders (a ∷ b ∷ rest) (b ∷ a ∷ rest)
  keep : {a : ProcStage} {s t : List ProcStage} → Reorders s t → Reorders (a ∷ s) (a ∷ t)
  chain : {s t u : List ProcStage} → Reorders s t → Reorders t u → Reorders s u

bind_assoc :
    (r : Option Guest) (f k : Guest → Option Guest) → ((r >>= f) >>= k) ≡ (r >>= (λ g. f g >>= k))
bind_assoc none f k = refl
bind_assoc (some g) f k = refl

run_stages-Reorders :
    (regs : RegNums) (s t : List ProcStage) (g : Guest)
    → Reorders s t
    → run_stages regs s g ≡ run_stages regs t g
unfolding run_stages
run_stages-Reorders regs s t g same = refl
run_stages-Reorders regs s t g (swap {a = a} {b = b} {rest = rest} ok) =
    sym (bind_assoc (run_stage regs a g) (run_stage regs b) (run_stages regs rest))
    ∙ ap (λ r. r >>= run_stages regs rest) (swap_stages regs a b g ok)
    ∙ bind_assoc (run_stage regs b g) (run_stage regs a) (run_stages regs rest)
run_stages-Reorders regs s t g (keep {a = a} {s = s'} {t = t'} r) =
    ap (λ k. run_stage regs a g >>= k) (fun_ext (λ g'. run_stages-Reorders regs s' t' g' r))
run_stages-Reorders regs s t g (chain {s = s'} {t = m} {u = t'} r r') =
    run_stages-Reorders regs s' m g r ∙ run_stages-Reorders regs m t' g r'

-- A cycle does the same in two orders of the stages that differ by exchanges of neighbours, as
-- long as no exchange is between two stages that use the memory.
pub cycle-Reorders :
    (regs : RegNums) (s t : List ProcStage) (g : Guest)
    → Reorders s t
    → cycle regs s g ≡ cycle regs t g
unfolding cycle
cycle-Reorders regs s t g r = rw (run_stages-Reorders regs s t g r) refl

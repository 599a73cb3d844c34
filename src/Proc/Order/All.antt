-- ===== src/Proc/Order/All.antt =====
-- The orders of src/base/stage_ordering.c against the order of the plain build.
use ch_arm_v5_system_emulato.Base.{
  ℕ, zero, suc, ◌<◌, Bool, true, false, ◌&&◌, ◌||◌, not, List, [], ◌∷◌, length, get_or, ◌==◌,
  if◌then◌else◌, Bool-cases, ◌≡◌, inl, inr, refl, arith,
}
use ch_arm_v5_system_emulato.Isa.{
  ProcStage, s_fetch, s_decode, s_execute, s_memory, s_wback, s_update_pc, s_error,
}
use ch_arm_v5_system_emulato.Pipe.Decode.Registers.{RegNums}
use ch_arm_v5_system_emulato.Machine.{Guest}
use ch_arm_v5_system_emulato.Proc.{cycle, in_order}
use ch_arm_v5_system_emulato.Proc.Order.{
  uses_mem, Reorders, same, swap, keep, chain, cycle-Reorders,
}
use ch_arm_v5_system_emulato.Proc.Order.Table.{orderings}

abbrev stage_value : ProcStage → ℕ
stage_value s_fetch = 0
stage_value s_decode = 1
stage_value s_execute = 2
stage_value s_memory = 3
stage_value s_wback = 4
stage_value s_update_pc = 5
stage_value s_error = 6

-- `==` on stages.
abbrev is_stage : ProcStage → ProcStage → Bool
is_stage a b = stage_value a == stage_value b

is_stage-eq : (a b : ProcStage) → is_stage a b ≡ true → a ≡ b
is_stage-eq s_fetch s_fetch h = refl
is_stage-eq s_decode s_decode h = refl
is_stage-eq s_execute s_execute h = refl
is_stage-eq s_memory s_memory h = refl
is_stage-eq s_wback s_wback h = refl
is_stage-eq s_update_pc s_update_pc h = refl
is_stage-eq s_error s_error h = refl
is_stage-eq _ _ h = absurd cc

-- The order without the first occurrence of a stage.
remove : ProcStage → List ProcStage → List ProcStage
remove a [] = []
remove a (b ∷ s) = if is_stage a b then s else b ∷ remove a s

-- Whether a stage can be brought to the front by allowed exchanges.
can_lead : ProcStage → List ProcStage → Bool
can_lead a [] = false
can_lead a (b ∷ s) = if is_stage a b then true else not (uses_mem b && uses_mem a) && can_lead a s

can_lead-Reorders :
    (a : ProcStage) (s : List ProcStage) → can_lead a s ≡ true → Reorders s (a ∷ remove a s)
unfolding can_lead remove
can_lead-Reorders a [] h = absurd cc
can_lead-Reorders a (b ∷ s) h = elim (Bool-cases (is_stage a b)) [
  | inl e ↦ rw (if◌then◌else◌, e, is_stage-eq a b e) same
  | inr e ↦
      rw (if◌then◌else◌, e)
        (chain (keep (can_lead-Reorders a s (ground arith))) (swap (ground arith)))
]

-- Whether one order becomes another by allowed exchanges.
reaches : List ProcStage → List ProcStage → Bool
unfolding can_lead remove
reaches [] [] = true
reaches (b ∷ s) [] = false
reaches s (a ∷ t) = can_lead a s && reaches (remove a s) t

reaches-Reorders : (s t : List ProcStage) → reaches s t ≡ true → Reorders s t
unfolding reaches
reaches-Reorders [] [] h = same
reaches-Reorders (b ∷ s) [] h = absurd cc
reaches-Reorders s (a ∷ t) h =
    chain (can_lead-Reorders a s (ground arith))
      (keep (reaches-Reorders (remove a s) t (ground arith)))

-- Whether the fetch stage stands before the memory stage.
unfoldable pub fetch_first : List ProcStage → Bool
fetch_first [] = false
fetch_first (s_fetch ∷ s) = true
fetch_first (s_memory ∷ s) = false
fetch_first (_ ∷ s) = fetch_first s

all_reach : List (List ProcStage) → Bool
unfolding fetch_first reaches
all_reach [] = true
all_reach (s ∷ orders) = (not (fetch_first s) || reaches s in_order) && all_reach orders

all_reach-reaches :
    (orders : List (List ProcStage)) (i : ℕ)
    → all_reach orders ≡ true
    → i < length orders
    → fetch_first (get_or orders i []) ≡ true
    → reaches (get_or orders i []) in_order ≡ true
unfolding all_reach
all_reach-reaches [] i all below first = absurd (omega arith)
all_reach-reaches (s ∷ orders) zero all below first = ground arith
all_reach-reaches (s ∷ orders) (suc i) all below first =
    all_reach-reaches orders i (ground arith) (omega arith) first

orderings_reach : all_reach orderings ≡ true
unfolding all_reach orderings
orderings_reach = refl

-- In each of the 120 orders of the table in which the fetch stage stands before the memory stage,
-- a cycle does the same as in the order of the plain build.
pub cycle-orderings :
    (regs : RegNums) (i : ℕ) (g : Guest)
    → i < 120
    → fetch_first (get_or orderings i []) ≡ true
    → cycle regs (get_or orderings i []) g ≡ cycle regs in_order g
unfolding orderings
cycle-orderings regs i g below first = cycle-Reorders regs (get_or orderings i []) in_order g (
    reaches-Reorders (get_or orderings i []) in_order
      (all_reach-reaches orderings i orderings_reach below first))

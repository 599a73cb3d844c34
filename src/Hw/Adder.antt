-- ===== src/Hw/Adder.antt =====
-- The ripple-carry adder: `rca`, `init_rca` and `ripple_carry_add` of src/base/hw_elts.c.
pub mod Sum
use ch_arm_v5_system_emulato.Base.{ℕ, zero, suc, ◌+◌, bit_or, Bool, true, false, ◌&&◌, ◌||◌}
use ch_arm_v5_system_emulato.Base.{List, [], ◌∷◌, xor, to_ℕ, test_bit, replicate, ◌<<<◌}

-- `fa_t`.
pub record FullAdder : Type 0 where
  pub bit_a : Bool
  pub bit_b : Bool
  pub c_in : Bool
  pub c_out : Bool
  pub s : Bool

-- `rca` as it is at the start: a static array is all zeros.
abbrev pub rca_cells : List FullAdder
rca_cells =
    replicate 64 (record { bit_a = false; bit_b = false; c_in = false; c_out = false; s = false })

-- The loop of `init_rca` from index `i` on.
pub init_bits : ℕ → ℕ → ℕ → List FullAdder → List FullAdder
init_bits i val_a val_b [] = []
init_bits i val_a val_b (fa ∷ rca) =
    record fa { bit_a = test_bit val_a i; bit_b = test_bit val_b i }
    ∷ init_bits (suc i) val_a val_b rca

-- `rca[0].c_in = c_in`.
set_carry : Bool → List FullAdder → List FullAdder
set_carry c_in [] = []
set_carry c_in (fa ∷ rca) = record fa { c_in = c_in } ∷ rca

unfoldable pub init_rca : ℕ → ℕ → Bool → List FullAdder → List FullAdder
unfolding init_bits set_carry
init_rca val_a val_b c_in rca = init_bits 0 val_a val_b (set_carry c_in rca)

-- What one round computes in a cell whose `c_in` is set.
pub add_cell : FullAdder → FullAdder
add_cell fa = record fa {
  s = xor (xor fa.bit_a fa.bit_b) fa.c_in;
  c_out = fa.bit_a && fa.bit_b || fa.bit_a && fa.c_in || fa.bit_b && fa.c_in;
}

-- The loop of `ripple_carry_add` over `rca[i]`, `rca[i + 1]`, ..., given `rca[i - 1].c_out`.
pub ripple : Bool → List FullAdder → List FullAdder
ripple carry [] = []
ripple carry (fa ∷ rca) =
    let cell = add_cell (record fa { c_in = carry }) in cell ∷ ripple cell.c_out rca

pub ripple_cells : List FullAdder → List FullAdder
ripple_cells [] = []
ripple_cells (fa ∷ rca) = let cell = add_cell fa in cell ∷ ripple cell.c_out rca

-- The loop that puts the sum bits together, from index `i` on.
pub assemble : ℕ → ℕ → List FullAdder → ℕ
assemble i sum [] = sum
assemble i sum (fa ∷ rca) = assemble (suc i) (bit_or sum (to_ℕ fa.s <<< i)) rca

-- The array after the call, and `*sum`.
unfoldable pub ripple_carry_add : List FullAdder → List FullAdder × ℕ
unfolding ripple_cells ripple add_cell assemble
ripple_carry_add rca = let cells = ripple_cells rca in (cells, assemble 0 0 cells)

-- `rca[63]`, read for the flags; the array is never empty.
unfoldable pub last_cell : List FullAdder → FullAdder
last_cell [] = record { bit_a = false; bit_b = false; c_in = false; c_out = false; s = false }
last_cell (fa ∷ []) = fa
last_cell (fa ∷ (next ∷ rca)) = last_cell (next ∷ rca)

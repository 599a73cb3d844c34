-- ===== src/Hw/Adder/Sum.antt =====
-- The adder of src/base/hw_elts.c adds: its sum and its carry out are those of the numbers.
use native.Mathlib.Nat.{pow-succ', div-div-eq-div-mul, pow-suc, div-add-mod, add-zero}
use ch_arm_v5_system_emulato.Base.{
  ℕ, suc, ◌+◌, ◌*◌, ◌/◌, ◌%◌, ◌^◌, ◌<◌, Bool, true, false, List, [], ◌∷◌, ◌≡◌, refl, ap, ◌∙◌, arith,
  to_ℕ, length, test_bit,
}
use ch_arm_v5_system_emulato.Bits.{bit_or_high}
use ch_arm_v5_system_emulato.Hw.Adder.{FullAdder, init_bits, init_rca, add_cell, ripple}
use ch_arm_v5_system_emulato.Hw.Adder.{assemble, ripple_carry_add, last_cell}

-- The number that the sum bits stand for, lowest first.
abbrev sum_value : List FullAdder → ℕ
sum_value [] = 0
sum_value (fa ∷ rca) = to_ℕ fa.s + 2 * sum_value rca

-- The carry that leaves the last cell, `carry` if there is none.
abbrev carry_out : Bool → List FullAdder → Bool
carry_out carry [] = carry
carry_out carry (fa ∷ rca) = carry_out fa.c_out rca

sum_value-lt : (rca : List FullAdder) → sum_value rca < 2 ^ length rca
sum_value-lt [] = omega arith
sum_value-lt (fa ∷ rca) = ground (arith, sum_value-lt rca, pow-succ' 2 (length rca))

to_ℕ-le : (b : Bool) → to_ℕ b < 2
to_ℕ-le true = omega arith
to_ℕ-le false = omega arith

assemble-eq-sum_value :
    (i sum : ℕ) (rca : List FullAdder)
    → sum < 2 ^ i
    → assemble i sum rca ≡ sum + 2 ^ i * sum_value rca
unfolding assemble
assemble-eq-sum_value i sum [] h = omega arith
assemble-eq-sum_value i sum (fa ∷ rca) h = rw (bit_or_high i (to_ℕ fa.s) sum h) (
    omega (
      arith,
      assemble-eq-sum_value (suc i) (to_ℕ fa.s * 2 ^ i + sum) rca below,
      ap (λ (t : ℕ). t * sum_value rca) (pow-succ' 2 i),
    ))
  where
    below : to_ℕ fa.s * 2 ^ i + sum < 2 ^ suc i
    below = ground (arith, pow-succ' 2 i, to_ℕ-le fa.s)

-- One cell is a full adder.
add_cell-adds :
    (fa : FullAdder)
    → to_ℕ (add_cell fa).s + 2 * to_ℕ (add_cell fa).c_out
      ≡ to_ℕ fa.bit_a + to_ℕ fa.bit_b + to_ℕ fa.c_in
unfolding add_cell
add_cell-adds fa = ground arith

add_cell-c_in : (fa : FullAdder) → to_ℕ (add_cell fa).c_in ≡ to_ℕ fa.c_in
unfolding add_cell
add_cell-c_in fa = refl

to_ℕ-test_bit : (x i : ℕ) → to_ℕ (test_bit x i) ≡ x / 2 ^ i % 2
to_ℕ-test_bit x i = ground arith

div-two-pow : (x i : ℕ) → x / 2 ^ suc i ≡ x / 2 ^ i / 2
div-two-pow x i = rw (pow-suc 2 i, div-div-eq-div-mul)

mod-double : (x p : ℕ) → x % (2 * p) ≡ x % 2 + 2 * (x / 2 % p)
mod-double x p = omega (
  arith,
  div-add-mod x (2 * p),
  div-add-mod (x / 2) p,
  ap (λ (q : ℕ). p * q) (div-div-eq-div-mul x 2 p),
)

-- The equations of the first cell and of the others make up that of all.
add-cells :
    (x y s c k rest out p : ℕ)
    → s + 2 * c ≡ x % 2 + y % 2 + k
    → rest + p * out ≡ x / 2 % p + y / 2 % p + c
    → s + 2 * rest + 2 * p * out ≡ x % (2 * p) + y % (2 * p) + k
add-cells x y s c k rest out p h t = omega (arith, mod-double x p, mod-double y p)

ripple-adds :
    (i val_a val_b : ℕ) (carry : Bool) (rca : List FullAdder)
    → let cells = ripple carry (init_bits i val_a val_b rca) in
      sum_value cells + 2 ^ length rca * to_ℕ (carry_out carry cells)
      ≡ val_a / 2 ^ i % 2 ^ length rca + val_b / 2 ^ i % 2 ^ length rca + to_ℕ carry
unfolding ripple init_bits
ripple-adds i val_a val_b carry [] = omega arith
ripple-adds i val_a val_b carry (fa ∷ rca) =
    let cell = record fa { bit_a = test_bit val_a i; bit_b = test_bit val_b i; c_in = carry } in
    let c = (add_cell cell).c_out in
    let cells = ripple c (init_bits (suc i) val_a val_b rca) in
    rw (pow-succ' 2 (length rca)) (
      add-cells (val_a / 2 ^ i) (val_b / 2 ^ i) (to_ℕ (add_cell cell).s) (to_ℕ c) (to_ℕ carry)
        (sum_value cells) (to_ℕ (carry_out c cells)) (2 ^ length rca)
        (omega (arith, add_cell-adds cell, to_ℕ-test_bit val_a i, to_ℕ-test_bit val_b i))
        (rw (← div-two-pow val_a i, ← div-two-pow val_b i) (ripple-adds (suc i) val_a val_b c rca)))

length-ripple :
    (i val_a val_b : ℕ) (carry : Bool) (rca : List FullAdder)
    → length (ripple carry (init_bits i val_a val_b rca)) ≡ length rca
unfolding ripple init_bits
length-ripple i val_a val_b carry [] = refl
length-ripple i val_a val_b carry (fa ∷ rca) = ap suc (length-ripple (suc i) val_a val_b _ rca)

carry_out-last_cell :
    (carry : Bool) (fa : FullAdder) (rca : List FullAdder)
    → carry_out carry (fa ∷ rca) ≡ (last_cell (fa ∷ rca)).c_out
unfolding last_cell
carry_out-last_cell carry fa [] = refl
carry_out-last_cell carry fa (next ∷ rca) = carry_out-last_cell fa.c_out next rca

-- What the flags need of the last cell: it adds the top bits, and its sum bit is the top bit.
pub record IsTop (bit_a bit_b total width : ℕ) (cell : FullAdder) : Type 0 where
  pub adds : to_ℕ cell.s + 2 * to_ℕ cell.c_out ≡ bit_a + bit_b + to_ℕ cell.c_in
  pub top : total / 2 ^ width ≡ to_ℕ cell.s

-- The lowest bit does not show in the top one.
half-top : (b rest n : ℕ) → b < 2 → (b + 2 * rest) / 2 ^ suc n ≡ rest / 2 ^ n
half-top b rest n h =
    let half : (b + 2 * rest) / 2 ≡ rest = omega arith in
    rw (pow-succ' 2 n, ← div-div-eq-div-mul (b + 2 * rest) 2 (2 ^ n), half)

last_cell-IsTop :
    (i val_a val_b : ℕ) (carry : Bool) (fa : FullAdder) (rca : List FullAdder)
    → let cells = ripple carry (init_bits i val_a val_b (fa ∷ rca)) in
      IsTop
        (val_a / 2 ^ (i + length rca) % 2)
        (val_b / 2 ^ (i + length rca) % 2)
        (sum_value cells)
        (length rca)
        (last_cell cells)
unfolding ripple init_bits last_cell
last_cell-IsTop i val_a val_b carry fa [] =
    let cell = record fa { bit_a = test_bit val_a i; bit_b = test_bit val_b i; c_in = carry } in
    rw add-zero (record {
      adds = omega (
        arith,
        add_cell-adds cell,
        add_cell-c_in cell,
        to_ℕ-test_bit val_a i,
        to_ℕ-test_bit val_b i,
      );
      top = omega arith;
    })
last_cell-IsTop i val_a val_b carry fa (next ∷ rca) =
    let cell = record fa { bit_a = test_bit val_a i; bit_b = test_bit val_b i; c_in = carry } in
    let c = (add_cell cell).c_out in
    let ih = last_cell-IsTop (suc i) val_a val_b c next rca in
    let shift : i + suc (length rca) ≡ suc i + length rca = omega arith in
    rw shift (record {
      adds = ih.adds;
      top =
          half-top (to_ℕ (add_cell cell).s)
            (sum_value (ripple c (init_bits (suc i) val_a val_b (next ∷ rca)))) (length rca)
            (to_ℕ-le (add_cell cell).s)
          ∙ ih.top;
    })

-- On 64 cells and 64-bit operands, ripple_carry_add after init_rca gives 64 sum bits and a last
-- carry that together are the exact sum of the operands and the carry in.
pub rca-adds :
    (val_a val_b : ℕ) (c_in : Bool) (rca : List FullAdder)
    → length rca ≡ 64
    → val_a < 2 ^ 64
    → val_b < 2 ^ 64
    → let (cells, sum) = ripple_carry_add (init_rca val_a val_b c_in rca) in
      sum + 2 ^ 64 * to_ℕ (last_cell cells).c_out ≡ val_a + val_b + to_ℕ c_in
unfolding ripple_carry_add init_rca
rca-adds val_a val_b c_in [] h ha hb = absurd (omega arith)
rca-adds val_a val_b c_in (fa ∷ rca) h ha hb =
    let cells = ripple c_in (init_bits 0 val_a val_b (fa ∷ rca)) in
    let total : sum_value cells + 2 ^ 64 * to_ℕ (carry_out c_in cells)
        ≡ val_a / 1 % 2 ^ 64 + val_b / 1 % 2 ^ 64 + to_ℕ c_in =
      rw h at (ripple-adds 0 val_a val_b c_in (fa ∷ rca)) in
    let last : carry_out c_in cells ≡ (last_cell cells).c_out = carry_out-last_cell c_in _ _ in
    rw (← last) (omega (arith, total, assemble-eq-sum_value 0 0 cells (omega arith)))

-- The last cell of the array adds the sign bits, and its sum bit is the sign of the sum.
pub rca-IsTop :
    (val_a val_b : ℕ) (c_in : Bool) (rca : List FullAdder)
    → length rca ≡ 64
    → val_a < 2 ^ 64
    → val_b < 2 ^ 64
    → let (cells, sum) = ripple_carry_add (init_rca val_a val_b c_in rca) in
      IsTop (val_a / 2 ^ 63) (val_b / 2 ^ 63) sum 63 (last_cell cells)
unfolding ripple_carry_add init_rca
rca-IsTop val_a val_b c_in [] h ha hb = absurd (omega arith)
rca-IsTop val_a val_b c_in (fa ∷ rca) h ha hb =
    let cells = ripple c_in (init_bits 0 val_a val_b (fa ∷ rca)) in
    let rest : length rca ≡ 63 = omega arith in
    let last : IsTop (val_a / 2 ^ (0 + 63) % 2) (val_b / 2 ^ (0 + 63) % 2) (sum_value cells) 63
        (last_cell cells) =
      rw rest at (last_cell-IsTop 0 val_a val_b c_in fa rca) in
    record {
      adds = omega (arith, last.adds);
      top = omega (arith, last.top, assemble-eq-sum_value 0 0 cells (omega arith));
    }

-- Both functions keep the length of the array.
pub length-rca :
    (val_a val_b : ℕ) (c_in : Bool) (rca : List FullAdder)
    → length (ripple_carry_add (init_rca val_a val_b c_in rca)).0 ≡ length rca
unfolding ripple_carry_add init_rca
length-rca val_a val_b c_in [] = refl
length-rca val_a val_b c_in (fa ∷ rca) = length-ripple 0 val_a val_b c_in (fa ∷ rca)

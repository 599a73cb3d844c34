-- ===== src/Bits/Step.antt =====
-- One equation for the lowest digit of `&` and `|`. The native operators stand for a
-- recursion on digits with fuel; here the fuel is dropped.
use Prim.Native.Nat.{digits, bit_and-bitwise, bit_or-bitwise, bit_xor-bitwise, differ}
use ch_arm_v5_system_emulato.Base.{ℕ, zero, suc, ◌+◌, ◌*◌, ◌/◌, ◌%◌, ◌≤◌, min, max}
use ch_arm_v5_system_emulato.Base.{bit_and, bit_or, bit_xor, ◌≡◌, refl, arith}

module _ (rest : ℕ → ℕ) (on_digit : ℕ → ℕ → ℕ) where
  -- Any two amounts of fuel that reach past the first number give the same digits.
  digits-enough :
      (a b p q : ℕ) → a ≤ p → a ≤ q → digits rest on_digit p a b ≡ digits rest on_digit q a b
  digits-enough zero b zero zero hp hq = refl
  digits-enough zero b zero (suc q) hp hq = refl
  digits-enough zero b (suc p) zero hp hq = refl
  digits-enough zero b (suc p) (suc q) hp hq = refl
  digits-enough (suc a) b zero q hp hq = absurd (omega arith)
  digits-enough (suc a) b (suc p) zero hp hq = absurd (omega arith)
  digits-enough (suc a) b (suc p) (suc q) hp hq =
      rw (digits-enough (suc a / 2) (b / 2) p q (omega arith) (omega arith))

  low_digit :
      (x y : ℕ)
      → digits rest on_digit (suc x) (suc x) y
        ≡ on_digit (suc x % 2) (y % 2) + 2 * digits rest on_digit (suc x / 2) (suc x / 2) (y / 2)
  low_digit x y =
      omega (arith, digits-enough (suc x / 2) (y / 2) x (suc x / 2) (omega arith) (omega arith))

pub low_bit-bit_and : (x y : ℕ) → bit_and x y ≡ min (x % 2) (y % 2) + 2 * bit_and (x / 2) (y / 2)
low_bit-bit_and (suc x) y = simp bit_and-bitwise (low_digit (λ d. 0) min x y)
low_bit-bit_and zero y = simp bit_and-bitwise (omega arith)

pub low_bit-bit_or : (x y : ℕ) → bit_or x y ≡ max (x % 2) (y % 2) + 2 * bit_or (x / 2) (y / 2)
low_bit-bit_or (suc x) y = simp bit_or-bitwise (low_digit (λ d. d) max x y)
low_bit-bit_or zero y = simp bit_or-bitwise (omega arith)

pub bit_and-zero_left : (y : ℕ) → bit_and 0 y ≡ 0
bit_and-zero_left y = simp bit_and-bitwise refl

pub low_bit-bit_xor : (x y : ℕ) → bit_xor x y ≡ differ (x % 2) (y % 2) + 2 * bit_xor (x / 2) (y / 2)
low_bit-bit_xor (suc x) y = simp bit_xor-bitwise (low_digit (λ d. d) differ x y)
low_bit-bit_xor zero y = simp bit_xor-bitwise (omega arith)

pub differ-le : (x y : ℕ) → x ≤ 1 → y ≤ 1 → differ x y ≤ 1
differ-le zero y hx hy = hy
differ-le (suc x) zero hx hy = hx
differ-le (suc zero) (suc zero) hx hy = omega arith
differ-le (suc (suc x)) (suc y) hx hy = absurd (omega arith)
differ-le (suc zero) (suc (suc y)) hx hy = absurd (omega arith)

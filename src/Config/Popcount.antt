-- ===== src/Config/Popcount.antt =====
-- `__builtin_popcountll` as src/cache/csim.c and
-- src/base/handle_args.c use it: a number with one bit set is a power of two.
use native.Mathlib.Nat.{pow-succ'}
use ch_arm_v5_system_emulato.Base.{ℕ, zero, suc, ◌/◌, ◌%◌, ◌^◌, ◌<◌, ◌≡◌, arith}
use native.Mathlib.Decide.{ℕ_discrete}
use ch_arm_v5_system_emulato.Config.{popcount}

popcount-zero : (n x : ℕ) → x < 2 ^ n → popcount n x ≡ 0 → x ≡ 0
unfolding popcount
popcount-zero zero x lt e = omega arith
popcount-zero (suc n) x lt e =
    let p = pow-succ' 2 n in
    let half = popcount-zero n (x / 2) (omega arith) (omega arith) in omega arith

pub popcount-power : (n x : ℕ) → x < 2 ^ n → popcount n x ≡ 1 → (s : ℕ) × (s < n) × (x ≡ 2 ^ s)
unfolding popcount
popcount-power zero x lt e = absurd (omega arith)
popcount-power (suc n) x lt e =
    let p = pow-succ' 2 n in
    elim (ℕ_discrete (x % 2) 1) [
      | yes odd ↦
          let half = popcount-zero n (x / 2) (omega arith) (omega arith) in
          (0, omega arith, omega arith)
      | no even ↦
          let (s, below, half) = popcount-power n (x / 2) (omega arith) (omega arith) in
          let q = pow-succ' 2 s in (suc s, omega arith, omega arith)
    ]

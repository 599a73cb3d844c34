-- ===== src/Bits.antt =====
-- The bitwise operators of C at variables: each acts on every bit alone, and `|` of disjoint
-- fields is a sum.
mod Step
use Step.{low_bit-bit_or, low_bit-bit_and, bit_and-zero_left, low_bit-bit_xor, differ-le}
use native.Mathlib.Nat.{
  pow-succ', div-div-eq-div-mul, le_refl, mod-lt, one-le-pow, div-add-mod', mul-add-mod_self_right,
  mod-eq_of_lt,
}
use ch_arm_v5_system_emulato.Base.{ℕ, zero, suc, ◌+◌, ◌-◌, ◌*◌, ◌/◌, ◌%◌, ◌^◌, ◌≤◌, ◌<◌, min, max}
use ch_arm_v5_system_emulato.Base.{
  bit_and, bit_or, bit_xor, ◌≡◌, ◌≢◌, refl, sym, ap, ◌∙◌, arith, bit,
}

div-two-pow : (x i : ℕ) → x / 2 ^ suc i ≡ x / 2 / 2 ^ i
div-two-pow x i = rw (pow-succ' 2 i, div-div-eq-div-mul)

pub bit-suc : (x i : ℕ) → bit x (suc i) ≡ bit (x / 2) i
bit-suc x i = rw (div-two-pow x i)

pub bit-zero : (x : ℕ) → bit x 0 ≡ x % 2
bit-zero x = omega arith

pub bit-bit_or : (a b i : ℕ) → bit (bit_or a b) i ≡ max (bit a i) (bit b i)
bit-bit_or a b zero = omega (arith, low_bit-bit_or a b)
bit-bit_or a b (suc i) =
    rw (bit-suc a i, bit-suc b i, bit-suc (bit_or a b) i, ← bit-bit_or (a / 2) (b / 2) i)
      (ap (λ x. bit x i) (omega (arith, low_bit-bit_or a b)))

pub bit-bit_and : (a b i : ℕ) → bit (bit_and a b) i ≡ min (bit a i) (bit b i)
bit-bit_and a b zero = omega (arith, low_bit-bit_and a b)
bit-bit_and a b (suc i) =
    rw (bit-suc a i, bit-suc b i, bit-suc (bit_and a b) i, ← bit-bit_and (a / 2) (b / 2) i)
      (ap (λ x. bit x i) (omega (arith, low_bit-bit_and a b)))

pub bit-le : (x i : ℕ) → bit x i ≤ 1
bit-le x i = omega arith

pub zero-bit : (i : ℕ) → bit 0 i ≡ 0
zero-bit zero = refl
zero-bit (suc i) = rw (bit-suc 0 i) (zero-bit i)

two_pow-half : (k : ℕ) → 2 ^ suc k / 2 ≡ 2 ^ k
two_pow-half k = omega (arith, pow-succ' 2 k)

pub bit-two_pow_self : (k : ℕ) → bit (2 ^ k) k ≡ 1
bit-two_pow_self zero = refl
bit-two_pow_self (suc k) = rw (bit-suc (2 ^ suc k) k, two_pow-half k) (bit-two_pow_self k)

pub bit-two_pow_ne : (k i : ℕ) → i ≢ k → bit (2 ^ k) i ≡ 0
bit-two_pow_ne zero zero h = absurd (h refl)
bit-two_pow_ne zero (suc i) h = rw (bit-suc 1 i) (zero-bit i)
bit-two_pow_ne (suc k) zero h = omega (arith, pow-succ' 2 k)
bit-two_pow_ne (suc k) (suc i) h =
    rw (bit-suc (2 ^ suc k) i, two_pow-half k) (bit-two_pow_ne k i (λ e. h (ap suc e)))

-- `~x` at width `w` turns every bit below `w` round.
pub bit-complement : (w x i : ℕ) → x < 2 ^ w → i < w → bit (2 ^ w - 1 - x) i ≡ 1 - bit x i
bit-complement zero x i hx hi = absurd (omega arith)
bit-complement (suc w) x zero hx hi = omega (arith, pow-succ' 2 w)
bit-complement (suc w) x (suc i) hx hi =
    rw (bit-suc (2 ^ suc w - 1 - x) i, bit-suc x i, ← bit-complement w (x / 2) i half (omega arith))
      (ap (λ y. bit y i) (omega (arith, pow-succ' 2 w)))
  where
    half : x / 2 < 2 ^ w
    half = omega (arith, pow-succ' 2 w)

-- Two numbers of `w` bits with the same bits are equal.
pub bits_ext : (w x y : ℕ) → x < 2 ^ w → y < 2 ^ w → ((i : ℕ) → i < w → bit x i ≡ bit y i) → x ≡ y
bits_ext zero x y hx hy h = omega arith
bits_ext (suc w) x y hx hy h =
    let high : x / 2 ≡ y / 2 =
      bits_ext w (x / 2) (y / 2) (omega (arith, pow-succ' 2 w)) (omega (arith, pow-succ' 2 w))
        (λ i hi. sym (bit-suc x i) ∙ h (suc i) (omega arith) ∙ bit-suc y i) in
    omega (arith, h 0 (omega arith), high)

mul-two_pow-suc : (q k : ℕ) → q * 2 ^ suc k ≡ q * 2 ^ k * 2
mul-two_pow-suc q k = omega (arith, ap (λ (t : ℕ). q * t) (pow-succ' 2 k))

-- Zero changes nothing under `|`; `bound` is what the recursion goes down on.
pub bit_or-zero : (x bound : ℕ) → x ≤ bound → (bit_or x 0 ≡ x) × (bit_or 0 x ≡ x)
bit_or-zero (suc x) (suc bound) h =
    let half = bit_or-zero (suc x / 2) bound (omega arith) in
    (omega (arith, low_bit-bit_or (suc x) 0, half), omega (arith, low_bit-bit_or 0 (suc x), half))
bit_or-zero (suc x) zero h = absurd (omega arith)
bit_or-zero zero bound h = (refl, refl)

-- `r | (q << k)` is a sum when `r` fits `k` bits.
pub bit_or_high : (k q r : ℕ) → r < 2 ^ k → bit_or r (q * 2 ^ k) ≡ q * 2 ^ k + r
bit_or_high zero q r h =
    let e : r ≡ 0 = omega arith in rw (e, (bit_or-zero (q * 1) (q * 1) (le_refl _)).1) (omega arith)
bit_or_high (suc k) q r h =
    let half : q * 2 ^ suc k / 2 ≡ q * 2 ^ k = omega (arith, mul-two_pow-suc q k) in
    omega (
      arith,
      low_bit-bit_or r (q * 2 ^ suc k),
      mul-two_pow-suc q k,
      pow-succ' 2 k,
      ap (bit_or (r / 2)) half,
      bit_or_high k q (r / 2) (omega (arith, pow-succ' 2 k)),
    )

bit_and-zero : (x bound : ℕ) → x ≤ bound → bit_and x 0 ≡ 0
bit_and-zero (suc x) (suc bound) h =
    let half = bit_and-zero (suc x / 2) bound (omega arith) in
    omega (arith, low_bit-bit_and (suc x) 0, half)
bit_and-zero (suc x) zero h = absurd (omega arith)
bit_and-zero zero bound h = refl

-- `x & (1 << k)` keeps bit `k` alone.
pub bit_and-two_pow : (x k : ℕ) → bit_and x (2 ^ k) ≡ bit x k * 2 ^ k
bit_and-two_pow x zero = omega (arith, low_bit-bit_and x 1, bit_and-zero (x / 2) x (omega arith))
bit_and-two_pow x (suc k) = rw (bit-suc x k) (
    omega (
      arith,
      low_bit-bit_and x (2 ^ suc k),
      ap (bit_and (x / 2)) (two_pow-half k),
      bit_and-two_pow (x / 2) k,
      pow-succ' 2 k,
      ap (λ (t : ℕ). bit (x / 2) k * t) (pow-succ' 2 k),
    ))

mod-two_pow_suc : (x k : ℕ) → x % 2 ^ suc k ≡ x % 2 + 2 * (x / 2 % 2 ^ k)
mod-two_pow_suc x k =
    let q = x / 2 / 2 ^ k in
    let r = x / 2 % 2 ^ k in
    let small : r < 2 ^ k = mod-lt (x / 2) (one-le-pow k 2 (omega arith)) in
    let parts : x ≡ q * 2 ^ suc k + (x % 2 + 2 * r) =
      omega (arith, div-add-mod' (x / 2) (2 ^ k), mul-two_pow-suc q k) in
    ap (λ t. t % 2 ^ suc k) parts
    ∙ mul-add-mod_self_right q (2 ^ suc k) (x % 2 + 2 * r)
    ∙ mod-eq_of_lt (omega (arith, small, pow-succ' 2 k))

-- A mask of ones below bit `k` keeps the bits below it.
pub bit_and-mask : (x k : ℕ) → bit_and x (2 ^ k - 1) ≡ x % 2 ^ k
bit_and-mask x zero = omega (arith, bit_and-zero x x (le_refl x))
bit_and-mask x (suc k) =
    let low : (2 ^ suc k - 1) / 2 ≡ 2 ^ k - 1 =
      omega (arith, pow-succ' 2 k, one-le-pow k 2 (omega arith)) in
    omega (
      arith,
      low_bit-bit_and x (2 ^ suc k - 1),
      ap (bit_and (x / 2)) low,
      bit_and-mask (x / 2) k,
      mod-two_pow_suc x k,
      pow-succ' 2 k,
      one-le-pow k 2 (omega arith),
    )

-- A mask of ones from bit `k` up to bit `w` clears the bits below `k`.
pub bit_and-high_mask :
    (w k x : ℕ) → k ≤ w → x < 2 ^ w → bit_and x (2 ^ w - 2 ^ k) ≡ x / 2 ^ k * 2 ^ k
bit_and-high_mask w zero x h hx = bit_and-mask x w ∙ mod-eq_of_lt hx ∙ omega arith
bit_and-high_mask zero (suc k) x h hx = absurd (omega arith)
bit_and-high_mask (suc w) (suc k) x h hx =
    let high : (2 ^ suc w - 2 ^ suc k) / 2 ≡ 2 ^ w - 2 ^ k =
      omega (arith, pow-succ' 2 w, pow-succ' 2 k) in
    omega (
      arith,
      low_bit-bit_and x (2 ^ suc w - 2 ^ suc k),
      ap (bit_and (x / 2)) high,
      bit_and-high_mask w k (x / 2) (omega arith) (omega (arith, pow-succ' 2 w)),
      mul-two_pow-suc (x / 2 / 2 ^ k) k,
      div-two-pow x k,
      ap (λ t. t * 2 ^ suc k) (div-two-pow x k),
      pow-succ' 2 w,
      pow-succ' 2 k,
    )

bit_or_comm : (bound x y : ℕ) → x ≤ bound → y ≤ bound → bit_or x y ≡ bit_or y x
bit_or_comm zero x y hx hy =
    let zx : x ≡ 0 = omega arith in let zy : y ≡ 0 = omega arith in rw (zx, zy) refl
bit_or_comm (suc bound) x y hx hy = omega (
  arith,
  low_bit-bit_or x y,
  low_bit-bit_or y x,
  bit_or_comm bound (x / 2) (y / 2) (omega arith) (omega arith),
)

-- `(q << k) | r` too.
pub bit_or_low : (k q r : ℕ) → r < 2 ^ k → bit_or (q * 2 ^ k) r ≡ q * 2 ^ k + r
bit_or_low k q r h =
    bit_or_comm (q * 2 ^ k + r) (q * 2 ^ k) r (omega arith) (omega arith) ∙ bit_or_high k q r h

-- `&` with a number of `w` bits has `w` bits.
pub bit_and-lt : (w x y : ℕ) → x < 2 ^ w → bit_and x y < 2 ^ w
bit_and-lt zero x y h =
    let none_set : x ≡ 0 = omega arith in rw (none_set, bit_and-zero_left) (omega arith)
bit_and-lt (suc w) x y h = omega (
  arith,
  low_bit-bit_and x y,
  bit_and-lt w (x / 2) (y / 2) (omega (arith, pow-succ' 2 w)),
  pow-succ' 2 w,
)

-- `|` and `^` of numbers of `w` bits have `w` bits.
pub bit_or-lt : (w x y : ℕ) → x < 2 ^ w → y < 2 ^ w → bit_or x y < 2 ^ w
bit_or-lt zero x y hx hy =
    let zx : x ≡ 0 = omega arith in let zy : y ≡ 0 = omega arith in rw (zx, zy) (omega arith)
bit_or-lt (suc w) x y hx hy = omega (
  arith,
  low_bit-bit_or x y,
  bit_or-lt w (x / 2) (y / 2) (omega (arith, pow-succ' 2 w)) (omega (arith, pow-succ' 2 w)),
  pow-succ' 2 w,
)

pub bit_xor-lt : (w x y : ℕ) → x < 2 ^ w → y < 2 ^ w → bit_xor x y < 2 ^ w
bit_xor-lt zero x y hx hy =
    let zx : x ≡ 0 = omega arith in let zy : y ≡ 0 = omega arith in rw (zx, zy) (omega arith)
bit_xor-lt (suc w) x y hx hy = omega (
  arith,
  low_bit-bit_xor x y,
  differ-le (x % 2) (y % 2) (omega arith) (omega arith),
  bit_xor-lt w (x / 2) (y / 2) (omega (arith, pow-succ' 2 w)) (omega (arith, pow-succ' 2 w)),
  pow-succ' 2 w,
)

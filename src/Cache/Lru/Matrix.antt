-- ===== src/Cache/Lru/Matrix.antt =====
-- What `lru` of src/cache/cache.c does to each entry of the matrix.
use native.Mathlib.Nat.{pow-le-pow_right, pow-succ', one-le-pow}
use native.Mathlib.Decide.{ℕ_discrete}
use ch_arm_v5_system_emulato.Base.{
  ℕ, zero, suc, ◌+◌, ◌*◌, ◌^◌, ◌≤◌, ◌<◌, bit_and, bit_or, true, ◌&&◌, ◌==◌, leb, ltb, if◌then◌else◌,
  not64, bit, ◌≡◌, ◌≢◌, inl, inr, Bool-cases, refl, ◌∙◌, arith,
}
use ch_arm_v5_system_emulato.Bits.{bit-bit_or, bit-bit_and, bit-two_pow_self, bit-two_pow_ne}
use ch_arm_v5_system_emulato.Bits.{bit-complement, bit-le, bit_and-two_pow}
use ch_arm_v5_system_emulato.Cache.Lru.{one_at, set_row, clear_column, is_lru}

-- Row `i`, column `j` of the matrix.
abbrev pub entry : ℕ → ℕ → ℕ → ℕ
entry matrix i j = bit matrix (i * 8 + j)

two_pow-lt : (k : ℕ) → k < 64 → 2 ^ k < 2 ^ 64
two_pow-lt k h =
    let le : 2 ^ suc k ≤ 2 ^ 64 = pow-le-pow_right (omega arith) {i = suc k} {j = 64} h in
    omega (arith, pow-succ' 2 k, one-le-pow k 2)

one_at_lem : (k : ℕ) → k < 64 → one_at k ≡ 2 ^ k
one_at_lem k h = omega (arith, two_pow-lt k h)

bit-set : (x k i : ℕ) → k < 64 → bit (bit_or x (one_at k)) i ≡ (if i == k then 1 else bit x i)
bit-set x k i h = elim (ℕ_discrete i k) [
  | yes e ↦
      rw (one_at_lem k h, e)
        (ground (arith, bit-bit_or x (2 ^ k) k, bit-two_pow_self k, bit-le x k))
  | no ne ↦
      rw (one_at_lem k h)
        (ground (arith, bit-bit_or x (2 ^ k) i, bit-two_pow_ne k i ne, bit-le x i))
]

bit-clear :
    (x k i : ℕ)
    → k < 64
    → i < 64
    → bit (bit_and x (not64 (one_at k))) i ≡ (if i == k then 0 else bit x i)
bit-clear x k i h hi = elim (ℕ_discrete i k) [
  | yes e ↦
      rw (one_at_lem k h, e)
        (ground (
          arith,
          bit-bit_and x (not64 (2 ^ k)) k,
          bit-complement 64 (2 ^ k) k (two_pow-lt k h) h,
          bit-two_pow_self k,
        ))
  | no ne ↦ rw (one_at_lem k h) (
      ground (
        arith,
        bit-bit_and x (not64 (2 ^ k)) i,
        bit-complement 64 (2 ^ k) i (two_pow-lt k h) hi,
        bit-two_pow_ne k i ne,
        bit-le x i,
      ))
]

bit-test : (x k : ℕ) → k < 64 → (bit_and x (one_at k) == 0) ≡ (bit x k == 0)
bit-test x k h = elim (ℕ_discrete (bit x k) 0) [
  | yes e ↦ rw (one_at_lem k h, bit_and-two_pow x k, e) (ground arith)
  | no ne ↦
      let one : bit x k ≡ 1 = omega (arith, bit-le x k) in
      rw (one_at_lem k h, bit_and-two_pow x k, one) (ground (arith, one-le-pow k 2))
]

-- Two positions in the matrix are one only if the row and the column are.
position : (i c k j : ℕ) → c < 8 → j < 8 → (i * 8 + c == k * 8 + j) ≡ (i == k && c == j)
position i c k j hc hj = ground arith

-- One round of the row's loop.
row_step :
    (access j matrix i c : ℕ)
    → access < 8
    → j < 8
    → i < 8
    → c < 8
    → entry
        (if j == access
          then bit_and matrix (not64 (one_at (access * 8 + j)))
          else bit_or matrix (one_at (access * 8 + j)))
        i
        c
      ≡ (if i == access && c == j then (if j == access then 0 else 1) else entry matrix i c)
row_step access j matrix i c ha hj hi hc = elim (Bool-cases (j == access)) [
  | inl e ↦ rw (
    e,
    bit-clear matrix (access * 8 + j) (i * 8 + c) (omega arith) (omega arith),
    position i c access j hc hj,
  )
  | inr e ↦
      rw (e, bit-set matrix (access * 8 + j) (i * 8 + c) (omega arith), position i c access j hc hj)
]

-- The row of `access` becomes ones, but for the diagonal.
set_row-entry :
    (access j left matrix i c : ℕ)
    → access < 8
    → j + left ≤ 8
    → i < 8
    → c < 8
    → entry (set_row access j left matrix) i c ≡ (
        if i == access && leb j c && ltb c (j + left)
        then (if c == access then 0 else 1)
        else entry matrix i c)
unfolding set_row
set_row-entry access j zero matrix i c ha hj hi hc = ground arith
set_row-entry access j (suc left) matrix i c ha hj hi hc =
    set_row-entry access (suc j) left _ i c ha (omega arith) hi hc
    ∙ rw (row_step access j matrix i c ha (omega arith) hi hc) (ground arith)

-- The column of `access` becomes zeros.
clear_column-entry :
    (access k left matrix i c : ℕ)
    → access < 8
    → k + left ≤ 8
    → i < 8
    → c < 8
    → entry (clear_column access k left matrix) i c
      ≡ (if c == access && leb k i && ltb i (k + left) then 0 else entry matrix i c)
unfolding clear_column
clear_column-entry access k zero matrix i c ha hk hi hc = ground arith
clear_column-entry access k (suc left) matrix i c ha hk hi hc = ground (
  arith,
  clear_column-entry access (suc k) left (bit_and matrix (not64 (one_at (k * 8 + access)))) i c,
  bit-clear matrix (k * 8 + access) (i * 8 + c),
)

-- The matrix after both loops.
pub touched-entry :
    (a access matrix i j : ℕ)
    → a ≤ 8
    → access < a
    → i < a
    → j < a
    → entry (clear_column access 0 a (set_row access 0 a matrix)) i j
      ≡ (if j == access then 0 else if i == access then 1 else entry matrix i j)
touched-entry a access matrix i j ha hx hi hj = ground (
  arith,
  clear_column-entry access 0 a (set_row access 0 a matrix) i j,
  set_row-entry access 0 a matrix i j,
)

-- The search for a row tells whether the row is zero off the diagonal.
pub is_lru-true :
    (matrix i j left c : ℕ)
    → i < 8
    → j + left ≤ 8
    → is_lru matrix i j left ≡ true
    → j ≤ c
    → c < j + left
    → c ≢ i
    → entry matrix i c ≡ 0
unfolding is_lru
is_lru-true matrix i j zero c hi hj h p q ne = absurd (omega arith)
is_lru-true matrix i j (suc left) c hi hj h p q ne =
    ground (arith, is_lru-true matrix i (suc j) left c, bit-test matrix (i * 8 + j))

pub is_lru_complete :
    (matrix i j left : ℕ)
    → i < 8
    → j + left ≤ 8
    → ((c : ℕ) → c < j + left → c ≢ i → entry matrix i c ≡ 0)
    → is_lru matrix i j left ≡ true
unfolding is_lru
is_lru_complete matrix i j zero hi hj h = refl
is_lru_complete matrix i j (suc left) hi hj h = ground (
  arith,
  is_lru_complete matrix i (suc j) left hi (omega arith) (λ c p ne. h c (omega arith) ne),
  bit-test matrix (i * 8 + j),
  h j,
)

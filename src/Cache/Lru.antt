-- ===== src/Cache/Lru.antt =====
-- `lru` of src/cache/cache.c: the matrix of the least-recently-used policy, 8 bits to a row.
pub mod Matrix
pub mod Policy
use ch_arm_v5_system_emulato.Base.{
  ℕ, zero, suc, ◌+◌, ◌-◌, ◌*◌, ◌^◌, bit_and, bit_or, Bool, true, false, ◌&&◌, ◌||◌, Option, none,
  some, ◌==◌, leb, ltb, if◌then◌else◌, u64, not64, ◌<<<◌,
}

-- `1ULL << n`.
abbrev pub one_at : ℕ → ℕ
one_at n = u64 (1 <<< n)

-- The loop over the row of `access`, from column `j` with `left` columns to go.
pub set_row : ℕ → ℕ → ℕ → ℕ → ℕ
set_row access j zero matrix = matrix
set_row access j (suc left) matrix =
    let mask = one_at (access * 8 + j) in
    set_row access (suc j) left
      (if j == access then bit_and matrix (not64 mask) else bit_or matrix mask)

-- The loop over the column of `access`.
pub clear_column : ℕ → ℕ → ℕ → ℕ → ℕ
clear_column access i zero matrix = matrix
clear_column access i (suc left) matrix =
    clear_column access (suc i) left (bit_and matrix (not64 (one_at (i * 8 + access))))

-- The inner loop of the search: whether row `i` is zero off the diagonal.
pub is_lru : ℕ → ℕ → ℕ → ℕ → Bool
is_lru matrix i j zero = true
is_lru matrix i j (suc left) =
    (i == j || bit_and matrix (one_at (i * 8 + j)) == 0) && is_lru matrix i (suc j) left

-- The outer loop, from row `i`; 0 if it runs to its end.
pub find_lru : ℕ → ℕ → ℕ → ℕ → ℕ
find_lru a matrix i zero = 0
find_lru a matrix i (suc left) = if is_lru matrix i 0 a then i else find_lru a matrix (suc i) left

-- `lru`: the index that is returned and the matrix after the call; `none` if an assertion fails.
unfoldable pub lru : ℕ → ℕ → ℕ → Option (ℕ × ℕ)
unfolding set_row clear_column is_lru find_lru
lru a access matrix =
    if leb 1 a && leb a 8 && ltb access a
    then (let matrix' = clear_column access 0 a (set_row access 0 a matrix) in
        some (find_lru a matrix' 0 a, matrix'))
    else none

-- ===== src/Mem/Access/Blocks.antt =====
-- The block transfers of `_mem_read_cache` and `_mem_write_cache` of src/base/mem.c against the
-- flat memory.
use ch_arm_v5_system_emulato.Base.{
  ℕ, zero, suc, ◌+◌, ◌^◌, ◌≤◌, ◌<◌, List, [], ◌∷◌, length, get_or, add64, ◌≡◌, ◌≢◌, refl, sym, ap,
  ◌∙◌, arith,
}
use ch_arm_v5_system_emulato.Mem.Ptable.{PageTable}
use ch_arm_v5_system_emulato.Mem.Bytes.{Segments, mem_read_le, mem_write_le}
use ch_arm_v5_system_emulato.Mem.Bytes.Flat.{byte_at}
use ch_arm_v5_system_emulato.Mem.Bytes.LittleEndian.{IsMemory, mem_read_le-flat, mem_write_le-bytes}
use ch_arm_v5_system_emulato.Mem.Access.{read_block, write_block}

-- The entries of a list with one more in front.
cons_entries :
    (f : ℕ → ℕ) (x : ℕ) (xs : List ℕ) (n : ℕ)
    → x ≡ f 0
    → ((k : ℕ) → k < n → get_or xs k 0 ≡ f (suc k))
    → (i : ℕ) → i < suc n
    → get_or (x ∷ xs) i 0 ≡ f i
cons_entries f x xs n first later zero lt = first
cons_entries f x xs n first later (suc k) lt = later k (omega arith)

read_one :
    (segments : Segments) (addr : ℕ) (ptable : PageTable)
    → IsMemory ptable
    → addr < 2 ^ 64
    → let (byte, ptable') = mem_read_le segments addr 1 ptable in
      (byte ≡ byte_at ptable addr)
      × ((a : ℕ) → byte_at ptable' a ≡ byte_at ptable a)
      × IsMemory ptable'
read_one segments addr ptable v h =
    let all = mem_read_le-flat segments addr 1 ptable v (omega arith) in
    let same : add64 addr 0 ≡ addr = omega arith in (all.0 ∙ (rw same (omega arith)), all.1, all.2)

-- The bytes that are read are those of the flat memory, which stays as it is.
pub read_block-flat :
    (segments : Segments) (base j left : ℕ) (ptable : PageTable)
    → IsMemory ptable
    → base + j + left ≤ 2 ^ 64
    → let (block, ptable') = read_block segments base j left ptable in
      (length block ≡ left)
      × ((i : ℕ) → i < left → get_or block i 0 ≡ byte_at ptable (base + j + i))
      × ((a : ℕ) → byte_at ptable' a ≡ byte_at ptable a)
      × IsMemory ptable'
unfolding read_block
read_block-flat segments base j zero ptable v h = (refl, λ i lt. absurd (omega arith), λ a. refl, v)
read_block-flat segments base j (suc left) ptable v h =
    let here : add64 base j ≡ base + j = omega arith in
    let one = read_one segments (add64 base j) ptable v (omega arith) in
    let ptable' = (mem_read_le segments (add64 base j) 1 ptable).1 in
    let rest = read_block-flat segments base (suc j) left ptable' one.2 (omega arith) in
    (
      ap suc rest.0,
      cons_entries (λ i. byte_at ptable (base + j + i)) _ _ left
          (one.0 ∙ ap (byte_at ptable) {y = base + j + 0} (omega arith))
          (λ k lt.
            rest.1 k lt
            ∙ one.1 (base + suc j + k)
            ∙ ap (byte_at ptable) {y = base + j + suc k} (omega arith)),
      λ a. rest.2 a ∙ one.1 a,
      rest.3,
    )

write_one :
    (addr byte : ℕ) (ptable : PageTable)
    → IsMemory ptable
    → addr < 2 ^ 64
    → byte < 256
    → let ptable' = mem_write_le addr byte 1 ptable in
      (byte_at ptable' addr ≡ byte)
      × ((a : ℕ) → a ≢ addr → byte_at ptable' a ≡ byte_at ptable a)
      × IsMemory ptable'
write_one addr byte ptable v h hb =
    let all = mem_write_le-bytes addr byte 1 ptable v (omega arith) in
    let same : add64 addr 0 ≡ addr = omega arith in
    (
      (rw same at (all.0 0 (omega arith))) ∙ omega arith,
      λ a ne. all.1 a (λ j lt e. ne (let z : j ≡ 0 = omega arith in rw (z, same) at e)),
      all.2,
    )

-- The bytes that are written are those of the list, and no others change.
pub write_block-flat :
    (base j : ℕ) (block : List ℕ) (ptable : PageTable)
    → IsMemory ptable
    → base + j + length block ≤ 2 ^ 64
    → ((i : ℕ) → get_or block i 0 < 256)
    → let ptable' = write_block base j block ptable in
      ((i : ℕ) → i < length block → byte_at ptable' (base + j + i) ≡ get_or block i 0)
      × ((a : ℕ)
          → ((i : ℕ) → i < length block → a ≢ base + j + i)
          → byte_at ptable' a ≡ byte_at ptable a)
      × IsMemory ptable'
unfolding write_block
write_block-flat base j [] ptable v h small = (λ i lt. absurd (omega arith), λ a out. refl, v)
write_block-flat base j (byte ∷ block) ptable v h small =
    let here : add64 base j ≡ base + j = omega arith in
    let one = write_one (add64 base j) byte ptable v (omega arith) (small 0) in
    let ptable' = mem_write_le (add64 base j) byte 1 ptable in
    let rest =
      write_block-flat base (suc j) block ptable' one.2 (omega arith) (λ i. small (suc i)) in
    let last = write_block base (suc j) block ptable' in
    (
      λ i lt. sym (
          cons_entries (λ k. byte_at last (base + j + k)) byte block (length block)
            (sym (
              ap (byte_at last) {y = add64 base j} (omega arith)
              ∙ rest.1 (add64 base j) (λ k lt e. absurd (omega arith))
              ∙ one.0))
            (λ k lt. sym (ap (byte_at last) {y = base + suc j + k} (omega arith) ∙ rest.0 k lt)) i
            lt),
      λ a out.
          rest.1 a (λ i lt e. out (suc i) (omega arith) (omega arith))
          ∙ one.1 a (λ e. out 0 (omega arith) (omega arith)),
      rest.2,
    )

-- Past its end a list reads as zeros.
pub bytes_small :
    (xs : List ℕ) → ((i : ℕ) → i < length xs → get_or xs i 0 < 256) → (o : ℕ) → get_or xs o 0 < 256
bytes_small [] h o = omega arith
bytes_small (x ∷ xs) h zero = h 0 (omega arith)
bytes_small (x ∷ xs) h (suc o) = bytes_small xs (λ i lt. h (suc i) (omega arith)) o

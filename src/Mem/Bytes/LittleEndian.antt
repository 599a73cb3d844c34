-- ===== src/Mem/Bytes/LittleEndian.antt =====
-- `_mem_read_LE` and `_mem_write_LE` of src/base/mem.c against the flat memory: a word is read as
-- its bytes, lowest first, and what is written is read back.
use native.Mathlib.Nat.{pow-succ', pow-le-pow_right, div-div-eq-div-mul, div-add-mod, mul_comm}
use ch_arm_v5_system_emulato.Base.{
  ℕ, zero, suc, ◌+◌, ◌*◌, ◌/◌, ◌%◌, ◌^◌, ◌≤◌, ◌<◌, if◌then◌else◌, u64, add64, sub64, ltb,
  Bool-cases, inl, inr, ◌≡◌, ◌≢◌, refl, sym, ap, ◌∙◌, arith, ◌<<<◌, ◌>>>◌,
}
use native.Mathlib.Decide.{ℕ_discrete}
use ch_arm_v5_system_emulato.Mem.Ptable.{PageTable}
use ch_arm_v5_system_emulato.Mem.Ptable.Laws.{IsTable}
use ch_arm_v5_system_emulato.Mem.Bytes.{Segments, mem_read_byte, read_bytes, mem_read_le}
use ch_arm_v5_system_emulato.Mem.Bytes.{mem_write_byte, write_bytes, mem_write_le}
use ch_arm_v5_system_emulato.Mem.Bytes.Flat.{byte_at, mem_read_byte-flat, mem_write_byte-flat}

-- The number of the `n` bytes from `addr` on, lowest first; addresses wrap.
abbrev pub le_value : (ℕ → ℕ) → ℕ → ℕ → ℕ
le_value byte addr zero = 0
le_value byte addr (suc n) = le_value byte addr n + 256 ^ n * byte (add64 addr n)

-- The table has its chains, and holds bytes.
pub record IsMemory (ptable : PageTable) : Type 0 where
  pub table : IsTable ptable
  pub bytes : (a : ℕ) → byte_at ptable a < 256

pub le_value-ext :
    (f g : ℕ → ℕ) (addr n : ℕ) → ((a : ℕ) → f a ≡ g a) → le_value f addr n ≡ le_value g addr n
le_value-ext f g addr zero h = refl
le_value-ext f g addr (suc n) h = rw (h (add64 addr n), le_value-ext f g addr n h)

mem_read_byte-IsMemory :
    (mem : Segments) (addr : ℕ) (ptable : PageTable)
    → IsMemory ptable
    → IsMemory (mem_read_byte mem addr ptable).1
mem_read_byte-IsMemory mem addr ptable v = record {
  table = (mem_read_byte-flat mem addr 0 ptable v.table).2;
  bytes = λ a. rw ((mem_read_byte-flat mem addr a ptable v.table).1) (v.bytes a);
}

-- The loop of the read, with `k` bytes already in `retval`.
read_bytes-flat :
    (mem : Segments) (addr n k retval : ℕ) (ptable : PageTable)
    → IsMemory ptable
    → k + n ≤ 8
    → retval < 256 ^ k
    → let (value, ptable') = read_bytes mem addr n retval ptable in
      (value ≡ retval * 256 ^ n + le_value (byte_at ptable) addr n)
      × ((a : ℕ) → byte_at ptable' a ≡ byte_at ptable a)
      × IsMemory ptable'
unfolding read_bytes
read_bytes-flat mem addr zero k retval ptable v h hr = (omega arith, λ a. refl, v)
read_bytes-flat mem addr (suc n) k retval ptable v h hr =
    let here = mem_read_byte-flat mem (add64 addr n) (add64 addr n) ptable v.table in
    let byte = (mem_read_byte mem (add64 addr n) ptable).0 in
    let ptable' = (mem_read_byte mem (add64 addr n) ptable).1 in
    let v' = mem_read_byte-IsMemory mem (add64 addr n) ptable v in
    let small : byte < 256 = rw here.0 (v.bytes (add64 addr n)) in
    let fits : 256 ^ suc k ≤ 256 ^ 8 =
      pow-le-pow_right (omega arith) {i = suc k} {j = 8} (omega arith) in
    let next : u64 (u64 (retval <<< 8) + byte) ≡ retval * 256 + byte =
      omega (arith, pow-succ' 256 k) in
    let rest =
      read_bytes-flat mem addr n (suc k) (retval * 256 + byte) ptable' v' (omega arith)
        (omega (arith, pow-succ' 256 k)) in
    rw (read_bytes, next)
      (
        omega (
          arith,
          rest.0,
          here.0,
          pow-succ' 256 n,
          ap (λ (t : ℕ). retval * t) (pow-succ' 256 n),
          le_value-ext (byte_at ptable') (byte_at ptable) addr n
              (λ a. (mem_read_byte-flat mem (add64 addr n) a ptable v.table).1),
          ap (λ (t : ℕ). 256 ^ n * t) here.0,
        ),
        λ a. rest.1 a ∙ (mem_read_byte-flat mem (add64 addr n) a ptable v.table).1,
        rest.2,
      )

-- A little-endian read of at most eight bytes from a valid page table gives the little-endian
-- number of the bytes of the flat memory, changes no byte, and keeps the table valid.
pub mem_read_le-flat :
    (mem : Segments) (addr width : ℕ) (ptable : PageTable)
    → IsMemory ptable
    → width ≤ 8
    → let (value, ptable') = mem_read_le mem addr width ptable in
      (value ≡ le_value (byte_at ptable) addr width)
      × ((a : ℕ) → byte_at ptable' a ≡ byte_at ptable a)
      × IsMemory ptable'
unfolding mem_read_le
mem_read_le-flat mem addr width ptable v h =
    let all = read_bytes-flat mem addr width 0 0 ptable v (omega arith) (omega arith) in
    (omega (arith, all.0), all.1, all.2)

-- The loop of the write, with the bytes below index `i` written.
write_bytes-outside :
    (addr value i left b : ℕ) (ptable : PageTable)
    → IsTable ptable
    → ((j : ℕ) → i ≤ j → j < i + left → b ≢ add64 addr j)
    → byte_at (write_bytes addr value i left ptable) b ≡ byte_at ptable b
unfolding write_bytes
write_bytes-outside addr value i zero b ptable size out = refl
write_bytes-outside addr value i (suc left) b ptable size out =
    let byte = value >>> (8 * i) % 256 in
    let here = mem_write_byte-flat (add64 addr i) byte b ptable size in
    write_bytes-outside addr value (suc i) left b (mem_write_byte (add64 addr i) byte ptable) here.1
      (λ j p q. out j (omega arith) (omega arith))
    ∙ ground (arith, here.0, out i)

write_bytes-inside :
    (addr value i left j : ℕ) (ptable : PageTable)
    → IsTable ptable
    → i ≤ j
    → j < i + left
    → i + left ≤ 8
    → byte_at (write_bytes addr value i left ptable) (add64 addr j) ≡ value >>> (8 * j) % 256
unfolding write_bytes
write_bytes-inside addr value i zero j ptable size p q h = absurd (omega arith)
write_bytes-inside addr value i (suc left) j ptable size p q h = elim (ℕ_discrete i j) [
  | yes e ↦ rw (← e) (
      write_bytes-outside addr value (suc i) left (add64 addr i)
        (mem_write_byte (add64 addr i) (value >>> (8 * i) % 256) ptable)
        (mem_write_byte-flat (add64 addr i) _ 0 ptable size).1 (λ k p q. omega arith)
      ∙ ground (
        arith,
        (mem_write_byte-flat (add64 addr i) (value >>> (8 * i) % 256) (add64 addr i) ptable size).0,
      ))
  | no ne ↦
      write_bytes-inside addr value (suc i) left j
        (mem_write_byte (add64 addr i) (value >>> (8 * i) % 256) ptable)
        (mem_write_byte-flat (add64 addr i) _ 0 ptable size).1 (omega arith) (omega arith)
        (omega arith)
]

pub two_pow_eight : (n : ℕ) → 2 ^ (8 * n) ≡ 256 ^ n
two_pow_eight zero = refl
two_pow_eight (suc n) =
    let e : 8 * suc n ≡ suc (suc (suc (suc (suc (suc (suc (suc (8 * n)))))))) = omega arith in
    rw e (simp pow-succ' (omega (arith, two_pow_eight n)))

-- The remainder by `p * 256` is that by `p`, and the next byte.
mod-next_byte : (x p : ℕ) → x % (256 * p) ≡ x % p + p * (x / p % 256)
mod-next_byte x p = omega (
  arith,
  div-add-mod x (256 * p),
  div-add-mod x p,
  ap (λ (t : ℕ). p * t) (div-add-mod (x / p) 256),
  ap (λ (t : ℕ). p * t) (div-div-eq-div-mul x p 256),
  ap (λ (t : ℕ). p * (x / t)) (mul_comm p 256),
)

-- The bytes of a number make it up again.
le_value-bytes :
    (f : ℕ → ℕ) (addr value n : ℕ)
    → ((j : ℕ) → j < n → f (add64 addr j) ≡ value >>> (8 * j) % 256)
    → le_value f addr n ≡ value % 256 ^ n
le_value-bytes f addr value zero h = omega arith
le_value-bytes f addr value (suc n) h =
    let last : f (add64 addr n) ≡ value / 256 ^ n % 256 =
      h n (omega arith) ∙ ap (λ t. value / t % 256) (two_pow_eight n) in
    rw (last, le_value-bytes f addr value n (λ j p. h j (omega arith)), pow-succ' 256 n)
      (sym (mod-next_byte value (256 ^ n)))

write_bytes-IsMemory :
    (addr value i left : ℕ) (ptable : PageTable)
    → IsMemory ptable
    → IsMemory (write_bytes addr value i left ptable)
unfolding write_bytes
write_bytes-IsMemory addr value i zero ptable v = v
write_bytes-IsMemory addr value i (suc left) ptable v =
    let byte = value >>> (8 * i) % 256 in
    write_bytes-IsMemory addr value (suc i) left (mem_write_byte (add64 addr i) byte ptable)
      (record {
        table = (mem_write_byte-flat (add64 addr i) byte 0 ptable v.table).1;
        bytes = λ a.
            ground (arith, (mem_write_byte-flat (add64 addr i) byte a ptable v.table).0, v.bytes a);
      })

-- The bytes of the written word, the other bytes, and that the table is still one of bytes.
pub mem_write_le-bytes :
    (addr value width : ℕ) (ptable : PageTable)
    → IsMemory ptable
    → width ≤ 8
    → let ptable' = mem_write_le addr value width ptable in
      ((j : ℕ) → j < width → byte_at ptable' (add64 addr j) ≡ value >>> (8 * j) % 256)
      × ((b : ℕ) → ((j : ℕ) → j < width → b ≢ add64 addr j) → byte_at ptable' b ≡ byte_at ptable b)
      × IsMemory ptable'
unfolding mem_write_le
mem_write_le-bytes addr value width ptable v h = (
  λ j q.
      write_bytes-inside addr value 0 width j ptable v.table (omega arith) (omega arith)
        (omega arith),
  λ b out. write_bytes-outside addr value 0 width b ptable v.table (λ j p q. out j (omega arith)),
  write_bytes-IsMemory addr value 0 width ptable v,
)

-- A little-endian write of at most eight bytes to a valid page table sets the bytes at a distance
-- below the width from the address, modulo 2^64, to those of the value and no other byte of the
-- flat memory, and keeps the table valid.
pub mem_write_le-flat :
    (addr value width b : ℕ) (ptable : PageTable)
    → IsMemory ptable
    → width ≤ 8
    → addr < 2 ^ 64
    → b < 2 ^ 64
    → let ptable' = mem_write_le addr value width ptable in
      let j = sub64 b addr in
      (byte_at ptable' b ≡ (if ltb j width then value >>> (8 * j) % 256 else byte_at ptable b))
      × IsMemory ptable'
mem_write_le-flat addr value width b ptable v h ha hb =
    let written = mem_write_le-bytes addr value width ptable v h in
    let j = sub64 b addr in
    let back : add64 addr j ≡ b = omega arith in
    (
      elim (Bool-cases (ltb j width)) [
        | inl lt ↦ rw lt (
            ap (byte_at (mem_write_le addr value width ptable)) (sym back)
            ∙ written.0 j (ground arith))
        | inr ge ↦ rw ge (written.1 b (λ k hk e. absurd (ground arith)))
      ],
      written.2,
    )

-- On a valid page table a little-endian read after a write of the same address and width, at most
-- eight bytes, gives the value cut to the width.
pub read-write :
    (mem : Segments) (addr value width : ℕ) (ptable : PageTable)
    → IsMemory ptable
    → width ≤ 8
    → (mem_read_le mem addr width (mem_write_le addr value width ptable)).0 ≡ value % 256 ^ width
read-write mem addr value width ptable v h =
    let written = mem_write_le-bytes addr value width ptable v h in
    (mem_read_le-flat mem addr width (mem_write_le addr value width ptable) written.2 h).0
    ∙ le_value-bytes (byte_at (mem_write_le addr value width ptable)) addr value width written.0

-- ===== src/Mem/Access.antt =====
-- The word layer of src/base/mem.c: special addresses, and the data cache with its miss penalty.
-- `none` is the end of the emulator's run: `exit`, an assertion that fails, an access outside an
-- array, or a read of more input than there is.
pub mod Blocks
pub mod Coherent
pub mod Evict
pub mod Replaced
pub mod Rewritten
pub mod Hit
pub mod Loop
pub mod Fill
pub mod Missing
pub mod Word
pub mod Read
pub mod Store
pub mod Write
pub mod Delay
pub mod Initial
pub mod Refinement
mod Tests
use ch_arm_v5_system_emulato.Base.{
  ℕ, zero, suc, ◌+◌, ◌-◌, ◌*◌, ◌%◌, ◌^◌, bit_and, Bool, true, false, ◌&&◌, ◌||◌, not, List, [], ◌∷◌,
  Option, none, some, ◌>>=◌, ◌==◌, leb, ltb, if◌then◌else◌, u64, add64, not64,
}
use ch_arm_v5_system_emulato.Isa.{MemStatus, ready, in_flight}
use ch_arm_v5_system_emulato.Cache.{Cache, Operation, check_hit, handle_miss, read, write}
use ch_arm_v5_system_emulato.Cache.{get_word_cache, set_word_cache}
use ch_arm_v5_system_emulato.Mem.Ptable.{PageTable}
use ch_arm_v5_system_emulato.Mem.Bytes.{
  Segments, seg_start, data_seg, null_addr, io_char_addr, ret_from_main_addr, checkpoint_addr,
  is_special_addr, mem_read_le, mem_write_le,
}

-- The memory side of the guest and the globals of mem.c. `stdin` holds the values that `scanf`
-- reads, as 64-bit patterns, and `output` the words written to `IO_CHAR_ADDR`, latest first.
pub record MemSystem : Type 0 where
  pub segments : Segments
  pub ptable : PageTable
  pub cache : Option Cache
  pub inflight_cycles : ℕ
  pub inflight_addr : ℕ
  pub inflight : Bool
  pub dmem_status : MemStatus
  pub stdin : List ℕ
  pub output : List ℕ

-- `write_ret_code_t`.
pub data WriteRetCode : Type 0 where
  write_failure write_success : WriteRetCode

-- A value of `8 * width` bits as the 64-bit pattern that its sign is extended to.
abbrev pub sign_extend : ℕ → ℕ → ℕ
sign_extend width x =
    let m = 2 ^ (8 * width) in let y = x % m in if ltb (2 * y) m then y else 2 ^ 64 - m + y

read_input : ℕ → List ℕ → MemSystem → Option (ℕ × MemSystem)
read_input width [] mem = none
read_input width (value ∷ rest) mem =
    if width == 1 || width == 2 || width == 4 || width == 8
    then some (sign_extend width value, record mem { stdin = rest })
    else none

-- `_mem_read_special`. The state that a read of `CHECKPOINT_ADDR` logs goes to a file.
unfoldable pub mem_read_special : ℕ → ℕ → MemSystem → Option (ℕ × MemSystem)
unfolding read_input
mem_read_special addr width mem =
    if null_addr == addr
    then none
    else if io_char_addr == addr
    then read_input width mem.stdin mem
    else if ret_from_main_addr == addr
    then some (0, mem)
    else if checkpoint_addr == addr
    then some (0, mem)
    else none

-- `_mem_write_special`.
unfoldable pub mem_write_special : ℕ → ℕ → ℕ → MemSystem → Option (WriteRetCode × MemSystem)
mem_write_special addr value width mem =
    if null_addr == addr
    then some (write_success, mem)
    else if io_char_addr == addr
    then (if width == 1 || width == 2 || width == 4 || width == 8
        then some (write_success, record mem { output = value ∷ mem.output })
        else none)
    else none

-- The block from `base` on, from byte `j` with `left` bytes to go, read with `_mem_read_LE`.
unfoldable pub read_block : Segments → ℕ → ℕ → ℕ → PageTable → List ℕ × PageTable
read_block segments base j zero ptable = ([], ptable)
read_block segments base j (suc left) ptable =
    let (byte, ptable') = mem_read_le segments (add64 base j) 1 ptable in
    let (block, ptable'') = read_block segments base (suc j) left ptable' in
    (byte ∷ block, ptable'')

-- The bytes of an evicted line, written back from byte `j` of its block on.
unfoldable pub write_block : ℕ → ℕ → List ℕ → PageTable → PageTable
write_block base j [] ptable = ptable
write_block base j (byte ∷ block) ptable =
    write_block base (suc j) block (mem_write_le (add64 base j) byte 1 ptable)

-- How a cached access stands after the loop over its bytes.
pub data Progress : Type 0 where
  stalled : MemSystem → Progress
  arrived : Cache → MemSystem → Progress

-- The first cycle of a miss: the block that is waited for, and for how long.
unfoldable pub start_miss : ℕ → Cache → MemSystem → MemSystem
start_miss block_address cache mem =
    if not (mem.inflight_addr == block_address) || not mem.inflight
    then record mem {
      inflight_addr = block_address;
      inflight_cycles = cache.delay;
      inflight = true;
    }
    else mem

-- What follows once the delay is over: the block is read from `base`, put into the cache in place
-- of another, and that one is written back if it is valid and dirty.
unfoldable pub fill_line : Operation → ℕ → ℕ → Cache → MemSystem → Option (Cache × MemSystem)
fill_line operation base block_address cache mem = do
  let (block, ptable) = read_block mem.segments base 0 cache.block_size mem.ptable
  (evicted, cache') ← handle_miss cache block_address operation (some block)
  let ptable' =
      if evicted.valid && evicted.dirty
      then write_block evicted.block_addr 0 evicted.bytes ptable
      else ptable
  some (cache', record mem { ptable = ptable'; inflight = false })

-- The address of the block that holds a byte, `address & ~(B - 1)`.
abbrev pub block_of : Cache → ℕ → ℕ
block_of cache address = bit_and address (not64 (cache.block_size - 1))

-- Where a miss reads its block from: the block of the access for a read, that of the byte that
-- missed for a write.
abbrev pub fill_base : Operation → Cache → ℕ → ℕ → ℕ
fill_base read cache addr current = block_of cache addr
fill_base write cache addr current = block_of cache current

-- The loop of `_mem_read_cache` and `_mem_write_cache` over the bytes of an access. The read's
-- unused load from the block, 8 bytes at 8 times the offset, is left out.
unfoldable pub cache_loop : Operation → ℕ → ℕ → ℕ → Cache → MemSystem → Option Progress
cache_loop operation addr current zero cache mem = some (arrived cache mem)
cache_loop operation addr current (suc left) cache mem = do
  (hit, cache1) ← check_hit cache current operation
  elim hit [
    | true ↦ cache_loop operation addr (add64 current 1) left cache1 mem
    | false ↦
        let block_address = block_of cache current in
        let mem1 = start_miss block_address cache mem in
        let cycles = u64 (mem1.inflight_cycles + (2 ^ 64 - 1)) in
        let mem2 = record mem1 { inflight_cycles = cycles } in
        elim (ltb 0 cycles) [
          | true ↦ some (stalled (record mem2 { dmem_status = in_flight; cache = some cache1 }))
          | false ↦ do
            (cache2, mem3) ←
                fill_line operation (fill_base operation cache addr current) block_address cache1
                  mem2
            cache_loop operation addr (add64 current 1) left cache2 mem3
        ]
  ]

-- `_mem_read_cache`.
unfoldable pub mem_read_cache : ℕ → ℕ → Cache → MemSystem → Option (ℕ × MemSystem)
mem_read_cache addr width cache mem = do
  progress ← cache_loop read addr addr width cache mem
  elim progress [
    | stalled mem' ↦ some (0, mem')
    | arrived cache' mem' ↦ do
      word ← get_word_cache cache' addr
      some (word, record mem' { cache = some cache'; dmem_status = ready })
  ]

-- `_mem_write_cache`.
unfoldable pub mem_write_cache : ℕ → ℕ → ℕ → Cache → MemSystem → Option (WriteRetCode × MemSystem)
mem_write_cache addr value width cache mem = do
  progress ← cache_loop write addr addr width cache mem
  elim progress [
    | stalled mem' ↦ some (write_failure, mem')
    | arrived cache' mem' ↦ do
      cache'' ← set_word_cache cache' addr value
      some (write_success, record mem' { cache = some cache''; dmem_status = ready })
  ]

mem_read_plain : ℕ → ℕ → MemSystem → ℕ × MemSystem
mem_read_plain addr width mem =
    let (value, ptable') = mem_read_le mem.segments addr width mem.ptable in
    (value, record mem { ptable = ptable' })

-- `_mem_read`.
unfoldable pub mem_read : ℕ → ℕ → MemSystem → Option (ℕ × MemSystem)
unfolding mem_read_plain
mem_read addr width mem =
    if is_special_addr addr then mem_read_special addr width mem else elim mem.cache [
      | none ↦ some (mem_read_plain addr width mem)
      | some cache ↦
          if leb (seg_start mem.segments data_seg) addr
          then mem_read_cache addr width cache mem
          else some (mem_read_plain addr width mem)
    ]

mem_write_plain : ℕ → ℕ → ℕ → MemSystem → WriteRetCode × MemSystem
mem_write_plain addr value width mem = (
  if width == 0 then write_failure else write_success,
  record mem { ptable = mem_write_le addr value width mem.ptable },
)

-- `_mem_write`.
unfoldable pub mem_write : ℕ → ℕ → ℕ → MemSystem → Option (WriteRetCode × MemSystem)
unfolding mem_write_plain
mem_write addr value width mem =
    if is_special_addr addr then mem_write_special addr value width mem else elim mem.cache [
      | none ↦ some (mem_write_plain addr value width mem)
      | some cache ↦
          if leb (seg_start mem.segments data_seg) addr
          then mem_write_cache addr value width cache mem
          else some (mem_write_plain addr value width mem)
    ]

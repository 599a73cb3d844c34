-- ===== src/Mem/Access/Delay.antt =====
-- The miss penalty of src/base/mem.c: the memory stage repeats a read that is in flight, and the
-- read is answered once the delay is over.
use ch_arm_v5_system_emulato.Base.{
  ℕ, zero, suc, ◌^◌, ◌≤◌, ◌<◌, true, false, Option, none, some, ◌>>=◌, leb, ltb, if◌then◌else◌, ◌≡◌,
  refl, ap, ◌∙◌, arith,
}
use ch_arm_v5_system_emulato.Isa.{ready, in_flight}
use ch_arm_v5_system_emulato.Cache.{Cache, read}
use ch_arm_v5_system_emulato.Cache.Lines.{line_of}
use ch_arm_v5_system_emulato.Mem.Bytes.{seg_start, data_seg, is_special_addr}
use ch_arm_v5_system_emulato.Mem.Bytes.LittleEndian.{le_value, le_value-ext}
use ch_arm_v5_system_emulato.Mem.Access.{MemSystem, start_miss, block_of, mem_read, mem_read_cache}
use ch_arm_v5_system_emulato.Mem.Access.Coherent.{seen, IsCoherent}
use ch_arm_v5_system_emulato.Mem.Access.Hit.{counted, check_hit-miss}
use ch_arm_v5_system_emulato.Mem.Access.Loop.{Inside}
use ch_arm_v5_system_emulato.Mem.Access.Missing.{
  to_wait, left_after, waiting, counted-line_of, start_miss-segments, start_miss-again,
  cache_loop-wait, cache_loop-arrives,
}
use ch_arm_v5_system_emulato.Mem.Access.Read.{
  waiting_same, mem_read_cache-stalled, Answer, answered,
}

-- The answer of the last of `n + 1` reads of one address, the memory going from each to the next.
unfoldable pub read_again : ℕ → ℕ → ℕ → MemSystem → Option (ℕ × MemSystem)
read_again zero addr width mem = mem_read addr width mem
read_again (suc n) addr width mem = do
  (value, mem') ← mem_read addr width mem
  read_again n addr width mem'

-- The state of a read that is missing and has `suc n` cycles to go.
record Pending (addr n : ℕ) (cache : Cache) (mem : MemSystem) (b s : ℕ) : Type 0 where
  ordinary : is_special_addr addr ≡ false
  data_address : leb (seg_start mem.segments data_seg) addr ≡ true
  cached : mem.cache ≡ some cache
  coherent : IsCoherent cache mem.ptable b s
  inside : Inside cache b addr 8
  miss : line_of cache addr ≡ none
  cycles : to_wait cache addr mem ≡ suc n
  few : suc n < 2 ^ 64

mem_read-cached :
    (addr n width : ℕ) (cache : Cache) (mem : MemSystem) (b s : ℕ)
    → Pending addr n cache mem b s
    → mem_read addr width mem ≡ mem_read_cache addr width cache mem
unfolding mem_read
mem_read-cached addr n width cache mem b s p =
    simp (p.ordinary, p.cached, p.data_address, if◌then◌else◌) refl

-- One cycle less.
Pending-suc :
    (addr n left : ℕ) (cache : Cache) (mem : MemSystem) (b s : ℕ)
    → Pending addr (suc n) cache mem b s
    → (mem_read addr (suc left) mem ≡ some (0, waiting cache addr mem))
      × Pending addr n (counted cache) (waiting cache addr mem) b s
unfolding start_miss
Pending-suc addr n left cache mem b s p =
    let (coherent, same) = waiting_same cache addr mem b s p.coherent in
    let more : ltb 0 (left_after (to_wait cache addr mem)) ≡ true =
      let f = p.few in let c = p.cycles in ground arith in
    (
      mem_read-cached addr (suc n) (suc left) cache mem b s p
          ∙ mem_read_cache-stalled addr (suc left) cache mem (waiting cache addr mem) (
              cache_loop-wait read addr left cache mem
                (check_hit-miss cache addr read p.coherent.used p.miss) more),
      record {
        ordinary = p.ordinary;
        data_address =
            ap (λ m. leb (seg_start m data_seg) addr)
              (start_miss-segments (block_of cache addr) cache mem)
            ∙ p.data_address;
        cached = refl;
        coherent = coherent;
        inside = p.inside;
        miss = counted-line_of cache addr ∙ p.miss;
        cycles =
            start_miss-again (block_of cache addr) cache (counted cache) mem
              (waiting cache addr mem) refl refl
            ∙ (let f = p.few in let c = p.cycles in ground arith);
        few = let f = p.few in omega arith;
      },
    )

-- The last cycle.
Pending-last :
    (addr left : ℕ) (cache : Cache) (mem : MemSystem) (b s : ℕ)
    → left < 8
    → Pending addr 0 cache mem b s
    → (a : Answer addr (suc left) cache mem b s) × (mem_read addr (suc left) mem
        ≡ some (le_value (seen cache mem.ptable) addr 8, a.mem'))
Pending-last addr left cache mem b s short p =
    let (fits, whole) = p.inside in
    let last : ltb 0 (left_after (to_wait cache addr mem)) ≡ false =
      let c = p.cycles in ground arith in
    let arrival =
      cache_loop-arrives read addr left cache mem b s p.coherent (fits, omega arith) p.miss last in
    let a = answered addr left cache mem b s p.inside arrival in
    (a, mem_read-cached addr 0 (suc left) cache mem b s p ∙ a.runs)

-- The result of attempt `k`, where attempt `n` is the one that is answered.
pub record Attempt (addr width k n value : ℕ) (mem : MemSystem) : Type 0 where
  pub mem' : MemSystem
  pub runs : read_again k addr width mem ≡ some (if ltb k n then 0 else value, mem')
  pub status : mem'.dmem_status ≡ (if ltb k n then in_flight else ready)

Pending-Attempt :
    (k addr n left : ℕ) (cache : Cache) (mem : MemSystem) (b s : ℕ)
    → left < 8
    → k ≤ n
    → Pending addr n cache mem b s
    → Attempt addr (suc left) k n (le_value (seen cache mem.ptable) addr 8) mem
unfolding read_again
Pending-Attempt zero addr zero left cache mem b s short h p =
    let (a, runs) = Pending-last addr left cache mem b s short p in
    record { mem' = a.mem'; runs = runs; status = a.status }
Pending-Attempt zero addr (suc n) left cache mem b s short h p =
    let (runs, next) = Pending-suc addr n left cache mem b s p in
    let early : ltb 0 (suc n) ≡ true = ground arith in
    record { mem' = waiting cache addr mem; runs = rw early runs; status = rw early refl }
Pending-Attempt (suc k) addr zero left cache mem b s short h p = absurd (omega arith)
Pending-Attempt (suc k) addr (suc n) left cache mem b s short h p =
    let (runs, next) = Pending-suc addr n left cache mem b s p in
    let rest =
      Pending-Attempt k addr n left (counted cache) (waiting cache addr mem) b s short (omega arith)
        next in
    let (_, same) = waiting_same cache addr mem b s p.coherent in
    let bytes =
      le_value-ext (seen (counted cache) (waiting cache addr mem).ptable) (seen cache mem.ptable)
        addr 8 same in
    let less : ltb (suc k) (suc n) ≡ ltb k n = ground arith in
    record {
      mem' = rest.mem';
      runs = rw (runs, ◌>>=◌, less, ← bytes) rest.runs;
      status = rw less rest.status;
    }

-- On a coherent data cache whose delay is n + 1, below 2^64, with no miss in flight, a read of 1
-- to 8 bytes at an ordinary data address below 2^64, whose word lies in one block that is not in
-- the cache, is in flight for the n attempts 0 to n - 1 of the same read, one fewer than the
-- delay, and gives 0 there, and is ready at attempt n with the word of the eight bytes that were
-- seen from the address on.
pub read_again-delay :
    (k n addr left : ℕ) (cache : Cache) (mem : MemSystem) (b s : ℕ)
    → is_special_addr addr ≡ false
    → leb (seg_start mem.segments data_seg) addr ≡ true
    → mem.cache ≡ some cache
    → IsCoherent cache mem.ptable b s
    → Inside cache b addr 8
    → line_of cache addr ≡ none
    → mem.inflight ≡ false
    → cache.delay ≡ suc n
    → cache.delay < 2 ^ 64
    → left < 8
    → k ≤ n
    → Attempt addr (suc left) k n (le_value (seen cache mem.ptable) addr 8) mem
unfolding start_miss
read_again-delay k n addr left cache mem b s ordinary data_address cached coherent inside miss idle
      delay few short h =
    Pending-Attempt k addr n left cache mem b s short h (record {
      ordinary = ordinary;
      data_address = data_address;
      cached = cached;
      coherent = coherent;
      inside = inside;
      miss = miss;
      cycles = ground arith;
      few = omega arith;
    })

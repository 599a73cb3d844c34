-- ===== src/Mem/Access/Read.antt =====
-- `_mem_read_cache` of src/base/mem.c on a coherent cache, for an access that lies in one block.
use mathlib.Core.Path.{subst}
use ch_arm_v5_system_emulato.Base.{
  ℕ, suc, ◌+◌, ◌^◌, ◌≤◌, ◌<◌, true, none, some, ◌>>=◌, ltb, add64, Option-cases, Bool-cases, ◌≡◌,
  ◌⊎◌, inl, inr, refl, ap, ◌∙◌, arith,
}
use ch_arm_v5_system_emulato.Isa.{ready, in_flight}
use ch_arm_v5_system_emulato.Cache.{Cache, Operation, read, offset_in, get_word_cache}
use ch_arm_v5_system_emulato.Cache.Lines.{line_of}
use ch_arm_v5_system_emulato.Mem.Bytes.LittleEndian.{le_value, le_value-ext}
use ch_arm_v5_system_emulato.Mem.Access.{
  MemSystem, stalled, arrived, block_of, cache_loop, mem_read_cache,
}
use ch_arm_v5_system_emulato.Mem.Access.Coherent.{seen, IsCoherent}
use ch_arm_v5_system_emulato.Mem.Access.Hit.{counted, counted-IsCoherent, check_hit-miss}
use ch_arm_v5_system_emulato.Mem.Access.Loop.{Inside, Arrival, cache_loop-hits}
use ch_arm_v5_system_emulato.Mem.Access.Missing.{
  to_wait, left_after, waiting, counted-seen, start_miss-segments, start_miss-ptable,
  cache_loop-wait, cache_loop-arrives,
}
use ch_arm_v5_system_emulato.Mem.Access.Word.{get_word_cache-seen}

-- The access waits: its block is not there, and there are cycles to go.
pub record Stall (operation : Operation) (addr width : ℕ) (cache : Cache) (mem : MemSystem)
    : Type 0 where
  pub miss : line_of cache addr ≡ none
  pub more : ltb 0 (left_after (to_wait cache addr mem)) ≡ true
  pub runs :
      cache_loop operation addr addr width cache mem ≡ some (stalled (waiting cache addr mem))

-- The loop either waits or arrives.
pub cache_loop-cases :
    (operation : Operation) (addr left : ℕ) (cache : Cache) (mem : MemSystem) (b s : ℕ)
    → IsCoherent cache mem.ptable b s
    → Inside cache b addr (suc left)
    → Stall operation addr (suc left) cache mem
      ⊎ Arrival operation addr addr (suc left) cache mem b s
cache_loop-cases operation addr left cache mem b s h (fits, inside) =
    elim (Option-cases (line_of cache addr)) [
      | inr (l, found) ↦
          let start : add64 addr 0 ≡ addr = omega arith in
          let whole : offset_in cache addr + (0 + suc left) ≤ 2 ^ b = omega arith in
          inr (
            subst (λ a. Arrival operation addr a (suc left) cache mem b s) start
              (cache_loop-hits operation addr 0 (suc left) cache mem b s l h (fits, whole) found))
      | inl miss ↦ elim (Bool-cases (ltb 0 (left_after (to_wait cache addr mem)))) [
        | inl more ↦ inl (record {
          miss = miss;
          more = more;
          runs =
              cache_loop-wait operation addr left cache mem
                (check_hit-miss cache addr operation h.used miss) more;
        })
        | inr last ↦
            inr (cache_loop-arrives operation addr left cache mem b s h (fits, inside) miss last)
      ]
    ]

-- What a read through the cache leaves, and its result: nothing yet, or the word of the bytes that
-- are seen.
pub record CachedRead (addr width : ℕ) (cache : Cache) (mem : MemSystem) (b s : ℕ) : Type 0 where
  pub value : ℕ
  pub cache' : Cache
  pub mem' : MemSystem
  pub runs : mem_read_cache addr width cache mem ≡ some (value, mem')
  pub kept : mem'.cache ≡ some cache'
  pub segments : mem'.segments ≡ mem.segments
  pub coherent : IsCoherent cache' mem'.ptable b s
  pub same : (x : ℕ) → seen cache' mem'.ptable x ≡ seen cache mem.ptable x
  pub status :
      ((mem'.dmem_status ≡ in_flight) × (line_of cache addr ≡ none))
      ⊎ ((mem'.dmem_status ≡ ready) × (value ≡ le_value (seen cache mem.ptable) addr 8))

pub mem_read_cache-stalled :
    (addr width : ℕ) (cache : Cache) (mem mem' : MemSystem)
    → cache_loop read addr addr width cache mem ≡ some (stalled mem')
    → mem_read_cache addr width cache mem ≡ some (0, mem')
unfolding mem_read_cache
mem_read_cache-stalled addr width cache mem mem' runs = rw (runs, ◌>>=◌) refl

mem_read_cache-arrived :
    (addr width word : ℕ) (cache cache' : Cache) (mem mem' : MemSystem)
    → cache_loop read addr addr width cache mem ≡ some (arrived cache' mem')
    → get_word_cache cache' addr ≡ some word
    → mem_read_cache addr width cache mem
      ≡ some (word, record mem' { cache = some cache'; dmem_status = ready })
unfolding mem_read_cache
mem_read_cache-arrived addr width word cache cache' mem mem' runs found =
    rw (runs, ◌>>=◌, found) refl

-- An access that waits changes no byte that is seen.
pub waiting_same :
    (cache : Cache) (addr : ℕ) (mem : MemSystem) (b s : ℕ)
    → IsCoherent cache mem.ptable b s
    → IsCoherent (counted cache) (waiting cache addr mem).ptable b s
      × ((x : ℕ) → seen (counted cache) (waiting cache addr mem).ptable x ≡ seen cache mem.ptable x)
waiting_same cache addr mem b s h =
    let same = start_miss-ptable (block_of cache addr) cache mem in
    (
      rw same (counted-IsCoherent cache mem.ptable b s h),
      λ x. ap (λ p. seen (counted cache) p x) same ∙ counted-seen cache mem.ptable x,
    )

-- The answer to a read.
pub record Answer (addr width : ℕ) (cache : Cache) (mem : MemSystem) (b s : ℕ) : Type 0 where
  pub cache' : Cache
  pub mem' : MemSystem
  pub runs :
      mem_read_cache addr width cache mem ≡ some (le_value (seen cache mem.ptable) addr 8, mem')
  pub kept : mem'.cache ≡ some cache'
  pub segments : mem'.segments ≡ mem.segments
  pub status : mem'.dmem_status ≡ ready
  pub coherent : IsCoherent cache' mem'.ptable b s
  pub same : (x : ℕ) → seen cache' mem'.ptable x ≡ seen cache mem.ptable x

-- An access that arrives is answered.
pub answered :
    (addr left : ℕ) (cache : Cache) (mem : MemSystem) (b s : ℕ)
    → Inside cache b addr 8
    → Arrival read addr addr (suc left) cache mem b s
    → Answer addr (suc left) cache mem b s
answered addr left cache mem b s (fits, inside) arrival =
    let ptable' = arrival.mem'.ptable in
    let word =
      get_word_cache-seen arrival.cache' ptable' b s addr arrival.line arrival.coherent
        (fits, rw arrival.offset inside) arrival.there in
    let value =
      le_value-ext (seen arrival.cache' ptable') (seen cache mem.ptable) addr 8 arrival.same in
    record {
      cache' = arrival.cache';
      mem' = record arrival.mem' { cache = some arrival.cache'; dmem_status = ready };
      runs =
          mem_read_cache-arrived addr (suc left) (le_value (seen cache mem.ptable) addr 8) cache
            arrival.cache' mem arrival.mem' arrival.runs (word ∙ ap some value);
      kept = refl;
      segments = arrival.segments;
      status = refl;
      coherent = arrival.coherent;
      same = arrival.same;
    }

-- On a coherent data cache, a read of 1 to 8 bytes at an address below 2^64, of which a word lies
-- in one block, runs, changes no byte that is seen, and leaves a coherent cache. Either its block
-- is missing and it is in flight, or it is ready with the word of the eight bytes that are seen
-- from the address on.
pub mem_read_cache-seen :
    (addr left : ℕ) (cache : Cache) (mem : MemSystem) (b s : ℕ)
    → IsCoherent cache mem.ptable b s
    → Inside cache b addr 8
    → left < 8
    → CachedRead addr (suc left) cache mem b s
mem_read_cache-seen addr left cache mem b s h (fits, inside) short =
    elim (cache_loop-cases read addr left cache mem b s h (fits, omega arith)) [
      | inl stall ↦ record {
        value = 0;
        cache' = counted cache;
        mem' = waiting cache addr mem;
        runs = mem_read_cache-stalled addr (suc left) cache mem (waiting cache addr mem) stall.runs;
        kept = refl;
        segments = start_miss-segments (block_of cache addr) cache mem;
        coherent = (waiting_same cache addr mem b s h).0;
        same = (waiting_same cache addr mem b s h).1;
        status = inl (refl, stall.miss);
      }
      | inr arrival ↦
          let answer = answered addr left cache mem b s (fits, inside) arrival in
          record {
            value = le_value (seen cache mem.ptable) addr 8;
            cache' = answer.cache';
            mem' = answer.mem';
            runs = answer.runs;
            kept = answer.kept;
            segments = answer.segments;
            coherent = answer.coherent;
            same = answer.same;
            status = inr (answer.status, refl);
          }
    ]

-- ===== src/Mem/Access/Write.antt =====
-- `_mem_write_cache` of src/base/mem.c on a coherent cache, for a word that lies in one block.
use ch_arm_v5_system_emulato.Base.{
  ℕ, suc, ◌*◌, ◌%◌, ◌^◌, ◌<◌, none, some, ◌>>=◌, ltb, add64, sub64, ◌>>>◌, if◌then◌else◌,
  Bool-cases, ◌≡◌, ◌⊎◌, inl, inr, refl, sym, ap, ◌∙◌, arith,
}
use ch_arm_v5_system_emulato.Isa.{ready, in_flight}
use ch_arm_v5_system_emulato.Cache.{Cache, write, set_word_cache}
use ch_arm_v5_system_emulato.Cache.Lines.{line_of}
use ch_arm_v5_system_emulato.Mem.Access.{
  MemSystem, WriteRetCode, write_failure, write_success, stalled, arrived, block_of, cache_loop,
  mem_write_cache,
}
use ch_arm_v5_system_emulato.Mem.Access.Coherent.{seen, IsCoherent}
use ch_arm_v5_system_emulato.Mem.Access.Hit.{counted}
use ch_arm_v5_system_emulato.Mem.Access.Loop.{Inside}
use ch_arm_v5_system_emulato.Mem.Access.Missing.{waiting, start_miss-segments}
use ch_arm_v5_system_emulato.Mem.Access.Read.{waiting_same, cache_loop-cases}
use ch_arm_v5_system_emulato.Mem.Access.Store.{set_word_cache-Store}

-- What a write through the cache leaves, and its result: nothing is written yet, or exactly the
-- eight bytes from the address on are those of the value.
pub record CachedWrite (addr value width : ℕ) (cache : Cache) (mem : MemSystem) (b s : ℕ)
    : Type 0 where
  pub code : WriteRetCode
  pub cache' : Cache
  pub mem' : MemSystem
  pub runs : mem_write_cache addr value width cache mem ≡ some (code, mem')
  pub kept : mem'.cache ≡ some cache'
  pub segments : mem'.segments ≡ mem.segments
  pub coherent : IsCoherent cache' mem'.ptable b s
  pub status :
      ((mem'.dmem_status ≡ in_flight)
        × (code ≡ write_failure)
        × (line_of cache addr ≡ none)
        × ((x : ℕ) → seen cache' mem'.ptable x ≡ seen cache mem.ptable x))
      ⊎ ((mem'.dmem_status ≡ ready)
          × (code ≡ write_success)
          × ((x : ℕ)
              → x < 2 ^ 64
              → seen cache' mem'.ptable x ≡ (
                  if ltb (sub64 x addr) 8
                  then value >>> (8 * sub64 x addr) % 256
                  else seen cache mem.ptable x)))

mem_write_cache-stalled :
    (addr value width : ℕ) (cache : Cache) (mem mem' : MemSystem)
    → cache_loop write addr addr width cache mem ≡ some (stalled mem')
    → mem_write_cache addr value width cache mem ≡ some (write_failure, mem')
unfolding mem_write_cache
mem_write_cache-stalled addr value width cache mem mem' runs = rw (runs, ◌>>=◌) refl

mem_write_cache-arrived :
    (addr value width : ℕ) (cache cache' cache'' : Cache) (mem mem' : MemSystem)
    → cache_loop write addr addr width cache mem ≡ some (arrived cache' mem')
    → set_word_cache cache' addr value ≡ some cache''
    → mem_write_cache addr value width cache mem
      ≡ some (write_success, record mem' { cache = some cache''; dmem_status = ready })
unfolding mem_write_cache
mem_write_cache-arrived addr value width cache cache' cache'' mem mem' runs stored =
    rw (runs, ◌>>=◌, stored) refl

-- On a coherent data cache, a write of 1 to 8 bytes at an address below 2^64, of which a word lies
-- in one block, runs and leaves a coherent cache. Either its block is missing, it fails as in
-- flight, and no byte that is seen changes; or it succeeds, and the eight bytes from the address
-- on are those of the value and no other byte that is seen below 2^64 changes.
pub mem_write_cache-seen :
    (addr value left : ℕ) (cache : Cache) (mem : MemSystem) (b s : ℕ)
    → IsCoherent cache mem.ptable b s
    → Inside cache b addr 8
    → left < 8
    → CachedWrite addr value (suc left) cache mem b s
mem_write_cache-seen addr value left cache mem b s h (fits, inside) short =
    elim (cache_loop-cases write addr left cache mem b s h (fits, omega arith)) [
      | inl stall ↦ record {
        code = write_failure;
        cache' = counted cache;
        mem' = waiting cache addr mem;
        runs =
            mem_write_cache-stalled addr value (suc left) cache mem (waiting cache addr mem)
              stall.runs;
        kept = refl;
        segments = start_miss-segments (block_of cache addr) cache mem;
        coherent = (waiting_same cache addr mem b s h).0;
        status = inl (refl, refl, stall.miss, (waiting_same cache addr mem b s h).1);
      }
      | inr arrival ↦
          let store =
            set_word_cache-Store arrival.cache' arrival.mem'.ptable b s addr value arrival.line
              arrival.coherent (fits, rw arrival.offset inside) arrival.there in
          record {
            code = write_success;
            cache' = store.cache';
            mem' = record arrival.mem' { cache = some store.cache'; dmem_status = ready };
            runs =
                mem_write_cache-arrived addr value (suc left) cache arrival.cache' store.cache' mem
                  arrival.mem' arrival.runs store.runs;
            kept = refl;
            segments = arrival.segments;
            coherent = store.coherent;
            status = inr (
              refl,
              refl,
              λ x hx.
                  let j = sub64 x addr in
                  let back : add64 addr j ≡ x = omega arith in
                  elim (Bool-cases (ltb j 8)) [
                    | inl lt ↦ rw lt (
                        ap (seen store.cache' arrival.mem'.ptable) (sym back)
                        ∙ store.inside j (ground arith))
                    | inr ge ↦
                        rw ge (store.outside x (λ i hi e. absurd (ground arith)) ∙ arrival.same x)
                  ],
            );
          }
    ]

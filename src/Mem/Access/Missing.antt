-- ===== src/Mem/Access/Missing.antt =====
-- The first byte of an access misses in the loop of `_mem_read_cache` and `_mem_write_cache` of
-- src/base/mem.c: the access waits, or the block comes in and all bytes hit.
use ch_arm_v5_system_emulato.Base.{
  ℕ, suc, ◌+◌, ◌-◌, ◌^◌, true, false, none, some, ◌>>=◌, ltb, u64, add64, ◌≡◌, refl, sym, ap, ◌∙◌,
  arith,
}
use ch_arm_v5_system_emulato.Isa.{in_flight}
use ch_arm_v5_system_emulato.Cache.{Cache, Operation, read, write, get_set, offset_in, check_hit}
use ch_arm_v5_system_emulato.Cache.Miss.{same_set}
use ch_arm_v5_system_emulato.Cache.Lines.{line_of, line_of-block}
use ch_arm_v5_system_emulato.Mem.Ptable.{PageTable}
use ch_arm_v5_system_emulato.Mem.Access.{
  MemSystem, stalled, start_miss, fill_line, block_of, fill_base, cache_loop,
}
use ch_arm_v5_system_emulato.Mem.Access.Coherent.{seen, IsCoherent}
use ch_arm_v5_system_emulato.Mem.Access.Replaced.{Replaced-seen, Replaced-here}
use ch_arm_v5_system_emulato.Mem.Access.Replaced.Coherence.{Replaced-IsCoherent}
use ch_arm_v5_system_emulato.Mem.Access.Fill.{fill_line-Refilled}
use ch_arm_v5_system_emulato.Mem.Access.Hit.{counted, counted-IsCoherent, check_hit-miss}
use ch_arm_v5_system_emulato.Mem.Access.Loop.{Inside, block_of-parts, Arrival, cache_loop-hits}

-- The cycles that are left once the miss has begun, this one included.
abbrev pub to_wait : Cache → ℕ → MemSystem → ℕ
to_wait cache addr mem = (start_miss (block_of cache addr) cache mem).inflight_cycles

-- Those left after this cycle.
abbrev pub left_after : ℕ → ℕ
left_after cycles = u64 (cycles + (2 ^ 64 - 1))

-- The state of an access that waits.
abbrev pub waiting : Cache → ℕ → MemSystem → MemSystem
waiting cache addr mem = record (start_miss (block_of cache addr) cache mem) {
  inflight_cycles = left_after (to_wait cache addr mem);
  dmem_status = in_flight;
  cache = some (counted cache);
}

pub cache_loop-wait :
    (operation : Operation) (addr left : ℕ) (cache : Cache) (mem : MemSystem)
    → check_hit cache addr operation ≡ some (false, counted cache)
    → ltb 0 (left_after (to_wait cache addr mem)) ≡ true
    → cache_loop operation addr addr (suc left) cache mem ≡ some (stalled (waiting cache addr mem))
unfolding cache_loop
cache_loop-wait operation addr left cache mem miss more = rw (miss, ◌>>=◌, more) refl

-- The loop goes on with the cache and the memory that `fill_line` leaves.
cache_loop-fill :
    (operation : Operation) (addr left : ℕ) (cache cache' : Cache) (mem mem' : MemSystem)
    → check_hit cache addr operation ≡ some (false, counted cache)
    → ltb 0 (left_after (to_wait cache addr mem)) ≡ false
    → fill_line operation
        (fill_base operation cache addr addr)
        (block_of cache addr)
        (counted cache)
        (record (start_miss (block_of cache addr) cache mem) {
          inflight_cycles = left_after (to_wait cache addr mem);
        })
      ≡ some (cache', mem')
    → cache_loop operation addr addr (suc left) cache mem
      ≡ cache_loop operation addr (add64 addr 1) left cache' mem'
unfolding cache_loop
cache_loop-fill operation addr left cache cache' mem mem' miss last fill =
    rw (miss, ◌>>=◌, last, fill) refl

pub start_miss-segments :
    (a : ℕ) (cache : Cache) (mem : MemSystem) → (start_miss a cache mem).segments ≡ mem.segments
unfolding start_miss
start_miss-segments a cache mem = ground arith

-- A miss begins or goes on without a change of the memory.
pub start_miss-ptable :
    (a : ℕ) (cache : Cache) (mem : MemSystem) → (start_miss a cache mem).ptable ≡ mem.ptable
unfolding start_miss
start_miss-ptable a cache mem = ground arith

pub counted-seen :
    (cache : Cache) (ptable : PageTable) (x : ℕ)
    → seen (counted cache) ptable x ≡ seen cache ptable x
unfolding seen line_of get_set
counted-seen cache ptable x = refl

pub counted-line_of : (cache : Cache) (x : ℕ) → line_of (counted cache) x ≡ line_of cache x
unfolding line_of get_set
counted-line_of cache x = refl

counted-offset_in : (cache : Cache) (x : ℕ) → offset_in (counted cache) x ≡ offset_in cache x
counted-offset_in cache x = refl

fill_base-here :
    (operation : Operation) (cache : Cache) (addr : ℕ)
    → fill_base operation cache addr addr ≡ block_of cache addr
fill_base-here read cache addr = refl
fill_base-here write cache addr = refl

-- A miss that has begun goes on.
pub start_miss-again :
    (a : ℕ) (cache cache' : Cache) (mem mem' : MemSystem)
    → mem'.inflight_addr ≡ (start_miss a cache mem).inflight_addr
    → mem'.inflight ≡ (start_miss a cache mem).inflight
    → (start_miss a cache' mem').inflight_cycles ≡ mem'.inflight_cycles
unfolding start_miss
start_miss-again a cache cache' mem mem' e f = ground arith

-- The last cycle of a miss: the block comes in, and the access arrives.
pub cache_loop-arrives :
    (operation : Operation) (addr left : ℕ) (cache : Cache) (mem : MemSystem) (b s : ℕ)
    → IsCoherent cache mem.ptable b s
    → Inside cache b addr (suc left)
    → line_of cache addr ≡ none
    → ltb 0 (left_after (to_wait cache addr mem)) ≡ false
    → Arrival operation addr addr (suc left) cache mem b s
cache_loop-arrives operation addr left cache mem b s h (fits, inside) miss last =
    let c = block_of cache addr in
    let (ck, ct, co, below) = block_of-parts cache b s h.geometry addr fits in
    let no_block : line_of cache c ≡ none = line_of-block cache c addr ck ct ∙ miss in
    let mem1 : MemSystem = record (start_miss c cache mem) {
      inflight_cycles = left_after (to_wait cache addr mem);
    } in
    let same_memory : mem1.ptable ≡ mem.ptable = start_miss-ptable c cache mem in
    let h1 : IsCoherent (counted cache) mem1.ptable b s =
      rw same_memory (counted-IsCoherent cache mem.ptable b s h) in
    let fill =
      fill_line-Refilled operation c (counted cache) mem1 b s h1
        (counted-line_of cache c ∙ no_block) (counted-offset_in cache c ∙ co) below in
    let r = fill.replaced in
    let mem2 : MemSystem = record mem1 { ptable = fill.ptable'; inflight = false } in
    let cache2 = fill.cache' in
    let h2 = Replaced-IsCoherent (counted cache) cache2 mem1.ptable fill.ptable' b s c h1 r in
    let seen2 = Replaced-seen (counted cache) cache2 mem1.ptable fill.ptable' b s c h1 r in
    let here = Replaced-here (counted cache) cache2 mem1.ptable fill.ptable' b s c h1 r in
    let (k2, t2, o2) = same_set cache cache2 addr r.assoc r.block_size r.capacity in
    let (kc, tc, _) = same_set cache cache2 c r.assoc r.block_size r.capacity in
    let found = line_of-block cache2 addr c (k2 ∙ sym ck ∙ sym kc) (t2 ∙ sym ct ∙ sym tc) ∙ here in
    let rest =
      cache_loop-hits operation addr 1 left cache2 mem2 b s r.line h2 (fits, omega arith) found in
    record {
      cache' = rest.cache';
      mem' = rest.mem';
      runs =
          cache_loop-fill operation addr left cache cache2 mem mem2
            (check_hit-miss cache addr operation h.used miss) last
            (ap (λ a. fill_line operation a c (counted cache) mem1)
                (fill_base-here operation cache addr)
              ∙ fill.runs)
          ∙ rest.runs;
      shape = record {
        assoc = rest.shape.assoc ∙ r.assoc;
        block_size = rest.shape.block_size ∙ r.block_size;
        capacity = rest.shape.capacity ∙ r.capacity;
      };
      coherent = rest.coherent;
      same = λ x.
          rest.same x
          ∙ seen2 x
          ∙ ap (λ p. seen (counted cache) p x) same_memory
          ∙ counted-seen cache mem.ptable x;
      line = rest.line;
      there = rest.there;
      offset = rest.offset ∙ o2;
      segments = rest.segments ∙ start_miss-segments c cache mem;
    }

-- ===== src/Cache/Hit.antt =====
-- `check_hit` and `access_data` of src/cache/cache.c on a cache in use: what is counted, and that
-- the address is in the cache afterwards.
use ch_arm_v5_system_emulato.Base.{
  ℕ, suc, ◌+◌, ◌^◌, ◌≤◌, ◌<◌, Bool, true, false, Option, none, some, ◌>>=◌, length, get_elem?, set,
  if◌then◌else◌, Option-cases, length-set, get_elem?-set_self, get_elem?-none, ◌≡◌, inl, inr, refl,
  ap, ◌∙◌, arith,
}
use ch_arm_v5_system_emulato.Cache.{
  CacheSet, Cache, Operation, get_set, tag_of, find_line, get_line, put_line, check_hit,
  access_data, is_write,
}
use ch_arm_v5_system_emulato.Cache.Valid.{
  IsCache, touch-lines, find_line-put, find_line-same, find_line-lt, set_of, put-IsCache,
}
use ch_arm_v5_system_emulato.Cache.Miss.{evictions, filled, handle_miss-Filled, same_set}

is_found : Option (Option ℕ) → Bool
is_found none = false
is_found (some none) = false
is_found (some (some i)) = true

-- Whether `get_line` gives a line.
unfoldable pub is_cached : Cache → ℕ → Bool
unfolding is_found
is_cached cache addr = is_found (get_line cache addr)

is_cached-found :
    (cache : Cache) (addr : ℕ) (s : CacheSet) (found : Option ℕ)
    → get_elem? cache.sets (get_set cache addr) ≡ some s
    → find_line (tag_of cache addr) 0 s.lines ≡ found
    → is_cached cache addr ≡ is_found (some found)
unfolding is_cached get_line
is_cached-found cache addr s found e f = rw (e, ◌>>=◌, f) refl

counted-IsCache :
    (cache : Cache) → IsCache cache → IsCache (record cache { miss_count = suc cache.miss_count })
unfolding get_set
counted-IsCache cache ok = record {
  low = ok.low;
  high = ok.high;
  index = ok.index;
  lines = ok.lines;
}

access_data-miss :
    (cache : Cache) (addr : ℕ) (operation : Operation) (s : CacheSet)
    → IsCache cache
    → get_elem? cache.sets (get_set cache addr) ≡ some s
    → find_line (tag_of cache addr) 0 s.lines ≡ none
    → (cache' : Cache) × (access_data cache addr operation ≡ some cache')
      × IsCache cache'
      × (is_cached cache' addr ≡ true)
      × (cache'.hit_count ≡ (if is_cached cache addr then suc cache.hit_count else cache.hit_count))
      × (cache'.miss_count
          ≡ (if is_cached cache addr then cache.miss_count else suc cache.miss_count))
      × (evictions cache' + cache.miss_count ≤ evictions cache + cache'.miss_count)
unfolding access_data check_hit get_set is_found
access_data-miss cache addr operation s ok there miss =
    let counted : Cache = record cache { miss_count = suc cache.miss_count } in
    let ok' = counted-IsCache cache ok in
    let r = handle_miss-Filled counted addr operation none s ok' there in
    let line = filled counted addr operation none in
    let (at, tag, offset) = same_set counted r.cache' addr r.assoc r.block_size r.capacity in
    let size = ok.lines (get_set cache addr) s there in
    let below : r.i < length s.lines = let lt = r.lt in omega arith in
    let absent : is_cached cache addr ≡ false = is_cached-found cache addr s none there miss in
    (
      r.cache',
      rw (there, ◌>>=◌, miss, if◌then◌else◌, r.runs) refl,
      put-IsCache counted r.cache' (get_set counted addr) r.s' ok' r.sets r.assoc r.block_size
          r.capacity (ap length r.lines ∙ length-set s.lines r.i line ∙ size),
      is_cached-found r.cache' addr r.s' (some r.i)
          (rw (at, r.sets)
            (get_elem?-set_self cache.sets (get_set cache addr) r.s' (ok.index addr)))
          (rw (tag, r.lines)
            (find_line-put (tag_of cache addr) r.i s.lines line miss below refl refl)),
      rw absent r.hits,
      rw absent r.misses,
      let once = r.evicted_once in let same = r.misses in omega arith,
    )

access_data-hit :
    (cache : Cache) (addr i : ℕ) (operation : Operation) (s : CacheSet)
    → IsCache cache
    → get_elem? cache.sets (get_set cache addr) ≡ some s
    → find_line (tag_of cache addr) 0 s.lines ≡ some i
    → (cache' : Cache) × (access_data cache addr operation ≡ some cache')
      × IsCache cache'
      × (is_cached cache' addr ≡ true)
      × (cache'.hit_count ≡ (if is_cached cache addr then suc cache.hit_count else cache.hit_count))
      × (cache'.miss_count
          ≡ (if is_cached cache addr then cache.miss_count else suc cache.miss_count))
      × (evictions cache' + cache.miss_count ≤ evictions cache + cache'.miss_count)
unfolding access_data check_hit get_set is_found
access_data-hit cache addr i operation s ok there hit =
    let size = ok.lines (get_set cache addr) s there in
    let below = find_line-lt (tag_of cache addr) 0 i s.lines hit in
    elim (Option-cases (get_elem? s.lines i)) [
      | inl e ↦ absurd (let n = get_elem?-none s.lines i e in omega arith)
      | inr (line, e) ↦
          let line' = if is_write operation then record line { dirty = true } else line in
          let (s', touched, lines) =
            touch-lines cache (put_line s i line') i ok.low ok.high (omega arith) in
          let cache' : Cache = record cache {
            hit_count = suc cache.hit_count;
            sets = set cache.sets (get_set cache addr) s';
          } in
          let present : is_cached cache addr ≡ true =
            is_cached-found cache addr s (some i) there hit in
          (
            cache',
            rw (there, ◌>>=◌, hit, e, touched, if◌then◌else◌) refl,
            put-IsCache cache cache' (get_set cache addr) s' ok refl refl refl refl
                (ap length lines ∙ length-set s.lines i line' ∙ size),
            is_cached-found cache' addr s' (some i)
                (get_elem?-set_self cache.sets (get_set cache addr) s' (ok.index addr))
                (rw lines (
                  find_line-same (tag_of cache addr) 0 i s.lines line line' e (ground arith)
                    (ground arith)
                  ∙ hit)),
            rw present refl,
            rw present refl,
            omega arith,
          )
    ]

-- The counts without a bound, and evictions that grow no more than the misses.
pub access_data-counted :
    (cache : Cache) (addr : ℕ) (operation : Operation)
    → IsCache cache
    → (cache' : Cache) × (access_data cache addr operation ≡ some cache')
      × IsCache cache'
      × (is_cached cache' addr ≡ true)
      × (cache'.hit_count ≡ (if is_cached cache addr then suc cache.hit_count else cache.hit_count))
      × (cache'.miss_count
          ≡ (if is_cached cache addr then cache.miss_count else suc cache.miss_count))
      × (evictions cache' + cache.miss_count ≤ evictions cache + cache'.miss_count)
unfolding access_data check_hit
access_data-counted cache addr operation ok =
    let (s, there, size) = set_of cache addr ok in
    elim (Option-cases (find_line (tag_of cache addr) 0 s.lines)) [
      | inl miss ↦ access_data-miss cache addr operation s ok there miss
      | inr (i, hit) ↦ access_data-hit cache addr i operation s ok there hit
    ]

-- The counters, after `n` accesses more, are `int`s that have not overflowed.
pub record Fits (n : ℕ) (cache : Cache) : Type 0 where
  pub hits : n + cache.hit_count < 2 ^ 31
  pub misses : n + cache.miss_count < 2 ^ 31
  pub evicted : n + evictions cache < 2 ^ 31

-- On a cache in use whose counts of hits, misses and evictions are below 2^31 - 1, access_data
-- runs, keeps it in use, counts one hit if the address was in the cache and one miss if not,
-- afterwards the address is in the cache, and the counts are below 2^31.
pub access_data-holds :
    (cache : Cache) (addr : ℕ) (operation : Operation)
    → IsCache cache
    → Fits 1 cache
    → (cache' : Cache) × (access_data cache addr operation ≡ some cache')
      × IsCache cache'
      × (is_cached cache' addr ≡ true)
      × (cache'.hit_count ≡ (if is_cached cache addr then suc cache.hit_count else cache.hit_count))
      × (cache'.miss_count
          ≡ (if is_cached cache addr then cache.miss_count else suc cache.miss_count))
      × Fits 0 cache'
access_data-holds cache addr operation ok fits =
    let (cache', runs, used, there, hits, misses, evicted) =
      access_data-counted cache addr operation ok in
    (
      cache',
      runs,
      used,
      there,
      hits,
      misses,
      (let h = fits.hits in
          let m = fits.misses in
          let e = fits.evicted in
          record { hits = ground arith; misses = ground arith; evicted = ground arith }),
    )

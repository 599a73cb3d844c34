-- ===== src/Cache/Miss.antt =====
-- `handle_miss` and `access_data` of src/cache/cache.c on a cache in use: the block is there
-- afterwards.
use mathlib.Core.Option.{some-injective}
use ch_arm_v5_system_emulato.Base.{
  ℕ, zero, suc, ◌+◌, ◌≤◌, ◌<◌, true, List, [], ◌∷◌, Option, none, some, bit_or, u64, ◌<<<◌, length,
  get_elem?, set, take, drop, Option-cases, length-set, length-take, get_elem?-set_self,
  get_elem?-none, ◌≡◌, inl, inr, refl, sym, ap, ◌∙◌, arith,
}
use ch_arm_v5_system_emulato.Cache.{
  CacheLine, CacheSet, Cache, Operation, EvictedLine, get_set, tag_of, find_line, get_line,
  select_line, put_line, incoming, count_eviction, handle_miss, offset_in, word_of, get_word_cache,
  is_write, block_bits, set_bits,
}
use ch_arm_v5_system_emulato.Cache.Valid.{
  IsCache, get_word_cache-found, touch-lines, find_line-put, select_line-lt, set_of, put-IsCache,
}

-- The line that `handle_miss` fills.
abbrev pub filled : Cache → ℕ → Operation → Option (List ℕ) → CacheLine
filled cache addr operation block = record {
  valid = true;
  tag = tag_of cache addr;
  dirty = is_write operation;
  bytes = incoming cache block;
}

-- Some line of the set is replaced by the filled one, and the counters alone change besides.
-- The evictions that were counted, of dirty and of clean lines.
abbrev pub evictions : Cache → ℕ
evictions cache = cache.dirty_eviction_count + cache.clean_eviction_count

pub record Filled (cache : Cache) (addr : ℕ) (operation : Operation) (block : Option (List ℕ))
    (s : CacheSet) : Type 0 where
  pub i : ℕ
  pub s' : CacheSet
  pub evicted : EvictedLine
  pub cache' : Cache
  pub lt : i < cache.assoc
  pub old : CacheLine
  pub old_there : get_elem? s.lines i ≡ some old
  pub old_evicted : evicted ≡ record {
    valid = old.valid;
    dirty = old.dirty;
    block_addr =
        u64 (bit_or (u64 (old.tag <<< set_bits cache)) (get_set cache addr) <<< block_bits cache);
    bytes = take cache.block_size old.bytes;
  }
  pub lines : s'.lines ≡ set s.lines i (filled cache addr operation block)
  pub runs : handle_miss cache addr operation block ≡ some (evicted, cache')
  pub sets : cache'.sets ≡ set cache.sets (get_set cache addr) s'
  pub assoc : cache'.assoc ≡ cache.assoc
  pub block_size : cache'.block_size ≡ cache.block_size
  pub capacity : cache'.capacity ≡ cache.capacity
  pub hits : cache'.hit_count ≡ cache.hit_count
  pub misses : cache'.miss_count ≡ cache.miss_count
  pub evicted_once : evictions cache' ≤ suc (evictions cache)

pub handle_miss-Filled :
    (cache : Cache) (addr : ℕ) (operation : Operation) (block : Option (List ℕ)) (s : CacheSet)
    → IsCache cache
    → get_elem? cache.sets (get_set cache addr) ≡ some s
    → Filled cache addr operation block s
unfolding handle_miss
handle_miss-Filled cache addr operation block s ok e =
    let i = (select_line cache s).0 in
    let selected = (select_line cache s).1 in
    let sel = select_line-lt cache s ok.low (ok.lines (get_set cache addr) s e) in
    let size : length selected.lines ≡ cache.assoc =
      ap length sel.1 ∙ ok.lines (get_set cache addr) s e in
    elim (Option-cases (get_elem? selected.lines i)) [
      | inl none_there ↦
          absurd
            (let n = get_elem?-none selected.lines i none_there in let lt = sel.0 in omega arith)
      | inr (line, there) ↦
          let line' = filled cache addr operation block in
          let (s', touched, lines) =
            touch-lines cache (put_line selected i line') i ok.low ok.high sel.0 in
          record {
            i = i;
            s' = s';
            evicted = record {
              valid = line.valid;
              dirty = line.dirty;
              block_addr = u64 (
                  bit_or (u64 (line.tag <<< set_bits cache)) (get_set cache addr)
                  <<< block_bits cache);
              bytes = take cache.block_size line.bytes;
            };
            cache' = record (count_eviction line cache) {
              sets = set cache.sets (get_set cache addr) s';
            };
            lt = sel.0;
            old = line;
            old_there = sym (ap (λ ls. get_elem? ls i) sel.1) ∙ there;
            old_evicted = refl;
            lines = lines ∙ ap (λ ls. set ls i line') sel.1;
            runs = rw (e, there, touched) refl;
            sets = refl;
            assoc = ground arith;
            block_size = ground arith;
            capacity = ground arith;
            hits = ground arith;
            misses = ground arith;
            evicted_once = ground arith;
          }
    ]

take-take {ℓ} : {A : Type ℓ} (n b : ℕ) (xs : List A) → n ≤ b → take n (take b xs) ≡ take n xs
take-take zero b xs h = refl
take-take (suc n) zero xs h = absurd (omega arith)
take-take (suc n) (suc b) [] h = refl
take-take (suc n) (suc b) (x ∷ xs) h = ap (λ r. x ∷ r) (take-take n b xs (omega arith))

-- A part of a prefix is that part of the whole.
pub take-drop-take {ℓ} :
    {A : Type ℓ} (n o b : ℕ) (xs : List A)
    → o + n ≤ b
    → take n (drop o (take b xs)) ≡ take n (drop o xs)
take-drop-take n zero b xs h = take-take n b xs (omega arith)
take-drop-take n (suc o) zero xs h = absurd (omega arith)
take-drop-take n (suc o) (suc b) [] h = refl
take-drop-take n (suc o) (suc b) (x ∷ xs) h = take-drop-take n o b xs (omega arith)

pub same_set :
    (cache cache' : Cache) (addr : ℕ)
    → cache'.assoc ≡ cache.assoc
    → cache'.block_size ≡ cache.block_size
    → cache'.capacity ≡ cache.capacity
    → (get_set cache' addr ≡ get_set cache addr)
      × (tag_of cache' addr ≡ tag_of cache addr)
      × (offset_in cache' addr ≡ offset_in cache addr)
unfolding get_set
same_set cache cache' addr a b c = rw (a, b, c) (refl, refl, refl)

-- On a cache in use, after a miss on an address, handle_miss with a full block runs, keeps the
-- cache in use, and a word that lies in the block is then read from the cache at that address.
pub handle_miss-holds :
    (cache : Cache) (addr : ℕ) (operation : Operation) (block : List ℕ)
    → IsCache cache
    → get_line cache addr ≡ some none
    → offset_in cache addr + 8 ≤ cache.block_size
    → cache.block_size ≤ length block
    → (evicted : EvictedLine) × (cache' : Cache) × (handle_miss cache addr operation (some block)
        ≡ some (evicted, cache'))
      × IsCache cache'
      × (get_word_cache cache' addr ≡ some (word_of (take 8 (drop (offset_in cache addr) block))))
unfolding get_line
handle_miss-holds cache addr operation block ok miss inside full =
    let (s, there, size) = set_of cache addr ok in
    let line = filled cache addr operation (some block) in
    let r = handle_miss-Filled cache addr operation (some block) s ok there in
    let (at, tag, offset) = same_set cache r.cache' addr r.assoc r.block_size r.capacity in
    let absent : find_line (tag_of cache addr) 0 s.lines ≡ none =
      some-injective _ _ (rw there at miss) in
    let below : r.i < length s.lines = let lt = r.lt in omega arith in
    let bytes : length line.bytes ≡ cache.block_size =
      length-take cache.block_size block ∙ (ground arith) in
    (
      r.evicted,
      r.cache',
      r.runs,
      put-IsCache cache r.cache' (get_set cache addr) r.s' ok r.sets r.assoc r.block_size r.capacity
          (ap length r.lines ∙ length-set s.lines r.i line ∙ size),
      get_word_cache-found r.cache' addr r.i r.s' line
            (rw (at, r.sets)
              (get_elem?-set_self cache.sets (get_set cache addr) r.s' (ok.index addr)))
            (rw (tag, r.lines)
              (find_line-put (tag_of cache addr) r.i s.lines line absent below refl refl))
            (rw r.lines (get_elem?-set_self s.lines r.i line below)) (rw (offset, bytes) inside)
          ∙ rw offset (
              ap (λ (xs : List ℕ). some (word_of xs))
                (take-drop-take 8 (offset_in cache addr) cache.block_size block inside)),
    )

-- ===== src/Cache.antt =====
-- src/cache/cache.c and include/cache/cache.h: a set-associative write-back cache.
-- `none` is an assertion that fails or an access outside an array; Cache/Valid
-- says what a cache in use satisfies. `calloc` is taken to succeed.
pub mod Lru
pub mod Valid
pub mod Miss
pub mod Hit
pub mod Word
pub mod Create
pub mod Checkpoint
pub mod Address
pub mod Lines
mod Tests
use ch_arm_v5_system_emulato.Base.{
  ℕ, zero, suc, ◌+◌, ◌-◌, ◌*◌, ◌/◌, ◌%◌, ◌^◌, bit_and, bit_or, Bool, true, false, ◌&&◌, not, List,
  [], ◌∷◌, ◌++◌, Option, none, some, ◌>>=◌, length, get_elem?, set, take, drop, replicate, ◌==◌,
  leb, if◌then◌else◌, u32, u64, ◌<<<◌, ◌>>>◌,
}
use ch_arm_v5_system_emulato.Cache.Lru.{lru}

-- `cache_line_t`; `data` is the list of its bytes.
pub record CacheLine : Type 0 where
  pub valid : Bool
  pub tag : ℕ
  pub dirty : Bool
  pub bytes : List ℕ

-- `cache_set_t`.
pub record CacheSet : Type 0 where
  pub lines : List CacheLine
  pub lru_matrix : ℕ
  pub next_lru : ℕ

-- `cache_t`, and the counters of hits, misses and evictions that cache.c keeps beside it. They are of
-- type `int`: the model's numbers are those of the code as long as they stay below 2^31, behind which
-- an increment is undefined in C.
pub record Cache : Type 0 where
  pub sets : List CacheSet
  -- `A`
  pub assoc : ℕ
  -- `B`
  pub block_size : ℕ
  -- `C`
  pub capacity : ℕ
  -- `d`
  pub delay : ℕ
  pub miss_count : ℕ
  pub hit_count : ℕ
  pub dirty_eviction_count : ℕ
  pub clean_eviction_count : ℕ

-- `operation_t`.
pub data Operation : Type 0 where
  read write : Operation

abbrev pub is_write : Operation → Bool
is_write read = false
is_write write = true

-- `evicted_line_t`.
pub record EvictedLine : Type 0 where
  pub valid : Bool
  pub dirty : Bool
  pub block_addr : ℕ
  pub bytes : List ℕ

-- `while (x >>= 1) result++`, with fuel for the rounds: a `size_t` has 64 bits.
pub log_loop : ℕ → ℕ → ℕ → ℕ
log_loop zero x result = result
log_loop (suc fuel) x result =
    let rest = log_loop fuel (x / 2) (suc result) in if x / 2 == 0 then result else rest

-- `_log`.
unfoldable pub log : ℕ → ℕ
unfolding log_loop
log x = log_loop 64 x 0

-- `C / (A * B)` on `unsigned int`, the number of sets.
abbrev pub set_count : Cache → ℕ
set_count cache = cache.capacity / u32 (cache.assoc * cache.block_size)

abbrev pub block_bits : Cache → ℕ
block_bits cache = log cache.block_size

abbrev pub set_bits : Cache → ℕ
set_bits cache = log (set_count cache)

unfoldable pub create_cache : ℕ → ℕ → ℕ → ℕ → Cache
create_cache a_in b_in c_in d_in =
    let line : CacheLine = record {
      valid = false;
      tag = 0;
      dirty = false;
      bytes = replicate b_in 0;
    } in
    let cache_set : CacheSet = record {
      lines = replicate a_in line;
      lru_matrix = 0;
      next_lru = 2 ^ 64 - 1;
    } in
    record {
      sets = replicate (c_in / u32 (a_in * b_in)) cache_set;
      assoc = a_in;
      block_size = b_in;
      capacity = c_in;
      delay = d_in;
      miss_count = 0;
      hit_count = 0;
      dirty_eviction_count = 0;
      clean_eviction_count = 0;
    }

-- The set that `get_set` points to, by its index in `sets`.
unfoldable pub get_set : Cache → ℕ → ℕ
get_set cache addr = addr >>> block_bits cache % 2 ^ set_bits cache

abbrev pub tag_of : Cache → ℕ → ℕ
tag_of cache addr = addr >>> (block_bits cache + set_bits cache)

-- The loop over the lines of a set from line `j` on: the first valid line with the tag.
unfoldable pub find_line : ℕ → ℕ → List CacheLine → Option ℕ
find_line tag j [] = none
find_line tag j (line ∷ lines) =
    if line.valid && line.tag == tag then some j else find_line tag (suc j) lines

-- `get_line`: the line as its index in the set, `none` inside for NULL.
unfoldable pub get_line : Cache → ℕ → Option (Option ℕ)
get_line cache addr = do
  cache_set ← get_elem? cache.sets (get_set cache addr)
  some (find_line (tag_of cache addr) 0 cache_set.lines)

-- The loop of `select_line`: the first line that is not valid.
unfoldable pub find_invalid : ℕ → List CacheLine → Option ℕ
find_invalid j [] = none
find_invalid j (line ∷ lines) = if line.valid then find_invalid (suc j) lines else some j

-- `select_line` on the set of the address: the line's index, and the set with `next_lru` brought
-- into range.
unfoldable pub select_line : Cache → CacheSet → ℕ × CacheSet
select_line cache cache_set = elim (find_invalid 0 cache_set.lines) [
  | some j ↦ (j, cache_set)
  | none ↦
      let next : ℕ = if leb cache.assoc cache_set.next_lru then 0 else cache_set.next_lru in
      (next, record cache_set { next_lru = next })
]

-- `set->lines[i] = line`.
abbrev pub put_line : CacheSet → ℕ → CacheLine → CacheSet
put_line cache_set i line = record cache_set { lines = set cache_set.lines i line }

-- `set->next_lru = lru(cache->A, i, &set->lru_matrix)`.
unfoldable pub touch : Cache → CacheSet → ℕ → Option CacheSet
touch cache cache_set i = do
  (next, matrix) ← lru cache.assoc i cache_set.lru_matrix
  some (record cache_set { lru_matrix = matrix; next_lru = next })

-- `check_hit`: whether the address hits, and the cache after the call.
unfoldable pub check_hit : Cache → ℕ → Operation → Option (Bool × Cache)
check_hit cache addr operation = do
  cache_set ← get_elem? cache.sets (get_set cache addr)
  elim (find_line (tag_of cache addr) 0 cache_set.lines) [
    | none ↦ some (false, record cache { miss_count = suc cache.miss_count })
    | some i ↦ do
      line ← get_elem? cache_set.lines i
      let line' = if is_write operation then record line { dirty = true } else line
      set' ← touch cache (put_line cache_set i line') i
      some (
        true,
        record cache {
          hit_count = suc cache.hit_count;
          sets = set cache.sets (get_set cache addr) set';
        },
      )
  ]

-- What `handle_miss` copies into the line: the incoming block, or zeros for NULL.
abbrev pub incoming : Cache → Option (List ℕ) → List ℕ
incoming cache none = replicate cache.block_size 0
incoming cache (some block) = take cache.block_size block

-- The eviction counters of `handle_miss`.
abbrev pub count_eviction : CacheLine → Cache → Cache
count_eviction line cache =
    if line.valid
    then (if line.dirty
        then record cache { dirty_eviction_count = suc cache.dirty_eviction_count }
        else record cache { clean_eviction_count = suc cache.clean_eviction_count })
    else cache

-- `handle_miss`: the evicted line, and the cache after the call.
unfoldable pub handle_miss : Cache → ℕ → Operation → Option (List ℕ) → Option (EvictedLine × Cache)
handle_miss cache addr operation incoming_data = do
  let b = block_bits cache
  let s = set_bits cache
  let set_index = get_set cache addr
  cache_set ← get_elem? cache.sets set_index
  let (line_index, selected) = select_line cache cache_set
  line ← get_elem? selected.lines line_index
  let evicted : EvictedLine = record {
    valid = line.valid;
    dirty = line.dirty;
    block_addr = u64 (bit_or (u64 (line.tag <<< s)) set_index <<< b);
    bytes = take cache.block_size line.bytes;
  }
  let line' : CacheLine = record {
    valid = true;
    tag = tag_of cache addr;
    dirty = is_write operation;
    bytes = incoming cache incoming_data;
  }
  set' ← touch cache (put_line selected line_index line') line_index
  some (evicted, record (count_eviction line cache) { sets = set cache.sets set_index set' })

-- `addr & (B - 1)`.
abbrev pub offset_in : Cache → ℕ → ℕ
offset_in cache addr = bit_and addr (cache.block_size - 1)

-- `memcpy(dest, line->data + offset, 8)`, as the little-endian word of the copied bytes.
unfoldable pub word_of : List ℕ → ℕ
word_of [] = 0
word_of (byte ∷ bytes) = byte + 256 * word_of bytes

-- The `n` bytes of a word, lowest first.
unfoldable pub bytes_of : ℕ → ℕ → List ℕ
bytes_of zero word = []
bytes_of (suc n) word = word % 256 ∷ bytes_of n (word / 256)

-- `get_word_cache`; eight bytes that do not lie in the line are an access outside its buffer.
unfoldable pub get_word_cache : Cache → ℕ → Option ℕ
unfolding word_of
get_word_cache cache addr = do
  cache_set ← get_elem? cache.sets (get_set cache addr)
  i ← find_line (tag_of cache addr) 0 cache_set.lines
  line ← get_elem? cache_set.lines i
  let offset = offset_in cache addr
  if leb (offset + 8) (length line.bytes)
      then some (word_of (take 8 (drop offset line.bytes)))
      else none

-- `set_word_cache`.
unfoldable pub set_word_cache : Cache → ℕ → ℕ → Option Cache
unfolding bytes_of
set_word_cache cache addr val = do
  cache_set ← get_elem? cache.sets (get_set cache addr)
  i ← find_line (tag_of cache addr) 0 cache_set.lines
  line ← get_elem? cache_set.lines i
  let offset = offset_in cache addr
  let bytes' = take offset line.bytes ++ (bytes_of 8 val ++ drop (offset + 8) line.bytes)
  if leb (offset + 8) (length line.bytes)
      then some (record cache {
        sets =
            set cache.sets (get_set cache addr)
              (put_line cache_set i (record line { bytes = bytes'; dirty = true }));
      })
      else none

-- `access_data`.
unfoldable pub access_data : Cache → ℕ → Operation → Option Cache
access_data cache addr operation = do
  (hit, cache') ← check_hit cache addr operation
  if hit
      then some cache'
      else do (evicted, cache'') ← handle_miss cache' addr operation none; some cache''

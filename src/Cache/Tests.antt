-- ===== src/Cache/Tests.antt =====
-- The cache on small inputs.
use ch_arm_v5_system_emulato.Base.{
  ℕ, ◌-◌, ◌%◌, ◌^◌, ◌<◌, true, false, List, [], ◌∷◌, none, some, take, drop, replicate,
  if◌then◌else◌, ◌≡◌, refl, arith,
}
use ch_arm_v5_system_emulato.Cache.{
  CacheSet, Cache, EvictedLine, read, write, log, create_cache, get_set, find_line, get_line,
  handle_miss, offset_in, word_of, get_word_cache, set_word_cache, access_data,
}
use ch_arm_v5_system_emulato.Cache.Lru.{lru}
use ch_arm_v5_system_emulato.Cache.Lru.Policy.{Represents, IsOldest, lru-IsOldest}
use ch_arm_v5_system_emulato.Cache.Valid.{IsCache, put-IsCache}
use ch_arm_v5_system_emulato.Cache.Miss.{handle_miss-holds}
use ch_arm_v5_system_emulato.Cache.Hit.{is_cached, Fits, access_data-holds}
use ch_arm_v5_system_emulato.Cache.Word.{get_word_cache-set_word_cache}
use ch_arm_v5_system_emulato.Cache.Checkpoint.{create_checkpoint, get_word_cache-create_checkpoint}
use ch_arm_v5_system_emulato.Cache.Create.{create_cache-IsCache}

-- Sixteen bytes.
abbrev block : List ℕ
block = 1 ∷ 2 ∷ 3 ∷ 4 ∷ 5 ∷ 6 ∷ 7 ∷ 8 ∷ 9 ∷ 10 ∷ 11 ∷ 12 ∷ 13 ∷ 14 ∷ 15 ∷ 16 ∷ []

-- After an access of line 1 of four, line 0 is the first of the oldest.
lru_run : lru 4 1 0 ≡ some (0, 0x0D00)
unfolding lru
lru_run = refl

matrix-Represents : Represents 4 0 []
matrix-Represents i j hi hj ne = ground arith

lru-IsOldest_example :
    (r matrix' : ℕ) × (lru 4 2 0 ≡ some (r, matrix'))
    × (r < 4)
    × IsOldest 4 (2 ∷ []) r
    × Represents 4 matrix' (2 ∷ [])
lru-IsOldest_example =
    lru-IsOldest 4 2 0 [] (omega arith) (omega arith) (omega arith) matrix-Represents

create_cache-IsCache_example : IsCache (create_cache 2 16 128 5)
create_cache-IsCache_example =
    create_cache-IsCache 2 16 128 5 2 (omega arith) (omega arith) refl (omega arith)

small-misses : get_line (create_cache 2 16 128 5) 0x124 ≡ some none
unfolding create_cache get_line get_set find_line log
small-misses = refl

handle_miss-holds_example :
    (evicted : EvictedLine) × (cache' : Cache) × (handle_miss
        (create_cache 2 16 128 5)
        0x124
        read
        (some block)
      ≡ some (evicted, cache'))
    × IsCache cache'
    × (get_word_cache cache' 0x124
        ≡ some (word_of (take 8 (drop (offset_in (create_cache 2 16 128 5) 0x124) block))))
unfolding create_cache
handle_miss-holds_example =
    handle_miss-holds (create_cache 2 16 128 5) 0x124 read block create_cache-IsCache_example
      small-misses (ground arith) (ground arith)

access_data-holds_example :
    (cache' : Cache) × (access_data (create_cache 2 16 128 5) 0x124 write ≡ some cache')
    × IsCache cache'
    × (is_cached cache' 0x124 ≡ true)
    × (cache'.hit_count ≡ (if is_cached (create_cache 2 16 128 5) 0x124 then 1 else 0))
    × (cache'.miss_count ≡ (if is_cached (create_cache 2 16 128 5) 0x124 then 0 else 1))
    × Fits 0 cache'
unfolding create_cache
access_data-holds_example =
    access_data-holds (create_cache 2 16 128 5) 0x124 write create_cache-IsCache_example
      (record { hits = omega arith; misses = omega arith; evicted = omega arith })

-- The block in line 0 of set 2.
abbrev loaded_set : CacheSet
loaded_set = record {
  lines =
      record { valid = true; tag = 4; dirty = false; bytes = block }
      ∷ record { valid = false; tag = 0; dirty = false; bytes = replicate 16 0 }
      ∷ [];
  lru_matrix = 2;
  next_lru = 1;
}

abbrev empty_set : CacheSet
empty_set = record {
  lines = replicate 2 (record { valid = false; tag = 0; dirty = false; bytes = replicate 16 0 });
  lru_matrix = 0;
  next_lru = 2 ^ 64 - 1;
}

abbrev loaded : Cache
loaded = record {
  sets = empty_set ∷ empty_set ∷ loaded_set ∷ empty_set ∷ [];
  assoc = 2;
  block_size = 16;
  capacity = 128;
  delay = 5;
  miss_count = 1;
  hit_count = 0;
  dirty_eviction_count = 0;
  clean_eviction_count = 0;
}

loaded-IsCache : IsCache loaded
unfolding create_cache
loaded-IsCache =
    put-IsCache (create_cache 2 16 128 5) loaded 2 loaded_set create_cache-IsCache_example refl refl
      refl refl refl

loaded_word : get_word_cache loaded 0x124 ≡ some 0x0C0B0A0908070605
unfolding get_word_cache get_set find_line log
loaded_word = refl

get_word_cache-set_word_cache_example :
    (cache' : Cache) × (set_word_cache loaded 0x124 0x1122334455667788 ≡ some cache')
    × IsCache cache'
    × (get_word_cache cache' 0x124 ≡ some (0x1122334455667788 % 2 ^ 64))
get_word_cache-set_word_cache_example =
    get_word_cache-set_word_cache loaded 0x124 0x0C0B0A0908070605 0x1122334455667788 loaded-IsCache
      loaded_word

get_word_cache-create_checkpoint_example :
    (get_line (create_checkpoint loaded) 0x124 ≡ get_line loaded 0x124)
    × (get_word_cache (create_checkpoint loaded) 0x124 ≡ get_word_cache loaded 0x124)
get_word_cache-create_checkpoint_example =
    get_word_cache-create_checkpoint loaded 0x124 loaded-IsCache (omega arith) (ground arith)

-- ===== src/Cache/Valid.antt =====
-- What a cache of src/cache/cache.c that is in use satisfies, so that no assertion fails and no
-- access leaves an array.
use ch_arm_v5_system_emulato.Base.{
  ℕ, zero, suc, ◌+◌, ◌≤◌, ◌<◌, true, ◌&&◌, List, [], ◌∷◌, none, some, ◌>>=◌, length, get_elem?, set,
  take, drop, leb, ltb, if◌then◌else◌, Option-cases, length-set, get_elem?-none, get_elem?-set_or,
  ◌≡◌, inl, inr, refl, sym, ap, ◌∙◌, arith,
}
use ch_arm_v5_system_emulato.Cache.{
  CacheLine, CacheSet, Cache, get_set, tag_of, find_line, find_invalid, select_line, touch,
  offset_in, word_of, get_word_cache,
}
use ch_arm_v5_system_emulato.Cache.Lru.{lru, set_row, clear_column, find_lru}

-- The lines of a set that the cache has.
pub record IsCache (cache : Cache) : Type 0 where
  pub low : 1 ≤ cache.assoc
  pub high : cache.assoc ≤ 8
  pub index : (addr : ℕ) → get_set cache addr < length cache.sets
  pub lines :
      (i : ℕ) (s : CacheSet) → get_elem? cache.sets i ≡ some s → length s.lines ≡ cache.assoc

-- A set stays one of `assoc` lines, whose matrix and victim change.
pub touch-lines :
    (cache : Cache) (s : CacheSet) (i : ℕ)
    → 1 ≤ cache.assoc
    → cache.assoc ≤ 8
    → i < cache.assoc
    → (s' : CacheSet) × (touch cache s i ≡ some s') × (s'.lines ≡ s.lines)
unfolding touch lru
touch-lines cache s i lo hi h =
    let a = cache.assoc in
    let m = clear_column i 0 a (set_row i 0 a s.lru_matrix) in
    let ok : leb 1 a && leb a 8 && ltb i a ≡ true = ground arith in
    (
      record s { lru_matrix = m; next_lru = find_lru a m 0 a },
      rw (if◌then◌else◌, ok, ◌>>=◌) refl,
      refl,
    )

-- A line with the tag is found where there was none before it was put there.
pub find_line-set :
    (tag j i : ℕ) (lines : List CacheLine) (line : CacheLine)
    → find_line tag j lines ≡ none
    → i < length lines
    → line.valid ≡ true
    → line.tag ≡ tag
    → find_line tag j (set lines i line) ≡ some (j + i)
unfolding find_line
find_line-set tag j i [] line miss h v t = ground arith
find_line-set tag j zero (l ∷ lines) line miss h v t = ground arith
find_line-set tag j (suc i) (l ∷ lines) line miss h v t =
    ground (arith, find_line-set tag (suc j) i lines line)

pub find_line-put :
    (tag i : ℕ) (lines : List CacheLine) (line : CacheLine)
    → find_line tag 0 lines ≡ none
    → i < length lines
    → line.valid ≡ true
    → line.tag ≡ tag
    → find_line tag 0 (set lines i line) ≡ some i
find_line-put tag i lines line miss h v t =
    find_line-set tag 0 i lines line miss h v t ∙ ap some (omega arith)

-- The search does not see what else is in a line.
pub find_line-same :
    (tag j i : ℕ) (lines : List CacheLine) (line line' : CacheLine)
    → get_elem? lines i ≡ some line
    → line'.valid ≡ line.valid
    → line'.tag ≡ line.tag
    → find_line tag j (set lines i line') ≡ find_line tag j lines
unfolding find_line
find_line-same tag j i [] line line' e v t = refl
find_line-same tag j zero (l ∷ lines) line line' e v t = ground (arith, e)
find_line-same tag j (suc i) (l ∷ lines) line line' e v t =
    ground (arith, find_line-same tag (suc j) i lines line line' e v t)

-- A line of the set is found below its length.
pub find_line-lt :
    (tag j i : ℕ) (lines : List CacheLine) → find_line tag j lines ≡ some i → i < j + length lines
unfolding find_line
find_line-lt tag j i [] h = ground arith
find_line-lt tag j i (l ∷ lines) h = ground (arith, find_line-lt tag (suc j) i lines)

find_invalid-lt :
    (j i : ℕ) (lines : List CacheLine) → find_invalid j lines ≡ some i → i < j + length lines
unfolding find_invalid
find_invalid-lt j i [] h = ground arith
find_invalid-lt j i (l ∷ lines) h = ground (arith, find_invalid-lt (suc j) i lines)

pub select_line-lt :
    (cache : Cache) (s : CacheSet)
    → 1 ≤ cache.assoc
    → length s.lines ≡ cache.assoc
    → let (i, s') = select_line cache s in (i < cache.assoc) × (s'.lines ≡ s.lines)
unfolding select_line
select_line-lt cache s lo h = elim (Option-cases (find_invalid 0 s.lines)) [
  | inl e ↦ rw (select_line, e) (ground arith)
  | inr (i, e) ↦ rw (select_line, e) (ground (arith, find_invalid-lt 0 i s.lines e))
]

-- The set of an address is there.
pub set_of :
    (cache : Cache) (addr : ℕ)
    → IsCache cache
    → (s : CacheSet) × (get_elem? cache.sets (get_set cache addr) ≡ some s)
      × (length s.lines ≡ cache.assoc)
set_of cache addr ok = elim (Option-cases (get_elem? cache.sets (get_set cache addr))) [
  | inl e ↦ absurd (
      let n = get_elem?-none cache.sets (get_set cache addr) e in
      let lt = ok.index addr in omega arith)
  | inr (s, e) ↦ (s, e, ok.lines (get_set cache addr) s e)
]

-- A set is replaced by one with as many lines.
pub put-IsCache :
    (cache cache' : Cache) (k : ℕ) (s : CacheSet)
    → IsCache cache
    → cache'.sets ≡ set cache.sets k s
    → cache'.assoc ≡ cache.assoc
    → cache'.block_size ≡ cache.block_size
    → cache'.capacity ≡ cache.capacity
    → length s.lines ≡ cache.assoc
    → IsCache cache'
unfolding get_set
put-IsCache cache cache' k s ok sets assoc block capacity size = record {
  low = ground (arith, ok.low);
  high = ground (arith, ok.high);
  index = λ addr.
      ground (arith, length-set cache.sets k s, ok.index addr, ap (length {A = CacheSet}) sets);
  lines = λ i t e. elim (get_elem?-set_or cache.sets k i s t (rw sets at e)) [
    | inl q ↦ ap (λ (r : CacheSet). length r.lines) (sym q) ∙ size ∙ sym assoc
    | inr q ↦ ok.lines i t q ∙ sym assoc
  ];
}

-- The word that is read from a line that is found.
pub get_word_cache-found :
    (cache : Cache) (addr i : ℕ) (s : CacheSet) (line : CacheLine)
    → get_elem? cache.sets (get_set cache addr) ≡ some s
    → find_line (tag_of cache addr) 0 s.lines ≡ some i
    → get_elem? s.lines i ≡ some line
    → offset_in cache addr + 8 ≤ length line.bytes
    → get_word_cache cache addr ≡ some (word_of (take 8 (drop (offset_in cache addr) line.bytes)))
unfolding get_word_cache
get_word_cache-found cache addr i s line e1 e2 e3 h =
    let ok : leb (offset_in cache addr + 8) (length line.bytes) ≡ true = ground arith in
    rw (e1, ◌>>=◌, e2, e3, if◌then◌else◌, ok) refl

-- ===== src/Cache/Checkpoint.antt =====
-- `create_checkpoint` of src/cache/cache.c: a copy of a cache, less its replacement state.
use native.Mathlib.Nat.{mul-le-mul, mod-lt}
use ch_arm_v5_system_emulato.Base.{
  ℕ, zero, suc, ◌+◌, ◌*◌, ◌/◌, ◌^◌, ◌>>>◌, ◌==◌, ◌<◌, Bool-cases, ◌≤◌, List, [], ◌∷◌, none, some,
  ◌>>=◌, length, get_elem?, take, drop, leb, if◌then◌else◌, Option-cases, length-take, ◌≡◌, inl,
  inr, refl, ap, ◌∙◌, arith,
}
use ch_arm_v5_system_emulato.Cache.{
  CacheLine, CacheSet, Cache, get_set, tag_of, find_line, get_line, offset_in, word_of, log_loop,
  log, set_count, set_bits, block_bits, get_word_cache,
}
use ch_arm_v5_system_emulato.Cache.Valid.{IsCache}
use ch_arm_v5_system_emulato.Cache.Create.{pow_pos}
use ch_arm_v5_system_emulato.Cache.Miss.{take-drop-take}

-- The copy of a line, with the `B` bytes of its data.
abbrev copy_line : ℕ → CacheLine → CacheLine
copy_line b line = record line { bytes = take b line.bytes }

-- The loop over the `A` lines of a set. Both loops end early where the array has ended, which C would
-- leave.
copy_lines : (b a : ℕ) → List CacheLine → List CacheLine
copy_lines b zero lines = []
copy_lines b (suc a) [] = []
copy_lines b (suc a) (line ∷ lines) = copy_line b line ∷ copy_lines b a lines

-- A set from `calloc`, with the copies of the lines: its matrix and its victim stay 0.
copy_set : (b a : ℕ) → CacheSet → CacheSet
unfolding copy_lines
copy_set b a s = record { lines = copy_lines b a s.lines; lru_matrix = 0; next_lru = 0 }

-- The loop over the `S` sets.
copy_sets : (b a s : ℕ) → List CacheSet → List CacheSet
unfolding copy_set
copy_sets b a zero sets = []
copy_sets b a (suc s) [] = []
copy_sets b a (suc s) (first ∷ sets) = copy_set b a first ∷ copy_sets b a s sets

unfoldable pub create_checkpoint : Cache → Cache
unfolding copy_sets
create_checkpoint cache = record cache {
  sets = copy_sets cache.block_size cache.assoc (set_count cache) cache.sets;
}

find_line-copy_lines :
    (tag j b a : ℕ) (lines : List CacheLine)
    → length lines ≤ a
    → find_line tag j (copy_lines b a lines) ≡ find_line tag j lines
unfolding find_line copy_lines
find_line-copy_lines tag j b zero [] h = refl
find_line-copy_lines tag j b zero (l ∷ lines) h = absurd (omega arith)
find_line-copy_lines tag j b (suc a) [] h = refl
find_line-copy_lines tag j b (suc a) (l ∷ lines) h =
    ground (arith, find_line-copy_lines tag (suc j) b a lines)

get_elem?-copy_sets :
    (b a n i : ℕ) (sets : List CacheSet)
    → i < n
    → get_elem? (copy_sets b a n sets) i ≡ (get_elem? sets i >>= (λ s. some (copy_set b a s)))
unfolding copy_sets
get_elem?-copy_sets b a zero i sets h = absurd (omega arith)
get_elem?-copy_sets b a (suc n) i [] h = refl
get_elem?-copy_sets b a (suc n) zero (s ∷ sets) h = refl
get_elem?-copy_sets b a (suc n) (suc i) (s ∷ sets) h =
    get_elem?-copy_sets b a n i sets (omega arith)

get_elem?-copy_lines :
    (b a i : ℕ) (lines : List CacheLine)
    → length lines ≤ a
    → get_elem? (copy_lines b a lines) i ≡ (get_elem? lines i >>= (λ l. some (copy_line b l)))
unfolding copy_lines
get_elem?-copy_lines b zero i [] h = refl
get_elem?-copy_lines b zero i (l ∷ lines) h = absurd (omega arith)
get_elem?-copy_lines b (suc a) i [] h = refl
get_elem?-copy_lines b (suc a) zero (l ∷ lines) h = refl
get_elem?-copy_lines b (suc a) (suc i) (l ∷ lines) h =
    get_elem?-copy_lines b a i lines (omega arith)

twice : (y m : ℕ) → y * (m * 2) ≡ y * 2 * m
twice y m = grind arith

power : (r : ℕ) → 2 ^ suc r ≡ 2 ^ r * 2
power r = ground arith

grow : (m x : ℕ) → 1 ≤ x → m ≤ x * m
grow m x h = grind arith

log_loop-le : (fuel x r : ℕ) → 1 ≤ x → 2 ^ log_loop fuel x r ≤ x * 2 ^ r
unfolding log_loop
log_loop-le zero x r h = grow (2 ^ r) x h
log_loop-le (suc fuel) x r h = elim (Bool-cases (x / 2 == 0)) [
  | inl e ↦ rw (e, if◌then◌else◌) (grow (2 ^ r) x h)
  | inr e ↦
      let ih = log_loop-le fuel (x / 2) (suc r) (ground arith) in
      let half : x / 2 * 2 ≤ x = omega arith in
      let same : 2 ^ r ≤ 2 ^ r = omega arith in
      let wide : x / 2 * 2 * 2 ^ r ≤ x * 2 ^ r = mul-le-mul half same in
      let double : x / 2 * 2 ^ suc r ≡ x / 2 * 2 * 2 ^ r =
        ap (λ p. x / 2 * p) (power r) ∙ twice (x / 2) (2 ^ r) in
      rw (e, if◌then◌else◌) (omega (arith, ih, double, wide))
]

-- The set of an address is one that the loop over the sets comes to.
get_set-lt : (cache : Cache) (addr : ℕ) → 1 ≤ set_count cache → get_set cache addr < set_count cache
unfolding get_set log
get_set-lt cache addr h =
    let small = log_loop-le 64 (set_count cache) 0 h in
    let rest = mod-lt (addr >>> block_bits cache) (pow_pos (set_bits cache)) in omega arith

-- A word of a copied line that lies in the block.
word_of-copy_line :
    (o b : ℕ) (bytes : List ℕ)
    → o + 8 ≤ b
    → (if leb (o + 8) (length (take b bytes))
        then some (word_of (take 8 (drop o (take b bytes))))
        else none)
      ≡ (if leb (o + 8) (length bytes) then some (word_of (take 8 (drop o bytes))) else none)
word_of-copy_line o b bytes h =
    rw (length-take b bytes, take-drop-take 8 o b bytes h) (ground arith)

-- On a cache in use with at least one set, at an address whose word lies in its block, get_line
-- finds the same line and get_word_cache reads the same word in the copy that create_checkpoint
-- makes as in the cache.
pub get_word_cache-create_checkpoint :
    (cache : Cache) (addr : ℕ)
    → IsCache cache
    → 1 ≤ set_count cache
    → offset_in cache addr + 8 ≤ cache.block_size
    → (get_line (create_checkpoint cache) addr ≡ get_line cache addr)
      × (get_word_cache (create_checkpoint cache) addr ≡ get_word_cache cache addr)
unfolding create_checkpoint get_line get_word_cache get_set copy_set
get_word_cache-create_checkpoint cache addr ok positive h =
    let b = cache.block_size in
    let a = cache.assoc in
    let inside = get_set-lt cache addr positive in
    let k = get_set cache addr in
    let o = offset_in cache addr in
    let tag = tag_of cache addr in
    elim (Option-cases (get_elem? cache.sets k)) [
      | inl e ↦
          let ec : get_elem? (copy_sets b a (set_count cache) cache.sets) k ≡ none =
            get_elem?-copy_sets b a (set_count cache) k cache.sets inside ∙ rw e refl in
          (rw (ec, e) refl, rw (ec, e) refl)
      | inr (s, e) ↦
          let few : length s.lines ≤ a = (let size = ok.lines k s e in omega arith) in
          let ec : get_elem? (copy_sets b a (set_count cache) cache.sets) k
              ≡ some (copy_set b a s) =
            get_elem?-copy_sets b a (set_count cache) k cache.sets inside ∙ rw e refl in
          let found = find_line-copy_lines tag 0 b a s.lines few in
          (
            rw (ec, e) (ap (λ f. some f) found),
            rw (ec, e, ◌>>=◌, found)
                (elim (Option-cases (find_line tag 0 s.lines)) [
                  | inl n ↦ rw n refl
                  | inr (i, f) ↦ rw f (elim (Option-cases (get_elem? s.lines i)) [
                    | inl n ↦
                        let nc : get_elem? (copy_lines b a s.lines) i ≡ none =
                          get_elem?-copy_lines b a i s.lines few ∙ rw n refl in
                        rw (nc, n) refl
                    | inr (l, n) ↦
                        let nc : get_elem? (copy_lines b a s.lines) i ≡ some (copy_line b l) =
                          get_elem?-copy_lines b a i s.lines few ∙ rw n refl in
                        rw (nc, n) (word_of-copy_line o b l.bytes h)
                  ])
                ]),
          )
    ]

-- ===== src/Cache/Word.antt =====
-- `set_word_cache` and `get_word_cache` of src/cache/cache.c: a word that is set is read back.
use ch_arm_v5_system_emulato.Base.{
  ℕ, zero, suc, ◌+◌, ◌/◌, ◌%◌, ◌^◌, ◌≤◌, true, List, [], ◌∷◌, ◌++◌, some, ◌>>=◌, length, get_elem?,
  set, take, drop, leb, if◌then◌else◌, Option-cases, Bool-cases, length-set, length-append,
  length-take, length-drop, get_elem?-set_self, ◌≡◌, inl, inr, refl, ap, ◌∙◌, arith,
}
use ch_arm_v5_system_emulato.Cache.{
  CacheLine, CacheSet, Cache, get_set, tag_of, find_line, put_line, offset_in, word_of, bytes_of,
  get_word_cache, set_word_cache,
}
use ch_arm_v5_system_emulato.Cache.Valid.{
  IsCache, find_line-same, find_line-lt, put-IsCache, get_word_cache-found,
}

word_of-bytes_of : (val : ℕ) → word_of (bytes_of 8 val) ≡ val % 2 ^ 64
unfolding word_of bytes_of
word_of-bytes_of val = omega arith

take-bytes_of : (n val : ℕ) (xs : List ℕ) → take n (bytes_of n val ++ xs) ≡ bytes_of n val
unfolding bytes_of
take-bytes_of zero val xs = refl
take-bytes_of (suc n) val xs = ap (λ r. val % 256 ∷ r) (take-bytes_of n (val / 256) xs)

pub length-bytes_of : (n val : ℕ) → length (bytes_of n val) ≡ n
unfolding bytes_of
length-bytes_of zero val = refl
length-bytes_of (suc n) val = ap suc (length-bytes_of n (val / 256))

drop-take {ℓ} :
    {A : Type ℓ} (o : ℕ) (xs ys : List A) → o ≤ length xs → drop o (take o xs ++ ys) ≡ ys
drop-take zero xs ys h = refl
drop-take (suc o) [] ys h = absurd (omega arith)
drop-take (suc o) (x ∷ xs) ys h = drop-take o xs ys (omega arith)

-- The eight bytes in the middle.
abbrev pub spliced : ℕ → ℕ → List ℕ → List ℕ
spliced o val bytes = take o bytes ++ (bytes_of 8 val ++ drop (o + 8) bytes)

word-spliced :
    (o val : ℕ) (bytes : List ℕ)
    → o + 8 ≤ length bytes
    → word_of (take 8 (drop o (spliced o val bytes))) ≡ val % 2 ^ 64
word-spliced o val bytes h =
    ap (λ xs. word_of (take 8 xs))
      (drop-take o bytes (bytes_of 8 val ++ drop (o + 8) bytes) (omega arith))
    ∙ ap word_of (take-bytes_of 8 val (drop (o + 8) bytes))
    ∙ word_of-bytes_of val

pub length-spliced :
    (o val : ℕ) (bytes : List ℕ)
    → o + 8 ≤ length bytes
    → length (spliced o val bytes) ≡ length bytes
length-spliced o val bytes h = ground (
  arith,
  length-append (take o bytes) (bytes_of 8 val ++ drop (o + 8) bytes),
  length-append (bytes_of 8 val) (drop (o + 8) bytes),
  length-take o bytes,
  length-bytes_of 8 val,
  length-drop (o + 8) bytes,
)

-- Where a word is read from.
record Found (cache : Cache) (addr : ℕ) : Type 0 where
  s : CacheSet
  i : ℕ
  line : CacheLine
  there : get_elem? cache.sets (get_set cache addr) ≡ some s
  hit : find_line (tag_of cache addr) 0 s.lines ≡ some i
  at : get_elem? s.lines i ≡ some line
  fits : leb (offset_in cache addr + 8) (length line.bytes) ≡ true

get_word_cache-Found :
    (cache : Cache) (addr old : ℕ) → get_word_cache cache addr ≡ some old → Found cache addr
unfolding get_word_cache
get_word_cache-Found cache addr old h =
    elim (Option-cases (get_elem? cache.sets (get_set cache addr))) [
      | inl e ↦ absurd (let q = rw (e, ◌>>=◌) at h in cc)
      | inr (s, there) ↦ elim (Option-cases (find_line (tag_of cache addr) 0 s.lines)) [
        | inl e ↦ absurd (let q = rw (there, ◌>>=◌, e) at h in cc)
        | inr (i, hit) ↦ elim (Option-cases (get_elem? s.lines i)) [
          | inl e ↦ absurd (let q = rw (there, ◌>>=◌, hit, e) at h in cc)
          | inr (line, at) ↦
              elim (Bool-cases (leb (offset_in cache addr + 8) (length line.bytes))) [
                | inl fits ↦ record {
                  s = s;
                  i = i;
                  line = line;
                  there = there;
                  hit = hit;
                  at = at;
                  fits = fits;
                }
                | inr e ↦ absurd (let q = rw (there, ◌>>=◌, hit, at, if◌then◌else◌, e) at h in cc)
              ]
        ]
      ]
    ]

-- On a cache in use, where get_word_cache reads a word, set_word_cache runs and keeps the cache in
-- use, and get_word_cache then reads the value that was set, cut to 64 bits.
pub get_word_cache-set_word_cache :
    (cache : Cache) (addr old val : ℕ)
    → IsCache cache
    → get_word_cache cache addr ≡ some old
    → (cache' : Cache) × (set_word_cache cache addr val ≡ some cache')
      × IsCache cache'
      × (get_word_cache cache' addr ≡ some (val % 2 ^ 64))
unfolding set_word_cache get_set
get_word_cache-set_word_cache cache addr old val ok h =
    let record { s = s; i = i; line = line; there = there; hit = hit; at = at; fits = fits } =
      get_word_cache-Found cache addr old h in
    let o = offset_in cache addr in
    let line' : CacheLine = record line { bytes = spliced o val line.bytes; dirty = true } in
    let s' = put_line s i line' in
    let cache' : Cache = record cache { sets = set cache.sets (get_set cache addr) s' } in
    let size = ok.lines (get_set cache addr) s there in
    let below = find_line-lt (tag_of cache addr) 0 i s.lines hit in
    let full = length-spliced o val line.bytes (ground arith) in
    (
      cache',
      rw (there, ◌>>=◌, hit, at, if◌then◌else◌, fits) refl,
      put-IsCache cache cache' (get_set cache addr) s' ok refl refl refl refl
          (length-set s.lines i line' ∙ size),
      get_word_cache-found cache' addr i s' line'
            (get_elem?-set_self cache.sets (get_set cache addr) s' (ok.index addr))
            (find_line-same (tag_of cache addr) 0 i s.lines line line' at refl refl ∙ hit)
            (get_elem?-set_self s.lines i line' (omega arith)) (rw full (ground arith))
          ∙ ap some (word-spliced o val line.bytes (ground arith)),
    )

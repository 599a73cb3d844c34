-- ===== src/Cache/Lines.antt =====
-- The lines of a cache of src/cache/cache.c by set and index, and the line that holds an address.
use mathlib.Core.Option.{some-injective}
use native.Mathlib.Decide.{ℕ_discrete}
use ch_arm_v5_system_emulato.Base.{
  ℕ, zero, suc, ◌+◌, ◌<◌, true, ◌&&◌, List, [], ◌∷◌, Option, none, some, ◌>>=◌, length, get_elem?,
  set, ◌==◌, if◌then◌else◌, Bool-cases, Option-cases, length-set, get_elem?-set_self,
  get_elem?-set_ne, get_elem?-lt, ◌≡◌, ◌≢◌, inl, inr, refl, sym, ap, ◌∙◌, arith, ◌⊎◌,
}
use ch_arm_v5_system_emulato.Cache.{
  CacheLine, CacheSet, Cache, get_set, tag_of, find_line, get_line,
}

-- The line at an index of a set.
pub record At (cache : Cache) (k i : ℕ) (line : CacheLine) : Type 0 where
  pub s : CacheSet
  pub there : get_elem? cache.sets k ≡ some s
  pub at : get_elem? s.lines i ≡ some line

-- A valid line with a tag.
pub record Holds (line : CacheLine) (tag : ℕ) : Type 0 where
  pub valid : line.valid ≡ true
  pub same : line.tag ≡ tag

-- No two valid lines of a set have one tag.
abbrev pub Unique : Cache → Type 0
Unique cache =
    (k i j tag : ℕ) (l m : CacheLine)
    → At cache k i l
    → At cache k j m
    → Holds l tag
    → Holds m tag
    → i ≡ j

find_line_sound :
    (tag j i : ℕ) (lines : List CacheLine)
    → find_line tag j lines ≡ some i
    → (n : ℕ) × (l : CacheLine) × (i ≡ j + n) × (get_elem? lines n ≡ some l) × Holds l tag
unfolding find_line
find_line_sound tag j i [] h = absurd cc
find_line_sound tag j i (l ∷ lines) h = elim (Bool-cases (l.valid && l.tag == tag)) [
  | inl e ↦ (
    0,
    l,
    (let q = some-injective j i (rw (if◌then◌else◌, e) at h) in omega arith),
    refl,
    record { valid = ground arith; same = ground arith },
  )
  | inr e ↦
      let (n, m, eq, at, holds) =
        find_line_sound tag (suc j) i lines (rw (if◌then◌else◌, e) at h) in
      (suc n, m, omega arith, at, holds)
]

find_line_complete :
    (tag j n : ℕ) (lines : List CacheLine) (l : CacheLine)
    → get_elem? lines n ≡ some l
    → Holds l tag
    → find_line tag j lines ≢ none
unfolding find_line
find_line_complete tag j n [] l at holds h = cc
find_line_complete tag j zero (m ∷ lines) l at holds h = ground (arith, some-injective m l at)
find_line_complete tag j (suc n) (m ∷ lines) l at holds h =
    ground (arith, find_line_complete tag (suc j) n lines l at holds)

-- The line that holds an address.
unfoldable pub line_of : Cache → ℕ → Option CacheLine
line_of cache addr = do
  s ← get_elem? cache.sets (get_set cache addr)
  i ← find_line (tag_of cache addr) 0 s.lines
  get_elem? s.lines i

-- It stands in the address's set, is valid and has its tag.
pub line_of-At :
    (cache : Cache) (addr : ℕ) (l : CacheLine)
    → line_of cache addr ≡ some l
    → (i : ℕ) × At cache (get_set cache addr) i l × Holds l (tag_of cache addr)
unfolding line_of
line_of-At cache addr l h = elim (Option-cases (get_elem? cache.sets (get_set cache addr))) [
  | inl e ↦ absurd (let q = rw (e, ◌>>=◌) at h in cc)
  | inr (s, e) ↦ elim (Option-cases (find_line (tag_of cache addr) 0 s.lines)) [
    | inl f ↦ absurd (let q = rw (e, ◌>>=◌, f) at h in cc)
    | inr (i, f) ↦
        let at : get_elem? s.lines i ≡ some l = rw (e, ◌>>=◌, f) at h in
        let (n, m, eq, at', holds) = find_line_sound (tag_of cache addr) 0 i s.lines f in
        let same : i ≡ n = omega arith in
        let eq' : m ≡ l = some-injective m l (sym at' ∙ rw (← same) at) in
        (i, record { s = s; there = e; at = at }, rw (← eq') holds)
  ]
]

-- A valid line with the address's tag in its set is the line of the address.
pub At-line_of :
    (cache : Cache) (addr i : ℕ) (l : CacheLine)
    → Unique cache
    → At cache (get_set cache addr) i l
    → Holds l (tag_of cache addr)
    → line_of cache addr ≡ some l
unfolding line_of
At-line_of cache addr i l unique a holds =
    elim (Option-cases (find_line (tag_of cache addr) 0 a.s.lines)) [
      | inl f ↦ absurd (find_line_complete (tag_of cache addr) 0 i a.s.lines l a.at holds f)
      | inr (j, f) ↦
          let (n, m, eq, at', holds') = find_line_sound (tag_of cache addr) 0 j a.s.lines f in
          let same : j ≡ n = omega arith in
          let there : At cache (get_set cache addr) j m = record {
            s = a.s;
            there = a.there;
            at = rw same at';
          } in
          let index : j ≡ i =
            unique (get_set cache addr) j i (tag_of cache addr) m l there a holds' holds in
          rw (a.there, ◌>>=◌, f, index) a.at
    ]

-- A miss, and no line of the address.
pub get_line-line_of :
    (cache : Cache) (addr : ℕ) → get_line cache addr ≡ some none → line_of cache addr ≡ none
unfolding get_line line_of
get_line-line_of cache addr h = elim (Option-cases (get_elem? cache.sets (get_set cache addr))) [
  | inl e ↦ rw (e, ◌>>=◌) refl
  | inr (s, e) ↦
      let f : find_line (tag_of cache addr) 0 s.lines ≡ none =
        some-injective _ _ (rw (e, ◌>>=◌) at h) in
      rw (e, ◌>>=◌, f) refl
]

-- What stands where after one line of one set is replaced.
pub At-put :
    (cache cache' : Cache) (k i : ℕ) (s s' : CacheSet) (line : CacheLine)
    → get_elem? cache.sets k ≡ some s
    → cache'.sets ≡ set cache.sets k s'
    → s'.lines ≡ set s.lines i line
    → (k' j : ℕ) (l : CacheLine) → At cache' k' j l
    → ((k' ≡ k) × (j ≡ i) × (l ≡ line)) ⊎ (((k' ≢ k) ⊎ (j ≢ i)) × At cache k' j l)
At-put cache cache' k i s s' line there sets lines k' j l a = elim (ℕ_discrete k k') [
  | no ne ↦ inr (
    inl (λ e. ne (sym e)),
    record {
      s = a.s;
      there = sym (get_elem?-set_ne cache.sets k k' s' ne) ∙ (rw sets at a.there);
      at = a.at;
    },
  )
  | yes e ↦
      let below = get_elem?-lt cache.sets k s there in
      let there' : get_elem? cache'.sets k' ≡ some s' =
        rw (← e, sets) (get_elem?-set_self cache.sets k s' below) in
      let same : s' ≡ a.s = some-injective s' a.s (sym there' ∙ a.there) in
      let at : get_elem? (set s.lines i line) j ≡ some l = rw (← lines, same) a.at in
      elim (ℕ_discrete i j) [
        | no ne ↦ inr (
          inr (λ q. ne (sym q)),
          record {
            s = s;
            there = rw (← e) there;
            at = sym (get_elem?-set_ne s.lines i j line ne) ∙ at;
          },
        )
        | yes q ↦
            let lt = get_elem?-lt (set s.lines i line) j l at in
            let below' : i < length s.lines = let size = length-set s.lines i line in omega arith in
            inl (
              sym e,
              sym q,
              some-injective l line
                  (sym at ∙ (rw (← q) (get_elem?-set_self s.lines i line below'))),
            )
      ]
]

pub At-kept :
    (cache cache' : Cache) (k i : ℕ) (s s' : CacheSet) (line : CacheLine)
    → get_elem? cache.sets k ≡ some s
    → cache'.sets ≡ set cache.sets k s'
    → s'.lines ≡ set s.lines i line
    → (k' j : ℕ) (l : CacheLine) → At cache k' j l
    → (k' ≢ k) ⊎ (j ≢ i)
    → At cache' k' j l
At-kept cache cache' k i s s' line there sets lines k' j l a other = elim (ℕ_discrete k k') [
  | no ne ↦ record {
    s = a.s;
    there = rw sets (get_elem?-set_ne cache.sets k k' s' ne ∙ a.there);
    at = a.at;
  }
  | yes e ↦
      let below = get_elem?-lt cache.sets k s there in
      let same : s ≡ a.s = some-injective s a.s (sym there ∙ (rw (← e) at a.there)) in
      let ne : i ≢ j = elim other [ inl d ↦ absurd (d (sym e)) | inr d ↦ λ q. d (sym q) ] in
      record {
        s = s';
        there = rw (sets, ← e) (get_elem?-set_self cache.sets k s' below);
        at = rw (lines, get_elem?-set_ne s.lines i j line ne, same) a.at;
      }
]

pub At-same : (cache : Cache) (k i : ℕ) (l m : CacheLine) → At cache k i l → At cache k i m → l ≡ m
At-same cache k i l m a c =
    let set_same : a.s ≡ c.s = some-injective a.s c.s (sym a.there ∙ c.there) in
    some-injective l m (sym a.at ∙ ap (λ (s : CacheSet). get_elem? s.lines i) set_same ∙ c.at)

-- Where `line_of` finds its line.
pub record FoundAt (cache : Cache) (addr : ℕ) (l : CacheLine) : Type 0 where
  pub s : CacheSet
  pub i : ℕ
  pub there : get_elem? cache.sets (get_set cache addr) ≡ some s
  pub hit : find_line (tag_of cache addr) 0 s.lines ≡ some i
  pub at : get_elem? s.lines i ≡ some l
  pub holds : Holds l (tag_of cache addr)

pub line_of-FoundAt :
    (cache : Cache) (addr : ℕ) (l : CacheLine) → line_of cache addr ≡ some l → FoundAt cache addr l
unfolding line_of
line_of-FoundAt cache addr l h =
    let (i, at, holds) = line_of-At cache addr l h in
    elim (Option-cases (find_line (tag_of cache addr) 0 at.s.lines)) [
      | inl f ↦ absurd (let q = rw (at.there, ◌>>=◌, f) at h in cc)
      | inr (j, f) ↦ record {
        s = at.s;
        i = j;
        there = at.there;
        hit = f;
        at = rw (at.there, ◌>>=◌, f) at h;
        holds = holds;
      }
    ]

-- Where there is no line of an address, its set has no such tag.
pub line_of-absent :
    (cache : Cache) (addr : ℕ) (s : CacheSet)
    → get_elem? cache.sets (get_set cache addr) ≡ some s
    → line_of cache addr ≡ none
    → find_line (tag_of cache addr) 0 s.lines ≡ none
unfolding line_of
line_of-absent cache addr s there h =
    elim (Option-cases (find_line (tag_of cache addr) 0 s.lines)) [
      | inl f ↦ f
      | inr (j, f) ↦
          let (n, m, eq, at, holds) = find_line_sound (tag_of cache addr) 0 j s.lines f in
          let same : j ≡ n = omega arith in
          absurd (let q = rw (there, ◌>>=◌, f, same, at) at h in cc)
    ]

-- Addresses of one block have one line.
pub line_of-block :
    (cache : Cache) (a c : ℕ)
    → get_set cache a ≡ get_set cache c
    → tag_of cache a ≡ tag_of cache c
    → line_of cache a ≡ line_of cache c
unfolding line_of
line_of-block cache a c k t = rw (k, t) refl

-- ===== src/Mem/Access/Hit.antt =====
-- `check_hit` of src/cache/cache.c on a data cache that is coherent with the memory.
use ch_arm_v5_system_emulato.Base.{
  ℕ, suc, ◌<◌, true, false, none, some, ◌>>=◌, length, get_or, set, if◌then◌else◌, get_elem?-lt,
  ◌≡◌, ◌≢◌, refl, sym, ap, ◌∙◌, arith,
}
use native.Mathlib.Decide.{ℕ_discrete}
use ch_arm_v5_system_emulato.Cache.{
  CacheLine, Cache, Operation, is_write, get_set, tag_of, offset_in, put_line, check_hit,
}
use ch_arm_v5_system_emulato.Cache.Valid.{IsCache, set_of, touch-lines}
use ch_arm_v5_system_emulato.Cache.Miss.{same_set}
use ch_arm_v5_system_emulato.Cache.Lines.{At, line_of, line_of-FoundAt, line_of-absent}
use ch_arm_v5_system_emulato.Mem.Ptable.{PageTable}
use ch_arm_v5_system_emulato.Mem.Access.Coherent.{seen, IsCoherent}
use ch_arm_v5_system_emulato.Mem.Access.Rewritten.{
  Rewritten, Rewritten-IsCoherent, Rewritten-here, Rewritten-elsewhere,
}

-- A cache after calls that keep its parameters.
pub record IsSameShape (cache cache' : Cache) : Type 0 where
  pub assoc : cache'.assoc ≡ cache.assoc
  pub block_size : cache'.block_size ≡ cache.block_size
  pub capacity : cache'.capacity ≡ cache.capacity

-- A miss is counted, and nothing else changes.
abbrev pub counted : Cache → Cache
counted cache = record cache { miss_count = suc cache.miss_count }

pub counted-IsCoherent :
    (cache : Cache) (ptable : PageTable) (b s : ℕ)
    → IsCoherent cache ptable b s
    → IsCoherent (counted cache) ptable b s
unfolding get_set
counted-IsCoherent cache ptable b s h = record {
  used = record {
    low = h.used.low;
    high = h.used.high;
    index = h.used.index;
    lines = h.used.lines;
  };
  geometry = record {
    size = h.geometry.size;
    bits = h.geometry.bits;
    sets = h.geometry.sets;
    fits = h.geometry.fits;
  };
  count = h.count;
  memory = h.memory;
  unique = λ k i j tag l m a c. h.unique k i j tag l m (old k i l a) (old k j m c);
  full = λ k i l a. h.full k i l (old k i l a);
  small = λ k i o l a. h.small k i o l (old k i l a);
  tags = λ k i l a. h.tags k i l (old k i l a);
  clean = λ k i o l a. h.clean k i o l (old k i l a);
}
  where
    old : (k i : ℕ) (l : CacheLine) → At (counted cache) k i l → At cache k i l
    old k i l a = record { s = a.s; there = a.there; at = a.at }

pub check_hit-miss :
    (cache : Cache) (a : ℕ) (operation : Operation)
    → IsCache cache
    → line_of cache a ≡ none
    → check_hit cache a operation ≡ some (false, counted cache)
unfolding check_hit
check_hit-miss cache a operation h miss =
    let (s, there, size) = set_of cache a h in
    rw (there, ◌>>=◌, line_of-absent cache a s there miss) refl

-- What a hit leaves.
pub record Touched (cache : Cache) (a : ℕ) (operation : Operation) (ptable : PageTable) (b s : ℕ)
    : Type 0 where
  pub cache' : Cache
  pub runs : check_hit cache a operation ≡ some (true, cache')
  pub shape : IsSameShape cache cache'
  pub coherent : IsCoherent cache' ptable b s
  pub same : (x : ℕ) → seen cache' ptable x ≡ seen cache ptable x
  pub line' : CacheLine
  pub there : line_of cache' a ≡ some line'

-- A line that keeps its bytes changes no byte that is seen.
Rewritten-same :
    (cache cache' : Cache) (ptable : PageTable) (b s k : ℕ) (h : IsCoherent cache ptable b s)
    (r : Rewritten cache cache' b k)
    → r.line'.bytes ≡ r.line.bytes
    → (x : ℕ) → seen cache' ptable x ≡ seen cache ptable x
unfolding seen
Rewritten-same cache cache' ptable b s k h r bytes x =
    let (_, _, o') = same_set cache cache' x r.assoc r.block_size r.capacity in
    let elsewhere = λ (other : get_set cache x ≡ k → tag_of cache x ≢ r.line.tag).
      Rewritten-elsewhere cache cache' ptable b s k h r x other in
    elim (ℕ_discrete (get_set cache x) k) [
      | no ne ↦ rw (o', elsewhere (λ e. absurd (ne e))) refl
      | yes ek ↦ elim (ℕ_discrete (tag_of cache x) r.line.tag) [
        | no ne ↦ rw (o', elsewhere (λ _. ne)) refl
        | yes et ↦
            let (was, now) = Rewritten-here cache cache' ptable b s k h r x ek et in
            rw (o', was, now) (ap (λ bs. get_or bs (offset_in cache x) 0) bytes)
      ]
    ]

pub check_hit-Touched :
    (cache : Cache) (a : ℕ) (operation : Operation) (ptable : PageTable) (b s : ℕ) (l : CacheLine)
    → IsCoherent cache ptable b s
    → line_of cache a ≡ some l
    → Touched cache a operation ptable b s
unfolding check_hit
check_hit-Touched cache a operation ptable b s l h found =
    let f = line_of-FoundAt cache a l found in
    let k = get_set cache a in
    let at : At cache k f.i l = record { s = f.s; there = f.there; at = f.at } in
    let line' : CacheLine = if is_write operation then record l { dirty = true } else l in
    let below : f.i < cache.assoc =
      let lt = get_elem?-lt f.s.lines f.i l f.at in
      let size = h.used.lines k f.s f.there in omega arith in
    let (s', touched, lines) =
      touch-lines cache (put_line f.s f.i line') f.i h.used.low h.used.high below in
    let cache' : Cache = record cache {
      hit_count = suc cache.hit_count;
      sets = set cache.sets k s';
    } in
    let bytes : line'.bytes ≡ l.bytes = ground arith in
    let r : Rewritten cache cache' b k = record {
      i = f.i;
      old_set = f.s;
      new_set = s';
      line = l;
      line' = line';
      there = f.there;
      at = f.at;
      valid = f.holds.valid;
      valid' = let v = f.holds.valid in ground arith;
      tag = ground arith;
      full = ap length bytes ∙ h.full k f.i l at;
      small = λ o. rw bytes (h.small k f.i o l at);
      clean = λ d. (ground arith, bytes);
      sets = refl;
      lines = lines;
      assoc = refl;
      block_size = refl;
      capacity = refl;
    } in
    record {
      cache' = cache';
      runs = rw (f.there, ◌>>=◌, f.hit, f.at, touched, if◌then◌else◌) refl;
      shape = record { assoc = refl; block_size = refl; capacity = refl };
      coherent = Rewritten-IsCoherent cache cache' ptable b s k h r;
      same = Rewritten-same cache cache' ptable b s k h r bytes;
      line' = line';
      there = (Rewritten-here cache cache' ptable b s k h r a refl (sym f.holds.same)).1;
    }

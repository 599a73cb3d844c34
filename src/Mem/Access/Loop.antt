-- ===== src/Mem/Access/Loop.antt =====
-- The loop of `_mem_read_cache` and `_mem_write_cache` of src/base/mem.c over the bytes of an access
-- that lies in one block.
use native.Mathlib.Nat.{one-le-pow, pow-le-pow_right, div-add-mod'}
use ch_arm_v5_system_emulato.Base.{
  ℕ, zero, suc, ◌+◌, ◌-◌, ◌^◌, ◌≤◌, ◌<◌, true, some, ◌>>=◌, add64, not64, bit_and, ◌≡◌, refl, sym,
  ap, ◌∙◌, arith,
}
use ch_arm_v5_system_emulato.Bits.{bit_and-high_mask}
use ch_arm_v5_system_emulato.Cache.{
  CacheLine, Cache, Operation, get_set, tag_of, offset_in, check_hit,
}
use ch_arm_v5_system_emulato.Cache.Miss.{same_set}
use ch_arm_v5_system_emulato.Cache.Address.{
  offset_in-lt, IsGeometry, base, base-lt, parts, address, get_set-lt, offset_in-parts, tag_of-lt,
}
use ch_arm_v5_system_emulato.Cache.Lines.{line_of, line_of-block}
use ch_arm_v5_system_emulato.Mem.Access.{MemSystem, arrived, block_of, cache_loop}
use ch_arm_v5_system_emulato.Mem.Access.Coherent.{seen, IsCoherent}
use ch_arm_v5_system_emulato.Mem.Access.Hit.{IsSameShape, check_hit-Touched}

-- `n` bytes from an address on stay in its block.
abbrev pub Inside : Cache → ℕ → ℕ → ℕ → Type 0
Inside cache b addr n = (addr < 2 ^ 64) × (offset_in cache addr + n ≤ 2 ^ b)

module _ (cache : Cache) (b s : ℕ) (g : IsGeometry cache b s) (addr : ℕ) where
  -- A later byte of the block.
  pub same_block :
      (n : ℕ)
      → addr < 2 ^ 64
      → offset_in cache addr + n < 2 ^ b
      → (get_set cache (addr + n) ≡ get_set cache addr)
        × (tag_of cache (addr + n) ≡ tag_of cache addr)
        × (offset_in cache (addr + n) ≡ offset_in cache addr + n)
        × (addr + n < 2 ^ 64)
  same_block n fits inside =
      let whole = address cache b s g addr in
      let k = get_set cache addr in
      let t = tag_of cache addr in
      let hk = get_set-lt cache b s g addr in
      let shift : addr + n ≡ base b s k t + (offset_in cache addr + n) = omega arith in
      let (ek, et, eo) = parts cache b s g k t (offset_in cache addr + n) hk inside in
      let lt =
        base-lt cache b s g k t (offset_in cache addr + n) (tag_of-lt cache b s g addr fits) hk
          inside in
      (
        ap (get_set cache) shift ∙ ek,
        ap (tag_of cache) shift ∙ et,
        ap (offset_in cache) shift ∙ eo,
        omega arith,
      )

  -- The address of the block.
  pub block_of-base :
      addr < 2 ^ 64 → block_of cache addr ≡ base b s (get_set cache addr) (tag_of cache addr)
  block_of-base fits =
      let whole = address cache b s g addr in
      let mask : not64 (cache.block_size - 1) ≡ 2 ^ 64 - 2 ^ b =
        let f = g.fits in
        let low = one-le-pow b 2 (omega arith) in
        let top : 2 ^ b ≤ 2 ^ 64 =
          pow-le-pow_right {n = 2} (omega arith) {i = b} {j = 64} (let f = g.fits in omega arith) in
        rw g.size (omega (arith, low, top)) in
      ap (bit_and addr) mask
      ∙ bit_and-high_mask 64 b addr (let f = g.fits in omega arith) fits
      ∙ (let same = offset_in-parts cache b s g addr in
          let split = div-add-mod' addr (2 ^ b) in omega arith)

  -- The block of an address has its set and its tag, and the offset 0.
  pub block_of-parts :
      addr < 2 ^ 64
      → (get_set cache (block_of cache addr) ≡ get_set cache addr)
        × (tag_of cache (block_of cache addr) ≡ tag_of cache addr)
        × (offset_in cache (block_of cache addr) ≡ 0)
        × (block_of cache addr < 2 ^ 64)
  block_of-parts fits =
      let k = get_set cache addr in
      let t = tag_of cache addr in
      let low = offset_in-lt cache b s g addr in
      let whole = address cache b s g addr in
      let start = block_of-base fits in
      let at : block_of cache addr ≡ base b s k t + 0 = omega arith in
      let (ek, et, eo) = parts cache b s g k t 0 (get_set-lt cache b s g addr) (omega arith) in
      (
        ap (get_set cache) at ∙ ek,
        ap (tag_of cache) at ∙ et,
        ap (offset_in cache) at ∙ eo,
        omega arith,
      )

-- The loop came to its end.
pub record Arrival (operation : Operation) (addr current left : ℕ) (cache : Cache) (mem : MemSystem)
    (b s : ℕ) : Type 0 where
  pub cache' : Cache
  pub mem' : MemSystem
  pub runs : cache_loop operation addr current left cache mem ≡ some (arrived cache' mem')
  pub shape : IsSameShape cache cache'
  pub coherent : IsCoherent cache' mem'.ptable b s
  pub same : (x : ℕ) → seen cache' mem'.ptable x ≡ seen cache mem.ptable x
  pub line : CacheLine
  pub there : line_of cache' addr ≡ some line
  pub offset : offset_in cache' addr ≡ offset_in cache addr
  pub segments : mem'.segments ≡ mem.segments

-- A byte that hits.
cache_loop-hit :
    (operation : Operation) (addr current left : ℕ) (cache cache' : Cache) (mem : MemSystem)
    → check_hit cache current operation ≡ some (true, cache')
    → cache_loop operation addr current (suc left) cache mem
      ≡ cache_loop operation addr (add64 current 1) left cache' mem
unfolding cache_loop
cache_loop-hit operation addr current left cache cache' mem hit = rw (hit, ◌>>=◌) refl

-- The bytes of a block that is in the cache all hit.
pub cache_loop-hits :
    (operation : Operation) (addr n left : ℕ) (cache : Cache) (mem : MemSystem) (b s : ℕ)
    (l : CacheLine)
    → IsCoherent cache mem.ptable b s
    → Inside cache b addr (n + left)
    → line_of cache addr ≡ some l
    → Arrival operation addr (add64 addr n) left cache mem b s
unfolding cache_loop
cache_loop-hits operation addr n zero cache mem b s l h inside found = record {
  cache' = cache;
  mem' = mem;
  runs = refl;
  shape = record { assoc = refl; block_size = refl; capacity = refl };
  coherent = h;
  same = λ x. refl;
  line = l;
  there = found;
  offset = refl;
  segments = refl;
}
cache_loop-hits operation addr n (suc left) cache mem b s l h (fits, inside) found =
    let (k, t, o, lt) = same_block cache b s h.geometry addr n fits (omega arith) in
    let r =
      check_hit-Touched cache (addr + n) operation mem.ptable b s l h
        (line_of-block cache (addr + n) addr k t ∙ found) in
    let c' = r.cache' in
    let (k', t', o') = same_set cache c' addr r.shape.assoc r.shape.block_size r.shape.capacity in
    let (k2, t2, _) =
      same_set cache c' (addr + n) r.shape.assoc r.shape.block_size r.shape.capacity in
    let found' =
      line_of-block c' addr (addr + n) (k' ∙ sym k ∙ sym k2) (t' ∙ sym t ∙ sym t2) ∙ r.there in
    let rest =
      cache_loop-hits operation addr (suc n) left c' mem b s r.line' r.coherent (fits, omega arith)
        found' in
    let now : add64 addr n ≡ addr + n = omega arith in
    let next : add64 (addr + n) 1 ≡ add64 addr (suc n) = omega arith in
    record {
      cache' = rest.cache';
      mem' = rest.mem';
      runs =
          ap (λ a. cache_loop operation addr a (suc left) cache mem) now
          ∙ cache_loop-hit operation addr (addr + n) left cache c' mem r.runs
          ∙ ap (λ a. cache_loop operation addr a left c' mem) next
          ∙ rest.runs;
      shape = record {
        assoc = rest.shape.assoc ∙ r.shape.assoc;
        block_size = rest.shape.block_size ∙ r.shape.block_size;
        capacity = rest.shape.capacity ∙ r.shape.capacity;
      };
      coherent = rest.coherent;
      same = λ x. rest.same x ∙ r.same x;
      line = rest.line;
      there = rest.there;
      offset = rest.offset ∙ o';
      segments = rest.segments;
    }

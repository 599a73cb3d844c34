-- ===== src/Mem/Access/Evict.antt =====
-- The write-back of an evicted line in src/base/mem.c.
use native.Mathlib.Nat.{mod-eq_of_lt, one-le-pow, mul-le-mul_left}
use ch_arm_v5_system_emulato.Base.{
  ℕ, zero, suc, ◌+◌, ◌-◌, ◌*◌, ◌^◌, ◌≤◌, ◌<◌, bit_or, true, false, ◌&&◌, List, [], ◌∷◌, length,
  get_or, take, if◌then◌else◌, u64, ◌<<<◌, Bool-cases, length-take, ◌≡◌, ◌≢◌, inl, inr, refl, ap,
  ◌∙◌, arith,
}
use ch_arm_v5_system_emulato.Bits.{bit_or_low}
use ch_arm_v5_system_emulato.Cache.{
  CacheLine, Cache, EvictedLine, get_set, tag_of, block_bits, set_bits,
}
use ch_arm_v5_system_emulato.Cache.Address.{IsGeometry, base, base-lt, parts}
use ch_arm_v5_system_emulato.Mem.Ptable.{PageTable}
use ch_arm_v5_system_emulato.Mem.Bytes.Flat.{byte_at}
use ch_arm_v5_system_emulato.Mem.Bytes.LittleEndian.{IsMemory}
use ch_arm_v5_system_emulato.Mem.Access.{write_block}
use ch_arm_v5_system_emulato.Mem.Access.Blocks.{write_block-flat}

pub get_or-take : (n i : ℕ) (xs : List ℕ) → i < n → get_or (take n xs) i 0 ≡ get_or xs i 0
get_or-take zero i xs h = absurd (omega arith)
get_or-take (suc n) i [] h = refl
get_or-take (suc n) zero (x ∷ xs) h = refl
get_or-take (suc n) (suc i) (x ∷ xs) h = get_or-take n i xs (omega arith)

pub get_or-take-lt :
    (n i : ℕ) (xs : List ℕ) → ((o : ℕ) → get_or xs o 0 < 256) → get_or (take n xs) i 0 < 256
get_or-take-lt zero i xs h = omega arith
get_or-take-lt (suc n) i [] h = omega arith
get_or-take-lt (suc n) zero (x ∷ xs) h = h 0
get_or-take-lt (suc n) (suc i) (x ∷ xs) h = get_or-take-lt n i xs (λ o. h (suc o))

module _ (cache : Cache) (b s : ℕ) (g : IsGeometry cache b s) where
  -- `handle_miss` puts together the address of the evicted block.
  evicted_address :
      (k tag : ℕ)
      → k < 2 ^ s
      → tag < 2 ^ (64 - (b + s))
      → u64 (bit_or (u64 (tag <<< set_bits cache)) k <<< block_bits cache) ≡ base b s k tag
  evicted_address k tag hk ht =
      let whole = base-lt cache b s g k tag 0 ht hk (one-le-pow b 2 (omega arith)) in
      let grow : (tag * 2 ^ s + k) * 1 ≤ (tag * 2 ^ s + k) * 2 ^ b =
        mul-le-mul_left (tag * 2 ^ s + k) (one-le-pow b 2 (omega arith)) in
      let tag' : u64 (tag * 2 ^ s) ≡ tag * 2 ^ s = mod-eq_of_lt (omega arith) in
      rw (g.bits, g.sets, tag', bit_or_low s tag k hk) (mod-eq_of_lt (omega arith))

  -- The memory after the write-back of a line of set `k`.
  pub write_back :
      (k : ℕ) (old : CacheLine) (evicted : EvictedLine) (ptable : PageTable)
      → k < 2 ^ s
      → (old.valid ≡ true → old.tag < 2 ^ (64 - (b + s)))
      → length old.bytes ≡ 2 ^ b
      → ((o : ℕ) → get_or old.bytes o 0 < 256)
      → evicted ≡ record {
        valid = old.valid;
        dirty = old.dirty;
        block_addr = u64 (bit_or (u64 (old.tag <<< set_bits cache)) k <<< block_bits cache);
        bytes = take cache.block_size old.bytes;
      }
      → IsMemory ptable
      → (old.valid ≡ true
          → old.dirty ≡ false
          → (o : ℕ) → o < 2 ^ b
          → byte_at ptable (base b s k old.tag + o) ≡ get_or old.bytes o 0)
      → let ptable' =
          if evicted.valid && evicted.dirty
          then write_block evicted.block_addr 0 evicted.bytes ptable
          else ptable in
        (old.valid ≡ true
          → (o : ℕ) → o < 2 ^ b
          → byte_at ptable' (base b s k old.tag + o) ≡ get_or old.bytes o 0)
        × ((a : ℕ)
            → (old.valid ≡ true → get_set cache a ≡ k → tag_of cache a ≢ old.tag)
            → byte_at ptable' a ≡ byte_at ptable a)
        × IsMemory ptable'
  write_back k old evicted ptable hk tag full small eq v clean =
      elim (Bool-cases (old.valid && old.dirty)) [
        | inr kept ↦
            rw (eq, if◌then◌else◌, kept) (λ valid. clean valid (ground arith), λ a other. refl, v)
        | inl written ↦
            let valid : old.valid ≡ true = ground arith in
            let pos = one-le-pow b 2 (omega arith) in
            let bytes = take cache.block_size old.bytes in
            let size : length bytes ≡ 2 ^ b =
              length-take cache.block_size old.bytes ∙ (let g' = g.size in omega arith) in
            let top = base-lt cache b s g k old.tag (2 ^ b - 1) (tag valid) hk (omega arith) in
            let at = evicted_address k old.tag hk (tag valid) in
            let all =
              write_block-flat (base b s k old.tag) 0 bytes ptable v (omega arith)
                (λ i. get_or-take-lt cache.block_size i old.bytes small) in
            rw (eq, if◌then◌else◌, written, at)
              (
                λ w o ho.
                    let shift : base b s k old.tag + o ≡ base b s k old.tag + 0 + o = omega arith in
                    rw shift (all.0 o (omega arith))
                    ∙ get_or-take cache.block_size o old.bytes (let g' = g.size in omega arith),
                λ a other. all.1 a (λ i lt e.
                    let here : a ≡ base b s k old.tag + i = omega arith in
                    let (at_k, at_tag, at_o) = parts cache b s g k old.tag i hk (omega arith) in
                    other valid (ap (get_set cache) here ∙ at_k) (ap (tag_of cache) here ∙ at_tag)),
                all.2,
              )
      ]

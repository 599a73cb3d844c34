-- ===== src/Cache/Create.antt =====
-- `create_cache` of src/cache/cache.c with numbers of sets that are powers of two.
use mathlib.Core.Option.{some-injective}
use native.Mathlib.Nat.{mod-lt}
use ch_arm_v5_system_emulato.Base.{
  ℕ, zero, suc, ◌+◌, ◌-◌, ◌*◌, ◌/◌, ◌^◌, ◌≤◌, ◌<◌, false, some, length, get_elem?, replicate, ◌>>>◌,
  length-replicate, u32, ◌≡◌, sym, ap, ◌∙◌, arith,
}
use ch_arm_v5_system_emulato.Cache.{
  block_bits, CacheLine, CacheSet, log_loop, log, create_cache, get_set,
}
use ch_arm_v5_system_emulato.Cache.Valid.{IsCache}

pub pow_pos : (s : ℕ) → 0 < 2 ^ s
pow_pos zero = omega arith
pow_pos (suc s) = ground (arith, pow_pos s)

log_loop-pow : (fuel s r : ℕ) → s < fuel → log_loop fuel (2 ^ s) r ≡ r + s
unfolding log_loop
log_loop-pow zero s r h = absurd (omega arith)
log_loop-pow (suc fuel) zero r h = ground arith
log_loop-pow (suc fuel) (suc s) r h = ground (arith, log_loop-pow fuel s (suc r), pow_pos s)

pub log-pow : (s : ℕ) → s < 64 → log (2 ^ s) ≡ s
unfolding log
log-pow s h = log_loop-pow 64 s 0 h ∙ omega arith

pub get_elem?-replicate {ℓ} :
    {A : Type ℓ} (n i : ℕ) (a b : A) → get_elem? (replicate n a) i ≡ some b → a ≡ b
get_elem?-replicate zero i a b h = absurd cc
get_elem?-replicate (suc n) zero a b h = some-injective a b h
get_elem?-replicate (suc n) (suc i) a b h = get_elem?-replicate n i a b h

-- With 1 to 8 lines to a set and a number of sets that is 2^s for an s below 64, create_cache
-- gives a cache in use.
pub create_cache-IsCache :
    (a b c d s : ℕ)
    → 1 ≤ a
    → a ≤ 8
    → c / u32 (a * b) ≡ 2 ^ s
    → s < 64
    → IsCache (create_cache a b c d)
unfolding create_cache get_set
create_cache-IsCache a b c d s lo hi sets lt =
    let line : CacheLine = record {
      valid = false;
      tag = 0;
      dirty = false;
      bytes = replicate b 0;
    } in
    let cache_set : CacheSet = record {
      lines = replicate a line;
      lru_matrix = 0;
      next_lru = 2 ^ 64 - 1;
    } in
    let bits = log-pow s lt in
    record {
      low = lo;
      high = hi;
      index = λ addr.
          rw (get_set, length-replicate (c / u32 (a * b)) cache_set, sets, bits)
            (mod-lt (addr >>> block_bits (create_cache a b c d)) (pow_pos s));
      lines = λ i t e.
          ap (λ (r : CacheSet). length r.lines)
            (sym (get_elem?-replicate (c / u32 (a * b)) i cache_set t e))
          ∙ length-replicate a line;
    }

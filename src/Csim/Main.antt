-- ===== src/Csim/Main.antt =====
-- `main` of src/cache/csim.c: its checks make the cache one that `create_cache` can be used for.
use ch_arm_v5_system_emulato.Base.{
  ℕ, ◌+◌, ◌*◌, ◌/◌, ◌^◌, ◌≤◌, ◌<◌, true, false, List, some, ◌>>=◌, ◌==◌, u32, if◌then◌else◌, pos,
  ◌≡◌, refl, ap, ◌∙◌, arith,
}
use native.Mathlib.Nat.{div-le_self, mul-le-mul}
use ch_arm_v5_system_emulato.Cache.{Cache, create_cache}
use ch_arm_v5_system_emulato.Cache.Create.{create_cache-IsCache}
use ch_arm_v5_system_emulato.Cache.Miss.{evictions}
use ch_arm_v5_system_emulato.Config.{popcount, int_mul, int_div}
use ch_arm_v5_system_emulato.Csim.{
  Scan, CsimOption, CsimArgs, summary, goes_on, is_missing, no_args, parse_options, replay_trace,
  simulate, check_args, proceed, csim_main,
}
use ch_arm_v5_system_emulato.Config.Popcount.{popcount-power}
use ch_arm_v5_system_emulato.Csim.Replay.{trace_accesses, replay_trace-Counted}

-- The arguments that the checks let through, of which the number of lines is one that the LRU matrix
-- has room for.
pub record IsConfigured (a b c : ℕ) : Type 0 where
  pub low : 1 ≤ a
  pub high : a ≤ 8
  pub block : 1 ≤ b
  pub product : a * b < 2 ^ 31
  pub capacity : c < 2 ^ 31
  pub sets : popcount 64 (c / (a * b)) ≡ 1

int_mul-pos : (a b : ℕ) → a * b < 2 ^ 31 → int_mul (pos a) (pos b) ≡ some (pos (a * b))
int_mul-pos a b h = ground arith

int_div-pos : (c m : ℕ) → 1 ≤ m → c / m < 2 ^ 31 → int_div (pos c) (pos m) ≡ some (pos (c / m))
int_div-pos c m h small = ground arith

-- The checks of `main` let such arguments through.
check_args-simulate :
    (scan : Scan) (bufs : List (List ℕ)) (a b c : ℕ)
    → IsConfigured a b c
    → let args : CsimArgs = record {
      a_arg = pos a;
      b_arg = pos b;
      c_arg = pos c;
      has_trace = true;
    } in
      check_args scan (some bufs) args ≡ simulate scan (some bufs) args
unfolding check_args
check_args-simulate scan bufs a b c ok =
    let args : CsimArgs = record {
      a_arg = pos a;
      b_arg = pos b;
      c_arg = pos c;
      has_trace = true;
    } in
    let low = ok.low in
    let block = ok.block in
    let small = ok.product in
    let capacity = ok.capacity in
    let below : c / (a * b) ≤ c = div-le_self c (a * b) in
    let some_lines : 1 * 1 ≤ a * b = mul-le-mul ok.low ok.block in
    let present : is_missing args ≡ false = ground arith in
    let product = int_mul-pos a b ok.product in
    let quotient = int_div-pos c (a * b) (omega arith) (omega arith) in
    let one : (popcount 64 (c / (a * b)) == 1) ≡ true = let e = ok.sets in ground arith in
    rw (present, if◌then◌else◌, product, ◌>>=◌, quotient, one) refl

-- The counters start at zero.
created :
    (a b c n : ℕ)
    → (n + ((create_cache a b c 0).hit_count + (create_cache a b c 0).miss_count) ≡ n)
      × ((create_cache a b c 0).miss_count ≡ 0)
      × (evictions (create_cache a b c 0) ≡ 0)
unfolding create_cache
created a b c n = (omega arith, refl, refl)

simulated :
    (scan : Scan) (bufs : List (List ℕ)) (a b c : ℕ) (cache : Cache)
    → replay_trace scan bufs (create_cache a b c 0) ≡ some cache
    → simulate scan
        (some bufs)
        (record { a_arg = pos a; b_arg = pos b; c_arg = pos c; has_trace = true })
      ≡ some (
          summary cache.hit_count cache.miss_count cache.dirty_eviction_count
            cache.clean_eviction_count)
unfolding simulate
simulated scan bufs a b c cache runs = rw (runs, ◌>>=◌) refl

-- If the options leave positive A, B and C with A at most 8, A * B and C below 2^31, a number of
-- sets with one bit set, and a trace of fewer than 2^31 accesses, the cache simulator runs the
-- whole trace and prints hits and misses that add up to the accesses of the trace, two for each M
-- line, and dirty and clean evictions that are together no more than the misses; so no counter
-- leaves the range of int.
pub csim_main-counts :
    (scan : Scan) (options : List CsimOption) (bufs : List (List ℕ)) (a b c : ℕ)
    → parse_options options no_args
      ≡ goes_on (record { a_arg = pos a; b_arg = pos b; c_arg = pos c; has_trace = true })
    → IsConfigured a b c
    → trace_accesses bufs < 2 ^ 31
    → (hits misses dirty clean : ℕ) × (csim_main scan options (some bufs)
        ≡ some (summary hits misses dirty clean))
      × (hits + misses ≡ trace_accesses bufs)
      × (dirty + clean ≤ misses)
      × (hits < 2 ^ 31)
      × (misses < 2 ^ 31)
unfolding csim_main proceed
csim_main-counts scan options bufs a b c parsed ok few_accesses =
    let low = ok.low in
    let block = ok.block in
    let small = ok.product in
    let capacity = ok.capacity in
    let wide = ok.sets in
    let below : c / (a * b) ≤ c = div-le_self c (a * b) in
    let (s, few, power) = popcount-power 64 (c / (a * b)) (omega arith) ok.sets in
    let same : u32 (a * b) ≡ a * b = omega arith in
    let used = create_cache-IsCache a b c 0 s ok.low ok.high (rw same power) few in
    let (cache, runs, counted) = replay_trace-Counted scan bufs (create_cache a b c 0) used in
    let (zero_counts, no_misses, no_evictions) = created a b c (trace_accesses bufs) in
    let total : cache.hit_count + cache.miss_count ≡ trace_accesses bufs =
      counted.count ∙ zero_counts in
    let checked = check_args-simulate scan bufs a b c ok in
    (
      cache.hit_count,
      cache.miss_count,
      cache.dirty_eviction_count,
      cache.clean_eviction_count,
      ap (proceed scan (some bufs)) parsed ∙ checked ∙ simulated scan bufs a b c cache runs,
      total,
      (let evicted = counted.evicted in omega arith),
      omega arith,
      omega arith,
    )

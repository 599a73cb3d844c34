-- ===== src/Csim.antt =====
-- src/cache/csim.c: the cache simulator, which replays a trace of accesses against one cache. The
-- options that `getopt` finds, with the numbers that `atoi` reads, are the input, as is the buffer
-- after each `fgets`; `sscanf` is a parameter. What is printed under `-v` is left out.
pub mod Replay
pub mod Main
mod Tests
use ch_arm_v5_system_emulato.Base.{
  ℕ, Bool, true, false, ◌||◌, not, List, [], ◌∷◌, Option, none, some, ◌>>=◌, get_or, drop, ◌==◌,
  if◌then◌else◌, ℤ, negsuc, eqb_ℤ,
}
use ch_arm_v5_system_emulato.Cache.{Cache, read, write, create_cache, access_data}
use ch_arm_v5_system_emulato.Config.{popcountll, int_mul, int_div, unsigned_of, valid_block}

-- What `sscanf` leaves in `addr` and `len`, given the text and what they held.
abbrev pub Scan : Type 0
Scan = List ℕ → ℕ → ℕ → ℕ × ℕ

-- The accesses of a line, by the character of its operation: 'S', 'L' or 'M'.
unfoldable pub replay_operation : ℕ → ℕ → Cache → Option Cache
replay_operation op addr cache =
    if op == 83
    then access_data cache addr write
    else if op == 76
    then access_data cache addr read
    else if op == 77
    then (do cache' ← access_data cache addr read; access_data cache' addr write)
    else some cache

abbrev pub is_operation : ℕ → Bool
is_operation op = op == 83 || op == 76 || op == 77

-- One round of the loop of `replayTrace`, on the contents of `buf`.
unfoldable pub replay_line : Scan → List ℕ → ℕ → ℕ → Cache → Option (ℕ × ℕ × Cache)
replay_line scan buf addr len cache =
    let op = get_or buf 1 0 in
    let scanned = scan (drop 3 buf) addr len in
    if is_operation op
    then (do cache' ← replay_operation op scanned.0 cache; some (scanned.0, scanned.1, cache'))
    else some (addr, len, cache)

-- The loop, with `addr` and `len` as they stand.
unfoldable pub replay_lines : Scan → List (List ℕ) → ℕ → ℕ → Cache → Option Cache
replay_lines scan [] addr len cache = some cache
replay_lines scan (buf ∷ bufs) addr len cache = do
  (addr', len', cache') ← replay_line scan buf addr len cache
  replay_lines scan bufs addr' len' cache'

-- `replayTrace` of a trace that could be opened.
unfoldable pub replay_trace : Scan → List (List ℕ) → Cache → Option Cache
replay_trace scan bufs cache = replay_lines scan bufs 0 0 cache

-- The options, with the numbers of `-A`, `-B` and `-C`.
pub data CsimOption : Type 0 where
  opt_a opt_b opt_c : ℤ → CsimOption
  opt_t opt_v opt_h opt_other : CsimOption

-- `A`, `B` and `C`, and whether `trace_file` is set.
pub record CsimArgs : Type 0 where
  pub a_arg : ℤ
  pub b_arg : ℤ
  pub c_arg : ℤ
  pub has_trace : Bool

-- How the program ends: with a code, or after it has printed hits, misses, dirty and clean evictions.
pub data CsimEnd : Type 0 where
  exited : ℕ → CsimEnd
  summary : ℕ → ℕ → ℕ → ℕ → CsimEnd

pub data Parsed : Type 0 where
  stops : ℕ → Parsed
  goes_on : CsimArgs → Parsed

-- The loop over the options. `printUsage` exits with 0.
unfoldable pub parse_options : List CsimOption → CsimArgs → Parsed
parse_options [] args = goes_on args
parse_options (opt_a n ∷ options) args = parse_options options (record args { a_arg = n })
parse_options (opt_b n ∷ options) args =
    let rest = parse_options options (record args { b_arg = n }) in
    if valid_block n then rest else stops 0
parse_options (opt_c n ∷ options) args = parse_options options (record args { c_arg = n })
parse_options (opt_t ∷ options) args = parse_options options (record args { has_trace = true })
parse_options (opt_v ∷ options) args = parse_options options args
parse_options (opt_h ∷ options) args = stops 0
parse_options (opt_other ∷ options) args = stops 0

abbrev pub no_args : CsimArgs
no_args = record { a_arg = negsuc 0; b_arg = negsuc 0; c_arg = negsuc 0; has_trace = false }

abbrev pub is_missing : CsimArgs → Bool
is_missing args =
    eqb_ℤ args.a_arg (negsuc 0)
    || eqb_ℤ args.b_arg (negsuc 0)
    || eqb_ℤ args.c_arg (negsuc 0)
    || not args.has_trace

-- `create_cache`, `replayTrace` and `printSummary`; without a trace the file could not be opened.
unfoldable pub simulate : Scan → Option (List (List ℕ)) → CsimArgs → Option CsimEnd
simulate scan none args = some (exited 1)
simulate scan (some bufs) args = do
  cache ←
      replay_trace scan bufs
        (create_cache (unsigned_of args.a_arg) (unsigned_of args.b_arg) (unsigned_of args.c_arg) 0)
  some (
      summary cache.hit_count cache.miss_count cache.dirty_eviction_count
        cache.clean_eviction_count)

-- What `main` does with its arguments.
unfoldable pub check_args : Scan → Option (List (List ℕ)) → CsimArgs → Option CsimEnd
check_args scan bufs args = if is_missing args then some (exited 0) else (do
  product ← int_mul args.a_arg args.b_arg
  sets ← int_div args.c_arg product
  if popcountll sets == 1 then simulate scan bufs args else some (exited 1))

-- `main`, after its loop over the options.
unfoldable pub proceed : Scan → Option (List (List ℕ)) → Parsed → Option CsimEnd
proceed scan bufs (stops code) = some (exited code)
proceed scan bufs (goes_on args) = check_args scan bufs args

-- `main`.
unfoldable pub csim_main : Scan → List CsimOption → Option (List (List ℕ)) → Option CsimEnd
csim_main scan options bufs = proceed scan bufs (parse_options options no_args)

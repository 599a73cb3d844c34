-- ===== src/Args.antt =====
-- src/base/handle_args.c: the options of the command line. What `getopt` finds is the input, with
-- the numbers that `atoi` and `atol` read and whether `fopen` succeeds. What is logged and printed is
-- left out, except for the note on the cache.
pub mod Block
mod Tests
use ch_arm_v5_system_emulato.Base.{
  ℕ, Bool, true, false, ◌||◌, not, List, [], ◌∷◌, Option, none, some, ◌>>=◌, ◌==◌, if◌then◌else◌, ℤ,
  pos, negsuc, eqb_ℤ,
}
use ch_arm_v5_system_emulato.Config.{popcountll, int_mul, int_div, unsigned_of, valid_block}
use ch_arm_v5_system_emulato.Machine.{CacheArgs}

-- The options: `-l` with 64 bits, `-v` with its first character, an output or a checkpoint with
-- whether it could be opened.
pub data ArgOption : Type 0 where
  arg_h arg_i arg_unknown : ArgOption
  arg_o arg_c : Bool → ArgOption
  arg_l arg_v : ℕ → ArgOption
  arg_assoc arg_block arg_capacity arg_delay : ℤ → ArgOption

-- The globals that the options set. `infile` is `proper_usage` as well.
pub record RunArgs : Type 0 where
  pub infile : Bool
  pub outfile : Bool
  pub checkpoint : Bool
  pub cycle_max : ℕ
  pub debug_level : ℕ
  pub a_arg : ℤ
  pub b_arg : ℤ
  pub c_arg : ℤ
  pub d_arg : ℤ
  pub terminate : Bool

-- What is logged of the cache.
pub data CacheNote : Type 0 where
  missing_arguments invalid_configuration with_cache : CacheNote

-- The end of the process with a code, or the return to the caller; without a note it is an early one.
pub data ArgsEnd : Type 0 where
  exits : ℕ → ArgsEnd
  returns : RunArgs → Option CacheNote → ArgsEnd

abbrev pub debug_of : ℕ → ℕ
debug_of c = if c == 48 then 0 else if c == 50 then 2 else if c == 51 then 3 else 1

abbrev pub lacks_cache : RunArgs → Bool
lacks_cache args =
    eqb_ℤ args.a_arg (negsuc 0)
    || eqb_ℤ args.b_arg (negsuc 0)
    || eqb_ℤ args.c_arg (negsuc 0)
    || eqb_ℤ args.d_arg (negsuc 0)

-- The note after the loop. A division by zero ends the process.
unfoldable pub cache_note : RunArgs → Option CacheNote
cache_note args = if lacks_cache args then some missing_arguments else (do
  product ← int_mul args.a_arg args.b_arg
  sets ← int_div args.c_arg product
  some (if popcountll sets == 1 then with_cache else invalid_configuration))

-- After the loop over the options.
unfoldable pub finish_args : RunArgs → Option ArgsEnd
finish_args args =
    if args.infile
    then (do note ← cache_note args; some (returns args (some note)))
    else some (exits 1)

-- The loop over the options; a file that cannot be opened is logged as fatal, and ends it.
unfoldable pub parse_args : List ArgOption → RunArgs → Option ArgsEnd
parse_args [] args = finish_args args
parse_args (arg_h ∷ options) args = some (exits 0)
parse_args (arg_i ∷ options) args = parse_args options (record args { infile = true })
parse_args (arg_unknown ∷ options) args = parse_args options args
parse_args (arg_o true ∷ options) args = parse_args options (record args { outfile = true })
parse_args (arg_o false ∷ options) args =
    some (returns (record args { outfile = false; terminate = true }) none)
parse_args (arg_c true ∷ options) args = parse_args options (record args { checkpoint = true })
parse_args (arg_c false ∷ options) args =
    some (returns (record args { checkpoint = false; terminate = true }) none)
parse_args (arg_l n ∷ options) args = parse_args options (record args { cycle_max = n })
parse_args (arg_v c ∷ options) args = parse_args options (record args { debug_level = debug_of c })
parse_args (arg_assoc n ∷ options) args = parse_args options (record args { a_arg = n })
parse_args (arg_block n ∷ options) args = do
  let rest = parse_args options (record args { b_arg = n })
  if eqb_ℤ n (negsuc 0) || valid_block n then rest else some (exits 1)
parse_args (arg_capacity n ∷ options) args = parse_args options (record args { c_arg = n })
parse_args (arg_delay n ∷ options) args = parse_args options (record args { d_arg = n })

-- `handle_args`, with `cycle_max` and `debug_level` as they stand.
unfoldable pub handle_args : List ArgOption → ℕ → ℕ → Option ArgsEnd
handle_args options cycle_max debug_level = parse_args options (record {
  infile = false;
  outfile = false;
  checkpoint = false;
  cycle_max = cycle_max;
  debug_level = debug_level;
  a_arg = negsuc 0;
  b_arg = negsuc 0;
  c_arg = negsuc 0;
  d_arg = negsuc 0;
  terminate = false;
})

-- An argument as `init_machine` reads it.
abbrev pub int_arg : ℤ → Option ℕ
int_arg n = if eqb_ℤ n (negsuc 0) then none else some (unsigned_of n)

abbrev pub cache_args : RunArgs → CacheArgs
cache_args args = record {
  a_arg = int_arg args.a_arg;
  b_arg = int_arg args.b_arg;
  c_arg = int_arg args.c_arg;
  d_arg = int_arg args.d_arg;
}

-- ===== src/Args/Block.antt =====
-- The block size that `handle_args` of src/base/handle_args.c lets through, up to the cache that
-- `init_machine` of src/base/machine.c makes.
use mathlib.Core.Option.{some-injective}
use ch_arm_v5_system_emulato.Base.{
  ℕ, zero, suc, ◌^◌, ◌≤◌, ◌<◌, Bool, true, false, ◌||◌, List, [], ◌∷◌, Option, none, some, ◌>>=◌,
  if◌then◌else◌, ℤ, pos, negsuc, eqb_ℤ, Bool-cases, Option-cases, ◌≡◌, ◌⊎◌, inl, inr, refl, sym, ap,
  ◌∙◌, arith,
}
use ch_arm_v5_system_emulato.Config.{popcount, magnitude, valid_block}
use ch_arm_v5_system_emulato.Config.Popcount.{popcount-power}
use ch_arm_v5_system_emulato.Args.{
  ArgOption, arg_h, arg_i, arg_unknown, arg_o, arg_c, arg_l, arg_v, arg_assoc, arg_block,
  arg_capacity, arg_delay, RunArgs, ArgsEnd, exits, returns, CacheNote, cache_note, finish_args,
  parse_args, handle_args, cache_args, int_arg,
}
use ch_arm_v5_system_emulato.Cache.{Cache, create_cache}
use ch_arm_v5_system_emulato.Mem.Ptable.{PageTable}
use ch_arm_v5_system_emulato.Machine.{cache_of, init_machine}

-- No block size, or one that the check lets through.
abbrev allowed : ℤ → Bool
allowed n = eqb_ℤ n (negsuc 0) || valid_block n

-- The block size with which the process goes on.
abbrev ends_allowed : Option ArgsEnd → Bool
ends_allowed none = true
ends_allowed (some (exits code)) = true
ends_allowed (some (returns args logged)) = allowed args.b_arg

finish_args-allowed :
    (args : RunArgs) → allowed args.b_arg ≡ true → ends_allowed (finish_args args) ≡ true
unfolding finish_args
finish_args-allowed args h = elim (Bool-cases args.infile) [
  | inr e ↦ simp (e, if◌then◌else◌) refl
  | inl e ↦ elim (Option-cases (cache_note args)) [
    | inl f ↦ simp (e, if◌then◌else◌, f, ◌>>=◌) refl
    | inr (note, f) ↦ simp (e, if◌then◌else◌, f, ◌>>=◌) h
  ]
]

parse_args-allowed :
    (options : List ArgOption) (args : RunArgs)
    → allowed args.b_arg ≡ true
    → ends_allowed (parse_args options args) ≡ true
unfolding parse_args
parse_args-allowed [] args h = finish_args-allowed args h
parse_args-allowed (arg_h ∷ options) args h = refl
parse_args-allowed (arg_i ∷ options) args h = parse_args-allowed options _ h
parse_args-allowed (arg_unknown ∷ options) args h = parse_args-allowed options args h
parse_args-allowed (arg_o true ∷ options) args h = parse_args-allowed options _ h
parse_args-allowed (arg_o false ∷ options) args h = h
parse_args-allowed (arg_c true ∷ options) args h = parse_args-allowed options _ h
parse_args-allowed (arg_c false ∷ options) args h = h
parse_args-allowed (arg_l n ∷ options) args h = parse_args-allowed options _ h
parse_args-allowed (arg_v c ∷ options) args h = parse_args-allowed options _ h
parse_args-allowed (arg_assoc n ∷ options) args h = parse_args-allowed options _ h
parse_args-allowed (arg_block n ∷ options) args h = elim (Bool-cases (allowed n)) [
  | inl e ↦ simp (e, if◌then◌else◌) (parse_args-allowed options (record args { b_arg = n }) e)
  | inr e ↦ simp (e, if◌then◌else◌) refl
]
parse_args-allowed (arg_capacity n ∷ options) args h = parse_args-allowed options _ h
parse_args-allowed (arg_delay n ∷ options) args h = parse_args-allowed options _ h

power-least : (s : ℕ) → 8 ≤ 2 ^ s → 3 ≤ s
power-least zero h = absurd (omega arith)
power-least (suc zero) h = absurd (omega arith)
power-least (suc (suc zero)) h = absurd (omega arith)
power-least (suc (suc (suc s))) h = omega arith

-- An allowed size is none or a power of two.
allowed-power :
    (n : ℤ)
    → allowed n ≡ true
    → magnitude n < 2 ^ 31
    → (int_arg n ≡ none) ⊎ ((s : ℕ) × (3 ≤ s) × (int_arg n ≡ some (2 ^ s)))
allowed-power (pos m) h small =
    let large : 8 ≤ m = ground arith in
    let one : popcount 64 m ≡ 1 = ground arith in
    let (s, below, power) = popcount-power 64 m (omega arith) one in
    let there : eqb_ℤ (pos m) (negsuc 0) ≡ false = ground arith in
    inr (s, power-least s (omega arith), simp (there, if◌then◌else◌) (ap some power))
allowed-power (negsuc zero) h small = inl refl
allowed-power (negsuc (suc k)) h small = absurd (ground arith)

-- A cache with that block size, or no cache.
cache_of-block :
    (a b c d : Option ℕ)
    → (b ≡ none) ⊎ ((s : ℕ) × (3 ≤ s) × (b ≡ some (2 ^ s)))
    → (cache_of a b c d ≡ none)
      ⊎ ((cache : Cache) × (s : ℕ) × (cache_of a b c d ≡ some cache)
          × (3 ≤ s)
          × (cache.block_size ≡ 2 ^ s))
unfolding cache_of create_cache
cache_of-block none b c d h = inl refl
cache_of-block (some a) none c d h = inl refl
cache_of-block (some a) (some b) none d h = inl refl
cache_of-block (some a) (some b) (some c) none h = inl refl
cache_of-block (some a) (some b) (some c) (some d) (inl e) = absurd cc
cache_of-block (some a) (some b) (some c) (some d) (inr (s, low, e)) =
    inr (create_cache a b c d, s, refl, low, some-injective b (2 ^ s) e)

-- If handle_args returns and its block size is an int, the guest that init_machine makes with
-- these arguments has no data cache or one whose block size is 2^s for an s of at least 3.
pub handle_args-block_size :
    (options : List ArgOption) (cycle_max debug_level : ℕ) (args : RunArgs)
    (logged : Option CacheNote) (ptable : PageTable) (stdin : List ℕ)
    → handle_args options cycle_max debug_level ≡ some (returns args logged)
    → magnitude args.b_arg < 2 ^ 31
    → let cache = (init_machine (cache_args args) ptable stdin).mem.cache in
      (cache ≡ none)
      ⊎ ((made : Cache) × (s : ℕ) × (cache ≡ some made) × (3 ≤ s) × (made.block_size ≡ 2 ^ s))
unfolding handle_args init_machine
handle_args-block_size options cycle_max debug_level args logged ptable stdin runs small =
    let ends = ap ends_allowed (sym runs) ∙ parse_args-allowed options _ refl in
    cache_of-block (int_arg args.a_arg) (int_arg args.b_arg) (int_arg args.c_arg)
      (int_arg args.d_arg) (allowed-power args.b_arg ends small)

-- ===== src/Args/Tests.antt =====
-- A command line with a cache.
use ch_arm_v5_system_emulato.Base.{
  ℕ, ◌^◌, ◌≤◌, true, false, List, [], ◌∷◌, none, some, pos, ◌≡◌, ◌⊎◌, refl, arith,
}
use ch_arm_v5_system_emulato.Cache.{Cache}
use ch_arm_v5_system_emulato.Mem.Ptable.{empty_ptable}
use ch_arm_v5_system_emulato.Config.{popcount}
use ch_arm_v5_system_emulato.Machine.{init_machine}
use ch_arm_v5_system_emulato.Args.{
  ArgOption, arg_i, arg_assoc, arg_block, arg_capacity, arg_delay, RunArgs, with_cache, cache_note,
  finish_args, parse_args, handle_args, cache_args,
}
use ch_arm_v5_system_emulato.Args.Block.{handle_args-block_size}

abbrev options : List ArgOption
options =
    arg_i ∷ arg_assoc (pos 2) ∷ arg_block (pos 16) ∷ arg_capacity (pos 64) ∷ arg_delay (pos 3) ∷ []

abbrev result : RunArgs
result = record {
  infile = true;
  outfile = false;
  checkpoint = false;
  cycle_max = 500;
  debug_level = 0;
  a_arg = pos 2;
  b_arg = pos 16;
  c_arg = pos 64;
  d_arg = pos 3;
  terminate = false;
}

handle_args-block_size_example :
    let cache = (init_machine (cache_args result) empty_ptable []).mem.cache in
    (cache ≡ none)
    ⊎ ((made : Cache) × (s : ℕ) × (cache ≡ some made) × (3 ≤ s) × (made.block_size ≡ 2 ^ s))
unfolding handle_args parse_args finish_args cache_note popcount
handle_args-block_size_example =
    handle_args-block_size options 500 0 result (some with_cache) empty_ptable [] refl (omega arith)

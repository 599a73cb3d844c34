-- ===== src/Csim/Tests.antt =====
-- A small trace.
use ch_arm_v5_system_emulato.Base.{
  ℕ, ◌+◌, ◌^◌, ◌<◌, ◌≤◌, List, [], ◌∷◌, get_or, some, pos, ◌≡◌, refl, arith,
}
use ch_arm_v5_system_emulato.Config.{popcount}
use ch_arm_v5_system_emulato.Csim.{
  Scan, CsimOption, opt_a, opt_b, opt_c, opt_t, summary, parse_options, csim_main,
}
use ch_arm_v5_system_emulato.Csim.Replay.{trace_accesses}
use ch_arm_v5_system_emulato.Csim.Main.{csim_main-counts}

-- The address is the one character after the operation, and one byte is accessed.
abbrev one_digit : Scan
one_digit text addr len = (get_or text 0 0, 1)

-- " S 0", " M 0" and a line that is no access.
abbrev lines : List (List ℕ)
lines = (32 ∷ 83 ∷ 32 ∷ 48 ∷ []) ∷ (32 ∷ 77 ∷ 32 ∷ 48 ∷ []) ∷ (73 ∷ 32 ∷ 32 ∷ 48 ∷ []) ∷ []

abbrev options : List CsimOption
options = opt_a (pos 2) ∷ opt_b (pos 16) ∷ opt_c (pos 64) ∷ opt_t ∷ []

csim_main-counts_example :
    (hits misses dirty clean : ℕ) × (csim_main one_digit options (some lines)
      ≡ some (summary hits misses dirty clean))
    × (hits + misses ≡ trace_accesses lines)
    × (dirty + clean ≤ misses)
    × (hits < 2 ^ 31)
    × (misses < 2 ^ 31)
unfolding parse_options popcount
csim_main-counts_example =
    csim_main-counts one_digit options lines 2 16 64 refl
      (record {
        low = omega arith;
        high = omega arith;
        block = omega arith;
        product = omega arith;
        capacity = omega arith;
        sets = refl;
      })
      (omega arith)

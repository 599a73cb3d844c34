-- ===== src/Mem/Access/Tests.antt =====
-- The cached memory on small inputs.
use ch_arm_v5_system_emulato.Base.{ℕ, ◌^◌, false, List, [], ◌∷◌, some, ◌≡◌, refl, arith}
use ch_arm_v5_system_emulato.Isa.{ready}
use ch_arm_v5_system_emulato.Cache.{Cache, create_cache}
use ch_arm_v5_system_emulato.Mem.Ptable.{empty_ptable}
use ch_arm_v5_system_emulato.Mem.Bytes.{is_special_addr}
use ch_arm_v5_system_emulato.Mem.Bytes.Flat.{byte_at}
use ch_arm_v5_system_emulato.Mem.Bytes.LittleEndian.{le_value}
use ch_arm_v5_system_emulato.Mem.Examples.{segments}
use ch_arm_v5_system_emulato.Mem.Bytes.Empty.{empty_ptable-IsMemory}
use ch_arm_v5_system_emulato.Mem.Access.{MemSystem}
use ch_arm_v5_system_emulato.Mem.Access.Coherent.{seen, IsCoherent}
use ch_arm_v5_system_emulato.Mem.Access.Initial.{create_cache-line_of, create_cache-IsCoherent}
use ch_arm_v5_system_emulato.Mem.Access.Read.{CachedRead, mem_read_cache-seen}
use ch_arm_v5_system_emulato.Mem.Access.Write.{CachedWrite, mem_write_cache-seen}
use ch_arm_v5_system_emulato.Mem.Access.Delay.{Attempt, read_again-delay}
use ch_arm_v5_system_emulato.Mem.Access.Refinement.{
  Access, load, store, Response, run_all, FlatSteps, IsCached, none_left, allow, Shows,
  run_all-FlatSteps,
}

-- Four sets of one line of 16 bytes, and a miss that takes two cycles.
abbrev small_cache : Cache
small_cache = create_cache 1 (2 ^ 4) 64 2

abbrev small_mem : MemSystem
small_mem = record {
  segments = segments;
  ptable = empty_ptable;
  cache = some small_cache;
  inflight_cycles = 0;
  inflight_addr = 0;
  inflight = false;
  dmem_status = ready;
  stdin = [];
  output = [];
}

create_cache-IsCoherent_example :
    IsCoherent small_cache empty_ptable 4 2
    × ((x : ℕ) → seen small_cache empty_ptable x ≡ byte_at empty_ptable x)
create_cache-IsCoherent_example =
    create_cache-IsCoherent 1 4 64 2 2 empty_ptable (omega arith) (omega arith) refl (omega arith)
      (omega arith) (omega arith) empty_ptable-IsMemory

small_cache-IsCoherent : IsCoherent small_cache empty_ptable 4 2
small_cache-IsCoherent =
    (create_cache-IsCoherent 1 4 64 2 2 empty_ptable (omega arith) (omega arith) refl (omega arith)
      (omega arith) (omega arith) empty_ptable-IsMemory).0

mem_read_cache-seen_example : CachedRead 0x800014 8 small_cache small_mem 4 2
unfolding create_cache
mem_read_cache-seen_example =
    mem_read_cache-seen 0x800014 7 small_cache small_mem 4 2 small_cache-IsCoherent
      (omega arith, omega arith) (omega arith)

mem_write_cache-seen_example : CachedWrite 0x800014 0x1122334455667788 8 small_cache small_mem 4 2
unfolding create_cache
mem_write_cache-seen_example =
    mem_write_cache-seen 0x800014 0x1122334455667788 7 small_cache small_mem 4 2
      small_cache-IsCoherent (omega arith, omega arith) (omega arith)

-- The second read is the one that is answered.
read_again-delay_example :
    Attempt 0x800014 8 1 1 (le_value (seen small_cache empty_ptable) 0x800014 8) small_mem
unfolding create_cache is_special_addr
read_again-delay_example =
    read_again-delay 1 1 0x800014 7 small_cache small_mem 4 2 refl refl refl small_cache-IsCoherent
      (omega arith, omega arith) (create_cache-line_of 1 (2 ^ 4) 64 2 0x800014) refl refl
      (omega arith) (omega arith) (omega arith)

small_mem-Shows : Shows segments 4 2 (byte_at empty_ptable) small_mem
small_mem-Shows = record {
  cache = small_cache;
  cached = refl;
  coherent = small_cache-IsCoherent;
  segments_same = refl;
  same = λ x hx.
      (create_cache-IsCoherent 1 4 64 2 2 empty_ptable (omega arith) (omega arith) refl
          (omega arith) (omega arith) (omega arith) empty_ptable-IsMemory).1
        x;
}

word-IsCached : IsCached segments 4 0x800014 8
unfolding is_special_addr
word-IsCached = record {
  ordinary = refl;
  data_address = refl;
  small = omega arith;
  block = omega arith;
  some_bytes = omega arith;
  word = omega arith;
}

-- A store that waits, the same store again, and a load.
abbrev few_accesses : List Access
few_accesses = store 0x800014 7 8 ∷ store 0x800014 7 8 ∷ load 0x800014 8 ∷ []

run_all-FlatSteps_example :
    (responses : List Response) × (mem' : MemSystem) × (byte' : ℕ → ℕ) × (run_all few_accesses
        small_mem
      ≡ some (responses, mem'))
    × FlatSteps (byte_at empty_ptable) few_accesses responses byte'
    × Shows segments 4 2 byte' mem'
run_all-FlatSteps_example =
    run_all-FlatSteps segments 4 2 (byte_at empty_ptable) few_accesses small_mem small_mem-Shows
      (allow word-IsCached (allow word-IsCached (allow word-IsCached none_left)))

-- ===== src/Machine/Log/Tests.antt =====
-- The log of a machine with a word on the heap.
use ch_arm_v5_system_emulato.Base.{true, List, [], ◌∷◌, ◌++◌, none, some, ◌≡◌, refl, arith}
use ch_arm_v5_system_emulato.Mem.Ptable.{
  PageTable, empty_ptable, ptable_hash, get_page, find_page, add_page, store,
}
use ch_arm_v5_system_emulato.Mem.Bytes.{mem_write_le, mem_write_byte}
use ch_arm_v5_system_emulato.Machine.{Guest, init_machine}
use ch_arm_v5_system_emulato.Machine.Log.{LogLine, heap, stack, log_machine_state}
use ch_arm_v5_system_emulato.Machine.Log.Pages.{count_pages}
use ch_arm_v5_system_emulato.Machine.Log.Heap.{IsLogged, log_machine_state-heap}

abbrev heap_word : PageTable
heap_word = mem_write_le 0x10000000 7 1 empty_ptable

abbrev machine : Guest
machine =
    init_machine (record { a_arg = none; b_arg = none; c_arg = none; d_arg = none }) heap_word []

machine-IsLogged : IsLogged machine 3
unfolding init_machine mem_write_le mem_write_byte get_page find_page add_page store ptable_hash
    count_pages
machine-IsLogged = record {
  text_small = omega arith;
  data_small = omega arith;
  bottom = refl;
  top = refl;
  enough = λ p. (ground arith, ground arith);
  delay = λ c e. cc;
}

log_machine_state-heap_example :
    (before after : List LogLine) × (log_machine_state true 3 machine
      ≡ some (before ++ (heap ∷ (stack ∷ after))))
log_machine_state-heap_example = log_machine_state-heap machine 2 machine-IsLogged

-- ===== src/Mem/Bytes/Empty.antt =====
-- The page table of src/base/ptable.c before any page is touched.
use ch_arm_v5_system_emulato.Base.{◌/◌, List, [], get_or-replicate, refl, arith}
use ch_arm_v5_system_emulato.Mem.Ptable.{Pte, empty_ptable, ptable_hash, get_page, find_page}
use ch_arm_v5_system_emulato.Mem.Bytes.LittleEndian.{IsMemory}

pub empty_ptable-IsMemory : IsMemory empty_ptable
unfolding get_page find_page
empty_ptable-IsMemory = record {
  table = refl;
  bytes = λ a. rw (get_or-replicate {A = List Pte} 128 (ptable_hash (a / 4096)) []) (omega arith);
}

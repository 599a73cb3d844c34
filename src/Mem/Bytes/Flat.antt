-- ===== src/Mem/Bytes/Flat.antt =====
-- Demand paging shows only as a flat memory of bytes, zero where nothing was written.
use ch_arm_v5_system_emulato.Base.{ℕ, ◌/◌, ◌%◌, true, ◌&&◌, none, ◌==◌, if◌then◌else◌, ◌≡◌, arith}
use ch_arm_v5_system_emulato.Mem.Ptable.{PageTable, pagesize, get_page, add_page}
use ch_arm_v5_system_emulato.Mem.Ptable.Laws.{
  IsTable, page_byte, is_some, get_page-add_page, get_page-store,
}
use ch_arm_v5_system_emulato.Mem.Ptable.Laws.{add_page-IsTable, store-IsTable}
use ch_arm_v5_system_emulato.Mem.Bytes.{Segments, get_prot_bits, mem_read_byte}
use ch_arm_v5_system_emulato.Mem.Bytes.{mem_write_byte}

-- The abstract memory: the byte at an address, whether its page is there or not.
abbrev pub byte_at : PageTable → ℕ → ℕ
byte_at ptable addr = page_byte (get_page (addr / pagesize) ptable) (addr % pagesize)

-- On a page table of 128 chains a byte read gives the byte of the flat memory, changes no byte,
-- and keeps the number of chains.
pub mem_read_byte-flat :
    (mem : Segments) (addr b : ℕ) (ptable : PageTable)
    → IsTable ptable
    → let (byte, ptable') = mem_read_byte mem addr ptable in
      (byte ≡ byte_at ptable addr) × (byte_at ptable' b ≡ byte_at ptable b) × IsTable ptable'
unfolding mem_read_byte add_page
mem_read_byte-flat mem addr b ptable size =
    let prot = get_prot_bits mem addr in
    ground (
      arith,
      get_page-add_page ptable (addr / pagesize) prot (b / pagesize) size,
      add_page-IsTable ptable (addr / pagesize) prot size,
    )

-- A fresh page is there, and reads as the absent one did.
pub added-flat :
    (pnum prot q o : ℕ) (ptable : PageTable)
    → IsTable ptable
    → get_page pnum ptable ≡ none
    → let added = (add_page pnum prot ptable).1 in
      (page_byte (get_page q added) o ≡ page_byte (get_page q ptable) o)
      × (is_some (get_page pnum added) ≡ true)
unfolding add_page
added-flat pnum prot q o ptable size absent =
    ground (
      arith,
      get_page-add_page ptable pnum prot q size,
      get_page-add_page ptable pnum prot pnum size,
    )

pub same_place :
    (a b : ℕ) → (b == a) ≡ (b / pagesize == a / pagesize && b % pagesize == a % pagesize)
same_place a b = ground arith

-- On a page table of 128 chains a byte write sets that byte of the flat memory and no other, and
-- keeps the number of chains.
pub mem_write_byte-flat :
    (addr byte b : ℕ) (ptable : PageTable)
    → IsTable ptable
    → (byte_at (mem_write_byte addr byte ptable) b ≡ (if b == addr then byte else byte_at ptable b))
      × IsTable (mem_write_byte addr byte ptable)
unfolding mem_write_byte
mem_write_byte-flat addr byte b ptable size =
    let pnum = addr / pagesize in
    let added = (add_page pnum 7 ptable).1 in
    let added-IsTable = add_page-IsTable ptable pnum 7 size in
    rw (same_place addr b) (
      ground (
        arith,
        get_page-store ptable pnum (addr % pagesize) byte (b / pagesize) (b % pagesize) size,
        get_page-store added pnum (addr % pagesize) byte (b / pagesize) (b % pagesize)
            added-IsTable,
        added-flat pnum 7 (b / pagesize) (b % pagesize) ptable size,
        store-IsTable ptable pnum (addr % pagesize) byte size,
        store-IsTable added pnum (addr % pagesize) byte added-IsTable,
      ))

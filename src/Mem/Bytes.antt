-- ===== src/Mem/Bytes.antt =====
-- The byte layer of src/base/mem.c: segments, and little-endian words over the page table.
pub mod Flat
pub mod LittleEndian
pub mod Empty
use ch_arm_v5_system_emulato.Base.{
  ℕ, zero, suc, ◌+◌, ◌-◌, ◌*◌, ◌/◌, ◌%◌, ◌^◌, Bool, true, false, ◌&&◌, ◌||◌, List, [], ◌∷◌, Option,
  none, some, get_or, ◌==◌, leb, ltb, if◌then◌else◌, u64, add64, ◌<<<◌, ◌>>>◌,
}
use ch_arm_v5_system_emulato.Mem.Ptable.{Pte, PageTable, pagesize, get_page, add_page, store}

-- `mem_t`: where each segment starts, and its protection bits.
pub record Segments : Type 0 where
  pub max_addr : ℕ
  pub addr_size : ℕ
  pub seg_start_addr : List ℕ
  pub seg_prot : List ℕ

-- `seg_t`.
abbrev pub noaccess_seg : ℕ
noaccess_seg = 0

abbrev pub text_seg : ℕ
text_seg = 1

abbrev pub data_seg : ℕ
data_seg = 2

abbrev pub heap_seg : ℕ
heap_seg = 3

abbrev pub so_seg : ℕ
so_seg = 4

abbrev pub stack_seg : ℕ
stack_seg = 5

abbrev pub kernel_seg : ℕ
kernel_seg = 6

-- `guest.mem->seg_start_addr[i]`; the array has an entry for each segment.
abbrev pub seg_start : Segments → ℕ → ℕ
seg_start mem i = get_or mem.seg_start_addr i 0

abbrev pub null_addr : ℕ
null_addr = 0

abbrev pub io_char_addr : ℕ
io_char_addr = 0xFFFFFFFFFFFFFFFF

abbrev pub ret_from_main_addr : ℕ
ret_from_main_addr = 0

abbrev pub checkpoint_addr : ℕ
checkpoint_addr = 0xFFFFFFFFFFFFFFFF - 8

unfoldable pub addr_in_imem : Segments → ℕ → Bool
addr_in_imem mem addr = leb (seg_start mem text_seg) addr && ltb addr (seg_start mem data_seg)

unfoldable pub addr_in_dmem : Segments → ℕ → Bool
addr_in_dmem mem addr = leb (seg_start mem data_seg) addr && ltb addr (seg_start mem kernel_seg)

unfoldable pub is_special_addr : ℕ → Bool
is_special_addr addr =
    null_addr == addr
    || io_char_addr == addr
    || ret_from_main_addr == addr
    || checkpoint_addr == addr

-- The loop of `get_prot_bits` from segment `i`, with `left` segments below the kernel's to go.
prot_bits_from : Segments → ℕ → ℕ → ℕ → ℕ
prot_bits_from mem addr i zero = get_or mem.seg_prot kernel_seg 0
prot_bits_from mem addr i (suc left) =
    if leb (seg_start mem i) addr && ltb addr (seg_start mem (suc i))
    then get_or mem.seg_prot i 0
    else prot_bits_from mem addr (suc i) left

unfoldable pub get_prot_bits : Segments → ℕ → ℕ
unfolding prot_bits_from
get_prot_bits mem addr = prot_bits_from mem addr 0 kernel_seg

-- `_mem_read_byte`: a page that is absent is added, and reads as zeros.
unfoldable pub mem_read_byte : Segments → ℕ → PageTable → ℕ × PageTable
mem_read_byte mem addr ptable =
    let pnum = addr / pagesize in
    let poff = addr % pagesize in
    elim (get_page pnum ptable) [
      | some page ↦ (page.p_data poff, ptable)
      | none ↦
          let (page, ptable') = add_page pnum (get_prot_bits mem addr) ptable in
          (page.p_data poff, ptable')
    ]

-- The loop of `_mem_read_LE`: the bytes below index `n` are still to be read, from the last.
unfoldable pub read_bytes : Segments → ℕ → ℕ → ℕ → PageTable → ℕ × PageTable
read_bytes mem addr zero retval ptable = (retval, ptable)
read_bytes mem addr (suc n) retval ptable =
    let (byte, ptable') = mem_read_byte mem (add64 addr n) ptable in
    read_bytes mem addr n (u64 (u64 (retval <<< 8) + byte)) ptable'

unfoldable pub mem_read_le : Segments → ℕ → ℕ → PageTable → ℕ × PageTable
unfolding read_bytes
mem_read_le mem addr width ptable = read_bytes mem addr width 0 ptable

-- `_mem_write_byte`, which always succeeds.
unfoldable pub mem_write_byte : ℕ → ℕ → PageTable → PageTable
mem_write_byte addr byte ptable =
    let pnum = addr / pagesize in
    let poff = addr % pagesize in
    elim (get_page pnum ptable) [
      | some page ↦ store pnum poff byte ptable
      | none ↦ store pnum poff byte (add_page pnum 7 ptable).1
    ]

-- The loop of `_mem_write_LE` from index `i`, with `left` bytes to go; `s[i]` is byte `i` of `value`.
unfoldable pub write_bytes : ℕ → ℕ → ℕ → ℕ → PageTable → PageTable
write_bytes addr value i zero ptable = ptable
write_bytes addr value i (suc left) ptable =
    write_bytes addr value (suc i) left
      (mem_write_byte (add64 addr i) (value >>> (8 * i) % 256) ptable)

unfoldable pub mem_write_le : ℕ → ℕ → ℕ → PageTable → PageTable
unfolding write_bytes
mem_write_le addr value width ptable = write_bytes addr value 0 width ptable

-- ===== src/Elf.antt =====
-- src/base/elf_loader.c: the segments of an ELF executable go into the page table, and the
-- addresses of its sections into the guest's memory segments. What the C library and elf.h give is
-- the input: the headers that the casts of the mapped file read, and the bytes of the mapping.
pub mod Segment
pub mod Image
mod Tests
use ch_arm_v5_system_emulato.Base.{
  ℕ, zero, suc, ◌+◌, ◌-◌, ◌%◌, ◌/◌, bit_and, bit_or, Bool, true, false, ◌&&◌, List, [], ◌∷◌, Option,
  none, some, ◌>>=◌, set, ◌==◌, ltb, if◌then◌else◌, u64, add64, ◌<<<◌,
}
use ch_arm_v5_system_emulato.Mem.Ptable.{PageTable, pagesize, get_page, add_page, store}
use ch_arm_v5_system_emulato.Mem.Bytes.{Segments, text_seg, data_seg}

-- The fields of `Elf64_Phdr` that are read.
pub record ProgHeader : Type 0 where
  pub p_type : ℕ
  pub p_flags : ℕ
  pub p_offset : ℕ
  pub p_vaddr : ℕ
  pub p_filesz : ℕ
  pub p_memsz : ℕ

-- A section: the characters of its name and its address.
pub record Section : Type 0 where
  pub name : List ℕ
  pub sh_addr : ℕ

-- The mapped file. `image` gives the byte at an offset of the mapping, `none` where a read faults.
pub record ElfFile : Type 0 where
  pub e_type : ℕ
  pub e_entry : ℕ
  pub program : List ProgHeader
  pub sections : List Section
  pub image : ℕ → Option ℕ

abbrev pub et_exec : ℕ
et_exec = 2

abbrev pub pt_load : ℕ
pt_load = 1

-- `read | write << 1 | exec << 2`, each of them `!!(p_flags & mask)`.
abbrev pub flag_of : ProgHeader → ℕ → ℕ
flag_of header mask = if bit_and header.p_flags mask == 0 then 0 else 1

abbrev pub prot_of : ProgHeader → ℕ
prot_of header =
    bit_or (bit_or (flag_of header 4) (flag_of header 2 <<< 1)) (flag_of header 1 <<< 2)

-- The page of a number is there: it is added if `get_page` does not find it.
unfoldable pub touch_page : ℕ → ℕ → PageTable → PageTable
touch_page pnum prot ptable = elim (get_page pnum ptable) [
  | some page ↦ ptable
  | none ↦ (add_page pnum prot ptable).1
]

-- The loop that copies the bytes of a segment, from byte `j` with `left` bytes to go.
unfoldable pub copy_bytes : (ℕ → Option ℕ) → ProgHeader → ℕ → ℕ → PageTable → Option PageTable
copy_bytes image header j zero ptable = some ptable
copy_bytes image header j (suc left) ptable = do
  byte ← image (add64 header.p_offset j)
  let addr = add64 header.p_vaddr j
  let ptable' = touch_page (addr / pagesize) (prot_of header) ptable
  copy_bytes image header (suc j) left (store (addr / pagesize) (addr % pagesize) byte ptable')

-- The loop that maps the bss of a segment, from byte `j` with `left` bytes to go.
unfoldable pub map_bss : ℕ → ProgHeader → ℕ → ℕ → PageTable → PageTable
map_bss start header j zero ptable = ptable
map_bss start header j (suc left) ptable =
    map_bss start header (suc j) left
      (touch_page (add64 start j / pagesize) (prot_of header) ptable)

-- `v_align` and `f_align`.
abbrev pub v_align : ProgHeader → ℕ
v_align header = header.p_vaddr % pagesize

abbrev pub f_align : ProgHeader → ℕ
f_align header = add64 header.p_filesz (pagesize - add64 header.p_filesz header.p_vaddr % pagesize)

-- One round of the loop over the program headers.
unfoldable pub load_segment : (ℕ → Option ℕ) → ProgHeader → PageTable → Option PageTable
load_segment image header ptable =
    if header.p_type == pt_load
    then (do
      ptable' ← copy_bytes image header 0 (add64 header.p_filesz (v_align header)) ptable
      some (
          if ltb header.p_filesz header.p_memsz
          then map_bss (add64 header.p_vaddr (f_align header)) header 0
              (header.p_memsz - header.p_filesz) ptable'
          else ptable'))
    else some ptable

unfoldable pub load_segments : (ℕ → Option ℕ) → List ProgHeader → PageTable → Option PageTable
load_segments image [] ptable = some ptable
load_segments image (header ∷ headers) ptable = do
  ptable' ← load_segment image header ptable
  load_segments image headers ptable'

-- `!strcmp(name, ...)`.
abbrev pub same_name : List ℕ → List ℕ → Bool
same_name [] [] = true
same_name [] (d ∷ ds) = false
same_name (c ∷ cs) [] = false
same_name (c ∷ cs) (d ∷ ds) = c == d && same_name cs ds

-- ".text" and ".data".
abbrev pub text_name : List ℕ
text_name = 46 ∷ 116 ∷ 101 ∷ 120 ∷ 116 ∷ []

abbrev pub data_name : List ℕ
data_name = 46 ∷ 100 ∷ 97 ∷ 116 ∷ 97 ∷ []

-- A section header that has a name sets the start of a segment.
abbrev pub place : Section → List ℕ → ℕ → Segments → Segments
place header wanted seg mem =
    if same_name header.name wanted
    then record mem { seg_start_addr = set mem.seg_start_addr seg header.sh_addr }
    else mem

-- The loop over the section headers.
unfoldable pub load_sections : List Section → Segments → Segments
load_sections [] mem = mem
load_sections (header ∷ headers) mem =
    load_sections headers (place header data_name data_seg (place header text_name text_seg mem))

-- `loadElf` of a file that could be mapped: the entry point, and the guest's memory.
unfoldable pub load_elf : ElfFile → PageTable → Segments → Option (ℕ × PageTable × Segments)
load_elf file ptable mem =
    if file.e_type == et_exec
    then (do
      ptable' ← load_segments file.image file.program ptable
      some (file.e_entry, ptable', load_sections file.sections mem))
    else none

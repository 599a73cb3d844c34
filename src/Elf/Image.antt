-- ===== src/Elf/Image.antt =====
-- `loadElf` of src/base/elf_loader.c against the flat memory: the segments of the file, one after
-- another.
use ch_arm_v5_system_emulato.Base.{
  ℕ, ◌^◌, ◌<◌, List, [], ◌∷◌, Option, some, ◌>>=◌, if◌then◌else◌, ◌≡◌, refl, ◌∙◌,
}
use ch_arm_v5_system_emulato.Mem.Ptable.{PageTable}
use ch_arm_v5_system_emulato.Mem.Bytes.{Segments}
use ch_arm_v5_system_emulato.Mem.Bytes.Flat.{byte_at}
use ch_arm_v5_system_emulato.Mem.Bytes.LittleEndian.{IsMemory}
use ch_arm_v5_system_emulato.Elf.{
  ProgHeader, ElfFile, et_exec, load_segments, load_sections, load_elf,
}
use ch_arm_v5_system_emulato.Elf.Segment.{IsMapped, IsInFile, segment_byte, load_segment-flat}

-- The flat memory that the segments make of another.
abbrev pub image_of : List ProgHeader → (ℕ → ℕ) → (ℕ → ℕ) → ℕ → ℕ
image_of [] byte old = old
image_of (header ∷ headers) byte old = image_of headers byte (segment_byte header byte old)

pub data AllInFile (size : ℕ) : List ProgHeader → Type 0 where
  no_headers : AllInFile size []
  and_headers :
      {header : ProgHeader} {headers : List ProgHeader}
      → IsInFile header size
      → AllInFile size headers
      → AllInFile size (header ∷ headers)

image_of-same :
    (headers : List ProgHeader) (byte f g : ℕ → ℕ)
    → ((x : ℕ) → x < 2 ^ 64 → f x ≡ g x)
    → (x : ℕ) → x < 2 ^ 64
    → image_of headers byte f x ≡ image_of headers byte g x
image_of-same [] byte f g same x hx = same x hx
image_of-same (header ∷ headers) byte f g same x hx =
    image_of-same headers byte (segment_byte header byte f) (segment_byte header byte g)
      (λ y hy. rw (same y hy) refl) x hx

load_segments-flat :
    (image : ℕ → Option ℕ) (headers : List ProgHeader) (byte : ℕ → ℕ) (size : ℕ)
    (ptable : PageTable)
    → IsMapped image byte size
    → AllInFile size headers
    → IsMemory ptable
    → (ptable' : PageTable) × (load_segments image headers ptable ≡ some ptable')
      × IsMemory ptable'
      × ((x : ℕ) → x < 2 ^ 64 → byte_at ptable' x ≡ image_of headers byte (byte_at ptable) x)
unfolding load_segments
load_segments-flat image [] byte size ptable mapped no_headers h = (ptable, refl, h, λ x hx. refl)
load_segments-flat image (header ∷ headers) byte size ptable mapped (and_headers i all) h =
    let first = load_segment-flat image header byte size ptable mapped i h in
    let (ptable', runs, memory, flat) =
      load_segments-flat image headers byte size first.ptable' mapped all first.memory in
    (
      ptable',
      rw (first.runs, ◌>>=◌) runs,
      memory,
      λ x hx.
          flat x hx
          ∙ image_of-same headers byte (byte_at first.ptable')
              (segment_byte header byte (byte_at ptable)) first.flat x hx,
    )

-- For an executable ELF file whose segments, with v_align bytes more each, lie in the file,
-- loadElf on a valid page table succeeds with the entry point and a valid page table, and the flat
-- memory below 2^64 is the old one with the bytes of each segment put over it in the order of the
-- headers.
pub load_elf-flat :
    (file : ElfFile) (byte : ℕ → ℕ) (size : ℕ) (ptable : PageTable) (mem : Segments)
    → file.e_type ≡ et_exec
    → IsMapped file.image byte size
    → AllInFile size file.program
    → IsMemory ptable
    → (ptable' : PageTable) × (load_elf file ptable mem
        ≡ some (file.e_entry, ptable', load_sections file.sections mem))
      × IsMemory ptable'
      × ((x : ℕ) → x < 2 ^ 64 → byte_at ptable' x ≡ image_of file.program byte (byte_at ptable) x)
unfolding load_elf
load_elf-flat file byte size ptable mem executable mapped all h =
    let (ptable', runs, memory, flat) =
      load_segments-flat file.image file.program byte size ptable mapped all h in
    (ptable', simp (executable, if◌then◌else◌, runs, ◌>>=◌) refl, memory, flat)

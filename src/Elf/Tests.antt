-- ===== src/Elf/Tests.antt =====
-- A small executable.
use ch_arm_v5_system_emulato.Base.{
  ℕ, ◌%◌, ◌^◌, ◌<◌, [], ◌∷◌, Option, some, ltb, if◌then◌else◌, none, ◌≡◌, refl, arith,
}
use ch_arm_v5_system_emulato.Mem.Ptable.{PageTable, empty_ptable}
use ch_arm_v5_system_emulato.Mem.Bytes.Flat.{byte_at}
use ch_arm_v5_system_emulato.Mem.Bytes.LittleEndian.{IsMemory}
use ch_arm_v5_system_emulato.Mem.Examples.{segments}
use ch_arm_v5_system_emulato.Mem.Bytes.Empty.{empty_ptable-IsMemory}
use ch_arm_v5_system_emulato.Elf.{ProgHeader, ElfFile, load_sections, load_elf, text_name}
use ch_arm_v5_system_emulato.Elf.Segment.{IsMapped, IsInFile, Loaded, load_segment-flat}
use ch_arm_v5_system_emulato.Elf.Image.{image_of, no_headers, and_headers, load_elf-flat}

-- A file of 64 bytes.
abbrev byte : ℕ → ℕ
byte x = x % 256

abbrev image : ℕ → Option ℕ
image x = if ltb x 64 then some (byte x) else none

-- Eight bytes of code, and a segment that is not loaded.
abbrev code_header : ProgHeader
code_header = record {
  p_type = 1;
  p_flags = 5;
  p_offset = 16;
  p_vaddr = 0x400010;
  p_filesz = 8;
  p_memsz = 24;
}

abbrev small_file : ElfFile
small_file = record {
  e_type = 2;
  e_entry = 0x400010;
  program = code_header ∷ [];
  sections = record { name = text_name; sh_addr = 0x400010 } ∷ [];
  image = image;
}

image-IsMapped : IsMapped image byte 64
image-IsMapped = record {
  read = λ x lt. ground arith;
  small = λ x. omega arith;
  fits = omega arith;
}

code_header-IsInFile : IsInFile code_header 64
code_header-IsInFile = record { copied = omega arith; address = omega arith }

load_segment-flat_example : Loaded image code_header byte empty_ptable
load_segment-flat_example =
    load_segment-flat image code_header byte 64 empty_ptable image-IsMapped code_header-IsInFile
      empty_ptable-IsMemory

load_elf-flat_example :
    (ptable' : PageTable) × (load_elf small_file empty_ptable segments
      ≡ some (0x400010, ptable', load_sections small_file.sections segments))
    × IsMemory ptable'
    × ((x : ℕ)
        → x < 2 ^ 64
        → byte_at ptable' x ≡ image_of small_file.program byte (byte_at empty_ptable) x)
load_elf-flat_example =
    load_elf-flat small_file byte 64 empty_ptable segments refl image-IsMapped
      (and_headers code_header-IsInFile no_headers) empty_ptable-IsMemory

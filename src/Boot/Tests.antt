-- ===== src/Boot/Tests.antt =====
-- The start of a run with a cache.
use ch_arm_v5_system_emulato.Base.{
  ℕ, ◌%◌, true, false, [], ◌∷◌, Option, some, none, ltb, if◌then◌else◌, pos, ◌≡◌, refl, arith,
}
use ch_arm_v5_system_emulato.Mem.Ptable.{empty_ptable}
use ch_arm_v5_system_emulato.Mem.Bytes.Flat.{byte_at}
use ch_arm_v5_system_emulato.Mem.Access.Refinement.{Shows}
use ch_arm_v5_system_emulato.Machine.{Guest}
use ch_arm_v5_system_emulato.Elf.{ElfFile, text_name}
use ch_arm_v5_system_emulato.Elf.Segment.{IsMapped}
use ch_arm_v5_system_emulato.Elf.Image.{image_of, no_headers, and_headers}
use ch_arm_v5_system_emulato.Args.{RunArgs}
use ch_arm_v5_system_emulato.Boot.{boot}
use ch_arm_v5_system_emulato.Boot.Memory.{boot-Shows}

abbrev byte : ℕ → ℕ
byte x = x % 256

abbrev image : ℕ → Option ℕ
image x = if ltb x 4096 then some (byte x) else none

abbrev two_segments : ElfFile
two_segments = record {
  e_type = 2;
  e_entry = 0x400000;
  program =
      record {
        p_type = 1;
        p_flags = 5;
        p_offset = 64;
        p_vaddr = 0x400000;
        p_filesz = 128;
        p_memsz = 128;
      }
      ∷ record {
        p_type = 1;
        p_flags = 6;
        p_offset = 192;
        p_vaddr = 0x800000;
        p_filesz = 16;
        p_memsz = 64;
      }
      ∷ [];
  sections = record { name = text_name; sh_addr = 0x400000 } ∷ [];
  image = image;
}

image-IsMapped : IsMapped image byte 4096
image-IsMapped = record {
  read = λ x lt. ground arith;
  small = λ x. omega arith;
  fits = omega arith;
}

abbrev with_small_cache : RunArgs
with_small_cache = record {
  infile = true;
  outfile = false;
  checkpoint = false;
  cycle_max = 500;
  debug_level = 0;
  a_arg = pos 2;
  b_arg = pos 16;
  c_arg = pos 64;
  d_arg = pos 3;
  terminate = false;
}

boot-Shows_example :
    (guest : Guest) × (boot with_small_cache two_segments [] ≡ some (0x400000, guest))
    × Shows guest.mem.segments 4 1
        (image_of two_segments.program byte (byte_at empty_ptable))
        guest.mem
boot-Shows_example =
    boot-Shows with_small_cache two_segments [] byte 4096 2 4 64 3 1
      (record {
        assoc = refl;
        block = refl;
        capacity = refl;
        delay = refl;
        low = omega arith;
        high = omega arith;
        sets = refl;
        block_fits = omega arith;
        sets_fit = omega arith;
        fits = omega arith;
      })
      refl image-IsMapped
      (and_headers (record { copied = omega arith; address = omega arith })
        (and_headers (record { copied = omega arith; address = omega arith }) no_headers))

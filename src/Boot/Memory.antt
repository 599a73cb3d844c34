-- ===== src/Boot/Memory.antt =====
-- The memory with which src/base/archsim.c starts the run.
use ch_arm_v5_system_emulato.Base.{
  ℕ, ◌+◌, ◌*◌, ◌/◌, ◌^◌, ◌≤◌, ◌<◌, List, Option, some, ◌>>=◌, u32, ℤ, pos, negsuc, eqb_ℤ, false,
  if◌then◌else◌, ◌≡◌, refl, ◌∙◌, arith,
}
use ch_arm_v5_system_emulato.Cache.{create_cache}
use ch_arm_v5_system_emulato.Mem.Ptable.{empty_ptable}
use ch_arm_v5_system_emulato.Mem.Bytes.Flat.{byte_at}
use ch_arm_v5_system_emulato.Mem.Bytes.Empty.{empty_ptable-IsMemory}
use ch_arm_v5_system_emulato.Mem.Access.Initial.{create_cache-IsCoherent}
use ch_arm_v5_system_emulato.Mem.Access.Refinement.{Shows}
use ch_arm_v5_system_emulato.Machine.{Guest, cache_of, init_machine}
use ch_arm_v5_system_emulato.Elf.{ElfFile, et_exec, load_sections}
use ch_arm_v5_system_emulato.Elf.Segment.{IsMapped}
use ch_arm_v5_system_emulato.Elf.Image.{image_of, AllInFile, load_elf-flat}
use ch_arm_v5_system_emulato.Args.{RunArgs, int_arg, cache_args}
use ch_arm_v5_system_emulato.Boot.{boot}

-- Arguments of a cache with `a` lines to each of `2 ^ s` sets, and blocks of `2 ^ b` bytes.
pub record IsCacheArgs (args : RunArgs) (a b c d s : ℕ) : Type 0 where
  pub assoc : args.a_arg ≡ pos a
  pub block : args.b_arg ≡ pos (2 ^ b)
  pub capacity : args.c_arg ≡ pos c
  pub delay : args.d_arg ≡ pos d
  pub low : 1 ≤ a
  pub high : a ≤ 8
  pub sets : c / u32 (a * 2 ^ b) ≡ 2 ^ s
  pub block_fits : b < 64
  pub sets_fit : s < 64
  pub fits : b + s ≤ 64

int_arg-pos : (x : ℤ) (n : ℕ) → x ≡ pos n → int_arg x ≡ some n
int_arg-pos x n e =
    let there : eqb_ℤ (pos n) (negsuc 0) ≡ false = ground arith in
    rw e (simp (there, if◌then◌else◌) refl)

cache_of-some :
    (a b c d : ℕ) (w x y z : Option ℕ)
    → w ≡ some a
    → x ≡ some b
    → y ≡ some c
    → z ≡ some d
    → cache_of w x y z ≡ some (create_cache a b c d)
unfolding cache_of
cache_of-some a b c d w x y z ew ex ey ez = rw (ew, ex, ey, ez) refl

-- With arguments of a cache of 1 to 8 lines to each of 2^s sets and blocks of 2^b bytes, for b and
-- s below 64 and b + s at most 64, and an executable ELF file in which p_filesz + v_align bytes of
-- each segment lie, init_machine and loadElf succeed with the file's entry point, and the guest's
-- memory system, its data cache included, shows, over zeros and in the order of the headers,
-- p_filesz + v_align bytes of the file from p_vaddr on for each segment.
pub boot-Shows :
    (args : RunArgs) (file : ElfFile) (stdin : List ℕ) (byte : ℕ → ℕ) (size a b c d s : ℕ)
    → IsCacheArgs args a b c d s
    → file.e_type ≡ et_exec
    → IsMapped file.image byte size
    → AllInFile size file.program
    → (guest : Guest) × (boot args file stdin ≡ some (file.e_entry, guest))
      × Shows guest.mem.segments b s (image_of file.program byte (byte_at empty_ptable)) guest.mem
unfolding boot init_machine cache_of
boot-Shows args file stdin byte size a b c d s ok executable mapped all =
    let start = init_machine (cache_args args) empty_ptable stdin in
    let (ptable, runs, memory, flat) =
      load_elf-flat file byte size empty_ptable start.mem.segments executable mapped all
        empty_ptable-IsMemory in
    let guest : Guest = record start {
      mem = record (start.mem) {
        ptable = ptable;
        segments = load_sections file.sections start.mem.segments;
      };
    } in
    let cached : guest.mem.cache ≡ some (create_cache a (2 ^ b) c d) =
      cache_of-some a (2 ^ b) c d (int_arg args.a_arg) (int_arg args.b_arg) (int_arg args.c_arg)
        (int_arg args.d_arg) (int_arg-pos args.a_arg a ok.assoc)
        (int_arg-pos args.b_arg (2 ^ b) ok.block) (int_arg-pos args.c_arg c ok.capacity)
        (int_arg-pos args.d_arg d ok.delay) in
    let (coherent, same) =
      create_cache-IsCoherent a b c d s ptable ok.low ok.high ok.sets ok.block_fits ok.sets_fit
        ok.fits memory in
    (
      guest,
      rw (runs, ◌>>=◌) refl,
      record {
        cache = create_cache a (2 ^ b) c d;
        cached = cached;
        coherent = coherent;
        segments_same = refl;
        same = λ x hx. same x ∙ flat x hx;
      },
    )

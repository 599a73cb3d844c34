-- ===== src/Elf/Segment.antt =====
-- One segment in src/base/elf_loader.c, against the flat memory.
use ch_arm_v5_system_emulato.Base.{
  ℕ, zero, suc, ◌+◌, ◌-◌, ◌/◌, ◌%◌, ◌^◌, ◌≤◌, ◌<◌, true, ◌&&◌, Option, some, ◌>>=◌, ◌==◌, ltb,
  if◌then◌else◌, add64, sub64, Bool-cases, ◌≡◌, ◌≢◌, inl, inr, refl, sym, ap, ◌∙◌, arith,
}
use native.Mathlib.Decide.{ℕ_discrete}
use ch_arm_v5_system_emulato.Mem.Ptable.{PageTable, pagesize, get_page, store}
use ch_arm_v5_system_emulato.Mem.Ptable.Laws.{
  IsTable, is_some, get_page-store, add_page-IsTable, store-IsTable,
}
use ch_arm_v5_system_emulato.Mem.Bytes.Flat.{byte_at, added-flat, same_place}
use ch_arm_v5_system_emulato.Mem.Bytes.LittleEndian.{IsMemory}
use ch_arm_v5_system_emulato.Elf.{
  ProgHeader, prot_of, pt_load, touch_page, copy_bytes, map_bss, v_align, f_align, load_segment,
}

-- A page that is added reads as before.
touch_page-flat :
    (pnum prot : ℕ) (ptable : PageTable)
    → IsTable ptable
    → ((b : ℕ) → byte_at (touch_page pnum prot ptable) b ≡ byte_at ptable b)
      × IsTable (touch_page pnum prot ptable)
      × (is_some (get_page pnum (touch_page pnum prot ptable)) ≡ true)
unfolding touch_page
touch_page-flat pnum prot ptable size = (
  λ b. ground (arith, added-flat pnum prot (b / pagesize) (b % pagesize) ptable size),
  ground (arith, add_page-IsTable ptable pnum prot size),
  ground (arith, added-flat pnum prot 0 0 ptable size),
)

-- A byte of a segment sets that byte of the flat memory and no other.
copied-flat :
    (addr prot byte b : ℕ) (ptable : PageTable)
    → IsTable ptable
    → let ptable' =
        store (addr / pagesize) (addr % pagesize) byte (touch_page (addr / pagesize) prot ptable) in
      (byte_at ptable' b ≡ (if b == addr then byte else byte_at ptable b)) × IsTable ptable'
copied-flat addr prot byte b ptable size =
    let pnum = addr / pagesize in
    let touched = touch_page pnum prot ptable in
    let (same, table, there) = touch_page-flat pnum prot ptable size in
    (
      rw (same_place addr b) (
          ground (
            arith,
            get_page-store touched pnum (addr % pagesize) byte (b / pagesize) (b % pagesize) table,
            same b,
            there,
          )),
      store-IsTable touched pnum (addr % pagesize) byte table,
    )

map_bss-flat :
    (start j left : ℕ) (header : ProgHeader) (ptable : PageTable)
    → IsMemory ptable
    → ((b : ℕ) → byte_at (map_bss start header j left ptable) b ≡ byte_at ptable b)
      × IsMemory (map_bss start header j left ptable)
unfolding map_bss
map_bss-flat start j zero header ptable h = (λ b. refl, h)
map_bss-flat start j (suc left) header ptable h =
    let (same, table, there) =
      touch_page-flat (add64 start j / pagesize) (prot_of header) ptable h.table in
    let rest =
      map_bss-flat start (suc j) left header
        (touch_page (add64 start j / pagesize) (prot_of header) ptable)
        (record { table = table; bytes = λ b. rw (same b) (h.bytes b) }) in
    (λ b. rest.0 b ∙ same b, rest.1)

-- What the copy of a part of a segment leaves.
record Copied (image : ℕ → Option ℕ) (header : ProgHeader) (byte : ℕ → ℕ) (j left : ℕ)
    (ptable : PageTable) : Type 0 where
  ptable' : PageTable
  runs : copy_bytes image header j left ptable ≡ some ptable'
  memory : IsMemory ptable'
  inside : (i : ℕ) → j ≤ i → i < j + left → byte_at ptable' (add64 header.p_vaddr i) ≡ byte i
  outside :
      (b : ℕ)
      → ((i : ℕ) → j ≤ i → i < j + left → b ≢ add64 header.p_vaddr i)
      → byte_at ptable' b ≡ byte_at ptable b

copy_bytes-Copied :
    (image : ℕ → Option ℕ) (header : ProgHeader) (byte : ℕ → ℕ) (j left : ℕ) (ptable : PageTable)
    → IsMemory ptable
    → j + left ≤ 2 ^ 64
    → ((i : ℕ)
        → j ≤ i
        → i < j + left
        → (image (add64 header.p_offset i) ≡ some (byte i)) × (byte i < 256))
    → Copied image header byte j left ptable
unfolding copy_bytes
copy_bytes-Copied image header byte j zero ptable h room readable = record {
  ptable' = ptable;
  runs = refl;
  memory = h;
  inside = λ i lo hi. absurd (omega arith);
  outside = λ b other. refl;
}
copy_bytes-Copied image header byte j (suc left) ptable h room readable =
    let addr = add64 header.p_vaddr j in
    let (here, small) = readable j (omega arith) (omega arith) in
    let prot = prot_of header in
    let next =
      store (addr / pagesize) (addr % pagesize) (byte j)
        (touch_page (addr / pagesize) prot ptable) in
    let copied = λ (b : ℕ). copied-flat addr prot (byte j) b ptable h.table in
    let memory : IsMemory next = record {
      table = (copied 0).1;
      bytes = λ b. ground (arith, (copied b).0, h.bytes b);
    } in
    let rest =
      copy_bytes-Copied image header byte (suc j) left next memory (omega arith)
        (λ i lo hi. readable i (omega arith) (omega arith)) in
    record {
      ptable' = rest.ptable';
      runs = rw (here, ◌>>=◌) rest.runs;
      memory = rest.memory;
      inside = λ i lo hi. elim (ℕ_discrete j i) [
        | yes e ↦
            rw (← e) (rest.outside addr (λ k p q. omega arith) ∙ ground (arith, (copied addr).0))
        | no ne ↦ rest.inside i (omega arith) (omega arith)
      ];
      outside = λ b other.
          rest.outside b (λ i lo hi. other i (omega arith) (omega arith))
          ∙ ground (arith, (copied b).0, other j);
    }

-- The first `size` bytes of a mapping are those of a file.
pub record IsMapped (image : ℕ → Option ℕ) (byte : ℕ → ℕ) (size : ℕ) : Type 0 where
  pub read : (x : ℕ) → x < size → image x ≡ some (byte x)
  pub small : (x : ℕ) → byte x < 256
  pub fits : size < 2 ^ 64

-- What is copied of a segment lies in the file.
pub record IsInFile (header : ProgHeader) (size : ℕ) : Type 0 where
  pub copied : header.p_offset + (header.p_filesz + v_align header) ≤ size
  pub address : header.p_vaddr < 2 ^ 64

-- The flat memory after a segment: `v_align` bytes more than the segment has in the file.
abbrev pub segment_byte : ProgHeader → (ℕ → ℕ) → (ℕ → ℕ) → ℕ → ℕ
segment_byte header byte old x =
    if header.p_type == pt_load && ltb (sub64 x header.p_vaddr) (header.p_filesz + v_align header)
    then byte (header.p_offset + sub64 x header.p_vaddr)
    else old x

-- A segment in the page table.
pub record Loaded (image : ℕ → Option ℕ) (header : ProgHeader) (byte : ℕ → ℕ) (ptable : PageTable)
    : Type 0 where
  pub ptable' : PageTable
  pub runs : load_segment image header ptable ≡ some ptable'
  pub memory : IsMemory ptable'
  pub flat : (x : ℕ) → x < 2 ^ 64 → byte_at ptable' x ≡ segment_byte header byte (byte_at ptable) x

-- The segment once its bytes are copied.
abbrev with_bss : ProgHeader → PageTable → PageTable
with_bss header ptable =
    if ltb header.p_filesz header.p_memsz
    then map_bss (add64 header.p_vaddr (f_align header)) header 0 (header.p_memsz - header.p_filesz)
        ptable
    else ptable

load_segment-copied :
    (image : ℕ → Option ℕ) (header : ProgHeader) (ptable ptable' : PageTable)
    → (header.p_type == pt_load) ≡ true
    → copy_bytes image header 0 (add64 header.p_filesz (v_align header)) ptable ≡ some ptable'
    → load_segment image header ptable ≡ some (with_bss header ptable')
unfolding load_segment
load_segment-copied image header ptable ptable' load copied =
    rw (load, if◌then◌else◌, copied, ◌>>=◌) refl

with_bss-flat :
    (header : ProgHeader) (ptable : PageTable)
    → IsMemory ptable
    → ((b : ℕ) → byte_at (with_bss header ptable) b ≡ byte_at ptable b)
      × IsMemory (with_bss header ptable)
with_bss-flat header ptable h =
    let zeros =
      map_bss-flat (add64 header.p_vaddr (f_align header)) 0 (header.p_memsz - header.p_filesz)
        header ptable h in
    elim (Bool-cases (ltb header.p_filesz header.p_memsz)) [
      | inl e ↦ rw e zeros
      | inr e ↦ rw e (λ b. refl, h)
    ]

-- For a program header whose p_filesz + v_align bytes lie in the file, a round of the loop of
-- loadElf on a valid page table succeeds and keeps it valid; if the segment is to be loaded, that
-- many bytes from p_vaddr on are those of the file from p_offset on, and every other byte below
-- 2^64 stays, those of the bss included.
pub load_segment-flat :
    (image : ℕ → Option ℕ) (header : ProgHeader) (byte : ℕ → ℕ) (size : ℕ) (ptable : PageTable)
    → IsMapped image byte size
    → IsInFile header size
    → IsMemory ptable
    → Loaded image header byte ptable
unfolding load_segment
load_segment-flat image header byte size ptable mapped i h =
    elim (Bool-cases (header.p_type == pt_load)) [
      | inr skip ↦ record {
        ptable' = ptable;
        runs = rw (skip, if◌then◌else◌) refl;
        memory = h;
        flat = λ x hx. rw skip refl;
      }
      | inl load ↦
          let f = mapped.fits in
          let room = i.copied in
          let count = header.p_filesz + v_align header in
          let whole : add64 header.p_filesz (v_align header) ≡ count = omega arith in
          let c =
            copy_bytes-Copied image header (λ j. byte (header.p_offset + j)) 0 count ptable h
              (omega arith)
              (λ j lo hi.
                let at : add64 header.p_offset j ≡ header.p_offset + j = omega arith in
                (
                  ap image at ∙ mapped.read (header.p_offset + j) (omega arith),
                  mapped.small (header.p_offset + j),
                )) in
          let bss = with_bss-flat header c.ptable' c.memory in
          record {
            ptable' = with_bss header c.ptable';
            runs =
                load_segment-copied image header ptable c.ptable' load
                  (ap (λ n. copy_bytes image header 0 n ptable) whole ∙ c.runs);
            memory = bss.1;
            flat = λ x hx.
                bss.0 x
                ∙ (let j = sub64 x header.p_vaddr in
                    let a = i.address in
                    let back : add64 header.p_vaddr j ≡ x = omega arith in
                    elim (Bool-cases (ltb j count)) [
                      | inl lt ↦
                          rw (load, lt)
                            (ap (byte_at c.ptable') (sym back)
                              ∙ c.inside j (omega arith) (ground arith))
                      | inr ge ↦ rw (load, ge) (c.outside x (λ k lo hi e. absurd (ground arith)))
                    ]);
          }
    ]

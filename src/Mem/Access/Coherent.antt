-- ===== src/Mem/Access/Coherent.antt =====
-- The data cache and the memory of src/base/mem.c together: the byte that the processor sees at an
-- address, and what holds of the two between accesses.
use ch_arm_v5_system_emulato.Base.{
  ℕ, ◌+◌, ◌-◌, ◌^◌, ◌<◌, true, false, Option, none, some, length, get_or, ◌≡◌,
}
use ch_arm_v5_system_emulato.Cache.{CacheLine, Cache, offset_in}
use ch_arm_v5_system_emulato.Cache.Valid.{IsCache}
use ch_arm_v5_system_emulato.Cache.Address.{IsGeometry, base}
use ch_arm_v5_system_emulato.Cache.Lines.{At, Unique, line_of}
use ch_arm_v5_system_emulato.Mem.Ptable.{PageTable}
use ch_arm_v5_system_emulato.Mem.Bytes.Flat.{byte_at}
use ch_arm_v5_system_emulato.Mem.Bytes.LittleEndian.{IsMemory}

-- The byte of a line at an offset, or that of the memory where there is no line.
abbrev pub byte_of : Option CacheLine → ℕ → ℕ → ℕ
byte_of none offset byte = byte
byte_of (some line) offset byte = get_or line.bytes offset 0

-- The byte that an address holds: that of its line in the cache, or else that of the memory.
unfoldable pub seen : Cache → PageTable → ℕ → ℕ
seen cache ptable addr = byte_of (line_of cache addr) (offset_in cache addr) (byte_at ptable addr)

-- A cache of `2 ^ s` sets with blocks of `2 ^ b` bytes over a memory: no two lines of a set hold one
-- block, and a clean line agrees with the memory.
pub record IsCoherent (cache : Cache) (ptable : PageTable) (b s : ℕ) : Type 0 where
  pub used : IsCache cache
  pub geometry : IsGeometry cache b s
  pub count : length cache.sets ≡ 2 ^ s
  pub memory : IsMemory ptable
  pub unique : Unique cache
  pub full : (k i : ℕ) (l : CacheLine) → At cache k i l → length l.bytes ≡ 2 ^ b
  pub small : (k i o : ℕ) (l : CacheLine) → At cache k i l → get_or l.bytes o 0 < 256
  pub tags :
      (k i : ℕ) (l : CacheLine) → At cache k i l → l.valid ≡ true → l.tag < 2 ^ (64 - (b + s))
  pub clean :
      (k i o : ℕ) (l : CacheLine)
      → At cache k i l
      → l.valid ≡ true
      → l.dirty ≡ false
      → o < 2 ^ b
      → byte_at ptable (base b s k l.tag + o) ≡ get_or l.bytes o 0

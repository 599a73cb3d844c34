-- ===== src/Mem/Access/Initial.antt =====
-- The data cache that `create_cache` of src/cache/cache.c gives, before the first access of
-- src/base/mem.c.
use ch_arm_v5_system_emulato.Base.{
  ℕ, ◌+◌, ◌-◌, ◌*◌, ◌/◌, ◌^◌, ◌≤◌, ◌<◌, true, false, none, length, get_elem?, get_or, replicate,
  Option-cases, length-replicate, get_or-replicate, u32, ◌≡◌, inl, inr, refl, sym, ap, ◌∙◌, arith,
}
use ch_arm_v5_system_emulato.Cache.{CacheLine, CacheSet, create_cache, get_set}
use ch_arm_v5_system_emulato.Cache.Create.{log-pow, get_elem?-replicate, create_cache-IsCache}
use ch_arm_v5_system_emulato.Cache.Lines.{At, line_of, line_of-At}
use ch_arm_v5_system_emulato.Mem.Ptable.{PageTable}
use ch_arm_v5_system_emulato.Mem.Bytes.Flat.{byte_at}
use ch_arm_v5_system_emulato.Mem.Bytes.LittleEndian.{IsMemory}
use ch_arm_v5_system_emulato.Mem.Access.Coherent.{seen, IsCoherent}

abbrev blank : ℕ → CacheLine
blank size = record { valid = false; tag = 0; dirty = false; bytes = replicate size 0 }

-- All lines of the new cache are blank.
At-blank : (a b c d k i : ℕ) (l : CacheLine) → At (create_cache a b c d) k i l → blank b ≡ l
unfolding create_cache
At-blank a b c d k i l at =
    let cache_set : CacheSet = record {
      lines = replicate a (blank b);
      lru_matrix = 0;
      next_lru = 2 ^ 64 - 1;
    } in
    let same = get_elem?-replicate (c / u32 (a * b)) k cache_set at.s at.there in
    get_elem?-replicate a i (blank b) l (ap (λ (s : CacheSet). get_elem? s.lines i) same ∙ at.at)

pub create_cache-line_of : (a b c d addr : ℕ) → line_of (create_cache a b c d) addr ≡ none
create_cache-line_of a b c d addr = elim (Option-cases (line_of (create_cache a b c d) addr)) [
  | inl e ↦ e
  | inr (l, e) ↦
      let (i, at, holds) = line_of-At (create_cache a b c d) addr l e in
      let same = At-blank a b c d (get_set (create_cache a b c d) addr) i l at in
      let valid : false ≡ true = ap (λ (m : CacheLine). m.valid) same ∙ holds.valid in absurd cc
]

-- Over a valid page table, create_cache with 1 to 8 lines to each of 2^s sets and blocks of 2^b
-- bytes, for b and s below 64 and b + s at most 64, gives a coherent cache through which the bytes
-- of the page table are seen.
pub create_cache-IsCoherent :
    (a b c d s : ℕ) (ptable : PageTable)
    → 1 ≤ a
    → a ≤ 8
    → c / u32 (a * 2 ^ b) ≡ 2 ^ s
    → b < 64
    → s < 64
    → b + s ≤ 64
    → IsMemory ptable
    → IsCoherent (create_cache a (2 ^ b) c d) ptable b s
      × ((x : ℕ) → seen (create_cache a (2 ^ b) c d) ptable x ≡ byte_at ptable x)
unfolding create_cache seen
create_cache-IsCoherent a b c d s ptable lo hi sets hb hs fits memory =
    let cache = create_cache a (2 ^ b) c d in
    let invalid : (k i : ℕ) (l : CacheLine) → At cache k i l → l.valid ≡ false =
      λ k i l at. ap (λ (m : CacheLine). m.valid) (sym (At-blank a (2 ^ b) c d k i l at)) in
    let bytes : (k i : ℕ) (l : CacheLine) → At cache k i l → l.bytes ≡ replicate (2 ^ b) 0 =
      λ k i l at. ap (λ (m : CacheLine). m.bytes) (sym (At-blank a (2 ^ b) c d k i l at)) in
    (
      record {
        used = create_cache-IsCache a (2 ^ b) c d s lo hi sets hs;
        geometry = record {
          size = refl;
          bits = log-pow b hb;
          sets = rw sets (log-pow s hs);
          fits = fits;
        };
        count = length-replicate (c / u32 (a * 2 ^ b)) _ ∙ sets;
        memory = memory;
        unique = λ k i j tag l m at _ holds _.
            let no = invalid k i l at in
            let yes = holds.valid in absurd (let q = sym no ∙ yes in cc);
        full = λ k i l at. ap length (bytes k i l at) ∙ length-replicate (2 ^ b) 0;
        small = λ k i o l at.
            let zero = ap (λ bs. get_or bs o 0) (bytes k i l at) ∙ get_or-replicate (2 ^ b) o 0 in
            omega arith;
        tags = λ k i l at valid. absurd (let q = sym (invalid k i l at) ∙ valid in cc);
        clean = λ k i o l at valid. absurd (let q = sym (invalid k i l at) ∙ valid in cc);
      },
      λ x. rw (create_cache-line_of a (2 ^ b) c d x) refl,
    )

-- ===== src/Mem/Access/Word.antt =====
-- The word of eight bytes in a line of the data cache of src/base/mem.c, and the bytes that are
-- seen at its addresses.
use ch_arm_v5_system_emulato.Base.{
  ℕ, zero, suc, ◌+◌, ◌*◌, ◌^◌, ◌≤◌, ◌<◌, List, [], ◌∷◌, some, length, length-drop, get_or, take,
  drop, add64, ◌≡◌, refl, sym, ap, ◌∙◌, arith,
}
use native.Mathlib.Nat.{pow-succ', mul_assoc}
use ch_arm_v5_system_emulato.Cache.{CacheLine, Cache, get_set, offset_in, word_of, get_word_cache}
use ch_arm_v5_system_emulato.Cache.Valid.{get_word_cache-found}
use ch_arm_v5_system_emulato.Cache.Lines.{line_of, line_of-FoundAt, line_of-block}
use ch_arm_v5_system_emulato.Mem.Ptable.{PageTable}
use ch_arm_v5_system_emulato.Mem.Bytes.LittleEndian.{le_value}
use ch_arm_v5_system_emulato.Mem.Access.Coherent.{seen, IsCoherent}
use ch_arm_v5_system_emulato.Mem.Access.Loop.{Inside, same_block}

-- A further byte of a word.
word_of-take-suc :
    (n : ℕ) (ys : List ℕ)
    → n < length ys
    → word_of (take (suc n) ys) ≡ word_of (take n ys) + 256 ^ n * get_or ys n 0
unfolding word_of
word_of-take-suc n [] h = absurd (omega arith)
word_of-take-suc zero (y ∷ ys) h = omega arith
word_of-take-suc (suc n) (y ∷ ys) h =
    let rest = word_of-take-suc n ys (omega arith) in
    let power : 256 ^ suc n * get_or ys n 0 ≡ 256 * (256 ^ n * get_or ys n 0) =
      ap (λ t. t * get_or ys n 0) (pow-succ' 256 n) ∙ mul_assoc 256 (256 ^ n) (get_or ys n 0) in
    omega (arith, rest, power)

pub get_or-drop : (o n : ℕ) (xs : List ℕ) → get_or (drop o xs) n 0 ≡ get_or xs (o + n) 0
get_or-drop zero n xs = ap (λ i. get_or xs i 0) {y = 0 + n} (omega arith)
get_or-drop (suc o) n [] = refl
get_or-drop (suc o) n (x ∷ xs) =
    get_or-drop o n xs ∙ ap (λ i. get_or (x ∷ xs) i 0) {x = suc (o + n)} (omega arith)

-- The number of the first bytes, by the bytes of a memory.
word_of-le_value :
    (byte : ℕ → ℕ) (addr n : ℕ) (ys : List ℕ)
    → n ≤ length ys
    → ((j : ℕ) → j < n → byte (add64 addr j) ≡ get_or ys j 0)
    → word_of (take n ys) ≡ le_value byte addr n
unfolding word_of
word_of-le_value byte addr zero ys h same = refl
word_of-le_value byte addr (suc n) ys h same =
    word_of-take-suc n ys (omega arith)
    ∙ (let rest = word_of-le_value byte addr n ys (omega arith) (λ j lt. same j (omega arith)) in
        rw (same n (omega arith), rest) refl)

-- The bytes that are seen at a line.
pub seen-line :
    (cache : Cache) (ptable : PageTable) (b s addr j : ℕ) (l : CacheLine)
    → IsCoherent cache ptable b s
    → addr < 2 ^ 64
    → offset_in cache addr + j < 2 ^ b
    → line_of cache addr ≡ some l
    → seen cache ptable (add64 addr j) ≡ get_or l.bytes (offset_in cache addr + j) 0
unfolding seen
seen-line cache ptable b s addr j l h fits inside found =
    let (k, t, o, lt) = same_block cache b s h.geometry addr j fits inside in
    let now : add64 addr j ≡ addr + j = omega arith in
    let line = line_of-block cache (addr + j) addr k t ∙ found in rw (now, line, o) refl

-- The word that is read from a line is that of the bytes that are seen.
pub get_word_cache-seen :
    (cache : Cache) (ptable : PageTable) (b s addr : ℕ) (l : CacheLine)
    → IsCoherent cache ptable b s
    → Inside cache b addr 8
    → line_of cache addr ≡ some l
    → get_word_cache cache addr ≡ some (le_value (seen cache ptable) addr 8)
get_word_cache-seen cache ptable b s addr l h (fits, inside) found =
    let f = line_of-FoundAt cache addr l found in
    let o = offset_in cache addr in
    let size = h.full (get_set cache addr) f.i l (record { s = f.s; there = f.there; at = f.at }) in
    get_word_cache-found cache addr f.i f.s l f.there f.hit f.at (ground arith)
    ∙ ap some (
        word_of-le_value (seen cache ptable) addr 8 (drop o l.bytes)
          (let n = length-drop o l.bytes in omega arith)
          (λ j lt.
            seen-line cache ptable b s addr j l h fits (omega arith) found
            ∙ sym (get_or-drop o j l.bytes)))

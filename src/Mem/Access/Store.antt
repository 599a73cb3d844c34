-- ===== src/Mem/Access/Store.antt =====
-- `set_word_cache` on a line of the data cache of src/base/mem.c: the eight bytes of the word are
-- seen, and no other byte changes.
use native.Mathlib.Decide.{ℕ_discrete}
use native.Mathlib.Nat.{pow-succ', div-div-eq-div-mul}
use ch_arm_v5_system_emulato.Base.{
  ℕ, zero, suc, ◌+◌, ◌-◌, ◌*◌, ◌/◌, ◌%◌, ◌^◌, ◌≤◌, ◌<◌, true, List, [], ◌∷◌, ◌++◌, some, ◌>>=◌,
  length, length-take, get_or, set, take, drop, leb, ltb, add64, if◌then◌else◌, ◌>>>◌, Bool-cases,
  ◌≡◌, ◌≢◌, ◌⊎◌, inl, inr, refl, sym, ap, ◌∙◌, arith,
}
use ch_arm_v5_system_emulato.Cache.{
  CacheLine, Cache, get_set, tag_of, offset_in, bytes_of, put_line, set_word_cache,
}
use ch_arm_v5_system_emulato.Cache.Word.{spliced, length-spliced, length-bytes_of}
use ch_arm_v5_system_emulato.Cache.Miss.{same_set}
use ch_arm_v5_system_emulato.Cache.Address.{base, address, offset_in-lt}
use ch_arm_v5_system_emulato.Cache.Lines.{At, line_of, line_of-FoundAt}
use ch_arm_v5_system_emulato.Mem.Ptable.{PageTable}
use ch_arm_v5_system_emulato.Mem.Bytes.LittleEndian.{two_pow_eight}
use ch_arm_v5_system_emulato.Mem.Access.Coherent.{seen, IsCoherent}
use ch_arm_v5_system_emulato.Mem.Access.Rewritten.{
  Rewritten, Rewritten-IsCoherent, Rewritten-here, Rewritten-elsewhere,
}
use ch_arm_v5_system_emulato.Mem.Access.Loop.{Inside, same_block}
use ch_arm_v5_system_emulato.Mem.Access.Evict.{get_or-take, get_or-take-lt}
use ch_arm_v5_system_emulato.Mem.Access.Word.{get_or-drop, seen-line}

-- The bytes of a word.
get_or-bytes_of :
    (n val j : ℕ) (xs : List ℕ) → j < n → get_or (bytes_of n val ++ xs) j 0 ≡ val >>> (8 * j) % 256
unfolding bytes_of
get_or-bytes_of zero val j xs h = absurd (omega arith)
get_or-bytes_of (suc n) val zero xs h = omega arith
get_or-bytes_of (suc n) val (suc j) xs h =
    get_or-bytes_of n (val / 256) j xs (omega arith)
    ∙ ap (λ t. val / 256 / t % 256) (two_pow_eight j)
    ∙ ap (λ t. t % 256) (div-div-eq-div-mul val 256 (256 ^ j))
    ∙ ap (λ t. val / t % 256) (sym (pow-succ' 256 j) ∙ sym (two_pow_eight (suc j)))

bytes_of-small :
    (n val j : ℕ) (xs : List ℕ)
    → ((i : ℕ) → get_or xs i 0 < 256)
    → get_or (bytes_of n val ++ xs) j 0 < 256
unfolding bytes_of
bytes_of-small zero val j xs h = h j
bytes_of-small (suc n) val zero xs h = omega arith
bytes_of-small (suc n) val (suc j) xs h = bytes_of-small n (val / 256) j xs h

get_or-append_left :
    (xs ys : List ℕ) (j : ℕ) → j < length xs → get_or (xs ++ ys) j 0 ≡ get_or xs j 0
get_or-append_left [] ys j h = absurd (omega arith)
get_or-append_left (x ∷ xs) ys zero h = refl
get_or-append_left (x ∷ xs) ys (suc j) h = get_or-append_left xs ys j (omega arith)

get_or-append_right : (xs ys : List ℕ) (j : ℕ) → get_or (xs ++ ys) (length xs + j) 0 ≡ get_or ys j 0
get_or-append_right [] ys j = ap (λ i. get_or ys i 0) {x = 0 + j} (omega arith)
get_or-append_right (x ∷ xs) ys j =
    ap (λ i. get_or (x ∷ (xs ++ ys)) i 0) {x = suc (length xs) + j} {y = suc (length xs + j)}
      (omega arith)
    ∙ get_or-append_right xs ys j

append-small :
    (xs ys : List ℕ)
    → ((i : ℕ) → get_or xs i 0 < 256)
    → ((i : ℕ) → get_or ys i 0 < 256)
    → (i : ℕ) → get_or (xs ++ ys) i 0 < 256
append-small [] ys hx hy i = hy i
append-small (x ∷ xs) ys hx hy zero = hx 0
append-small (x ∷ xs) ys hx hy (suc i) = append-small xs ys (λ j. hx (suc j)) hy i

module _ (o val : ℕ) (bytes : List ℕ) (h : o + 8 ≤ length bytes) where
  front : length (take o bytes) ≡ o
  front = omega (arith, length-take o bytes)

  spliced-inside : (j : ℕ) → j < 8 → get_or (spliced o val bytes) (o + j) 0 ≡ val >>> (8 * j) % 256
  spliced-inside j lt =
      ap (λ n. get_or (spliced o val bytes) (n + j) 0) (sym front)
      ∙ get_or-append_right (take o bytes) (bytes_of 8 val ++ drop (o + 8) bytes) j
      ∙ get_or-bytes_of 8 val j (drop (o + 8) bytes) lt

  spliced-below : (j : ℕ) → j < o → get_or (spliced o val bytes) j 0 ≡ get_or bytes j 0
  spliced-below j lt =
      get_or-append_left (take o bytes) (bytes_of 8 val ++ drop (o + 8) bytes) j (rw front lt)
      ∙ get_or-take o j bytes lt

  spliced-above :
      (j : ℕ) → get_or (spliced o val bytes) (o + (8 + j)) 0 ≡ get_or bytes (o + 8 + j) 0
  spliced-above j =
      ap (λ n. get_or (spliced o val bytes) (n + (8 + j)) 0) (sym front)
      ∙ get_or-append_right (take o bytes) (bytes_of 8 val ++ drop (o + 8) bytes) (8 + j)
      ∙ ap (λ n. get_or (bytes_of 8 val ++ drop (o + 8) bytes) (n + j) 0)
          (sym (length-bytes_of 8 val))
      ∙ get_or-append_right (bytes_of 8 val) (drop (o + 8) bytes) j
      ∙ get_or-drop (o + 8) j bytes

  spliced-small :
      ((i : ℕ) → get_or bytes i 0 < 256) → (i : ℕ) → get_or (spliced o val bytes) i 0 < 256
  spliced-small small =
      append-small (take o bytes) (bytes_of 8 val ++ drop (o + 8) bytes)
        (λ i. get_or-take-lt o i bytes small)
        (λ i.
          bytes_of-small 8 val i (drop (o + 8) bytes)
            (λ j. rw (get_or-drop (o + 8) j bytes) (small (o + 8 + j))))

  spliced-outside :
      (j : ℕ) → (j < o) ⊎ (o + 8 ≤ j) → get_or (spliced o val bytes) j 0 ≡ get_or bytes j 0
  spliced-outside j (inl lt) = spliced-below j lt
  spliced-outside j (inr ge) =
      ap (λ n. get_or (spliced o val bytes) n 0) {y = o + (8 + (j - (o + 8)))} (omega arith)
      ∙ spliced-above (j - (o + 8))
      ∙ ap (λ n. get_or bytes n 0) {x = o + 8 + (j - (o + 8))} (omega arith)

-- A line that has a word stored at the offset of an address.
module _ (cache cache' : Cache) (ptable : PageTable) (b s addr val : ℕ)
    (h : IsCoherent cache ptable b s) (r : Rewritten cache cache' b (get_set cache addr))
    (tag : tag_of cache addr ≡ r.line.tag) (span : Inside cache b addr 8)
    (bytes : r.line'.bytes ≡ spliced (offset_in cache addr) val r.line.bytes) where
  room : offset_in cache addr + 8 ≤ length r.line.bytes
  room =
      let size =
        h.full (get_set cache addr) r.i r.line
          (record { s = r.old_set; there = r.there; at = r.at }) in
      let fit = span.1 in omega arith

  stored-inside : (j : ℕ) → j < 8 → seen cache' ptable (add64 addr j) ≡ val >>> (8 * j) % 256
  stored-inside j lt =
      let o = offset_in cache addr in
      let (fits, fit) = span in
      let (_, _, o') = same_set cache cache' addr r.assoc r.block_size r.capacity in
      let (was, now) =
        Rewritten-here cache cache' ptable b s (get_set cache addr) h r addr refl tag in
      let h' = Rewritten-IsCoherent cache cache' ptable b s (get_set cache addr) h r in
      seen-line cache' ptable b s addr j r.line' h' fits (omega arith) now
      ∙ ap (λ n. get_or r.line'.bytes (n + j) 0) o'
      ∙ ap (λ bs. get_or bs (o + j) 0) bytes
      ∙ spliced-inside o val r.line.bytes room j lt

  -- An address of the block that is none of the word's.
  beside :
      (x : ℕ)
      → get_set cache x ≡ get_set cache addr
      → tag_of cache x ≡ tag_of cache addr
      → ((j : ℕ) → j < 8 → x ≢ add64 addr j)
      → (offset_in cache x < offset_in cache addr) ⊎ (offset_in cache addr + 8 ≤ offset_in cache x)
  beside x ek et other =
      let o = offset_in cache addr in
      let ox = offset_in cache x in
      let (fits, fit) = span in
      let wx = address cache b s h.geometry x in
      let wa = address cache b s h.geometry addr in
      let same : base b s (get_set cache x) (tag_of cache x)
          ≡ base b s (get_set cache addr) (tag_of cache addr) =
        rw (ek, et) refl in
      let hx = offset_in-lt cache b s h.geometry x in
      elim (Bool-cases (ltb ox o)) [
        | inl lt ↦ inl (ground arith)
        | inr ge ↦ elim (Bool-cases (ltb ox (o + 8))) [
          | inr ge' ↦ inr (ground arith)
          | inl lt ↦
              let below : ox - o < 8 = ground arith in
              let up : o ≤ ox = ground arith in
              let (_, _, _, lt64) =
                same_block cache b s h.geometry addr (ox - o) fits (omega arith) in
              let at : x ≡ add64 addr (ox - o) = omega arith in absurd (other (ox - o) below at)
        ]
      ]

  stored-outside :
      (x : ℕ) → ((j : ℕ) → j < 8 → x ≢ add64 addr j) → seen cache' ptable x ≡ seen cache ptable x
  unfolding seen
  stored-outside x other =
      let k = get_set cache addr in
      let (_, _, o') = same_set cache cache' x r.assoc r.block_size r.capacity in
      let elsewhere = λ (out : get_set cache x ≡ k → tag_of cache x ≢ r.line.tag).
        Rewritten-elsewhere cache cache' ptable b s k h r x out in
      elim (ℕ_discrete (get_set cache x) k) [
        | no ne ↦ rw (o', elsewhere (λ e. absurd (ne e))) refl
        | yes ek ↦ elim (ℕ_discrete (tag_of cache x) r.line.tag) [
          | no ne ↦ rw (o', elsewhere (λ _. ne)) refl
          | yes et ↦
              let (was, now) = Rewritten-here cache cache' ptable b s k h r x ek et in
              rw (o', was, now)
                (ap (λ bs. get_or bs (offset_in cache x) 0) bytes
                  ∙ spliced-outside (offset_in cache addr) val r.line.bytes room (offset_in cache x)
                      (beside x ek (et ∙ sym tag) other))
        ]
      ]

-- What the store leaves.
pub record Store (cache : Cache) (ptable : PageTable) (addr val b s : ℕ) : Type 0 where
  pub cache' : Cache
  pub runs : set_word_cache cache addr val ≡ some cache'
  pub coherent : IsCoherent cache' ptable b s
  pub inside : (j : ℕ) → j < 8 → seen cache' ptable (add64 addr j) ≡ val >>> (8 * j) % 256
  pub outside :
      (x : ℕ) → ((j : ℕ) → j < 8 → x ≢ add64 addr j) → seen cache' ptable x ≡ seen cache ptable x

pub set_word_cache-Store :
    (cache : Cache) (ptable : PageTable) (b s addr val : ℕ) (l : CacheLine)
    → IsCoherent cache ptable b s
    → Inside cache b addr 8
    → line_of cache addr ≡ some l
    → Store cache ptable addr val b s
unfolding set_word_cache
set_word_cache-Store cache ptable b s addr val l h (fits, inside) found =
    let f = line_of-FoundAt cache addr l found in
    let k = get_set cache addr in
    let o = offset_in cache addr in
    let at : At cache k f.i l = record { s = f.s; there = f.there; at = f.at } in
    let size = h.full k f.i l at in
    let room : o + 8 ≤ length l.bytes = omega arith in
    let fitting : leb (o + 8) (length l.bytes) ≡ true = ground arith in
    let line' : CacheLine = record l { bytes = spliced o val l.bytes; dirty = true } in
    let s' = put_line f.s f.i line' in
    let cache' : Cache = record cache { sets = set cache.sets k s' } in
    let r : Rewritten cache cache' b k = record {
      i = f.i;
      old_set = f.s;
      new_set = s';
      line = l;
      line' = line';
      there = f.there;
      at = f.at;
      valid = f.holds.valid;
      valid' = f.holds.valid;
      tag = refl;
      full = length-spliced o val l.bytes room ∙ size;
      small = spliced-small o val l.bytes room (λ i. h.small k f.i i l at);
      clean = λ d. absurd (ground arith);
      sets = refl;
      lines = refl;
      assoc = refl;
      block_size = refl;
      capacity = refl;
    } in
    record {
      cache' = cache';
      runs = rw (f.there, ◌>>=◌, f.hit, f.at, if◌then◌else◌, fitting) refl;
      coherent = Rewritten-IsCoherent cache cache' ptable b s k h r;
      inside =
          stored-inside cache cache' ptable b s addr val h r (sym f.holds.same) (fits, inside) refl;
      outside =
          stored-outside cache cache' ptable b s addr val h r (sym f.holds.same) (fits, inside)
            refl;
    }

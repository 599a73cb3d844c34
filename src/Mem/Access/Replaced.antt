-- ===== src/Mem/Access/Replaced.antt =====
-- A line of the data cache takes the place of another, as on a miss in src/base/mem.c: no byte that
-- is seen changes.
pub mod Coherence
use mathlib.Core.Option.{some-injective}
use native.Mathlib.Decide.{ℕ_discrete}
use native.Mathlib.Nat.{one-le-pow}
use ch_arm_v5_system_emulato.Base.{
  ℕ, ◌+◌, ◌^◌, ◌<◌, true, false, none, some, length, get_elem?, get_or, set, Option-cases,
  length-set, get_elem?-lt, get_elem?-set_self, ◌≡◌, ◌≢◌, ◌⊎◌, inl, inr, refl, sym, ap, ◌∙◌, arith,
}
use ch_arm_v5_system_emulato.Cache.{CacheLine, CacheSet, Cache, get_set, tag_of, offset_in}
use ch_arm_v5_system_emulato.Cache.Valid.{put-IsCache}
use ch_arm_v5_system_emulato.Cache.Miss.{same_set}
use ch_arm_v5_system_emulato.Cache.Address.{
  base, parts, address, get_set-lt, offset_in-lt, tag_of-lt,
}
use ch_arm_v5_system_emulato.Cache.Lines.{
  At, Holds, Unique, line_of, line_of-At, At-line_of, At-put, At-kept,
}
use ch_arm_v5_system_emulato.Mem.Ptable.{PageTable}
use ch_arm_v5_system_emulato.Mem.Bytes.Flat.{byte_at}
use ch_arm_v5_system_emulato.Mem.Bytes.LittleEndian.{IsMemory}
use ch_arm_v5_system_emulato.Mem.Access.Coherent.{seen, IsCoherent}

-- One line of a coherent cache is replaced by the line of a missing block, and the old one written
-- back.
pub record Replaced (cache cache' : Cache) (ptable ptable' : PageTable) (b s c : ℕ) : Type 0 where
  pub i : ℕ
  pub old_set : CacheSet
  pub new_set : CacheSet
  pub old : CacheLine
  pub line : CacheLine
  pub aligned : offset_in cache c ≡ 0
  pub fits : c < 2 ^ 64
  pub miss : line_of cache c ≡ none
  pub there : get_elem? cache.sets (get_set cache c) ≡ some old_set
  pub old_there : get_elem? old_set.lines i ≡ some old
  pub holds : Holds line (tag_of cache c)
  pub full : length line.bytes ≡ 2 ^ b
  pub block : (o : ℕ) → o < 2 ^ b → get_or line.bytes o 0 ≡ byte_at ptable (c + o)
  pub small : (o : ℕ) → get_or line.bytes o 0 < 256
  pub sets : cache'.sets ≡ set cache.sets (get_set cache c) new_set
  pub lines : new_set.lines ≡ set old_set.lines i line
  pub assoc : cache'.assoc ≡ cache.assoc
  pub block_size : cache'.block_size ≡ cache.block_size
  pub capacity : cache'.capacity ≡ cache.capacity
  pub back :
      old.valid ≡ true
      → (o : ℕ) → o < 2 ^ b
      → byte_at ptable' (base b s (get_set cache c) old.tag + o) ≡ get_or old.bytes o 0
  pub rest :
      (a : ℕ)
      → (old.valid ≡ true → get_set cache a ≡ get_set cache c → tag_of cache a ≢ old.tag)
      → byte_at ptable' a ≡ byte_at ptable a
  pub memory : IsMemory ptable'

module _ (cache cache' : Cache) (ptable ptable' : PageTable) (b s c : ℕ)
    (h : IsCoherent cache ptable b s) (r : Replaced cache cache' ptable ptable' b s c) where
  -- An address of the missing block is that block's address and the offset.
  in_block :
      (a : ℕ)
      → get_set cache a ≡ get_set cache c
      → tag_of cache a ≡ tag_of cache c
      → c + offset_in cache a ≡ a
  in_block a k t =
      let whole = address cache b s h.geometry a in
      let start = address cache b s h.geometry c in
      let al = r.aligned in
      let same : base b s (get_set cache a) (tag_of cache a)
          ≡ base b s (get_set cache c) (tag_of cache c) =
        rw (k, t) refl in
      omega arith

  missing :
      (a : ℕ)
      → get_set cache a ≡ get_set cache c
      → tag_of cache a ≡ tag_of cache c
      → line_of cache a ≡ none
  missing a k t = elim (Option-cases (line_of cache a)) [
    | inl e ↦ e
    | inr (l, e) ↦
        let (j, at, holds) = line_of-At cache a l e in
        let found = At-line_of cache c j l h.unique (rw k at at) (rw t at holds) in
        absurd (let q = sym r.miss ∙ found in cc)
  ]

  pub after :
      (k j : ℕ) (l : CacheLine)
      → At cache' k j l
      → ((k ≡ get_set cache c) × (j ≡ r.i) × (l ≡ r.line))
        ⊎ (((k ≢ get_set cache c) ⊎ (j ≢ r.i)) × At cache k j l)
  after =
      At-put cache cache' (get_set cache c) r.i r.old_set r.new_set r.line r.there r.sets r.lines

  pub old-At : At cache (get_set cache c) r.i r.old
  old-At = record { s = r.old_set; there = r.there; at = r.old_there }

  -- No line held the block.
  pub held :
      (j : ℕ) (m : CacheLine)
      → At cache (get_set cache c) j m
      → m.valid ≡ true
      → m.tag ≢ tag_of cache c
  held j m at valid same =
      let found = At-line_of cache c j m h.unique at (record { valid = valid; same = same }) in
      let q = sym r.miss ∙ found in cc

  new_tag : (l : CacheLine) (tag : ℕ) → l ≡ r.line → Holds l tag → tag ≡ tag_of cache c
  new_tag l tag e holds = sym holds.same ∙ ap (λ (m : CacheLine). m.tag) e ∙ r.holds.same

  pub Replaced-Unique : Unique cache'
  Replaced-Unique k i j tag l m al am hl hm = elim (after k i l al) [
    | inl (ek, ei, el) ↦ elim (after k j m am) [
      | inl (_, ej, _) ↦ ei ∙ sym ej
      | inr (_, m_there) ↦
          absurd (held j m (rw ek at m_there) hm.valid (hm.same ∙ new_tag l tag el hl))
    ]
    | inr (_, l_there) ↦ elim (after k j m am) [
      | inl (ek, ej, em) ↦
          absurd (held i l (rw ek at l_there) hl.valid (hl.same ∙ new_tag m tag em hm))
      | inr (_, m_there) ↦ h.unique k i j tag l m l_there m_there hl hm
    ]
  ]

  -- The same line is found at every address of another block than those two.
  kept :
      (a : ℕ) (l : CacheLine)
      → line_of cache a ≡ some l
      → ((get_set cache a ≡ get_set cache c)
          × (l ≡ r.old)
          × (l.valid ≡ true)
          × (l.tag ≡ tag_of cache a))
        ⊎ (line_of cache' a ≡ some l)
  kept a l e =
      let (j, at, holds) = line_of-At cache a l e in
      let (k', t', o') = same_set cache cache' a r.assoc r.block_size r.capacity in
      let keep = λ (other : (get_set cache a ≢ get_set cache c) ⊎ (j ≢ r.i)).
        At-line_of cache' a j l Replaced-Unique
          (rw k' (
            At-kept cache cache' (get_set cache c) r.i r.old_set r.new_set r.line r.there r.sets
              r.lines (get_set cache a) j l at other))
          (rw t' holds) in
      elim (ℕ_discrete (get_set cache a) (get_set cache c)) [
        | no ne ↦ inr (keep (inl ne))
        | yes k ↦ elim (ℕ_discrete j r.i) [
          | no ne ↦ inr (keep (inr ne))
          | yes i ↦
              let there : r.old_set ≡ at.s =
                some-injective r.old_set at.s (sym r.there ∙ (rw k at at.there)) in
              let same : l ≡ r.old =
                some-injective l r.old (sym (rw (← there, i) at at.at) ∙ r.old_there) in
              inl (k, same, holds.valid, holds.same)
        ]
      ]

  found_after :
      (a : ℕ) (l : CacheLine)
      → line_of cache' a ≡ some l
      → ((get_set cache a ≡ get_set cache c) × (tag_of cache a ≡ tag_of cache c) × (l ≡ r.line))
        ⊎ (line_of cache a ≡ some l)
  found_after a l e =
      let (k', t', o') = same_set cache cache' a r.assoc r.block_size r.capacity in
      let (j, at, holds) = line_of-At cache' a l e in
      elim (after (get_set cache a) j l (rw k' at at)) [
        | inl (k, _, el) ↦ inl (k, sym t' ∙ new_tag l (tag_of cache' a) el holds, el)
        | inr (_, old) ↦ inr (At-line_of cache a j l h.unique old (rw t' at holds))
      ]

  -- The missing block is there.
  pub Replaced-here : line_of cache' c ≡ some r.line
  Replaced-here =
      let (k', t', _) = same_set cache cache' c r.assoc r.block_size r.capacity in
      let there =
        get_elem?-set_self cache.sets (get_set cache c) r.new_set
          (get_elem?-lt cache.sets (get_set cache c) r.old_set r.there) in
      let at =
        get_elem?-set_self r.old_set.lines r.i r.line
          (get_elem?-lt r.old_set.lines r.i r.old r.old_there) in
      let new : At cache' (get_set cache c) r.i r.line = record {
        s = r.new_set;
        there = rw r.sets there;
        at = rw r.lines at;
      } in
      At-line_of cache' c r.i r.line Replaced-Unique (rw k' new) (rw t' r.holds)

  -- No byte that is seen changes.
  pub Replaced-seen : (a : ℕ) → seen cache' ptable' a ≡ seen cache ptable a
  unfolding seen
  Replaced-seen a =
      let (k', t', o') = same_set cache cache' a r.assoc r.block_size r.capacity in
      elim (Option-cases (line_of cache' a)) [
        | inr (l, e) ↦ elim (found_after a l e) [
          | inl (k, t, el) ↦
              rw (e, missing a k t, el, o')
                (r.block (offset_in cache a) (offset_in-lt cache b s h.geometry a)
                  ∙ ap (byte_at ptable) (in_block a k t))
          | inr old ↦ rw (e, old, o') refl
        ]
        | inl e ↦ elim (Option-cases (line_of cache a)) [
          | inl e' ↦
              rw (e, e')
                (r.rest a (λ valid k t.
                  let there =
                    At-line_of cache a r.i r.old h.unique (rw k old-At)
                      (record { valid = valid; same = sym t }) in
                  let q = sym e' ∙ there in cc))
          | inr (l, e') ↦ elim (kept a l e') [
            | inr still ↦ absurd (let q = sym e ∙ still in cc)
            | inl (k, el, valid, tag) ↦
                rw (e, e')
                  (let o = offset_in cache a in
                    let whole = address cache b s h.geometry a in
                    let back = r.back (rw el at valid) o (offset_in-lt cache b s h.geometry a) in
                    let tag' : tag_of cache a ≡ r.old.tag =
                      sym tag ∙ ap (λ (m : CacheLine). m.tag) el in
                    ap (byte_at ptable') (sym (rw (k, tag') at whole))
                    ∙ back
                    ∙ ap (λ (m : CacheLine). get_or m.bytes o 0) (sym el))
          ]
        ]
      ]

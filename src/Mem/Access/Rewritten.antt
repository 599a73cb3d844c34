-- ===== src/Mem/Access/Rewritten.antt =====
-- A line of the data cache gets another content, as by a hit or a store in src/base/mem.c.
use native.Mathlib.Decide.{ℕ_discrete}
use ch_arm_v5_system_emulato.Base.{
  ℕ, ◌^◌, ◌<◌, true, false, some, length, get_elem?, get_or, set, Option-cases, length-set,
  get_elem?-lt, get_elem?-set_self, ◌≡◌, ◌≢◌, ◌⊎◌, inl, inr, sym, ap, ◌∙◌,
}
use ch_arm_v5_system_emulato.Cache.{CacheLine, CacheSet, Cache, get_set, tag_of}
use ch_arm_v5_system_emulato.Cache.Valid.{put-IsCache}
use ch_arm_v5_system_emulato.Cache.Miss.{same_set}
use ch_arm_v5_system_emulato.Cache.Lines.{
  At, Holds, Unique, line_of, line_of-At, At-line_of, At-put, At-kept, At-same,
}
use ch_arm_v5_system_emulato.Mem.Ptable.{PageTable}
use ch_arm_v5_system_emulato.Mem.Access.Coherent.{IsCoherent}

-- The line at one place has new bytes or is marked dirty.
pub record Rewritten (cache cache' : Cache) (b k : ℕ) : Type 0 where
  pub i : ℕ
  pub old_set : CacheSet
  pub new_set : CacheSet
  pub line : CacheLine
  pub line' : CacheLine
  pub there : get_elem? cache.sets k ≡ some old_set
  pub at : get_elem? old_set.lines i ≡ some line
  pub valid : line.valid ≡ true
  pub valid' : line'.valid ≡ true
  pub tag : line'.tag ≡ line.tag
  pub full : length line'.bytes ≡ 2 ^ b
  pub small : (o : ℕ) → get_or line'.bytes o 0 < 256
  pub clean : line'.dirty ≡ false → (line.dirty ≡ false) × (line'.bytes ≡ line.bytes)
  pub sets : cache'.sets ≡ set cache.sets k new_set
  pub lines : new_set.lines ≡ set old_set.lines i line'
  pub assoc : cache'.assoc ≡ cache.assoc
  pub block_size : cache'.block_size ≡ cache.block_size
  pub capacity : cache'.capacity ≡ cache.capacity

module _ (cache cache' : Cache) (ptable : PageTable) (b s k : ℕ) (h : IsCoherent cache ptable b s)
    (r : Rewritten cache cache' b k) where
  old-At : At cache k r.i r.line
  old-At = record { s = r.old_set; there = r.there; at = r.at }

  new-At : At cache' k r.i r.line'
  new-At = record {
    s = r.new_set;
    there =
        rw r.sets
          (get_elem?-set_self cache.sets k r.new_set (get_elem?-lt cache.sets k r.old_set r.there));
    at = rw r.lines (
        get_elem?-set_self r.old_set.lines r.i r.line'
          (get_elem?-lt r.old_set.lines r.i r.line r.at));
  }

  after :
      (k' j : ℕ) (l : CacheLine)
      → At cache' k' j l
      → ((k' ≡ k) × (j ≡ r.i) × (l ≡ r.line')) ⊎ (((k' ≢ k) ⊎ (j ≢ r.i)) × At cache k' j l)
  after = At-put cache cache' k r.i r.old_set r.new_set r.line' r.there r.sets r.lines

  -- What a line after the change was before.
  before :
      (k' j tag : ℕ) (l : CacheLine)
      → At cache' k' j l
      → Holds l tag
      → (m : CacheLine) × At cache k' j m × Holds m tag
  before k' j tag l at holds = elim (after k' j l at) [
    | inl (ek, ej, el) ↦ (
      r.line,
      rw (ek, ej) old-At,
      record {
        valid = r.valid;
        same = sym r.tag ∙ ap (λ (m : CacheLine). m.tag) (sym el) ∙ holds.same;
      },
    )
    | inr (_, old) ↦ (l, old, holds)
  ]

  Rewritten-Unique : Unique cache'
  Rewritten-Unique k' i j tag l m al am hl hm =
      let (l0, al0, hl0) = before k' i tag l al hl in
      let (m0, am0, hm0) = before k' j tag m am hm in h.unique k' i j tag l0 m0 al0 am0 hl0 hm0

  pub Rewritten-IsCoherent : IsCoherent cache' ptable b s
  Rewritten-IsCoherent = record {
    used = put-IsCache cache cache' k r.new_set h.used r.sets r.assoc r.block_size r.capacity (
        ap length r.lines
        ∙ length-set r.old_set.lines r.i r.line'
        ∙ h.used.lines k r.old_set r.there);
    geometry = record {
      size = r.block_size ∙ h.geometry.size;
      bits = rw r.block_size h.geometry.bits;
      sets = rw (r.capacity, r.assoc, r.block_size) h.geometry.sets;
      fits = h.geometry.fits;
    };
    count = ap length r.sets ∙ length-set cache.sets k r.new_set ∙ h.count;
    memory = h.memory;
    unique = Rewritten-Unique;
    full = λ k' j l at. elim (after k' j l at) [
      | inl (_, _, e) ↦ rw e r.full
      | inr (_, old) ↦ h.full k' j l old
    ];
    small = λ k' j o l at. elim (after k' j l at) [
      | inl (_, _, e) ↦ rw e (r.small o)
      | inr (_, old) ↦ h.small k' j o l old
    ];
    tags = λ k' j l at valid. elim (after k' j l at) [
      | inl (_, _, e) ↦ rw (e, r.tag) (h.tags k r.i r.line old-At r.valid)
      | inr (_, old) ↦ h.tags k' j l old valid
    ];
    clean = λ k' j o l at valid clean ho. elim (after k' j l at) [
      | inl (ek, _, e) ↦
          let (was_clean, same) = r.clean (rw e at clean) in
          rw (e, ek, r.tag, same) (h.clean k r.i o r.line old-At r.valid was_clean ho)
      | inr (_, old) ↦ h.clean k' j o l old valid clean ho
    ];
  }

  -- At the addresses of the line's block the line is the new one.
  pub Rewritten-here :
      (a : ℕ)
      → get_set cache a ≡ k
      → tag_of cache a ≡ r.line.tag
      → (line_of cache a ≡ some r.line) × (line_of cache' a ≡ some r.line')
  Rewritten-here a ek et =
      let (k', t', _) = same_set cache cache' a r.assoc r.block_size r.capacity in
      (
        At-line_of cache a r.i r.line h.unique (rw ek old-At)
            (record { valid = r.valid; same = sym et }),
        At-line_of cache' a r.i r.line' Rewritten-Unique (rw (k', ek) new-At)
            (record { valid = r.valid'; same = r.tag ∙ sym et ∙ sym t' }),
      )

  -- At all other addresses it is the same as before.
  pub Rewritten-elsewhere :
      (a : ℕ)
      → (get_set cache a ≡ k → tag_of cache a ≢ r.line.tag)
      → line_of cache' a ≡ line_of cache a
  Rewritten-elsewhere a other =
      let (k', t', _) = same_set cache cache' a r.assoc r.block_size r.capacity in
      elim (Option-cases (line_of cache' a)) [
        | inr (l, e) ↦
            let (j, at, holds) = line_of-At cache' a l e in
            elim (after (get_set cache a) j l (rw k' at at)) [
              | inl (ek, _, el) ↦
                  absurd
                    (other ek (sym t' ∙ sym holds.same ∙ ap (λ (m : CacheLine). m.tag) el ∙ r.tag))
              | inr (_, old) ↦ e ∙ sym (At-line_of cache a j l h.unique old (rw t' at holds))
            ]
        | inl e ↦ elim (Option-cases (line_of cache a)) [
          | inl e' ↦ e ∙ sym e'
          | inr (l, e') ↦
              let (j, at, holds) = line_of-At cache a l e' in
              let ne : (get_set cache a ≢ k) ⊎ (j ≢ r.i) = elim (ℕ_discrete (get_set cache a) k) [
                | no ne ↦ inl ne
                | yes ek ↦ inr (λ ej.
                    let same : l ≡ r.line =
                      At-same cache k r.i l r.line (rw (ek, ej) at at) old-At in
                    other ek (sym holds.same ∙ ap (λ (m : CacheLine). m.tag) same))
              ] in
              let kept =
                At-kept cache cache' k r.i r.old_set r.new_set r.line' r.there r.sets r.lines
                  (get_set cache a) j l at ne in
              let found = At-line_of cache' a j l Rewritten-Unique (rw k' kept) (rw t' holds) in
              absurd (let q = sym e ∙ found in cc)
        ]
      ]

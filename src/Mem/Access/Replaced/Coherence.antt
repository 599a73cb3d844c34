-- ===== src/Mem/Access/Replaced/Coherence.antt =====
-- The data cache of src/base/mem.c after a line has taken the place of another, and the old one was
-- written back: it is coherent with the memory.
use native.Mathlib.Nat.{one-le-pow}
use ch_arm_v5_system_emulato.Base.{
  ℕ, ◌+◌, ◌^◌, ◌<◌, true, false, length, get_or, length-set, get_elem?-lt, ◌≡◌, ◌≢◌, ◌⊎◌, inl, inr,
  refl, sym, ap, ◌∙◌, arith,
}
use ch_arm_v5_system_emulato.Cache.{CacheLine, Cache, get_set, tag_of}
use ch_arm_v5_system_emulato.Cache.Valid.{put-IsCache}
use ch_arm_v5_system_emulato.Cache.Address.{base, parts, address, get_set-lt, tag_of-lt}
use ch_arm_v5_system_emulato.Cache.Lines.{At}
use ch_arm_v5_system_emulato.Mem.Ptable.{PageTable}
use ch_arm_v5_system_emulato.Mem.Bytes.Flat.{byte_at}
use ch_arm_v5_system_emulato.Mem.Access.Coherent.{IsCoherent}
use ch_arm_v5_system_emulato.Mem.Access.Replaced.{Replaced, after, old-At, held, Replaced-Unique}

module _ (cache cache' : Cache) (ptable ptable' : PageTable) (b s c : ℕ)
    (h : IsCoherent cache ptable b s) (r : Replaced cache cache' ptable ptable' b s c) where
  pos : 0 < 2 ^ b
  pos = one-le-pow b 2 (omega arith)

  -- A byte of the missing block is not of the evicted one.
  spared : (o : ℕ) → o < 2 ^ b → byte_at ptable' (c + o) ≡ byte_at ptable (c + o)
  spared o ho =
      let start = address cache b s h.geometry c in
      let al = r.aligned in
      let shift : c + o ≡ base b s (get_set cache c) (tag_of cache c) + o = omega arith in
      let (k, t, _) =
        parts cache b s h.geometry (get_set cache c) (tag_of cache c) o
          (get_set-lt cache b s h.geometry c) ho in
      r.rest (c + o) (λ valid _ same.
        held cache cache' ptable ptable' b s c h r r.i r.old
          (old-At cache cache' ptable ptable' b s c h r) valid (sym same ∙ (rw shift t)))

  -- Lines that stay keep what is clean.
  clean_kept :
      (k j o : ℕ) (l : CacheLine)
      → At cache k j l
      → (k ≢ get_set cache c) ⊎ (j ≢ r.i)
      → l.valid ≡ true
      → l.dirty ≡ false
      → o < 2 ^ b
      → byte_at ptable' (base b s k l.tag + o) ≡ get_or l.bytes o 0
  clean_kept k j o l at other valid clean ho =
      let hk : k < 2 ^ s =
        let lt = get_elem?-lt cache.sets k at.s at.there in let n = h.count in omega arith in
      let (k', t', _) = parts cache b s h.geometry k l.tag o hk ho in
      r.rest (base b s k l.tag + o) (λ old_valid ek et.
        let same_k : k ≡ get_set cache c = sym k' ∙ ek in
        let same_j : j ≡ r.i =
          h.unique k j r.i l.tag l r.old at
            (rw same_k (old-At cache cache' ptable ptable' b s c h r))
            (record { valid = valid; same = refl })
            (record { valid = old_valid; same = sym et ∙ t' }) in
        elim other [ inl ne ↦ ne same_k | inr ne ↦ ne same_j ])
      ∙ h.clean k j o l at valid clean ho

  pub Replaced-IsCoherent : IsCoherent cache' ptable' b s
  Replaced-IsCoherent = record {
    used =
        put-IsCache cache cache' (get_set cache c) r.new_set h.used r.sets r.assoc r.block_size
          r.capacity
          (ap length r.lines
            ∙ length-set r.old_set.lines r.i r.line
            ∙ h.used.lines (get_set cache c) r.old_set r.there);
    geometry = record {
      size = r.block_size ∙ h.geometry.size;
      bits = rw r.block_size h.geometry.bits;
      sets = rw (r.capacity, r.assoc, r.block_size) h.geometry.sets;
      fits = h.geometry.fits;
    };
    count = ap length r.sets ∙ length-set cache.sets (get_set cache c) r.new_set ∙ h.count;
    memory = r.memory;
    unique = Replaced-Unique cache cache' ptable ptable' b s c h r;
    full = λ k j l at. elim (after cache cache' ptable ptable' b s c h r k j l at) [
      | inl (_, _, e) ↦ rw e r.full
      | inr (_, old) ↦ h.full k j l old
    ];
    small = λ k j o l at. elim (after cache cache' ptable ptable' b s c h r k j l at) [
      | inl (_, _, e) ↦ rw e (r.small o)
      | inr (_, old) ↦ h.small k j o l old
    ];
    tags = λ k j l at valid. elim (after cache cache' ptable ptable' b s c h r k j l at) [
      | inl (_, _, e) ↦ rw (e, r.holds.same) (tag_of-lt cache b s h.geometry c r.fits)
      | inr (_, old) ↦ h.tags k j l old valid
    ];
    clean = λ k j o l at valid clean ho.
        elim (after cache cache' ptable ptable' b s c h r k j l at) [
          | inl (ek, _, e) ↦
              let start = address cache b s h.geometry c in
              let al = r.aligned in
              let shift : base b s k l.tag + o ≡ c + o = rw (ek, e, r.holds.same) (omega arith) in
              rw shift (spared o ho)
              ∙ sym (r.block o ho)
              ∙ ap (λ (m : CacheLine). get_or m.bytes o 0) (sym e)
          | inr (other, old) ↦ clean_kept k j o l old other valid clean ho
        ];
  }

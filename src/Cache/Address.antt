-- ===== src/Cache/Address.antt =====
-- How src/cache/cache.c takes an address apart: a set, a tag, and an offset in the block, for
-- numbers of bytes and of sets that are powers of two.
use native.Mathlib.Nat.{
  pow-succ', mod-lt, div-add-mod', div-div-eq-div-mul, mul-add-div_right, mul-add-mod_self_right,
  mod-eq_of_lt, div-eq_of_lt, mul_assoc, mul-le-mul_right, add-mul, div-lt_iff_lt-mul,
}
use ch_arm_v5_system_emulato.Base.{
  ℕ, zero, suc, ◌+◌, ◌-◌, ◌*◌, ◌/◌, ◌%◌, ◌^◌, ◌≤◌, ◌<◌, ◌≡◌, refl, sym, ap, ◌∙◌, arith,
}
use ch_arm_v5_system_emulato.Bits.{bit_and-mask}
use ch_arm_v5_system_emulato.Cache.{Cache, block_bits, set_bits, get_set, tag_of, offset_in}

-- A cache of `2 ^ s` sets, with blocks of `2 ^ b` bytes.
pub record IsGeometry (cache : Cache) (b s : ℕ) : Type 0 where
  pub size : cache.block_size ≡ 2 ^ b
  pub bits : block_bits cache ≡ b
  pub sets : set_bits cache ≡ s
  pub fits : b + s ≤ 64

-- The address of a block.
abbrev pub base : ℕ → ℕ → ℕ → ℕ → ℕ
base b s k tag = (tag * 2 ^ s + k) * 2 ^ b

pow_pos : (n : ℕ) → 0 < 2 ^ n
pow_pos zero = omega arith
pow_pos (suc n) = ground (arith, pow_pos n)

pow_add : (b s : ℕ) → 2 ^ (b + s) ≡ 2 ^ b * 2 ^ s
pow_add zero s = let same : 0 + s ≡ s = omega arith in rw same (omega arith)
pow_add (suc b) s =
    ap (λ t. 2 ^ t) {y = suc (b + s)} (omega arith)
    ∙ pow-succ' 2 (b + s)
    ∙ ap (λ t. 2 * t) (pow_add b s)
    ∙ sym (mul_assoc 2 (2 ^ b) (2 ^ s))
    ∙ ap (λ t. t * 2 ^ s) (sym (pow-succ' 2 b))

-- A pair of numbers of `m` and `n` bits has `m + n` bits.
pair-lt : (m n x y : ℕ) → x < 2 ^ m → y < 2 ^ n → x * 2 ^ n + y < 2 ^ (m + n)
pair-lt m n x y hx hy =
    let room : (x + 1) * 2 ^ n ≤ 2 ^ m * 2 ^ n = mul-le-mul_right (2 ^ n) (omega arith) in
    omega (arith, room, pow_add m n, add-mul x 1 (2 ^ n))

module _ (cache : Cache) (b s : ℕ) (g : IsGeometry cache b s) where
  pub get_set-parts : (a : ℕ) → get_set cache a ≡ a / 2 ^ b % 2 ^ s
  unfolding get_set
  get_set-parts a = rw (g.bits, g.sets) refl

  pub tag_of-parts : (a : ℕ) → tag_of cache a ≡ a / 2 ^ b / 2 ^ s
  tag_of-parts a = rw (g.bits, g.sets, pow_add b s, div-div-eq-div-mul) refl

  pub offset_in-parts : (a : ℕ) → offset_in cache a ≡ a % 2 ^ b
  offset_in-parts a = rw g.size (bit_and-mask a b)

  pub offset_in-lt : (a : ℕ) → offset_in cache a < 2 ^ b
  offset_in-lt a = rw (offset_in-parts a) (mod-lt a (pow_pos b))

  pub get_set-lt : (a : ℕ) → get_set cache a < 2 ^ s
  get_set-lt a = rw (get_set-parts a) (mod-lt (a / 2 ^ b) (pow_pos s))

  -- An address is that of its block and its offset.
  pub address : (a : ℕ) → base b s (get_set cache a) (tag_of cache a) + offset_in cache a ≡ a
  address a =
      rw (get_set-parts a, tag_of-parts a, offset_in-parts a, div-add-mod' (a / 2 ^ b) (2 ^ s))
        (div-add-mod' a (2 ^ b))

  -- The parts of an address in a block.
  pub parts :
      (k tag o : ℕ)
      → k < 2 ^ s
      → o < 2 ^ b
      → (get_set cache (base b s k tag + o) ≡ k)
        × (tag_of cache (base b s k tag + o) ≡ tag)
        × (offset_in cache (base b s k tag + o) ≡ o)
  parts k tag o hk ho =
      let block : (base b s k tag + o) / 2 ^ b ≡ tag * 2 ^ s + k =
        mul-add-div_right (pow_pos b) (tag * 2 ^ s + k) o ∙ omega (arith, div-eq_of_lt ho) in
      (
        get_set-parts (base b s k tag + o)
            ∙ rw block (mul-add-mod_self_right tag (2 ^ s) k ∙ mod-eq_of_lt hk),
        tag_of-parts (base b s k tag + o)
            ∙ rw block (mul-add-div_right (pow_pos s) tag k ∙ omega (arith, div-eq_of_lt hk)),
        offset_in-parts (base b s k tag + o)
            ∙ mul-add-mod_self_right (tag * 2 ^ s + k) (2 ^ b) o
            ∙ mod-eq_of_lt ho,
      )

  -- No address of a block overflows.
  pub base-lt :
      (k tag o : ℕ) → tag < 2 ^ (64 - (b + s)) → k < 2 ^ s → o < 2 ^ b → base b s k tag + o < 2 ^ 64
  base-lt k tag o ht hk ho =
      let width : 64 - (b + s) + s + b ≡ 64 = let f = g.fits in omega arith in
      let lt =
        pair-lt (64 - (b + s) + s) b (tag * 2 ^ s + k) o (pair-lt (64 - (b + s)) s tag k ht hk)
          ho in
      rw width at lt

  pub tag_of-lt : (a : ℕ) → a < 2 ^ 64 → tag_of cache a < 2 ^ (64 - (b + s))
  tag_of-lt a ha =
      let f = g.fits in
      let whole : 2 ^ (64 - (b + s)) * 2 ^ (b + s) ≡ 2 ^ 64 =
        sym (pow_add (64 - (b + s)) (b + s)) ∙ ap (λ t. 2 ^ t) {y = 64} (omega arith) in
      rw (g.bits, g.sets) ((div-lt_iff_lt-mul (pow_pos (b + s))).1 (rw whole ha))

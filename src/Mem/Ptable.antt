-- ===== src/Mem/Ptable.antt =====
-- src/base/ptable.c: the table that materialises a page on its first touch.
-- `ptable` is the list of its chains. A chain is the list of its entries, and a write through
-- `p_data` is `store`, which replaces the byte in the first entry of that page number.
pub mod Laws
use ch_arm_v5_system_emulato.Base.{
  ℕ, zero, suc, ◌+◌, ◌-◌, ◌%◌, ◌^◌, bit_and, bit_xor, List, [], ◌∷◌, Option, none, some, replicate,
  get_or, set, ◌==◌, ltb, if◌then◌else◌, u64, not64, ◌<<<◌, ◌>>>◌,
}

-- `pte_t`, less its link. `p_data` is the page's bytes by offset.
pub record Pte : Type 0 where
  pub p_num : ℕ
  pub p_prot : ℕ
  pub p_data : ℕ → ℕ

abbrev pub PageTable : Type 0
PageTable = List (List Pte)

abbrev pub hashsize : ℕ
hashsize = 128

abbrev pub pagesize : ℕ
pagesize = 4096

abbrev pub empty_ptable : PageTable
empty_ptable = replicate hashsize []

-- `*s`, a `char`, as the `unsigned long` that it is added as: its sign is extended.
pub char_value : ℕ → ℕ
char_value c = if ltb c 128 then c else 2 ^ 64 - 256 + c

-- One round of the loop of `ptable_hash`.
pub hash_round : ℕ → ℕ → ℕ
hash_round h c =
    let h1 = u64 (u64 (h <<< 4) + char_value c) in
    let high = bit_and h1 0xF0000000 in
    let h2 = if high == 0 then h1 else bit_xor h1 (high >>> 24) in bit_and h2 (not64 high)

-- `n` rounds, over the bytes of `s` from the lowest one.
pub hash_loop : ℕ → ℕ → ℕ → ℕ
hash_loop zero h s = h
hash_loop (suc n) h s = hash_loop n (hash_round h (s % 256)) (s >>> 8)

unfoldable pub ptable_hash : ℕ → ℕ
unfolding hash_loop hash_round char_value
ptable_hash pnum = hash_loop 7 0 pnum % hashsize

-- The loop of `get_page` along a chain.
unfoldable pub find_page : ℕ → List Pte → Option Pte
find_page pnum [] = none
find_page pnum (p ∷ chain) = if pnum == p.p_num then some p else find_page pnum chain

unfoldable pub get_page : ℕ → PageTable → Option Pte
get_page pnum ptable = find_page pnum (get_or ptable (ptable_hash pnum) [])

-- `add_page`: the new page, zeroed, goes to the head of its chain.
unfoldable pub add_page : ℕ → ℕ → PageTable → Pte × PageTable
add_page num prot ptable =
    let npage : Pte = record { p_num = num; p_prot = prot; p_data = λ _. 0 } in
    let phash = ptable_hash num in (npage, set ptable phash (npage ∷ get_or ptable phash []))

-- `page->p_data[poff] = byte` on the page numbered `pnum`.
pub store_in : ℕ → ℕ → ℕ → List Pte → List Pte
store_in pnum poff byte [] = []
store_in pnum poff byte (p ∷ chain) =
    if pnum == p.p_num
    then record p { p_data = λ o. if o == poff then byte else p.p_data o } ∷ chain
    else p ∷ store_in pnum poff byte chain

unfoldable pub store : ℕ → ℕ → ℕ → PageTable → PageTable
unfolding store_in
store pnum poff byte ptable =
    let phash = ptable_hash pnum in
    set ptable phash (store_in pnum poff byte (get_or ptable phash []))

-- ===== src/Mem/Ptable/Laws.antt =====
-- What src/base/ptable.c promises: a page that was added is found, the others are as before, and
-- no hash leaves the table.
use ch_arm_v5_system_emulato.Base.{
  ℕ, ◌<◌, Bool, true, false, ◌&&◌, List, [], ◌∷◌, Option, none, some, length, get_or, set,
  length-set, get_or-set_self, get_or-set_ne, ◌==◌, if◌then◌else◌, ◌≡◌, ap, arith,
}
use ch_arm_v5_system_emulato.Mem.Ptable.{Pte, PageTable, hashsize, ptable_hash, find_page, get_page}
use ch_arm_v5_system_emulato.Mem.Ptable.{add_page, store_in, store}

pub ptable_hash-lt : (pnum : ℕ) → ptable_hash pnum < hashsize
unfolding ptable_hash
ptable_hash-lt pnum = omega arith

-- The table has all its chains.
abbrev pub IsTable : PageTable → Type 0
IsTable ptable = length ptable ≡ hashsize

get_or-set_if :
    (ptable : PageTable) (k j : ℕ) (chain : List Pte)
    → k < length ptable
    → get_or (set ptable k chain) j [] ≡ (if k == j then chain else get_or ptable j [])
get_or-set_if ptable k j chain h =
    ground (arith, get_or-set_self ptable k chain [] h, get_or-set_ne ptable k j chain [])

-- After a chain is replaced, a page is looked up in the new chain if it hashes there.
get_page-set :
    (ptable : PageTable) (k pnum : ℕ) (chain : List Pte)
    → IsTable ptable
    → k < hashsize
    → get_page pnum (set ptable k chain)
      ≡ (if k == ptable_hash pnum then find_page pnum chain else get_page pnum ptable)
unfolding get_page
get_page-set ptable k pnum chain size hk =
    ground (arith, get_or-set_if ptable k (ptable_hash pnum) chain)

-- On a page table of 128 chains, after add_page the added number is looked up as the new page and
-- every other number as before.
pub get_page-add_page :
    (ptable : PageTable) (num prot pnum : ℕ)
    → IsTable ptable
    → let (npage, ptable') = add_page num prot ptable in
      get_page pnum ptable' ≡ (if pnum == num then some npage else get_page pnum ptable)
unfolding add_page get_page find_page
get_page-add_page ptable num prot pnum size =
    let chain = get_or ptable (ptable_hash num) [] in
    let npage : Pte = record { p_num = num; p_prot = prot; p_data = λ _. 0 } in
    ground (
      arith,
      ptable_hash-lt num,
      get_or-set_if ptable (ptable_hash num) (ptable_hash pnum) (npage ∷ chain),
      λ (e : pnum ≡ num). ap ptable_hash e,
    )

-- The byte at an offset of a page; an absent page reads as zero, as a fresh one does.
abbrev pub page_byte : Option Pte → ℕ → ℕ
page_byte none poff = 0
page_byte (some p) poff = p.p_data poff

abbrev pub is_some : Option Pte → Bool
is_some none = false
is_some (some p) = true

find_page-store_in :
    (pnum poff byte q o : ℕ) (chain : List Pte)
    → page_byte (find_page q (store_in pnum poff byte chain)) o ≡ (
        if q == pnum && o == poff && is_some (find_page pnum chain)
        then byte
        else page_byte (find_page q chain) o)
unfolding find_page store_in
find_page-store_in pnum poff byte q o [] = ground arith
find_page-store_in pnum poff byte q o (p ∷ chain) =
    ground (arith, find_page-store_in pnum poff byte q o chain)

pub get_page-store :
    (ptable : PageTable) (pnum poff byte q o : ℕ)
    → IsTable ptable
    → page_byte (get_page q (store pnum poff byte ptable)) o ≡ (
        if q == pnum && o == poff && is_some (get_page pnum ptable)
        then byte
        else page_byte (get_page q ptable) o)
unfolding store get_page
get_page-store ptable pnum poff byte q o size =
    let chain = get_or ptable (ptable_hash pnum) [] in
    let chain' = store_in pnum poff byte chain in
    ground (
      arith,
      ptable_hash-lt pnum,
      get_or-set_if ptable (ptable_hash pnum) (ptable_hash q) chain',
      find_page-store_in pnum poff byte q o chain,
      λ (e : q ≡ pnum). ap ptable_hash e,
    )

-- Both operations keep all the chains.
pub add_page-IsTable :
    (ptable : PageTable) (num prot : ℕ) → IsTable ptable → IsTable (add_page num prot ptable).1
unfolding add_page
add_page-IsTable ptable num prot size = omega (arith, length-set ptable (ptable_hash num))

pub store-IsTable :
    (ptable : PageTable) (pnum poff byte : ℕ)
    → IsTable ptable
    → IsTable (store pnum poff byte ptable)
unfolding store
store-IsTable ptable pnum poff byte size = omega (arith, length-set ptable (ptable_hash pnum))

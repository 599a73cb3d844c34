-- ===== src/Machine/Log/Pages.antt =====
-- The loops of `log_machine_state` over the pages of a segment end.
use ch_arm_v5_system_emulato.Base.{
  ℕ, zero, suc, ◌+◌, ◌-◌, ◌*◌, ◌/◌, ◌^◌, ◌<◌, ◌≤◌, Bool, true, false, List, [], ◌∷◌, ◌++◌, none,
  some, ◌>>=◌, get_or, leb, if◌then◌else◌, Option-cases, inl, inr, ◌≡◌, ◌≢◌, refl, ap, sym, ◌∙◌,
  arith,
}
use mathlib.Core.Path.{subst}
use native.Mathlib.Decide.{ℕ_discrete}
use ch_arm_v5_system_emulato.Mem.Ptable.{Pte, PageTable, pagesize, get_page, find_page, ptable_hash}
use ch_arm_v5_system_emulato.Machine.Log.{
  LogLine, log_pages, next_page, page_before, log_words, rounds,
}

-- The pages with numbers that are kept.
count_chain : (ℕ → Bool) → List Pte → ℕ
count_chain keep [] = 0
count_chain keep (page ∷ chain) = (if keep page.p_num then 1 else 0) + count_chain keep chain

unfoldable pub count_pages : (ℕ → Bool) → PageTable → ℕ
unfolding count_chain
count_pages keep [] = 0
count_pages keep (chain ∷ table) = count_chain keep chain + count_pages keep table

-- Fewer are kept where a page that is there is left out.
module _ (keep keep' : ℕ → Bool) (fewer : (n : ℕ) → keep' n ≡ true → keep n ≡ true) where
  count_chain_mono : (chain : List Pte) → count_chain keep' chain ≤ count_chain keep chain
  unfolding count_chain
  count_chain_mono [] = omega arith
  count_chain_mono (page ∷ chain) = ground (arith, count_chain_mono chain, fewer page.p_num)

  count_pages_mono : (table : PageTable) → count_pages keep' table ≤ count_pages keep table
  unfolding count_pages
  count_pages_mono [] = omega arith
  count_pages_mono (chain ∷ table) = omega (arith, count_chain_mono chain, count_pages_mono table)

  count_found :
      (p : ℕ) (chain : List Pte)
      → keep p ≡ true
      → keep' p ≡ false
      → find_page p chain ≢ none
      → count_chain keep' chain < count_chain keep chain
  unfolding count_chain find_page
  count_found p [] kept left h = absurd (h refl)
  count_found p (page ∷ chain) kept left h = elim (ℕ_discrete p page.p_num) [
    | yes e ↦
        ground (arith, count_chain_mono chain, sym (ap keep e) ∙ kept, sym (ap keep' e) ∙ left)
    | no ne ↦ ground (arith, count_found p chain kept left, fewer page.p_num)
  ]

  count_at :
      (p i : ℕ) (table : PageTable)
      → keep p ≡ true
      → keep' p ≡ false
      → find_page p (get_or table i []) ≢ none
      → count_pages keep' table < count_pages keep table
  unfolding count_pages
  count_at p i [] kept left h = absurd (h (unfold find_page in refl))
  count_at p zero (chain ∷ table) kept left h =
      omega (arith, count_found p chain kept left h, count_pages_mono table)
  count_at p (suc i) (chain ∷ table) kept left h =
      omega (arith, count_chain_mono chain, count_at p i table kept left h)

  count_page :
      (p : ℕ) (ptable : PageTable)
      → keep p ≡ true
      → keep' p ≡ false
      → get_page p ptable ≢ none
      → count_pages keep' ptable < count_pages keep ptable
  unfolding get_page
  count_page p ptable kept left h = count_at p (ptable_hash p) ptable kept left h

some-ne-none : (page : Pte) → some page ≢ none
some-ne-none page e = cc

inner :
    (pnum : ℕ) (ptable : PageTable) (page : Pte)
    → pnum < 2 ^ 52
    → get_page (2 ^ 52 - 1) ptable ≡ none
    → get_page pnum ptable ≡ some page
    → pnum < 2 ^ 52 - 1
inner pnum ptable page small top found = elim (ℕ_discrete pnum (2 ^ 52 - 1)) [
  | yes e ↦ absurd (some-ne-none page (sym found ∙ ap (λ p. get_page p ptable) e ∙ top))
  | no ne ↦ omega arith
]

-- From the number of an absent page the loop prints nothing.
pub log_pages-absent :
    (next first : ℕ → ℕ) (fuel : ℕ) (ptable : PageTable) (addr pnum : ℕ)
    → get_page pnum ptable ≡ none
    → log_pages next first (suc fuel) ptable addr pnum ≡ some ([], pnum)
unfolding log_pages
log_pages-absent next first fuel ptable addr pnum absent = rw (log_pages, absent) refl

log_pages-found :
    (next first : ℕ → ℕ) (fuel : ℕ) (ptable : PageTable) (addr pnum last : ℕ) (page : Pte)
    (lines : List LogLine)
    → get_page pnum ptable ≡ some page
    → log_pages next first fuel ptable (next addr) (next addr / pagesize) ≡ some (lines, last)
    → log_pages next first (suc fuel) ptable addr pnum
      ≡ some (log_words addr page.p_data (first addr) (rounds (first addr)) ++ lines, last)
unfolding log_pages
log_pages-found next first fuel ptable addr pnum last page lines found rest =
    rw (log_pages, found, rest, ◌>>=◌) refl

-- What the loop from the start of page `pnum` on leaves.
abbrev pub Ends : (ℕ → ℕ) → (ℕ → ℕ) → ℕ → PageTable → ℕ → ℕ → Type 0
Ends next first fuel ptable addr pnum =
    (lines : List LogLine) × (last : ℕ) × (log_pages next first fuel ptable addr pnum
      ≡ some (lines, last))
    × (get_page last ptable ≡ none)

-- One more page.
one_more :
    (next first : ℕ → ℕ) (fuel : ℕ) (ptable : PageTable) (addr pnum : ℕ) (page : Pte)
    → get_page pnum ptable ≡ some page
    → Ends next first fuel ptable (next addr) (next addr / pagesize)
    → Ends next first (suc fuel) ptable addr pnum
one_more next first fuel ptable addr pnum page found (lines, last, runs, absent) = (
  log_words addr page.p_data (first addr) (rounds (first addr)) ++ lines,
  last,
  log_pages-found next first fuel ptable addr pnum last page lines found runs,
  absent,
)

abbrev pub from_page : ℕ → ℕ → Bool
from_page p n = leb p n

abbrev pub to_page : ℕ → ℕ → Bool
to_page p n = leb n p

-- Where the last page of the address space is not there, the loop upwards from the start of a page
-- ends with more fuel than there are pages from there on, at the number of a page that is absent.
pub log_pages-Ends :
    (first : ℕ → ℕ) (fuel : ℕ) (ptable : PageTable) (pnum : ℕ)
    → pnum < 2 ^ 52
    → get_page (2 ^ 52 - 1) ptable ≡ none
    → count_pages (from_page pnum) ptable < fuel
    → Ends next_page first fuel ptable (pnum * 4096) pnum
log_pages-Ends first zero ptable pnum small top enough = absurd (omega arith)
log_pages-Ends first (suc fuel) ptable pnum small top enough =
    elim (Option-cases (get_page pnum ptable)) [
      | inl absent ↦
          ([], pnum, log_pages-absent next_page first fuel ptable (pnum * 4096) pnum absent, absent)
      | inr (page, found) ↦
          let below : pnum < 2 ^ 52 - 1 = inner pnum ptable page small top found in
          let fewer =
            count_page (from_page pnum) (from_page (pnum + 1)) (λ n h. ground arith) pnum ptable
              (ground arith) (ground arith) (λ e. cc) in
          let rest = log_pages-Ends first fuel ptable (pnum + 1) (omega arith) top (omega arith) in
          let step : next_page (pnum * 4096) ≡ (pnum + 1) * 4096 = omega arith in
          let number : (pnum + 1) * 4096 / 4096 ≡ pnum + 1 = omega arith in
          one_more next_page first fuel ptable (pnum * 4096) pnum page found (
            subst (λ a. Ends next_page first fuel ptable a (a / 4096)) (sym step)
              (subst (Ends next_page first fuel ptable ((pnum + 1) * 4096)) (sym number) rest))
    ]

-- The same downwards, where page 0 is not there.
pub log_pages-Ends_down :
    (first : ℕ → ℕ) (fuel : ℕ) (ptable : PageTable) (pnum : ℕ)
    → pnum < 2 ^ 52
    → get_page 0 ptable ≡ none
    → count_pages (to_page pnum) ptable < fuel
    → Ends page_before first fuel ptable (pnum * 4096) pnum
log_pages-Ends_down first zero ptable pnum small bottom enough = absurd (omega arith)
log_pages-Ends_down first (suc fuel) ptable zero small bottom enough =
    ([], 0, log_pages-absent page_before first fuel ptable (0 * 4096) 0 bottom, bottom)
log_pages-Ends_down first (suc fuel) ptable (suc pnum) small bottom enough =
    elim (Option-cases (get_page (suc pnum) ptable)) [
      | inl absent ↦ (
        [],
        suc pnum,
        log_pages-absent page_before first fuel ptable (suc pnum * 4096) (suc pnum) absent,
        absent,
      )
      | inr (page, found) ↦
          let fewer =
            count_page (to_page (suc pnum)) (to_page pnum) (λ n h. ground arith) (suc pnum) ptable
              (ground arith) (ground arith) (λ e. cc) in
          let rest =
            log_pages-Ends_down first fuel ptable pnum (omega arith) bottom (omega arith) in
          let step : page_before (suc pnum * 4096) ≡ pnum * 4096 = omega arith in
          let number : pnum * 4096 / 4096 ≡ pnum = omega arith in
          one_more page_before first fuel ptable (suc pnum * 4096) (suc pnum) page found (
            subst (λ a. Ends page_before first fuel ptable a (a / 4096)) (sym step)
              (subst (Ends page_before first fuel ptable (pnum * 4096)) (sym number) rest))
    ]

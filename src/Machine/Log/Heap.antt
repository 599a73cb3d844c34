-- ===== src/Machine/Log/Heap.antt =====
-- `log_machine_state` of src/base/machine.c logs nothing of the heap.
use ch_arm_v5_system_emulato.Base.{
  ℕ, suc, ◌-◌, ◌*◌, ◌/◌, ◌^◌, ◌<◌, true, false, List, [], ◌∷◌, ◌++◌, Option, none, some, ◌>>=◌,
  ◌==◌, bit, sub64, pos, ◌-ℤ◌, ◌≡◌, refl, ap, sym, arith,
}
use mathlib.Core.Path.{subst}
use mathlib.Core.List.{append_assoc}
use ch_arm_v5_system_emulato.Cache.{Cache}
use ch_arm_v5_system_emulato.Mem.Ptable.{pagesize, get_page}
use ch_arm_v5_system_emulato.Mem.Bytes.{seg_start, text_seg, data_seg, heap_seg, stack_seg}
use ch_arm_v5_system_emulato.Machine.{Guest}
use ch_arm_v5_system_emulato.Machine.Log.{
  LogLine, after_cycles, program_counter, stack_pointer, condition_flags, status_line, text_segment,
  data_segment, heap, stack, cache_counts, log_registers, log_cache, log_machine_state, next_page,
  page_before, from_start, from_addr, page_start,
}
use ch_arm_v5_system_emulato.Machine.Log.Pages.{
  count_pages, from_page, to_page, Ends, log_pages-Ends, log_pages-Ends_down, log_pages-absent,
}

-- The loops start at the start of a page.
page_start-mul : (addr : ℕ) → page_start addr ≡ page_start addr / 4096 * 4096
page_start-mul addr = omega arith

log_cache-some :
    (cache : Option Cache)
    → ((c : Cache) → cache ≡ some c → (c.delay == 0) ≡ false)
    → (counts : List LogLine) × (log_cache cache ≡ some counts)
unfolding log_cache
log_cache-some none h = ([], refl)
log_cache-some (some c) h =
    let misses = c.miss_count / c.delay in
    (cache_counts (pos c.hit_count -ℤ pos misses) misses ∷ [], rw (h c refl) refl)

-- The loops from the start of a page, with more fuel than there are pages.
pub record IsLogged (g : Guest) (fuel : ℕ) : Type 0 where
  pub text_small : seg_start g.mem.segments text_seg < 2 ^ 64
  pub data_small : seg_start g.mem.segments data_seg < 2 ^ 64
  pub bottom : get_page 0 g.mem.ptable ≡ none
  pub top : get_page (2 ^ 52 - 1) g.mem.ptable ≡ none
  pub enough :
      (p : ℕ)
      → (count_pages (from_page p) g.mem.ptable < fuel)
        × (count_pages (to_page p) g.mem.ptable < fuel)
  pub delay : (c : Cache) → g.mem.cache ≡ some c → (c.delay == 0) ≡ false

page_start-Ends :
    (g : Guest) (fuel addr : ℕ)
    → IsLogged g fuel
    → addr < 2 ^ 64
    → Ends next_page from_start fuel g.mem.ptable (page_start addr) (page_start addr / pagesize)
page_start-Ends g fuel addr ok small =
    let n = page_start addr / 4096 in
    subst (λ a. Ends next_page from_start fuel g.mem.ptable a n) (sym (page_start-mul addr))
      (log_pages-Ends from_start fuel g.mem.ptable n (omega arith) ok.top (ok.enough n).0)

page_start-Ends_down :
    (g : Guest) (fuel addr : ℕ)
    → IsLogged g fuel
    → addr < 2 ^ 64
    → Ends page_before from_addr fuel g.mem.ptable (page_start addr) (page_start addr / pagesize)
page_start-Ends_down g fuel addr ok small =
    let n = page_start addr / 4096 in
    subst (λ a. Ends page_before from_addr fuel g.mem.ptable a n) (sym (page_start-mul addr))
      (log_pages-Ends_down from_addr fuel g.mem.ptable n (omega arith) ok.bottom (ok.enough n).1)

-- The lines before and from the title of the heap on.
split_lem :
    (registers text_lines data_lines rest : List LogLine) (a b c : LogLine)
    → registers ++ (a ∷ (b ∷ (text_lines ++ (c ∷ (data_lines ++ rest)))))
      ≡ (registers ++ (a ∷ (b ∷ (text_lines ++ (c ∷ data_lines))))) ++ rest
split_lem registers text_lines data_lines rest a b c = simp append_assoc refl

-- With a checkpoint file, text and data segments that start below 2^64, a page table without the
-- first and the last page of the address space, fuel above the number of its pages from any page
-- on and up to any page, and a cache, if there is one, whose delay is not 0, log_machine_state
-- runs to its end, and the title of the heap is at once followed by that of the stack: no word of
-- the heap is logged.
pub log_machine_state-heap :
    (g : Guest) (fuel : ℕ)
    → IsLogged g (suc fuel)
    → (before after : List LogLine) × (log_machine_state true (suc fuel) g
        ≡ some (before ++ (heap ∷ (stack ∷ after))))
unfolding log_machine_state
log_machine_state-heap g fuel ok =
    let segments = g.mem.segments in
    let (text_lines, text_last, text_runs, text_end) =
      page_start-Ends g (suc fuel) (seg_start segments text_seg) ok ok.text_small in
    let (data_lines, pnum, data_runs, absent) =
      page_start-Ends g (suc fuel) (seg_start segments data_seg) ok ok.data_small in
    let heap_runs =
      log_pages-absent next_page from_addr fuel g.mem.ptable (seg_start segments heap_seg) pnum
        absent in
    let (stack_lines, stack_last, stack_runs, stack_end) =
      page_start-Ends_down g (suc fuel) (sub64 (seg_start segments stack_seg) pagesize) ok
        (omega arith) in
    let (counts, cache_runs) = log_cache-some g.mem.cache ok.delay in
    let before =
      after_cycles g.num_instr
      ∷ (program_counter g.proc.pc
          ∷ (stack_pointer g.proc.sp
              ∷ (condition_flags (bit g.proc.nzcv 3) (bit g.proc.nzcv 2) (bit g.proc.nzcv 1)
                    (bit g.proc.nzcv 0)
                  ∷ (log_registers 0 31 g.proc.gpr
                      ++ (status_line g.proc.status
                          ∷ (text_segment ∷ (text_lines ++ (data_segment ∷ data_lines)))))))) in
    (
      before,
      stack_lines ++ counts,
      rw (text_runs, ◌>>=◌, data_runs, heap_runs, stack_runs, cache_runs)
          (ap
            (λ lines. some (
              after_cycles g.num_instr
              ∷ (program_counter g.proc.pc
                  ∷ (stack_pointer g.proc.sp
                      ∷ (condition_flags (bit g.proc.nzcv 3) (bit g.proc.nzcv 2) (bit g.proc.nzcv 1)
                            (bit g.proc.nzcv 0)
                          ∷ lines)))))
            (split_lem (log_registers 0 31 g.proc.gpr) text_lines data_lines
              (heap ∷ (stack ∷ (stack_lines ++ counts))) (status_line g.proc.status) text_segment
              data_segment)),
    )

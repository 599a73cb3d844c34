-- ===== src/Machine/Log.antt =====
-- `log_machine_state` of src/base/machine.c, as the lines that it prints to the checkpoint file.
pub mod Pages
pub mod Heap
mod Tests
use ch_arm_v5_system_emulato.Base.{
  ℕ, zero, suc, ◌+◌, ◌-◌, ◌/◌, ◌%◌, ◌^◌, Bool, true, false, List, [], ◌∷◌, ◌++◌, Option, none, some,
  ◌>>=◌, get_or, ◌==◌, if◌then◌else◌, u64, add64, sub64, bit, ℤ, pos, ◌-ℤ◌,
}
use ch_arm_v5_system_emulato.Isa.{Stat}
use ch_arm_v5_system_emulato.Cache.{Cache}
use ch_arm_v5_system_emulato.Mem.Ptable.{Pte, PageTable, pagesize, get_page}
use ch_arm_v5_system_emulato.Mem.Bytes.{seg_start, text_seg, data_seg, heap_seg, stack_seg}
use ch_arm_v5_system_emulato.Mem.Bytes.LittleEndian.{le_value}
use ch_arm_v5_system_emulato.Hw.Regfile.{Proc}
use ch_arm_v5_system_emulato.Machine.{Guest}

pub data LogLine : Type 0 where
  after_cycles : ℕ → LogLine
  program_counter : ℕ → LogLine
  stack_pointer : ℕ → LogLine
  condition_flags : (n z c v : ℕ) → LogLine
  register : (index value : ℕ) → LogLine
  status_line : Stat → LogLine
  text_segment data_segment heap stack : LogLine
  address : (addr value : ℕ) → LogLine
  cache_counts : (hits : ℤ) (misses : ℕ) → LogLine

-- The loop over the registers from index `i`, with `left` to go.
log_registers : ℕ → ℕ → List ℕ → List LogLine
log_registers i zero gpr = []
log_registers i (suc left) gpr = register i (get_or gpr i 0) ∷ log_registers (suc i) left gpr

-- The `for` loop over a page from byte `i`, with `left` rounds to go: the words other than 0.
pub log_words : ℕ → (ℕ → ℕ) → ℕ → ℕ → List LogLine
log_words addr p_data i zero = []
log_words addr p_data i (suc left) =
    let rest = log_words addr p_data (i + 8) left in
    let value = le_value p_data i 8 in
    if value == 0 then rest else address (add64 addr i) value ∷ rest

-- The rounds of the `for` loop from byte `i`.
abbrev pub rounds : ℕ → ℕ
rounds i = (pagesize - i + 7) / 8

-- The `while` loop over consecutive pages, from address `addr` and page number `pnum`, with fuel.
-- `next` is the step of the address, `first` the index at which a page is entered. The last page
-- number is kept, since the loop over the heap begins with it.
unfoldable pub log_pages :
    (next first : ℕ → ℕ) (fuel : ℕ) (ptable : PageTable) (addr pnum : ℕ) → Option (List LogLine × ℕ)
log_pages next first zero ptable addr pnum = none
log_pages next first (suc fuel) ptable addr pnum = elim (get_page pnum ptable) [
  | none ↦ some ([], pnum)
  | some page ↦ do
    (lines, last) ← log_pages next first fuel ptable (next addr) (next addr / pagesize)
    some (log_words addr page.p_data (first addr) (rounds (first addr)) ++ lines, last)
]

abbrev pub next_page : ℕ → ℕ
next_page addr = add64 addr pagesize

abbrev pub page_before : ℕ → ℕ
page_before addr = sub64 addr pagesize

abbrev pub from_start : ℕ → ℕ
from_start addr = 0

abbrev pub from_addr : ℕ → ℕ
from_addr addr = addr % pagesize

-- `addr -= addr % PAGESIZE`.
abbrev pub page_start : ℕ → ℕ
page_start addr = addr - addr % pagesize

-- The last block, with the counters of `cache.c`; `none` is the division by a delay of 0.
log_cache : Option Cache → Option (List LogLine)
log_cache none = some []
log_cache (some cache) =
    if cache.delay == 0
    then none
    else (let misses = cache.miss_count / cache.delay in
        some (cache_counts (pos cache.hit_count -ℤ pos misses) misses ∷ []))

-- `log_machine_state`; `checkpoint` tells whether there is a file. `fuel` is for each of the loops
-- over pages.
unfoldable pub log_machine_state : (checkpoint : Bool) (fuel : ℕ) → Guest → Option (List LogLine)
unfolding log_registers log_words log_cache
log_machine_state checkpoint fuel g =
    if checkpoint
    then (do
      let segments = g.mem.segments
      let ptable = g.mem.ptable
      let text = page_start (seg_start segments text_seg)
      let data_start = page_start (seg_start segments data_seg)
      let stack_page = page_start (sub64 (seg_start segments stack_seg) pagesize)
      (text_lines, _) ← log_pages next_page from_start fuel ptable text (text / pagesize)
      (data_lines, pnum) ←
          log_pages next_page from_start fuel ptable data_start (data_start / pagesize)
      (heap_lines, _) ← log_pages next_page from_addr fuel ptable (seg_start segments heap_seg) pnum
      (stack_lines, _) ←
          log_pages page_before from_addr fuel ptable stack_page (stack_page / pagesize)
      counts ← log_cache g.mem.cache
      some (
          after_cycles g.num_instr
          ∷ (program_counter g.proc.pc
              ∷ (stack_pointer g.proc.sp
                  ∷ (condition_flags (bit g.proc.nzcv 3) (bit g.proc.nzcv 2) (bit g.proc.nzcv 1)
                        (bit g.proc.nzcv 0)
                      ∷ (log_registers 0 31 g.proc.gpr
                          ++ (status_line g.proc.status
                              ∷ (text_segment
                                  ∷ (text_lines
                                      ++ (data_segment
                                          ∷ (data_lines
                                              ++ (heap
                                                  ∷ (heap_lines
                                                      ++ (stack
                                                          ∷ (stack_lines ++ counts)))))))))))))))
    else some []

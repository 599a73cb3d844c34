-- ===== src/Pipe/Forward/Newest.antt =====
-- `forward_reg` of src/pipe/forward.c against the register file after the pending writes.
use ch_arm_v5_system_emulato.Base.{
  ℕ, ◌<◌, ◌≤◌, Bool, true, false, ◌&&◌, not, length, length-set, ◌==◌, if◌then◌else◌, ◌⊎◌, ◌≡◌, ◌≢◌,
  refl, ap, ◌∙◌, arith,
}
use ch_arm_v5_system_emulato.Isa.{Stat, stat_aok, ◌is_stat◌}
use ch_arm_v5_system_emulato.Hw.Regfile.{Proc, regfile_read, regfile_write}
use ch_arm_v5_system_emulato.Hw.Regfile.Laws.{regfile_read-regfile_write}
use ch_arm_v5_system_emulato.Pipe.Forward.{Pending, forward_one, forward_reg}

-- The call of `regfile_write` in src/base/proc.c for an instruction with this status.
abbrev pub retired : ℕ → ℕ → Bool → Stat → Proc → Proc
retired dst val w_enable status proc =
    regfile_write dst val (w_enable && status is_stat stat_aok) proc

-- The three older instructions retired, with their statuses in execute, memory and writeback: the
-- oldest first, each with the value that is forwarded from it.
abbrev pub all_retired : Pending → (x m w : Stat) → Proc → Proc
all_retired p x m w proc = retired p.x_dst p.x_val_ex p.x_w_enable x (
    retired p.m_dst (if p.m_wval_sel then p.m_val_mem else p.m_val_ex) p.m_w_enable m
      (retired p.w_dst (if p.w_wval_sel then p.w_val_mem else p.w_val_ex) p.w_w_enable w proc))

-- A write to a register that exists, by an instruction without an error if it is enabled.
abbrev pub IsSound : ℕ → Bool → Stat → Type 0
IsSound dst w_enable status = (dst ≤ 32) × ((w_enable ≡ true) → status ≡ stat_aok)

abbrev pub AllSound : Pending → (x m w : Stat) → Type 0
AllSound p x m w =
    IsSound p.x_dst p.x_w_enable x × IsSound p.m_dst p.m_w_enable m × IsSound p.w_dst p.w_w_enable w

-- A general register, or the stack pointer or XZR if no older instruction has it as destination.
abbrev pub IsSource : Pending → ℕ → Type 0
IsSource p src = (src < 31) ⊎ ((src ≤ 32) × (p.x_dst ≢ src) × (p.m_dst ≢ src) × (p.w_dst ≢ src))

abbrev after : ℕ → ℕ → Bool → ℕ → ℕ → ℕ
after dst val w_enable src old = if w_enable && dst == src && not (dst == 0x1F) then val else old

size-retired :
    (dst val : ℕ) (w_enable : Bool) (status : Stat) (proc : Proc)
    → length (retired dst val w_enable status proc).gpr ≡ length proc.gpr
unfolding regfile_write
size-retired dst val w_enable status proc = ground (arith, length-set proc.gpr dst val)

-- Register 31 in the register file.
after_sp : ℕ → ℕ → Bool → ℕ → ℕ
after_sp dst val w_enable old = if w_enable && dst == 31 then val else old

sp-retired :
    (dst val : ℕ) (w_enable : Bool) (status : Stat) (proc : Proc)
    → IsSound dst w_enable status
    → length proc.gpr ≡ 31
    → regfile_read (retired dst val w_enable status proc) 31
      ≡ after_sp dst val w_enable (regfile_read proc 31)
unfolding after_sp
sp-retired dst val false status proc (hd, ok) size = unfold regfile_write in refl
sp-retired dst val true status proc (hd, ok) size =
    rw (ok refl, regfile_read-regfile_write proc dst 31 val true size hd (omega arith))
      (ground arith)

-- With 31 general registers, and three older instructions with destinations up to 32 that have no
-- error if they write a register, forward_reg leaves a first operand that was read from register
-- 31 at the old stack pointer, whatever the second source is, while after the three calls of
-- regfile_write register 31 reads as the value of the newest of the three that writes it, and as
-- the old one only if none does.
pub forward_reg-sp :
    (p : Pending) (proc : Proc) (x m w : Stat) (src2 val_b : ℕ)
    → length proc.gpr ≡ 31
    → AllSound p x m w
    → ((forward_reg p 31 src2 (regfile_read proc 31) val_b).0 ≡ proc.sp)
      × (regfile_read (all_retired p x m w proc) 31 ≡ (
          if p.x_w_enable && p.x_dst == 31
          then p.x_val_ex
          else if p.m_w_enable && p.m_dst == 31
          then (if p.m_wval_sel then p.m_val_mem else p.m_val_ex)
          else if p.w_w_enable && p.w_dst == 31
          then (if p.w_wval_sel then p.w_val_mem else p.w_val_ex)
          else proc.sp))
unfolding forward_reg forward_one after_sp regfile_read
forward_reg-sp p proc x m w src2 val_b size (sx, sm, sw) =
    let m_val = if p.m_wval_sel then p.m_val_mem else p.m_val_ex in
    let w_val = if p.w_wval_sel then p.w_val_mem else p.w_val_ex in
    let p1 = retired p.w_dst w_val p.w_w_enable w proc in
    let p2 = retired p.m_dst m_val p.m_w_enable m p1 in
    let size1 : length p1.gpr ≡ 31 = size-retired p.w_dst w_val p.w_w_enable w proc ∙ size in
    let size2 : length p2.gpr ≡ 31 = size-retired p.m_dst m_val p.m_w_enable m p1 ∙ size1 in
    (
      ground arith,
      sp-retired p.x_dst p.x_val_ex p.x_w_enable x p2 sx size2
          ∙ ap (after_sp p.x_dst p.x_val_ex p.x_w_enable) (
              sp-retired p.m_dst m_val p.m_w_enable m p1 sm size1
              ∙ ap (after_sp p.m_dst m_val p.m_w_enable)
                  (sp-retired p.w_dst w_val p.w_w_enable w proc sw size)),
    )

-- ===== src/Pipe/Hazard.antt =====
-- src/pipe/hazard_control.c: which stages load, stall or bubble at the end of a cycle.
pub mod Control
use ch_arm_v5_system_emulato.Base.{ℕ, Bool, true, false, ◌&&◌, ◌||◌, not, ◌==◌, if◌then◌else◌}
use ch_arm_v5_system_emulato.Isa.{
  Opcode, op_nop, op_hlt, op_movz, op_adrp, op_b, op_bl, op_ldur, op_ret, op_br, op_blr, op_cbz,
  op_cbnz, op_b_cond, ◌is◌, Stat, stat_adr, stat_ins, ◌is_stat◌, ProcStage, s_fetch, s_decode,
  s_execute, s_memory, s_wback, s_update_pc, s_error, PipeCtlStat, p_load, p_error, p_bubble,
  p_stall, MemStatus, ready, in_flight, mem_error,
}

-- The `ctl` fields of the five pipeline registers.
pub record Ctls : Type 0 where
  pub f : PipeCtlStat
  pub d : PipeCtlStat
  pub x : PipeCtlStat
  pub m : PipeCtlStat
  pub w : PipeCtlStat

-- The body of `pipe_control_stage` on the register that its switch selects.
pub control : Bool → Bool → PipeCtlStat → PipeCtlStat
control bubble stall p_error = p_error
control bubble stall ctl =
    if bubble && stall
    then p_error
    else if bubble
    then p_bubble
    else if stall
    then p_stall
    else p_load

-- `pipe_control_stage`; a stage without a register gets a message only.
unfoldable pub pipe_control_stage : ProcStage → Bool → Bool → Ctls → Ctls
unfolding control
pipe_control_stage s_fetch bubble stall c = record c { f = control bubble stall c.f }
pipe_control_stage s_decode bubble stall c = record c { d = control bubble stall c.d }
pipe_control_stage s_execute bubble stall c = record c { x = control bubble stall c.x }
pipe_control_stage s_memory bubble stall c = record c { m = control bubble stall c.m }
pipe_control_stage s_wback bubble stall c = record c { w = control bubble stall c.w }
pipe_control_stage s_update_pc bubble stall c = c
pipe_control_stage s_error bubble stall c = c

unfoldable pub check_ret_hazard : Opcode → Bool
check_ret_hazard d_opcode = d_opcode is op_ret

unfoldable pub check_br_hazard : Opcode → Bool
check_br_hazard d_opcode = d_opcode is op_br || d_opcode is op_blr

unfoldable pub check_cb_hazard : Opcode → Bool → Bool
check_cb_hazard x_opcode x_condval = (x_opcode is op_cbz || x_opcode is op_cbnz) && not x_condval

unfoldable pub check_mispred_branch_hazard : Opcode → Bool → Bool
check_mispred_branch_hazard x_opcode x_condval = x_opcode is op_b_cond && not x_condval

unfoldable pub check_load_use_hazard : Opcode → ℕ → ℕ → Opcode → ℕ → Bool
check_load_use_hazard d_opcode d_src1 d_src2 x_opcode x_dst =
    if d_opcode is op_nop
      || d_opcode is op_hlt
      || d_opcode is op_movz
      || d_opcode is op_adrp
      || d_opcode is op_b
      || d_opcode is op_bl
    then false
    else x_opcode is op_ldur && (d_src1 == x_dst || d_src2 == x_dst)

-- `error`.
unfoldable pub error : Stat → Bool
error status = status is_stat stat_adr || status is_stat stat_ins

-- What `handle_hazards` reads: its parameters, `dmem_status`, and three statuses.
pub record HazardIn : Type 0 where
  pub d_opcode : Opcode
  pub d_src1 : ℕ
  pub d_src2 : ℕ
  pub x_opcode : Opcode
  pub x_dst : ℕ
  pub x_condval : Bool
  pub dmem_status : MemStatus
  pub m_in_status : Stat
  pub w_in_status : Stat
  pub w_out_status : Stat

abbrev pub is_in_flight : MemStatus → Bool
is_in_flight ready = false
is_in_flight in_flight = true
is_in_flight mem_error = false

-- The five calls that open the function.
unfoldable pub control_default : Ctls → Ctls
unfolding pipe_control_stage
control_default c = pipe_control_stage s_wback false false (
    pipe_control_stage s_memory false false (
      pipe_control_stage s_execute false false
        (pipe_control_stage s_decode false false (pipe_control_stage s_fetch false false c))))

-- The chain of `if`s on the data cache and the hazards.
unfoldable pub control_hazards : HazardIn → Ctls → Ctls
unfolding pipe_control_stage
control_hazards i c =
    if is_in_flight i.dmem_status
    then pipe_control_stage s_wback true false (
        pipe_control_stage s_memory false true (
          pipe_control_stage s_execute false true
            (pipe_control_stage s_decode false true (pipe_control_stage s_fetch false true c))))
    else if check_load_use_hazard i.d_opcode i.d_src1 i.d_src2 i.x_opcode i.x_dst
    then pipe_control_stage s_execute true false
        (pipe_control_stage s_decode false true (pipe_control_stage s_fetch false true c))
    else if check_mispred_branch_hazard i.x_opcode i.x_condval
    then pipe_control_stage s_execute true false (pipe_control_stage s_decode true false c)
    else if check_ret_hazard i.d_opcode
    then pipe_control_stage s_decode true false c
    else if check_cb_hazard i.x_opcode i.x_condval
    then pipe_control_stage s_execute true false (pipe_control_stage s_decode true false c)
    else if check_br_hazard i.d_opcode
    then pipe_control_stage s_decode true false (pipe_control_stage s_fetch false true c)
    else c

-- The last three blocks, one for each stage that an error has reached.
unfoldable pub control_errors : HazardIn → Ctls → Ctls
unfolding pipe_control_stage
control_errors i c =
    let stalled : Ctls → Ctls = λ e.
      pipe_control_stage s_execute false true
        (pipe_control_stage s_decode false true (pipe_control_stage s_fetch false true e)) in
    let c1 =
      if error i.m_in_status
      then pipe_control_stage s_wback false false
          (pipe_control_stage s_memory false false (stalled c))
      else c in
    let c2 =
      if error i.w_in_status
      then pipe_control_stage s_wback false false
          (pipe_control_stage s_memory false true (stalled c1))
      else c1 in
    if error i.w_out_status
    then pipe_control_stage s_wback false true (pipe_control_stage s_memory false true (stalled c2))
    else c2

-- What `handle_hazards` writes: the control fields, `deassert_flags` and `guest.proc->status`.
pub record HazardOut : Type 0 where
  pub ctls : Ctls
  pub deassert_flags : Bool
  pub status : Stat

unfoldable pub handle_hazards : HazardIn → HazardOut → HazardOut
unfolding control_default control_hazards control_errors
handle_hazards i out = record {
  ctls = control_errors i (control_hazards i (control_default out.ctls));
  deassert_flags =
      error i.w_out_status || error i.w_in_status || error i.m_in_status || out.deassert_flags;
  status = if error i.w_out_status then i.w_out_status else out.status;
}

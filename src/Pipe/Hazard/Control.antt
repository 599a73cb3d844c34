-- ===== src/Pipe/Hazard/Control.antt =====
-- What `handle_hazards` of src/pipe/hazard_control.c decides, written as one table by priority,
-- where the code overwrites its earlier decisions.
use ch_arm_v5_system_emulato.Base.{Bool, false, ◌||◌, if◌then◌else◌, ◌≡◌, ◌≢◌, refl, arith}
use mathlib.Core.Path.{subst}
use ch_arm_v5_system_emulato.Base.{◌∙◌, ap, sym}
use ch_arm_v5_system_emulato.Isa.{PipeCtlStat, p_load, p_error, p_bubble, p_stall}
use ch_arm_v5_system_emulato.Pipe.Hazard.{
  Ctls, HazardIn, HazardOut, control, control_default, control_hazards, control_errors,
  handle_hazards, is_in_flight, check_load_use_hazard, check_mispred_branch_hazard,
  check_ret_hazard, check_cb_hazard, check_br_hazard, error,
}

-- No register is in `P_ERROR`.
pub record NoError (c : Ctls) : Type 0 where
  pub f : c.f ≢ p_error
  pub d : c.d ≢ p_error
  pub x : c.x ≢ p_error
  pub m : c.m ≢ p_error
  pub w : c.w ≢ p_error

abbrev ctls : PipeCtlStat → PipeCtlStat → PipeCtlStat → PipeCtlStat → PipeCtlStat → Ctls
ctls f d x m w = record { f = f; d = d; x = x; m = m; w = w }

-- The decision by priority: the error that is furthest down the pipeline, the data cache, a load
-- that is used at once, a branch that was predicted wrongly, a return, an indirect branch.
abbrev pub decision : HazardIn → Ctls
decision i =
    if error i.w_out_status
    then ctls p_stall p_stall p_stall p_stall p_stall
    else if error i.w_in_status
    then ctls p_stall p_stall p_stall p_stall p_load
    else if error i.m_in_status
    then ctls p_stall p_stall p_stall p_load p_load
    else if is_in_flight i.dmem_status
    then ctls p_stall p_stall p_stall p_stall p_bubble
    else if check_load_use_hazard i.d_opcode i.d_src1 i.d_src2 i.x_opcode i.x_dst
    then ctls p_stall p_stall p_bubble p_load p_load
    else if check_mispred_branch_hazard i.x_opcode i.x_condval
    then ctls p_load p_bubble p_bubble p_load p_load
    else if check_ret_hazard i.d_opcode
    then ctls p_load p_bubble p_load p_load p_load
    else if check_cb_hazard i.x_opcode i.x_condval
    then ctls p_load p_bubble p_bubble p_load p_load
    else if check_br_hazard i.d_opcode
    then ctls p_stall p_bubble p_load p_load p_load
    else ctls p_load p_load p_load p_load p_load

control-load : (c : PipeCtlStat) → c ≢ p_error → control false false c ≡ p_load
unfolding control
control-load p_error h = absurd (h refl)
control-load _ h = refl

control_default-NoError :
    (c : Ctls) → NoError c → control_default c ≡ ctls p_load p_load p_load p_load p_load
unfolding control_default
control_default-NoError c ok = ground (
  arith,
  control-load c.f ok.f,
  control-load c.d ok.d,
  control-load c.x ok.x,
  control-load c.m ok.m,
  control-load c.w ok.w,
)

-- After the opening calls the later ones amount to the table.
hazards-decision :
    (i : HazardIn)
    → control_errors i (control_hazards i (ctls p_load p_load p_load p_load p_load)) ≡ decision i
unfolding control_errors control_hazards
hazards-decision i = ground arith

decision-NoError : (i : HazardIn) → NoError (decision i)
decision-NoError i = record {
  f = ground arith;
  d = ground arith;
  x = ground arith;
  m = ground arith;
  w = ground arith;
}

raised : (m w o d : Bool) → (o || w || m || d) ≡ (m || w || o || d)
raised m w o d = ground arith

-- If no pipeline register is in P_ERROR, handle_hazards sets the five control fields as a table by
-- priority says, leaves none in P_ERROR, raises deassert_flags exactly when a stage from memory on
-- has an error, and copies the status of an error in W_out.
pub handle_hazards-decision :
    (i : HazardIn) (out : HazardOut)
    → NoError out.ctls
    → let out' = handle_hazards i out in
      (out'.ctls ≡ decision i)
      × NoError out'.ctls
      × (out'.deassert_flags ≡ (
          error i.m_in_status || error i.w_in_status || error i.w_out_status || out.deassert_flags))
      × (out'.status ≡ (if error i.w_out_status then i.w_out_status else out.status))
unfolding handle_hazards
handle_hazards-decision i out ok =
    let decided : (handle_hazards i out).ctls ≡ decision i =
      ap (λ c. control_errors i (control_hazards i c)) (control_default-NoError out.ctls ok)
      ∙ hazards-decision i in
    (
      decided,
      subst NoError (sym decided) (decision-NoError i),
      raised (error i.m_in_status) (error i.w_in_status) (error i.w_out_status) out.deassert_flags,
      refl,
    )

-- ===== src/Arch/Flow/Stages.antt =====
-- What the stages do in a cycle in which only data-processing instructions are in the pipeline.
use ch_arm_v5_system_emulato.Base.{
  ℕ, Bool, true, false, some, ◌==◌, ◌>>=◌, if◌then◌else◌, add64, ◌≡◌, refl, ◌∙◌, arith,
}
use ch_arm_v5_system_emulato.Isa.{Opcode, stat_hlt, ◌is_stat◌, Stat}
use ch_arm_v5_system_emulato.Hw.Ports.{imem, dmem}
use ch_arm_v5_system_emulato.Mem.Access.{MemSystem}
use ch_arm_v5_system_emulato.Pipe.Regs.{XInstr, MInstr, WInstr, DInstr, zero_m_sigs}
use ch_arm_v5_system_emulato.Pipe.Fetch.{fetch_instr, select_pc, predict_pc, fetch_status}
use ch_arm_v5_system_emulato.Pipe.Memory.{memory_instr}
use ch_arm_v5_system_emulato.Pipe.Writeback.{wback_instr}
use ch_arm_v5_system_emulato.Pipe.Hazard.{
  Ctls, HazardIn, HazardOut, error, handle_hazards, is_in_flight, check_load_use_hazard,
  check_mispred_branch_hazard, check_ret_hazard, check_cb_hazard, check_br_hazard,
}
use ch_arm_v5_system_emulato.Isa.{p_load}
use ch_arm_v5_system_emulato.Pipe.Hazard.Control.{NoError, decision, handle_hazards-decision}
use ch_arm_v5_system_emulato.Arch.Encoding.{opcode_of}
use ch_arm_v5_system_emulato.Arch.Travel.{fetched}
use ch_arm_v5_system_emulato.Arch.Flow.{plain}

select_pc-plain :
    (pred_pc : ℕ) (d_opcode : Opcode) (val_a d_seq_succ : ℕ) (m_opcode : Opcode) (m_cond_val : Bool)
    (seq_succ : ℕ)
    → plain d_opcode ≡ true
    → plain m_opcode ≡ true
    → select_pc pred_pc d_opcode val_a d_seq_succ m_opcode m_cond_val seq_succ ≡ pred_pc
unfolding select_pc
select_pc-plain pred_pc d_opcode val_a d_seq_succ m_opcode m_cond_val seq_succ hd hm = ground arith

predict_pc-plain :
    (pc x : ℕ) (op : Opcode) (f_pc : ℕ)
    → plain op ≡ true
    → (pc == 0) ≡ false
    → predict_pc pc x op f_pc 0 ≡ (add64 pc 4, add64 pc 4)
unfolding predict_pc
predict_pc-plain pc x op f_pc h here = ground arith

pub fetch_plain :
    (pc x : ℕ) (status : Stat) (x_out : XInstr) (m_out : MInstr) (out : DInstr) (f_pc : ℕ)
    (mem mem' : MemSystem)
    → plain x_out.op ≡ true
    → plain m_out.op ≡ true
    → plain (opcode_of x) ≡ true
    → (pc == 0) ≡ false
    → (status is_stat stat_hlt) ≡ false
    → imem pc mem ≡ some (x, false, mem')
    → fetch_instr pc status x_out m_out out f_pc mem
      ≡ some (record {
        out = fetched x pc;
        status = fetch_status false (opcode_of x);
        f_pc = add64 pc 4;
        mem = mem';
      })
unfolding fetch_instr
fetch_plain pc x status x_out m_out out f_pc mem mem' hx hm hop here going read =
    rw
      (
        select_pc-plain pc x_out.op x_out.val_a x_out.multipurpose_val m_out.op m_out.cond_holds
            m_out.multipurpose_val hx hm,
        here,
        going,
        if◌then◌else◌,
        read,
        ◌>>=◌,
        predict_pc-plain pc x (opcode_of x) f_pc hop here,
      )
      refl

-- The register that the memory stage writes for an instruction that does not use the memory.
abbrev pub passed_on : MInstr → WInstr → WInstr
passed_on m out = record {
  op = m.op;
  print_op = m.print_op;
  w_sigs = m.w_sigs;
  dst = m.dst;
  val_ex = m.val_ex;
  val_mem = out.val_mem;
  status = m.status;
}

pub memory_plain :
    (m : MInstr) (out : WInstr) (m_pc : ℕ) (mem : MemSystem)
    → m.m_sigs ≡ zero_m_sigs
    → error m.status ≡ false
    → memory_instr m out m_pc mem ≡ some (record { out = passed_on m out; m_pc = m_pc; mem = mem })
unfolding memory_instr dmem error
memory_plain m out m_pc mem quiet ok = rw (quiet, ok) refl

pub wback_plain :
    (w : WInstr)
    → w.w_sigs.dst_sel ≡ false
    → w.w_sigs.wval_sel ≡ false
    → wback_instr w ≡ (w, w.val_ex)
unfolding wback_instr
wback_plain w hd hv = rw (hd, hv) refl

-- The hazards: every register loads.
abbrev pub all_load : Ctls
all_load = record { f = p_load; d = p_load; x = p_load; m = p_load; w = p_load }

module _ (i : HazardIn) (hd : plain i.d_opcode ≡ true) (hx : plain i.x_opcode ≡ true)
    (quiet : is_in_flight i.dmem_status ≡ false) (m_ok : error i.m_in_status ≡ false)
    (w_ok : error i.w_in_status ≡ false) (out_ok : error i.w_out_status ≡ false) where
  no_hazard :
      (check_load_use_hazard i.d_opcode i.d_src1 i.d_src2 i.x_opcode i.x_dst ≡ false)
      × (check_mispred_branch_hazard i.x_opcode i.x_condval ≡ false)
      × (check_ret_hazard i.d_opcode ≡ false)
      × (check_cb_hazard i.x_opcode i.x_condval ≡ false)
      × (check_br_hazard i.d_opcode ≡ false)
  unfolding check_load_use_hazard check_mispred_branch_hazard check_ret_hazard check_cb_hazard
      check_br_hazard
  no_hazard = (ground arith, ground arith, ground arith, ground arith, ground arith)

  decision-all_load : decision i ≡ all_load
  decision-all_load = ground (arith, no_hazard)

  pub hazards_plain :
      (out : HazardOut)
      → NoError out.ctls
      → out.deassert_flags ≡ false
      → handle_hazards i out
        ≡ record { ctls = all_load; deassert_flags = false; status = out.status }
  hazards_plain out fine flags =
      let (decided, ok, raised, status) = handle_hazards-decision i out fine in
      ground (arith, decided ∙ decision-all_load)

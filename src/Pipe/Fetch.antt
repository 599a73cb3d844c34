-- ===== src/Pipe/Fetch.antt =====
-- src/pipe/instr_Fetch.c: the next PC, its prediction, and the fetch stage.
pub mod Pc
use ch_arm_v5_system_emulato.Base.{
  ℕ, ◌+◌, ◌/◌, ◌^◌, Bool, false, ◌&&◌, ◌||◌, not, Option, some, ◌>>=◌, ◌==◌, if◌then◌else◌, bit_and,
  u64, add64, ◌<<<◌, ◌>>>◌,
}
use ch_arm_v5_system_emulato.Isa.{
  Opcode, op_adds_rr, op_cmn_rr, op_subs_rr, op_cmp_rr, op_ands_rr, op_tst_rr, op_ubfm, op_lsl_ri,
  op_lsr_ri, op_ubfmv, op_lsl_rr, op_lsr_rr, op_csel, op_csinc, op_csneg, op_csinv, op_b, op_bl,
  op_b_cond, op_cbz, op_cbnz, op_ret, op_br, op_blr, op_hlt, op_error, ◌is◌, Format, format_error,
  Stat, stat_hlt, stat_aok, stat_ins, ◌is_stat◌,
}
use ch_arm_v5_system_emulato.Isa.Bitfield.{bitfield_u32, bitfield_s64}
use ch_arm_v5_system_emulato.Isa.Tables.{itable, ftable}
use ch_arm_v5_system_emulato.Mem.Bytes.{ret_from_main_addr}
use ch_arm_v5_system_emulato.Mem.Access.{MemSystem}
use ch_arm_v5_system_emulato.Hw.Ports.{imem}
use ch_arm_v5_system_emulato.Pipe.Regs.{DInstr, XInstr, MInstr}

-- `select_PC`.
unfoldable pub select_pc :
    (pred_pc : ℕ) (d_opcode : Opcode) (val_a d_seq_succ : ℕ) (m_opcode : Opcode) (m_cond_val : Bool)
    (seq_succ : ℕ)
    → ℕ
select_pc pred_pc d_opcode val_a d_seq_succ m_opcode m_cond_val seq_succ =
    if d_opcode is op_ret && val_a == ret_from_main_addr
    then 0
    else if d_opcode is op_ret
    then val_a
    else if d_opcode is op_br || d_opcode is op_blr
    then val_a
    else if (m_opcode is op_cbz || m_opcode is op_cbnz) && not m_cond_val
    then seq_succ
    else if m_opcode is op_b_cond && not m_cond_val
    then seq_succ
    else pred_pc

-- `predict_PC`: `*predicted_PC` and `*seq_succ`, of which the last two arguments are the values before
-- the call; at PC 0 it writes neither.
unfoldable pub predict_pc :
    (current_pc insnbits : ℕ) (op : Opcode) (predicted_pc seq_succ : ℕ) → ℕ × ℕ
predict_pc current_pc insnbits op predicted_pc seq_succ =
    if current_pc == 0
    then (predicted_pc, seq_succ)
    else (let next = add64 current_pc 4 in
        if op is op_b || op is op_bl
        then (add64 current_pc (u64 (bitfield_s64 insnbits 0 26 <<< 2)), next)
        else if op is op_b_cond
        then (add64 current_pc (u64 (bitfield_s64 insnbits 5 19 <<< 2)), next)
        else if op is op_cbz || op is op_cbnz
        then (add64 current_pc (u64 (bitfield_s64 insnbits 5 19 <<< 2)), next)
        else (next, next))

-- `fix_instr_aliases`.
unfoldable pub fix_instr_aliases : ℕ → Opcode → Opcode
fix_instr_aliases insnbits op_adds_rr =
    if bit_and insnbits 0x1F == 31 then op_cmn_rr else op_adds_rr
fix_instr_aliases insnbits op_subs_rr =
    if bit_and insnbits 0x1F == 31 then op_cmp_rr else op_subs_rr
fix_instr_aliases insnbits op_ands_rr =
    if bit_and insnbits 0x1F == 31 then op_tst_rr else op_ands_rr
fix_instr_aliases insnbits op_ubfm =
    if bit_and (insnbits >>> 10) 0x3F == 63 then op_lsr_ri else op_lsl_ri
fix_instr_aliases insnbits op_ubfmv =
    if bit_and (insnbits >>> 10) 0x1 == 0 then op_lsl_rr else op_lsr_rr
fix_instr_aliases insnbits op_csel = if bitfield_u32 insnbits 10 1 == 0 then op_csel else op_csinc
fix_instr_aliases insnbits op_csneg = if bitfield_u32 insnbits 10 1 == 0 then op_csinv else op_csneg
fix_instr_aliases insnbits op = op

-- What `fetch_instr` leaves behind: `*out` (`D_in`), the status that it gives to `F_out` and to
-- `F_in`, the wire `F_PC`, and the memory.
pub record FetchOut : Type 0 where
  pub out : DInstr
  pub status : Stat
  pub f_pc : ℕ
  pub mem : MemSystem

-- The status that the last block of `fetch_instr` computes.
abbrev pub fetch_status : Bool → Opcode → Stat
fetch_status imem_err op =
    if imem_err || op is op_error then stat_ins else if op is op_hlt then stat_hlt else stat_aok

-- `fetch_instr`. `out` and `f_pc` are `D_in` and `F_PC` before the call. The local `seq_succ` has no
-- value before predict_PC, which always gives it one here, since the PC is not 0: the model starts it
-- with 0.
unfoldable pub fetch_instr :
    (pred_pc : ℕ) (f_in_status : Stat) (x_out : XInstr) (m_out : MInstr) (out : DInstr) (f_pc : ℕ)
    → MemSystem
    → Option FetchOut
fetch_instr pred_pc f_in_status x_out m_out out f_pc mem =
    let current_pc =
      select_pc pred_pc x_out.op x_out.val_a x_out.multipurpose_val m_out.op m_out.cond_holds
        m_out.multipurpose_val in
    if current_pc == 0 || f_in_status is_stat stat_hlt
    then some (record {
      out = record out {
        insnbits = 0xD4400000;
        op = op_hlt;
        print_op = op_hlt;
        format = ftable op_hlt;
        status = fetch_status false op_hlt;
      };
      status = fetch_status false op_hlt;
      f_pc = f_pc;
      mem = mem;
    })
    else do
      (insnbits, imem_err, mem') ← imem current_pc mem
      let print_op = itable (insnbits >>> 21)
      let op = fix_instr_aliases insnbits print_op
      let (predicted_pc, seq_succ) = predict_pc current_pc insnbits op f_pc 0
      some (record {
        out = record {
          insnbits = insnbits;
          op = op;
          print_op = print_op;
          format = if print_op is op_error then format_error else ftable print_op;
          multipurpose_val = seq_succ;
          status = fetch_status imem_err op;
        };
        status = fetch_status imem_err op;
        f_pc = predicted_pc;
        mem = mem';
      })

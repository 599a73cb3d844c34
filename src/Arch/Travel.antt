-- ===== src/Arch/Travel.antt =====
-- An auxiliary chain for the proofs of Arch/Flow: one instruction from the execute stage of src/pipe
-- on, with no other in the pipeline, and with the flags of the registers as those that its condition
-- reads; and what the fetch of an instruction word passes on.
use ch_arm_v5_system_emulato.Base.{
  ℕ, Bool, true, false, ◌&&◌, List, Option, some, ◌>>=◌, if◌then◌else◌, add64, ◌>>>◌, ◌≡◌, refl,
}
use ch_arm_v5_system_emulato.Isa.{op_blr, ◌is◌, ◌is_stat◌, stat_aok}
use ch_arm_v5_system_emulato.Isa.Tables.{itable}
use ch_arm_v5_system_emulato.Hw.Adder.{FullAdder}
use ch_arm_v5_system_emulato.Hw.Alu.{alu}
use ch_arm_v5_system_emulato.Hw.Regfile.{Proc, regfile_write}
use ch_arm_v5_system_emulato.Hw.Ports.{dmem}
use ch_arm_v5_system_emulato.Mem.Access.{MemSystem}
use ch_arm_v5_system_emulato.Pipe.Regs.{DInstr, XInstr, zero_m, zero_w}
use ch_arm_v5_system_emulato.Pipe.Fetch.{fetch_status}
use ch_arm_v5_system_emulato.Pipe.Execute.{operand_a, operand_b, execute_instr}
use ch_arm_v5_system_emulato.Pipe.Memory.{memory_instr}
use ch_arm_v5_system_emulato.Pipe.Writeback.{wback_instr}
use ch_arm_v5_system_emulato.Arch.Encoding.{format_of, opcode_of}

-- From the execute stage on: the registers and the memory.
unfoldable pub retire : Proc → List FullAdder → MemSystem → XInstr → Option (Proc × MemSystem)
retire proc rca mem x = do
  let e = execute_instr x zero_m proc.nzcv rca
  w ← memory_instr e.out zero_w 0 mem
  let (w', wval) = wback_instr w.out
  let flags = if e.x_set_flags then e.x_nzcvval else proc.nzcv
  some (
    regfile_write w'.dst wval (w'.w_sigs.w_enable && w'.status is_stat stat_aok)
        (record proc { nzcv = flags }),
    w.mem,
  )

-- An instruction word that was fetched without an error.
abbrev pub fetched : ℕ → ℕ → DInstr
fetched x pc = record {
  insnbits = x;
  op = opcode_of x;
  print_op = itable (x >>> 21);
  format = format_of (itable (x >>> 21));
  multipurpose_val = add64 pc 4;
  status = fetch_status false (opcode_of x);
}

-- The registers and flags after an operation of the ALU.
abbrev pub done : Proc → List FullAdder → XInstr → Proc
done proc rca x =
    let (out, flags) =
      alu (operand_a x) (operand_b x) x.val_hw proc.nzcv x.alu_op x.x_sigs.set_flags x.cond 0
        proc.nzcv rca in
    regfile_write x.dst out.val_e x.w_sigs.w_enable
      (record proc { nzcv = if x.x_sigs.set_flags then flags else proc.nzcv })

-- An instruction with the signals of one that does not use the memory.
abbrev pub off_memory : XInstr → Bool → XInstr
off_memory x w_enable = record x {
  m_sigs = record { dmem_read = false; dmem_write = false };
  w_sigs = record { dst_sel = false; wval_sel = false; w_enable = w_enable };
  status = stat_aok;
}

pub retire-done :
    (proc : Proc) (rca : List FullAdder) (mem : MemSystem) (x : XInstr) (w_enable : Bool)
    → (x.op is op_blr) ≡ false
    → let x' = off_memory x w_enable in retire proc rca mem x' ≡ some (done proc rca x', mem)
unfolding retire execute_instr memory_instr dmem wback_instr
retire-done proc rca mem x true no_blr = rw no_blr refl
retire-done proc rca mem x false no_blr = rw no_blr refl

-- ===== src/Hw/Ports.antt =====
-- `imem` and `dmem` of src/base/hw_elts.c: the memory ports of the pipeline.
use ch_arm_v5_system_emulato.Base.{
  ℕ, Bool, false, ◌&&◌, ◌||◌, not, Option, some, ◌>>=◌, ◌==◌, if◌then◌else◌, bit_and, u32,
}
use ch_arm_v5_system_emulato.Mem.Bytes.{addr_in_imem, addr_in_dmem, is_special_addr}
use ch_arm_v5_system_emulato.Mem.Access.{MemSystem, mem_read, mem_write}

-- `imem`: `*imem_rval`, `*imem_err` and the memory after the call. The read is made whether or not
-- the address is an error.
unfoldable pub imem : ℕ → MemSystem → Option (ℕ × Bool × MemSystem)
imem imem_addr mem = do
  let imem_err = not (addr_in_imem mem.segments imem_addr) || not (bit_and imem_addr 0x3 == 0)
  (value, mem') ← mem_read imem_addr 4 mem
  some (u32 value, imem_err, mem')

-- `dmem`: `*dmem_rval`, `*dmem_err` and the memory after the call; both outputs keep their values
-- where there is no access. An access is made whether or not the address is an error.
unfoldable pub dmem :
    (dmem_addr dmem_wval : ℕ) (dmem_read dmem_write : Bool) (dmem_rval : ℕ) (dmem_err : Bool)
    → MemSystem
    → Option (ℕ × Bool × MemSystem)
dmem dmem_addr dmem_wval dmem_read dmem_write dmem_rval dmem_err mem =
    if not dmem_read && not dmem_write then some (dmem_rval, dmem_err, mem) else do
      let misplaced = not (addr_in_dmem mem.segments dmem_addr) || not (bit_and dmem_addr 0x7 == 0)
      let err = if is_special_addr dmem_addr then false else misplaced
      (value, mem1) ← (if dmem_read then mem_read dmem_addr 8 mem else some (dmem_rval, mem))
      mem2 ←
          (if dmem_write
            then (do (code, mem3) ← mem_write dmem_addr dmem_wval 8 mem1; some mem3)
            else some mem1)
      some (value, err, mem2)

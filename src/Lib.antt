-- ===== src/Lib.antt =====
-- A model of the chArm-v5 system emulator: a five-stage pipelined processor for a subset of the
-- Arm v8 instruction set, over a paged memory and a set-associative data cache. The program is
-- modelled as the EC build compiles it, with the conditional instructions of the enumerations.
--
-- Bits: laws of bits on numbers. Base: shared names, tests, lists with native indices, words and
-- integers. A `uint64_t` is a number whose wrap-around is written out as `% 2 ^ 64`.
--
-- Isa: the enumerations of include/pipe/instr.h and include/pipe/instr_pipeline.h, the bit
-- fields (Isa/Bitfield) and the opcode and format tables (Isa/Tables) of src/pipe/instr_base.c.
--
-- Hw: src/base/hw_elts.c. Hw/Adder is `init_rca` and `ripple_carry_add` over the array `rca`, a
-- list of 64 cells; Hw/Alu is `alu` and `cond_holds`; Hw/Regfile the register file; Hw/Ports
-- `imem` and `dmem`.
--
-- Mem: Mem/Ptable is src/base/ptable.c, a list of chains of pages; Mem/Bytes and Mem/Access are
-- the byte and the word layer of src/base/mem.c, with the loop that waits for the data cache.
--
-- Mem/Access/Coherent says when the data cache and the page table fit together, and what byte is
-- seen at an address; Blocks, Evict, Replaced, Rewritten, Fill, Hit, Word and Store follow a
-- block and a word through them (Replaced/Coherence that they still fit), Loop and Missing the
-- loop over the bytes of an access. Read and Write are the two cached accesses, Delay the
-- repeated read of the memory stage, Refinement rows of accesses against a flat memory, and
-- Initial the cache that `create_cache` gives.
--
-- Cache: src/cache/cache.c. A line, a set and a cache are records, and a pointer to a line is
-- its index. Cache/Lru is the replacement matrix. Cache/Valid says what a cache in use is,
-- Cache/Address how an address is taken apart, and Cache/Lines which line holds it.
--
-- Pipe: src/pipe. One module for each stage, the forwarding and the hazard control; each stage
-- is a function from its input register and the wires it reads to its output register and the
-- wires it writes.
--
-- Machine and Proc: `machine_t` with the global wires (src/base/machine.c), and the cycle and
-- loop of `runElf` (src/base/proc.c). A cycle runs the stages, forwards, decides on hazards,
-- updates the flags, the registers and the PC, and latches. The stages run in the order of the
-- plain build, or in an order that is given, as in the RANDOM build, whose table
-- src/base/stage_ordering.c is Proc/Order/Table.
--
-- Machine/Log is `log_machine_state` of src/base/machine.c, as a list of the lines that it prints;
-- its loops over pages have fuel, and Machine/Log/Pages shows when it is enough.
--
-- Elf: `loadElf` of src/base/elf_loader.c, from the headers and the bytes of the mapped file to
-- the page table and the segment addresses; Elf/Segment is one segment, Elf/Image all of them.
--
-- Config: the `int` arithmetic and the bit count of the checks in src/cache/csim.c and
-- src/base/handle_args.c. Csim is the cache simulator of src/cache/csim.c, Args the command line
-- of src/base/handle_args.c, and Boot `main` of src/base/archsim.c, which joins Args, Machine,
-- Elf and Proc.
--
-- Arch: the data-processing instructions as the Arm architecture describes them, with their
-- encodings and what they do to registers and flags, against which src/pipe and src/base/proc.c
-- are judged. Arch/Encoding is what src/pipe/instr_Fetch.c makes of an encoding; Registers,
-- Immediates and Moves take each class from decode on
-- through stages without other instructions (Travel), as lemmas for what follows. Arch/Flow is the
-- pipeline filled with such instructions: the abstract state is the registers with NZCV once those
-- in the pipeline have come out (Drain, Latch), beside the wire X_nzcvval, whose flags the
-- conditions read; Cycle is what a round of `runElf` does, and Arch/Program a whole list of
-- instructions from the start of a run.
--
-- Fuel: `run_elf` has `suc cycle_max` rounds, and Proc/Loop shows that they are enough; the loop
-- of `_log` has 64, the width of its argument.
--
-- Parameters: the options that `getopt` finds with the numbers that `atoi` and `atol` read, the
-- mapped ELF file and its headers, the buffers that `fgets` fills and what `sscanf` reads of
-- them, the numbers that `scanf` reads, and what the uninitialised register numbers of
-- `decode_instr` hold.
--
-- The instructions of Arch are ADD and SUB (immediate), ADDS, SUBS, ANDS, ORR, EOR, ORN, LSLV,
-- LSRV, LSL, LSR, ASR (immediate), MOVZ, MOVK, CSEL, CSINC, CSINV and CSNEG, with the aliases
-- among them, on 64-bit registers; loads, stores, branches and ADRP are in the stages only.
--
-- Not modelled: printing and messages, other than that log, the threads of the PARALLEL
-- build, an access of the data cache that crosses blocks in the theorems on coherence, and the
-- test bench.
mod Base
pub mod Bits
pub mod Isa
pub mod Hw
pub mod Mem
pub mod Cache
pub mod Pipe
pub mod Machine
pub mod Elf
pub mod Config
pub mod Csim
pub mod Args
pub mod Boot
pub mod Arch
pub mod Proc

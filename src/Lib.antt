-- ===== src/Lib.antt =====
-- pcomp: a 64-bit virtual machine with an interpreter and two JIT compilers.
--
-- The program. `vm_run` (vm/vm.cc) rounds the requested memory size up to a power of two,
-- creates an `ExecutionEngine` (vm/exe.h) and calls its `execute`: `init_execution`,
-- `load_program`, `exec_program`, `fini_execution`. `Interpreter` (vm/int.cc) runs the program's
-- bytes from one memory that code, data and stack share. `x86_64JIT` (vm/x64.cc) and
-- `AArch64JIT` (vm/a64.cc), on the base class `JIT` (vm/jit.cc), first translate all of them to
-- machine code. The bytes are described in doc/vm.md and are written by tools/asm.py.
--
-- The files.
-- - Common: shared names, comparisons, lists and integers over the native numbers, and equations of
--   functions on a finite range by evaluation (Common/Tables), and bit operations (Common/Bits).
-- - Word: the fixed-width integers of the C++ code, as numbers below 2^64 with the wrap-around
--   written out, and their signed readings.
-- - Exe: vm/exe.h: opcodes, registers, masks and `instr`, `access_mode`, `reg_dst`, `reg_src`; the
--   table of handlers that vm/int.cc and vm/x64.cc index with them.
-- - Memory: bytes by address, `as_hword` and `as_dword`, little endian.
-- - Interpreter: vm/int.cc. State has `mem` and `reg` and the outcomes of a handler, Handlers has one
--   function for each label of `exec_program` (`exec_load` is `_load`, `cmp_body` is `_cmp`; the
--   labels that differ in an operation or a flag only share a function), Run has the dispatch loop
--   and the life cycle, Invariant the well-formedness of a state.
-- - Spec: doc/vm.md as an independent description: instructions as a data type, their encoding, and
--   what each does. Spec/Refines has the theorem that the interpreter implements it.
-- - Behaviour: what follows for programs: comparisons with jumps, the stack, system calls, runs and
--   where they end.
-- - Engine: vm/vm.cc with the constructors of vm/exe.cc and vm/jit.cc.
-- - Jit: vm/jit.h and vm/jit.cc with the deferral macro and the loops that vm/x64.cc and vm/a64.cc
--   share; Jit/Syscall has `JIT::sys_enter`, Jit/Branch what the translation of a branch may change,
--   Jit/Patch the order in which both write the system call stub, Jit/Memory the memory that
--   `init_execution` maps and `fini_execution` unmaps, with `mmap` and `munmap` as parameters.
-- - Trace: `trace_instr_decode` of vm/exe.cc, as the pieces that are put on `cout`. Decode has the
--   fields of `idd` that the interpreter's labels and the JITs' cases fill in, and both places that
--   the step of a jump at address 0 traces; Record has `va2idd` and the lines that `dump_code` shows of
--   it, Syntax the line that an instruction should have, after doc/vm.md.
-- - X64: vm/x64.h and vm/x64.cc. Regs has the registers, Encode one function for each `emit_` that
--   writes one instruction, Jit the translation of each VM instruction, Stub the fixed sequences
--   around the program and `jit`. Decoder, Immediate and Branches also say how an x86-64 processor
--   reads the bytes, after its manual. Slots, Progress and Loop are about the deferral of branches,
--   Registers about the map of registers. Machine is a processor that executes the emitted
--   instructions from memory, Translate the code written for an encoded instruction, Relation how the
--   VM's state is held by the processor, Simulation has the runs of the code of one instruction, and
--   Placed where a program's translation leaves the code, and the runs of the whole program.
-- - A64: vm/a64.h and vm/a64.cc. Bits has the fixed bits, Words one function
--   for each `emit_` that writes one word, Immediate `emit_mov_reg_imm`, Jit the translation of each
--   VM instruction, Stub the fixed sequences around the program and `jit`; Decoder, Forms and Branches
--   say how an AArch64 processor reads the words.
-- - Tests: small machines, and the theorems at concrete inputs.
--
-- Modelling. An access of an instruction outside the memory and a jump through the null handler
-- are an outcome of their own (`fault`, `undefined` for a run), since nothing in the code checks
-- for them. The loading of a program larger than the memory writes behind it, as the code does.
-- `ABORT` is the outcome `abort`. What is displayed is a list of integers. The signed additions
-- and subtractions of the interpreter wrap around, as compiled code does. Tracing in debug mode
-- has no effect on the state: it is a function of its own, Trace, beside the steps.
--
-- The processor of X64/Machine has the instructions that are emitted, the flags that the conditional
-- jumps read, and a memory where every address can be accessed: a fault of the host has no
-- counterpart. VM addresses are host addresses there, as in the JIT.
--
-- Fuel. The interpreter's loop need not end: `run` takes fuel and tells that it is used up. The
-- size adjustment gets 62 rounds. The translation loop gets as many rounds as the program has bytes,
-- since each round moves on by at least one.
--
-- Not modelled: the instruction cache and the write protection of code, the dump through objdump
-- (only the trace lines in it are), the printing of registers in debug mode, and the Python tools.
pub mod Common
pub mod Word
pub mod Exe
pub mod Memory
pub mod Interpreter
pub mod Spec
pub mod Engine
pub mod Behaviour
pub mod Jit
pub mod X64
pub mod A64
pub mod Tests
pub mod Trace

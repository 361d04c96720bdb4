-- ===== src/X64.antt =====
-- vm/x64.h and vm/x64.cc: the x86-64 JIT. `Regs` has the registers and prefixes, `Encode` the
-- instructions that are emitted, `Jit` the translation of a program, `Stub` the sequences around it;
-- the other children prove.
pub mod Machine
pub mod Translate
pub mod Relation
pub mod Simulation
pub mod Placed
pub mod Regs
pub mod Registers
pub mod Encode
pub mod Decoder
pub mod Forms
pub mod Immediate
pub mod Branches
pub mod Jit
pub mod Stub
pub mod Slots
pub mod Progress
pub mod Loop

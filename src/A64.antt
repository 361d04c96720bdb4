-- ===== src/A64.antt =====
-- vm/a64.h and vm/a64.cc: the instruction words of the AArch64 JIT (`Bits`, `Words`), the loading
-- of a 64-bit value (`Immediate`), the translation (`Jit`) and the sequences around it (`Stub`).
pub mod Bits
pub mod Words
pub mod Decoder
pub mod Immediate
pub mod Forms
pub mod Jit
pub mod Slots
pub mod Stub
pub mod Branches

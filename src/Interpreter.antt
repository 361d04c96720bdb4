-- ===== src/Interpreter.antt =====
-- vm/int.h and vm/int.cc: the interpreter. `State` has the machine and its accesses, `Handlers` one
-- function per label of `exec_program`, `Run` the dispatch loop and the engine's life cycle; the
-- other children prove.
pub mod State
pub mod Handlers
pub mod Run
pub mod Invariant

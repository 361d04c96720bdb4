-- ===== src/Behaviour.antt =====
-- What pieces of VM code do when the interpreter runs them: comparisons with the jumps behind them,
-- the stack, subroutine calls, system calls, and whole runs.
pub mod Steps
pub mod Compare
pub mod Stack
pub mod Syscall
pub mod SysEnter
pub mod Runs
pub mod Stops
pub mod Ended

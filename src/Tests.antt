-- ===== src/Tests.antt =====
-- Test data and the theorems at concrete inputs.
mod Machine
mod Memory
mod Trace
mod Interpreter
mod Engine
mod X64
mod Translation
mod A64
mod Simulation
mod Programs

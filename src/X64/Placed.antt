-- ===== src/X64/Placed.antt =====
-- Where the translation of a whole program leaves the code of each instruction.
pub mod Code
pub mod FirstPass
pub mod Rounds
pub mod Padding
pub mod SecondPass
pub mod Bound
pub mod Program
pub mod At
pub mod Nops
pub mod Lockstep
pub mod Step
pub mod Jumps
pub mod Runs

-- ===== src/X64/Simulation.antt =====
-- Runs of translated code, one instruction of the VM at a time.
pub mod Binary
pub mod Memory
pub mod Translated
pub mod Code
pub mod Jump
pub mod Branch
pub mod Refines
pub mod StackPointer
use pcomp.Common.{ℕ, zero, suc, ◌+◌, ◌^◌, ◌<◌, ◌≡◌, refl, List, Option, some, arith}
use pcomp.Word.{u64}
use pcomp.Exe.{flags}
use pcomp.Interpreter.State.{Vm}
use pcomp.Spec.{BinOp, Instruction}
use pcomp.X64.Machine.{Cpu, CpuInstr, decode, exec, cpu_step, cpu_steps}
use pcomp.X64.Relation.{IsRelated, FlagsAgree}

-- Some number of the processor's instructions leads to a state with the property.
abbrev pub Reaches : (Cpu → Type 0) → Cpu → Type 0
Reaches P x = (n : ℕ) × (x' : Cpu) × (cpu_steps n x ≡ some x') × P x'

pub Reaches-here : (P : Cpu → Type 0) (x : Cpu) → P x → Reaches P x
unfolding cpu_steps
Reaches-here P x h = (0, x, refl, h)

pub Reaches-step :
    (P : Cpu → Type 0) (x : Cpu) (i : CpuInstr) (n : ℕ)
    → decode x.mem x.rip ≡ some (i, n)
    → x.rip + n < 2 ^ 64
    → Reaches P (exec i (x.rip + n) x)
    → Reaches P x
unfolding cpu_steps cpu_step
Reaches-step P x i n e room (k, x', run, h) =
    let same : u64 (x.rip + n) ≡ x.rip + n = omega arith in (suc k, x', rw (e, same) run, h)

-- The flags of both sides are those from before.
abbrev pub FlagsKept : Vm → Cpu → Vm → Cpu → Type 0
FlagsKept s x s' x' =
    (s'.reg flags ≡ s.reg flags) × (x'.zf ≡ x.zf) × (x'.sf ≡ x.sf) × (x'.of ≡ x.of)

-- What an instruction leaves of the flags. Arithmetic leaves those of the processor changed and
-- `FLAGS` as it was.
abbrev pub BinaryFlags : BinOp → Vm → Cpu → Vm → Cpu → Type 0
BinaryFlags BinOp.mov s x s' x' = FlagsKept s x s' x'
BinaryFlags BinOp.cmp s x s' x' = FlagsAgree s' x'
BinaryFlags _ s x s' x' = Unit

abbrev pub FlagsAfter : Instruction → Vm → Cpu → Vm → Cpu → Type 0
FlagsAfter (Instruction.binary op rd src) = BinaryFlags op
FlagsAfter _ = FlagsKept

-- The processor has done what led from `s` to `s'`, and goes on at `end`.
abbrev pub IsSimulated : Instruction → ℕ → Vm → Cpu → Vm → Cpu → Type 0
IsSimulated i end s x s' x' = IsRelated s' x' × (x'.rip ≡ end) × FlagsAfter i s x s' x'

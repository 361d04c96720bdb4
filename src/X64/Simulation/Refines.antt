-- ===== src/X64/Simulation/Refines.antt =====
-- The translated code of one instruction does what a step of the interpreter does.
use pcomp.Common.{ℕ, ◌+◌, ◌^◌, ◌≤◌, ◌<◌, ◌≡◌, sym, ◌∙◌, length, some}
use pcomp.Memory.{HasBytes}
use pcomp.Exe.{pc}
use pcomp.Interpreter.State.{Vm, next}
use pcomp.Interpreter.Run.{step}
use pcomp.Interpreter.Invariant.{IsVm}
use pcomp.Spec.{Instruction, encode, IsInstruction}
use pcomp.Spec.Refines.{IsPlaced, step-perform}
use pcomp.Jit.{Jit, Program}
use pcomp.X64.Jit.{jit_vm_instruction}
use pcomp.X64.Machine.{Cpu}
use pcomp.X64.Relation.{IsRelated}
use pcomp.X64.Simulation.{Reaches, IsSimulated}
use pcomp.X64.Simulation.Code.{translated, IsLoaded, Translates-Reaches}
use pcomp.X64.Simulation.Jump.{HasJumped}
use pcomp.X64.Simulation.Branch.{Leads, FlagsMean, branch-IsBranchCode}
use pcomp.X64.Simulation.Translated.{IsStraight, straight-IsStraightCode}

pub IsStraight-IsPlaced : (i : Instruction) (at : ℕ) → IsStraight i → IsPlaced i at
IsStraight-IsPlaced (Instruction.jmp a) at t = absurd t
IsStraight-IsPlaced _ at t = tt

-- Every instruction but the branches, CALL and RET, where it stands whole in the program: the JIT translates it and
-- moves on behind it, and the processor, started at the code in a state that holds the VM's
-- registers and memory, runs to the code's end in a state that holds what the step of the
-- interpreter left. CMP leaves flags by which every condition is the VM's, and what is not
-- arithmetic leaves the flags. The immediate is not one that is loaded wrong, and the operand of
-- PUSH and POP is not SP.
pub straight-simulates :
    (p : Program) (j : Jit) (i : Instruction) (s s' : Vm) (x : Cpu) {size : ℕ}
    → IsInstruction i
    → IsStraight i
    → HasBytes p.bytes j.jpos.vm (encode i)
    → j.jpos.vm + length (encode i) ≤ p.prog_size
    → IsVm size s
    → size < 2 ^ 64
    → HasBytes s.mem (s.reg pc) (encode i)
    → s.reg pc + length (encode i) ≤ size
    → step s ≡ next s'
    → IsRelated s x
    → x.rip ≡ j.jpos.arch
    → IsLoaded x.mem j (translated p j)
    → (translated p j).jpos.arch < 2 ^ 64
    → (jit_vm_instruction p j ≡ some (translated p j))
      × ((translated p j).jpos.vm ≡ j.jpos.vm + length (encode i))
      × Reaches (IsSimulated i (translated p j).jpos.arch s x s') x
straight-simulates p j i s s' x k t b room h small c fits e rel at loaded end =
    Translates-Reaches p j i (λ s x. Unit) (IsSimulated i)
      (straight-IsStraightCode p j i k t b room) s s' x (s.reg pc) h rel tt at loaded end
      (sym (step-perform i s h small k (IsStraight-IsPlaced i (s.reg pc) t) c fits) ∙ e)

-- A conditional jump, jump, call or return that stands whole in the program and, but for the
-- return, has code for its target at `va` (within 2 GiB for a conditional jump, and an address that
-- is loaded right for the others): the JIT translates it, and the processor, started at the code in
-- a state that holds the VM's, with flags that mean what FLAGS means for a conditional jump, goes on
-- at `va` exactly where the interpreter jumps and behind the code where it does not. A return goes
-- on at the address that the stack holds. Registers and memory are those that the interpreter's step
-- left, but that a call has pushed the address behind its own code.
pub branch-simulates :
    (p : Program) (j : Jit) (i : Instruction) (va : ℕ) (s s' : Vm) (x : Cpu) {size : ℕ}
    → IsInstruction i
    → Leads i j va
    → HasBytes p.bytes j.jpos.vm (encode i)
    → j.jpos.vm + length (encode i) ≤ p.prog_size
    → IsVm size s
    → size < 2 ^ 64
    → IsPlaced i (s.reg pc)
    → HasBytes s.mem (s.reg pc) (encode i)
    → s.reg pc + length (encode i) ≤ size
    → step s ≡ next s'
    → IsRelated s x
    → FlagsMean i s x
    → x.rip ≡ j.jpos.arch
    → IsLoaded x.mem j (translated p j)
    → (translated p j).jpos.arch < 2 ^ 64
    → (jit_vm_instruction p j ≡ some (translated p j))
      × ((translated p j).jpos.vm ≡ j.jpos.vm + length (encode i))
      × Reaches (HasJumped i va (translated p j).jpos.arch s x s') x
branch-simulates p j i va s s' x k t b room h small placed c fits e rel agree at loaded end =
    Translates-Reaches p j i (FlagsMean i) (HasJumped i va)
      (branch-IsBranchCode p j i va k t b room) s s' x (s.reg pc) h rel agree at loaded end
      (sym (step-perform i s h small k placed c fits) ∙ e)

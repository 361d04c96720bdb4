-- ===== src/Spec/Refines.antt =====
-- The interpreter refines the description of the instructions.
use pcomp.Common.{ℕ, ◌+◌, ◌≤◌, ◌<◌, ◌^◌, ◌≡◌, ◌≢◌, length}
use pcomp.Exe.{pc}
use pcomp.Interpreter.State.{Vm}
use pcomp.Interpreter.Run.{step}
use pcomp.Interpreter.Invariant.{IsVm}
use pcomp.Spec.{Instruction, Source, encode, IsInstruction, perform, HasBytes}
use pcomp.Spec.Binary.{step-binary_reg, step-binary_imm}
use pcomp.Spec.Transfer.{step-load, step-store, step-not, step-push, step-pop}
use pcomp.Spec.Control.{step-call, step-ret, step-jmp, step-jmp_if}

-- A jump that stands at address 0 enters a system call instead.
abbrev pub IsPlaced : Instruction → ℕ → Type 0
IsPlaced (Instruction.jmp a) at = at ≢ 0
IsPlaced _ at = Unit

-- Where an encoded instruction with legal operands stands whole in memory at the program counter
-- (a plain jump not at address 0), one step of the interpreter has the outcome that the description
-- of that instruction gives: the same registers, memory and output, or the same fault.
pub step-perform :
    (i : Instruction) (s : Vm) {size : ℕ}
    → IsVm size s
    → size < 2 ^ 64
    → IsInstruction i
    → IsPlaced i (s.reg pc)
    → HasBytes s.mem (s.reg pc) (encode i)
    → s.reg pc + length (encode i) ≤ size
    → step s ≡ perform i (s.reg pc) s
unfolding perform
step-perform (Instruction.load rd rs idx) s h small k p b room =
    step-load s h small rd rs idx k b room
step-perform (Instruction.store rd idx rs) s h small k p b room =
    step-store s h small rd idx rs k b room
step-perform (Instruction.binary op rd (Source.reg rs)) s h small k p b room =
    step-binary_reg s h small op rd rs k.0 k.1 b room
step-perform (Instruction.binary op rd (Source.imm v)) s h small k p b room =
    step-binary_imm s h small op rd v k.0 k.1 b room
step-perform (Instruction.not rd) s h small k p b room = step-not s h small rd k b room
step-perform (Instruction.pop rd) s h small k p b room = step-pop s h small rd k b room
step-perform (Instruction.push rs) s h small k p b room = step-push s h small rs k b room
step-perform (Instruction.call a) s h small k p b room = step-call s h small a k b room
step-perform (Instruction.jmp a) s h small k p b room = step-jmp s h small a k p b room
step-perform (Instruction.jmp_if c a) s h small k p b room = step-jmp_if s h small c a k b room
step-perform Instruction.ret s h small k p b room = step-ret s h small b room

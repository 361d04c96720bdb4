-- ===== src/X64/Placed/Runs.antt =====
-- Whole runs: the interpreter, and the processor in step with it.
use pcomp.Common.{
  ℕ, ◌+◌, ◌-◌, ◌*◌, ◌^◌, ◌≤◌, ◌<◌, ◌≡◌, ◌≢◌, sym, ap, ◌∙◌, Bool, List, [], length, Option, some,
  none, arith, inl, inr, some-injective, All,
}
use mathlib.Core.Path.{subst}
use pcomp.Memory.{Bytes, HasBytes}
use pcomp.Exe.{pc}
use pcomp.Interpreter.State.{Vm, next}
use pcomp.Interpreter.Run.{step}
use pcomp.Interpreter.Invariant.{IsVm}
use pcomp.Interpreter.Invariant.Steps.{step-IsSafe}
use pcomp.Spec.{Instruction, encode}
use pcomp.Jit.{Jit, Program, no_addr}
use pcomp.X64.Machine.{Cpu}
use pcomp.X64.Simulation.{Reaches, Reaches-here}
use pcomp.X64.Simulation.Translated.{IsStraight}
use pcomp.X64.Placed.Code.{target_in}
use pcomp.X64.Jit.{jit_program}
use pcomp.X64.Placed.Bound.{HasTarget}
use pcomp.X64.Placed.Program.{IsTarget, jit_program-IsFinished}
use pcomp.X64.Placed.FirstPass.{IsMapBelow, IsLaid, encode-positive}
use pcomp.X64.Placed.SecondPass.{IsFinished}
use pcomp.X64.Placed.At.{StandsAt, IsAt, Slot, StandsAt-Slot}
use pcomp.X64.Placed.Nops.{Reaches-bind}
use pcomp.X64.Placed.Lockstep.{
  flags_after, FlagsIf, CanRun, IsIntact, Run, done, more, Run-IsIntact, InStep,
}
use pcomp.X64.Placed.Step.{straight-InStep}
use pcomp.X64.Placed.Jumps.{reachable, jmp-InStep, jmp_if-InStep}

-- Straight code has no target that could be unknown.
straight-known : (i : Instruction) (m : ℕ → Option ℕ) → IsStraight i → target_in i m ≢ no_addr
straight-known (Instruction.call a) m t = absurd t
straight-known (Instruction.jmp a) m t = absurd t
straight-known (Instruction.jmp_if c a) m t = absurd t
straight-known _ m t = λ q. omega arith

-- The place in the code is that of the instruction.
IsAt-Slot :
    (p : Program) (m : ℕ → Option ℕ) (t : Bytes) (end b rip : ℕ) (i : Instruction)
    (l : Slot p m t end b i)
    → IsAt p m end b rip
    → rip ≡ l.d
IsAt-Slot p m t end b rip i l (inl e) = some-injective (sym e ∙ l.mapped)
IsAt-Slot p m t end b rip i l (inr (last, _)) = absurd (omega (arith, l.room, encode-positive i))

module _ (p : Program) (is : List Instruction) (j : Jit) (a c : ℕ) (laid : IsLaid p a is)
    (finished : IsFinished j.va2aa j.text a c is j.jpos.arch) (low : 2 ^ 32 ≤ c)
    (high : j.jpos.arch < 0xffff_ffff_0000_0000) (span : j.jpos.arch ≤ c + 2 ^ 31 - 13)
    (after_entry : 0 < a) where
  step-InStep :
      (i : Instruction) (f : Bool) (s s' : Vm) (x : Cpu) {size : ℕ}
      → StandsAt a is (s.reg pc) i
      → CanRun a is i f
      → IsVm size s
      → size < 2 ^ 64
      → p.prog_size ≤ size
      → IsIntact j.text c j.jpos.arch s
      → IsIntact j.text c j.jpos.arch s'
      → HasBytes s.mem (s.reg pc) (encode i)
      → step s ≡ next s'
      → InStep p j.va2aa j.jpos.arch f s x
      → Reaches (InStep p j.va2aa j.jpos.arch (flags_after i f) s') x
  step-InStep (Instruction.call b) f s s' x st can h small fits intact intact' bytes e inst =
      absurd can
  step-InStep Instruction.ret f s s' x st can h small fits intact intact' bytes e inst = absurd can
  step-InStep (Instruction.jmp b) f s s' x st can h small fits intact intact' bytes e
        (at, rel, agree) =
      let (d, mapped, ne, word, lo, hi, ok) =
        reachable p is j a c laid finished low high span b can in
      let (l, after, first, last) =
        StandsAt-Slot p is j.va2aa j.text a c j.jpos.arch (s.reg pc) (Instruction.jmp b) laid
          finished st in
      jmp-InStep p is j a c laid finished low high span s b d mapped ne word lo hi ok l first last f
        s' x h small fits intact bytes (λ q. omega arith) e rel
        (IsAt-Slot p j.va2aa j.text j.jpos.arch (s.reg pc) x.rip _ l at) agree
  step-InStep (Instruction.jmp_if k b) f s s' x st (compared, can) h small fits intact intact' bytes
        e (at, rel, agree) =
      let (d, mapped, ne, word, lo, hi, ok) =
        reachable p is j a c laid finished low high span b can in
      let (l, after, first, last) =
        StandsAt-Slot p is j.va2aa j.text a c j.jpos.arch (s.reg pc) (Instruction.jmp_if k b) laid
          finished st in
      subst (λ q. Reaches (InStep p j.va2aa j.jpos.arch q s') x) (sym compared)
        (jmp_if-InStep p is j a c laid finished low high span s b d mapped ne word lo hi ok k l
          first last s' x h small fits intact intact' bytes e rel
          (IsAt-Slot p j.va2aa j.text j.jpos.arch (s.reg pc) x.rip _ l at)
          (subst (λ q. FlagsIf q s x) compared agree))
  step-InStep i f s s' x st can h small fits intact intact' bytes e (at, rel, agree) =
      let (l, after, first, last) =
        StandsAt-Slot p is j.va2aa j.text a c j.jpos.arch (s.reg pc) i laid finished st in
      straight-InStep p is j a c laid finished low high span s i l first last
        (straight-known i j.va2aa can) f s' x can h small fits intact intact' bytes e rel
        (IsAt-Slot p j.va2aa j.text j.jpos.arch (s.reg pc) x.rip i l at) agree

  -- A translated program: the processor follows every run of the interpreter through it.
  Run-InStep :
      {f f' : Bool} {s s' : Vm} (x : Cpu) {size : ℕ}
      → Run a is j.text c j.jpos.arch f s f' s'
      → IsVm size s
      → size < 2 ^ 64
      → p.prog_size ≤ size
      → InStep p j.va2aa j.jpos.arch f s x
      → Reaches (InStep p j.va2aa j.jpos.arch f' s') x
  Run-InStep x (done h) vm small fits inst = Reaches-here _ x inst
  Run-InStep {f = f} {s = s} x {size} (more {s₁ = s₁} i st can intact bytes e r) vm small fits
        inst =
      let vm₁ : IsVm size s₁ = rw e at (step-IsSafe s vm) in
      Reaches-bind _ _ x
        (step-InStep i f s s₁ x st can vm small fits intact (Run-IsIntact r) bytes e inst)
        λ x' inst'. Run-InStep x' r vm₁ small fits inst'

-- What the translation of the program leaves; `j` where it fails.
abbrev pub compiled : Program → Jit → Jit
compiled p j = elim (jit_program p j) [ none ↦ j | some j' ↦ j' ]

-- A program of encoded instructions with legal operands that does not start at address 0, each
-- target an instruction of it or with code before, with nothing deferred and only addresses before it
-- mapped, and with room for its code above the first 4 GiB, below the last and within 2 GiB. Its
-- translation succeeds, and where the code stands in memory every run of the interpreter through
-- the program is followed by the processor: from a state that holds the VM's, at the code for the
-- program counter, it comes to one that holds the VM's at the run's end, at the code for the program
-- counter there. A run may use every instruction but CALL and RET, PUSH and POP of SP and
-- immediates that are loaded wrong, has a comparison before a conditional jump and no arithmetic
-- between the two, jumps to instructions of the program, and overwrites neither these nor the code.
pub jit_program-Run :
    (p : Program) (is : List Instruction) (j : Jit)
    → j.deferred_jpos ≡ []
    → IsLaid p j.jpos.vm is
    → IsMapBelow j.va2aa j.jpos.vm
    → All (HasTarget (IsTarget j is)) is
    → 0 < j.jpos.vm
    → 2 ^ 32 ≤ j.jpos.arch
    → j.jpos.arch + 13 * length is < 0xffff_ffff_0000_0000
    → 13 * length is ≤ 2 ^ 31 - 13
    → {f f' : Bool} {s s' : Vm} (x : Cpu) {size : ℕ}
    → Run j.jpos.vm is (compiled p j).text j.jpos.arch (compiled p j).jpos.arch f s f' s'
    → IsVm size s
    → size < 2 ^ 64
    → p.prog_size ≤ size
    → InStep p (compiled p j).va2aa (compiled p j).jpos.arch f s x
    → (jit_program p j ≡ some (compiled p j))
      × Reaches (InStep p (compiled p j).va2aa (compiled p j).jpos.arch f' s') x
jit_program-Run p is j empty laid below targets entry low high span {f} {f'} {s} {s'} x r vm small
      fits inst =
    let (j', e, finished, bound, _, _) =
      jit_program-IsFinished p is j empty laid below (omega arith) targets in
    let same : compiled p j ≡ j' = ap (λ o. elim o [ none ↦ j | some k ↦ k ]) e in
    (
      e ∙ ap some (sym same),
      subst
          (λ (k : Jit).
            Run j.jpos.vm is k.text j.jpos.arch k.jpos.arch f s f' s'
            → InStep p k.va2aa k.jpos.arch f s x
            → Reaches (InStep p k.va2aa k.jpos.arch f' s') x)
          (sym same)
          (λ r inst.
            Run-InStep p is j' j.jpos.vm j.jpos.arch laid finished low (omega arith) (omega arith)
              entry x r vm small fits inst)
          r inst,
    )

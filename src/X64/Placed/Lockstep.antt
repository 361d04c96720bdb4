-- ===== src/X64/Placed/Lockstep.antt =====
-- Runs of the interpreter through a translated program, and the processor in step with them.
use pcomp.Common.{ℕ, ◌+◌, ◌≤◌, ◌<◌, ◌≡◌, refl, ◌∙◌, Bool, true, false, List, length, Option}
use pcomp.Memory.{Bytes, HasBytes}
use pcomp.Exe.{pc}
use pcomp.Interpreter.State.{Vm, next, mem_dword, store_dword, sp_sub}
use pcomp.Exe.{sp}
use pcomp.Interpreter.Run.{step}
use pcomp.Interpreter.Invariant.{Post, Post-bind}
use pcomp.Spec.{BinOp, Cond, Source, Instruction, encode, perform, address}
use pcomp.Jit.{Program}
use pcomp.X64.Machine.{Cpu, condition}
use pcomp.X64.Relation.{IsRelated, FlagsAgree}
use pcomp.X64.Simulation.{FlagsKept, FlagsAfter}
use pcomp.X64.Simulation.Translated.{IsStraight}
use pcomp.X64.Placed.Bound.{IsStart}
use pcomp.X64.Placed.At.{StandsAt, IsAt}

-- Whether `FLAGS` and the processor's flags mean the same behind an instruction, if they did before:
-- doc/vm.md leaves `FLAGS` undefined but after CMP, and the processor's arithmetic changes its own.
abbrev pub flags_after : Instruction → Bool → Bool
flags_after (Instruction.binary BinOp.cmp rd src) f = true
flags_after (Instruction.binary BinOp.mov rd src) f = f
flags_after (Instruction.binary op rd src) f = false
flags_after i f = f

abbrev pub FlagsIf : Bool → Vm → Cpu → Type 0
FlagsIf true s x = FlagsAgree s x
FlagsIf false s x = Unit

-- Straight code; a jump into the program; a conditional jump into the program behind a comparison.
abbrev pub CanRun : ℕ → List Instruction → Instruction → Bool → Type 0
CanRun a is (Instruction.jmp b) f = IsStart a is b
CanRun a is (Instruction.jmp_if c b) f = (f ≡ true) × IsStart a is b
CanRun a is i f = IsStraight i

-- The code from `c` to `end` stands in the memory.
abbrev pub IsIntact : Bytes → ℕ → ℕ → Vm → Type 0
IsIntact t c end s = (q : ℕ) → c ≤ q → q < end → s.mem q ≡ t q

-- A run of the interpreter through instructions of the program that `CanRun`, which overwrites
-- neither the instruction that it is at nor the code.
pub data Run (a : ℕ) (is : List Instruction) (t : Bytes) (c end : ℕ)
    : Bool → Vm → Bool → Vm → Type 0 where
  done : {f : Bool} {s : Vm} → IsIntact t c end s → Run a is t c end f s f s
  more :
      {f f' : Bool} {s s₁ s' : Vm} (i : Instruction)
      → StandsAt a is (s.reg pc) i
      → CanRun a is i f
      → IsIntact t c end s
      → HasBytes s.mem (s.reg pc) (encode i)
      → step s ≡ next s₁
      → Run a is t c end (flags_after i f) s₁ f' s'
      → Run a is t c end f s f' s'

pub Run-IsIntact :
    {a : ℕ} {is : List Instruction} {t : Bytes} {c end : ℕ} {f f' : Bool} {s s' : Vm}
    → Run a is t c end f s f' s'
    → IsIntact t c end s
Run-IsIntact (done h) = h
Run-IsIntact (more i _ _ h _ _ _) = h

-- The processor is at the code for the VM's program counter, and holds its state.
abbrev pub InStep : Program → (ℕ → Option ℕ) → ℕ → Bool → Vm → Cpu → Type 0
InStep p m end f s x = IsAt p m end (s.reg pc) x.rip × IsRelated s x × FlagsIf f s x

FlagsAgree-kept : (s s' : Vm) (x x' : Cpu) → FlagsKept s x s' x' → FlagsAgree s x → FlagsAgree s' x'
unfolding condition
FlagsAgree-kept s s' x x' (r, z, n, o) h c = rw r (same c ∙ h c)
  where
    same : (c : Cond) → condition c x' ≡ condition c x
    same Cond.eq = z
    same Cond.ne = rw z refl
    same Cond.gt = rw (z, n, o) refl
    same Cond.lt = rw (n, o) refl
    same Cond.ge = rw (n, o) refl
    same Cond.le = rw (z, n, o) refl

pub FlagsIf-kept :
    (f : Bool) (s s' : Vm) (x x' : Cpu) → FlagsKept s x s' x' → FlagsIf f s x → FlagsIf f s' x'
FlagsIf-kept true s s' x x' k h = FlagsAgree-kept s s' x x' k h
FlagsIf-kept false s s' x x' k h = tt

pub FlagsIf-after :
    (i : Instruction) (f : Bool) (s s' : Vm) (x x' : Cpu)
    → IsStraight i
    → FlagsAfter i s x s' x'
    → FlagsIf f s x
    → FlagsIf (flags_after i f) s' x'
FlagsIf-after (Instruction.binary BinOp.cmp rd src) f s s' x x' t k h = k
FlagsIf-after (Instruction.binary BinOp.mov rd src) f s s' x x' t k h = FlagsIf-kept f s s' x x' k h
FlagsIf-after (Instruction.binary op rd src) f s s' x x' t k h = tt
FlagsIf-after (Instruction.jmp_if c a) f s s' x x' t k h = absurd t
FlagsIf-after i f s s' x x' t k h = FlagsIf-kept f s s' x x' k h

-- Behind straight code the program counter is at the next instruction.
pub straight-pc :
    (i : Instruction) (at : ℕ) (s : Vm)
    → IsStraight i
    → Post (λ s'. s'.reg pc ≡ at + length (encode i)) (perform i at s)
unfolding perform
straight-pc (Instruction.load rd rs idx) at s t =
    Post-bind _ (mem_dword s (address (s.reg rs) idx)) _ λ v e. refl
straight-pc (Instruction.store rd idx rs) at s t =
    Post-bind _ (store_dword s (address (s.reg rd) idx) (s.reg rs)) _ λ v e. refl
straight-pc (Instruction.binary op rd (Source.reg rs)) at s t = refl
straight-pc (Instruction.binary op rd (Source.imm v)) at s t = refl
straight-pc (Instruction.not rd) at s t = refl
straight-pc (Instruction.push rs) at s t =
    Post-bind _ (store_dword (sp_sub 8 s) ((sp_sub 8 s).reg sp) ((sp_sub 8 s).reg rs)) _ λ v e. refl
straight-pc (Instruction.pop rd) at s t = Post-bind _ (mem_dword s (s.reg sp)) _ λ v e. refl
straight-pc (Instruction.call a) at s t = absurd t
straight-pc (Instruction.jmp a) at s t = absurd t
straight-pc (Instruction.jmp_if c a) at s t = absurd t
straight-pc Instruction.ret at s t = absurd t

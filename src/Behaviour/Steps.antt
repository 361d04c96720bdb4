-- ===== src/Behaviour/Steps.antt =====
-- Runs of a few instructions, and code that stands in memory piece by piece.
use pcomp.Common.{
  ℕ, zero, suc, ◌+◌, ◌≤◌, ◌<◌, ◌^◌, ◌≡◌, refl, ◌∙◌, List, [], ◌∷◌, ◌++◌, length, arith,
}
use pcomp.Memory.{Bytes}
use pcomp.Exe.{pc}
use pcomp.Interpreter.State.{Vm, Outcome, next, and_then}
use pcomp.Interpreter.Run.{step}
use pcomp.Interpreter.Invariant.{IsVm}
use pcomp.Spec.{HasBytes, Instruction, encode, IsInstruction, perform}
use pcomp.Spec.Decode.{HasBytes-at}
use pcomp.Spec.Refines.{IsPlaced, step-perform}

-- The outcome of `n` instructions, or of fewer if one of them ends the run.
unfoldable pub steps : ℕ → Vm → Outcome
steps zero s = next s
steps (suc n) s = and_then (step s) (steps n)

pub HasBytes-append :
    (m : Bytes) (a : ℕ) (xs ys : List ℕ)
    → HasBytes m a (xs ++ ys)
    → HasBytes m a xs × HasBytes m (a + length xs) ys
HasBytes-append m a [] ys h = (tt, HasBytes-at m _ _ ys (omega arith) h)
HasBytes-append m a (x ∷ xs) ys (h, hs) =
    let (front, back) = HasBytes-append m (a + 1) xs ys hs in
    ((h, front), HasBytes-at m _ _ ys (omega arith) back)

-- One encoded instruction at the program counter, then what `f` says of the state behind it.
pub steps-perform :
    (n : ℕ) (i : Instruction) (s s' : Vm) {size : ℕ}
    → IsVm size s
    → size < 2 ^ 64
    → IsInstruction i
    → IsPlaced i (s.reg pc)
    → HasBytes s.mem (s.reg pc) (encode i)
    → s.reg pc + length (encode i) ≤ size
    → perform i (s.reg pc) s ≡ next s'
    → steps (suc n) s ≡ steps n s'
unfolding steps
steps-perform n i s s' h small k p b room e = rw (step-perform i s h small k p b room ∙ e) refl

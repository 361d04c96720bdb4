-- ===== src/X64/Placed/Step.antt =====
-- One step of the interpreter, and the processor in step with it.
use pcomp.Common.{
  ℕ, ◌+◌, ◌-◌, ◌^◌, ◌≤◌, ◌<◌, ◌≡◌, ◌≢◌, refl, sym, ap, ◌∙◌, Bool, List, [], ◌∷◌, ◌++◌, length,
  length-append, some, none, arith, ◌⊎◌, inl, inr, ne→==,
}
use mathlib.Core.Path.{subst}
use pcomp.Memory.{Bytes, HasBytes}
use pcomp.Memory.Laws.{HasBytes-same}
use pcomp.Exe.{pc}
use pcomp.Interpreter.State.{Vm, next}
use pcomp.Interpreter.Run.{step}
use pcomp.Interpreter.Invariant.{IsVm}
use pcomp.Behaviour.Steps.{HasBytes-append}
use pcomp.Spec.{Instruction, encode, perform}
use pcomp.Spec.Refines.{step-perform}
use pcomp.Jit.{Jit, Program, emit, vm_add, no_addr}
use pcomp.Jit.Code.{emit-arch, emit-HasBytes}
use pcomp.X64.Machine.{Cpu, go_to}
use pcomp.X64.Relation.{IsRelated}
use pcomp.X64.Simulation.{Reaches, IsSimulated}
use pcomp.X64.Simulation.Code.{translated, IsLoaded}
use pcomp.X64.Simulation.Translated.{IsStraight}
use pcomp.X64.Simulation.Refines.{IsStraight-IsPlaced, straight-simulates}
use pcomp.X64.Placed.Code.{code_of, target_in, jit-put}
use pcomp.X64.Placed.FirstPass.{IsLaid, nops}
use pcomp.X64.Placed.Rounds.{length-nops}
use pcomp.X64.Placed.SecondPass.{IsFinished}
use pcomp.X64.Placed.At.{Slot}
use pcomp.X64.Placed.Nops.{Reaches-bind, nops-Reaches}
use pcomp.X64.Placed.Lockstep.{
  flags_after, FlagsIf, IsIntact, InStep, FlagsIf-kept, FlagsIf-after, straight-pc,
}

HasBytes-unique :
    (m m' : Bytes) (a : ℕ) (bs : List ℕ)
    → HasBytes m a bs
    → HasBytes m' a bs
    → (q : ℕ) → a ≤ q
    → q < a + length bs
    → m q ≡ m' q
HasBytes-unique m m' a [] h k q lo hi = absurd (omega arith)
HasBytes-unique m m' a (b ∷ bs) (e, h) (e', h') q lo hi = elim (first_or_later a q lo) [
  | inl s ↦ rw (← s) (e ∙ sym e')
  | inr later ↦ HasBytes-unique m m' (a + 1) bs h h' q later (omega arith)
]
  where
    first_or_later : (a q : ℕ) → a ≤ q → (a ≡ q) ⊎ (a + 1 ≤ q)
    first_or_later a q lo = omega arith

-- The program `is` at `a`, translated with its code from `c` to the end of `j`.
module _ (p : Program) (is : List Instruction) (j : Jit) (a c : ℕ) (laid : IsLaid p a is)
    (finished : IsFinished j.va2aa j.text a c is j.jpos.arch) (low : 2 ^ 32 ≤ c)
    (high : j.jpos.arch < 0xffff_ffff_0000_0000) (span : j.jpos.arch ≤ c + 2 ^ 31 - 13) where
  abbrev pub end : ℕ
  end = j.jpos.arch

  module _ (s : Vm) (i : Instruction) (l : Slot p j.va2aa j.text end (s.reg pc) i) (first : c ≤ l.d)
      (last : l.d + length (code_of i (target_in i j.va2aa) l.d ++ nops l.n) ≤ end)
      (known : target_in i j.va2aa ≢ no_addr) where
    abbrev pub code : List ℕ
    code = code_of i (target_in i j.va2aa) l.d

    -- The state that translates the instruction where it is.
    abbrev pub here : Jit
    here = record j { jpos = record { arch = l.d; vm = s.reg pc } }

    here-translated : translated p here ≡ vm_add (length (encode i)) (emit code here)
    here-translated =
        ap (λ o. elim o [ none ↦ here | some j' ↦ j' ])
          (rw (ne→== (target_in i j.va2aa) no_addr known) at
            (jit-put p here i l.legal l.bytes l.room))

    pub here-arch : (translated p here).jpos.arch ≡ l.d + length code
    here-arch = rw here-translated (emit-arch code here)

    pub whole : length (code ++ nops l.n) ≡ length code + l.n
    whole = omega (arith, length-append code (nops l.n), length-nops l.n)

    pub here-IsLoaded :
        (x : Cpu)
        → IsIntact j.text c end s
        → IsRelated s x
        → IsLoaded x.mem here (translated p here)
    here-IsLoaded x intact rel q lo hi =
        let (front, _) = HasBytes-append j.text l.d code (nops l.n) l.code in
        let inside : q < l.d + length code = omega (arith, here-arch) in
        rw (rel.1, here-translated)
          (intact q (omega arith) (omega (arith, whole, last))
            ∙ HasBytes-unique j.text (emit code here).text l.d code front (emit-HasBytes code here)
                q lo inside)

    -- Behind the code the processor runs over the rest of the slots.
    pub over_nops :
        (f : Bool) (s' : Vm) (x' : Cpu)
        → IsIntact j.text c end s'
        → IsRelated s' x'
        → FlagsIf f s' x'
        → x'.rip ≡ l.d + length code
        → s'.reg pc ≡ s.reg pc + length (encode i)
        → Reaches (InStep p j.va2aa end f s') x'
    over_nops f s' x' intact rel agree at next_pc =
        let (_, back) = HasBytes-append j.text l.d code (nops l.n) l.code in
        let kept : HasBytes x'.mem (l.d + length code) (nops l.n) =
          HasBytes-same x'.mem j.text (l.d + length code) (nops l.n)
            (λ q lo hi.
              rw rel.1 (intact q (omega arith) (omega (arith, whole, last, length-nops l.n))))
            back in
        nops-Reaches (InStep p j.va2aa end f s') l.n x' (l.d + length (code ++ nops l.n))
          (subst (λ k. HasBytes x'.mem k (nops l.n)) (sym at) kept) (omega (arith, whole, at))
          (omega (arith, last))
          (
            rw next_pc l.next,
            rel,
            FlagsIf-kept f s' s' x' (go_to _ x') (refl, refl, refl, refl) agree,
          )

    pub straight-InStep :
        (f : Bool) (s' : Vm) (x : Cpu) {size : ℕ}
        → IsStraight i
        → IsVm size s
        → size < 2 ^ 64
        → p.prog_size ≤ size
        → IsIntact j.text c end s
        → IsIntact j.text c end s'
        → HasBytes s.mem (s.reg pc) (encode i)
        → step s ≡ next s'
        → IsRelated s x
        → x.rip ≡ l.d
        → FlagsIf f s x
        → Reaches (InStep p j.va2aa end (flags_after i f) s') x
    straight-InStep f s' x {size} t h small fits intact intact' b e rel at agree =
        let room : s.reg pc + length (encode i) ≤ size = omega (arith, l.room) in
        let performed : perform i (s.reg pc) s ≡ next s' =
          sym (step-perform i s h small l.legal (IsStraight-IsPlaced i (s.reg pc) t) b room) ∙ e in
        let (_, _, run) =
          straight-simulates p here i s s' x l.legal t l.bytes l.room h small b room e rel at
            (here-IsLoaded x intact rel) (omega (arith, here-arch, whole, last)) in
        let moved : s'.reg pc ≡ s.reg pc + length (encode i) =
          rw performed at (straight-pc i (s.reg pc) s t) in
        Reaches-bind (IsSimulated i (translated p here).jpos.arch s x s') _ x run
          λ x' (rel', at', flags').
            over_nops (flags_after i f) s' x' intact' rel'
              (FlagsIf-after i f s s' x x' t flags' agree) (at' ∙ here-arch) moved

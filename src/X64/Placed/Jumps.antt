-- ===== src/X64/Placed/Jumps.antt =====
-- One jump of the interpreter, and the processor in step with it.
use pcomp.Common.{
  ℕ, ◌+◌, ◌-◌, ◌^◌, ◌≤◌, ◌<◌, ◌≡◌, ◌≢◌, refl, sym, ◌∙◌, Bool, true, List, ◌++◌, length, Option,
  some, arith, inl, inr, if◌then◌else◌, Bool-cases,
}
use pcomp.Word.{IsU64}
use pcomp.Memory.{HasBytes}
use pcomp.Exe.{flags, pc}
use pcomp.Interpreter.State.{Vm, next}
use pcomp.Interpreter.Run.{step}
use pcomp.Interpreter.Invariant.{IsVm, Post}
use pcomp.Spec.{Cond, Instruction, encode, holds, perform}
use pcomp.Spec.Refines.{step-perform}
use pcomp.Jit.{Jit, Program, as_arch_addr, no_addr}
use pcomp.X64.Machine.{Cpu}
use pcomp.X64.Relation.{IsRelated, FlagsAgree}
use pcomp.X64.Simulation.{Reaches, Reaches-here}
use pcomp.X64.Simulation.Code.{translated}
use pcomp.X64.Simulation.Jump.{HasJumped}
use pcomp.X64.Simulation.Branch.{Leads}
use pcomp.X64.Simulation.Refines.{branch-simulates}
use pcomp.X64.Immediate.{IsMisloaded}
use pcomp.X64.Placed.Code.{code_of, target_in, lookup}
use pcomp.X64.Placed.FirstPass.{IsLaid, nops}
use pcomp.X64.Placed.SecondPass.{IsFinished}
use pcomp.X64.Placed.Bound.{IsStart}
use pcomp.X64.Placed.At.{Slot, IsFinished-start}
use pcomp.X64.Placed.Nops.{Reaches-bind}
use pcomp.X64.Placed.Lockstep.{FlagsIf, IsIntact, InStep, FlagsIf-kept}
use pcomp.X64.Placed.Step.{here, here-arch, here-IsLoaded, whole, over_nops}

lookup-eq : (m : ℕ → Option ℕ) (b d : ℕ) → m b ≡ some d → lookup m b ≡ d
lookup-eq m b d e = rw (lookup, e) refl

as_arch_addr-lookup : (j : Jit) (b : ℕ) → as_arch_addr b j ≡ lookup j.va2aa b
unfolding as_arch_addr
as_arch_addr-lookup j b = refl

jmp-pc : (b at : ℕ) (s : Vm) → Post (λ s'. s'.reg pc ≡ b) (perform (Instruction.jmp b) at s)
unfolding perform
jmp-pc b at s = refl

jmp_if-pc :
    (k : Cond) (b at : ℕ) (s : Vm)
    → Post
        (λ s'. s'.reg pc ≡ (if holds k (s.reg flags) then b else at + 9))
        (perform (Instruction.jmp_if k b) at s)
unfolding perform
jmp_if-pc k b at s = refl

module _ (p : Program) (is : List Instruction) (j : Jit) (a c : ℕ) (laid : IsLaid p a is)
    (finished : IsFinished j.va2aa j.text a c is j.jpos.arch) (low : 2 ^ 32 ≤ c)
    (high : j.jpos.arch < 0xffff_ffff_0000_0000) (span : j.jpos.arch ≤ c + 2 ^ 31 - 13) where
  -- A target in the program has code within reach.
  pub reachable :
      (b : ℕ)
      → IsStart a is b
      → (d : ℕ) × (j.va2aa b ≡ some d)
        × (d ≢ no_addr)
        × IsU64 d
        × (c ≤ d)
        × (d ≤ j.jpos.arch)
        × ¬ IsMisloaded d
  reachable b s =
      let (d, e, lo, hi) = IsFinished-start is j.va2aa j.text a c j.jpos.arch b finished s in
      (d, e, (λ q. omega arith), omega arith, lo, hi, (λ q. omega arith))

  module _ (s : Vm) (b d : ℕ) (mapped : j.va2aa b ≡ some d) (no : d ≢ no_addr) (word : IsU64 d)
      (lo : c ≤ d) (hi : d ≤ j.jpos.arch) (ok : ¬ IsMisloaded d) where
    known : lookup j.va2aa b ≢ no_addr
    known q = no (sym (lookup-eq j.va2aa b d mapped) ∙ q)

    pub jmp-InStep :
        (l : Slot p j.va2aa j.text j.jpos.arch (s.reg pc) (Instruction.jmp b))
        → c ≤ l.d
        → l.d
            + length (
                code_of (Instruction.jmp b) (target_in (Instruction.jmp b) j.va2aa) l.d ++ nops l.n)
          ≤ j.jpos.arch
        → (f : Bool) (s' : Vm) (x : Cpu) {size : ℕ} → IsVm size s
        → size < 2 ^ 64
        → p.prog_size ≤ size
        → IsIntact j.text c j.jpos.arch s
        → HasBytes s.mem (s.reg pc) (encode (Instruction.jmp b))
        → s.reg pc ≢ 0
        → step s ≡ next s'
        → IsRelated s x
        → x.rip ≡ l.d
        → FlagsIf f s x
        → Reaches (InStep p j.va2aa j.jpos.arch f s') x
    jmp-InStep l first last f s' x h small fits intact bytes ne e rel at agree =
        let i : Instruction = Instruction.jmp b in
        let j₁ : Jit = here p is j a c laid finished low high span s i l first last known in
        let arch : (translated p j₁).jpos.arch
            ≡ l.d + length (code_of i (target_in i j.va2aa) l.d) =
          here-arch p is j a c laid finished low high span s i l first last known in
        let performed : perform i (s.reg pc) s ≡ next s' =
          sym (step-perform i s h small l.legal ne bytes (omega (arith, l.room))) ∙ e in
        let leads : Leads i j₁ d =
          (as_arch_addr-lookup j₁ b ∙ lookup-eq j.va2aa b d mapped, no, word, ok) in
        let (_, _, run) =
          branch-simulates p j₁ i d s s' x l.legal leads l.bytes l.room h small ne bytes
            (omega (arith, l.room)) e rel tt at
            (here-IsLoaded p is j a c laid finished low high span s i l first last known x intact
              rel)
            (omega (
              arith,
              arch,
              whole p is j a c laid finished low high span s i l first last known,
              last,
            )) in
        let moved : s'.reg pc ≡ b = rw performed at (jmp-pc b (s.reg pc) s) in
        Reaches-bind (HasJumped i d (translated p j₁).jpos.arch s x s') _ x run
          λ x' (rel', at', kept).
            Reaches-here _ x'
              (inl (rw (moved, at') mapped), rel', FlagsIf-kept f s s' x x' kept agree)

    pub jmp_if-InStep :
        (k : Cond) (l : Slot p j.va2aa j.text j.jpos.arch (s.reg pc) (Instruction.jmp_if k b))
        → c ≤ l.d
        → l.d
            + length (
                code_of (Instruction.jmp_if k b) (target_in (Instruction.jmp_if k b) j.va2aa) l.d
                ++ nops l.n)
          ≤ j.jpos.arch
        → (s' : Vm) (x : Cpu) {size : ℕ} → IsVm size s
        → size < 2 ^ 64
        → p.prog_size ≤ size
        → IsIntact j.text c j.jpos.arch s
        → IsIntact j.text c j.jpos.arch s'
        → HasBytes s.mem (s.reg pc) (encode (Instruction.jmp_if k b))
        → step s ≡ next s'
        → IsRelated s x
        → x.rip ≡ l.d
        → FlagsAgree s x
        → Reaches (InStep p j.va2aa j.jpos.arch true s') x
    jmp_if-InStep k l first last s' x h small fits intact intact' bytes e rel at agree =
        let i : Instruction = Instruction.jmp_if k b in
        let j₁ : Jit = here p is j a c laid finished low high span s i l first last known in
        let arch : (translated p j₁).jpos.arch
            ≡ l.d + length (code_of i (target_in i j.va2aa) l.d) =
          here-arch p is j a c laid finished low high span s i l first last known in
        let performed : perform i (s.reg pc) s ≡ next s' =
          sym (step-perform i s h small l.legal tt bytes (omega (arith, l.room))) ∙ e in
        let size_of : length (code_of i (target_in i j.va2aa) l.d ++ nops l.n)
            ≡ length (code_of i (target_in i j.va2aa) l.d) + l.n =
          whole p is j a c laid finished low high span s i l first last known in
        let leads : Leads i j₁ d = (
          as_arch_addr-lookup j₁ b ∙ lookup-eq j.va2aa b d mapped,
          no,
          word,
          (omega arith, omega (arith, last)),
        ) in
        let (_, _, run) =
          branch-simulates p j₁ i d s s' x l.legal leads l.bytes l.room h small tt bytes
            (omega (arith, l.room)) e rel agree at
            (here-IsLoaded p is j a c laid finished low high span s i l first last known x intact
              rel)
            (omega (arith, arch, size_of, last)) in
        let moved : s'.reg pc ≡ (if holds k (s.reg flags) then b else s.reg pc + 9) =
          rw performed at (jmp_if-pc k b (s.reg pc) s) in
        Reaches-bind (HasJumped i d (translated p j₁).jpos.arch s x s') _ x run
          λ x' (rel', at', kept).
            let flags' : FlagsIf true s' x' = FlagsIf-kept true s s' x x' kept agree in
            elim (Bool-cases (holds k (s.reg flags))) [
              | inl taken ↦
                  let there : x'.rip ≡ d = rw taken at (at') in
                  let target : s'.reg pc ≡ b = rw taken at (moved) in
                  Reaches-here _ x' (inl (rw (target, there) mapped), rel', flags')
              | inr behind ↦
                  over_nops p is j a c laid finished low high span s i l first last known true s' x'
                    intact' rel' flags' ((rw behind at (at')) ∙ arch) (rw behind at (moved))
            ]

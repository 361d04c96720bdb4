-- ===== src/X64/Simulation/Code.antt =====
-- Code that an instruction of the VM is translated to, with what it does when it stands in memory.
use pcomp.Common.{ℕ, ◌+◌, ◌^◌, ◌≤◌, ◌<◌, ◌≡◌, sym, ap, ◌∙◌, List, length, some, arith, none}
use mathlib.Core.Path.{subst}
use pcomp.Memory.Laws.{HasBytes-same}
use pcomp.Memory.{Bytes, HasBytes}
use pcomp.Interpreter.State.{Vm, next}
use pcomp.Interpreter.Invariant.{IsVm, Post}
use pcomp.Spec.{Instruction, encode, perform}
use pcomp.Jit.{Jit, Program, emit, vm_add}
use pcomp.Jit.Code.{emit-arch, emit-rest, emit-HasBytes}
use pcomp.X64.Jit.{jit_vm_instruction}
use pcomp.X64.Machine.{Cpu}
use pcomp.X64.Relation.{IsRelated}
use pcomp.X64.Simulation.{Reaches}

-- The state that the translation of the instruction at `j.jpos` leaves; `j` where it fails.
abbrev pub translated : Program → Jit → Jit
translated p j = elim (jit_vm_instruction p j) [ none ↦ j | some j' ↦ j' ]

-- The code between the two places stands in memory.
abbrev pub IsLoaded : Bytes → Jit → Jit → Type 0
IsLoaded m j j' = (a : ℕ) → j.jpos.arch ≤ a → a < j'.jpos.arch → m a ≡ j'.text a

HasBytes-loaded :
    (m : Bytes) (j : Jit) (n : ℕ) (code : List ℕ)
    → IsLoaded m j (vm_add n (emit code j))
    → HasBytes m j.jpos.arch code
HasBytes-loaded m j n code h =
    HasBytes-same m (emit code j).text j.jpos.arch code
      (λ b lo hi. h b lo (omega (arith, emit-arch code j))) (emit-HasBytes code j)

-- The instruction at `j.jpos` is translated to code that, started where `Before` holds, comes to
-- what `After` says of its end, of both states and of both states behind the instruction.
pub record Translates (p : Program) (j : Jit) (i : Instruction) (Before : Vm → Cpu → Type 0)
    (After : ℕ → Vm → Cpu → Vm → Cpu → Type 0) : Type 0 where
  pub code : List ℕ
  pub written : jit_vm_instruction p j ≡ some (vm_add (length (encode i)) (emit code j))
  pub runs :
      (s : Vm) (x : Cpu) {size : ℕ} (at : ℕ)
      → IsVm size s
      → IsRelated s x
      → Before s x
      → x.rip ≡ j.jpos.arch
      → HasBytes x.mem x.rip code
      → x.rip + length code < 2 ^ 64
      → Post (λ s'. Reaches (After (x.rip + length code) s x s') x) (perform i at s)

module _ (p : Program) (j : Jit) (i : Instruction) (Before : Vm → Cpu → Type 0)
    (After : ℕ → Vm → Cpu → Vm → Cpu → Type 0) (t : Translates p j i Before After) where
  translated-eq : translated p j ≡ vm_add (length (encode i)) (emit t.code j)
  translated-eq = ap (λ o. elim o [ none ↦ j | some j' ↦ j' ]) t.written

  -- The translation moves on, and its code does what it should.
  pub Translates-Reaches :
      (s s' : Vm) (x : Cpu) {size : ℕ} (at : ℕ)
      → IsVm size s
      → IsRelated s x
      → Before s x
      → x.rip ≡ j.jpos.arch
      → IsLoaded x.mem j (translated p j)
      → (translated p j).jpos.arch < 2 ^ 64
      → perform i at s ≡ next s'
      → (jit_vm_instruction p j ≡ some (translated p j))
        × ((translated p j).jpos.vm ≡ j.jpos.vm + length (encode i))
        × Reaches (After (translated p j).jpos.arch s x s') x
  Translates-Reaches s s' x at h rel before place loaded fits e =
      let same : translated p j ≡ vm_add (length (encode i)) (emit t.code j) = translated-eq in
      let end : x.rip + length t.code ≡ (translated p j).jpos.arch =
        rw same (omega (arith, place, emit-arch t.code j)) in
      let code : HasBytes x.mem x.rip t.code =
        subst (λ a. HasBytes x.mem a t.code) (sym place)
          (HasBytes-loaded x.mem j (length (encode i)) t.code (rw same at loaded)) in
      let run : Post (λ s'. Reaches (After (x.rip + length t.code) s x s') x) (perform i at s) =
        t.runs s x at h rel before place code (omega (arith, end)) in
      let (v, _, _) = emit-rest t.code j in
      (
        t.written ∙ ap some (sym same),
        rw same (ap (λ n. n + length (encode i)) v),
        subst (λ a. Reaches (After a s x s') x) end (rw e at (run)),
      )

-- ===== src/X64/Simulation/StackPointer.antt =====
-- PUSH and POP of `SP`, where the code that is written does not do what the interpreter does.
use pcomp.Common.{ℕ, ◌+◌, ◌^◌, ◌≤◌, ◌<◌, ◌≡◌, refl, sym, ap, ◌∙◌, length, some, arith}
use pcomp.Word.{add64, sub64}
use pcomp.Word.Signed.{sub64-lt}
use pcomp.Memory.{HasBytes, as_dword}
use pcomp.Memory.Laws.{as_dword-set_dword_self}
use pcomp.Exe.{VmInstr, sp, pc}
use pcomp.Interpreter.State.{Vm, next, sp_sub, store_dword, mem_dword}
use pcomp.Interpreter.Run.{step}
use pcomp.Interpreter.Invariant.{IsVm, Post-bind, store_dword-inv}
use mathlib.Core.Path.{subst}
use pcomp.Spec.{Instruction, encode, perform, IsInstruction}
use pcomp.Spec.Refines.{step-perform, IsPlaced}
use pcomp.Jit.{Jit, Program}
use pcomp.X64.Regs.{rsp}
use pcomp.X64.Encode.{emit_push_reg, emit_pop_reg}
use pcomp.X64.Jit.{jit_instr, jit_vm_instruction}
use pcomp.X64.Machine.{Cpu, exec}
use pcomp.X64.Machine.Operand.{decode-push, decode-pop}
use pcomp.X64.Relation.{IsRelated, sp-rsp}
use pcomp.X64.Translate.{jit-opcode, jit_one_operand-eq}
use pcomp.X64.Simulation.{Reaches, Reaches-here, Reaches-step}
use pcomp.X64.Simulation.Memory.{mem_dword-inv}
use pcomp.X64.Simulation.Code.{Translates, translated, IsLoaded, Translates-Reaches}

-- The two sides behind PUSH SP: both stack pointers are 8 lower, the interpreter has stored the new
-- value and the processor the old one.
abbrev PushesOther : ℕ → Vm → Cpu → Vm → Cpu → Type 0
PushesOther end s x s' x' =
    (s'.reg sp ≡ sub64 (s.reg sp) 8)
    × (x'.reg rsp ≡ sub64 (s.reg sp) 8)
    × (as_dword s'.mem (s'.reg sp) ≡ sub64 (s.reg sp) 8)
    × (as_dword x'.mem (x'.reg rsp) ≡ s.reg sp)

-- Behind POP SP: the processor's stack pointer is the value from the stack, the interpreter's is 8
-- higher.
abbrev PopsOther : ℕ → Vm → Cpu → Vm → Cpu → Type 0
PopsOther end s x s' x' =
    (x'.reg rsp ≡ as_dword s.mem (s.reg sp)) × (s'.reg sp ≡ add64 (as_dword s.mem (s.reg sp)) 8)

module _ (p : Program) (j : Jit) where
  push_sp-Translates :
      HasBytes p.bytes j.jpos.vm (encode (Instruction.push sp))
      → j.jpos.vm + 2 ≤ p.prog_size
      → Translates p j (Instruction.push sp) (λ s x. Unit) PushesOther
  unfolding jit_instr perform exec
  push_sp-Translates (b₀, (b₁, _)) room = record {
    code = emit_push_reg rsp;
    written =
        jit-opcode p j VmInstr.push 0 (omega arith) b₀ (omega arith)
        ∙ jit_one_operand-eq p j sp 0 rsp 0 (omega arith) (omega arith) sp-rsp b₁ emit_push_reg
            room;
    runs = λ s x at h rel _ _ b fits.
        Post-bind _ (store_dword (sp_sub 8 s) ((sp_sub 8 s).reg sp) ((sp_sub 8 s).reg sp)) _ λ t e.
          let (_, stored) = store_dword-inv (sp_sub 8 s) _ _ t e in
          let top : x.reg rsp ≡ s.reg sp = rel.0 sp rsp (omega arith) sp-rsp in
          Reaches-step _ x _ _ (decode-push x.mem x.rip rsp (omega arith) b) fits (
            Reaches-here _ _ (
              ap (λ (u : Vm). u.reg sp) stored,
              rw top refl,
              rw stored (as_dword-set_dword_self s.mem _ _ (sub64-lt (s.reg sp) 8)),
              rw (top) (as_dword-set_dword_self x.mem _ _ (h.words sp)),
            ));
  }

  pop_sp-Translates :
      HasBytes p.bytes j.jpos.vm (encode (Instruction.pop sp))
      → j.jpos.vm + 2 ≤ p.prog_size
      → Translates p j (Instruction.pop sp) (λ s x. Unit) PopsOther
  unfolding jit_instr perform exec
  pop_sp-Translates (b₀, (b₁, _)) room = record {
    code = emit_pop_reg rsp;
    written =
        jit-opcode p j VmInstr.pop 0 (omega arith) b₀ (omega arith)
        ∙ jit_one_operand-eq p j sp 0 rsp 0 (omega arith) (omega arith) sp-rsp b₁ emit_pop_reg room;
    runs = λ s x at h rel _ _ b fits. Post-bind _ (mem_dword s (s.reg sp)) _ λ v e.
        let top : x.reg rsp ≡ s.reg sp = rel.0 sp rsp (omega arith) sp-rsp in
        Reaches-step _ x _ _ (decode-pop x.mem x.rip rsp (omega arith) b) fits (
          Reaches-here _ _
            (rw (top, rel.1) refl, ap (λ w. add64 w 8) (sym (mem_dword-inv s _ v e))));
  }

abbrev TakesSp : Instruction → Type 0
TakesSp (Instruction.push r) = r ≡ sp
TakesSp (Instruction.pop r) = r ≡ sp
TakesSp _ = ⊥

abbrev pub TakesOther : Instruction → ℕ → Vm → Cpu → Vm → Cpu → Type 0
TakesOther (Instruction.push r) = PushesOther
TakesOther (Instruction.pop r) = PopsOther
TakesOther _ = λ end s x s' x'. ⊥

sp-Translates :
    (p : Program) (j : Jit) (i : Instruction)
    → TakesSp i
    → HasBytes p.bytes j.jpos.vm (encode i)
    → j.jpos.vm + length (encode i) ≤ p.prog_size
    → Translates p j i (λ s x. Unit) (TakesOther i)
sp-Translates p j (Instruction.push r) t b room =
    subst (λ q. Translates p j (Instruction.push q) (λ s x. Unit) PushesOther) (sym t)
      (push_sp-Translates p j (rw t at b) room)
sp-Translates p j (Instruction.pop r) t b room =
    subst (λ q. Translates p j (Instruction.pop q) (λ s x. Unit) PopsOther) (sym t)
      (pop_sp-Translates p j (rw t at b) room)
sp-Translates p j _ t b room = absurd t

sp-legal : (i : Instruction) (at : ℕ) → TakesSp i → IsInstruction i × IsPlaced i at
sp-legal (Instruction.push r) at t = ((omega arith, λ q. omega arith, λ q. omega arith), tt)
sp-legal (Instruction.pop r) at t = ((omega arith, λ q. omega arith, λ q. omega arith), tt)
sp-legal _ at t = absurd t

-- PUSH SP and POP SP, where they stand whole in the program: the code that the JIT writes for them
-- leaves what the interpreter does not. For PUSH the stack pointers agree, but the interpreter has
-- stored the new value of SP and the processor the old one. For POP the processor's stack pointer is
-- the value from the stack, and the interpreter's that value plus 8.
pub stack_pointer-differs :
    (p : Program) (j : Jit) (i : Instruction) (s s' : Vm) (x : Cpu) {size : ℕ}
    → TakesSp i
    → HasBytes p.bytes j.jpos.vm (encode i)
    → j.jpos.vm + length (encode i) ≤ p.prog_size
    → IsVm size s
    → size < 2 ^ 64
    → HasBytes s.mem (s.reg pc) (encode i)
    → s.reg pc + length (encode i) ≤ size
    → step s ≡ next s'
    → IsRelated s x
    → x.rip ≡ j.jpos.arch
    → IsLoaded x.mem j (translated p j)
    → (translated p j).jpos.arch < 2 ^ 64
    → (jit_vm_instruction p j ≡ some (translated p j))
      × ((translated p j).jpos.vm ≡ j.jpos.vm + length (encode i))
      × Reaches (TakesOther i (translated p j).jpos.arch s x s') x
stack_pointer-differs p j i s s' x t b room h small c fits e rel at loaded end =
    let (legal, placed) = sp-legal i (s.reg pc) t in
    Translates-Reaches p j i (λ s x. Unit) (TakesOther i) (sp-Translates p j i t b room) s s' x
      (s.reg pc) h rel tt at loaded end (sym (step-perform i s h small legal placed c fits) ∙ e)

-- ===== src/X64/Simulation/Branch.antt =====
-- The translated code of a branch, call or return against the interpreter's step, where the target
-- has code.
use pcomp.Common.{ℕ, ◌+◌, ◌^◌, ◌≤◌, ◌<◌, ◌≡◌, ◌≢◌, refl, ◌∙◌, length, arith, ne→==}
use mathlib.Core.Path.{subst}
use pcomp.Word.{IsU64}
use pcomp.Memory.{HasBytes}
use pcomp.Exe.{VmInstr}
use pcomp.Interpreter.State.{Vm}
use pcomp.Interpreter.Invariant.{Post}
use pcomp.Spec.{Cond, Instruction, cond_instr, encode, IsInstruction, perform}
use pcomp.Jit.{Jit, Program, as_arch_addr, no_addr}
use pcomp.X64.Encode.{emit_call_imm64, emit_jmp_imm64, emit_ret}
use pcomp.X64.Immediate.{IsMisloaded}
use pcomp.X64.Branches.{IsNear}
use pcomp.X64.Jit.{distance, jit_branch, jit_instr}
use pcomp.X64.Machine.{Cpu}
use pcomp.X64.Relation.{FlagsAgree}
use pcomp.X64.Translate.{jit-opcode, jit_branch-eq}
use pcomp.X64.Simulation.{Reaches}
use pcomp.X64.Simulation.Code.{Translates}
use pcomp.X64.Machine.Jump.{emit_cond}
use pcomp.X64.Simulation.Jump.{HasJumped, jmp_if-Reaches, jmp-Reaches, call-Reaches, ret-Reaches}

-- The code of the target is at `va`, where the instruction can reach it: near by for a conditional
-- jump, and at an address that is loaded as it is for the others.
abbrev pub Leads : Instruction → Jit → ℕ → Type 0
Leads (Instruction.jmp_if c a) j va =
    (as_arch_addr a j ≡ va) × (va ≢ no_addr) × IsU64 va × IsNear va j.jpos.arch
Leads (Instruction.jmp a) j va =
    (as_arch_addr a j ≡ va) × (va ≢ no_addr) × IsU64 va × ¬ IsMisloaded va
Leads (Instruction.call a) j va =
    (as_arch_addr a j ≡ va) × (va ≢ no_addr) × IsU64 va × ¬ IsMisloaded va
Leads Instruction.ret j va = Unit
Leads _ j va = ⊥

-- A conditional jump wants flags that mean what `FLAGS` means.
abbrev pub FlagsMean : Instruction → Vm → Cpu → Type 0
FlagsMean (Instruction.jmp_if c a) s x = FlagsAgree s x
FlagsMean _ s x = Unit

-- The code jumps where the interpreter does.
abbrev IsBranchCode : Program → Jit → Instruction → ℕ → Type 0
IsBranchCode p j i va = Translates p j i (FlagsMean i) (HasJumped i va)

pub jit_instr-cond :
    (c : Cond) (p : Program) (j : Jit)
    → jit_instr p (cond_instr c) j ≡ jit_branch p (λ va arch. emit_cond c (distance va arch)) 6 j
unfolding jit_instr cond_instr emit_cond
jit_instr-cond Cond.eq p j = refl
jit_instr-cond _ p j = refl

module _ (p : Program) (j : Jit) (va : ℕ) where
  jmp_if-IsBranchCode :
      (c : Cond) (a : ℕ)
      → IsU64 a
      → Leads (Instruction.jmp_if c a) j va
      → HasBytes p.bytes j.jpos.vm (encode (Instruction.jmp_if c a))
      → j.jpos.vm + 9 ≤ p.prog_size
      → IsBranchCode p j (Instruction.jmp_if c a) va
  jmp_if-IsBranchCode c a ha (target, known, hv, near) (b₀, bs) room = record {
    code = emit_cond c (distance va j.jpos.arch);
    written =
        jit-opcode p j (cond_instr c) 1 (omega arith) b₀ (omega arith)
        ∙ jit_instr-cond c p j
        ∙ jit_branch-eq p j (λ va arch. emit_cond c (distance va arch)) 6 a va ha bs room target
            (ne→== va no_addr known);
    runs = λ s x at h rel agree place b fits.
        subst
          (λ k.
            IsNear va k
            → HasBytes x.mem x.rip (emit_cond c (distance va k))
            → x.rip + length (emit_cond c (distance va k)) < 2 ^ 64
            → Post
                (λ s'.
                  Reaches
                    (HasJumped (Instruction.jmp_if c a) va
                      (x.rip + length (emit_cond c (distance va k))) s x s')
                    x)
                (perform (Instruction.jmp_if c a) at s))
          place (λ near b fits. jmp_if-Reaches s x h rel at va hv c a near agree b fits) near b
          fits;
  }

  jmp-IsBranchCode :
      (a : ℕ)
      → IsU64 a
      → Leads (Instruction.jmp a) j va
      → HasBytes p.bytes j.jpos.vm (encode (Instruction.jmp a))
      → j.jpos.vm + 9 ≤ p.prog_size
      → IsBranchCode p j (Instruction.jmp a) va
  unfolding jit_instr
  jmp-IsBranchCode a ha (target, known, hv, ok) (b₀, bs) room = record {
    code = emit_jmp_imm64 va;
    written =
        jit-opcode p j VmInstr.jmp 1 (omega arith) b₀ (omega arith)
        ∙ jit_branch-eq p j (λ va _. emit_jmp_imm64 va) 13 a va ha bs room target
            (ne→== va no_addr known);
    runs = λ s x at h rel agree place b fits. jmp-Reaches s x h rel at va hv a ok b fits;
  }

  call-IsBranchCode :
      (a : ℕ)
      → IsU64 a
      → Leads (Instruction.call a) j va
      → HasBytes p.bytes j.jpos.vm (encode (Instruction.call a))
      → j.jpos.vm + 9 ≤ p.prog_size
      → IsBranchCode p j (Instruction.call a) va
  unfolding jit_instr
  call-IsBranchCode a ha (target, known, hv, ok) (b₀, bs) room = record {
    code = emit_call_imm64 va;
    written =
        jit-opcode p j VmInstr.call 1 (omega arith) b₀ (omega arith)
        ∙ jit_branch-eq p j (λ va _. emit_call_imm64 va) 13 a va ha bs room target
            (ne→== va no_addr known);
    runs = λ s x at h rel agree place b fits. call-Reaches s x h rel at va hv a ok b fits;
  }

  ret-IsBranchCode :
      HasBytes p.bytes j.jpos.vm (encode Instruction.ret)
      → j.jpos.vm + 1 ≤ p.prog_size
      → IsBranchCode p j Instruction.ret va
  unfolding jit_instr
  ret-IsBranchCode (b₀, _) room = record {
    code = emit_ret;
    written = jit-opcode p j VmInstr.ret 0 (omega arith) b₀ (omega arith);
    runs = λ s x at h rel agree place b fits. ret-Reaches s x h rel at 0 (omega arith) b fits;
  }

pub branch-IsBranchCode :
    (p : Program) (j : Jit) (i : Instruction) (va : ℕ)
    → IsInstruction i
    → Leads i j va
    → HasBytes p.bytes j.jpos.vm (encode i)
    → j.jpos.vm + length (encode i) ≤ p.prog_size
    → IsBranchCode p j i va
branch-IsBranchCode p j (Instruction.jmp_if c a) va k t b room =
    jmp_if-IsBranchCode p j va c a k t b room
branch-IsBranchCode p j (Instruction.jmp a) va k t b room = jmp-IsBranchCode p j va a k t b room
branch-IsBranchCode p j (Instruction.call a) va k t b room = call-IsBranchCode p j va a k t b room
branch-IsBranchCode p j Instruction.ret va k t b room = ret-IsBranchCode p j va b room
branch-IsBranchCode p j _ va k t b room = absurd t

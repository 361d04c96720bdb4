-- ===== src/X64/Placed/Code.antt =====
-- What the translation of any encoded instruction writes, given where the code of its target is.
use pcomp.Common.{
  ℕ, ◌+◌, ◌≤◌, ◌≡◌, ◌≢◌, refl, Option, ◌∙◌, List, length, some, none, arith, ◌==◌, if◌then◌else◌,
  inl, inr,
}
use pcomp.Word.{IsU64}
use pcomp.Memory.{HasBytes}
use pcomp.Exe.{VmInstr}
use pcomp.Spec.{Source, Instruction, binary_instr, cond_instr, encode, le_bytes, IsInstruction}
use pcomp.Spec.Decode.{HasBytes-at}
use pcomp.Jit.{Jit, Program, emit, vm_add, as_arch_addr, no_addr, defer_jit_and_reserve_slots}
use pcomp.Jit.Reads.{prog_dword-at}
use pcomp.X64.Regs.{as_arch_reg}
use pcomp.X64.Encode.{
  emit_not_reg, emit_push_reg, emit_pop_reg, emit_mov_reg_b32d, emit_mov_b32d_reg, emit_call_imm64,
  emit_jmp_imm64, emit_ret, emit_nop,
}
use pcomp.X64.Jit.{distance, jit_branch, jit_instr, jit_vm_instruction}
use pcomp.X64.Relation.{operand_reg, Option-cases}
use pcomp.X64.Slots.{length-call_imm64, length-jmp_imm64}
use pcomp.X64.Translate.{
  displacement, jit-opcode, jit_one_operand-eq, jit_two_operands-imm, jit_two_operands-reg,
  jit_load-eq, jit_store-eq,
}
use pcomp.X64.Machine.Binary.{emit_reg, emit_imm}
use pcomp.X64.Machine.Jump.{emit_cond, emit_cond-eq}
use pcomp.X64.Simulation.Translated.{jit_instr-binary}
use pcomp.X64.Simulation.Branch.{jit_instr-cond}

-- 0 where there is none.
unfoldable pub arch_reg : ℕ → ℕ
arch_reg r = elim (as_arch_reg r) [ none ↦ 0 | some a ↦ a ]

arch_reg-eq : (r a : ℕ) → as_arch_reg r ≡ some a → arch_reg r ≡ a
unfolding arch_reg
arch_reg-eq r a e = rw (arch_reg, e) refl

-- The code at the place `arch`, with the code of the target at `va`.
unfoldable pub code_of : Instruction → ℕ → ℕ → List ℕ
code_of (Instruction.load rd rs idx) va arch =
    emit_mov_reg_b32d (arch_reg rd) (arch_reg rs) (displacement idx)
code_of (Instruction.store rd idx rs) va arch =
    emit_mov_b32d_reg (arch_reg rd) (displacement idx) (arch_reg rs)
code_of (Instruction.binary op rd (Source.reg rs)) va arch = emit_reg op (arch_reg rd) (arch_reg rs)
code_of (Instruction.binary op rd (Source.imm v)) va arch = emit_imm op (arch_reg rd) v
code_of (Instruction.not rd) va arch = emit_not_reg (arch_reg rd)
code_of (Instruction.push rs) va arch = emit_push_reg (arch_reg rs)
code_of (Instruction.pop rd) va arch = emit_pop_reg (arch_reg rd)
code_of (Instruction.call a) va arch = emit_call_imm64 va
code_of (Instruction.jmp a) va arch = emit_jmp_imm64 va
code_of (Instruction.jmp_if c a) va arch = emit_cond c (distance va arch)
code_of Instruction.ret va arch = emit_ret

abbrev pub lookup : (ℕ → Option ℕ) → ℕ → ℕ
lookup m a = elim (m a) [ some c ↦ c | none ↦ no_addr ]

-- Where the code of the target is; 0 for an instruction without one.
abbrev pub target_in : Instruction → (ℕ → Option ℕ) → ℕ
target_in (Instruction.call a) m = lookup m a
target_in (Instruction.jmp a) m = lookup m a
target_in (Instruction.jmp_if c a) m = lookup m a
target_in _ m = 0

abbrev pub slots_of : Instruction → ℕ
slots_of (Instruction.call a) = 13
slots_of (Instruction.jmp a) = 13
slots_of (Instruction.jmp_if c a) = 6
slots_of _ = 0

-- The code, or the slots where the target has none yet.
abbrev pub put : Instruction → Jit → Jit
put i j =
    if target_in i j.va2aa == no_addr
    then defer_jit_and_reserve_slots emit_nop (slots_of i) j
    else emit (code_of i (target_in i j.va2aa) j.jpos.arch) j

lookup-stable :
    (m m' : ℕ → Option ℕ) (a : ℕ)
    → ((a c : ℕ) → m a ≡ some c → m' a ≡ some c)
    → lookup m a ≢ no_addr
    → lookup m' a ≡ lookup m a
lookup-stable m m' a f known = elim (Option-cases (m a)) [
  | inl e ↦ absurd (known (rw (lookup, e) refl))
  | inr (c, e) ↦ rw (lookup, f a c e, e) refl
]

-- More of the map does not move a target that has code.
pub target_in-stable :
    (i : Instruction) (m m' : ℕ → Option ℕ)
    → ((a c : ℕ) → m a ≡ some c → m' a ≡ some c)
    → target_in i m ≢ no_addr
    → target_in i m' ≡ target_in i m
target_in-stable (Instruction.call a) m m' f known = lookup-stable m m' a f known
target_in-stable (Instruction.jmp a) m m' f known = lookup-stable m m' a f known
target_in-stable (Instruction.jmp_if c a) m m' f known = lookup-stable m m' a f known
target_in-stable _ m m' f known = refl

-- The code of a branch fits its slots.
pub code_of-fits :
    (i : Instruction) (va arch : ℕ)
    → target_in i (λ _. none) ≡ no_addr
    → length (code_of i va arch) ≤ slots_of i
unfolding code_of
code_of-fits (Instruction.call a) va arch h = length-call_imm64 va
code_of-fits (Instruction.jmp a) va arch h = length-jmp_imm64 va
code_of-fits (Instruction.jmp_if c a) va arch h =
    rw (emit_cond-eq c (distance va arch)) (omega arith)
code_of-fits _ va arch h = absurd (omega arith)

module _ (p : Program) (j : Jit) where
  jit_branch-put :
      (emit_to : ℕ → ℕ → List ℕ) (n a : ℕ)
      → IsU64 a
      → HasBytes p.bytes (j.jpos.vm + 1) (le_bytes 8 a)
      → j.jpos.vm + 9 ≤ p.prog_size
      → jit_branch p emit_to n j
        ≡ some (
            vm_add 9 (
              if lookup j.va2aa a == no_addr
              then defer_jit_and_reserve_slots emit_nop n j
              else emit (emit_to (lookup j.va2aa a) j.jpos.arch) j))
  unfolding jit_branch as_arch_addr
  jit_branch-put emit_to n a ha b room =
      rw (prog_dword-at p (j.jpos.vm + 1) a ha (omega arith) b) refl

  -- The translation of a whole encoded instruction with legal operands.
  pub jit-put :
      (i : Instruction)
      → IsInstruction i
      → HasBytes p.bytes j.jpos.vm (encode i)
      → j.jpos.vm + length (encode i) ≤ p.prog_size
      → jit_vm_instruction p j ≡ some (vm_add (length (encode i)) (put i j))
  unfolding code_of jit_instr
  jit-put (Instruction.load rd rs idx) (hd, hs, hi) (b₀, (b₁, bs)) room =
      let (ad, ed, la) = operand_reg rd hd in
      let (aₛ, es, ls) = operand_reg rs hs in
      rw (arch_reg-eq rd ad ed, arch_reg-eq rs aₛ es)
        (jit-opcode p j VmInstr.load 2 (omega arith) b₀ (omega arith)
          ∙ jit_load-eq p j rd rs ad aₛ hd.0 hs.0 ed b₁ es idx hi
              (HasBytes-at p.bytes _ _ (le_bytes 2 idx) (omega arith) bs) room)
  jit-put (Instruction.store rd idx rs) (hd, hs, hi) (b₀, (b₁, bs)) room =
      let (ad, ed, la) = operand_reg rd hd in
      let (aₛ, es, ls) = operand_reg rs hs in
      rw (arch_reg-eq rd ad ed, arch_reg-eq rs aₛ es)
        (jit-opcode p j VmInstr.store 2 (omega arith) b₀ (omega arith)
          ∙ jit_store-eq p j rd rs ad aₛ hd.0 hs.0 ed b₁ es idx hi
              (HasBytes-at p.bytes _ _ (le_bytes 2 idx) (omega arith) bs) room)
  jit-put (Instruction.binary op rd (Source.reg rs)) (hd, hs) (b₀, (b₁, _)) room =
      let (ad, ed, la) = operand_reg rd hd in
      let (aₛ, es, ls) = operand_reg rs hs in
      rw (arch_reg-eq rd ad ed, arch_reg-eq rs aₛ es)
        (jit-opcode p j (binary_instr op) 0 (omega arith) b₀ (omega arith)
          ∙ jit_instr-binary op p j
          ∙ jit_two_operands-reg p j rd rs ad aₛ hd.0 hs.0 ed b₁ (emit_reg op) (emit_imm op)
              (binary_instr op) es b₀ room)
  jit-put (Instruction.binary op rd (Source.imm v)) (hd, hv) (b₀, (b₁, bs)) room =
      let (ad, ed, la) = operand_reg rd hd in
      rw (arch_reg-eq rd ad ed) (
        jit-opcode p j (binary_instr op) 1 (omega arith) b₀ (omega arith)
        ∙ jit_instr-binary op p j
        ∙ jit_two_operands-imm p j rd 0 ad 0 hd.0 (omega arith) ed b₁ (emit_reg op) (emit_imm op)
            (binary_instr op) v hv b₀ (HasBytes-at p.bytes _ _ (le_bytes 8 v) (omega arith) bs)
            room)
  jit-put (Instruction.not rd) hd (b₀, (b₁, _)) room =
      let (ad, ed, la) = operand_reg rd hd in
      rw (arch_reg-eq rd ad ed) (
        jit-opcode p j VmInstr.not 0 (omega arith) b₀ (omega arith)
        ∙ jit_one_operand-eq p j rd 0 ad 0 hd.0 (omega arith) ed b₁ emit_not_reg room)
  jit-put (Instruction.push rs) hs (b₀, (b₁, _)) room =
      let (aₛ, es, ls) = operand_reg rs hs in
      rw (arch_reg-eq rs aₛ es) (
        jit-opcode p j VmInstr.push 0 (omega arith) b₀ (omega arith)
        ∙ jit_one_operand-eq p j rs 0 aₛ 0 hs.0 (omega arith) es b₁ emit_push_reg room)
  jit-put (Instruction.pop rd) hd (b₀, (b₁, _)) room =
      let (ad, ed, la) = operand_reg rd hd in
      rw (arch_reg-eq rd ad ed) (
        jit-opcode p j VmInstr.pop 0 (omega arith) b₀ (omega arith)
        ∙ jit_one_operand-eq p j rd 0 ad 0 hd.0 (omega arith) ed b₁ emit_pop_reg room)
  jit-put (Instruction.call a) ha (b₀, bs) room =
      jit-opcode p j VmInstr.call 1 (omega arith) b₀ (omega arith)
      ∙ jit_branch-put (λ va _. emit_call_imm64 va) 13 a ha bs room
  jit-put (Instruction.jmp a) ha (b₀, bs) room =
      jit-opcode p j VmInstr.jmp 1 (omega arith) b₀ (omega arith)
      ∙ jit_branch-put (λ va _. emit_jmp_imm64 va) 13 a ha bs room
  jit-put (Instruction.jmp_if c a) ha (b₀, bs) room =
      jit-opcode p j (cond_instr c) 1 (omega arith) b₀ (omega arith)
      ∙ jit_instr-cond c p j
      ∙ jit_branch-put (λ va arch. emit_cond c (distance va arch)) 6 a ha bs room
  jit-put Instruction.ret k (b₀, _) room =
      jit-opcode p j VmInstr.ret 0 (omega arith) b₀ (omega arith)

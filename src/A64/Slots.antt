-- ===== src/A64/Slots.antt =====
-- The words that the AArch64 JIT reserves for a branch whose target has no code yet.
use pcomp.Common.{
  ℕ, ◌+◌, ◌-◌, ◌*◌, ◌≤◌, ◌<◌, ◌≡◌, refl, ap, List, [], ◌∷◌, ◌++◌, length, length-append, some,
  arith, ◌==◌, Bool-cases, eq→==, inl, inr,
}
use pcomp.Memory.{as_dword}
use pcomp.Exe.{VmInstr, call, jmp, jmpeq, jmpne, jmpgt, jmplt, jmpge, jmple}
use pcomp.Jit.{
  Jit, Program, emit, bytes_of, vm_add, as_arch_addr, no_addr, repeat, defer_jit_and_reserve_slots,
}
use pcomp.Jit.Code.{emit-arch, emit-outside, emit-rest, length-repeat}
use pcomp.Jit.Branch.{Branched, prog_dword-some}
use pcomp.A64.Words.{emit_nop}
use pcomp.A64.Immediate.{emit_mov_reg_imm, mov_reg_imm-length}
use pcomp.A64.Jit.{r11, words, emit_push_reg, call_words, jmp_words, jit_branch, jit_instr}

-- The words that each branch reserves.
abbrev pub slots : VmInstr → ℕ
slots call = 7
slots jmp = 5
slots jmpeq = 1
slots jmpne = 1
slots jmpgt = 1
slots jmplt = 1
slots jmpge = 1
slots jmple = 1
slots _ = 0

pub length-words : (ws : List ℕ) → length (words ws) ≡ 4 * length ws
length-words [] = omega arith
length-words (w ∷ ws) = omega (arith, length-words ws)

length-call_words : (va : ℕ) → length (call_words va) ≡ 7
unfolding call_words emit_push_reg
length-call_words va = simp length-append (
    omega (
      arith,
      mov_reg_imm-length r11 va,
      length-repeat (4 - length (emit_mov_reg_imm r11 va)) (emit_nop ∷ []),
    ))

length-jmp_words : (va : ℕ) → length (jmp_words va) ≤ 5
unfolding jmp_words
length-jmp_words va = simp length-append (omega (arith, mov_reg_imm-length r11 va))

jit_branch-Branched :
    (p : Program) (emit_to : ℕ → ℕ → List ℕ) (n : ℕ) (j : Jit)
    → ((va arch : ℕ) → length (emit_to va arch) ≤ n)
    → j.jpos.vm + 9 ≤ p.prog_size
    → (j' : Jit) × (jit_branch p emit_to n j ≡ some j')
      × Branched (4 * n) (as_dword p.bytes (j.jpos.vm + 1)) j j'
unfolding jit_branch defer_jit_and_reserve_slots
jit_branch-Branched p emit_to n j fit size =
    let target : ℕ = as_dword p.bytes (j.jpos.vm + 1) in
    let va : ℕ = as_arch_addr target j in
    elim (Bool-cases (va == no_addr)) [
      | inl none_yet ↦
          let j₁ : Jit = record j { deferred_jpos = j.deferred_jpos ++ j.jpos ∷ [] } in
          let bs : List ℕ = repeat n (bytes_of 4 emit_nop) in
          let len : length bs ≡ 4 * n = omega (arith, length-repeat n (bytes_of 4 emit_nop)) in
          let (v, d, m) = emit-rest bs j₁ in
          let end : (emit bs j₁).jpos.arch ≡ j.jpos.arch + 4 * n =
            omega (arith, emit-arch bs j₁, len) in
          (
            vm_add 9 (emit bs j₁),
            rw (prog_dword-some p (j.jpos.vm + 1) (omega arith), none_yet) refl,
            record {
              vm = ap (λ k. k + 9) v;
              outside = λ a h. emit-outside bs j₁ a (omega (arith, len));
              same_map = m;
              forward = omega (arith, end);
              room = omega (arith, end);
              deferred = rw none_yet d;
              reserved = λ _. end;
            },
          )
      | inr known ↦
          let bs : List ℕ = words (emit_to va j.jpos.arch) in
          let len : length bs ≤ 4 * n =
            omega (arith, length-words (emit_to va j.jpos.arch), fit va j.jpos.arch) in
          let (v, d, m) = emit-rest bs j in
          (
            vm_add 9 (emit bs j),
            rw (prog_dword-some p (j.jpos.vm + 1) (omega arith), known) refl,
            record {
              vm = ap (λ k. k + 9) v;
              outside = λ a h. emit-outside bs j a (omega (arith, len));
              same_map = m;
              forward = omega (arith, emit-arch bs j);
              room = omega (arith, emit-arch bs j, len);
              deferred = rw known d;
              reserved = λ e. absurd (cc (eq→== va no_addr e));
            },
          )
    ]

-- Every branch that stands whole in the program, whatever its target: the AArch64 code for it stays
-- inside its words (7 for a call, 5 for a plain jump, 1 for a conditional jump), and it is deferred exactly
-- where its target has no code yet, and then takes up all of them.
pub a64_branch-patches :
    (p : Program) (i : VmInstr) (j : Jit)
    → 0 < slots i
    → j.jpos.vm + 9 ≤ p.prog_size
    → (j' : Jit) × (jit_instr p i j ≡ some j')
      × Branched (4 * slots i) (as_dword p.bytes (j.jpos.vm + 1)) j j'
unfolding jit_instr
a64_branch-patches p call j h size =
    jit_branch-Branched p _ 7 j (λ va _. omega (arith, length-call_words va)) size
a64_branch-patches p jmp j h size = jit_branch-Branched p _ 5 j (λ va _. length-jmp_words va) size
a64_branch-patches p jmpeq j h size = jit_branch-Branched p _ 1 j (λ _ _. omega arith) size
a64_branch-patches p jmpne j h size = jit_branch-Branched p _ 1 j (λ _ _. omega arith) size
a64_branch-patches p jmpgt j h size = jit_branch-Branched p _ 1 j (λ _ _. omega arith) size
a64_branch-patches p jmplt j h size = jit_branch-Branched p _ 1 j (λ _ _. omega arith) size
a64_branch-patches p jmpge j h size = jit_branch-Branched p _ 1 j (λ _ _. omega arith) size
a64_branch-patches p jmple j h size = jit_branch-Branched p _ 1 j (λ _ _. omega arith) size
a64_branch-patches p _ j h size = absurd (omega arith)

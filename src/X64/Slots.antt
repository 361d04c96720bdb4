-- ===== src/X64/Slots.antt =====
-- The slots that `DEFER_JIT_AND_RESERVE_SLOTS` keeps for a branch whose target has no code yet, and
-- `jit_deferred`, which writes into them.
use pcomp.Common.{
  ℕ, ◌+◌, ◌-◌, ◌/◌, ◌^◌, ◌≤◌, ◌<◌, ◌≡◌, ◌≢◌, refl, ◌∙◌, sym, ap, List, [], ◌∷◌, ◌++◌, length,
  length-append, All, Option, none, some, arith, ◌==◌, ◌||◌, Bool-cases, inl, inr, eq→==, ne→==,
  lt→ltb,
}
use mathlib.Core.Path.{subst}
use pcomp.Word.{u32}
use pcomp.Memory.{as_dword}
use pcomp.Memory.Laws.{Apart}
use pcomp.Exe.{VmInstr, call, jmp, jmpeq, jmpne, jmpgt, jmplt, jmpge, jmple, instr, instr_handle}
use pcomp.Jit.{
  JitPos, Jit, Program, prog_byte, emit, vm_add, as_arch_addr, no_addr, repeat,
  defer_jit_and_reserve_slots, for_each_deferred, jit_deferred,
}
use pcomp.Jit.Code.{emit-arch, emit-outside, emit-rest, length-repeat}
use pcomp.Jit.Branch.{Branched, prog_dword-some, length-bytes_of}
use pcomp.X64.Regs.{rbp}
use pcomp.Jit.{bytes_of}
use pcomp.X64.Encode.{
  emit_mov_reg_imm32, emit_mov_reg_imm64, emit_mov_reg_imm, emit_call_reg, emit_jmp_reg,
  emit_call_imm64, emit_jmp_imm64, emit_je_imm32, emit_jne_imm32, emit_jg_imm32, emit_jge_imm32,
  emit_jl_imm32, emit_jle_imm32, emit_nop,
}
use pcomp.X64.Jit.{distance, jit_branch, jit_instr, jit_vm_instruction}

-- The slots that each branch reserves.
abbrev pub slots : VmInstr → ℕ
slots call = 13
slots jmp = 13
slots jmpeq = 6
slots jmpne = 6
slots jmpgt = 6
slots jmplt = 6
slots jmpge = 6
slots jmple = 6
slots _ = 0

pub length-mov_reg_imm : (rd imm : ℕ) → length (emit_mov_reg_imm rd imm) ≤ 10
unfolding emit_mov_reg_imm emit_mov_reg_imm32 emit_mov_reg_imm64
length-mov_reg_imm rd imm = elim (Bool-cases (imm / 2 ^ 32 == 0 || imm / 2 ^ 32 == 0xffff_ffff)) [
  | inl short ↦ rw (short) (omega arith)
  | inr long ↦ rw (long) (omega arith)
]

pub length-call_imm64 : (va : ℕ) → length (emit_call_imm64 va) ≤ 13
unfolding emit_call_imm64 emit_call_reg
length-call_imm64 va =
    omega (
      arith,
      length-append (emit_mov_reg_imm rbp va) (emit_call_reg rbp),
      length-mov_reg_imm rbp va,
    )

pub length-jmp_imm64 : (va : ℕ) → length (emit_jmp_imm64 va) ≤ 13
unfolding emit_jmp_imm64 emit_jmp_reg
length-jmp_imm64 va =
    omega
      (arith, length-append (emit_mov_reg_imm rbp va) (emit_jmp_reg rbp), length-mov_reg_imm rbp va)

length-nops : (n : ℕ) → length (repeat n emit_nop) ≡ n
unfolding emit_nop
length-nops n = omega (arith, length-repeat n (0x90 ∷ []))

-- `jit_branch`, with an emitter that keeps inside the slots.
jit_branch-Branched :
    (p : Program) (emit_to : ℕ → ℕ → List ℕ) (n : ℕ) (j : Jit)
    → ((va arch : ℕ) → length (emit_to va arch) ≤ n)
    → j.jpos.vm + 9 ≤ p.prog_size
    → (j' : Jit) × (jit_branch p emit_to n j ≡ some j')
      × Branched n (as_dword p.bytes (j.jpos.vm + 1)) j j'
unfolding jit_branch defer_jit_and_reserve_slots
jit_branch-Branched p emit_to n j fit size =
    let target : ℕ = as_dword p.bytes (j.jpos.vm + 1) in
    let va : ℕ = as_arch_addr target j in
    elim (Bool-cases (va == no_addr)) [
      | inl none_yet ↦
          let j₁ : Jit = record j { deferred_jpos = j.deferred_jpos ++ j.jpos ∷ [] } in
          let bs : List ℕ = repeat n emit_nop in
          let (v, d, m) = emit-rest bs j₁ in
          let end : (emit bs j₁).jpos.arch ≡ j.jpos.arch + n =
            emit-arch bs j₁ ∙ ap (λ k. j.jpos.arch + k) (length-nops n) in
          (
            vm_add 9 (emit bs j₁),
            rw (prog_dword-some p (j.jpos.vm + 1) (omega arith), none_yet) refl,
            record {
              vm = ap (λ k. k + 9) v;
              outside = λ a h. emit-outside bs j₁ a (rw (← length-nops n) at h);
              same_map = m;
              forward = omega (arith, end);
              room = omega (arith, end);
              deferred = rw none_yet d;
              reserved = λ _. end;
            },
          )
      | inr known ↦
          let bs : List ℕ = emit_to va j.jpos.arch in
          let (v, d, m) = emit-rest bs j in
          (
            vm_add 9 (emit bs j),
            rw (prog_dword-some p (j.jpos.vm + 1) (omega arith), known) refl,
            record {
              vm = ap (λ k. k + 9) v;
              outside = λ a h. emit-outside bs j a (omega (arith, fit va j.jpos.arch));
              same_map = m;
              forward = omega (arith, emit-arch bs j);
              room = omega (arith, emit-arch bs j, fit va j.jpos.arch);
              deferred = rw known d;
              reserved = λ e. absurd (cc (eq→== va no_addr e));
            },
          )
    ]

jcc-fits : (op imm : ℕ) → length (0x0f ∷ op ∷ bytes_of 4 (u32 (imm + 2 ^ 32 - 6))) ≤ 6
jcc-fits op imm = omega (arith, length-bytes_of 4 (u32 (imm + 2 ^ 32 - 6)))

-- Every branch that stands whole in the program, whatever its target: the code that is written for
-- it stays inside its slots (13 for a call or plain jump, 6 for a conditional jump), and it is deferred
-- exactly where its target has no code yet, and then takes up all of them.
pub branch-patches :
    (p : Program) (i : VmInstr) (j : Jit)
    → 0 < slots i
    → j.jpos.vm + 9 ≤ p.prog_size
    → (j' : Jit) × (jit_instr p i j ≡ some j')
      × Branched (slots i) (as_dword p.bytes (j.jpos.vm + 1)) j j'
unfolding jit_instr emit_je_imm32 emit_jne_imm32 emit_jg_imm32 emit_jge_imm32 emit_jl_imm32
    emit_jle_imm32
branch-patches p call j h size = jit_branch-Branched p _ 13 j (λ va _. length-call_imm64 va) size
branch-patches p jmp j h size = jit_branch-Branched p _ 13 j (λ va _. length-jmp_imm64 va) size
branch-patches p jmpeq j h size =
    jit_branch-Branched p _ 6 j (λ va arch. jcc-fits 0x84 (distance va arch)) size
branch-patches p jmpne j h size =
    jit_branch-Branched p _ 6 j (λ va arch. jcc-fits 0x85 (distance va arch)) size
branch-patches p jmpgt j h size =
    jit_branch-Branched p _ 6 j (λ va arch. jcc-fits 0x8f (distance va arch)) size
branch-patches p jmplt j h size =
    jit_branch-Branched p _ 6 j (λ va arch. jcc-fits 0x8c (distance va arch)) size
branch-patches p jmpge j h size =
    jit_branch-Branched p _ 6 j (λ va arch. jcc-fits 0x8d (distance va arch)) size
branch-patches p jmple j h size =
    jit_branch-Branched p _ 6 j (λ va arch. jcc-fits 0x8e (distance va arch)) size
branch-patches p _ j h size = absurd (omega arith)

-- A whole branch stands at the place.
pub record IsBranchAt (p : Program) (a : ℕ) : Type 0 where
  pub instruction : VmInstr
  pub is_branch : 0 < slots instruction
  pub opcode : instr_handle (instr (p.bytes a)) ≡ some instruction
  pub size : a + 9 ≤ p.prog_size

-- The branch's target has code.
pub record IsMapped (p : Program) (va2aa : ℕ → Option ℕ) (a : ℕ) : Type 0 where
  pub aa : ℕ
  pub target : va2aa (as_dword p.bytes (a + 1)) ≡ some aa
  pub is_address : aa ≢ no_addr

-- A deferred place: a branch stands there, and its target has code by now.
abbrev pub IsResolved : Program → (ℕ → Option ℕ) → JitPos → Type 0
IsResolved p va2aa jp = IsBranchAt p jp.vm × IsMapped p va2aa jp.vm

-- The slots of the branch at a place in the program.
abbrev pub slots_at : Program → ℕ → ℕ
slots_at p a = elim (instr_handle (instr (p.bytes a))) [ none ↦ 0 | some i ↦ slots i ]

prog_byte-some : (p : Program) (a : ℕ) → a < p.prog_size → prog_byte p a ≡ some (p.bytes a)
unfolding prog_byte
prog_byte-some p a h = rw (lt→ltb a p.prog_size h) refl

-- One round of `jit_deferred` at a resolved place.
resolved-Patched :
    (p : Program) (j : Jit) (jp : JitPos) (h : IsResolved p j.va2aa jp)
    → (j' : Jit) × (jit_vm_instruction p (record j { jpos = jp }) ≡ some j')
      × (j'.deferred_jpos ≡ j.deferred_jpos)
      × (j'.va2aa ≡ j.va2aa)
      × ((a : ℕ) → Apart jp.arch (slots_at p jp.vm) a 1 → j'.text a ≡ j.text a)
unfolding jit_vm_instruction as_arch_addr
resolved-Patched p j jp (h, m) =
    let (j', e, b) = branch-patches p h.instruction (record j { jpos = jp }) h.is_branch h.size in
    (
      j',
      rw (prog_byte-some p jp.vm (omega (arith, h.size)), h.opcode) e,
      rw (m.target, ne→== m.aa no_addr m.is_address) at b.deferred,
      b.same_map,
      λ a k. b.outside a (rw (slots_at, h.opcode) at k),
    )

-- Nothing of the code is changed outside the slots of the places.
abbrev pub IsOutside : Program → List JitPos → ℕ → Type 0
IsOutside p jps a = All (λ jp. Apart jp.arch (slots_at p jp.vm) a 1) jps

for_each_deferred-Patched :
    (p : Program) (jps : List JitPos) (j : Jit)
    → All (IsResolved p j.va2aa) jps
    → (j' : Jit) × (for_each_deferred (jit_vm_instruction p) jps j ≡ some j')
      × (j'.deferred_jpos ≡ j.deferred_jpos)
      × (j'.va2aa ≡ j.va2aa)
      × ((a : ℕ) → IsOutside p jps a → j'.text a ≡ j.text a)
unfolding for_each_deferred
for_each_deferred-Patched p [] j h = (j, refl, refl, refl, λ a k. refl)
for_each_deferred-Patched p (jp ∷ jps) j h =
    let (j₁, e₁, d₁, m₁, t₁) = resolved-Patched p j jp h.0 in
    let (j₂, e₂, d₂, m₂, t₂) =
      for_each_deferred-Patched p jps j₁ (subst (λ m. All (IsResolved p m) jps) (sym m₁) h.1) in
    (
      j₂,
      rw (e₁, eq→== (length j₁.deferred_jpos) (length j.deferred_jpos) (ap length d₁)) e₂,
      d₂ ∙ d₁,
      m₂ ∙ m₁,
      λ a k. t₂ a k.1 ∙ t₁ a k.0,
    )

-- When every deferred place is a branch whose target has code by now, `jit_deferred` translates all
-- of them without a further deferral, comes back to the place it started from, keeps the address
-- map, and changes the code only in the slots that were reserved.
pub jit_deferred-patches :
    (p : Program) (j : Jit)
    → All (IsResolved p j.va2aa) j.deferred_jpos
    → (j' : Jit) × (jit_deferred (jit_vm_instruction p) j ≡ some j')
      × (j'.jpos ≡ j.jpos)
      × (j'.deferred_jpos ≡ j.deferred_jpos)
      × (j'.va2aa ≡ j.va2aa)
      × ((a : ℕ) → IsOutside p j.deferred_jpos a → j'.text a ≡ j.text a)
unfolding jit_deferred
jit_deferred-patches p j h =
    let (j', e, d, m, t) = for_each_deferred-Patched p j.deferred_jpos j h in
    (record j' { jpos = j.jpos }, rw e refl, refl, d, m, t)

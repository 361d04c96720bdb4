-- ===== src/X64/Progress.antt =====
-- One round of the translation: where it leaves `jpos` and what it defers.
use pcomp.Common.{
  ℕ, ◌+◌, ◌≤◌, ◌<◌, ◌≡◌, ◌≢◌, refl, Bool, true, false, List, [], ◌∷◌, ◌++◌, Option, none, some,
  arith, ◌==◌, if◌then◌else◌, ◌⊎◌, inl, inr, eq→==, ne→==, lt→leb,
}
use pcomp.Exe.{
  VmInstr, load, store, mov, add, sub, and, or, xor, not, cmp, push, pop, call, ret, jmp, jmpeq,
  jmpne, jmpgt, jmplt, jmpge, jmple, am_reg, access_mode, reg_dst, reg_src,
}
use pcomp.Jit.{
  ◌>>=◌, Jit, Program, prog_byte, prog_hword, prog_dword, emit, vm_add, as_arch_addr, no_addr,
}
use pcomp.Jit.Code.{emit-arch, emit-rest}
use pcomp.X64.Regs.{as_arch_reg}
use pcomp.X64.Encode.{emit_ret}
use pcomp.X64.Jit.{jit_load, jit_store, jit_two_operands, jit_one_operand, jit_branch, jit_instr}
use pcomp.Jit.Branch.{Branched}
use pcomp.X64.Slots.{slots, branch-patches}

-- `P` holds of the state where the translation does not fail.
abbrev pub Holds : (Jit → Type 0) → Option Jit → Type 0
Holds P none = Unit
Holds P (some j) = P j

pub Holds-bind :
    {A : Type 0} (P : Jit → Type 0) (o : Option A) (f : A → Option Jit)
    → ((a : A) → o ≡ some a → Holds P (f a))
    → Holds P (o >>= f)
Holds-bind P none f h = tt
Holds-bind P (some a) f h = h a refl

Holds-if :
    (P : Jit → Type 0) (b : Bool) (x y : Option Jit)
    → Holds P x
    → Holds P y
    → Holds P (if b then x else y)
Holds-if P true x y hx hy = hx
Holds-if P false x y hx hy = hy

-- The branch at `j.jpos` was put off, with all of its slots.
pub record IsPutOff (p : Program) (i : VmInstr) (j j' : Jit) : Type 0 where
  pub is_branch : 0 < slots i
  pub size : j.jpos.vm + 9 ≤ p.prog_size
  pub pushed : j'.deferred_jpos ≡ j.deferred_jpos ++ j.jpos ∷ []
  pub reserved : j'.jpos.arch ≡ j.jpos.arch + slots i

-- A round moves on in the program, never back in the code, and at most puts off its own branch.
pub record Moved (p : Program) (i : VmInstr) (j j' : Jit) : Type 0 where
  pub vm : j.jpos.vm < j'.jpos.vm
  pub arch : j.jpos.arch ≤ j'.jpos.arch
  pub same_map : j'.va2aa ≡ j.va2aa
  pub deferred : (j'.deferred_jpos ≡ j.deferred_jpos) ⊎ IsPutOff p i j j'

emit-Moved :
    (p : Program) (i : VmInstr) (bs : List ℕ) (n : ℕ) (j : Jit)
    → 0 < n
    → Moved p i j (vm_add n (emit bs j))
emit-Moved p i bs n j h =
    let (v, d, m) = emit-rest bs j in
    record {
      vm = omega (arith, v);
      arch = omega (arith, emit-arch bs j);
      same_map = m;
      deferred = inl d;
    }

module _ (p : Program) (i : VmInstr) (j : Jit) where
  jit_load-Moved : Holds (Moved p i j) (jit_load p j)
  unfolding jit_load
  jit_load-Moved = Holds-bind (Moved p i j) (prog_byte p (j.jpos.vm + 1)) _ λ b _.
      Holds-bind (Moved p i j) (prog_hword p (j.jpos.vm + 2)) _ λ idx _.
        Holds-bind (Moved p i j) (as_arch_reg (reg_dst b)) _ λ rd _.
          Holds-bind (Moved p i j) (as_arch_reg (reg_src b)) _
            λ rb _. emit-Moved p i _ 4 j (omega arith)

  jit_store-Moved : Holds (Moved p i j) (jit_store p j)
  unfolding jit_store
  jit_store-Moved = Holds-bind (Moved p i j) (prog_byte p (j.jpos.vm + 1)) _ λ b _.
      Holds-bind (Moved p i j) (prog_hword p (j.jpos.vm + 2)) _ λ idx _.
        Holds-bind (Moved p i j) (as_arch_reg (reg_dst b)) _ λ rb _.
          Holds-bind (Moved p i j) (as_arch_reg (reg_src b)) _
            λ rs _. emit-Moved p i _ 4 j (omega arith)

  jit_two_operands-Moved : (f g : ℕ → ℕ → List ℕ) → Holds (Moved p i j) (jit_two_operands p f g j)
  unfolding jit_two_operands
  jit_two_operands-Moved f g = Holds-bind (Moved p i j) (prog_byte p j.jpos.vm) _ λ op _.
      Holds-bind (Moved p i j) (prog_byte p (j.jpos.vm + 1)) _ λ b _.
        Holds-bind (Moved p i j) (as_arch_reg (reg_dst b)) _ λ rd _.
          Holds-if (Moved p i j) (access_mode op == am_reg) _ _
            (Holds-bind (Moved p i j) (as_arch_reg (reg_src b)) _
              λ rs _. emit-Moved p i (f rd rs) 2 j (omega arith))
            (Holds-bind (Moved p i j) (prog_dword p (j.jpos.vm + 2)) _
              λ iv _. emit-Moved p i (g rd iv) 10 j (omega arith))

  jit_one_operand-Moved : (f : ℕ → List ℕ) → Holds (Moved p i j) (jit_one_operand p f j)
  unfolding jit_one_operand
  jit_one_operand-Moved f = Holds-bind (Moved p i j) (prog_byte p (j.jpos.vm + 1)) _ λ b _.
      Holds-bind (Moved p i j) (as_arch_reg (reg_dst b)) _
        λ rd _. emit-Moved p i (f rd) 2 j (omega arith)

  deferred_cases :
      (target : ℕ) (j' : Jit)
      → 0 < slots i
      → j.jpos.vm + 9 ≤ p.prog_size
      → Branched (slots i) target j j'
      → (j'.deferred_jpos ≡ j.deferred_jpos) ⊎ IsPutOff p i j j'
  deferred_cases target j' h size b = elim (eq_or_ne (as_arch_addr target j) no_addr) [
    | inl e ↦ inr (record {
      is_branch = h;
      size = size;
      pushed = rw (eq→== (as_arch_addr target j) no_addr e) at b.deferred;
      reserved = b.reserved e;
    })
    | inr ne ↦ inl (rw (ne→== (as_arch_addr target j) no_addr ne) at b.deferred)
  ]
    where
      eq_or_ne : (a c : ℕ) → (a ≡ c) ⊎ (a ≢ c)
      eq_or_ne a c = omega arith

  branch-Moved : 0 < slots i → j.jpos.vm + 9 ≤ p.prog_size → Holds (Moved p i j) (jit_instr p i j)
  branch-Moved h size =
      let (j', e, b) = branch-patches p i j h size in
      rw e (record {
        vm = omega (arith, b.vm);
        arch = b.forward;
        same_map = b.same_map;
        deferred = deferred_cases _ j' h size b;
      })

  jit_branch-Moved :
      (f : ℕ → ℕ → List ℕ) (n : ℕ)
      → (j.jpos.vm + 9 ≤ p.prog_size → Holds (Moved p i j) (jit_branch p f n j))
      → Holds (Moved p i j) (jit_branch p f n j)
  unfolding jit_branch prog_dword
  jit_branch-Moved f n h = elim (le_or_lt (j.jpos.vm + 9) p.prog_size) [
    | inl fits ↦ h fits
    | inr short ↦ rw (lt→leb (j.jpos.vm + 1 + 8) p.prog_size (omega arith)) tt
  ]
    where
      le_or_lt : (a c : ℕ) → (a ≤ c) ⊎ (c < a)
      le_or_lt a c = omega arith

-- For whatever instruction and wherever it stands, if a round of the translation does not fail then
-- it moves on.
pub jit_instr-Moved : (p : Program) (i : VmInstr) (j : Jit) → Holds (Moved p i j) (jit_instr p i j)
unfolding jit_instr
jit_instr-Moved p load j = jit_load-Moved p load j
jit_instr-Moved p store j = jit_store-Moved p store j
jit_instr-Moved p mov j = jit_two_operands-Moved p mov j _ _
jit_instr-Moved p add j = jit_two_operands-Moved p add j _ _
jit_instr-Moved p sub j = jit_two_operands-Moved p sub j _ _
jit_instr-Moved p and j = jit_two_operands-Moved p and j _ _
jit_instr-Moved p or j = jit_two_operands-Moved p or j _ _
jit_instr-Moved p xor j = jit_two_operands-Moved p xor j _ _
jit_instr-Moved p not j = jit_one_operand-Moved p not j _
jit_instr-Moved p cmp j = jit_two_operands-Moved p cmp j _ _
jit_instr-Moved p push j = jit_one_operand-Moved p push j _
jit_instr-Moved p pop j = jit_one_operand-Moved p pop j _
jit_instr-Moved p call j = jit_branch-Moved p call j _ 13 (branch-Moved p call j (omega arith))
jit_instr-Moved p ret j = emit-Moved p ret emit_ret 1 j (omega arith)
jit_instr-Moved p jmp j = jit_branch-Moved p jmp j _ 13 (branch-Moved p jmp j (omega arith))
jit_instr-Moved p jmpeq j = jit_branch-Moved p jmpeq j _ 6 (branch-Moved p jmpeq j (omega arith))
jit_instr-Moved p jmpne j = jit_branch-Moved p jmpne j _ 6 (branch-Moved p jmpne j (omega arith))
jit_instr-Moved p jmpgt j = jit_branch-Moved p jmpgt j _ 6 (branch-Moved p jmpgt j (omega arith))
jit_instr-Moved p jmplt j = jit_branch-Moved p jmplt j _ 6 (branch-Moved p jmplt j (omega arith))
jit_instr-Moved p jmpge j = jit_branch-Moved p jmpge j _ 6 (branch-Moved p jmpge j (omega arith))
jit_instr-Moved p jmple j = jit_branch-Moved p jmple j _ 6 (branch-Moved p jmple j (omega arith))

-- ===== src/X64/Relation.antt =====
-- The VM's state and the processor's while translated code runs.
use pcomp.Common.{
  ℕ, ◌/◌, ◌<◌, ◌≡◌, ◌≢◌, refl, sym, ◌∙◌, Option, none, some, arith, ◌⊎◌, inl, inr, ◌==◌, ◌||◌,
  if◌then◌else◌, update, some-injective, eq→==, ne→==,
}
use pcomp.Common.Tables.{all_below, table_eq}
use pcomp.Exe.{flags, sp, pc}
use pcomp.Interpreter.State.{Vm, set_reg}
use pcomp.Spec.{Cond, IsOperand, holds}
use pcomp.X64.Regs.{as_arch_reg, rsp, rbp}
use pcomp.X64.Registers.{as_arch_reg-injective}
use pcomp.X64.Machine.{Cpu, condition, write}

-- Each VM register is held by the processor's register for it, and the memory is one: the VM's
-- addresses are those of the host.
abbrev pub IsRelated : Vm → Cpu → Type 0
IsRelated s x = ((r a : ℕ) → r < 16 → as_arch_reg r ≡ some a → x.reg a ≡ s.reg r) × (x.mem ≡ s.mem)

-- The processor's flags mean what `FLAGS` means.
abbrev pub FlagsAgree : Vm → Cpu → Type 0
FlagsAgree s x = (c : Cond) → condition c x ≡ holds c (s.reg flags)

abbrev missing : ℕ → ℕ
missing r = elim (as_arch_reg r) [ none ↦ 1 | some a ↦ 0 ]

missing-eq : (r : ℕ) → r < 16 → missing r ≡ (if r == flags || r == pc then 1 else 0)
unfolding all_below as_arch_reg
missing-eq = table_eq 16 missing (λ r. if r == flags || r == pc then 1 else 0) refl

above : ℕ → ℕ
above r = elim (as_arch_reg r) [ none ↦ 0 | some a ↦ a / 16 ]

above-eq : (r : ℕ) → r < 16 → above r ≡ 0
unfolding all_below as_arch_reg above
above-eq = table_eq 16 above (λ r. 0) refl

pub Option-cases : (o : Option ℕ) → (o ≡ none) ⊎ ((a : ℕ) × (o ≡ some a))
Option-cases none = inl refl
Option-cases (some a) = inr (a, refl)

-- An operand has a register of the processor.
pub operand_reg : (r : ℕ) → IsOperand r → (a : ℕ) × (as_arch_reg r ≡ some a) × (a < 16)
unfolding above
operand_reg r (h, nf, np) = elim (Option-cases (as_arch_reg r)) [
  | inl e ↦
      let k : 1 ≡ (if r == flags || r == pc then 1 else 0) = rw (missing, e) at (missing-eq r h) in
      absurd (impossible (rw (ne→== r flags nf, ne→== r pc np) at k))
  | inr (a, e) ↦ (a, e, low a (rw (above, e) at (above-eq r h)))
]
  where
    impossible : ◌≡◌ {A = ℕ} 1 0 → ⊥
    impossible e = omega arith

    low : (a : ℕ) → a / 16 ≡ 0 → a < 16
    low a e = omega arith

pub sp-rsp : as_arch_reg sp ≡ some rsp
unfolding as_arch_reg
sp-rsp = refl

not_some : (a : ℕ) → none ≡ some a → ⊥
not_some a e = cc

unmapped : (r a : ℕ) → (r ≡ flags) ⊎ (r ≡ pc) → as_arch_reg r ≡ some a → ⊥
unfolding as_arch_reg
unmapped r a (inl q) e = not_some a (rw q at e)
unmapped r a (inr q) e = not_some a (rw q at e)

eq_or_ne : (a b : ℕ) → (a ≡ b) ⊎ (a ≢ b)
eq_or_ne a b = omega arith

-- Writing the same value to a register and to the processor's register for it.
pub IsRelated-write :
    (s : Vm) (x : Cpu) (r a v w : ℕ)
    → IsRelated s x
    → r < 16
    → as_arch_reg r ≡ some a
    → v ≡ w
    → IsRelated (set_reg r v s) (write a w x)
IsRelated-write s x r a v w (regs, mem) hr e q = (λ r' a' h' e'. same r' a' h' e', mem)
  where
    same :
        (r' a' : ℕ) → r' < 16 → as_arch_reg r' ≡ some a' → update x.reg a w a' ≡ update s.reg r v r'
    same r' a' h' e' = elim (eq_or_ne a a') [
      | inl ea ↦
          rw (eq→== a a' ea, eq→== r r' (as_arch_reg-injective r r' a' hr h' (rw ea at e) e').0)
            (sym q)
      | inr na ↦ elim (eq_or_ne r r') [
        | inl er ↦ absurd (na (some-injective (sym e ∙ rw er e')))
        | inr nr ↦ rw (ne→== a a' na, ne→== r r' nr) (regs r' a' h' e')
      ]
    ]

-- `RBP` stands for no register.
pub IsRelated-scratch : (s : Vm) (x : Cpu) (w : ℕ) → IsRelated s x → IsRelated s (write rbp w x)
IsRelated-scratch s x w (regs, mem) = (
  λ r a h e. rw (ne→== rbp a (λ q. (as_arch_reg-injective r r a h h e e).1 (sym q))) (regs r a h e),
  mem,
)

-- Neither stands `FLAGS` or `PC` for a register of the processor.
pub IsRelated-unmapped :
    (s : Vm) (x : Cpu) (r v : ℕ)
    → (r ≡ flags) ⊎ (r ≡ pc)
    → IsRelated s x
    → IsRelated (set_reg r v s) x
IsRelated-unmapped s x r v u (regs, mem) =
    (λ r' a h e. rw (ne→== r r' (λ q. unmapped r a u (rw q e))) (regs r' a h e), mem)

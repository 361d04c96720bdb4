-- ===== src/X64/Registers.antt =====
-- The map from VM registers to those of the processor.
use pcomp.Common.{ℕ, ◌<◌, ◌≡◌, ◌≢◌, refl, ◌∙◌, sym, [], ◌∷◌, none, some, get_or, arith}
use pcomp.Common.Tables.{all_below, table_eq}
use pcomp.X64.Regs.{as_arch_reg, rbp, rdi}

-- The VM register that a processor's register stands for; 99 where there is none.
unfoldable pub vm_reg : ℕ → ℕ
vm_reg a = get_or (8 ∷ 9 ∷ 10 ∷ 11 ∷ 14 ∷ 99 ∷ 12 ∷ 99 ∷ 0 ∷ 1 ∷ 2 ∷ 3 ∷ 4 ∷ 5 ∷ 6 ∷ 7 ∷ []) a 99

abbrev there_and_back : ℕ → ℕ
there_and_back r = elim (as_arch_reg r) [ none ↦ 99 | some a ↦ vm_reg a ]

abbrev mapped : ℕ → ℕ
mapped r = elim (as_arch_reg r) [ none ↦ 99 | some a ↦ r ]

vm_reg-as_arch_reg : (r : ℕ) → r < 16 → there_and_back r ≡ mapped r
unfolding all_below as_arch_reg vm_reg
vm_reg-as_arch_reg = table_eq 16 there_and_back mapped refl

pub vm_reg-eq : (r a : ℕ) → r < 16 → as_arch_reg r ≡ some a → vm_reg a ≡ r
vm_reg-eq r a h e = rw (there_and_back, mapped, e) at (vm_reg-as_arch_reg r h)

-- No two VM registers share a register of the processor, and none is RBP, which the emitted code
-- uses for immediates and addresses, or RDI, which takes the argument of a call.
pub as_arch_reg-injective :
    (r r' a : ℕ)
    → r < 16
    → r' < 16
    → as_arch_reg r ≡ some a
    → as_arch_reg r' ≡ some a
    → (r ≡ r') × (a ≢ rbp) × (a ≢ rdi)
unfolding vm_reg
as_arch_reg-injective r r' a h h' e e' =
    let back : vm_reg a ≡ r = vm_reg-eq r a h e in
    (sym back ∙ vm_reg-eq r' a h' e', λ q. free r h (rw q at back), λ q. free r h (rw q at back))
  where
    free : (k : ℕ) → k < 16 → 99 ≡ k → ⊥
    free k h q = omega arith

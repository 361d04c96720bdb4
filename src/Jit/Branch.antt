-- ===== src/Jit/Branch.antt =====
-- What the translation of a branch may do to the code, for both JITs.
use pcomp.Common.{
  ℕ, zero, suc, ◌+◌, ◌/◌, ◌≤◌, ◌≡◌, refl, [], ◌∷◌, ◌++◌, length, some, arith, ◌==◌, if◌then◌else◌,
  le→leb,
}
use pcomp.Memory.{as_dword}
use pcomp.Memory.Laws.{Apart}
use pcomp.Jit.{Jit, Program, prog_dword, as_arch_addr, no_addr, bytes_of}

-- What the branch at `j.jpos` to `target` does to the code: it stays inside its `n` slots; it is
-- deferred exactly where the target has no code, and then takes all of them.
pub record Branched (n target : ℕ) (j j' : Jit) : Type 0 where
  pub vm : j'.jpos.vm ≡ j.jpos.vm + 9
  pub outside : (a : ℕ) → Apart j.jpos.arch n a 1 → j'.text a ≡ j.text a
  pub same_map : j'.va2aa ≡ j.va2aa
  pub forward : j.jpos.arch ≤ j'.jpos.arch
  pub room : j'.jpos.arch ≤ j.jpos.arch + n
  pub deferred : j'.deferred_jpos ≡ (
      if as_arch_addr target j == no_addr then j.deferred_jpos ++ j.jpos ∷ [] else j.deferred_jpos)
  pub reserved : as_arch_addr target j ≡ no_addr → j'.jpos.arch ≡ j.jpos.arch + n

pub prog_dword-some :
    (p : Program) (a : ℕ) → a + 8 ≤ p.prog_size → prog_dword p a ≡ some (as_dword p.bytes a)
unfolding prog_dword
prog_dword-some p a h = rw (le→leb (a + 8) p.prog_size h) refl

pub length-bytes_of : (n v : ℕ) → length (bytes_of n v) ≡ n
length-bytes_of zero v = refl
length-bytes_of (suc n) v = omega (arith, length-bytes_of n (v / 256))

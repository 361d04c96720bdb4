-- ===== src/X64/Placed/Program.antt =====
-- The translation of a whole program of encoded instructions.
use pcomp.Common.{
  ℕ, ◌+◌, ◌*◌, ◌≤◌, ◌<◌, ◌≡◌, ◌≢◌, refl, sym, ap, ◌∙◌, List, [], ◌∷◌, ◌++◌, length, Option, some,
  arith, ◌⊎◌, inl, inr, All,
}
use mathlib.Core.Path.{subst}
use pcomp.Spec.{Instruction}
use pcomp.Jit.{JitPos, Jit, Program, no_addr, jit_deferred}
use pcomp.Jit
use pcomp.X64.Jit.{jit_program}
use pcomp.X64.Placed.FirstPass.{IsLaid, IsMapBelow, Loop}
use pcomp.X64.Placed.Rounds.{first-pass}
use pcomp.X64.Placed.SecondPass.{IsFinished, IsKnown, Deferred, second-pass}
use pcomp.X64.Placed.Bound.{
  IsStart, HasTarget, IsWritten-bound, IsWritten-start, HasTarget-known, HasTarget-map,
}

-- A target is an instruction of the program, or had code before.
abbrev pub IsTarget : Jit → List Instruction → ℕ → Type 0
IsTarget j is b = IsStart j.jpos.vm is b ⊎ ((d : ℕ) × (j.va2aa b ≡ some d) × (d ≢ no_addr))

All-map :
    {P Q : Instruction → Type 0} (is : List Instruction)
    → ((i : Instruction) → P i → Q i)
    → All P is
    → All Q is
All-map [] f h = tt
All-map (i ∷ is) f (h, hs) = (f i h, All-map is f hs)

targets-IsKnown :
    (p : Program) (is : List Instruction) (j : Jit) (l : Loop p p.prog_size j is)
    → IsMapBelow j.va2aa j.jpos.vm
    → j.jpos.arch + 13 * length is < no_addr
    → All (HasTarget (IsTarget j is)) is
    → IsKnown l.final.va2aa is
targets-IsKnown p is j l below small h =
    All-map is (λ i k. HasTarget-known i l.final.va2aa (HasTarget-map (IsTarget j is) _ i coded k))
      h
  where
    coded : (b : ℕ) → IsTarget j is b → (d : ℕ) × (l.final.va2aa b ≡ some d) × (d ≢ no_addr)
    coded b (inl s) =
        let (d, e, lo, hi) = IsWritten-start is _ _ _ _ l.deferred _ b l.written s in
        (d, e, λ q. omega (arith, IsWritten-bound is _ _ _ _ l.deferred _ l.written))
    coded b (inr (d, e, ne)) = (d, l.kept b (below b d e) ∙ e, ne)

-- A program of encoded instructions with legal operands, one behind the other from `j.jpos.vm` to its
-- end. Each target is one of these instructions or had code before, nothing is deferred, only
-- addresses before the program are mapped, and 13 bytes for each instruction do not reach the last address. Then the
-- translation succeeds. Each instruction's address is mapped to its code, in the order of the
-- program and without gaps: the code that belongs to the instruction, its target at the place that
-- the map has for it, and `nop` in the slots that it does not need. Nothing before the code and
-- before the program in the map has changed.
pub jit_program-IsFinished :
    (p : Program) (is : List Instruction) (j : Jit)
    → j.deferred_jpos ≡ []
    → IsLaid p j.jpos.vm is
    → IsMapBelow j.va2aa j.jpos.vm
    → j.jpos.arch + 13 * length is < no_addr
    → All (HasTarget (IsTarget j is)) is
    → (j' : Jit) × (jit_program p j ≡ some j')
      × IsFinished j'.va2aa j'.text j.jpos.vm j.jpos.arch is j'.jpos.arch
      × (j'.jpos.arch ≤ j.jpos.arch + 13 * length is)
      × ((b : ℕ) → b < j.jpos.arch → j'.text b ≡ j.text b)
      × ((b : ℕ) → b < j.jpos.vm → j'.va2aa b ≡ j.va2aa b)
unfolding jit_program Jit.jit_program jit_deferred
jit_program-IsFinished p is j empty laid below small targets =
    let l : Loop p p.prog_size j is = first-pass p is p.prog_size j laid (omega arith) below in
    let same : l.final.deferred_jpos ≡ l.deferred = l.pushed ∙ ap (λ q. q ++ l.deferred) empty in
    let d : Deferred p l.final j.jpos.vm j.jpos.arch is l.deferred l.final.jpos.arch =
      second-pass p is j.jpos.vm j.jpos.arch l.deferred l.final.jpos.arch l.final laid
        (targets-IsKnown p is j l below small targets) l.written in
    (
      record d.final { jpos = l.final.jpos },
      rw l.runs (rw (same, d.runs) refl),
      subst (λ m. IsFinished m d.final.text j.jpos.vm j.jpos.arch is l.final.jpos.arch)
          (sym d.same_map) d.finished,
      IsWritten-bound is _ _ _ _ l.deferred _ l.written,
      λ b h. d.below b h ∙ l.below b h,
      λ b h. ap (λ (m : ℕ → Option ℕ). m b) d.same_map ∙ l.kept b h,
    )

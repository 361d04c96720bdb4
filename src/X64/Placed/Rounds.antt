-- ===== src/X64/Placed/Rounds.antt =====
-- The loop over a program of encoded instructions, from any of them to the end.
use pcomp.Common.{
  ℕ, zero, suc, ◌+◌, ◌≤◌, ◌<◌, ◌≡◌, ◌≢◌, refl, sym, ap, ◌∙◌, Bool, true, false, List, [], ◌∷◌, ◌++◌,
  append-nil, append_assoc, length, Option, some, none, arith, ◌==◌, update, inl, inr, Bool-cases,
  ==_iff, eq→==,
}
use mathlib.Core.Path.{subst}
use pcomp.Spec.{Instruction, encode}
use pcomp.Jit.{
  JitPos, Jit, Program, vm_add, no_addr, record_addr_mapping, defer_jit_and_reserve_slots,
}
use pcomp.Jit.Code.{length-repeat}
use pcomp.X64.Encode.{emit_nop}
use pcomp.X64.Loop.{jit_loop-done}
use pcomp.X64.Jit.{jit_vm_instruction}
use pcomp.X64.Placed.Code.{code_of, target_in, target_in-stable, slots_of, put, jit-put}
use pcomp.X64.Placed.FirstPass.{
  IsLaid, IsLaid-room, IsMapBelow, Loop, nops, encode-positive, round, round-vm, round-arch,
  round-deferred, round-IsMapBelow, loop-runs, loop-below, loop-kept, loop-mapped, loop-HasBytes,
  loop-rest, loop-more,
}

pub length-nops : (n : ℕ) → length (nops n) ≡ n
unfolding emit_nop
length-nops n = omega (arith, length-repeat n emit_nop)

-- Only a branch can be without code for its target.
is_branch :
    (i : Instruction) (m : ℕ → Option ℕ)
    → target_in i m ≡ no_addr
    → target_in i (λ _. none) ≡ no_addr
is_branch (Instruction.call a) m e = refl
is_branch (Instruction.jmp a) m e = refl
is_branch (Instruction.jmp_if c a) m e = refl
is_branch _ m e = absurd (omega arith)

module _ (p : Program) (fuel : ℕ) (j : Jit) (i : Instruction) (is : List Instruction)
    (below : IsMapBelow j.va2aa j.jpos.vm) (room : j.jpos.vm < p.prog_size)
    (next : jit_vm_instruction p (record_addr_mapping j)
      ≡ some (vm_add (length (encode i)) (put i (record_addr_mapping j)))) where
  abbrev mapped : ℕ → Option ℕ
  mapped = update j.va2aa j.jpos.vm (some j.jpos.arch)

  abbrev code : List ℕ
  code = code_of i (target_in i mapped) j.jpos.arch

  known-Loop :
      (target_in i mapped == no_addr) ≡ false
      → Loop p fuel (round p fuel j i code j.deferred_jpos) is
      → Loop p (suc fuel) j (i ∷ is)
  unfolding record_addr_mapping
  known-Loop known l =
      let d : List JitPos = j.deferred_jpos in
      let there : target_in i mapped ≢ no_addr = λ q. clash (eq→== _ no_addr q) known in
      let same : target_in i l.final.va2aa ≡ target_in i mapped =
        target_in-stable i mapped l.final.va2aa (loop-more p fuel j i code d is l below) there in
      record {
        final = l.final;
        deferred = l.deferred;
        runs = loop-runs p fuel j i code d is l (rw known at (next)) room;
        pushed = l.pushed ∙ ap (λ q. q ++ l.deferred) (round-deferred p fuel j i code d);
        below = loop-below p fuel j i code d is l;
        kept = loop-kept p fuel j i code d is l;
        forward = omega (arith, l.forward, round-arch p fuel j i code d);
        written = (
          loop-mapped p fuel j i code d is l,
          inl (
              rw same
                (there, loop-HasBytes p fuel j i code d is l, loop-rest p fuel j i code d is l)),
        );
      }
    where
      clash : {b : Bool} → b ≡ true → b ≡ false → ⊥
      clash e f = cc

  unknown-Loop :
      (target_in i mapped == no_addr) ≡ true
      → Loop p fuel (round p fuel j i (nops (slots_of i)) (j.deferred_jpos ++ j.jpos ∷ [])) is
      → Loop p (suc fuel) j (i ∷ is)
  unfolding record_addr_mapping defer_jit_and_reserve_slots
  unknown-Loop unknown l =
      let d : List JitPos = j.deferred_jpos ++ j.jpos ∷ [] in
      let bs : List ℕ = nops (slots_of i) in
      record {
        final = l.final;
        deferred = j.jpos ∷ l.deferred;
        runs = loop-runs p fuel j i bs d is l (rw unknown at (next)) room;
        pushed =
            l.pushed
            ∙ ap (λ q. q ++ l.deferred) (round-deferred p fuel j i bs d)
            ∙ append_assoc j.deferred_jpos (j.jpos ∷ []) l.deferred;
        below = loop-below p fuel j i bs d is l;
        kept = loop-kept p fuel j i bs d is l;
        forward = omega (arith, l.forward, round-arch p fuel j i bs d);
        written = (
          loop-mapped p fuel j i bs d is l,
          inr (
            is_branch i mapped (eq_of_test _ _ unknown),
            loop-HasBytes p fuel j i bs d is l,
            (l.deferred, refl, rw (length-nops (slots_of i)) at (loop-rest p fuel j i bs d is l)),
          ),
        );
      }
    where
      eq_of_test : (a b : ℕ) → (a == b) ≡ true → a ≡ b
      eq_of_test a b e = (==_iff a b).0 e

-- Whatever instructions are left, the loop gets through them.
pub first-pass :
    (p : Program) (is : List Instruction) (fuel : ℕ) (j : Jit)
    → IsLaid p j.jpos.vm is
    → p.prog_size ≤ j.jpos.vm + fuel
    → IsMapBelow j.va2aa j.jpos.vm
    → Loop p fuel j is
first-pass p [] fuel j h enough below = record {
  final = j;
  deferred = [];
  runs = jit_loop-done p fuel p.prog_size j (ground arith);
  pushed = sym (append-nil j.deferred_jpos);
  below = λ b k. refl;
  kept = λ b k. refl;
  forward = omega arith;
  written = (refl, refl);
}
first-pass p (i ∷ is) zero j (k, b, h) enough below =
    absurd (omega (arith, encode-positive i, IsLaid-room p (j.jpos.vm + length (encode i)) is h))
first-pass p (i ∷ is) (suc fuel) j (k, b, h) enough below =
    let room : j.jpos.vm + length (encode i) ≤ p.prog_size =
      IsLaid-room p (j.jpos.vm + length (encode i)) is h in
    let again : (bs : List ℕ) (d : List JitPos) → Loop p fuel (round p fuel j i bs d) is = λ bs d.
      first-pass p is fuel (round p fuel j i bs d)
        (subst (λ a. IsLaid p a is) (sym (round-vm p fuel j i bs d)) h)
        (omega (arith, encode-positive i, round-vm p fuel j i bs d))
        (round-IsMapBelow p fuel j i bs d below) in
    let next : jit_vm_instruction p (record_addr_mapping j)
        ≡ some (vm_add (length (encode i)) (put i (record_addr_mapping j))) =
      unfold record_addr_mapping in jit-put p (record_addr_mapping j) i k b room in
    let inside : j.jpos.vm < p.prog_size = omega (arith, encode-positive i) in
    elim (Bool-cases (target_in i (mapped p fuel j i is below inside next) == no_addr)) [
      | inl unknown ↦ unknown-Loop p fuel j i is below inside next unknown (again _ _)
      | inr known ↦ known-Loop p fuel j i is below inside next known (again _ _)
    ]

-- ===== src/Behaviour/Runs.antt =====
-- Runs: the fuel of `run`, the outcomes of its rounds, and where loading puts a program's bytes.
use mathlib.Core.Path.{subst}
use native.Mathlib.Nat.{zero-add}
use pcomp.Common.{
  ℕ, zero, suc, ◌+◌, ◌≤◌, ◌≡◌, refl, sym, ◌∙◌, get_or, ne→==, eq→==, List, [], ◌∷◌, arith, le→leb,
  ◌⊎◌, inl, inr, ap,
}
use pcomp.Memory.{Bytes}
use pcomp.Exe.{pc}
use pcomp.Interpreter.State.{Vm, Outcome, next, exit, abort, fault}
use pcomp.Interpreter.Run.{
  step, Result, returned, aborted, unfinished, undefined, run, write_bytes, load_program,
  exec_program,
}
use pcomp.Behaviour.Steps.{steps}

-- The run has ended, by itself or by undefined behaviour.
abbrev pub IsFinished : Result → Type 0
IsFinished (unfinished s) = ⊥
IsFinished _ = Unit

pub Outcome-cases :
    (o : Outcome)
    → ((s : Vm) × (o ≡ next s))
      ⊎ (((s : Vm) × (o ≡ exit s)) ⊎ (((s : Vm) × (o ≡ abort s)) ⊎ (o ≡ fault)))
Outcome-cases (next s) = inl (s, refl)
Outcome-cases (exit s) = inr (inl (s, refl))
Outcome-cases (abort s) = inr (inr (inl (s, refl)))
Outcome-cases fault = inr (inr (inr refl))

-- One round of the dispatch loop, for each outcome of the instruction.
module _ (n : ℕ) (s s' : Vm) where
  pub run-next : step s ≡ next s' → run (suc n) s ≡ run n s'
  unfolding run
  run-next e = rw (e, run) refl

  pub run-exit : step s ≡ exit s' → run (suc n) s ≡ returned s'
  unfolding run
  run-exit e = rw (e, run) refl

  pub run-abort : step s ≡ abort s' → run (suc n) s ≡ aborted s'
  unfolding run
  run-abort e = rw (e, run) refl

pub run-fault : (n : ℕ) (s : Vm) → step s ≡ fault → run (suc n) s ≡ undefined
unfolding run
run-fault n s e = rw (e, run) refl

suc-add : (n k : ℕ) → suc n + k ≡ suc (n + k)
suc-add n k = omega arith

-- A run that ends is not changed by more fuel.
run-more : (n k : ℕ) (s : Vm) → IsFinished (run n s) → run (n + k) s ≡ run n s
run-more zero k s h = absurd (unfold run in h)
run-more (suc n) k s h = rw suc-add (elim (Outcome-cases (step s)) [
  | inl (s', e) ↦
      run-next (n + k) s s' e
      ∙ run-more n k s' (subst IsFinished (run-next n s s' e) h)
      ∙ sym (run-next n s s' e)
  | inr (inl (s', e)) ↦ run-exit (n + k) s s' e ∙ sym (run-exit n s s' e)
  | inr (inr (inl (s', e))) ↦ run-abort (n + k) s s' e ∙ sym (run-abort n s s' e)
  | inr (inr (inr e)) ↦ run-fault (n + k) s e ∙ sym (run-fault n s e)
])

next-injective : {s t : Vm} → next s ≡ next t → s ≡ t
next-injective {s} {t} e = ap (λ o. elim o [ next u ↦ u | exit u ↦ u | abort u ↦ u | fault ↦ s ]) e

-- Instructions that go on use up as much fuel: a run may be taken apart after them.
run-steps : (n k : ℕ) (s s' : Vm) → steps n s ≡ next s' → run (n + k) s ≡ run k s'
unfolding steps
run-steps zero k s s' e = rw (next-injective e, zero-add) refl
run-steps (suc n) k s s' e = rw suc-add (elim (Outcome-cases (step s)) [
  | inl (t, p) ↦ run-next (n + k) s t p ∙ run-steps n k t s' (rw p at e)
  | inr (inl (t, p)) ↦ absurd (cc p)
  | inr (inr (inl (t, p))) ↦ absurd (cc p)
  | inr (inr (inr p)) ↦ absurd (cc p)
])

-- Where the bytes of a program go.
write_bytes-get_or :
    (bs : List ℕ) (a i : ℕ) (m : Bytes) → write_bytes bs a m (a + i) ≡ get_or bs i (m (a + i))
unfolding write_bytes
write_bytes-get_or [] a i m = refl
write_bytes-get_or (b ∷ bs) a zero m = rw (eq→== a (a + 0) (omega arith)) refl
write_bytes-get_or (b ∷ bs) a (suc i) m =
    let e : a + suc i ≡ a + 1 + i = omega arith in
    rw (ne→== a (a + suc i) (omega arith), e) (write_bytes-get_or bs (a + 1) i m)

-- Loading puts the byte of the program at every address below the program's length and changes no
-- other byte, wherever the allocated memory ends: the two sizes are not compared, so a program
-- longer than the memory is copied over what lies behind it.
pub load_program-copies :
    (prog : List ℕ) (s : Vm) (a : ℕ) → (load_program prog s).mem a ≡ get_or prog a (s.mem a)
unfolding load_program
load_program-copies prog s a =
    subst (λ c. write_bytes prog 0 s.mem c ≡ get_or prog a (s.mem c)) (zero-add a)
      (write_bytes-get_or prog 0 a s.mem)

exec_program_short : (fuel n : ℕ) (s : Vm) → n ≤ s.reg pc → exec_program fuel n s ≡ returned s
unfolding exec_program
exec_program_short fuel n s h = rw (le→leb n (s.reg pc) h) refl

-- ===== src/X64/Loop.antt =====
-- The translation of a whole program: the rounds that it needs, and the places that it defers.
use pcomp.Common.{
  ℕ, zero, suc, ◌+◌, ◌≤◌, ◌<◌, ◌≡◌, refl, ◌∙◌, sym, true, false, List, [], ◌∷◌, ◌++◌, All, Option,
  none, some, arith, Bool-cases, inl, inr, ltb, some-injective,
}
use mathlib.Core.Path.{subst}
use pcomp.Exe.{VmInstr, instr, instr_handle}
use pcomp.Jit.{◌>>=◌, JitPos, Jit, Program, prog_byte, record_addr_mapping, jit_loop, jit_deferred}
use pcomp.Jit
use pcomp.X64.Jit.{jit_instr, jit_vm_instruction, jit_program}
use pcomp.X64.Slots.{
  slots, slots_at, IsBranchAt, IsMapped, IsResolved, IsOutside, jit_deferred-patches,
}
use pcomp.X64.Progress.{Holds, Holds-bind, Moved, jit_instr-Moved}

prog_byte-bytes : (p : Program) (a b : ℕ) → prog_byte p a ≡ some b → p.bytes a ≡ b
unfolding prog_byte
prog_byte-bytes p a b e = elim (Bool-cases (ltb a p.prog_size)) [
  | inl t ↦ some-injective (rw t at e)
  | inr f ↦ absurd (no (rw f at e))
]
  where
    no : {y : ℕ} → none ≡ some y → ⊥
    no q = cc q

Holds-map : {P Q : Jit → Type 0} (o : Option Jit) → ((k : Jit) → P k → Q k) → Holds P o → Holds Q o
Holds-map none f h = tt
Holds-map (some k) f h = f k h

-- One round, whatever instruction stands at the place.
Round : Program → Jit → Jit → Type 0
Round p j j' = (i : VmInstr) × (instr_handle (instr (p.bytes j.jpos.vm)) ≡ some i) × Moved p i j j'

jit_vm_instruction-Round : (p : Program) (j : Jit) → Holds (Round p j) (jit_vm_instruction p j)
unfolding jit_vm_instruction Round
jit_vm_instruction-Round p j = Holds-bind (Round p j) (prog_byte p j.jpos.vm) _ λ b e.
    Holds-bind (Round p j) (instr_handle (instr b)) _ λ i q.
      Holds-map (jit_instr p i j) (λ j' m. (i, rw (prog_byte-bytes p j.jpos.vm b e) q, m))
        (jit_instr-Moved p i j)

bind-congr :
    (o : Option Jit) (f g : Jit → Option Jit) → Holds (λ j. f j ≡ g j) o → (o >>= f) ≡ (o >>= g)
bind-congr none f g h = refl
bind-congr (some j) f g h = h

ltb→lt : (a b : ℕ) → ltb a b ≡ true → a < b
ltb→lt a b h = ground arith

pub jit_loop-done :
    (p : Program) (fuel n : ℕ) (j : Jit)
    → ltb j.jpos.vm n ≡ false
    → jit_loop (jit_vm_instruction p) fuel n j ≡ some j
unfolding jit_loop
jit_loop-done p zero n j h = rw h refl
jit_loop-done p (suc fuel) n j h = rw h refl

suc-add : (n k : ℕ) → suc n + k ≡ suc (n + k)
suc-add n k = omega arith

-- Rounds beyond the bytes that are left to translate change nothing, so the `prog_size` rounds that
-- the program's translation is given are as good as a loop without a bound.
pub jit_loop-more :
    (p : Program) (fuel k n : ℕ) (j : Jit)
    → n ≤ j.jpos.vm + fuel
    → jit_loop (jit_vm_instruction p) (fuel + k) n j ≡ jit_loop (jit_vm_instruction p) fuel n j
unfolding jit_loop record_addr_mapping Round
jit_loop-more p zero k n j h =
    jit_loop-done p (0 + k) n j (ground arith) ∙ sym (jit_loop-done p 0 n j (ground arith))
jit_loop-more p (suc fuel) k n j h = rw suc-add (elim (Bool-cases (ltb j.jpos.vm n)) [
  | inl more ↦ rw more (
      bind-congr (jit_vm_instruction p (record_addr_mapping j)) _ _ (
        Holds-map {P = Round p (record_addr_mapping j)} _
          (λ j' (i, e, m). jit_loop-more p fuel k n j' (omega (arith, m.vm)))
          (jit_vm_instruction-Round p (record_addr_mapping j))))
  | inr done ↦ rw done refl
])

-- Branches whose slots lie one behind the other, from `lo` up to `hi` at most.
abbrev pub IsReserved : Program → ℕ → List JitPos → ℕ → Type 0
IsReserved p lo [] hi = lo ≤ hi
IsReserved p lo (jp ∷ jps) hi =
    (lo ≤ jp.arch) × IsBranchAt p jp.vm × IsReserved p (jp.arch + slots_at p jp.vm) jps hi

IsReserved-weaken :
    (p : Program) (lo : ℕ) (jps : List JitPos) (hi hi' : ℕ)
    → hi ≤ hi'
    → IsReserved p lo jps hi
    → IsReserved p lo jps hi'
IsReserved-weaken p lo [] hi hi' h k = omega arith
IsReserved-weaken p lo (jp ∷ jps) hi hi' h (l, b, k) =
    (l, b, IsReserved-weaken p (jp.arch + slots_at p jp.vm) jps hi hi' h k)

IsReserved-snoc :
    (p : Program) (lo : ℕ) (jps : List JitPos) (hi : ℕ) (jp : JitPos)
    → hi ≤ jp.arch
    → IsBranchAt p jp.vm
    → IsReserved p lo jps hi
    → IsReserved p lo (jps ++ jp ∷ []) (jp.arch + slots_at p jp.vm)
IsReserved-snoc p lo [] hi jp h b k = (omega arith, b, omega arith)
IsReserved-snoc p lo (jq ∷ jps) hi jp h b (l, c, k) =
    (l, c, IsReserved-snoc p (jq.arch + slots_at p jq.vm) jps hi jp h b k)

-- A round keeps the deferred branches apart, and below the place where it writes.
Round-IsReserved :
    (p : Program) (lo : ℕ) (j j' : Jit)
    → Round p j j'
    → IsReserved p lo j.deferred_jpos j.jpos.arch
    → IsReserved p lo j'.deferred_jpos j'.jpos.arch
unfolding Round
Round-IsReserved p lo j j' (i, e, m) k = elim m.deferred [
  | inl same ↦ rw same (IsReserved-weaken p lo j.deferred_jpos j.jpos.arch j'.jpos.arch m.arch k)
  | inr o ↦
      let b : IsBranchAt p j.jpos.vm = record {
        instruction = i;
        is_branch = o.is_branch;
        opcode = e;
        size = o.size;
      } in
      let n : slots i ≡ slots_at p j.jpos.vm = rw (slots_at, e) refl in
      rw (o.pushed, o.reserved, n)
        (IsReserved-snoc p lo j.deferred_jpos j.jpos.arch j.jpos (omega arith) b k)
]

bind-some :
    (o : Option Jit) (f : Jit → Option Jit) (k : Jit)
    → (o >>= f) ≡ some k
    → (j : Jit) × (o ≡ some j) × (f j ≡ some k)
bind-some none f k e = absurd (cc e)
bind-some (some j) f k e = (j, refl, e)

jit_loop-IsReserved :
    (p : Program) (lo fuel n : ℕ) (j j' : Jit)
    → jit_loop (jit_vm_instruction p) fuel n j ≡ some j'
    → IsReserved p lo j.deferred_jpos j.jpos.arch
    → IsReserved p lo j'.deferred_jpos j'.jpos.arch
unfolding jit_loop record_addr_mapping
jit_loop-IsReserved p lo zero n j j' e k = elim (Bool-cases (ltb j.jpos.vm n)) [
  | inl more ↦ absurd (cc (rw more at e))
  | inr done ↦
      subst (λ s. IsReserved p lo s.deferred_jpos s.jpos.arch) (some-injective (rw done at e)) k
]
jit_loop-IsReserved p lo (suc fuel) n j j' e k = elim (Bool-cases (ltb j.jpos.vm n)) [
  | inl more ↦
      let (j₁, e₁, e₂) =
        bind-some (jit_vm_instruction p (record_addr_mapping j))
          (jit_loop (jit_vm_instruction p) fuel n) j' (rw more at e) in
      jit_loop-IsReserved p lo fuel n j₁ j' e₂ (
        Round-IsReserved p lo (record_addr_mapping j) j₁
          (rw e₁ at (jit_vm_instruction-Round p (record_addr_mapping j))) k)
  | inr done ↦
      subst (λ s. IsReserved p lo s.deferred_jpos s.jpos.arch) (some-injective (rw done at e)) k
]

resolved :
    (p : Program) (lo : ℕ) (jps : List JitPos) (hi : ℕ) (va2aa : ℕ → Option ℕ)
    → IsReserved p lo jps hi
    → All (λ jp. IsMapped p va2aa jp.vm) jps
    → All (IsResolved p va2aa) jps
resolved p lo [] hi va2aa k m = tt
resolved p lo (jp ∷ jps) hi va2aa (l, b, k) (m, ms) =
    ((b, m), resolved p (jp.arch + slots_at p jp.vm) jps hi va2aa k ms)

-- Let the loop over the program, which starts with nothing deferred, end in `j₁`. Then the deferred
-- places hold whole branches whose slots are disjoint and within the code that was written. If each
-- of their targets has code, then the translation succeeds: it ends where the loop ended, with the
-- same address map, and its second pass has changed the code in those slots only.
pub jit_program-patches :
    (p : Program) (j j₁ : Jit)
    → j.deferred_jpos ≡ []
    → jit_loop (jit_vm_instruction p) p.prog_size p.prog_size j ≡ some j₁
    → All (λ jp. IsMapped p j₁.va2aa jp.vm) j₁.deferred_jpos
    → IsReserved p j.jpos.arch j₁.deferred_jpos j₁.jpos.arch
      × ((j' : Jit) × (jit_program p j ≡ some j')
          × (j'.jpos ≡ j₁.jpos)
          × (j'.va2aa ≡ j₁.va2aa)
          × ((a : ℕ) → IsOutside p j₁.deferred_jpos a → j'.text a ≡ j₁.text a))
unfolding jit_program Jit.jit_program
jit_program-patches p j j₁ empty e m =
    let k : IsReserved p j.jpos.arch j₁.deferred_jpos j₁.jpos.arch =
      jit_loop-IsReserved p j.jpos.arch p.prog_size p.prog_size j j₁ e (rw empty (omega arith)) in
    let (j', q, here, d, map, text) =
      jit_deferred-patches p j₁
        (resolved p j.jpos.arch j₁.deferred_jpos j₁.jpos.arch j₁.va2aa k m) in
    (k, (j', rw e q, here, map, text))

-- ===== src/X64/Placed/SecondPass.antt =====
-- `jit_deferred` over the places that the loop has put off, when each of their targets has code.
use pcomp.Common.{
  ℕ, ◌+◌, ◌-◌, ◌≤◌, ◌<◌, ◌≡◌, ◌≢◌, refl, sym, ap, ◌∙◌, List, [], ◌∷◌, ◌++◌, append-nil, length,
  Option, some, arith, ◌⊎◌, inl, inr, eq→==, ne→==, All,
}
use mathlib.Core.Path.{subst}
use pcomp.Memory.{Bytes, HasBytes}
use pcomp.Memory.Laws.{HasBytes-same}
use pcomp.Spec.{Instruction, encode}
use pcomp.Jit.{JitPos, Jit, Program, emit, vm_add, no_addr, for_each_deferred}
use pcomp.Jit.Code.{emit-outside, emit-rest, emit-HasBytes}
use pcomp.X64.Jit.{jit_vm_instruction}
use pcomp.X64.Placed.Code.{code_of, code_of-fits, target_in, slots_of, put, jit-put}
use pcomp.X64.Placed.FirstPass.{IsLaid, IsLaid-room, IsWritten, nops}
use pcomp.X64.Placed.Padding.{HasBytes-padded}

-- The code from `c` to `end` for the instructions from `a` on, at the end: each address is mapped to
-- its code, behind which the rest of the slots is filled with `nop`.
abbrev pub IsFinished : (ℕ → Option ℕ) → Bytes → ℕ → ℕ → List Instruction → ℕ → Type 0
IsFinished m t a c [] end = c ≡ end
IsFinished m t a c (i ∷ is) end =
    (m a ≡ some c)
    × ((n : ℕ) × HasBytes t c (code_of i (target_in i m) c ++ nops n)
        × IsFinished m t (a + length (encode i))
            (c + length (code_of i (target_in i m) c ++ nops n)) is end)

pub IsWritten-forward :
    (is : List Instruction) (m : ℕ → Option ℕ) (t : Bytes) (a c : ℕ) (ds : List JitPos) (end : ℕ)
    → IsWritten m t a c is ds end
    → c ≤ end
IsWritten-forward [] m t a c ds end (_, h) = omega arith
IsWritten-forward (i ∷ is) m t a c ds end (_, inl (_, _, h)) =
    omega (arith, IsWritten-forward is m t _ _ ds end h)
IsWritten-forward (i ∷ is) m t a c ds end (_, inr (_, _, (rest, _, h))) =
    omega (arith, IsWritten-forward is m t _ _ rest end h)

-- What is written below `c` does not matter.
IsWritten-same :
    (is : List Instruction) (m : ℕ → Option ℕ) (t t' : Bytes) (a c : ℕ) (ds : List JitPos) (end : ℕ)
    → ((b : ℕ) → c ≤ b → t' b ≡ t b)
    → IsWritten m t a c is ds end
    → IsWritten m t' a c is ds end
IsWritten-same [] m t t' a c ds end f h = h
IsWritten-same (i ∷ is) m t t' a c ds end f (e, inl (k, b, h)) = (
  e,
  inl (
    k,
    HasBytes-same t' t c _ (λ q lo hi. f q lo) b,
    IsWritten-same is m t t' _ _ ds end (λ q lo. f q (omega arith)) h,
  ),
)
IsWritten-same (i ∷ is) m t t' a c ds end f (e, inr (k, b, (rest, d, h))) = (
  e,
  inr (
    k,
    HasBytes-same t' t c _ (λ q lo hi. f q lo) b,
    (rest, d, IsWritten-same is m t t' _ _ rest end (λ q lo. f q (omega arith)) h),
  ),
)

-- Every target has code.
abbrev pub IsKnown : (ℕ → Option ℕ) → List Instruction → Type 0
IsKnown m = All (λ i. target_in i m ≢ no_addr)

-- What the rest of the deferred places, from `j`, does.
pub record Deferred (p : Program) (j : Jit) (a c : ℕ) (is : List Instruction) (ds : List JitPos)
    (end : ℕ) : Type 0 where
  pub final : Jit
  pub runs : for_each_deferred (jit_vm_instruction p) ds j ≡ some final
  pub same_deferred : final.deferred_jpos ≡ j.deferred_jpos
  pub same_map : final.va2aa ≡ j.va2aa
  pub below : (b : ℕ) → b < c → final.text b ≡ j.text b
  pub finished : IsFinished j.va2aa final.text a c is end

module _ (p : Program) (j : Jit) (a c : ℕ) (i : Instruction)
    (known : target_in i j.va2aa ≢ no_addr) where
  abbrev bs : List ℕ
  bs = code_of i (target_in i j.va2aa) c

  -- The place is translated again, and now its target has code.
  abbrev jp : JitPos
  jp = record { arch = c; vm = a }

  abbrev again : Jit
  again = vm_add (length (encode i)) (emit bs (record j { jpos = jp }))

  again-runs :
      jit_vm_instruction p (record j { jpos = jp })
        ≡ some (vm_add (length (encode i)) (put i (record j { jpos = jp })))
      → jit_vm_instruction p (record j { jpos = jp }) ≡ some again
  again-runs e = rw (ne→== (target_in i j.va2aa) no_addr known) at (e)

  for_each-again :
      (rest : List JitPos)
      → jit_vm_instruction p (record j { jpos = jp }) ≡ some again
      → for_each_deferred (jit_vm_instruction p) (jp ∷ rest) j
        ≡ for_each_deferred (jit_vm_instruction p) rest again
  unfolding for_each_deferred
  for_each-again rest e =
      rw
        (
          e,
          eq→== (length again.deferred_jpos) (length j.deferred_jpos)
              (ap length (emit-rest bs (record j { jpos = jp })).1),
        )
        refl

  again-text : (b : ℕ) → (b < c) ⊎ (c + length bs ≤ b) → again.text b ≡ j.text b
  again-text b h = emit-outside bs (record j { jpos = jp }) b (omega arith)

pub second-pass :
    (p : Program) (is : List Instruction) (a c : ℕ) (ds : List JitPos) (end : ℕ) (j : Jit)
    → IsLaid p a is
    → IsKnown j.va2aa is
    → IsWritten j.va2aa j.text a c is ds end
    → Deferred p j a c is ds end
unfolding for_each_deferred
second-pass p [] a c ds end j laid known (none_left, e) = record {
  final = j;
  runs = rw none_left refl;
  same_deferred = refl;
  same_map = refl;
  below = λ b h. refl;
  finished = e;
}
second-pass p (i ∷ is) a c ds end j (k, b, laid) (here, known) (mapped, inl (_, code, w)) =
    let cs : List ℕ = code_of i (target_in i j.va2aa) c in
    let d : Deferred p j (a + length (encode i)) (c + length cs) is ds end =
      second-pass p is (a + length (encode i)) (c + length cs) ds end j laid known w in
    let full : cs ++ nops 0 ≡ cs = append-nil cs in
    record {
      final = d.final;
      runs = d.runs;
      same_deferred = d.same_deferred;
      same_map = d.same_map;
      below = λ q h. d.below q (omega arith);
      finished = (
        mapped,
        (
          0,
          rw full
              (HasBytes-same d.final.text j.text c cs (λ q lo hi. d.below q (omega arith)) code),
          rw full (d.finished),
        ),
      );
    }
second-pass p (i ∷ is) a c ds end j (k, b, laid) (here, known)
      (mapped, inr (branch, slots, (rest, e, w))) =
    let cs : List ℕ = code_of i (target_in i j.va2aa) c in
    let j₁ : Jit = again p j a c i here in
    let fit : length cs ≤ slots_of i = code_of-fits i (target_in i j.va2aa) c branch in
    let map : j₁.va2aa ≡ j.va2aa =
      (emit-rest cs (record j { jpos = record { arch = c; vm = a } })).2 in
    let old : (q : ℕ) → (q < c) ⊎ (c + length cs ≤ q) → j₁.text q ≡ j.text q =
      again-text p j a c i here in
    let w₁ : IsWritten j.va2aa j₁.text (a + length (encode i)) (c + slots_of i) is rest end =
      IsWritten-same is j.va2aa j.text j₁.text _ _ rest end (λ q lo. old q (inr (omega arith))) w in
    let d : Deferred p j₁ (a + length (encode i)) (c + slots_of i) is rest end =
      second-pass p is (a + length (encode i)) (c + slots_of i) rest end j₁ laid
        (subst (λ m. IsKnown m is) (sym map) known)
        (subst (λ m. IsWritten m j₁.text (a + length (encode i)) (c + slots_of i) is rest end)
          (sym map) w₁) in
    let (bytes, whole) =
      HasBytes-padded d.final.text c (slots_of i) cs fit
        (HasBytes-same d.final.text j₁.text c cs (λ q lo hi. d.below q (omega arith))
          (emit-HasBytes cs (record j { jpos = record { arch = c; vm = a } })))
        (j.text, slots, λ q lo hi. d.below q hi ∙ old q (inr lo)) in
    let room : a + length (encode i) ≤ p.prog_size =
      IsLaid-room p (a + length (encode i)) is laid in
    record {
      final = d.final;
      runs = rw e (
          for_each-again p j a c i here rest (
            again-runs p j a c i here
              (jit-put p (record j { jpos = record { arch = c; vm = a } }) i k b room))
          ∙ d.runs);
      same_deferred =
          d.same_deferred ∙ (emit-rest cs (record j { jpos = record { arch = c; vm = a } })).1;
      same_map = d.same_map ∙ map;
      below = λ q h. d.below q (omega arith) ∙ old q (inl h);
      finished = (
        mapped,
        (
          slots_of i - length cs,
          bytes,
          rw whole (
              subst (λ m. IsFinished m d.final.text (a + length (encode i)) (c + slots_of i) is end)
                map d.finished),
        ),
      );
    }

-- ===== src/X64/Placed/At.antt =====
-- One instruction of a program and its code.
use pcomp.Common.{
  ℕ, ◌+◌, ◌≤◌, ◌≡◌, sym, ap, ◌∙◌, List, [], ◌∷◌, ◌++◌, length, Option, some, arith, ◌⊎◌, inl, inr,
}
use mathlib.Core.Path.{subst}
use pcomp.Memory.{Bytes, HasBytes}
use pcomp.Spec.{Instruction, encode, IsInstruction}
use pcomp.Jit.{Program}
use pcomp.X64.Placed.Code.{code_of, target_in}
use pcomp.X64.Placed.FirstPass.{IsLaid, IsLaid-room, nops}
use pcomp.X64.Placed.SecondPass.{IsFinished}
use pcomp.X64.Placed.Bound.{IsStart}

-- `i` is the instruction at `b`, of those from `a` on.
abbrev pub StandsAt : ℕ → List Instruction → ℕ → Instruction → Type 0
StandsAt a [] b i = ⊥
StandsAt a (k ∷ is) b i = ((a ≡ b) × (k ≡ i)) ⊎ StandsAt (a + length (encode k)) is b i

-- Address `b` of the program is at `d` in the code: that of an instruction, or the end of both.
abbrev pub IsAt : Program → (ℕ → Option ℕ) → ℕ → ℕ → ℕ → Type 0
IsAt p m end b d = (m b ≡ some d) ⊎ ((b ≡ p.prog_size) × (d ≡ end))

-- The instruction at `b`, its code from `d` on with `n` times `nop` behind it, and what follows.
pub record Slot (p : Program) (m : ℕ → Option ℕ) (t : Bytes) (end b : ℕ) (i : Instruction)
    : Type 0 where
  pub d : ℕ
  pub n : ℕ
  pub legal : IsInstruction i
  pub bytes : HasBytes p.bytes b (encode i)
  pub room : b + length (encode i) ≤ p.prog_size
  pub mapped : m b ≡ some d
  pub code : HasBytes t d (code_of i (target_in i m) d ++ nops n)
  pub next :
      IsAt p m end (b + length (encode i)) (d + length (code_of i (target_in i m) d ++ nops n))

IsFinished-first :
    (p : Program) (is : List Instruction) (m : ℕ → Option ℕ) (t : Bytes) (a c end : ℕ)
    → IsLaid p a is
    → IsFinished m t a c is end
    → IsAt p m end a c
IsFinished-first p [] m t a c end laid f = inr (laid, f)
IsFinished-first p (i ∷ is) m t a c end laid (e, _) = inl e

IsFinished-forward :
    (is : List Instruction) (m : ℕ → Option ℕ) (t : Bytes) (a c end : ℕ)
    → IsFinished m t a c is end
    → c ≤ end
IsFinished-forward [] m t a c end f = omega arith
IsFinished-forward (i ∷ is) m t a c end (_, (n, _, f)) =
    omega (arith, IsFinished-forward is m t _ _ end f)

pub StandsAt-Slot :
    (p : Program) (is : List Instruction) (m : ℕ → Option ℕ) (t : Bytes) (a c end b : ℕ)
    (i : Instruction)
    → IsLaid p a is
    → IsFinished m t a c is end
    → StandsAt a is b i
    → (l : Slot p m t end b i) × (a ≤ b)
      × (c ≤ l.d)
      × (l.d + length (code_of i (target_in i m) l.d ++ nops l.n) ≤ end)
StandsAt-Slot p [] m t a c end b i laid f s = absurd s
StandsAt-Slot p (k ∷ is) m t a c end b i (legal, bytes, laid) (e, (n, code, f)) (inl (same, is_i)) =
    let whole : (l : Slot p m t end a k) × (a ≤ a)
        × (c ≤ l.d)
        × (l.d + length (code_of k (target_in k m) l.d ++ nops l.n) ≤ end) =
      (
        record {
          d = c;
          n = n;
          legal = legal;
          bytes = bytes;
          room = IsLaid-room p (a + length (encode k)) is laid;
          mapped = e;
          code = code;
          next = IsFinished-first p is m t _ _ end laid f;
        },
        omega arith,
        omega arith,
        IsFinished-forward is m t _ _ end f,
      ) in
    subst
      (λ q.
        (l : Slot p m t end b q) × (a ≤ b)
        × (c ≤ l.d)
        × (l.d + length (code_of q (target_in q m) l.d ++ nops l.n) ≤ end))
      is_i
      (subst
        (λ q.
          (l : Slot p m t end q k) × (a ≤ q)
          × (c ≤ l.d)
          × (l.d + length (code_of k (target_in k m) l.d ++ nops l.n) ≤ end))
        same whole)
StandsAt-Slot p (k ∷ is) m t a c end b i (legal, bytes, laid) (e, (n, code, f)) (inr s) =
    let (l, lo, first, last) = StandsAt-Slot p is m t _ _ end b i laid f s in
    (l, omega arith, omega arith, last)

pub IsFinished-start :
    (is : List Instruction) (m : ℕ → Option ℕ) (t : Bytes) (a c end b : ℕ)
    → IsFinished m t a c is end
    → IsStart a is b
    → (d : ℕ) × (m b ≡ some d) × (c ≤ d) × (d ≤ end)
IsFinished-start [] m t a c end b f s = absurd s
IsFinished-start (i ∷ is) m t a c end b (e, (n, code, f)) (inl q) =
    (c, ap m (sym q) ∙ e, omega arith, IsFinished-forward (i ∷ is) m t a c end (e, (n, code, f)))
IsFinished-start (i ∷ is) m t a c end b (e, (n, code, f)) (inr s) =
    let (d, q, lo, hi) = IsFinished-start is m t _ _ end b f s in (d, q, omega arith, hi)

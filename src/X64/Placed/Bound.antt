-- ===== src/X64/Placed/Bound.antt =====
-- How much code there is, and which targets have code.
use pcomp.Common.{
  ℕ, ◌+◌, ◌*◌, ◌≤◌, ◌≡◌, ◌≢◌, refl, sym, ap, ◌∙◌, List, [], ◌∷◌, ◌++◌, length, length-append,
  Option, some, arith, ◌⊎◌, inl, inr,
}
use pcomp.Memory.{Bytes}
use pcomp.Spec.{BinOp, Source, Instruction, encode}
use pcomp.Jit.{JitPos, no_addr, bytes_of}
use pcomp.X64.Regs.{rbp, reg_base}
use pcomp.X64.Encode.{
  emit_add_reg_reg, emit_and_reg_reg, emit_or_reg_reg, emit_sub_reg_reg, emit_xor_reg_reg,
  emit_mov_reg_reg, emit_cmp_reg_reg, emit_mov_reg_imm, emit_add_reg_imm64, emit_and_reg_imm64,
  emit_cmp_reg_imm64, emit_or_reg_imm64, emit_sub_reg_imm64, emit_xor_reg_imm64, emit_not_reg,
  emit_ret, emit_mov_reg_b32d, emit_mov_b32d_reg, emit_push_reg, emit_pop_reg, sib, prefix_b,
}
use pcomp.X64.Slots.{length-mov_reg_imm, length-call_imm64, length-jmp_imm64}
use pcomp.X64.Jit.{distance}
use pcomp.X64.Machine.Binary.{emit_reg, emit_imm}
use pcomp.X64.Machine.Jump.{emit_cond-eq}
use pcomp.X64.Placed.Code.{code_of, target_in, lookup, slots_of}
use pcomp.X64.Placed.FirstPass.{IsWritten}
use pcomp.X64.Placed.SecondPass.{IsWritten-forward}

length-sib : (b : ℕ) → length (sib b) ≤ 1
unfolding sib
length-sib b = ground arith

length-prefix_b : (r : ℕ) → length (prefix_b r) ≤ 1
unfolding prefix_b reg_base
length-prefix_b r = ground arith

length-emit_reg : (op : BinOp) (rd rs : ℕ) → length (emit_reg op rd rs) ≡ 3
unfolding emit_reg emit_add_reg_reg emit_and_reg_reg emit_or_reg_reg emit_sub_reg_reg
    emit_xor_reg_reg emit_mov_reg_reg emit_cmp_reg_reg
length-emit_reg BinOp.mov rd rs = refl
length-emit_reg _ rd rs = refl

through : (op : BinOp) (rd v : ℕ) → length (emit_mov_reg_imm rbp v ++ emit_reg op rd rbp) ≤ 13
through op rd v = omega (
  arith,
  length-append (emit_mov_reg_imm rbp v) (emit_reg op rd rbp),
  length-mov_reg_imm rbp v,
  length-emit_reg op rd rbp,
)

length-emit_imm : (op : BinOp) (rd v : ℕ) → length (emit_imm op rd v) ≤ 13
unfolding emit_imm emit_reg emit_add_reg_imm64 emit_and_reg_imm64 emit_cmp_reg_imm64
    emit_or_reg_imm64 emit_sub_reg_imm64 emit_xor_reg_imm64
length-emit_imm BinOp.mov rd v = omega (arith, length-mov_reg_imm rd v)
length-emit_imm op rd v = through op rd v

-- No instruction's code takes more than 13 bytes.
code_of-length : (i : Instruction) (va arch : ℕ) → length (code_of i va arch) ≤ 13
unfolding code_of emit_mov_reg_b32d emit_mov_b32d_reg emit_not_reg emit_push_reg emit_pop_reg
    emit_ret
code_of-length (Instruction.load rd rs idx) va arch =
    omega (arith, length-append (sib _) (bytes_of 4 _), length-sib _)
code_of-length (Instruction.store rd idx rs) va arch =
    omega (arith, length-append (sib _) (bytes_of 4 _), length-sib _)
code_of-length (Instruction.binary op rd (Source.reg rs)) va arch =
    omega (arith, length-emit_reg op _ _)
code_of-length (Instruction.binary op rd (Source.imm v)) va arch = length-emit_imm op _ v
code_of-length (Instruction.not rd) va arch = omega arith
code_of-length (Instruction.push rs) va arch =
    omega (arith, length-append (prefix_b _) _, length-prefix_b _)
code_of-length (Instruction.pop rd) va arch =
    omega (arith, length-append (prefix_b _) _, length-prefix_b _)
code_of-length (Instruction.call a) va arch = length-call_imm64 va
code_of-length (Instruction.jmp a) va arch = length-jmp_imm64 va
code_of-length (Instruction.jmp_if c a) va arch =
    rw (emit_cond-eq c (distance va arch)) (omega arith)
code_of-length Instruction.ret va arch = omega arith

slots_of-bound : (i : Instruction) → slots_of i ≤ 13
slots_of-bound (Instruction.call a) = omega arith
slots_of-bound (Instruction.jmp a) = omega arith
slots_of-bound (Instruction.jmp_if c a) = omega arith
slots_of-bound _ = omega arith

pub IsWritten-bound :
    (is : List Instruction) (m : ℕ → Option ℕ) (t : Bytes) (a c : ℕ) (ds : List JitPos) (end : ℕ)
    → IsWritten m t a c is ds end
    → end ≤ c + 13 * length is
IsWritten-bound [] m t a c ds end (_, h) = omega arith
IsWritten-bound (i ∷ is) m t a c ds end (_, inl (_, _, h)) =
    omega (arith, code_of-length i (target_in i m) c, IsWritten-bound is m t _ _ ds end h)
IsWritten-bound (i ∷ is) m t a c ds end (_, inr (_, _, (rest, _, h))) =
    omega (arith, slots_of-bound i, IsWritten-bound is m t _ _ rest end h)

-- An instruction of those from `a` on stands at `b`.
abbrev pub IsStart : ℕ → List Instruction → ℕ → Type 0
IsStart a [] b = ⊥
IsStart a (i ∷ is) b = (a ≡ b) ⊎ IsStart (a + length (encode i)) is b

-- What holds of the target, where there is one.
abbrev pub HasTarget : (ℕ → Type 0) → Instruction → Type 0
HasTarget P (Instruction.call a) = P a
HasTarget P (Instruction.jmp a) = P a
HasTarget P (Instruction.jmp_if c a) = P a
HasTarget P _ = Unit

pub IsWritten-start :
    (is : List Instruction) (m : ℕ → Option ℕ) (t : Bytes) (a c : ℕ) (ds : List JitPos) (end b : ℕ)
    → IsWritten m t a c is ds end
    → IsStart a is b
    → (d : ℕ) × (m b ≡ some d) × (c ≤ d) × (d ≤ end)
IsWritten-start [] m t a c ds end b h s = absurd s
IsWritten-start (i ∷ is) m t a c ds end b (e, h) (inl q) =
    (c, ap m (sym q) ∙ e, omega arith, IsWritten-forward (i ∷ is) m t a c ds end (e, h))
IsWritten-start (i ∷ is) m t a c ds end b (e, inl (_, _, h)) (inr s) =
    let (d, q, lo, hi) = IsWritten-start is m t _ _ ds end b h s in (d, q, omega arith, hi)
IsWritten-start (i ∷ is) m t a c ds end b (e, inr (_, _, (rest, _, h))) (inr s) =
    let (d, q, lo, hi) = IsWritten-start is m t _ _ rest end b h s in (d, q, omega arith, hi)

-- A target that has code at an address is not the value for an unknown one.
pub HasTarget-known :
    (i : Instruction) (m : ℕ → Option ℕ)
    → HasTarget (λ a. (d : ℕ) × (m a ≡ some d) × (d ≢ no_addr)) i
    → target_in i m ≢ no_addr
HasTarget-known (Instruction.call a) m (d, e, ne) = λ q. ne (sym (rw (lookup, e) refl) ∙ q)
HasTarget-known (Instruction.jmp a) m (d, e, ne) = λ q. ne (sym (rw (lookup, e) refl) ∙ q)
HasTarget-known (Instruction.jmp_if c a) m (d, e, ne) = λ q. ne (sym (rw (lookup, e) refl) ∙ q)
HasTarget-known _ m h = λ q. omega arith

pub HasTarget-map :
    (P Q : ℕ → Type 0) (i : Instruction) → ((a : ℕ) → P a → Q a) → HasTarget P i → HasTarget Q i
HasTarget-map P Q (Instruction.call a) f h = f a h
HasTarget-map P Q (Instruction.jmp a) f h = f a h
HasTarget-map P Q (Instruction.jmp_if c a) f h = f a h
HasTarget-map P Q _ f h = tt

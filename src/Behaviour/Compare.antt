-- ===== src/Behaviour/Compare.antt =====
-- `_cmp` and the conditional jumps of vm/int.cc together.
use pcomp.Common.{
  ℕ, ◌+◌, ◌≤◌, ◌<◌, ◌^◌, ◌≡◌, ◌≢◌, refl, ◌∙◌, Bool, true, false, arith, if◌then◌else◌, ◌==◌, ltb_ℤ,
  List, ◌++◌, length, length-append, ne→==, sym,
}
use pcomp.Word.{IsU64, as_signed64}
use pcomp.Exe.{flags, pc}
use pcomp.Interpreter.State.{Vm, next, set_reg}
use pcomp.Interpreter.Handlers.{compare_flag}
use pcomp.Interpreter.Invariant.{IsVm, set_reg-IsVm}
use pcomp.Spec.{
  BinOp, Cond, Source, Instruction, encode, IsInstruction, source_value, HasBytes, holds, compute,
  perform, continue_at,
}
use pcomp.Behaviour.Steps.{steps, HasBytes-append, steps-perform}

-- What a condition says of the two operands of `CMP`: equality of the words, or the order of the
-- signed values.
unfoldable pub compares : Cond → ℕ → ℕ → Bool
compares Cond.eq a b = a == b
compares Cond.ne a b = if a == b then false else true
compares Cond.gt a b = ltb_ℤ (as_signed64 b) (as_signed64 a)
compares Cond.lt a b = ltb_ℤ (as_signed64 a) (as_signed64 b)
compares Cond.ge a b = if ltb_ℤ (as_signed64 a) (as_signed64 b) then false else true
compares Cond.le a b = if ltb_ℤ (as_signed64 b) (as_signed64 a) then false else true

pub holds-compare_flag :
    (c : Cond) (a b : ℕ) → IsU64 a → IsU64 b → holds c (compare_flag a b) ≡ compares c a b
unfolding holds compares compare_flag as_signed64
holds-compare_flag Cond.eq a b ha hb = ground arith
holds-compare_flag Cond.ne a b ha hb = ground arith
holds-compare_flag Cond.gt a b ha hb = ground arith
holds-compare_flag Cond.lt a b ha hb = ground arith
holds-compare_flag Cond.ge a b ha hb = ground arith
holds-compare_flag Cond.le a b ha hb = ground arith

-- What `CMP` and a jump behind it leave: the program counter is at `target`, and nothing else but
-- `FLAGS` has changed.
pub record Jumped (target : ℕ) (s s' : Vm) : Type 0 where
  pub at : s'.reg pc ≡ target
  pub registers : (r : ℕ) → r ≢ pc → r ≢ flags → s'.reg r ≡ s.reg r
  pub memory : s'.mem ≡ s.mem
  pub output : s'.out ≡ s.out

compute-cmp :
    (rd : ℕ) (src : Source) (s : Vm)
    → compute BinOp.cmp rd src s ≡ set_reg flags (compare_flag (s.reg rd) (source_value src s)) s
unfolding compute
compute-cmp rd src s = refl

perform-cmp :
    (rd : ℕ) (src : Source) (at : ℕ) (s : Vm)
    → perform (Instruction.binary BinOp.cmp rd src) at s
      ≡ continue_at
          (at + length (encode (Instruction.binary BinOp.cmp rd src)))
          (set_reg flags (compare_flag (s.reg rd) (source_value src s)) s)
unfolding perform compute
perform-cmp rd (Source.reg r) at s = refl
perform-cmp rd (Source.imm v) at s = refl

source-IsU64 :
    (rd : ℕ) (src : Source) (s : Vm) {size : ℕ}
    → IsVm size s
    → IsInstruction (Instruction.binary BinOp.cmp rd src)
    → IsU64 (source_value src s)
source-IsU64 rd (Source.reg r) s h k = h.words r
source-IsU64 rd (Source.imm v) s h k = k.1

compare_flag-lt : (a b : ℕ) → IsU64 (compare_flag a b)
unfolding compare_flag
compare_flag-lt a b = ground arith

abbrev pub compare_then_jump : Cond → ℕ → Source → ℕ → List ℕ
compare_then_jump c rd src a =
    encode (Instruction.binary BinOp.cmp rd src) ++ encode (Instruction.jmp_if c a)

perform-jmp_if :
    (c : Cond) (a : ℕ) (s : Vm) (x y n m : ℕ)
    → IsU64 x
    → IsU64 y
    → s.reg flags ≡ compare_flag x y
    → n + 9 ≡ m
    → perform (Instruction.jmp_if c a) n s ≡ continue_at (if compares c x y then a else m) s
unfolding perform
perform-jmp_if c a s x y n m hx hy e k = rw (e, holds-compare_flag c x y hx hy, k) refl

-- `CMP <Rd>, <Rs>|<imm>` with `JMP<cond>` behind it continues at the jump's address exactly when
-- the condition holds of the two operands (as words for equality, as signed numbers for order),
-- and behind the jump otherwise. Both instructions stand in memory, with legal operands.
pub cmp-jmp_if :
    (c : Cond) (rd : ℕ) (src : Source) (a : ℕ) (s : Vm) {size : ℕ}
    → IsVm size s
    → size < 2 ^ 64
    → IsInstruction (Instruction.binary BinOp.cmp rd src)
    → IsU64 a
    → HasBytes s.mem (s.reg pc) (compare_then_jump c rd src a)
    → s.reg pc + length (compare_then_jump c rd src a) ≤ size
    → (s' : Vm) × (steps 2 s ≡ next s')
      × Jumped
          (if compares c (s.reg rd) (source_value src s)
            then a
            else s.reg pc + length (compare_then_jump c rd src a))
          s
          s'
unfolding steps
cmp-jmp_if c rd src a s {size} h small k ha b room =
    let first : List ℕ = encode (Instruction.binary BinOp.cmp rd src) in
    let (b₁, b₂) = HasBytes-append s.mem (s.reg pc) first (encode (Instruction.jmp_if c a)) b in
    let x : ℕ = s.reg rd in
    let y : ℕ = source_value src s in
    let s₁ : Vm = set_reg pc (s.reg pc + length first) (set_reg flags (compare_flag x y) s) in
    let whole : length (compare_then_jump c rd src a) ≡ length first + 9 =
      length-append first (encode (Instruction.jmp_if c a)) in
    let h₁ : IsVm size s₁ =
      set_reg-IsVm pc _ _ (omega (arith, whole)) (set_reg-IsVm flags _ s (compare_flag-lt x y) h) in
    let target : ℕ =
      if compares c x y then a else s.reg pc + length (compare_then_jump c rd src a) in
    (
      set_reg pc target s₁,
      steps-perform 1 (Instruction.binary BinOp.cmp rd src) s s₁ h small k tt b₁
            (omega (arith, whole)) (perform-cmp rd src (s.reg pc) s)
          ∙ steps-perform 0 (Instruction.jmp_if c a) s₁ (set_reg pc target s₁) h₁ small ha tt b₂
              (omega (arith, whole))
              (perform-jmp_if c a s₁ x y _ _ (h.words rd) (source-IsU64 rd src s h k) refl
                (omega (arith, whole))),
      record {
        at = refl;
        registers =
            λ r np nf. rw (ne→== pc r (λ q. np (sym q)), ne→== flags r (λ q. nf (sym q))) refl;
        memory = refl;
        output = refl;
      },
    )

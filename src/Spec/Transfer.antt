-- ===== src/Spec/Transfer.antt =====
-- `load`, `store`, `not`, `push` and `pop` do what the description says.
use pcomp.Common.{ℕ, ◌+◌, ◌^◌, ◌≤◌, ◌<◌, ◌≡◌, refl, ap, ◌∙◌, Option, none, some, arith, ne→==}
use pcomp.Exe.{VmInstr, sp, pc}
use pcomp.Interpreter.State.{
  Vm, Outcome, ◌>>=◌, mem_dword, store_dword, set_reg, dispatch, sp_add, sp_sub,
}
use pcomp.Interpreter.Handlers.{exec_load, exec_store, exec_not, exec_push, exec_pop, exec_instr}
use pcomp.Interpreter.Run.{step}
use pcomp.Interpreter.Invariant.{IsVm, store_dword-inv}
use pcomp.Spec.{
  Instruction, le_bytes, encode, IsOperand, IsInstruction, continue_at, address, perform, HasBytes,
}
use pcomp.Spec.Layout.{pc_plus-eq}
use pcomp.Spec.Decode.{
  add64-address, operand_byte, operand_fields, idx_at, dispatch-set_reg, step-exec_instr,
  HasBytes-at,
}

pub bind_congr :
    {A : Type 0} (o : Option A) (f g : A → Outcome)
    → ((a : A) → o ≡ some a → f a ≡ g a)
    → (o >>= f) ≡ (o >>= g)
bind_congr none f g h = refl
bind_congr (some a) f g h = h a refl

module _ (s : Vm) {size : ℕ} (h : IsVm size s) (small : size < 2 ^ 64) where
  -- Where the program counter has not moved, the next instruction is `n` bytes on.
  pub dispatch-pc :
      (n : ℕ) (t : Vm)
      → t.reg pc ≡ s.reg pc
      → s.reg pc + n ≤ size
      → dispatch n t ≡ continue_at (s.reg pc + n) t
  dispatch-pc n t e room =
      rw (e, pc_plus-eq s (omega (arith, h.sized)) n (omega (arith, h.sized))) refl

  dispatch-store :
      (n a v : ℕ) (k : ℕ → ℕ) (s' : Vm)
      → k pc ≡ s.reg pc
      → s.reg pc + n ≤ size
      → store_dword (record s { reg = k }) a v ≡ some s'
      → dispatch n s' ≡ continue_at (s.reg pc + n) s'
  dispatch-store n a v k s' e room stored =
      dispatch-pc n s'
        (ap (λ t. t.reg pc) (store_dword-inv (record s { reg = k }) a v s' stored).1 ∙ e) room

  pub step-load :
      (rd rs idx : ℕ)
      → IsInstruction (Instruction.load rd rs idx)
      → HasBytes s.mem (s.reg pc) (encode (Instruction.load rd rs idx))
      → s.reg pc + 4 ≤ size
      → step s ≡ perform (Instruction.load rd rs idx) (s.reg pc) s
  unfolding exec_instr exec_load perform
  step-load rd rs idx (hd, hs, hi) (b₀, (b₁, bs)) room =
      step-exec_instr s h small VmInstr.load 2 (omega arith) b₀ (omega arith)
      ∙ rw
          (
            operand_byte s h small rd rs hd.0 hs.0 b₁ (omega arith),
            idx_at s h small idx hi room (HasBytes-at s.mem _ _ (le_bytes 2 idx) (omega arith) bs),
            (operand_fields s h small rd rs hd.0 hs.0 b₁ (omega arith)).0,
            (operand_fields s h small rd rs hd.0 hs.0 b₁ (omega arith)).1,
            add64-address (s.reg rs) idx (h.words rs) hi,
          )
          (bind_congr (mem_dword s (address (s.reg rs) idx)) _ _
            λ v _. dispatch-set_reg s h small 4 rd v hd.2 room)

  pub step-store :
      (rd idx rs : ℕ)
      → IsInstruction (Instruction.store rd idx rs)
      → HasBytes s.mem (s.reg pc) (encode (Instruction.store rd idx rs))
      → s.reg pc + 4 ≤ size
      → step s ≡ perform (Instruction.store rd idx rs) (s.reg pc) s
  unfolding exec_instr exec_store perform
  step-store rd idx rs (hd, hs, hi) (b₀, (b₁, bs)) room =
      step-exec_instr s h small VmInstr.store 2 (omega arith) b₀ (omega arith)
      ∙ rw
          (
            operand_byte s h small rd rs hd.0 hs.0 b₁ (omega arith),
            idx_at s h small idx hi room (HasBytes-at s.mem _ _ (le_bytes 2 idx) (omega arith) bs),
            (operand_fields s h small rd rs hd.0 hs.0 b₁ (omega arith)).0,
            (operand_fields s h small rd rs hd.0 hs.0 b₁ (omega arith)).1,
            add64-address (s.reg rd) idx (h.words rd) hi,
          )
          (bind_congr (store_dword s (address (s.reg rd) idx) (s.reg rs)) _ _
            λ s' e. dispatch-store 4 _ _ s.reg s' refl room e)

  pub step-not :
      (rd : ℕ)
      → IsOperand rd
      → HasBytes s.mem (s.reg pc) (encode (Instruction.not rd))
      → s.reg pc + 2 ≤ size
      → step s ≡ perform (Instruction.not rd) (s.reg pc) s
  unfolding exec_instr exec_not perform
  step-not rd hd (b₀, (b₁, _)) room =
      step-exec_instr s h small VmInstr.not 0 (omega arith) b₀ (omega arith)
      ∙ rw
          (
            operand_byte s h small rd 0 hd.0 (omega arith) b₁ (omega arith),
            (operand_fields s h small rd 0 hd.0 (omega arith) b₁ (omega arith)).0,
          )
          (dispatch-set_reg s h small 2 rd _ hd.2 room)

  pub step-push :
      (rs : ℕ)
      → IsOperand rs
      → HasBytes s.mem (s.reg pc) (encode (Instruction.push rs))
      → s.reg pc + 2 ≤ size
      → step s ≡ perform (Instruction.push rs) (s.reg pc) s
  unfolding exec_instr exec_push perform
  step-push rs hd (b₀, (b₁, _)) room =
      step-exec_instr s h small VmInstr.push 0 (omega arith) b₀ (omega arith)
      ∙ rw
          (
            operand_byte s h small rs 0 hd.0 (omega arith) b₁ (omega arith),
            (operand_fields s h small rs 0 hd.0 (omega arith) b₁ (omega arith)).0,
          )
          (bind_congr (store_dword (sp_sub 8 s) ((sp_sub 8 s).reg sp) ((sp_sub 8 s).reg rs)) _ _
            λ s' e. dispatch-store 2 _ _ (sp_sub 8 s).reg s' refl room e)

  pub step-pop :
      (rd : ℕ)
      → IsOperand rd
      → HasBytes s.mem (s.reg pc) (encode (Instruction.pop rd))
      → s.reg pc + 2 ≤ size
      → step s ≡ perform (Instruction.pop rd) (s.reg pc) s
  unfolding exec_instr exec_pop perform
  step-pop rd hd (b₀, (b₁, _)) room =
      step-exec_instr s h small VmInstr.pop 0 (omega arith) b₀ (omega arith)
      ∙ rw
          (
            operand_byte s h small rd 0 hd.0 (omega arith) b₁ (omega arith),
            (operand_fields s h small rd 0 hd.0 (omega arith) b₁ (omega arith)).0,
          )
          (bind_congr (mem_dword s (s.reg sp)) _ _
            λ v _. dispatch-pc 2 (sp_add 8 (set_reg rd v s)) (rw (ne→== rd pc hd.2) refl) room)

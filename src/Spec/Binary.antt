-- ===== src/Spec/Binary.antt =====
-- The two-operand instructions do what the description says.
use pcomp.Common.{ℕ, ◌+◌, ◌^◌, ◌≤◌, ◌<◌, ◌≡◌, ◌≢◌, refl, sym, ap, ◌∙◌, arith, ne→==}
use Prim.Native.Nat.{bit_or-bitwise}
use pcomp.Word.{IsU64}
use pcomp.Exe.{flags, pc}
use pcomp.Interpreter.State.{Vm, set_reg, dispatch}
use pcomp.Interpreter.Handlers.{
  Operand, value, two_operands, mov_body, add_body, sub_body, and_body, or_body, xor_body, cmp_body,
  compare_flag, exec_instr,
}
use pcomp.Interpreter.Run.{step}
use pcomp.Interpreter.Invariant.{IsVm}
use pcomp.Spec.{
  BinOp, Source, Instruction, binary_instr, le_bytes, encode, IsOperand, continue_at, source_value,
  result, compute, HasBytes,
}
use pcomp.Spec.Decode.{
  add64-signed, sub64-signed, two_operands_reg, two_operands_imm, imm_at, dispatch-set_reg,
  step-exec_instr, HasBytes-at, update-update,
}

cmp_flags :
    (s : Vm) (rd a : ℕ) (o : Operand)
    → rd ≢ flags
    → value o (set_reg flags 0 s) ≡ a
    → cmp_body rd o s ≡ set_reg flags (compare_flag (s.reg rd) a) s
unfolding cmp_body
cmp_flags s rd a o ne e =
    rw
      (
        e,
        ne→== flags rd (λ q. ne (sym q)),
        bit_or-bitwise 0 (compare_flag (s.reg rd) a),
        update-update s.reg flags 0 (compare_flag (s.reg rd) a),
      )
      refl

body_of : BinOp → ℕ → Operand → Vm → Vm
body_of BinOp.mov = mov_body
body_of BinOp.add = add_body
body_of BinOp.sub = sub_body
body_of BinOp.and = and_body
body_of BinOp.or = or_body
body_of BinOp.xor = xor_body
body_of BinOp.cmp = cmp_body

abbrev as_operand : Source → Operand
as_operand (Source.reg r) = Operand.reg r
as_operand (Source.imm v) = Operand.imm v

abbrev IsSource : Source → Type 0
IsSource (Source.reg r) = IsOperand r
IsSource (Source.imm v) = IsU64 v

exec_instr-binary :
    (op : BinOp) (s : Vm) → exec_instr (binary_instr op) s ≡ two_operands (body_of op) s
unfolding exec_instr binary_instr body_of
exec_instr-binary BinOp.mov s = refl
exec_instr-binary _ s = refl

source_value-lt :
    {size : ℕ} (s : Vm) (src : Source) → IsVm size s → IsSource src → IsU64 (source_value src s)
source_value-lt s (Source.reg r) h k = h.words r
source_value-lt s (Source.imm v) h k = k

value_after_clear :
    (s : Vm) (src : Source)
    → IsSource src
    → value (as_operand src) (set_reg flags 0 s) ≡ source_value src s
value_after_clear s (Source.reg r) (_, ne, _) = rw (ne→== flags r (λ q. ne (sym q))) refl
value_after_clear s (Source.imm v) k = refl

-- The bodies of the two-operand instructions compute what the description says.
body_of-compute :
    {size : ℕ} (op : BinOp) (rd : ℕ) (src : Source) (s : Vm)
    → IsVm size s
    → IsOperand rd
    → IsSource src
    → body_of op rd (as_operand src) s ≡ compute op rd src s
unfolding body_of compute result mov_body add_body sub_body and_body or_body xor_body
body_of-compute BinOp.mov rd (Source.reg r) s h hd k = refl
body_of-compute BinOp.mov rd (Source.imm v) s h hd k = refl
body_of-compute BinOp.and rd (Source.reg r) s h hd k = refl
body_of-compute BinOp.and rd (Source.imm v) s h hd k = refl
body_of-compute BinOp.or rd (Source.reg r) s h hd k = refl
body_of-compute BinOp.or rd (Source.imm v) s h hd k = refl
body_of-compute BinOp.xor rd (Source.reg r) s h hd k = refl
body_of-compute BinOp.xor rd (Source.imm v) s h hd k = refl
body_of-compute BinOp.add rd (Source.reg r) s h hd k =
    rw (add64-signed (s.reg rd) (s.reg r) (h.words rd) (h.words r)) refl
body_of-compute BinOp.add rd (Source.imm v) s h hd k =
    rw (add64-signed (s.reg rd) v (h.words rd) k) refl
body_of-compute BinOp.sub rd (Source.reg r) s h hd k =
    rw (sub64-signed (s.reg rd) (s.reg r) (h.words rd) (h.words r)) refl
body_of-compute BinOp.sub rd (Source.imm v) s h hd k =
    rw (sub64-signed (s.reg rd) v (h.words rd) k) refl
body_of-compute BinOp.cmp rd src s h (_, ne, _) k =
    cmp_flags s rd (source_value src s) (as_operand src) ne (value_after_clear s src k)

module _ (s : Vm) {size : ℕ} (h : IsVm size s) (small : size < 2 ^ 64) where
  compute-next :
      (op : BinOp) (rd : ℕ) (src : Source) (n : ℕ)
      → IsOperand rd
      → s.reg pc + n ≤ size
      → dispatch n (compute op rd src s) ≡ continue_at (s.reg pc + n) (compute op rd src s)
  unfolding compute
  compute-next BinOp.cmp rd src n (_, _, ne) room =
      dispatch-set_reg s h small n flags _ (omega arith) room
  compute-next _ rd src n (_, _, ne) room = dispatch-set_reg s h small n rd _ ne room

  pub step-binary_reg :
      (op : BinOp) (rd rs : ℕ)
      → IsOperand rd
      → IsOperand rs
      → HasBytes s.mem (s.reg pc) (encode (Instruction.binary op rd (Source.reg rs)))
      → s.reg pc + 2 ≤ size
      → step s ≡ continue_at (s.reg pc + 2) (compute op rd (Source.reg rs) s)
  step-binary_reg op rd rs hd hs (b₀, (b₁, _)) room =
      step-exec_instr s h small (binary_instr op) 0 (omega arith) b₀ (omega arith)
      ∙ exec_instr-binary op s
      ∙ two_operands_reg s h small rd rs hd.0 hs.0 b₁ (omega arith) (binary_instr op) (body_of op)
          b₀
      ∙ ap (dispatch 2) (body_of-compute op rd (Source.reg rs) s h hd hs)
      ∙ compute-next op rd (Source.reg rs) 2 hd room

  pub step-binary_imm :
      (op : BinOp) (rd v : ℕ)
      → IsOperand rd
      → IsU64 v
      → HasBytes s.mem (s.reg pc) (encode (Instruction.binary op rd (Source.imm v)))
      → s.reg pc + 10 ≤ size
      → step s ≡ continue_at (s.reg pc + 10) (compute op rd (Source.imm v) s)
  step-binary_imm op rd v hd hv (b₀, (b₁, bs)) room =
      step-exec_instr s h small (binary_instr op) 1 (omega arith) b₀ (omega arith)
      ∙ exec_instr-binary op s
      ∙ two_operands_imm s h small rd 0 hd.0 (omega arith) b₁ (omega arith) (binary_instr op)
          (body_of op) v b₀
          (imm_at s h small 2 v hv (omega arith)
            (HasBytes-at s.mem _ _ (le_bytes 8 v) (omega arith) bs))
      ∙ ap (dispatch 10) (body_of-compute op rd (Source.imm v) s h hd hv)
      ∙ compute-next op rd (Source.imm v) 10 hd room

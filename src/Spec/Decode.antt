-- ===== src/Spec/Decode.antt =====
-- How the interpreter decodes an encoded instruction that stands at the program counter.
use pcomp.Common.{
  ℕ, ◌+◌, ◌*◌, ◌^◌, ◌≤◌, ◌<◌, ◌≡◌, ◌≢◌, refl, List, some, arith, update, ne→==, fun_ext, ◌+ℤ◌, ◌-ℤ◌,
}
use mathlib.Core.Path.{subst}
use pcomp.Word.{IsU64, add64, sub64, as_signed64, as_signed16, to_u64}
use pcomp.Memory.{Bytes}
use pcomp.Exe.{VmInstr, pc, reg_dst, reg_src}
use pcomp.Exe.Fields.{opcode_decodes, operand_decodes}
use pcomp.Interpreter.State.{Vm, mem_byte, mem_hword, mem_dword, set_reg, dispatch}
use pcomp.Interpreter.Handlers.{pc_plus, Operand, two_operands, exec_instr}
use pcomp.Interpreter.Run.{step}
use pcomp.Interpreter.Invariant.{IsVm}
use pcomp.Spec.{le_bytes, opcode, continue_at, address, HasBytes}
use pcomp.Spec.Layout.{pc_plus-eq, mem_byte-eq, mem_hword-eq, mem_dword-eq}

-- Sums of words, and of a word and an offset, as sums of integers.
pub add64-signed :
    (a b : ℕ) → IsU64 a → IsU64 b → add64 a b ≡ to_u64 (as_signed64 a +ℤ as_signed64 b)
unfolding add64 to_u64 as_signed64
add64-signed a b ha hb = ground arith

pub sub64-signed :
    (a b : ℕ) → IsU64 a → IsU64 b → sub64 a b ≡ to_u64 (as_signed64 a -ℤ as_signed64 b)
unfolding sub64 to_u64 as_signed64
sub64-signed a b ha hb = ground arith

pub add64-address :
    (a idx : ℕ) → IsU64 a → idx < 2 ^ 16 → add64 a (to_u64 (as_signed16 idx)) ≡ address a idx
unfolding add64 to_u64 as_signed16 address
add64-address a idx ha hi = ground arith

pub add64-zero : (a : ℕ) → IsU64 a → add64 a 0 ≡ a
unfolding add64
add64-zero a h = omega arith

pub update-update : (f : ℕ → ℕ) (k v w : ℕ) → update (update f k v) k w ≡ update f k w
update-update f k v w = fun_ext λ j. ground arith

pub HasBytes-at : (m : Bytes) (a b : ℕ) (bs : List ℕ) → a ≡ b → HasBytes m a bs → HasBytes m b bs
HasBytes-at m a b bs e h = subst (λ c. HasBytes m c bs) e h

module _ (s : Vm) {size : ℕ} (h : IsVm size s) (small : size < 2 ^ 64) where
  module _ (i : VmInstr) (am : ℕ) (two_bits : am < 4) (at : s.mem (s.reg pc) ≡ opcode i am)
      (room : s.reg pc < size) where
    pub step-exec_instr : step s ≡ exec_instr i s
    unfolding step
    step-exec_instr =
        rw
          (mem_byte-eq s (omega (arith, h.sized)) (s.reg pc) (opcode i am) (omega (arith, h.sized))
            at)
          (rw (opcode_decodes i am two_bits).0 refl)

  module _ (rd rs : ℕ) (hd : rd < 16) (hs : rs < 16) (at : s.mem (s.reg pc + 1) ≡ rd * 16 + rs)
      (room : s.reg pc + 1 < size) where
    pub operand_byte : mem_byte s (pc_plus 1 s) ≡ some (rd * 16 + rs)
    operand_byte = rw (pc_plus-eq s (omega (arith, h.sized)) 1 (omega (arith, h.sized))) (
        mem_byte-eq s (omega (arith, h.sized)) (s.reg pc + 1) (rd * 16 + rs)
          (omega (arith, h.sized)) at)

    pub operand_fields : (reg_dst (rd * 16 + rs) ≡ rd) × (reg_src (rd * 16 + rs) ≡ rs)
    operand_fields = operand_decodes rd rs hd hs

    pub two_operands_reg :
        (i : VmInstr) (body : ℕ → Operand → Vm → Vm)
        → s.mem (s.reg pc) ≡ opcode i 0
        → two_operands body s ≡ dispatch 2 (body rd (Operand.reg rs) s)
    unfolding two_operands
    two_operands_reg i body op =
        rw
          (
            mem_byte-eq s (omega (arith, h.sized)) (s.reg pc) (opcode i 0) (omega (arith, h.sized))
                op,
            operand_byte,
            (opcode_decodes i 0 (omega arith)).1,
            operand_fields.0,
            operand_fields.1,
          )
          refl

    pub two_operands_imm :
        (i : VmInstr) (body : ℕ → Operand → Vm → Vm) (v : ℕ)
        → s.mem (s.reg pc) ≡ opcode i 1
        → mem_dword s (pc_plus 2 s) ≡ some v
        → two_operands body s ≡ dispatch 10 (body rd (Operand.imm v) s)
    unfolding two_operands
    two_operands_imm i body v op iv =
        rw
          (
            mem_byte-eq s (omega (arith, h.sized)) (s.reg pc) (opcode i 1) (omega (arith, h.sized))
                op,
            operand_byte,
            (opcode_decodes i 1 (omega arith)).1,
            iv,
            operand_fields.0,
          )
          refl

  -- An immediate `n` bytes behind the opcode.
  pub imm_at :
      (n v : ℕ)
      → IsU64 v
      → s.reg pc + n + 8 ≤ size
      → HasBytes s.mem (s.reg pc + n) (le_bytes 8 v)
      → mem_dword s (pc_plus n s) ≡ some v
  imm_at n v hv room b =
      rw (pc_plus-eq s (omega (arith, h.sized)) n (omega (arith, h.sized)))
        (mem_dword-eq s (omega (arith, h.sized)) (s.reg pc + n) v hv (omega (arith, h.sized)) b)

  pub idx_at :
      (v : ℕ)
      → v < 2 ^ 16
      → s.reg pc + 4 ≤ size
      → HasBytes s.mem (s.reg pc + 2) (le_bytes 2 v)
      → mem_hword s (pc_plus 2 s) ≡ some v
  idx_at v hv room b =
      rw (pc_plus-eq s (omega (arith, h.sized)) 2 (omega (arith, h.sized)))
        (mem_hword-eq s (omega (arith, h.sized)) (s.reg pc + 2) v hv (omega (arith, h.sized)) b)

  -- After a write to a register other than `PC` the next instruction is where it was.
  pub dispatch-set_reg :
      (n r v : ℕ)
      → r ≢ pc
      → s.reg pc + n ≤ size
      → dispatch n (set_reg r v s) ≡ continue_at (s.reg pc + n) (set_reg r v s)
  dispatch-set_reg n r v ne room =
      rw (ne→== r pc ne, pc_plus-eq s (omega (arith, h.sized)) n (omega (arith, h.sized))) refl

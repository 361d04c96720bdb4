-- ===== src/Interpreter/Invariant.antt =====
-- The state stays well formed: bytes are bytes, registers are 64-bit words, and the size of the
-- memory does not change.
use pcomp.Common.{
  ℕ, ◌+◌, ◌≤◌, ◌<◌, ◌^◌, ◌≡◌, refl, sym, Bool, true, false, Option, none, some, arith, update, ltb,
  ◌==◌, if◌then◌else◌, bit_and, bit_or, bit_xor, ℤ,
}
pub mod Steps
use mathlib.Core.Path.{subst}
use pcomp.Common.Bits.{bit_and-lt, bit_or-lt, bit_xor-lt}
use pcomp.Word.{IsU64, IsByte, add64, sub64, not64, as_signed16, to_u64}
use pcomp.Word.Signed.{add64-lt, sub64-lt, not64-lt}
use pcomp.Memory.{IsBytes, as_dword, set_dword}
use pcomp.Memory.Laws.{as_dword-lt, set_dword-IsBytes}
use pcomp.Exe.{VmInstr, flags, sp, pc, instr, instr_handle, access_mode, reg_dst, reg_src}
use pcomp.Interpreter.State.{
  Vm, Outcome, next, exit, abort, fault, ◌>>=◌, and_then, mem_byte, mem_hword, mem_dword,
  store_dword, set_reg, dispatch, display,
}
use pcomp.Interpreter.Handlers.{
  pc_plus, Operand, reg, imm, value, two_operands, mov_body, add_body, sub_body, and_body, or_body,
  xor_body, compare_flag, cmp_body, exec_load, exec_store, exec_not, exec_push, exec_pop, exec_call,
  exec_ret, pop_parameter, sys_enter, exec_jmp, exec_jmp_if, exec_jmpne, exec_instr,
}
use pcomp.Interpreter.Run.{step}

pub record IsVm (size : ℕ) (s : Vm) : Type 0 where
  pub sized : s.mem_size ≡ size
  pub bytes : IsBytes s.mem
  pub words : (r : ℕ) → IsU64 (s.reg r)

-- `P` holds of the state that a handler leaves, however it ends.
abbrev pub Post : (Vm → Type 0) → Outcome → Type 0
Post P (next s) = P s
Post P (exit s) = P s
Post P (abort s) = P s
Post P fault = Unit

abbrev pub IsSafe : ℕ → Outcome → Type 0
IsSafe size = Post (IsVm size)

pub Post-bind :
    {A : Type 0} (P : Vm → Type 0) (o : Option A) (f : A → Outcome)
    → ((a : A) → o ≡ some a → Post P (f a))
    → Post P (o >>= f)
Post-bind P none f h = tt
Post-bind P (some a) f h = h a refl

pub Post-if :
    (P : Vm → Type 0) (b : Bool) (x y : Outcome) → Post P x → Post P y → Post P (if b then x else y)
Post-if P true x y hx hy = hx
Post-if P false x y hx hy = hy

pub Post-and_then :
    (P : Vm → Type 0) (o : Outcome) (f : Vm → Outcome)
    → Post P o
    → ((s : Vm) → P s → Post P (f s))
    → Post P (and_then o f)
Post-and_then P (next s) f h k = k s h
Post-and_then P (exit s) f h k = h
Post-and_then P (abort s) f h k = h
Post-and_then P fault f h k = tt

pub store_dword-inv :
    (s : Vm) (a v : ℕ) (s' : Vm)
    → store_dword s a v ≡ some s'
    → (a + 8 ≤ s.mem_size) × (s' ≡ record s { mem = set_dword s.mem a v })
unfolding store_dword
store_dword-inv s a v s' e = ground arith

compare_flag-lt : (a b : ℕ) → IsU64 (compare_flag a b)
unfolding compare_flag
compare_flag-lt a b = ground arith

module _ {size : ℕ} where
  pub set_reg-IsVm : (r v : ℕ) (s : Vm) → IsU64 v → IsVm size s → IsVm size (set_reg r v s)
  set_reg-IsVm r v s hv h = record {
    sized = h.sized;
    bytes = h.bytes;
    words = λ q. ground (arith, h.words q);
  }

  pub display-IsVm : (v : ℤ) (s : Vm) → IsVm size s → IsVm size (display v s)
  display-IsVm v s h = record { sized = h.sized; bytes = h.bytes; words = h.words }

  pub dispatch-IsSafe : (n : ℕ) (s : Vm) → IsVm size s → IsSafe size (dispatch n s)
  dispatch-IsSafe n s h = set_reg-IsVm pc (add64 (s.reg pc) n) s (add64-lt (s.reg pc) n) h

  pub mem_dword-lt : (s : Vm) (a v : ℕ) → IsVm size s → mem_dword s a ≡ some v → IsU64 v
  unfolding mem_dword
  mem_dword-lt s a v h e = ground (arith, as_dword-lt s.mem a h.bytes)

  pub store_dword-IsVm :
      (s : Vm) (a v : ℕ) (s' : Vm) → IsVm size s → store_dword s a v ≡ some s' → IsVm size s'
  store_dword-IsVm s a v s' h e =
      let stored : IsVm size (record s { mem = set_dword s.mem a v }) = record {
        sized = h.sized;
        bytes = set_dword-IsBytes s.mem a v h.bytes;
        words = h.words;
      } in
      subst (IsVm size) (sym (store_dword-inv s a v s' e).1) stored

  pub mov_body-IsVm :
      (dst : ℕ) (o : Operand) (s : Vm)
      → IsU64 (value o s)
      → IsVm size s
      → IsVm size (mov_body dst o s)
  unfolding mov_body
  mov_body-IsVm dst o s hv h = set_reg-IsVm dst (value o s) s hv h

  pub add_body-IsVm :
      (dst : ℕ) (o : Operand) (s : Vm)
      → IsU64 (value o s)
      → IsVm size s
      → IsVm size (add_body dst o s)
  unfolding add_body
  add_body-IsVm dst o s hv h = set_reg-IsVm dst _ s (add64-lt (s.reg dst) (value o s)) h

  pub sub_body-IsVm :
      (dst : ℕ) (o : Operand) (s : Vm)
      → IsU64 (value o s)
      → IsVm size s
      → IsVm size (sub_body dst o s)
  unfolding sub_body
  sub_body-IsVm dst o s hv h = set_reg-IsVm dst _ s (sub64-lt (s.reg dst) (value o s)) h

  pub and_body-IsVm :
      (dst : ℕ) (o : Operand) (s : Vm)
      → IsU64 (value o s)
      → IsVm size s
      → IsVm size (and_body dst o s)
  unfolding and_body
  and_body-IsVm dst o s hv h = set_reg-IsVm dst _ s (bit_and-lt 64 _ _ (h.words dst) hv) h

  pub or_body-IsVm :
      (dst : ℕ) (o : Operand) (s : Vm)
      → IsU64 (value o s)
      → IsVm size s
      → IsVm size (or_body dst o s)
  unfolding or_body
  or_body-IsVm dst o s hv h = set_reg-IsVm dst _ s (bit_or-lt 64 _ _ (h.words dst) hv) h

  pub xor_body-IsVm :
      (dst : ℕ) (o : Operand) (s : Vm)
      → IsU64 (value o s)
      → IsVm size s
      → IsVm size (xor_body dst o s)
  unfolding xor_body
  xor_body-IsVm dst o s hv h = set_reg-IsVm dst _ s (bit_xor-lt 64 _ _ (h.words dst) hv) h

  pub cmp_body-IsVm :
      (dst : ℕ) (o : Operand) (s : Vm)
      → IsU64 (value o s)
      → IsVm size s
      → IsVm size (cmp_body dst o s)
  unfolding cmp_body
  cmp_body-IsVm dst o s hv h =
      set_reg-IsVm flags _ _ (bit_or-lt 64 0 _ (omega arith) (compare_flag-lt _ _))
        (set_reg-IsVm flags 0 s (omega arith) h)

  pub two_operands-IsSafe :
      (body : ℕ → Operand → Vm → Vm)
      → ((dst : ℕ) (o : Operand) (s : Vm)
          → IsU64 (value o s)
          → IsVm size s
          → IsVm size (body dst o s))
      → (s : Vm) → IsVm size s
      → IsSafe size (two_operands body s)
  unfolding two_operands
  two_operands-IsSafe body keep s h = Post-bind (IsVm size) (mem_byte s (s.reg pc)) _ λ op _.
      Post-bind (IsVm size) (mem_byte s (pc_plus 1 s)) _ λ b _.
        Post-if (IsVm size) (access_mode op == 0) _ _
          (dispatch-IsSafe 2 _ (keep (reg_dst b) (reg (reg_src b)) s (h.words (reg_src b)) h))
          (Post-bind (IsVm size) (mem_dword s (pc_plus 2 s)) _
            λ iv e. dispatch-IsSafe 10 _ (keep (reg_dst b) (imm iv) s (mem_dword-lt s _ iv h e) h))

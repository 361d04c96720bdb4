-- ===== src/Behaviour/SysEnter.antt =====
-- `JIT::sys_enter` against `Interpreter::sys_enter`.
use pcomp.Common.{
  ℕ, ◌+◌, ◌^◌, ◌≤◌, ◌<◌, ◌≡◌, refl, ◌∷◌, ℤ, pos, some, arith, le→leb, ◌==◌, Bool-cases, inl, inr,
}
use pcomp.Word.{add64, as_signed64}
use pcomp.Memory.{as_dword, set_dword}
use pcomp.Exe.{sp, syscall_vm_exit, syscall_display_sint, syscall_display_uint}
use pcomp.Interpreter.State.{Vm, Outcome, next, abort, mem_dword, store_dword, set_reg, display}
use pcomp.Interpreter.Handlers.{pop_parameter}
use pcomp.Interpreter.Handlers
use pcomp.Interpreter.Invariant.{IsVm}
use pcomp.Jit.Syscall.{SysResult, back, aborted}
use pcomp.Jit.Syscall

-- A result of the JIT's function, as an outcome of the machine that it was called for.
abbrev pub as_outcome : Vm → SysResult → Outcome
as_outcome s (back sp' mem out) = next (set_reg sp sp' (record s { mem = mem; out = out }))
as_outcome s aborted = abort s

module _ (s : Vm) {size : ℕ} (h : IsVm size s) (small : size < 2 ^ 64)
    (room : s.reg sp + 24 ≤ size) where
  slot : (k : ℕ) → k ≤ 16 → add64 (s.reg sp) k ≡ s.reg sp + k
  unfolding add64
  slot k le = omega arith

  read : (k : ℕ) → k ≤ 16 → mem_dword s (s.reg sp + k) ≡ some (as_dword s.mem (s.reg sp + k))
  unfolding mem_dword
  read k le = rw (le→leb (s.reg sp + k + 8) s.mem_size (omega (arith, h.sized))) refl

  pop_parameter-eq :
      (d : ℤ)
      → pop_parameter (display d s)
        ≡ as_outcome s (
            back
              (s.reg sp + 16)
              (set_dword s.mem (s.reg sp + 16) (as_dword s.mem (s.reg sp)))
              (d ∷ s.out))
  unfolding pop_parameter mem_dword store_dword
  pop_parameter-eq d =
      rw
        (
          le→leb (s.reg sp + 8) s.mem_size (omega (arith, h.sized)),
          slot 16 (omega arith),
          le→leb (s.reg sp + 16 + 8) s.mem_size (omega (arith, h.sized)),
        )
        (rw (slot 16 (omega arith)) refl)

  -- On the same stack and memory, with three dwords on the stack, the two system call functions do
  -- the same: they display the same, leave the same memory and stack pointer, and abort for the
  -- same numbers.
  pub sys_enter-agrees :
      Handlers.sys_enter s ≡ as_outcome s (Syscall.sys_enter (s.reg sp) s.mem s.out)
  unfolding Handlers.sys_enter Syscall.sys_enter
  sys_enter-agrees =
      let id : ℕ = as_dword s.mem (s.reg sp + 8) in
      let val : ℕ = as_dword s.mem (s.reg sp + 16) in
      rw (slot 8 (omega arith), read 8 (omega arith), slot 16 (omega arith), read 16 (omega arith))
        (elim (Bool-cases (id == syscall_vm_exit)) [
          | inl e ↦ rw e refl
          | inr n ↦ elim (Bool-cases (id == syscall_display_sint)) [
            | inl e ↦ rw (n, e) (pop_parameter-eq (as_signed64 val))
            | inr n₁ ↦ elim (Bool-cases (id == syscall_display_uint)) [
              | inl e ↦ rw (n, n₁, e) (pop_parameter-eq (pos val))
              | inr n₂ ↦ rw (n, n₁, n₂) refl
            ]
          ]
        ])

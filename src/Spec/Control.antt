-- ===== src/Spec/Control.antt =====
-- The calls, returns and jumps do what the description says.
use pcomp.Common.{
  ℕ, ◌+◌, ◌^◌, ◌≤◌, ◌<◌, ◌≡◌, ◌≢◌, refl, ap, ◌∙◌, Bool, true, false, some, arith, if◌then◌else◌,
  ne→==, fun_ext,
}
use pcomp.Word.{IsU64}
use pcomp.Exe.{VmInstr, flag_eq, flag_gt, flag_lt, sp, pc}
use pcomp.Interpreter.State.{Vm, next, mem_dword, store_dword, set_reg, dispatch, sp_add, sp_sub}
use pcomp.Interpreter.Handlers.{
  pc_plus, exec_call, exec_ret, exec_jmp, exec_jmp_if, exec_jmpne, exec_instr, flag_set,
}
use pcomp.Interpreter.Run.{step}
use pcomp.Interpreter.Invariant.{IsVm, mem_dword-lt}
use pcomp.Spec.{Cond, Instruction, cond_instr, encode, continue_at, holds, perform, HasBytes}
use pcomp.Spec.Layout.{pc_plus-eq}
use pcomp.Spec.Decode.{imm_at, step-exec_instr, add64-zero, update-update}
use pcomp.Spec.Transfer.{bind_congr, dispatch-pc}

jump-eq : (t : Vm) (a : ℕ) → IsU64 a → dispatch 0 (set_reg pc a t) ≡ continue_at a t
jump-eq t a ha = rw (add64-zero a ha, update-update t.reg pc a a) refl

return-eq :
    (s : Vm) (v : ℕ) → IsU64 v → dispatch 0 (sp_add 8 (set_reg pc v s)) ≡ continue_at v (sp_add 8 s)
return-eq s v hv =
    ap (λ (k : ℕ → ℕ). next (record s { reg = k })) (fun_ext λ j. ground (arith, add64-zero v hv))

module _ (s : Vm) {size : ℕ} (h : IsVm size s) (small : size < 2 ^ 64) where
  pub step-call :
      (a : ℕ)
      → IsU64 a
      → HasBytes s.mem (s.reg pc) (encode (Instruction.call a))
      → s.reg pc + 9 ≤ size
      → step s ≡ perform (Instruction.call a) (s.reg pc) s
  unfolding exec_instr exec_call perform
  step-call a ha (b₀, bs) room =
      step-exec_instr s h small VmInstr.call 1 (omega arith) b₀ (omega arith)
      ∙ rw
          (
            imm_at s h small 1 a ha (omega arith) bs,
            pc_plus-eq s (omega (arith, h.sized)) 9 (omega (arith, h.sized)),
          )
          (bind_congr (store_dword (sp_sub 8 s) ((sp_sub 8 s).reg sp) (s.reg pc + 9)) _ _
            λ s' _. jump-eq s' a ha)

  pub step-ret :
      HasBytes s.mem (s.reg pc) (encode Instruction.ret)
      → s.reg pc + 1 ≤ size
      → step s ≡ perform Instruction.ret (s.reg pc) s
  unfolding exec_instr exec_ret perform
  step-ret (b₀, _) room =
      step-exec_instr s h small VmInstr.ret 0 (omega arith) b₀ (omega arith)
      ∙ (bind_congr (mem_dword s (s.reg sp)) _ _
          λ v e. return-eq s v (mem_dword-lt s (s.reg sp) v h e))

  pub step-jmp :
      (a : ℕ)
      → IsU64 a
      → s.reg pc ≢ 0
      → HasBytes s.mem (s.reg pc) (encode (Instruction.jmp a))
      → s.reg pc + 9 ≤ size
      → step s ≡ perform (Instruction.jmp a) (s.reg pc) s
  unfolding exec_instr exec_jmp perform
  step-jmp a ha ne (b₀, bs) room =
      step-exec_instr s h small VmInstr.jmp 1 (omega arith) b₀ (omega arith)
      ∙ rw (imm_at s h small 1 a ha (omega arith) bs, ne→== (s.reg pc) 0 ne) (jump-eq s a ha)

  -- Taken or not, a conditional jump goes on where the description says.
  branch-eq :
      (a : ℕ) (b : Bool)
      → IsU64 a
      → s.reg pc + 9 ≤ size
      → (if b then dispatch 0 (set_reg pc a s) else dispatch 9 s)
        ≡ continue_at (if b then a else s.reg pc + 9) s
  branch-eq a true ha room = jump-eq s a ha
  branch-eq a false ha room = dispatch-pc s h small 9 s refl room

  branch_ne-eq :
      (a : ℕ) (b : Bool)
      → IsU64 a
      → s.reg pc + 9 ≤ size
      → (if b then dispatch 9 s else dispatch 0 (set_reg pc a s))
        ≡ continue_at (if (if b then false else true) then a else s.reg pc + 9) s
  branch_ne-eq a true ha room = dispatch-pc s h small 9 s refl room
  branch_ne-eq a false ha room = jump-eq s a ha

  exec_jmp_if-eq :
      (mask a : ℕ)
      → IsU64 a
      → s.reg pc + 9 ≤ size
      → mem_dword s (pc_plus 1 s) ≡ some a
      → exec_jmp_if mask s ≡ continue_at (if flag_set mask s then a else s.reg pc + 9) s
  unfolding exec_jmp_if
  exec_jmp_if-eq mask a ha room iv = rw iv (branch-eq a (flag_set mask s) ha room)

  exec_cond-eq :
      (c : Cond) (a : ℕ)
      → IsU64 a
      → s.reg pc + 9 ≤ size
      → mem_dword s (pc_plus 1 s) ≡ some a
      → exec_instr (cond_instr c) s ≡ perform (Instruction.jmp_if c a) (s.reg pc) s
  unfolding exec_instr cond_instr perform holds exec_jmpne
  exec_cond-eq Cond.eq a ha room iv = exec_jmp_if-eq flag_eq a ha room iv
  exec_cond-eq Cond.ne a ha room iv = rw iv (branch_ne-eq a (flag_set flag_eq s) ha room)
  exec_cond-eq Cond.gt a ha room iv = exec_jmp_if-eq flag_gt a ha room iv
  exec_cond-eq Cond.lt a ha room iv = exec_jmp_if-eq flag_lt a ha room iv
  exec_cond-eq Cond.ge a ha room iv = exec_jmp_if-eq (flag_gt + flag_eq) a ha room iv
  exec_cond-eq Cond.le a ha room iv = exec_jmp_if-eq (flag_lt + flag_eq) a ha room iv

  pub step-jmp_if :
      (c : Cond) (a : ℕ)
      → IsU64 a
      → HasBytes s.mem (s.reg pc) (encode (Instruction.jmp_if c a))
      → s.reg pc + 9 ≤ size
      → step s ≡ perform (Instruction.jmp_if c a) (s.reg pc) s
  step-jmp_if c a ha (b₀, bs) room =
      step-exec_instr s h small (cond_instr c) 1 (omega arith) b₀ (omega arith)
      ∙ exec_cond-eq c a ha room (imm_at s h small 1 a ha (omega arith) bs)

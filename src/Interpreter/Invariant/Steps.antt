-- ===== src/Interpreter/Invariant/Steps.antt =====
-- Every handler of the interpreter keeps a well-formed machine well formed, and so does a step.
use pcomp.Common.{ℕ, ◌≡◌, some, ◌==◌, pos}
use pcomp.Word.{add64, as_signed64, as_signed16, to_u64}
use pcomp.Word.Signed.{add64-lt, sub64-lt, not64-lt}
use pcomp.Exe.{VmInstr, sp, pc, instr, instr_handle, reg_dst, reg_src, flag_eq}
use pcomp.Interpreter.State.{
  Vm, mem_byte, mem_hword, mem_dword, store_dword, set_reg, sp_add, sp_sub, dispatch,
}
use pcomp.Interpreter.Handlers.{
  pc_plus, exec_load, exec_store, exec_not, exec_push, exec_pop, exec_call, exec_ret, mov_body,
  add_body, sub_body, and_body, or_body, xor_body, cmp_body, pop_parameter, sys_enter, exec_jmp,
  exec_jmp_if, exec_jmpne, exec_instr, flag_set,
}
use pcomp.Interpreter.Run.{step}
use pcomp.Interpreter.Invariant.{
  IsVm, IsSafe, Post-bind, Post-if, Post-and_then, set_reg-IsVm, display-IsVm, dispatch-IsSafe,
  mem_dword-lt, store_dword-IsVm, two_operands-IsSafe, mov_body-IsVm, add_body-IsVm, sub_body-IsVm,
  and_body-IsVm, or_body-IsVm, xor_body-IsVm, cmp_body-IsVm,
}

module _ {size : ℕ} (s : Vm) (h : IsVm size s) where
  sp_add-IsVm : (n : ℕ) → IsVm size (sp_add n s)
  sp_add-IsVm n = set_reg-IsVm sp _ s (add64-lt (s.reg sp) n) h

  sp_sub-IsVm : (n : ℕ) → IsVm size (sp_sub n s)
  sp_sub-IsVm n = set_reg-IsVm sp _ s (sub64-lt (s.reg sp) n) h

  exec_load-IsSafe : IsSafe size (exec_load s)
  unfolding exec_load
  exec_load-IsSafe = Post-bind (IsVm size) (mem_byte s (pc_plus 1 s)) _ λ b _.
      Post-bind (IsVm size) (mem_hword s (pc_plus 2 s)) _ λ idx _.
        Post-bind (IsVm size) (mem_dword s (add64 (s.reg (reg_src b)) (to_u64 (as_signed16 idx)))) _
          λ v e. dispatch-IsSafe 4 _ (set_reg-IsVm (reg_dst b) v s (mem_dword-lt s _ v h e) h)

  exec_store-IsSafe : IsSafe size (exec_store s)
  unfolding exec_store
  exec_store-IsSafe = Post-bind (IsVm size) (mem_byte s (pc_plus 1 s)) _ λ b _.
      Post-bind (IsVm size) (mem_hword s (pc_plus 2 s)) _ λ idx _.
        Post-bind (IsVm size) (store_dword s _ (s.reg (reg_src b))) _
          λ s' e. dispatch-IsSafe 4 s' (store_dword-IsVm s _ _ s' h e)

  exec_not-IsSafe : IsSafe size (exec_not s)
  unfolding exec_not
  exec_not-IsSafe =
      Post-bind (IsVm size) (mem_byte s (pc_plus 1 s)) _
        λ b _. dispatch-IsSafe 2 _ (set_reg-IsVm (reg_dst b) _ s (not64-lt (s.reg (reg_dst b))) h)

  exec_push-IsSafe : IsSafe size (exec_push s)
  unfolding exec_push
  exec_push-IsSafe = Post-bind (IsVm size) (mem_byte s (pc_plus 1 s)) _ λ b _.
      Post-bind (IsVm size) (store_dword (sp_sub 8 s) _ _) _
        λ s' e. dispatch-IsSafe 2 s' (store_dword-IsVm (sp_sub 8 s) _ _ s' (sp_sub-IsVm 8) e)

  jump-IsSafe :
      (v : ℕ) (a n : ℕ) → mem_dword s a ≡ some v → IsSafe size (dispatch n (set_reg pc v s))
  jump-IsSafe v a n e = dispatch-IsSafe n _ (set_reg-IsVm pc v s (mem_dword-lt s a v h e) h)

  exec_jmp_if-IsSafe : (mask : ℕ) → IsSafe size (exec_jmp_if mask s)
  unfolding exec_jmp_if
  exec_jmp_if-IsSafe mask = Post-bind (IsVm size) (mem_dword s (pc_plus 1 s)) _ λ iv e.
      Post-if (IsVm size) (flag_set mask s) _ _ (jump-IsSafe iv _ 0 e) (dispatch-IsSafe 9 s h)

  exec_jmpne-IsSafe : IsSafe size (exec_jmpne s)
  unfolding exec_jmpne
  exec_jmpne-IsSafe = Post-bind (IsVm size) (mem_dword s (pc_plus 1 s)) _ λ iv e.
      Post-if (IsVm size) (flag_set flag_eq s) _ _ (dispatch-IsSafe 9 s h) (jump-IsSafe iv _ 0 e)

module _ {size : ℕ} (s : Vm) (h : IsVm size s) where
  exec_pop-IsSafe : IsSafe size (exec_pop s)
  unfolding exec_pop
  exec_pop-IsSafe = Post-bind (IsVm size) (mem_byte s (pc_plus 1 s)) _ λ b _.
      Post-bind (IsVm size) (mem_dword s (s.reg sp)) _ λ v e.
        dispatch-IsSafe 2 _
          (sp_add-IsVm _ (set_reg-IsVm (reg_dst b) v s (mem_dword-lt s _ v h e) h) 8)

  exec_ret-IsSafe : IsSafe size (exec_ret s)
  unfolding exec_ret
  exec_ret-IsSafe =
      Post-bind (IsVm size) (mem_dword s (s.reg sp)) _ λ v e.
        dispatch-IsSafe 0 _ (sp_add-IsVm _ (set_reg-IsVm pc v s (mem_dword-lt s _ v h e) h) 8)

  exec_call-IsSafe : IsSafe size (exec_call s)
  unfolding exec_call
  exec_call-IsSafe = Post-bind (IsVm size) (mem_dword s (pc_plus 1 s)) _ λ iv e.
      Post-bind (IsVm size) (store_dword (sp_sub 8 s) _ _) _ λ s' e'. dispatch-IsSafe 0 _ (
        set_reg-IsVm pc iv s' (mem_dword-lt s _ iv h e)
          (store_dword-IsVm (sp_sub 8 s) _ _ s' (sp_sub-IsVm s h 8) e'))

  pop_parameter-IsSafe : IsSafe size (pop_parameter s)
  unfolding pop_parameter
  pop_parameter-IsSafe = Post-bind (IsVm size) (mem_dword s (s.reg sp)) _ λ back _.
      Post-bind (IsVm size) (store_dword s _ back) _
        λ s' e. sp_add-IsVm s' (store_dword-IsVm s _ _ s' h e) 16

module _ {size : ℕ} (s : Vm) (h : IsVm size s) where
  sys_enter-IsSafe : IsSafe size (sys_enter s)
  unfolding sys_enter
  sys_enter-IsSafe = Post-bind (IsVm size) (mem_dword s (add64 (s.reg sp) 8)) _ λ id _.
      Post-if (IsVm size) (id == 0) _ _ h (
        Post-if (IsVm size) (id == 1) _ _
          (Post-bind (IsVm size) (mem_dword s (add64 (s.reg sp) 16)) _
            λ v _. pop_parameter-IsSafe _ (display-IsVm (as_signed64 v) s h))
          (Post-if (IsVm size) (id == 2) _ _
            (Post-bind (IsVm size) (mem_dword s (add64 (s.reg sp) 16)) _
              λ v _. pop_parameter-IsSafe _ (display-IsVm (pos v) s h))
            h))

  exec_jmp-IsSafe : IsSafe size (exec_jmp s)
  unfolding exec_jmp
  exec_jmp-IsSafe = Post-bind (IsVm size) (mem_dword s (pc_plus 1 s)) _ λ iv e.
      Post-if (IsVm size) (s.reg pc == 0) _ _
        (Post-bind (IsVm size) (mem_dword s (add64 (s.reg sp) 8)) _ λ id _.
          Post-if (IsVm size) (id == 0) _ _ (sp_add-IsVm s h 16)
            (Post-and_then (IsVm size) (sys_enter s) exec_ret sys_enter-IsSafe exec_ret-IsSafe))
        (jump-IsSafe s h iv _ 0 e)

exec_instr-IsSafe : {size : ℕ} (i : VmInstr) (s : Vm) → IsVm size s → IsSafe size (exec_instr i s)
unfolding exec_instr
exec_instr-IsSafe VmInstr.load s h = exec_load-IsSafe s h
exec_instr-IsSafe VmInstr.store s h = exec_store-IsSafe s h
exec_instr-IsSafe VmInstr.mov s h = two_operands-IsSafe mov_body mov_body-IsVm s h
exec_instr-IsSafe VmInstr.add s h = two_operands-IsSafe add_body add_body-IsVm s h
exec_instr-IsSafe VmInstr.sub s h = two_operands-IsSafe sub_body sub_body-IsVm s h
exec_instr-IsSafe VmInstr.and s h = two_operands-IsSafe and_body and_body-IsVm s h
exec_instr-IsSafe VmInstr.or s h = two_operands-IsSafe or_body or_body-IsVm s h
exec_instr-IsSafe VmInstr.xor s h = two_operands-IsSafe xor_body xor_body-IsVm s h
exec_instr-IsSafe VmInstr.not s h = exec_not-IsSafe s h
exec_instr-IsSafe VmInstr.cmp s h = two_operands-IsSafe cmp_body cmp_body-IsVm s h
exec_instr-IsSafe VmInstr.push s h = exec_push-IsSafe s h
exec_instr-IsSafe VmInstr.pop s h = exec_pop-IsSafe s h
exec_instr-IsSafe VmInstr.call s h = exec_call-IsSafe s h
exec_instr-IsSafe VmInstr.ret s h = exec_ret-IsSafe s h
exec_instr-IsSafe VmInstr.jmp s h = exec_jmp-IsSafe s h
exec_instr-IsSafe VmInstr.jmpeq s h = exec_jmp_if-IsSafe s h _
exec_instr-IsSafe VmInstr.jmpne s h = exec_jmpne-IsSafe s h
exec_instr-IsSafe VmInstr.jmpgt s h = exec_jmp_if-IsSafe s h _
exec_instr-IsSafe VmInstr.jmplt s h = exec_jmp_if-IsSafe s h _
exec_instr-IsSafe VmInstr.jmpge s h = exec_jmp_if-IsSafe s h _
exec_instr-IsSafe VmInstr.jmple s h = exec_jmp_if-IsSafe s h _

-- From a well-formed machine, whatever instruction is dispatched, and however its handler ends (next
-- instruction, exit or abort), the machine left behind has bytes in memory, 64-bit words in registers, and the same
-- memory size.
pub step-IsSafe : {size : ℕ} (s : Vm) → IsVm size s → IsSafe size (step s)
unfolding step
step-IsSafe {size} s h =
    Post-bind (IsVm size) (mem_byte s (s.reg pc)) _
      λ b _. Post-bind (IsVm size) (instr_handle (instr b)) _ λ i _. exec_instr-IsSafe i s h

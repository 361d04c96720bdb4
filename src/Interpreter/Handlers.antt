-- ===== src/Interpreter/Handlers.antt =====
-- The labels of `Interpreter::exec_program` and `Interpreter::sys_enter`.
use pcomp.Common.{ℕ, Bool, bit_and, bit_or, bit_xor, ltb, ◌==◌, if◌then◌else◌, pos, ltb_ℤ}
use pcomp.Word.{add64, sub64, not64, as_signed64, as_signed16, to_u64}
use pcomp.Exe.{
  VmInstr, load, store, mov, add, sub, and, or, xor, not, cmp, push, pop, call, ret, jmp, jmpeq,
  jmpne, jmpgt, jmplt, jmpge, jmple, flags, sp, pc, am_reg, sys_enter_addr, syscall_vm_exit,
  syscall_display_sint, syscall_display_uint, flag_eq, flag_lt, flag_gt, access_mode, reg_dst,
  reg_src,
}
use pcomp.Interpreter.State.{
  Vm, Outcome, next, exit, abort, ◌>>=◌, and_then, mem_byte, mem_hword, mem_dword, store_dword,
  set_reg, sp_add, sp_sub, display, dispatch,
}

-- The address `n` behind the current instruction's.
abbrev pub pc_plus : ℕ → Vm → ℕ
pc_plus n s = add64 (s.reg pc) n

-- `_load`, with the index sign extended into the address.
unfoldable pub exec_load : Vm → Outcome
exec_load s = do
  b ← mem_byte s (pc_plus 1 s)
  idx ← mem_hword s (pc_plus 2 s)
  v ← mem_dword s (add64 (s.reg (reg_src b)) (to_u64 (as_signed16 idx)))
  dispatch 4 (set_reg (reg_dst b) v s)

unfoldable pub exec_store : Vm → Outcome
exec_store s = do
  b ← mem_byte s (pc_plus 1 s)
  idx ← mem_hword s (pc_plus 2 s)
  s' ← store_dword s (add64 (s.reg (reg_dst b)) (to_u64 (as_signed16 idx))) (s.reg (reg_src b))
  dispatch 4 s'

-- The second operand of an instruction: `reg[idd.src]` or the immediate.
pub data Operand : Type 0 where
  reg imm : ℕ → Operand

abbrev pub value : Operand → Vm → ℕ
value (reg r) s = s.reg r
value (imm v) s = v

-- What `_mov` to `_xor` and `_cmp` share: they read the access mode, the registers or the immediate,
-- do their own `body`, and dispatch behind the operands.
unfoldable pub two_operands : (ℕ → Operand → Vm → Vm) → Vm → Outcome
two_operands body s = do
  op ← mem_byte s (s.reg pc)
  b ← mem_byte s (pc_plus 1 s)
  if access_mode op == am_reg
      then dispatch 2 (body (reg_dst b) (reg (reg_src b)) s)
      else (mem_dword s (pc_plus 2 s) >>= λ iv. dispatch 10 (body (reg_dst b) (imm iv) s))

unfoldable pub mov_body : ℕ → Operand → Vm → Vm
mov_body dst o s = set_reg dst (value o s) s

unfoldable pub add_body : ℕ → Operand → Vm → Vm
add_body dst o s = set_reg dst (add64 (s.reg dst) (value o s)) s

unfoldable pub sub_body : ℕ → Operand → Vm → Vm
sub_body dst o s = set_reg dst (sub64 (s.reg dst) (value o s)) s

unfoldable pub and_body : ℕ → Operand → Vm → Vm
and_body dst o s = set_reg dst (bit_and (s.reg dst) (value o s)) s

unfoldable pub or_body : ℕ → Operand → Vm → Vm
or_body dst o s = set_reg dst (bit_or (s.reg dst) (value o s)) s

unfoldable pub xor_body : ℕ → Operand → Vm → Vm
xor_body dst o s = set_reg dst (bit_xor (s.reg dst) (value o s)) s

-- The flag of a signed comparison.
unfoldable pub compare_flag : ℕ → ℕ → ℕ
compare_flag a b =
    if ltb_ℤ (as_signed64 a) (as_signed64 b)
    then flag_lt
    else if ltb_ℤ (as_signed64 b) (as_signed64 a)
    then flag_gt
    else flag_eq

-- The flags are cleared before the operands are read.
unfoldable pub cmp_body : ℕ → Operand → Vm → Vm
cmp_body dst o s =
    let s₀ = set_reg flags 0 s in
    set_reg flags (bit_or (s₀.reg flags) (compare_flag (s₀.reg dst) (value o s₀))) s₀

unfoldable pub exec_not : Vm → Outcome
exec_not s = do
  b ← mem_byte s (pc_plus 1 s)
  dispatch 2 (set_reg (reg_dst b) (not64 (s.reg (reg_dst b))) s)

-- The register is read after `SP` has moved.
unfoldable pub exec_push : Vm → Outcome
exec_push s = do
  b ← mem_byte s (pc_plus 1 s)
  let s₁ = sp_sub 8 s
  s₂ ← store_dword s₁ (s₁.reg sp) (s₁.reg (reg_dst b))
  dispatch 2 s₂

unfoldable pub exec_pop : Vm → Outcome
exec_pop s = do
  b ← mem_byte s (pc_plus 1 s)
  v ← mem_dword s (s.reg sp)
  dispatch 2 (sp_add 8 (set_reg (reg_dst b) v s))

unfoldable pub exec_call : Vm → Outcome
exec_call s = do
  iv ← mem_dword s (pc_plus 1 s)
  let s₁ = sp_sub 8 s
  s₂ ← store_dword s₁ (s₁.reg sp) (pc_plus 9 s₁)
  dispatch 0 (set_reg pc iv s₂)

unfoldable pub exec_ret : Vm → Outcome
exec_ret s = do v ← mem_dword s (s.reg sp); dispatch 0 (sp_add 8 (set_reg pc v s))

-- A display call leaves the return address where the parameter was, and pops the rest.
unfoldable pub pop_parameter : Vm → Outcome
pop_parameter s = do
  back ← mem_dword s (s.reg sp)
  s' ← store_dword s (add64 (s.reg sp) 16) back
  next (sp_add 16 s')

unfoldable pub sys_enter : Vm → Outcome
sys_enter s = do
  id ← mem_dword s (add64 (s.reg sp) 8)
  if id == syscall_vm_exit
      then abort s
      else if id == syscall_display_sint
      then (mem_dword s (add64 (s.reg sp) 16) >>= λ val.
          pop_parameter (display (as_signed64 val) s))
      else if id == syscall_display_uint
      then (mem_dword s (add64 (s.reg sp) 16) >>= λ val. pop_parameter (display (pos val) s))
      else abort s

-- The jump at address 0 is the entry of the system calls.
unfoldable pub exec_jmp : Vm → Outcome
exec_jmp s = do
  iv ← mem_dword s (pc_plus 1 s)
  if s.reg pc == sys_enter_addr
      then (mem_dword s (add64 (s.reg sp) 8) >>= λ id.
          if id == syscall_vm_exit then exit (sp_add 16 s) else and_then (sys_enter s) exec_ret)
      else dispatch 0 (set_reg pc iv s)

-- `reg[FLAGS] & mask` as a condition.
abbrev pub flag_set : ℕ → Vm → Bool
flag_set mask s = ltb 0 (bit_and (s.reg flags) mask)

-- `_jmpeq` to `_jmple` but `_jmpne`, which has the branches the other way round.
unfoldable pub exec_jmp_if : ℕ → Vm → Outcome
exec_jmp_if mask s = do
  iv ← mem_dword s (pc_plus 1 s)
  if flag_set mask s then dispatch 0 (set_reg pc iv s) else dispatch 9 s

unfoldable pub exec_jmpne : Vm → Outcome
exec_jmpne s = do
  iv ← mem_dword s (pc_plus 1 s)
  if flag_set flag_eq s then dispatch 9 s else dispatch 0 (set_reg pc iv s)

unfoldable pub exec_instr : VmInstr → Vm → Outcome
exec_instr load = exec_load
exec_instr store = exec_store
exec_instr mov = two_operands mov_body
exec_instr add = two_operands add_body
exec_instr sub = two_operands sub_body
exec_instr and = two_operands and_body
exec_instr or = two_operands or_body
exec_instr xor = two_operands xor_body
exec_instr not = exec_not
exec_instr cmp = two_operands cmp_body
exec_instr push = exec_push
exec_instr pop = exec_pop
exec_instr call = exec_call
exec_instr ret = exec_ret
exec_instr jmp = exec_jmp
exec_instr jmpeq = exec_jmp_if flag_eq
exec_instr jmpne = exec_jmpne
exec_instr jmpgt = exec_jmp_if flag_gt
exec_instr jmplt = exec_jmp_if flag_lt
exec_instr jmpge = exec_jmp_if (bit_or flag_gt flag_eq)
exec_instr jmple = exec_jmp_if (bit_or flag_lt flag_eq)

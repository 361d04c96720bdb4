-- ===== src/X64/Jit.antt =====
-- `x86_64JIT::jit_vm_instruction` and the loops over it.
use pcomp.Common.{ℕ, ◌+◌, ◌-◌, ◌^◌, List, Option, some, ◌==◌, if◌then◌else◌}
use pcomp.Word.{u32, to_u64, as_signed16}
use pcomp.Exe.{
  VmInstr, load, store, mov, add, sub, and, or, xor, not, cmp, push, pop, call, ret, jmp, jmpeq,
  jmpne, jmpgt, jmplt, jmpge, jmple, am_reg, instr, instr_handle, access_mode, reg_dst, reg_src,
}
use pcomp.Jit.{
  ◌>>=◌, Jit, Program, prog_byte, prog_hword, prog_dword, emit, vm_add, as_arch_addr, no_addr,
  defer_jit_and_reserve_slots,
}
use pcomp.Jit
use pcomp.X64.Regs.{as_arch_reg}
use pcomp.X64.Encode.{
  emit_add_reg_reg, emit_and_reg_reg, emit_or_reg_reg, emit_sub_reg_reg, emit_xor_reg_reg,
  emit_mov_reg_reg, emit_cmp_reg_reg, emit_not_reg, emit_mov_b32d_reg, emit_mov_reg_b32d,
  emit_mov_reg_imm, emit_add_reg_imm64, emit_and_reg_imm64, emit_cmp_reg_imm64, emit_or_reg_imm64,
  emit_sub_reg_imm64, emit_xor_reg_imm64, emit_call_imm64, emit_jmp_imm64, emit_je_imm32,
  emit_jne_imm32, emit_jg_imm32, emit_jge_imm32, emit_jl_imm32, emit_jle_imm32, emit_nop,
  emit_pop_reg, emit_push_reg, emit_ret,
}

module _ (p : Program) where
  -- `idd.idx`, converted to `int32_t`.
  unfoldable pub jit_load : Jit → Option Jit
  jit_load j = do
    b ← prog_byte p (j.jpos.vm + 1)
    idx ← prog_hword p (j.jpos.vm + 2)
    rd ← as_arch_reg (reg_dst b)
    rb ← as_arch_reg (reg_src b)
    some (vm_add 4 (emit (emit_mov_reg_b32d rd rb (u32 (to_u64 (as_signed16 idx)))) j))

  unfoldable pub jit_store : Jit → Option Jit
  jit_store j = do
    b ← prog_byte p (j.jpos.vm + 1)
    idx ← prog_hword p (j.jpos.vm + 2)
    rb ← as_arch_reg (reg_dst b)
    rs ← as_arch_reg (reg_src b)
    some (vm_add 4 (emit (emit_mov_b32d_reg rb (u32 (to_u64 (as_signed16 idx))) rs) j))

  -- What `_mov` to `_xor` and `_cmp` share, with their two emitters.
  unfoldable pub jit_two_operands : (ℕ → ℕ → List ℕ) → (ℕ → ℕ → List ℕ) → Jit → Option Jit
  jit_two_operands emit_reg emit_imm j = do
    op ← prog_byte p j.jpos.vm
    b ← prog_byte p (j.jpos.vm + 1)
    rd ← as_arch_reg (reg_dst b)
    if access_mode op == am_reg
        then (as_arch_reg (reg_src b) >>= λ rs. some (vm_add 2 (emit (emit_reg rd rs) j)))
        else (prog_dword p (j.jpos.vm + 2) >>= λ iv. some (vm_add 10 (emit (emit_imm rd iv) j)))

  -- `_not`, `_push` and `_pop`
  unfoldable pub jit_one_operand : (ℕ → List ℕ) → Jit → Option Jit
  jit_one_operand emit_reg j = do
    b ← prog_byte p (j.jpos.vm + 1)
    rd ← as_arch_reg (reg_dst b)
    some (vm_add 2 (emit (emit_reg rd) j))

  -- `_call` and `_jmp` to `_jmple`: the code for the target `va` from the place `arch`, or slots for
  -- it where the target has no code yet.
  unfoldable pub jit_branch : (ℕ → ℕ → List ℕ) → ℕ → Jit → Option Jit
  jit_branch emit_to slots j = do
    iv ← prog_dword p (j.jpos.vm + 1)
    let va = as_arch_addr iv j
    some (
        vm_add 9 (
          if va == no_addr
          then defer_jit_and_reserve_slots emit_nop slots j
          else emit (emit_to va j.jpos.arch) j))

-- `(int32_t) ((int64_t) va - (int64_t) jpos.arch)`
abbrev pub distance : ℕ → ℕ → ℕ
distance va arch = u32 (va + 2 ^ 64 - arch)

module _ (p : Program) where
  unfoldable pub jit_instr : VmInstr → Jit → Option Jit
  jit_instr load = jit_load p
  jit_instr store = jit_store p
  jit_instr mov = jit_two_operands p emit_mov_reg_reg emit_mov_reg_imm
  jit_instr add = jit_two_operands p emit_add_reg_reg emit_add_reg_imm64
  jit_instr sub = jit_two_operands p emit_sub_reg_reg emit_sub_reg_imm64
  jit_instr and = jit_two_operands p emit_and_reg_reg emit_and_reg_imm64
  jit_instr or = jit_two_operands p emit_or_reg_reg emit_or_reg_imm64
  jit_instr xor = jit_two_operands p emit_xor_reg_reg emit_xor_reg_imm64
  jit_instr not = jit_one_operand p emit_not_reg
  jit_instr cmp = jit_two_operands p emit_cmp_reg_reg emit_cmp_reg_imm64
  jit_instr push = jit_one_operand p emit_push_reg
  jit_instr pop = jit_one_operand p emit_pop_reg
  jit_instr call = jit_branch p (λ va _. emit_call_imm64 va) 13
  jit_instr ret = λ j. some (vm_add 1 (emit emit_ret j))
  jit_instr jmp = jit_branch p (λ va _. emit_jmp_imm64 va) 13
  jit_instr jmpeq = jit_branch p (λ va arch. emit_je_imm32 (distance va arch)) 6
  jit_instr jmpne = jit_branch p (λ va arch. emit_jne_imm32 (distance va arch)) 6
  jit_instr jmpgt = jit_branch p (λ va arch. emit_jg_imm32 (distance va arch)) 6
  jit_instr jmplt = jit_branch p (λ va arch. emit_jl_imm32 (distance va arch)) 6
  jit_instr jmpge = jit_branch p (λ va arch. emit_jge_imm32 (distance va arch)) 6
  jit_instr jmple = jit_branch p (λ va arch. emit_jle_imm32 (distance va arch)) 6

  unfoldable pub jit_vm_instruction : Jit → Option Jit
  jit_vm_instruction j = do b ← prog_byte p j.jpos.vm; i ← instr_handle (instr b); jit_instr i j

  unfoldable pub jit_program : Jit → Option Jit
  jit_program j = Jit.jit_program jit_vm_instruction p.prog_size j

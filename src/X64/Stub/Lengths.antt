-- ===== src/X64/Stub/Lengths.antt =====
-- How many bytes the pieces of the system call stub take.
use pcomp.Common.{ℕ, ◌+◌, ◌≤◌, ◌≡◌, refl, length, length-append, arith}
use pcomp.X64.Regs.{reg_base, rex_adj_rm}
use pcomp.X64.Encode.{
  emit_mov_b8d_reg, emit_mov_reg_b8d, emit_mov_b32d_reg, emit_mov_reg_b32d, sib, prefix_b,
  emit_cmp_reg_imm64, emit_cmp_reg_reg, emit_add_reg_imm64, emit_add_reg_reg, emit_call_imm64,
  emit_call_reg, emit_jmp_imm32, emit_je_imm32, emit_push_reg, emit_pop_reg, emit_ret,
}
use pcomp.X64.Slots.{length-mov_reg_imm}
use pcomp.X64.Stub.{
  Host, stub_test, stub_call, stub_exit, emit_vm_sub_exit_seq_to_host,
  emit_non_vm_sub_entry_seq_to_host, emit_non_vm_sub_exit_seq_to_host, emit_sys_enter_call,
  emit_vm_reg_save_seq,
}

length-stub_test : (h : Host) → length (stub_test h) ≤ 30
unfolding stub_test emit_mov_reg_b32d emit_cmp_reg_imm64 emit_cmp_reg_reg sib reg_base rex_adj_rm
length-stub_test h = simp length-append (omega (arith, length-mov_reg_imm 5 0))

length-stub_exit : (h : Host) → length (stub_exit h) ≤ 200
unfolding stub_exit emit_vm_reg_save_seq emit_vm_sub_exit_seq_to_host emit_add_reg_imm64
    emit_add_reg_reg emit_mov_b32d_reg emit_mov_reg_b8d emit_pop_reg emit_ret sib reg_base prefix_b
length-stub_exit h = simp length-append (
    omega (
      arith,
      length-mov_reg_imm 5 16,
      length-mov_reg_imm 5 h.reg_dump_area,
      length-mov_reg_imm 5 h.host_sp,
    ))

length-stub_call : (h : Host) → length (stub_call h) ≤ 200
unfolding stub_call emit_non_vm_sub_entry_seq_to_host emit_non_vm_sub_exit_seq_to_host
    emit_sys_enter_call emit_call_imm64 emit_call_reg emit_mov_b8d_reg emit_mov_reg_b8d
    emit_push_reg emit_pop_reg emit_ret sib reg_base prefix_b
length-stub_call h =
    simp length-append
      (omega (arith, length-mov_reg_imm 5 h.vm_sp, length-mov_reg_imm 5 h.sys_enter))

pub lengths : (h : Host) → length (stub_test h) + length (stub_call h) + length (stub_exit h) ≤ 430
lengths h = omega (arith, length-stub_test h, length-stub_call h, length-stub_exit h)

pub length-jmp_imm32 : (v : ℕ) → length (emit_jmp_imm32 v) ≡ 5
unfolding emit_jmp_imm32
length-jmp_imm32 v = refl

pub length-je_imm32 : (v : ℕ) → length (emit_je_imm32 v) ≡ 6
unfolding emit_je_imm32
length-je_imm32 v = refl

-- ===== src/X64/Stub.antt =====
-- The fixed sequences of vm/x64.cc around the program: entry from and exit to the host, the system
-- call stub, the registers' start values, the guard behind the program, and `x86_64JIT::jit`. The
-- register that `as_arch_reg` gives for the VM's `SP` is `RSP`.
pub mod Lengths
pub mod Layout
use pcomp.Common.{ℕ, ◌+◌, ◌-◌, ◌^◌, List, [], ◌∷◌, ◌++◌, Option, none, some}
use pcomp.Word.{u32}
use pcomp.Jit.{◌>>=◌, Jit, Program, emit, set_arch, vm_add, record_addr_mapping}
use pcomp.X64.Regs.{rax, rcx, rdx, rbx, rsp, rbp, rsi, rdi, r8, r9, r10, r11, r12, r13, r14, r15}
use pcomp.X64.Encode.{
  emit_mov_reg_imm, emit_mov_reg_imm32, emit_mov_b8d_reg, emit_mov_reg_b8d, emit_mov_b32d_reg,
  emit_mov_reg_b32d, emit_cmp_reg_imm64, emit_add_reg_imm64, emit_call_imm64, emit_jmp_imm32,
  emit_je_imm32, emit_push_reg, emit_pop_reg, emit_ret,
}
use pcomp.X64.Jit.{jit_program}

-- Addresses of the host that the code contains: of the fields `host_sp` and `vm_sp`, of
-- `reg_dump_area`, of the function `JIT::sys_enter`, and the end of the data memory, `stack`.
pub record Host : Type 0 where
  pub host_sp : ℕ
  pub vm_sp : ℕ
  pub reg_dump_area : ℕ
  pub sys_enter : ℕ
  pub stack : ℕ

module _ (h : Host) where
  unfoldable emit_vm_sub_entry_seq_from_host : List ℕ
  emit_vm_sub_entry_seq_from_host =
      emit_push_reg rbp
      ++ emit_push_reg rbx
      ++ emit_push_reg r12
      ++ emit_push_reg r13
      ++ emit_push_reg r14
      ++ emit_push_reg r15
      ++ emit_mov_reg_imm rbp h.host_sp
      ++ emit_mov_b8d_reg rbp 0 rsp

  unfoldable pub emit_vm_sub_exit_seq_to_host : List ℕ
  emit_vm_sub_exit_seq_to_host =
      emit_mov_reg_imm rbp h.host_sp
      ++ emit_mov_reg_b8d rsp rbp 0
      ++ emit_pop_reg r15
      ++ emit_pop_reg r14
      ++ emit_pop_reg r13
      ++ emit_pop_reg r12
      ++ emit_pop_reg rbx
      ++ emit_pop_reg rbp
      ++ emit_ret

  unfoldable pub emit_non_vm_sub_entry_seq_to_host : List ℕ
  emit_non_vm_sub_entry_seq_to_host =
      emit_mov_reg_imm rbp h.vm_sp
      ++ emit_mov_b8d_reg rbp 0 rsp
      ++ emit_push_reg r8
      ++ emit_push_reg r9
      ++ emit_push_reg r10
      ++ emit_push_reg r11
      ++ emit_push_reg rax
      ++ emit_push_reg rcx
      ++ emit_push_reg rdx
      ++ emit_push_reg rsi

  unfoldable pub emit_non_vm_sub_exit_seq_to_host : List ℕ
  emit_non_vm_sub_exit_seq_to_host =
      emit_pop_reg rsi
      ++ emit_pop_reg rdx
      ++ emit_pop_reg rcx
      ++ emit_pop_reg rax
      ++ emit_pop_reg r11
      ++ emit_pop_reg r10
      ++ emit_pop_reg r9
      ++ emit_pop_reg r8
      ++ emit_mov_reg_imm rbp h.vm_sp
      ++ emit_mov_reg_b8d rsp rbp 0

  unfoldable pub emit_sys_enter_call : List ℕ
  emit_sys_enter_call =
      emit_mov_reg_imm rbp h.vm_sp
      ++ emit_mov_reg_b8d rdi rbp 0
      ++ emit_call_imm64 h.sys_enter
      ++ emit_mov_reg_imm rbp h.vm_sp
      ++ emit_mov_b8d_reg rbp 0 rax

  unfoldable pub emit_vm_reg_save_seq : List ℕ
  emit_vm_reg_save_seq =
      emit_mov_reg_imm rbp h.reg_dump_area
      ++ emit_mov_b32d_reg rbp 0x00 r8
      ++ emit_mov_b32d_reg rbp 0x08 r9
      ++ emit_mov_b32d_reg rbp 0x10 r10
      ++ emit_mov_b32d_reg rbp 0x18 r11
      ++ emit_mov_b32d_reg rbp 0x20 r12
      ++ emit_mov_b32d_reg rbp 0x28 r13
      ++ emit_mov_b32d_reg rbp 0x30 r14
      ++ emit_mov_b32d_reg rbp 0x38 r15
      ++ emit_mov_b32d_reg rbp 0x40 rax
      ++ emit_mov_b32d_reg rbp 0x48 rcx
      ++ emit_mov_b32d_reg rbp 0x50 rdx
      ++ emit_mov_b32d_reg rbp 0x58 rbx
      ++ emit_mov_b32d_reg rbp 0x60 rsi
      ++ emit_mov_b32d_reg rbp 0x68 rsp

  unfoldable emit_reg_init : List ℕ
  emit_reg_init =
      emit_mov_reg_imm32 r8 0
      ++ emit_mov_reg_imm32 r9 0
      ++ emit_mov_reg_imm32 r10 0
      ++ emit_mov_reg_imm32 r11 0
      ++ emit_mov_reg_imm32 r12 0
      ++ emit_mov_reg_imm32 r13 0
      ++ emit_mov_reg_imm32 r14 0
      ++ emit_mov_reg_imm32 r15 0
      ++ emit_mov_reg_imm32 rax 0
      ++ emit_mov_reg_imm32 rcx 0
      ++ emit_mov_reg_imm32 rdx 0
      ++ emit_mov_reg_imm32 rbx 0
      ++ emit_mov_reg_imm32 rsi 0
      ++ emit_mov_reg_imm rsp h.stack

  -- The stub's code between its two jumps: a system call other than number 0.
  unfoldable pub stub_call : List ℕ
  stub_call =
      emit_non_vm_sub_entry_seq_to_host ++ emit_sys_enter_call ++ emit_non_vm_sub_exit_seq_to_host
      ++ emit_ret

  -- The stub's end: system call number 0 leaves the VM.
  unfoldable pub stub_exit : List ℕ
  stub_exit = emit_add_reg_imm64 rsp 16 ++ emit_vm_reg_save_seq ++ emit_vm_sub_exit_seq_to_host

  -- The stub's start: the number is compared with 0.
  unfoldable pub stub_test : List ℕ
  stub_test = emit_mov_reg_b32d r8 rsp 8 ++ emit_cmp_reg_imm64 r8 0

  -- `sys_enter_stub`, and the state with the stub written: room is left for the two jumps, which
  -- are written once their targets `pn0` and `pn1` are known.
  unfoldable pub emit_sys_enter_stub : Jit → ℕ × Jit
  emit_sys_enter_stub j =
      let pj0 : ℕ = j.jpos.arch in
      let sys_enter_stub : ℕ = pj0 + 5 in
      let j₁ : Jit = emit stub_test (record_addr_mapping (set_arch sys_enter_stub j)) in
      let pj1 : ℕ = j₁.jpos.arch in
      let j₂ : Jit = emit stub_call (set_arch (pj1 + 6) j₁) in
      let pn1 : ℕ = j₂.jpos.arch in
      let j₃ : Jit = emit stub_exit j₂ in
      let pn0 : ℕ = j₃.jpos.arch in
      let j₄ : Jit = emit (emit_jmp_imm32 (u32 (pn0 - pj0))) (set_arch pj0 j₃) in
      let j₅ : Jit = emit (emit_je_imm32 (u32 (pn1 - pj1))) (set_arch pj1 j₄) in
      (sys_enter_stub, set_arch pn0 (vm_add 9 j₅))

-- The guard behind the program: a system call number 0, for a program that runs over its end.
unfoldable emit_vm_exit_syscall_guard : ℕ → List ℕ
emit_vm_exit_syscall_guard sys_enter_stub =
    emit_mov_reg_imm32 rbp 0 ++ emit_push_reg rbp ++ emit_call_imm64 sys_enter_stub

-- `x86_64JIT::jit`
unfoldable jit : Host → Program → Jit → Option Jit
jit h p j =
    let (sys_enter_stub, j₁) = emit_sys_enter_stub h (emit (emit_vm_sub_entry_seq_from_host h) j) in
    jit_program p (emit (emit_reg_init h) j₁) >>= λ j₂.
    some (emit (emit_vm_exit_syscall_guard sys_enter_stub) j₂)

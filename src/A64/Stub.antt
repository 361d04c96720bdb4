-- ===== src/A64/Stub.antt =====
-- The fixed sequences of vm/a64.cc around the program, in words, and `AArch64JIT::jit`. The
-- registers that `as_arch_reg` gives for the VM's registers are written out; `vm_sp` is the one for
-- its `SP`.
pub mod Layout
use pcomp.Common.{
  ℕ, ◌+◌, ◌-◌, ◌*◌, ◌/◌, ◌^◌, List, [], ◌∷◌, ◌++◌, Option, none, some, leb, if◌then◌else◌, length,
}
use pcomp.Word.{u32}
use pcomp.Jit.{◌>>=◌, Jit, Program, emit, set_arch, vm_add, record_addr_mapping}
use pcomp.A64.Words.{
  zr, lr, fp, emit_add, emit_adr, emit_b, emit_b_cond, emit_blr, emit_ldp_post_idx,
  emit_ldr_unsigned_offset, emit_ret, emit_stp_pre_idx, emit_str_post_idx,
}
use pcomp.A64.Immediate.{emit_mov_reg_imm}
use pcomp.A64.Jit.{
  r11, vm_sp, cond_eq, words, words_between, emit_push_reg, emit_pop_reg, emit_mov_reg_reg,
  emit_cmp_reg_imm, jit_program,
}

-- Addresses of the host that the code contains: of `reg_dump_area` and of the function
-- `JIT::sys_enter`, and the end of the data memory, `stack`.
pub record Host : Type 0 where
  pub reg_dump_area : ℕ
  pub sys_enter : ℕ
  pub stack : ℕ

-- The register number of `SP`, and -16 as an `int32_t`.
abbrev pub host_sp : ℕ
host_sp = zr

abbrev minus_16 : ℕ
minus_16 = 0xffff_fff0

unfoldable pub emit_mov_reg_sp : ℕ → ℕ → ℕ
emit_mov_reg_sp rd rs = emit_add rd rs 0

unfoldable pub emit_vm_sub_entry_seq_from_host : List ℕ
emit_vm_sub_entry_seq_from_host =
    emit_stp_pre_idx fp lr host_sp minus_16
    ∷ emit_mov_reg_sp fp host_sp
    ∷ emit_stp_pre_idx 19 20 host_sp minus_16
    ∷ emit_stp_pre_idx 21 22 host_sp minus_16
    ∷ emit_stp_pre_idx 23 24 host_sp minus_16
    ∷ emit_stp_pre_idx 25 26 host_sp minus_16
    ∷ emit_stp_pre_idx 27 28 host_sp minus_16
    ∷ []

unfoldable pub emit_vm_sub_exit_seq_to_host : List ℕ
emit_vm_sub_exit_seq_to_host =
    emit_ldp_post_idx 27 28 host_sp 16
    ∷ emit_ldp_post_idx 25 26 host_sp 16
    ∷ emit_ldp_post_idx 23 24 host_sp 16
    ∷ emit_ldp_post_idx 21 22 host_sp 16
    ∷ emit_ldp_post_idx 19 20 host_sp 16
    ∷ emit_ldp_post_idx fp lr host_sp 16
    ∷ emit_ret lr
    ∷ []

unfoldable pub emit_non_vm_sub_entry_seq_to_host : List ℕ
emit_non_vm_sub_entry_seq_to_host =
    emit_stp_pre_idx 14 15 host_sp minus_16 ∷ emit_stp_pre_idx 12 13 host_sp minus_16 ∷ []

unfoldable pub emit_non_vm_sub_exit_seq_to_host : List ℕ
emit_non_vm_sub_exit_seq_to_host =
    emit_ldp_post_idx 12 13 host_sp 16 ∷ emit_ldp_post_idx 14 15 host_sp 16 ∷ []

module _ (h : Host) where
  unfoldable pub emit_sys_enter_call : List ℕ
  emit_sys_enter_call =
      emit_mov_reg_reg 0 vm_sp
      ++ emit_mov_reg_imm r11 h.sys_enter
      ++ emit_blr r11 ∷ emit_mov_reg_reg vm_sp 0

  unfoldable pub emit_vm_reg_save_seq : List ℕ
  emit_vm_reg_save_seq =
      emit_mov_reg_imm r11 h.reg_dump_area
      ++ emit_str_post_idx 27 r11 8
        ∷ emit_str_post_idx 26 r11 8
        ∷ emit_str_post_idx 25 r11 8
        ∷ emit_str_post_idx 24 r11 8
        ∷ emit_str_post_idx 23 r11 8
        ∷ emit_str_post_idx 22 r11 8
        ∷ emit_str_post_idx 21 r11 8
        ∷ emit_str_post_idx 20 r11 8
        ∷ emit_str_post_idx 19 r11 8
        ∷ emit_str_post_idx 15 r11 8
        ∷ emit_str_post_idx 14 r11 8
        ∷ emit_str_post_idx 13 r11 8
        ∷ emit_str_post_idx 12 r11 8
        ∷ emit_str_post_idx vm_sp r11 8
        ∷ []

  unfoldable pub emit_reg_init : List ℕ
  emit_reg_init =
      emit_mov_reg_imm 27 0
      ++ emit_mov_reg_imm 26 0
      ++ emit_mov_reg_imm 25 0
      ++ emit_mov_reg_imm 24 0
      ++ emit_mov_reg_imm 23 0
      ++ emit_mov_reg_imm 22 0
      ++ emit_mov_reg_imm 21 0
      ++ emit_mov_reg_imm 20 0
      ++ emit_mov_reg_imm 19 0
      ++ emit_mov_reg_imm 15 0
      ++ emit_mov_reg_imm 14 0
      ++ emit_mov_reg_imm 13 0
      ++ emit_mov_reg_imm 12 0
      ++ emit_mov_reg_imm vm_sp h.stack

  -- The stub's start, a system call other than number 0, and the end that leaves the VM.
  unfoldable pub stub_test : List ℕ
  stub_test = emit_ldr_unsigned_offset 27 vm_sp 1 ∷ emit_cmp_reg_imm 27 0

  unfoldable pub stub_call : List ℕ
  stub_call =
      emit_non_vm_sub_entry_seq_to_host
      ++ emit_sys_enter_call
      ++ emit_non_vm_sub_exit_seq_to_host
      ++ emit_pop_reg lr
      ++ emit_ret lr ∷ []

  unfoldable pub stub_exit : List ℕ
  stub_exit = emit_add vm_sp vm_sp 16 ∷ emit_vm_reg_save_seq ++ emit_vm_sub_exit_seq_to_host

  -- `sys_enter_stub`, and the state with the stub written.
  unfoldable pub emit_sys_enter_stub : Jit → ℕ × Jit
  emit_sys_enter_stub j =
      let pj0 : ℕ = j.jpos.arch in
      let sys_enter_stub : ℕ = pj0 + 4 in
      let j₁ : Jit = emit (words stub_test) (record_addr_mapping (set_arch sys_enter_stub j)) in
      let pj1 : ℕ = j₁.jpos.arch in
      let j₂ : Jit = emit (words stub_call) (set_arch (pj1 + 4) j₁) in
      let pn1 : ℕ = j₂.jpos.arch in
      let j₃ : Jit = emit (words stub_exit) j₂ in
      let pn0 : ℕ = j₃.jpos.arch in
      let j₄ : Jit = emit (words (emit_b (words_between pn0 pj0) ∷ [])) (set_arch pj0 j₃) in
      let j₅ : Jit =
        emit (words (emit_b_cond cond_eq (words_between pn1 pj1) ∷ [])) (set_arch pj1 j₄) in
      (sys_enter_stub, set_arch pn0 (vm_add 9 j₅))

-- The guard behind the program, written at `arch`.
unfoldable pub emit_vm_exit_syscall_guard : ℕ → ℕ → List ℕ
emit_vm_exit_syscall_guard sys_enter_stub arch =
    let before : List ℕ =
      emit_mov_reg_imm 27 0 ++ emit_push_reg 27 ++ emit_adr r11 12 ∷ emit_push_reg r11 in
    before ++ emit_b (words_between sys_enter_stub (arch + 4 * length before)) ∷ []

-- `AArch64JIT::jit`
unfoldable pub jit : Host → Program → Jit → Option Jit
jit h p j =
    let (sys_enter_stub, j₁) =
      emit_sys_enter_stub h (emit (words emit_vm_sub_entry_seq_from_host) j) in
    jit_program p (emit (words (emit_reg_init h)) j₁) >>= λ j₂.
    some (emit (words (emit_vm_exit_syscall_guard sys_enter_stub j₂.jpos.arch)) j₂)

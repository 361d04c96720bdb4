-- ===== src/A64/Jit.antt =====
-- `vr2ar`, the `emit_` functions of several words, and `AArch64JIT::jit_vm_instruction` with the
-- loops over it.
use pcomp.Common.{
  ℕ, ◌+◌, ◌-◌, ◌/◌, ◌^◌, List, [], ◌∷◌, ◌++◌, Option, none, some, leb, length, ◌==◌, if◌then◌else◌,
  get_or,
}
use pcomp.Word.{u32, to_u64, as_signed16}
use pcomp.Exe.{
  VmInstr, load, store, mov, add, sub, and, or, xor, not, cmp, push, pop, call, ret, jmp, jmpeq,
  jmpne, jmpgt, jmplt, jmpge, jmple, am_reg, instr, instr_handle, access_mode, reg_dst, reg_src,
}
use pcomp.Jit.{
  ◌>>=◌, Jit, Program, prog_byte, prog_hword, prog_dword, emit, bytes_of, vm_add, as_arch_addr,
  no_addr, repeat, defer_jit_and_reserve_slots,
}
use pcomp.Jit
use pcomp.A64.Words.{
  zr, lr, emit_adr, emit_adds_ereg, emit_subs_ereg, emit_and_sreg, emit_eor_sreg, emit_orn_sreg,
  emit_orr_sreg, emit_ldr_post_idx, emit_ldr_unsigned_offset, emit_str_pre_idx,
  emit_str_unsigned_offset, emit_b_cond, emit_br, emit_ret, emit_nop,
}
use pcomp.A64.Immediate.{emit_mov_reg_imm}

-- `vr2ar`, by the VM register's number; FLAGS (13) and PC (15) have no entry.
abbrev vr2ar : List (Option ℕ)
vr2ar =
    some 27
    ∷ some 26
    ∷ some 25
    ∷ some 24
    ∷ some 23
    ∷ some 22
    ∷ some 21
    ∷ some 20
    ∷ some 19
    ∷ some 15
    ∷ some 14
    ∷ some 13
    ∷ some 12
    ∷ none
    ∷ some 28
    ∷ none
    ∷ []

unfoldable pub as_arch_reg : ℕ → Option ℕ
as_arch_reg byte = get_or vr2ar byte none

-- R11, the scratch register, and what `as_arch_reg` gives for the VM's `SP`.
abbrev pub r11 : ℕ
r11 = 0b00001011

abbrev pub vm_sp : ℕ
vm_sp = 28

-- arch_cond_t
abbrev pub cond_eq : ℕ
cond_eq = 0b00000000

abbrev cond_ne : ℕ
cond_ne = 0b00000001

abbrev cond_ge : ℕ
cond_ge = 0b00001010

abbrev cond_lt : ℕ
cond_lt = 0b00001011

abbrev cond_gt : ℕ
cond_gt = 0b00001100

abbrev cond_le : ℕ
cond_le = 0b00001101

-- The bytes of words.
abbrev pub words : List ℕ → List ℕ
words [] = []
words (w ∷ ws) = bytes_of 4 w ++ words ws

unfoldable pub emit_push_reg : ℕ → List ℕ
emit_push_reg rs = emit_str_pre_idx rs vm_sp 0xfff8 ∷ []

unfoldable pub emit_pop_reg : ℕ → List ℕ
emit_pop_reg rd = emit_ldr_post_idx rd vm_sp 8 ∷ []

unfoldable pub emit_mov_reg_reg : ℕ → ℕ → List ℕ
emit_mov_reg_reg rd rs = emit_orr_sreg rd zr rs ∷ []

unfoldable pub emit_cmp_reg_imm : ℕ → ℕ → List ℕ
emit_cmp_reg_imm rs imm = emit_mov_reg_imm r11 imm ++ emit_subs_ereg zr rs r11 ∷ []

unfoldable pub emit_cmp_reg_reg : ℕ → ℕ → List ℕ
emit_cmp_reg_reg rs₁ rs₂ = emit_subs_ereg zr rs₁ rs₂ ∷ []

-- The two forms of `_add` to `_xor`, for the emitter of their word.
abbrev with_reg : (ℕ → ℕ → ℕ → ℕ) → ℕ → ℕ → List ℕ
with_reg f rd rs = f rd rd rs ∷ []

abbrev with_imm : (ℕ → ℕ → ℕ → ℕ) → ℕ → ℕ → List ℕ
with_imm f rd imm = emit_mov_reg_imm r11 imm ++ f rd rd r11 ∷ []

-- The code of `_call`: the address behind it is pushed, the target is loaded and the gap up to four
-- words is filled with `nop`.
unfoldable pub call_words : ℕ → List ℕ
call_words va =
    emit_adr r11 28
    ∷ (emit_push_reg r11
        ++ emit_mov_reg_imm r11 va
        ++ repeat (4 - length (emit_mov_reg_imm r11 va)) (emit_nop ∷ [])
        ++ emit_br r11 ∷ [])

-- The code of `_jmp`.
unfoldable pub jmp_words : ℕ → List ℕ
jmp_words va = emit_mov_reg_imm r11 va ++ emit_br r11 ∷ []

-- `(uint32_t*) va - (uint32_t*) jpos.arch`, as an `int32_t`.
abbrev pub words_between : ℕ → ℕ → ℕ
words_between va arch =
    if leb arch va then u32 ((va - arch) / 4) else u32 (2 ^ 64 - (arch - va) / 4)

module _ (p : Program) where
  unfoldable pub jit_load : Jit → Option Jit
  jit_load j = do
    b ← prog_byte p (j.jpos.vm + 1)
    idx ← prog_hword p (j.jpos.vm + 2)
    rs ← as_arch_reg (reg_src b)
    rd ← as_arch_reg (reg_dst b)
    some (
        vm_add 4 (
          emit
            (words (
              emit_mov_reg_imm r11 (to_u64 (as_signed16 idx))
              ++ emit_adds_ereg r11 rs r11 ∷ emit_ldr_unsigned_offset rd r11 0 ∷ []))
            j))

  unfoldable pub jit_store : Jit → Option Jit
  jit_store j = do
    b ← prog_byte p (j.jpos.vm + 1)
    idx ← prog_hword p (j.jpos.vm + 2)
    rd ← as_arch_reg (reg_dst b)
    rs ← as_arch_reg (reg_src b)
    some (
        vm_add 4 (
          emit
            (words (
              emit_mov_reg_imm r11 (to_u64 (as_signed16 idx))
              ++ emit_adds_ereg r11 rd r11 ∷ emit_str_unsigned_offset rs r11 0 ∷ []))
            j))

  -- What `_mov` to `_xor` and `_cmp` share.
  unfoldable pub jit_two_operands : (ℕ → ℕ → List ℕ) → (ℕ → ℕ → List ℕ) → Jit → Option Jit
  jit_two_operands emit_reg emit_imm j = do
    op ← prog_byte p j.jpos.vm
    b ← prog_byte p (j.jpos.vm + 1)
    rd ← as_arch_reg (reg_dst b)
    if access_mode op == am_reg
        then (as_arch_reg (reg_src b) >>= λ rs. some (vm_add 2 (emit (words (emit_reg rd rs)) j)))
        else (prog_dword p (j.jpos.vm + 2) >>= λ iv.
            some (vm_add 10 (emit (words (emit_imm rd iv)) j)))

  -- `_not`, `_push` and `_pop`
  unfoldable pub jit_one_operand : (ℕ → List ℕ) → Jit → Option Jit
  jit_one_operand emit_reg j = do
    b ← prog_byte p (j.jpos.vm + 1)
    rd ← as_arch_reg (reg_dst b)
    some (vm_add 2 (emit (words (emit_reg rd)) j))

  -- `_call` and `_jmp` to `_jmple`
  unfoldable pub jit_branch : (ℕ → ℕ → List ℕ) → ℕ → Jit → Option Jit
  jit_branch emit_to slots j = do
    iv ← prog_dword p (j.jpos.vm + 1)
    let va = as_arch_addr iv j
    some (
        vm_add 9 (
          if va == no_addr
          then defer_jit_and_reserve_slots (bytes_of 4 emit_nop) slots j
          else emit (words (emit_to va j.jpos.arch)) j))

-- A conditional branch.
abbrev branch_on : ℕ → ℕ → ℕ → List ℕ
branch_on cond va arch = emit_b_cond cond (words_between va arch) ∷ []

module _ (p : Program) where
  unfoldable pub jit_instr : VmInstr → Jit → Option Jit
  jit_instr load = jit_load p
  jit_instr store = jit_store p
  jit_instr mov = jit_two_operands p emit_mov_reg_reg emit_mov_reg_imm
  jit_instr add = jit_two_operands p (with_reg emit_adds_ereg) (with_imm emit_adds_ereg)
  jit_instr sub = jit_two_operands p (with_reg emit_subs_ereg) (with_imm emit_subs_ereg)
  jit_instr and = jit_two_operands p (with_reg emit_and_sreg) (with_imm emit_and_sreg)
  jit_instr or = jit_two_operands p (with_reg emit_orr_sreg) (with_imm emit_orr_sreg)
  jit_instr xor = jit_two_operands p (with_reg emit_eor_sreg) (with_imm emit_eor_sreg)
  jit_instr not = jit_one_operand p (λ rd. emit_orn_sreg rd zr rd ∷ [])
  jit_instr cmp = jit_two_operands p emit_cmp_reg_reg emit_cmp_reg_imm
  jit_instr push = jit_one_operand p emit_push_reg
  jit_instr pop = jit_one_operand p emit_pop_reg
  jit_instr call = jit_branch p (λ va _. call_words va) 7
  jit_instr ret = λ j. some (vm_add 1 (emit (words (emit_pop_reg lr ++ emit_ret lr ∷ [])) j))
  jit_instr jmp = jit_branch p (λ va _. jmp_words va) 5
  jit_instr jmpeq = jit_branch p (branch_on cond_eq) 1
  jit_instr jmpne = jit_branch p (branch_on cond_ne) 1
  jit_instr jmpgt = jit_branch p (branch_on cond_gt) 1
  jit_instr jmplt = jit_branch p (branch_on cond_lt) 1
  jit_instr jmpge = jit_branch p (branch_on cond_ge) 1
  jit_instr jmple = jit_branch p (branch_on cond_le) 1

  unfoldable pub jit_vm_instruction : Jit → Option Jit
  jit_vm_instruction j = do b ← prog_byte p j.jpos.vm; i ← instr_handle (instr b); jit_instr i j

  unfoldable pub jit_program : Jit → Option Jit
  jit_program j = Jit.jit_program jit_vm_instruction p.prog_size j

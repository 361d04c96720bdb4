-- ===== src/X64/Translate.antt =====
-- The code that is written for an encoded instruction, by the form of the instruction.
use pcomp.Common.{ℕ, ◌+◌, ◌*◌, ◌^◌, ◌≤◌, ◌<◌, ◌≡◌, refl, false, List, some, arith, ◌==◌}
use pcomp.Word.{IsU64, u32, to_u64, as_signed16}
use pcomp.Memory.{HasBytes}
use pcomp.Exe.{VmInstr}
use pcomp.Exe.Fields.{opcode_decodes, operand_decodes}
use pcomp.Jit.{Jit, Program, emit, vm_add, as_arch_addr, no_addr}
use pcomp.Jit.Reads.{prog_byte-at, prog_hword-at, prog_dword-at}
use pcomp.Spec.{opcode, le_bytes}
use pcomp.X64.Regs.{as_arch_reg}
use pcomp.X64.Encode.{emit_mov_reg_b32d, emit_mov_b32d_reg}
use pcomp.X64.Jit.{
  jit_load, jit_store, jit_two_operands, jit_one_operand, jit_branch, jit_instr, jit_vm_instruction,
}

-- `idd.idx` as the displacement that is emitted.
abbrev pub displacement : ℕ → ℕ
displacement idx = u32 (to_u64 (as_signed16 idx))

module _ (p : Program) (j : Jit) where
  pub jit-opcode :
      (i : VmInstr) (am : ℕ)
      → am < 4
      → p.bytes j.jpos.vm ≡ opcode i am
      → j.jpos.vm < p.prog_size
      → jit_vm_instruction p j ≡ jit_instr p i j
  unfolding jit_vm_instruction
  jit-opcode i am h e room =
      rw (prog_byte-at p j.jpos.vm (opcode i am) room e, (opcode_decodes i am h).0) refl

  module _ (rd rs ad aₛ : ℕ) (hd : rd < 16) (hs : rs < 16) (ed : as_arch_reg rd ≡ some ad)
      (at : p.bytes (j.jpos.vm + 1) ≡ rd * 16 + rs) where
    pub jit_one_operand-eq :
        (f : ℕ → List ℕ)
        → j.jpos.vm + 2 ≤ p.prog_size
        → jit_one_operand p f j ≡ some (vm_add 2 (emit (f ad) j))
    unfolding jit_one_operand
    jit_one_operand-eq f room =
        rw
          (
            prog_byte-at p (j.jpos.vm + 1) (rd * 16 + rs) (omega arith) at,
            (operand_decodes rd rs hd hs).0,
            ed,
          )
          refl

    module _ (f g : ℕ → ℕ → List ℕ) (i : VmInstr) where
      pub jit_two_operands-imm :
          (v : ℕ)
          → IsU64 v
          → p.bytes j.jpos.vm ≡ opcode i 1
          → HasBytes p.bytes (j.jpos.vm + 2) (le_bytes 8 v)
          → j.jpos.vm + 10 ≤ p.prog_size
          → jit_two_operands p f g j ≡ some (vm_add 10 (emit (g ad v) j))
      unfolding jit_two_operands
      jit_two_operands-imm v hv e b room =
          rw
            (
              prog_byte-at p j.jpos.vm (opcode i 1) (omega arith) e,
              prog_byte-at p (j.jpos.vm + 1) (rd * 16 + rs) (omega arith) at,
              (operand_decodes rd rs hd hs).0,
              ed,
              (opcode_decodes i 1 (omega arith)).1,
              prog_dword-at p (j.jpos.vm + 2) v hv (omega arith) b,
            )
            refl

      pub jit_two_operands-reg :
          as_arch_reg rs ≡ some aₛ
          → p.bytes j.jpos.vm ≡ opcode i 0
          → j.jpos.vm + 2 ≤ p.prog_size
          → jit_two_operands p f g j ≡ some (vm_add 2 (emit (f ad aₛ) j))
      unfolding jit_two_operands
      jit_two_operands-reg es e room =
          rw
            (
              prog_byte-at p j.jpos.vm (opcode i 0) (omega arith) e,
              prog_byte-at p (j.jpos.vm + 1) (rd * 16 + rs) (omega arith) at,
              (operand_decodes rd rs hd hs).0,
              ed,
              (opcode_decodes i 0 (omega arith)).1,
              (operand_decodes rd rs hd hs).1,
              es,
            )
            refl

    module _ (es : as_arch_reg rs ≡ some aₛ) (idx : ℕ) (hi : idx < 2 ^ 16)
        (b : HasBytes p.bytes (j.jpos.vm + 2) (le_bytes 2 idx))
        (room : j.jpos.vm + 4 ≤ p.prog_size) where
      pub jit_load-eq :
          jit_load p j ≡ some (vm_add 4 (emit (emit_mov_reg_b32d ad aₛ (displacement idx)) j))
      unfolding jit_load
      jit_load-eq =
          rw
            (
              prog_byte-at p (j.jpos.vm + 1) (rd * 16 + rs) (omega arith) at,
              prog_hword-at p (j.jpos.vm + 2) idx hi (omega arith) b,
              (operand_decodes rd rs hd hs).0,
              (operand_decodes rd rs hd hs).1,
              ed,
              es,
            )
            refl

      pub jit_store-eq :
          jit_store p j ≡ some (vm_add 4 (emit (emit_mov_b32d_reg ad (displacement idx) aₛ) j))
      unfolding jit_store
      jit_store-eq =
          rw
            (
              prog_byte-at p (j.jpos.vm + 1) (rd * 16 + rs) (omega arith) at,
              prog_hword-at p (j.jpos.vm + 2) idx hi (omega arith) b,
              (operand_decodes rd rs hd hs).0,
              (operand_decodes rd rs hd hs).1,
              ed,
              es,
            )
            refl

  pub jit_branch-eq :
      (emit_to : ℕ → ℕ → List ℕ) (n target va : ℕ)
      → IsU64 target
      → HasBytes p.bytes (j.jpos.vm + 1) (le_bytes 8 target)
      → j.jpos.vm + 9 ≤ p.prog_size
      → as_arch_addr target j ≡ va
      → (va == no_addr) ≡ false
      → jit_branch p emit_to n j ≡ some (vm_add 9 (emit (emit_to va j.jpos.arch) j))
  unfolding jit_branch
  jit_branch-eq emit_to n target va ht b room e known =
      rw (prog_dword-at p (j.jpos.vm + 1) target ht (omega arith) b, e, known) refl

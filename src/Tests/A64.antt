-- ===== src/Tests/A64.antt =====
-- The AArch64 theorems at concrete registers and values.
use pcomp.Memory.{as_dword}
use pcomp.Exe.{VmInstr}
use pcomp.Jit.{Jit, Program}
use pcomp.Jit.Branch.{Branched}
use pcomp.Memory.Laws.{Apart}
use pcomp.A64.Stub.{Host, stub_test, stub_call, stub_exit, emit_sys_enter_stub}
use pcomp.A64.Stub.Layout.{IsStub, a64_emit_sys_enter_stub-IsStub}
use pcomp.A64.Jit.{words, words_between, jit_instr}
use pcomp.A64.Slots.{slots, a64_branch-patches}
use pcomp.A64.Branches.{decode_b_cond, b_cond-targets}
use pcomp.Tests.Machine.{image}
use pcomp.Common.{ℕ, update, ◌+◌, [], ◌∷◌, none, ◌*◌, ◌≤◌, ◌≡◌, some, arith, length}
use pcomp.A64.Words.{
  emit_adds_ereg, emit_subs_ereg, emit_and_sreg, emit_eor_sreg, emit_orn_sreg, emit_orr_sreg,
  emit_b_cond,
}
use pcomp.A64.Decoder.{wides}
use pcomp.A64.Immediate.{emit_mov_reg_imm, mov_reg_imm-value}
use pcomp.A64.Forms.{decode_reg, register-decodes}

mov_reg_imm-value_example :
    (wides 11 7 (emit_mov_reg_imm 11 0xffff_ffff_8000_0001) ≡ some 0xffff_ffff_8000_0001)
    × (length (emit_mov_reg_imm 11 0xffff_ffff_8000_0001) ≤ 4)
mov_reg_imm-value_example = mov_reg_imm-value 11 7 0xffff_ffff_8000_0001 (omega arith) (omega arith)

register-decodes_example :
    (decode_reg (emit_and_sreg 27 27 11) ≡ (0b10001010000, 11, 0, 27, 27))
    × (decode_reg (emit_eor_sreg 27 27 11) ≡ (0b11001010000, 11, 0, 27, 27))
    × (decode_reg (emit_orr_sreg 27 27 11) ≡ (0b10101010000, 11, 0, 27, 27))
    × (decode_reg (emit_orn_sreg 27 27 11) ≡ (0b10101010001, 11, 0, 27, 27))
    × (decode_reg (emit_adds_ereg 27 27 11) ≡ (0b10101011001, 11, 0b111000, 27, 27))
    × (decode_reg (emit_subs_ereg 27 27 11) ≡ (0b11101011001, 11, 0b111000, 27, 27))
register-decodes_example = register-decodes 27 27 11 (omega arith) (omega arith) (omega arith)

-- `call 18` at address 0, in a program of 19 bytes.
abbrev calling : Program
calling = record { bytes = image (53 ∷ 18 ∷ 0 ∷ 0 ∷ 0 ∷ 0 ∷ 0 ∷ 0 ∷ 0 ∷ 0 ∷ []); prog_size = 19 }

abbrev at_start : Jit
at_start = record {
  text = λ _. 0;
  jpos = record { arch = 4096; vm = 0 };
  deferred_jpos = [];
  va2aa = λ _. none;
}

a64_branch-patches_example :
    (j' : Jit) × (jit_instr calling VmInstr.call at_start ≡ some j')
    × Branched (4 * slots VmInstr.call) (as_dword calling.bytes (at_start.jpos.vm + 1)) at_start j'
a64_branch-patches_example =
    a64_branch-patches calling VmInstr.call at_start (omega arith) (omega arith)

b_cond-targets_example :
    decode_b_cond 8192 (emit_b_cond 12 (words_between 4096 8192)) ≡ some (12, 4096)
b_cond-targets_example =
    b_cond-targets 12 4096 8192 (omega arith) (omega arith) (omega arith)
      (omega arith, omega arith, omega arith)

abbrev host : Host
host = record {
  reg_dump_area = 0x5555_0000_1000;
  sys_enter = 0x5555_0000_2000;
  stack = 0x7fff_4000_0000;
}

a64_emit_sys_enter_stub-IsStub_example :
    ((emit_sys_enter_stub host at_start).0 ≡ 4096 + 4)
    × IsStub host 4096 (emit_sys_enter_stub host at_start).1
    × ((emit_sys_enter_stub host at_start).1.jpos.vm ≡ 0 + 9)
    × ((emit_sys_enter_stub host at_start).1.va2aa ≡ update at_start.va2aa 0 (some (4096 + 4)))
    × ((emit_sys_enter_stub host at_start).1.deferred_jpos ≡ at_start.deferred_jpos)
    × ((a : ℕ)
        → Apart 4096
            (8
              + length (words (stub_test host))
              + length (words (stub_call host))
              + length (words (stub_exit host)))
            a
            1
        → (emit_sys_enter_stub host at_start).1.text a ≡ at_start.text a)
a64_emit_sys_enter_stub-IsStub_example = a64_emit_sys_enter_stub-IsStub host at_start (omega arith)

-- ===== src/Tests/Translation.antt =====
-- The translation of a small program: `jmp 18` at address 9, over to the `ret` behind it.
use pcomp.Common.{ℕ, ◌+◌, ◌≡◌, ◌≢◌, refl, [], ◌∷◌, All, length, update, none, some, arith}
use pcomp.Memory.Laws.{Apart}
use pcomp.Memory.{read_le, as_dword}
use pcomp.Exe.{VmInstr, instr, instr_handle}
use pcomp.Jit.{
  Jit, Program, prog_byte, prog_dword, emit, record_addr_mapping, as_arch_addr,
  defer_jit_and_reserve_slots, jit_loop,
}
use pcomp.X64.Regs.{rbp, rdi, as_arch_reg}
use pcomp.X64.Registers.{as_arch_reg-injective}
use pcomp.X64.Encode.{emit_nop, emit_ret}
use pcomp.X64.Jit.{jit_branch, jit_instr, jit_vm_instruction, jit_program}
use pcomp.X64.Stub.{Host, stub_test, stub_call, stub_exit, emit_sys_enter_stub}
use pcomp.X64.Stub.Layout.{IsStub, emit_sys_enter_stub-IsStub}
use pcomp.Jit.Branch.{Branched}
use pcomp.X64.Slots.{slots, IsMapped, IsOutside, branch-patches}
use pcomp.X64.Loop.{IsReserved, jit_loop-more, jit_program-patches}
use pcomp.Tests.Machine.{image}

abbrev pub program : Program
program = record {
  bytes =
      image (61 ∷ 0 ∷ 0 ∷ 0 ∷ 0 ∷ 0 ∷ 0 ∷ 0 ∷ 0 ∷ 61 ∷ 18 ∷ 0 ∷ 0 ∷ 0 ∷ 0 ∷ 0 ∷ 0 ∷ 0 ∷ 56 ∷ []);
  prog_size = 19;
}

abbrev pub start : Jit
start = record {
  text = λ _. 0;
  jpos = record { arch = 4096; vm = 9 };
  deferred_jpos = [];
  va2aa = λ _. none;
}

branch-patches_example :
    (j' : Jit) × (jit_instr program VmInstr.jmp start ≡ some j')
    × Branched (slots VmInstr.jmp) (as_dword program.bytes (start.jpos.vm + 1)) start j'
branch-patches_example = branch-patches program VmInstr.jmp start (omega arith) (omega arith)

jit_loop-more_example :
    jit_loop (jit_vm_instruction program) (10 + 5) 19 start
    ≡ jit_loop (jit_vm_instruction program) 10 19 start
jit_loop-more_example = jit_loop-more program 10 5 19 start (omega arith)

-- The state after the loop.
abbrev translated : Jit
translated = elim (jit_loop (jit_vm_instruction program) 19 19 start) [ none ↦ start | some j ↦ j ]

translated-loop : jit_loop (jit_vm_instruction program) 19 19 start ≡ some translated
unfolding jit_loop jit_vm_instruction prog_byte prog_dword read_le as_dword instr instr_handle
    jit_instr jit_branch record_addr_mapping as_arch_addr defer_jit_and_reserve_slots emit emit_nop
    emit_ret
translated-loop = refl

jump_target : IsMapped program translated.va2aa 9
unfolding jit_loop jit_vm_instruction prog_byte prog_dword read_le as_dword instr instr_handle
    jit_instr jit_branch record_addr_mapping as_arch_addr defer_jit_and_reserve_slots emit emit_nop
    emit_ret
jump_target = record { aa = 4109; target = refl; is_address = omega arith }

targets : All (λ jp. IsMapped program translated.va2aa jp.vm) translated.deferred_jpos
unfolding jit_loop jit_vm_instruction prog_byte prog_dword read_le as_dword instr instr_handle
    jit_instr jit_branch record_addr_mapping as_arch_addr defer_jit_and_reserve_slots emit emit_nop
    emit_ret
targets = (jump_target, tt)

jit_program-patches_example :
    IsReserved program 4096 translated.deferred_jpos translated.jpos.arch
    × ((j' : Jit) × (jit_program program start ≡ some j')
        × (j'.jpos ≡ translated.jpos)
        × (j'.va2aa ≡ translated.va2aa)
        × ((a : ℕ) → IsOutside program translated.deferred_jpos a → j'.text a ≡ translated.text a))
jit_program-patches_example =
    jit_program-patches program start translated refl translated-loop targets

abbrev host : Host
host = record {
  host_sp = 0x7fff_1000_0000;
  vm_sp = 0x7fff_1000_0008;
  reg_dump_area = 0x5555_0000_1000;
  sys_enter = 0x5555_0000_2000;
  stack = 0x7fff_4000_0000;
}

emit_sys_enter_stub-IsStub_example :
    ((emit_sys_enter_stub host start).0 ≡ 4096 + 5)
    × IsStub host 4096 (emit_sys_enter_stub host start).1
    × ((emit_sys_enter_stub host start).1.jpos.vm ≡ 9 + 9)
    × ((emit_sys_enter_stub host start).1.va2aa ≡ update start.va2aa 9 (some (4096 + 5)))
    × ((emit_sys_enter_stub host start).1.deferred_jpos ≡ start.deferred_jpos)
    × ((a : ℕ)
        → Apart 4096
            (11 + length (stub_test host) + length (stub_call host) + length (stub_exit host))
            a
            1
        → (emit_sys_enter_stub host start).1.text a ≡ start.text a)
emit_sys_enter_stub-IsStub_example = emit_sys_enter_stub-IsStub host start (omega arith)

fourth : as_arch_reg 4 ≡ some 12
unfolding as_arch_reg
fourth = refl

as_arch_reg-injective_example : ◌≡◌ {A = ℕ} 4 4 × (12 ≢ rbp) × (12 ≢ rdi)
as_arch_reg-injective_example =
    as_arch_reg-injective 4 4 12 (omega arith) (omega arith) fourth fourth

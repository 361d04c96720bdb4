-- ===== src/Tests/Trace.antt =====
-- The traces of an ADD by the interpreter and of an AND by a JIT, each with an immediate operand.
use pcomp.Common.{update, Option, none, ℕ, refl, ◌≡◌, List, [], ◌∷◌, some, true, arith}
use pcomp.Exe.{code, instr, instr_handle, reg_dst, reg_src, access_mode}
use pcomp.Spec.{BinOp, Source, Instruction, encode}
use pcomp.Memory.{read_le, as_dword}
use pcomp.Jit.{
  Jit, Program, prog_byte, prog_dword, record_addr_mapping, emit, jit_loop, jit_deferred,
  for_each_deferred,
}
use pcomp.Jit
use pcomp.X64.Regs.{as_arch_reg}
use pcomp.X64.Encode.{emit_and_reg_imm64, emit_and_reg_reg, emit_mov_reg_imm, emit_mov_reg_imm32}
use pcomp.X64.Jit.{jit_program, jit_vm_instruction, jit_instr, jit_two_operands}
use pcomp.X64.Placed.Runs.{compiled}
use pcomp.Trace.{Idd, no_idd}
use pcomp.Trace.Decode.{trace}
use pcomp.Trace.Syntax.{line, set_apart, listed}
use pcomp.Trace.Shown.{trace-line}
use pcomp.Trace.Record.{record_program, dump_instr}
use pcomp.Trace.Dumped.{dump_instr-line}
use pcomp.Tests.Machine.{image, machine, machine-IsVm}

abbrev add_300 : Instruction
add_300 = Instruction.binary BinOp.add 1 (Source.imm 300)

abbrev add_image : List ℕ
add_image = 0 ∷ 0 ∷ 0 ∷ 0 ∷ 0 ∷ 0 ∷ 0 ∷ 0 ∷ 0 ∷ 17 ∷ 16 ∷ 44 ∷ 1 ∷ []

abbrev entry_registers : List ℕ
entry_registers = 0 ∷ 0 ∷ 0 ∷ 0 ∷ 0 ∷ 0 ∷ 0 ∷ 0 ∷ 0 ∷ 0 ∷ 0 ∷ 0 ∷ 0 ∷ 0 ∷ 64 ∷ 9 ∷ []

trace-line_example :
    trace true (machine add_image entry_registers 64) no_idd
    ≡ some (line 9 (encode add_300) add_300)
unfolding code pcomp.Spec.binary_instr
trace-line_example =
    trace-line (machine add_image entry_registers 64) add_300 no_idd
      (machine-IsVm add_image entry_registers 64 (omega arith) (omega arith)) (omega arith)
      ((omega arith, omega arith, omega arith), omega arith) tt
      (refl, (refl, (refl, (refl, (refl, (refl, (refl, (refl, (refl, (refl, tt))))))))))
      (omega arith)

-- `and r1, 300` is listed as `and r1, 0`.
abbrev and_300 : Instruction
and_300 = Instruction.binary BinOp.and 1 (Source.imm 300)

abbrev and_program : Program
and_program = record {
  bytes = image (0 ∷ 0 ∷ 0 ∷ 0 ∷ 0 ∷ 0 ∷ 0 ∷ 0 ∷ 0 ∷ 25 ∷ 16 ∷ 44 ∷ 1 ∷ []);
  prog_size = 19;
}

abbrev and_start : Jit
and_start = record {
  text = λ _. 0;
  jpos = record { arch = 0x1_0000_0000; vm = 9 };
  deferred_jpos = [];
  va2aa = update (λ _. none) 0 (some 0xffff_0000);
}

starts_with_stub : (va a : ℕ) → and_start.va2aa va ≡ some a → va ≡ 0
starts_with_stub va a e = ground arith

and_translated : jit_program and_program and_start ≡ some (compiled and_program and_start)
unfolding jit_program Jit.jit_program jit_loop jit_deferred for_each_deferred jit_vm_instruction
    prog_byte prog_dword read_le as_dword instr instr_handle reg_dst reg_src access_mode as_arch_reg
    jit_instr jit_two_operands record_addr_mapping emit emit_and_reg_imm64 emit_mov_reg_imm
    emit_mov_reg_imm32 emit_and_reg_reg
and_translated = refl

and_mapped : (compiled and_program and_start).va2aa 9 ≡ some 0x1_0000_0000
unfolding jit_program Jit.jit_program jit_loop jit_deferred for_each_deferred jit_vm_instruction
    prog_byte prog_dword read_le as_dword instr instr_handle reg_dst reg_src access_mode as_arch_reg
    jit_instr jit_two_operands record_addr_mapping emit emit_and_reg_imm64 emit_mov_reg_imm
    emit_mov_reg_imm32 emit_and_reg_reg
and_mapped = refl

dump_instr-line_example :
    (m : ℕ → Option Idd) × (record_program
        (jit_vm_instruction and_program)
        and_program
        (record { jit = and_start; va2idd = λ _. none })
      ≡ some (record { jit = compiled and_program and_start; va2idd = m }))
    × (dump_instr true and_program m 9
        ≡ some
            (set_apart (line 9 (encode and_300) (Instruction.binary BinOp.and 1 (Source.imm 0)))))
    × (dump_instr true and_program m 0 ≡ some [])
unfolding code pcomp.Spec.binary_instr listed
dump_instr-line_example =
    dump_instr-line and_program and_start (compiled and_program and_start) starts_with_stub
      and_translated 9 0x1_0000_0000 and_300 and_mapped (omega arith) (omega arith)
      ((omega arith, omega arith, omega arith), omega arith)
      (refl, (refl, (refl, (refl, (refl, (refl, (refl, (refl, (refl, (refl, tt))))))))))
      (omega arith)

-- ===== src/Tests/Programs.antt =====
-- The translation of whole programs, and a run through one of them.
use pcomp.Common.{
  ℕ, ◌+◌, ◌-◌, ◌*◌, ◌≤◌, ◌<◌, ◌^◌, ◌≡◌, refl, List, [], ◌∷◌, inl, inr, true, false, ltb,
  if◌then◌else◌, some, none, arith, Bool-cases,
}
use pcomp.Memory.{Bytes, read_le, as_dword}
use pcomp.Exe.{code, pc, flags, instr, instr_handle, reg_dst, reg_src, access_mode}
use pcomp.Interpreter.State.{Vm, next, set_reg}
use pcomp.Interpreter.Handlers.{compare_flag}
use pcomp.Interpreter.Run.{step}
use pcomp.Word.{as_signed64}
use pcomp.Interpreter.Invariant.{IsVm, set_reg-IsVm}
use pcomp.Spec.{BinOp, Cond, Source, Instruction, binary_instr, cond_instr, perform, compute, holds}
use pcomp.Spec.Refines.{step-perform}
use pcomp.Jit.{
  Jit, Program, no_addr, prog_byte, prog_dword, emit, record_addr_mapping, as_arch_addr,
  defer_jit_and_reserve_slots, jit_loop, for_each_deferred, jit_deferred,
}
use pcomp.Jit
use pcomp.X64.Regs.{as_arch_reg}
use pcomp.X64.Encode.{emit_cmp_reg_reg, emit_je_imm32}
use pcomp.X64.Jit.{jit_two_operands, jit_branch, jit_instr, jit_vm_instruction, jit_program}
use pcomp.X64.Simulation.{Reaches}
use pcomp.X64.Placed.FirstPass.{IsLaid}
use pcomp.X64.Placed.SecondPass.{IsFinished}
use pcomp.X64.Placed.Program.{jit_program-IsFinished}
use pcomp.X64.Placed.Lockstep.{Run, done, more, IsIntact, InStep}
use pcomp.X64.Placed.Runs.{compiled, jit_program-Run}
use pcomp.Tests.Machine.{image, image_bound}
use pcomp.Tests.Simulation.{each, below, processor, processor-IsRelated}
use pcomp.Tests.Translation.{program, start}

-- JMP 18 at address 9, and RET at 18.
abbrev forward : List Instruction
forward = Instruction.jmp 18 ∷ Instruction.ret ∷ []

forward-IsLaid : IsLaid program 9 forward
unfolding code
forward-IsLaid = (
  omega arith,
  (refl, (refl, (refl, (refl, (refl, (refl, (refl, (refl, (refl, tt))))))))),
  (tt, (refl, tt), refl),
)

jit_program-IsFinished_example :
    (j' : Jit) × (jit_program program start ≡ some j')
    × IsFinished j'.va2aa j'.text 9 4096 forward j'.jpos.arch
    × (j'.jpos.arch ≤ 4096 + 13 * 2)
    × ((b : ℕ) → b < 4096 → j'.text b ≡ start.text b)
    × ((b : ℕ) → b < 9 → j'.va2aa b ≡ start.va2aa b)
jit_program-IsFinished_example =
    jit_program-IsFinished program forward start refl forward-IsLaid (λ b c e. absurd (cc e))
      (omega arith) (inl (inr (inl refl)), (tt, tt))

-- CMP R0, R1 at address 9 and JMPEQ 9 at 11, with code from 2^32 on.
abbrev loop_bytes : List ℕ
loop_bytes = 0 ∷ 0 ∷ 0 ∷ 0 ∷ 0 ∷ 0 ∷ 0 ∷ 0 ∷ 0 ∷ 40 ∷ 1 ∷ 65 ∷ 9 ∷ 0 ∷ 0 ∷ 0 ∷ 0 ∷ 0 ∷ 0 ∷ 0 ∷ []

abbrev loop_code : List ℕ
loop_code = 0x4d ∷ 0x39 ∷ 0xc8 ∷ 0x0f ∷ 0x84 ∷ 0xf7 ∷ 0xff ∷ 0xff ∷ 0xff ∷ []

abbrev loop_program : Program
loop_program = record { bytes = image loop_bytes; prog_size = 20 }

abbrev compare : Instruction
compare = Instruction.binary BinOp.cmp 0 (Source.reg 1)

abbrev loop : List Instruction
loop = compare ∷ Instruction.jmp_if Cond.eq 9 ∷ []

abbrev loop_start : Jit
loop_start = record {
  text = λ _. 0;
  jpos = record { arch = 2 ^ 32; vm = 9 };
  deferred_jpos = [];
  va2aa = λ _. none;
}

abbrev loop_mem : Bytes
loop_mem a = if ltb a (2 ^ 32) then image loop_bytes a else image loop_code (a - 2 ^ 32)

abbrev loop_regs : List ℕ
loop_regs = 5 ∷ 7 ∷ 0 ∷ 0 ∷ 0 ∷ 0 ∷ 0 ∷ 0 ∷ 0 ∷ 0 ∷ 0 ∷ 0 ∷ 0 ∷ 0 ∷ 0 ∷ 9 ∷ []

abbrev loop_vm : Vm
loop_vm = record { mem = loop_mem; mem_size = 32; reg = image loop_regs; out = [] }

abbrev compared_vm : Vm
compared_vm = set_reg pc 11 (set_reg flags 2 loop_vm)

abbrev end_vm : Vm
end_vm = set_reg pc 20 compared_vm

loop-IsIntact :
    IsIntact
      (compiled loop_program loop_start).text
      (2 ^ 32)
      (compiled loop_program loop_start).jpos.arch
      loop_vm
unfolding jit_program Jit.jit_program jit_loop jit_deferred for_each_deferred jit_vm_instruction
    prog_byte prog_dword read_le as_dword instr instr_handle reg_dst reg_src access_mode as_arch_reg
    jit_instr jit_two_operands jit_branch record_addr_mapping as_arch_addr emit emit_cmp_reg_reg
    emit_je_imm32
loop-IsIntact =
    each 9 (2 ^ 32) loop_mem (compiled loop_program loop_start).text
      (refl, (refl, (refl, (refl, (refl, (refl, (refl, (refl, (refl, tt)))))))))

loop-IsLaid : IsLaid loop_program 9 loop
unfolding code binary_instr cond_instr
loop-IsLaid = (
  (
    (omega arith, (λ q. omega arith), (λ q. omega arith)),
    (omega arith, (λ q. omega arith), (λ q. omega arith)),
  ),
  (refl, (refl, tt)),
  (omega arith, (refl, (refl, (refl, (refl, (refl, (refl, (refl, (refl, (refl, tt))))))))), refl),
)

loop_vm-IsVm : IsVm 32 loop_vm
loop_vm-IsVm = record {
  sized = refl;
  bytes = byte;
  words = image_bound 64 loop_regs (below (2 ^ 64) loop_regs refl) (omega arith);
}
  where
    byte : (a : ℕ) → loop_mem a < 2 ^ 8
    byte a = elim (Bool-cases (ltb a (2 ^ 32))) [
      | inl k ↦ rw k (image_bound 8 loop_bytes (below 256 loop_bytes refl) (omega arith) a)
      | inr k ↦ rw k (image_bound 8 loop_code (below 256 loop_code refl) (omega arith) (a - 2 ^ 32))
    ]

compared_vm-IsVm : IsVm 32 compared_vm
compared_vm-IsVm =
    set_reg-IsVm pc 11 _ (omega arith) (set_reg-IsVm flags 2 loop_vm (omega arith) loop_vm-IsVm)

compares_first : step loop_vm ≡ next compared_vm
unfolding perform compute compare_flag as_signed64
compares_first =
    step-perform compare loop_vm loop_vm-IsVm (omega arith) loop-IsLaid.0 tt loop-IsLaid.1
      (omega arith)

jumps_on : step compared_vm ≡ next end_vm
unfolding perform holds
jumps_on =
    step-perform (Instruction.jmp_if Cond.eq 9) compared_vm compared_vm-IsVm (omega arith)
      (omega arith) tt (loop-IsLaid.2).1 (omega arith)

two_steps :
    Run 9 loop
      (compiled loop_program loop_start).text
      (2 ^ 32)
      (compiled loop_program loop_start).jpos.arch
      false
      loop_vm
      true
      end_vm
two_steps = more compare (inl (refl, refl)) tt loop-IsIntact loop-IsLaid.1 compares_first (
    more (Instruction.jmp_if Cond.eq 9) (inr (inl (refl, refl))) (refl, inl refl) loop-IsIntact
      (loop-IsLaid.2).1 jumps_on (done loop-IsIntact))

starts-InStep :
    InStep loop_program
      (compiled loop_program loop_start).va2aa
      (compiled loop_program loop_start).jpos.arch
      false
      loop_vm
      (processor loop_vm (2 ^ 32))
unfolding jit_program Jit.jit_program jit_loop jit_deferred for_each_deferred jit_vm_instruction
    prog_byte prog_dword read_le as_dword instr instr_handle reg_dst reg_src access_mode as_arch_reg
    jit_instr jit_two_operands jit_branch record_addr_mapping as_arch_addr emit emit_cmp_reg_reg
    emit_je_imm32
starts-InStep = (inl refl, processor-IsRelated loop_vm (2 ^ 32), tt)

jit_program-Run_example :
    (jit_program loop_program loop_start ≡ some (compiled loop_program loop_start))
    × Reaches
        (InStep loop_program
          (compiled loop_program loop_start).va2aa
          (compiled loop_program loop_start).jpos.arch
          true
          end_vm)
        (processor loop_vm (2 ^ 32))
jit_program-Run_example =
    jit_program-Run loop_program loop loop_start refl loop-IsLaid (λ b c e. absurd (cc e))
      (tt, (inl (inl refl), tt)) (omega arith) (omega arith) (omega arith) (omega arith)
      (processor loop_vm (2 ^ 32)) two_steps loop_vm-IsVm (omega arith) (omega arith) starts-InStep

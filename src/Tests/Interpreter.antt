-- ===== src/Tests/Interpreter.antt =====
-- The interpreter's theorems at small machines with 64 bytes of memory.
use pcomp.Common.{
  length, ◌≤◌, ◌<◌, ◌⊎◌, ℕ, ◌+◌, ◌*◌, ◌%◌, ◌<◌, ◌≡◌, refl, List, [], ◌∷◌, ◌++◌, some, arith,
  if◌then◌else◌, ◌==◌, pos, inr,
}
use pcomp.Word.{as_signed64}
use pcomp.Memory.{as_dword, read_le}
use pcomp.Exe.{
  VmInstr, code, instr, access_mode, reg_dst, reg_src, instr_handle, pc, syscall_display_sint,
}
use pcomp.Exe.Fields.{opcode_decodes, operand_decodes}
use pcomp.Interpreter.State.{Vm, next, exit, abort, sp_add}
use pcomp.Interpreter.Run.{returned, init_execution, load_program, step, execute}
use pcomp.Interpreter.Invariant.{IsVm}
use pcomp.Spec.{BinOp, Cond, Source, Instruction, encode, perform}
use pcomp.Spec.Refines.{step-perform}
use pcomp.Behaviour.Steps.{steps}
use pcomp.Behaviour.Compare.{compares, compare_then_jump, Jumped, cmp-jmp_if}
use pcomp.Behaviour.Stack.{Restored, pop-push, ret-call}
use pcomp.Behaviour.Syscall.{Entered, Displayed, step-vm_exit, step-unsupported, step-display}
use pcomp.Behaviour.Runs.{load_program-copies}
use pcomp.Behaviour.Stops.{StopsBy, step_stops}
use pcomp.Behaviour.Ended.{loaded, EndsBy, execute_ends}
use pcomp.Interpreter.Handlers
use pcomp.Jit.Syscall
use pcomp.Behaviour.SysEnter.{as_outcome, sys_enter-agrees}
use pcomp.Tests.Machine.{machine, machine-IsVm}

opcode_decodes_example :
    (instr_handle (instr (code VmInstr.cmp * 4 + 1)) ≡ some VmInstr.cmp)
    × (access_mode (code VmInstr.cmp * 4 + 1) ≡ 1 % 2)
opcode_decodes_example = opcode_decodes VmInstr.cmp 1 (omega arith)

operand_decodes_example : (reg_dst (3 * 16 + 14) ≡ 3) × (reg_src (3 * 16 + 14) ≡ 14)
operand_decodes_example = operand_decodes 3 14 (omega arith) (omega arith)

-- r0 = 5, r1 = 7, sp = 64, pc = 9.
abbrev registers : List ℕ
registers = 5 ∷ 7 ∷ 0 ∷ 0 ∷ 0 ∷ 0 ∷ 0 ∷ 0 ∷ 0 ∷ 0 ∷ 0 ∷ 0 ∷ 0 ∷ 0 ∷ 64 ∷ 9 ∷ []

abbrev entry : List ℕ
entry = 61 ∷ 0 ∷ 0 ∷ 0 ∷ 0 ∷ 0 ∷ 0 ∷ 0 ∷ 0 ∷ []

abbrev at_nine : List ℕ → Vm
at_nine bs = machine (entry ++ bs) registers 64

abbrev add_code : List ℕ
add_code = encode (Instruction.binary BinOp.add 0 (Source.imm 300))

add_machine : IsVm 64 (at_nine add_code)
unfolding code pcomp.Spec.binary_instr
add_machine = machine-IsVm (entry ++ add_code) registers 64 (omega arith) (omega arith)

step-perform_example :
    step (at_nine add_code)
    ≡ perform (Instruction.binary BinOp.add 0 (Source.imm 300)) 9 (at_nine add_code)
step-perform_example =
    step-perform (Instruction.binary BinOp.add 0 (Source.imm 300)) (at_nine add_code) add_machine
      (omega arith) ((omega arith, omega arith, omega arith), omega arith) tt
      (refl, (refl, (refl, (refl, (refl, (refl, (refl, (refl, (refl, (refl, tt))))))))))
      (omega arith)

abbrev jump_code : List ℕ
jump_code = compare_then_jump Cond.lt 0 (Source.reg 1) 40

-- 5 < 7, so the jump is taken.
cmp-jmp_if_example :
    (s' : Vm) × (steps 2 (at_nine jump_code) ≡ next s')
    × Jumped (if compares Cond.lt 5 7 then 40 else 9 + 11) (at_nine jump_code) s'
unfolding code pcomp.Spec.binary_instr pcomp.Spec.cond_instr
cmp-jmp_if_example =
    cmp-jmp_if Cond.lt 0 (Source.reg 1) 40 (at_nine jump_code)
      (machine-IsVm (entry ++ jump_code) registers 64 (omega arith) (omega arith)) (omega arith)
      (omega arith) (omega arith)
      (refl, (refl, (refl, (refl, (refl, (refl, (refl, (refl, (refl, (refl, (refl, tt)))))))))))
      (omega arith)

abbrev stack_code : List ℕ
stack_code = encode (Instruction.push 0) ++ encode (Instruction.pop 1)

stack_machine : IsVm 64 (at_nine stack_code)
unfolding code
stack_machine = machine-IsVm (entry ++ stack_code) registers 64 (omega arith) (omega arith)

popped :
    (s' : Vm) × (steps 2 (at_nine stack_code) ≡ next s')
    × (s'.reg 1 ≡ 5)
    × Restored 1 64 13 (at_nine stack_code) s'
popped =
    pop-push (at_nine stack_code) stack_machine (omega arith) (omega arith) (omega arith) 0 1
      (omega arith) (omega arith) (omega arith) (omega arith) (refl, (refl, (refl, (refl, tt))))
      (omega arith) (inr (omega arith))

pop-push_example :
    (s' : Vm) × (steps 2 (at_nine stack_code) ≡ next s')
    × (s'.reg 1 ≡ 5)
    × Restored 1 64 13 (at_nine stack_code) s'
pop-push_example =
    pop-push (at_nine stack_code) stack_machine (omega arith) (omega arith) (omega arith) 0 1
      (omega arith) (omega arith) (omega arith) (omega arith) (refl, (refl, (refl, (refl, tt))))
      (omega arith) (inr (omega arith))

abbrev call_code : List ℕ
call_code = encode (Instruction.call 18) ++ encode Instruction.ret

ret-call_example :
    (s' : Vm) × (steps 2 (at_nine call_code) ≡ next s') × Restored pc 64 18 (at_nine call_code) s'
unfolding code
ret-call_example =
    ret-call (at_nine call_code)
      (machine-IsVm (entry ++ call_code) registers 64 (omega arith) (omega arith)) (omega arith)
      (omega arith) (omega arith) 18 (omega arith)
      (refl, (refl, (refl, (refl, (refl, (refl, (refl, (refl, (refl, tt))))))))) (omega arith)
      (refl, tt) (omega arith) (inr (omega arith))

-- A machine at address 0 with the return address 9, the number `id` and the parameter 2^64 - 2.
abbrev call_bytes : ℕ → List ℕ
call_bytes id =
    entry
    ++ (9 ∷ 0 ∷ 0 ∷ 0 ∷ 0 ∷ 0 ∷ 0 ∷ 0 ∷ id ∷ 0 ∷ 0 ∷ 0 ∷ 0 ∷ 0 ∷ 0 ∷ 0 ∷ 254 ∷ 255 ∷ 255 ∷ 255 ∷ 255
        ∷ 255 ∷ 255 ∷ 255 ∷ [])

abbrev call_registers : List ℕ
call_registers = 0 ∷ 0 ∷ 0 ∷ 0 ∷ 0 ∷ 0 ∷ 0 ∷ 0 ∷ 0 ∷ 0 ∷ 0 ∷ 0 ∷ 0 ∷ 0 ∷ 9 ∷ 0 ∷ []

abbrev calling : ℕ → Vm
calling id = machine (call_bytes id) call_registers 64

calling-Entered : (id : ℕ) → id < 256 → Entered 64 9 id 0xffff_ffff_ffff_fffe (calling id)
unfolding as_dword code
calling-Entered id h = record {
  valid = machine-IsVm (call_bytes id) call_registers 64 (omega arith) (omega arith);
  small = omega arith;
  at = refl;
  jump = refl;
  code = omega arith;
  stack = omega arith;
  return_address = unfold read_le in omega arith;
  number = unfold read_le in omega arith;
  parameter = unfold read_le in omega arith;
}

step-vm_exit_example : step (calling 0) ≡ exit (sp_add 16 (calling 0))
step-vm_exit_example = step-vm_exit (calling 0) (calling-Entered 0 (omega arith)) refl

step-unsupported_example : step (calling 3) ≡ abort (calling 3)
step-unsupported_example =
    step-unsupported (calling 3) (calling-Entered 3 (omega arith)) (omega arith)

step-display_example :
    (s' : Vm) × (step (calling 1) ≡ next s')
    × Displayed 9
        (if 1 == syscall_display_sint
          then as_signed64 0xffff_ffff_ffff_fffe
          else pos 0xffff_ffff_ffff_fffe)
        (calling 1)
        s'
step-display_example =
    step-display (calling 1) (calling-Entered 1 (omega arith)) (omega arith) (omega arith)

step_stops_example : StopsBy (calling 0) (step (calling 0))
step_stops_example = step_stops (calling 0)

-- PUSH R0 twice and a jump to system call 0.
abbrev exit_code : List ℕ
exit_code =
    entry
    ++ encode (Instruction.push 0)
    ++ encode (Instruction.push 0)
    ++ encode (Instruction.jmp 0)

execute_ends_example :
    ((length exit_code ≤ 9)
      × (execute 4 exit_code 64 (λ _. 0) ≡ returned (loaded exit_code 64 (λ _. 0))))
    ⊎ ((9 < length exit_code)
        × EndsBy (loaded exit_code 64 (λ _. 0)) (execute 4 exit_code 64 (λ _. 0)))
execute_ends_example = execute_ends exit_code 64 (λ _. 0) 4

-- The last byte of an entry of 9 bytes goes behind a memory of 4 bytes.
load_program-copies_example : (load_program entry (init_execution 4 (λ _. 7))).mem 8 ≡ 0
unfolding init_execution
load_program-copies_example = load_program-copies entry (init_execution 4 (λ _. 7)) 8

sys_enter-agrees_example :
    Handlers.sys_enter (calling 2)
    ≡ as_outcome (calling 2) (Syscall.sys_enter 9 (calling 2).mem (calling 2).out)
sys_enter-agrees_example =
    sys_enter-agrees (calling 2)
      (machine-IsVm (call_bytes 2) call_registers 64 (omega arith) (omega arith)) (omega arith)
      (omega arith)

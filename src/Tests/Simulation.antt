-- ===== src/Tests/Simulation.antt =====
-- The simulation of the interpreter by translated code, at three programs of one instruction each
-- with their code behind them in memory.
use mathlib.Core.Bool.{and-eq-true_iff}
use pcomp.Common.{
  ℕ, zero, suc, ◌+◌, ◌≤◌, ◌<◌, ◌^◌, ◌≡◌, refl, ap, List, [], ◌∷◌, All, ◌⊎◌, inl, inr, Bool, true,
  false, ◌&&◌, ltb, ◌==◌, if◌then◌else◌, some, none, arith,
}
use pcomp.Memory.{Bytes, HasBytes, read_le, as_dword, set_dword}
use pcomp.Exe.{code, sp, pc, flags, instr, instr_handle, reg_dst, reg_src, access_mode}
use pcomp.Interpreter.State.{Vm, next, set_reg, sp_sub, store_dword}
use pcomp.Interpreter.Run.{step}
use pcomp.Interpreter.Invariant.{IsVm}
use pcomp.Spec.{
  BinOp, Cond, Source, Instruction, IsInstruction, binary_instr, cond_instr, encode, perform,
  compute, holds,
}
use pcomp.Spec.Refines.{step-perform}
use pcomp.Word.{sub64}
use pcomp.Jit.{Jit, Program, prog_byte, prog_dword, as_arch_addr, emit}
use pcomp.X64.Regs.{as_arch_reg}
use pcomp.X64.Registers.{vm_reg, vm_reg-eq}
use pcomp.X64.Encode.{emit_add_reg_reg, emit_je_imm32, emit_push_reg}
use pcomp.X64.Jit.{jit_two_operands, jit_branch, jit_one_operand, jit_instr, jit_vm_instruction}
use pcomp.X64.Machine.{Cpu, condition, differ}
use pcomp.X64.Relation.{IsRelated}
use pcomp.X64.Simulation.{Reaches, IsSimulated}
use pcomp.X64.Simulation.Code.{translated, IsLoaded}
use pcomp.X64.Simulation.Branch.{Leads}
use pcomp.X64.Simulation.Jump.{HasJumped}
use pcomp.X64.Simulation.StackPointer.{TakesOther, stack_pointer-differs}
use pcomp.X64.Simulation.Refines.{straight-simulates, branch-simulates}
use pcomp.Tests.Machine.{image, machine, machine-IsVm}

-- The processor with the registers and memory of a VM, before the code at `at`.
abbrev pub processor : Vm → ℕ → Cpu
processor s at = record {
  reg = λ a. s.reg (vm_reg a);
  mem = s.mem;
  rip = at;
  zf = true;
  sf = false;
  of = false;
}

pub processor-IsRelated : (s : Vm) (at : ℕ) → IsRelated s (processor s at)
processor-IsRelated s at = (λ r a h e. ap s.reg (vm_reg-eq r a h e), refl)

abbrev Same : ℕ → ℕ → Bytes → Bytes → Type 0
Same zero a m m' = Unit
Same (suc n) a m m' = (m a ≡ m' a) × Same n (a + 1) m m'

pub each : (n lo : ℕ) (m m' : Bytes) → Same n lo m m' → (a : ℕ) → lo ≤ a → a < lo + n → m a ≡ m' a
each zero lo m m' h a l k = absurd (omega arith)
each (suc n) lo m m' (e, h) a l k = elim (first_or_later lo a l) [
  | inl q ↦ rw (← q) e
  | inr later ↦ each n (lo + 1) m m' h a later (omega arith)
]
  where
    first_or_later : (lo a : ℕ) → lo ≤ a → (lo ≡ a) ⊎ (lo + 1 ≤ a)
    first_or_later lo a l = omega arith

abbrev all_lt : ℕ → List ℕ → Bool
all_lt n [] = true
all_lt n (b ∷ bs) = ltb b n && all_lt n bs

pub below : (n : ℕ) (bs : List ℕ) → all_lt n bs ≡ true → All (λ b. b < n) bs
below n [] h = tt
below n (b ∷ bs) h =
    let (k, l) = (and-eq-true_iff (ltb b n) (all_lt n bs)).0 h in (ground (arith, k), below n bs l)

abbrev program_of : List ℕ → ℕ → Program
program_of bs n = record { bytes = image bs; prog_size = n }

abbrev before : ℕ → Jit
before arch = record {
  text = λ _. 0;
  jpos = record { arch = arch; vm = 0 };
  deferred_jpos = [];
  va2aa = λ a. if a == 64 then some 100 else none;
}

-- ADD R0, R1 at address 0, and its code at address 2.
abbrev add_bytes : List ℕ
add_bytes = 16 ∷ 1 ∷ 0x4d ∷ 0x03 ∷ 0xc1 ∷ []

abbrev add_vm : Vm
add_vm = machine add_bytes (5 ∷ 7 ∷ []) 32

add-IsLoaded : IsLoaded add_vm.mem (before 2) (translated (program_of add_bytes 2) (before 2))
unfolding jit_vm_instruction jit_instr jit_two_operands prog_byte instr instr_handle reg_dst reg_src
    access_mode as_arch_reg emit emit_add_reg_reg
add-IsLoaded =
    each 3 2 add_vm.mem (translated (program_of add_bytes 2) (before 2)).text
      (refl, (refl, (refl, tt)))

add_end : (translated (program_of add_bytes 2) (before 2)).jpos.arch < 2 ^ 64
unfolding jit_vm_instruction jit_instr jit_two_operands prog_byte instr instr_handle reg_dst reg_src
    access_mode as_arch_reg emit emit_add_reg_reg
add_end = omega arith

abbrev add_instruction : Instruction
add_instruction = Instruction.binary BinOp.add 0 (Source.reg 1)

add_next : Vm
add_next = set_reg pc 2 (compute BinOp.add 0 (Source.reg 1) add_vm)

add_vm-IsVm : IsVm 32 add_vm
add_vm-IsVm =
    machine-IsVm add_bytes (5 ∷ 7 ∷ []) 32 (below 256 add_bytes refl)
      (below (2 ^ 64) (5 ∷ 7 ∷ []) refl)

add_encoded : HasBytes add_vm.mem 0 (encode add_instruction)
unfolding code binary_instr
add_encoded = (refl, (refl, tt))

add_legal : IsInstruction add_instruction
add_legal = (
  (omega arith, (λ q. omega arith), (λ q. omega arith)),
  (omega arith, (λ q. omega arith), (λ q. omega arith)),
)

add_steps : step add_vm ≡ next add_next
unfolding perform add_next
add_steps =
    step-perform add_instruction add_vm add_vm-IsVm (omega arith) add_legal tt add_encoded
      (omega arith)

straight-simulates_example :
    (jit_vm_instruction (program_of add_bytes 2) (before 2)
      ≡ some (translated (program_of add_bytes 2) (before 2)))
    × ((translated (program_of add_bytes 2) (before 2)).jpos.vm ≡ 0 + 2)
    × Reaches
        (IsSimulated add_instruction
          (translated (program_of add_bytes 2) (before 2)).jpos.arch
          add_vm
          (processor add_vm 2)
          add_next)
        (processor add_vm 2)
straight-simulates_example =
    straight-simulates (program_of add_bytes 2) (before 2) add_instruction add_vm add_next
      (processor add_vm 2) add_legal tt add_encoded (omega arith) add_vm-IsVm (omega arith)
      add_encoded (omega arith) add_steps (processor-IsRelated add_vm 2) refl add-IsLoaded add_end

-- JMPEQ 64 at address 0, with the code of its target at 100 and its own at 9.
abbrev jump_bytes : List ℕ
jump_bytes = 65 ∷ 64 ∷ 0 ∷ 0 ∷ 0 ∷ 0 ∷ 0 ∷ 0 ∷ 0 ∷ 0x0f ∷ 0x84 ∷ 85 ∷ 0 ∷ 0 ∷ 0 ∷ []

abbrev jump_regs : List ℕ
jump_regs = 0 ∷ 0 ∷ 0 ∷ 0 ∷ 0 ∷ 0 ∷ 0 ∷ 0 ∷ 0 ∷ 0 ∷ 0 ∷ 0 ∷ 0 ∷ 1 ∷ []

abbrev jump_vm : Vm
jump_vm = machine jump_bytes jump_regs 32

abbrev jump_program : Program
jump_program = program_of jump_bytes 9

abbrev jump : Instruction
jump = Instruction.jmp_if Cond.eq 64

abbrev jump_next : Vm
jump_next = set_reg pc 64 jump_vm

jump-IsLoaded : IsLoaded jump_vm.mem (before 9) (translated jump_program (before 9))
unfolding jit_vm_instruction jit_instr jit_branch prog_byte prog_dword as_dword read_le instr
    instr_handle as_arch_addr emit emit_je_imm32
jump-IsLoaded =
    each 6 9 jump_vm.mem (translated jump_program (before 9)).text
      (refl, (refl, (refl, (refl, (refl, (refl, tt))))))

jump_end : (translated jump_program (before 9)).jpos.arch < 2 ^ 64
unfolding jit_vm_instruction jit_instr jit_branch prog_byte prog_dword as_dword read_le instr
    instr_handle as_arch_addr emit emit_je_imm32
jump_end = omega arith

jump_vm-IsVm : IsVm 32 jump_vm
jump_vm-IsVm =
    machine-IsVm jump_bytes jump_regs 32 (below 256 jump_bytes refl) (below (2 ^ 64) jump_regs refl)

jump_encoded : HasBytes jump_vm.mem 0 (encode jump)
unfolding code cond_instr
jump_encoded = (refl, (refl, (refl, (refl, (refl, (refl, (refl, (refl, (refl, tt)))))))))

jump_steps : step jump_vm ≡ next jump_next
unfolding perform holds
jump_steps =
    step-perform jump jump_vm jump_vm-IsVm (omega arith) (omega arith) tt jump_encoded (omega arith)

jump-Leads : Leads jump (before 9) 100
unfolding as_arch_addr
jump-Leads = (refl, (λ q. omega arith), omega arith, (omega arith, omega arith))

jump_flags : (c : Cond) → condition c (processor jump_vm 9) ≡ holds c (jump_vm.reg flags)
unfolding condition holds differ
jump_flags Cond.eq = refl
jump_flags _ = refl

branch-simulates_example :
    (jit_vm_instruction jump_program (before 9) ≡ some (translated jump_program (before 9)))
    × ((translated jump_program (before 9)).jpos.vm ≡ 0 + 9)
    × Reaches
        (HasJumped jump 100
          (translated jump_program (before 9)).jpos.arch
          jump_vm
          (processor jump_vm 9)
          jump_next)
        (processor jump_vm 9)
branch-simulates_example =
    branch-simulates jump_program (before 9) jump 100 jump_vm jump_next (processor jump_vm 9)
      (omega arith) jump-Leads jump_encoded (omega arith) jump_vm-IsVm (omega arith) tt jump_encoded
      (omega arith) jump_steps (processor-IsRelated jump_vm 9) jump_flags refl jump-IsLoaded
      jump_end

-- PUSH SP at address 0, and its code at address 2.
abbrev push_bytes : List ℕ
push_bytes = 44 ∷ 224 ∷ 0x54 ∷ []

abbrev push_regs : List ℕ
push_regs = 0 ∷ 0 ∷ 0 ∷ 0 ∷ 0 ∷ 0 ∷ 0 ∷ 0 ∷ 0 ∷ 0 ∷ 0 ∷ 0 ∷ 0 ∷ 0 ∷ 24 ∷ []

abbrev push_vm : Vm
push_vm = machine push_bytes push_regs 32

abbrev push_program : Program
push_program = program_of push_bytes 2

push_next : Vm
push_next = set_reg pc 2 (record (sp_sub 8 push_vm) { mem = set_dword push_vm.mem 16 16 })

push-IsLoaded : IsLoaded push_vm.mem (before 2) (translated push_program (before 2))
unfolding jit_vm_instruction jit_instr jit_one_operand prog_byte instr instr_handle reg_dst
    as_arch_reg emit emit_push_reg
push-IsLoaded = each 1 2 push_vm.mem (translated push_program (before 2)).text (refl, tt)

push_end : (translated push_program (before 2)).jpos.arch < 2 ^ 64
unfolding jit_vm_instruction jit_instr jit_one_operand prog_byte instr instr_handle reg_dst
    as_arch_reg emit emit_push_reg
push_end = omega arith

push_vm-IsVm : IsVm 32 push_vm
push_vm-IsVm =
    machine-IsVm push_bytes push_regs 32 (below 256 push_bytes refl) (below (2 ^ 64) push_regs refl)

push_encoded : HasBytes push_vm.mem 0 (encode (Instruction.push sp))
unfolding code
push_encoded = (refl, (refl, tt))

push_steps : step push_vm ≡ next push_next
unfolding perform push_next store_dword sub64
push_steps =
    step-perform (Instruction.push sp) push_vm push_vm-IsVm (omega arith)
      (omega arith, (λ q. omega arith), (λ q. omega arith)) tt push_encoded (omega arith)

stack_pointer-differs_example :
    (jit_vm_instruction push_program (before 2) ≡ some (translated push_program (before 2)))
    × ((translated push_program (before 2)).jpos.vm ≡ 0 + 2)
    × Reaches
        (TakesOther
          (Instruction.push sp)
          (translated push_program (before 2)).jpos.arch
          push_vm
          (processor push_vm 2)
          push_next)
        (processor push_vm 2)
stack_pointer-differs_example =
    stack_pointer-differs push_program (before 2) (Instruction.push sp) push_vm push_next
      (processor push_vm 2) refl push_encoded (omega arith) push_vm-IsVm (omega arith) push_encoded
      (omega arith) push_steps (processor-IsRelated push_vm 2) refl push-IsLoaded push_end

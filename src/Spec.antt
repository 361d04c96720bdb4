-- ===== src/Spec.antt =====
-- What doc/vm.md promises of the instructions: their encodings as bytes, and their effect on the
-- machine with no decoding in it. The interpreter is proved to refine this description.
pub mod Layout
pub mod Decode
pub mod Binary
pub mod Transfer
pub mod Control
pub mod Refines
use pcomp.Common.{
  ℕ, zero, suc, ◌+◌, ◌*◌, ◌/◌, ◌%◌, ◌^◌, ◌<◌, ◌≢◌, ◌≡◌, Bool, true, false, List, [], ◌∷◌, ◌++◌,
  length, if◌then◌else◌, bit_and, bit_or, bit_xor, ltb, pos, ◌+ℤ◌, ◌-ℤ◌,
}
use pcomp.Word.{IsU64, as_signed64, as_signed16, to_u64, not64}
pub use pcomp.Memory.{HasBytes}
use pcomp.Exe.{VmInstr, code, flags, sp, pc, flag_eq, flag_lt, flag_gt}
use pcomp.Interpreter.State.{
  Vm, Outcome, next, ◌>>=◌, mem_dword, store_dword, set_reg, sp_add, sp_sub,
}
use pcomp.Interpreter.Handlers.{compare_flag}

pub data BinOp : Type 0 where
  mov add sub and or xor cmp : BinOp

pub data Cond : Type 0 where
  eq ne gt lt ge le : Cond

pub data Source : Type 0 where
  reg imm : ℕ → Source

-- `<idx>` is its 16-bit pattern, `<imm>` its 64-bit pattern.
pub data Instruction : Type 0 where
  load : (rd rs idx : ℕ) → Instruction
  store : (rd idx rs : ℕ) → Instruction
  binary : BinOp → (rd : ℕ) → Source → Instruction
  not pop : (rd : ℕ) → Instruction
  push : (rs : ℕ) → Instruction
  call jmp : (addr : ℕ) → Instruction
  jmp_if : Cond → (addr : ℕ) → Instruction
  ret : Instruction

unfoldable pub binary_instr : BinOp → VmInstr
binary_instr mov = VmInstr.mov
binary_instr add = VmInstr.add
binary_instr sub = VmInstr.sub
binary_instr and = VmInstr.and
binary_instr or = VmInstr.or
binary_instr xor = VmInstr.xor
binary_instr cmp = VmInstr.cmp

unfoldable pub cond_instr : Cond → VmInstr
cond_instr eq = VmInstr.jmpeq
cond_instr ne = VmInstr.jmpne
cond_instr gt = VmInstr.jmpgt
cond_instr lt = VmInstr.jmplt
cond_instr ge = VmInstr.jmpge
cond_instr le = VmInstr.jmple

abbrev pub le_bytes : ℕ → ℕ → List ℕ
le_bytes zero v = []
le_bytes (suc n) v = v % 256 ∷ le_bytes n (v / 256)

-- "Instruction encoding", "Opcode encoding" and "Operand encoding": 6 bits of operation and 2 of
-- access mode, 4 bits for a register, immediates and indices lowest byte first.
abbrev pub opcode : VmInstr → ℕ → ℕ
opcode i am = code i * 4 + am

abbrev pub encode : Instruction → List ℕ
encode (load rd rs idx) = opcode VmInstr.load 2 ∷ (rd * 16 + rs) ∷ le_bytes 2 idx
encode (store rd idx rs) = opcode VmInstr.store 2 ∷ (rd * 16 + rs) ∷ le_bytes 2 idx
encode (binary op rd (reg rs)) = opcode (binary_instr op) 0 ∷ (rd * 16 + rs) ∷ []
encode (binary op rd (imm v)) = opcode (binary_instr op) 1 ∷ (rd * 16 + 0) ∷ le_bytes 8 v
encode (not rd) = opcode VmInstr.not 0 ∷ (rd * 16 + 0) ∷ []
encode (push rs) = opcode VmInstr.push 0 ∷ (rs * 16 + 0) ∷ []
encode (pop rd) = opcode VmInstr.pop 0 ∷ (rd * 16 + 0) ∷ []
encode (call a) = opcode VmInstr.call 1 ∷ le_bytes 8 a
encode (jmp a) = opcode VmInstr.jmp 1 ∷ le_bytes 8 a
encode (jmp_if c a) = opcode (cond_instr c) 1 ∷ le_bytes 8 a
encode ret = opcode VmInstr.ret 0 ∷ []

-- "any 64-bit registers, except FLAGS and PC"
abbrev pub IsOperand : ℕ → Type 0
IsOperand r = (r < 16) × (r ≢ flags) × (r ≢ pc)

abbrev pub IsInstruction : Instruction → Type 0
IsInstruction (load rd rs idx) = IsOperand rd × IsOperand rs × (idx < 2 ^ 16)
IsInstruction (store rd idx rs) = IsOperand rd × IsOperand rs × (idx < 2 ^ 16)
IsInstruction (binary op rd (reg rs)) = IsOperand rd × IsOperand rs
IsInstruction (binary op rd (imm v)) = IsOperand rd × IsU64 v
IsInstruction (not rd) = IsOperand rd
IsInstruction (push rs) = IsOperand rs
IsInstruction (pop rd) = IsOperand rd
IsInstruction (call a) = IsU64 a
IsInstruction (jmp a) = IsU64 a
IsInstruction (jmp_if c a) = IsU64 a
IsInstruction ret = Unit

-- Execution goes on at `a`.
abbrev pub continue_at : ℕ → Vm → Outcome
continue_at a s = next (set_reg pc a s)

-- `[<Rs> (+|- <idx>)?]`
unfoldable pub address : ℕ → ℕ → ℕ
address base idx = to_u64 (pos base +ℤ as_signed16 idx)

abbrev pub source_value : Source → Vm → ℕ
source_value (reg r) s = s.reg r
source_value (imm v) s = v

-- The new value of `<Rd>`; sums and differences are those of the signed values, as words.
unfoldable pub result : BinOp → ℕ → ℕ → ℕ
result mov a b = b
result add a b = to_u64 (as_signed64 a +ℤ as_signed64 b)
result sub a b = to_u64 (as_signed64 a -ℤ as_signed64 b)
result and a b = bit_and a b
result or a b = bit_or a b
result xor a b = bit_xor a b
result cmp a b = a

unfoldable pub compute : BinOp → ℕ → Source → Vm → Vm
compute cmp rd src s = set_reg flags (compare_flag (s.reg rd) (source_value src s)) s
compute mov rd src s = set_reg rd (result mov (s.reg rd) (source_value src s)) s
compute add rd src s = set_reg rd (result add (s.reg rd) (source_value src s)) s
compute sub rd src s = set_reg rd (result sub (s.reg rd) (source_value src s)) s
compute and rd src s = set_reg rd (result and (s.reg rd) (source_value src s)) s
compute or rd src s = set_reg rd (result or (s.reg rd) (source_value src s)) s
compute xor rd src s = set_reg rd (result xor (s.reg rd) (source_value src s)) s

-- The flags that a condition accepts.
unfoldable pub holds : Cond → ℕ → Bool
holds eq f = ltb 0 (bit_and f flag_eq)
holds ne f = if ltb 0 (bit_and f flag_eq) then false else true
holds gt f = ltb 0 (bit_and f flag_gt)
holds lt f = ltb 0 (bit_and f flag_lt)
holds ge f = ltb 0 (bit_and f (flag_gt + flag_eq))
holds le f = ltb 0 (bit_and f (flag_lt + flag_eq))

-- "Instructions", at the address `at` and with the next instruction at `at + length (encode i)`.
-- A jump is one that does not stand at address 0, where the system calls are entered.
unfoldable pub perform : Instruction → ℕ → Vm → Outcome
perform (load rd rs idx) at s = do
  v ← mem_dword s (address (s.reg rs) idx)
  continue_at (at + 4) (set_reg rd v s)
perform (store rd idx rs) at s = do
  s' ← store_dword s (address (s.reg rd) idx) (s.reg rs)
  continue_at (at + 4) s'
perform (binary op rd (reg rs)) at s = continue_at (at + 2) (compute op rd (reg rs) s)
perform (binary op rd (imm v)) at s = continue_at (at + 10) (compute op rd (imm v) s)
perform (not rd) at s = continue_at (at + 2) (set_reg rd (not64 (s.reg rd)) s)
perform (push rs) at s = do
  s' ← store_dword (sp_sub 8 s) ((sp_sub 8 s).reg sp) ((sp_sub 8 s).reg rs)
  continue_at (at + 2) s'
perform (pop rd) at s = do
  v ← mem_dword s (s.reg sp)
  continue_at (at + 2) (sp_add 8 (set_reg rd v s))
perform (call a) at s = do
  s' ← store_dword (sp_sub 8 s) ((sp_sub 8 s).reg sp) (at + 9)
  continue_at a s'
perform (jmp a) at s = continue_at a s
perform (jmp_if c a) at s = continue_at (if holds c (s.reg flags) then a else at + 9) s
perform ret at s = do v ← mem_dword s (s.reg sp); continue_at v (sp_add 8 s)

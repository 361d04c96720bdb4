-- ===== src/Interpreter/State.antt =====
-- The interpreter's state, its accesses to memory and registers, and what a handler can end in.
use pcomp.Common.{ℕ, ◌+◌, List, ◌∷◌, Option, none, some, ltb, leb, if◌then◌else◌, update, ℤ}
use pcomp.Word.{add64, sub64}
use pcomp.Memory.{Bytes, as_hword, as_dword, set_dword}
use pcomp.Exe.{sp, pc}

-- `mem` and `reg` of `Interpreter` and `mem_size` of `ExecutionEngine`. `out` is what `cout` was
-- given, latest first.
pub record Vm : Type 0 where
  pub mem : Bytes
  pub mem_size : ℕ
  pub reg : ℕ → ℕ
  pub out : List ℤ

-- How a handler ends: it dispatches the next instruction, `exec_program` returns, `ABORT` ends the
-- process, or the behaviour is undefined (an access outside `mem`, a jump through a null entry).
pub data Outcome : Type 0 where
  next : Vm → Outcome
  exit : Vm → Outcome
  abort : Vm → Outcome
  fault : Outcome

infixl 5 ◌>>=◌
abbrev pub ◌>>=◌ {ℓ} : {A : Type ℓ} → Option A → (A → Outcome) → Outcome
none >>= f = fault
some a >>= f = f a

-- What follows a call that returned.
abbrev pub and_then : Outcome → (Vm → Outcome) → Outcome
and_then (next s) f = f s
and_then o f = o

-- `mem[a]`, `as_hword(mem[a])` and `as_dword(mem[a])` inside the allocated memory.
unfoldable pub mem_byte : Vm → ℕ → Option ℕ
mem_byte s a = if ltb a s.mem_size then some (s.mem a) else none

unfoldable pub mem_hword : Vm → ℕ → Option ℕ
mem_hword s a = if leb (a + 2) s.mem_size then some (as_hword s.mem a) else none

unfoldable pub mem_dword : Vm → ℕ → Option ℕ
mem_dword s a = if leb (a + 8) s.mem_size then some (as_dword s.mem a) else none

-- `as_dword(mem[a]) = v`
unfoldable pub store_dword : Vm → ℕ → ℕ → Option Vm
store_dword s a v =
    if leb (a + 8) s.mem_size then some (record s { mem = set_dword s.mem a v }) else none

-- `reg[r] = v`
abbrev pub set_reg : ℕ → ℕ → Vm → Vm
set_reg r v s = record s { reg = update s.reg r v }

-- `reg[SP] += n` and `reg[SP] -= n`
abbrev pub sp_add : ℕ → Vm → Vm
sp_add n s = set_reg sp (add64 (s.reg sp) n) s

abbrev pub sp_sub : ℕ → Vm → Vm
sp_sub n s = set_reg sp (sub64 (s.reg sp) n) s

-- `cout << val << endl`
abbrev pub display : ℤ → Vm → Vm
display v s = record s { out = v ∷ s.out }

-- The macro `DISPATCH`: the jump itself is `step` of `Run`.
abbrev pub dispatch : ℕ → Vm → Outcome
dispatch offset s = next (set_reg pc (add64 (s.reg pc) offset) s)

-- ===== src/Interpreter/Run.antt =====
-- The dispatch loop of `exec_program`, on fuel, and the life cycle of the engine.
use pcomp.Common.{ℕ, zero, suc, ◌+◌, List, [], ◌∷◌, length, leb, if◌then◌else◌, update}
use pcomp.Memory.{Bytes}
use pcomp.Exe.{sp, pc, instr, instr_handle}
use pcomp.Interpreter.State.{Vm, Outcome, next, exit, abort, fault, ◌>>=◌, mem_byte}
use pcomp.Interpreter.Handlers.{exec_instr}

-- `goto *instr_exec_handle[instr(mem[reg[PC]])]` and the handler there.
unfoldable pub step : Vm → Outcome
step s = mem_byte s (s.reg pc) >>= λ b. instr_handle (instr b) >>= λ i. exec_instr i s

-- How a run ends; `unfinished` is that the fuel ran out.
pub data Result : Type 0 where
  returned aborted unfinished : Vm → Result
  undefined : Result

unfoldable pub run : ℕ → Vm → Result
run zero s = unfinished s
run (suc fuel) s = elim (step s) [
  | next s' ↦ run fuel s'
  | exit s' ↦ returned s'
  | abort s' ↦ aborted s'
  | fault ↦ undefined
]

-- The size of the memory, and what `new uint8_t[mem_size]` happens to hold.
unfoldable pub init_execution : ℕ → Bytes → Vm
init_execution mem_size old = record {
  mem = old;
  mem_size = mem_size;
  reg = update (update (λ _. 0) sp mem_size) pc 9;
  out = [];
}

unfoldable pub write_bytes : List ℕ → ℕ → Bytes → Bytes
write_bytes [] a m = m
write_bytes (b ∷ bs) a m = update (write_bytes bs (a + 1) m) a b

-- `memmove(mem, prog, prog_size)`: from `mem_size` on, `mem` is what lies behind the allocation.
unfoldable pub load_program : List ℕ → Vm → Vm
load_program prog s = record s { mem = write_bytes prog 0 s.mem }

unfoldable pub exec_program : ℕ → ℕ → Vm → Result
exec_program fuel prog_size s = if leb prog_size (s.reg pc) then returned s else run fuel s

-- `ExecutionEngine::execute` for the interpreter; `fini_execution` frees the memory and, in debug
-- mode, prints the registers.
unfoldable pub execute : ℕ → List ℕ → ℕ → Bytes → Result
execute fuel prog mem_size old =
    exec_program fuel (length prog) (load_program prog (init_execution mem_size old))

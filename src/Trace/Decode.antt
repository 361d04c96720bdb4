-- ===== src/Trace/Decode.antt =====
-- The fields of `idd` that the labels of vm/int.cc and the cases of vm/x64.cc and vm/a64.cc fill in
-- before they trace or record it.
use pcomp.Common.{none, [], ◌++◌, ℕ, ◌+◌, Bool, List, Option, some, ◌==◌, if◌then◌else◌}
use pcomp.Word.{add64, as_signed16, as_signed64}
use pcomp.Exe.{
  load, store, mov, add, sub, and, or, xor, not, cmp, push, pop, call, ret, jmp, jmpeq, jmpne,
  jmpgt, jmplt, jmpge, jmple, VmInstr, instr, instr_handle, pc, sp, am_reg, sys_enter_addr,
  syscall_vm_exit, access_mode, reg_dst, reg_src,
}
use pcomp.Interpreter.State.{Vm, next, exit, abort, fault, mem_byte, mem_hword, mem_dword}
use pcomp.Interpreter.Handlers.{pc_plus, sys_enter}
use pcomp.Jit.{◌>>=◌, Program, prog_byte, prog_hword, prog_dword}
use pcomp.Trace.{Idd, no_idd, Piece, trace_instr_decode}

-- The accesses of an engine at an offset from the instruction that it decodes.
pub record Reader : Type 0 where
  pub byte : ℕ → Option ℕ
  pub hword : ℕ → Option ℕ
  pub dword : ℕ → Option ℕ

-- Where a label puts an immediate: `idd.ivs = imm64s(..)` or `idd.ivu = imm64u(..)`.
abbrev pub put_ivs : ℕ → Idd → Idd
put_ivs v idd = record idd { ivs = as_signed64 v }

abbrev pub put_ivu : ℕ → Idd → Idd
put_ivu v idd = record idd { ivu = v }

module _ (r : Reader) where
  -- `_load` and `_store`
  unfoldable pub decode_indexed : Idd → Option Idd
  decode_indexed idd = do
    b ← r.byte 1
    i ← r.hword 2
    some (record idd { dst = reg_dst b; src = reg_src b; idx = as_signed16 i })

  -- `_mov` to `_xor` and `_cmp`, which put their immediate by `put`.
  unfoldable pub decode_operands : (ℕ → Idd → Idd) → Idd → Option Idd
  decode_operands put idd = do
    op ← r.byte 0
    b ← r.byte 1
    if access_mode op == am_reg
        then some (record idd { am = access_mode op; dst = reg_dst b; src = reg_src b })
        else (r.dword 2 >>= λ v. some (put v (record idd { am = access_mode op; dst = reg_dst b })))

  -- `_not`, `_push` and `_pop`
  unfoldable pub decode_operand : Idd → Option Idd
  decode_operand idd = do b ← r.byte 1; some (record idd { dst = reg_dst b })

  -- `_call` and the jumps
  unfoldable pub decode_target : Idd → Option Idd
  decode_target idd = do v ← r.dword 1; some (record idd { ivu = v })

  -- Each label; `logic` is how `_and`, `_or` and `_xor` put their immediate.
  unfoldable pub decode_idd : (ℕ → Idd → Idd) → VmInstr → Idd → Option Idd
  decode_idd logic load idd = decode_indexed idd
  decode_idd logic store idd = decode_indexed idd
  decode_idd logic mov idd = decode_operands put_ivs idd
  decode_idd logic add idd = decode_operands put_ivs idd
  decode_idd logic sub idd = decode_operands put_ivs idd
  decode_idd logic and idd = decode_operands logic idd
  decode_idd logic or idd = decode_operands logic idd
  decode_idd logic xor idd = decode_operands logic idd
  decode_idd logic not idd = decode_operand idd
  decode_idd logic cmp idd = decode_operands put_ivs idd
  decode_idd logic push idd = decode_operand idd
  decode_idd logic pop idd = decode_operand idd
  decode_idd logic call idd = decode_target idd
  decode_idd logic ret idd = some idd
  decode_idd logic jmp idd = decode_target idd
  decode_idd logic jmpeq idd = decode_target idd
  decode_idd logic jmpne idd = decode_target idd
  decode_idd logic jmpgt idd = decode_target idd
  decode_idd logic jmplt idd = decode_target idd
  decode_idd logic jmpge idd = decode_target idd
  decode_idd logic jmple idd = decode_target idd

abbrev pub vm_reader : Vm → Reader
vm_reader s = record {
  byte = λ k. mem_byte s (pc_plus k s);
  hword = λ k. mem_hword s (pc_plus k s);
  dword = λ k. mem_dword s (pc_plus k s);
}

abbrev pub prog_reader : Program → ℕ → Reader
prog_reader p va = record {
  byte = λ k. prog_byte p (va + k);
  hword = λ k. prog_hword p (va + k);
  dword = λ k. prog_dword p (va + k);
}

-- What the label prints behind its `TRACE`: `_jmp` at address 0 goes to `_ret` behind a system call
-- that returns, and traces what then stands there with the same `idd`.
unfoldable pub trace_again : Bool → VmInstr → Vm → Idd → Option (List Piece)
trace_again debug jmp s idd =
    if s.reg pc == sys_enter_addr
    then (mem_dword s (add64 (s.reg sp) 8) >>= λ id.
        if id == syscall_vm_exit then some [] else elim (sys_enter s) [
          | next s' ↦ trace_instr_decode debug s'.mem (record idd { addr = s'.reg pc })
          | exit s' ↦ some []
          | abort s' ↦ some []
          | fault ↦ none
        ])
    else some []
trace_again debug _ s idd = some []

-- What the step of the next instruction traces: `idd`, which lives as long as `exec_program` does,
-- is filled in at its label and printed by the macro `TRACE` there.
unfoldable pub trace : Bool → Vm → Idd → Option (List Piece)
unfolding trace_again
trace debug s idd = do
  op ← mem_byte s (s.reg pc)
  i ← instr_handle (instr op)
  idd' ← decode_idd (vm_reader s) put_ivu i idd
  first ← trace_instr_decode debug s.mem (record idd' { addr = s.reg pc })
  again ← trace_again debug i s (record idd' { addr = s.reg pc })
  some (first ++ again)

-- `idd` at `JIT_NEXT`: every instruction starts from a fresh one.
unfoldable pub jit_idd : Program → ℕ → Option Idd
jit_idd p va = do
  op ← prog_byte p va
  i ← instr_handle (instr op)
  idd ← decode_idd (prog_reader p va) put_ivs i no_idd
  some (record idd { addr = va })

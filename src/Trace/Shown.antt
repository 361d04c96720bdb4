-- ===== src/Trace/Shown.antt =====
-- The lines that are traced for encoded instructions.
use pcomp.Common.{
  some-injective, ◌≢◌, ap, append-nil, ne→==, [], ℕ, ◌+◌, ◌^◌, ◌≤◌, ◌<◌, ◌≡◌, refl, sym, ◌++◌,
  length, some, true, arith,
}
use mathlib.Core.Path.{subst}
use pcomp.Memory.{Bytes, HasBytes}
use pcomp.Exe.{VmInstr, instr, instr_handle, pc}
use pcomp.Exe.Fields.{opcode_decodes}
use pcomp.Interpreter.State.{Vm}
use pcomp.Interpreter.Handlers.{pc_plus}
use pcomp.Interpreter.Invariant.{IsVm}
use pcomp.Jit.{Program}
use pcomp.Jit.Reads.{prog_byte-at, prog_hword-at, prog_dword-at}
use pcomp.Spec.{
  BinOp, Cond, binary_instr, cond_instr, Instruction, Source, binary_instr, cond_instr, encode,
  IsInstruction,
}
use pcomp.Spec.Refines.{IsPlaced}
use pcomp.Spec.Layout.{pc_plus-eq, mem_byte-eq, mem_hword-eq, mem_dword-eq}
use pcomp.Trace.{Idd, no_idd, hex_dump, trace_instr, trace_instr_decode}
use pcomp.Trace.Decode.{trace_again, put_ivs, put_ivu, vm_reader, prog_reader, trace, jit_idd}
use pcomp.Trace.Assembly.{hex_dump-shown_bytes, trace_instr-assembly, trace_instr-listed}
use pcomp.Trace.Decoded.{Reads, operation, decoded, decode_idd-decoded}
use pcomp.Trace.Syntax.{assembly, line, listed}

length_positive : (i : Instruction) → 1 ≤ length (encode i)
length_positive (Instruction.binary op rd (Source.reg rs)) = omega arith
length_positive (Instruction.binary op rd (Source.imm v)) = omega arith
length_positive (Instruction.load rd rs idx) = omega arith
length_positive _ = omega arith

module _ (m : Bytes) (a : ℕ) where
  instr_handle-operation :
      (i : Instruction) → HasBytes m a (encode i) → instr_handle (instr (m a)) ≡ some (operation i)
  instr_handle-operation (Instruction.load rd rs idx) (e, _) =
      rw e (opcode_decodes VmInstr.load 2 (omega arith)).0
  instr_handle-operation (Instruction.store rd idx rs) (e, _) =
      rw e (opcode_decodes VmInstr.store 2 (omega arith)).0
  instr_handle-operation (Instruction.binary op rd (Source.reg rs)) (e, _) =
      rw e (opcode_decodes (binary_instr op) 0 (omega arith)).0
  instr_handle-operation (Instruction.binary op rd (Source.imm v)) (e, _) =
      rw e (opcode_decodes (binary_instr op) 1 (omega arith)).0
  instr_handle-operation (Instruction.not rd) (e, _) =
      rw e (opcode_decodes VmInstr.not 0 (omega arith)).0
  instr_handle-operation (Instruction.push rs) (e, _) =
      rw e (opcode_decodes VmInstr.push 0 (omega arith)).0
  instr_handle-operation (Instruction.pop rd) (e, _) =
      rw e (opcode_decodes VmInstr.pop 0 (omega arith)).0
  instr_handle-operation (Instruction.call v) (e, _) =
      rw e (opcode_decodes VmInstr.call 1 (omega arith)).0
  instr_handle-operation (Instruction.jmp v) (e, _) =
      rw e (opcode_decodes VmInstr.jmp 1 (omega arith)).0
  instr_handle-operation (Instruction.jmp_if c v) (e, _) =
      rw e (opcode_decodes (cond_instr c) 1 (omega arith)).0
  instr_handle-operation Instruction.ret (e, _) =
      rw e (opcode_decodes VmInstr.ret 0 (omega arith)).0

  -- The line for an `idd` whose operands print as the text of `j`.
  trace_instr_decode-line :
      (i j : Instruction) (d : Idd)
      → HasBytes m a (encode i)
      → trace_instr (operation i) m (record d { addr = a })
        ≡ hex_dump (length (encode i)) m a ++ assembly j
      → trace_instr_decode true m (record d { addr = a }) ≡ some (line a (encode i) j)
  unfolding trace_instr_decode
  trace_instr_decode-line i j d b t =
      rw (trace_instr_decode, instr_handle-operation i b, t, hex_dump-shown_bytes m a (encode i) b)
        refl

vm_reader-Reads :
    (s : Vm) {size : ℕ}
    → IsVm size s
    → size < 2 ^ 64
    → (room : ℕ) → s.reg pc + room ≤ size
    → Reads (vm_reader s) s.mem (s.reg pc) room
vm_reader-Reads s h small room fits =
    let sized : s.mem_size < 2 ^ 64 = omega (arith, h.sized) in
    let at : (k : ℕ) → k ≤ room → pc_plus k s ≡ s.reg pc + k =
      λ k hk. pc_plus-eq s sized k (omega (arith, h.sized)) in
    record {
      byte = λ k c v e hk b.
          rw (at k (omega arith), sym e) (mem_byte-eq s sized c v (omega (arith, h.sized)) b);
      hword = λ k c v e hv hk b.
          rw (at k (omega arith), sym e) (mem_hword-eq s sized c v hv (omega (arith, h.sized)) b);
      dword = λ k c v e hv hk b.
          rw (at k (omega arith), sym e) (mem_dword-eq s sized c v hv (omega (arith, h.sized)) b);
    }

prog_reader-Reads :
    (p : Program) (va room : ℕ) → va + room ≤ p.prog_size → Reads (prog_reader p va) p.bytes va room
prog_reader-Reads p va room fits = record {
  byte = λ k c v e hk b. rw (sym e) (prog_byte-at p c v (omega arith) b);
  hword = λ k c v e hv hk b. rw (sym e) (prog_hword-at p c v hv (omega arith) b);
  dword = λ k c v e hv hk b. rw (sym e) (prog_dword-at p c v hv (omega arith) b);
}

not_jmp : (i : VmInstr) (s : Vm) (d : Idd) → i ≢ VmInstr.jmp → trace_again true i s d ≡ some []
unfolding trace_again
not_jmp VmInstr.jmp s d n = absurd (n refl)
not_jmp VmInstr.load s d n = refl
not_jmp _ s d n = refl

binary_not_jmp : (op : BinOp) → binary_instr op ≢ VmInstr.jmp
unfolding binary_instr
binary_not_jmp BinOp.mov e = cc e
binary_not_jmp _ e = cc e

cond_not_jmp : (c : Cond) → cond_instr c ≢ VmInstr.jmp
unfolding cond_instr
cond_not_jmp Cond.eq e = cc e
cond_not_jmp _ e = cc e

traced_once :
    (i : Instruction) (s : Vm) (d : Idd)
    → IsPlaced i (s.reg pc)
    → trace_again true (operation i) s d ≡ some []
unfolding trace_again
traced_once (Instruction.jmp a) s d k = rw (ne→== (s.reg pc) 0 k) refl
traced_once (Instruction.binary op rd src) s d k = not_jmp (binary_instr op) s d (binary_not_jmp op)
traced_once (Instruction.jmp_if c a) s d k = not_jmp (cond_instr c) s d (cond_not_jmp c)
traced_once (Instruction.not rd) s d k = refl
traced_once _ s d k = refl

-- When the interpreter stands at an encoded instruction with operands in the documented ranges (a
-- plain jump not at address 0), in a memory of less than 2^64 bytes, then with debugging on its
-- step prints, whatever the earlier instructions left in `idd`, one line with the address, exactly
-- the bytes of the instruction padded to ten columns, and its assembly text in the syntax of the
-- documentation.
pub trace-line :
    (s : Vm) (i : Instruction) (d : Idd) {size : ℕ}
    → IsVm size s
    → size < 2 ^ 64
    → IsInstruction i
    → IsPlaced i (s.reg pc)
    → HasBytes s.mem (s.reg pc) (encode i)
    → s.reg pc + length (encode i) ≤ size
    → trace true s d ≡ some (line (s.reg pc) (encode i) i)
unfolding trace
trace-line s i d h small legal k b room =
    rw
      (
        mem_byte-eq s (omega (arith, h.sized)) (s.reg pc) (s.mem (s.reg pc))
            (omega (arith, h.sized, length_positive i)) refl,
        instr_handle-operation s.mem (s.reg pc) i b,
        decode_idd-decoded (vm_reader-Reads s h small (length (encode i)) room) put_ivu i d legal b
            (omega arith),
        trace_instr_decode-line s.mem (s.reg pc) i i (decoded put_ivu i d) b
            (trace_instr-assembly s.mem (s.reg pc) i d),
        traced_once i s (record (decoded put_ivu i d) { addr = s.reg pc }) k,
      )
      (ap some (append-nil (line (s.reg pc) (encode i) i)))

-- What is recorded for an encoded instruction prints as its line, with 0 for an immediate of AND, OR
-- and XOR.
pub jit_idd-line :
    (p : Program) (va : ℕ) (i : Instruction) (d : Idd)
    → IsInstruction i
    → HasBytes p.bytes va (encode i)
    → va + length (encode i) ≤ p.prog_size
    → jit_idd p va ≡ some d
    → trace_instr_decode true p.bytes d ≡ some (line va (encode i) (listed i))
unfolding jit_idd
jit_idd-line p va i d legal b room e =
    let q : some (record (decoded put_ivs i no_idd) { addr = va }) ≡ some d =
      rw
        (
          prog_byte-at p va (p.bytes va) (omega (arith, length_positive i)) refl,
          instr_handle-operation p.bytes va i b,
          decode_idd-decoded (prog_reader-Reads p va (length (encode i)) room) put_ivs i no_idd
              legal b (omega arith),
        )
        at e in
    subst (λ k. trace_instr_decode true p.bytes k ≡ some (line va (encode i) (listed i)))
      (some-injective q)
      (trace_instr_decode-line p.bytes va i (listed i) (decoded put_ivs i no_idd) b
        (trace_instr-listed p.bytes va i))

-- ===== src/Trace/Assembly.antt =====
-- The text that the `switch` of `trace_instr_decode` prints for an encoded instruction.
use pcomp.Common.{
  ℕ, zero, suc, ◌+◌, ◌-◌, ◌≡◌, refl, List, [], ◌∷◌, ◌++◌, length, ℤ, pos, negsuc, arith,
}
use pcomp.Word.{as_signed16}
use pcomp.Memory.{Bytes, HasBytes}
use pcomp.Spec.{Instruction, Source, BinOp, Cond, binary_instr, cond_instr, encode}
use pcomp.Trace.{
  Idd, no_idd, hex_bytes, blanks, hex_dump, idx_dump, reg_name, trace_instr, trace_operands,
  trace_operand, trace_target,
}
use pcomp.Trace.Decode.{put_ivs, put_ivu}
use pcomp.Trace.Decoded.{operation, put_of, decoded}
use pcomp.Trace.Syntax.{
  shown_bytes, index, binary_name, jump_name, immediate, with_target, assembly, listed,
}

hex_bytes-shown_bytes :
    (m : Bytes) (a : ℕ) (bs : List ℕ) → HasBytes m a bs → hex_bytes (length bs) m a ≡ shown_bytes bs
unfolding hex_bytes
hex_bytes-shown_bytes m a [] h = refl
hex_bytes-shown_bytes m a (b ∷ bs) (e, h) = rw (e, hex_bytes-shown_bytes m (a + 1) bs h) refl

pub hex_dump-shown_bytes :
    (m : Bytes) (a : ℕ) (bs : List ℕ)
    → HasBytes m a bs
    → hex_dump (length bs) m a ≡ shown_bytes bs ++ blanks (10 - length bs)
unfolding hex_dump
hex_dump-shown_bytes m a bs h = rw (hex_bytes-shown_bytes m a bs h) refl

idx_dump-index : (z : ℤ) → idx_dump z ≡ index z
unfolding idx_dump
idx_dump-index (pos zero) = refl
idx_dump-index (pos (suc n)) = ground arith
idx_dump-index (negsuc n) = ground arith

listed_reg :
    (op : BinOp) (rd rs : ℕ)
    → listed (Instruction.binary op rd (Source.reg rs)) ≡ Instruction.binary op rd (Source.reg rs)
unfolding listed
listed_reg BinOp.and rd rs = refl
listed_reg _ rd rs = refl

module _ (m : Bytes) (a : ℕ) where
  trace_instr-reg :
      (op : BinOp) (rd rs : ℕ) (d : Idd)
      → trace_instr (binary_instr op) m (record d { addr = a; am = 0; dst = rd; src = rs })
        ≡ hex_dump 2 m a ++ assembly (Instruction.binary op rd (Source.reg rs))
  unfolding trace_instr trace_operands binary_instr binary_name
  trace_instr-reg BinOp.and rd rs d = refl
  trace_instr-reg _ rd rs d = refl

  trace_instr-imm :
      (op : BinOp) (rd v : ℕ) (d : Idd)
      → trace_instr
          (binary_instr op)
          m
          (record (put_of put_ivu op v (record d { am = 1; dst = rd })) { addr = a })
        ≡ hex_dump 10 m a ++ assembly (Instruction.binary op rd (Source.imm v))
  unfolding trace_instr trace_operands binary_instr binary_name put_of immediate
  trace_instr-imm BinOp.and rd v d = refl
  trace_instr-imm _ rd v d = refl

  trace_instr-listed_imm :
      (op : BinOp) (rd v : ℕ)
      → trace_instr
          (binary_instr op)
          m
          (record (put_of put_ivs op v (record no_idd { am = 1; dst = rd })) { addr = a })
        ≡ hex_dump 10 m a ++ assembly (listed (Instruction.binary op rd (Source.imm v)))
  unfolding trace_instr trace_operands binary_instr binary_name put_of immediate listed
  trace_instr-listed_imm BinOp.and rd v = refl
  trace_instr-listed_imm _ rd v = refl

  trace_instr-cond_instr :
      (c : Cond) (v : ℕ) (d : Idd)
      → trace_instr (cond_instr c) m (record d { addr = a; ivu = v })
        ≡ hex_dump 9 m a ++ with_target (jump_name c) v
  unfolding trace_instr trace_target cond_instr jump_name
  trace_instr-cond_instr Cond.eq v d = refl
  trace_instr-cond_instr _ v d = refl

  pub trace_instr-assembly :
      (i : Instruction) (d : Idd)
      → trace_instr (operation i) m (record (decoded put_ivu i d) { addr = a })
        ≡ hex_dump (length (encode i)) m a ++ assembly i
  unfolding trace_instr trace_operand trace_target hex_dump hex_bytes reg_name as_signed16
  trace_instr-assembly (Instruction.load rd rs idx) d = rw (idx_dump-index (as_signed16 idx)) refl
  trace_instr-assembly (Instruction.store rd idx rs) d = rw (idx_dump-index (as_signed16 idx)) refl
  trace_instr-assembly (Instruction.binary op rd (Source.reg rs)) d = trace_instr-reg op rd rs d
  trace_instr-assembly (Instruction.binary op rd (Source.imm v)) d = trace_instr-imm op rd v d
  trace_instr-assembly (Instruction.jmp_if c v) d = trace_instr-cond_instr c v d
  trace_instr-assembly (Instruction.not rd) d = refl
  trace_instr-assembly _ d = refl

  pub trace_instr-listed :
      (i : Instruction)
      → trace_instr (operation i) m (record (decoded put_ivs i no_idd) { addr = a })
        ≡ hex_dump (length (encode i)) m a ++ assembly (listed i)
  unfolding trace_instr trace_operand trace_target listed hex_dump hex_bytes reg_name as_signed16
  trace_instr-listed (Instruction.load rd rs idx) = rw (idx_dump-index (as_signed16 idx)) refl
  trace_instr-listed (Instruction.store rd idx rs) = rw (idx_dump-index (as_signed16 idx)) refl
  trace_instr-listed (Instruction.binary op rd (Source.reg rs)) =
      rw (listed_reg op rd rs) (trace_instr-reg op rd rs no_idd)
  trace_instr-listed (Instruction.binary op rd (Source.imm v)) = trace_instr-listed_imm op rd v
  trace_instr-listed (Instruction.jmp_if c v) = trace_instr-cond_instr c v no_idd
  trace_instr-listed (Instruction.not rd) = refl
  trace_instr-listed _ = refl

-- ===== src/Trace/Decoded.antt =====
-- What the decoding for a trace leaves in `idd` where an encoded instruction stands.
use pcomp.Common.{ℕ, ◌+◌, ◌*◌, ◌^◌, ◌≤◌, ◌<◌, ◌≡◌, refl, [], ◌∷◌, length, some, arith}
use pcomp.Word.{IsU64, as_signed16}
use pcomp.Memory.{Bytes, HasBytes}
use pcomp.Exe.{VmInstr}
use pcomp.Exe.Fields.{opcode_decodes, operand_decodes}
use pcomp.Spec.{
  Instruction, Source, BinOp, Cond, binary_instr, cond_instr, encode, le_bytes, opcode,
  IsInstruction,
}
use pcomp.Trace.{Idd}
use pcomp.Trace.Decode.{
  Reader, put_ivs, decode_idd, decode_indexed, decode_operands, decode_operand, decode_target,
}

-- What a reader finds of the bytes from `a` on, up to `a + room`.
pub record Reads (r : Reader) (m : Bytes) (a room : ℕ) : Type 0 where
  pub byte : (k c v : ℕ) → c ≡ a + k → k < room → m c ≡ v → r.byte k ≡ some v
  pub hword :
      (k c v : ℕ)
      → c ≡ a + k
      → v < 2 ^ 16
      → k + 2 ≤ room
      → HasBytes m c (le_bytes 2 v)
      → r.hword k ≡ some v
  pub dword :
      (k c v : ℕ)
      → c ≡ a + k
      → IsU64 v
      → k + 8 ≤ room
      → HasBytes m c (le_bytes 8 v)
      → r.dword k ≡ some v

abbrev pub operation : Instruction → VmInstr
operation (Instruction.load rd rs idx) = VmInstr.load
operation (Instruction.store rd idx rs) = VmInstr.store
operation (Instruction.binary op rd src) = binary_instr op
operation (Instruction.not rd) = VmInstr.not
operation (Instruction.push rs) = VmInstr.push
operation (Instruction.pop rd) = VmInstr.pop
operation (Instruction.call a) = VmInstr.call
operation (Instruction.jmp a) = VmInstr.jmp
operation (Instruction.jmp_if c a) = cond_instr c
operation Instruction.ret = VmInstr.ret

unfoldable pub put_of : (ℕ → Idd → Idd) → BinOp → ℕ → Idd → Idd
put_of logic BinOp.and = logic
put_of logic BinOp.or = logic
put_of logic BinOp.xor = logic
put_of logic op = put_ivs

-- What the decoding leaves in `idd`.
abbrev pub decoded : (ℕ → Idd → Idd) → Instruction → Idd → Idd
decoded logic (Instruction.load rd rs idx) d = record d {
  dst = rd;
  src = rs;
  idx = as_signed16 idx;
}
decoded logic (Instruction.store rd idx rs) d = record d {
  dst = rd;
  src = rs;
  idx = as_signed16 idx;
}
decoded logic (Instruction.binary op rd (Source.reg rs)) d = record d { am = 0; dst = rd; src = rs }
decoded logic (Instruction.binary op rd (Source.imm v)) d =
    put_of logic op v (record d { am = 1; dst = rd })
decoded logic (Instruction.not rd) d = record d { dst = rd }
decoded logic (Instruction.push rs) d = record d { dst = rs }
decoded logic (Instruction.pop rd) d = record d { dst = rd }
decoded logic (Instruction.call a) d = record d { ivu = a }
decoded logic (Instruction.jmp a) d = record d { ivu = a }
decoded logic (Instruction.jmp_if c a) d = record d { ivu = a }
decoded logic Instruction.ret d = d

decode_idd-binary_instr :
    (r : Reader) (logic : ℕ → Idd → Idd) (op : BinOp) (d : Idd)
    → decode_idd r logic (binary_instr op) d ≡ decode_operands r (put_of logic op) d
unfolding decode_idd binary_instr put_of
decode_idd-binary_instr r logic BinOp.and d = refl
decode_idd-binary_instr r logic _ d = refl

decode_idd-cond_instr :
    (r : Reader) (logic : ℕ → Idd → Idd) (c : Cond) (d : Idd)
    → decode_idd r logic (cond_instr c) d ≡ decode_target r d
unfolding decode_idd cond_instr
decode_idd-cond_instr r logic Cond.eq d = refl
decode_idd-cond_instr r logic _ d = refl

module _ {r : Reader} {m : Bytes} {a room : ℕ} (reads : Reads r m a room) where
  decode_indexed-decoded :
      (rd rs i : ℕ) (d : Idd)
      → rd < 16
      → rs < 16
      → i < 2 ^ 16
      → 4 ≤ room
      → HasBytes m (a + 1) ((rd * 16 + rs) ∷ le_bytes 2 i)
      → decode_indexed r d ≡ some (record d { dst = rd; src = rs; idx = as_signed16 i })
  unfolding decode_indexed
  decode_indexed-decoded rd rs i d hd hs hi h (e, b) =
      rw
        (
          reads.byte 1 (a + 1) (rd * 16 + rs) refl (omega arith) e,
          reads.hword 2 (a + 1 + 1) i (omega arith) hi (omega arith) b,
          (operand_decodes rd rs hd hs).0,
          (operand_decodes rd rs hd hs).1,
        )
        refl

  decode_operands-reg :
      (put : ℕ → Idd → Idd) (i : VmInstr) (rd rs : ℕ) (d : Idd)
      → rd < 16
      → rs < 16
      → 2 ≤ room
      → HasBytes m a (opcode i 0 ∷ (rd * 16 + rs) ∷ [])
      → decode_operands r put d ≡ some (record d { am = 0; dst = rd; src = rs })
  unfolding decode_operands
  decode_operands-reg put i rd rs d hd hs h (o, (e, _)) =
      rw
        (
          reads.byte 0 a (opcode i 0) (omega arith) (omega arith) o,
          reads.byte 1 (a + 1) (rd * 16 + rs) refl (omega arith) e,
          (opcode_decodes i 0 (omega arith)).1,
          (operand_decodes rd rs hd hs).0,
          (operand_decodes rd rs hd hs).1,
        )
        refl

  decode_operands-imm :
      (put : ℕ → Idd → Idd) (i : VmInstr) (rd v : ℕ) (d : Idd)
      → rd < 16
      → IsU64 v
      → 10 ≤ room
      → HasBytes m a (opcode i 1 ∷ (rd * 16 + 0) ∷ le_bytes 8 v)
      → decode_operands r put d ≡ some (put v (record d { am = 1; dst = rd }))
  unfolding decode_operands
  decode_operands-imm put i rd v d hd hv h (o, (e, b)) =
      rw
        (
          reads.byte 0 a (opcode i 1) (omega arith) (omega arith) o,
          reads.byte 1 (a + 1) (rd * 16 + 0) refl (omega arith) e,
          (opcode_decodes i 1 (omega arith)).1,
          (operand_decodes rd 0 hd (omega arith)).0,
          reads.dword 2 (a + 1 + 1) v (omega arith) hv (omega arith) b,
        )
        refl

  decode_operand-decoded :
      (rd : ℕ) (d : Idd)
      → rd < 16
      → 2 ≤ room
      → m (a + 1) ≡ rd * 16 + 0
      → decode_operand r d ≡ some (record d { dst = rd })
  unfolding decode_operand
  decode_operand-decoded rd d hd h e =
      rw
        (
          reads.byte 1 (a + 1) (rd * 16 + 0) refl (omega arith) e,
          (operand_decodes rd 0 hd (omega arith)).0,
        )
        refl

  decode_target-decoded :
      (v : ℕ) (d : Idd)
      → IsU64 v
      → 9 ≤ room
      → HasBytes m (a + 1) (le_bytes 8 v)
      → decode_target r d ≡ some (record d { ivu = v })
  unfolding decode_target
  decode_target-decoded v d hv h b = rw (reads.dword 1 (a + 1) v refl hv (omega arith) b) refl

  pub decode_idd-decoded :
      (logic : ℕ → Idd → Idd) (i : Instruction) (d : Idd)
      → IsInstruction i
      → HasBytes m a (encode i)
      → length (encode i) ≤ room
      → decode_idd r logic (operation i) d ≡ some (decoded logic i d)
  unfolding decode_idd
  decode_idd-decoded logic (Instruction.load rd rs idx) d (x, y, z) (_, b) h =
      decode_indexed-decoded rd rs idx d x.0 y.0 z h b
  decode_idd-decoded logic (Instruction.store rd idx rs) d (x, y, z) (_, b) h =
      decode_indexed-decoded rd rs idx d x.0 y.0 z h b
  decode_idd-decoded logic (Instruction.binary op rd (Source.reg rs)) d (x, y) b h =
      rw (decode_idd-binary_instr r logic op d)
        (decode_operands-reg (put_of logic op) (binary_instr op) rd rs d x.0 y.0 h b)
  decode_idd-decoded logic (Instruction.binary op rd (Source.imm v)) d (x, y) b h =
      rw (decode_idd-binary_instr r logic op d)
        (decode_operands-imm (put_of logic op) (binary_instr op) rd v d x.0 y h b)
  decode_idd-decoded logic (Instruction.not rd) d x (_, (e, _)) h =
      decode_operand-decoded rd d x.0 h e
  decode_idd-decoded logic (Instruction.push rs) d x (_, (e, _)) h =
      decode_operand-decoded rs d x.0 h e
  decode_idd-decoded logic (Instruction.pop rd) d x (_, (e, _)) h =
      decode_operand-decoded rd d x.0 h e
  decode_idd-decoded logic (Instruction.call v) d x (_, b) h = decode_target-decoded v d x h b
  decode_idd-decoded logic (Instruction.jmp v) d x (_, b) h = decode_target-decoded v d x h b
  decode_idd-decoded logic (Instruction.jmp_if c v) d x (_, b) h =
      rw (decode_idd-cond_instr r logic c d) (decode_target-decoded v d x h b)
  decode_idd-decoded logic Instruction.ret d x b h = refl

-- ===== src/X64/Simulation/Translated.antt =====
-- The translated code of an instruction against the interpreter's step, for every instruction that
-- does not leave the straight line.
use pcomp.Common.{ℕ, ◌+◌, ◌≤◌, ◌≡◌, ◌≢◌, refl, ◌∙◌, length, arith}
use pcomp.Word.{IsU64}
use pcomp.Memory.{HasBytes}
use pcomp.Exe.{VmInstr, sp}
use pcomp.Spec.{
  BinOp, Source, Instruction, binary_instr, encode, le_bytes, IsOperand, IsInstruction, perform,
}
use pcomp.Spec.Decode.{HasBytes-at}
use pcomp.Jit.{Jit, Program}
use pcomp.X64.Encode.{
  emit_not_reg, emit_push_reg, emit_pop_reg, emit_mov_reg_b32d, emit_mov_b32d_reg,
}
use pcomp.X64.Immediate.{IsMisloaded}
use pcomp.X64.Jit.{jit_two_operands, jit_instr}
use pcomp.X64.Relation.{operand_reg}
use pcomp.X64.Translate.{
  displacement, jit-opcode, jit_one_operand-eq, jit_two_operands-imm, jit_two_operands-reg,
  jit_load-eq, jit_store-eq,
}
use pcomp.X64.Simulation.{IsSimulated}
use pcomp.X64.Simulation.Code.{Translates}
use pcomp.X64.Machine.Binary.{emit_reg, emit_imm}
use pcomp.X64.Simulation.Binary.{binary_reg-Reaches, binary_imm-Reaches}
use pcomp.X64.Simulation.Memory.{
  not-Reaches, load-Reaches, store-Reaches, push-Reaches, pop-Reaches,
}

-- What the code does not give the meaning of: an immediate that is loaded wrong, and PUSH and POP
-- of `SP`, where the processor takes the other of the two values.
abbrev pub IsStraight : Instruction → Type 0
IsStraight (Instruction.binary op rd (Source.imm v)) = ¬ IsMisloaded v
IsStraight (Instruction.push rs) = rs ≢ sp
IsStraight (Instruction.pop rd) = rd ≢ sp
IsStraight (Instruction.call a) = ⊥
IsStraight (Instruction.jmp a) = ⊥
IsStraight (Instruction.jmp_if c a) = ⊥
IsStraight Instruction.ret = ⊥
IsStraight _ = Unit

-- The code does what the interpreter does.
abbrev IsStraightCode : Program → Jit → Instruction → Type 0
IsStraightCode p j i = Translates p j i (λ s x. Unit) (IsSimulated i)

pub jit_instr-binary :
    (op : BinOp) (p : Program) (j : Jit)
    → jit_instr p (binary_instr op) j ≡ jit_two_operands p (emit_reg op) (emit_imm op) j
unfolding jit_instr binary_instr emit_reg emit_imm
jit_instr-binary BinOp.mov p j = refl
jit_instr-binary _ p j = refl

module _ (p : Program) (j : Jit) where
  load-IsStraightCode :
      (rd rs idx : ℕ)
      → IsInstruction (Instruction.load rd rs idx)
      → HasBytes p.bytes j.jpos.vm (encode (Instruction.load rd rs idx))
      → j.jpos.vm + 4 ≤ p.prog_size
      → IsStraightCode p j (Instruction.load rd rs idx)
  unfolding jit_instr
  load-IsStraightCode rd rs idx (hd, hs, hi) (b₀, (b₁, bs)) room =
      let (ad, ed, la) = operand_reg rd hd in
      let (aₛ, es, ls) = operand_reg rs hs in
      record {
        code = emit_mov_reg_b32d ad aₛ (displacement idx);
        written =
            jit-opcode p j VmInstr.load 2 (omega arith) b₀ (omega arith)
            ∙ jit_load-eq p j rd rs ad aₛ hd.0 hs.0 ed b₁ es idx hi
                (HasBytes-at p.bytes _ _ (le_bytes 2 idx) (omega arith) bs) room;
        runs = λ s x at h rel _ _ b fits.
            load-Reaches s x h rel rd ad at hd ed la rs aₛ idx hs es ls hi b fits;
      }

  store-IsStraightCode :
      (rd idx rs : ℕ)
      → IsInstruction (Instruction.store rd idx rs)
      → HasBytes p.bytes j.jpos.vm (encode (Instruction.store rd idx rs))
      → j.jpos.vm + 4 ≤ p.prog_size
      → IsStraightCode p j (Instruction.store rd idx rs)
  unfolding jit_instr
  store-IsStraightCode rd idx rs (hd, hs, hi) (b₀, (b₁, bs)) room =
      let (ad, ed, la) = operand_reg rd hd in
      let (aₛ, es, ls) = operand_reg rs hs in
      record {
        code = emit_mov_b32d_reg ad (displacement idx) aₛ;
        written =
            jit-opcode p j VmInstr.store 2 (omega arith) b₀ (omega arith)
            ∙ jit_store-eq p j rd rs ad aₛ hd.0 hs.0 ed b₁ es idx hi
                (HasBytes-at p.bytes _ _ (le_bytes 2 idx) (omega arith) bs) room;
        runs = λ s x at h rel _ _ b fits.
            store-Reaches s x h rel rd ad at hd ed la rs aₛ idx hs es ls hi b fits;
      }

  not-IsStraightCode :
      (rd : ℕ)
      → IsOperand rd
      → HasBytes p.bytes j.jpos.vm (encode (Instruction.not rd))
      → j.jpos.vm + 2 ≤ p.prog_size
      → IsStraightCode p j (Instruction.not rd)
  unfolding jit_instr
  not-IsStraightCode rd hd (b₀, (b₁, _)) room =
      let (ad, ed, la) = operand_reg rd hd in
      record {
        code = emit_not_reg ad;
        written =
            jit-opcode p j VmInstr.not 0 (omega arith) b₀ (omega arith)
            ∙ jit_one_operand-eq p j rd 0 ad 0 hd.0 (omega arith) ed b₁ emit_not_reg room;
        runs = λ s x at h rel _ _ b fits. not-Reaches s x h rel rd ad at hd ed la b fits;
      }

  push-IsStraightCode :
      (rs : ℕ)
      → IsOperand rs
      → rs ≢ sp
      → HasBytes p.bytes j.jpos.vm (encode (Instruction.push rs))
      → j.jpos.vm + 2 ≤ p.prog_size
      → IsStraightCode p j (Instruction.push rs)
  unfolding jit_instr
  push-IsStraightCode rs hs ne (b₀, (b₁, _)) room =
      let (aₛ, es, ls) = operand_reg rs hs in
      record {
        code = emit_push_reg aₛ;
        written =
            jit-opcode p j VmInstr.push 0 (omega arith) b₀ (omega arith)
            ∙ jit_one_operand-eq p j rs 0 aₛ 0 hs.0 (omega arith) es b₁ emit_push_reg room;
        runs = λ s x at h rel _ _ b fits. push-Reaches s x h rel rs aₛ at hs es ls ne b fits;
      }

  pop-IsStraightCode :
      (rd : ℕ)
      → IsOperand rd
      → rd ≢ sp
      → HasBytes p.bytes j.jpos.vm (encode (Instruction.pop rd))
      → j.jpos.vm + 2 ≤ p.prog_size
      → IsStraightCode p j (Instruction.pop rd)
  unfolding jit_instr
  pop-IsStraightCode rd hd ne (b₀, (b₁, _)) room =
      let (ad, ed, la) = operand_reg rd hd in
      record {
        code = emit_pop_reg ad;
        written =
            jit-opcode p j VmInstr.pop 0 (omega arith) b₀ (omega arith)
            ∙ jit_one_operand-eq p j rd 0 ad 0 hd.0 (omega arith) ed b₁ emit_pop_reg room;
        runs = λ s x at h rel _ _ b fits. pop-Reaches s x h rel rd ad at hd ed la ne b fits;
      }

  reg-IsStraightCode :
      (op : BinOp) (rd rs : ℕ)
      → IsOperand rd
      → IsOperand rs
      → HasBytes p.bytes j.jpos.vm (encode (Instruction.binary op rd (Source.reg rs)))
      → j.jpos.vm + 2 ≤ p.prog_size
      → IsStraightCode p j (Instruction.binary op rd (Source.reg rs))
  reg-IsStraightCode op rd rs hd hs (b₀, (b₁, _)) room =
      let (ad, ed, la) = operand_reg rd hd in
      let (aₛ, es, ls) = operand_reg rs hs in
      record {
        code = emit_reg op ad aₛ;
        written =
            jit-opcode p j (binary_instr op) 0 (omega arith) b₀ (omega arith)
            ∙ jit_instr-binary op p j
            ∙ jit_two_operands-reg p j rd rs ad aₛ hd.0 hs.0 ed b₁ (emit_reg op) (emit_imm op)
                (binary_instr op) es b₀ room;
        runs = λ s x at h rel _ _ b fits.
            unfold perform in
            binary_reg-Reaches s x h rel op rd ad _ hd ed la rs aₛ hs es ls b fits;
      }

  imm-IsStraightCode :
      (op : BinOp) (rd v : ℕ)
      → IsOperand rd
      → IsU64 v
      → ¬ IsMisloaded v
      → HasBytes p.bytes j.jpos.vm (encode (Instruction.binary op rd (Source.imm v)))
      → j.jpos.vm + 10 ≤ p.prog_size
      → IsStraightCode p j (Instruction.binary op rd (Source.imm v))
  imm-IsStraightCode op rd v hd hv ok (b₀, (b₁, bs)) room =
      let (ad, ed, la) = operand_reg rd hd in
      record {
        code = emit_imm op ad v;
        written =
            jit-opcode p j (binary_instr op) 1 (omega arith) b₀ (omega arith)
            ∙ jit_instr-binary op p j
            ∙ jit_two_operands-imm p j rd 0 ad 0 hd.0 (omega arith) ed b₁ (emit_reg op)
                (emit_imm op) (binary_instr op) v hv b₀
                (HasBytes-at p.bytes _ _ (le_bytes 8 v) (omega arith) bs) room;
        runs = λ s x at h rel _ _ b fits.
            unfold perform in binary_imm-Reaches op s x h rel rd ad _ v hd ed la hv ok b fits;
      }

pub straight-IsStraightCode :
    (p : Program) (j : Jit) (i : Instruction)
    → IsInstruction i
    → IsStraight i
    → HasBytes p.bytes j.jpos.vm (encode i)
    → j.jpos.vm + length (encode i) ≤ p.prog_size
    → IsStraightCode p j i
straight-IsStraightCode p j (Instruction.load rd rs idx) k t b room =
    load-IsStraightCode p j rd rs idx k b room
straight-IsStraightCode p j (Instruction.store rd idx rs) k t b room =
    store-IsStraightCode p j rd idx rs k b room
straight-IsStraightCode p j (Instruction.binary op rd (Source.reg rs)) k t b room =
    reg-IsStraightCode p j op rd rs k.0 k.1 b room
straight-IsStraightCode p j (Instruction.binary op rd (Source.imm v)) k t b room =
    imm-IsStraightCode p j op rd v k.0 k.1 t b room
straight-IsStraightCode p j (Instruction.not rd) k t b room = not-IsStraightCode p j rd k b room
straight-IsStraightCode p j (Instruction.push rs) k t b room = push-IsStraightCode p j rs k t b room
straight-IsStraightCode p j (Instruction.pop rd) k t b room = pop-IsStraightCode p j rd k t b room
straight-IsStraightCode p j (Instruction.call a) k t b room = absurd t
straight-IsStraightCode p j (Instruction.jmp a) k t b room = absurd t
straight-IsStraightCode p j (Instruction.jmp_if c a) k t b room = absurd t
straight-IsStraightCode p j Instruction.ret k t b room = absurd t

-- ===== src/X64/Machine/Binary.antt =====
-- What the processor decodes where the emitted two-operand instructions stand.
use pcomp.Common.{ℕ, ◌<◌, ◌≡◌, refl, List, length, some}
use pcomp.Memory.{Bytes, HasBytes}
use pcomp.Spec.{BinOp}
use pcomp.X64.Encode.{
  emit_add_reg_reg, emit_and_reg_reg, emit_or_reg_reg, emit_sub_reg_reg, emit_xor_reg_reg,
  emit_mov_reg_reg, emit_cmp_reg_reg, emit_mov_reg_imm, emit_add_reg_imm64, emit_and_reg_imm64,
  emit_cmp_reg_imm64, emit_or_reg_imm64, emit_sub_reg_imm64, emit_xor_reg_imm64,
}
use pcomp.X64.Machine.{CpuInstr, reg_instr, decode}
use pcomp.X64.Machine.Code.{decode-form}

-- The emitters of `_mov` to `_xor` and `_cmp`.
unfoldable pub emit_reg : BinOp → ℕ → ℕ → List ℕ
emit_reg BinOp.mov = emit_mov_reg_reg
emit_reg BinOp.add = emit_add_reg_reg
emit_reg BinOp.sub = emit_sub_reg_reg
emit_reg BinOp.and = emit_and_reg_reg
emit_reg BinOp.or = emit_or_reg_reg
emit_reg BinOp.xor = emit_xor_reg_reg
emit_reg BinOp.cmp = emit_cmp_reg_reg

unfoldable pub emit_imm : BinOp → ℕ → ℕ → List ℕ
emit_imm BinOp.mov = emit_mov_reg_imm
emit_imm BinOp.add = emit_add_reg_imm64
emit_imm BinOp.sub = emit_sub_reg_imm64
emit_imm BinOp.and = emit_and_reg_imm64
emit_imm BinOp.or = emit_or_reg_imm64
emit_imm BinOp.xor = emit_xor_reg_imm64
emit_imm BinOp.cmp = emit_cmp_reg_imm64

pub decode-emit_reg :
    (op : BinOp) (m : Bytes) (a rd rs : ℕ)
    → rd < 16
    → rs < 16
    → HasBytes m a (emit_reg op rd rs)
    → decode m a ≡ some (CpuInstr.binary op rd rs, length (emit_reg op rd rs))
unfolding emit_reg reg_instr emit_add_reg_reg emit_and_reg_reg emit_or_reg_reg emit_sub_reg_reg
    emit_xor_reg_reg emit_mov_reg_reg emit_cmp_reg_reg
decode-emit_reg BinOp.mov m a rd rs hd hs h =
    decode-form m a 0x8b rd rs _ hd hs (refl, refl, refl) refl h
decode-emit_reg BinOp.add m a rd rs hd hs h =
    decode-form m a 0x03 rd rs _ hd hs (refl, refl, refl) refl h
decode-emit_reg BinOp.sub m a rd rs hd hs h =
    decode-form m a 0x2b rd rs _ hd hs (refl, refl, refl) refl h
decode-emit_reg BinOp.and m a rd rs hd hs h =
    decode-form m a 0x23 rd rs _ hd hs (refl, refl, refl) refl h
decode-emit_reg BinOp.or m a rd rs hd hs h =
    decode-form m a 0x0b rd rs _ hd hs (refl, refl, refl) refl h
decode-emit_reg BinOp.xor m a rd rs hd hs h =
    decode-form m a 0x33 rd rs _ hd hs (refl, refl, refl) refl h
decode-emit_reg BinOp.cmp m a rd rs hd hs h =
    decode-form m a 0x39 rs rd _ hs hd (refl, refl, refl) refl h

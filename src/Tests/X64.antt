-- ===== src/Tests/X64.antt =====
-- The x86-64 JIT's theorems at concrete registers, values and addresses.
use pcomp.Common.{ℕ, ◌^◌, ◌≡◌, ◌↔◌, some, arith}
use pcomp.Jit.{bytes_of}
use pcomp.X64.Encode.{
  emit_add_reg_reg, emit_and_reg_reg, emit_or_reg_reg, emit_sub_reg_reg, emit_xor_reg_reg,
  emit_mov_reg_reg, emit_cmp_reg_reg, emit_mov_reg_b32d, emit_mov_b32d_reg, emit_mov_reg_imm,
  emit_je_imm32, emit_jne_imm32, emit_jg_imm32, emit_jge_imm32, emit_jl_imm32, emit_jle_imm32,
}
use pcomp.X64.Decoder.{decode_rr, decode_mem}
use pcomp.X64.Forms.{reg_reg-decodes, memory-decodes}
use pcomp.X64.Immediate.{decode_mov_imm, IsMisloaded, Arrives, mov_reg_imm-loads}
use pcomp.X64.Jit.{distance}
use pcomp.X64.Branches.{decode_jcc, jcc-targets}

reg_reg-decodes_example :
    (decode_rr (emit_add_reg_reg 9 4) ≡ some (0x03, 9, 4))
    × (decode_rr (emit_and_reg_reg 9 4) ≡ some (0x23, 9, 4))
    × (decode_rr (emit_or_reg_reg 9 4) ≡ some (0x0b, 9, 4))
    × (decode_rr (emit_sub_reg_reg 9 4) ≡ some (0x2b, 9, 4))
    × (decode_rr (emit_xor_reg_reg 9 4) ≡ some (0x33, 9, 4))
    × (decode_rr (emit_mov_reg_reg 9 4) ≡ some (0x8b, 9, 4))
    × (decode_rr (emit_cmp_reg_reg 9 4) ≡ some (0x39, 4, 9))
reg_reg-decodes_example = reg_reg-decodes 9 4 (omega arith) (omega arith)

memory-decodes_example :
    (decode_mem (emit_mov_reg_b32d 1 12 64) ≡ some (0x8b, 1, 12, bytes_of 4 64))
    × (decode_mem (emit_mov_b32d_reg 12 64 1) ≡ some (0x89, 1, 12, bytes_of 4 64))
memory-decodes_example = memory-decodes 1 12 64 (omega arith) (omega arith)

mov_reg_imm-loads_example :
    (v : ℕ) × (decode_mov_imm (emit_mov_reg_imm 8 (2 ^ 31)) ≡ some (8, v))
    × ((v ≡ 2 ^ 31) ↔ ¬ IsMisloaded (2 ^ 31))
    × Arrives (2 ^ 31) v
mov_reg_imm-loads_example = mov_reg_imm-loads 8 (2 ^ 31) (omega arith) (omega arith)

jcc-targets_example :
    (decode_jcc 4096 (emit_je_imm32 (distance 4000 4096)) ≡ some (0x84, 4000))
    × (decode_jcc 4096 (emit_jne_imm32 (distance 4000 4096)) ≡ some (0x85, 4000))
    × (decode_jcc 4096 (emit_jg_imm32 (distance 4000 4096)) ≡ some (0x8f, 4000))
    × (decode_jcc 4096 (emit_jge_imm32 (distance 4000 4096)) ≡ some (0x8d, 4000))
    × (decode_jcc 4096 (emit_jl_imm32 (distance 4000 4096)) ≡ some (0x8c, 4000))
    × (decode_jcc 4096 (emit_jle_imm32 (distance 4000 4096)) ≡ some (0x8e, 4000))
jcc-targets_example =
    jcc-targets 4000 4096 (omega arith) (omega arith) ((omega arith), (omega arith))

-- ===== src/X64/Machine/Jump.antt =====
-- What the processor decodes where the emitted jumps, calls and returns stand.
use pcomp.Common.{ℕ, ◌+◌, ◌-◌, ◌^◌, ◌<◌, ◌≡◌, refl, List, ◌∷◌, length, some, arith}
use pcomp.Word.{IsU64, u32}
use pcomp.Memory.{Bytes, HasBytes}
use pcomp.Spec.{Cond}
use pcomp.Jit.{bytes_of}
use pcomp.X64.Regs.{rbp}
use pcomp.X64.Encode.{
  emit_je_imm32, emit_jne_imm32, emit_jg_imm32, emit_jge_imm32, emit_jl_imm32, emit_jle_imm32,
  emit_jmp_reg, emit_call_reg, emit_ret,
}
use pcomp.X64.Branches.{IsNear, decode_jcc, jcc-decodes}
use pcomp.X64.Jit.{distance}
use pcomp.X64.Machine.{CpuInstr, cond_of, reg_instr, decode}
use pcomp.X64.Machine.Code.{decode-extended}

-- The emitters of the conditional jumps.
unfoldable pub emit_cond : Cond → ℕ → List ℕ
emit_cond Cond.eq = emit_je_imm32
emit_cond Cond.ne = emit_jne_imm32
emit_cond Cond.gt = emit_jg_imm32
emit_cond Cond.ge = emit_jge_imm32
emit_cond Cond.lt = emit_jl_imm32
emit_cond Cond.le = emit_jle_imm32

abbrev cond_code : Cond → ℕ
cond_code Cond.eq = 0x84
cond_code Cond.ne = 0x85
cond_code Cond.gt = 0x8f
cond_code Cond.ge = 0x8d
cond_code Cond.lt = 0x8c
cond_code Cond.le = 0x8e

pub emit_cond-eq :
    (c : Cond) (imm : ℕ)
    → emit_cond c imm ≡ 0x0f ∷ cond_code c ∷ bytes_of 4 (u32 (imm + 2 ^ 32 - 6))
unfolding emit_cond emit_je_imm32 emit_jne_imm32 emit_jg_imm32 emit_jge_imm32 emit_jl_imm32
    emit_jle_imm32
emit_cond-eq Cond.eq imm = refl
emit_cond-eq _ imm = refl

cond_of-code : (c : Cond) → cond_of (cond_code c) ≡ some c
unfolding cond_of
cond_of-code Cond.eq = refl
cond_of-code _ = refl

module _ (m : Bytes) (a : ℕ) where
  decode-jcc :
      (op va d : ℕ) (c : Cond)
      → cond_of op ≡ some c
      → decode_jcc a (0x0f ∷ op ∷ bytes_of 4 d) ≡ some (op, va)
      → HasBytes m a (0x0f ∷ op ∷ bytes_of 4 d)
      → decode m a ≡ some (CpuInstr.jcc c va, 6)
  unfolding decode
  decode-jcc op va d c known e (b₀, (b₁, (b₂, (b₃, (b₄, (b₅, _)))))) =
      rw (b₀, b₁, b₂, b₃, b₄, b₅) (rw (e, known) refl)

  pub decode-emit_cond :
      (c : Cond) (va : ℕ)
      → IsU64 va
      → a + 6 < 2 ^ 64
      → IsNear va a
      → HasBytes m a (emit_cond c (distance va a))
      → decode m a ≡ some (CpuInstr.jcc c va, length (emit_cond c (distance va a)))
  decode-emit_cond c va hv ha near h =
      let same : emit_cond c (distance va a)
          ≡ 0x0f ∷ cond_code c ∷ bytes_of 4 (u32 (distance va a + 2 ^ 32 - 6)) =
        emit_cond-eq c (distance va a) in
      rw same (
        decode-jcc (cond_code c) va _ c (cond_of-code c) (jcc-decodes (cond_code c) va a hv ha near)
          (rw same at h))

  pub decode-jmp_reg : HasBytes m a (emit_jmp_reg rbp) → decode m a ≡ some (CpuInstr.jmp_reg rbp, 3)
  unfolding emit_jmp_reg reg_instr
  decode-jmp_reg b =
      decode-extended m a 0xff 4 rbp _ (omega arith) (omega arith) (refl, refl, refl) refl b

  pub decode-call_reg :
      HasBytes m a (emit_call_reg rbp) → decode m a ≡ some (CpuInstr.call_reg rbp, 3)
  unfolding emit_call_reg reg_instr
  decode-call_reg b =
      decode-extended m a 0xff 2 rbp _ (omega arith) (omega arith) (refl, refl, refl) refl b

  pub decode-ret : HasBytes m a emit_ret → decode m a ≡ some (CpuInstr.ret, 1)
  unfolding emit_ret decode
  decode-ret (b₀, _) = rw b₀ refl

-- ===== src/X64/Branches.antt =====
-- Where the conditional jumps that are emitted lead.
use pcomp.Common.{
  ℕ, ◌+◌, ◌-◌, ◌^◌, ◌≤◌, ◌<◌, ◌≡◌, refl, List, [], ◌∷◌, Option, none, some, arith, ◌==◌,
  if◌then◌else◌,
}
use pcomp.Word.{IsU64, u32, u64}
use pcomp.Jit.{bytes_of}
use pcomp.X64.Encode.{
  emit_je_imm32, emit_jne_imm32, emit_jg_imm32, emit_jge_imm32, emit_jl_imm32, emit_jle_imm32,
  emit_jmp_imm32,
}
use pcomp.X64.Jit.{distance}
use pcomp.X64.Immediate.{le_value, le_value-bytes_of, sign_extend32}

-- Jcc rel32 (0F 80+cc) at the address `at`: the opcode's second byte, and the address that the jump
-- leads to, relative to the instruction behind it.
unfoldable pub decode_jcc : ℕ → List ℕ → Option (ℕ × ℕ)
decode_jcc at (f ∷ op ∷ a ∷ b ∷ c ∷ d ∷ []) =
    if f == 0x0f
    then some (op, u64 (at + 6 + sign_extend32 (le_value (a ∷ b ∷ c ∷ d ∷ []))))
    else none
decode_jcc at _ = none

-- The target is within 2 GiB of the instruction behind the jump.
abbrev pub IsNear : ℕ → ℕ → Type 0
IsNear va arch = (va < arch + 6 + 2 ^ 31) × (arch + 6 ≤ va + 2 ^ 31)

displacement :
    (va arch : ℕ)
    → IsU64 va
    → arch + 6 < 2 ^ 64
    → IsNear va arch
    → u64 (arch + 6 + sign_extend32 (u32 (distance va arch + 2 ^ 32 - 6))) ≡ va
unfolding sign_extend32
displacement va arch hv ha near = ground arith

pub jcc-decodes :
    (op va arch : ℕ)
    → IsU64 va
    → arch + 6 < 2 ^ 64
    → IsNear va arch
    → decode_jcc arch (0x0f ∷ op ∷ bytes_of 4 (u32 (distance va arch + 2 ^ 32 - 6))) ≡ some (op, va)
unfolding decode_jcc
jcc-decodes op va arch hv ha near =
    rw
      (
        le_value-bytes_of 4 (u32 (distance va arch + 2 ^ 32 - 6)) (omega arith),
        displacement va arch hv ha near,
      )
      refl

-- Placed at `arch` for a target within 2 GiB, each conditional jump leads to the target, under the
-- processor's condition of the same name: JE 84, JNE 85, JG 8F, JGE 8D, JL 8C, JLE 8E.
pub jcc-targets :
    (va arch : ℕ)
    → IsU64 va
    → arch + 6 < 2 ^ 64
    → IsNear va arch
    → (decode_jcc arch (emit_je_imm32 (distance va arch)) ≡ some (0x84, va))
      × (decode_jcc arch (emit_jne_imm32 (distance va arch)) ≡ some (0x85, va))
      × (decode_jcc arch (emit_jg_imm32 (distance va arch)) ≡ some (0x8f, va))
      × (decode_jcc arch (emit_jge_imm32 (distance va arch)) ≡ some (0x8d, va))
      × (decode_jcc arch (emit_jl_imm32 (distance va arch)) ≡ some (0x8c, va))
      × (decode_jcc arch (emit_jle_imm32 (distance va arch)) ≡ some (0x8e, va))
unfolding emit_je_imm32 emit_jne_imm32 emit_jg_imm32 emit_jge_imm32 emit_jl_imm32 emit_jle_imm32
jcc-targets va arch hv ha near = (
  jcc-decodes 0x84 va arch hv ha near,
  jcc-decodes 0x85 va arch hv ha near,
  jcc-decodes 0x8f va arch hv ha near,
  jcc-decodes 0x8d va arch hv ha near,
  jcc-decodes 0x8c va arch hv ha near,
  jcc-decodes 0x8e va arch hv ha near,
)

-- JMP rel32 (E9) at the address `at`: where it leads.
unfoldable pub decode_jmp : ℕ → List ℕ → Option ℕ
decode_jmp at (op ∷ a ∷ b ∷ c ∷ d ∷ []) =
    if op == 0xe9 then some (u64 (at + 5 + sign_extend32 (le_value (a ∷ b ∷ c ∷ d ∷ [])))) else none
decode_jmp at _ = none

forward :
    (va arch : ℕ)
    → IsU64 va
    → arch ≤ va
    → va < arch + 2 ^ 31
    → u64 (arch + 5 + sign_extend32 (u32 (u32 (va - arch) + 2 ^ 32 - 5))) ≡ va
unfolding sign_extend32
forward va arch hv lo hi = ground arith

pub jmp_imm32-target :
    (va arch : ℕ)
    → IsU64 va
    → arch ≤ va
    → va < arch + 2 ^ 31
    → decode_jmp arch (emit_jmp_imm32 (u32 (va - arch))) ≡ some va
unfolding decode_jmp emit_jmp_imm32
jmp_imm32-target va arch hv lo hi =
    rw
      (
        le_value-bytes_of 4 (u32 (u32 (va - arch) + 2 ^ 32 - 5)) (omega arith),
        forward va arch hv lo hi,
      )
      refl

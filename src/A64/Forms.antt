-- ===== src/A64/Forms.antt =====
-- The words with three registers, read as an AArch64 processor reads them: 11 bits of operation, the
-- second source, 6 bits of shift or extension, the first source, the destination. This reading
-- describes the architecture and not the repository.
use pcomp.Common.{ℕ, ◌+◌, ◌*◌, ◌/◌, ◌%◌, ◌^◌, ◌<◌, ◌≡◌, refl, arith, bit_or}
use pcomp.Common.Bits.{bit_or-add}
use pcomp.A64.Words.{
  sxtx, emit_adds_ereg, emit_subs_ereg, emit_and_sreg, emit_eor_sreg, emit_orn_sreg, emit_orr_sreg,
}

unfoldable pub decode_reg : ℕ → ℕ × ℕ × ℕ × ℕ × ℕ
decode_reg w = (w / 2 ^ 21, w / 2 ^ 16 % 32, w / 2 ^ 10 % 64, w / 2 ^ 5 % 32, w % 32)

word : ℕ → ℕ → ℕ → ℕ → ℕ → ℕ
word op rs₂ ext rs₁ rd = op * 2 ^ 21 + rs₂ * 2 ^ 16 + ext * 2 ^ 10 + rs₁ * 2 ^ 5 + rd

module _ (op rd rs₁ rs₂ : ℕ) (hd : rd < 32) (h₁ : rs₁ < 32) (h₂ : rs₂ < 32) where
  word-decodes :
      (ext : ℕ) → ext < 64 → decode_reg (word op rs₂ ext rs₁ rd) ≡ (op, rs₂, ext, rs₁, rd)
  unfolding decode_reg word
  word-decodes ext he = rw (f₁, f₂, f₃, f₄, f₅) refl
    where
      w : ℕ
      w = op * 2 ^ 21 + rs₂ * 2 ^ 16 + ext * 2 ^ 10 + rs₁ * 2 ^ 5 + rd

      f₁ : w / 2 ^ 21 ≡ op
      f₁ = omega arith

      f₂ : w / 2 ^ 16 % 32 ≡ rs₂
      f₂ = omega arith

      f₃ : w / 2 ^ 10 % 64 ≡ ext
      f₃ = omega arith

      f₄ : w / 2 ^ 5 % 32 ≡ rs₁
      f₄ = omega arith

      f₅ : w % 32 ≡ rd
      f₅ = omega arith

  sreg-eq :
      bit_or (bit_or (bit_or (op * 2 ^ 21) (rs₂ * 2 ^ 16)) (rs₁ * 2 ^ 5)) rd ≡ word op rs₂ 0 rs₁ rd
  unfolding word
  sreg-eq =
      rw
        (
          bit_or-add 21 op (op * 2 ^ 21) (rs₂ * 2 ^ 16) refl (omega arith),
          bit_or-add 16 (op * 32 + rs₂) (op * 2 ^ 21 + rs₂ * 2 ^ 16) (rs₁ * 2 ^ 5) (omega arith)
              (omega arith),
          bit_or-add 5 (op * 2 ^ 16 + rs₂ * 2 ^ 11 + rs₁) (op * 2 ^ 21 + rs₂ * 2 ^ 16 + rs₁ * 2 ^ 5)
              rd (omega arith) (omega arith),
        )
        (omega arith)

  ereg-eq :
      bit_or
        (bit_or (bit_or (bit_or (op * 2 ^ 21) (rs₂ * 2 ^ 16)) (sxtx * 2 ^ 13)) (rs₁ * 2 ^ 5))
        rd
      ≡ word op rs₂ 56 rs₁ rd
  unfolding word
  ereg-eq =
      rw
        (
          bit_or-add 21 op (op * 2 ^ 21) (rs₂ * 2 ^ 16) refl (omega arith),
          bit_or-add 16 (op * 32 + rs₂) (op * 2 ^ 21 + rs₂ * 2 ^ 16) (sxtx * 2 ^ 13) (omega arith)
              (omega arith),
          bit_or-add 13 (op * 2 ^ 8 + rs₂ * 2 ^ 3 + sxtx)
              (op * 2 ^ 21 + rs₂ * 2 ^ 16 + sxtx * 2 ^ 13) (rs₁ * 2 ^ 5) (omega arith)
              (omega arith),
          bit_or-add 5 (op * 2 ^ 16 + rs₂ * 2 ^ 11 + sxtx * 2 ^ 8 + rs₁)
              (op * 2 ^ 21 + rs₂ * 2 ^ 16 + sxtx * 2 ^ 13 + rs₁ * 2 ^ 5) rd (omega arith)
              (omega arith),
        )
        (omega arith)

-- For all registers, each emitter of a three-register instruction writes the word that the
-- processor reads as the operation it is named for with the registers given: AND, EOR, ORR and ORN
-- without a shift, ADDS and SUBS with the second source sign extended from 64 bits (111000).
pub register-decodes :
    (rd rs₁ rs₂ : ℕ)
    → rd < 32
    → rs₁ < 32
    → rs₂ < 32
    → (decode_reg (emit_and_sreg rd rs₁ rs₂) ≡ (0b10001010000, rs₂, 0, rs₁, rd))
      × (decode_reg (emit_eor_sreg rd rs₁ rs₂) ≡ (0b11001010000, rs₂, 0, rs₁, rd))
      × (decode_reg (emit_orr_sreg rd rs₁ rs₂) ≡ (0b10101010000, rs₂, 0, rs₁, rd))
      × (decode_reg (emit_orn_sreg rd rs₁ rs₂) ≡ (0b10101010001, rs₂, 0, rs₁, rd))
      × (decode_reg (emit_adds_ereg rd rs₁ rs₂) ≡ (0b10101011001, rs₂, 0b111000, rs₁, rd))
      × (decode_reg (emit_subs_ereg rd rs₁ rs₂) ≡ (0b11101011001, rs₂, 0b111000, rs₁, rd))
unfolding emit_and_sreg emit_eor_sreg emit_orr_sreg emit_orn_sreg emit_adds_ereg emit_subs_ereg
register-decodes rd rs₁ rs₂ hd h₁ h₂ = (
  sreg 0b10001010000,
  sreg 0b11001010000,
  sreg 0b10101010000,
  sreg 0b10101010001,
  ereg 0b10101011001,
  ereg 0b11101011001,
)
  where
    sreg :
        (op : ℕ)
        → decode_reg (bit_or (bit_or (bit_or (op * 2 ^ 21) (rs₂ * 2 ^ 16)) (rs₁ * 2 ^ 5)) rd)
          ≡ (op, rs₂, 0, rs₁, rd)
    sreg op =
        rw (sreg-eq op rd rs₁ rs₂ hd h₁ h₂) (word-decodes op rd rs₁ rs₂ hd h₁ h₂ 0 (omega arith))

    ereg :
        (op : ℕ)
        → decode_reg (
            bit_or
              (bit_or (bit_or (bit_or (op * 2 ^ 21) (rs₂ * 2 ^ 16)) (sxtx * 2 ^ 13)) (rs₁ * 2 ^ 5))
              rd)
          ≡ (op, rs₂, 0b111000, rs₁, rd)
    ereg op =
        rw (ereg-eq op rd rs₁ rs₂ hd h₁ h₂) (word-decodes op rd rs₁ rs₂ hd h₁ h₂ 56 (omega arith))

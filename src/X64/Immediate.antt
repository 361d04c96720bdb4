-- ===== src/X64/Immediate.antt =====
-- The value that `emit_mov_reg_imm` loads. It takes the short form, whose 32-bit immediate the
-- processor sign extends, whenever the upper half of the value is 0 or -1.
use native.Mathlib.Nat.{pow-suc}
use pcomp.Common.{
  ℕ, zero, suc, ◌+◌, ◌-◌, ◌*◌, ◌/◌, ◌%◌, ◌^◌, ◌≤◌, ◌<◌, ◌≡◌, refl, ◌↔◌, ◌⊎◌, List, [], ◌∷◌, Option,
  none, some, arith, ltb, ◌==◌, ◌&&◌, ◌||◌, if◌then◌else◌, bit_or, eq→==, Bool-cases, inl, inr,
}
use pcomp.Common.Tables.{all_below, table_eq}
use pcomp.Word.{IsU64, u32}
use pcomp.X64.Regs.{mod_r, reg_base}
use pcomp.Jit.{bytes_of}
use pcomp.X64.Encode.{emit_mov_reg_imm32, emit_mov_reg_imm64, emit_mov_reg_imm}
use pcomp.X64.Decoder.{wide, rm_field, rex_m-eq}

-- The number that little-endian bytes stand for.
abbrev pub le_value : List ℕ → ℕ
le_value [] = 0
le_value (b ∷ bs) = b + 256 * le_value bs

pub le_value-bytes_of : (n v : ℕ) → v < 256 ^ n → le_value (bytes_of n v) ≡ v
le_value-bytes_of zero v h = omega arith
le_value-bytes_of (suc n) v h =
    omega (arith, le_value-bytes_of n (v / 256) (omega (arith, pow-suc 256 n)))

-- What the processor makes of a 32-bit immediate in a 64-bit operation.
unfoldable pub sign_extend32 : ℕ → ℕ
sign_extend32 v = if ltb v (2 ^ 31) then v else v + 0xffff_ffff_0000_0000

-- MOV r/m64, imm32 (REX.W 0xC7 /0) and MOV r64, imm64 (REX.W B8+r): the register and its new value.
unfoldable pub decode_mov_imm : List ℕ → Option (ℕ × ℕ)
decode_mov_imm (rex ∷ op ∷ m ∷ a ∷ b ∷ c ∷ d ∷ []) =
    if wide rex && op == 0xc7 && m / 8 == 24
    then some (rm_field rex m, sign_extend32 (le_value (a ∷ b ∷ c ∷ d ∷ [])))
    else none
decode_mov_imm (rex ∷ op ∷ a ∷ b ∷ c ∷ d ∷ e ∷ f ∷ g ∷ h ∷ []) =
    if wide rex && op / 8 == 23
    then some (rm_field rex op, le_value (a ∷ b ∷ c ∷ d ∷ e ∷ f ∷ g ∷ h ∷ []))
    else none
decode_mov_imm _ = none

imm32_modrm : (r : ℕ) → r < 16 → bit_or mod_r (reg_base r) ≡ 192 + r % 8
unfolding all_below reg_base
imm32_modrm = table_eq 16 (λ r. bit_or mod_r (reg_base r)) (λ r. 192 + r % 8) refl

pub imm64_opcode : (r : ℕ) → r < 16 → bit_or 0xb8 (reg_base r) ≡ 184 + r % 8
unfolding all_below reg_base
imm64_opcode = table_eq 16 (λ r. bit_or 0xb8 (reg_base r)) (λ r. 184 + r % 8) refl

imm_fields :
    (r : ℕ)
    → r < 16
    → ((72 + r / 8) / 8 ≡ 9)
      × ((192 + r % 8) / 8 ≡ 24)
      × ((184 + r % 8) / 8 ≡ 23)
      × ((192 + r % 8) % 8 + 8 * ((72 + r / 8) % 2) ≡ r)
      × ((184 + r % 8) % 8 + 8 * ((72 + r / 8) % 2) ≡ r)
imm_fields r h = omega arith

imm32-decodes :
    (rd imm : ℕ)
    → rd < 16
    → imm < 2 ^ 32
    → decode_mov_imm (emit_mov_reg_imm32 rd imm) ≡ some (rd, sign_extend32 imm)
unfolding decode_mov_imm emit_mov_reg_imm32
imm32-decodes rd imm hd h =
    let (w, m, o, f, g) = imm_fields rd hd in
    rw (rex_m-eq rd hd, imm32_modrm rd hd)
      (rw (eq→== _ 9 w, eq→== _ 24 m, f, le_value-bytes_of 4 imm (omega arith)) refl)

imm64-decodes :
    (rd imm : ℕ) → rd < 16 → IsU64 imm → decode_mov_imm (emit_mov_reg_imm64 rd imm) ≡ some (rd, imm)
unfolding decode_mov_imm emit_mov_reg_imm64
imm64-decodes rd imm hd h =
    let (w, m, o, f, g) = imm_fields rd hd in
    rw (rex_m-eq rd hd, imm64_opcode rd hd)
      (rw (eq→== _ 9 w, eq→== _ 23 o, g, le_value-bytes_of 8 imm (omega arith)) refl)

-- The values that the short form cannot give back: bit 31 does not repeat the upper half.
abbrev pub IsMisloaded : ℕ → Type 0
IsMisloaded imm =
    ((2 ^ 31 ≤ imm) × (imm < 2 ^ 32))
    ⊎ ((0xffff_ffff_0000_0000 ≤ imm) × (imm < 0xffff_ffff_8000_0000))

-- What arrives for `imm`: the value itself, or one with the upper half set or cleared.
abbrev pub Arrives : ℕ → ℕ → Type 0
Arrives imm v =
    ((¬ IsMisloaded imm) × (v ≡ imm))
    ⊎ (((2 ^ 31 ≤ imm) × (imm < 2 ^ 32) × (v ≡ imm + 0xffff_ffff_0000_0000))
        ⊎ ((0xffff_ffff_0000_0000 ≤ imm)
            × (imm < 0xffff_ffff_8000_0000)
            × (v ≡ imm - 0xffff_ffff_0000_0000)))

-- `emit_mov_reg_imm` writes an instruction that loads `rd`, and the value loaded is `imm` exactly
-- when `imm` is not misloaded: a value from 2^31 to 2^32 - 1 arrives with its upper half set, and
-- one from 2^64 - 2^32 to 2^64 - 2^31 - 1 with its upper half cleared.
pub mov_reg_imm-loads :
    (rd imm : ℕ)
    → rd < 16
    → IsU64 imm
    → (v : ℕ) × (decode_mov_imm (emit_mov_reg_imm rd imm) ≡ some (rd, v))
      × ((v ≡ imm) ↔ ¬ IsMisloaded imm)
      × Arrives imm v
unfolding emit_mov_reg_imm
mov_reg_imm-loads rd imm hd h =
    elim (Bool-cases (imm / 2 ^ 32 == 0 || imm / 2 ^ 32 == 0xffff_ffff)) [
      | inl short ↦ (
        sign_extend32 (u32 imm),
        rw short (imm32-decodes rd (u32 imm) hd (omega arith)),
        unfold sign_extend32 in ground arith,
        unfold sign_extend32 in ground arith,
      )
      | inr long ↦
          (imm, rw long (imm64-decodes rd imm hd h), ground arith, inl (ground arith, refl))
    ]

-- ===== src/X64/Decoder.antt =====
-- How an x86-64 processor reads the forms that are emitted, after the instruction set manual: a REX
-- prefix 0100WRXB with W set, an opcode, and a ModRM byte (2 bits of mode, 3 of `reg`, 3 of `r/m`)
-- whose fields R and B extend to four bits. This describes the architecture and not the repository.
use pcomp.Common.{
  ℕ, ◌+◌, ◌*◌, ◌/◌, ◌%◌, ◌<◌, ◌≡◌, refl, Bool, List, [], ◌∷◌, Option, none, some, ◌==◌, ◌&&◌,
  if◌then◌else◌, bit_or,
}
use pcomp.Common.Tables.{all_below, table_eq, table₂_eq}
use pcomp.X64.Regs.{rex_w, mod_r, mod_b32d, reg_base, rex_adj_m, rex_adj_rm}
use pcomp.X64.Encode.{modrm}

-- The prefix is 01001R0B.
abbrev pub wide : ℕ → Bool
wide rex = rex / 8 == 9

abbrev reg_field : ℕ → ℕ → ℕ
reg_field rex m = m / 8 % 8 + 8 * (rex / 4 % 2)

abbrev pub rm_field : ℕ → ℕ → ℕ
rm_field rex m = m % 8 + 8 * (rex % 2)

-- A register-to-register instruction: its opcode and the registers in `reg` and `r/m`.
unfoldable pub decode_rr : List ℕ → Option (ℕ × ℕ × ℕ)
decode_rr (rex ∷ op ∷ m ∷ []) =
    if wide rex && m / 64 == 3 then some (op, reg_field rex m, rm_field rex m) else none
decode_rr _ = none

-- A register and a memory operand at a base register and a 32-bit displacement: opcode, `reg`,
-- base, displacement. In this mode an `r/m` of 4 announces a SIB byte, of which the form without
-- index (scale 0, index 4) is read.
unfoldable pub decode_mem : List ℕ → Option (ℕ × ℕ × ℕ × List ℕ)
decode_mem (rex ∷ op ∷ m ∷ d₀ ∷ d₁ ∷ d₂ ∷ d₃ ∷ []) =
    if m % 8 == 4
    then none
    else if wide rex && m / 64 == 2
    then some (op, reg_field rex m, rm_field rex m, d₀ ∷ d₁ ∷ d₂ ∷ d₃ ∷ [])
    else none
decode_mem (rex ∷ op ∷ m ∷ s ∷ d₀ ∷ d₁ ∷ d₂ ∷ d₃ ∷ []) =
    if wide rex && m / 64 == 2 && m % 8 == 4 && s / 8 == 4
    then some (op, reg_field rex m, rm_field rex s, d₀ ∷ d₁ ∷ d₂ ∷ d₃ ∷ [])
    else none
decode_mem _ = none

-- The emitted bytes as arithmetic, for all 16 registers.
pub rex_rm-eq :
    (r m : ℕ) → r < 16 → m < 16 → bit_or rex_w (rex_adj_rm r m) ≡ 72 + 4 * (r / 8) + m / 8
unfolding all_below rex_adj_rm reg_base
rex_rm-eq =
    table₂_eq 16 16 (λ r m. bit_or rex_w (rex_adj_rm r m)) (λ r m. 72 + 4 * (r / 8) + m / 8) refl

pub rex_m-eq : (m : ℕ) → m < 16 → bit_or rex_w (rex_adj_m m) ≡ 72 + m / 8
unfolding all_below rex_adj_m reg_base
rex_m-eq = table_eq 16 (λ m. bit_or rex_w (rex_adj_m m)) (λ m. 72 + m / 8) refl

pub modrm_r-eq : (r m : ℕ) → r < 16 → m < 16 → modrm mod_r r m ≡ 192 + 8 * (r % 8) + m % 8
unfolding all_below reg_base
modrm_r-eq = table₂_eq 16 16 (modrm mod_r) (λ r m. 192 + 8 * (r % 8) + m % 8) refl

pub modrm_b32d-eq : (r m : ℕ) → r < 16 → m < 16 → modrm mod_b32d r m ≡ 128 + 8 * (r % 8) + m % 8
unfolding all_below reg_base
modrm_b32d-eq = table₂_eq 16 16 (modrm mod_b32d) (λ r m. 128 + 8 * (r % 8) + m % 8) refl

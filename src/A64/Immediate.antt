-- ===== src/A64/Immediate.antt =====
-- `AArch64JIT::emit_mov_reg_imm`: at most four words that load any 64-bit value.
use pcomp.Common.{
  ℕ, ◌+◌, ◌*◌, ◌/◌, ◌%◌, ◌^◌, ◌≤◌, ◌<◌, ◌≡◌, refl, ◌∙◌, ap, List, [], ◌∷◌, length, some, arith, ltb,
  ◌==◌, if◌then◌else◌, bit_or, Bool-cases, inl, inr, eq→==, true,
}
use pcomp.Common.Bits.{bit_or-add}
use pcomp.Word.{IsU64}
use pcomp.A64.Bits.{movk_bits}
use pcomp.A64.Words.{emit_movz, emit_movk}
use pcomp.A64.Decoder.{insert, wide, wides}

-- `imm >>= 16` on `int64_t`
unfoldable shift_right16 : ℕ → ℕ
shift_right16 imm = if ltb imm (2 ^ 63) then imm / 2 ^ 16 else imm / 2 ^ 16 + 0xffff_0000_0000_0000

-- `(int16_t) (imm & 0xffff)`
abbrev partial_imm : ℕ → ℕ
partial_imm imm = imm % 2 ^ 16

unfoldable pub emit_mov_reg_imm : ℕ → ℕ → List ℕ
unfolding shift_right16
emit_mov_reg_imm rd imm =
    let imm₁ = shift_right16 imm in
    let imm₂ = shift_right16 imm₁ in
    let imm₃ = shift_right16 imm₂ in
    emit_movz rd 0 (partial_imm imm)
    ∷ (if imm₁ == 0
        then []
        else emit_movk rd 16 (partial_imm imm₁)
          ∷ (if imm₂ == 0
              then []
              else emit_movk rd 32 (partial_imm imm₂)
                ∷ (if imm₃ == 0 then [] else emit_movk rd 48 (partial_imm imm₃) ∷ [])))

-- The fields of a word do not overlap.
word-eq :
    (base hw i rd : ℕ)
    → hw < 4
    → i < 2 ^ 16
    → rd < 32
    → bit_or (bit_or (bit_or (base * 2 ^ 23) (hw * 2 ^ 21)) (i * 2 ^ 5)) rd
      ≡ base * 2 ^ 23 + hw * 2 ^ 21 + i * 2 ^ 5 + rd
word-eq base hw i rd hh hi hr =
    rw
      (
        bit_or-add 23 base (base * 2 ^ 23) (hw * 2 ^ 21) refl (omega arith),
        bit_or-add 21 (base * 4 + hw) (base * 2 ^ 23 + hw * 2 ^ 21) (i * 2 ^ 5) (omega arith)
            (omega arith),
      )
      (bit_or-add 5 (base * 2 ^ 18 + hw * 2 ^ 16 + i) (base * 2 ^ 23 + hw * 2 ^ 21 + i * 2 ^ 5) rd
        (omega arith) (omega arith))

fields :
    (base hw i rd : ℕ)
    → hw < 4
    → i < 2 ^ 16
    → rd < 32
    → ((base * 2 ^ 23 + hw * 2 ^ 21 + i * 2 ^ 5 + rd) / 2 ^ 23 ≡ base)
      × ((base * 2 ^ 23 + hw * 2 ^ 21 + i * 2 ^ 5 + rd) / 2 ^ 21 % 4 ≡ hw)
      × ((base * 2 ^ 23 + hw * 2 ^ 21 + i * 2 ^ 5 + rd) / 2 ^ 5 % 2 ^ 16 ≡ i)
      × ((base * 2 ^ 23 + hw * 2 ^ 21 + i * 2 ^ 5 + rd) % 2 ^ 5 ≡ rd)
fields base hw i rd hh hi hr = omega arith

module _ (rd : ℕ) (hr : rd < 32) (v i : ℕ) (hi : i < 2 ^ 16) where
  movz-wide : wide rd v (emit_movz rd 0 i) ≡ some i
  unfolding wide emit_movz
  movz-wide =
      let (f, g, k, l) = fields 0b110100101 0 i rd (omega arith) hi hr in
      rw (word-eq 0b110100101 0 i rd (omega arith) hi hr)
        (rw (f, l, eq→== rd rd refl, g, k) (ap some (omega arith)))

  movk-wide :
      (hw : ℕ)
      → hw < 4
      → wide rd v (bit_or (bit_or (bit_or movk_bits (hw * 2 ^ 21)) (i * 2 ^ 5)) rd)
        ≡ some (insert v hw i)
  unfolding wide
  movk-wide hw hh =
      let (f, g, k, l) = fields 0b111100101 hw i rd hh hi hr in
      rw (word-eq 0b111100101 hw i rd hh hi hr) (rw (f, l, eq→== rd rd refl, g, k) refl)

wides-cons :
    (rd v v' w : ℕ) (ws : List ℕ) → wide rd v w ≡ some v' → wides rd v (w ∷ ws) ≡ wides rd v' ws
unfolding wides
wides-cons rd v v' w ws e = rw (wides, e) refl

wides-nil : (rd v imm : ℕ) → v ≡ imm → wides rd v [] ≡ some imm
unfolding wides
wides-nil rd v imm e = ap some e

==→eq : (a b : ℕ) → (a == b) ≡ true → a ≡ b
==→eq a b h = ground arith

-- What the arithmetic shift keeps: the bits that move down, and never less than the plain shift.
shift-facts :
    (imm : ℕ)
    → IsU64 imm
    → (shift_right16 imm % 2 ^ 48 ≡ imm / 2 ^ 16)
      × (imm / 2 ^ 16 ≤ shift_right16 imm)
      × IsU64 (shift_right16 imm)
unfolding shift_right16
shift-facts imm h = ground arith

insert₁ : (imm i : ℕ) → i ≡ imm / 2 ^ 16 % 2 ^ 16 → insert (imm % 2 ^ 16) 1 i ≡ imm % 2 ^ 32
insert₁ imm i e = omega arith

insert₂ : (imm i : ℕ) → i ≡ imm / 2 ^ 32 % 2 ^ 16 → insert (imm % 2 ^ 32) 2 i ≡ imm % 2 ^ 48
insert₂ imm i e = omega arith

insert₃ : (imm i : ℕ) → IsU64 imm → i ≡ imm / 2 ^ 48 % 2 ^ 16 → insert (imm % 2 ^ 48) 3 i ≡ imm
insert₃ imm i h e = omega arith

-- The value after each word, for the pieces `i` that the words hold.
module _ (rd : ℕ) (hr : rd < 32) (imm : ℕ) (h : IsU64 imm) (ws : List ℕ) (i : ℕ) where
  first : (v : ℕ) → wides rd v (emit_movz rd 0 (imm % 2 ^ 16) ∷ ws) ≡ wides rd (imm % 2 ^ 16) ws
  first v =
      wides-cons rd v (imm % 2 ^ 16) (emit_movz rd 0 (imm % 2 ^ 16)) ws
        (movz-wide rd hr v (imm % 2 ^ 16) (omega arith))

  second :
      i % 2 ^ 16 ≡ imm / 2 ^ 16 % 2 ^ 16
      → wides rd (imm % 2 ^ 16) (emit_movk rd 16 (i % 2 ^ 16) ∷ ws) ≡ wides rd (imm % 2 ^ 32) ws
  unfolding emit_movk
  second e = wides-cons rd (imm % 2 ^ 16) (imm % 2 ^ 32) (emit_movk rd 16 (i % 2 ^ 16)) ws (
      movk-wide rd hr (imm % 2 ^ 16) (i % 2 ^ 16) (omega arith) 1 (omega arith)
      ∙ ap some (insert₁ imm (i % 2 ^ 16) e))

  third :
      i % 2 ^ 16 ≡ imm / 2 ^ 32 % 2 ^ 16
      → wides rd (imm % 2 ^ 32) (emit_movk rd 32 (i % 2 ^ 16) ∷ ws) ≡ wides rd (imm % 2 ^ 48) ws
  unfolding emit_movk
  third e = wides-cons rd (imm % 2 ^ 32) (imm % 2 ^ 48) (emit_movk rd 32 (i % 2 ^ 16)) ws (
      movk-wide rd hr (imm % 2 ^ 32) (i % 2 ^ 16) (omega arith) 2 (omega arith)
      ∙ ap some (insert₂ imm (i % 2 ^ 16) e))

  fourth :
      i % 2 ^ 16 ≡ imm / 2 ^ 48 % 2 ^ 16
      → wides rd (imm % 2 ^ 48) (emit_movk rd 48 (i % 2 ^ 16) ∷ ws) ≡ wides rd imm ws
  unfolding emit_movk
  fourth e = wides-cons rd (imm % 2 ^ 48) imm (emit_movk rd 48 (i % 2 ^ 16)) ws (
      movk-wide rd hr (imm % 2 ^ 48) (i % 2 ^ 16) (omega arith) 3 (omega arith)
      ∙ ap some (insert₃ imm (i % 2 ^ 16) h e))

-- For every value, the code loads exactly that value, whatever the register held before, and takes
-- at most four words.
pub mov_reg_imm-value :
    (rd v imm : ℕ)
    → rd < 32
    → IsU64 imm
    → (wides rd v (emit_mov_reg_imm rd imm) ≡ some imm) × (length (emit_mov_reg_imm rd imm) ≤ 4)
unfolding emit_mov_reg_imm emit_movk
mov_reg_imm-value rd v imm hr h =
    let i₁ : ℕ = shift_right16 imm in
    let i₂ : ℕ = shift_right16 i₁ in
    let i₃ : ℕ = shift_right16 i₂ in
    let (m₁, l₁, u₁) = shift-facts imm h in
    let (m₂, l₂, u₂) = shift-facts i₁ u₁ in
    let (m₃, l₃, u₃) = shift-facts i₂ u₂ in
    let f₁ : i₁ % 2 ^ 16 ≡ imm / 2 ^ 16 % 2 ^ 16 = omega arith in
    let f₂ : i₂ % 2 ^ 16 ≡ imm / 2 ^ 32 % 2 ^ 16 = omega arith in
    let f₃ : i₃ % 2 ^ 16 ≡ imm / 2 ^ 48 % 2 ^ 16 = omega arith in
    elim (Bool-cases (i₁ == 0)) [
      | inl z₁ ↦ (
        rw z₁ (
            first rd hr imm h [] 0 v
            ∙ wides-nil rd (imm % 2 ^ 16) imm (omega (arith, l₁, ==→eq i₁ 0 z₁))),
        rw z₁ (omega arith),
      )
      | inr n₁ ↦ elim (Bool-cases (i₂ == 0)) [
        | inl z₂ ↦ (
          rw (n₁, z₂)
              (first rd hr imm h _ 0 v
                ∙ second rd hr imm h [] i₁ f₁
                ∙ wides-nil rd (imm % 2 ^ 32) imm (omega (arith, l₁, l₂, ==→eq i₂ 0 z₂))),
          rw (n₁, z₂) (omega arith),
        )
        | inr n₂ ↦ elim (Bool-cases (i₃ == 0)) [
          | inl z₃ ↦ (
            rw (n₁, n₂, z₃)
                (first rd hr imm h _ 0 v
                  ∙ second rd hr imm h _ i₁ f₁
                  ∙ third rd hr imm h [] i₂ f₂
                  ∙ wides-nil rd (imm % 2 ^ 48) imm (omega (arith, l₁, l₂, l₃, ==→eq i₃ 0 z₃))),
            rw (n₁, n₂, z₃) (omega arith),
          )
          | inr n₃ ↦ (
            rw (n₁, n₂, n₃)
                (first rd hr imm h _ 0 v
                  ∙ second rd hr imm h _ i₁ f₁
                  ∙ third rd hr imm h _ i₂ f₂
                  ∙ fourth rd hr imm h [] i₃ f₃
                  ∙ wides-nil rd imm imm refl),
            rw (n₁, n₂, n₃) (omega arith),
          )
        ]
      ]
    ]

pub mov_reg_imm-length : (rd imm : ℕ) → length (emit_mov_reg_imm rd imm) ≤ 4
unfolding emit_mov_reg_imm
mov_reg_imm-length rd imm = ground arith

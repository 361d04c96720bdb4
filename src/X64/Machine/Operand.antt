-- ===== src/X64/Machine/Operand.antt =====
-- What the processor decodes where the emitted loads of an immediate, stack instructions and
-- conditional jumps stand.
use pcomp.Common.{
  ℕ, ◌+◌, ◌/◌, ◌%◌, ◌^◌, ◌<◌, ◌≤◌, ◌≡◌, refl, ap, sym, ◌∙◌, true, false, [], ◌∷◌, ◌++◌, length,
  some, arith, ◌==◌, ◌||◌, bit_or, Bool-cases, inl, inr, eq→==, ne→==, ◌⊎◌,
}
use pcomp.Common.Tables.{all_below, table_eq}
use pcomp.Word.{IsU64, u32}
use pcomp.Memory.{Bytes, HasBytes}
use pcomp.X64.Regs.{rex_b, reg_base}
use pcomp.X64.Encode.{
  emit_mov_reg_imm32, emit_mov_reg_imm64, emit_mov_reg_imm, emit_push_reg, emit_pop_reg, prefix_b,
}
use pcomp.X64.Immediate.{decode_mov_imm, IsMisloaded, mov_reg_imm-loads, imm64_opcode}
use pcomp.X64.Machine.{CpuInstr, mov_imm, push, pop, stack_instr, decode}
use pcomp.X64.Forms.{reg_base-mod}
use pcomp.X64.Machine.Code.{rex_m-tested}

module _ (m : Bytes) (a r v : ℕ) (hr : r < 16) where
  decode-imm32 :
      (imm : ℕ)
      → decode_mov_imm (emit_mov_reg_imm32 r imm) ≡ some (r, v)
      → HasBytes m a (emit_mov_reg_imm32 r imm)
      → decode m a ≡ some (mov_imm r v, 7)
  unfolding decode emit_mov_reg_imm32
  decode-imm32 imm e (b₀, (b₁, (b₂, (b₃, (b₄, (b₅, (b₆, _))))))) =
      rw (b₀, b₁, b₂, b₃, b₄, b₅, b₆) (rw (rex_m-tested r hr, e) refl)

  decode-imm64 :
      (imm : ℕ)
      → decode_mov_imm (emit_mov_reg_imm64 r imm) ≡ some (r, v)
      → HasBytes m a (emit_mov_reg_imm64 r imm)
      → decode m a ≡ some (mov_imm r v, 10)
  unfolding decode emit_mov_reg_imm64
  decode-imm64 imm e (b₀, (b₁, (b₂, (b₃, (b₄, (b₅, (b₆, (b₇, (b₈, (b₉, _)))))))))) =
      let not_stack : (bit_or 0xb8 (reg_base r) / 16 == 5) ≡ false =
        rw (imm64_opcode r hr) (ne→== ((184 + r % 8) / 16) 5 (omega arith)) in
      let is_imm64 : (bit_or 0xb8 (reg_base r) / 8 == 23) ≡ true =
        rw (imm64_opcode r hr) (eq→== ((184 + r % 8) / 8) 23 (omega arith)) in
      rw (b₀, b₁, b₂, b₃, b₄, b₅, b₆, b₇, b₈, b₉)
        (rw (rex_m-tested r hr, not_stack, is_imm64, e) refl)

loads-exactly :
    (r imm : ℕ)
    → r < 16
    → IsU64 imm
    → ¬ IsMisloaded imm
    → decode_mov_imm (emit_mov_reg_imm r imm) ≡ some (r, imm)
loads-exactly r imm hr hi ok =
    let (v, e, exact, _) = mov_reg_imm-loads r imm hr hi in
    e ∙ ap (λ (w : ℕ). some (r, w)) (exact.1 ok)

-- A load of an immediate that arrives as it is.
pub decode-mov_imm :
    (m : Bytes) (a r imm : ℕ)
    → r < 16
    → IsU64 imm
    → ¬ IsMisloaded imm
    → HasBytes m a (emit_mov_reg_imm r imm)
    → decode m a ≡ some (mov_imm r imm, length (emit_mov_reg_imm r imm))
unfolding emit_mov_reg_imm emit_mov_reg_imm32 emit_mov_reg_imm64
decode-mov_imm m a r imm hr hi ok h =
    let loads : decode_mov_imm (emit_mov_reg_imm r imm) ≡ some (r, imm) =
      loads-exactly r imm hr hi ok in
    elim (Bool-cases (imm / 2 ^ 32 == 0 || imm / 2 ^ 32 == 0xffff_ffff)) [
      | inl short ↦
          rw short (decode-imm32 m a r imm hr (u32 imm) (rw short at loads) (rw short at h))
      | inr long ↦ rw long (decode-imm64 m a r imm hr imm (rw long at loads) (rw long at h))
    ]

prefix_cases :
    (r : ℕ) → r < 16 → ((r / 8 ≡ 0) × (prefix_b r ≡ [])) ⊎ ((r / 8 ≡ 1) × (prefix_b r ≡ rex_b ∷ []))
unfolding prefix_b
prefix_cases r h = elim (low_or_high r h) [
  | inl low ↦ inl (omega arith, rw (eq→== (reg_base r) r (reg_base-mod r h ∙ omega arith)) refl)
  | inr high ↦
      inr (
        omega arith,
        rw (ne→== (reg_base r) r (λ q. differs r high (sym q ∙ reg_base-mod r h))) refl,
      )
]
  where
    low_or_high : (r : ℕ) → r < 16 → (r < 8) ⊎ (8 ≤ r)
    low_or_high r h = omega arith

    differs : (r : ℕ) → 8 ≤ r → r ≡ r % 8 → ⊥
    differs r h e = omega arith

push_opcode : (r : ℕ) → r < 16 → bit_or 0x50 (reg_base r) ≡ 80 + r % 8
unfolding all_below reg_base
push_opcode = table_eq 16 (λ r. bit_or 0x50 (reg_base r)) (λ r. 80 + r % 8) refl

pop_opcode : (r : ℕ) → r < 16 → bit_or 0x58 (reg_base r) ≡ 88 + r % 8
unfolding all_below reg_base
pop_opcode = table_eq 16 (λ r. bit_or 0x58 (reg_base r)) (λ r. 88 + r % 8) refl

-- A stack instruction with its opcode `op`, and the prefix where its register has one.
decode-stack :
    (m : Bytes) (a op r : ℕ) (i : CpuInstr)
    → r < 16
    → op / 16 ≡ 5
    → stack_instr op (r / 8) ≡ i
    → HasBytes m a (prefix_b r ++ op ∷ [])
    → decode m a ≡ some (i, length (prefix_b r ++ op ∷ []))
unfolding decode
decode-stack m a op r i hr five e h = elim (prefix_cases r hr) [
  | inl (zero, p) ↦
      let (b₀, _) : HasBytes m a (op ∷ []) = rw p at h in
      rw (p, b₀) (rw (ne→== (op / 16) 4 (omega arith), eq→== (op / 16) 5 five, rw zero at e) refl)
  | inr (one, p) ↦
      let (b₀, (b₁, _)) : HasBytes m a (rex_b ∷ op ∷ []) = rw p at h in
      rw (p, b₀, b₁) (rw (eq→== (op / 16) 5 five, rw one at e) refl)
]

stack_instr-push : (r : ℕ) → r < 16 → stack_instr (80 + r % 8) (r / 8) ≡ push r
unfolding stack_instr
stack_instr-push r h = rw (eq→== ((80 + r % 8) / 8) 10 (omega arith)) (ap push (omega arith))

stack_instr-pop : (r : ℕ) → r < 16 → stack_instr (88 + r % 8) (r / 8) ≡ pop r
unfolding stack_instr
stack_instr-pop r h = rw (ne→== ((88 + r % 8) / 8) 10 (omega arith)) (ap pop (omega arith))

pub decode-push :
    (m : Bytes) (a r : ℕ)
    → r < 16
    → HasBytes m a (emit_push_reg r)
    → decode m a ≡ some (push r, length (emit_push_reg r))
unfolding emit_push_reg
decode-push m a r h b =
    decode-stack m a (bit_or 0x50 (reg_base r)) r (push r) h (rw (push_opcode r h) (omega arith))
      (rw (push_opcode r h) (stack_instr-push r h)) b

pub decode-pop :
    (m : Bytes) (a r : ℕ)
    → r < 16
    → HasBytes m a (emit_pop_reg r)
    → decode m a ≡ some (pop r, length (emit_pop_reg r))
unfolding emit_pop_reg
decode-pop m a r h b =
    decode-stack m a (bit_or 0x58 (reg_base r)) r (pop r) h (rw (pop_opcode r h) (omega arith))
      (rw (pop_opcode r h) (stack_instr-pop r h)) b

-- ===== src/X64/Forms.antt =====
-- Every register form that the JIT emits is decoded to the instruction and the registers meant.
use pcomp.Common.{
  ℕ, ◌+◌, ◌*◌, ◌/◌, ◌%◌, ◌<◌, ◌≡◌, refl, sym, ◌∙◌, [], ◌∷◌, ◌++◌, some, arith, bit_or, eq→==, ne→==,
  ◌≢◌, ◌⊎◌, inl, inr,
}
use pcomp.Common.Tables.{all_below, table_eq}
use pcomp.X64.Regs.{rex_w, mod_r, mod_b32d, reg_base, rex_adj_rm}
use pcomp.Jit.{bytes_of}
use pcomp.X64.Encode.{
  modrm, sib, emit_add_reg_reg, emit_and_reg_reg, emit_or_reg_reg, emit_sub_reg_reg,
  emit_xor_reg_reg, emit_mov_reg_reg, emit_cmp_reg_reg, emit_mov_b32d_reg, emit_mov_reg_b32d,
}
use pcomp.X64.Decoder.{decode_rr, decode_mem, rex_rm-eq, modrm_r-eq, modrm_b32d-eq}

eq_or_ne : (a b : ℕ) → (a ≡ b) ⊎ (a ≢ b)
eq_or_ne a b = omega arith

-- The registers of a form, from its prefix and ModRM byte.
fields :
    (r m : ℕ)
    → r < 16
    → m < 16
    → ((72 + 4 * (r / 8) + m / 8) / 8 ≡ 9)
      × ((192 + 8 * (r % 8) + m % 8) / 64 ≡ 3)
      × ((192 + 8 * (r % 8) + m % 8) / 8 % 8 + 8 * ((72 + 4 * (r / 8) + m / 8) / 4 % 2) ≡ r)
      × ((192 + 8 * (r % 8) + m % 8) % 8 + 8 * ((72 + 4 * (r / 8) + m / 8) % 2) ≡ m)
fields r m hr hm = omega arith

pub form-decodes :
    (op r m : ℕ)
    → r < 16
    → m < 16
    → decode_rr (bit_or rex_w (rex_adj_rm r m) ∷ op ∷ modrm mod_r r m ∷ []) ≡ some (op, r, m)
unfolding decode_rr
form-decodes op r m hr hm =
    let (w, d, fr, fm) = fields r m hr hm in
    rw (rex_rm-eq r m hr hm, modrm_r-eq r m hr hm) (rw (eq→== _ 9 w, eq→== _ 3 d, fr, fm) refl)

-- For every pair of registers, each two-register emitter writes an instruction that a processor
-- reads as the operation it is named for, from `rs` to `rd` (a comparison of `rd` with `rs`): opcodes
-- 03, 23, 0B, 2B, 33 and 8B write to the register in `reg`, and 39 compares `r/m` with `reg`.
pub reg_reg-decodes :
    (rd rs : ℕ)
    → rd < 16
    → rs < 16
    → (decode_rr (emit_add_reg_reg rd rs) ≡ some (0x03, rd, rs))
      × (decode_rr (emit_and_reg_reg rd rs) ≡ some (0x23, rd, rs))
      × (decode_rr (emit_or_reg_reg rd rs) ≡ some (0x0b, rd, rs))
      × (decode_rr (emit_sub_reg_reg rd rs) ≡ some (0x2b, rd, rs))
      × (decode_rr (emit_xor_reg_reg rd rs) ≡ some (0x33, rd, rs))
      × (decode_rr (emit_mov_reg_reg rd rs) ≡ some (0x8b, rd, rs))
      × (decode_rr (emit_cmp_reg_reg rd rs) ≡ some (0x39, rs, rd))
unfolding emit_add_reg_reg emit_and_reg_reg emit_or_reg_reg emit_sub_reg_reg emit_xor_reg_reg
    emit_mov_reg_reg emit_cmp_reg_reg
reg_reg-decodes rd rs hd hs = (
  form-decodes 0x03 rd rs hd hs,
  form-decodes 0x23 rd rs hd hs,
  form-decodes 0x0b rd rs hd hs,
  form-decodes 0x2b rd rs hd hs,
  form-decodes 0x33 rd rs hd hs,
  form-decodes 0x8b rd rs hd hs,
  form-decodes 0x39 rs rd hs hd,
)

pub reg_base-mod : (r : ℕ) → r < 16 → reg_base r ≡ r % 8
unfolding all_below reg_base
reg_base-mod = table_eq 16 reg_base (λ r. r % 8) refl

pub sib_cases : (b : ℕ) → b < 8 → ((b ≡ 4) × (sib b ≡ 0x24 ∷ [])) ⊎ ((b ≢ 4) × (sib b ≡ []))
unfolding sib
sib_cases b h = elim (eq_or_ne b 4) [
  | inl e ↦ inl (e, rw e refl)
  | inr ne ↦ inr (ne, rw (ne→== b 4 ne, ne→== b 12 (omega arith)) refl)
]

-- Prefix and ModRM byte of a memory form.
pub mem_fields :
    (r m : ℕ)
    → r < 16
    → m < 16
    → ((72 + 4 * (r / 8) + m / 8) / 8 ≡ 9)
      × ((128 + 8 * (r % 8) + m % 8) / 64 ≡ 2)
      × ((128 + 8 * (r % 8) + m % 8) % 8 ≡ m % 8)
      × ((128 + 8 * (r % 8) + m % 8) / 8 % 8 + 8 * ((72 + 4 * (r / 8) + m / 8) / 4 % 2) ≡ r)
      × (m % 8 + 8 * ((72 + 4 * (r / 8) + m / 8) % 2) ≡ m)
mem_fields r m hr hm = omega arith

with_sib : (low m rex : ℕ) → low ≡ 4 → low + 8 * (rex % 2) ≡ m → 4 + 8 * (rex % 2) ≡ m
with_sib low m rex four e = rw (← four) e

pub mem_form-decodes :
    (op r m d : ℕ)
    → r < 16
    → m < 16
    → decode_mem (
        bit_or rex_w (rex_adj_rm r m)
        ∷ op
        ∷ modrm mod_b32d r m
        ∷ (sib (reg_base m) ++ bytes_of 4 d))
      ≡ some (op, r, m, bytes_of 4 d)
unfolding decode_mem
mem_form-decodes op r m d hr hm =
    let (w, k, low, fr, fm) = mem_fields r m hr hm in
    elim (sib_cases (m % 8) (omega arith)) [
      | inl (four, s) ↦
          rw (rex_rm-eq r m hr hm, modrm_b32d-eq r m hr hm, reg_base-mod m hm, s)
            (rw
              (
                eq→== _ 9 w,
                eq→== _ 2 k,
                eq→== _ 4 (low ∙ four),
                fr,
                with_sib (m % 8) m (72 + 4 * (r / 8) + m / 8) four fm,
              )
              refl)
      | inr (other, s) ↦
          rw (rex_rm-eq r m hr hm, modrm_b32d-eq r m hr hm, reg_base-mod m hm, s)
            (rw
              (ne→== _ 4 (λ q. other (sym low ∙ q)), eq→== _ 9 w, eq→== _ 2 k, fr, rw (← low) at fm)
              refl)
    ]

-- For every pair of registers and every displacement, also with the bases `RSP` and `R12` that want
-- a SIB byte, the two memory emitters write the 64-bit load and store that are meant: opcode 8B
-- loads and 89 stores the register, at the base register plus the displacement.
pub memory-decodes :
    (r base d : ℕ)
    → r < 16
    → base < 16
    → (decode_mem (emit_mov_reg_b32d r base d) ≡ some (0x8b, r, base, bytes_of 4 d))
      × (decode_mem (emit_mov_b32d_reg base d r) ≡ some (0x89, r, base, bytes_of 4 d))
unfolding emit_mov_reg_b32d emit_mov_b32d_reg
memory-decodes r base d hr hb =
    (mem_form-decodes 0x8b r base d hr hb, mem_form-decodes 0x89 r base d hr hb)

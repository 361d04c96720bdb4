-- ===== src/X64/Machine/Code.antt =====
-- What the processor decodes where the emitted bytes stand.
use pcomp.Common.{
  ℕ, ◌+◌, ◌*◌, ◌/◌, ◌%◌, ◌<◌, ◌≡◌, refl, true, false, List, [], ◌∷◌, ◌++◌, length, some, arith,
  ◌==◌, bit_or, eq→==, ne→==, inl, inr,
}
use pcomp.Memory.{Bytes, HasBytes}
use pcomp.Jit.{◌>>=◌, bytes_of}
use pcomp.X64.Regs.{rex_w, mod_r, mod_b32d, reg_base, rex_adj_m, rex_adj_rm}
use pcomp.X64.Encode.{modrm, sib}
use pcomp.X64.Decoder.{decode_rr, decode_mem, rex_rm-eq, rex_m-eq, modrm_r-eq, modrm_b32d-eq}
use pcomp.X64.Forms.{form-decodes, mem_form-decodes, mem_fields, sib_cases, reg_base-mod}
use pcomp.X64.Machine.{CpuInstr, fetch, reg_instr, mem_instr, decode}

fetch-HasBytes : (m : Bytes) (a : ℕ) (bs : List ℕ) → HasBytes m a bs → fetch (length bs) m a ≡ bs
fetch-HasBytes m a [] h = refl
fetch-HasBytes m a (b ∷ bs) (e, h) = rw (e, fetch-HasBytes m (a + 1) bs h) refl

-- Opcodes with a ModRM byte and no immediate.
abbrev IsPlain : ℕ → Type 0
IsPlain op = ((op / 16 == 5) ≡ false) × ((op / 8 == 23) ≡ false) × ((op == 0xc7) ≡ false)

module _ (m : Bytes) (a rex op f : ℕ) (is_rex : (rex / 16 == 4) ≡ true) (plain : IsPlain op) where
  decode-register :
      (i : CpuInstr)
      → (f / 64 == 3) ≡ true
      → (decode_rr (rex ∷ op ∷ f ∷ []) >>= reg_instr) ≡ some i
      → HasBytes m a (rex ∷ op ∷ f ∷ [])
      → decode m a ≡ some (i, 3)
  unfolding decode
  decode-register i direct e (b₀, (b₁, (b₂, _))) =
      let (p₅, p₂₃, p₁₉₉) = plain in rw (b₀, b₁, b₂) (rw (is_rex, p₅, p₂₃, p₁₉₉, direct, e) refl)

  decode-memory :
      (i : CpuInstr) (d₀ d₁ d₂ d₃ : ℕ)
      → (f / 64 == 3) ≡ false
      → (f % 8 == 4) ≡ false
      → (decode_mem (rex ∷ op ∷ f ∷ d₀ ∷ d₁ ∷ d₂ ∷ d₃ ∷ []) >>= mem_instr) ≡ some i
      → HasBytes m a (rex ∷ op ∷ f ∷ d₀ ∷ d₁ ∷ d₂ ∷ d₃ ∷ [])
      → decode m a ≡ some (i, 7)
  unfolding decode
  decode-memory i d₀ d₁ d₂ d₃ direct s e (b₀, (b₁, (b₂, (b₃, (b₄, (b₅, (b₆, _))))))) =
      let (p₅, p₂₃, p₁₉₉) = plain in
      rw (b₀, b₁, b₂, b₃, b₄, b₅, b₆) (rw (is_rex, p₅, p₂₃, p₁₉₉, direct, s, e) refl)

  decode-memory_sib :
      (i : CpuInstr) (s d₀ d₁ d₂ d₃ : ℕ)
      → (f / 64 == 3) ≡ false
      → (f % 8 == 4) ≡ true
      → (decode_mem (rex ∷ op ∷ f ∷ s ∷ d₀ ∷ d₁ ∷ d₂ ∷ d₃ ∷ []) >>= mem_instr) ≡ some i
      → HasBytes m a (rex ∷ op ∷ f ∷ s ∷ d₀ ∷ d₁ ∷ d₂ ∷ d₃ ∷ [])
      → decode m a ≡ some (i, 8)
  unfolding decode
  decode-memory_sib i s d₀ d₁ d₂ d₃ direct t e (b₀, (b₁, (b₂, (b₃, (b₄, (b₅, (b₆, (b₇, _)))))))) =
      let (p₅, p₂₃, p₁₉₉) = plain in
      rw (b₀, b₁, b₂, b₃, b₄, b₅, b₆, b₇) (rw (is_rex, p₅, p₂₃, p₁₉₉, direct, t, e) refl)

rex_rm-tested : (r q : ℕ) → r < 16 → q < 16 → (bit_or rex_w (rex_adj_rm r q) / 16 == 4) ≡ true
rex_rm-tested r q hr hq = rw (rex_rm-eq r q hr hq) (eq→== _ 4 (omega arith))

pub rex_m-tested : (q : ℕ) → q < 16 → (bit_or rex_w (rex_adj_m q) / 16 == 4) ≡ true
rex_m-tested q hq = rw (rex_m-eq q hq) (eq→== _ 4 (omega arith))

modrm_r-tested : (r q : ℕ) → r < 16 → q < 16 → (modrm mod_r r q / 64 == 3) ≡ true
unfolding reg_base
modrm_r-tested r q hr hq = rw (modrm_r-eq r q hr hq) (eq→== _ 3 (omega arith))

-- A register form, for all 16 registers.
pub decode-form :
    (m : Bytes) (a op r q : ℕ) (i : CpuInstr)
    → r < 16
    → q < 16
    → IsPlain op
    → reg_instr (op, r, q) ≡ some i
    → HasBytes m a (bit_or rex_w (rex_adj_rm r q) ∷ op ∷ modrm mod_r r q ∷ [])
    → decode m a ≡ some (i, 3)
decode-form m a op r q i hr hq plain e h =
    decode-register m a _ op _ (rex_rm-tested r q hr hq) plain i (modrm_r-tested r q hr hq)
      (rw (form-decodes op r q hr hq) e) h

extension :
    (ext q : ℕ)
    → ext < 8
    → q < 16
    → ((72 + q / 8) / 8 ≡ 9)
      × ((192 + 8 * (ext % 8) + q % 8) / 64 ≡ 3)
      × ((192 + 8 * (ext % 8) + q % 8) / 8 % 8 + 8 * ((72 + q / 8) / 4 % 2) ≡ ext)
      × ((192 + 8 * (ext % 8) + q % 8) % 8 + 8 * ((72 + q / 8) % 2) ≡ q)
extension ext q he hq = omega arith

extended-decodes :
    (op ext q : ℕ)
    → ext < 8
    → q < 16
    → decode_rr (bit_or rex_w (rex_adj_m q) ∷ op ∷ modrm mod_r ext q ∷ []) ≡ some (op, ext, q)
unfolding decode_rr
extended-decodes op ext q he hq =
    let (w, d, fr, fm) = extension ext q he hq in
    rw (rex_m-eq q hq, modrm_r-eq ext q (omega arith) hq)
      (rw (eq→== _ 9 w, eq→== _ 3 d, fr, fm) refl)

-- The same where `reg` extends the opcode.
pub decode-extended :
    (m : Bytes) (a op ext q : ℕ) (i : CpuInstr)
    → ext < 8
    → q < 16
    → IsPlain op
    → reg_instr (op, ext, q) ≡ some i
    → HasBytes m a (bit_or rex_w (rex_adj_m q) ∷ op ∷ modrm mod_r ext q ∷ [])
    → decode m a ≡ some (i, 3)
decode-extended m a op ext q i he hq plain e h =
    decode-register m a _ op _ (rex_m-tested q hq) plain i (modrm_r-tested ext q (omega arith) hq)
      (rw (extended-decodes op ext q he hq) e) h

-- A memory form, with the SIB byte where the base wants one.
pub decode-memory_form :
    (m : Bytes) (a op r q d : ℕ) (i : CpuInstr)
    → r < 16
    → q < 16
    → IsPlain op
    → mem_instr (op, r, q, bytes_of 4 d) ≡ some i
    → HasBytes m a (
        bit_or rex_w (rex_adj_rm r q)
        ∷ op
        ∷ modrm mod_b32d r q
        ∷ (sib (reg_base q) ++ bytes_of 4 d))
    → decode m a
      ≡ some (
        i,
        length (
            bit_or rex_w (rex_adj_rm r q)
            ∷ op
            ∷ modrm mod_b32d r q
            ∷ (sib (reg_base q) ++ bytes_of 4 d)),
      )
decode-memory_form m a op r q d i hr hq plain e h =
    let (w, k, low, fr, fm) = mem_fields r q hr hq in
    let dec : (decode_mem (
            bit_or rex_w (rex_adj_rm r q)
            ∷ op
            ∷ modrm mod_b32d r q
            ∷ (sib (reg_base q) ++ bytes_of 4 d))
          >>= mem_instr)
        ≡ some i =
      rw (mem_form-decodes op r q d hr hq) e in
    let direct : (modrm mod_b32d r q / 64 == 3) ≡ false =
      rw (modrm_b32d-eq r q hr hq) (ne→== _ 3 (omega arith)) in
    let base : reg_base q ≡ q % 8 = reg_base-mod q hq in
    elim (sib_cases (reg_base q) (omega arith)) [
      | inl (four, s) ↦ rw s (
          decode-memory_sib m a _ op _ (rex_rm-tested r q hr hq) plain i 0x24 _ _ _ _ direct
            (rw (modrm_b32d-eq r q hr hq) (eq→== _ 4 (omega arith))) (rw s at dec) (rw s at h))
      | inr (other, s) ↦ rw s (
          decode-memory m a _ op _ (rex_rm-tested r q hr hq) plain i _ _ _ _ direct
            (rw (modrm_b32d-eq r q hr hq) (ne→== _ 4 (omega arith))) (rw s at dec) (rw s at h))
    ]

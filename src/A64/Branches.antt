-- ===== src/A64/Branches.antt =====
-- Where the conditional branches of the AArch64 JIT lead.
use pcomp.Common.{
  ℕ, ◌+◌, ◌-◌, ◌*◌, ◌/◌, ◌%◌, ◌^◌, ◌≤◌, ◌<◌, ◌≡◌, refl, Option, none, some, arith, ltb, ◌==◌, ◌&&◌,
  if◌then◌else◌,
}
use pcomp.Common.Bits.{bit_or-add, bit_and-low}
use pcomp.Word.{IsU64, u64}
use pcomp.A64.Bits.{b_bits, b_cond_bits}
use pcomp.A64.Words.{emit_b, emit_b_cond}
use pcomp.A64.Jit.{words_between}

-- B.cond (01010100, a 19-bit number of words, 0, the condition) at the address `at`: the condition
-- and the address that the branch leads to. This reading describes the architecture and not the
-- repository.
unfoldable pub decode_b_cond : ℕ → ℕ → Option (ℕ × ℕ)
decode_b_cond at w =
    let imm = w / 2 ^ 5 % 2 ^ 19 in
    if w / 2 ^ 24 == 0b01010100 && w / 2 ^ 4 % 2 == 0
    then some (w % 16, u64 (at + 4 * (if ltb imm (2 ^ 18) then imm else imm + (2 ^ 64 - 2 ^ 19))))
    else none

b_cond-eq :
    (cond imm : ℕ)
    → cond < 16
    → emit_b_cond cond imm ≡ 0b01010100 * 2 ^ 24 + imm % 2 ^ 19 * 2 ^ 5 + cond
unfolding emit_b_cond
b_cond-eq cond imm hc =
    rw
      (
        bit_and-low 19 (imm / 2 ^ 19) (imm % 2 ^ 19) imm (2 ^ 19 - 1) (omega arith) (omega arith)
            refl,
        bit_or-add 24 0b01010100 b_cond_bits (imm % 2 ^ 19 * 2 ^ 5) refl (omega arith),
      )
      (bit_or-add 5 (0b01010100 * 2 ^ 19 + imm % 2 ^ 19)
        (0b01010100 * 2 ^ 24 + imm % 2 ^ 19 * 2 ^ 5) cond (omega arith) (omega arith))

fields :
    (cond i : ℕ)
    → cond < 16
    → i < 2 ^ 19
    → ((0b01010100 * 2 ^ 24 + i * 2 ^ 5 + cond) / 2 ^ 24 ≡ 0b01010100)
      × ((0b01010100 * 2 ^ 24 + i * 2 ^ 5 + cond) / 2 ^ 4 % 2 ≡ 0)
      × ((0b01010100 * 2 ^ 24 + i * 2 ^ 5 + cond) % 16 ≡ cond)
      × ((0b01010100 * 2 ^ 24 + i * 2 ^ 5 + cond) / 2 ^ 5 % 2 ^ 19 ≡ i)
fields cond i hc hi = omega arith

-- The target is a whole number of words away and within 1 MiB.
abbrev pub IsNear : ℕ → ℕ → Type 0
IsNear va arch = (va % 4 ≡ arch % 4) × (va < arch + 2 ^ 20) × (arch ≤ va + 2 ^ 20)

target-eq :
    (va arch : ℕ)
    → IsU64 va
    → arch < 2 ^ 64
    → IsNear va arch
    → u64 (
        arch
        + 4
          * (if ltb (words_between va arch % 2 ^ 19) (2 ^ 18)
              then words_between va arch % 2 ^ 19
              else words_between va arch % 2 ^ 19 + (2 ^ 64 - 2 ^ 19)))
      ≡ va
target-eq va arch hv ha near = ground arith

-- Placed at `arch` for a target a whole number of words away and within 1 MiB, a conditional branch
-- leads to the target, under the condition given.
pub b_cond-targets :
    (cond va arch : ℕ)
    → cond < 16
    → IsU64 va
    → arch < 2 ^ 64
    → IsNear va arch
    → decode_b_cond arch (emit_b_cond cond (words_between va arch)) ≡ some (cond, va)
unfolding decode_b_cond
b_cond-targets cond va arch hc hv ha near =
    let (f, z, c, i) = fields cond (words_between va arch % 2 ^ 19) hc (omega arith) in
    rw (b_cond-eq cond (words_between va arch) hc)
      (rw (f, z, c, i, target-eq va arch hv ha near) refl)

-- B (000101, a 26-bit number of words) at the address `at`: where it leads.
unfoldable pub decode_b : ℕ → ℕ → Option ℕ
decode_b at w =
    let imm = w % 2 ^ 26 in
    if w / 2 ^ 26 == 0b000101
    then some (u64 (at + 4 * (if ltb imm (2 ^ 25) then imm else imm + (2 ^ 64 - 2 ^ 26))))
    else none

forward :
    (va arch : ℕ)
    → IsU64 va
    → arch ≤ va
    → va % 4 ≡ arch % 4
    → va < arch + 2 ^ 20
    → u64 (
        arch
        + 4
          * (if ltb (words_between va arch % 2 ^ 26) (2 ^ 25)
              then words_between va arch % 2 ^ 26
              else words_between va arch % 2 ^ 26 + (2 ^ 64 - 2 ^ 26)))
      ≡ va
forward va arch hv le word near = ground arith

pub b-target :
    (va arch : ℕ)
    → IsU64 va
    → arch ≤ va
    → va % 4 ≡ arch % 4
    → va < arch + 2 ^ 20
    → decode_b arch (emit_b (words_between va arch)) ≡ some va
unfolding decode_b emit_b
b-target va arch hv le word near =
    let w : ℕ = words_between va arch in
    let (f, i) = b_fields (w % 2 ^ 26) (omega arith) in
    rw
      (
        bit_and-low 26 (w / 2 ^ 26) (w % 2 ^ 26) w (2 ^ 26 - 1) (omega arith) (omega arith) refl,
        bit_or-add 26 0b000101 b_bits (w % 2 ^ 26) refl (omega arith),
      )
      (rw (f, i, forward va arch hv le word near) refl)
  where
    b_fields :
        (k : ℕ)
        → k < 2 ^ 26
        → ((0b000101 * 2 ^ 26 + k) / 2 ^ 26 ≡ 0b000101) × ((0b000101 * 2 ^ 26 + k) % 2 ^ 26 ≡ k)
    b_fields k h = omega arith

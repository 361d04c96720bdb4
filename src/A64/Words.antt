-- ===== src/A64/Words.antt =====
-- The `emit_` functions of vm/a64.cc that write one instruction, as the 32-bit word that they write
-- at `jpos.arch`. A signed immediate is its two's complement pattern; a register is its number,
-- below 32.
use pcomp.Common.{ℕ, ◌*◌, ◌/◌, ◌^◌, bit_and, bit_or}
use pcomp.A64.Bits.{
  add_imm_bits, adds_ereg_bits, adr_bits, and_sreg_bits, b_bits, b_cond_bits, bl_bits, blr_bits,
  br_bits, eor_sreg_bits, ldp_post_idx_bits, ldr_post_idx_bits, ldr_unsigned_offset_bits, movk_bits,
  movz_bits, nop_bits, orn_sreg_bits, orr_sreg_bits, ret_bits, stp_pre_idx_bits, str_post_idx_bits,
  str_pre_idx_bits, str_unsigned_offset_bits, subs_ereg_bits,
}

-- arch_ext_t: the extension of the second operand.
abbrev pub sxtx : ℕ
sxtx = 0b00000111

-- ZR and SP, both number 31, LR and FP.
abbrev pub zr : ℕ
zr = 0b00011111

abbrev pub lr : ℕ
lr = 0b00011110

abbrev pub fp : ℕ
fp = 0b00011101

unfoldable pub emit_add : ℕ → ℕ → ℕ → ℕ
emit_add rd rs imm =
    bit_or (bit_or (bit_or add_imm_bits (bit_and imm 0b0000111111111111 * 2 ^ 10)) (rs * 2 ^ 5)) rd

unfoldable pub emit_adds_ereg : ℕ → ℕ → ℕ → ℕ
emit_adds_ereg rd rs₁ rs₂ =
    bit_or (bit_or (bit_or (bit_or adds_ereg_bits (rs₂ * 2 ^ 16)) (sxtx * 2 ^ 13)) (rs₁ * 2 ^ 5)) rd

unfoldable pub emit_subs_ereg : ℕ → ℕ → ℕ → ℕ
emit_subs_ereg rd rs₁ rs₂ =
    bit_or (bit_or (bit_or (bit_or subs_ereg_bits (rs₂ * 2 ^ 16)) (sxtx * 2 ^ 13)) (rs₁ * 2 ^ 5)) rd

unfoldable pub emit_adr : ℕ → ℕ → ℕ
emit_adr rd imm =
    bit_or
      (bit_or (bit_or adr_bits (bit_and imm 0b11 * 2 ^ 29))
        (bit_and imm 0b00000000000111111111111111111100 / 2 ^ 2 * 2 ^ 5))
      rd

unfoldable pub emit_and_sreg : ℕ → ℕ → ℕ → ℕ
emit_and_sreg rd rs₁ rs₂ = bit_or (bit_or (bit_or and_sreg_bits (rs₂ * 2 ^ 16)) (rs₁ * 2 ^ 5)) rd

unfoldable pub emit_eor_sreg : ℕ → ℕ → ℕ → ℕ
emit_eor_sreg rd rs₁ rs₂ = bit_or (bit_or (bit_or eor_sreg_bits (rs₂ * 2 ^ 16)) (rs₁ * 2 ^ 5)) rd

unfoldable pub emit_orn_sreg : ℕ → ℕ → ℕ → ℕ
emit_orn_sreg rd rs₁ rs₂ = bit_or (bit_or (bit_or orn_sreg_bits (rs₂ * 2 ^ 16)) (rs₁ * 2 ^ 5)) rd

unfoldable pub emit_orr_sreg : ℕ → ℕ → ℕ → ℕ
emit_orr_sreg rd rs₁ rs₂ = bit_or (bit_or (bit_or orr_sreg_bits (rs₂ * 2 ^ 16)) (rs₁ * 2 ^ 5)) rd

unfoldable pub emit_movk : ℕ → ℕ → ℕ → ℕ
emit_movk rd shift imm =
    bit_or (bit_or (bit_or movk_bits (bit_and (shift / 2 ^ 4) 0b00000011 * 2 ^ 21)) (imm * 2 ^ 5))
      rd

unfoldable pub emit_movz : ℕ → ℕ → ℕ → ℕ
emit_movz rd shift imm =
    bit_or (bit_or (bit_or movz_bits (bit_and (shift / 2 ^ 4) 0b00000011 * 2 ^ 21)) (imm * 2 ^ 5))
      rd

unfoldable pub emit_ldp_post_idx : ℕ → ℕ → ℕ → ℕ → ℕ
emit_ldp_post_idx rd₁ rd₂ rb imm =
    bit_or
      (bit_or
        (bit_or (bit_or ldp_post_idx_bits (bit_and (imm / 2 ^ 3) 0b01111111 * 2 ^ 15))
          (rd₂ * 2 ^ 10))
        (rb * 2 ^ 5))
      rd₁

unfoldable pub emit_stp_pre_idx : ℕ → ℕ → ℕ → ℕ → ℕ
emit_stp_pre_idx rs₁ rs₂ rb imm =
    bit_or
      (bit_or
        (bit_or (bit_or stp_pre_idx_bits (bit_and (imm / 2 ^ 3) 0b01111111 * 2 ^ 15))
          (rs₂ * 2 ^ 10))
        (rb * 2 ^ 5))
      rs₁

unfoldable pub emit_ldr_post_idx : ℕ → ℕ → ℕ → ℕ
emit_ldr_post_idx rd rb imm =
    bit_or
      (bit_or (bit_or ldr_post_idx_bits (bit_and imm 0b0000000111111111 * 2 ^ 12)) (rb * 2 ^ 5)) rd

unfoldable pub emit_ldr_unsigned_offset : ℕ → ℕ → ℕ → ℕ
emit_ldr_unsigned_offset rd rb imm =
    bit_or
      (bit_or (bit_or ldr_unsigned_offset_bits (bit_and imm 0b0000111111111111 * 2 ^ 10))
        (rb * 2 ^ 5))
      rd

unfoldable pub emit_str_post_idx : ℕ → ℕ → ℕ → ℕ
emit_str_post_idx rs rb imm =
    bit_or
      (bit_or (bit_or str_post_idx_bits (bit_and imm 0b0000000111111111 * 2 ^ 12)) (rb * 2 ^ 5)) rs

unfoldable pub emit_str_pre_idx : ℕ → ℕ → ℕ → ℕ
emit_str_pre_idx rs rb imm =
    bit_or (bit_or (bit_or str_pre_idx_bits (bit_and imm 0b0000000111111111 * 2 ^ 12)) (rb * 2 ^ 5))
      rs

unfoldable pub emit_str_unsigned_offset : ℕ → ℕ → ℕ → ℕ
emit_str_unsigned_offset rs rb imm =
    bit_or
      (bit_or (bit_or str_unsigned_offset_bits (bit_and imm 0b0000111111111111 * 2 ^ 10))
        (rb * 2 ^ 5))
      rs

unfoldable pub emit_b : ℕ → ℕ
emit_b imm = bit_or b_bits (bit_and imm 0b00000011111111111111111111111111)

unfoldable pub emit_b_cond : ℕ → ℕ → ℕ
emit_b_cond cond imm =
    bit_or (bit_or b_cond_bits (bit_and imm 0b00000000000001111111111111111111 * 2 ^ 5)) cond

unfoldable emit_bl : ℕ → ℕ
emit_bl imm = bit_or bl_bits (bit_and imm 0b00000011111111111111111111111111)

unfoldable pub emit_blr : ℕ → ℕ
emit_blr reg = bit_or blr_bits (reg * 2 ^ 5)

unfoldable pub emit_br : ℕ → ℕ
emit_br reg = bit_or br_bits (reg * 2 ^ 5)

unfoldable pub emit_ret : ℕ → ℕ
emit_ret reg = bit_or ret_bits (reg * 2 ^ 5)

unfoldable pub emit_nop : ℕ
emit_nop = nop_bits

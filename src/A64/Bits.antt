-- ===== src/A64/Bits.antt =====
-- arch_dg_t and arch_instr_t of vm/a64.h: the decode groups and the instructions' fixed bits.
use pcomp.Common.{ℕ, bit_or}

abbrev dg0_dp_imm : ℕ
dg0_dp_imm = 0b00010000000000000000000000000000

abbrev dg1_pc_rel_addr : ℕ
dg1_pc_rel_addr = 0b00000000000000000000000000000000

abbrev dg1_add_sub_imm : ℕ
dg1_add_sub_imm = 0b00000001000000000000000000000000

abbrev dg1_mov_wide_imm : ℕ
dg1_mov_wide_imm = 0b00000010100000000000000000000000

abbrev dg0_dp_reg : ℕ
dg0_dp_reg = 0b00001010000000000000000000000000

abbrev dg1_logical_sreg : ℕ
dg1_logical_sreg = 0b00000000000000000000000000000000

abbrev dg1_add_sub_ereg : ℕ
dg1_add_sub_ereg = 0b00000001001000000000000000000000

abbrev dg0_br_eg_sys : ℕ
dg0_br_eg_sys = 0b00010100000000000000000000000000

abbrev dg1_cbr_imm : ℕ
dg1_cbr_imm = 0b01000000000000000000000000000000

abbrev dg1_hint : ℕ
dg1_hint = 0b11000001000000110010000000011111

abbrev dg1_ubr_r : ℕ
dg1_ubr_r = 0b11000010000000000000000000000000

abbrev dg1_ubr_imm : ℕ
dg1_ubr_imm = 0b00000000000000000000000000000000

abbrev dg0_ls : ℕ
dg0_ls = 0b00001000000000000000000000000000

abbrev dg1_lsrp_pre_idx : ℕ
dg1_lsrp_pre_idx = 0b00101001100000000000000000000000

abbrev dg1_lsrp_post_idx : ℕ
dg1_lsrp_post_idx = 0b10101000100000000000000000000000

abbrev dg1_lsr_post_idx : ℕ
dg1_lsr_post_idx = 0b00110000000000000000010000000000

abbrev dg1_lsr_pre_idx : ℕ
dg1_lsr_pre_idx = 0b00110000000000000000110000000000

abbrev dg1_lsr_unsigned_imm : ℕ
dg1_lsr_unsigned_imm = 0b00110001000000000000000000000000

abbrev pub add_imm_bits : ℕ
add_imm_bits = bit_or (bit_or dg0_dp_imm dg1_add_sub_imm) 0b10000000000000000000000000000000

abbrev pub adds_ereg_bits : ℕ
adds_ereg_bits = bit_or (bit_or dg0_dp_reg dg1_add_sub_ereg) 0b10100000000000000000000000000000

abbrev pub adr_bits : ℕ
adr_bits = bit_or (bit_or dg0_dp_imm dg1_pc_rel_addr) 0b00000000000000000000000000000000

abbrev pub and_sreg_bits : ℕ
and_sreg_bits = bit_or (bit_or dg0_dp_reg dg1_logical_sreg) 0b10000000000000000000000000000000

abbrev pub b_bits : ℕ
b_bits = bit_or (bit_or dg0_br_eg_sys dg1_ubr_imm) 0b00000000000000000000000000000000

abbrev pub b_cond_bits : ℕ
b_cond_bits = bit_or (bit_or dg0_br_eg_sys dg1_cbr_imm) 0b00000000000000000000000000000000

abbrev pub bl_bits : ℕ
bl_bits = bit_or (bit_or dg0_br_eg_sys dg1_ubr_imm) 0b10000000000000000000000000000000

abbrev pub blr_bits : ℕ
blr_bits = bit_or (bit_or dg0_br_eg_sys dg1_ubr_r) 0b00000000001111110000000000000000

abbrev pub br_bits : ℕ
br_bits = bit_or (bit_or dg0_br_eg_sys dg1_ubr_r) 0b00000000000111110000000000000000

abbrev pub eor_sreg_bits : ℕ
eor_sreg_bits = bit_or (bit_or dg0_dp_reg dg1_logical_sreg) 0b11000000000000000000000000000000

abbrev pub ldp_post_idx_bits : ℕ
ldp_post_idx_bits = bit_or (bit_or dg0_ls dg1_lsrp_post_idx) 0b10000000010000000000000000000000

abbrev pub ldr_post_idx_bits : ℕ
ldr_post_idx_bits = bit_or (bit_or dg0_ls dg1_lsr_post_idx) 0b11000000010000000000000000000000

abbrev pub ldr_unsigned_offset_bits : ℕ
ldr_unsigned_offset_bits =
    bit_or (bit_or dg0_ls dg1_lsr_unsigned_imm) 0b11000000010000000000000000000000

abbrev pub movk_bits : ℕ
movk_bits = bit_or (bit_or dg0_dp_imm dg1_mov_wide_imm) 0b11100000000000000000000000000000

abbrev pub movz_bits : ℕ
movz_bits = bit_or (bit_or dg0_dp_imm dg1_mov_wide_imm) 0b11000000000000000000000000000000

abbrev pub nop_bits : ℕ
nop_bits = bit_or (bit_or dg0_br_eg_sys dg1_hint) 0b00000000000000000000000000000000

abbrev pub orn_sreg_bits : ℕ
orn_sreg_bits = bit_or (bit_or dg0_dp_reg dg1_logical_sreg) 0b10100000001000000000000000000000

abbrev pub orr_sreg_bits : ℕ
orr_sreg_bits = bit_or (bit_or dg0_dp_reg dg1_logical_sreg) 0b10100000000000000000000000000000

abbrev pub ret_bits : ℕ
ret_bits = bit_or (bit_or dg0_br_eg_sys dg1_ubr_r) 0b00000000010111110000000000000000

abbrev pub stp_pre_idx_bits : ℕ
stp_pre_idx_bits = bit_or (bit_or dg0_ls dg1_lsrp_pre_idx) 0b10000000000000000000000000000000

abbrev pub str_post_idx_bits : ℕ
str_post_idx_bits = bit_or (bit_or dg0_ls dg1_lsr_post_idx) 0b11000000000000000000000000000000

abbrev pub str_pre_idx_bits : ℕ
str_pre_idx_bits = bit_or (bit_or dg0_ls dg1_lsr_pre_idx) 0b11000000000000000000000000000000

abbrev pub str_unsigned_offset_bits : ℕ
str_unsigned_offset_bits =
    bit_or (bit_or dg0_ls dg1_lsr_unsigned_imm) 0b11000000000000000000000000000000

abbrev pub subs_ereg_bits : ℕ
subs_ereg_bits = bit_or (bit_or dg0_dp_reg dg1_add_sub_ereg) 0b11100000000000000000000000000000

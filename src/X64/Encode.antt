-- ===== src/X64/Encode.antt =====
-- The `emit_` functions of vm/x64.cc that write one instruction, as the bytes that they write at
-- `jpos.arch`. An immediate or displacement is its two's complement pattern.
use pcomp.Common.{
  ℕ, ◌+◌, ◌-◌, ◌*◌, ◌/◌, ◌^◌, bit_or, List, [], ◌∷◌, ◌++◌, ◌==◌, ◌||◌, if◌then◌else◌,
}
use pcomp.Jit.{bytes_of}
use pcomp.Word.{u8, u32}
use pcomp.X64.Regs.{
  rsp, rbp, r12, rex_w, rex_b, mod_b8d, mod_b32d, mod_r, reg_base, rex_adj_m, rex_adj_rm,
}

-- The register form with `r` in the ModRM byte's `reg` field and `m` in its `r/m` field.
abbrev pub modrm : ℕ → ℕ → ℕ → ℕ
modrm mode r m = bit_or (bit_or mode (reg_base r * 2 ^ 3)) (reg_base m)

unfoldable pub emit_add_reg_reg : ℕ → ℕ → List ℕ
unfolding rex_adj_rm reg_base
emit_add_reg_reg rd rs = bit_or rex_w (rex_adj_rm rd rs) ∷ 0x03 ∷ modrm mod_r rd rs ∷ []

unfoldable pub emit_and_reg_reg : ℕ → ℕ → List ℕ
unfolding rex_adj_rm reg_base
emit_and_reg_reg rd rs = bit_or rex_w (rex_adj_rm rd rs) ∷ 0x23 ∷ modrm mod_r rd rs ∷ []

unfoldable pub emit_or_reg_reg : ℕ → ℕ → List ℕ
unfolding rex_adj_rm reg_base
emit_or_reg_reg rd rs = bit_or rex_w (rex_adj_rm rd rs) ∷ 0x0b ∷ modrm mod_r rd rs ∷ []

unfoldable pub emit_sub_reg_reg : ℕ → ℕ → List ℕ
unfolding rex_adj_rm reg_base
emit_sub_reg_reg rd rs = bit_or rex_w (rex_adj_rm rd rs) ∷ 0x2b ∷ modrm mod_r rd rs ∷ []

unfoldable pub emit_xor_reg_reg : ℕ → ℕ → List ℕ
unfolding rex_adj_rm reg_base
emit_xor_reg_reg rd rs = bit_or rex_w (rex_adj_rm rd rs) ∷ 0x33 ∷ modrm mod_r rd rs ∷ []

unfoldable pub emit_mov_reg_reg : ℕ → ℕ → List ℕ
unfolding rex_adj_rm reg_base
emit_mov_reg_reg rd rs = bit_or rex_w (rex_adj_rm rd rs) ∷ 0x8b ∷ modrm mod_r rd rs ∷ []

unfoldable pub emit_cmp_reg_reg : ℕ → ℕ → List ℕ
unfolding rex_adj_rm reg_base
emit_cmp_reg_reg rs₁ rs₂ = bit_or rex_w (rex_adj_rm rs₂ rs₁) ∷ 0x39 ∷ modrm mod_r rs₂ rs₁ ∷ []

unfoldable pub emit_not_reg : ℕ → List ℕ
unfolding rex_adj_m reg_base
emit_not_reg r = bit_or rex_w (rex_adj_m r) ∷ 0xf7 ∷ modrm mod_r 0b010 r ∷ []

-- The SIB byte that a base of `RSP` or `R12` wants.
unfoldable pub sib : ℕ → List ℕ
sib rb = if rb == rsp || rb == r12 then bit_or (0b100 * 2 ^ 3) rb ∷ [] else []

unfoldable pub emit_mov_b8d_reg : ℕ → ℕ → ℕ → List ℕ
unfolding rex_adj_rm reg_base sib
emit_mov_b8d_reg rb d rs =
    bit_or rex_w (rex_adj_rm rs rb) ∷ 0x89 ∷ modrm mod_b8d rs rb ∷ (sib (reg_base rb) ++ u8 d ∷ [])

unfoldable pub emit_mov_reg_b8d : ℕ → ℕ → ℕ → List ℕ
unfolding rex_adj_rm reg_base sib
emit_mov_reg_b8d rd rb d =
    bit_or rex_w (rex_adj_rm rd rb) ∷ 0x8b ∷ modrm mod_b8d rd rb ∷ (sib (reg_base rb) ++ u8 d ∷ [])

unfoldable pub emit_mov_b32d_reg : ℕ → ℕ → ℕ → List ℕ
unfolding rex_adj_rm reg_base sib
emit_mov_b32d_reg rb d rs =
    bit_or rex_w (rex_adj_rm rs rb)
    ∷ 0x89
    ∷ modrm mod_b32d rs rb
    ∷ (sib (reg_base rb) ++ bytes_of 4 d)

unfoldable pub emit_mov_reg_b32d : ℕ → ℕ → ℕ → List ℕ
unfolding rex_adj_rm reg_base sib
emit_mov_reg_b32d rd rb d =
    bit_or rex_w (rex_adj_rm rd rb)
    ∷ 0x8b
    ∷ modrm mod_b32d rd rb
    ∷ (sib (reg_base rb) ++ bytes_of 4 d)

unfoldable pub emit_mov_reg_imm32 : ℕ → ℕ → List ℕ
unfolding rex_adj_m reg_base
emit_mov_reg_imm32 rd imm =
    bit_or rex_w (rex_adj_m rd) ∷ 0xc7 ∷ bit_or mod_r (reg_base rd) ∷ bytes_of 4 imm

unfoldable pub emit_mov_reg_imm64 : ℕ → ℕ → List ℕ
unfolding rex_adj_m reg_base
emit_mov_reg_imm64 rd imm = bit_or rex_w (rex_adj_m rd) ∷ bit_or 0xb8 (reg_base rd) ∷ bytes_of 8 imm

-- `upper_dword == 0 || upper_dword == -1`, on the upper half's pattern.
unfoldable pub emit_mov_reg_imm : ℕ → ℕ → List ℕ
emit_mov_reg_imm rd imm =
    let upper_dword = imm / 2 ^ 32 in
    if upper_dword == 0 || upper_dword == 0xffff_ffff
    then emit_mov_reg_imm32 rd (u32 imm)
    else emit_mov_reg_imm64 rd imm

unfoldable pub emit_add_reg_imm64 : ℕ → ℕ → List ℕ
emit_add_reg_imm64 rd imm = emit_mov_reg_imm rbp imm ++ emit_add_reg_reg rd rbp

unfoldable pub emit_and_reg_imm64 : ℕ → ℕ → List ℕ
emit_and_reg_imm64 rd imm = emit_mov_reg_imm rbp imm ++ emit_and_reg_reg rd rbp

unfoldable pub emit_cmp_reg_imm64 : ℕ → ℕ → List ℕ
emit_cmp_reg_imm64 rd imm = emit_mov_reg_imm rbp imm ++ emit_cmp_reg_reg rd rbp

unfoldable pub emit_or_reg_imm64 : ℕ → ℕ → List ℕ
emit_or_reg_imm64 rd imm = emit_mov_reg_imm rbp imm ++ emit_or_reg_reg rd rbp

unfoldable pub emit_sub_reg_imm64 : ℕ → ℕ → List ℕ
emit_sub_reg_imm64 rd imm = emit_mov_reg_imm rbp imm ++ emit_sub_reg_reg rd rbp

unfoldable pub emit_xor_reg_imm64 : ℕ → ℕ → List ℕ
emit_xor_reg_imm64 rd imm = emit_mov_reg_imm rbp imm ++ emit_xor_reg_reg rd rbp

unfoldable pub emit_call_reg : ℕ → List ℕ
unfolding rex_adj_m reg_base
emit_call_reg rs = bit_or rex_w (rex_adj_m rs) ∷ 0xff ∷ modrm mod_r 0b010 rs ∷ []

unfoldable pub emit_jmp_reg : ℕ → List ℕ
unfolding rex_adj_m reg_base
emit_jmp_reg rs = bit_or rex_w (rex_adj_m rs) ∷ 0xff ∷ modrm mod_r 0b100 rs ∷ []

unfoldable pub emit_call_imm64 : ℕ → List ℕ
emit_call_imm64 imm = emit_mov_reg_imm rbp imm ++ emit_call_reg rbp

unfoldable pub emit_jmp_imm64 : ℕ → List ℕ
emit_jmp_imm64 imm = emit_mov_reg_imm rbp imm ++ emit_jmp_reg rbp

unfoldable pub emit_je_imm32 : ℕ → List ℕ
emit_je_imm32 imm = 0x0f ∷ 0x84 ∷ bytes_of 4 (u32 (imm + 2 ^ 32 - 6))

unfoldable pub emit_jne_imm32 : ℕ → List ℕ
emit_jne_imm32 imm = 0x0f ∷ 0x85 ∷ bytes_of 4 (u32 (imm + 2 ^ 32 - 6))

unfoldable pub emit_jg_imm32 : ℕ → List ℕ
emit_jg_imm32 imm = 0x0f ∷ 0x8f ∷ bytes_of 4 (u32 (imm + 2 ^ 32 - 6))

unfoldable pub emit_jge_imm32 : ℕ → List ℕ
emit_jge_imm32 imm = 0x0f ∷ 0x8d ∷ bytes_of 4 (u32 (imm + 2 ^ 32 - 6))

unfoldable pub emit_jl_imm32 : ℕ → List ℕ
emit_jl_imm32 imm = 0x0f ∷ 0x8c ∷ bytes_of 4 (u32 (imm + 2 ^ 32 - 6))

unfoldable pub emit_jle_imm32 : ℕ → List ℕ
emit_jle_imm32 imm = 0x0f ∷ 0x8e ∷ bytes_of 4 (u32 (imm + 2 ^ 32 - 6))

unfoldable pub emit_jmp_imm32 : ℕ → List ℕ
emit_jmp_imm32 imm = 0xe9 ∷ bytes_of 4 (u32 (imm + 2 ^ 32 - 5))

unfoldable pub emit_nop : List ℕ
emit_nop = 0x90 ∷ []

-- The prefix is written for `R8` to `R15` only.
unfoldable pub prefix_b : ℕ → List ℕ
prefix_b r = if reg_base r == r then [] else (rex_b ∷ [])

unfoldable pub emit_pop_reg : ℕ → List ℕ
unfolding prefix_b reg_base
emit_pop_reg rd = prefix_b rd ++ bit_or 0x58 (reg_base rd) ∷ []

unfoldable pub emit_push_reg : ℕ → List ℕ
unfolding prefix_b reg_base
emit_push_reg rs = prefix_b rs ++ bit_or 0x50 (reg_base rs) ∷ []

unfoldable pub emit_ret : List ℕ
emit_ret = 0xc3 ∷ []

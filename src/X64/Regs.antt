-- ===== src/X64/Regs.antt =====
-- arch_reg_t, the map `vr2ar` from VM registers, and the REX prefixes and ModRM modes of vm/x64.h.
use pcomp.Common.{
  ℕ, bit_and, bit_or, Option, none, some, List, [], ◌∷◌, get_or, ◌==◌, if◌then◌else◌,
}

abbrev pub rax : ℕ
rax = 0b0000

abbrev pub rcx : ℕ
rcx = 0b0001

abbrev pub rdx : ℕ
rdx = 0b0010

abbrev pub rbx : ℕ
rbx = 0b0011

abbrev pub rsp : ℕ
rsp = 0b0100

abbrev pub rbp : ℕ
rbp = 0b0101

abbrev pub rsi : ℕ
rsi = 0b0110

abbrev pub rdi : ℕ
rdi = 0b0111

abbrev pub r8 : ℕ
r8 = 0b1000

abbrev pub r9 : ℕ
r9 = 0b1001

abbrev pub r10 : ℕ
r10 = 0b1010

abbrev pub r11 : ℕ
r11 = 0b1011

abbrev pub r12 : ℕ
r12 = 0b1100

abbrev pub r13 : ℕ
r13 = 0b1101

abbrev pub r14 : ℕ
r14 = 0b1110

abbrev pub r15 : ℕ
r15 = 0b1111

abbrev arch_reg_mask : ℕ
arch_reg_mask = 0b00000111

-- `vr2ar`, by the VM register's number; FLAGS (13) and PC (15) have no entry.
abbrev vr2ar : List (Option ℕ)
vr2ar =
    some r8
    ∷ some r9
    ∷ some r10
    ∷ some r11
    ∷ some r12
    ∷ some r13
    ∷ some r14
    ∷ some r15
    ∷ some rax
    ∷ some rcx
    ∷ some rdx
    ∷ some rbx
    ∷ some rsi
    ∷ none
    ∷ some rsp
    ∷ none
    ∷ []

-- `vr2ar.at(reg)`; `none` is the exception of `at`.
unfoldable pub as_arch_reg : ℕ → Option ℕ
as_arch_reg byte = get_or vr2ar byte none

abbrev pub rex_w : ℕ
rex_w = 0b01001000

abbrev rex_r : ℕ
rex_r = 0b01000100

abbrev pub rex_b : ℕ
rex_b = 0b01000001

abbrev pub mod_b8d : ℕ
mod_b8d = 0b01000000

abbrev pub mod_b32d : ℕ
mod_b32d = 0b10000000

abbrev pub mod_r : ℕ
mod_r = 0b11000000

unfoldable pub reg_base : ℕ → ℕ
reg_base r = bit_and r arch_reg_mask

unfoldable rex_adj_r : ℕ → ℕ
unfolding reg_base
rex_adj_r r = if reg_base r == r then 0 else rex_r

unfoldable pub rex_adj_m : ℕ → ℕ
unfolding reg_base
rex_adj_m m = if reg_base m == m then 0 else rex_b

unfoldable pub rex_adj_rm : ℕ → ℕ → ℕ
unfolding rex_adj_r rex_adj_m
rex_adj_rm r m = bit_or (rex_adj_r r) (rex_adj_m m)

-- ===== src/Word.antt =====
-- The fixed-width integers of vm/exe.h: a value is a number below 2 ^ w, and what it stands for as
-- a signed integer is read off by `as_signed64` and `as_signed16`.
pub mod Signed
use pcomp.Common.{ℕ, ◌+◌, ◌-◌, ◌%◌, ◌^◌, ◌<◌, ltb, if◌then◌else◌, ℤ, pos, negsuc}

-- The conversions to `uint64_t`, `uint32_t` and `uint8_t`.
abbrev pub u64 : ℕ → ℕ
u64 n = n % 2 ^ 64

abbrev pub u32 : ℕ → ℕ
u32 n = n % 2 ^ 32

abbrev pub u8 : ℕ → ℕ
u8 n = n % 2 ^ 8

abbrev pub IsU64 : ℕ → Type 0
IsU64 n = n < 2 ^ 64

abbrev pub IsByte : ℕ → Type 0
IsByte n = n < 2 ^ 8

-- Arithmetic on `uint64_t` and, on the bit patterns, on `int64_t`.
unfoldable pub add64 : ℕ → ℕ → ℕ
add64 a b = u64 (a + b)

unfoldable pub sub64 : ℕ → ℕ → ℕ
sub64 a b = u64 (a + 2 ^ 64 - b)

-- `~a`
unfoldable pub not64 : ℕ → ℕ
not64 a = 2 ^ 64 - 1 - a

unfoldable pub as_signed64 : ℕ → ℤ
as_signed64 w = if ltb w (2 ^ 63) then pos w else negsuc (2 ^ 64 - w - 1)

unfoldable pub as_signed16 : ℕ → ℤ
as_signed16 w = if ltb w (2 ^ 15) then pos w else negsuc (2 ^ 16 - w - 1)

-- The conversion of a signed integer to `uint64_t`.
unfoldable pub to_u64 : ℤ → ℕ
to_u64 (pos n) = n % 2 ^ 64
to_u64 (negsuc n) = 2 ^ 64 - 1 - n % 2 ^ 64

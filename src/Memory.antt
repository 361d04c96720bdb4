-- ===== src/Memory.antt =====
-- The VM's memory as bytes, and the accesses `as_hword` and `as_dword` of vm/exe.h: the hosts are
-- little endian, and read and write unaligned words byte by byte.
pub mod Laws
use pcomp.Common.{ℕ, zero, suc, ◌+◌, ◌*◌, ◌/◌, ◌%◌, ◌<◌, ◌≡◌, List, [], ◌∷◌, update}
use pcomp.Word.{IsByte}

abbrev pub Bytes : Type 0
Bytes = ℕ → ℕ

abbrev pub IsBytes : Bytes → Type 0
IsBytes m = (a : ℕ) → IsByte (m a)

-- The value of the `n` bytes from `a` on, lowest first.
unfoldable pub read_le : ℕ → Bytes → ℕ → ℕ
read_le zero m a = 0
read_le (suc n) m a = m a + 256 * read_le n m (a + 1)

unfoldable pub write_le : ℕ → Bytes → ℕ → ℕ → Bytes
write_le zero m a v = m
write_le (suc n) m a v = update (write_le n m (a + 1) (v / 256)) a (v % 256)

unfoldable pub as_hword : Bytes → ℕ → ℕ
as_hword m a = read_le 2 m a

unfoldable pub as_dword : Bytes → ℕ → ℕ
as_dword m a = read_le 8 m a

-- `as_dword(mem[a]) = v`
unfoldable pub set_dword : Bytes → ℕ → ℕ → Bytes
set_dword m a v = write_le 8 m a v

-- The bytes `bs` stand in memory from `a` on.
abbrev pub HasBytes : Bytes → ℕ → List ℕ → Type 0
HasBytes m a [] = Unit
HasBytes m a (b ∷ bs) = (m a ≡ b) × HasBytes m (a + 1) bs

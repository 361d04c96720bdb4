-- ===== src/Memory/Laws.antt =====
-- Reading after writing, at the same place and apart, and the ranges of what is read and written.
use native.Mathlib.Nat.{pow-suc}
use pcomp.Common.{
  ℕ, zero, suc, ◌+◌, ◌/◌, ◌%◌, ◌^◌, ◌≤◌, ◌<◌, ◌≡◌, refl, ◌∙◌, ◌⊎◌, List, [], ◌∷◌, length, arith,
  update,
}
use pcomp.Word.{IsU64}
use pcomp.Memory.{Bytes, IsBytes, HasBytes, read_le, write_le, as_hword, as_dword, set_dword}

-- Two ranges of addresses that share none.
abbrev pub Apart : ℕ → ℕ → ℕ → ℕ → Type 0
Apart a n b k = (a + n ≤ b) ⊎ (b + k ≤ a)

read_le-update :
    (n : ℕ) (m : Bytes) (a b v : ℕ) → Apart b 1 a n → read_le n (update m b v) a ≡ read_le n m a
unfolding read_le
read_le-update zero m a b v h = refl
read_le-update (suc n) m a b v h = ground (arith, read_le-update n m (a + 1) b v (omega arith))

write_le-outside : (n : ℕ) (m : Bytes) (a v b : ℕ) → Apart a n b 1 → write_le n m a v b ≡ m b
unfolding write_le
write_le-outside zero m a v b h = refl
write_le-outside (suc n) m a v b h =
    ground (arith, write_le-outside n m (a + 1) (v / 256) b (omega arith))

read_le-write_le_self :
    (n : ℕ) (m : Bytes) (a v : ℕ) → v < 256 ^ n → read_le n (write_le n m a v) a ≡ v
unfolding read_le write_le
read_le-write_le_self zero m a v h = omega arith
read_le-write_le_self (suc n) m a v h = ground (
  arith,
  read_le-update n (write_le n m (a + 1) (v / 256)) (a + 1) a (v % 256) (omega arith),
  read_le-write_le_self n m (a + 1) (v / 256) (omega (arith, pow-suc 256 n)),
)

read_le-write_le-Apart :
    (k n : ℕ) (m : Bytes) (a b v : ℕ)
    → Apart a n b k
    → read_le k (write_le n m a v) b ≡ read_le k m b
unfolding read_le
read_le-write_le-Apart zero n m a b v h = refl
read_le-write_le-Apart (suc k) n m a b v h = ground (
  arith,
  write_le-outside n m a v b (omega arith),
  read_le-write_le-Apart k n m a (b + 1) v (omega arith),
)

read_le-lt : (n : ℕ) (m : Bytes) (a : ℕ) → IsBytes m → read_le n m a < 256 ^ n
unfolding read_le
read_le-lt zero m a h = omega arith
read_le-lt (suc n) m a h = omega (arith, h a, pow-suc 256 n, read_le-lt n m (a + 1) h)

write_le-IsBytes : (n : ℕ) (m : Bytes) (a v : ℕ) → IsBytes m → IsBytes (write_le n m a v)
unfolding write_le
write_le-IsBytes zero m a v h b = h b
write_le-IsBytes (suc n) m a v h b = ground (arith, write_le-IsBytes n m (a + 1) (v / 256) h b)

-- A dword that is stored is read back at its address.
pub as_dword-set_dword_self : (m : Bytes) (a v : ℕ) → IsU64 v → as_dword (set_dword m a v) a ≡ v
unfolding as_dword set_dword
as_dword-set_dword_self m a v h = read_le-write_le_self 8 m a v (omega arith)

-- A store does not change a dword, a halfword or a byte apart from it.
as_dword-set_dword-Apart :
    (m : Bytes) (a b v : ℕ) → Apart a 8 b 8 → as_dword (set_dword m a v) b ≡ as_dword m b
unfolding as_dword set_dword
as_dword-set_dword-Apart m a b v h = read_le-write_le-Apart 8 8 m a b v h

pub set_dword-outside : (m : Bytes) (a v b : ℕ) → Apart a 8 b 1 → set_dword m a v b ≡ m b
unfolding set_dword
set_dword-outside m a v b h = write_le-outside 8 m a v b h

pub as_dword-lt : (m : Bytes) (a : ℕ) → IsBytes m → IsU64 (as_dword m a)
unfolding as_dword
as_dword-lt m a h = omega (arith, read_le-lt 8 m a h)

as_hword-lt : (m : Bytes) (a : ℕ) → IsBytes m → as_hword m a < 2 ^ 16
unfolding as_hword
as_hword-lt m a h = omega (arith, read_le-lt 2 m a h)

pub set_dword-IsBytes : (m : Bytes) (a v : ℕ) → IsBytes m → IsBytes (set_dword m a v)
unfolding set_dword
set_dword-IsBytes m a v h = write_le-IsBytes 8 m a v h

-- Bytes are where they were in a memory that is the same there.
pub HasBytes-same :
    (m m' : Bytes) (a : ℕ) (bs : List ℕ)
    → ((b : ℕ) → a ≤ b → b < a + length bs → m b ≡ m' b)
    → HasBytes m' a bs
    → HasBytes m a bs
HasBytes-same m m' a [] f h = tt
HasBytes-same m m' a (b ∷ bs) f (e, h) = (
  f a (omega arith) (omega arith) ∙ e,
  HasBytes-same m m' (a + 1) bs (λ c lo hi. f c (omega arith) (omega arith)) h,
)

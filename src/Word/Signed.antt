-- ===== src/Word/Signed.antt =====
-- How the word operations act on the signed values that the words stand for.
use pcomp.Common.{
  ℕ, ◌+◌, ◌-◌, ◌≤◌, ◌<◌, ◌^◌, ◌≡◌, arith, ℤ, pos, negsuc, pos_part, neg_part, ◌+ℤ◌, ◌-ℤ◌, ◌≤ℤ◌,
}
use pcomp.Word.{IsU64, add64, sub64, not64, as_signed64, as_signed16, to_u64}

pub add64-lt : (a b : ℕ) → IsU64 (add64 a b)
unfolding add64
add64-lt a b = omega arith

pub sub64-lt : (a b : ℕ) → IsU64 (sub64 a b)
unfolding sub64
sub64-lt a b = omega arith

pub not64-lt : (a : ℕ) → IsU64 (not64 a)
unfolding not64
not64-lt a = omega arith

to_u64-lt : (n : ℤ) → IsU64 (to_u64 n)
unfolding to_u64
to_u64-lt (pos n) = omega arith
to_u64-lt (negsuc n) = omega arith

-- A word is the conversion of the signed value that it stands for.
to_u64-as_signed64 : (w : ℕ) → IsU64 w → to_u64 (as_signed64 w) ≡ w
unfolding to_u64 as_signed64
to_u64-as_signed64 w h = ground arith

-- A 16-bit pattern stands for a number from -2^15 to 2^15 - 1.
as_signed16_bounds :
    (w : ℕ)
    → w < 2 ^ 16
    → (negsuc (2 ^ 15 - 1) ≤ℤ as_signed16 w) × (as_signed16 w ≤ℤ pos (2 ^ 15 - 1))
unfolding as_signed16
as_signed16_bounds w h = ground arith

-- Adding an offset that a signed index stands for does not wrap where the true sum is an address.
add64-to_u64 :
    (a : ℕ) (n : ℤ)
    → IsU64 a
    → neg_part n ≤ a + pos_part n
    → a + pos_part n < 2 ^ 64
    → neg_part n < 2 ^ 64
    → add64 a (to_u64 n) ≡ a + pos_part n - neg_part n
unfolding add64 to_u64
add64-to_u64 a (pos n) h lo hi k = omega arith
add64-to_u64 a (negsuc n) h lo hi k = omega arith

-- Where the true sum fits 64 bits, the wrapping addition of the patterns gives it.
as_signed64-add64 :
    (a b : ℕ)
    → IsU64 a
    → IsU64 b
    → negsuc (2 ^ 63 - 1) ≤ℤ as_signed64 a +ℤ as_signed64 b
    → as_signed64 a +ℤ as_signed64 b ≤ℤ pos (2 ^ 63 - 1)
    → as_signed64 (add64 a b) ≡ as_signed64 a +ℤ as_signed64 b
unfolding add64 as_signed64
as_signed64-add64 a b ha hb lo hi = ground arith

-- Where the true difference fits 64 bits, the wrapping subtraction gives it.
as_signed64-sub64 :
    (a b : ℕ)
    → IsU64 a
    → IsU64 b
    → negsuc (2 ^ 63 - 1) ≤ℤ as_signed64 a -ℤ as_signed64 b
    → as_signed64 a -ℤ as_signed64 b ≤ℤ pos (2 ^ 63 - 1)
    → as_signed64 (sub64 a b) ≡ as_signed64 a -ℤ as_signed64 b
unfolding sub64 as_signed64
as_signed64-sub64 a b ha hb lo hi = ground arith

-- Subtraction undoes addition, and the other way round.
sub64-add64 : (a b : ℕ) → IsU64 a → IsU64 b → sub64 (add64 a b) b ≡ a
unfolding add64 sub64
sub64-add64 a b ha hb = omega arith

pub add64-sub64 : (a b : ℕ) → IsU64 a → IsU64 b → add64 (sub64 a b) b ≡ a
unfolding add64 sub64
add64-sub64 a b ha hb = omega arith

-- ===== src/Common/Tables.antt =====
-- Facts about bytes and register numbers that are checked value by value.
use Prim.Native.Nat.{ℕ, zero, suc, ◌<◌}
use mathlib.Core.Path.{◌≡◌}
use mathlib.Core.Bool.{Bool, true, ◌&&◌}
use native.Mathlib.Omega.{arith}
use pcomp.Common.Tests.{◌==◌, ==_iff}

unfoldable pub all_below : ℕ → (ℕ → Bool) → Bool
all_below zero p = true
all_below (suc n) p = p n && all_below n p

all_below_sound : (n : ℕ) (p : ℕ → Bool) → all_below n p ≡ true → (x : ℕ) → x < n → p x ≡ true
unfolding all_below
all_below_sound zero p h x lt = absurd (omega arith)
all_below_sound (suc n) p h x lt =
    ground (arith, λ (q : all_below n p ≡ true). all_below_sound n p q x)

-- Two functions that agree on a table agree below its size.
pub table_eq :
    (n : ℕ) (f g : ℕ → ℕ) → all_below n (λ x. f x == g x) ≡ true → (x : ℕ) → x < n → f x ≡ g x
table_eq n f g h x lt = (==_iff (f x) (g x)).0 (all_below_sound n (λ x. f x == g x) h x lt)

-- The same for two arguments.
pub table₂_eq :
    (n m : ℕ) (f g : ℕ → ℕ → ℕ)
    → all_below n (λ x. all_below m (λ y. f x y == g x y)) ≡ true
    → (x y : ℕ) → x < n
    → y < m
    → f x y ≡ g x y
table₂_eq n m f g h x y lx ly =
    table_eq m (f x) (g x) (all_below_sound n (λ x. all_below m (λ y. f x y == g x y)) h x lx) y ly

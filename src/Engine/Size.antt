-- ===== src/Engine/Size.antt =====
-- How large the memory gets, and when the loop of `adjust_mem_size_mb` ends.
use mathlib.Core.Path.{subst}
use native.Mathlib.Nat.{pow-suc, pow-le-pow_right}
use pcomp.Common.{
  ℕ, zero, suc, ◌+◌, ◌-◌, ◌*◌, ◌^◌, ◌≤◌, ◌<◌, ◌≡◌, refl, true, ◌⊎◌, inl, inr, none, some, arith,
  ltb, Bool-cases, lt→ltb,
}
use pcomp.Word.{u64}
use pcomp.Engine.{grow, adjust_mem_size_mb, ExecType, construct}

-- `size` is the least of 4, 8, 16, … that is at least `mb`.
pub record IsAdjusted (mb size : ℕ) : Type 0 where
  pub power : ℕ
  pub is_power : size ≡ 4 * 2 ^ power
  pub enough : mb ≤ size
  pub least : (size ≡ 4) ⊎ (size < 2 * mb)

ltb→lt : (a b : ℕ) → ltb a b ≡ true → a < b
ltb→lt a b h = ground arith

lt_or_eq : (a b : ℕ) → a ≤ b → (a < b) ⊎ (a ≡ b)
lt_or_eq a b h = omega arith

double : (k mb : ℕ) → 4 * 2 ^ k < mb → mb ≤ 2 ^ 63 → u64 (4 * 2 ^ k * 2) ≡ 4 * 2 ^ suc k
double k mb h small = omega (arith, pow-suc 2 k)

power-lt : (k mb : ℕ) → k ≤ 61 → 4 * 2 ^ k < mb → mb ≤ 2 ^ 63 → k < 61
power-lt k mb top h small = elim (lt_or_eq k 61 top) [
  | inl lt ↦ lt
  | inr e ↦ absurd (no (subst (λ j. 4 * 2 ^ j < mb) e h))
]
  where
    no : 4 * 2 ^ 61 < mb → ⊥
    no q = omega arith

grow-IsAdjusted :
    (fuel mb k : ℕ)
    → mb ≤ 2 ^ 63
    → (k ≡ 0) ⊎ (4 * 2 ^ k < 2 * mb)
    → 62 ≤ fuel + k
    → k ≤ 61
    → (size : ℕ) × (grow fuel mb (4 * 2 ^ k) ≡ some size) × IsAdjusted mb size
unfolding grow
grow-IsAdjusted zero mb k small low room top = absurd (omega arith)
grow-IsAdjusted (suc fuel) mb k small low room top = elim (Bool-cases (ltb (4 * 2 ^ k) mb)) [
  | inl more ↦
      let lt : 4 * 2 ^ k < mb = ltb→lt (4 * 2 ^ k) mb more in
      rw (more, double k mb lt small)
        (grow-IsAdjusted fuel mb (suc k) small (inr (omega (arith, pow-suc 2 k))) (omega arith)
          (power-lt k mb top lt small))
  | inr done ↦ (
    4 * 2 ^ k,
    rw done refl,
    record { power = k; is_power = refl; enough = ground (arith, done); least = least_of k mb low },
  )
]
  where
    least_of : (j m : ℕ) → (j ≡ 0) ⊎ (4 * 2 ^ j < 2 * m) → (4 * 2 ^ j ≡ 4) ⊎ (4 * 2 ^ j < 2 * m)
    least_of j m (inl e) = inl (rw e refl)
    least_of j m (inr h) = inr h

-- Above 2^63 the doubling wraps to 0 before it reaches the size that was asked for.
double_wraps :
    (size : ℕ)
    → (size ≡ 0) ⊎ ((k : ℕ) × (k ≤ 63) × (size ≡ 2 ^ k))
    → (u64 (size * 2) ≡ 0) ⊎ ((k : ℕ) × (k ≤ 63) × (u64 (size * 2) ≡ 2 ^ k))
double_wraps size (inl e) = inl (rw e refl)
double_wraps size (inr (k, h, e)) = elim (lt_or_eq k 63 h) [
  | inl lt ↦
      inr (suc k, lt, omega (arith, e, pow-suc 2 k, pow-le-pow_right {n = 2} (omega arith) lt))
  | inr q ↦ inl (rw (e, q) refl)
]

power_bound : (size : ℕ) → (size ≡ 0) ⊎ ((k : ℕ) × (k ≤ 63) × (size ≡ 2 ^ k)) → size ≤ 2 ^ 63
power_bound size (inl e) = omega arith
power_bound size (inr (k, h, e)) = omega (arith, pow-le-pow_right {n = 2} (omega arith) h)

grow-none :
    (fuel mb size : ℕ)
    → 2 ^ 63 < mb
    → (size ≡ 0) ⊎ ((k : ℕ) × (k ≤ 63) × (size ≡ 2 ^ k))
    → grow fuel mb size ≡ none
unfolding grow
grow-none zero mb size large p = refl
grow-none (suc fuel) mb size large p =
    rw (lt→ltb size mb (omega (arith, power_bound size p)))
      (grow-none fuel mb (u64 (size * 2)) large (double_wraps size p))

-- For every request up to 2^63 MiB, 62 rounds of the loop are enough, and the result is the least
-- of the sizes 4, 8, 16, … that is at least the request.
pub adjust_mem_size_mb-IsAdjusted :
    (mb : ℕ)
    → mb ≤ 2 ^ 63
    → (size : ℕ) × (adjust_mem_size_mb 62 mb ≡ some size) × IsAdjusted mb size
unfolding adjust_mem_size_mb
adjust_mem_size_mb-IsAdjusted mb small =
    grow-IsAdjusted 62 mb 0 small (inl refl) (omega arith) (omega arith)

-- For a request above 2^63 MiB no number of rounds is enough: the loop does not end.
pub adjust_mem_size_mb-none : (fuel mb : ℕ) → 2 ^ 63 < mb → adjust_mem_size_mb fuel mb ≡ none
unfolding adjust_mem_size_mb
adjust_mem_size_mb-none fuel mb large = grow-none fuel mb 4 large (inr (2, omega arith, refl))

-- An engine for an adjusted size of at most 2^43 MiB has that many MiB of memory, and a JIT splits
-- them into a quarter of code and three quarters of data with nothing left over.
pub construct_split :
    (kind : ExecType) (mb size : ℕ)
    → IsAdjusted mb size
    → size ≤ 2 ^ 43
    → ((construct kind size).mem_size ≡ size * 2 ^ 20)
      × (4 * (construct kind size).text_mem_size ≡ (construct kind size).mem_size)
      × ((construct kind size).text_mem_size + (construct kind size).data_mem_size
          ≡ (construct kind size).mem_size)
unfolding construct
construct_split kind mb size h small = omega arith

pow_scaled : (k : ℕ) → 2 ^ (42 + k) ≡ 2 ^ 42 * 2 ^ k
pow_scaled zero = refl
pow_scaled (suc k) =
    let e : 42 + suc k ≡ suc (42 + k) = omega arith in
    rw e (omega (arith, pow_scaled k, pow-suc 2 k, pow-suc 2 (42 + k)))

power_split : (p : ℕ) → 42 ≤ p → 2 ^ p ≡ 2 ^ 42 * 2 ^ (p - 42)
power_split p h = subst (λ q. 2 ^ q ≡ 2 ^ 42 * 2 ^ (p - 42)) (omega arith) (pow_scaled (p - 42))

below_power : (p : ℕ) → p < 42 → 2 ^ p ≤ 2 ^ 41
below_power p h =
    let q : p ≤ 41 = omega arith in pow-le-pow_right {n = 2} (omega arith) {i = p} {j = 41} q

-- For an adjusted size of at least 2^44 MiB the shift wraps, and the engine has no memory at all,
-- nor has a JIT code or data.
pub construct_wraps :
    (kind : ExecType) (mb size : ℕ)
    → IsAdjusted mb size
    → 2 ^ 44 ≤ size
    → ((construct kind size).mem_size ≡ 0)
      × ((construct kind size).text_mem_size ≡ 0)
      × ((construct kind size).data_mem_size ≡ 0)
unfolding construct
construct_wraps kind mb size h large = elim (lt_or_eq_or h.power) [
  | inl low ↦ absurd (omega (arith, below_power h.power low, h.is_power))
  | inr high ↦
      let e : size ≡ 2 ^ 44 * 2 ^ (h.power - 42) =
        omega (arith, h.is_power, power_split h.power high) in
      omega (arith, e)
]
  where
    lt_or_eq_or : (p : ℕ) → (p < 42) ⊎ (42 ≤ p)
    lt_or_eq_or p = omega arith

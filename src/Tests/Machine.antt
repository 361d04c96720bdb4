-- ===== src/Tests/Machine.antt =====
-- Small machines for the tests: the bytes of the memory and the registers as lists.
use pcomp.Common.{ℕ, zero, suc, ◌<◌, ◌^◌, refl, List, [], ◌∷◌, get_or, All, arith}
use pcomp.Word.{IsByte, IsU64}
use pcomp.Memory.{Bytes}
use pcomp.Interpreter.State.{Vm}
use pcomp.Interpreter.Invariant.{IsVm}

abbrev pub image : List ℕ → Bytes
image bs a = get_or bs a 0

abbrev pub machine : List ℕ → List ℕ → ℕ → Vm
machine bs rs size = record { mem = image bs; mem_size = size; reg = image rs; out = [] }

pub image_bound :
    (k : ℕ) (bs : List ℕ) → All (λ b. b < 2 ^ k) bs → 0 < 2 ^ k → (a : ℕ) → image bs a < 2 ^ k
image_bound k [] h p a = p
image_bound k (b ∷ bs) h p zero = h.0
image_bound k (b ∷ bs) h p (suc a) = image_bound k bs h.1 p a

pub machine-IsVm :
    (bs rs : List ℕ) (size : ℕ) → All IsByte bs → All IsU64 rs → IsVm size (machine bs rs size)
machine-IsVm bs rs size hb hr = record {
  sized = refl;
  bytes = image_bound 8 bs hb (omega arith);
  words = image_bound 64 rs hr (omega arith);
}

-- ===== src/X64/Placed/Padding.antt =====
-- Code with `nop` behind it in the rest of its slots.
use pcomp.Common.{
  ℕ, ◌+◌, ◌-◌, ◌≤◌, ◌<◌, ◌≡◌, ap, ◌∙◌, List, [], ◌∷◌, ◌++◌, length, length-append, arith,
}
use mathlib.Core.Path.{subst}
use pcomp.Memory.{Bytes, HasBytes}
use pcomp.Memory.Laws.{HasBytes-same}
use pcomp.Behaviour.Steps.{HasBytes-append}
use pcomp.Spec.Decode.{HasBytes-at}
use pcomp.Jit.Code.{repeat-add}
use pcomp.X64.Encode.{emit_nop}
use pcomp.X64.Placed.FirstPass.{nops}
use pcomp.X64.Placed.Rounds.{length-nops}

HasBytes-join :
    (m : Bytes) (a : ℕ) (xs ys : List ℕ)
    → HasBytes m a xs
    → HasBytes m (a + length xs) ys
    → HasBytes m a (xs ++ ys)
HasBytes-join m a [] ys h k = HasBytes-at m _ _ ys (omega arith) k
HasBytes-join m a (x ∷ xs) ys (e, h) k =
    (e, HasBytes-join m (a + 1) xs ys h (HasBytes-at m _ _ ys (omega arith) k))

-- The code of a branch in its slots, and `nop` in those that it does not need.
pub HasBytes-padded :
    (t : Bytes) (c n : ℕ) (bs : List ℕ)
    → length bs ≤ n
    → HasBytes t c bs
    → ((old : Bytes) × HasBytes old c (nops n)
        × ((b : ℕ) → c + length bs ≤ b → b < c + n → t b ≡ old b))
    → HasBytes t c (bs ++ nops (n - length bs)) × (length (bs ++ nops (n - length bs)) ≡ n)
HasBytes-padded t c n bs fit h (old, b, same) =
    let k : ℕ = n - length bs in
    let split : HasBytes old c (nops (length bs) ++ nops k) =
      subst (λ q. HasBytes old c q) (ap nops (omega arith) ∙ repeat-add (length bs) k emit_nop) b in
    let (_, rest) = HasBytes-append old c (nops (length bs)) (nops k) split in
    let left : HasBytes old (c + length bs) (nops k) =
      HasBytes-at old _ _ (nops k) (omega (arith, length-nops (length bs))) rest in
    (
      HasBytes-join t c bs (nops k) h (
          HasBytes-same t old (c + length bs) (nops k)
            (λ q lo hi. same q lo (omega (arith, length-nops k))) left),
      omega (arith, length-append bs (nops k), length-nops k),
    )

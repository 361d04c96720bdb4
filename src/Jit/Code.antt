-- ===== src/Jit/Code.antt =====
-- What `emit` writes, and what it leaves alone.
use pcomp.Common.{
  ℕ, zero, suc, ◌+◌, ◌*◌, ◌≡◌, refl, sym, ap, ◌∙◌, List, [], ◌∷◌, ◌++◌, append_assoc, length,
  length-append, arith, update,
}
use pcomp.Memory.{HasBytes}
use pcomp.Memory.Laws.{Apart}
use pcomp.Jit.{Jit, emit, repeat}

pub emit-arch : (bs : List ℕ) (j : Jit) → (emit bs j).jpos.arch ≡ j.jpos.arch + length bs
unfolding emit
emit-arch [] j = omega arith
emit-arch (b ∷ bs) j =
    emit-arch bs (record j {
      text = update j.text j.jpos.arch b;
      jpos = record { arch = j.jpos.arch + 1; vm = j.jpos.vm };
    })
    ∙ omega arith

pub emit-outside :
    (bs : List ℕ) (j : Jit) (a : ℕ)
    → Apart j.jpos.arch (length bs) a 1
    → (emit bs j).text a ≡ j.text a
unfolding emit
emit-outside [] j a h = refl
emit-outside (b ∷ bs) j a h =
    emit-outside bs
      (record j {
        text = update j.text j.jpos.arch b;
        jpos = record { arch = j.jpos.arch + 1; vm = j.jpos.vm };
      })
      a (omega arith)
    ∙ ground arith

pub emit-HasBytes : (bs : List ℕ) (j : Jit) → HasBytes (emit bs j).text j.jpos.arch bs
unfolding emit
emit-HasBytes [] j = tt
emit-HasBytes (b ∷ bs) j =
    let j' : Jit = record j {
      text = update j.text j.jpos.arch b;
      jpos = record { arch = j.jpos.arch + 1; vm = j.jpos.vm };
    } in
    (emit-outside bs j' j.jpos.arch (omega arith) ∙ ground arith, emit-HasBytes bs j')

-- Emitting changes the code and the place in it, and nothing else.
pub emit-rest :
    (bs : List ℕ) (j : Jit)
    → ((emit bs j).jpos.vm ≡ j.jpos.vm)
      × ((emit bs j).deferred_jpos ≡ j.deferred_jpos)
      × ((emit bs j).va2aa ≡ j.va2aa)
unfolding emit
emit-rest [] j = (refl, refl, refl)
emit-rest (b ∷ bs) j = emit-rest bs (record j {
  text = update j.text j.jpos.arch b;
  jpos = record { arch = j.jpos.arch + 1; vm = j.jpos.vm };
})

pub length-repeat : (n : ℕ) (bs : List ℕ) → length (repeat n bs) ≡ n * length bs
length-repeat zero bs = omega arith
length-repeat (suc n) bs = omega (arith, length-append bs (repeat n bs), length-repeat n bs)

pub repeat-add : (n k : ℕ) (bs : List ℕ) → repeat (n + k) bs ≡ repeat n bs ++ repeat k bs
repeat-add zero k bs = ap (λ q. repeat q bs) (omega arith)
repeat-add (suc n) k bs =
    ap (λ q. repeat q bs) (suc-add n k)
    ∙ ap (λ q. bs ++ q) (repeat-add n k bs)
    ∙ sym (append_assoc bs (repeat n bs) (repeat k bs))
  where
    suc-add : (n k : ℕ) → suc n + k ≡ suc (n + k)
    suc-add n k = omega arith

-- Emitting keeps the code that it does not overwrite.
pub HasBytes-emit :
    (cs : List ℕ) (j : Jit) (a : ℕ) (bs : List ℕ)
    → Apart j.jpos.arch (length cs) a (length bs)
    → HasBytes j.text a bs
    → HasBytes (emit cs j).text a bs
HasBytes-emit cs j a [] h k = tt
HasBytes-emit cs j a (b ∷ bs) h (e, k) =
    (emit-outside cs j a (omega arith) ∙ e, HasBytes-emit cs j (a + 1) bs (omega arith) k)

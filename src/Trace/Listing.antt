-- ===== src/Trace/Listing.antt =====
-- Every address but 0 that has code has its entry in `va2idd`, when a translation ends.
use pcomp.Common.{
  ℕ, zero, suc, ◌≡◌, ◌≢◌, refl, sym, ap, List, [], ◌∷◌, length, Bool, true, false, Option, none,
  some, some-injective, ltb, ◌==◌, if◌then◌else◌, update, inl, inr, arith, eq→==, ne→==, ◌⊎◌,
}
use mathlib.Core.Path.{subst}
use pcomp.Jit.{
  ◌>>=◌, JitPos, Jit, Program, record_addr_mapping, jit_loop, for_each_deferred, jit_deferred,
  jit_program,
}
use pcomp.Trace.{Idd}
use pcomp.Trace.Decode.{jit_idd}
use pcomp.Trace.Record.{Listing, record_instr, record_loop, record_deferred, record_program}

-- What a computation that returned went through.
bind-some :
    {A B : Type 0} (o : Option A) (f : A → Option B) (b : B)
    → (o >>= f) ≡ some b
    → (a : A) × (o ≡ some a) × (f a ≡ some b)
bind-some none f b e = absurd (cc e)
bind-some (some a) f b e = (a, refl, e)

if-some :
    {A : Type 0} (b : Bool) (x y : Option A) (a : A)
    → (if b then x else y) ≡ some a
    → ((b ≡ true) × (x ≡ some a)) ⊎ ((b ≡ false) × (y ≡ some a))
if-some true x y a e = inl (refl, e)
if-some false x y a e = inr (refl, e)

-- Every address but 0 that has code has its decoded instruction recorded.
unfoldable pub IsRecorded : Program → Jit → (ℕ → Option Idd) → Type 0
IsRecorded p j m =
    (va a : ℕ)
    → j.va2aa va ≡ some a
    → va ≢ 0
    → (d : Idd) × (m va ≡ some d) × (jit_idd p va ≡ some d)

-- A recording that ends where `j'` is the state of the translation.
abbrev Records : Program → Jit → Option Listing → Type 0
Records p j' o =
    (m : ℕ → Option Idd) × (o ≡ some (record { jit = j'; va2idd = m })) × IsRecorded p j' m

module _ (p : Program) (f : Jit → Option Jit)
    (decodes : (j j' : Jit) → f j ≡ some j' → (d : Idd) × (jit_idd p j.jpos.vm ≡ some d))
    (same_map : (j j' : Jit) → f j ≡ some j' → j'.va2aa ≡ j.va2aa) where
  record_instr-some :
      (j j' : Jit) (m : ℕ → Option Idd) (d : Idd)
      → f j ≡ some j'
      → jit_idd p j.jpos.vm ≡ some d
      → record_instr f p (record { jit = j; va2idd = m })
        ≡ some (record { jit = j'; va2idd = update m j.jpos.vm (some d) })
  unfolding record_instr
  record_instr-some j j' m d e k = rw (k, e) refl

  -- An entry is added for an address that may have got its code just now.
  IsRecorded-update :
      (j j' : Jit) (m : ℕ → Option Idd) (d : Idd) (vm : ℕ)
      → jit_idd p vm ≡ some d
      → ((va a : ℕ) → j'.va2aa va ≡ some a → va ≢ vm → j.va2aa va ≡ some a)
      → IsRecorded p j m
      → IsRecorded p j' (update m vm (some d))
  unfolding IsRecorded
  IsRecorded-update j j' m d vm k old h va a e n = elim (eq_or_ne vm va) [
    | inl q ↦ (d, rw (eq→== vm va q) refl, rw q at k)
    | inr ne ↦ rw (ne→== vm va ne) (h va a (old va a e (λ q. ne (sym q))) n)
  ]
    where
      eq_or_ne : (x y : ℕ) → (x ≡ y) ⊎ (x ≢ y)
      eq_or_ne x y = omega arith

  stays :
      (j j' : Jit) (m : ℕ → Option Idd)
      → j ≡ j'
      → IsRecorded p j m
      → Records p j' (some (record { jit = j; va2idd = m }))
  stays j j' m e h =
      (m, ap (λ k. some (record { jit = k; va2idd = m })) e, subst (λ k. IsRecorded p k m) e h)

  before :
      (j j₁ : Jit)
      → f (record_addr_mapping j) ≡ some j₁
      → (va a : ℕ) → j₁.va2aa va ≡ some a
      → va ≢ j.jpos.vm
      → j.va2aa va ≡ some a
  unfolding record_addr_mapping
  before j j₁ e va a c n =
      let c' = rw (same_map (record_addr_mapping j) j₁ e) at c in
      rw (ne→== j.jpos.vm va (λ q. n (sym q))) at c'

  record_loop-Records :
      (fuel : ℕ) (j j' : Jit) (m : ℕ → Option Idd)
      → jit_loop f fuel p.prog_size j ≡ some j'
      → IsRecorded p j m
      → Records p j' (record_loop f p fuel (record { jit = j; va2idd = m }))
  unfolding jit_loop record_loop record_addr_mapping
  record_loop-Records zero j j' m e h =
      elim (if-some (ltb j.jpos.vm p.prog_size) none (some j) j' e) [
        | inl (b, q) ↦ absurd (cc q)
        | inr (b, q) ↦ rw b (stays j j' m (some-injective q) h)
      ]
  record_loop-Records (suc fuel) j j' m e h =
      elim (if-some (ltb j.jpos.vm p.prog_size) _ (some j) j' e) [
        | inl (b, q) ↦
            let (j₁, e₁, rest) = bind-some (f (record_addr_mapping j)) _ j' q in
            let (d, k) = decodes (record_addr_mapping j) j₁ e₁ in
            rw (b, record_instr-some (record_addr_mapping j) j₁ m d e₁ k)
              (record_loop-Records fuel j₁ j' (update m j.jpos.vm (some d)) rest
                (IsRecorded-update j j₁ m d j.jpos.vm k (before j j₁ e₁) h))
        | inr (b, q) ↦ rw b (stays j j' m (some-injective q) h)
      ]

  record_deferred-Records :
      (jps : List JitPos) (j j' : Jit) (m : ℕ → Option Idd)
      → for_each_deferred f jps j ≡ some j'
      → IsRecorded p j m
      → Records p j' (record_deferred f p jps (record { jit = j; va2idd = m }))
  unfolding for_each_deferred record_deferred
  record_deferred-Records [] j j' m e h = stays j j' m (some-injective e) h
  record_deferred-Records (jp ∷ jps) j j' m e h =
      let (j₁, e₁, rest) = bind-some (f (record j { jpos = jp })) _ j' e in
      let (d, k) = decodes (record j { jpos = jp }) j₁ e₁ in
      let kept =
        IsRecorded-update j j₁ m d jp.vm k
          (λ va a c n. rw (same_map (record j { jpos = jp }) j₁ e₁) at c) h in
      elim (if-some (length j₁.deferred_jpos == length j.deferred_jpos) _ none j' rest) [
        | inl (b, q) ↦
            rw (record_instr-some (record j { jpos = jp }) j₁ m d e₁ k, b)
              (record_deferred-Records jps j₁ j' (update m jp.vm (some d)) q kept)
        | inr (b, q) ↦ absurd (cc q)
      ]

  -- The recording follows the translation of a program to its end.
  pub record_program-Records :
      (j j' : Jit) (m : ℕ → Option Idd)
      → jit_program f p.prog_size j ≡ some j'
      → IsRecorded p j m
      → Records p j' (record_program f p (record { jit = j; va2idd = m }))
  unfolding jit_program jit_deferred record_program IsRecorded
  record_program-Records j j' m e h =
      let (j₁, e₁, rest) = bind-some (jit_loop f p.prog_size p.prog_size j) (jit_deferred f) j' e in
      let (j₂, e₂, last) = bind-some (for_each_deferred f j₁.deferred_jpos j₁) _ j' rest in
      let (m₁, r₁, k₁) = record_loop-Records p.prog_size j j₁ m e₁ h in
      let (m₂, r₂, k₂) = record_deferred-Records j₁.deferred_jpos j₁ j₂ m₁ e₂ k₁ in
      rw (r₁, r₂) (stays (record j₂ { jpos = j₁.jpos }) j' m₂ (some-injective last) k₂)

-- ===== src/X64/Placed/FirstPass.antt =====
-- The loop over the program: code for the instructions whose target is known, slots for the others.
use pcomp.Common.{
  ℕ, suc, ◌+◌, ◌≤◌, ◌<◌, ◌≡◌, ◌≢◌, refl, ap, ◌∙◌, List, [], ◌∷◌, ◌++◌, length, Option, some, none,
  arith, update, ◌⊎◌, inl, inr, eq→==, ne→==, lt→ltb,
}
use mathlib.Core.Path.{subst}
use pcomp.Memory.{Bytes, HasBytes}
use pcomp.Memory.Laws.{HasBytes-same}
use pcomp.Spec.{Instruction, Source, encode, IsInstruction}
use pcomp.Jit.{JitPos, Jit, Program, emit, vm_add, repeat, no_addr, record_addr_mapping, jit_loop}
use pcomp.Jit.Code.{emit-arch, emit-outside, emit-rest, emit-HasBytes}
use pcomp.X64.Encode.{emit_nop}
use pcomp.X64.Jit.{jit_vm_instruction}
use pcomp.X64.Placed.Code.{code_of, target_in, slots_of}

-- The encoded instructions stand one behind the other from `a` to the end of the program.
abbrev pub IsLaid : Program → ℕ → List Instruction → Type 0
IsLaid p a [] = a ≡ p.prog_size
IsLaid p a (i ∷ is) =
    IsInstruction i × HasBytes p.bytes a (encode i) × IsLaid p (a + length (encode i)) is

abbrev pub nops : ℕ → List ℕ
nops n = repeat n emit_nop

-- The code from `c` to `end` for the instructions from `a` on, after the loop: each address is
-- mapped to its code; a target that is known has its code, the others have their slots and stand in
-- `ds`.
abbrev pub IsWritten : (ℕ → Option ℕ) → Bytes → ℕ → ℕ → List Instruction → List JitPos → ℕ → Type 0
IsWritten m t a c [] ds end = (ds ≡ []) × (c ≡ end)
IsWritten m t a c (i ∷ is) ds end =
    (m a ≡ some c)
    × (((target_in i m ≢ no_addr)
          × HasBytes t c (code_of i (target_in i m) c)
          × IsWritten m t (a + length (encode i)) (c + length (code_of i (target_in i m) c)) is ds
              end)
        ⊎ ((target_in i (λ _. none) ≡ no_addr)
            × HasBytes t c (nops (slots_of i))
            × ((rest : List JitPos) × (ds ≡ record { arch = c; vm = a } ∷ rest)
                × IsWritten m t (a + length (encode i)) (c + slots_of i) is rest end)))

pub IsLaid-room : (p : Program) (a : ℕ) (is : List Instruction) → IsLaid p a is → a ≤ p.prog_size
IsLaid-room p a [] h = omega arith
IsLaid-room p a (i ∷ is) (k, b, h) = omega (arith, IsLaid-room p (a + length (encode i)) is h)

pub encode-positive : (i : Instruction) → 0 < length (encode i)
encode-positive (Instruction.load rd rs idx) = omega arith
encode-positive (Instruction.binary op rd (Source.reg rs)) = omega arith
encode-positive (Instruction.binary op rd (Source.imm v)) = omega arith
encode-positive _ = omega arith

-- Every mapped address is below `a`.
abbrev pub IsMapBelow : (ℕ → Option ℕ) → ℕ → Type 0
IsMapBelow m a = (b c : ℕ) → m b ≡ some c → b < a

-- What the rest of the loop, from `j`, does.
pub record Loop (p : Program) (fuel : ℕ) (j : Jit) (is : List Instruction) : Type 0 where
  pub final : Jit
  pub deferred : List JitPos
  pub runs : jit_loop (jit_vm_instruction p) fuel p.prog_size j ≡ some final
  pub pushed : final.deferred_jpos ≡ j.deferred_jpos ++ deferred
  pub below : (b : ℕ) → b < j.jpos.arch → final.text b ≡ j.text b
  pub kept : (b : ℕ) → b < j.jpos.vm → final.va2aa b ≡ j.va2aa b
  pub forward : j.jpos.arch ≤ final.jpos.arch
  pub written : IsWritten final.va2aa final.text j.jpos.vm j.jpos.arch is deferred final.jpos.arch

-- One round: code or slots `bs` are written for the instruction, and then the loop goes on.
module _ (p : Program) (fuel : ℕ) (j : Jit) (i : Instruction) (bs : List ℕ) (d : List JitPos) where
  abbrev pub round : Jit
  round =
      vm_add (length (encode i)) (emit bs (record (record_addr_mapping j) { deferred_jpos = d }))

  pub round-vm : round.jpos.vm ≡ j.jpos.vm + length (encode i)
  unfolding record_addr_mapping
  round-vm =
      ap (λ n. n + length (encode i))
        (emit-rest bs (record (record_addr_mapping j) { deferred_jpos = d })).0

  pub round-arch : round.jpos.arch ≡ j.jpos.arch + length bs
  unfolding record_addr_mapping
  round-arch = emit-arch bs (record (record_addr_mapping j) { deferred_jpos = d })

  round-map : round.va2aa ≡ update j.va2aa j.jpos.vm (some j.jpos.arch)
  unfolding record_addr_mapping
  round-map = (emit-rest bs (record (record_addr_mapping j) { deferred_jpos = d })).2

  pub round-deferred : round.deferred_jpos ≡ d
  unfolding record_addr_mapping
  round-deferred = (emit-rest bs (record (record_addr_mapping j) { deferred_jpos = d })).1

  round-text : (b : ℕ) → b < j.jpos.arch → round.text b ≡ j.text b
  unfolding record_addr_mapping
  round-text b h =
      emit-outside bs (record (record_addr_mapping j) { deferred_jpos = d }) b (omega arith)

  round-HasBytes : HasBytes round.text j.jpos.arch bs
  unfolding record_addr_mapping
  round-HasBytes = emit-HasBytes bs (record (record_addr_mapping j) { deferred_jpos = d })

  pub round-IsMapBelow : IsMapBelow j.va2aa j.jpos.vm → IsMapBelow round.va2aa round.jpos.vm
  round-IsMapBelow h b c e = elim (eq_or_ne j.jpos.vm b) [
    | inl q ↦ omega (arith, round-vm, encode-positive i)
    | inr ne ↦
        let old : j.va2aa b ≡ some c = rw (round-map, ne→== j.jpos.vm b ne) at e in
        omega (arith, round-vm, h b c old)
  ]
    where
      eq_or_ne : (a b : ℕ) → (a ≡ b) ⊎ (a ≢ b)
      eq_or_ne a b = omega arith

  module _ (is : List Instruction) (l : Loop p fuel round is) where
    pub loop-runs :
        jit_vm_instruction p (record_addr_mapping j) ≡ some round
        → j.jpos.vm < p.prog_size
        → jit_loop (jit_vm_instruction p) (suc fuel) p.prog_size j ≡ some l.final
    unfolding jit_loop
    loop-runs e room = rw (lt→ltb j.jpos.vm p.prog_size room, e) l.runs

    pub loop-below : (b : ℕ) → b < j.jpos.arch → l.final.text b ≡ j.text b
    loop-below b h = l.below b (omega (arith, round-arch)) ∙ round-text b h

    pub loop-kept : (b : ℕ) → b < j.jpos.vm → l.final.va2aa b ≡ j.va2aa b
    loop-kept b h =
        l.kept b (omega (arith, round-vm))
        ∙ rw (round-map, ne→== j.jpos.vm b (λ q. omega arith)) refl

    pub loop-mapped : l.final.va2aa j.jpos.vm ≡ some j.jpos.arch
    loop-mapped =
        l.kept j.jpos.vm (omega (arith, round-vm, encode-positive i))
        ∙ rw (round-map, eq→== j.jpos.vm j.jpos.vm refl) refl

    pub loop-HasBytes : HasBytes l.final.text j.jpos.arch bs
    loop-HasBytes =
        HasBytes-same l.final.text round.text j.jpos.arch bs
          (λ b lo hi. l.below b (omega (arith, round-arch))) round-HasBytes

    pub loop-rest :
        IsWritten l.final.va2aa l.final.text
          (j.jpos.vm + length (encode i))
          (j.jpos.arch + length bs)
          is
          l.deferred
          l.final.jpos.arch
    loop-rest =
        subst
          (λ a.
            IsWritten l.final.va2aa l.final.text a (j.jpos.arch + length bs) is l.deferred
              l.final.jpos.arch)
          round-vm
          (subst
            (λ c.
              IsWritten l.final.va2aa l.final.text round.jpos.vm c is l.deferred l.final.jpos.arch)
            round-arch l.written)

    pub loop-more :
        IsMapBelow j.va2aa j.jpos.vm
        → (b c : ℕ) → update j.va2aa j.jpos.vm (some j.jpos.arch) b ≡ some c
        → l.final.va2aa b ≡ some c
    loop-more h b c e =
        let old : round.va2aa b ≡ some c = rw round-map e in
        l.kept b (round-IsMapBelow h b c old) ∙ old

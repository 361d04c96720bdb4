-- ===== src/Jit/Patch.antt =====
-- The order in which `emit_sys_enter_stub` of vm/x64.cc and vm/a64.cc writes the system call stub: the
-- pieces first, and then the two jumps into the places that were left free for them.
use pcomp.Common.{ℕ, ◌+◌, ◌≡◌, ◌∙◌, List, length, some, arith, update}
use mathlib.Core.Path.{subst}
use pcomp.Memory.{HasBytes}
use pcomp.Memory.Laws.{Apart}
use pcomp.Jit.{Jit, emit, set_arch, record_addr_mapping}
use pcomp.Jit.Code.{emit-arch, emit-outside, emit-rest, emit-HasBytes, HasBytes-emit}

-- The code `ts`, `cs` and `xs`, with `n` bytes left free before and `m` after the first piece.
module _ (n m : ℕ) (ts cs xs : List ℕ) (j : Jit) where
  abbrev pub tested : Jit
  tested = emit ts (record_addr_mapping (set_arch (j.jpos.arch + n) j))

  abbrev pub called : Jit
  called = emit cs (set_arch (tested.jpos.arch + m) tested)

  abbrev pub left : Jit
  left = emit xs called

  pub tested_arch : tested.jpos.arch ≡ j.jpos.arch + n + length ts
  unfolding record_addr_mapping
  tested_arch = emit-arch ts (record_addr_mapping (set_arch (j.jpos.arch + n) j))

  pub called_arch : called.jpos.arch ≡ j.jpos.arch + (n + m) + length ts + length cs
  called_arch = omega (arith, tested_arch, emit-arch cs (set_arch (tested.jpos.arch + m) tested))

  pub left_arch : left.jpos.arch ≡ j.jpos.arch + (n + m) + length ts + length cs + length xs
  left_arch = omega (arith, called_arch, emit-arch xs called)

-- Then the jumps `js` and `es` are written into the free places.
module _ (n m : ℕ) (ts cs xs : List ℕ) (j : Jit) (js es : List ℕ) (lj : length js ≡ n)
    (le : length es ≡ m) where
  abbrev jumped : Jit
  jumped = emit js (set_arch j.jpos.arch (left n m ts cs xs j))

  abbrev patched : Jit
  patched = emit es (set_arch (tested n m ts cs xs j).jpos.arch jumped)

  -- What is written before the two jumps, and apart from them, is in the code at the end.
  kept :
      (a : ℕ) (bs : List ℕ)
      → Apart j.jpos.arch n a (length bs)
      → Apart (tested n m ts cs xs j).jpos.arch m a (length bs)
      → HasBytes (left n m ts cs xs j).text a bs
      → HasBytes patched.text a bs
  kept a bs over branch k =
      HasBytes-emit es (set_arch (tested n m ts cs xs j).jpos.arch jumped) a bs
        (omega (arith, le, branch))
        (HasBytes-emit js (set_arch j.jpos.arch (left n m ts cs xs j)) a bs
          (omega (arith, lj, over)) k)

  pub over_code : HasBytes patched.text j.jpos.arch js
  over_code =
      HasBytes-emit es (set_arch (tested n m ts cs xs j).jpos.arch jumped) j.jpos.arch js
        (omega (arith, lj, (tested_arch n m ts cs xs j)))
        (emit-HasBytes js (set_arch j.jpos.arch (left n m ts cs xs j)))

  pub branch_code : HasBytes patched.text (j.jpos.arch + n + length ts) es
  branch_code =
      subst (λ a. HasBytes patched.text a es) (tested_arch n m ts cs xs j)
        (emit-HasBytes es (set_arch (tested n m ts cs xs j).jpos.arch jumped))

  pub test_code : HasBytes patched.text (j.jpos.arch + n) ts
  unfolding record_addr_mapping
  test_code =
      kept (j.jpos.arch + n) ts (omega arith) (omega (arith, (tested_arch n m ts cs xs j))) (
        HasBytes-emit xs (called n m ts cs xs j) (j.jpos.arch + n) ts
          (omega (arith, (called_arch n m ts cs xs j)))
          (HasBytes-emit cs
            (set_arch ((tested n m ts cs xs j).jpos.arch + m) (tested n m ts cs xs j))
            (j.jpos.arch + n) ts (omega (arith, (tested_arch n m ts cs xs j)))
            (emit-HasBytes ts (record_addr_mapping (set_arch (j.jpos.arch + n) j)))))

  call_at : (tested n m ts cs xs j).jpos.arch + m ≡ j.jpos.arch + (n + m) + length ts
  call_at = omega (arith, (tested_arch n m ts cs xs j))

  pub call_code : HasBytes patched.text (j.jpos.arch + (n + m) + length ts) cs
  call_code =
      kept (j.jpos.arch + (n + m) + length ts) cs (omega arith)
        (omega (arith, (tested_arch n m ts cs xs j)))
        (HasBytes-emit xs (called n m ts cs xs j) (j.jpos.arch + (n + m) + length ts) cs
          (omega (arith, (called_arch n m ts cs xs j)))
          (subst (λ a. HasBytes (called n m ts cs xs j).text a cs) call_at
            (emit-HasBytes cs
              (set_arch ((tested n m ts cs xs j).jpos.arch + m) (tested n m ts cs xs j)))))

  pub exit_code : HasBytes patched.text (j.jpos.arch + (n + m) + length ts + length cs) xs
  exit_code =
      kept (j.jpos.arch + (n + m) + length ts + length cs) xs (omega arith)
        (omega (arith, (tested_arch n m ts cs xs j)))
        (subst (λ a. HasBytes (left n m ts cs xs j).text a xs) (called_arch n m ts cs xs j)
          (emit-HasBytes xs (called n m ts cs xs j)))

  -- Nothing outside the stub is written.
  pub around :
      (a : ℕ)
      → Apart j.jpos.arch (n + m + length ts + length cs + length xs) a 1
      → patched.text a ≡ j.text a
  unfolding record_addr_mapping
  around a k =
      emit-outside es (set_arch (tested n m ts cs xs j).jpos.arch jumped) a
        (omega (arith, le, (tested_arch n m ts cs xs j)))
      ∙ emit-outside js (set_arch j.jpos.arch (left n m ts cs xs j)) a (omega (arith, lj))
      ∙ emit-outside xs (called n m ts cs xs j) a (omega (arith, (called_arch n m ts cs xs j)))
      ∙ emit-outside cs (set_arch ((tested n m ts cs xs j).jpos.arch + m) (tested n m ts cs xs j)) a
          (omega (arith, (tested_arch n m ts cs xs j)))
      ∙ emit-outside ts (record_addr_mapping (set_arch (j.jpos.arch + n) j)) a (omega arith)

  pub recorded :
      (patched.jpos.vm ≡ j.jpos.vm)
      × (patched.va2aa ≡ update j.va2aa j.jpos.vm (some (j.jpos.arch + n)))
      × (patched.deferred_jpos ≡ j.deferred_jpos)
  unfolding record_addr_mapping
  recorded =
      let (v₅, d₅, m₅) = emit-rest es (set_arch (tested n m ts cs xs j).jpos.arch jumped) in
      let (v₄, d₄, m₄) = emit-rest js (set_arch j.jpos.arch (left n m ts cs xs j)) in
      let (v₃, d₃, m₃) = emit-rest xs (called n m ts cs xs j) in
      let (v₂, d₂, m₂) =
        emit-rest cs (set_arch ((tested n m ts cs xs j).jpos.arch + m) (tested n m ts cs xs j)) in
      let (v₁, d₁, m₁) = emit-rest ts (record_addr_mapping (set_arch (j.jpos.arch + n) j)) in
      (v₅ ∙ v₄ ∙ v₃ ∙ v₂ ∙ v₁, m₅ ∙ m₄ ∙ m₃ ∙ m₂ ∙ m₁, d₅ ∙ d₄ ∙ d₃ ∙ d₂ ∙ d₁)

-- ===== src/Behaviour/Stack.antt =====
-- `_push` with `_pop`, and `_call` with `_ret`, of vm/int.cc.
use pcomp.Common.{
  ℕ, ◌+◌, ◌-◌, ◌≤◌, ◌<◌, ◌^◌, ◌≡◌, ◌≢◌, refl, sym, ◌∙◌, List, [], ◌∷◌, ◌++◌, length, some, arith,
  ne→==, eq→==,
}
use pcomp.Word.{IsU64, add64, sub64}
use pcomp.Word.Signed.{add64-sub64}
use pcomp.Memory.{Bytes, as_dword, set_dword}
use pcomp.Memory.Laws.{Apart, as_dword-set_dword_self, set_dword-outside, set_dword-IsBytes}
use pcomp.Exe.{sp, pc}
use pcomp.Interpreter.State.{Vm, next, mem_dword, store_dword, set_reg, sp_add}
use pcomp.Interpreter.Invariant.{IsVm, set_reg-IsVm}
use pcomp.Spec.{Instruction, encode, IsOperand, HasBytes, perform}
use pcomp.Behaviour.Steps.{steps, HasBytes-append, steps-perform}

-- Code survives a store apart from it.
HasBytes-set_dword :
    (m : Bytes) (a v b : ℕ) (bs : List ℕ)
    → Apart a 8 b (length bs)
    → HasBytes m b bs
    → HasBytes (set_dword m a v) b bs
HasBytes-set_dword m a v b [] k h = tt
HasBytes-set_dword m a v b (x ∷ xs) k (h, hs) = (
  set_dword-outside m a v b (omega arith) ∙ h,
  HasBytes-set_dword m a v (b + 1) xs (omega arith) hs,
)

pub store_dword-some :
    (s : Vm) (a v : ℕ)
    → a + 8 ≤ s.mem_size
    → store_dword s a v ≡ some (record s { mem = set_dword s.mem a v })
unfolding store_dword
store_dword-some s a v h = ground arith

pub mem_dword-some :
    (s : Vm) (a v : ℕ) → a + 8 ≤ s.mem_size → as_dword s.mem a ≡ v → mem_dword s a ≡ some v
unfolding mem_dword
mem_dword-some s a v h e = ground arith

sub64-le : (a b : ℕ) → IsU64 a → b ≤ a → sub64 a b ≡ a - b
unfolding sub64
sub64-le a b ha h = omega arith

-- A dword has been written below `top`, the registers but `PC` and `rd` are as before, and nothing
-- was displayed.
pub record Restored (rd top target : ℕ) (s s' : Vm) : Type 0 where
  pub at : s'.reg pc ≡ target
  pub registers : (r : ℕ) → r ≢ pc → r ≢ rd → s'.reg r ≡ s.reg r
  pub memory : (b : ℕ) → Apart (top - 8) 8 b 1 → s'.mem b ≡ s.mem b
  pub output : s'.out ≡ s.out

module _ (s : Vm) {size : ℕ} (h : IsVm size s) (small : size < 2 ^ 64) (room : 8 ≤ s.reg sp)
    (top : s.reg sp ≤ size) where
  -- The machine with `v` pushed, about to go on at `a`.
  abbrev moved : Vm
  moved = set_reg sp (s.reg sp - 8) s

  abbrev pushed : ℕ → ℕ → Vm
  pushed v a = set_reg pc a (record moved { mem = set_dword s.mem (s.reg sp - 8) v })

  pushed-IsVm : (v a : ℕ) → IsU64 a → IsVm size (pushed v a)
  pushed-IsVm v a ha = set_reg-IsVm pc a _ ha (record {
    sized = h.sized;
    bytes = set_dword-IsBytes s.mem (s.reg sp - 8) v h.bytes;
    words = (set_reg-IsVm sp (s.reg sp - 8) s (omega (arith, h.words sp)) h).words;
  })

  below : sub64 (s.reg sp) 8 ≡ s.reg sp - 8
  below = sub64-le (s.reg sp) 8 (h.words sp) room

  store_moved :
      (v : ℕ)
      → store_dword moved (s.reg sp - 8) v
        ≡ some (record moved { mem = set_dword s.mem (s.reg sp - 8) v })
  store_moved v = store_dword-some moved (s.reg sp - 8) v (omega (arith, h.sized))

  perform-push :
      (rs : ℕ)
      → rs ≢ sp
      → perform (Instruction.push rs) (s.reg pc) s ≡ next (pushed (s.reg rs) (s.reg pc + 2))
  unfolding perform
  perform-push rs ne = rw (ne→== sp rs (λ q. ne (sym q)), below) (rw (store_moved (s.reg rs)) refl)

  perform-call :
      (a : ℕ) → perform (Instruction.call a) (s.reg pc) s ≡ next (pushed (s.reg pc + 9) a)
  unfolding perform
  perform-call a = rw below (rw (store_moved (s.reg pc + 9)) refl)

  -- What a pop reads back.
  load_pushed : (v a : ℕ) → IsU64 v → mem_dword (pushed v a) (s.reg sp - 8) ≡ some v
  load_pushed v a hv =
      mem_dword-some (pushed v a) (s.reg sp - 8) v (omega (arith, h.sized))
        (as_dword-set_dword_self s.mem (s.reg sp - 8) v hv)

  back_up : add64 (s.reg sp - 8) 8 ≡ s.reg sp
  back_up = rw (← below) (add64-sub64 (s.reg sp) 8 (h.words sp) (omega arith))

  -- `PUSH <Rs>` with `POP <Rd>` behind it copies `<Rs>` to `<Rd>` and leaves `SP` and every other
  -- register as before; only the dword below the stack's top is written. The stack has room, its
  -- new top does not overlap the second instruction, and neither register is `SP`.
  pub pop-push :
      (rs rd : ℕ)
      → IsOperand rs
      → IsOperand rd
      → rs ≢ sp
      → rd ≢ sp
      → HasBytes s.mem (s.reg pc) (encode (Instruction.push rs) ++ encode (Instruction.pop rd))
      → s.reg pc + 4 ≤ size
      → Apart (s.reg sp - 8) 8 (s.reg pc + 2) 2
      → (s' : Vm) × (steps 2 s ≡ next s')
        × (s'.reg rd ≡ s.reg rs)
        × Restored rd (s.reg sp) (s.reg pc + 4) s s'
  unfolding steps perform
  pop-push rs rd ks kd ns nd b fits apart =
      let (b₁, b₂) =
        HasBytes-append s.mem (s.reg pc) (encode (Instruction.push rs))
          (encode (Instruction.pop rd)) b in
      let v : ℕ = s.reg rs in
      let s₁ : Vm = pushed v (s.reg pc + 2) in
      let h₁ : IsVm size s₁ = pushed-IsVm v (s.reg pc + 2) (omega arith) in
      let b₂' : HasBytes s₁.mem (s.reg pc + 2) (encode (Instruction.pop rd)) =
        HasBytes-set_dword s.mem (s.reg sp - 8) v (s.reg pc + 2) (encode (Instruction.pop rd)) apart
          b₂ in
      (
        set_reg pc (s.reg pc + 2 + 2) (sp_add 8 (set_reg rd v s₁)),
        steps-perform 1 (Instruction.push rs) s s₁ h small ks tt b₁ (omega arith)
              (perform-push rs ns)
            ∙ steps-perform 0 (Instruction.pop rd) s₁ _ h₁ small kd tt b₂' (omega arith)
                (rw (load_pushed v (s.reg pc + 2) (h.words rs)) refl),
        rw (ne→== pc rd (λ q. kd.2 (sym q)), ne→== sp rd (λ q. nd (sym q)), eq→== rd rd refl) refl,
        record {
          at = omega arith;
          registers = λ r np nr. ground (arith, back_up);
          memory = λ c k. set_dword-outside s.mem (s.reg sp - 8) v c k;
          output = refl;
        },
      )

  -- `CALL <imm>` to a `RET` comes back behind the call with `SP` and every other register as
  -- before; only the dword below the stack's top is written, and it does not overlap the `RET`.
  pub ret-call :
      (a : ℕ)
      → IsU64 a
      → HasBytes s.mem (s.reg pc) (encode (Instruction.call a))
      → s.reg pc + 9 ≤ size
      → HasBytes s.mem a (encode Instruction.ret)
      → a + 1 ≤ size
      → Apart (s.reg sp - 8) 8 a 1
      → (s' : Vm) × (steps 2 s ≡ next s') × Restored pc (s.reg sp) (s.reg pc + 9) s s'
  unfolding steps perform
  ret-call a ha b fits r fits' apart =
      let back : ℕ = s.reg pc + 9 in
      let s₁ : Vm = pushed back a in
      (
        set_reg pc back (sp_add 8 s₁),
        steps-perform 1 (Instruction.call a) s s₁ h small ha tt b fits (perform-call a)
            ∙ steps-perform 0 Instruction.ret s₁ _ (pushed-IsVm back a ha) small tt tt
                (HasBytes-set_dword s.mem (s.reg sp - 8) back a (encode Instruction.ret) apart r)
                fits' (rw (load_pushed back a (omega arith)) refl),
        record {
          at = refl;
          registers = λ r np nr. ground (arith, back_up);
          memory = λ c k. set_dword-outside s.mem (s.reg sp - 8) back c k;
          output = refl;
        },
      )

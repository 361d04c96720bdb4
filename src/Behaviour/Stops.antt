-- ===== src/Behaviour/Stops.antt =====
-- Where a run of the interpreter can end: only the jump at address 0 returns or aborts.
use pcomp.Common.{
  ℕ, ◌≡◌, ◌≢◌, refl, ap, Bool, true, false, Option, ◌∙◌, some, none, ◌==◌, if◌then◌else◌,
  Bool-cases, ◌⊎◌, inl, inr, arith, pos, ℤ,
}
use mathlib.Core.Path.{subst}
use pcomp.Word.{add64, as_signed64, as_signed16, to_u64}
use pcomp.Exe.{VmInstr, sp, pc, instr, instr_handle, reg_src, flag_eq, access_mode, am_reg}
use pcomp.Interpreter.State.{
  Vm, Outcome, next, exit, abort, fault, ◌>>=◌, and_then, mem_byte, mem_hword, mem_dword,
  store_dword, sp_add, sp_sub, display,
}
use pcomp.Interpreter.Handlers.{
  pc_plus, Operand, two_operands, exec_load, exec_store, exec_not, exec_push, exec_pop, exec_call,
  exec_ret, pop_parameter, sys_enter, exec_jmp, exec_jmp_if, exec_jmpne, exec_instr, flag_set,
}
use pcomp.Interpreter.Run.{step}

-- The machine stands at a jump at address 0, where system calls are entered, and `id` is the number
-- of the call on its stack.
pub record Enters (s : Vm) (id : ℕ) : Type 0 where
  pub at_entry : s.reg pc ≡ 0
  pub is_jump : (b : ℕ) × (mem_byte s 0 ≡ some b) × (instr_handle (instr b) ≡ some VmInstr.jmp)
  pub call : mem_dword s (add64 (s.reg sp) 8) ≡ some id

-- What an outcome tells of the state before it, if it ends the run.
abbrev pub StopsBy : Vm → Outcome → Type 0
StopsBy s (exit s') = Enters s 0 × (s' ≡ sp_add 16 s)
StopsBy s (abort s') = (id : ℕ) × Enters s id × (id ≢ 0) × (id ≢ 1) × (id ≢ 2) × (s' ≡ s)
StopsBy s o = Unit

-- The outcomes that do not end the run by themselves.
abbrev GoesOn : Outcome → Type 0
GoesOn (exit s) = ⊥
GoesOn (abort s) = ⊥
GoesOn o = Unit

GoesOn-bind :
    {A : Type 0} (o : Option A) (f : A → Outcome) → ((a : A) → GoesOn (f a)) → GoesOn (o >>= f)
GoesOn-bind none f h = tt
GoesOn-bind (some a) f h = h a

GoesOn-if : (b : Bool) (x y : Outcome) → GoesOn x → GoesOn y → GoesOn (if b then x else y)
GoesOn-if b x y hx hy = elim (Bool-cases b) [ inl e ↦ rw e hx | inr e ↦ rw e hy ]

two_operands-GoesOn : (body : ℕ → Operand → Vm → Vm) (s : Vm) → GoesOn (two_operands body s)
unfolding two_operands
two_operands-GoesOn body s = GoesOn-bind (mem_byte s (s.reg pc)) _ λ op.
    GoesOn-bind (mem_byte s (pc_plus 1 s)) _ λ b.
      GoesOn-if (access_mode op == am_reg) _ _ tt
        (GoesOn-bind (mem_dword s (pc_plus 2 s)) _ λ iv. tt)

exec_ret-GoesOn : (s : Vm) → GoesOn (exec_ret s)
unfolding exec_ret
exec_ret-GoesOn s = GoesOn-bind (mem_dword s (s.reg sp)) _ λ v. tt

exec_jmp_if-GoesOn : (mask : ℕ) (s : Vm) → GoesOn (exec_jmp_if mask s)
unfolding exec_jmp_if
exec_jmp_if-GoesOn mask s =
    GoesOn-bind (mem_dword s (pc_plus 1 s)) _ λ iv. GoesOn-if (flag_set mask s) _ _ tt tt

-- Every handler but that of JMP goes on.
exec_instr-GoesOn : (i : VmInstr) (s : Vm) → i ≢ VmInstr.jmp → GoesOn (exec_instr i s)
unfolding exec_instr exec_load exec_store exec_not exec_push exec_pop exec_call exec_jmpne
exec_instr-GoesOn VmInstr.load s n = GoesOn-bind (mem_byte s (pc_plus 1 s)) _ λ b.
    GoesOn-bind (mem_hword s (pc_plus 2 s)) _ λ idx.
      GoesOn-bind (mem_dword s (add64 (s.reg (reg_src b)) (to_u64 (as_signed16 idx)))) _ λ v. tt
exec_instr-GoesOn VmInstr.store s n =
    GoesOn-bind (mem_byte s (pc_plus 1 s)) _ λ b.
      GoesOn-bind (mem_hword s (pc_plus 2 s)) _ λ idx. GoesOn-bind (store_dword s _ _) _ λ s'. tt
exec_instr-GoesOn VmInstr.not s n = GoesOn-bind (mem_byte s (pc_plus 1 s)) _ λ b. tt
exec_instr-GoesOn VmInstr.push s n =
    GoesOn-bind (mem_byte s (pc_plus 1 s)) _
      λ b. GoesOn-bind (store_dword (sp_sub 8 s) _ _) _ λ s'. tt
exec_instr-GoesOn VmInstr.pop s n =
    GoesOn-bind (mem_byte s (pc_plus 1 s)) _ λ b. GoesOn-bind (mem_dword s (s.reg sp)) _ λ v. tt
exec_instr-GoesOn VmInstr.call s n =
    GoesOn-bind (mem_dword s (pc_plus 1 s)) _
      λ iv. GoesOn-bind (store_dword (sp_sub 8 s) _ _) _ λ s'. tt
exec_instr-GoesOn VmInstr.ret s n = exec_ret-GoesOn s
exec_instr-GoesOn VmInstr.jmp s n = absurd (n refl)
exec_instr-GoesOn VmInstr.jmpeq s n = exec_jmp_if-GoesOn _ s
exec_instr-GoesOn VmInstr.jmpne s n =
    GoesOn-bind (mem_dword s (pc_plus 1 s)) _ λ iv. GoesOn-if (flag_set flag_eq s) _ _ tt tt
exec_instr-GoesOn VmInstr.jmpgt s n = exec_jmp_if-GoesOn _ s
exec_instr-GoesOn VmInstr.jmplt s n = exec_jmp_if-GoesOn _ s
exec_instr-GoesOn VmInstr.jmpge s n = exec_jmp_if-GoesOn _ s
exec_instr-GoesOn VmInstr.jmple s n = exec_jmp_if-GoesOn _ s
exec_instr-GoesOn _ s n = two_operands-GoesOn _ s

GoesOn-and_then :
    (o : Outcome) (f : Vm → Outcome) → GoesOn o → ((s : Vm) → GoesOn (f s)) → GoesOn (and_then o f)
GoesOn-and_then (next s) f h k = k s
GoesOn-and_then (exit s) f h k = absurd h
GoesOn-and_then (abort s) f h k = absurd h
GoesOn-and_then fault f h k = tt

GoesOn-StopsBy : (s : Vm) (o : Outcome) → GoesOn o → StopsBy s o
GoesOn-StopsBy s (exit t) h = absurd h
GoesOn-StopsBy s (abort t) h = absurd h
GoesOn-StopsBy s (next t) h = tt
GoesOn-StopsBy s fault h = tt

pop_parameter-GoesOn : (s : Vm) → GoesOn (pop_parameter s)
unfolding pop_parameter
pop_parameter-GoesOn s =
    GoesOn-bind (mem_dword s (s.reg sp)) _
      λ back. GoesOn-bind (store_dword s (add64 (s.reg sp) 16) back) _ λ s'. tt

StopsBy-bind :
    {A : Type 0} (s : Vm) (o : Option A) (f : A → Outcome)
    → ((a : A) → o ≡ some a → StopsBy s (f a))
    → StopsBy s (o >>= f)
StopsBy-bind s none f h = tt
StopsBy-bind s (some a) f h = h a refl

StopsBy-if :
    (s : Vm) (b : Bool) (x y : Outcome)
    → (b ≡ true → StopsBy s x)
    → (b ≡ false → StopsBy s y)
    → StopsBy s (if b then x else y)
StopsBy-if s true x y hx hy = hx refl
StopsBy-if s false x y hx hy = hy refl

-- A call that shows its parameter goes on behind the return.
display-GoesOn :
    (s : Vm) (show : ℕ → ℤ)
    → GoesOn (
        and_then
          (mem_dword s (add64 (s.reg sp) 16) >>= λ val. pop_parameter (display (show val) s))
          exec_ret)
display-GoesOn s show =
    GoesOn-and_then _ exec_ret
      (GoesOn-bind (mem_dword s (add64 (s.reg sp) 16)) _ λ val. pop_parameter-GoesOn _)
      exec_ret-GoesOn

module _ (s : Vm) (id : ℕ) (enters : Enters s id) where
  call-StopsBy : (id == 0) ≡ false → StopsBy s (and_then (sys_enter s) exec_ret)
  unfolding sys_enter
  call-StopsBy n = rw enters.call (elim (Bool-cases (id == 1)) [
    | inl one ↦ rw (n, one) (GoesOn-StopsBy s _ (display-GoesOn s as_signed64))
    | inr n₁ ↦ elim (Bool-cases (id == 2)) [
      | inl two ↦ rw (n, n₁, two) (GoesOn-StopsBy s _ (display-GoesOn s pos))
      | inr n₂ ↦ rw (n, n₁, n₂) (id, enters, ground arith, ground arith, ground arith, refl)
    ]
  ])

exec_jmp-StopsBy :
    (s : Vm) (b : ℕ)
    → mem_byte s (s.reg pc) ≡ some b
    → instr_handle (instr b) ≡ some VmInstr.jmp
    → StopsBy s (exec_jmp s)
unfolding exec_jmp
exec_jmp-StopsBy s b e i = StopsBy-bind s (mem_dword s (pc_plus 1 s)) _ λ iv _.
    StopsBy-if s (s.reg pc == 0) _ _
      (λ z.
        let at : s.reg pc ≡ 0 = ground arith in
        StopsBy-bind s (mem_dword s (add64 (s.reg sp) 8)) _ λ id c.
          let enters : Enters s id = record {
            at_entry = at;
            is_jump = (b, rw at at e, i);
            call = c;
          } in
          StopsBy-if s (id == 0) _ _
            (λ z'. let zero_id : id ≡ 0 = ground arith in (subst (Enters s) zero_id enters, refl))
            (λ n. call-StopsBy s id enters n))
      (λ _. tt)

is_jmp : (i : VmInstr) → (i ≡ VmInstr.jmp) ⊎ (i ≢ VmInstr.jmp)
is_jmp VmInstr.jmp = inl refl
is_jmp VmInstr.load = inr λ e. absurd (cc e)
is_jmp _ = inr λ e. absurd (cc e)

-- Whatever the bytes at the program counter, a step returns from the run only at a jump at address 0
-- with system call 0, with two words popped, and ends the process only at such a jump with a call
-- that is none of 0, 1 and 2, and with nothing changed: the internal error of `sys_enter` on call 0
-- is never reached.
pub step_stops : (s : Vm) → StopsBy s (step s)
unfolding step
step_stops s = StopsBy-bind s (mem_byte s (s.reg pc)) _ λ b e.
    StopsBy-bind s (instr_handle (instr b)) _ λ i h. elim (is_jmp i) [
      | inl j ↦ rw j (unfold exec_instr in exec_jmp-StopsBy s b e (h ∙ ap some j))
      | inr n ↦ GoesOn-StopsBy s _ (exec_instr-GoesOn i s n)
    ]

-- ===== src/Behaviour/Syscall.antt =====
-- The system calls: the jump at address 0 in `_jmp`, and `Interpreter::sys_enter`, of vm/int.cc.
use pcomp.Common.{
  ℕ, ◌+◌, ◌≤◌, ◌<◌, ◌^◌, ◌≡◌, ◌≢◌, refl, sym, ◌∙◌, ◌∷◌, some, arith, if◌then◌else◌, ne→==, eq→==,
  ◌==◌, ℤ, pos,
}
use pcomp.Word.{IsU64, add64, as_signed64}
use pcomp.Memory.{as_dword, set_dword}
use pcomp.Memory.Laws.{Apart, as_dword-set_dword_self, set_dword-outside, as_dword-lt}
use pcomp.Exe.{VmInstr, sp, pc, syscall_vm_exit, syscall_display_sint, syscall_display_uint}
use pcomp.Interpreter.State.{
  Vm, next, exit, abort, and_then, mem_dword, set_reg, sp_add, display, dispatch,
}
use pcomp.Interpreter.Handlers.{pc_plus, exec_jmp, exec_ret, exec_instr, sys_enter, pop_parameter}
use pcomp.Interpreter.Run.{step}
use pcomp.Interpreter.Invariant.{IsVm}
use pcomp.Spec.{opcode}
use pcomp.Spec.Decode.{step-exec_instr, add64-zero}
use pcomp.Behaviour.Stack.{store_dword-some, mem_dword-some}

-- The stack of doc/vm.md on entry to a system call: the return address on top, below it the number
-- of the call and its parameter. The machine is at address 0, where a `JMP` stands.
pub record Entered (size back id val : ℕ) (s : Vm) : Type 0 where
  pub valid : IsVm size s
  pub small : size < 2 ^ 64
  pub at : s.reg pc ≡ 0
  pub jump : s.mem 0 ≡ opcode VmInstr.jmp 1
  pub code : 9 ≤ size
  pub stack : s.reg sp + 24 ≤ size
  pub return_address : as_dword s.mem (s.reg sp) ≡ back
  pub number : as_dword s.mem (s.reg sp + 8) ≡ id
  pub parameter : as_dword s.mem (s.reg sp + 16) ≡ val

module _ (s : Vm) {size back id val : ℕ} (e : Entered size back id val s) where
  entry : step s ≡ exec_jmp s
  unfolding exec_instr
  entry =
      step-exec_instr s e.valid e.small VmInstr.jmp 1 (omega arith) (rw e.at e.jump)
        (omega (arith, e.at, e.code))

  slot : (n : ℕ) → n ≤ 16 → add64 (s.reg sp) n ≡ s.reg sp + n
  unfolding add64
  slot n h = omega (arith, e.stack, e.small)

  immediate : mem_dword s (pc_plus 1 s) ≡ some (as_dword s.mem 1)
  unfolding add64
  immediate = rw e.at (mem_dword-some s 1 _ (omega (arith, e.code, e.valid.sized)) refl)

  call_number : mem_dword s (add64 (s.reg sp) 8) ≡ some id
  call_number =
      rw (slot 8 (omega arith))
        (mem_dword-some s (s.reg sp + 8) id (omega (arith, e.stack, e.valid.sized)) e.number)

  -- System call 0 ends the run, with the return address and the number popped.
  pub step-vm_exit : id ≡ syscall_vm_exit → step s ≡ exit (sp_add 16 s)
  unfolding exec_jmp
  step-vm_exit z = entry ∙ rw (immediate, eq→== (s.reg pc) 0 e.at, call_number, eq→== id 0 z) refl

  -- A number above 2 is no system call: the process is aborted and nothing has changed.
  pub step-unsupported : syscall_display_uint < id → step s ≡ abort s
  unfolding exec_jmp sys_enter
  step-unsupported z =
      entry
      ∙ rw
          (
            immediate,
            eq→== (s.reg pc) 0 e.at,
            call_number,
            ne→== id 0 (omega arith),
            ne→== id 1 (omega arith),
            ne→== id 2 (omega arith),
          )
          refl

  back_lt : IsU64 back
  back_lt = rw e.return_address at (as_dword-lt s.mem (s.reg sp) e.valid.bytes)

  parameter_value : mem_dword s (add64 (s.reg sp) 16) ≡ some val
  parameter_value =
      rw (slot 16 (omega arith))
        (mem_dword-some s (s.reg sp + 16) val (omega (arith, e.stack, e.valid.sized)) e.parameter)

  -- The machine behind `sys_enter`: the return address has taken the parameter's place.
  abbrev returning : ℤ → Vm
  returning d =
      set_reg sp (s.reg sp + 16)
        (record s { mem = set_dword s.mem (s.reg sp + 16) back; out = d ∷ s.out })

  pop_parameter-eq : (d : ℤ) → pop_parameter (display d s) ≡ next (returning d)
  unfolding pop_parameter
  pop_parameter-eq d =
      rw
        (
          mem_dword-some (display d s) (s.reg sp) back (omega (arith, e.stack, e.valid.sized))
              e.return_address,
          slot 16 (omega arith),
          store_dword-some (display d s) (s.reg sp + 16) back
              (omega (arith, e.stack, e.valid.sized)),
        )
        (rw (slot 16 (omega arith)) refl)

  exec_ret-eq :
      (d : ℤ)
      → exec_ret (returning d)
        ≡ dispatch 0 (set_reg sp (add64 (s.reg sp + 16) 8) (set_reg pc back (returning d)))
  unfolding exec_ret
  exec_ret-eq d =
      rw
        (mem_dword-some (returning d) (s.reg sp + 16) back (omega (arith, e.stack, e.valid.sized))
          (as_dword-set_dword_self s.mem (s.reg sp + 16) back back_lt))
        refl

  cleared_lem : add64 (s.reg sp + 16) 8 ≡ s.reg sp + 24
  unfolding add64
  cleared_lem = omega (arith, e.stack, e.small)

  -- What a display call shows: the parameter as a signed or as an unsigned number.
  abbrev shown : ℤ
  shown = if id == syscall_display_sint then as_signed64 val else pos val

  sys_enter-display : 0 < id → id < 3 → sys_enter s ≡ next (returning shown)
  unfolding sys_enter
  sys_enter-display lo hi = ground (
    arith,
    call_number,
    parameter_value,
    pop_parameter-eq (as_signed64 val),
    pop_parameter-eq (pos val),
  )

  exec_jmp-display : 0 < id → id < 3 → exec_jmp s ≡ and_then (sys_enter s) exec_ret
  unfolding exec_jmp
  exec_jmp-display lo hi =
      rw (immediate, eq→== (s.reg pc) 0 e.at, call_number, ne→== id 0 (omega arith)) refl

-- What a display call leaves.
pub record Displayed (back : ℕ) (d : ℤ) (s s' : Vm) : Type 0 where
  pub at : s'.reg pc ≡ back
  pub cleared : s'.reg sp ≡ s.reg sp + 24
  pub registers : (r : ℕ) → r ≢ pc → r ≢ sp → s'.reg r ≡ s.reg r
  pub memory : (b : ℕ) → Apart (s.reg sp + 16) 8 b 1 → s'.mem b ≡ s.mem b
  pub output : s'.out ≡ d ∷ s.out

-- System calls 1 and 2 display their parameter, 1 as a signed and 2 as an unsigned number, go back
-- to the return address, and clear the return address, the number and the parameter off the stack.
-- Every other register is as before, and so is memory but for the parameter's place.
pub step-display :
    (s : Vm) {size back id val : ℕ} (e : Entered size back id val s)
    → 0 < id
    → id < 3
    → (s' : Vm) × (step s ≡ next s')
      × Displayed back (if id == syscall_display_sint then as_signed64 val else pos val) s s'
step-display s {size} {back} {id} {val} e lo hi =
    let d : ℤ = shown s e in
    (
      set_reg pc (add64 back 0)
          (set_reg sp (add64 (s.reg sp + 16) 8) (set_reg pc back (returning s e d))),
      entry s e ∙ exec_jmp-display s e lo hi ∙ rw (sys_enter-display s e lo hi) (exec_ret-eq s e d),
      record {
        at = add64-zero back (back_lt s e);
        cleared = cleared_lem s e;
        registers = λ r np ns. rw (ne→== pc r (λ q. np (sym q)), ne→== sp r (λ q. ns (sym q))) refl;
        memory = λ b k. set_dword-outside s.mem (s.reg sp + 16) back b k;
        output = refl;
      },
    )

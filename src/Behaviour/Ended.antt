-- ===== src/Behaviour/Ended.antt =====
-- How a whole run of the interpreter ends, from the loaded program on.
use pcomp.Common.{
  ℕ, zero, suc, ◌≤◌, ◌<◌, ◌≡◌, ◌≢◌, refl, List, length, le→leb, lt→leb, ◌⊎◌, inl, inr, arith,
}
use pcomp.Memory.{Bytes}
use pcomp.Exe.{pc}
use pcomp.Interpreter.State.{Vm, next, sp_add}
use pcomp.Interpreter.Run.{
  step, Result, returned, aborted, run, load_program, init_execution, exec_program, execute,
}
use pcomp.Behaviour.Steps.{steps}
use pcomp.Behaviour.Runs.{Outcome-cases, run-next, run-exit, run-abort, run-fault}
use pcomp.Behaviour.Stops.{Enters, step_stops}

-- `t` is reached from `s` by instructions that go on, and enters the system call `id`.
pub record Reaches (s t : Vm) (id : ℕ) : Type 0 where
  pub count : ℕ
  pub goes : steps count s ≡ next t
  pub enters : Enters t id

-- What a result tells of the run from `s`, if the run has ended.
abbrev pub EndsBy : Vm → Result → Type 0
EndsBy s (returned s') = (t : Vm) × Reaches s t 0 × (s' ≡ sp_add 16 t)
EndsBy s (aborted s') = (id : ℕ) × Reaches s s' id × (id ≢ 0) × (id ≢ 1) × (id ≢ 2)
EndsBy s r = Unit

module _ (s t : Vm) (e : step s ≡ next t) where
  Reaches-before : (u : Vm) (id : ℕ) → Reaches t u id → Reaches s u id
  Reaches-before u id r = record {
    count = suc r.count;
    goes = unfold steps in rw e r.goes;
    enters = r.enters;
  }

  EndsBy-before : (r : Result) → EndsBy t r → EndsBy s r
  EndsBy-before (returned s') (u, r, p) = (u, Reaches-before u 0 r, p)
  EndsBy-before (aborted s') (id, r, n₀, n₁, n₂) = (id, Reaches-before s' id r, n₀, n₁, n₂)
  EndsBy-before _ h = tt

here : (s : Vm) (id : ℕ) → Enters s id → Reaches s s id
unfolding steps
here s id h = record { count = 0; goes = refl; enters = h }

run-EndsBy : (n : ℕ) (s : Vm) → EndsBy s (run n s)
run-EndsBy zero s = unfold run in tt
run-EndsBy (suc n) s = elim (Outcome-cases (step s)) [
  | inl (t, e) ↦ rw (run-next n s t e) (EndsBy-before s t e (run n t) (run-EndsBy n t))
  | inr (inl (t, e)) ↦
      let (enters, p) = rw e at (step_stops s) in rw (run-exit n s t e) (s, here s 0 enters, p)
  | inr (inr (inl (t, e))) ↦
      let (id, enters, n₀, n₁, n₂, p) = rw e at (step_stops s) in
      rw (run-abort n s t e) (id, rw p (here s id enters), n₀, n₁, n₂)
  | inr (inr (inr e)) ↦ rw (run-fault n s e) tt
]

module _ (prog : List ℕ) (size : ℕ) (old : Bytes) where
  -- The machine before its first instruction.
  abbrev pub loaded : Vm
  loaded = load_program prog (init_execution size old)

  loaded_pc : loaded.reg pc ≡ 9
  unfolding load_program init_execution
  loaded_pc = refl

  -- A program that does not reach past the entry of the system calls, 9 bytes, returns at once with
  -- the freshly loaded machine. A longer one returns only by system call 0 at address 0, with two
  -- words popped, and ends the process only by a call there that is none of 0, 1 and 2, each time
  -- after instructions that go on from the loaded machine.
  pub execute_ends :
      (fuel : ℕ)
      → ((length prog ≤ 9) × (execute fuel prog size old ≡ returned loaded))
        ⊎ ((9 < length prog) × EndsBy loaded (execute fuel prog size old))
  unfolding execute exec_program
  execute_ends fuel = elim (short_or_long (length prog)) [
    | inl short ↦
        inl (short, rw (le→leb (length prog) (loaded.reg pc) (omega (arith, loaded_pc))) refl)
    | inr long ↦ inr (
      long,
      rw (lt→leb (length prog) (loaded.reg pc) (omega (arith, loaded_pc))) (run-EndsBy fuel loaded),
    )
  ]
    where
      short_or_long : (n : ℕ) → (n ≤ 9) ⊎ (9 < n)
      short_or_long n = omega arith

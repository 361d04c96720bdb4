-- ===== src/Trace/Dumped.antt =====
-- The listing of a translated program, of vm/jit.cc over vm/x64.cc.
use pcomp.Common.{ℕ, ◌+◌, ◌≤◌, ◌≡◌, ◌≢◌, refl, true, [], length, Option, none, some, ne→==}
use pcomp.Memory.{HasBytes}
use pcomp.Jit.{Jit, Program, no_addr}
use pcomp.X64.Jit.{jit_vm_instruction, jit_program}
use pcomp.Spec.{Instruction, encode, IsInstruction}
use pcomp.Trace.{Idd}
use pcomp.Trace.Record.{record_program, dump_instr}
use pcomp.Trace.Listing.{IsRecorded, record_program-Records}
use pcomp.Trace.Recorded.{Entry, jit_vm_instruction-entry}
use pcomp.Trace.Shown.{jit_idd-line}
use pcomp.Trace.Syntax.{line, set_apart, listed}

entry : (p : Program) (j j' : Jit) → jit_vm_instruction p j ≡ some j' → Entry p j j'
entry p j j' e = rw e at (jit_vm_instruction-entry p j)

nothing-IsRecorded :
    (p : Program) (j : Jit)
    → ((va a : ℕ) → j.va2aa va ≡ some a → va ≡ 0)
    → IsRecorded p j (λ _. none)
unfolding IsRecorded
nothing-IsRecorded p j h va a e n = absurd (n (h va a e))

-- A translation that starts with code for no address but 0 (that of the system call stub) and
-- succeeds also records the decoded instructions. Then an address other than 0 and -1 that has got
-- code, and where an encoded instruction with operands in the documented ranges lies inside the
-- program, is found in the record, and the listing shows for it, between two empty lines, the address, the bytes and the text
-- of the instruction, but with 0 in place of an immediate of AND, OR and XOR. Nothing is shown for
-- the address 0.
pub dump_instr-line :
    (p : Program) (j j' : Jit)
    → ((va a : ℕ) → j.va2aa va ≡ some a → va ≡ 0)
    → jit_program p j ≡ some j'
    → (va a : ℕ) (i : Instruction) → j'.va2aa va ≡ some a
    → va ≢ 0
    → va ≢ no_addr
    → IsInstruction i
    → HasBytes p.bytes va (encode i)
    → va + length (encode i) ≤ p.prog_size
    → (m : ℕ → Option Idd) × (record_program
          (jit_vm_instruction p)
          p
          (record { jit = j; va2idd = λ _. none })
        ≡ some (record { jit = j'; va2idd = m }))
      × (dump_instr true p m va ≡ some (set_apart (line va (encode i) (listed i))))
      × (dump_instr true p m 0 ≡ some [])
unfolding jit_program dump_instr IsRecorded Entry
dump_instr-line p j j' start e va a i mapped n far legal b room =
    let (m, r, recorded) =
      record_program-Records p (jit_vm_instruction p) (λ k k' q. (entry p k k' q).0)
        (λ k k' q. (entry p k k' q).1) j j' (λ _. none) e (nothing-IsRecorded p j start) in
    let (d, at, k) = recorded va a mapped n in
    (
      m,
      r,
      rw (ne→== va no_addr far, ne→== va 0 n, at, jit_idd-line p va i d legal b room k) refl,
      refl,
    )

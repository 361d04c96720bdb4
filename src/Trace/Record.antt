-- ===== src/Trace/Record.antt =====
-- `va2idd`, which `jit_vm_instruction` of vm/x64.cc and vm/a64.cc fills in by `JIT_NEXT` in both
-- passes, and what `JIT::dump_code` of vm/jit.cc prints of it.
use pcomp.Common.{
  ℕ, zero, suc, List, [], ◌∷◌, length, ◌++◌, Bool, true, false, Option, none, some, ltb, ◌==◌,
  if◌then◌else◌, update,
}
use pcomp.Jit.{◌>>=◌, JitPos, Jit, Program, no_addr, record_addr_mapping}
use pcomp.Trace.{Idd, Piece, text, endl, trace_instr_decode}
use pcomp.Trace.Decode.{jit_idd}

-- The state of a JIT with the map `va2idd`.
pub record Listing : Type 0 where
  pub jit : Jit
  pub va2idd : ℕ → Option Idd

module _ (jit_vm_instruction : Jit → Option Jit) (p : Program) where
  -- One instruction, with `va2idd[va] = idd`.
  unfoldable pub record_instr : Listing → Option Listing
  record_instr l = do
    idd ← jit_idd p l.jit.jpos.vm
    j ← jit_vm_instruction l.jit
    some (record { jit = j; va2idd = update l.va2idd l.jit.jpos.vm (some idd) })

  -- The loops of both passes, as in `jit_loop` and `for_each_deferred`.
  unfoldable pub record_loop : ℕ → Listing → Option Listing
  unfolding record_instr
  record_loop zero l = if ltb l.jit.jpos.vm p.prog_size then none else some l
  record_loop (suc fuel) l =
      let more =
        (record_instr (record l { jit = record_addr_mapping l.jit }) >>= record_loop fuel) in
      if ltb l.jit.jpos.vm p.prog_size then more else some l

  unfoldable pub record_deferred : List JitPos → Listing → Option Listing
  unfolding record_instr
  record_deferred [] l = some l
  record_deferred (jp ∷ rest) l =
      record_instr (record l { jit = record l.jit { jpos = jp } }) >>= λ l'.
      if length l'.jit.deferred_jpos == length l.jit.deferred_jpos
      then record_deferred rest l'
      else none

  unfoldable pub record_program : Listing → Option Listing
  unfolding record_loop record_deferred
  record_program l = record_loop p.prog_size l >>= λ l₁.
      record_deferred l₁.jit.deferred_jpos l₁ >>= λ l₂.
      some (record l₂ { jit = record l₂.jit { jpos = l₁.jit.jpos } })

-- `DBG(endl)`
abbrev dbg_endl : Bool → List Piece
dbg_endl true = text "[DEBUG] " ∷ endl ∷ []
dbg_endl false = []

-- The lambda `trace` of `dump_code` at a line of code whose VM address is `va`, where -1 is that it
-- has none; `none` is that `va2idd.at(va)` throws.
unfoldable pub dump_instr : Bool → Program → (ℕ → Option Idd) → ℕ → Option (List Piece)
dump_instr debug p va2idd va =
    if va == no_addr
    then some []
    else if va == 0
    then some []
    else (va2idd va >>= λ idd. trace_instr_decode debug p.bytes idd >>= λ traced.
        some (dbg_endl debug ++ traced ++ dbg_endl debug))

-- ===== src/Jit.antt =====
-- vm/jit.h and vm/jit.cc: the state that the two JITs share, the map from VM addresses to code, the
-- deferred instructions, and the loops over the program, which vm/x64.cc and vm/a64.cc repeat with
-- their own `jit_vm_instruction`.
pub mod Code
pub mod Branch
pub mod Patch
pub mod Syscall
pub mod Reads
pub mod Memory
use pcomp.Common.{
  ℕ, zero, suc, ◌+◌, ◌/◌, ◌%◌, ◌^◌, ◌<◌, Bool, List, [], ◌∷◌, ◌++◌, length, Option, none, some, ltb,
  leb, ◌==◌, if◌then◌else◌, update,
}
use pcomp.Memory.{Bytes, as_hword, as_dword}

-- Where the translation fails: reading behind the program, an opcode without a handler, a register
-- without an entry, or a push to `deferred_jpos` while it is iterated over.
infixl 5 ◌>>=◌
abbrev pub ◌>>=◌ {ℓ κ} : {A : Type ℓ} {B : Type κ} → Option A → (A → Option B) → Option B
none >>= f = none
some a >>= f = f a

-- jit_pos_t: the place in the code, and the place in the program as an offset from `prog`.
pub record JitPos : Type 0 where
  pub arch : ℕ
  pub vm : ℕ

-- `text` is the memory that code is written to, by host address.
pub record Jit : Type 0 where
  pub text : Bytes
  pub jpos : JitPos
  pub deferred_jpos : List JitPos
  pub va2aa : ℕ → Option ℕ

-- The program's bytes.
pub record Program : Type 0 where
  pub bytes : Bytes
  pub prog_size : ℕ

unfoldable pub prog_byte : Program → ℕ → Option ℕ
prog_byte p a = if ltb a p.prog_size then some (p.bytes a) else none

unfoldable pub prog_hword : Program → ℕ → Option ℕ
prog_hword p a = if leb (a + 2) p.prog_size then some (as_hword p.bytes a) else none

unfoldable pub prog_dword : Program → ℕ → Option ℕ
prog_dword p a = if leb (a + 8) p.prog_size then some (as_dword p.bytes a) else none

-- `*(jpos.arch++) = b` for each byte.
unfoldable pub emit : List ℕ → Jit → Jit
emit [] j = j
emit (b ∷ bs) j = emit bs (record j {
  text = update j.text j.jpos.arch b;
  jpos = record { arch = j.jpos.arch + 1; vm = j.jpos.vm };
})

-- `*((int32_t*) jpos.arch) = v` and the like: `n` bytes, lowest first.
abbrev pub bytes_of : ℕ → ℕ → List ℕ
bytes_of zero v = []
bytes_of (suc n) v = v % 256 ∷ bytes_of n (v / 256)

abbrev pub set_arch : ℕ → Jit → Jit
set_arch a j = record j { jpos = record { arch = a; vm = j.jpos.vm } }

-- `jpos.vm += n`
abbrev pub vm_add : ℕ → Jit → Jit
vm_add n j = record j { jpos = record { arch = j.jpos.arch; vm = j.jpos.vm + n } }

unfoldable pub record_addr_mapping : Jit → Jit
record_addr_mapping j = record j { va2aa = update j.va2aa j.jpos.vm (some j.jpos.arch) }

-- The value -1 that `as_arch_addr` has for an address with no code yet.
abbrev pub no_addr : ℕ
no_addr = 0xffff_ffff_ffff_ffff

unfoldable pub as_arch_addr : ℕ → Jit → ℕ
as_arch_addr vm_addr j = elim (j.va2aa vm_addr) [ some a ↦ a | none ↦ no_addr ]

abbrev pub repeat : ℕ → List ℕ → List ℕ
repeat zero bs = []
repeat (suc n) bs = bs ++ repeat n bs

-- `DEFER_JIT_AND_RESERVE_SLOTS`, with the bytes of one `nop`.
unfoldable pub defer_jit_and_reserve_slots : List ℕ → ℕ → Jit → Jit
defer_jit_and_reserve_slots nop slots j =
    emit (repeat slots nop) (record j { deferred_jpos = j.deferred_jpos ++ j.jpos ∷ [] })

-- The loops, over the translation of one instruction.
module _ (jit_vm_instruction : Jit → Option Jit) where
  unfoldable pub jit_loop : ℕ → ℕ → Jit → Option Jit
  jit_loop zero prog_size j = if ltb j.jpos.vm prog_size then none else some j
  jit_loop (suc fuel) prog_size j =
      let more = (jit_vm_instruction (record_addr_mapping j) >>= jit_loop fuel prog_size) in
      if ltb j.jpos.vm prog_size then more else some j

  -- `std::for_each` over the deferred places. If an instruction is deferred again the vector grows
  -- under the iteration, which is undefined.
  unfoldable pub for_each_deferred : List JitPos → Jit → Option Jit
  for_each_deferred [] j = some j
  for_each_deferred (jp ∷ rest) j = jit_vm_instruction (record j { jpos = jp }) >>= λ j'.
      if length j'.deferred_jpos == length j.deferred_jpos then for_each_deferred rest j' else none

  unfoldable pub jit_deferred : Jit → Option Jit
  unfolding for_each_deferred
  jit_deferred j = for_each_deferred j.deferred_jpos j >>= λ j'. some (record j' { jpos = j.jpos })

  -- Every round moves on by at least one byte, so `prog_size` rounds are enough.
  unfoldable pub jit_program : ℕ → Jit → Option Jit
  unfolding jit_loop jit_deferred
  jit_program prog_size j = jit_loop prog_size prog_size j >>= jit_deferred

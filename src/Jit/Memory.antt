-- ===== src/Jit/Memory.antt =====
-- The memory of a JIT, by vm/jit.cc: `init_execution` with `init_memory` and `init_codegen`, and
-- `fini_execution` with `fini_codegen` and `fini_memory`. The system's `mmap` and `munmap` are
-- parameters that take the state of the process's mappings and return it.
pub mod Released
use pcomp.Common.{ℕ, ◌+◌, ◌==◌, if◌then◌else◌}
use pcomp.Word.{u64}
use pcomp.Engine.{Engine}

-- The pointers of a `JIT`, with `nullptr` as 0.
pub record JitMemory : Type 0 where
  pub engine : Engine
  pub text_mem : ℕ
  pub data_mem : ℕ
  pub jpos_arch : ℕ
  pub stack : ℕ

-- What the constructor sets.
abbrev pub constructed : Engine → JitMemory
constructed e = record { engine = e; text_mem = 0; data_mem = 0; jpos_arch = 0; stack = 0 }

-- `MAP_FAILED`, which is `(void*) -1`.
abbrev pub map_failed : ℕ
map_failed = 0xffff_ffff_ffff_ffff

-- `PROT_EXEC | PROT_READ | PROT_WRITE` and `PROT_READ | PROT_WRITE`
pub data Prot : Type 0 where
  exec_read_write read_write : Prot

-- A function returns, or `ABORT` ends the process.
pub data Ended (W : Type 0) : Type 0 where
  returned : JitMemory → W → Ended W
  aborted : W → Ended W

module _ {W : Type 0} where
  abbrev pub then_do : Ended W → (JitMemory → W → Ended W) → Ended W
  then_do (returned j w) f = f j w
  then_do (aborted w) f = aborted w

  -- The second test is of `text_mem` again.
  unfoldable pub init_memory : (ℕ → Prot → W → ℕ × W) → JitMemory → W → Ended W
  init_memory mmap j w =
      let (text, w₁) = mmap j.engine.text_mem_size exec_read_write w in
      let (data_, w₂) = mmap j.engine.data_mem_size read_write w₁ in
      if text == map_failed
      then aborted w₁
      else if text == map_failed
      then aborted w₂
      else returned (record j { text_mem = text; data_mem = data_ }) w₂

  unfoldable pub fini_memory : (ℕ → ℕ → W → ℕ × W) → JitMemory → W → Ended W
  fini_memory munmap j w =
      let (r, w₁) = munmap j.text_mem j.engine.text_mem_size w in
      let (r', w₂) = munmap j.data_mem j.engine.data_mem_size w₁ in
      if r == 0
      then (if r' == 0 then returned (record j { text_mem = 0; data_mem = 0 }) w₂ else aborted w₂)
      else aborted w₁

  unfoldable pub init_codegen : JitMemory → W → Ended W
  init_codegen j w =
      returned
        (record j { jpos_arch = j.text_mem; stack = u64 (j.data_mem + j.engine.data_mem_size) }) w

  unfoldable pub fini_codegen : JitMemory → W → Ended W
  fini_codegen j w = returned j w

  unfoldable pub init_execution : (ℕ → Prot → W → ℕ × W) → JitMemory → W → Ended W
  init_execution mmap j w = then_do (init_memory mmap j w) init_codegen

  unfoldable pub fini_execution : (ℕ → ℕ → W → ℕ × W) → JitMemory → W → Ended W
  fini_execution munmap j w = then_do (fini_codegen j w) (fini_memory munmap)

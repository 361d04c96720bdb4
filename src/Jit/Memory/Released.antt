-- ===== src/Jit/Memory/Released.antt =====
-- What a JIT maps is unmapped again, and a mapping of the data memory that fails goes unnoticed.
use pcomp.Common.{
  ℕ, ◌+◌, ◌-◌, ◌≤◌, ◌<◌, ◌^◌, ◌≡◌, ap, ◌∙◌, ◌≢◌, refl, ◌&&◌, ◌==◌, if◌then◌else◌, arith, ne→==,
}
use pcomp.Word.{u64}
use pcomp.Engine.{Engine}
use pcomp.Jit.Memory.{
  JitMemory, Prot, exec_read_write, read_write, returned, constructed, map_failed, init_memory,
  fini_memory, init_codegen, fini_codegen, init_execution, fini_execution,
}

-- One mapping of `n` bytes at `a`, as a count.
abbrev pub one : ℕ → ℕ → ℕ → ℕ → ℕ
one a n b m = if (a == b) && (n == m) then 1 else 0

one_self : (a n : ℕ) → one a n a n ≡ 1
one_self a n = ground arith

-- The documented behaviour of the two system calls: `live w a n` counts the mappings of `n` bytes
-- at `a`, `mmap` adds one unless it fails, and `munmap` of a mapping returns 0 and takes it away.
pub record IsSystem {W : Type 0} (live : W → ℕ → ℕ → ℕ) (mmap : ℕ → Prot → W → ℕ × W)
    (munmap : ℕ → ℕ → W → ℕ × W) : Type 0 where
  pub maps :
      (n : ℕ) (p : Prot) (w : W)
      → (mmap n p w).0 ≢ map_failed
      → (b m : ℕ) → live (mmap n p w).1 b m ≡ live w b m + one (mmap n p w).0 n b m
  pub unmaps : (a n : ℕ) (w : W) → 1 ≤ live w a n → (munmap a n w).0 ≡ 0
  pub forgets :
      (a n : ℕ) (w : W)
      → 1 ≤ live w a n
      → (b m : ℕ) → live (munmap a n w).1 b m ≡ live w b m - one a n b m

module _ {W : Type 0} (mmap : ℕ → Prot → W → ℕ × W) (munmap : ℕ → ℕ → W → ℕ × W) (e : Engine)
    (w : W) where
  -- The two mappings that `init_memory` asks for, and the state of the process after each.
  abbrev text_at : ℕ
  text_at = (mmap e.text_mem_size exec_read_write w).0

  abbrev after_text : W
  after_text = (mmap e.text_mem_size exec_read_write w).1

  abbrev data_at : ℕ
  data_at = (mmap e.data_mem_size read_write after_text).0

  abbrev pub after_data : W
  after_data = (mmap e.data_mem_size read_write after_text).1

  abbrev pub ready : JitMemory
  ready = record {
    engine = e;
    text_mem = text_at;
    data_mem = data_at;
    jpos_arch = text_at;
    stack = u64 (data_at + e.data_mem_size);
  }

  init_execution-ready :
      text_at ≢ map_failed → init_execution mmap (constructed e) w ≡ returned ready after_data
  unfolding init_execution init_memory init_codegen
  init_execution-ready h = rw (ne→== text_at map_failed h) refl

  fini_execution-returned :
      (munmap text_at e.text_mem_size after_data).0 ≡ 0
      → (munmap data_at e.data_mem_size (munmap text_at e.text_mem_size after_data).1).0 ≡ 0
      → fini_execution munmap ready after_data
        ≡ returned
            (record ready { text_mem = 0; data_mem = 0 })
            (munmap data_at e.data_mem_size (munmap text_at e.text_mem_size after_data).1).1
  unfolding fini_execution fini_memory fini_codegen
  fini_execution-returned h k = rw (fini_memory, h, k) refl

  -- On a system with the documented behaviour of the two calls, when both mappings succeed, the
  -- initialization of a JIT returns with the code at the start of the text memory and the stack at
  -- the end of the data memory, and the finalization behind it returns with both pointers null and
  -- exactly the mappings that the process had before.
  pub fini_execution-releases :
      (live : W → ℕ → ℕ → ℕ)
      → IsSystem live mmap munmap
      → text_at ≢ map_failed
      → data_at ≢ map_failed
      → (init_execution mmap (constructed e) w ≡ returned ready after_data)
        × (w' : W) × (fini_execution munmap ready after_data
            ≡ returned (record ready { text_mem = 0; data_mem = 0 }) w')
        × ((a n : ℕ) → live w' a n ≡ live w a n)
  fini_execution-releases live sys ht hd =
      let t = text_at in
      let nt = e.text_mem_size in
      let d = data_at in
      let nd = e.data_mem_size in
      let there : (a n : ℕ) → live after_data a n ≡ live w a n + one t nt a n + one d nd a n =
        λ a n.
          sys.maps nd read_write after_text hd a n
          ∙ ap (λ z. z + one d nd a n) (sys.maps nt exec_read_write w ht a n) in
      let text_live : 1 ≤ live after_data t nt = omega (arith, there t nt, one_self t nt) in
      let left = sys.forgets t nt after_data text_live in
      let data_live : 1 ≤ live (munmap t nt after_data).1 d nd =
        omega (arith, left d nd, there d nd, one_self d nd) in
      (
        init_execution-ready ht,
        (munmap d nd (munmap t nt after_data).1).1,
        fini_execution-returned (sys.unmaps t nt after_data text_live)
            (sys.unmaps d nd (munmap t nt after_data).1 data_live),
        λ a n.
            omega (
              arith,
              sys.forgets d nd (munmap t nt after_data).1 data_live a n,
              left a n,
              there a n,
            ),
      )

  -- When the text memory is mapped and the mapping of a data memory of at least one byte fails, the
  -- initialization of a JIT returns all the same, with a stack that ends one byte below its size,
  -- counted from address 0.
  pub init_execution-unreported :
      text_at ≢ map_failed
      → data_at ≡ map_failed
      → 1 ≤ e.data_mem_size
      → e.data_mem_size < 2 ^ 64
      → (init_execution mmap (constructed e) w ≡ returned ready after_data)
        × (ready.data_mem ≡ map_failed)
        × (ready.stack + 1 ≡ e.data_mem_size)
  init_execution-unreported ht hd low high = (init_execution-ready ht, hd, omega (arith, hd))

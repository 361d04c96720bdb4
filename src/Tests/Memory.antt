-- ===== src/Tests/Memory.antt =====
-- A system that maps memory upwards from an address, and one that maps no data memory.
use pcomp.Common.{ℕ, ◌+◌, ◌-◌, ◌*◌, ◌^◌, ◌≡◌, refl, leb, if◌then◌else◌, arith, le→leb}
use pcomp.Engine.{Engine, ExecType, construct}
use pcomp.Jit.Memory.{
  Prot, exec_read_write, read_write, returned, constructed, map_failed, init_execution,
  fini_execution,
}
use pcomp.Jit.Memory.Released.{
  one, IsSystem, after_data, ready, fini_execution-releases, init_execution-unreported,
}

record Mappings : Type 0 where
  free : ℕ
  live : ℕ → ℕ → ℕ

abbrev map_upwards : ℕ → Prot → Mappings → ℕ × Mappings
map_upwards n p w =
    (w.free, record { free = w.free + n; live = λ b m. w.live b m + one w.free n b m })

abbrev unmap : ℕ → ℕ → Mappings → ℕ × Mappings
unmap a n w =
    if leb 1 (w.live a n)
    then (0, record { free = w.free; live = λ b m. w.live b m - one a n b m })
    else (22, w)

abbrev at_4096 : Mappings
at_4096 = record { free = 4096; live = λ b m. 0 }

upwards-IsSystem : IsSystem (λ w. w.live) map_upwards unmap
upwards-IsSystem = record {
  maps = λ n p w h b m. refl;
  unmaps = λ a n w h. rw (le→leb 1 (w.live a n) h) refl;
  forgets = λ a n w h b m. rw (le→leb 1 (w.live a n) h) refl;
}

abbrev small_jit : Engine
small_jit = construct ExecType.x86_64_jit 4

fini_execution-releases_example :
    (init_execution map_upwards (constructed small_jit) at_4096
      ≡ returned
          (ready map_upwards unmap small_jit at_4096)
          (after_data map_upwards unmap small_jit at_4096))
    × (w' : Mappings) × (fini_execution unmap
          (ready map_upwards unmap small_jit at_4096)
          (after_data map_upwards unmap small_jit at_4096)
        ≡ returned
            (record (ready map_upwards unmap small_jit at_4096) { text_mem = 0; data_mem = 0 })
            w')
    × ((a n : ℕ) → w'.live a n ≡ 0)
unfolding construct
fini_execution-releases_example =
    fini_execution-releases map_upwards unmap small_jit at_4096 (λ w. w.live) upwards-IsSystem
      (omega arith) (omega arith)

abbrev map_text_only : ℕ → Prot → Mappings → ℕ × Mappings
map_text_only n exec_read_write w = (4096, w)
map_text_only n read_write w = (map_failed, w)

init_execution-unreported_example :
    (init_execution map_text_only (constructed small_jit) at_4096
      ≡ returned (ready map_text_only unmap small_jit at_4096) at_4096)
    × ((ready map_text_only unmap small_jit at_4096).data_mem ≡ map_failed)
    × ((ready map_text_only unmap small_jit at_4096).stack + 1 ≡ 3 * 2 ^ 20)
unfolding construct
init_execution-unreported_example =
    init_execution-unreported map_text_only unmap small_jit at_4096 (omega arith) refl (omega arith)
      (omega arith)

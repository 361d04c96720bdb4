-- ===== src/Tests/Engine.antt =====
-- The theorems on the memory's size at concrete requests.
use pcomp.Common.{ℕ, ◌+◌, ◌*◌, ◌^◌, ◌≡◌, refl, none, some, inr, arith}
use pcomp.Engine.{adjust_mem_size_mb, ExecType, construct}
use pcomp.Engine.Size.{
  IsAdjusted, adjust_mem_size_mb-IsAdjusted, adjust_mem_size_mb-none, construct_split,
  construct_wraps,
}

adjust_mem_size_mb-IsAdjusted_example :
    (size : ℕ) × (adjust_mem_size_mb 62 1000 ≡ some size) × IsAdjusted 1000 size
adjust_mem_size_mb-IsAdjusted_example = adjust_mem_size_mb-IsAdjusted 1000 (omega arith)

adjust_mem_size_mb-none_example : adjust_mem_size_mb 500 (2 ^ 63 + 1) ≡ none
adjust_mem_size_mb-none_example = adjust_mem_size_mb-none 500 (2 ^ 63 + 1) (omega arith)

thousand : IsAdjusted 1000 1024
thousand = record { power = 8; is_power = refl; enough = omega arith; least = inr (omega arith) }

construct_split_example :
    ((construct ExecType.x86_64_jit 1024).mem_size ≡ 1024 * 2 ^ 20)
    × (4 * (construct ExecType.x86_64_jit 1024).text_mem_size
        ≡ (construct ExecType.x86_64_jit 1024).mem_size)
    × ((construct ExecType.x86_64_jit 1024).text_mem_size
          + (construct ExecType.x86_64_jit 1024).data_mem_size
        ≡ (construct ExecType.x86_64_jit 1024).mem_size)
construct_split_example = construct_split ExecType.x86_64_jit 1000 1024 thousand (omega arith)

huge : IsAdjusted (2 ^ 45) (2 ^ 45)
huge = record { power = 43; is_power = refl; enough = omega arith; least = inr (omega arith) }

construct_wraps_example :
    ((construct ExecType.interpreter (2 ^ 45)).mem_size ≡ 0)
    × ((construct ExecType.interpreter (2 ^ 45)).text_mem_size ≡ 0)
    × ((construct ExecType.interpreter (2 ^ 45)).data_mem_size ≡ 0)
construct_wraps_example = construct_wraps ExecType.interpreter (2 ^ 45) (2 ^ 45) huge (omega arith)

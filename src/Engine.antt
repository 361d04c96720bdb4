-- ===== src/Engine.antt =====
-- vm/vm.cc, and the constructors of vm/exe.cc and vm/jit.cc: the size of the memory and the choice
-- of the engine.
pub mod Size
use pcomp.Common.{ℕ, zero, suc, ◌-◌, ◌*◌, ◌/◌, ◌^◌, Option, none, some, ltb, ◌==◌, if◌then◌else◌}
use pcomp.Word.{u64}

-- `while (mem_size_mb > size) size <<= 1;` on `size_t`; `none` is that the fuel ran out.
unfoldable pub grow : ℕ → ℕ → ℕ → Option ℕ
grow zero mem_size_mb size = none
grow (suc fuel) mem_size_mb size =
    let more = grow fuel mem_size_mb (u64 (size * 2)) in
    if ltb size mem_size_mb then more else some size

unfoldable pub adjust_mem_size_mb : ℕ → ℕ → Option ℕ
adjust_mem_size_mb fuel mem_size_mb = grow fuel mem_size_mb 0x4

-- exec_type_t
pub data ExecType : Type 0 where
  interpreter aarch64_jit x86_64_jit : ExecType

-- The fields that the constructors set: `mem_size` of every engine, and the split of a JIT.
pub record Engine : Type 0 where
  pub kind : ExecType
  pub mem_size : ℕ
  pub text_mem_size : ℕ
  pub data_mem_size : ℕ

-- `mem_size(mem_size_mb << 20)`, `text_mem_size(mem_size / 4)`,
-- `data_mem_size(mem_size - text_mem_size)`; the interpreter has no such split.
unfoldable pub construct : ExecType → ℕ → Engine
construct kind mem_size_mb =
    let mem_size = u64 (mem_size_mb * 2 ^ 20) in
    record {
      kind = kind;
      mem_size = mem_size;
      text_mem_size = mem_size / 4;
      data_mem_size = mem_size - mem_size / 4;
    }

-- `none` is the `ABORT` on an unknown execution type.
unfoldable create_execution_engine : ℕ → ℕ → Option Engine
create_execution_engine mem_size_mb exec_type =
    if exec_type == 1
    then some (construct ExecType.interpreter mem_size_mb)
    else if exec_type == 2
    then some (construct ExecType.aarch64_jit mem_size_mb)
    else if exec_type == 3
    then some (construct ExecType.x86_64_jit mem_size_mb)
    else none

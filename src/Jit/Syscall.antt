-- ===== src/Jit/Syscall.antt =====
-- `JIT::sys_enter` of vm/jit.cc, which the translated program calls with its stack pointer. The
-- memory is the process's, by host address; a `uint64_t*` moves by 8 bytes.
use pcomp.Common.{ℕ, ◌+◌, List, ◌∷◌, ℤ, pos, ◌==◌, if◌then◌else◌}
use pcomp.Word.{as_signed64}
use pcomp.Memory.{Bytes, as_dword, set_dword}
use pcomp.Exe.{syscall_vm_exit, syscall_display_sint, syscall_display_uint}

-- The stack pointer that is returned, the memory and what has been displayed, latest first; or the
-- `ABORT`.
pub data SysResult : Type 0 where
  back : ℕ → Bytes → List ℤ → SysResult
  aborted : SysResult

unfoldable pub sys_enter : ℕ → Bytes → List ℤ → SysResult
sys_enter sp mem out =
    let syscall_id : ℕ = as_dword mem (sp + 8) in
    let val : ℕ = as_dword mem (sp + 16) in
    let mem' : Bytes = set_dword mem (sp + 16) (as_dword mem sp) in
    if syscall_id == syscall_vm_exit
    then aborted
    else if syscall_id == syscall_display_sint
    then back (sp + 16) mem' (as_signed64 val ∷ out)
    else if syscall_id == syscall_display_uint
    then back (sp + 16) mem' (pos val ∷ out)
    else aborted

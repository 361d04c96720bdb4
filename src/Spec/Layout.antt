-- ===== src/Spec/Layout.antt =====
-- What the accesses of the interpreter find where an encoded instruction stands.
use native.Mathlib.Nat.{pow-suc}
use pcomp.Common.{ℕ, zero, suc, ◌+◌, ◌/◌, ◌^◌, ◌≤◌, ◌<◌, ◌≡◌, some, arith}
use pcomp.Word.{IsU64, add64}
use pcomp.Memory.{Bytes, read_le, as_hword, as_dword}
use pcomp.Exe.{pc}
use pcomp.Interpreter.State.{Vm, mem_byte, mem_hword, mem_dword}
use pcomp.Interpreter.Handlers.{pc_plus}
use pcomp.Spec.{le_bytes, HasBytes}

pub read_le-le_bytes :
    (n : ℕ) (m : Bytes) (a v : ℕ) → v < 256 ^ n → HasBytes m a (le_bytes n v) → read_le n m a ≡ v
unfolding read_le
read_le-le_bytes zero m a v h b = omega arith
read_le-le_bytes (suc n) m a v h (b, bs) =
    omega (arith, read_le-le_bytes n m (a + 1) (v / 256) (omega (arith, pow-suc 256 n)) bs)

module _ (s : Vm) (small : s.mem_size < 2 ^ 64) where
  -- Inside the memory the program counter does not wrap.
  pub pc_plus-eq : (k : ℕ) → s.reg pc + k ≤ s.mem_size → pc_plus k s ≡ s.reg pc + k
  unfolding add64
  pc_plus-eq k h = omega arith

  pub mem_byte-eq : (a b : ℕ) → a < s.mem_size → s.mem a ≡ b → mem_byte s a ≡ some b
  unfolding mem_byte
  mem_byte-eq a b h e = ground arith

  pub mem_hword-eq :
      (a v : ℕ)
      → v < 2 ^ 16
      → a + 2 ≤ s.mem_size
      → HasBytes s.mem a (le_bytes 2 v)
      → mem_hword s a ≡ some v
  unfolding mem_hword as_hword
  mem_hword-eq a v hv h b = ground (arith, read_le-le_bytes 2 s.mem a v (omega arith) b)

  pub mem_dword-eq :
      (a v : ℕ)
      → IsU64 v
      → a + 8 ≤ s.mem_size
      → HasBytes s.mem a (le_bytes 8 v)
      → mem_dword s a ≡ some v
  unfolding mem_dword as_dword
  mem_dword-eq a v hv h b = ground (arith, read_le-le_bytes 8 s.mem a v (omega arith) b)

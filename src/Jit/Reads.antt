-- ===== src/Jit/Reads.antt =====
-- What the translation reads where an encoded instruction stands in the program.
use pcomp.Common.{ℕ, ◌+◌, ◌^◌, ◌≤◌, ◌<◌, ◌≡◌, refl, some, arith, lt→ltb, le→leb}
use pcomp.Word.{IsU64}
use pcomp.Memory.{HasBytes, as_hword, as_dword}
use pcomp.Spec.{le_bytes}
use pcomp.Spec.Layout.{read_le-le_bytes}
use pcomp.Jit.{Program, prog_byte, prog_hword, prog_dword}

module _ (p : Program) (a : ℕ) where
  pub prog_byte-at : (b : ℕ) → a < p.prog_size → p.bytes a ≡ b → prog_byte p a ≡ some b
  unfolding prog_byte
  prog_byte-at b room e = rw (lt→ltb a p.prog_size room, e) refl

  pub prog_hword-at :
      (v : ℕ)
      → v < 2 ^ 16
      → a + 2 ≤ p.prog_size
      → HasBytes p.bytes a (le_bytes 2 v)
      → prog_hword p a ≡ some v
  unfolding prog_hword as_hword
  prog_hword-at v hv room b =
      rw (le→leb (a + 2) p.prog_size room, read_le-le_bytes 2 p.bytes a v (omega arith) b) refl

  pub prog_dword-at :
      (v : ℕ)
      → IsU64 v
      → a + 8 ≤ p.prog_size
      → HasBytes p.bytes a (le_bytes 8 v)
      → prog_dword p a ≡ some v
  unfolding prog_dword as_dword
  prog_dword-at v hv room b =
      rw (le→leb (a + 8) p.prog_size room, read_le-le_bytes 8 p.bytes a v (omega arith) b) refl

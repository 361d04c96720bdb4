-- ===== src/X64/Placed/Nops.antt =====
-- Runs one behind the other, and over the `nop` that fill the slots.
use pcomp.Common.{
  ℕ, zero, suc, ◌+◌, ◌^◌, ◌<◌, ◌≡◌, refl, ap, ◌∙◌, Option, some, none, arith, some-injective,
}
use mathlib.Core.Path.{subst}
use pcomp.Memory.{Bytes, HasBytes}
use pcomp.Jit.{◌>>=◌}
use pcomp.X64.Encode.{emit_nop}
use pcomp.X64.Machine.{Cpu, CpuInstr, decode, exec, go_to, cpu_step, cpu_steps}
use pcomp.X64.Simulation.{Reaches, Reaches-here, Reaches-step}
use pcomp.X64.Placed.FirstPass.{nops}

bind-inv :
    (o : Option Cpu) (f : Cpu → Option Cpu) (z : Cpu)
    → (o >>= f) ≡ some z
    → (y : Cpu) × (o ≡ some y) × (f y ≡ some z)
bind-inv none f z e = absurd (cc e)
bind-inv (some y) f z e = (y, refl, e)

cpu_steps-add : (n k : ℕ) (x y : Cpu) → cpu_steps n x ≡ some y → cpu_steps (n + k) x ≡ cpu_steps k y
unfolding cpu_steps
cpu_steps-add zero k x y e =
    ap (λ q. cpu_steps q x) (zero_add k) ∙ ap (cpu_steps k) (some-injective e)
  where
    zero_add : (k : ℕ) → 0 + k ≡ k
    zero_add k = omega arith
cpu_steps-add (suc n) k x y e =
    let (z, first, rest) = bind-inv (cpu_step x) (cpu_steps n) y e in
    ap (λ q. cpu_steps q x) (suc_add n k) ∙ rw first (cpu_steps-add n k z y rest)
  where
    suc_add : (n k : ℕ) → suc n + k ≡ suc (n + k)
    suc_add n k = omega arith

pub Reaches-bind :
    (P Q : Cpu → Type 0) (x : Cpu) → Reaches P x → ((x' : Cpu) → P x' → Reaches Q x') → Reaches Q x
Reaches-bind P Q x (n, y, e, h) f =
    let (k, z, e', h') = f y h in (n + k, z, cpu_steps-add n k x y e ∙ e', h')

decode-nop : (m : Bytes) (a : ℕ) → m a ≡ 0x90 → decode m a ≡ some (CpuInstr.nop, 1)
unfolding decode
decode-nop m a e = rw e refl

-- Over `n` times `nop`, nothing but the place changes.
pub nops-Reaches :
    (P : Cpu → Type 0) (n : ℕ) (x : Cpu) (end : ℕ)
    → HasBytes x.mem x.rip (nops n)
    → x.rip + n ≡ end
    → end < 2 ^ 64
    → P (go_to end x)
    → Reaches P x
unfolding exec emit_nop
nops-Reaches P zero x end b e fits h =
    subst (λ q. P (go_to q x) → Reaches P x) (omega arith) (Reaches-here P x) h
nops-Reaches P (suc n) x end (b₀, b) e fits h =
    Reaches-step P x _ _ (decode-nop x.mem x.rip b₀) (omega arith)
      (nops-Reaches P n (go_to (x.rip + 1) x) end b (omega arith) fits h)

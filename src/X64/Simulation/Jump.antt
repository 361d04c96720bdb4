-- ===== src/X64/Simulation/Jump.antt =====
-- The emitted jumps, calls and returns, run by the processor.
use pcomp.Common.{
  ℕ, ◌+◌, ◌^◌, ◌<◌, ◌≡◌, refl, ap, List, ◌++◌, length, length-append, arith, if◌then◌else◌, inr,
}
use pcomp.Word.{IsU64, sub64, add64}
use pcomp.Memory.{HasBytes, set_dword}
use pcomp.Exe.{flags, sp, pc}
use pcomp.Interpreter.State.{Vm, sp_sub, sp_add, store_dword, mem_dword}
use pcomp.Interpreter.Invariant.{IsVm, Post, Post-bind, store_dword-inv}
use pcomp.Spec.{Cond, Instruction, holds, perform}
use pcomp.Behaviour.Steps.{HasBytes-append}
use pcomp.X64.Regs.{rbp, rsp}
use pcomp.X64.Encode.{
  emit_mov_reg_imm, emit_jmp_reg, emit_call_reg, emit_jmp_imm64, emit_call_imm64, emit_ret,
}
use pcomp.X64.Immediate.{IsMisloaded}
use pcomp.X64.Branches.{IsNear}
use pcomp.X64.Jit.{distance}
use pcomp.X64.Machine.{Cpu, exec, go_to, write}
use pcomp.X64.Machine.Operand.{decode-mov_imm}
use pcomp.X64.Relation.{
  IsRelated, FlagsAgree, IsRelated-write, IsRelated-scratch, IsRelated-unmapped, sp-rsp,
}
use pcomp.X64.Simulation.Memory.{mem_dword-inv}
use pcomp.X64.Simulation.{Reaches, Reaches-here, Reaches-step, FlagsKept}
use pcomp.X64.Machine.Jump.{
  emit_cond, emit_cond-eq, decode-emit_cond, decode-jmp_reg, decode-call_reg, decode-ret,
}

-- The VM's state as the host holds it: a call has pushed the host's return address.
abbrev host_view : Instruction → ℕ → Vm → Vm → Vm
host_view (Instruction.call a) end s s' = record s' { mem = set_dword s.mem (s'.reg sp) end }
host_view _ end s s' = s'

-- Where the code of a branch to `va` goes on; a return takes the address from the stack.
abbrev goes_to : Instruction → ℕ → ℕ → Vm → Vm → ℕ
goes_to (Instruction.jmp_if c a) va end s s' = if holds c (s.reg flags) then va else end
goes_to Instruction.ret va end s s' = s'.reg pc
goes_to _ va end s s' = va

abbrev pub HasJumped : Instruction → ℕ → ℕ → Vm → Cpu → Vm → Cpu → Type 0
HasJumped i va end s x s' x' =
    IsRelated (host_view i end s s') x' × (x'.rip ≡ goes_to i va end s s') × FlagsKept s x s' x'

module _ (s : Vm) (x : Cpu) {size : ℕ} (h : IsVm size s) (rel : IsRelated s x) (at va : ℕ)
    (hv : IsU64 va) where
  pub jmp_if-Reaches :
      (c : Cond) (a : ℕ)
      → IsNear va x.rip
      → FlagsAgree s x
      → HasBytes x.mem x.rip (emit_cond c (distance va x.rip))
      → x.rip + length (emit_cond c (distance va x.rip)) < 2 ^ 64
      → Post
          (λ s'.
            Reaches
              (HasJumped
                (Instruction.jmp_if c a)
                va
                (x.rip + length (emit_cond c (distance va x.rip)))
                s
                x
                s')
              x)
          (perform (Instruction.jmp_if c a) at s)
  unfolding perform exec
  jmp_if-Reaches c a near agree b room =
      let six : length (emit_cond c (distance va x.rip)) ≡ 6 =
        ap length (emit_cond-eq c (distance va x.rip)) in
      Reaches-step _ x _ _ (decode-emit_cond x.mem x.rip c va hv (omega (arith, six)) near b) room (
        Reaches-here _ _
          (IsRelated-unmapped s x pc _ (inr refl) rel, rw (agree c) refl, (refl, refl, refl, refl)))

  jump : ℕ → Cpu
  jump n = go_to n (write rbp va x)

  pub jmp-Reaches :
      (a : ℕ)
      → ¬ IsMisloaded va
      → HasBytes x.mem x.rip (emit_jmp_imm64 va)
      → x.rip + length (emit_jmp_imm64 va) < 2 ^ 64
      → Post
          (λ s'.
            Reaches
              (HasJumped (Instruction.jmp a) va (x.rip + length (emit_jmp_imm64 va)) s x s')
              x)
          (perform (Instruction.jmp a) at s)
  unfolding perform exec emit_jmp_imm64 jump
  jmp-Reaches a ok b room =
      let load : List ℕ = emit_mov_reg_imm rbp va in
      let (b₁, b₂) = HasBytes-append x.mem x.rip load (emit_jmp_reg rbp) b in
      let whole : length (load ++ emit_jmp_reg rbp) ≡ length load + length (emit_jmp_reg rbp) =
        length-append load (emit_jmp_reg rbp) in
      let three : length (emit_jmp_reg rbp) ≡ 3 = unfold emit_jmp_reg in refl in
      Reaches-step _ x _ _ (decode-mov_imm x.mem x.rip rbp va (omega arith) hv ok b₁)
        (omega (arith, whole))
        (Reaches-step _ (jump (x.rip + length load)) _ _
          (decode-jmp_reg x.mem (x.rip + length load) b₂) (omega (arith, whole, three))
          (Reaches-here _ _ (
            IsRelated-unmapped s (jump va) pc a (inr refl) (IsRelated-scratch s x va rel),
            refl,
            (refl, refl, refl, refl),
          )))

  pub call-Reaches :
      (a : ℕ)
      → ¬ IsMisloaded va
      → HasBytes x.mem x.rip (emit_call_imm64 va)
      → x.rip + length (emit_call_imm64 va) < 2 ^ 64
      → Post
          (λ s'.
            Reaches
              (HasJumped (Instruction.call a) va (x.rip + length (emit_call_imm64 va)) s x s')
              x)
          (perform (Instruction.call a) at s)
  unfolding perform exec emit_call_imm64 jump
  call-Reaches a ok b room =
      Post-bind _ (store_dword (sp_sub 8 s) ((sp_sub 8 s).reg sp) (at + 9)) _ λ t e.
        let (_, stored) = store_dword-inv (sp_sub 8 s) _ _ t e in
        let load : List ℕ = emit_mov_reg_imm rbp va in
        let (b₁, b₂) = HasBytes-append x.mem x.rip load (emit_call_reg rbp) b in
        let whole : length (load ++ emit_call_reg rbp) ≡ length load + length (emit_call_reg rbp) =
          length-append load (emit_call_reg rbp) in
        let three : length (emit_call_reg rbp) ≡ 3 = unfold emit_call_reg in refl in
        let top : x.reg rsp ≡ s.reg sp = rel.0 sp rsp (omega arith) sp-rsp in
        let end : x.rip + length load + 3 ≡ x.rip + length (load ++ emit_call_reg rbp) =
          omega (arith, whole, three) in
        let (regs, _) : IsRelated (sp_sub 8 s) (write rsp (sub64 (x.reg rsp) 8) (write rbp va x)) =
          IsRelated-write s (write rbp va x) sp rsp _ _ (IsRelated-scratch s x va rel) (omega arith)
            sp-rsp (rw top refl) in
        Reaches-step _ x _ _ (decode-mov_imm x.mem x.rip rbp va (omega arith) hv ok b₁)
          (omega (arith, whole))
          (Reaches-step _ (jump (x.rip + length load)) _ _
            (decode-call_reg x.mem (x.rip + length load) b₂) (omega (arith, whole, three))
            (Reaches-here _ _ (
              IsRelated-unmapped (record t { mem = _ }) (record x { reg = _; mem = _ }) pc a
                  (inr refl) (rw stored (regs, rw (top, rel.1, end) refl)),
              refl,
              (ap (λ (u : Vm). u.reg flags) stored, refl, refl, refl),
            )))

  pub ret-Reaches :
      HasBytes x.mem x.rip emit_ret
      → x.rip + length emit_ret < 2 ^ 64
      → Post
          (λ s'. Reaches (HasJumped Instruction.ret va (x.rip + length emit_ret) s x s') x)
          (perform Instruction.ret at s)
  unfolding perform exec
  ret-Reaches b room = Post-bind _ (mem_dword s (s.reg sp)) _ λ v e.
      let top : x.reg rsp ≡ s.reg sp = rel.0 sp rsp (omega arith) sp-rsp in
      let one : length emit_ret ≡ 1 = unfold emit_ret in refl in
      Reaches-step _ x _ _ (decode-ret x.mem x.rip b) (omega (arith, one)) (
        Reaches-here _ _ (
          IsRelated-unmapped (sp_add 8 s) (write rsp (add64 (x.reg rsp) 8) x) pc v (inr refl)
              (IsRelated-write s x sp rsp _ _ rel (omega arith) sp-rsp (rw top refl)),
          rw (top, rel.1) (mem_dword-inv s _ v e),
          (refl, refl, refl, refl),
        ))

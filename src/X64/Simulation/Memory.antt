-- ===== src/X64/Simulation/Memory.antt =====
-- Loads, stores, `not` and the stack instructions on both sides.
use pcomp.Common.{
  ℕ, ◌+◌, ◌^◌, ◌<◌, ◌≡◌, ◌≢◌, refl, sym, ap, length, some, arith, inr, ne→==, fun_ext,
}
use mathlib.Core.Path.{subst}
use pcomp.Word.{sub64, add64, to_u64, as_signed16}
use pcomp.Memory.{Bytes, HasBytes, as_dword}
use pcomp.Exe.{flags, pc, sp}
use pcomp.Interpreter.State.{Vm, set_reg, mem_dword, store_dword, sp_add, sp_sub}
use pcomp.Interpreter.Invariant.{IsVm, Post, Post-bind, store_dword-inv}
use pcomp.Spec.{Instruction, IsOperand, address, perform}
use pcomp.Spec.Decode.{add64-address}
use pcomp.Jit.{bytes_of}
use pcomp.X64.Regs.{as_arch_reg, rsp}
use pcomp.X64.Encode.{
  emit_mov_reg_b32d, emit_mov_b32d_reg, emit_not_reg, emit_push_reg, emit_pop_reg,
}
use pcomp.X64.Immediate.{le_value, le_value-bytes_of, sign_extend32}
use pcomp.X64.Translate.{displacement}
use pcomp.X64.Machine.{Cpu, CpuInstr, reg_instr, mem_instr, decode, exec, write}
use pcomp.X64.Machine.Code.{decode-extended, decode-memory_form}
use pcomp.X64.Machine.Operand.{decode-push, decode-pop}
use pcomp.X64.Relation.{IsRelated, IsRelated-write, IsRelated-unmapped, sp-rsp}
use pcomp.X64.Simulation.{Reaches, Reaches-here, Reaches-step, IsSimulated}

-- The processor extends the emitted displacement to what the index stands for.
displacement-extends :
    (idx : ℕ)
    → idx < 2 ^ 16
    → sign_extend32 (le_value (bytes_of 4 (displacement idx))) ≡ to_u64 (as_signed16 idx)
displacement-extends idx h =
    rw (le_value-bytes_of 4 (displacement idx) (omega arith)) (extends idx h)
  where
    extends : (idx : ℕ) → idx < 2 ^ 16 → sign_extend32 (displacement idx) ≡ to_u64 (as_signed16 idx)
    extends idx h = unfold sign_extend32 to_u64 as_signed16 in ground arith

decode-not :
    (m : Bytes) (a r : ℕ)
    → r < 16
    → HasBytes m a (emit_not_reg r)
    → decode m a ≡ some (CpuInstr.not r, length (emit_not_reg r))
unfolding emit_not_reg reg_instr
decode-not m a r h b = decode-extended m a 0xf7 2 r _ (omega arith) h (refl, refl, refl) refl b

decode-load :
    (m : Bytes) (a r base d : ℕ)
    → r < 16
    → base < 16
    → HasBytes m a (emit_mov_reg_b32d r base d)
    → decode m a
      ≡ some (
        CpuInstr.load r base (sign_extend32 (le_value (bytes_of 4 d))),
        length (emit_mov_reg_b32d r base d),
      )
unfolding emit_mov_reg_b32d mem_instr
decode-load m a r base d hr hb b =
    decode-memory_form m a 0x8b r base d _ hr hb (refl, refl, refl) refl b

decode-store :
    (m : Bytes) (a r base d : ℕ)
    → r < 16
    → base < 16
    → HasBytes m a (emit_mov_b32d_reg base d r)
    → decode m a
      ≡ some (
        CpuInstr.store r base (sign_extend32 (le_value (bytes_of 4 d))),
        length (emit_mov_b32d_reg base d r),
      )
unfolding emit_mov_b32d_reg mem_instr
decode-store m a r base d hr hb b =
    decode-memory_form m a 0x89 r base d _ hr hb (refl, refl, refl) refl b

pub mem_dword-inv : (s : Vm) (a v : ℕ) → mem_dword s a ≡ some v → as_dword s.mem a ≡ v
unfolding mem_dword
mem_dword-inv s a v e = ground arith

module _ (s : Vm) (x : Cpu) {size : ℕ} (h : IsVm size s) (rel : IsRelated s x) (rd ad at : ℕ)
    (hd : IsOperand rd) (ed : as_arch_reg rd ≡ some ad) (la : ad < 16) where
  pub not-Reaches :
      HasBytes x.mem x.rip (emit_not_reg ad)
      → x.rip + length (emit_not_reg ad) < 2 ^ 64
      → Post
          (λ s'.
            Reaches (IsSimulated (Instruction.not rd) (x.rip + length (emit_not_reg ad)) s x s') x)
          (perform (Instruction.not rd) at s)
  unfolding exec perform
  not-Reaches b room = Reaches-step _ x _ _ (decode-not x.mem x.rip ad la b) room (
      Reaches-here _ _ (
        IsRelated-unmapped (set_reg rd _ s) (write ad _ x) pc _ (inr refl)
            (IsRelated-write s x rd ad _ _ rel hd.0 ed (rw (rel.0 rd ad hd.0 ed) refl)),
        refl,
        (rw (ne→== rd flags hd.1) refl, refl, refl, refl),
      ))

  module _ (rs aₛ idx : ℕ) (hs : IsOperand rs) (es : as_arch_reg rs ≡ some aₛ) (ls : aₛ < 16)
      (hi : idx < 2 ^ 16) where
    pub load-Reaches :
        HasBytes x.mem x.rip (emit_mov_reg_b32d ad aₛ (displacement idx))
        → x.rip + length (emit_mov_reg_b32d ad aₛ (displacement idx)) < 2 ^ 64
        → Post
            (λ s'.
              Reaches
                (IsSimulated
                  (Instruction.load rd rs idx)
                  (x.rip + length (emit_mov_reg_b32d ad aₛ (displacement idx)))
                  s
                  x
                  s')
                x)
            (perform (Instruction.load rd rs idx) at s)
    unfolding exec perform
    load-Reaches b room = Post-bind _ (mem_dword s (address (s.reg rs) idx)) _ λ v e.
        let place : add64 (x.reg aₛ) (sign_extend32 (le_value (bytes_of 4 (displacement idx))))
            ≡ address (s.reg rs) idx =
          rw (displacement-extends idx hi, rel.0 rs aₛ hs.0 es)
            (add64-address (s.reg rs) idx (h.words rs) hi) in
        Reaches-step _ x _ _ (decode-load x.mem x.rip ad aₛ (displacement idx) la ls b) room (
          Reaches-here _ _ (
            IsRelated-unmapped (set_reg rd v s) (write ad _ x) pc _ (inr refl) (
                IsRelated-write s x rd ad v _ rel hd.0 ed
                  (rw (place, rel.1) (sym (mem_dword-inv s _ v e)))),
            refl,
            (rw (ne→== rd flags hd.1) refl, refl, refl, refl),
          ))

    pub store-Reaches :
        HasBytes x.mem x.rip (emit_mov_b32d_reg ad (displacement idx) aₛ)
        → x.rip + length (emit_mov_b32d_reg ad (displacement idx) aₛ) < 2 ^ 64
        → Post
            (λ s'.
              Reaches
                (IsSimulated
                  (Instruction.store rd idx rs)
                  (x.rip + length (emit_mov_b32d_reg ad (displacement idx) aₛ))
                  s
                  x
                  s')
                x)
            (perform (Instruction.store rd idx rs) at s)
    unfolding exec perform
    store-Reaches b room = Post-bind _ (store_dword s (address (s.reg rd) idx) (s.reg rs)) _ λ t e.
        let place : add64 (x.reg ad) (sign_extend32 (le_value (bytes_of 4 (displacement idx))))
            ≡ address (s.reg rd) idx =
          rw (displacement-extends idx hi, rel.0 rd ad hd.0 ed)
            (add64-address (s.reg rd) idx (h.words rd) hi) in
        let (_, stored) = store_dword-inv s _ _ t e in
        Reaches-step _ x _ _ (decode-store x.mem x.rip aₛ ad (displacement idx) ls la b) room (
          Reaches-here _ _ (
            IsRelated-unmapped t (record x { mem = _ }) pc _ (inr refl)
                (rw stored (λ r a k q. rel.0 r a k q, rw (place, rel.0 rs aₛ hs.0 es, rel.1) refl)),
            refl,
            (ap (λ (u : Vm). u.reg flags) stored, refl, refl, refl),
          ))

  pub push-Reaches :
      rd ≢ sp
      → HasBytes x.mem x.rip (emit_push_reg ad)
      → x.rip + length (emit_push_reg ad) < 2 ^ 64
      → Post
          (λ s'.
            Reaches
              (IsSimulated (Instruction.push rd) (x.rip + length (emit_push_reg ad)) s x s')
              x)
          (perform (Instruction.push rd) at s)
  unfolding exec perform
  push-Reaches ne b room =
      Post-bind _ (store_dword (sp_sub 8 s) ((sp_sub 8 s).reg sp) ((sp_sub 8 s).reg rd)) _ λ t e.
        let (_, stored) = store_dword-inv (sp_sub 8 s) _ _ t e in
        let top : x.reg rsp ≡ s.reg sp = rel.0 sp rsp (omega arith) sp-rsp in
        let (regs, _) : IsRelated (sp_sub 8 s) (write rsp (sub64 (x.reg rsp) 8) x) =
          IsRelated-write s x sp rsp _ _ rel (omega arith) sp-rsp (rw top refl) in
        Reaches-step _ x _ _ (decode-push x.mem x.rip ad la b) room (
          Reaches-here _ _ (
            IsRelated-unmapped t (record x { reg = _; mem = _ }) pc _ (inr refl)
                (rw stored
                  (regs, rw (top, rel.0 rd ad hd.0 ed, rel.1, ne→== sp rd (λ q. ne (sym q))) refl)),
            refl,
            (ap (λ (u : Vm). u.reg flags) stored, refl, refl, refl),
          ))

  pub pop-Reaches :
      rd ≢ sp
      → HasBytes x.mem x.rip (emit_pop_reg ad)
      → x.rip + length (emit_pop_reg ad) < 2 ^ 64
      → Post
          (λ s'.
            Reaches (IsSimulated (Instruction.pop rd) (x.rip + length (emit_pop_reg ad)) s x s') x)
          (perform (Instruction.pop rd) at s)
  unfolding exec perform
  pop-Reaches ne b room = Post-bind _ (mem_dword s (s.reg sp)) _ λ v e.
      let top : x.reg rsp ≡ s.reg sp = rel.0 sp rsp (omega arith) sp-rsp in
      let s₁ : Vm = set_reg rd v (sp_add 8 s) in
      let swapped : s₁ ≡ sp_add 8 (set_reg rd v s) =
        ap (λ (k : ℕ → ℕ). record s { reg = k }) (fun_ext λ r. ground (arith, ne)) in
      let moved : IsRelated (sp_add 8 s) (write rsp (add64 (x.reg rsp) 8) x) =
        IsRelated-write s x sp rsp _ _ rel (omega arith) sp-rsp (rw top refl) in
      let whole : IsRelated s₁
          (write ad (as_dword x.mem (x.reg rsp)) (write rsp (add64 (x.reg rsp) 8) x)) =
        IsRelated-write (sp_add 8 s) (write rsp (add64 (x.reg rsp) 8) x) rd ad v _ moved hd.0 ed
          (rw (top, rel.1) (sym (mem_dword-inv s _ v e))) in
      Reaches-step _ x _ _ (decode-pop x.mem x.rip ad la b) room (
        Reaches-here _ _ (
          IsRelated-unmapped (sp_add 8 (set_reg rd v s)) (record x { reg = _ }) pc _ (inr refl)
              (subst
                (λ (u : Vm).
                  IsRelated u
                    (write ad (as_dword x.mem (x.reg rsp)) (write rsp (add64 (x.reg rsp) 8) x)))
                swapped whole),
          refl,
          (rw (ne→== rd flags hd.1) refl, refl, refl, refl),
        ))

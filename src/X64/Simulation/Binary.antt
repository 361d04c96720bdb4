-- ===== src/X64/Simulation/Binary.antt =====
-- The two-operand instructions on both sides.
use pcomp.Common.{
  ℕ, ◌+◌, ◌^◌, ◌<◌, ◌≡◌, refl, sym, ◌∙◌, List, ◌++◌, length, some, arith, inl, inr, ne→==,
  length-append,
}
use pcomp.Word.{IsU64}
use pcomp.Memory.{HasBytes}
use pcomp.Exe.{flags, pc}
use pcomp.Interpreter.State.{Vm, set_reg}
use pcomp.Interpreter.Handlers.{compare_flag}
use pcomp.Interpreter.Invariant.{IsVm}
use pcomp.Spec.{BinOp, Cond, Source, Instruction, IsOperand, holds, source_value, result, compute}
use pcomp.Spec.Decode.{add64-signed, sub64-signed}
use pcomp.Behaviour.Steps.{HasBytes-append}
use pcomp.Behaviour.Compare.{holds-compare_flag}
use pcomp.X64.Regs.{as_arch_reg, rbp}
use pcomp.X64.Encode.{
  emit_mov_reg_imm, emit_add_reg_imm64, emit_and_reg_imm64, emit_cmp_reg_imm64, emit_or_reg_imm64,
  emit_sub_reg_imm64, emit_xor_reg_imm64,
}
use pcomp.X64.Immediate.{IsMisloaded}
use pcomp.X64.Machine.{Cpu, exec, exec_binary, compare_operands, condition, go_to, write}
use pcomp.X64.Machine.Flags.{condition-compare_operands}
use pcomp.X64.Machine.Operand.{decode-mov_imm}
use pcomp.X64.Relation.{IsRelated, IsRelated-write, IsRelated-scratch, IsRelated-unmapped}
use pcomp.X64.Simulation.{Reaches, Reaches-here, Reaches-step, BinaryFlags, IsSimulated}
use pcomp.X64.Machine.Binary.{emit_reg, emit_imm, decode-emit_reg}

module _ (s : Vm) (x : Cpu) {size : ℕ} (h : IsVm size s) (rel : IsRelated s x) (rd ad q : ℕ)
    (src : Source) (hd : IsOperand rd) (ed : as_arch_reg rd ≡ some ad)
    (eq : x.reg q ≡ source_value src s) (word : IsU64 (source_value src s)) where
  dst : x.reg ad ≡ s.reg rd
  dst = rel.0 rd ad hd.0 ed

  -- Both sides compute the same.
  IsRelated-compute : (op : BinOp) → IsRelated (compute op rd src s) (exec_binary op ad q x)
  unfolding compute exec_binary result compare_operands
  IsRelated-compute BinOp.mov = IsRelated-write s x rd ad _ _ rel hd.0 ed (sym eq)
  IsRelated-compute BinOp.add =
      IsRelated-write s x rd ad _ _ rel hd.0 ed
        (rw (dst, eq) (sym (add64-signed (s.reg rd) (source_value src s) (h.words rd) word)))
  IsRelated-compute BinOp.sub =
      IsRelated-write s x rd ad _ _ rel hd.0 ed
        (rw (dst, eq) (sym (sub64-signed (s.reg rd) (source_value src s) (h.words rd) word)))
  IsRelated-compute BinOp.and = IsRelated-write s x rd ad _ _ rel hd.0 ed (rw (dst, eq) refl)
  IsRelated-compute BinOp.or = IsRelated-write s x rd ad _ _ rel hd.0 ed (rw (dst, eq) refl)
  IsRelated-compute BinOp.xor = IsRelated-write s x rd ad _ _ rel hd.0 ed (rw (dst, eq) refl)
  IsRelated-compute BinOp.cmp = IsRelated-unmapped s x flags _ (inl refl) rel

  FlagsAgree-compare :
      (end : ℕ) (c : Cond)
      → condition c (go_to end (compare_operands (x.reg ad) (x.reg q) x))
        ≡ holds c (compare_flag (s.reg rd) (source_value src s))
  unfolding compare_operands
  FlagsAgree-compare end c =
      rw (dst, eq)
        (condition-compare_operands c (s.reg rd) (source_value src s) (go_to end x) (h.words rd)
            word
          ∙ sym (holds-compare_flag c (s.reg rd) (source_value src s) (h.words rd) word))

  -- The flags, with the program counters of both sides moved on.
  BinaryFlags-compute :
      (op : BinOp) (at end : ℕ)
      → BinaryFlags op s x (set_reg pc at (compute op rd src s)) (go_to end (exec_binary op ad q x))
  unfolding compute exec_binary
  BinaryFlags-compute BinOp.mov at end = (rw (ne→== rd flags hd.1) refl, refl, refl, refl)
  BinaryFlags-compute BinOp.cmp at end = λ c. FlagsAgree-compare end c
  BinaryFlags-compute _ at end = tt

-- The load of an immediate into `RBP`, and the operation on it.
abbrev through_rbp : BinOp → ℕ → ℕ → List ℕ
through_rbp op ad v = emit_mov_reg_imm rbp v ++ emit_reg op ad rbp

-- Moving an immediate leaves the flags.
BinaryFlags-move :
    (op : BinOp) (s s' : Vm) (x x' : Cpu) (r v n : ℕ)
    → BinaryFlags op s (go_to n (write r v x)) s' x'
    → BinaryFlags op s x s' x'
BinaryFlags-move BinOp.mov s s' x x' r v n f = f
BinaryFlags-move BinOp.cmp s s' x x' r v n f = f
BinaryFlags-move _ s s' x x' r v n f = tt

module _ (s : Vm) (x : Cpu) {size : ℕ} (h : IsVm size s) (rel : IsRelated s x) (op : BinOp)
    (rd ad at : ℕ) (hd : IsOperand rd) (ed : as_arch_reg rd ≡ some ad) (la : ad < 16) where
  pub binary_reg-Reaches :
      (rs aₛ : ℕ)
      → IsOperand rs
      → as_arch_reg rs ≡ some aₛ
      → aₛ < 16
      → HasBytes x.mem x.rip (emit_reg op ad aₛ)
      → x.rip + length (emit_reg op ad aₛ) < 2 ^ 64
      → Reaches
          (IsSimulated
            (Instruction.binary op rd (Source.reg rs))
            (x.rip + length (emit_reg op ad aₛ))
            s
            x
            (set_reg pc at (compute op rd (Source.reg rs) s)))
          x
  unfolding exec
  binary_reg-Reaches rs aₛ hs es ls b room =
      let same : x.reg aₛ ≡ s.reg rs = rel.0 rs aₛ hs.0 es in
      Reaches-step _ x _ _ (decode-emit_reg op x.mem x.rip ad aₛ la ls b) room (
        Reaches-here _ _ (
          IsRelated-unmapped (compute op rd (Source.reg rs) s) (exec_binary op ad aₛ x) pc at
              (inr refl)
              (IsRelated-compute s x h rel rd ad aₛ (Source.reg rs) hd ed same (h.words rs) op),
          refl,
          BinaryFlags-compute s x h rel rd ad aₛ (Source.reg rs) hd ed same (h.words rs) op at _,
        ))

  through_rbp-Reaches :
      (v : ℕ)
      → IsU64 v
      → ¬ IsMisloaded v
      → HasBytes x.mem x.rip (through_rbp op ad v)
      → x.rip + length (through_rbp op ad v) < 2 ^ 64
      → Reaches
          (IsSimulated
            (Instruction.binary op rd (Source.imm v))
            (x.rip + length (through_rbp op ad v))
            s
            x
            (set_reg pc at (compute op rd (Source.imm v) s)))
          x
  unfolding exec
  through_rbp-Reaches v hv ok b room =
      let (b₁, b₂) = HasBytes-append x.mem x.rip (emit_mov_reg_imm rbp v) (emit_reg op ad rbp) b in
      let whole : length (through_rbp op ad v)
          ≡ length (emit_mov_reg_imm rbp v) + length (emit_reg op ad rbp) =
        length-append (emit_mov_reg_imm rbp v) (emit_reg op ad rbp) in
      let next : ℕ = x.rip + length (emit_mov_reg_imm rbp v) in
      let x₁ : Cpu = go_to next (write rbp v x) in
      let rel₁ : IsRelated s x₁ = IsRelated-scratch s x v rel in
      Reaches-step _ x _ _ (decode-mov_imm x.mem x.rip rbp v (omega arith) hv ok b₁)
        (omega (arith, whole))
        (Reaches-step _ x₁ _ _ (decode-emit_reg op x.mem next ad rbp la (omega arith) b₂)
          (omega (arith, whole))
          (Reaches-here _ _ (
            IsRelated-unmapped (compute op rd (Source.imm v) s) (exec_binary op ad rbp x₁) pc at
                (inr refl)
                (IsRelated-compute s x₁ h rel₁ rd ad rbp (Source.imm v) hd ed refl hv op),
            omega (arith, whole),
            BinaryFlags-move op s _ x _ rbp v next
                (BinaryFlags-compute s x₁ h rel₁ rd ad rbp (Source.imm v) hd ed refl hv op at _),
          )))

  mov_imm-Reaches :
      (v : ℕ)
      → IsU64 v
      → ¬ IsMisloaded v
      → HasBytes x.mem x.rip (emit_mov_reg_imm ad v)
      → x.rip + length (emit_mov_reg_imm ad v) < 2 ^ 64
      → Reaches
          (IsSimulated
            (Instruction.binary BinOp.mov rd (Source.imm v))
            (x.rip + length (emit_mov_reg_imm ad v))
            s
            x
            (set_reg pc at (compute BinOp.mov rd (Source.imm v) s)))
          x
  unfolding exec compute result
  mov_imm-Reaches v hv ok b room =
      let next : ℕ = x.rip + length (emit_mov_reg_imm ad v) in
      Reaches-step _ x _ _ (decode-mov_imm x.mem x.rip ad v la hv ok b) room (
        Reaches-here _ (go_to next (write ad v x)) (
          IsRelated-unmapped (set_reg rd v s) (write ad v x) pc at (inr refl)
              (IsRelated-write s x rd ad v v rel hd.0 ed refl),
          refl,
          (rw (ne→== rd flags hd.1) refl, refl, refl, refl),
        ))

pub binary_imm-Reaches :
    (op : BinOp) (s : Vm) (x : Cpu) {size : ℕ}
    → IsVm size s
    → IsRelated s x
    → (rd ad at v : ℕ) → IsOperand rd
    → as_arch_reg rd ≡ some ad
    → ad < 16
    → IsU64 v
    → ¬ IsMisloaded v
    → HasBytes x.mem x.rip (emit_imm op ad v)
    → x.rip + length (emit_imm op ad v) < 2 ^ 64
    → Reaches
        (IsSimulated
          (Instruction.binary op rd (Source.imm v))
          (x.rip + length (emit_imm op ad v))
          s
          x
          (set_reg pc at (compute op rd (Source.imm v) s)))
        x
unfolding emit_imm emit_reg emit_add_reg_imm64 emit_and_reg_imm64 emit_cmp_reg_imm64
    emit_or_reg_imm64 emit_sub_reg_imm64 emit_xor_reg_imm64
binary_imm-Reaches BinOp.mov s x h rel rd ad at v hd ed la hv ok =
    mov_imm-Reaches s x h rel BinOp.mov rd ad at hd ed la v hv ok
binary_imm-Reaches op s x h rel rd ad at v hd ed la hv ok =
    through_rbp-Reaches s x h rel op rd ad at hd ed la v hv ok

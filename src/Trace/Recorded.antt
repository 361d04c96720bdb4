-- ===== src/Trace/Recorded.antt =====
-- The translation of vm/x64.cc records an entry wherever it succeeds.
use pcomp.Common.{
  ℕ, ◌+◌, ◌≡◌, refl, List, Bool, true, false, Option, none, some, ◌==◌, if◌then◌else◌, arith,
}
use pcomp.Word.{as_signed16}
use pcomp.Exe.{
  load, store, mov, not, push, pop, call, ret, jmp, jmpeq, jmpne, jmpgt, jmplt, jmpge, jmple,
  VmInstr, instr, instr_handle, am_reg, access_mode, reg_dst, reg_src,
}
use pcomp.Jit.{Jit, Program, prog_byte, prog_hword, prog_dword}
use pcomp.X64.Regs.{as_arch_reg}
use pcomp.X64.Jit.{
  jit_load, jit_store, jit_two_operands, jit_one_operand, jit_branch, jit_instr, jit_vm_instruction,
}
use pcomp.X64.Progress.{Holds, Holds-bind, Moved, jit_instr-Moved}
use pcomp.Trace.{Idd, no_idd}
use pcomp.Trace.Decode.{
  prog_reader, put_ivs, decode_indexed, decode_operands, decode_operand, decode_target, decode_idd,
  jit_idd,
}

-- The decoding for the listing succeeds.
Decodes : Option Idd → Type 0
Decodes o = (d : Idd) × (o ≡ some d)

Holds-if_eq :
    (P : Jit → Type 0) (b : Bool) (x y : Option Jit)
    → (b ≡ true → Holds P x)
    → (b ≡ false → Holds P y)
    → Holds P (if b then x else y)
Holds-if_eq P true x y hx hy = hx refl
Holds-if_eq P false x y hx hy = hy refl

always : {P : Type 0} (o : Option Jit) → P → Holds (λ _. P) o
always none h = tt
always (some j) h = h

Holds-map : {P Q : Type 0} (o : Option Jit) → (P → Q) → Holds (λ _. P) o → Holds (λ _. Q) o
Holds-map none f h = tt
Holds-map (some j) f h = f h

add_zero : (a : ℕ) → a + 0 ≡ a
add_zero a = omega arith

module _ (p : Program) (j : Jit) (d : Idd) where
  indexed-Decodes :
      (b i : ℕ)
      → prog_byte p (j.jpos.vm + 1) ≡ some b
      → prog_hword p (j.jpos.vm + 2) ≡ some i
      → Decodes (decode_indexed (prog_reader p j.jpos.vm) d)
  unfolding decode_indexed Decodes
  indexed-Decodes b i e e' =
      (record d { dst = reg_dst b; src = reg_src b; idx = as_signed16 i }, rw (e, e') refl)

  reg-Decodes :
      (put : ℕ → Idd → Idd) (op b : ℕ)
      → prog_byte p j.jpos.vm ≡ some op
      → prog_byte p (j.jpos.vm + 1) ≡ some b
      → (access_mode op == am_reg) ≡ true
      → Decodes (decode_operands (prog_reader p j.jpos.vm) put d)
  unfolding decode_operands Decodes
  reg-Decodes put op b e e' a = (
    record d { am = access_mode op; dst = reg_dst b; src = reg_src b },
    rw (add_zero j.jpos.vm, e, e', a) refl,
  )

  imm-Decodes :
      (put : ℕ → Idd → Idd) (op b v : ℕ)
      → prog_byte p j.jpos.vm ≡ some op
      → prog_byte p (j.jpos.vm + 1) ≡ some b
      → prog_dword p (j.jpos.vm + 2) ≡ some v
      → (access_mode op == am_reg) ≡ false
      → Decodes (decode_operands (prog_reader p j.jpos.vm) put d)
  unfolding decode_operands Decodes
  imm-Decodes put op b v e e' e'' a = (
    put v (record d { am = access_mode op; dst = reg_dst b }),
    rw (add_zero j.jpos.vm, e, e', a, e'') refl,
  )

  operand-Decodes :
      (b : ℕ)
      → prog_byte p (j.jpos.vm + 1) ≡ some b
      → Decodes (decode_operand (prog_reader p j.jpos.vm) d)
  unfolding decode_operand Decodes
  operand-Decodes b e = (record d { dst = reg_dst b }, rw e refl)

  target-Decodes :
      (v : ℕ)
      → prog_dword p (j.jpos.vm + 1) ≡ some v
      → Decodes (decode_target (prog_reader p j.jpos.vm) d)
  unfolding decode_target Decodes
  target-Decodes v e = (record d { ivu = v }, rw e refl)

  jit_load-Decodes :
      Holds (λ _. Decodes (decode_indexed (prog_reader p j.jpos.vm) d)) (jit_load p j)
  unfolding jit_load
  jit_load-Decodes = Holds-bind _ (prog_byte p (j.jpos.vm + 1)) _ λ b e.
      Holds-bind _ (prog_hword p (j.jpos.vm + 2)) _ λ i e'. always _ (indexed-Decodes b i e e')

  jit_store-Decodes :
      Holds (λ _. Decodes (decode_indexed (prog_reader p j.jpos.vm) d)) (jit_store p j)
  unfolding jit_store
  jit_store-Decodes = Holds-bind _ (prog_byte p (j.jpos.vm + 1)) _ λ b e.
      Holds-bind _ (prog_hword p (j.jpos.vm + 2)) _ λ i e'. always _ (indexed-Decodes b i e e')

  jit_two_operands-Decodes :
      (put : ℕ → Idd → Idd) (f g : ℕ → ℕ → List ℕ)
      → Holds
          (λ _. Decodes (decode_operands (prog_reader p j.jpos.vm) put d))
          (jit_two_operands p f g j)
  unfolding jit_two_operands
  jit_two_operands-Decodes put f g = Holds-bind _ (prog_byte p j.jpos.vm) _ λ op e.
      Holds-bind _ (prog_byte p (j.jpos.vm + 1)) _ λ b e'.
        Holds-bind _ (as_arch_reg (reg_dst b)) _ λ rd _.
          Holds-if_eq _ (access_mode op == am_reg) _ _ (λ a. always _ (reg-Decodes put op b e e' a))
            (λ a.
              Holds-bind _ (prog_dword p (j.jpos.vm + 2)) _
                λ v e''. imm-Decodes put op b v e e' e'' a)

  jit_one_operand-Decodes :
      (f : ℕ → List ℕ)
      → Holds (λ _. Decodes (decode_operand (prog_reader p j.jpos.vm) d)) (jit_one_operand p f j)
  unfolding jit_one_operand
  jit_one_operand-Decodes f =
      Holds-bind _ (prog_byte p (j.jpos.vm + 1)) _ λ b e. always _ (operand-Decodes b e)

  jit_branch-Decodes :
      (f : ℕ → ℕ → List ℕ) (n : ℕ)
      → Holds (λ _. Decodes (decode_target (prog_reader p j.jpos.vm) d)) (jit_branch p f n j)
  unfolding jit_branch
  jit_branch-Decodes f n = Holds-bind _ (prog_dword p (j.jpos.vm + 1)) _ λ v e. target-Decodes v e

  -- Where the translation of an instruction succeeds, so does the filling in of `idd`.
  jit_instr-Decodes :
      (i : VmInstr)
      → Holds (λ _. Decodes (decode_idd (prog_reader p j.jpos.vm) put_ivs i d)) (jit_instr p i j)
  unfolding jit_instr decode_idd Decodes
  jit_instr-Decodes load = jit_load-Decodes
  jit_instr-Decodes store = jit_store-Decodes
  jit_instr-Decodes not = jit_one_operand-Decodes _
  jit_instr-Decodes push = jit_one_operand-Decodes _
  jit_instr-Decodes pop = jit_one_operand-Decodes _
  jit_instr-Decodes ret = (d, refl)
  jit_instr-Decodes call = jit_branch-Decodes _ _
  jit_instr-Decodes jmp = jit_branch-Decodes _ _
  jit_instr-Decodes jmpeq = jit_branch-Decodes _ _
  jit_instr-Decodes jmpne = jit_branch-Decodes _ _
  jit_instr-Decodes jmpgt = jit_branch-Decodes _ _
  jit_instr-Decodes jmplt = jit_branch-Decodes _ _
  jit_instr-Decodes jmpge = jit_branch-Decodes _ _
  jit_instr-Decodes jmple = jit_branch-Decodes _ _
  jit_instr-Decodes mov = jit_two_operands-Decodes put_ivs _ _
  jit_instr-Decodes _ = jit_two_operands-Decodes put_ivs _ _

-- A translated instruction has an entry to record, and leaves the map of addresses as it is.
unfoldable pub Entry : Program → Jit → Jit → Type 0
Entry p j j' = ((d : Idd) × (jit_idd p j.jpos.vm ≡ some d)) × (j'.va2aa ≡ j.va2aa)

with_same_map :
    (P : Type 0) (p : Program) (i : VmInstr) (j : Jit) (o : Option Jit)
    → Holds (λ _. P) o
    → Holds (Moved p i j) o
    → Holds (λ j'. P × (j'.va2aa ≡ j.va2aa)) o
with_same_map P p i j none h m = tt
with_same_map P p i j (some j') h m = (h, m.same_map)

entry_of :
    (p : Program) (j : Jit) (op : ℕ) (i : VmInstr)
    → prog_byte p j.jpos.vm ≡ some op
    → instr_handle (instr op) ≡ some i
    → Decodes (decode_idd (prog_reader p j.jpos.vm) put_ivs i no_idd)
    → (d : Idd) × (jit_idd p j.jpos.vm ≡ some d)
unfolding jit_idd Decodes
entry_of p j op i e e' (d, k) = (record d { addr = j.jpos.vm }, rw (e, e', k) refl)

pub jit_vm_instruction-entry : (p : Program) (j : Jit) → Holds (Entry p j) (jit_vm_instruction p j)
unfolding jit_vm_instruction Entry
jit_vm_instruction-entry p j = Holds-bind _ (prog_byte p j.jpos.vm) _ λ op e.
    Holds-bind _ (instr_handle (instr op)) _ λ i e'.
      with_same_map ((d : Idd) × (jit_idd p j.jpos.vm ≡ some d)) p i j (jit_instr p i j)
        (Holds-map (jit_instr p i j) (entry_of p j op i e e') (jit_instr-Decodes p j no_idd i))
        (jit_instr-Moved p i j)

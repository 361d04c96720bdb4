-- ===== src/Trace/Syntax.antt =====
-- What a trace line should show of an instruction: its address, its encoding in ten columns, and
-- its assembly text in the syntax of doc/vm.md.
use Prim.Native.String.{String}
use pcomp.Common.{ℕ, zero, ◌-◌, List, [], ◌∷◌, ◌++◌, length, ℤ, pos, negsuc, suc}
use pcomp.Word.{as_signed16, as_signed64}
use pcomp.Spec.{BinOp, Cond, Source, Instruction, reg, imm}
use pcomp.Trace.{Piece, text, hex, dec, endl, reg_name, blanks, line_start}

abbrev pub shown_bytes : List ℕ → List Piece
shown_bytes [] = []
shown_bytes (b ∷ bs) = hex 2 b ∷ text " " ∷ shown_bytes bs

-- `(+|- <idx>)?`
abbrev pub index : ℤ → List Piece
index (pos zero) = []
index (pos (suc n)) = text " + " ∷ dec (pos (suc n)) ∷ []
index (negsuc n) = text " - " ∷ dec (pos (suc n)) ∷ []

unfoldable pub binary_name : BinOp → String
binary_name BinOp.mov = "mov "
binary_name BinOp.add = "add "
binary_name BinOp.sub = "sub "
binary_name BinOp.and = "and "
binary_name BinOp.or = "or "
binary_name BinOp.xor = "xor "
binary_name BinOp.cmp = "cmp "

unfoldable pub jump_name : Cond → String
jump_name Cond.eq = "jmpeq "
jump_name Cond.ne = "jmpne "
jump_name Cond.gt = "jmpgt "
jump_name Cond.lt = "jmplt "
jump_name Cond.ge = "jmpge "
jump_name Cond.le = "jmple "

-- The immediate of a bitwise operation is unsigned, that of any other is signed.
unfoldable pub immediate : BinOp → ℕ → ℤ
immediate BinOp.and v = pos v
immediate BinOp.or v = pos v
immediate BinOp.xor v = pos v
immediate op v = as_signed64 v

abbrev source : BinOp → Source → Piece
source op (reg rs) = reg_name rs
source op (imm v) = dec (immediate op v)

abbrev with_register : String → ℕ → List Piece
with_register name rd = text name ∷ reg_name rd ∷ []

abbrev pub with_target : String → ℕ → List Piece
with_target name a = text name ∷ text "0x" ∷ hex 0 a ∷ []

abbrev pub assembly : Instruction → List Piece
assembly (Instruction.load rd rs idx) =
    with_register "load " rd ++ text ", [" ∷ reg_name rs ∷ index (as_signed16 idx) ++ text "]" ∷ []
assembly (Instruction.store rd idx rs) =
    with_register "store [" rd ++ index (as_signed16 idx) ++ text "], " ∷ reg_name rs ∷ []
assembly (Instruction.binary op rd src) =
    with_register (binary_name op) rd ++ text ", " ∷ source op src ∷ []
assembly (Instruction.not rd) = with_register "not " rd
assembly (Instruction.push rs) = with_register "push " rs
assembly (Instruction.pop rd) = with_register "pop " rd
assembly (Instruction.call a) = with_target "call " a
assembly (Instruction.jmp a) = with_target "jmp " a
assembly (Instruction.jmp_if c a) = with_target (jump_name c) a
assembly Instruction.ret = text "ret" ∷ []

-- The line of an instruction whose bytes are `bs` and whose text is that of `i`.
abbrev pub line : ℕ → List ℕ → Instruction → List Piece
line a bs i =
    line_start a ++ ((shown_bytes bs ++ blanks (10 - length bs)) ++ assembly i) ++ endl ∷ []

-- A line between two empty ones.
abbrev pub set_apart : List Piece → List Piece
set_apart l = text "[DEBUG] " ∷ endl ∷ l ++ text "[DEBUG] " ∷ endl ∷ []

-- What the listing of a JIT shows in place of an instruction: 0 for the immediate of a bitwise
-- operation.
unfoldable pub listed : Instruction → Instruction
listed (Instruction.binary BinOp.and rd (imm v)) = Instruction.binary BinOp.and rd (imm 0)
listed (Instruction.binary BinOp.or rd (imm v)) = Instruction.binary BinOp.or rd (imm 0)
listed (Instruction.binary BinOp.xor rd (imm v)) = Instruction.binary BinOp.xor rd (imm 0)
listed i = i

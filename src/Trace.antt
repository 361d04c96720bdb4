-- ===== src/Trace.antt =====
-- ExecutionEngine::trace_instr_decode of vm/exe.cc: the line that a traced instruction prints.
pub mod Decode
pub mod Decoded
pub mod Record
pub mod Listing
pub mod Recorded
pub mod Syntax
pub mod Assembly
pub mod Shown
pub mod Dumped
use Prim.Native.String.{String}
use pcomp.Common.{
  ℕ, zero, suc, ◌+◌, ◌-◌, Bool, true, false, List, [], ◌∷◌, ◌++◌, Option, none, some, get_or, ℤ,
  pos, negsuc, ltb_ℤ, ◌-ℤ◌, ◌==◌, if◌then◌else◌,
}
use pcomp.Memory.{Bytes}
use pcomp.Exe.{
  load, store, mov, add, sub, and, or, xor, not, cmp, push, pop, call, ret, jmp, jmpeq, jmpne,
  jmpgt, jmplt, jmpge, jmple, VmInstr, instr, instr_handle,
}

-- instr_decode_data_t
pub record Idd : Type 0 where
  pub addr : ℕ
  pub am : ℕ
  pub dst : ℕ
  pub src : ℕ
  pub idx : ℤ
  pub ivu : ℕ
  pub ivs : ℤ

-- `instr_decode_data_t idd = { 0, 0, 0, 0, 0, 0, 0 };`
abbrev pub no_idd : Idd
no_idd = record { addr = 0; am = 0; dst = 0; src = 0; idx = pos 0; ivu = 0; ivs = pos 0 }

-- What `<<` puts on `cout`: a text, a number by `HEX_` with its width, and a number as `std::dec`
-- shows it.
pub data Piece : Type 0 where
  text : String → Piece
  hex : (width n : ℕ) → Piece
  dec : ℤ → Piece
  endl : Piece

-- The table `R`, which 4-bit fields index.
abbrev reg_names : List String
reg_names =
    "r0" ∷ "r1" ∷ "r2" ∷ "r3" ∷ "r4" ∷ "r5" ∷ "r6" ∷ "r7" ∷ "r8" ∷ "r9" ∷ "r10" ∷ "r11" ∷ "r12"
    ∷ "flags" ∷ "sp" ∷ "pc" ∷ []

unfoldable pub reg_name : ℕ → Piece
reg_name r = text (get_or reg_names r "")

-- `HEX_DUMP`: its two loops and the gap.
unfoldable pub hex_bytes : ℕ → Bytes → ℕ → List Piece
hex_bytes zero mem addr = []
hex_bytes (suc n) mem addr = hex 2 (mem addr) ∷ text " " ∷ hex_bytes n mem (addr + 1)

abbrev pub blanks : ℕ → List Piece
blanks zero = text "   " ∷ []
blanks (suc n) = text "   " ∷ blanks n

unfoldable pub hex_dump : ℕ → Bytes → ℕ → List Piece
hex_dump num_bytes mem addr = hex_bytes num_bytes mem addr ++ blanks (10 - num_bytes)

-- `IDX_DUMP`
unfoldable pub idx_dump : ℤ → List Piece
idx_dump (pos zero) = []
idx_dump idx =
    if ltb_ℤ (pos 0) idx then text " + " ∷ dec idx ∷ [] else text " - " ∷ dec (pos 0 -ℤ idx) ∷ []

-- The cases of `MOV` to `XOR` and `CMP`, with their name and the immediate that they show; those of
-- `NOT`, `PUSH` and `POP`; and those of `CALL` and the jumps.
unfoldable pub trace_operands : String → ℤ → Bytes → Idd → List Piece
trace_operands name iv mem idd =
    hex_dump (if idd.am == 0 then 2 else 10) mem idd.addr
    ++ text name
      ∷ reg_name idd.dst
      ∷ text ", "
      ∷ (if idd.am == 0 then reg_name idd.src else dec iv)
      ∷ []

unfoldable pub trace_operand : String → Bytes → Idd → List Piece
trace_operand name mem idd = hex_dump 2 mem idd.addr ++ text name ∷ reg_name idd.dst ∷ []

unfoldable pub trace_target : String → Bytes → Idd → List Piece
trace_target name mem idd = hex_dump 9 mem idd.addr ++ text name ∷ text "0x" ∷ hex 0 idd.ivu ∷ []

-- The `switch`.
unfoldable pub trace_instr : VmInstr → Bytes → Idd → List Piece
trace_instr load mem idd =
    hex_dump 4 mem idd.addr
    ++ text "load " ∷ reg_name idd.dst ∷ text ", [" ∷ reg_name idd.src ∷ idx_dump idd.idx
    ++ text "]" ∷ []
trace_instr store mem idd =
    hex_dump 4 mem idd.addr
    ++ text "store [" ∷ reg_name idd.dst ∷ idx_dump idd.idx
    ++ text "], " ∷ reg_name idd.src ∷ []
trace_instr mov mem idd = trace_operands "mov " idd.ivs mem idd
trace_instr add mem idd = trace_operands "add " idd.ivs mem idd
trace_instr sub mem idd = trace_operands "sub " idd.ivs mem idd
trace_instr and mem idd = trace_operands "and " (pos idd.ivu) mem idd
trace_instr or mem idd = trace_operands "or " (pos idd.ivu) mem idd
trace_instr xor mem idd = trace_operands "xor " (pos idd.ivu) mem idd
trace_instr not mem idd = trace_operand "not " mem idd
trace_instr cmp mem idd = trace_operands "cmp " idd.ivs mem idd
trace_instr push mem idd = trace_operand "push " mem idd
trace_instr pop mem idd = trace_operand "pop " mem idd
trace_instr call mem idd = trace_target "call " mem idd
trace_instr ret mem idd = hex_dump 1 mem idd.addr ++ text "ret" ∷ []
trace_instr jmp mem idd = trace_target "jmp " mem idd
trace_instr jmpeq mem idd = trace_target "jmpeq " mem idd
trace_instr jmpne mem idd = trace_target "jmpne " mem idd
trace_instr jmpgt mem idd = trace_target "jmpgt " mem idd
trace_instr jmplt mem idd = trace_target "jmplt " mem idd
trace_instr jmpge mem idd = trace_target "jmpge " mem idd
trace_instr jmple mem idd = trace_target "jmple " mem idd

-- `DBG("vm >\t" << HEX(5, idd.addr) << "   ")`
abbrev pub line_start : ℕ → List Piece
line_start addr = text "[DEBUG] " ∷ text "vm >\t" ∷ text "0x" ∷ hex 5 addr ∷ text "   " ∷ []

-- What is printed for an instruction of `mem` that has been decoded to `idd`; `none` is the `ABORT`
-- on an unknown opcode.
unfoldable pub trace_instr_decode : Bool → Bytes → Idd → Option (List Piece)
trace_instr_decode false mem idd = some []
trace_instr_decode true mem idd = elim (instr_handle (instr (mem idd.addr))) [
  | none ↦ none
  | some i ↦ some (line_start idd.addr ++ trace_instr i mem idd ++ endl ∷ [])
]

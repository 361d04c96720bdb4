-- ===== src/Exe/Fields.antt =====
-- The fields of an opcode byte and of an operand byte, as arithmetic.
use pcomp.Common.{ℕ, ◌+◌, ◌*◌, ◌/◌, ◌%◌, ◌<◌, ◌≤◌, ◌≡◌, refl, arith, some}
use pcomp.Common.Tables.{all_below, table_eq}
use pcomp.Exe.{VmInstr, code, instr, access_mode, reg_dst, reg_src, instr_handle}

instr-div : (b : ℕ) → b < 256 → instr b ≡ b / 4
unfolding all_below instr
instr-div = table_eq 256 instr (λ b. b / 4) refl

access_mode-mod : (b : ℕ) → b < 256 → access_mode b ≡ b % 2
unfolding all_below access_mode
access_mode-mod = table_eq 256 access_mode (λ b. b % 2) refl

reg_dst-div : (b : ℕ) → b < 256 → reg_dst b ≡ b / 16
unfolding all_below reg_dst
reg_dst-div = table_eq 256 reg_dst (λ b. b / 16) refl

reg_src-mod : (b : ℕ) → b < 256 → reg_src b ≡ b % 16
unfolding all_below reg_src
reg_src-mod = table_eq 256 reg_src (λ b. b % 16) refl

code_bounds : (i : VmInstr) → (1 ≤ code i) × (code i < 22)
unfolding code
code_bounds VmInstr.load = omega arith
code_bounds _ = omega arith

instr-opcode : (i : VmInstr) (am : ℕ) → am < 4 → instr (code i * 4 + am) ≡ code i
instr-opcode i am h =
    let (lo, hi) = code_bounds i in rw (instr-div (code i * 4 + am) (omega arith)) (omega arith)

instr_handle-code : (i : VmInstr) → instr_handle (code i) ≡ some i
unfolding instr_handle code
instr_handle-code VmInstr.load = refl
instr_handle-code _ = refl

-- For every instruction and every 2-bit access mode, the opcode byte `code * 4 + am` of doc/vm.md
-- selects the handler of that instruction, and the mode that is read is the lowest bit of `am`.
pub opcode_decodes :
    (i : VmInstr) (am : ℕ)
    → am < 4
    → (instr_handle (instr (code i * 4 + am)) ≡ some i) × (access_mode (code i * 4 + am) ≡ am % 2)
opcode_decodes i am h =
    let (lo, hi) = code_bounds i in
    (
      rw (instr-opcode i am h) (instr_handle-code i),
      rw (access_mode-mod (code i * 4 + am) (omega arith)) (omega arith),
    )

-- An operand byte `dst * 16 + src` gives back both register numbers.
pub operand_decodes :
    (dst src : ℕ)
    → dst < 16
    → src < 16
    → (reg_dst (dst * 16 + src) ≡ dst) × (reg_src (dst * 16 + src) ≡ src)
operand_decodes dst src hd hs = (
  rw (reg_dst-div (dst * 16 + src) (omega arith)) (omega arith),
  rw (reg_src-mod (dst * 16 + src) (omega arith)) (omega arith),
)

-- The register numbers and the access mode that are read from any byte are in range.
reg_dst-lt : (b : ℕ) → b < 256 → reg_dst b < 16
reg_dst-lt b h = rw (reg_dst-div b h) (omega arith)

reg_src-lt : (b : ℕ) → b < 256 → reg_src b < 16
reg_src-lt b h = rw (reg_src-mod b h) (omega arith)

access_mode-lt : (b : ℕ) → b < 256 → access_mode b < 2
access_mode-lt b h = rw (access_mode-mod b h) (omega arith)

-- ===== src/X64/Machine.antt =====
-- The x86-64 instructions that the JIT emits, as a processor executes them from memory, after the
-- instruction set manual. This describes the architecture and not the repository. Every address is
-- readable and writable; the flags are those that the conditional jumps read.
pub mod Flags
pub mod Code
pub mod Operand
pub mod Binary
pub mod Jump
use pcomp.Common.{
  ℕ, zero, suc, ◌+◌, ◌*◌, ◌/◌, ◌%◌, ◌^◌, Bool, true, false, List, [], ◌∷◌, Option, none, some, leb,
  ◌==◌, ◌&&◌, ◌||◌, if◌then◌else◌, update, bit_and, bit_or, bit_xor,
}
use pcomp.Word.{u64, add64, sub64, not64}
use pcomp.Memory.{Bytes, as_dword, set_dword}
use pcomp.Jit.{◌>>=◌}
use pcomp.Spec.{BinOp, mov, add, sub, and, or, xor, cmp, Cond, eq, ne, gt, lt, ge, le}
use pcomp.X64.Regs.{rsp}
use pcomp.X64.Decoder.{decode_rr, decode_mem}
use pcomp.X64.Immediate.{le_value, sign_extend32, decode_mov_imm}
use pcomp.X64.Branches.{decode_jcc}

pub record Cpu : Type 0 where
  pub reg : ℕ → ℕ
  pub mem : Bytes
  pub rip : ℕ
  pub zf : Bool
  pub sf : Bool
  pub of : Bool

-- Registers by number; `jcc` has its target's address.
pub data CpuInstr : Type 0 where
  binary : BinOp → (rd rs : ℕ) → CpuInstr
  mov_imm : (rd imm : ℕ) → CpuInstr
  load store : (r base disp : ℕ) → CpuInstr
  not push pop call_reg jmp_reg : (r : ℕ) → CpuInstr
  jcc : Cond → (target : ℕ) → CpuInstr
  ret nop : CpuInstr

abbrev pub fetch : ℕ → Bytes → ℕ → List ℕ
fetch zero m a = []
fetch (suc n) m a = m a ∷ fetch n m (a + 1)

-- The instruction of a register form, by its opcode and the fields `reg` and `r/m`; for F7 and FF
-- `reg` extends the opcode.
unfoldable pub reg_instr : ℕ × ℕ × ℕ → Option CpuInstr
reg_instr (op, r, m) =
    if op == 0x03
    then some (binary add r m)
    else if op == 0x23
    then some (binary and r m)
    else if op == 0x0b
    then some (binary or r m)
    else if op == 0x2b
    then some (binary sub r m)
    else if op == 0x33
    then some (binary xor r m)
    else if op == 0x8b
    then some (binary mov r m)
    else if op == 0x39
    then some (binary cmp m r)
    else if op == 0xf7 && r == 2
    then some (not m)
    else if op == 0xff && r == 2
    then some (call_reg m)
    else if op == 0xff && r == 4
    then some (jmp_reg m)
    else none

unfoldable pub mem_instr : ℕ × ℕ × ℕ × List ℕ → Option CpuInstr
mem_instr (op, r, base, d) =
    if op == 0x8b
    then some (load r base (sign_extend32 (le_value d)))
    else if op == 0x89
    then some (store r base (sign_extend32 (le_value d)))
    else none

-- 50+r and 58+r, with the register's fourth bit.
unfoldable pub stack_instr : ℕ → ℕ → CpuInstr
stack_instr op high = if op / 8 == 10 then push (op % 8 + 8 * high) else pop (op % 8 + 8 * high)

unfoldable pub cond_of : ℕ → Option Cond
cond_of op =
    if op == 0x84
    then some eq
    else if op == 0x85
    then some ne
    else if op == 0x8f
    then some gt
    else if op == 0x8c
    then some lt
    else if op == 0x8d
    then some ge
    else if op == 0x8e
    then some le
    else none

abbrev with_length : ℕ → CpuInstr → Option (CpuInstr × ℕ)
with_length n i = some (i, n)

-- Behind a REX prefix.
unfoldable decode_rex : Bytes → ℕ → Option (CpuInstr × ℕ)
decode_rex m a =
    if m (a + 1) / 16 == 5
    then some (stack_instr (m (a + 1)) (m a % 2), 2)
    else if m (a + 1) / 8 == 23
    then (decode_mov_imm (fetch 10 m a) >>= λ (rd, v). some (mov_imm rd v, 10))
    else if m (a + 1) == 0xc7
    then (decode_mov_imm (fetch 7 m a) >>= λ (rd, v). some (mov_imm rd v, 7))
    else if m (a + 1 + 1) / 64 == 3
    then (decode_rr (fetch 3 m a) >>= reg_instr >>= with_length 3)
    else if m (a + 1 + 1) % 8 == 4
    then (decode_mem (fetch 8 m a) >>= mem_instr >>= with_length 8)
    else (decode_mem (fetch 7 m a) >>= mem_instr >>= with_length 7)

-- The instruction at an address, and its length.
unfoldable pub decode : Bytes → ℕ → Option (CpuInstr × ℕ)
unfolding decode_rex
decode m a =
    if m a / 16 == 4
    then decode_rex m a
    else if m a / 16 == 5
    then some (stack_instr (m a) 0, 1)
    else if m a == 0x0f
    then (decode_jcc a (fetch 6 m a) >>= λ (op, target). cond_of op >>= λ c. some (jcc c target, 6))
    else if m a == 0xc3
    then some (ret, 1)
    else if m a == 0x90
    then some (nop, 1)
    else none

abbrev pub write : ℕ → ℕ → Cpu → Cpu
write r v x = record x { reg = update x.reg r v }

abbrev pub go_to : ℕ → Cpu → Cpu
go_to a x = record x { rip = a }

abbrev is_negative : ℕ → Bool
is_negative v = leb (2 ^ 63) v

unfoldable pub differ : Bool → Bool → Bool
differ true true = false
differ true false = true
differ false b = b

abbrev set_flags : ℕ → Bool → Cpu → Cpu
set_flags v overflow x = record x { zf = v == 0; sf = is_negative v; of = overflow }

-- A difference overflows where the operands differ in sign and the result differs from the first.
unfoldable pub compare_operands : ℕ → ℕ → Cpu → Cpu
compare_operands a b x =
    set_flags (sub64 a b)
      (differ (is_negative a) (is_negative b) && differ (is_negative a) (is_negative (sub64 a b))) x

unfoldable sum_flags : ℕ → ℕ → Cpu → Cpu
sum_flags a b x =
    set_flags (add64 a b)
      (differ (is_negative a) (is_negative (add64 a b))
        && differ (is_negative b) (is_negative (add64 a b)))
      x

unfoldable pub exec_binary : BinOp → ℕ → ℕ → Cpu → Cpu
unfolding sum_flags
exec_binary mov r m x = write r (x.reg m) x
exec_binary add r m x = write r (add64 (x.reg r) (x.reg m)) (sum_flags (x.reg r) (x.reg m) x)
exec_binary sub r m x = write r (sub64 (x.reg r) (x.reg m)) (compare_operands (x.reg r) (x.reg m) x)
exec_binary and r m x = let v = bit_and (x.reg r) (x.reg m) in write r v (set_flags v false x)
exec_binary or r m x = let v = bit_or (x.reg r) (x.reg m) in write r v (set_flags v false x)
exec_binary xor r m x = let v = bit_xor (x.reg r) (x.reg m) in write r v (set_flags v false x)
exec_binary cmp r m x = compare_operands (x.reg r) (x.reg m) x

unfoldable pub condition : Cond → Cpu → Bool
condition eq x = x.zf
condition ne x = if x.zf then false else true
condition gt x = if x.zf || differ x.sf x.of then false else true
condition lt x = differ x.sf x.of
condition ge x = if differ x.sf x.of then false else true
condition le x = x.zf || differ x.sf x.of

abbrev push_value : ℕ → Cpu → Cpu
push_value v x =
    let sp = sub64 (x.reg rsp) 8 in record (write rsp sp x) { mem = set_dword x.mem sp v }

-- The instruction, with the address behind it. PUSH stores the register's value before `RSP` moves,
-- and POP writes its register after `RSP` has moved.
unfoldable pub exec : CpuInstr → ℕ → Cpu → Cpu
exec (binary op r m) next x = go_to next (exec_binary op r m x)
exec (mov_imm r v) next x = go_to next (write r v x)
exec (load r base d) next x = go_to next (write r (as_dword x.mem (add64 (x.reg base) d)) x)
exec (store r base d) next x =
    go_to next (record x { mem = set_dword x.mem (add64 (x.reg base) d) (x.reg r) })
exec (not r) next x = go_to next (write r (not64 (x.reg r)) x)
exec (push r) next x = go_to next (push_value (x.reg r) x)
exec (pop r) next x =
    go_to next (write r (as_dword x.mem (x.reg rsp)) (write rsp (add64 (x.reg rsp) 8) x))
exec (call_reg r) next x = go_to (x.reg r) (push_value next x)
exec (jmp_reg r) next x = go_to (x.reg r) x
exec (jcc c target) next x = go_to (if condition c x then target else next) x
exec ret next x = go_to (as_dword x.mem (x.reg rsp)) (write rsp (add64 (x.reg rsp) 8) x)
exec nop next x = go_to next x

unfoldable pub cpu_step : Cpu → Option Cpu
cpu_step x = decode x.mem x.rip >>= λ (i, n). some (exec i (u64 (x.rip + n)) x)

unfoldable pub cpu_steps : ℕ → Cpu → Option Cpu
cpu_steps zero x = some x
cpu_steps (suc n) x = cpu_step x >>= cpu_steps n

-- ===== src/Exe.antt =====
-- vm/exe.h: the instruction set, the registers, the fields of an instruction and the constants of
-- the system call interface, which the interpreter and both JITs share.
pub mod Fields
use pcomp.Common.{ℕ, ◌*◌, ◌/◌, ◌^◌, bit_and, List, [], ◌∷◌, Option, none, some, get_or}

-- vm_instr_t
pub data VmInstr : Type 0 where
  load store mov add sub and or xor not cmp push pop call ret : VmInstr
  jmp jmpeq jmpne jmpgt jmplt jmpge jmple : VmInstr

unfoldable pub code : VmInstr → ℕ
code load = 1
code store = 2
code mov = 3
code add = 4
code sub = 5
code and = 6
code or = 7
code xor = 8
code not = 9
code cmp = 10
code push = 11
code pop = 12
code call = 13
code ret = 14
code jmp = 15
code jmpeq = 16
code jmpne = 17
code jmpgt = 18
code jmplt = 19
code jmpge = 20
code jmple = 21

-- vm_reg_t: the general purpose registers are 0 to 12.
abbrev pub flags : ℕ
flags = 13

abbrev pub sp : ℕ
sp = 14

abbrev pub pc : ℕ
pc = 15

-- vm_am_t
abbrev pub am_reg : ℕ
am_reg = 0

abbrev am_imm : ℕ
am_imm = 1

abbrev pub sys_enter_addr : ℕ
sys_enter_addr = 0x0

abbrev pub syscall_vm_exit : ℕ
syscall_vm_exit = 0

abbrev pub syscall_display_sint : ℕ
syscall_display_sint = 1

abbrev pub syscall_display_uint : ℕ
syscall_display_uint = 2

abbrev pub flag_eq : ℕ
flag_eq = 0b00000001

abbrev pub flag_lt : ℕ
flag_lt = 0b00000010

abbrev pub flag_gt : ℕ
flag_gt = 0x00000100

abbrev instruction_mask : ℕ
instruction_mask = 0xfc

abbrev access_mode_mask : ℕ
access_mode_mask = 0x01

abbrev reg_dst_mask : ℕ
reg_dst_mask = 0xf0

abbrev reg_src_mask : ℕ
reg_src_mask = 0x0f

unfoldable pub instr : ℕ → ℕ
instr byte = bit_and byte instruction_mask / 2 ^ 2

unfoldable pub access_mode : ℕ → ℕ
access_mode byte = bit_and byte access_mode_mask

unfoldable pub reg_dst : ℕ → ℕ
reg_dst byte = bit_and byte reg_dst_mask / 2 ^ 4

unfoldable pub reg_src : ℕ → ℕ
reg_src byte = bit_and byte reg_src_mask

-- The table of handlers that the interpreter and the JITs index by `instr`. `none` is the null
-- entry 0 and whatever lies behind entry 21: a jump there is undefined.
abbrev handles : List (Option VmInstr)
handles =
    none
    ∷ some load
    ∷ some store
    ∷ some mov
    ∷ some add
    ∷ some sub
    ∷ some and
    ∷ some or
    ∷ some xor
    ∷ some not
    ∷ some cmp
    ∷ some push
    ∷ some pop
    ∷ some call
    ∷ some ret
    ∷ some jmp
    ∷ some jmpeq
    ∷ some jmpne
    ∷ some jmpgt
    ∷ some jmplt
    ∷ some jmpge
    ∷ some jmple
    ∷ []

unfoldable pub instr_handle : ℕ → Option VmInstr
instr_handle i = get_or handles i none

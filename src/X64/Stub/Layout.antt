-- ===== src/X64/Stub/Layout.antt =====
-- The system call stub in the code: the jumps that are written last, and what they lead to.
use pcomp.Common.{ℕ, ◌+◌, ◌-◌, ◌^◌, ◌≤◌, ◌<◌, ◌≡◌, refl, ap, List, length, some, arith, update}
use pcomp.Memory.{HasBytes}
use pcomp.Memory.Laws.{Apart}
use pcomp.Word.{u32}
use pcomp.Jit.{Jit}
use pcomp.Jit.Patch.{
  tested, called, left, tested_arch, called_arch, left_arch, over_code, branch_code, test_code,
  call_code, exit_code, around, recorded,
}
use pcomp.X64.Encode.{emit_jmp_imm32, emit_je_imm32}
use pcomp.X64.Jit.{distance}
use pcomp.X64.Stub.Lengths.{lengths, length-jmp_imm32, length-je_imm32}
use pcomp.X64.Branches.{decode_jcc, decode_jmp, jcc-decodes, jmp_imm32-target}
use pcomp.X64.Stub.{Host, stub_test, stub_call, stub_exit, emit_sys_enter_stub}

-- The stub at `at`, in the code of `j'`: a jump over it, the test of the number with a branch to the
-- end, the call of the host's function, and the end that leaves the VM.
pub record IsStub (h : Host) (at : ℕ) (j' : Jit) : Type 0 where
  pub over : List ℕ
  pub over_code : HasBytes j'.text at over
  pub over_leads : decode_jmp at over ≡ some j'.jpos.arch
  pub test : HasBytes j'.text (at + 5) (stub_test h)
  pub branch : List ℕ
  pub branch_code : HasBytes j'.text (at + 5 + length (stub_test h)) branch
  pub branch_leads :
      decode_jcc (at + 5 + length (stub_test h)) branch
      ≡ some (0x84, at + 11 + length (stub_test h) + length (stub_call h))
  pub call_code : HasBytes j'.text (at + 11 + length (stub_test h)) (stub_call h)
  pub exit_code :
      HasBytes j'.text (at + 11 + length (stub_test h) + length (stub_call h)) (stub_exit h)
  pub end :
      j'.jpos.arch ≡ at + 11 + length (stub_test h) + length (stub_call h) + length (stub_exit h)

je_imm32-target :
    (va arch va' arch' : ℕ)
    → va < 2 ^ 64
    → arch + 6 ≤ va
    → va < arch + 2 ^ 31
    → arch ≡ arch'
    → va ≡ va'
    → decode_jcc arch' (emit_je_imm32 (u32 (va - arch))) ≡ some (0x84, va')
unfolding emit_je_imm32
je_imm32-target va arch va' arch' hv lo hi ea ev =
    rw (← ea, ← ev, same) (jcc-decodes 0x84 va arch hv (omega arith) (omega arith, omega arith))
  where
    same : u32 (va - arch) ≡ distance va arch
    same = omega arith

-- `emit_sys_enter_stub` at a place with room below the top of the address space writes the whole
-- stub: the jump at its start leads behind it, the branch leads to its end, and no part is
-- overwritten by another. It records its own address for the VM address at which it starts, moves
-- on by one VM jump (9 bytes), defers nothing, and leaves the code outside the stub alone.
pub emit_sys_enter_stub-IsStub :
    (h : Host) (j : Jit)
    → j.jpos.arch + 500 < 2 ^ 64
    → ((emit_sys_enter_stub h j).0 ≡ j.jpos.arch + 5)
      × IsStub h j.jpos.arch (emit_sys_enter_stub h j).1
      × ((emit_sys_enter_stub h j).1.jpos.vm ≡ j.jpos.vm + 9)
      × ((emit_sys_enter_stub h j).1.va2aa ≡ update j.va2aa j.jpos.vm (some (j.jpos.arch + 5)))
      × ((emit_sys_enter_stub h j).1.deferred_jpos ≡ j.deferred_jpos)
      × ((a : ℕ)
          → Apart j.jpos.arch
              (11 + length (stub_test h) + length (stub_call h) + length (stub_exit h))
              a
              1
          → (emit_sys_enter_stub h j).1.text a ≡ j.text a)
unfolding emit_sys_enter_stub
emit_sys_enter_stub-IsStub h j room =
    let ts : List ℕ = stub_test h in
    let cs : List ℕ = stub_call h in
    let xs : List ℕ = stub_exit h in
    let pj1 : ℕ = (tested 5 6 ts cs xs j).jpos.arch in
    let pn1 : ℕ = (called 5 6 ts cs xs j).jpos.arch in
    let pn0 : ℕ = (left 5 6 ts cs xs j).jpos.arch in
    let js : List ℕ = emit_jmp_imm32 (u32 (pn0 - j.jpos.arch)) in
    let es : List ℕ = emit_je_imm32 (u32 (pn1 - pj1)) in
    let lj : length js ≡ 5 = length-jmp_imm32 (u32 (pn0 - j.jpos.arch)) in
    let le : length es ≡ 6 = length-je_imm32 (u32 (pn1 - pj1)) in
    let (v, m, d) = recorded 5 6 ts cs xs j js es lj le in
    (
      refl,
      record {
        over = js;
        over_code = over_code 5 6 ts cs xs j js es lj le;
        over_leads =
            jmp_imm32-target pn0 j.jpos.arch (omega (arith, left_arch 5 6 ts cs xs j, lengths h))
              (omega (arith, left_arch 5 6 ts cs xs j))
              (omega (arith, left_arch 5 6 ts cs xs j, lengths h));
        test = test_code 5 6 ts cs xs j js es lj le;
        branch = es;
        branch_code = branch_code 5 6 ts cs xs j js es lj le;
        branch_leads =
            je_imm32-target pn1 pj1 _ _ (omega (arith, called_arch 5 6 ts cs xs j, lengths h))
              (omega (arith, called_arch 5 6 ts cs xs j, tested_arch 5 6 ts cs xs j))
              (omega (arith, called_arch 5 6 ts cs xs j, tested_arch 5 6 ts cs xs j, lengths h))
              (tested_arch 5 6 ts cs xs j) (called_arch 5 6 ts cs xs j);
        call_code = call_code 5 6 ts cs xs j js es lj le;
        exit_code = exit_code 5 6 ts cs xs j js es lj le;
        end = left_arch 5 6 ts cs xs j;
      },
      ap (λ k. k + 9) v,
      m,
      d,
      around 5 6 ts cs xs j js es lj le,
    )

-- ===== src/A64/Stub/Layout.antt =====
-- The system call stub in the AArch64 code: the branches that are written last, and where they lead.
use pcomp.Common.{
  ℕ, ◌+◌, ◌%◌, ◌^◌, ◌≤◌, ◌<◌, ◌≡◌, refl, ap, List, [], ◌∷◌, length, length-append, some, arith,
  update,
}
use pcomp.Memory.{HasBytes}
use pcomp.Memory.Laws.{Apart}
use pcomp.Jit.{Jit}
use pcomp.Jit.Patch.{
  tested, called, left, tested_arch, called_arch, left_arch, over_code, branch_code, test_code,
  call_code, exit_code, around, recorded,
}
use pcomp.A64.Words.{emit_b, emit_b_cond}
use pcomp.A64.Immediate.{mov_reg_imm-length}
use pcomp.A64.Jit.{
  r11, cond_eq, words, words_between, emit_pop_reg, emit_mov_reg_reg, emit_cmp_reg_imm,
}
use pcomp.A64.Slots.{length-words}
use pcomp.A64.Branches.{decode_b, decode_b_cond, b-target, b_cond-targets}
use pcomp.A64.Stub.{
  Host, stub_test, stub_call, stub_exit, emit_sys_enter_stub, emit_vm_sub_exit_seq_to_host,
  emit_non_vm_sub_entry_seq_to_host, emit_non_vm_sub_exit_seq_to_host, emit_sys_enter_call,
  emit_vm_reg_save_seq,
}

length-stub_test : (h : Host) → length (stub_test h) ≤ 10
unfolding stub_test emit_cmp_reg_imm
length-stub_test h = simp length-append (omega (arith, mov_reg_imm-length r11 0))

length-stub_call : (h : Host) → length (stub_call h) ≤ 20
unfolding stub_call emit_sys_enter_call emit_mov_reg_reg emit_pop_reg
    emit_non_vm_sub_entry_seq_to_host emit_non_vm_sub_exit_seq_to_host
length-stub_call h = simp length-append (omega (arith, mov_reg_imm-length r11 h.sys_enter))

length-stub_exit : (h : Host) → length (stub_exit h) ≤ 40
unfolding stub_exit emit_vm_reg_save_seq emit_vm_sub_exit_seq_to_host
length-stub_exit h = simp length-append (omega (arith, mov_reg_imm-length r11 h.reg_dump_area))

-- The stub at `at`, in the code of `j'`.
pub record IsStub (h : Host) (at : ℕ) (j' : Jit) : Type 0 where
  pub over : ℕ
  pub over_code : HasBytes j'.text at (words (over ∷ []))
  pub over_leads : decode_b at over ≡ some j'.jpos.arch
  pub test : HasBytes j'.text (at + 4) (words (stub_test h))
  pub branch : ℕ
  pub branch_code : HasBytes j'.text (at + 4 + length (words (stub_test h))) (words (branch ∷ []))
  pub branch_leads :
      decode_b_cond (at + 4 + length (words (stub_test h))) branch
      ≡ some (cond_eq, at + 8 + length (words (stub_test h)) + length (words (stub_call h)))
  pub call_code : HasBytes j'.text (at + 8 + length (words (stub_test h))) (words (stub_call h))
  pub exit_code :
      HasBytes j'.text
        (at + 8 + length (words (stub_test h)) + length (words (stub_call h)))
        (words (stub_exit h))
  pub end :
      j'.jpos.arch
      ≡ at
        + 8
        + length (words (stub_test h))
        + length (words (stub_call h))
        + length (words (stub_exit h))

b_cond-at :
    (va arch va' arch' : ℕ)
    → va < 2 ^ 64
    → arch ≤ va
    → va % 4 ≡ arch % 4
    → va < arch + 2 ^ 20
    → arch ≡ arch'
    → va ≡ va'
    → decode_b_cond arch' (emit_b_cond cond_eq (words_between va arch)) ≡ some (cond_eq, va')
b_cond-at va arch va' arch' hv le word near ea ev =
    rw (← ea, ← ev)
      (b_cond-targets cond_eq va arch (omega arith) hv (omega arith)
        (word, omega arith, omega arith))

-- The stub's pieces are whole words, and few.
pieces :
    (h : Host)
    → (length (words (stub_test h)) % 4 ≡ 0)
      × (length (words (stub_call h)) % 4 ≡ 0)
      × (length (words (stub_exit h)) % 4 ≡ 0)
      × (length (words (stub_test h)) + length (words (stub_call h)) + length (words (stub_exit h))
          ≤ 280)
pieces h = omega (
  arith,
  length-words (stub_test h),
  length-words (stub_call h),
  length-words (stub_exit h),
  length-stub_test h,
  length-stub_call h,
  length-stub_exit h,
)

-- `emit_sys_enter_stub` of the AArch64 JIT, at a place with room below the top of the address space,
-- writes the whole stub: the branch at its start leads behind it, the conditional branch leads to
-- its end on equality, and no part is overwritten by another. It records its own address for the VM
-- address at which it starts, moves on by one VM jump (9 bytes), defers nothing, and leaves the code
-- outside the stub alone.
pub a64_emit_sys_enter_stub-IsStub :
    (h : Host) (j : Jit)
    → j.jpos.arch + 500 < 2 ^ 64
    → ((emit_sys_enter_stub h j).0 ≡ j.jpos.arch + 4)
      × IsStub h j.jpos.arch (emit_sys_enter_stub h j).1
      × ((emit_sys_enter_stub h j).1.jpos.vm ≡ j.jpos.vm + 9)
      × ((emit_sys_enter_stub h j).1.va2aa ≡ update j.va2aa j.jpos.vm (some (j.jpos.arch + 4)))
      × ((emit_sys_enter_stub h j).1.deferred_jpos ≡ j.deferred_jpos)
      × ((a : ℕ)
          → Apart j.jpos.arch
              (8
                + length (words (stub_test h))
                + length (words (stub_call h))
                + length (words (stub_exit h)))
              a
              1
          → (emit_sys_enter_stub h j).1.text a ≡ j.text a)
unfolding emit_sys_enter_stub
a64_emit_sys_enter_stub-IsStub h j room =
    let ts : List ℕ = words (stub_test h) in
    let cs : List ℕ = words (stub_call h) in
    let xs : List ℕ = words (stub_exit h) in
    let pj1 : ℕ = (tested 4 4 ts cs xs j).jpos.arch in
    let pn1 : ℕ = (called 4 4 ts cs xs j).jpos.arch in
    let pn0 : ℕ = (left 4 4 ts cs xs j).jpos.arch in
    let e₁ : pj1 ≡ j.jpos.arch + 4 + length ts = tested_arch 4 4 ts cs xs j in
    let e₂ : pn1 ≡ j.jpos.arch + 8 + length ts + length cs = called_arch 4 4 ts cs xs j in
    let e₃ : pn0 ≡ j.jpos.arch + 8 + length ts + length cs + length xs = left_arch 4 4 ts cs xs j in
    let w₀ : ℕ = emit_b (words_between pn0 j.jpos.arch) in
    let w₁ : ℕ = emit_b_cond cond_eq (words_between pn1 pj1) in
    let js : List ℕ = words (w₀ ∷ []) in
    let es : List ℕ = words (w₁ ∷ []) in
    let (v, m, d) = recorded 4 4 ts cs xs j js es refl refl in
    let (q₁, q₂, q₃, few) = pieces h in
    (
      refl,
      record {
        over = w₀;
        over_code = over_code 4 4 ts cs xs j js es refl refl;
        over_leads =
            b-target pn0 j.jpos.arch (omega arith) (omega arith) (omega arith) (omega arith);
        test = test_code 4 4 ts cs xs j js es refl refl;
        branch = w₁;
        branch_code = branch_code 4 4 ts cs xs j js es refl refl;
        branch_leads =
            b_cond-at pn1 pj1 _ _ (omega arith) (omega arith) (omega arith) (omega arith) e₁ e₂;
        call_code = call_code 4 4 ts cs xs j js es refl refl;
        exit_code = exit_code 4 4 ts cs xs j js es refl refl;
        end = e₃;
      },
      ap (λ k. k + 9) v,
      m,
      d,
      around 4 4 ts cs xs j js es refl refl,
    )

-- ===== src/X64/Machine/Flags.antt =====
-- The flags that CMP sets, read by the conditional jumps.
use pcomp.Common.{ℕ, ◌≡◌, arith}
use pcomp.Word.{IsU64, as_signed64, sub64}
use pcomp.Spec.{Cond}
use pcomp.Behaviour.Compare.{compares}
use pcomp.X64.Machine.{Cpu, compare_operands, condition, differ}

-- After a comparison of two words each condition of the processor says what it says of the words:
-- equality, or the order of the signed values, also where their difference overflows.
pub condition-compare_operands :
    (c : Cond) (a b : ℕ) (x : Cpu)
    → IsU64 a
    → IsU64 b
    → condition c (compare_operands a b x) ≡ compares c a b
unfolding condition compare_operands differ compares as_signed64 sub64
condition-compare_operands Cond.eq a b x ha hb = ground arith
condition-compare_operands Cond.ne a b x ha hb = ground arith
condition-compare_operands Cond.gt a b x ha hb = ground arith
condition-compare_operands Cond.lt a b x ha hb = ground arith
condition-compare_operands Cond.ge a b x ha hb = ground arith
condition-compare_operands Cond.le a b x ha hb = ground arith

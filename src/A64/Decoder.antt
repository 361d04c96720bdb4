-- ===== src/A64/Decoder.antt =====
-- How an AArch64 processor reads the words that load an immediate, after the architecture manual:
-- MOVZ and MOVK have the bits 110100101 and 111100101, 2 bits of `hw`, a 16-bit immediate and the
-- register. This describes the architecture and not the repository.
use pcomp.Common.{
  ℕ, ◌+◌, ◌-◌, ◌*◌, ◌/◌, ◌%◌, ◌^◌, List, [], ◌∷◌, Option, none, some, ◌==◌, ◌&&◌, if◌then◌else◌,
}

-- The value `v` with its 16 bits from `16 * hw` replaced by `i`.
abbrev pub insert : ℕ → ℕ → ℕ → ℕ
insert v hw i = v - v / 2 ^ (16 * hw) % 2 ^ 16 * 2 ^ (16 * hw) + i * 2 ^ (16 * hw)

-- The value of the register `rd` after one word that writes it, from its value `v` before.
unfoldable pub wide : ℕ → ℕ → ℕ → Option ℕ
wide rd v w =
    let hw = w / 2 ^ 21 % 4 in
    let i = w / 2 ^ 5 % 2 ^ 16 in
    if w / 2 ^ 23 == 0b110100101 && w % 2 ^ 5 == rd
    then some (i * 2 ^ (16 * hw))
    else if w / 2 ^ 23 == 0b111100101 && w % 2 ^ 5 == rd
    then some (insert v hw i)
    else none

-- The value after a list of them.
unfoldable pub wides : ℕ → ℕ → List ℕ → Option ℕ
wides rd v [] = some v
wides rd v (w ∷ ws) = elim (wide rd v w) [ none ↦ none | some v' ↦ wides rd v' ws ]

-- ===== src/Utils.antt =====
-- Helpers of src/ifd/utils.c.
pub mod Counts
pub mod Reversal
use openct.Prelude.{◌*◌, bit_or, bit_xor, if◌then◌else◌}
use openct.Prelude.Memory.{u8}
use openct.Prelude.{ℕ, zero, suc, ◌+◌, ◌/◌, ◌^◌, bit_and, List, [], ◌∷◌, get_or, ◌==◌, true, false}

abbrev pub bit_count : List ℕ
bit_count = 0 ∷ 1 ∷ 1 ∷ 2 ∷ 1 ∷ 2 ∷ 2 ∷ 3 ∷ 1 ∷ 2 ∷ 2 ∷ 3 ∷ 2 ∷ 3 ∷ 3 ∷ 4 ∷ []

-- The loop, in the rounds that the nibbles of an `unsigned int` take at most.
pub count_loop : ℕ → ℕ → ℕ → ℕ
count_loop zero num word = num
count_loop (suc left) num word = elim (word == 0) [
  | true ↦ num
  | false ↦ count_loop left (num + get_or bit_count (bit_and word 0xF) 0) (word / 2 ^ 4)
]

unfoldable pub count_bits : ℕ → ℕ
unfolding count_loop
count_bits word = count_loop 8 0 word

-- The loop of `ifd_revert_bits` over the bits of a byte, which ends when `k` is shifted out.
pub revert_loop : ℕ → ℕ → ℕ → ℕ → ℕ → ℕ
revert_loop zero j k c d = d
revert_loop (suc left) j k c d = elim (k == 0) [
  | true ↦ d
  | false ↦ revert_loop left (u8 (j * 2)) (k / 2) c (if bit_and c j == 0 then d else bit_or d k)
]

unfoldable pub revert_byte : ℕ → ℕ
unfolding revert_loop
revert_byte c = bit_xor (revert_loop 9 1 0x80 c 0) 0xFF

pub revert_bits : List ℕ → List ℕ
revert_bits [] = []
revert_bits (c ∷ cs) = revert_byte c ∷ revert_bits cs

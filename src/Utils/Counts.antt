-- ===== src/Utils/Counts.antt =====
-- The bits of a masked byte that `ifd_count_bits` of src/ifd/utils.c counts.
use openct.Prelude.{ℕ, ◌+◌, ◌/◌, ◌%◌, ◌<◌, ◌≡◌, refl, bit_and}
use openct.Prelude.Bits.{agree, agree_lem}
use openct.Utils.{count_bits}

pub count_f0 :
    (t : ℕ) → t < 256 → count_bits (bit_and t 0xF0) ≡ t / 16 % 2 + t / 32 % 2 + t / 64 % 2 + t / 128
unfolding agree count_bits
count_f0 =
    agree_lem 256 (λ t. count_bits (bit_and t 0xF0))
      (λ t. t / 16 % 2 + t / 32 % 2 + t / 64 % 2 + t / 128) refl

pub count_70 :
    (f : ℕ) → f < 256 → count_bits (bit_and f 0x70) ≡ f / 16 % 2 + f / 32 % 2 + f / 64 % 2
unfolding agree count_bits
count_70 =
    agree_lem 256 (λ f. count_bits (bit_and f 0x70)) (λ f. f / 16 % 2 + f / 32 % 2 + f / 64 % 2)
      refl

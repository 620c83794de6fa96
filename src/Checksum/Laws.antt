-- ===== src/Checksum/Laws.antt =====
-- The table of src/ifd/checksum.c against the polynomial, and what the exclusive-or byte detects.
use openct.Prelude.{ℕ, zero, suc, ◌/◌, ◌%◌, ◌<◌, ◌≡◌, ◌≢◌, refl, ◌∙◌}
use openct.Prelude.{arith, List, [], ◌∷◌, ◌++◌, bit_xor, get_or, ◌==◌, if◌then◌else◌}
use openct.Prelude.Bits.{agree, agree_lem, bit_xor_self, bit_xor-cancel, bit_xor-injective_left}
use openct.Checksum.{crctab, lrc_loop, lrc_compute}

-- Bits shifted out of a register of the reflected CCITT polynomial x^16 + x^12 + x^5 + 1.
pub crc_bits : ℕ → ℕ → ℕ
crc_bits zero v = v
crc_bits (suc n) v = crc_bits n (if v % 2 == 0 then v / 2 else bit_xor (v / 2) 0x8408)

-- Each of the 256 entries of the table is the remainder of its index.
pub crctab_lem : (i : ℕ) → i < 256 → get_or crctab i 0 ≡ crc_bits 8 i
unfolding agree crc_bits
crctab_lem = agree_lem 256 (λ i. get_or crctab i 0) (crc_bits 8) refl

lrc_loop-append :
    (acc : ℕ) (xs ys : List ℕ) → lrc_loop acc (xs ++ ys) ≡ lrc_loop (lrc_loop acc xs) ys
unfolding lrc_loop
lrc_loop-append acc [] ys = refl
lrc_loop-append acc (x ∷ xs) ys = lrc_loop-append (bit_xor acc x) xs ys

-- A block with its exclusive-or byte behind it sums to zero.
pub lrc_loop-lrc_compute : (bs : List ℕ) → lrc_loop 0 (bs ++ lrc_compute bs) ≡ 0
unfolding lrc_loop lrc_compute
lrc_loop-lrc_compute bs = lrc_loop-append 0 bs _ ∙ bit_xor_self (lrc_loop 0 bs)

lrc_loop-injective : (a b : ℕ) (ys : List ℕ) → lrc_loop a ys ≡ lrc_loop b ys → a ≡ b
unfolding lrc_loop
lrc_loop-injective a b [] e = e
lrc_loop-injective a b (y ∷ ys) e =
    bit_xor-injective_left a b y (lrc_loop-injective (bit_xor a y) (bit_xor b y) ys e)

-- A change of one byte of a block, whichever, changes the exclusive-or byte.
pub lrc_detects_byte :
    (xs ys : List ℕ) (a b : ℕ) → a ≢ b → lrc_compute (xs ++ (a ∷ ys)) ≢ lrc_compute (xs ++ (b ∷ ys))
unfolding lrc_compute lrc_loop
lrc_detects_byte xs ys a b ne e = ne (
    ground (
      arith,
      bit_xor-cancel acc acc a,
      bit_xor-cancel acc acc b,
      lrc_loop-injective (bit_xor acc a) (bit_xor acc b) ys
          (ground (arith, e, lrc_loop-append 0 xs (a ∷ ys), lrc_loop-append 0 xs (b ∷ ys))),
    ))
  where
    acc : ℕ
    acc = lrc_loop 0 xs

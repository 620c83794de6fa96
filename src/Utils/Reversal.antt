-- ===== src/Utils/Reversal.antt =====
-- Reversing and inverting the bits of a byte, as src/ifd/utils.c does for cards of the inverse
-- convention, undoes itself.
use openct.Prelude.{
  ltb, if◌then◌else◌, suc, ◌++◌, length, arith, ℕ, ◌<◌, ◌≡◌, refl, ap, ◌∙◌, List, [], ◌∷◌, All,
}
use openct.Prelude.Bits.{agree, agree_lem}
use openct.Utils.{revert_byte, revert_bits}

revert_byte-revert_byte : (c : ℕ) → c < 256 → revert_byte (revert_byte c) ≡ c
unfolding agree revert_byte
revert_byte-revert_byte = agree_lem 256 (λ c. revert_byte (revert_byte c)) (λ c. c) refl

pub revert_bits-revert_bits :
    (xs : List ℕ) → All (λ c. c < 256) xs → revert_bits (revert_bits xs) ≡ xs
unfolding revert_bits
revert_bits-revert_bits [] b = refl
revert_bits-revert_bits (c ∷ cs) b =
    ap (λ t. t ∷ revert_bits (revert_bits cs)) (revert_byte-revert_byte c b.0)
    ∙ ap (λ t. c ∷ t) (revert_bits-revert_bits cs b.1)

pub length-revert_bits : (xs : List ℕ) → length (revert_bits xs) ≡ length xs
unfolding revert_bits
length-revert_bits [] = refl
length-revert_bits (c ∷ cs) = ap suc (length-revert_bits cs)

pub revert_bits-append :
    (xs ys : List ℕ) → revert_bits (xs ++ ys) ≡ revert_bits xs ++ revert_bits ys
unfolding revert_bits
revert_bits-append [] ys = refl
revert_bits-append (c ∷ cs) ys = ground (arith, revert_bits-append cs ys)

revert_byte-IsByte : (c : ℕ) → c < 256 → revert_byte c < 256
unfolding agree revert_byte
revert_byte-IsByte c h =
    ground (arith, agree_lem 256 (λ c. if ltb (revert_byte c) 256 then 1 else 0) (λ c. 1) refl c h)

pub revert_bits-IsByte : (xs : List ℕ) → All (λ c. c < 256) xs → All (λ c. c < 256) (revert_bits xs)
unfolding revert_bits
revert_bits-IsByte [] b = tt
revert_bits-IsByte (c ∷ cs) b = (revert_byte-IsByte c b.0, revert_bits-IsByte cs b.1)

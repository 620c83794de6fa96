-- ===== src/Prelude/Masks.antt =====
-- The masks of a byte that the sources use, as quotients and remainders.
use Prim.Native.Nat.{ℕ, ◌+◌, ◌*◌, ◌/◌, ◌%◌, ◌<◌, bit_and, bit_or}
use mathlib.Core.Path.{◌≡◌, refl}
use openct.Prelude.Bits.{agree, agree_lem}

pub mask_10 : (b : ℕ) → b < 256 → bit_and b 0x10 ≡ b / 16 % 2 * 16
unfolding agree
mask_10 = agree_lem 256 (λ b. bit_and b 0x10) (λ b. b / 16 % 2 * 16) refl

pub mask_20 : (b : ℕ) → b < 256 → bit_and b 0x20 ≡ b / 32 % 2 * 32
unfolding agree
mask_20 = agree_lem 256 (λ b. bit_and b 0x20) (λ b. b / 32 % 2 * 32) refl

pub mask_40 : (b : ℕ) → b < 256 → bit_and b 0x40 ≡ b / 64 % 2 * 64
unfolding agree
mask_40 = agree_lem 256 (λ b. bit_and b 0x40) (λ b. b / 64 % 2 * 64) refl

pub mask_80 : (b : ℕ) → b < 256 → bit_and b 0x80 ≡ b / 128 * 128
unfolding agree
mask_80 = agree_lem 256 (λ b. bit_and b 0x80) (λ b. b / 128 * 128) refl

pub mask_0f : (b : ℕ) → b < 256 → bit_and b 0x0f ≡ b % 16
unfolding agree
mask_0f = agree_lem 256 (λ b. bit_and b 0x0f) (λ b. b % 16) refl

pub mask_f0 : (b : ℕ) → b < 256 → bit_and b 0xf0 ≡ b / 16 * 16
unfolding agree
mask_f0 = agree_lem 256 (λ b. bit_and b 0xf0) (λ b. b / 16 * 16) refl

-- A bit that is not there yet is added.
pub or_10 : (p : ℕ) → p < 16 → bit_or p 0x10 ≡ p + 16
unfolding agree
or_10 = agree_lem 16 (λ p. bit_or p 0x10) (λ p. p + 16) refl

pub or_20 : (p : ℕ) → p < 32 → bit_or p 0x20 ≡ p + 32
unfolding agree
or_20 = agree_lem 32 (λ p. bit_or p 0x20) (λ p. p + 32) refl

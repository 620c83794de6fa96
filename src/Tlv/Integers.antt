-- ===== src/Tlv/Integers.antt =====
-- Integers of src/ct/tlv.c: what `ct_tlv_get_int` reads, and where `ct_tlv_put_int` is defined.
use openct.Prelude.{ℕ, ◌/◌, ◌^◌, ◌≤◌, ◌<◌, ◌≡◌, ◌≢◌, ◌↔◌, arith, false, none, some}
use openct.Prelude.{inl, inr, ◌⊎◌, ◌==◌, Bool-cases}
use openct.Prelude.{◌*◌, ◌+◌, ◌%◌, List, [], ◌∷◌, All, refl, bit_or, ◌∙◌, ap}
use openct.Prelude.Bits.{bit_or_byte}
use openct.Prelude.Memory.{u32}
use openct.Tlv.{Builder, put_int, top_byte, Parser, get_int, get_opaque, int_value}

top_byte_defined :
    (value : ℕ)
    → ((value < 2 ^ 24) × ((k : ℕ) × (top_byte 3 value 0 ≡ some k)))
      ⊎ ((2 ^ 24 ≤ value) × (top_byte 3 value 0 ≡ none))
unfolding top_byte
top_byte_defined value = elim (Bool-cases (value / 256 == 0)) [
  | inl a ↦ inl (ground arith, (0, ground arith))
  | inr a ↦ elim (Bool-cases (value / 65536 == 0)) [
    | inl b ↦ inl (ground arith, (1, ground arith))
    | inr b ↦ elim (Bool-cases (value / 16777216 == 0)) [
      | inl c ↦ inl (ground arith, (2, ground arith))
      | inr c ↦ inr (ground arith, ground arith)
    ]
  ]
]

-- `ct_tlv_put_int` has a defined behaviour exactly for the values below 2 ^ 24, unless an error came
-- before: for any other its loop shifts an `unsigned int` by 32 bits.
pub put_int_defined :
    (r : Builder) (tag value : ℕ)
    → r.error ≡ false
    → (put_int r tag value ≢ none) ↔ (value < 2 ^ 24)
unfolding put_int
put_int_defined r tag value e = elim (top_byte_defined value) [
  | inl (lt, (k, t)) ↦ (λ _. lt, λ _ n. ground (arith, t, n))
  | inr (le, t) ↦ (λ d. absurd (d (ground (arith, t))), λ lt. absurd (omega arith))
]

-- The number that the bytes write in base 256, the first one first, behind the digits of `w`.
abbrev pub big_endian : ℕ → List ℕ → ℕ
big_endian w [] = w
big_endian w (b ∷ bs) = big_endian (w * 256 + b) bs

shift_in :
    (v w b : ℕ) → v ≡ w % 2 ^ 32 → b < 256 → bit_or (u32 (v * 2 ^ 8)) b ≡ (w * 256 + b) % 2 ^ 32
shift_in v w b e lt =
    ap (λ t. bit_or t b) whole ∙ bit_or_byte (v % 2 ^ 24) b lt ∙ omega (arith, e, lt)
  where
    whole : u32 (v * 2 ^ 8) ≡ v % 2 ^ 24 * 256
    whole = omega arith

int_value-big_endian :
    (v w : ℕ) (bs : List ℕ)
    → v ≡ w % 2 ^ 32
    → All (λ b. b < 256) bs
    → int_value v bs ≡ big_endian w bs % 2 ^ 32
unfolding int_value
int_value-big_endian v w [] e h = e
int_value-big_endian v w (b ∷ bs) e h =
    int_value-big_endian (bit_or (u32 (v * 2 ^ 8)) b) (w * 256 + b) bs (shift_in v w b e h.0) h.1

-- `ct_tlv_get_int` reads the bytes of the item as a number in base 256, the first byte first, modulo
-- 2 ^ 32 where there are more than four.
pub get_int_lem :
    (p : Parser) (mem : List ℕ) (tag : ℕ) (bs : List ℕ)
    → get_opaque p mem tag ≡ some bs
    → All (λ b. b < 256) bs
    → get_int p mem tag ≡ some (big_endian 0 bs % 2 ^ 32)
unfolding get_int get_opaque
get_int_lem p mem tag bs e h = ground (arith, e, int_value-big_endian 0 0 bs refl h)

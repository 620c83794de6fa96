-- ===== src/Prelude/Bits.antt =====
-- The bit operations of the sources at variables: fields joined by `|`, and masks of one byte.
use Prim.Native.Nat.{ℕ, zero, suc, ◌+◌, ◌-◌, ◌*◌, ◌/◌, ◌%◌, ◌^◌, ◌≤◌, ◌<◌, max, bit_or}
use Prim.Native.Nat.{bit_xor, digits, bit_or-bitwise, bit_xor-bitwise, differ}
use mathlib.Core.Path.{subst, ◌≡◌, refl, ap, sym, ◌∙◌}
use mathlib.Core.Bool.{Bool, true, ◌&&◌}
use native.Mathlib.Nat.{pow-suc}
use native.Mathlib.Omega.{arith}
use native.Mathlib.Decide.{ℕ_discrete}
use openct.Prelude.Tests.{◌==◌, ==_iff}

-- Whether two functions agree on the numbers below the bound, by evaluation.
unfoldable pub agree : ℕ → (ℕ → ℕ) → (ℕ → ℕ) → Bool
agree zero f g = true
agree (suc n) f g = f n == g n && agree n f g

pub agree_lem : (n : ℕ) (f g : ℕ → ℕ) → agree n f g ≡ true → (x : ℕ) → x < n → f x ≡ g x
unfolding agree
agree_lem zero f g h x lt = absurd (omega arith)
agree_lem (suc n) f g h x lt = elim (ℕ_discrete x n) [
  | yes e ↦ ap f e ∙ (==_iff (f n) (g n)).0 (ground (arith, h)) ∙ sym (ap g e)
  | no ne ↦ agree_lem n f g (ground (arith, h)) x (omega (arith, ne))
]

-- The native operations recurse on binary digits, as often as `n` says. More often than the first
-- number's value changes nothing, so the fuel can be dropped from the law of the last digit.
module _ (f : ℕ → ℕ → ℕ) where
  abbrev on_digits : ℕ → ℕ → ℕ → ℕ
  on_digits = digits (λ y. y) f

  one_more : (n x y : ℕ) → x ≤ n → on_digits (suc n) x y ≡ on_digits n x y
  one_more zero zero y h = refl
  one_more (suc n) zero y h = refl
  one_more zero (suc x) y h = absurd (omega arith)
  one_more (suc n) (suc x) y h =
      ap (λ t. t * 2 + f (suc x % 2) (y % 2)) (one_more n (suc x / 2) (y / 2) (omega arith))

  more : (k n x y : ℕ) → x ≤ n → on_digits (n + k) x y ≡ on_digits n x y
  more zero n x y h = ap (λ m. on_digits m x y) (omega arith)
  more (suc k) n x y h =
      ap (λ m. on_digits m x y) {y = suc (n + k)} (omega arith)
      ∙ one_more (n + k) x y (omega arith)
      ∙ more k n x y h

  last_digit :
      (x y : ℕ)
      → on_digits (suc x) (suc x) y
        ≡ on_digits (suc x / 2) (suc x / 2) (y / 2) * 2 + f (suc x % 2) (y % 2)
  last_digit x y =
      ap (λ t. t * 2 + f (suc x % 2) (y % 2))
        (ap (λ n. on_digits n (suc x / 2) (y / 2)) split
          ∙ more (x - suc x / 2) (suc x / 2) (suc x / 2) (y / 2) (omega arith))
    where
      split : x ≡ suc x / 2 + (x - suc x / 2)
      split = omega arith

zero-bit_or : (b : ℕ) → bit_or 0 b ≡ b
zero-bit_or b = bit_or-bitwise 0 b

bit_or_step : (x y : ℕ) → bit_or x y ≡ bit_or (x / 2) (y / 2) * 2 + max (x % 2) (y % 2)
bit_or_step (suc x) y =
    bit_or-bitwise (suc x) y
    ∙ last_digit max x y
    ∙ ap (λ t. t * 2 + max (suc x % 2) (y % 2)) (sym (bit_or-bitwise (suc x / 2) (y / 2)))
bit_or_step zero y = omega (arith, zero-bit_or y, zero-bit_or (y / 2))

-- A bit that is set is there.
pub bit_or_positive : (a k : ℕ) → 1 ≤ bit_or a (2 ^ k)
bit_or_positive a zero = ground (arith, bit_or_step a 1)
bit_or_positive a (suc k) =
    let half : 2 ^ suc k / 2 ≡ 2 ^ k = omega arith in
    omega (
      arith,
      bit_or_step a (2 ^ suc k),
      subst (λ h. 1 ≤ bit_or (a / 2) h) (sym half) (bit_or_positive (a / 2) k),
    )

bit_or-zero_below : (n a : ℕ) → a ≤ n → bit_or a 0 ≡ a
bit_or-zero_below n zero h = refl
bit_or-zero_below zero (suc a) h = absurd (omega arith)
bit_or-zero_below (suc n) (suc a) h =
    omega (arith, bit_or_step (suc a) 0, bit_or-zero_below n (suc a / 2) (omega arith))

pub bit_or_small : (s k : ℕ) → bit_or s (2 ^ k) ≤ 1 → (k ≡ 0) × (s ≤ 1)
bit_or_small s zero h = (refl, omega (arith, bit_or_step s 1, bit_or-zero_below (s / 2) (s / 2), h))
bit_or_small s (suc k) h =
    let half : 2 ^ suc k / 2 ≡ 2 ^ k = omega (arith, pow-suc 2 k) in
    absurd (
      omega (
        arith,
        bit_or_step s (2 ^ suc k),
        subst (λ x. 1 ≤ bit_or (s / 2) x) (sym half) (bit_or_positive (s / 2) k),
        h,
      ))

-- `(hi << k) | lo` is a sum where `lo` has at most `k` bits.
pub bit_or_join : (k hi lo : ℕ) → lo < 2 ^ k → bit_or (hi * 2 ^ k) lo ≡ hi * 2 ^ k + lo
bit_or_join zero hi lo h = ground (arith, bit_or-zero_below hi hi)
bit_or_join (suc k) hi lo h = ground (
  arith,
  bit_or_step (hi * 2 ^ suc k) lo,
  double,
  bit_or_join k hi (lo / 2) (omega (arith, pow-suc 2 k)),
  pow-suc 2 k,
)
  where
    double : hi * 2 ^ suc k ≡ 2 * (hi * 2 ^ k)
    double = omega (arith, ap (λ (t : ℕ). hi * t) (pow-suc 2 k))

-- `(hi << 8) | lo` of a byte `lo`.
pub bit_or_byte : (hi lo : ℕ) → lo < 256 → bit_or (hi * 256) lo ≡ hi * 256 + lo
bit_or_byte hi lo h = bit_or_join 8 hi lo h

pub zero-bit_xor : (b : ℕ) → bit_xor 0 b ≡ b
zero-bit_xor b = bit_xor-bitwise 0 b

bit_xor_step :
    (x y : ℕ) → bit_xor (suc x) y ≡ bit_xor (suc x / 2) (y / 2) * 2 + differ (suc x % 2) (y % 2)
bit_xor_step x y =
    bit_xor-bitwise (suc x) y
    ∙ last_digit differ x y
    ∙ ap (λ t. t * 2 + differ (suc x % 2) (y % 2)) (sym (bit_xor-bitwise (suc x / 2) (y / 2)))

differ_digit : (x y : ℕ) → x < 2 → y < 2 → (differ x y < 2) × (differ x (differ x y) ≡ y)
differ_digit zero zero h k = omega arith
differ_digit zero (suc y) h k = (k, refl)
differ_digit (suc zero) zero h k = omega arith
differ_digit (suc zero) (suc zero) h k = omega arith
differ_digit (suc zero) (suc (suc y)) h k = absurd (omega arith)
differ_digit (suc (suc x)) y h k = absurd (omega arith)

-- Taking the same bits twice changes nothing.
pub bit_xor-cancel : (n a b : ℕ) → a ≤ n → bit_xor a (bit_xor a b) ≡ b
bit_xor-cancel n zero b h = zero-bit_xor (bit_xor 0 b) ∙ zero-bit_xor b
bit_xor-cancel zero (suc a) b h = absurd (omega arith)
bit_xor-cancel (suc n) (suc a) b h = ground (
  arith,
  bit_xor_step a b,
  bit_xor_step a (bit_xor (suc a) b),
  differ_digit (suc a % 2) (b % 2),
  bit_xor-cancel n (suc a / 2) (b / 2),
)

bit_xor-zero_below : (n a : ℕ) → a ≤ n → bit_xor a 0 ≡ a
bit_xor-zero_below n zero h = refl
bit_xor-zero_below zero (suc a) h = absurd (omega arith)
bit_xor-zero_below (suc n) (suc a) h =
    ground (arith, bit_xor_step a 0, differ-zero (suc a % 2), bit_xor-zero_below n (suc a / 2))
  where
    differ-zero : (x : ℕ) → differ x 0 ≡ x
    differ-zero zero = refl
    differ-zero (suc x) = refl

pub bit_xor-zero : (a : ℕ) → bit_xor a 0 ≡ a
bit_xor-zero a = bit_xor-zero_below a a (omega arith)

differ_comm : (x y : ℕ) → differ x y ≡ differ y x
differ_comm zero zero = refl
differ_comm zero (suc y) = refl
differ_comm (suc x) zero = refl
differ_comm (suc x) (suc y) = differ_comm x y

pub bit_xor_comm : (n a b : ℕ) → a ≤ n → bit_xor a b ≡ bit_xor b a
bit_xor_comm n zero b h = zero-bit_xor b ∙ sym (bit_xor-zero b)
bit_xor_comm zero (suc a) b h = absurd (omega arith)
bit_xor_comm (suc n) (suc a) zero h = bit_xor-zero (suc a) ∙ sym (zero-bit_xor (suc a))
bit_xor_comm (suc n) (suc a) (suc b) h = ground (
  arith,
  bit_xor_step a (suc b),
  bit_xor_step b (suc a),
  differ_comm (suc a % 2) (suc b % 2),
  bit_xor_comm n (suc a / 2) (suc b / 2),
)

pub bit_xor-injective_left : (a b c : ℕ) → bit_xor a c ≡ bit_xor b c → a ≡ b
bit_xor-injective_left a b c e =
    ground
      (arith, e, bit_xor_comm a a c, bit_xor_comm b b c, bit_xor-cancel c c a, bit_xor-cancel c c b)

pub bit_xor_self : (x : ℕ) → bit_xor x x ≡ 0
bit_xor_self x = ground (arith, bit_xor-cancel x x 0, bit_xor-zero x)

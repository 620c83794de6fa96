-- ===== src/Atr/Pts/Echo.antt =====
-- A card that repeats the request of src/ifd/atr.c agrees to it.
use openct.Prelude.{ℕ, ◌+◌, ◌<◌, ◌≤◌, ◌≡◌, refl, ◌∙◌, bit_and, bit_or, bit_xor}
use openct.Prelude.{Bool, true, false, Option, none, some, List, [], ◌∷◌, ◌++◌, length, get_or}
use openct.Prelude.{if◌then◌else◌, arith, Option-cases, Bool-cases, inl, inr, take-all}
use openct.Prelude.Bits.{bit_xor_self}
use openct.Prelude.Masks.{mask_10, mask_20, or_10, or_20}
use openct.Prelude.Memory.{u8}
use openct.Prelude.Outcome.{ok}
use openct.Atr.{Info, is_set}
use openct.Atr.Pts.{
  first, second, is_255, is_some, ta_byte, pck_loop, pts_head, build_pts, ptsr_loop,
}
use openct.Atr.Pts.{check_params, verify_pts, pts_complete}
use openct.Utils.{count_bits}
use openct.Utils.Counts.{count_70}
use openct.Prelude.{◌↔◌}

pck_loop-append :
    (acc : ℕ) (xs ys : List ℕ) → pck_loop acc (xs ++ ys) ≡ pck_loop (pck_loop acc xs) ys
unfolding pck_loop
pck_loop-append acc [] ys = refl
pck_loop-append acc (x ∷ xs) ys = pck_loop-append (bit_xor acc x) xs ys

-- The check byte behind the bytes brings the sum to zero.
pck_loop-closed : (xs : List ℕ) → pck_loop 0 (xs ++ pck_loop 0 xs ∷ []) ≡ 0
unfolding pck_loop
pck_loop-closed xs = pck_loop-append 0 xs _ ∙ bit_xor_self (pck_loop 0 xs)

-- The second byte of the request, for a protocol of four bits.
flags_lem :
    (info : Info) (p : ℕ)
    → p < 16
    → let f = get_or (pts_head info p) 1 0 in
      (is_set f 0x10 ≡ is_some (first info.ta)) × (is_set f 0x20 ≡ is_255 (first info.tc))
flags_lem info p lt = elim (Bool-cases (is_some (first info.ta))) [
  | inl a ↦ ground (
    arith,
    a,
    or_10 p,
    or_20 p,
    mask_10 (p + 16),
    mask_10 (p + 48),
    mask_20 (p + 16),
    mask_20 (p + 48),
    or_20 (p + 16),
    high,
  )
  | inr a ↦
      ground (arith, a, or_10 p, or_20 p, mask_10 p, mask_10 (p + 32), mask_20 p, mask_20 (p + 32))
]
  where
    high : bit_or (p + 16) 0x20 ≡ p + 48
    high = omega (arith, or_20 (p + 16))

-- The parameters of an answer that has those which the flags of its second byte say.
ptsr_lem :
    (f c : ℕ) (ta : Option ℕ) (tc : Bool)
    → is_set f 0x10 ≡ is_some ta
    → is_set f 0x20 ≡ tc
    → let buf = 0xFF ∷ f ∷ ((ta_byte ta ++ (if tc then 1 ∷ [] else [])) ++ c ∷ []) in
      (n : ℕ) × (rest : List (Option ℕ)) × (ptsr_loop 3 0 2 buf
          (length buf)
          (none ∷ none ∷ none ∷ [])
        ≡ (rest, n))
      × (n + 1 ≡ length buf)
      × (first rest ≡ (elim ta [ none ↦ none | some v ↦ some (u8 v) ]))
      × (second rest ≡ (if tc then some 1 else none))
unfolding ptsr_loop
ptsr_lem f c none false a b = (2, none ∷ none ∷ none ∷ [], refl, refl, refl, refl)
ptsr_lem f c none true a b = (3, none ∷ some 1 ∷ none ∷ [], ground (arith, a, b), refl, refl, refl)
ptsr_lem f c (some v) false a b =
    (3, some (u8 v) ∷ none ∷ none ∷ [], ground (arith, a, b), refl, refl, refl)
ptsr_lem f c (some v) true a b =
    (4, some (u8 v) ∷ some 1 ∷ none ∷ [], ground (arith, a, b), refl, refl, refl)

abbrev pub IsByteOr : Option ℕ → Type 0
IsByteOr none = Unit
IsByteOr (some v) = v < 256

params_lem :
    (info : Info) (ptsr : List (Option ℕ))
    → IsByteOr (first info.ta)
    → first ptsr ≡ (elim (first info.ta) [ none ↦ none | some v ↦ some (u8 v) ])
    → second ptsr ≡ (if is_255 (first info.tc) then some 1 else none)
    → check_params info ptsr ≡ (info, ok tt)
unfolding check_params
params_lem info ptsr byte a b = elim (Option-cases (first info.ta)) [
  | inl n ↦ ground (arith, a, b, n)
  | inr (v, e) ↦ ground (arith, a, b, e, byte)
]

length-ta_byte : (ta : Option ℕ) → length (ta_byte ta) ≤ 1
length-ta_byte none = omega arith
length-ta_byte (some v) = omega arith

abbrev request : Info → ℕ → List ℕ
request info p = pts_head info p ++ pck_loop 0 (pts_head info p) ∷ []

length-request :
    (info : Info) (p : ℕ) → (3 ≤ length (request info p)) × (length (request info p) ≤ 5)
length-request info p = elim (Option-cases (first info.ta)) [
  | inl n ↦ ground (arith, n)
  | inr (v, e) ↦ ground (arith, e)
]

verify_pts-request :
    (info : Info) (p : ℕ)
    → p < 16
    → IsByteOr (first info.ta)
    → verify_pts info (request info p) (length (request info p)) ≡ (info, ok tt)
unfolding verify_pts
verify_pts-request info p lt byte =
    let f = flags_lem info p lt in
    let (n, rest, e, done, a, b) =
      ptsr_lem (get_or (pts_head info p) 1 0) (pck_loop 0 (pts_head info p)) (first info.ta)
        (is_255 (first info.tc)) f.0 f.1 in
    ground (
      arith,
      e,
      done,
      length-request info p,
      params_lem info rest byte a b,
      take-all (length (request info p)) (request info p),
      pck_loop-closed (pts_head info p),
    )

-- A card that repeats the request as its answer agrees to it: the answer is verified, and what the
-- answer to reset said stays. The request has at most five bytes. It is for one of the sixteen protocols and byte
-- values in TA1.
pub verify_pts-build_pts :
    (info : Info) (protocol len : ℕ) (pts : List ℕ)
    → protocol < 16
    → IsByteOr (first info.ta)
    → build_pts info protocol len ≡ ok pts
    → (verify_pts info pts (length pts) ≡ (info, ok tt)) × (length pts ≤ 5)
unfolding build_pts
verify_pts-build_pts info protocol len pts lt byte built =
    let same : pts ≡ request info protocol = ground (arith, built) in
    rw same (verify_pts-request info protocol lt byte, omega (arith, length-request info protocol))

flags_count :
    (info : Info) (p : ℕ)
    → p < 16
    → count_bits (bit_and (get_or (request info p) 1 0) 0x70) + 3 ≡ length (request info p)
flags_count info p lt = elim (Option-cases (first info.ta)) [
  | inl n ↦ ground (arith, n, or_20 p, count_70 p, count_70 (p + 32))
  | inr (v, e) ↦ ground (arith, e, or_10 p, high, count_70 (p + 16), count_70 (p + 48))
]
  where
    high : bit_or (p + 16) 0x20 ≡ p + 48
    high = omega (arith, or_10 p, or_20 (p + 16))

-- Of an answer that repeats the request, two bytes before the end `ifd_pts_complete` says already that
-- it is complete, as long as it has two bytes.
pub pts_complete_early :
    (info : Info) (protocol len n : ℕ) (pts : List ℕ)
    → protocol < 16
    → build_pts info protocol len ≡ ok pts
    → (pts_complete pts n ≡ true) ↔ ((2 ≤ n) × (length pts ≤ n + 2))
unfolding build_pts pts_complete
pts_complete_early info protocol len n pts lt built =
    let same : pts ≡ request info protocol = ground (arith, built) in
    rw same (ground (arith, flags_count info protocol lt))

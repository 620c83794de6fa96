-- ===== src/Protocol/Offers.antt =====
-- The two analyses of an answer to reset, of src/ifd/protocol.c and src/ifd/atr.c.
use openct.Prelude.{ℕ, zero, suc, ◌+◌, ◌-◌, ◌<◌, ◌≤◌, ◌≡◌, ◌≢◌, ap, ◌∙◌, bit_and, arith}
use openct.Prelude.{◌&&◌, none, some, List, [], ◌∷◌, ◌++◌, length, drop, get_or, ltb, ◌==◌}
use openct.Prelude.{if◌then◌else◌, append_assoc, All, get_or-All, Bool-cases, inl, inr}
use openct.Prelude.{sym, append-nil}
use openct.Prelude.Masks.{mask_80, mask_0f}
use openct.Prelude.Outcome.{Error, ok, err}
use openct.Utils.{count_bits}
use openct.Utils.Counts.{count_f0}
use openct.Atr.{is_set, blank, parse, or_t0}
use openct.Atr.Encoding.{Answer, upper, chain_bytes, upper-Announces}
use openct.Atr.Encoding.{check_bytes, length-encode}
use openct.Atr.Encoding.{encode, trailer, content}
use openct.Atr.Standard.{IsAnswer, is_silent, is_refused}
use openct.Atr.Standard.{learn-HasDefault, blank-HasDefault, named-blank}
use openct.Atr.Standard.{parse-encode}
use openct.Protocol.{Offer, add_offer, offer_loop, or_first, offers}
use openct.Protocol.Steps.{offer_of, offer_chain, or_first_lem, offer_quiet}

abbrev IsByte : ℕ → Type 0
IsByte b = b < 256

-- The loop ends before its rounds are used up.
offer_loop_ends :
    (fuel : ℕ) (atr : List ℕ) (len n : ℕ) (o : Offer)
    → All IsByte atr
    → len < n + fuel
    → 0 < fuel
    → offer_loop fuel atr len n o ≢ none
unfolding offer_loop
offer_loop_ends zero atr len n o bytes enough pos = absurd (omega arith)
offer_loop_ends (suc fuel) atr len n o bytes enough pos =
    let td = get_or atr (n - 1) 0 in
    let b : td < 256 = get_or-All IsByte (n - 1) atr 0 bytes (omega arith) in
    let n' = n + count_bits (bit_and td 0xF0) in
    elim (Bool-cases (ltb n' len && is_set td 0x80)) [
      | inr last ↦ ground (arith, last)
      | inl more ↦
          let moves : n < n' = ground (arith, more, mask_80 td b, count_f0 td b) in
          let rec =
            offer_loop_ends fuel atr len n' (if n == 2 then o else add_offer o (bit_and td 0x0f))
              bytes (omega arith) (ground (arith, more, moves)) in
          ground (arith, more, rec)
    ]

-- Every array of bytes is analysed, where it has the two bytes that every answer has.
pub offers_ends : (atr : List ℕ) (len : ℕ) → All IsByte atr → 2 ≤ len → offers atr len ≢ none
unfolding offers
offers_ends atr len bytes two = ground (
  arith,
  offer_loop_ends (suc len) atr (len - bit_and (get_or atr 1 0) 0x0f) 2
      (record { supported = 0; def_proto = none }) bytes (omega arith) (omega arith),
)

-- What `ifd_protocol_select` makes of an answer, whatever stands behind it in the array.
pub offers_array :
    (a : Answer) (more : List ℕ)
    → IsAnswer a
    → offers (encode a ++ more) (length (encode a)) ≡ some (offer_of (or_t0 (content a)))
unfolding offers
offers_array a more v = elim (Bool-cases (is_silent a.head a.rest)) [
  | inr e ↦
      let done =
        offer_chain (suc (length (encode a))) blank array len 0 2 k a.head a.rest post v.2 v.0
          (omega arith) (omega arith) (omega (arith, size)) (inl e) at in
      ground (arith, done, named-blank k, td_low, mask_0f td, known)
  | inl e ↦ elim (Bool-cases (check_bytes (content a).supported == 0)) [
    | inl no_check ↦
        let (out, done, d, same) =
          offer_quiet (suc (length (encode a))) blank array len 0 2 k a.head a.rest post v.2 v.0 e
            (omega arith) (omega arith) (omega arith) (ground (arith, size, no_check))
            (rw (named-blank k) (ground (arith, no_check))) blank-HasDefault at in
        ground (arith, done, same, or_first_lem out d, named-blank k, td_low, mask_0f td)
    | inr check ↦
        let done =
          offer_chain (suc (length (encode a))) blank array len 0 2 k a.head a.rest post v.2 v.0
            (omega arith) (omega arith) (omega (arith, size)) (inr (ground (arith, size, check)))
            at in
        ground (arith, done, named-blank k, td_low, mask_0f td, known)
  ]
]
  where
    k : ℕ
    k = length a.historical

    td : ℕ
    td = k + upper a.head a.rest

    array : List ℕ
    array = encode a ++ more

    len : ℕ
    len = length (encode a) - k

    post : List ℕ
    post = (a.historical ++ trailer a) ++ more

    size : len ≡ 2 + length (chain_bytes a.head a.rest) + check_bytes (content a).supported
    size = length-encode a

    td_low : bit_and td 0x0f ≡ k
    td_low = (upper-Announces k a.head a.rest v.2).proto

    at : drop (2 - 1) array ≡ td ∷ (chain_bytes a.head a.rest ++ post)
    at =
        ap (λ t. td ∷ t) (append_assoc (chain_bytes a.head a.rest) (a.historical ++ trailer a) more)

    known : or_first (offer_of (content a)) ≡ offer_of (or_t0 (content a))
    known = or_first_lem (content a) (learn-HasDefault blank 0 a.head a.rest blank-HasDefault)

-- On every answer to reset of at most four groups of interface bytes, coded by the standard,
-- ifd_protocol_select finds the protocols that the answer names and the first of them, or T=0; so does
-- ifd_atr_parse, but where it refuses the answer: where the last byte that announces groups announces
-- nothing and a check byte follows.
pub offers-parse :
    (a : Answer)
    → IsAnswer a
    → (offers (encode a) (length (encode a)) ≡ some (offer_of (or_t0 (content a))))
      × (parse (encode a) (length (encode a))
          ≡ (if is_refused a then err Error.invalid_atr else ok (or_t0 (content a))))
offers-parse a v = (
  ap (λ t. offers t (length (encode a))) (sym (append-nil (encode a))) ∙ offers_array a [] v,
  parse-encode a v,
)

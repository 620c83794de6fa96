-- ===== src/Reader/Selected.antt =====
-- The protocol of a card after its reset.
use openct.Prelude.{ℕ, ◌≤◌, ◌<◌, ◌≡◌, ◌≢◌, refl, ap, ◌∙◌, arith, Option, none, some, List}
use openct.Prelude.{length, take, drop, take-append, ◌==◌, Option-cases, inl, inr, true}
use openct.Prelude.Memory.{store, store_front}
use openct.Prelude.Outcome.{Outcome, ok}
use openct.Atr.{blank, or_t0}
use openct.Atr.Encoding.{Answer, encode, content}
use openct.Atr.Standard.{IsAnswer, HasDefault, learn-HasDefault, blank-HasDefault}
use openct.Protocol.{offers, Offer}
use openct.Protocol.Offers.{offers_array}
use openct.Protocol.Steps.{offer_of}
use openct.Reader.{Ifd, Ops, Calls, set_slot}
use openct.Reader.Request.{card_request, serial, whole, reset_card}

-- The protocol that an answer names first.
abbrev pub first_protocol : Option ℕ → ℕ
first_protocol none = 0
first_protocol (some p) = p

first_lem :
    (a : Answer)
    → first_protocol (or_t0 (content a)).default_protocol
      ≡ first_protocol (content a).default_protocol
unfolding HasDefault or_t0
first_lem a = ground (arith, learn-HasDefault blank 0 a.head a.rest blank-HasDefault)

module _ {D P : Type 0} (ops : Ops D P) (calls : Calls D P) where
  -- A driver that reads the whole answer to reset.
  abbrev pub Delivers :
      Ifd D P → ℕ → (Ifd D P → ℕ → Ifd D P × Outcome (List ℕ)) → List ℕ → Ifd D P → Type 0
  Delivers r idx reset bs r' =
      (reset (set_slot r idx (record (r.slots idx) { atr_len = 0; proto = none })) idx
        ≡ (r', ok bs))
      × ((r'.slots idx).proto ≡ none)
      × (length bs ≤ length (r'.slots idx).atr)

  -- A driver that has read an answer, and set no protocol.
  whole_lem :
      (r : Ifd D P) (idx : ℕ) (bs : List ℕ) (o : Offer)
      → 0 < length bs
      → (r.slots idx).proto ≡ none
      → ops.set_protocol ≡ none
      → offers (store (r.slots idx).atr 0 bs) (length bs) ≡ some o
      → let (r', out) = whole ops calls (r, ok bs) idx in
        (out ≡ ok (take (length bs) (store (r.slots idx).atr 0 bs)))
        × ((r'.slots idx).atr_len ≡ length bs)
        × ((r'.slots idx).proto ≡ calls.create (first_protocol o.def_proto) (r.slots idx).dad)
  unfolding whole
  whole_lem r idx bs o pos empty plain e = ground (arith, empty, plain, e, same idx)
    where
      same : (k : ℕ) → (k == k) ≡ true
      same k = ground arith

  -- The reset as the driver does it.
  request_lem :
      (r : Ifd D P) (idx type : ℕ) (reset : Ifd D P → ℕ → Ifd D P × Outcome (List ℕ))
      → idx ≤ r.nslots
      → r.device ≡ some type
      → type ≢ serial
      → ops.card_reset ≡ some reset
      → card_request ops calls r idx 0 none
        ≡ whole ops calls
            (reset (set_slot r idx (record (r.slots idx) { atr_len = 0; proto = none })) idx)
            idx
  unfolding card_request reset_card
  request_lem r idx type reset near device usb resets = elim (Option-cases ops.card_request) [
    | inl n ↦ elim (Option-cases ops.change_parity) [
      | inl m ↦ ground (arith, near, device, resets, n, m)
      | inr (c, m) ↦ ground (arith, near, device, usb, resets, n, m)
    ]
    | inr (f, n) ↦ elim (Option-cases ops.change_parity) [
      | inl m ↦ ground (arith, near, device, resets, n, m)
      | inr (c, m) ↦ ground (arith, near, device, usb, resets, n, m)
    ]
  ]

  -- A reader that is not a serial one and leaves protocols to the library resets a card whose answer is
  -- coded by the standard, with at most four groups of interface bytes: the caller gets the answer, and the
  -- card is spoken to with the protocol that the answer names first, or T=0.
  pub reset_selects :
      (r r' : Ifd D P) (idx type : ℕ) (a : Answer)
      (reset : Ifd D P → ℕ → Ifd D P × Outcome (List ℕ))
      → idx ≤ r.nslots
      → r.device ≡ some type
      → type ≢ serial
      → ops.card_reset ≡ some reset
      → ops.set_protocol ≡ none
      → IsAnswer a
      → Delivers r idx reset (encode a) r'
      → let s = (card_request ops calls r idx 0 none).0.slots idx in
        ((card_request ops calls r idx 0 none).1 ≡ ok (encode a))
        × (s.atr_len ≡ length (encode a))
        × (s.proto ≡ calls.create (first_protocol (content a).default_protocol) (r'.slots idx).dad)
  reset_selects r r' idx type a reset near device usb resets plain v d =
      let at = (r'.slots idx).atr in
      let front = store_front at (encode a) d.2 in
      let o = offers_array a (drop (length (encode a)) at) v in
      let seen : offers (store at 0 (encode a)) (length (encode a))
          ≡ some (offer_of (or_t0 (content a))) =
        ap (λ t. offers t (length (encode a))) front ∙ o in
      let out : take (length (encode a)) (store at 0 (encode a)) ≡ encode a =
        ap (take (length (encode a))) front
        ∙ take-append (length (encode a)) (encode a) (drop (length (encode a)) at) refl in
      let done =
        whole_lem r' idx (encode a) (offer_of (or_t0 (content a))) (omega arith) d.1 plain seen in
      let same : card_request ops calls r idx 0 none ≡ whole ops calls (r', ok (encode a)) idx =
        request_lem r idx type reset near device usb resets ∙ ap (λ x. whole ops calls x idx) d.0 in
      (
        ap (λ x. x.1) same ∙ done.0 ∙ ap ok out,
        ap (λ (x : Ifd D P × Outcome (List ℕ)). (x.0.slots idx).atr_len) same ∙ done.1,
        ap (λ (x : Ifd D P × Outcome (List ℕ)). (x.0.slots idx).proto) same
            ∙ done.2
            ∙ ap (λ p. calls.create p (r'.slots idx).dad) (first_lem a),
      )

-- ===== src/Reader/Request.antt =====
-- The reset of a card, `ifd_card_request` of src/ifd/reader.c, and the protocol that the answer selects,
-- `ifd_protocol_select` of src/ifd/protocol.c.
use openct.Prelude.{ℕ, ◌-◌, Bool, true, false, Option, none, some, List, []}
use openct.Prelude.{ltb, ◌==◌, if◌then◌else◌, not, take, length, get_or}
use openct.Prelude.Memory.{store}
use openct.Prelude.Outcome.{Error, Outcome, ok, err}
use openct.Buffer.{avail}
use openct.Atr.Receive.{read_atr}
use openct.Protocol.{offers}
use openct.Reader.{Ifd, Ops, Calls, set_slot}
use openct.Reader.Commands.{install}

abbrev pub atr_size : ℕ
atr_size = 64

-- `IFD_DEVICE_TYPE_SERIAL`, and the parities with `IFD_SERIAL_PARITY_TOGGLE`
abbrev pub serial : ℕ
serial = 0

abbrev pub odd : ℕ
odd = 1

abbrev pub even : ℕ
even = 2

module _ {D P : Type 0} (ops : Ops D P) (calls : Calls D P) where
  abbrev pub R : Type 0
  R = Ifd D P

  -- What a driver wrote into the array of the slot.
  abbrev pub received : R → ℕ → List ℕ → R
  received r idx bs = set_slot r idx (record (r.slots idx) { atr = store (r.slots idx).atr 0 bs })

  abbrev pub has_proto : Option P → Bool
  has_proto none = false
  has_proto (some p) = true

  -- `ifd_protocol_select` with `IFD_PROTOCOL_DEFAULT`; its result is not used but for a message.
  unfoldable pub protocol_select : R → ℕ → R
  unfolding install
  protocol_select r idx = elim (offers (r.slots idx).atr (r.slots idx).atr_len) [
    | none ↦ r
    | some o ↦
        let prot : ℕ = elim o.def_proto [ none ↦ 0 | some p ↦ p ] in
        elim ops.set_protocol [
          | some f ↦ (f r idx (some prot)).0
          | none ↦
              set_slot r idx (record (r.slots idx) { proto = calls.create prot (r.slots idx).dad })
        ]
  ]

  -- The answer of `count` bytes is in the array: it is handed out, and a protocol is selected unless
  -- the driver has set one.
  unfoldable pub finish : R → ℕ → ℕ → R × Outcome (List ℕ)
  unfolding protocol_select
  finish r idx count =
      let r1 = set_slot r idx (record (r.slots idx) { atr_len = count }) in
      let r2 = if has_proto (r1.slots idx).proto then r1 else protocol_select r1 idx in
      (r2, ok (take count (r.slots idx).atr))

  -- A driver that reads the whole answer; none is no answer.
  unfoldable pub whole : R × Outcome (List ℕ) → ℕ → R × Outcome (List ℕ)
  unfolding finish
  whole (r, err e) idx = (r, err e)
  whole (r, ok bs) idx =
      if length bs == 0 then (r, ok []) else finish (received r idx bs) idx (length bs)

  -- The parity is set to what the card uses, and the answer is complete.
  unfoldable pub settle : R → ℕ → ℕ → ℕ → (R → ℕ → R × Outcome (Unit {0})) → R × Outcome (List ℕ)
  unfolding finish
  settle r idx count parity change =
      let (r1, rc) = change r parity in
      elim rc [ err e ↦ (r1, err Error.generic) | ok _ ↦ finish r1 idx count ]

  -- What a serial driver delivered: if it is one byte, the rest is read here.
  unfoldable pub serial_rest :
      R → ℕ → ℕ → ℕ → (R → ℕ → R × Outcome (Unit {0})) → R × Outcome (List ℕ)
  unfolding settle
  serial_rest r idx count parity change =
      let (r1, b, complete) = read_atr R calls.recv r (r.slots idx).atr in
      let r2 = set_slot r1 idx (record (r1.slots idx) { atr = b.base }) in
      let parity' = if get_or b.base 0 0 == 0x3F then 3 - parity else parity in
      if not (count == 1)
      then settle r idx count parity change
      else if complete
      then settle r2 idx (avail b) parity' change
      else (r2, err Error.generic)

  -- Even parity first, and odd where there was no answer.
  unfoldable pub serial_request :
      R
      → ℕ
      → (R → ℕ → R × Outcome (List ℕ))
      → (R → ℕ → R × Outcome (Unit {0}))
      → R × Outcome (List ℕ)
  unfolding serial_rest
  serial_request r idx reset change =
      let (r1, rc) = change r even in
      let (r2, first) = reset r1 idx in
      let (r3, rc') = change r2 odd in
      let (r4, second) = reset r3 idx in
      let from = λ (r' : R) (bs : List ℕ) (parity : ℕ).
        serial_rest (received r' idx bs) idx (length bs) parity change in
      elim rc [
        | err e ↦ (r1, err e)
        | ok _ ↦ elim first [
          | ok bs ↦ from r2 bs even
          | err Error.no_atr ↦ elim rc' [
            | err e ↦ (r3, err Error.generic)
            | ok _ ↦ elim second [ err e ↦ (r4, err Error.generic) | ok bs ↦ from r4 bs odd ]
          ]
          | err e ↦ (r2, err Error.generic)
        ]
      ]

  -- A timeout or a message goes to the driver that knows what to do with it.
  abbrev pub wants_request : ℕ → Option (List ℕ) → Bool
  wants_request timeout none = not (timeout == 0)
  wants_request timeout (some m) = true

  unfoldable pub reset_card : R → ℕ → ℕ → (R → ℕ → R × Outcome (List ℕ)) → R × Outcome (List ℕ)
  unfolding whole serial_request
  reset_card r idx type reset = elim ops.change_parity [
    | none ↦ whole (reset r idx) idx
    | some change ↦
        if type == serial then serial_request r idx reset change else whole (reset r idx) idx
  ]

  unfoldable pub card_request : R → ℕ → ℕ → Option (List ℕ) → R × Outcome (List ℕ)
  unfolding whole reset_card
  card_request r idx timeout message =
      let r1 = set_slot r idx (record (r.slots idx) { atr_len = 0; proto = none }) in
      if ltb r.nslots idx then (r, err Error.invalid_arg) else elim r.device [
        | none ↦ (r, err Error.invalid_arg)
        | some type ↦ elim ops.card_reset [
          | none ↦ (r, err Error.not_supported)
          | some reset ↦ elim ops.card_request [
            | none ↦ reset_card r1 idx type reset
            | some request ↦
                if wants_request timeout message
                then whole (request r1 idx timeout message) idx
                else reset_card r1 idx type reset
          ]
        ]
      ]

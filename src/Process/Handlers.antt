-- ===== src/Process/Handlers.antt =====
-- The handlers of src/ifd/process.c.
use openct.Prelude.{ℕ, zero, suc, ◌+◌, Bool, Option, none, some, List}
use openct.Prelude.{ltb, ◌==◌, if◌then◌else◌, bit_and, length}
use openct.Prelude.Outcome.{Error, Outcome, ok, err}
use openct.Tlv.{Parser, Builder, get_int, get_string, get_opaque, put_tag, put_int, put_string}
use openct.Tlv.{put_opaque, add_byte, add_bytes}
use openct.Locks.{Table, Socket, lock, unlock}
use openct.Process.{Reader, Handled}
use openct.Process.Tags.{tag_reader_name, tag_reader_units, tag_card_status, tag_atr, tag_lock}
use openct.Process.Tags.{tag_card_response, tag_timeout, tag_message, tag_locktype, tag_pin_data}
use openct.Process.Tags.{tag_card_request, tag_address, tag_data, tag_count, tag_protocol}
use openct.Process.Tags.{unit_reader, unit_display, unit_keypad, reader_display, reader_keypad}

-- `for (n = 0; n < reader->nslots; n++) ct_tlv_add_byte(resp, n);` with the slots left.
pub add_slots : ℕ → ℕ → Builder → Builder
add_slots zero n r = r
add_slots (suc left) n r = add_slots left (n + 1) (add_byte r n)

-- The timeout, which is 0 where it is missing.
abbrev pub timeout_of : Parser → List ℕ → ℕ
timeout_of args mem = elim (get_int args mem tag_timeout) [ none ↦ 0 | some v ↦ v ]

-- The message in `msgbuf[128]`.
abbrev pub message_of : Parser → List ℕ → Option (List ℕ)
message_of args mem = get_string args mem tag_message 128

module _ (rd : Reader) where
  abbrev pub State : Type 0
  State = rd.State

  abbrev pub handled : State → Builder → Outcome (Unit {0}) → Handled rd
  handled s r rc = record { reader = s; resp = r; rc = rc }

  -- What a result without data makes of the handler.
  abbrev pub plain : State × Outcome (Unit {0}) → Builder → Handled rd
  plain (s, rc) r = handled s r rc

  -- `put_tag` and `add_bytes` of what came.
  abbrev pub with_bytes : State × Outcome (List ℕ) → ℕ → Builder → Handled rd
  with_bytes (s, err e) tag r = handled s r (err e)
  with_bytes (s, ok bs) tag r = handled s (add_bytes (put_tag r tag) bs) (ok tt)

  unfoldable pub reader_status : State → Builder → Handled rd
  unfolding add_slots
  reader_status s r =
      let r1 = put_tag (put_string r tag_reader_name (rd.name s)) tag_reader_units in
      let r2 = add_slots (rd.nslots s) 0 r1 in
      let r3 = if bit_and (rd.flags s) reader_display == 0 then r2 else add_byte r2 unit_display in
      let r4 = if bit_and (rd.flags s) reader_keypad == 0 then r3 else add_byte r3 unit_keypad in
      handled s r4 (ok tt)

  unfoldable pub slot_status : State → ℕ → Builder → Option (Handled rd)
  slot_status s unit r =
      let (s1, active) = rd.activate s in
      let (s2, status) = rd.card_status s1 unit in
      elim active [
        | err e ↦ some (handled s1 r (err e))
        | ok _ ↦ elim status [
          | err e ↦ some (handled s2 r (err e))
          | ok v ↦ elim (put_int r tag_card_status v) [
            | none ↦ none
            | some r' ↦ some (handled s2 r' (ok tt))
          ]
        ]
      ]

  unfoldable pub do_status : State → ℕ → Builder → Option (Handled rd)
  unfolding reader_status slot_status
  do_status s unit r =
      if unit == unit_reader
      then some (reader_status s r)
      else if ltb (rd.nslots s) unit
      then some (handled s r (err Error.invalid_slot))
      else slot_status s unit r

  unfoldable pub do_output : State → ℕ → Parser → List ℕ → Builder → Handled rd
  do_output s unit args mem r =
      if ltb unit_reader unit
      then handled s r (err Error.invalid_arg)
      else plain (rd.output s (message_of args mem)) r

  -- A slot that is too large is refused before anything else.
  abbrev pub on_slot : State → ℕ → Builder → Handled rd → Handled rd
  on_slot s unit r h = if ltb (rd.nslots s) unit then handled s r (err Error.invalid_slot) else h

  unfoldable pub do_lock :
      Bool → Table → Socket → State → ℕ → Parser → List ℕ → Builder → Table × Option (Handled rd)
  do_lock memory t sock s unit args mem r =
      if ltb (rd.nslots s) unit
      then (t, some (handled s r (err Error.invalid_slot)))
      else elim (get_int args mem tag_locktype) [
        | none ↦ (t, some (handled s r (err Error.missing_arg)))
        | some type ↦
            let (t', locked) = lock memory t sock unit type in
            (
              t',
              elim locked [
                | err e ↦ some (handled s r (err e))
                | ok handle ↦ elim (put_int r tag_lock handle) [
                  | none ↦ none
                  | some r' ↦ some (handled s r' (ok tt))
                ]
              ],
            )
      ]

  unfoldable pub do_unlock :
      Table → Socket → State → ℕ → Parser → List ℕ → Builder → Table × Handled rd
  do_unlock t sock s unit args mem r =
      if ltb (rd.nslots s) unit
      then (t, handled s r (err Error.invalid_slot))
      else elim (get_int args mem tag_lock) [
        | none ↦ (t, handled s r (err Error.missing_arg))
        | some handle ↦ let (t', rc) = unlock t sock unit handle in (t', handled s r rc)
      ]

  unfoldable pub do_reset : State → ℕ → Parser → List ℕ → Builder → Handled rd
  do_reset s unit args mem r = on_slot s unit r (
      let (s', came) = rd.card_request s unit (timeout_of args mem) (message_of args mem) 64 in
      elim came [
        | err e ↦ handled s' r (err e)
        | ok atr ↦
            handled s' (if length atr == 0 then r else add_bytes (put_tag r tag_atr) atr) (ok tt)
      ])

  unfoldable pub do_eject : State → ℕ → Parser → List ℕ → Builder → Handled rd
  do_eject s unit args mem r =
      on_slot s unit r (plain (rd.card_eject s unit (timeout_of args mem) (message_of args mem)) r)

  unfoldable pub do_verify : State → ℕ → Parser → List ℕ → Builder → Handled rd
  do_verify s unit args mem r = on_slot s unit r (elim (get_opaque args mem tag_pin_data) [
    | none ↦ handled s r (err Error.missing_arg)
    | some pin ↦
        with_bytes (rd.perform_verify s unit (timeout_of args mem) (message_of args mem) pin 128)
          tag_card_response r
  ])

  unfoldable pub do_transact : State → ℕ → Parser → List ℕ → Builder → Handled rd
  do_transact s unit args mem r = on_slot s unit r (elim (get_opaque args mem tag_card_request) [
    | none ↦ handled s r (err Error.missing_arg)
    | some apdu ↦ with_bytes (rd.card_command s unit apdu (258 + 256)) tag_card_response r
  ])

  unfoldable pub do_set_protocol : State → ℕ → Parser → List ℕ → Builder → Handled rd
  do_set_protocol s unit args mem r = on_slot s unit r (elim (get_int args mem tag_protocol) [
    | none ↦ handled s r (err Error.missing_arg)
    | some protocol ↦ plain (rd.set_protocol s unit protocol) r
  ])

  unfoldable pub do_memory_write : State → ℕ → Parser → List ℕ → Builder → Handled rd
  do_memory_write s unit args mem r = on_slot s unit r (elim (get_int args mem tag_address) [
    | none ↦ handled s r (err Error.missing_arg)
    | some address ↦ elim (get_opaque args mem tag_data) [
      | none ↦ handled s r (err Error.missing_arg)
      | some bytes ↦ plain (rd.write_memory s unit address bytes) r
    ]
  ])

  unfoldable pub do_memory_read : State → ℕ → Parser → List ℕ → Builder → Handled rd
  do_memory_read s unit args mem r = on_slot s unit r (elim (get_int args mem tag_address) [
    | none ↦ handled s r (err Error.missing_arg)
    | some address ↦ elim (get_int args mem tag_count) [
      | none ↦ handled s r (err Error.missing_arg)
      | some count ↦
          let n = if ltb 4096 count then 4096 else count in
          let (s', came) = rd.read_memory s unit address n in
          elim came [
            | err e ↦ handled s' r (err e)
            | ok bytes ↦ handled s' (put_opaque r tag_data bytes) (ok tt)
          ]
    ]
  ])

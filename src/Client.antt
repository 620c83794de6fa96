-- ===== src/Client.antt =====
-- The client library, src/ct/client.c: each call builds a command, sends it over the socket and takes
-- the response apart.
--
-- The socket is the record `Transport`. `mem` is what the array `buffer` holds when the call begins,
-- and `junk` what the `ct_tlv_parser_t` holds, which no function of the library initializes. The array
-- is shared by the command and the response. `none` is a call that does not come back, or undefined
-- behaviour of `ct_tlv_put_int`.
pub mod Server
pub mod Messages
pub mod Answers
pub mod Transact
pub mod Status
pub mod Unset
mod Runs
use openct.Prelude.{
  ℕ, Option, none, some, Bool, true, false, List, [], ltb, ◌==◌, if◌then◌else◌, ◌+◌, ◌*◌,
}
use openct.Prelude.{◌^◌, bit_or, not}
use openct.Prelude.Memory.{u8, u32}
use openct.Prelude.Outcome.{Error, Outcome, ok, err}
use openct.Buffer.{Buf, init, putc}
use openct.Tlv.{
  Parser, Parsed, Builder, builder_init, put_int, put_string, put_opaque, put_tag, add_byte,
}
use openct.Tlv.{add_bytes, parse, get_bytes, get_int}
use openct.Process.Tags.{tag_timeout, tag_message, tag_atr, tag_protocol, tag_card_request}
use openct.Process.Tags.{
  tag_card_response, tag_address, tag_count, tag_data, tag_pin_data, tag_locktype,
}
use openct.Process.Tags.{tag_lock}

-- `ct_socket_call`: the command, and the buffer for the response.
pub record Transport : Type 1 where
  pub World : Type 0
  pub call : World → Buf → Buf → Option (World × Buf × Outcome ℕ)

-- `ct_args_int`, `ct_args_string` and `ct_args_opaque`, which do not look at the builder's error.
pub args_int : Buf → ℕ → ℕ → Option Buf
args_int bp tag value = elim (put_int (builder_init bp true) tag value) [
  | none ↦ none
  | some r ↦ some r.buf
]

pub args_string : Buf → ℕ → List ℕ → Buf
args_string bp tag value = (put_string (builder_init bp true) tag value).buf

unfoldable pub args_opaque : Buf → ℕ → List ℕ → Buf
args_opaque bp tag value = (put_opaque (builder_init bp true) tag value).buf

-- The two bytes that every command begins with.
unfoldable pub begin : List ℕ → ℕ → ℕ → ℕ → Buf
begin mem size cmd slot = (putc (putc (init mem size) cmd).0 slot).0

-- `if (timeout) …; if (message) …`
pub optional_args : Buf → ℕ → Option (List ℕ) → Option Buf
optional_args bp timeout message =
    let with_message = λ (b : Buf). (elim message as (λ _. Buf) [
      | none ↦ b
      | some m ↦ args_string b tag_message m
    ]) in
    if timeout == 0
    then some (with_message bp)
    else elim (args_int bp tag_timeout timeout) [ none ↦ none | some b ↦ some (with_message b) ]

-- What a successful parse of the response says.
pub record Reply : Type 0 where
  pub items : Parser
  pub base : List ℕ

unfoldable pub reply : Parser → Buf → Outcome Reply
reply junk resp = elim (parse junk resp) [
  | Parsed.done p left ↦ ok (record { items = p; base = resp.base })
  | Parsed.malformed ↦ err Error.generic
  | Parsed.stuck ↦ err Error.generic
]

-- `ct_tlv_get_bytes` of the reply, with the bytes that it copies; 0 is returned where there is no item.
unfoldable pub bytes_of : ℕ → ℕ → Outcome Reply → Outcome (List ℕ)
bytes_of tag size (err e) = err e
bytes_of tag size (ok r) = elim (get_bytes r.items r.base tag size) [
  | none ↦ ok []
  | some bs ↦ ok bs
]

module _ (t : Transport) where
  -- What a call leaves: the world, and its result.
  abbrev pub Returned : Type 0 → Type 0
  Returned A = Option (t.World × Outcome A)

  -- `ct_socket_call` with a response in the array of the command.
  unfoldable pub exchange : t.World → Buf → ℕ → Returned Buf
  exchange w args size = elim (t.call w args (init args.base size)) [
    | none ↦ none
    | some (w', resp, rc) ↦ elim rc [ err e ↦ some (w', err e) | ok n ↦ some (w', ok resp) ]
  ]

  -- The call, and the parse of the response.
  unfoldable pub ask : Parser → t.World → Buf → ℕ → Returned Reply
  unfolding exchange reply
  ask junk w args size = elim (exchange w args size) [
    | none ↦ none
    | some (w', got) ↦ elim got [ err e ↦ some (w', err e) | ok resp ↦ some (w', reply junk resp) ]
  ]

  unfoldable pub ask_bytes : Parser → t.World → Buf → ℕ → ℕ → ℕ → Returned (List ℕ)
  unfolding ask bytes_of
  ask_bytes junk w args size tag max = elim (ask junk w args size) [
    | none ↦ none
    | some (w', r) ↦ some (w', bytes_of tag max r)
  ]

  -- A call whose response is not looked at.
  pub send : t.World → Buf → ℕ → Returned (Unit {0})
  unfolding exchange
  send w args size = elim (exchange w args size) [
    | none ↦ none
    | some (w', got) ↦ elim got [ err e ↦ some (w', err e) | ok resp ↦ some (w', ok tt) ]
  ]

  -- A command whose building may be undefined.
  abbrev pub built {ℓ} : {A : Type ℓ} → Option Buf → (Buf → Option A) → Option A
  built none f = none
  built (some b) f = f b

  pub card_request : List ℕ → Parser → t.World → ℕ → ℕ → Option (List ℕ) → ℕ → Returned (List ℕ)
  card_request mem junk w slot timeout message atr_len =
      built (optional_args (begin mem 256 0x10 slot) timeout message)
        (λ args. ask_bytes junk w args 256 tag_atr atr_len)

  pub card_reset : List ℕ → Parser → t.World → ℕ → ℕ → Returned (List ℕ)
  card_reset mem junk w slot atr_len = card_request mem junk w slot 0 none atr_len

  pub card_set_protocol : List ℕ → t.World → ℕ → ℕ → Returned (Unit {0})
  card_set_protocol mem w slot protocol =
      built (args_int (begin mem 256 0x22 slot) tag_protocol protocol) (λ args. send w args 256)

  pub card_transact : List ℕ → Parser → t.World → ℕ → List ℕ → ℕ → Returned (List ℕ)
  card_transact mem junk w slot apdu recv_size =
      ask_bytes junk w (args_opaque (begin mem 4096 0x21 slot) tag_card_request apdu) 4096
        tag_card_response recv_size

  -- `address` is an `unsigned short`.
  pub card_read_memory : List ℕ → Parser → t.World → ℕ → ℕ → ℕ → Returned (List ℕ)
  card_read_memory mem junk w slot address recv_len =
      built (args_int (begin mem 4096 0x16 slot) tag_address (address)) (λ b.
        built (args_int b tag_count (u32 recv_len))
          (λ args. ask_bytes junk w args 4096 tag_data recv_len))

  pub card_write_memory : List ℕ → t.World → ℕ → ℕ → List ℕ → Returned (Unit {0})
  card_write_memory mem w slot address bytes =
      built (args_int (begin mem 4096 0x17 slot) tag_address address)
        (λ b. send w (args_opaque b tag_data bytes) 4096)

  pub card_lock : List ℕ → Parser → t.World → ℕ → ℕ → Returned ℕ
  card_lock mem junk w slot type =
      built (args_int (begin mem 256 0x01 slot) tag_locktype type) (λ args.
        elim (ask junk w args 256) [
          | none ↦ none
          | some (w', r) ↦ elim r [
            | err e ↦ some (w', err e)
            | ok got ↦ elim (get_int got.items got.base tag_lock) [
              | none ↦ some (w', err Error.generic)
              | some handle ↦ some (w', ok handle)
            ]
          ]
        ])

  pub card_unlock : List ℕ → t.World → ℕ → ℕ → Returned (Unit {0})
  card_unlock mem w slot handle =
      built (args_int (begin mem 256 0x02 slot) tag_lock handle) (λ args. send w args 256)

  -- The PIN data behind what is optional: the control byte, the offset from 1, and the command.
  pub pin_args : Buf → ℕ → ℕ → ℕ → List ℕ → Buf
  pin_args b encoding pin_length pin_offset bytes =
      let control = bit_or encoding (if pin_length == 0 then 0 else u8 (pin_length * 2 ^ 4)) in
      let r = put_tag (builder_init b true) tag_pin_data in
      (add_bytes (add_byte (add_byte r control) (u8 (pin_offset + 1))) bytes).buf

  -- `pin_encoding` is 0 for BCD and 1 for ASCII. The response goes into the caller's array.
  pub card_verify :
      List ℕ
      → List ℕ
      → Parser
      → t.World
      → ℕ
      → ℕ
      → Option (List ℕ)
      → ℕ
      → ℕ
      → ℕ
      → List ℕ
      → ℕ
      → Returned (List ℕ)
  card_verify mem recv_buf junk w slot timeout prompt encoding pin_length pin_offset bytes
        recv_len =
      built (optional_args (begin mem 256 0x14 slot) timeout prompt) (λ b.
        if ltb 1 encoding
        then some (w, err Error.invalid_arg)
        else elim (t.call w (pin_args b encoding pin_length pin_offset bytes)
            (init recv_buf recv_len)) [
              | none ↦ none
              | some (w', resp, rc) ↦ elim rc [
                | err e ↦ some (w', err e)
                | ok n ↦ some (w', bytes_of tag_card_response recv_len (reply junk resp))
              ]
            ])

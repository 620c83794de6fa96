-- ===== src/Reader/Runs.antt =====
-- A small driver, a reset with it, and a client that looks at its slots.
use openct.Prelude.{ℕ, ◌+◌, ◌≡◌, refl, arith, some, none, List, [], ◌∷◌, replicate}
use openct.Prelude.Outcome.{Outcome, ok, err, Error}
use openct.Atr.Encoding.{Answer}
use openct.Reader.{Slot, Ifd, Ops, Calls, set_slot}
use openct.Reader.Request.{card_request}
use openct.Reader.Selected.{reset_selects}
use openct.Reader.Seen.{client_sees, update_run, no_cards, cards, watch}
use openct.Client.Status.{card_status}

-- T=1 with a speed in TA1, one historical byte, and a check byte.
abbrev t1_card : Answer
t1_card = record {
  ts = 0x3b;
  head = record { a = some 0x11; b = none; c = some 255 };
  rest = (1, record { a = some 0xfe; b = none; c = none }) ∷ [];
  historical = 0x41 ∷ [];
  check = 0x42;
}

abbrev t1_bytes : List ℕ
t1_bytes = 0x3b ∷ 0xd1 ∷ 0x11 ∷ 0xff ∷ 0x11 ∷ 0xfe ∷ 0x41 ∷ 0x42 ∷ []

-- A driver that only knows how to reset; its state counts the resets.
abbrev resets : Ifd ℕ ℕ → ℕ → Ifd ℕ ℕ × Outcome (List ℕ)
resets r idx = (record r { own = r.own + 1 }, ok t1_bytes)

abbrev plain_ops : Ops ℕ ℕ
plain_ops = record {
  default_protocol = 0;
  activate = none;
  deactivate = none;
  output = none;
  card_status = none;
  card_reset = some resets;
  card_request = none;
  change_parity = none;
  card_eject = none;
  perform_verify = none;
  set_protocol = none;
  before_command = none;
  after_command = none;
  event = none;
}

-- A protocol is its number.
abbrev plain_calls : Calls ℕ ℕ
plain_calls = record {
  id = λ p. p;
  create = λ id dad. some id;
  transceive = λ r idx dad apdu size. (r, err Error.not_supported);
  read_memory = λ r idx address size. (r, err Error.not_supported);
  write_memory = λ r idx address bytes. (r, err Error.not_supported);
  recv = λ r. (r, none);
  now = λ r. 0;
}

abbrev free_slot : Slot ℕ
free_slot = record {
  status = 1;
  next_update = 0;
  dad = 0;
  atr_len = 0;
  atr = replicate 64 0;
  proto = some 0;
}

abbrev empty_slot : Slot ℕ
empty_slot = record free_slot { proto = none }

abbrev usb_reader : Ifd ℕ ℕ
usb_reader = record {
  name = [];
  flags = 0;
  nslots = 1;
  slots = λ k. free_slot;
  device = some 1;
  seqs = λ k. 0;
  card_seq = 1;
  own = 0;
}

reset_selects_example :
    let s = (card_request plain_ops plain_calls usb_reader 0 0 none).0.slots 0 in
    ((card_request plain_ops plain_calls usb_reader 0 0 none).1 ≡ ok t1_bytes)
    × (s.atr_len ≡ 8)
    × (s.proto ≡ some 1)
reset_selects_example =
    reset_selects plain_ops plain_calls usb_reader
      (record (set_slot usb_reader 0 empty_slot) { own = 1 }) 0 1 t1_card resets (omega arith) refl
      (omega arith) refl refl ((omega arith, tt), omega arith, omega arith)
      (refl, refl, omega arith)

client_sees_example :
    let n1 = update_run no_cards ((0, 1) ∷ (1, 1) ∷ []) in
    let seen1 = (card_status (λ k. 0) (cards 1 n1) 0).0 in
    (card_status seen1 (cards 1 (update_run n1 ((1, 0) ∷ (0, 0) ∷ (0, 1) ∷ []))) 0).1 ≡ ok 3
unfolding watch
client_sees_example =
    client_sees 0 1 ((0, 1) ∷ (1, 1) ∷ []) ((1, 0) ∷ (0, 0) ∷ (0, 1) ∷ []) (λ k. 0) (omega arith)
      (omega arith)

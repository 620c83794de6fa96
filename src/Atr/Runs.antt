-- ===== src/Atr/Runs.antt =====
-- Runs of the answer to reset and of protocol type selection, and their theorems at concrete inputs.
use openct.Prelude.{ℕ, ◌+◌, ◌≤◌, ◌≡◌, ◌↔◌, refl, arith, none, some, List, []}
use openct.Prelude.{◌∷◌, ◌++◌, length, true, false}
use openct.Prelude.Outcome.{Error, ok, err}
use openct.Utils.{count_bits}
use openct.Atr.{Info, blank, round, parse, or_t0, no_bytes}
use openct.Prelude.{replicate, Option, ◌≢◌}
use openct.Buffer.{Buf, contents}
use openct.Atr.Receive.{read_atr, Groups, read_groups}
use openct.Atr.Receive.Ends.{atr_groups_end}
use openct.Atr.Receive.Line.{next_byte, on_line}
use openct.Atr.Receive.Whole.{read_atr-encode}
use openct.Atr.Complete.{atr_complete, atr_complete-encode}
use openct.Atr.Encoding.{Answer}
use openct.Atr.Standard.{parse-encode}
use openct.Atr.Pts.{build_pts, verify_pts, pts_complete}
use openct.Atr.Pts.Echo.{verify_pts-build_pts, pts_complete_early}

-- T=1 with a speed in TA1, one historical byte, and a check byte.
abbrev t1_card : Answer
t1_card = record {
  ts = 0x3b;
  head = record { a = some 0x11; b = none; c = some 255 };
  rest = (1, record { a = some 0xfe; b = none; c = none }) ∷ [];
  historical = 0x41 ∷ [];
  check = 0x42;
}

abbrev t1_bytes : List ℕ
t1_bytes = 0x3b ∷ 0xd1 ∷ 0x11 ∷ 0xff ∷ 0x11 ∷ 0xfe ∷ 0x41 ∷ 0x42 ∷ []

abbrev t1_info : Info
t1_info = record {
  ta = some 0x11 ∷ some 0xfe ∷ none ∷ some 0 ∷ [];
  tb = no_bytes;
  tc = some 255 ∷ none ∷ none ∷ some 0 ∷ [];
  supported = 2;
  default_protocol = some 1;
}

parse-encode_example : parse t1_bytes 8 ≡ ok t1_info
unfolding or_t0
parse-encode_example = parse-encode t1_card (omega arith)

-- A contactless card, 3B 80 80 01 with a check byte, and a card that announces nothing at all.
bare_refused : parse (0x3b ∷ 0x80 ∷ 0x80 ∷ 0x01 ∷ 0x01 ∷ []) 5 ≡ err Error.invalid_atr
unfolding parse round count_bits
bare_refused = refl

bare_accepted : parse (0x3b ∷ 0x02 ∷ 0x14 ∷ 0x50 ∷ []) 4 ≡ ok (or_t0 blank)
unfolding parse or_t0
bare_accepted = refl

abbrev request : List ℕ
request = 0xff ∷ 0x31 ∷ 0x11 ∷ 1 ∷ 0xde ∷ []

built : build_pts t1_info 1 7 ≡ ok request
unfolding build_pts
built = refl

verify_pts-build_pts_example :
    (verify_pts t1_info request 5 ≡ (t1_info, ok tt)) × (length request ≤ 5)
verify_pts-build_pts_example =
    verify_pts-build_pts t1_info 1 7 request (omega arith) (omega arith) built

pts_complete_early_example : (pts_complete request 3 ≡ true) ↔ ((2 ≤ 3) × (length request ≤ 3 + 2))
pts_complete_early_example = pts_complete_early t1_info 1 7 3 request (omega arith) built

atr_complete-encode_example : atr_complete t1_bytes 7 ≡ false
atr_complete-encode_example = atr_complete-encode t1_card 7 (omega arith, tt) (omega arith) refl

-- The same card in the inverse convention, whose driver delivers the first byte.
abbrev inverse_card : Answer
inverse_card = record t1_card { ts = 0x3f }

abbrev slot_array : List ℕ
slot_array = 0x03 ∷ replicate 63 0

read_atr-encode_example :
    (b : Buf) × (read_atr
        (List ℕ)
        next_byte
        (on_line true (0xd1 ∷ 0x11 ∷ 0xff ∷ 0x11 ∷ 0xfe ∷ 0x41 ∷ 0x42 ∷ []) ++ 7 ∷ [])
        slot_array
      ≡ (7 ∷ [], b, true))
    × (contents b ≡ 0x3f ∷ 0xd1 ∷ 0x11 ∷ 0xff ∷ 0x11 ∷ 0xfe ∷ 0x41 ∷ 0x42 ∷ [])
read_atr-encode_example =
    read_atr-encode inverse_card true slot_array (7 ∷ []) (omega arith, tt) (omega arith) refl
      (omega arith) (omega arith) (omega arith) (refl, refl)

-- A line on which 0xFF comes for ever, so that each group announces another one.
abbrev noisy : Unit {0} → Unit {0} × Option ℕ
noisy s = (s, some 0xff)

abbrev noisy_array : Buf
noisy_array = record { base = replicate 64 0; head = 0; tail = 2; size = 64; overrun = 0 }

atr_groups_end_example :
    read_groups Unit noisy 64 tt noisy_array 0xff 0 false ≢ Groups.out_of_rounds
atr_groups_end_example =
    atr_groups_end Unit noisy (λ s. omega arith) tt noisy_array 0xff false (omega arith)
      (omega arith) (omega arith) (omega arith) (omega arith)

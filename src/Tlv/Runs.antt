-- ===== src/Tlv/Runs.antt =====
-- Runs of the coding, and its theorems at concrete inputs.
use openct.Prelude.{ℕ, ◌<◌, ◌≡◌, ◌≢◌, ◌↔◌, ◌^◌, refl, arith, true, false, none}
use openct.Prelude.{List, [], ◌∷◌, ◌++◌, replicate}
use openct.Buffer.{Buf, contents, init}
use openct.Tlv.{Parser, Parsed, Builder, builder_init, parse, no_items, get_opaque, put_opaque}
use openct.Tlv.{put_int, int_value, copy_string}
use openct.Tlv.Grammar.{Item, Encodes, find_last}
use openct.Tlv.Parse.{parse-Encodes}
use openct.Tlv.RoundTrip.{put_all, encode, parse-put_all, put_opaque-truncates}
use openct.Tlv.Integers.{put_int_defined}
use openct.Prelude.{some}

abbrev items : List Item
items = (0x84, 1 ∷ 2 ∷ 3 ∷ []) ∷ (2, 9 ∷ []) ∷ (2, 8 ∷ []) ∷ []

abbrev memory : List ℕ
memory = replicate 20 0

items_coded :
    encode true items ≡ 0xc4 ∷ 0 ∷ 3 ∷ 1 ∷ 2 ∷ 3 ∷ 0x42 ∷ 0 ∷ 1 ∷ 9 ∷ 0x42 ∷ 0 ∷ 1 ∷ 8 ∷ []
items_coded = refl

read_int : int_value 0 (1 ∷ 2 ∷ 3 ∷ []) ≡ 0x010203
unfolding int_value
read_int = refl

string_padded : copy_string (65 ∷ 0 ∷ 66 ∷ []) ≡ 65 ∷ 0 ∷ 0 ∷ []
unfolding copy_string
string_padded = refl

parse-put_all_example :
    let r = put_all (builder_init (init memory 20) true) items in
    (r.error ≡ false)
    × ((p : Parser) × (left : Buf) × (parse no_items r.buf ≡ Parsed.done p left)
        × (contents left ≡ [])
        × ((tag : ℕ) → get_opaque p r.buf.base tag ≡ find_last tag items none))
parse-put_all_example =
    parse-put_all memory 20 true items (omega arith) (omega arith) (omega arith) (omega arith)

abbrev received : Buf
received = record { base = 2 ∷ 1 ∷ 9 ∷ []; head = 0; tail = 3; size = 3; overrun = 0 }

received-Encodes : Encodes (2 ∷ 1 ∷ 9 ∷ []) ((2, 9 ∷ []) ∷ [])
received-Encodes =
    Encodes.small 2 (9 ∷ []) [] [] _ refl (omega arith) (omega arith) (omega arith) Encodes.nil

parse-Encodes_example :
    (p : Parser) × (left : Buf) × (parse no_items received ≡ Parsed.done p left)
    × (contents left ≡ [])
    × ((tag : ℕ) → get_opaque p received.base tag ≡ find_last tag ((2, 9 ∷ []) ∷ []) none)
parse-Encodes_example = parse-Encodes received (omega arith) refl received-Encodes

abbrev small_builder : Builder
small_builder = record {
  error = false;
  use_large_tags = false;
  buf = record { base = replicate 300 0; head = 0; tail = 0; size = 300; overrun = 0 };
  len = 0;
  lenp = none;
}

put_opaque-truncates_example :
    let r' = put_opaque small_builder 5 (replicate 258 7) in
    (r'.error ≡ false) × (contents r'.buf ≡ [] ++ (5 ∷ 2 ∷ replicate 258 7))
put_opaque-truncates_example =
    put_opaque-truncates small_builder 5 (replicate 258 7) refl refl (omega arith) (omega arith)
      (omega arith) (omega arith) (omega arith)

put_int_defined_example : (put_int small_builder 4 (2 ^ 24) ≢ none) ↔ (2 ^ 24 < 2 ^ 24)
put_int_defined_example = put_int_defined small_builder 4 (2 ^ 24) refl

-- Behind a tag of 7, a number of two bytes at index 1.
abbrev parsed : Parser
parsed = record { use_large_tags = false; val = λ t. some 1; len = λ t. 2 }

parsed_bytes : get_opaque parsed (7 ∷ 1 ∷ 2 ∷ []) 7 ≡ some (1 ∷ 2 ∷ [])
unfolding get_opaque
parsed_bytes = refl

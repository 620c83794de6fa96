-- ===== src/Protocol/Runs.antt =====
-- A run of the choice of a protocol, and its theorem at a concrete input.
use openct.Prelude.{ℕ, ◌≡◌, arith, none, some, List, [], ◌∷◌}
use openct.Prelude.Outcome.{Error, err}
use openct.Atr.{or_t0, parse}
use openct.Atr.Encoding.{Answer}
use openct.Protocol.{offers}
use openct.Protocol.Offers.{offers-parse}

-- A contactless card, which names T=0 and T=1 and has no interface bytes.
abbrev bare_card : Answer
bare_card = record {
  ts = 0x3b;
  head = record { a = none; b = none; c = none };
  rest =
      (0, record { a = none; b = none; c = none })
      ∷ (1, record { a = none; b = none; c = none })
      ∷ [];
  historical = [];
  check = 1;
}

abbrev bare_bytes : List ℕ
bare_bytes = 0x3b ∷ 0x80 ∷ 0x80 ∷ 0x01 ∷ 0x01 ∷ []

offers-parse_example :
    (offers bare_bytes 5 ≡ some (record { supported = 3; def_proto = some 0 }))
    × (parse bare_bytes 5 ≡ err Error.invalid_atr)
unfolding or_t0
offers-parse_example = offers-parse bare_card (omega arith)

-- ===== src/Ccid/Runs.antt =====
-- A block for a card, with a reader that asks for more time.
use openct.Prelude.{ℕ, ◌≡◌, refl, arith, inl, inr, none, some, List, [], ◌∷◌}
use openct.Prelude.Outcome.{ok}
use openct.Ccid.{Ccid, apdu_level, exchange, checkresponse, more_time}
use openct.Ccid.Exchange.{scripted, framed, PassedOver, exchange_answered}

abbrev reader : Ccid
reader = record {
  reader_type = apdu_level;
  nslots = 1;
  maxmsg = 271;
  seq = 255;
  icc_proto = λ k. 0;
  sbuf = λ k. none;
}

abbrev select : List ℕ
select = 0x00 ∷ 0xa4 ∷ 0x00 ∷ 0x00 ∷ []

abbrev status : List ℕ
status = 0x90 ∷ 0x00 ∷ []

-- The answer to an earlier command, and a request for more time.
abbrev before : List (List ℕ)
before = framed 0x81 0 254 0 0 0 [] ∷ framed 0x80 0 255 0x80 0 0 [] ∷ []

asks_for_time : checkresponse (framed 0x80 0 255 0x80 0 0 []) ≡ more_time
unfolding checkresponse
asks_for_time = refl

before-PassedOver : PassedOver 255 271 before
before-PassedOver =
    (omega arith, omega arith, inl (omega arith), (omega arith, omega arith, inr asks_for_time, tt))

exchange_answered_example :
    exchange scripted 3 reader
      (record {
        sent = [];
        answers =
            framed 0x81 0 254 0 0 0 []
            ∷ framed 0x80 0 255 0x80 0 0 []
            ∷ framed 0x80 0 255 0 0 0 status
            ∷ [];
      })
      0
      select
      258
    ≡ some (
      record reader { seq = 0 },
      record { sent = (0x6F ∷ 4 ∷ 0 ∷ 0 ∷ 0 ∷ 0 ∷ 255 ∷ 0 ∷ 0 ∷ 0 ∷ select) ∷ []; answers = [] },
      ok status,
    )
exchange_answered_example =
    exchange_answered 3 reader before [] [] 0 258 0 0 select status (omega arith) (omega arith)
      (omega arith) (omega arith) (omega arith) (omega arith) (omega arith) (omega arith)
      before-PassedOver (omega arith)

-- ===== src/T0/Runs.antt =====
-- Runs of the T=0 protocol, and its theorems at concrete inputs.
use openct.Prelude.{ℕ, ◌≡◌, ◌≢◌, refl, arith, false, none, some, List, [], ◌∷◌, replicate}
use openct.Prelude.Memory.{store}
use openct.Buffer
use openct.Driver.{Device}
use openct.Apdu.{iso_parse, check}
use openct.T0.{T0, idle, set_defaults, send_some, Exchanged, loop, round, finish}
use openct.T0.Transceive.{transceive, exchange, xcv, xcv_start, leave}
use openct.T0.Receive.{stream_card, receive_response}
use openct.T0.Total.{transceive_returns}

abbrev fresh : T0
fresh = record { state = idle; timeout = 2000; block_oriented = 0; max_nulls = 800 }

fresh_lem : set_defaults (record fresh { timeout = 0 }) ≡ fresh
unfolding set_defaults
fresh_lem = refl

-- READ BINARY of two bytes.
abbrev command : List ℕ
command = 0x00 ∷ 0xb0 ∷ 0 ∷ 0 ∷ 2 ∷ []

abbrev room : List ℕ
room = replicate 258 0

receive_response_example :
    transceive stream_card 3 fresh (0x60 ∷ 0xb0 ∷ 7 ∷ 8 ∷ 0x90 ∷ 0 ∷ 1 ∷ []) command 5 room 258
    ≡ some (record {
      t0 = fresh;
      device = 1 ∷ [];
      mem = store room 0 (7 ∷ 8 ∷ 0x90 ∷ 0 ∷ []);
      count = some 4;
    })
receive_response_example =
    receive_response 1 1 fresh 0 0xb0 0 0 2 room (7 ∷ 8 ∷ 0x90 ∷ 0 ∷ []) (1 ∷ []) 258 refl refl
      (omega arith) (omega arith) (omega arith) (omega arith) refl (omega arith)

transceive_returns_example :
    transceive stream_card 2000 fresh (replicate 900 0x60) command 5 room 258 ≢ none
transceive_returns_example =
    transceive_returns stream_card 2000 fresh (replicate 900 0x60) command 5 room 258 (omega arith)

-- A reader from which nothing can be read. The protocol is idle after it.
abbrev mute : Device
mute = record { State = ℕ; send = λ s b. (s, false); recv = λ s n timeout. (s, none) }

abbrev lost : Exchanged mute
lost = record { t0 = fresh; device = 0; mem = room; count = none }

lost_lem : transceive mute 9 fresh 0 command 5 room 258 ≡ some lost
unfolding transceive exchange xcv xcv_start leave send_some Buffer.set Buffer.get loop round finish
    iso_parse check
lost_lem = refl

-- ===== src/T1/Runs.antt =====
-- Runs of the T=1 protocol with a scripted card, and the theorems at concrete inputs.
use openct.Prelude.{ℕ, ◌+◌, ◌≡◌, ◌≤◌, refl, arith, List, [], ◌∷◌}
use openct.Prelude.{true, false, Option, none, some, take, replicate}
use openct.Buffer.{Buf, Source}
use openct.Buffer
use openct.Buffer.Inv.{IsValid}
use openct.T1.{T1, sending, dead, lrc, t1_init, build}
use openct.T1.Line.{Device, xcv, recv_block}
use openct.T1.{verify_checksum, set_defaults, set_checksum}
use openct.T1.Transceive.{fail, Answer, step, loop, start, transceive}
use openct.T1.Ifsd.{ask, negotiate_ifsd, out, negotiation_never_ends}
use openct.T1.Blocks.{frame, build_lem}
use openct.T1.Errors.{errors_are_final}

-- A card that answers what is in the list, whatever it is sent, and then fails.
answer : List (List ℕ) → ℕ → ℕ → List (List ℕ) × Option (List ℕ)
answer [] n timeout = ([], none)
answer (b ∷ bs) n timeout = (bs, some (take n b))

abbrev card : Device
card = record { State = List (List ℕ); send = λ s b. (s, false); recv = answer }

abbrev fresh : T1
fresh = record {
  state = sending;
  block_oriented = 1;
  ns = 0;
  nr = 0;
  ifsc = 32;
  ifsd = 32;
  timeout = 20000;
  wtx = 0;
  retries = 3;
  rc_bytes = 1;
  checksum = lrc;
}

fresh_lem : t1_init (record fresh { block_oriented = 1 }) false ≡ fresh
unfolding t1_init set_defaults set_checksum
fresh_lem = refl

abbrev room : List ℕ
room = replicate 259 0

abbrev command : List ℕ
command = 0x00 ∷ 0xb0 ∷ 0x00 ∷ 0x00 ∷ 0x02 ∷ []

command-IsValid : IsValid (Buffer.set command 5)
unfolding Buffer.set
command-IsValid = omega arith

build_lem_example :
    let (block', slen, sent) = build fresh room 0 0 (some (Buffer.set command 5)) in
    (take (sent + 3) block' ≡ frame fresh 0 0 (some (Buffer.set command 5)))
    × (sent ≤ 32)
    × (slen ≡ sent + 3 + 1)
    × (verify_checksum fresh block' slen ≡ true)
build_lem_example =
    build_lem fresh room 0 0 (some (Buffer.set command 5)) refl command-IsValid (omega arith)

abbrev gone : T1
gone = record fresh { state = dead }

no_answer : transceive card 3 fresh [] room 0 command (replicate 8 0) 8 ≡ (gone, [], Answer.error)
unfolding transceive start loop step fail xcv recv_block answer
no_answer = refl

errors_are_final_example :
    (gone.state ≡ dead)
    × (transceive card 5 gone [] room 0 command (replicate 8 0) 8 ≡ (gone, [], Answer.error))
errors_are_final_example =
    errors_are_final card 3 fresh gone [] [] room 0 command (replicate 8 0) 8 5 room 0 command
      (replicate 8 0) 8 (omega arith) no_answer

-- A reader that takes every block and always gives back an empty answer.
abbrev silent : Device
silent = record { State = ℕ; send = λ s b. (s, false); recv = λ s n timeout. (s, some []) }

-- En bloc, with the one byte of the exclusive-or.
abbrev IsFresh : T1 → ℕ → List ℕ → Type 0
IsFresh t s sdata = (t.block_oriented ≡ 1) × (t.rc_bytes ≡ 1)

silent_garbles :
    (t : T1) (s : ℕ) (sdata : List ℕ)
    → IsFresh t s sdata
    → let got = ask silent t s sdata 0 64 in
      (n : ℕ) × (got.count ≡ some n)
      × (verify_checksum got.t1 got.block n ≡ false)
      × IsFresh got.t1 got.device got.block
unfolding ask xcv recv_block verify_checksum
silent_garbles t s sdata (b, c) =
    (0, ground (arith, b, c), ground (arith, b, c), (ground (arith, b, c), ground (arith, b, c)))

negotiation_never_ends_example : (negotiate_ifsd silent 1000 fresh 0 room 0 64).2 ≡ out
negotiation_never_ends_example =
    negotiation_never_ends silent IsFresh 0 64 silent_garbles 1000 fresh 0 room (refl, refl)
      (omega arith)

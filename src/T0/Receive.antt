-- ===== src/T0/Receive.antt =====
-- What `t0_transceive` of src/ifd/proto-t0.c makes of a card that follows the protocol.
use openct.Prelude.{ℕ, zero, suc, ◌+◌, ◌-◌, ◌^◌, ◌<◌, ◌≤◌, ◌≡◌, ◌≢◌, refl, arith, true, false}
use openct.Prelude.{none, some, List, [], ◌∷◌, ◌++◌, length, take, drop, replicate, ◌==◌}
use openct.Prelude.{if◌then◌else◌, bit_and, ◌∙◌, ap, take-append, drop-append}
use openct.Prelude.Bits.{bit_xor_self}
use openct.Prelude.Memory.{store}
use openct.Buffer.{Buf, Source, avail, tailroom, contents}
use openct.Buffer
use openct.Driver.{Device}
use openct.Apdu.{check, iso_parse}
use openct.T0.{T0, idle, Xfer, send_some, recv_some, is_sending, on_data, on_byte, Round, round}
use openct.T0.{loop, finish, receiving}
use openct.T0.Transceive.{xcv, leave, exchange, transceive}

-- A card whose bytes are read one after the other, whatever it is sent.
abbrev pub stream_card : Device
stream_card = record {
  State = List ℕ;
  send = λ s b. (s, false);
  recv = λ s n timeout. (drop n s, some (take n s));
}

-- An instruction that no null and no status byte can be taken for.
abbrev pub IsInstruction : ℕ → Type 0
IsInstruction ins = (ins ≢ 0x60) × (bit_and ins 0xF0 ≢ 0x60) × (bit_and ins 0xF0 ≢ 0x90)

-- Null bytes are waited out.
null_round :
    (x : Xfer stream_card) (ins : ℕ) (rest : List ℕ)
    → x.device ≡ 0x60 ∷ rest
    → x.null_count < x.t0.max_nulls
    → x.t0.max_nulls < 2 ^ 32 - 1
    → round stream_card x ins
      ≡ Round.again (record x { device = rest; null_count = x.null_count + 1 })
unfolding round on_byte
null_round x ins rest e lt few = ground (arith, e, lt, few)

loop_again :
    (fuel ins : ℕ) (x x' : Xfer stream_card)
    → round stream_card x ins ≡ Round.again x'
    → loop stream_card (suc fuel) ins x ≡ loop stream_card fuel ins x'
unfolding loop
loop_again fuel ins x x' e = ground (arith, e)

nulls_lem :
    (k fuel : ℕ) (x : Xfer stream_card) (ins : ℕ) (rest : List ℕ)
    → x.device ≡ replicate k 0x60 ++ rest
    → x.null_count + k ≤ x.t0.max_nulls
    → x.t0.max_nulls < 2 ^ 32 - 1
    → loop stream_card (k + fuel) ins x
      ≡ loop stream_card fuel ins (record x { device = rest; null_count = x.null_count + k })
nulls_lem zero fuel x ins rest e le few =
    ap (λ f. loop stream_card f ins x) {y = fuel} (omega arith)
    ∙ ap (λ d. loop stream_card fuel ins (record x { device = d })) e
    ∙ ap (λ n. loop stream_card fuel ins (record x { device = rest; null_count = n }))
        {y = x.null_count + 0} (omega arith)
nulls_lem (suc k) fuel x ins rest e le few =
    let x' : Xfer stream_card = record x {
      device = replicate k 0x60 ++ rest;
      null_count = x.null_count + 1;
    } in
    ap (λ f. loop stream_card f ins x) {y = suc (k + fuel)} (omega arith)
    ∙ loop_again (k + fuel) ins x x'
        (null_round x ins (replicate k 0x60 ++ rest) e (omega arith) few)
    ∙ nulls_lem k fuel x' ins rest refl (omega arith) few
    ∙ ap (λ n. loop stream_card fuel ins (record x { device = rest; null_count = n }))
        {y = x.null_count + suc k} (omega arith)

-- The buffer of a response that has come whole.
abbrev full : List ℕ → List ℕ → Buf
full mem answer = record {
  base = store mem 0 answer;
  head = 0;
  tail = length answer;
  size = length answer;
  overrun = 0;
}

recv_lem :
    (x : Xfer stream_card) (mem answer rest : List ℕ)
    → x.device ≡ answer ++ rest
    → x.rbuf ≡ Buffer.init mem (length answer)
    → length answer < 2 ^ 31
    → recv_some stream_card x none ≡ (record x { device = rest; rbuf = full mem answer }, true)
unfolding recv_some Buffer.init Buffer.put Buffer.put_room Buffer.compact
recv_lem x mem answer rest e b small = ground (
  arith,
  e,
  b,
  small,
  take-append (length answer) answer rest,
  drop-append (length answer) answer rest,
)

data_lem :
    (x : Xfer stream_card) (mem answer rest : List ℕ)
    → is_sending stream_card x.t0.state ≡ false
    → x.device ≡ answer ++ rest
    → x.rbuf ≡ Buffer.init mem (length answer)
    → length answer < 2 ^ 31
    → on_data stream_card x none ≡ Round.done (record x { device = rest; rbuf = full mem answer })
unfolding on_data
data_lem x mem answer rest s e b small =
    ground (arith, s, small, recv_lem x mem answer rest e b small)

response_round :
    (x : Xfer stream_card) (ins : ℕ) (mem answer rest : List ℕ)
    → IsInstruction ins
    → is_sending stream_card x.t0.state ≡ false
    → x.device ≡ ins ∷ (answer ++ rest)
    → x.rbuf ≡ Buffer.init mem (length answer)
    → length answer < 2 ^ 31
    → round stream_card x ins ≡ Round.done (record x { device = rest; rbuf = full mem answer })
unfolding round on_byte
response_round x ins mem answer rest p s e b small = ground (
  arith,
  p,
  e,
  bit_xor_self ins,
  data_lem (record x { device = answer ++ rest }) mem answer rest s refl b small,
)

xcv_lem :
    (k fuel : ℕ) (t : T0) (cla ins p1 p2 le : ℕ) (mem answer rest : List ℕ)
    → is_sending stream_card t.state ≡ false
    → t.block_oriented ≡ 0
    → IsInstruction ins
    → k ≤ t.max_nulls
    → t.max_nulls < 2 ^ 32 - 1
    → length answer < 2 ^ 31
    → xcv stream_card
        (k + suc fuel)
        t
        (replicate k 0x60 ++ ins ∷ (answer ++ rest))
        (cla ∷ ins ∷ p1 ∷ p2 ∷ le ∷ [])
        5
        mem
        (length answer)
      ≡ some
          (record { t0 = t; device = rest; mem = store mem 0 answer; count = some (length answer) })
unfolding xcv send_some Buffer.set Buffer.get finish
xcv_lem k fuel t cla ins p1 p2 le mem answer rest s stream i enough few small =
    ground (arith, stream, small, run)
  where
    cmd : List ℕ
    cmd = cla ∷ ins ∷ p1 ∷ p2 ∷ le ∷ []

    x : Xfer stream_card
    x = record {
      t0 = t;
      device = replicate k 0x60 ++ ins ∷ (answer ++ rest);
      sbuf = record { base = cmd; head = 5; tail = 5; size = 5; overrun = 0 };
      rbuf = Buffer.init mem (length answer);
      null_count = 0;
    }

    x' : Xfer stream_card
    x' = record x { device = ins ∷ (answer ++ rest); null_count = 0 + k }

    once :
        loop stream_card (suc fuel) ins x'
        ≡ Round.done (record x' { device = rest; rbuf = full mem answer })
    once = unfold loop in ground (arith, response_round x' ins mem answer rest i s refl refl small)

    run :
        loop stream_card (k + suc fuel) ins x
        ≡ Round.done (record x' { device = rest; rbuf = full mem answer })
    run = nulls_lem k (suc fuel) x ins (ins ∷ (answer ++ rest)) refl (omega arith) few ∙ once

-- A card that answers a command that expects data with the instruction byte, the data and two status
-- bytes, after as many null bytes as are allowed at most, is understood: the response is the data and
-- the status, no byte more is read, and the protocol is idle. The length that the caller gives for the
-- response does not count.
pub receive_response :
    (k fuel : ℕ) (t : T0) (cla ins p1 p2 le : ℕ) (mem answer rest : List ℕ) (rlen : ℕ)
    → t.state ≡ idle
    → t.block_oriented ≡ 0
    → IsInstruction ins
    → k ≤ t.max_nulls
    → t.max_nulls < 2 ^ 32 - 1
    → le < 256
    → length answer ≡ (if le == 0 then 256 else le) + 2
    → 2 ≤ rlen
    → transceive stream_card
        (k + suc fuel)
        t
        (replicate k 0x60 ++ ins ∷ (answer ++ rest))
        (cla ∷ ins ∷ p1 ∷ p2 ∷ le ∷ [])
        5
        mem
        rlen
      ≡ some
          (record { t0 = t; device = rest; mem = store mem 0 answer; count = some (length answer) })
unfolding transceive exchange leave iso_parse check
receive_response k fuel t cla ins p1 p2 le mem answer rest rlen i stream p enough few small size
      two =
    let tr : T0 = record t { state = receiving } in
    let n : ℕ = if le == 0 then 256 else le in
    let short : n ≤ 256 = ground arith in
    let got =
      xcv_lem k fuel tr cla ins p1 p2 le mem answer rest refl stream p enough few
        (omega (arith, short, size)) in
    ground (arith, i, two, size, rw size at got)

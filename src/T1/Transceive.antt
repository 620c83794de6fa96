-- ===== src/T1/Transceive.antt =====
-- The exchange of one APDU, `t1_transceive` of src/ifd/proto-t1.c: one round of its loop, by the
-- kind of block received, and the loop.
use openct.Prelude.{ℕ, zero, suc, ◌-◌, bit_and, bit_or, bit_xor}
use openct.Prelude.{Bool, true, false, not, ◌&&◌, ◌||◌, Option, none, some, List, [], ◌∷◌}
use openct.Prelude.{◌==◌, if◌then◌else◌, length, get_or, replicate}
use openct.Prelude.Memory.{add32, sub32, load}
use openct.Buffer.{Buf, Source, avail, contents}
use openct.Buffer
use openct.T1.{T1, Phase, sending, receiving, resynch, dead, build}
use openct.T1.Line.{Device, xcv}
use openct.T1.{verify_checksum, block_type, i_kind, r_kind, s_kind, seq, is_error, s_is_response}
use openct.T1.{s_type, buffer_size, i_block, r_block, s_block, more_blocks, edc_error, other_error}
use openct.T1.{s_response}

module _ (dev : Device) where
  -- The local variables of the loop, with the protocol's state and the device.
  pub record Run : Type 0 where
    pub t1 : T1
    pub device : dev.State
    pub dad : ℕ
    pub sdata : List ℕ
    pub slen : ℕ
    pub sbuf : Buf
    pub rbuf : Buf
    pub last_send : ℕ
    pub sent_length : ℕ
    pub retries : ℕ
    pub resyncs : ℕ

  -- How a round ends: `continue`, `goto done`, `goto error`.
  pub data Next : Type 0 where
    again : Run → Next
    finished : Run → Next
    failed : Run → Next

  -- A block with no data, or with that of `bp`, to be sent in the next round.
  unfoldable pub reply : Run → ℕ → Option Buf → Run
  reply r pcb bp =
      let (block, slen, sent) = build r.t1 r.sdata r.dad pcb bp in
      record r { sdata = block; slen = slen }

  -- `t1_build(t1, sdata, dad, T1_I_BLOCK, &sbuf, &last_send)`
  unfoldable pub send_block : Run → Run
  send_block r =
      let (block, slen, sent) = build r.t1 r.sdata r.dad i_block (some r.sbuf) in
      record r { sdata = block; slen = slen; last_send = sent }

  unfoldable pub fail : Run → Next
  fail r = failed (record r { t1 = record r.t1 { state = dead } })

  -- `resync:`
  unfoldable pub resync : Run → Next
  resync r =
      if r.resyncs == 0
      then fail r
      else let r1 =
          reply (record r { resyncs = r.resyncs - 1; t1 = record r.t1 { ns = 0; nr = 0 } }) s_block
            none in
        again (record r1 { t1 = record r1.t1 { state = resynch } })

  -- "Everything went just splendid"
  unfoldable pub splendid : Run → Next
  splendid r = again (record r { retries = r.t1.retries })

  abbrev pub is_receiving : Phase → Bool
  is_receiving receiving = true
  is_receiving _ = false

  abbrev pub is_sending : Phase → Bool
  is_sending sending = true
  is_sending _ = false

  abbrev pub is_resynch : Phase → Bool
  is_resynch resynch = true
  is_resynch _ = false

  -- The last block was received: it leaves the send buffer, and the next one has the other number.
  unfoldable pub acknowledge : Run → Run
  acknowledge r = record r {
    sbuf = (Buffer.get r.sbuf r.last_send).0;
    last_send = 0;
    t1 = record r.t1 { ns = bit_xor r.t1.ns 1 };
  }

  unfoldable pub on_r_block : Run → ℕ → Next
  on_r_block r pcb =
      let r1 =
        if seq pcb == r.t1.ns
        then r
        else record (acknowledge r) { sent_length = add32 r.sent_length r.last_send } in
      if not (is_error pcb == 0)
      then resync r
      else if is_receiving r.t1.state
      then splendid (reply r r_block none)
      else if avail r1.sbuf == 0
      then resync r1
      else splendid (send_block r1)

  unfoldable pub on_i_block : Run → ℕ → Next
  on_i_block r pcb =
      let r1 = if is_sending r.t1.state then acknowledge r else r in
      let r2 = record r1 { t1 = record r1.t1 { state = receiving } } in
      let r3 = record r2 { t1 = record r2.t1 { nr = bit_xor r2.t1.nr 1 } } in
      let (rbuf, stored) = Buffer.put r.rbuf (Source.bytes (load r.sdata 3 (get_or r.sdata 2 0))) in
      let r4 = record r3 { rbuf = rbuf } in
      if not (seq pcb == r2.t1.nr)
      then again (reply r2 (bit_or r_block other_error) none)
      else elim stored [
        | none ↦ fail r4
        | some _ ↦
            if bit_and pcb more_blocks == 0 then finished r4 else splendid (reply r4 r_block none)
      ]

  -- What an S block that asks for something makes of the state, and the data of the answer; none for
  -- `goto resync`.
  unfoldable pub s_request : T1 → List ℕ → ℕ → Option (T1 × List ℕ)
  s_request t sdata pcb =
      let value = get_or sdata 3 0 in
      if s_type pcb == 0x02
      then some (t, [])
      else if s_type pcb == 0x01
      then (if value == 0 then none else some (record t { ifsc = value }, value ∷ []))
      else if s_type pcb == 0x03
      then some (record t { wtx = value }, value ∷ [])
      else none

  -- `ct_buf_init(&tbuf, sblk, sizeof(sblk))`, and `ct_buf_putc` of the byte where there is one.
  unfoldable pub answer_buf : List ℕ → Buf
  answer_buf [] = Buffer.init (replicate 5 0) 5
  answer_buf (c ∷ cs) = (Buffer.putc (Buffer.init (replicate 5 0) 5) c).0

  unfoldable pub on_s_block : Run → ℕ → Next
  on_s_block r pcb =
      let restart = record r {
        t1 = record r.t1 { state = sending };
        sent_length = 0;
        last_send = 0;
        resyncs = 3;
        retries = r.t1.retries;
        rbuf = Buffer.init r.rbuf.base r.rbuf.size;
      } in
      if s_is_response pcb && is_resynch r.t1.state
      then again (send_block restart)
      else if s_is_response pcb
      then resync r
      else elim (s_request r.t1 r.sdata pcb) [
        | none ↦ resync r
        | some (t, bs) ↦ splendid (
            reply (record r { t1 = t }) (bit_or (bit_or s_block s_response) (s_type pcb))
              (some (answer_buf bs)))
      ]

  unfoldable pub on_block : Run → Next
  on_block r =
      let pcb = get_or r.sdata 1 0 in
      elim (block_type pcb) [
        | r_kind ↦ on_r_block r pcb
        | i_kind ↦ on_i_block r pcb
        | s_kind ↦ on_s_block r pcb
      ]

  unfoldable pub on_bad_checksum : Run → Next
  on_bad_checksum r =
      if r.retries == 0 || not (r.sent_length == 0)
      then resync r
      else again (reply r (bit_or r_block edc_error) none)

  unfoldable pub step : Run → Next
  step r =
      let got = xcv dev r.t1 r.device r.sdata r.slen buffer_size in
      let r1 = record r {
        retries = sub32 r.retries 1;
        t1 = got.t1;
        device = got.device;
        sdata = got.block;
      } in
      elim got.count [
        | none ↦ fail r1
        | some n ↦ if verify_checksum got.t1 got.block n then on_block r1 else on_bad_checksum r1
      ]

  -- The loop, in so many rounds; `again` where they are used up.
  unfoldable pub loop : ℕ → Run → Next
  loop zero r = again r
  loop (suc fuel) r = elim (step r) [
    | again r' ↦ loop fuel r'
    | finished r' ↦ finished r'
    | failed r' ↦ failed r'
  ]

  -- The first block; none is -1 before anything is sent.
  unfoldable pub start : T1 → dev.State → List ℕ → ℕ → List ℕ → List ℕ → ℕ → Option Run
  start t d sdata dad snd rcv_mem rcv_len =
      let t' = record t { state = sending } in
      let sbuf = Buffer.set snd (length snd) in
      let (block, slen, sent) = build t' sdata dad i_block (some sbuf) in
      let r : Run = record {
        t1 = t';
        device = d;
        dad = dad;
        sdata = block;
        slen = slen;
        sbuf = sbuf;
        rbuf = Buffer.init rcv_mem rcv_len;
        last_send = sent;
        sent_length = 0;
        retries = t.retries;
        resyncs = 3;
      } in
      if length snd == 0 then none else elim t.state [ dead ↦ none | _ ↦ some r ]

  -- What the caller gets: the bytes of the response, or an error.
  pub data Answer : Type 0 where
    response : List ℕ → Answer
    error : Answer
    out_of_rounds : Answer

  unfoldable pub transceive :
      ℕ → T1 → dev.State → List ℕ → ℕ → List ℕ → List ℕ → ℕ → T1 × dev.State × Answer
  transceive fuel t d sdata dad snd rcv_mem rcv_len =
      elim (start t d sdata dad snd rcv_mem rcv_len) [
        | none ↦ (t, d, error)
        | some r ↦ elim (loop fuel r) [
          | again r' ↦ (r'.t1, r'.device, out_of_rounds)
          | finished r' ↦ (r'.t1, r'.device, response (contents r'.rbuf))
          | failed r' ↦ (r'.t1, r'.device, error)
        ]
      ]

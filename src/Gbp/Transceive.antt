-- ===== src/Gbp/Transceive.antt =====
-- The exchange of one command, `gbp_transceive` of src/ifd/proto-gbp.c: a round of its loop, and the loop;
-- and `gbp_resynchronize`.
use openct.Prelude.{
  ℕ, zero, suc, ◌-◌, bit_or, bit_xor, Bool, true, false, not, ◌||◌, ◌&&◌, none, some, List, [], ◌∷◌,
}
use openct.Prelude.{◌==◌, if◌then◌else◌, ltb, length, get_or}
use openct.Prelude.Memory.{sub32, load, store}
use openct.Buffer.{Buf, Source, contents}
use openct.Buffer
use openct.Gbp.{
  Gbp, Phase, alive, resynch, dead, build, verify_checksum, compute_checksum, block_type, i_kind,
  r_kind, s_kind, seq,
}
use openct.Gbp.{s_is_response, buffer_size, i_block, r_block, s_block, edc_error, other_error}
use openct.Gbp.Line.{Device, xcv}

module _ (dev : Device) where
  -- The local variables of the loop, with the protocol's state and the device. `sbuf` is the command.
  pub record Run : Type 0 where
    pub gbp : Gbp
    pub device : dev.State
    pub sdata : List ℕ
    pub slen : ℕ
    pub sbuf : List ℕ
    pub rbuf : Buf
    pub retries : ℕ
    pub resyncs : ℕ
    pub send_seq : ℕ

  -- How a round ends: `continue`, `goto done`, `goto error`.
  pub data Next : Type 0 where
    again : Run → Next
    finished : Run → Next
    failed : Run → Next

  -- A block is built, to be sent in the next round.
  unfoldable pub reply : Run → ℕ → List ℕ → Run
  reply r pcb bytes =
      let (block, slen) = build r.gbp r.sdata pcb bytes in record r { sdata = block; slen = slen }

  unfoldable pub fail : Run → Next
  fail r = failed (record r { gbp = record r.gbp { state = dead } })

  -- `resync:`
  unfoldable pub resync : Run → Next
  unfolding fail reply
  resync r =
      let r1 =
        reply (record r { resyncs = r.resyncs - 1; gbp = record r.gbp { ns = 0 } }) s_block [] in
      if r.resyncs == 0
      then fail r
      else again (record r1 { gbp = record r1.gbp { state = resynch } })

  -- "Everything went just splendid"
  unfoldable pub splendid : Run → Next
  splendid r = again (record r { retries = r.gbp.retries })

  unfoldable pub on_i_block : Run → ℕ → Next
  unfolding fail reply
  on_i_block r pcb =
      let r1 = record r { gbp = record r.gbp { ns = bit_xor r.gbp.ns 1 } } in
      let (rbuf, stored) = Buffer.put r.rbuf (Source.bytes (load r.sdata 3 (get_or r.sdata 2 0))) in
      let r2 = record r1 { rbuf = rbuf } in
      if not (seq pcb == r.send_seq)
      then again (reply r (bit_or r_block other_error) [])
      else elim stored [ none ↦ fail r2 | some n ↦ finished r2 ]

  unfoldable pub on_r_block : Run → ℕ → Next
  unfolding reply splendid
  on_r_block r pcb =
      if not (seq pcb == r.gbp.ns)
      then again (reply r (bit_or r_block other_error) [])
      else splendid (reply r i_block r.sbuf)

  abbrev pub is_resynch : Phase → Bool
  is_resynch resynch = true
  is_resynch _ = false

  unfoldable pub on_s_block : Run → ℕ → Next
  unfolding reply resync
  on_s_block r pcb =
      if s_is_response pcb && is_resynch r.gbp.state
      then again (
          reply
            (record r {
              gbp = record r.gbp { state = alive };
              resyncs = 3;
              retries = r.gbp.retries;
            })
            i_block r.sbuf)
      else resync r

  -- A block of `n` bytes has come.
  unfoldable pub on_block : Run → ℕ → Next
  unfolding reply on_i_block on_r_block on_s_block
  on_block r n =
      let pcb = get_or r.sdata 1 0 in
      if not (verify_checksum r.sdata n)
      then again (reply r (bit_or r_block edc_error) [])
      else elim (block_type pcb) [
        | i_kind ↦ on_i_block r pcb
        | r_kind ↦ on_r_block r pcb
        | s_kind ↦ on_s_block r pcb
      ]

  unfoldable pub round : Run → Next
  unfolding fail resync on_block
  round r =
      let r0 = record r { retries = sub32 r.retries 1 } in
      let got = xcv dev r.gbp r.device r.sdata r.slen buffer_size in
      let r1 = record r0 { gbp = got.gbp; device = got.device; sdata = got.block } in
      if r.retries == 0
      then resync r0
      else elim got.count [ none ↦ fail r1 | some n ↦ on_block r1 n ]

  -- The rounds are used up, or the result with the state.
  pub data Answer : Type 0 where
    out_of_rounds : Answer
    response : Gbp → dev.State → List ℕ → Answer
    error : Gbp → dev.State → Answer

  unfoldable pub loop : ℕ → Run → Answer
  unfolding round
  loop zero r = out_of_rounds
  loop (suc rounds) r = elim (round r) [
    | again r' ↦ loop rounds r'
    | finished r' ↦ response r'.gbp r'.device (contents r'.rbuf)
    | failed r' ↦ error r'.gbp r'.device
  ]

  abbrev pub is_dead : Phase → Bool
  is_dead dead = true
  is_dead _ = false

  -- What the loop begins with. `sdata` and `rcv` are the arrays, `rcv_len` the room in the second.
  unfoldable pub start : Gbp → dev.State → List ℕ → List ℕ → List ℕ → ℕ → Run
  unfolding reply
  start g d sdata snd rcv rcv_len =
      let (block, slen) = build g sdata i_block snd in
      let r : Run = record {
        gbp = g;
        device = d;
        sdata = block;
        slen = slen;
        sbuf = snd;
        rbuf = Buffer.init rcv rcv_len;
        retries = g.retries;
        resyncs = 3;
        send_seq = g.ns;
      } in
      let r1 = reply (record r { gbp = record g { ns = 0 } }) s_block [] in
      if is_dead g.state then record r1 { gbp = record r1.gbp { state = resynch } } else r

  unfoldable pub transceive : ℕ → Gbp → dev.State → List ℕ → List ℕ → List ℕ → ℕ → Answer
  unfolding start loop
  transceive rounds g d sdata snd rcv rcv_len =
      if length snd == 0 || ltb 255 (length snd)
      then error g d
      else loop rounds (start g d sdata snd rcv rcv_len)

  -- `gbp_resynchronize`, whose rounds are the retries; the result is whether it went well. What
  -- `ifd_device_flush` does is in the device that is given.
  pub resync_loop : ℕ → Gbp → dev.State → List ℕ → ℕ → Gbp × dev.State × Bool
  resync_loop zero g d block nad = (record g { state = dead }, d, false)
  resync_loop (suc retries) g d block nad =
      let (b1, len) = compute_checksum (store block 0 (nad ∷ s_block ∷ 0 ∷ [])) 3 in
      let got = xcv dev (record g { ns = 0 }) d b1 4 4 in
      let rest = resync_loop retries got.gbp got.device got.block nad in
      let stop : Gbp × dev.State × Bool = (record got.gbp { state = dead }, got.device, false) in
      elim got.count [
        | none ↦ stop
        | some n ↦
            if not (n == 4)
            then stop
            else if not (verify_checksum got.block 4)
            then rest
            else if get_or got.block 1 0 == 0xE0
            then (record got.gbp { state = alive }, got.device, true)
            else rest
      ]

  pub resynchronize : Gbp → dev.State → List ℕ → ℕ → Gbp × dev.State × Bool
  resynchronize g d block nad = resync_loop 3 g d block nad

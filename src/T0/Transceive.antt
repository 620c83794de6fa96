-- ===== src/T0/Transceive.antt =====
-- `t0_xcv` and `t0_transceive` of src/ifd/proto-t0.c.
--
-- `none` stands for a loop that has used up its rounds; T0/Termination has how many are enough.
use openct.Prelude.{ℕ, ◌+◌, ◌-◌, ◌&&◌, ◌||◌, Bool, true, false, not, Option, none, some}
use openct.Prelude.{List, [], ◌∷◌, ◌++◌, ltb, ◌==◌, if◌then◌else◌, get_or, take, length, bit_and}
use openct.Prelude.Memory.{u8, store}
use openct.Buffer.{Buf}
use openct.Buffer
use openct.Driver.{Device}
use openct.Apdu.{Case, case_1, case_2s, case_3s, case_4s, Iso, iso_parse}
use openct.T0.{T0, Phase, idle, sending, receiving, Xfer, send_some, Round, loop, Exchanged, finish}

module _ (dev : Device) where
  unfoldable pub xcv_block : T0 → dev.State → List ℕ → ℕ → List ℕ → ℕ → Exchanged dev
  xcv_block t d sdata slen mem rlen =
      let (d1, failed) = dev.send d (take slen sdata) in
      let (d2, got) = dev.recv d1 rlen t.timeout in
      if failed then record { t0 = t; device = d1; mem = mem; count = none } else elim got [
        | none ↦ record { t0 = t; device = d2; mem = mem; count = none }
        | some xs ↦ record { t0 = t; device = d2; mem = store mem 0 xs; count = some (length xs) }
      ]

  unfoldable pub xcv_start : T0 → dev.State → List ℕ → ℕ → List ℕ → ℕ → Xfer dev
  xcv_start t d sdata slen mem rlen = record {
    t0 = t;
    device = d;
    sbuf = Buffer.set sdata slen;
    rbuf = Buffer.init mem rlen;
    null_count = 0;
  }

  unfoldable pub xcv : ℕ → T0 → dev.State → List ℕ → ℕ → List ℕ → ℕ → Option (Exchanged dev)
  unfolding xcv_block xcv_start
  xcv fuel t d sdata slen mem rlen =
      let (x, sent) = send_some dev (xcv_start t d sdata slen mem rlen) (some 5) in
      if not (t.block_oriented == 0)
      then some (xcv_block t d sdata slen mem rlen)
      else if sent
      then finish dev (loop dev fuel (get_or sdata 1 0) x)
      else finish dev (Round.failed x)

  -- The command as it goes out: with an Lc of zero, as it is, or without its Le.
  abbrev pub command : Case → List ℕ → ℕ → List ℕ × ℕ
  command case_1 sbuf slen = (take 4 sbuf ++ 0 ∷ [], 5)
  command case_2s sbuf slen = (sbuf, slen)
  command case_3s sbuf slen = (sbuf, slen)
  command case_4s sbuf slen = (sbuf, slen - 1)

  -- `done:`
  unfoldable pub leave : Exchanged dev → Exchanged dev
  leave e = record e { t0 = record e.t0 { state = idle } }

  abbrev pub is_case_4 : Case → Bool
  is_case_4 case_4s = true
  is_case_4 _ = false

  -- The length that GET RESPONSE asks for.
  abbrev pub response_len : ℕ → List ℕ → ℕ
  response_len le mem =
      if get_or mem 0 0 == 0x61 && not (get_or mem 1 0 == 0) && ltb (get_or mem 1 0) le
      then get_or mem 1 0
      else le

  unfoldable pub get_response : ℕ → Iso → Exchanged dev → Option (Exchanged dev)
  unfolding leave
  get_response fuel iso e =
      let le = response_len iso.le e.mem in
      let t = record e.t0 { state = receiving } in
      let ask = iso.cla ∷ 0xC0 ∷ 0 ∷ 0 ∷ u8 le ∷ [] in
      elim (xcv fuel t e.device ask 5 e.mem (le + 2)) [ none ↦ none | some e' ↦ some (leave e') ]

  -- What follows the exchange of a command with data.
  unfoldable pub after_data : ℕ → Iso → Exchanged dev → Option (Exchanged dev)
  unfolding leave get_response
  after_data fuel iso e = elim e.count [
    | none ↦ some e
    | some n ↦
        if ltb 2 n
        then some (leave e)
        else if not (n == 2)
        then some (record e { count = none })
        else if not (is_case_4 iso.cse)
        then some (leave e)
        else if not (get_or e.mem 0 0 == 0x61) && bit_and (get_or e.mem 0 0) 0xF0 == 0x60
        then some (leave e)
        else get_response fuel iso e
  ]

  -- The command once it has been taken apart.
  unfoldable pub exchange :
      ℕ → T0 → dev.State → Iso → List ℕ → ℕ → List ℕ → ℕ → Option (Exchanged dev)
  unfolding after_data
  exchange fuel t d iso sbuf slen mem rlen =
      let (out, n) = command iso.cse sbuf slen in
      if iso.lc == 0
      then elim (xcv fuel (record t { state = receiving }) d out n mem (iso.le + 2)) [
        | none ↦ none
        | some e ↦ some (leave e)
      ]
      else elim (xcv fuel (record t { state = sending }) d out n mem rlen) [
        | none ↦ none
        | some e ↦ after_data fuel iso e
      ]

  abbrev pub is_idle : Phase → Bool
  is_idle idle = true
  is_idle _ = false

  -- `t0_resynch` always fails, so a state other than IDLE ends the exchange.
  unfoldable pub transceive : ℕ → T0 → dev.State → List ℕ → ℕ → List ℕ → ℕ → Option (Exchanged dev)
  unfolding exchange
  transceive fuel t d sbuf slen mem rlen =
      let refused : Exchanged dev = record { t0 = t; device = d; mem = mem; count = none } in
      if not (is_idle t.state)
      then some refused
      else if ltb slen 4 || ltb rlen 2
      then some refused
      else elim (iso_parse sbuf slen) [
        | none ↦ some refused
        | some iso ↦ exchange fuel t d iso sbuf slen mem rlen
      ]

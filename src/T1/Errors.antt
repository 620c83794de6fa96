-- ===== src/T1/Errors.antt =====
-- Errors of `t1_transceive` in src/ifd/proto-t1.c: they leave the protocol dead, and a dead protocol
-- does not touch the device.
use openct.Prelude.{ℕ, zero, suc, ◌≡◌, ◌≢◌, refl, arith, false}
use openct.Prelude.{none, some, List, length, ◌==◌, bit_or, Bool-cases, inl, inr}
use openct.Prelude.{Option-cases}
use openct.Prelude.{get_or}
use openct.Prelude.Memory.{add32, sub32}
use openct.Prelude.{◌-◌, ◌^◌}
use openct.T1.{r_block, edc_error, seq, buffer_size, T1, Phase, dead}
use openct.T1.Line.{Device, Received, xcv}
use openct.T1.{verify_checksum}
use openct.T1.Transceive.{is_sending, Run, Next, reply, fail, resync, splendid, acknowledge}
use openct.T1.Transceive.{on_r_block, on_i_block, on_s_block, on_block, on_bad_checksum}
use openct.T1.Transceive.{step, loop, start, transceive, Answer}

module _ (dev : Device) where
  -- The phase in which a round fails; `dead` for one that does not.
  abbrev end_phase : Next dev → Phase
  end_phase (Next.again r) = dead
  end_phase (Next.finished r) = dead
  end_phase (Next.failed r) = r.t1.state

  resync-dead : (r : Run dev) → end_phase (resync dev r) ≡ dead
  unfolding resync fail
  resync-dead r = ground arith

  on_r_block-dead : (r : Run dev) (pcb : ℕ) → end_phase (on_r_block dev r pcb) ≡ dead
  unfolding on_r_block splendid
  on_r_block-dead r pcb = elim (Bool-cases (seq pcb == r.t1.ns)) [
    | inl e ↦ ground (arith, e, resync-dead r)
    | inr e ↦ ground (
      arith,
      e,
      resync-dead r,
      resync-dead (record (acknowledge dev r) { sent_length = add32 r.sent_length r.last_send }),
    )
  ]

  on_i_block-dead : (r : Run dev) (pcb : ℕ) → end_phase (on_i_block dev r pcb) ≡ dead
  unfolding on_i_block splendid fail
  on_i_block-dead r pcb = elim (Bool-cases (is_sending dev r.t1.state)) [
    | inl e ↦ ground (arith, e)
    | inr e ↦ ground (arith, e)
  ]

  on_s_block-dead : (r : Run dev) (pcb : ℕ) → end_phase (on_s_block dev r pcb) ≡ dead
  unfolding on_s_block splendid
  on_s_block-dead r pcb = ground (arith, resync-dead r)

  on_block-dead : (r : Run dev) → end_phase (on_block dev r) ≡ dead
  unfolding on_block
  on_block-dead r =
      let pcb = get_or r.sdata 1 0 in
      ground (arith, on_r_block-dead r pcb, on_i_block-dead r pcb, on_s_block-dead r pcb)

  on_bad_checksum-dead : (r : Run dev) → end_phase (on_bad_checksum dev r) ≡ dead
  unfolding on_bad_checksum
  on_bad_checksum-dead r = ground (arith, resync-dead r)

  step-dead : (r : Run dev) → end_phase (step dev r) ≡ dead
  unfolding step fail
  step-dead r =
      let got = xcv dev r.t1 r.device r.sdata r.slen buffer_size in
      let r1 : Run dev = record r {
        retries = sub32 r.retries 1;
        t1 = got.t1;
        device = got.device;
        sdata = got.block;
      } in
      ground (arith, on_block-dead r1, on_bad_checksum-dead r1)

  loop-dead : (fuel : ℕ) (r : Run dev) → end_phase (loop dev fuel r) ≡ dead
  unfolding loop
  loop-dead zero r = refl
  loop-dead (suc fuel) r = next (step dev r) (step-dead r) (λ r'. loop-dead fuel r')
    where
      next :
          (n : Next dev)
          → end_phase n ≡ dead
          → ((r' : Run dev) → end_phase (loop dev fuel r') ≡ dead)
          → end_phase (elim n [
            | Next.again r' ↦ loop dev fuel r'
            | Next.finished r' ↦ Next.finished r'
            | Next.failed r' ↦ Next.failed r'
          ])
            ≡ dead
      next (Next.again r') d ih = ih r'
      next (Next.finished r') d ih = refl
      next (Next.failed r') d ih = d

  start-none :
      (t : T1) (d : dev.State) (sdata : List ℕ) (dad : ℕ) (snd mem : List ℕ) (len : ℕ)
      → length snd ≢ 0
      → start dev t d sdata dad snd mem len ≡ none
      → t.state ≡ dead
  unfolding start
  start-none t d sdata dad snd mem len ne e = ground (arith, e)

  start-dead :
      (t : T1) (d : dev.State) (sdata : List ℕ) (dad : ℕ) (snd mem : List ℕ) (len : ℕ)
      → t.state ≡ dead
      → start dev t d sdata dad snd mem len ≡ none
  unfolding start
  start-dead t d sdata dad snd mem len e = ground (arith, e)

  transceive-dead :
      (fuel : ℕ) (t : T1) (d : dev.State) (sdata : List ℕ) (dad : ℕ) (snd mem : List ℕ) (len : ℕ)
      → t.state ≡ dead
      → transceive dev fuel t d sdata dad snd mem len ≡ (t, d, Answer.error)
  unfolding transceive
  transceive-dead fuel t d sdata dad snd mem len e =
      ground (arith, start-dead t d sdata dad snd mem len e)

  transceive-error :
      (fuel : ℕ) (t t' : T1) (d d' : dev.State) (sdata : List ℕ) (dad : ℕ) (snd mem : List ℕ)
      (len : ℕ)
      → length snd ≢ 0
      → transceive dev fuel t d sdata dad snd mem len ≡ (t', d', Answer.error)
      → t'.state ≡ dead
  unfolding transceive
  transceive-error fuel t t' d d' sdata dad snd mem len ne e =
      elim (Option-cases (start dev t d sdata dad snd mem len)) [
        | inl n ↦ ground (arith, e, n, start-none t d sdata dad snd mem len ne n)
        | inr (r, s) ↦ ground (arith, e, s, loop-dead fuel r)
      ]

  -- An exchange that ends with an error, however far it came, leaves the protocol dead; and then
  -- every later exchange is refused at once: neither the device nor the state changes any more.
  pub errors_are_final :
      (fuel : ℕ) (t t' : T1) (d d' : dev.State) (sdata : List ℕ) (dad : ℕ) (snd mem : List ℕ)
      (len : ℕ) (fuel2 : ℕ) (sdata2 : List ℕ) (dad2 : ℕ) (snd2 mem2 : List ℕ) (len2 : ℕ)
      → length snd ≢ 0
      → transceive dev fuel t d sdata dad snd mem len ≡ (t', d', Answer.error)
      → (t'.state ≡ dead)
        × (transceive dev fuel2 t' d' sdata2 dad2 snd2 mem2 len2 ≡ (t', d', Answer.error))
  errors_are_final fuel t t' d d' sdata dad snd mem len fuel2 sdata2 dad2 snd2 mem2 len2 ne e =
      let final = transceive-error fuel t t' d d' sdata dad snd mem len ne e in
      (final, transceive-dead fuel2 t' d' sdata2 dad2 snd2 mem2 len2 final)

  -- With no retry left, a garbled answer while nothing is acknowledged makes the counter wrap: the
  -- loop goes on with 2 ^ 32 - 1 retries, where the code means to give up.
  pub retries_wrap :
      (r : Run dev) (n : ℕ)
      → r.retries ≡ 0
      → r.sent_length ≡ 0
      → (xcv dev r.t1 r.device r.sdata r.slen buffer_size).count ≡ some n
      → verify_checksum
          (xcv dev r.t1 r.device r.sdata r.slen buffer_size).t1
          (xcv dev r.t1 r.device r.sdata r.slen buffer_size).block
          n
        ≡ false
      → (r' : Run dev) × (step dev r ≡ Next.again r') × (r'.retries ≡ 2 ^ 32 - 1)
  unfolding step on_bad_checksum reply
  retries_wrap r n z s c v = (
    reply dev
        (record r {
          retries = sub32 r.retries 1;
          t1 = got.t1;
          device = got.device;
          sdata = got.block;
        })
        (bit_or r_block edc_error) none,
    ground (arith, z, s, c, v),
    omega (arith, z),
  )
    where
      got : Received dev
      got = xcv dev r.t1 r.device r.sdata r.slen buffer_size

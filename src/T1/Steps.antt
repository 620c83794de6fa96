-- ===== src/T1/Steps.antt =====
-- What a round of `t1_transceive` in src/ifd/proto-t1.c does to the state: sequence numbers and the
-- response.
use openct.Prelude.{ℕ, ◌≡◌, ◌≢◌, refl, ◌∙◌, arith}
use openct.Prelude.{bit_and, bit_or, bit_xor, none, some}
use openct.Prelude.{get_or, ◌==◌, if◌then◌else◌, Bool-cases, inl, inr}
use openct.Prelude.Memory.{load}
use openct.Buffer.{Buf, Source, avail, contents}
use openct.Buffer
use openct.T1.{receiving}
use openct.T1.Line.{Device}
use openct.T1.{seq, more_blocks}
use openct.T1.{r_block, other_error}
use openct.T1.Transceive.{Run, Next, reply, splendid, acknowledge}
use openct.T1.Transceive.{on_i_block}
use openct.T1.Transceive.{is_sending}

module _ (dev : Device) where
  -- The run that goes on or ends after a round.
  abbrev pub run_of : Next dev → Run dev
  run_of (Next.again r) = r
  run_of (Next.finished r) = r
  run_of (Next.failed r) = r

  -- An I block that does not carry the expected number adds nothing to the response, and the same
  -- number is expected again.
  pub wrong_number_ignored :
      (r : Run dev) (pcb : ℕ)
      → seq pcb ≢ r.t1.nr
      → (r' : Run dev) × (on_i_block dev r pcb ≡ Next.again r')
        × (r'.rbuf ≡ r.rbuf)
        × (r'.t1.nr ≡ r.t1.nr)
        × (r'.t1.state ≡ receiving)
  unfolding on_i_block reply acknowledge
  wrong_number_ignored r pcb ne = elim (Bool-cases (is_sending dev r.t1.state)) [
    | inl s ↦ (
      reply dev
          (record (acknowledge dev r) { t1 = record (acknowledge dev r).t1 { state = receiving } })
          (bit_or r_block other_error) none,
      ground (arith, s),
      refl,
      refl,
      refl,
    )
    | inr s ↦ (
      reply dev (record r { t1 = record r.t1 { state = receiving } }) (bit_or r_block other_error)
          none,
      ground (arith, s),
      refl,
      refl,
      refl,
    )
  ]

  -- The run with the data of a received I block in the response.
  abbrev taken : Run dev → Buf → Run dev
  taken r rbuf =
      let r1 = if is_sending dev r.t1.state then acknowledge dev r else r in
      let r2 = record r1 { t1 = record r1.t1 { state = receiving } } in
      let r3 = record r2 { t1 = record r2.t1 { nr = bit_xor r2.t1.nr 1 } } in
      record r3 { rbuf = rbuf }

  taken-fields :
      (r : Run dev) (rbuf : Buf)
      → ((taken r rbuf).rbuf ≡ rbuf)
        × ((taken r rbuf).t1.nr ≡ bit_xor r.t1.nr 1)
        × ((taken r rbuf).t1.state ≡ receiving)
  unfolding acknowledge
  taken-fields r rbuf = elim (Bool-cases (is_sending dev r.t1.state)) [
    | inl s ↦ (refl, rw s, refl)
    | inr s ↦ (refl, rw s, refl)
  ]

  on_i_block_matched :
      (r : Run dev) (pcb k : ℕ) (rbuf : Buf)
      → seq pcb ≡ r.t1.nr
      → Buffer.put r.rbuf (Source.bytes (load r.sdata 3 (get_or r.sdata 2 0))) ≡ (rbuf, some k)
      → on_i_block dev r pcb ≡ (
          if bit_and pcb more_blocks == 0
          then Next.finished (taken r rbuf)
          else splendid dev (reply dev (taken r rbuf) r_block none))
  unfolding on_i_block acknowledge
  on_i_block_matched r pcb k rbuf e stored = elim (Bool-cases (is_sending dev r.t1.state)) [
    | inl s ↦ ground (arith, s, stored)
    | inr s ↦ ground (arith, s, stored)
  ]

  -- An I block with the expected number whose data fit goes to the end of the response, and flips
  -- the number that is expected next. The exchange is over if the block announces no other, and
  -- else goes on, with all retries.
  pub right_number_taken :
      (r : Run dev) (pcb k : ℕ) (rbuf : Buf)
      → seq pcb ≡ r.t1.nr
      → Buffer.put r.rbuf (Source.bytes (load r.sdata 3 (get_or r.sdata 2 0))) ≡ (rbuf, some k)
      → (r' : Run dev) × (on_i_block dev r pcb
          ≡ (if bit_and pcb more_blocks == 0 then Next.finished r' else Next.again r'))
        × (r'.rbuf ≡ rbuf)
        × (r'.t1.nr ≡ bit_xor r.t1.nr 1)
        × (r'.t1.state ≡ receiving)
  right_number_taken r pcb k rbuf e stored = elim (Bool-cases (bit_and pcb more_blocks == 0)) [
    | inl last ↦
        let f = taken-fields r rbuf in
        (taken r rbuf, on_i_block_matched r pcb k rbuf e stored ∙ rw last, f.0, f.1, f.2)
    | inr more ↦
        let f = taken-fields r rbuf in
        (
          record (reply dev (taken r rbuf) r_block none) { retries = (taken r rbuf).t1.retries },
          on_i_block_matched r pcb k rbuf e stored ∙ rw more (unfold splendid reply in refl),
          unfold reply in f.0,
          unfold reply in f.1,
          unfold reply in f.2,
        )
  ]

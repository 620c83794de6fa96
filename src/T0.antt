-- ===== src/T0.antt =====
-- The T=0 protocol of src/ifd/proto-t0.c: the state, and the exchange of one command.
--
-- `t0_state_t` is `T0`. A negative result, whichever it is, is `none`. A driver that succeeds in
-- receiving one byte delivers it.
mod Runs
pub mod Transceive
pub mod Termination
pub mod Total
pub mod Receive
use openct.Prelude.{
  ℕ, zero, suc, ◌+◌, ◌-◌, Bool, true, false, not, ◌||◌, Option, none, some, List, [], ◌∷◌,
}
use openct.Prelude.{ltb, ◌==◌, if◌then◌else◌, get_or, bit_and, bit_xor}
use openct.Prelude.Memory.{u8, u32, store, load}
use openct.Buffer.{Buf, Source, avail, tailroom, contents}
use openct.Buffer
use openct.Driver.{Device}

pub data Phase : Type 0 where
  idle sending receiving confused : Phase

pub record T0 : Type 0 where
  pub state : Phase
  pub timeout : ℕ
  pub block_oriented : ℕ
  pub max_nulls : ℕ

pub set_defaults : T0 → T0
set_defaults t = record t { state = idle; timeout = 2000; max_nulls = 800 }

-- The parameters that `t0_set_param` and `t0_get_param` know; a timeout is not negative.
pub data Param : Type 0 where
  recv_timeout block_oriented : Param
  other : ℕ → Param

pub set_param : T0 → Param → ℕ → Option T0
set_param t recv_timeout v = some (record t { timeout = v })
set_param t block_oriented v = some (record t { block_oriented = u32 v })
set_param t (other type) v = none

pub get_param : T0 → Param → Option ℕ
get_param t recv_timeout = some t.timeout
get_param t block_oriented = some t.block_oriented
get_param t (other type) = none

module _ (dev : Device) where
  -- The local variables of `t0_xcv`, with the protocol's state and the device.
  pub record Xfer : Type 0 where
    pub t0 : T0
    pub device : dev.State
    pub sbuf : Buf
    pub rbuf : Buf
    pub null_count : ℕ

  -- `t0_send`; no count is -1. The test is whether it went well.
  pub send_some : Xfer → Option ℕ → Xfer × Bool
  send_some x count =
      let n = elim count as (λ _. ℕ) [ none ↦ avail x.sbuf | some k ↦ k ] in
      let (d, failed) = dev.send x.device (load x.sbuf.base x.sbuf.head n) in
      if ltb (avail x.sbuf) n || avail x.sbuf == 0
      then (x, false)
      else if failed
      then (record x { device = d }, false)
      else (record x { device = d; sbuf = (Buffer.get x.sbuf n).0 }, true)

  -- `t0_recv`: the bytes go behind the data, which grow by the count asked for.
  pub recv_some : Xfer → Option ℕ → Xfer × Bool
  recv_some x count =
      let n = elim count as (λ _. ℕ) [ none ↦ tailroom x.rbuf | some k ↦ k ] in
      let (d, got) = dev.recv x.device n x.t0.timeout in
      elim got [
        | none ↦ (record x { device = d }, false)
        | some xs ↦
            let b = record x.rbuf { base = store x.rbuf.base x.rbuf.tail xs } in
            (record x { device = d; rbuf = (Buffer.put b (Source.null n)).0 }, true)
      ]

  -- How a round of the loop ends: `continue` or the end of its body; `break`; `goto failed`;
  -- `return -1`.
  pub data Round : Type 0 where
    again : Xfer → Round
    done : Xfer → Round
    failed : Xfer → Round
    unexpected : Xfer → Round

  abbrev pub is_sending : Phase → Bool
  is_sending sending = true
  is_sending _ = false

  -- The status bytes.
  pub on_status : Xfer → ℕ → Round
  unfolding recv_some
  on_status x byte =
      let (b, stored) = Buffer.put x.rbuf (Source.bytes (byte ∷ [])) in
      let x1 = record x { rbuf = b } in
      let (x2, went) = recv_some x1 (some 1) in
      elim stored [ none ↦ failed x1 | some _ ↦ if went then done x2 else failed x2 ]

  -- The data that a procedure byte asks for, or announces.
  pub on_data : Xfer → Option ℕ → Round
  unfolding send_some recv_some
  on_data x count =
      let (xs, sent) = send_some x count in
      let (xr, came) = recv_some x count in
      if is_sending x.t0.state
      then (if sent then again xs else failed xs)
      else if not came
      then failed xr
      else if tailroom xr.rbuf == 0
      then done xr
      else again xr

  -- What comes after a null byte, a status byte, and a procedure byte for the instruction.
  pub on_byte : Xfer → ℕ → ℕ → Round
  unfolding on_status on_data
  on_byte x ins byte =
      let x1 = record x { null_count = u32 (x.null_count + 1) } in
      if byte == 0x60
      then (if ltb x.t0.max_nulls (u32 (x.null_count + 1)) then failed x1 else again x1)
      else if bit_and byte 0xF0 == 0x60 || bit_and byte 0xF0 == 0x90
      then on_status x byte
      else if bit_and (bit_xor byte ins) 0xFE == 0
      then on_data x none
      else if bit_and (bit_xor (255 - byte) ins) 0xFE == 0
      then on_data x (some 1)
      else unexpected x

  pub round : Xfer → ℕ → Round
  unfolding on_byte
  round x ins =
      let (d, got) = dev.recv x.device 1 x.t0.timeout in
      let x1 = record x { device = d } in
      elim got [ none ↦ failed x1 | some xs ↦ on_byte x1 ins (get_or xs 0 0) ]

  -- The loop, in so many rounds; `again` where they are used up.
  pub loop : ℕ → ℕ → Xfer → Round
  loop zero ins x = again x
  loop (suc fuel) ins x = elim (round x ins) [
    | again x' ↦ loop fuel ins x'
    | done x' ↦ done x'
    | failed x' ↦ failed x'
    | unexpected x' ↦ unexpected x'
  ]

  -- What `t0_xcv` leaves: the state, the device, the array of the response, and how many bytes of it
  -- count; none for a negative result.
  pub record Exchanged : Type 0 where
    pub t0 : T0
    pub device : dev.State
    pub mem : List ℕ
    pub count : Option ℕ

  -- The end of the loop.
  pub finish : Round → Option Exchanged
  finish (again x) = none
  finish (done x) =
      some (record { t0 = x.t0; device = x.device; mem = x.rbuf.base; count = some (avail x.rbuf) })
  finish (failed x) = some (record {
    t0 = record x.t0 { state = confused };
    device = x.device;
    mem = x.rbuf.base;
    count = none;
  })
  finish (unexpected x) =
      some (record { t0 = x.t0; device = x.device; mem = x.rbuf.base; count = none })

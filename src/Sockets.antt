-- ===== src/Sockets.antt =====
-- The sockets of src/ct/socket.c: packets of a header and data, through a buffer for each direction.
--
-- What the socket takes from the operating system is the record `Os`, and how a header lies in memory,
-- with ntohs(3), the record `Abi`. A result of none is a loop that has not ended in the rounds given:
-- `flsbuf` writes again as long as write(2) takes nothing. `all == 2` of `ct_socket_flsbuf`, which nothing
-- calls, is left out.
pub mod Calls
pub mod Pipe
pub mod Packets
pub mod Sent
pub mod Put
pub mod Feed
pub mod Filled
pub mod Answers
pub mod Served
pub mod Drained
pub mod Coming
pub mod Answered
pub mod Replied
mod Runs
use openct.Prelude.{
  ℕ, zero, suc, ◌+◌, ◌^◌, ◌%◌, ◌≤◌, ◌<◌, ◌≡◌, Bool, true, false, Option, none, some, List, [], ◌∷◌,
  length, take,
}
use openct.Prelude.{ltb, ◌==◌, if◌then◌else◌, not, ◌&&◌}
use openct.Prelude.Memory.{store}
use openct.Prelude.Outcome.{Error, Outcome, ok, err}
use openct.Buffer.{Buf, Source, set, compact, contents, avail, tailroom, get, put}

-- `header_t`; `error` as the 16 bits of it.
pub record Header : Type 0 where
  pub xid : ℕ
  pub dest : ℕ
  pub error : ℕ
  pub count : ℕ

-- `sizeof(header_t)`, its bytes, and `ntohs`.
pub record Abi : Type 0 where
  pub header_size : ℕ
  pub pack : Header → List ℕ
  pub unpack : List ℕ → Header
  pub ntohs : ℕ → ℕ

-- The system calls on the descriptor. `read` gives at most so many bytes, none for an error, and no
-- bytes at the end; `write` says how many bytes it took; `poll` whether there is something before the
-- time is over.
pub record Os : Type 1 where
  pub World : Type 0
  pub read : World → ℕ → World × Option (List ℕ)
  pub write : World → List ℕ → World × Option ℕ
  pub poll : World → ℕ → World × Bool

pub record Sock : Type 0 where
  pub rbuf : Buf
  pub sbuf : Buf
  pub eof : Bool
  pub network : Bool
  pub events : ℕ

-- `POLLIN` and `POLLOUT`
abbrev pub poll_in : ℕ
poll_in = 1

abbrev pub poll_out : ℕ
poll_out = 4

-- What `ct_socket_get_packet` finds: 0, -1, or a packet.
pub data Got : Type 0 where
  incomplete : Got
  too_large : Got
  packet : Header → Buf → Got

module _ (abi : Abi) where
  -- A header on the wire.
  abbrev pub wire : Bool → Header → Header
  wire network h =
      if network then record h { error = abi.ntohs h.error; count = abi.ntohs h.count } else h

  unfoldable pub get_packet : Sock → Sock × Got
  get_packet s =
      let n = avail s.rbuf in
      let th = wire s.network (abi.unpack (take abi.header_size (contents s.rbuf))) in
      let b1 = (get s.rbuf abi.header_size).0 in
      if ltb n abi.header_size
      then (s, incomplete)
      else if not (ltb n (abi.header_size + th.count))
      then (
        record s { rbuf = (get b1 th.count).0 },
        packet th (set (take th.count (contents b1)) th.count),
      )
      else if ltb s.rbuf.size (abi.header_size + th.count)
      then (s, too_large)
      else (s, incomplete)

module _ (os : Os) where
  -- The result: whether the socket works.
  unfoldable pub flsbuf : ℕ → os.World → Sock → Bool → Option (os.World × Sock × Outcome (Unit {0}))
  flsbuf zero w s all = none
  flsbuf (suc rounds) w s all =
      if avail s.sbuf == 0
      then some (w, record s { events = poll_in }, ok tt)
      else (let (w1, taken) = os.write w (contents s.sbuf) in
          elim taken [
            | none ↦ some (w1, s, err Error.not_connected)
            | some n ↦
                let s1 = record s { sbuf = (get s.sbuf n).0 } in
                let rest = flsbuf rounds w1 s1 all in if all then rest else some (w1, s1, ok tt)
          ])

  -- The bytes read, or an error; 0 bytes is the end of the stream, which is an error the second time.
  unfoldable pub fill : os.World → Sock → os.World × Sock × Outcome ℕ
  fill w s =
      let (w1, got) = os.read w (tailroom s.rbuf) in
      elim got [
        | none ↦ (w1, s, err Error.generic)
        | some bs ↦
            let written = record s.rbuf { base = store s.rbuf.base s.rbuf.tail bs } in
            if length bs == 0
            then (if s.eof then (w1, s, err Error.generic) else (w1, record s { eof = true }, ok 0))
            else (w1, record s { rbuf = (put written (Source.null (length bs))).0 }, ok (length bs))
      ]

  -- A timeout of none is a negative one.
  unfoldable pub filbuf : os.World → Sock → Option ℕ → os.World × Sock × Outcome ℕ
  unfolding fill
  filbuf w s timeout =
      let s1 = if tailroom s.rbuf == 0 then record s { rbuf = compact s.rbuf } else s in
      if tailroom s1.rbuf == 0 then (w, s1, err Error.generic) else elim timeout [
        | none ↦ fill w s1
        | some t ↦
            let (w1, ready) = os.poll w t in
            if ready then fill w1 s1 else (w1, s1, err Error.timeout)
      ]

module _ (abi : Abi) (os : Os) where
  -- The packet behind what is in the buffer, with its `count` set.
  unfoldable pub push_packet : Sock → Header → List ℕ → Sock
  push_packet s hdr bytes =
      let h = record hdr { count = length bytes % 2 ^ 16 } in
      let b1 = (put s.sbuf (Source.bytes (abi.pack (wire abi s.network h)))).0 in
      let b2 = if h.count == 0 then b1 else (put b1 (Source.bytes (take h.count bytes))).0 in
      record s { sbuf = b2; events = poll_out }

  -- `ct_socket_put_packet` with data.
  unfoldable pub put_packet :
      ℕ → os.World → Sock → Header → Buf → Option (os.World × Sock × Outcome (Unit {0}))
  unfolding push_packet
  put_packet rounds w s hdr packed =
      let count = abi.header_size + avail packed in
      if not (ltb (tailroom s.sbuf) count)
      then some (w, push_packet s hdr (contents packed), ok tt)
      else elim (flsbuf os rounds w s true) [
        | none ↦ none
        | some (w1, s1, rc) ↦ elim rc [
          | err e ↦ some (w1, s1, err e)
          | ok _ ↦
              let s2 = record s1 { sbuf = compact s1.sbuf } in
              if ltb (tailroom s2.sbuf) count
              then some (w1, s2, err Error.buffer_too_small)
              else some (w1, push_packet s2 hdr (contents packed), ok tt)
        ]
      ]

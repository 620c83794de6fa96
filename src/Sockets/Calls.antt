-- ===== src/Sockets/Calls.antt =====
-- Requests over the sockets of src/ct/socket.c: `ct_socket_call`, and the two handlers that the main loop
-- calls, `ct_socket_default_recv_cb` and `ct_socket_default_send_cb`.
use openct.Prelude.{
  ℕ, zero, suc, ◌+◌, ◌^◌, ◌%◌, Bool, true, false, Option, none, some, List, ltb, ◌==◌,
  if◌then◌else◌, not,
}
use openct.Prelude.Outcome.{Error, Outcome, ok, err}
use openct.Buffer.{Buf, Source, init, clear, compact, contents, avail, tailroom, put}
use openct.Sockets.{Header, Abi, Os, Sock, get_packet, filbuf, flsbuf, put_packet}
use openct.Sockets.Got.{incomplete, too_large, packet}

-- What a call comes to: an error of the socket, the error in the header of the reply, or a reply.
pub data Called : Type 0 where
  failed : Error → Called
  refused : ℕ → Called
  replied : ℕ → Called

-- `ifd_xid++`, and once more where that was 0: the next value, and the number of this call.
abbrev pub next_xid : ℕ → ℕ × ℕ
next_xid n = if n == 0 then (2, 1) else ((n + 1) % 2 ^ 32, n)

module _ (abi : Abi) (os : Os) where
  -- The reply with its number, taken over into the caller's buffer.
  unfoldable pub take_reply : Buf → Header → Buf → Buf × Called
  take_reply resp h packed =
      if not (h.error == 0)
      then (resp, refused h.error)
      else if ltb (tailroom resp) (avail packed)
      then (resp, failed Error.buffer_too_small)
      else ((put resp (Source.bytes (contents packed))).0, replied h.count)

  abbrev pub refill : os.World → Sock → Bool → os.World × Sock × Outcome ℕ
  refill w s fill = if fill then filbuf os w s none else (w, s, ok 0)

  -- Packets are looked at until one has the number `xid`; `fill` says that there is none in the buffer.
  unfoldable pub wait :
      ℕ → os.World → Sock → Bool → ℕ → Buf → Option (os.World × Sock × Buf × Called)
  unfolding take_reply
  wait zero w s fill xid resp = none
  wait (suc rounds) w s fill xid resp =
      let (w1, s1, rc) = refill w s fill in
      let (s2, got) = get_packet abi s1 in
      elim rc [
        | err e ↦ some (w1, s1, resp, failed Error.generic)
        | ok n ↦ elim got [
          | incomplete ↦ wait rounds w1 s2 true xid (clear resp)
          | too_large ↦ some (w1, s2, clear resp, failed Error.generic)
          | packet h packed ↦
              let rest = wait rounds w1 s2 false xid (clear resp) in
              let (b, c) = take_reply (clear resp) h packed in
              if h.xid == xid then some (w1, s2, b, c) else rest
        ]
      ]

  -- `ct_socket_call` with a buffer for the response.
  unfoldable pub call :
      ℕ → os.World → Sock → ℕ → Buf → Buf → Option (os.World × Sock × ℕ × Buf × Called)
  unfolding wait
  call rounds w s ifd_xid args resp =
      let (ifd_xid', xid) = next_xid ifd_xid in
      let s1 = record s { sbuf = compact s.sbuf } in
      let hdr : Header = record { xid = xid; dest = 0; error = 0; count = avail args % 2 ^ 16 } in
      elim (put_packet abi os rounds w s1 hdr args) [
        | none ↦ none
        | some (w2, s2, rc) ↦ elim rc [
          | err e ↦ some (w2, s2, ifd_xid', resp, failed e)
          | ok _ ↦ elim (flsbuf os rounds w2 s2 true) [
            | none ↦ none
            | some (w3, s3, rc') ↦ elim rc' [
              | err e ↦ some (w3, s3, ifd_xid', resp, failed e)
              | ok _ ↦ elim (wait rounds w3 s3 true xid resp) [
                | none ↦ none
                | some (w4, s4, b, c) ↦ some (w4, s4, ifd_xid', b, c)
              ]
            ]
          ]
        ]
      ]

  -- What `sock->process` does to a request: the header, the response, and whether it went well.
  abbrev pub Process : Type 0
  Process = os.World → Header → Buf → Buf → os.World × Header × Buf × Bool

  -- One request, with the array on the stack that takes the response.
  unfoldable pub answer :
      Process
      → ℕ
      → List ℕ
      → os.World
      → Sock
      → Header
      → Buf
      → Option (os.World × Sock × Outcome (Unit {0}))
  answer process rounds array w s h args =
      let (w1, h1, resp, fine) = process w h args (init array (4096 + 64)) in
      if h1.xid == 0
      then some (w1, s, ok tt)
      else if fine
      then put_packet abi os rounds w1 s (record h1 { error = 0; dest = 1 }) resp
      else if not (h1.dest == 0)
      then some (w1, s, ok tt)
      else put_packet abi os rounds w1 s (record h1 { dest = 1 }) (clear resp)

  -- The packets in the buffer. `process` of none is the null pointer.
  unfoldable pub answer_packets :
      Option Process
      → ℕ
      → List ℕ
      → ℕ
      → os.World
      → Sock
      → Option (os.World × Sock × Outcome (Unit {0}))
  unfolding answer
  answer_packets process rounds array zero w s = none
  answer_packets process rounds array (suc k) w s =
      if avail s.rbuf == 0
      then some (w, s, ok tt)
      else (let (s1, got) = get_packet abi s in
          elim got [
            | incomplete ↦ some (w, s1, ok tt)
            | too_large ↦ some (w, s1, ok tt)
            | packet h args ↦ elim process [
              | none ↦ answer_packets none rounds array k w s1
              | some p ↦ elim (answer p rounds array w s1 h args) [
                | none ↦ none
                | some (w2, s2, rc) ↦ elim rc [
                  | err e ↦ some (w2, s2, err e)
                  | ok _ ↦ answer_packets (some p) rounds array k w2 s2
                ]
              ]
            ]
          ])

  unfoldable pub recv_cb :
      Option Process
      → ℕ
      → List ℕ
      → ℕ
      → os.World
      → Sock
      → Option (os.World × Sock × Outcome (Unit {0}))
  unfolding answer_packets
  recv_cb process rounds array packets w s =
      let (w1, s1, rc) = filbuf os w s none in
      elim rc [
        | err e ↦ some (w1, s1, err Error.generic)
        | ok n ↦
            let rest = answer_packets process rounds array packets w1 s1 in
            if n == 0 then some (w1, s1, err Error.generic) else rest
      ]

  pub send_cb : ℕ → os.World → Sock → Option (os.World × Sock × Outcome (Unit {0}))
  send_cb rounds w s = flsbuf os rounds w s false

-- ===== src/Sockets/Replied.antt =====
-- A request and its reply: `ct_socket_call` of src/ct/socket.c from end to end.
use openct.Prelude.{
  ℕ, ◌+◌, ◌^◌, ◌%◌, ◌≤◌, ◌<◌, ◌≡◌, refl, ap, ◌∙◌, arith, true, some, List, [], ◌++◌, length,
}
use openct.Prelude.Outcome.{ok}
use openct.Buffer.{Buf, contents, clear, compact, avail}
use openct.Buffer.Inv.{IsValid, length-contents, clear-IsValid, compact-IsValid}
use openct.Buffer.Append.{grown, put_fits, contents-grown}
use openct.Buffer.Refine.{compact_lem, contents-compact}
use openct.Sockets.{Header, Abi, Sock, Os, poll_in, poll_out, put_packet, flsbuf}
use openct.Sockets.Calls.{Called, wait, take_reply, next_xid, call}
use openct.Sockets.Pipe.{Stream, pipe, IsAbi, Packet, frame, joined}
use openct.Sockets.Sent.{Flushed, flsbuf_lem}
use openct.Sockets.Put.{Put, put_packet_lem}
use openct.Sockets.Coming.{NoneWith, Coming}
use openct.Sockets.Answered.{Heard, enough_rounds, wait_lem}

-- The request that `call` sends.
abbrev pub request : ℕ → List ℕ → Packet
request xid bytes = record {
  head = record { xid = xid; dest = 0; error = 0; count = length bytes };
  body = bytes;
}

-- What a call comes to that gets its reply.
pub record Replied {U : Type 0} (abi : Abi) (accept : ℕ → ℕ) (rounds : ℕ) (w : Stream U) (s : Sock)
    (ifd_xid : ℕ) (args resp : Buf) (p : Packet) (later : List ℕ) : Type 0 where
  pub world : Stream U
  pub sock : Sock
  pub response : Buf
  pub result :
      call abi (pipe U accept) rounds w s ifd_xid args resp
      ≡ some (world, sock, (next_xid ifd_xid).0, response, Called.replied p.head.count)
  pub sent :
      world.sent
      ≡ (w.sent ++ contents s.sbuf)
        ++ frame abi s.network (request (next_xid ifd_xid).1 (contents args))
  pub body : contents response ≡ p.body
  pub valid : IsValid sock.rbuf
  pub unread : contents sock.rbuf ++ joined world.incoming ≡ later

abbrev xid_of : ℕ → ℕ
xid_of n = (next_xid n).1

abbrev asked : Sock → Sock
asked s = record s { sbuf = compact s.sbuf }

abbrev request_header : ℕ → Buf → Header
request_header xid args = record { xid = xid; dest = 0; error = 0; count = avail args % 2 ^ 16 }

module _ (abi : Abi) (os : Os) where
  reply_fits :
      (resp : Buf) (h : Header) (args : Buf)
      → IsValid resp
      → IsValid args
      → h.error ≡ 0
      → resp.tail + length (contents args) ≤ resp.size
      → take_reply abi os resp h args ≡ (grown resp (contents args), Called.replied h.count)
  unfolding take_reply
  reply_fits resp h args v v' e fits =
      ground (arith, e, length-contents v', put_fits resp (contents args) v fits)

  taken_over :
      (resp : Buf) (h : Header) (args : Buf)
      → IsValid resp
      → IsValid args
      → h.error ≡ 0
      → length (contents args) ≤ resp.size
      → let r = take_reply abi os (clear resp) h args in
        (r.1 ≡ Called.replied h.count) × (contents r.0 ≡ contents args)
  taken_over resp h args v v' e fits =
      let room : (clear resp).tail + length (contents args) ≤ (clear resp).size =
        unfold clear in omega arith in
      let same = reply_fits (clear resp) h args (clear-IsValid v) v' e room in
      let start : contents (clear resp) ≡ [] = unfold clear in refl in
      (
        ap (λ (x : Buf × Called). x.1) same,
        ap (λ (x : Buf × Called). contents x.0) same
            ∙ contents-grown (clear resp) (contents args) (clear-IsValid v) room
            ∙ ap (λ t. t ++ contents args) start,
      )

module _ {abi : Abi} (law : IsAbi abi) {U : Type 0} (accept : ℕ → ℕ) where
  call_steps :
      (rounds : ℕ) (w w1 w2 w3 : Stream U) (s s1 s2 s3 : Sock) (ifd_xid : ℕ) (args resp resp' : Buf)
      (c : Called)
      → put_packet abi
          (pipe U accept)
          rounds
          w
          (asked s)
          (request_header (xid_of ifd_xid) args)
          args
        ≡ some (w1, s1, ok tt)
      → flsbuf (pipe U accept) rounds w1 s1 true ≡ some (w2, s2, ok tt)
      → wait abi (pipe U accept) rounds w2 s2 true (xid_of ifd_xid) resp ≡ some (w3, s3, resp', c)
      → call abi (pipe U accept) rounds w s ifd_xid args resp
        ≡ some (w3, s3, (next_xid ifd_xid).0, resp', c)
  unfolding call
  call_steps rounds w w1 w2 w3 s s1 s2 s3 ifd_xid args resp resp' c sends flushes hears =
      ground (arith, sends, flushes, hears)

  -- A client that has nothing unread sends a request and gets the reply with its number, whatever pieces
  -- the stream is cut into and whatever other packets come before: its bytes are in the client's buffer,
  -- and what follows the reply is still to be read.
  pub call-Replied :
      (rounds : ℕ) (w : Stream U) (s : Sock) (ifd_xid : ℕ) (args resp : Buf) (others : List Packet)
      (p : Packet) (later : List ℕ)
      → IsValid s.sbuf
      → IsValid args
      → IsValid resp
      → length (contents args) < 2 ^ 16
      → abi.header_size + length (contents args) ≤ s.sbuf.size
      → Coming abi w s others p later
      → contents s.rbuf ≡ []
      → NoneWith (xid_of ifd_xid) others
      → p.head.xid ≡ xid_of ifd_xid
      → p.head.error ≡ 0
      → length p.body ≤ resp.size
      → s.sbuf.size < rounds
      → enough_rounds law accept others w true ≤ rounds
      → Replied abi accept rounds w s ifd_xid args resp p later
  call-Replied rounds w s ifd_xid args resp others p later v v' v'' few fits coming unread none_mine
        mine fine room enough enough' =
      record {
        world = record w { sent = put.sent ++ contents put.buf; incoming = heard.rest };
        sock = record s { sbuf = flushed.buf; events = poll_in; rbuf = heard.buf };
        response = (take_reply abi (pipe U accept) (clear resp) p.head heard.args).0;
        result =
            call_steps rounds w (record w { sent = put.sent })
              (record w { sent = put.sent ++ contents put.buf })
              (record w { sent = put.sent ++ contents put.buf; incoming = heard.rest }) s
              (record s { sbuf = put.buf; events = poll_out })
              (record s { sbuf = flushed.buf; events = poll_in })
              (record s { sbuf = flushed.buf; events = poll_in; rbuf = heard.buf }) ifd_xid args
              resp (take_reply abi (pipe U accept) (clear resp) p.head heard.args).0
              (take_reply abi (pipe U accept) (clear resp) p.head heard.args).1 put.result
              flushed.result heard.result
            ∙ ap
                (λ c. some (
                  record w { sent = put.sent ++ contents put.buf; incoming = heard.rest },
                  record s { sbuf = flushed.buf; events = poll_in; rbuf = heard.buf },
                  (next_xid ifd_xid).0,
                  (take_reply abi (pipe U accept) (clear resp) p.head heard.args).0,
                  c,
                ))
                got.0;
        sent =
            put.behind
            ∙ ap
                (λ t.
                  (w.sent ++ t) ++ frame abi s.network (request (xid_of ifd_xid) (contents args)))
                (contents-compact v);
        body = got.1 ∙ heard.body;
        valid = heard.valid;
        unread = heard.stream;
      }
    where
      put : Put abi accept rounds w (asked s) (request_header (xid_of ifd_xid) args) args
      put =
          put_packet_lem law accept rounds w (asked s) (request_header (xid_of ifd_xid) args) args
            (compact-IsValid v) v' few (omega (arith, (compact_lem v).2, fits))
            (omega (arith, length-contents v, ap length (contents-compact v), v, enough))

      total : length (contents put.buf) ≤ s.sbuf.size
      total = omega (arith, length-contents put.valid, put.valid, put.same_size, (compact_lem v).2)

      flushed :
          Flushed accept rounds
            (record w { sent = put.sent })
            (record s { sbuf = put.buf; events = poll_out })
      flushed =
          flsbuf_lem accept rounds (record w { sent = put.sent })
            (record s { sbuf = put.buf; events = poll_out }) put.valid
            (omega (arith, total, enough))

      heard :
          Heard abi accept rounds
            (record w { sent = put.sent ++ contents put.buf })
            (record s { sbuf = flushed.buf; events = poll_in })
            true
            (xid_of ifd_xid)
            resp
            p
            later
      heard =
          wait_lem law accept rounds (record w { sent = put.sent ++ contents put.buf })
            (record s { sbuf = flushed.buf; events = poll_in }) true others p later (xid_of ifd_xid)
            resp
            (record {
              valid = coming.valid;
              others_fit = coming.others_fit;
              fits = coming.fits;
              full = coming.full;
              stream = coming.stream;
            })
            none_mine mine (λ e. omega (arith, ap length unread, law.some_bytes)) enough'

      got :
          let r = take_reply abi (pipe U accept) (clear resp) p.head heard.args in
          (r.1 ≡ Called.replied p.head.count) × (contents r.0 ≡ contents heard.args)
      got =
          taken_over abi (pipe U accept) resp p.head heard.args v'' heard.args_valid fine
            (omega (arith, ap length heard.body, room))

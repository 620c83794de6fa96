-- ===== src/Sockets/Drained.antt =====
-- A server until there is nothing to read: `ct_socket_default_recv_cb` of src/ct/socket.c, called again
-- and again.
use openct.Prelude.{
  ℕ, zero, suc, ◌<◌, ◌≡◌, refl, ap, ap₂, sym, ◌∙◌, arith, Option, none, some, List, [], ◌∷◌, ◌++◌,
  length,
}
use openct.Prelude.{append-nil, if◌then◌else◌, ◌==◌}
use openct.Prelude.Outcome.{Outcome, ok, err}
use openct.Buffer.{Buf, contents}
use openct.Buffer.Inv.{length-contents}
use openct.Sockets.{Abi, Sock, filbuf}
use openct.Sockets.Calls.{answer_packets, recv_cb}
use openct.Sockets.Pipe.{Stream, pipe, IsAbi, Packet, joined, frames}
use openct.Sockets.Feed.{Refilled, Feed-Refilled}
use openct.Sockets.Coming.{AllPackets-size}
use openct.Sockets.Answers.{Handler, on_stream, answers, Fits}
use openct.Sockets.Served.{Fits-size, Queue, Partial, Batch, Queue-Feed, packets_lem}

right_empty : (xs ys : List ℕ) → xs ++ ys ≡ [] → ys ≡ []
right_empty [] ys e = e
right_empty (x ∷ xs) ys e = absurd (omega (arith, ap length e))

module _ {abi : Abi} (law : IsAbi abi) {U : Type 0} (accept : ℕ → ℕ) (handler : Handler U)
    (array : List ℕ) where
  -- The handler is called as often as there is something to read, as the main loop does it.
  unfoldable pub drain : ℕ → ℕ → Stream U → Sock → Option (Stream U × Sock × Outcome (Unit {0}))
  drain rounds zero w s = none
  drain rounds (suc k) w s =
      if length (joined w.incoming) == 0
      then some (w, s, ok tt)
      else elim (recv_cb abi (pipe U accept) (some (on_stream abi accept handler)) rounds array
          (suc s.rbuf.size) w s) [
            | none ↦ none
            | some (w1, s1, rc) ↦ elim rc [
              | err e ↦ some (w1, s1, err e)
              | ok _ ↦ drain rounds k w1 s1
            ]
          ]

  -- All requests are answered.
  record Drained (w : Stream U) (s : Sock) (ps : List Packet)
      (run : Option (Stream U × Sock × Outcome (Unit {0}))) : Type 0 where
    pub world : Stream U
    pub sock : Sock
    pub result : run ≡ some (world, sock, ok tt)
    pub nothing_left : joined world.incoming ≡ []
    pub state : world.own ≡ (answers handler array w.own ps).0
    pub sent :
        world.sent ++ contents sock.sbuf
        ≡ (w.sent ++ contents s.sbuf) ++ frames abi s.network (answers handler array w.own ps).1

  recv_step :
      (rounds k : ℕ) (w w1 : Stream U) (s s1 : Sock) (n : ℕ)
      → filbuf (pipe U accept) w s none ≡ (w1, s1, ok n)
      → 0 < n
      → recv_cb abi (pipe U accept) (some (on_stream abi accept handler)) rounds array k w s
        ≡ answer_packets abi
            (pipe U accept)
            (some (on_stream abi accept handler))
            rounds
            array
            k
            w1
            s1
  unfolding recv_cb
  recv_step rounds k w w1 s s1 n e some_bytes = ground (arith, e, some_bytes)

  -- A packet that is not yet complete is read on, and all that are complete are answered.
  pub recv_lem :
      (rounds : ℕ) (w : Stream U) (s : Sock) (q : Packet) (qs : List Packet)
      → Queue abi w s (q ∷ qs)
      → Partial abi s.rbuf (q ∷ qs)
      → Fits abi s.sbuf.size array handler
      → s.sbuf.size < rounds
      → (b : Batch abi handler array w s (q ∷ qs) (
          recv_cb abi
            (pipe U accept)
            (some (on_stream abi accept handler))
            rounds
            array
            (suc s.rbuf.size)
            w
            s))
        × (length (joined b.world.incoming) < length (joined w.incoming))
  recv_lem rounds w s q qs c part fits enough =
      let r : Refilled abi accept w s q (frames abi s.network qs) =
        Feed-Refilled law accept w s q (frames abi s.network qs)
          (Queue-Feed law accept handler array w s q qs c) part in
      let f = r.filled in
      let w1 : Stream U = record w { incoming = f.rest } in
      let s1 = record s { rbuf = f.buf } in
      let b : Batch abi handler array w1 s1 (q ∷ qs) (
          answer_packets abi (pipe U accept) (some (on_stream abi accept handler)) rounds array
            (suc s.rbuf.size) w1 s1) =
        packets_lem law accept handler array rounds (suc s.rbuf.size) w1 s1 (q ∷ qs)
          (record {
            valid = f.valid;
            sends = c.sends;
            fit = AllPackets-size abi s.rbuf.size f.buf.size (q ∷ qs) (sym f.same_size) c.fit;
            full = f.full;
            stream = r.feed.stream ∙ (unfold frames in refl);
          })
          fits enough (omega (arith, length-contents f.valid, f.valid, f.same_size)) in
      (
        record {
          left = b.left;
          world = b.world;
          sock = b.sock;
          result =
              recv_step rounds (suc s.rbuf.size) w w1 s s1 (length f.bytes) f.result f.some_bytes
              ∙ b.result;
          queue = b.queue;
          missing = b.missing;
          no_more_input = omega (arith, b.no_more_input, r.fewer);
          same_read = b.same_read ∙ f.same_size;
          same_order = b.same_order;
          same_room = b.same_room;
          same_state = b.same_state;
          same_sent = b.same_sent;
        },
        omega (arith, b.no_more_input, r.fewer),
      )

  start-Partial : (ps : List Packet) (b : Buf) → contents b ≡ [] → Partial abi b ps
  start-Partial [] b e = tt
  start-Partial (q ∷ qs) b e = omega (arith, ap length e, law.some_bytes)

  drain_end :
      (rounds k : ℕ) (w : Stream U) (s : Sock)
      → length (joined w.incoming) ≡ 0
      → drain rounds (suc k) w s ≡ some (w, s, ok tt)
  unfolding drain
  drain_end rounds k w s e = ground (arith, e)

  drain_step :
      (rounds k : ℕ) (w w1 : Stream U) (s s1 : Sock)
      → 0 < length (joined w.incoming)
      → recv_cb abi
          (pipe U accept)
          (some (on_stream abi accept handler))
          rounds
          array
          (suc s.rbuf.size)
          w
          s
        ≡ some (w1, s1, ok tt)
      → drain rounds (suc k) w s ≡ drain rounds k w1 s1
  unfolding drain
  drain_step rounds k w w1 s s1 some_bytes e = ground (arith, e, some_bytes)

  Drained-from :
      (rounds k : ℕ) (w : Stream U) (s : Sock) (ps : List Packet)
      → Queue abi w s ps
      → Partial abi s.rbuf ps
      → Fits abi s.sbuf.size array handler
      → s.sbuf.size < rounds
      → length (joined w.incoming) < k
      → Drained w s ps (drain rounds k w s)
  Drained-from rounds zero w s ps c part fits enough few = absurd (omega arith)
  Drained-from rounds (suc k) w s [] c part fits enough few =
      let none_left : joined w.incoming ≡ [] =
        right_empty (contents s.rbuf) (joined w.incoming) (c.stream ∙ (unfold frames in refl)) in
      record {
        world = w;
        sock = s;
        result = drain_end rounds k w s (ap length none_left);
        nothing_left = none_left;
        state = unfold answers in refl;
        sent = unfold answers frames in sym (append-nil (w.sent ++ contents s.sbuf));
      }
  Drained-from rounds (suc k) w s (q ∷ qs) c part fits enough few =
      let r = recv_lem rounds w s q qs c part fits enough in
      let b = r.0 in
      let rest : Drained b.world b.sock b.left (drain rounds k b.world b.sock) =
        Drained-from rounds k b.world b.sock b.left b.queue b.missing
          (Fits-size abi s.sbuf.size b.sock.sbuf.size array handler (sym b.same_room) fits)
          (omega (arith, b.same_room, enough)) (omega (arith, r.1, few)) in
      record {
        world = rest.world;
        sock = rest.sock;
        result = drain_step rounds k w b.world s b.sock (omega (arith, r.1)) b.result ∙ rest.result;
        nothing_left = rest.nothing_left;
        state = rest.state ∙ b.same_state;
        sent = rest.sent ∙ b.same_sent;
      }

  -- A server that starts with nothing in its buffers is sent requests, in whatever pieces the stream cuts
  -- them, and whatever writes take: each is handled once, in order, and the replies that are sent, or in
  -- the buffer to be sent, are theirs, in order. There are as many calls as bytes at most. Requests and
  -- responses fit the socket's buffers.
  pub requests_answered :
      (rounds : ℕ) (w : Stream U) (s : Sock) (ps : List Packet)
      → Queue abi w s ps
      → contents s.rbuf ≡ []
      → contents s.sbuf ≡ []
      → w.sent ≡ []
      → Fits abi s.sbuf.size array handler
      → s.sbuf.size < rounds
      → (w' : Stream U) × (s' : Sock) × (drain rounds (suc (length (joined w.incoming))) w s
          ≡ some (w', s', ok tt))
        × (w'.own ≡ (answers handler array w.own ps).0)
        × (w'.sent ++ contents s'.sbuf ≡ frames abi s.network (answers handler array w.own ps).1)
        × (joined w'.incoming ≡ [])
  requests_answered rounds w s ps c unread unsent fresh fits enough =
      let d =
        Drained-from rounds (suc (length (joined w.incoming))) w s ps c
          (start-Partial ps (s.rbuf) unread) fits enough (omega arith) in
      (
        d.world,
        d.sock,
        d.result,
        d.state,
        d.sent
            ∙ ap₂ (λ a b. (a ++ b) ++ frames abi s.network (answers handler array w.own ps).1) fresh
                unsent,
        d.nothing_left,
      )

-- ===== src/Sockets/Served.antt =====
-- A server on a stream: `ct_socket_default_recv_cb` of src/ct/socket.c, as often as there is something to
-- read.
use openct.Prelude.{
  ℕ, zero, suc, ◌+◌, ◌≤◌, ◌<◌, ◌≡◌, refl, ap, sym, ◌∙◌, arith, Bool, Option, some, List, [], ◌∷◌,
  ◌++◌, length,
}
use openct.Sockets.Packets.{length-frame}
use openct.Prelude.{length-append, append_assoc, ltb, Bool-cases, inl, inr}
use openct.Prelude.Outcome.{Outcome, ok}
use openct.Buffer.{Buf, contents, avail}
use openct.Buffer.Inv.{IsValid, length-contents}
use openct.Sockets.{Header, Abi, Sock, Got, get_packet}
use openct.Sockets.Calls.{Process, answer, answer_packets}
use openct.Sockets.Pipe.{Stream, pipe, IsAbi, Packet, AllPackets, AllFull, joined, frame, frames}
use openct.Sockets.Feed.{Feed, Taken, Feed-Taken, Feed-short}
use openct.Sockets.Coming.{AllPackets-size}
use openct.Sockets.Answers.{Handler, on_stream, handled, answers, reply_of, Fits, Done, answer_lem}

-- The packets `ps` are to come, or in the buffer, and nothing else.
pub record Queue {U : Type 0} (abi : Abi) (w : Stream U) (s : Sock) (ps : List Packet)
    : Type 0 where
  pub valid : IsValid s.rbuf
  pub sends : IsValid s.sbuf
  pub fit : AllPackets abi s.rbuf.size ps
  pub full : AllFull w.incoming
  pub stream : contents s.rbuf ++ joined w.incoming ≡ frames abi s.network ps

-- Of the first packet, a part is missing.
abbrev pub Partial : Abi → Buf → List Packet → Type 0
Partial abi b [] = Unit
Partial abi b (q ∷ qs) = length (contents b) < abi.header_size + length q.body

-- What is, or is to be, sent in the end, and the state in the end.
abbrev pub all_sent :
    {U : Type 0} → Abi → Handler U → List ℕ → Bool → Stream U → Buf → List Packet → List ℕ
all_sent abi handler array network w sbuf ps =
    (w.sent ++ contents sbuf) ++ frames abi network (answers handler array w.own ps).1

-- Packets have been answered, and `left` are to come. It makes no difference to the end.
pub record Batch {U : Type 0} (abi : Abi) (handler : Handler U) (array : List ℕ) (w : Stream U)
    (s : Sock) (ps : List Packet) (run : Option (Stream U × Sock × Outcome (Unit {0})))
    : Type 0 where
  pub left : List Packet
  pub world : Stream U
  pub sock : Sock
  pub result : run ≡ some (world, sock, ok tt)
  pub queue : Queue abi world sock left
  pub missing : Partial abi sock.rbuf left
  pub no_more_input : length (joined world.incoming) ≤ length (joined w.incoming)
  pub same_read : sock.rbuf.size ≡ s.rbuf.size
  pub same_order : sock.network ≡ s.network
  pub same_room : sock.sbuf.size ≡ s.sbuf.size
  pub same_state : (answers handler array world.own left).0 ≡ (answers handler array w.own ps).0
  pub same_sent :
      all_sent abi handler array sock.network world sock.sbuf left
      ≡ all_sent abi handler array s.network w s.sbuf ps

left_empty : (xs ys : List ℕ) → xs ++ ys ≡ [] → xs ≡ []
left_empty [] ys e = refl
left_empty (x ∷ xs) ys e = absurd (omega (arith, ap length e))

frames-append :
    (abi : Abi) (network : Bool) (ps qs : List Packet)
    → frames abi network (ps ++ qs) ≡ frames abi network ps ++ frames abi network qs
unfolding frames
frames-append abi network [] qs = refl
frames-append abi network (p ∷ ps) qs =
    ap (λ t. frame abi network p ++ t) (frames-append abi network ps qs)
    ∙ sym (append_assoc (frame abi network p) (frames abi network ps) (frames abi network qs))

pub Fits-size :
    {U : Type 0} (abi : Abi) (a b : ℕ) (array : List ℕ) (handler : Handler U)
    → a ≡ b
    → Fits abi a array handler
    → Fits abi b array handler
Fits-size abi a b array handler e h u q = ((h u q).0, (h u q).1, omega (arith, (h u q).2, e))

module _ {abi : Abi} (law : IsAbi abi) {U : Type 0} (accept : ℕ → ℕ) (handler : Handler U)
    (array : List ℕ) where
  abbrev process : Process abi (pipe U accept)
  process = on_stream abi accept handler

  packets_empty :
      (rounds k : ℕ) (w : Stream U) (s : Sock)
      → contents s.rbuf ≡ []
      → IsValid s.rbuf
      → answer_packets abi (pipe U accept) (some process) rounds array (suc k) w s
        ≡ some (w, s, ok tt)
  unfolding answer_packets
  packets_empty rounds k w s e v = ground (arith, length-contents v, ap length e)

  packets_short :
      (rounds k : ℕ) (w : Stream U) (s : Sock)
      → get_packet abi s ≡ (s, Got.incomplete)
      → answer_packets abi (pipe U accept) (some process) rounds array (suc k) w s
        ≡ some (w, s, ok tt)
  unfolding answer_packets
  packets_short rounds k w s e = ground (arith, e)

  packets_step :
      (rounds k : ℕ) (w w1 : Stream U) (s s1 s2 : Sock) (h : Header) (args : Buf)
      → 0 < avail s.rbuf
      → get_packet abi s ≡ (s1, Got.packet h args)
      → answer abi (pipe U accept) process rounds array w s1 h args ≡ some (w1, s2, ok tt)
      → answer_packets abi (pipe U accept) (some process) rounds array (suc k) w s
        ≡ answer_packets abi (pipe U accept) (some process) rounds array k w1 s2
  unfolding answer_packets
  packets_step rounds k w w1 s s1 s2 h args some_bytes e f = ground (arith, e, f, some_bytes)

  pub Queue-Feed :
      (w : Stream U) (s : Sock) (q : Packet) (qs : List Packet)
      → Queue abi w s (q ∷ qs)
      → Feed abi w s q (frames abi s.network qs)
  unfolding frames
  Queue-Feed w s q qs c = record {
    valid = c.valid;
    fits = c.fit.0;
    full = c.full;
    stream = c.stream;
  }

  Taken-fewer :
      (w : Stream U) (s : Sock) (q : Packet) (qs : List Packet)
      → Feed abi w s q (frames abi s.network qs)
      → (t : Taken abi w s q (frames abi s.network qs))
      → length (contents t.buf) < length (contents s.rbuf)
  Taken-fewer w s q qs f t = omega (
    arith,
    ap length t.stream,
    length-append (contents t.buf) (joined w.incoming),
    ap length f.stream,
    length-append (contents s.rbuf) (joined w.incoming),
    length-append (frame abi s.network q) (frames abi s.network qs),
    length-frame law s.network q,
    law.some_bytes,
  )

  -- One packet more is answered.
  Batch-more :
      (rounds k : ℕ) (w : Stream U) (s : Sock) (q : Packet) (qs : List Packet)
      (t : Taken abi w s q (frames abi s.network qs))
      (d : Done abi accept handler rounds array w (record s { rbuf = t.buf }) q)
      → 0 < avail s.rbuf
      → (let w1 : Stream U = record w { own = (handled handler array w.own q).0; sent = d.sent } in
          let s1 = record s { rbuf = t.buf; sbuf = d.buf; events = d.events } in
          Batch abi handler array w1 s1 qs
            (answer_packets abi (pipe U accept) (some process) rounds array k w1 s1))
      → Batch abi handler array w s
          (q ∷ qs)
          (answer_packets abi (pipe U accept) (some process) rounds array (suc k) w s)
  unfolding answers
  Batch-more rounds k w s q qs t d some_bytes rest =
      let w1 : Stream U = record w { own = (handled handler array w.own q).0; sent = d.sent } in
      let r = handled handler array w.own q in
      let replies = reply_of r.1 r.2 r.3 in
      let more = (answers handler array r.0 qs).1 in
      record {
        left = rest.left;
        world = rest.world;
        sock = rest.sock;
        result =
            packets_step rounds k w w1 s (record s { rbuf = t.buf })
              (record s { rbuf = t.buf; sbuf = d.buf; events = d.events }) q.head t.args some_bytes
              t.result
              (ap
                  (answer abi (pipe U accept) process rounds array w (record s { rbuf = t.buf })
                    q.head)
                  t.whole
                ∙ d.result)
            ∙ rest.result;
        queue = rest.queue;
        missing = rest.missing;
        no_more_input = rest.no_more_input;
        same_read = rest.same_read ∙ t.same_size;
        same_order = rest.same_order;
        same_room = rest.same_room ∙ d.same_size;
        same_state = rest.same_state;
        same_sent =
            rest.same_sent
            ∙ ap (λ x. x ++ frames abi s.network more) d.behind
            ∙ append_assoc (w.sent ++ contents s.sbuf) (frames abi s.network replies)
                (frames abi s.network more)
            ∙ ap (λ x. (w.sent ++ contents s.sbuf) ++ x)
                (sym (frames-append abi s.network replies more));
      }

  -- All the packets that are in the buffer are answered.
  pub packets_lem :
      (rounds k : ℕ) (w : Stream U) (s : Sock) (ps : List Packet)
      → Queue abi w s ps
      → Fits abi s.sbuf.size array handler
      → s.sbuf.size < rounds
      → length (contents s.rbuf) < k
      → Batch abi handler array w s ps
          (answer_packets abi (pipe U accept) (some process) rounds array k w s)
  packets_lem rounds zero w s ps c fits enough few = absurd (omega arith)
  packets_lem rounds (suc k) w s [] c fits enough few = record {
    left = [];
    world = w;
    sock = s;
    result =
        packets_empty rounds k w s
          (left_empty (contents s.rbuf) (joined w.incoming) (unfold frames in c.stream)) c.valid;
    queue = c;
    missing = tt;
    no_more_input = omega arith;
    same_read = refl;
    same_order = refl;
    same_room = refl;
    same_state = refl;
    same_sent = refl;
  }
  packets_lem rounds (suc k) w s (q ∷ qs) c fits enough few =
      elim (Bool-cases (ltb (length (contents s.rbuf)) (abi.header_size + length q.body))) [
        | inl short ↦ record {
          left = q ∷ qs;
          world = w;
          sock = s;
          result = packets_short rounds k w s (
              Feed-short law w s q (frames abi s.network qs) (Queue-Feed w s q qs c)
                (ground (arith, short)));
          queue = c;
          missing = ground (arith, short);
          no_more_input = omega arith;
          same_read = refl;
          same_order = refl;
          same_room = refl;
          same_state = refl;
          same_sent = refl;
        }
        | inr all ↦
            let t : Taken abi w s q (frames abi s.network qs) =
              Feed-Taken law w s q (frames abi s.network qs) (Queue-Feed w s q qs c)
                (ground (arith, all)) in
            let d : Done abi accept handler rounds array w (record s { rbuf = t.buf }) q =
              answer_lem law accept handler array rounds w (record s { rbuf = t.buf }) q c.sends
                fits enough in
            Batch-more rounds k w s q qs t d
              (ground (arith, all, length-contents c.valid, c.valid, law.some_bytes))
              (packets_lem rounds k
                (record w { own = (handled handler array w.own q).0; sent = d.sent })
                (record s { rbuf = t.buf; sbuf = d.buf; events = d.events }) qs
                (record {
                  valid = t.valid;
                  sends = d.valid;
                  fit = AllPackets-size abi s.rbuf.size t.buf.size qs (sym t.same_size) c.fit.1;
                  full = c.full;
                  stream = t.stream;
                })
                (Fits-size abi s.sbuf.size d.buf.size array handler (sym d.same_size) fits)
                (omega (arith, d.same_size, enough))
                (omega (arith, Taken-fewer w s q qs (Queue-Feed w s q qs c) t, few)))
      ]

-- ===== src/Sockets/Answered.antt =====
-- What `ct_socket_call` of src/ct/socket.c makes of the packets that come.
use openct.Prelude.{
  ℕ, zero, suc, ◌+◌, ◌*◌, ◌≤◌, ◌<◌, ◌≡◌, ◌≢◌, refl, ap, sym, ◌∙◌, arith, Bool, true, false, some,
  List, [], ◌∷◌, ◌++◌, length,
}
use openct.Prelude.{append_assoc, if◌then◌else◌, ltb, Bool-cases, inl, inr}
use openct.Prelude.Outcome.{ok}
use openct.Buffer.{Buf, contents, clear}
use openct.Buffer.Inv.{IsValid}
use openct.Sockets.{Header, Abi, Sock, Got, get_packet}
use openct.Sockets.Calls.{refill, take_reply, wait}
use openct.Sockets.Pipe.{Stream, pipe, IsAbi, Packet, joined}
use openct.Sockets.Feed.{Taken, Refilled, Feed-Taken, Feed-short, Feed-Refilled}
use openct.Sockets.Coming.{NoneWith, Coming, next_packet, behind, AllPackets-size, Coming-Feed}

-- The reply has come, and nothing behind it was touched.
pub record Heard {U : Type 0} (abi : Abi) (accept : ℕ → ℕ) (rounds : ℕ) (w : Stream U) (s : Sock)
    (fill : Bool) (xid : ℕ) (resp : Buf) (p : Packet) (later : List ℕ) : Type 0 where
  pub rest : List (List ℕ)
  pub buf : Buf
  pub args : Buf
  pub result :
      wait abi (pipe U accept) rounds w s fill xid resp
      ≡ some (
        record w { incoming = rest },
        record s { rbuf = buf },
        (take_reply abi (pipe U accept) (clear resp) p.head args).0,
        (take_reply abi (pipe U accept) (clear resp) p.head args).1,
      )
  pub valid : IsValid buf
  pub stream : contents buf ++ joined rest ≡ later
  pub args_valid : IsValid args
  pub body : contents args ≡ p.body

module _ (abi : Abi) {U : Type 0} (accept : ℕ → ℕ) where
  wait_incomplete :
      (rounds : ℕ) (w w1 : Stream U) (s s1 : Sock) (fill : Bool) (n xid : ℕ) (resp : Buf)
      → refill abi (pipe U accept) w s fill ≡ (w1, s1, ok n)
      → get_packet abi s1 ≡ (s1, Got.incomplete)
      → wait abi (pipe U accept) (suc rounds) w s fill xid resp
        ≡ wait abi (pipe U accept) rounds w1 s1 true xid (clear resp)
  unfolding wait
  wait_incomplete rounds w w1 s s1 fill n xid resp e f = ground (arith, e, f)

  wait_other :
      (rounds : ℕ) (w w1 : Stream U) (s s1 s2 : Sock) (fill : Bool) (n xid : ℕ) (resp args : Buf)
      (h : Header)
      → refill abi (pipe U accept) w s fill ≡ (w1, s1, ok n)
      → get_packet abi s1 ≡ (s2, Got.packet h args)
      → h.xid ≢ xid
      → wait abi (pipe U accept) (suc rounds) w s fill xid resp
        ≡ wait abi (pipe U accept) rounds w1 s2 false xid (clear resp)
  unfolding wait
  wait_other rounds w w1 s s1 s2 fill n xid resp args h e f other = ground (arith, e, f, other)

  wait_found :
      (rounds : ℕ) (w w1 : Stream U) (s s1 s2 : Sock) (fill : Bool) (n xid : ℕ) (resp args : Buf)
      (h : Header)
      → refill abi (pipe U accept) w s fill ≡ (w1, s1, ok n)
      → get_packet abi s1 ≡ (s2, Got.packet h args)
      → h.xid ≡ xid
      → wait abi (pipe U accept) (suc rounds) w s fill xid resp
        ≡ some (
          w1,
          s2,
          (take_reply abi (pipe U accept) (clear resp) h args).0,
          (take_reply abi (pipe U accept) (clear resp) h args).1,
        )
  unfolding wait
  wait_found rounds w w1 s s1 s2 fill n xid resp args h e f mine = ground (arith, e, f, mine)

-- Bytes are read where that is asked for, and only if they are needed.
record Ready {U : Type 0} (abi : Abi) (accept : ℕ → ℕ) (w : Stream U) (s : Sock) (fill : Bool)
    (others : List Packet) (p : Packet) (later : List ℕ) : Type 0 where
  incoming : List (List ℕ)
  buf : Buf
  count : ℕ
  result :
      refill abi (pipe U accept) w s fill
      ≡ (record w { incoming = incoming }, record s { rbuf = buf }, ok count)
  coming : Coming abi (record w { incoming = incoming }) (record s { rbuf = buf }) others p later
  fewer : (if fill then 1 else 0) + length (joined incoming) ≤ length (joined w.incoming)

-- The first packet is not all in the buffer.
abbrev Short : Abi → Sock → List Packet → Packet → Type 0
Short abi s others p =
    length (contents s.rbuf) < abi.header_size + length (next_packet others p).body

module _ {abi : Abi} (law : IsAbi abi) {U : Type 0} (accept : ℕ → ℕ) where
  ready_lem :
      (w : Stream U) (s : Sock) (fill : Bool) (others : List Packet) (p : Packet) (later : List ℕ)
      → Coming abi w s others p later
      → (fill ≡ true → Short abi s others p)
      → Ready abi accept w s fill others p later
  ready_lem w s false others p later c short = record {
    incoming = w.incoming;
    buf = s.rbuf;
    count = 0;
    result = refl;
    coming = c;
    fewer = omega arith;
  }
  ready_lem w s true others p later c short =
      let r : Refilled abi accept w s (next_packet others p) (behind abi s.network others p later) =
        Feed-Refilled law accept w s (next_packet others p) (behind abi s.network others p later)
          (Coming-Feed w s others p later c) (short refl) in
      record {
        incoming = r.filled.rest;
        buf = r.filled.buf;
        count = length r.filled.bytes;
        result = r.filled.result;
        coming = record {
          valid = r.filled.valid;
          others_fit =
              AllPackets-size abi s.rbuf.size r.filled.buf.size others (sym r.filled.same_size)
                c.others_fit;
          fits = (c.fits.0, c.fits.1, omega (arith, c.fits.2, r.filled.same_size));
          full = r.filled.full;
          stream =
              ap (λ t. t ++ joined r.filled.rest) r.filled.behind
              ∙ append_assoc (contents s.rbuf) r.filled.bytes (joined r.filled.rest)
              ∙ ap (λ t. contents s.rbuf ++ t) r.filled.stream
              ∙ c.stream;
        };
        fewer = omega (arith, r.fewer);
      }

  -- A round of the loop that goes on.
  Heard-later :
      (rounds : ℕ) (w : Stream U) (s : Sock) (fill fill' : Bool) (xid : ℕ) (resp : Buf) (p : Packet)
      (later : List ℕ) (incoming : List (List ℕ)) (buf : Buf)
      → wait abi (pipe U accept) (suc rounds) w s fill xid resp
        ≡ wait abi
            (pipe U accept)
            rounds
            (record w { incoming = incoming })
            (record s { rbuf = buf })
            fill'
            xid
            (clear resp)
      → Heard abi accept rounds
          (record w { incoming = incoming })
          (record s { rbuf = buf })
          fill'
          xid
          (clear resp)
          p
          later
      → Heard abi accept (suc rounds) w s fill xid resp p later
  Heard-later rounds w s fill fill' xid resp p later incoming buf e h = record {
    rest = h.rest;
    buf = h.buf;
    args = h.args;
    result = e ∙ (unfold clear in h.result);
    valid = h.valid;
    stream = h.stream;
    args_valid = h.args_valid;
    body = h.body;
  }

  -- The rounds that the loop may take.
  abbrev pub enough_rounds : List Packet → Stream U → Bool → ℕ
  enough_rounds others w fill =
      length others + 2 * length (joined w.incoming) + (if fill then 1 else 2)

  Heard-Short :
      (rounds : ℕ) (w : Stream U) (s : Sock) (fill : Bool) (others : List Packet) (p : Packet)
      (later : List ℕ) (xid : ℕ) (resp : Buf) (r : Ready abi accept w s fill others p later)
      → Short abi (record s { rbuf = r.buf }) others p
      → Heard abi accept rounds
          (record w { incoming = r.incoming })
          (record s { rbuf = r.buf })
          true
          xid
          (clear resp)
          p
          later
      → Heard abi accept (suc rounds) w s fill xid resp p later
  Heard-Short rounds w s fill others p later xid resp r short h =
      let w1 : Stream U = record w { incoming = r.incoming } in
      let s1 = record s { rbuf = r.buf } in
      Heard-later rounds w s fill true xid resp p later r.incoming r.buf
        (wait_incomplete abi accept rounds w w1 s s1 fill r.count xid resp r.result (
          Feed-short law w1 s1 (next_packet others p) (behind abi s.network others p later)
            (Coming-Feed w1 s1 others p later r.coming) short))
        h

  -- A packet that is not the reply is passed over.
  pub wait_lem :
      (rounds : ℕ) (w : Stream U) (s : Sock) (fill : Bool) (others : List Packet) (p : Packet)
      (later : List ℕ) (xid : ℕ) (resp : Buf)
      → Coming abi w s others p later
      → NoneWith xid others
      → p.head.xid ≡ xid
      → (fill ≡ true → Short abi s others p)
      → enough_rounds others w fill ≤ rounds
      → Heard abi accept rounds w s fill xid resp p later
  wait_lem zero w s fill others p later xid resp c none_mine mine short enough =
      absurd (ground arith)
  wait_lem (suc rounds) w s fill [] p later xid resp c none_mine mine short enough =
      let r = ready_lem w s fill [] p later c short in
      let w1 : Stream U = record w { incoming = r.incoming } in
      let s1 = record s { rbuf = r.buf } in
      elim (Bool-cases (ltb (length (contents r.buf)) (abi.header_size + length p.body))) [
        | inl few ↦ Heard-Short rounds w s fill [] p later xid resp r (ground (arith, few)) (
            wait_lem rounds w1 s1 true [] p later xid (clear resp) r.coming none_mine mine
              (λ e. ground (arith, few)) (ground (arith, enough, r.fewer)))
        | inr all ↦
            let t : Taken abi w1 s1 p later =
              Feed-Taken law w1 s1 p later (Coming-Feed w1 s1 [] p later r.coming)
                (ground (arith, all)) in
            record {
              rest = r.incoming;
              buf = t.buf;
              args = t.args;
              result =
                  wait_found abi accept rounds w w1 s s1 (record s { rbuf = t.buf }) fill r.count
                    xid resp t.args p.head r.result t.result mine;
              valid = t.valid;
              stream = t.stream;
              args_valid = t.args_valid;
              body = t.body;
            }
      ]
  wait_lem (suc rounds) w s fill (q ∷ qs) p later xid resp c none_mine mine short enough =
      let r = ready_lem w s fill (q ∷ qs) p later c short in
      let w1 : Stream U = record w { incoming = r.incoming } in
      let s1 = record s { rbuf = r.buf } in
      elim (Bool-cases (ltb (length (contents r.buf)) (abi.header_size + length q.body))) [
        | inl few ↦ Heard-Short rounds w s fill (q ∷ qs) p later xid resp r (ground (arith, few)) (
            wait_lem rounds w1 s1 true (q ∷ qs) p later xid (clear resp) r.coming none_mine mine
              (λ e. ground (arith, few)) (ground (arith, enough, r.fewer)))
        | inr all ↦
            let t : Taken abi w1 s1 q (behind abi s.network (q ∷ qs) p later) =
              Feed-Taken law w1 s1 q (behind abi s.network (q ∷ qs) p later)
                (Coming-Feed w1 s1 (q ∷ qs) p later r.coming) (ground (arith, all)) in
            Heard-later rounds w s fill false xid resp p later r.incoming t.buf
              (wait_other abi accept rounds w w1 s s1 (record s { rbuf = t.buf }) fill r.count xid
                resp t.args q.head r.result t.result none_mine.0)
              (wait_lem rounds w1 (record s { rbuf = t.buf }) false qs p later xid (clear resp)
                (record {
                  valid = t.valid;
                  others_fit =
                      AllPackets-size abi r.buf.size t.buf.size qs (sym t.same_size)
                        r.coming.others_fit.1;
                  fits = (
                    r.coming.fits.0,
                    r.coming.fits.1,
                    omega (arith, r.coming.fits.2, t.same_size),
                  );
                  full = r.coming.full;
                  stream = t.stream;
                })
                none_mine.1 mine (λ e. absurd (ground (arith, e)))
                (ground (arith, enough, r.fewer)))
      ]

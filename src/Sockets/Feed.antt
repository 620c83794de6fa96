-- ===== src/Sockets/Feed.antt =====
-- A socket on a stream of packets, of which a part may be in the buffer.
use openct.Prelude.{
  ℕ, ◌+◌, ◌≤◌, ◌<◌, ◌≡◌, ◌≢◌, refl, ap, sym, ◌∙◌, arith, List, [], ◌++◌, length, take, drop,
}
use openct.Prelude.{
  take-append-drop, take-append_le, drop-append_le, take-append, drop-append, length-append,
  append_assoc,
}
use openct.Buffer.{Buf, contents, set}
use openct.Buffer.Inv.{IsValid}
use openct.Sockets.{Abi, Sock, Got, get_packet}
use openct.Sockets.Pipe.{Stream, IsAbi, Packet, IsPacket, frame, joined, AllFull}
use openct.Sockets.Packets.{length-frame, get_packet_lem, incomplete_lem}
use openct.Sockets.Filled.{Filled, filbuf_lem}

-- The packet `q` comes next, in the buffer and on the stream, and then the bytes `more`.
pub record Feed {U : Type 0} (abi : Abi) (w : Stream U) (s : Sock) (q : Packet) (more : List ℕ)
    : Type 0 where
  pub valid : IsValid s.rbuf
  pub fits : IsPacket abi s.rbuf.size q
  pub full : AllFull w.incoming
  pub stream : contents s.rbuf ++ joined w.incoming ≡ frame abi s.network q ++ more

-- The packet is taken out of the buffer.
pub record Taken {U : Type 0} (abi : Abi) (w : Stream U) (s : Sock) (q : Packet) (more : List ℕ)
    : Type 0 where
  pub buf : Buf
  pub args : Buf
  pub result : get_packet abi s ≡ (record s { rbuf = buf }, Got.packet q.head args)
  pub valid : IsValid buf
  pub same_size : buf.size ≡ s.rbuf.size
  pub stream : contents buf ++ joined w.incoming ≡ more
  pub args_valid : IsValid args
  pub body : contents args ≡ q.body
  pub whole : args ≡ set q.body q.head.count

-- More of the stream is in the buffer.
pub record Refilled {U : Type 0} (abi : Abi) (accept : ℕ → ℕ) (w : Stream U) (s : Sock) (q : Packet)
    (more : List ℕ) : Type 0 where
  pub filled : Filled accept w s
  pub feed : Feed abi (record w { incoming = filled.rest }) (record s { rbuf = filled.buf }) q more
  pub fewer : length (joined filled.rest) < length (joined w.incoming)

-- Two ways of cutting the same bytes.
split_first :
    (xs ys zs ws : List ℕ)
    → xs ++ ys ≡ zs ++ ws
    → length zs ≤ length xs
    → (xs ≡ zs ++ drop (length zs) xs) × (drop (length zs) xs ++ ys ≡ ws)
split_first xs ys zs ws e h = (
  sym (take-append-drop (length zs) xs)
      ∙ ap (λ t. t ++ drop (length zs) xs)
          (sym (take-append_le (length zs) xs ys h)
            ∙ ap (take (length zs)) e
            ∙ take-append (length zs) zs ws refl),
  sym (drop-append_le (length zs) xs ys h)
      ∙ ap (drop (length zs)) e
      ∙ drop-append (length zs) zs ws refl,
)

module _ {abi : Abi} (law : IsAbi abi) {U : Type 0} where
  pub Feed-Taken :
      (w : Stream U) (s : Sock) (q : Packet) (more : List ℕ)
      → Feed abi w s q more
      → abi.header_size + length q.body ≤ length (contents s.rbuf)
      → Taken abi w s q more
  Feed-Taken w s q more f enough =
      let n = length-frame law s.network q in
      let cut =
        split_first (contents s.rbuf) (joined w.incoming) (frame abi s.network q) more f.stream
          (omega (arith, n)) in
      let got =
        get_packet_lem law s s.rbuf.size q (drop (length (frame abi s.network q)) (contents s.rbuf))
          f.valid f.fits cut.0 in
      record {
        buf = got.0;
        args = got.1;
        result = got.2;
        valid = got.3;
        same_size = got.4;
        stream = ap (λ t. t ++ joined w.incoming) got.5 ∙ cut.1;
        args_valid = got.6;
        body = got.7;
        whole = got.8;
      }

  pub Feed-short :
      (w : Stream U) (s : Sock) (q : Packet) (more : List ℕ)
      → Feed abi w s q more
      → length (contents s.rbuf) < abi.header_size + length q.body
      → get_packet abi s ≡ (s, Got.incomplete)
  Feed-short w s q more f short =
      incomplete_lem law s q (joined w.incoming) more f.valid f.fits f.stream short

  pub Feed-Refilled :
      (accept : ℕ → ℕ) (w : Stream U) (s : Sock) (q : Packet) (more : List ℕ)
      → Feed abi w s q more
      → length (contents s.rbuf) < abi.header_size + length q.body
      → Refilled abi accept w s q more
  Feed-Refilled accept w s q more f short = record {
    filled = got;
    feed = record {
      valid = got.valid;
      fits = (f.fits.0, f.fits.1, omega (arith, f.fits.2, got.same_size));
      full = got.full;
      stream =
          ap (λ t. t ++ joined got.rest) got.behind
          ∙ append_assoc (contents s.rbuf) got.bytes (joined got.rest)
          ∙ ap (λ t. contents s.rbuf ++ t) got.stream
          ∙ f.stream;
    };
    fewer =
        omega
          (arith, ap length got.stream, length-append got.bytes (joined got.rest), got.some_bytes);
  }
    where
      total :
          length (contents s.rbuf) + length (joined w.incoming)
          ≡ abi.header_size + length q.body + length more
      total = omega (
        arith,
        ap length f.stream,
        length-append (contents s.rbuf) (joined w.incoming),
        length-append (frame abi s.network q) more,
        length-frame law s.network q,
      )

      some_piece : w.incoming ≢ []
      some_piece e = omega (arith, ap (λ t. length (joined t)) e, total, short)

      got : Filled accept w s
      got =
          filbuf_lem accept w.incoming w s refl some_piece f.full f.valid
            (omega (arith, f.fits.2, short))

-- ===== src/Sockets/Put.antt =====
-- Packets put on a stream: `ct_socket_put_packet` of src/ct/socket.c.
use openct.Prelude.{
  ℕ, ◌+◌, ◌^◌, ◌%◌, ◌≤◌, ◌<◌, ◌≡◌, refl, ap, sym, ◌∙◌, arith, true, false, Option, some, List, [],
  ◌∷◌, ◌++◌, length, take,
}
use openct.Prelude.{append_assoc, ltb, ◌==◌, if◌then◌else◌, Bool-cases, inl, inr, take-all}
use openct.Prelude.Memory.{store-nil}
use openct.Prelude.Outcome.{ok}
use openct.Buffer.{Buf, Source, compact, contents, avail, tailroom, put}
use openct.Buffer.Inv.{IsValid, length-contents, compact-IsValid}
use openct.Buffer.Refine.{compact_lem, contents-compact}
use openct.Buffer.Append.{grown, grown-IsValid, contents-grown, put_fits}
use openct.Sockets.{Header, Abi, Sock, Os, wire, flsbuf, push_packet, put_packet, poll_in, poll_out}
use openct.Sockets.Pipe.{Stream, pipe, IsAbi, Packet, frame}
use openct.Sockets.Sent.{Flushed, flsbuf_lem}

-- The packet that `put_packet` makes of a header and the bytes.
abbrev pub packet_of : Header → List ℕ → Packet
packet_of hdr bytes = record { head = record hdr { count = length bytes }; body = bytes }

-- A packet behind what is in the buffer.
pub record Pushed (abi : Abi) (os : Os) (s : Sock) (hdr : Header) (bytes : List ℕ) : Type 0 where
  pub buf : Buf
  pub result : push_packet abi os s hdr bytes ≡ record s { sbuf = buf; events = poll_out }
  pub valid : IsValid buf
  pub same_size : buf.size ≡ s.sbuf.size
  pub behind : contents buf ≡ contents s.sbuf ++ frame abi s.network (packet_of hdr bytes)

-- All of a packet is in the buffer or sent, behind what was there.
pub record Put {U : Type 0} (abi : Abi) (accept : ℕ → ℕ) (rounds : ℕ) (w : Stream U) (s : Sock)
    (hdr : Header) (packed : Buf) : Type 0 where
  pub sent : List ℕ
  pub buf : Buf
  pub result :
      put_packet abi (pipe U accept) rounds w s hdr packed
      ≡ some (record w { sent = sent }, record s { sbuf = buf; events = poll_out }, ok tt)
  pub valid : IsValid buf
  pub same_size : buf.size ≡ s.sbuf.size
  pub behind :
      sent ++ contents buf
      ≡ (w.sent ++ contents s.sbuf) ++ frame abi s.network (packet_of hdr (contents packed))

-- The data behind the header.
abbrev data_put : Buf → ℕ → List ℕ → Buf
data_put b count bytes = if count == 0 then b else (put b (Source.bytes (take count bytes))).0

data_put_lem :
    (b : Buf) (bytes : List ℕ)
    → IsValid b
    → length bytes < 2 ^ 16
    → b.tail + length bytes ≤ b.size
    → data_put b (length bytes % 2 ^ 16) bytes ≡ grown b bytes
data_put_lem b [] v few fits = ground (arith, store-nil b.base b.tail)
data_put_lem b (x ∷ bytes) v few fits = ground (
  arith,
  put_fits b (x ∷ bytes) v fits,
  take-all (length (x ∷ bytes) % 2 ^ 16) (x ∷ bytes) (omega arith),
)

module _ {abi : Abi} (law : IsAbi abi) (os : Os) where
  pub push_packet_lem :
      (s : Sock) (hdr : Header) (bytes : List ℕ)
      → IsValid s.sbuf
      → length bytes < 2 ^ 16
      → s.sbuf.tail + (abi.header_size + length bytes) ≤ s.sbuf.size
      → Pushed abi os s hdr bytes
  push_packet_lem s hdr bytes v few room = record {
    buf = b2;
    result = pushed;
    valid = grown-IsValid b1 bytes v1 fits2;
    same_size = refl;
    behind =
        contents-grown b1 bytes v1 fits2
        ∙ ap (λ t. t ++ bytes) (contents-grown s.sbuf hd v fits1)
        ∙ append_assoc (contents s.sbuf) hd bytes;
  }
    where
      hd : List ℕ
      hd = abi.pack (wire abi s.network (record hdr { count = length bytes }))

      n : length hd ≡ abi.header_size
      n = law.sized (wire abi s.network (record hdr { count = length bytes }))

      fits1 : s.sbuf.tail + length hd ≤ s.sbuf.size
      fits1 = omega (arith, n)

      b1 : Buf
      b1 = grown s.sbuf hd

      v1 : IsValid b1
      v1 = grown-IsValid s.sbuf hd v fits1

      fits2 : b1.tail + length bytes ≤ b1.size
      fits2 = omega (arith, n)

      b2 : Buf
      b2 = grown b1 bytes

      same : length bytes % 2 ^ 16 ≡ length bytes
      same = omega arith

      same_head : abi.pack (wire abi s.network (record hdr { count = length bytes % 2 ^ 16 })) ≡ hd
      same_head = ap (λ k. abi.pack (wire abi s.network (record hdr { count = k }))) same

      first :
          (put s.sbuf (
            Source.bytes
              (abi.pack (wire abi s.network (record hdr { count = length bytes % 2 ^ 16 }))))).0
          ≡ b1
      first =
          ap (λ t. (put s.sbuf (Source.bytes t)).0) same_head
          ∙ ap (λ (x : Buf × Option ℕ). x.0) (put_fits s.sbuf hd v fits1)

      pushed : push_packet abi os s hdr bytes ≡ record s { sbuf = b2; events = poll_out }
      pushed =
          unfold push_packet in
          ap (λ b. record s { sbuf = data_put b (length bytes % 2 ^ 16) bytes; events = poll_out })
            first
          ∙ ap (λ b. record s { sbuf = b; events = poll_out }) (data_put_lem b1 bytes v1 few fits2)

module _ {abi : Abi} (law : IsAbi abi) {U : Type 0} (accept : ℕ → ℕ) where
  put_direct :
      (rounds : ℕ) (w : Stream U) (s : Sock) (hdr : Header) (packed : Buf)
      → ltb (tailroom s.sbuf) (abi.header_size + avail packed) ≡ false
      → put_packet abi (pipe U accept) rounds w s hdr packed
        ≡ some (w, push_packet abi (pipe U accept) s hdr (contents packed), ok tt)
  unfolding put_packet
  put_direct rounds w s hdr packed e = ground (arith, e)

  put_flushed :
      (rounds : ℕ) (w w1 : Stream U) (s s1 : Sock) (hdr : Header) (packed : Buf)
      → ltb (tailroom s.sbuf) (abi.header_size + avail packed) ≡ true
      → flsbuf (pipe U accept) rounds w s true ≡ some (w1, s1, ok tt)
      → ltb (tailroom (compact s1.sbuf)) (abi.header_size + avail packed) ≡ false
      → put_packet abi (pipe U accept) rounds w s hdr packed
        ≡ some (
          w1,
          push_packet abi
              (pipe U accept)
              (record s1 { sbuf = compact s1.sbuf })
              hdr
              (contents packed),
          ok tt,
        )
  unfolding put_packet
  put_flushed rounds w w1 s s1 hdr packed e flush room = ground (arith, e, flush, room)

  pub put_packet_lem :
      (rounds : ℕ) (w : Stream U) (s : Sock) (hdr : Header) (packed : Buf)
      → IsValid s.sbuf
      → IsValid packed
      → length (contents packed) < 2 ^ 16
      → abi.header_size + length (contents packed) ≤ s.sbuf.size
      → length (contents s.sbuf) < rounds
      → Put abi accept rounds w s hdr packed
  put_packet_lem rounds w s hdr packed v v' few fits enough =
      elim (Bool-cases (ltb (tailroom s.sbuf) (abi.header_size + avail packed))) [
        | inr e ↦
            let p : Pushed abi (pipe U accept) s hdr (contents packed) =
              push_packet_lem law (pipe U accept) s hdr (contents packed) v few
                (ground (arith, e, n, v)) in
            record {
              sent = w.sent;
              buf = p.buf;
              result = put_direct rounds w s hdr packed e ∙ ap (λ x. some (w, x, ok tt)) p.result;
              valid = p.valid;
              same_size = p.same_size;
              behind =
                  ap (λ t. w.sent ++ t) p.behind
                  ∙ sym (
                      append_assoc w.sent (contents s.sbuf)
                        (frame abi s.network (packet_of hdr (contents packed))));
            }
        | inl e ↦
            let f : Flushed accept rounds w s = flsbuf_lem accept rounds w s v enough in
            let c = compact_lem f.valid in
            let low : (compact f.buf).tail ≡ 0 =
              omega (arith, c.1, length-contents f.valid, ap length f.empty, f.valid) in
            let size : (compact f.buf).size ≡ s.sbuf.size = c.2 ∙ f.same_size in
            let s2 : Sock = record s { sbuf = compact f.buf; events = poll_in } in
            let p : Pushed abi (pipe U accept) s2 hdr (contents packed) =
              push_packet_lem law (pipe U accept) s2 hdr (contents packed) (compact-IsValid f.valid)
                few (omega (arith, low, size)) in
            record {
              sent = w.sent ++ contents s.sbuf;
              buf = p.buf;
              result =
                  put_flushed rounds w (record w { sent = w.sent ++ contents s.sbuf }) s
                    (record s { sbuf = f.buf; events = poll_in }) hdr packed e f.result
                    (ground (arith, low, size, n, v))
                  ∙ ap (λ x. some (record w { sent = w.sent ++ contents s.sbuf }, x, ok tt))
                      p.result;
              valid = p.valid;
              same_size = p.same_size ∙ size;
              behind =
                  ap (λ t. (w.sent ++ contents s.sbuf) ++ t)
                    (p.behind
                      ∙ ap (λ t. t ++ frame abi s.network (packet_of hdr (contents packed)))
                          (contents-compact f.valid ∙ f.empty));
            }
      ]
    where
      n : length (contents packed) ≡ avail packed
      n = omega (arith, length-contents v', v')

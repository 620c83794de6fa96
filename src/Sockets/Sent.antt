-- ===== src/Sockets/Sent.antt =====
-- Sending on a stream: `ct_socket_flsbuf` and `ct_socket_put_packet` of src/ct/socket.c.
use openct.Prelude.{
  min, ℕ, zero, suc, ◌<◌, ◌≡◌, refl, ap, sym, ◌∙◌, arith, true, false, some, [], ◌++◌, length, take,
  drop,
}
use openct.Prelude.{
  take-append-drop, length-take, length-drop, append_assoc, ◌==◌, Bool-cases, inl, inr, append-nil,
}
use openct.Prelude.Outcome.{ok}
use openct.Buffer.{Buf, contents, avail, get}
use openct.Buffer.Inv.{IsValid, length-contents}
use openct.Sockets.{Sock, flsbuf, poll_in}
use openct.Sockets.Pipe.{Stream, pipe}
use openct.Sockets.Packets.{get_front}

-- All that was in the buffer is on its way.
pub record Flushed {U : Type 0} (accept : ℕ → ℕ) (rounds : ℕ) (w : Stream U) (s : Sock)
    : Type 0 where
  pub buf : Buf
  pub result :
      flsbuf (pipe U accept) rounds w s true
      ≡ some (
        record w { sent = w.sent ++ contents s.sbuf },
        record s { sbuf = buf; events = poll_in },
        ok tt,
      )
  pub valid : IsValid buf
  pub same_size : buf.size ≡ s.sbuf.size
  pub empty : contents buf ≡ []

module _ {U : Type 0} (accept : ℕ → ℕ) where
  -- What the next write takes.
  abbrev taken : Stream U → Sock → ℕ
  taken w s = min (length (contents s.sbuf)) (suc (accept (length w.sent)))

  abbrev after_write : Stream U → Sock → Stream U
  after_write w s = record w { sent = w.sent ++ take (taken w s) (contents s.sbuf) }

  abbrev left : Stream U → Sock → Sock
  left w s = record s { sbuf = (get s.sbuf (taken w s)).0 }

  flsbuf_end :
      (rounds : ℕ) (w : Stream U) (s : Sock)
      → (avail s.sbuf == 0) ≡ true
      → flsbuf (pipe U accept) (suc rounds) w s true
        ≡ some (w, record s { events = poll_in }, ok tt)
  unfolding flsbuf
  flsbuf_end rounds w s e = ground (arith, e)

  flsbuf_step :
      (rounds : ℕ) (w : Stream U) (s : Sock)
      → (avail s.sbuf == 0) ≡ false
      → flsbuf (pipe U accept) (suc rounds) w s true
        ≡ flsbuf (pipe U accept) rounds (after_write w s) (left w s) true
  unfolding flsbuf
  flsbuf_step rounds w s e = ground (arith, e)

  left_lem :
      (w : Stream U) (s : Sock)
      → IsValid s.sbuf
      → let b = (left w s).sbuf in
        IsValid b × (b.size ≡ s.sbuf.size) × (contents b ≡ drop (taken w s) (contents s.sbuf))
  left_lem w s v =
      get_front s.sbuf (taken w s) (take (taken w s) (contents s.sbuf))
        (drop (taken w s) (contents s.sbuf)) v
        (omega (arith, length-take (taken w s) (contents s.sbuf)))
        (sym (take-append-drop (taken w s) (contents s.sbuf)))

  sent_lem :
      (w : Stream U) (s : Sock)
      → IsValid s.sbuf
      → (after_write w s).sent ++ contents (left w s).sbuf ≡ w.sent ++ contents s.sbuf
  sent_lem w s v =
      ap (λ t. (after_write w s).sent ++ t) (left_lem w s v).2
      ∙ append_assoc w.sent (take (taken w s) (contents s.sbuf))
          (drop (taken w s) (contents s.sbuf))
      ∙ ap (λ t. w.sent ++ t) (take-append-drop (taken w s) (contents s.sbuf))

  fewer_left :
      (rounds : ℕ) (w : Stream U) (s : Sock)
      → IsValid s.sbuf
      → (avail s.sbuf == 0) ≡ false
      → length (contents s.sbuf) < suc rounds
      → length (contents (left w s).sbuf) < rounds
  fewer_left rounds w s v e enough =
      let n = ap length (left_lem w s v).2 in
      let m = length-drop (taken w s) (contents s.sbuf) in
      let some_bytes : 0 < length (contents s.sbuf) = ground (arith, e, length-contents v, v) in
      omega (arith, n, m, some_bytes, enough)

  -- Whatever a write takes, as many rounds as there are bytes, and one, send them all.
  pub flsbuf_lem :
      (rounds : ℕ) (w : Stream U) (s : Sock)
      → IsValid s.sbuf
      → length (contents s.sbuf) < rounds
      → Flushed accept rounds w s
  flsbuf_lem zero w s v enough = absurd (omega arith)
  flsbuf_lem (suc rounds) w s v enough = elim (Bool-cases (avail s.sbuf == 0)) [
    | inl e ↦
        let none_left : contents s.sbuf ≡ [] = ground (arith, e) in
        record {
          buf = s.sbuf;
          result =
              flsbuf_end rounds w s e
              ∙ ap (λ t. some (record w { sent = t }, record s { events = poll_in }, ok tt))
                  (sym (ap (λ t. w.sent ++ t) none_left ∙ append-nil w.sent));
          valid = v;
          same_size = refl;
          empty = none_left;
        }
    | inr e ↦
        let rest =
          flsbuf_lem rounds (after_write w s) (left w s) (left_lem w s v).0
            (fewer_left rounds w s v e enough) in
        record {
          buf = rest.buf;
          result =
              flsbuf_step rounds w s e
              ∙ rest.result
              ∙ ap
                  (λ t.
                    some (
                      record w { sent = t },
                      record s { sbuf = rest.buf; events = poll_in },
                      ok tt,
                    ))
                  (sent_lem w s v);
          valid = rest.valid;
          same_size = rest.same_size ∙ (left_lem w s v).1;
          empty = rest.empty;
        }
  ]

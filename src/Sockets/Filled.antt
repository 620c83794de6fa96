-- ===== src/Sockets/Filled.antt =====
-- `ct_socket_filbuf` of src/ct/socket.c on a stream.
use openct.Prelude.{
  min, ◌≢◌, ℕ, ◌+◌, ◌≤◌, ◌<◌, ◌≡◌, refl, ap, sym, ◌∙◌, arith, none, List, [], ◌∷◌, ◌++◌, length,
  take, drop,
}
use openct.Prelude.{
  take-append-drop, length-take, append_assoc, ◌==◌, if◌then◌else◌, Bool-cases, inl, inr,
}
use openct.Prelude.Memory.{store}
use openct.Prelude.Outcome.{ok}
use openct.Buffer.{Buf, Source, compact, contents, tailroom, put, put_room}
use openct.Buffer.Inv.{IsValid, length-contents, compact-IsValid}
use openct.Buffer.Refine.{compact_lem, contents-compact}
use openct.Buffer.Append.{grown, grown-IsValid, contents-grown}
use openct.Sockets.{Sock, fill, filbuf}
use openct.Sockets.Pipe.{Stream, pipe, put_back, joined, AllFull}

-- Some bytes of the stream are now in the buffer, behind those that were there.
pub record Filled {U : Type 0} (accept : ℕ → ℕ) (w : Stream U) (s : Sock) : Type 0 where
  pub bytes : List ℕ
  pub rest : List (List ℕ)
  pub buf : Buf
  pub result :
      filbuf (pipe U accept) w s none
      ≡ (record w { incoming = rest }, record s { rbuf = buf }, ok (length bytes))
  pub some_bytes : 0 < length bytes
  pub valid : IsValid buf
  pub same_size : buf.size ≡ s.rbuf.size
  pub behind : contents buf ≡ contents s.rbuf ++ bytes
  pub stream : bytes ++ joined rest ≡ joined w.incoming
  pub full : AllFull rest

put_null :
    (b : Buf) (bs : List ℕ)
    → IsValid b
    → b.tail + length bs ≤ b.size
    → (put (record b { base = store b.base b.tail bs }) (Source.null (length bs))).0 ≡ grown b bs
unfolding put put_room
put_null b bs v room = ground arith

-- The buffer that is read into.
abbrev readied : Buf → Buf
readied b = if tailroom b == 0 then compact b else b

readied_lem :
    (b : Buf)
    → IsValid b
    → length (contents b) < b.size
    → IsValid (readied b)
      × ((readied b).size ≡ b.size)
      × ((readied b).tail < b.size)
      × (contents (readied b) ≡ contents b)
readied_lem b v room = elim (Bool-cases (tailroom b == 0)) [
  | inl e ↦
      let c = compact_lem v in
      rw e (compact-IsValid v, c.2, omega (arith, c.1, length-contents v, v), contents-compact v)
  | inr e ↦ rw e (v, refl, ground (arith, e, v), refl)
]

joined-put_back : (c : List ℕ) (cs : List (List ℕ)) → joined (put_back c cs) ≡ c ++ joined cs
joined-put_back [] cs = refl
joined-put_back (x ∷ c) cs = refl

put_back-AllFull : (c : List ℕ) (cs : List (List ℕ)) → AllFull cs → AllFull (put_back c cs)
put_back-AllFull [] cs h = h
put_back-AllFull (x ∷ c) cs h = (omega arith, h)

module _ {U : Type 0} (accept : ℕ → ℕ) where
  fill_lem :
      (w : Stream U) (s : Sock) (c : List ℕ) (cs : List (List ℕ))
      → w.incoming ≡ c ∷ cs
      → IsValid s.rbuf
      → 0 < length (take (tailroom s.rbuf) c)
      → s.rbuf.tail + length (take (tailroom s.rbuf) c) ≤ s.rbuf.size
      → let bs = take (tailroom s.rbuf) c in
        fill (pipe U accept) w s ≡ (
          record w { incoming = put_back (drop (tailroom s.rbuf) c) cs },
          record s { rbuf = grown s.rbuf bs },
          ok (length bs),
        )
  unfolding fill
  fill_lem w s c cs e v pos fits =
      ground (arith, e, pos, put_null s.rbuf (take (tailroom s.rbuf) c) v fits)

  filbuf-fill :
      (w : Stream U) (s : Sock)
      → 0 < tailroom (readied s.rbuf)
      → filbuf (pipe U accept) w s none
        ≡ fill (pipe U accept) w (record s { rbuf = readied s.rbuf })
  unfolding filbuf
  filbuf-fill w s pos = ground (arith, pos)

  pub filbuf_lem :
      (incoming : List (List ℕ)) (w : Stream U) (s : Sock)
      → w.incoming ≡ incoming
      → incoming ≢ []
      → AllFull incoming
      → IsValid s.rbuf
      → length (contents s.rbuf) < s.rbuf.size
      → Filled accept w s
  filbuf_lem [] w s e some_piece full v room = absurd (some_piece refl)
  filbuf_lem (c ∷ cs) w s e some_piece full v room = record {
    bytes = bs;
    rest = put_back (drop n c) cs;
    buf = grown b bs;
    result =
        filbuf-fill w s (omega (arith, ready))
        ∙ fill_lem w (record s { rbuf = b }) c cs e ready.0 (omega (arith, count, full.0, ready))
            fits;
    some_bytes = omega (arith, count, full.0, ready);
    valid = grown-IsValid b bs ready.0 fits;
    same_size = ready.1;
    behind = contents-grown b bs ready.0 fits ∙ ap (λ t. t ++ bs) ready.3;
    stream =
        ap (◌++◌ bs) (joined-put_back (drop n c) cs)
        ∙ sym (append_assoc bs (drop n c) (joined cs))
        ∙ ap (λ t. t ++ joined cs) (take-append-drop n c)
        ∙ ap joined (sym e);
    full = put_back-AllFull (drop n c) cs full.1;
  }
    where
      b : Buf
      b = readied s.rbuf

      n : ℕ
      n = tailroom b

      bs : List ℕ
      bs = take n c

      ready :
          IsValid b
          × (b.size ≡ s.rbuf.size)
          × (b.tail < s.rbuf.size)
          × (contents b ≡ contents s.rbuf)
      ready = readied_lem s.rbuf v room

      count : length bs ≡ min n (length c)
      count = length-take n c

      fits : b.tail + length bs ≤ b.size
      fits = omega (arith, count, ready.0)

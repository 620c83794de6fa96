-- ===== src/Sockets/Answers.antt =====
-- What a server answers to the packets that come, and that `ct_socket_default_recv_cb` of src/ct/socket.c
-- answers so.
use openct.Prelude.{
  ℕ, ◌+◌, ◌^◌, ◌≤◌, ◌<◌, ◌≡◌, refl, ap, sym, ◌∙◌, arith, Bool, some, List, [], ◌∷◌, ◌++◌, length,
}
use openct.Prelude.{append-nil, if◌then◌else◌, ◌==◌, not, Bool-cases, inl, inr}
use openct.Prelude.Outcome.{ok}
use openct.Buffer.{Buf, contents, clear, init, set}
use openct.Buffer.Inv.{IsValid, clear-IsValid, length-contents}
use openct.Sockets.{Header, Abi, Sock, poll_out, put_packet}
use openct.Sockets.Calls.{Process, answer}
use openct.Sockets.Pipe.{Stream, pipe, IsAbi, Packet, frame, frames}
use openct.Sockets.Put.{Put, put_packet_lem, packet_of}

-- What is done with a request, apart from the socket: the header and the response, and whether it went
-- well.
abbrev pub Handler : Type 0 → Type 0
Handler U = U → Header → Buf → Buf → U × Header × Buf × Bool

abbrev pub on_stream :
    {U : Type 0} → (abi : Abi) → (accept : ℕ → ℕ) → Handler U → Process abi (pipe U accept)
on_stream abi accept handler w h args resp =
    let (u, h1, resp1, fine) = handler w.own h args resp in (record w { own = u }, h1, resp1, fine)

-- The reply to a request, or none: a request without a number is not replied to, nor a failed one that
-- says that it is itself a reply.
abbrev pub reply_of : Header → Buf → Bool → List Packet
reply_of h resp fine =
    if h.xid == 0
    then []
    else if fine
    then packet_of (record h { error = 0; dest = 1 }) (contents resp) ∷ []
    else if not (h.dest == 0)
    then []
    else packet_of (record h { dest = 1 }) [] ∷ []

abbrev pub handled : {U : Type 0} → Handler U → List ℕ → U → Packet → U × Header × Buf × Bool
handled handler array u q = handler u q.head (set q.body q.head.count) (init array (4096 + 64))

-- What a server does that takes the packets one after another.
unfoldable pub answers : {U : Type 0} → Handler U → List ℕ → U → List Packet → U × List Packet
answers handler array u [] = (u, [])
answers handler array u (q ∷ qs) =
    let (u1, h, resp, fine) = handled handler array u q in
    let (u2, replies) = answers handler array u1 qs in (u2, reply_of h resp fine ++ replies)

-- A handler whose responses fit the socket's buffer.
abbrev pub Fits : {U : Type 0} → Abi → ℕ → List ℕ → Handler U → Type 0
Fits {U} abi size array handler =
    (u : U) (q : Packet)
    → let resp = (handled handler array u q).2 in
      IsValid resp
      × (length (contents resp) < 2 ^ 16)
      × (abi.header_size + length (contents resp) ≤ size)

-- A request is done, and the reply is in the buffer or sent.
pub record Done {U : Type 0} (abi : Abi) (accept : ℕ → ℕ) (handler : Handler U) (rounds : ℕ)
    (array : List ℕ) (w : Stream U) (s : Sock) (q : Packet) : Type 0 where
  pub sent : List ℕ
  pub buf : Buf
  pub events : ℕ
  pub result :
      answer abi
        (pipe U accept)
        (on_stream abi accept handler)
        rounds
        array
        w
        s
        q.head
        (set q.body q.head.count)
      ≡ some (
        record w { own = (handled handler array w.own q).0; sent = sent },
        record s { sbuf = buf; events = events },
        ok tt,
      )
  pub valid : IsValid buf
  pub same_size : buf.size ≡ s.sbuf.size
  pub behind :
      let r = handled handler array w.own q in
      sent ++ contents buf
      ≡ (w.sent ++ contents s.sbuf) ++ frames abi s.network (reply_of r.1 r.2 r.3)

module _ {abi : Abi} (law : IsAbi abi) {U : Type 0} (accept : ℕ → ℕ) (handler : Handler U)
    (array : List ℕ) where
  abbrev moved : Stream U → Packet → Stream U
  moved w q = record w { own = (handled handler array w.own q).0 }

  -- A reply put on the stream is what is done.
  Done-put :
      (rounds : ℕ) (w : Stream U) (s : Sock) (q : Packet) (hdr : Header) (packed : Buf)
      → IsValid s.sbuf
      → IsValid packed
      → length (contents packed) < 2 ^ 16
      → abi.header_size + length (contents packed) ≤ s.sbuf.size
      → s.sbuf.size < rounds
      → answer abi
          (pipe U accept)
          (on_stream abi accept handler)
          rounds
          array
          w
          s
          q.head
          (set q.body q.head.count)
        ≡ put_packet abi (pipe U accept) rounds (moved w q) s hdr packed
      → (let r = handled handler array w.own q in
          reply_of r.1 r.2 r.3 ≡ packet_of hdr (contents packed) ∷ [])
      → Done abi accept handler rounds array w s q
  unfolding frames
  Done-put rounds w s q hdr packed v v' few fits enough e same =
      let p : Put abi accept rounds (moved w q) s hdr packed =
        put_packet_lem law accept rounds (moved w q) s hdr packed v v' few fits
          (omega (arith, length-contents v, v, enough)) in
      record {
        sent = p.sent;
        buf = p.buf;
        events = poll_out;
        result = e ∙ p.result;
        valid = p.valid;
        same_size = p.same_size;
        behind =
            p.behind
            ∙ ap (λ t. (w.sent ++ contents s.sbuf) ++ t)
                (sym (append-nil (frame abi s.network (packet_of hdr (contents packed))))
                  ∙ ap (frames abi s.network) (sym same));
      }

  Done-silent :
      (rounds : ℕ) (w : Stream U) (s : Sock) (q : Packet)
      → IsValid s.sbuf
      → answer abi
          (pipe U accept)
          (on_stream abi accept handler)
          rounds
          array
          w
          s
          q.head
          (set q.body q.head.count)
        ≡ some (moved w q, s, ok tt)
      → (let r = handled handler array w.own q in reply_of r.1 r.2 r.3 ≡ [])
      → Done abi accept handler rounds array w s q
  unfolding frames
  Done-silent rounds w s q v e same = record {
    sent = w.sent;
    buf = s.sbuf;
    events = s.events;
    result = e;
    valid = v;
    same_size = refl;
    behind =
        sym (append-nil (w.sent ++ contents s.sbuf))
        ∙ ap (λ t. (w.sent ++ contents s.sbuf) ++ frames abi s.network t) (sym same);
  }

  pub answer_lem :
      (rounds : ℕ) (w : Stream U) (s : Sock) (q : Packet)
      → IsValid s.sbuf
      → Fits abi s.sbuf.size array handler
      → s.sbuf.size < rounds
      → Done abi accept handler rounds array w s q
  unfolding answer
  answer_lem rounds w s q v fits enough =
      let r = handled handler array w.own q in
      let h : Header = r.1 in
      let good = fits w.own q in
      elim (Bool-cases (h.xid == 0)) [
        | inl e ↦ Done-silent rounds w s q v (ground (arith, e)) (ground (arith, e))
        | inr e ↦ elim (Bool-cases r.3) [
          | inl f ↦
              Done-put rounds w s q (record h { error = 0; dest = 1 }) r.2 v good.0 good.1 good.2
                enough (ground (arith, e, f)) (ground (arith, e, f))
          | inr f ↦ elim (Bool-cases (h.dest == 0)) [
            | inr g ↦ Done-silent rounds w s q v (ground (arith, e, f, g)) (ground (arith, e, f, g))
            | inl g ↦
                let none_left : contents (clear r.2) ≡ [] = unfold clear in refl in
                Done-put rounds w s q (record h { dest = 1 }) (clear r.2) v (clear-IsValid good.0)
                  (omega (arith, ap length none_left)) (omega (arith, ap length none_left, good.2))
                  enough (ground (arith, e, f, g)) (ground (arith, e, f, g, none_left))
          ]
        ]
      ]

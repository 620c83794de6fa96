-- ===== src/Client/Answers.antt =====
-- The response of a handler on its way back to the client, over the socket of Client/Server.
use openct.Prelude.{ℕ, ◌+◌, ◌<◌, ◌≤◌, ◌≡◌, ◌^◌, refl, ap, sym, ◌∙◌, arith, true, false, Bool, some}
use openct.Prelude.{List, [], ◌∷◌, ◌++◌, length, append-nil, length-append}
use openct.Prelude.Outcome.{ok}
use openct.Buffer.{Buf, init, set, clear, contents, avail}
use openct.Buffer.Inv.{IsValid, init-IsValid, clear-IsValid, length-contents}
use openct.Buffer.Append.{grown, put_fits, grown-IsValid, contents-grown}
use openct.Tlv.{Parser, builder_init, put_tag, add_bytes, put_opaque, get_opaque}
use openct.Tlv.Build.{Added, put_opaque-Added, header_bytes}
use openct.Tlv.RoundTrip.{encode, IsItem}
use openct.Tlv.Received.{parse-encode, get_bytes_lem}
use openct.Locks.{Socket}
use openct.Process.{Reader}
use openct.Client.{ask_bytes}
use openct.Client.Server.{Server, socket_room, serve, deliver, direct}

-- A buffer with these bytes.
pub record Carries (b : Buf) (bs : List ℕ) : Type 0 where
  pub valid : IsValid b
  pub bytes : contents b ≡ bs

-- A response of one item, put with large tags on an empty buffer.
pub answer-Carries :
    (b : Buf) (tag : ℕ) (bs : List ℕ)
    → Carries b []
    → IsItem true (tag, bs)
    → b.tail + (3 + length bs) ≤ b.size
    → let r = add_bytes (put_tag (builder_init b true) tag) bs in
      (r.error ≡ false) × Carries r.buf (encode true ((tag, bs) ∷ []))
unfolding builder_init
answer-Carries b tag bs c it room =
    let a : Added (builder_init b true) (put_opaque (builder_init b true) tag bs)
        (header_bytes true tag (length bs) ++ bs) =
      put_opaque-Added (builder_init b true) tag bs refl c.valid it.0 room it.2 in
    unfold put_opaque in
    (
      a.no_error,
      record {
        valid = a.valid;
        bytes =
            a.added
            ∙ ap (λ t. t ++ (header_bytes true tag (length bs) ++ bs)) c.bytes
            ∙ ap (λ t. header_bytes true tag (length bs) ++ t) (sym (append-nil bs));
      },
    )

-- A response that the handler gives comes back as it is, where the sockets and the client have room.
pub deliver_lem :
    (rd : Reader) (memory : Bool) (mem base : List ℕ) (sock : Socket) (s s' : Server rd)
    (args answer : Buf) (size : ℕ) (bs : List ℕ)
    → serve rd memory mem sock s (set (contents args) (avail args)) ≡ some (s', answer, ok tt)
    → Carries answer bs
    → avail args ≤ socket_room
    → length bs ≤ socket_room
    → size ≤ length base
    → size < 2 ^ 31
    → length bs ≤ size
    → deliver rd memory mem sock s args (init base size)
        ≡ some (s', grown (clear (init base size)) bs, ok (length bs))
      × Carries (grown (clear (init base size)) bs) bs
unfolding deliver
deliver_lem rd memory mem base sock s s' args answer size bs e c room' few fits small room =
    let empty = clear (init base size) in
    let v : IsValid empty = clear-IsValid (init-IsValid base size fits small) in
    let n : avail answer ≡ length bs =
      omega (arith, length-contents c.valid, ap length c.bytes, c.valid) in
    let t : empty.tail ≡ 0 = unfold clear in refl in
    let z : empty.size ≡ size = unfold clear init in omega arith in
    let p = put_fits empty bs v (omega (arith, t, z, room)) in
    (
      ground (arith, e, n, p, t, z, c.bytes),
      record {
        valid = grown-IsValid empty bs v (omega (arith, t, z, room));
        bytes =
            contents-grown empty bs v (omega (arith, t, z, room))
            ∙ ap (λ t. t ++ bs) {y = []} (unfold clear init in refl);
      },
    )

-- `ct_socket_call` with an answer of one item, and `ct_tlv_get_bytes` of it.
pub ask_bytes_lem :
    (rd : Reader) (memory : Bool) (mem : List ℕ) (sock : Socket) (srv srv' : Server rd)
    (junk : Parser) (args answer : Buf) (size tag max : ℕ) (bs : List ℕ)
    → serve rd memory mem sock srv (set (contents args) (avail args)) ≡ some (srv', answer, ok tt)
    → Carries answer (encode true ((tag, bs) ∷ []))
    → IsItem true (tag, bs)
    → avail args ≤ socket_room
    → 3 + length bs ≤ socket_room
    → length bs ≤ max
    → 3 + length bs ≤ size
    → size ≤ length args.base
    → size < 2 ^ 31
    → ask_bytes (direct rd memory mem sock) junk srv args size tag max ≡ some (srv', ok bs)
unfolding ask_bytes
ask_bytes_lem rd memory mem sock srv srv' junk args answer size tag max bs e c it out back room fits
      inside small =
    let n = length-append bs [] in
    let sent =
      deliver_lem rd memory mem args.base sock srv srv' args answer size
        (encode true ((tag, bs) ∷ [])) e c out (omega (arith, n)) inside small (omega (arith, n)) in
    let resp = grown (clear (init args.base size)) (encode true ((tag, bs) ∷ [])) in
    let got = parse-encode junk resp tag bs [] sent.1.valid sent.1.bytes (it, tt) in
    let value : get_opaque got.parser resp.base tag ≡ some bs = got.values tag ∙ ground arith in
    ground (arith, sent.0, got.ends, get_bytes_lem got.parser resp.base tag max bs value room)

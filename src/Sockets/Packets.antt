-- ===== src/Sockets/Packets.antt =====
-- What `ct_socket_get_packet` of src/ct/socket.c makes of the bytes of packets.
use openct.Prelude.{
  ℕ, ◌+◌, ◌^◌, ◌≤◌, ◌<◌, ◌≡◌, ap, sym, ◌∙◌, arith, Bool, true, false, List, ◌++◌, length, take,
  drop,
}
use openct.Prelude.{
  take-append, drop-append, take-append_le, Bool-cases, inl, inr, ltb, length-append, append_assoc,
  take-all,
}
use openct.Buffer.{Buf, contents, avail, get, set}
use openct.Buffer.Inv.{IsValid, length-contents, get-IsValid, set-IsValid}
use openct.Buffer.Lines.{contents_advance, get_fits}
use openct.Sockets.{Header, Abi, Sock, Got, wire, get_packet}
use openct.Sockets.Pipe.{IsHeader, IsAbi, Packet, IsPacket, frame}

-- Taking the first bytes out of a buffer.
pub get_front :
    (b : Buf) (n : ℕ) (xs ys : List ℕ)
    → IsValid b
    → n ≡ length xs
    → contents b ≡ xs ++ ys
    → let b' = (get b (n)).0 in IsValid b' × (b'.size ≡ b.size) × (contents b' ≡ ys)
get_front b n xs ys v m e =
    let near : n ≤ avail b =
      omega (arith, m, length-contents v, ap length e, length-append xs ys, v) in
    let same = get_fits b (n) near in
    (
      get-IsValid (n) v,
      ap (λ (x : Buf). x.size) same,
      ap (λ x. contents x) same
          ∙ contents_advance (n) v near
          ∙ ap (drop (n)) e
          ∙ drop-append (n) xs ys m,
    )

contents-set : (xs : List ℕ) (n : ℕ) → length xs ≡ n → n < 2 ^ 31 → contents (set xs n) ≡ xs
unfolding set
contents-set xs n e h = take-all (avail (set xs n)) xs (omega arith)

module _ {abi : Abi} (law : IsAbi abi) where
  pub length-frame :
      (network : Bool) (p : Packet) → length (frame abi network p) ≡ abi.header_size + length p.body
  length-frame network p = omega (
    arith,
    length-append (abi.pack (wire abi network p.head)) p.body,
    law.sized (wire abi network p.head),
  )

  -- The bytes of a header are read back, in either order.
  wire_back :
      (network : Bool) (h : Header)
      → IsHeader h
      → wire abi network (abi.unpack (abi.pack (wire abi network h))) ≡ h
  wire_back false h v = law.read_back h v
  wire_back true h v =
      ap (wire abi true) (
        law.read_back (wire abi true h)
          (v.0, v.1, law.bounded h.error v.2, law.bounded h.count v.3))
      ∙ ground (arith, law.swapped h.error v.2, law.swapped h.count v.3)

  -- The socket after a packet was taken out, and the packet.
  pub get_packet_lem :
      (s : Sock) (size : ℕ) (p : Packet) (more : List ℕ)
      → IsValid s.rbuf
      → IsPacket abi size p
      → contents s.rbuf ≡ frame abi s.network p ++ more
      → (b : Buf) × (args : Buf) × (get_packet abi s
          ≡ (record s { rbuf = b }, Got.packet p.head args))
        × IsValid b
        × (b.size ≡ s.rbuf.size)
        × (contents b ≡ more)
        × IsValid args
        × (contents args ≡ p.body)
        × (args ≡ set p.body p.head.count)
  unfolding get_packet
  get_packet_lem s size p more v fits e = (
    second,
    args,
    ground (arith, head, near, known),
    back.0,
    omega (arith, front.1, back.1),
    back.2,
    valid,
    whole,
    ap (λ t. set t p.head.count) body,
  )
    where
      hd : List ℕ
      hd = abi.pack (wire abi s.network p.head)

      n : length hd ≡ abi.header_size
      n = law.sized (wire abi s.network p.head)

      e1 : contents s.rbuf ≡ hd ++ (p.body ++ more)
      e1 = e ∙ append_assoc hd p.body more

      near : abi.header_size + length p.body ≤ avail s.rbuf
      near = omega (
        arith,
        length-contents v,
        ap length e1,
        length-append hd (p.body ++ more),
        length-append p.body more,
        n,
        v,
      )

      head : wire abi s.network (abi.unpack (take abi.header_size (contents s.rbuf))) ≡ p.head
      head =
          ap (λ t. wire abi s.network (abi.unpack t))
            (ap (take abi.header_size) e1 ∙ take-append abi.header_size hd (p.body ++ more) (sym n))
          ∙ wire_back s.network p.head fits.0

      first : Buf
      first = (get s.rbuf abi.header_size).0

      front : IsValid first × (first.size ≡ s.rbuf.size) × (contents first ≡ p.body ++ more)
      front = get_front s.rbuf abi.header_size hd (p.body ++ more) v (sym n) e1

      second : Buf
      second = (get first p.head.count).0

      back : IsValid second × (second.size ≡ first.size) × (contents second ≡ more)
      back = get_front first p.head.count p.body more front.0 fits.1 front.2

      args : Buf
      args = set (take p.head.count (contents first)) p.head.count

      body : take p.head.count (contents first) ≡ p.body
      body = ap (take p.head.count) front.2 ∙ take-append p.head.count p.body more fits.1

      valid : IsValid args
      valid =
          set-IsValid (take p.head.count (contents first)) p.head.count
            (omega (arith, ap length body, fits.1)) (omega arith)

      whole : contents args ≡ p.body
      whole =
          contents-set (take p.head.count (contents first)) p.head.count
            (omega (arith, ap length body, fits.1)) (omega arith)
          ∙ body

      known : p.head.count ≡ length p.body
      known = fits.1

  -- A part of a packet is left in the buffer.
  pub incomplete_lem :
      (s : Sock) (p : Packet) (future later : List ℕ)
      → IsValid s.rbuf
      → IsPacket abi s.rbuf.size p
      → contents s.rbuf ++ future ≡ frame abi s.network p ++ later
      → length (contents s.rbuf) < abi.header_size + length p.body
      → get_packet abi s ≡ (s, Got.incomplete)
  unfolding get_packet
  incomplete_lem s p future later v fits e short =
      elim (Bool-cases (ltb (avail s.rbuf) abi.header_size)) [
        | inl few ↦ ground (arith, few)
        | inr enough ↦
            let hd : List ℕ = abi.pack (wire abi s.network p.head) in
            let head : wire abi s.network (abi.unpack (take abi.header_size (contents s.rbuf)))
                ≡ p.head =
              ap (λ t. wire abi s.network (abi.unpack t))
                (sym (
                    take-append_le abi.header_size (contents s.rbuf) future
                      (ground (arith, length-contents v, enough, v)))
                  ∙ ap (take abi.header_size) (e ∙ append_assoc hd p.body later)
                  ∙ take-append abi.header_size hd (p.body ++ later)
                      (sym (law.sized (wire abi s.network p.head))))
              ∙ wire_back s.network p.head fits.0 in
            ground (arith, head, enough, short, fits.1, fits.2, length-contents v, v)
      ]

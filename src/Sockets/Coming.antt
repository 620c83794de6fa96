-- ===== src/Sockets/Coming.antt =====
-- Packets on their way to a client, of which the last is its reply.
use openct.Prelude.{ℕ, ◌≡◌, ◌≢◌, ◌∙◌, arith, Bool, List, [], ◌∷◌, ◌++◌}
use openct.Prelude.{append_assoc}
use openct.Buffer.{contents}
use openct.Buffer.Inv.{IsValid}
use openct.Sockets.{Abi, Sock}
use openct.Sockets.Pipe.{Stream, Packet, IsPacket, AllPackets, frame, frames, joined, AllFull}
use openct.Sockets.Feed.{Feed}

-- None of the packets has this number.
abbrev pub NoneWith : ℕ → List Packet → Type 0
NoneWith xid [] = Unit
NoneWith xid (q ∷ qs) = (q.head.xid ≢ xid) × NoneWith xid qs

-- The packets `others` are to come, then `p`, and then the bytes `later`.
pub record Coming {U : Type 0} (abi : Abi) (w : Stream U) (s : Sock) (others : List Packet)
    (p : Packet) (later : List ℕ) : Type 0 where
  pub valid : IsValid s.rbuf
  pub others_fit : AllPackets abi s.rbuf.size others
  pub fits : IsPacket abi s.rbuf.size p
  pub full : AllFull w.incoming
  pub stream :
      contents s.rbuf ++ joined w.incoming
      ≡ frames abi s.network others ++ (frame abi s.network p ++ later)

-- The packet that comes first, and the bytes behind it.
abbrev pub next_packet : List Packet → Packet → Packet
next_packet [] p = p
next_packet (q ∷ qs) p = q

abbrev pub behind : Abi → Bool → List Packet → Packet → List ℕ → List ℕ
behind abi network [] p later = later
behind abi network (q ∷ qs) p later = frames abi network qs ++ (frame abi network p ++ later)

pub AllPackets-size :
    (abi : Abi) (a b : ℕ) (ps : List Packet) → a ≡ b → AllPackets abi a ps → AllPackets abi b ps
AllPackets-size abi a b [] e h = tt
AllPackets-size abi a b (p ∷ ps) e h =
    ((h.0.0, h.0.1, omega (arith, h.0.2, e)), AllPackets-size abi a b ps e h.1)

module _ {abi : Abi} {U : Type 0} where
  pub Coming-Feed :
      (w : Stream U) (s : Sock) (others : List Packet) (p : Packet) (later : List ℕ)
      → Coming abi w s others p later
      → Feed abi w s (next_packet others p) (behind abi s.network others p later)
  unfolding frames
  Coming-Feed w s [] p later c = record {
    valid = c.valid;
    fits = c.fits;
    full = c.full;
    stream = c.stream;
  }
  Coming-Feed w s (q ∷ qs) p later c = record {
    valid = c.valid;
    fits = c.others_fit.0;
    full = c.full;
    stream =
        c.stream
        ∙ append_assoc (frame abi s.network q) (frames abi s.network qs)
            (frame abi s.network p ++ later);
  }

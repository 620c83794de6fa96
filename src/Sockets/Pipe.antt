-- ===== src/Sockets/Pipe.antt =====
-- A stream that cuts what is sent as it likes, and packets on it.
use openct.Prelude.{
  ℕ, suc, ◌+◌, ◌^◌, ◌≤◌, ◌<◌, ◌≡◌, Bool, true, some, List, [], ◌∷◌, ◌++◌, length, take, drop, min,
}
use openct.Sockets.{Header, Abi, Os, wire}

-- The pieces that are to come, what was written, and what else there is.
pub record Stream (U : Type 0) : Type 0 where
  pub incoming : List (List ℕ)
  pub sent : List ℕ
  pub own : U

abbrev pub put_back : List ℕ → List (List ℕ) → List (List ℕ)
put_back [] cs = cs
put_back (x ∷ c) cs = (x ∷ c) ∷ cs

abbrev pub read_piece : {U : Type 0} → Stream U → ℕ → List (List ℕ) → Stream U × List ℕ
read_piece w n [] = (w, [])
read_piece w n (c ∷ cs) = (record w { incoming = put_back (drop n c) cs }, take n c)

-- `accept` says how much more than one byte a write takes, by what was written before.
abbrev pub pipe : Type 0 → (ℕ → ℕ) → Os
pipe U accept = record {
  World = Stream U;
  read = λ w n. (let (w', bs) = read_piece w n w.incoming in (w', some bs));
  write = λ w bs.
      (let n = min (length bs) (suc (accept (length w.sent))) in
        (record w { sent = w.sent ++ take n bs }, some n));
  poll = λ w t. (w, true);
}

abbrev pub joined : List (List ℕ) → List ℕ
joined [] = []
joined (c ∷ cs) = c ++ joined cs

-- Every piece has a byte.
abbrev pub AllFull : List (List ℕ) → Type 0
AllFull [] = Unit
AllFull (c ∷ cs) = (0 < length c) × AllFull cs

-- The numbers that a `header_t` can hold.
abbrev pub IsHeader : Header → Type 0
IsHeader h = (h.xid < 2 ^ 32) × (h.dest < 2 ^ 32) × (h.error < 2 ^ 16) × (h.count < 2 ^ 16)

-- What a `header_t` in memory is: a fixed number of bytes, from which it is read back; and `ntohs` goes
-- back and forth.
pub record IsAbi (abi : Abi) : Type 0 where
  pub some_bytes : 0 < abi.header_size
  pub few_bytes : abi.header_size < 2 ^ 16
  pub sized : (h : Header) → length (abi.pack h) ≡ abi.header_size
  pub read_back : (h : Header) → IsHeader h → abi.unpack (abi.pack h) ≡ h
  pub bounded : (n : ℕ) → n < 2 ^ 16 → abi.ntohs n < 2 ^ 16
  pub swapped : (n : ℕ) → n < 2 ^ 16 → abi.ntohs (abi.ntohs n) ≡ n

pub record Packet : Type 0 where
  pub head : Header
  pub body : List ℕ

-- A packet that a buffer of `size` bytes can hold.
abbrev pub IsPacket : Abi → ℕ → Packet → Type 0
IsPacket abi size p =
    IsHeader p.head × (p.head.count ≡ length p.body) × (abi.header_size + length p.body ≤ size)

abbrev pub AllPackets : Abi → ℕ → List Packet → Type 0
AllPackets abi size [] = Unit
AllPackets abi size (p ∷ ps) = IsPacket abi size p × AllPackets abi size ps

abbrev pub frame : Abi → Bool → Packet → List ℕ
frame abi network p = abi.pack (wire abi network p.head) ++ p.body

unfoldable pub frames : Abi → Bool → List Packet → List ℕ
frames abi network [] = []
frames abi network (p ∷ ps) = frame abi network p ++ frames abi network ps

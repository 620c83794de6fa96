-- ===== src/Sockets/Runs.antt =====
-- The sockets with the headers of a little-endian machine: a call, and a server, on streams that are cut.
use openct.Prelude.{
  Option, ℕ, ◌+◌, ◌*◌, ◌/◌, ◌%◌, ◌^◌, ◌≤◌, ◌<◌, ◌≡◌, refl, ap, ◌∙◌, arith, Bool, true, false, some,
  List, [], ◌∷◌, ◌++◌, length, replicate,
}
use openct.Prelude.Outcome.{ok}
use openct.Buffer.{Buf, Source, init, set, put, contents}
use openct.Buffer.Inv.{IsValid, init-IsValid, put-IsValid}
use openct.Buffer.Append.{put_fits, contents-grown}
use openct.Sockets.{Header, Abi, Sock}
use openct.Sockets.Pipe.{Stream, IsAbi, IsHeader, Packet, frames, joined}
use openct.Sockets.Coming.{Coming}
use openct.Sockets.Replied.{Replied, call-Replied}
use openct.Sockets.Answers.{Handler, Fits, answers}
use openct.Sockets.Served.{Queue}
use openct.Sockets.Drained.{drain, requests_answered}

abbrev bytes4 : ℕ → List ℕ → List ℕ
bytes4 n rest = n % 256 ∷ n / 256 % 256 ∷ n / 65536 % 256 ∷ n / 16777216 % 256 ∷ rest

abbrev pack_little : Header → List ℕ
pack_little h =
    bytes4 h.xid (
      bytes4 h.dest
        (h.error % 256 ∷ h.error / 256 % 256 ∷ h.count % 256 ∷ h.count / 256 % 256 ∷ []))

abbrev no_header : Header
no_header = record { xid = 0; dest = 0; error = 0; count = 0 }

abbrev read4 : ℕ → ℕ → ℕ → ℕ → ℕ
read4 a b c d = a + 256 * b + 65536 * c + 16777216 * d

abbrev unpack_little : List ℕ → Header
unpack_little (a ∷ b ∷ c ∷ d ∷ e ∷ f ∷ g ∷ h ∷ i ∷ j ∷ k ∷ l ∷ rest) = record {
  xid = read4 a b c d;
  dest = read4 e f g h;
  error = i + 256 * j;
  count = k + 256 * l;
}
unpack_little _ = no_header

abbrev little : Abi
little = record {
  header_size = 12;
  pack = pack_little;
  unpack = unpack_little;
  ntohs = λ n. n % 256 * 256 + n / 256;
}

header_back : (h : Header) → IsHeader h → unpack_little (pack_little h) ≡ h
header_back h v = ground arith

swap_back : (n : ℕ) → n < 2 ^ 16 → (let m = n % 256 * 256 + n / 256 in m % 256 * 256 + m / 256) ≡ n
swap_back n h = omega arith

little-IsAbi : IsAbi little
little-IsAbi = record {
  some_bytes = omega arith;
  few_bytes = omega arith;
  sized = λ h. refl;
  read_back = header_back;
  bounded = λ n h. omega arith;
  swapped = swap_back;
}

abbrev fresh : Buf
fresh = init (replicate 64 0) 64

abbrev sock : Bool → Sock
sock network = record { rbuf = fresh; sbuf = fresh; eof = false; network = network; events = 1 }

fresh-IsValid : IsValid fresh
fresh-IsValid = init-IsValid (replicate 64 0) 64 (omega arith) (omega arith)

-- A packet of another call, and the reply.
abbrev stray : Packet
stray = record { head = record { xid = 7; dest = 1; error = 0; count = 1 }; body = 9 ∷ [] }

abbrev reply : Packet
reply = record { head = record { xid = 1; dest = 1; error = 0; count = 2 }; body = 0x90 ∷ 0 ∷ [] }

abbrev cut_stream : Stream ℕ
cut_stream = record {
  incoming =
      (7 ∷ 0 ∷ 0 ∷ 0 ∷ 1 ∷ [])
      ∷ (0 ∷ 0 ∷ 0 ∷ 0 ∷ 0 ∷ 1 ∷ 0 ∷ 9 ∷ 1 ∷ 0 ∷ [])
      ∷ (0 ∷ 0 ∷ 1 ∷ 0 ∷ 0 ∷ 0 ∷ 0 ∷ 0 ∷ 2 ∷ 0 ∷ 0x90 ∷ 0 ∷ [])
      ∷ [];
  sent = [];
  own = 0;
}

abbrev args : Buf
args = set (0x21 ∷ 0 ∷ []) 2

args-IsValid : IsValid args
unfolding set init
args-IsValid = omega arith

replies_come : Coming little cut_stream (sock false) (stray ∷ []) reply []
unfolding frames init
replies_come = record {
  valid = fresh-IsValid;
  others_fit = (((omega arith, omega arith, omega arith, omega arith), refl, omega arith), tt);
  fits = ((omega arith, omega arith, omega arith, omega arith), refl, omega arith);
  full = (omega arith, (omega arith, (omega arith, tt)));
  stream = refl;
}

call-Replied_example : Replied little (λ n. n % 3) 200 cut_stream (sock false) 0 args fresh reply []
unfolding init set
call-Replied_example =
    call-Replied little-IsAbi (λ n. n % 3) 200 cut_stream (sock false) 0 args fresh (stray ∷ [])
      reply [] fresh-IsValid args-IsValid fresh-IsValid (omega arith) (omega arith) replies_come
      refl (omega arith, tt) refl refl (omega arith) (omega arith) (omega arith)

-- A server that counts the requests, and replies with how many there were before.
abbrev counting : Handler ℕ
counting u h request resp = (u + 1, h, (put resp (Source.bytes (u ∷ []))).0, true)

abbrev array : List ℕ
array = replicate 4160 0

counting-Fits : Fits little 64 array counting
counting-Fits u q =
    let empty = init array (4096 + 64) in
    let v : IsValid empty = init-IsValid array (4096 + 64) (omega arith) (omega arith) in
    let room : empty.tail + 1 ≤ empty.size = unfold init in omega arith in
    let same : contents (put empty (Source.bytes (u ∷ []))).0 ≡ contents empty ++ (u ∷ []) =
      ap (λ (x : Buf × Option ℕ). contents x.0) (put_fits empty (u ∷ []) v room)
      ∙ contents-grown empty (u ∷ []) v room in
    let one : length (contents (put empty (Source.bytes (u ∷ []))).0) ≡ 1 =
      ap length same ∙ (unfold init in refl) in
    (put-IsValid (Source.bytes (u ∷ [])) v, omega (arith, one), omega (arith, one))

-- Two requests, in the order of the network, in pieces of one, twenty and three bytes.
abbrev requests : List Packet
requests =
    record { head = record { xid = 5; dest = 0; error = 0; count = 0 }; body = [] }
    ∷ record { head = record { xid = 6; dest = 0; error = 0; count = 0 }; body = [] }
    ∷ []

abbrev cut_requests : Stream ℕ
cut_requests = record {
  incoming =
      (5 ∷ [])
      ∷ (0 ∷ 0 ∷ 0 ∷ 0 ∷ 0 ∷ 0 ∷ 0 ∷ 0 ∷ 0 ∷ 0 ∷ 0 ∷ 6 ∷ 0 ∷ 0 ∷ 0 ∷ 0 ∷ 0 ∷ 0 ∷ 0 ∷ 0 ∷ [])
      ∷ (0 ∷ 0 ∷ 0 ∷ [])
      ∷ [];
  sent = [];
  own = 40;
}

requests_come : Queue little cut_requests (sock true) requests
unfolding frames init
requests_come = record {
  valid = fresh-IsValid;
  sends = fresh-IsValid;
  fit = (
    ((omega arith, omega arith, omega arith, omega arith), refl, omega arith),
    (((omega arith, omega arith, omega arith, omega arith), refl, omega arith), tt),
  );
  full = (omega arith, (omega arith, (omega arith, tt)));
  stream = refl;
}

requests_answered_example :
    (w' : Stream ℕ) × (s' : Sock) × (drain little-IsAbi
        (λ n. 4)
        counting
        array
        65
        25
        cut_requests
        (sock true)
      ≡ some (w', s', ok tt))
    × (w'.own ≡ 42)
    × (w'.sent ++ contents s'.sbuf ≡ frames little true (answers counting array 40 requests).1)
    × (joined w'.incoming ≡ [])
unfolding init answers
requests_answered_example =
    requests_answered little-IsAbi (λ n. 4) counting array 65 cut_requests (sock true) requests
      requests_come refl refl refl counting-Fits (omega arith)

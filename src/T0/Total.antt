-- ===== src/T0/Total.antt =====
-- `t0_transceive` of src/ifd/proto-t0.c returns, whatever the device does.
use openct.Prelude.{
  not, ◌==◌, ℕ, zero, suc, ◌+◌, ◌-◌, ◌^◌, ◌<◌, ◌≤◌, ◌≡◌, ◌≢◌, refl, arith, Bool, true, false,
}
use openct.Prelude.{
  Option, none, some, List, [], ◌∷◌, length, take, get_or, All, ltb, if◌then◌else◌,
}
use openct.Prelude.{Bool-cases, Option-cases, inl, inr, ◌∙◌, length-take, length-append}
use openct.Prelude.Memory.{u8, u32, store, length-store}
use openct.Buffer.{Buf, Source, source_len, avail, tailroom, contents}
use openct.Buffer
use openct.Buffer.Inv.{length-copy_in}
use openct.Driver.{Device}
use openct.Apdu.Encoding.{iso_parse-le}
use openct.Apdu.{Case, case_1, case_2s, case_3s, case_4s, Iso, iso_parse}
use openct.T0.{T0, Xfer, send_some, recv_some, on_status, on_data, on_byte, Round, round}
use openct.T0.{loop, finish, Exchanged, sending, receiving}
use openct.T0.Transceive.{xcv, xcv_start, xcv_block, get_response, after_data, exchange, transceive}
use openct.T0.Transceive.{command, response_len}
use openct.T0.Termination.{xcv_ends}

length-put : (b : Buf) (src : Source) → length (Buffer.put b src).0.base ≡ length b.base
unfolding Buffer.put Buffer.put_room Buffer.compact
length-put b src = ground (
  arith,
  length-copy_in b.base b.tail src,
  length-store b.base 0 (contents b),
  length-copy_in (store b.base 0 (contents b)) (u32 (b.tail + 2 ^ 32 - b.head)) src,
)

module _ (dev : Device) where
  -- The room for the response, and how many null bytes are allowed, stay.
  abbrev Kept : Xfer dev → Xfer dev → Type 0
  Kept x x' = (length x'.rbuf.base ≡ length x.rbuf.base) × (x'.t0.max_nulls ≡ x.t0.max_nulls)

  abbrev Keeps : Xfer dev → Round dev → Type 0
  Keeps x (Round.again x') = Kept x x'
  Keeps x (Round.done x') = Kept x x'
  Keeps x (Round.failed x') = Kept x x'
  Keeps x (Round.unexpected x') = Kept x x'

  recv_some-Kept : (x : Xfer dev) (count : Option ℕ) → Kept x (recv_some dev x count).0
  unfolding recv_some
  recv_some-Kept x count =
      let n : ℕ = elim count as (λ _. ℕ) [ none ↦ tailroom x.rbuf | some k ↦ k ] in
      elim (Option-cases (dev.recv x.device n x.t0.timeout).1) [
        | inl e ↦ ground (arith, e)
        | inr (xs, e) ↦
            let b : Buf = record x.rbuf { base = store x.rbuf.base x.rbuf.tail xs } in
            ground (arith, e, length-put b (Source.null n), length-store x.rbuf.base x.rbuf.tail xs)
      ]

  send_some-Kept : (x : Xfer dev) (count : Option ℕ) → Kept x (send_some dev x count).0
  unfolding send_some
  send_some-Kept x count = ground arith

  on_data-Keeps : (x : Xfer dev) (count : Option ℕ) → Keeps x (on_data dev x count)
  unfolding on_data
  on_data-Keeps x count = ground (arith, recv_some-Kept x count, send_some-Kept x count)

  on_status-Keeps : (x : Xfer dev) (byte : ℕ) → Keeps x (on_status dev x byte)
  unfolding on_status
  on_status-Keeps x byte =
      let b = (Buffer.put x.rbuf (Source.bytes (byte ∷ []))).0 in
      ground (
        arith,
        length-put x.rbuf (Source.bytes (byte ∷ [])),
        recv_some-Kept (record x { rbuf = b }) (some 1),
      )

  round-Keeps : (x : Xfer dev) (ins : ℕ) → Keeps x (round dev x ins)
  unfolding round on_byte
  round-Keeps x ins =
      let x1 : Xfer dev = record x { device = (dev.recv x.device 1 x.t0.timeout).0 } in
      elim (Option-cases (dev.recv x.device 1 x.t0.timeout).1) [
        | inl e ↦ ground (arith, e)
        | inr (xs, e) ↦ ground (
          arith,
          e,
          on_status-Keeps x1 (get_or xs 0 0),
          on_data-Keeps x1 none,
          on_data-Keeps x1 (some 1),
        )
      ]

  loop-Keeps : (fuel ins : ℕ) (x : Xfer dev) → Keeps x (loop dev fuel ins x)
  unfolding loop
  loop-Keeps zero ins x = (refl, refl)
  loop-Keeps (suc fuel) ins x =
      go (round dev x ins) (round-Keeps x ins) (λ x'. loop-Keeps fuel ins x')
    where
      join : (x' : Xfer dev) (r : Round dev) → Kept x x' → Keeps x' r → Keeps x r
      join x' (Round.again y) k l = (l.0 ∙ k.0, l.1 ∙ k.1)
      join x' (Round.done y) k l = (l.0 ∙ k.0, l.1 ∙ k.1)
      join x' (Round.failed y) k l = (l.0 ∙ k.0, l.1 ∙ k.1)
      join x' (Round.unexpected y) k l = (l.0 ∙ k.0, l.1 ∙ k.1)

      go :
          (r : Round dev)
          → Keeps x r
          → ((x' : Xfer dev) → Keeps x' (loop dev fuel ins x'))
          → Keeps x (elim r as (λ _. Round dev) [
            | Round.again x' ↦ loop dev fuel ins x'
            | Round.done x' ↦ Round.done x'
            | Round.failed x' ↦ Round.failed x'
            | Round.unexpected x' ↦ Round.unexpected x'
          ])
      go (Round.again x') k ih = join x' (loop dev fuel ins x') k (ih x')
      go (Round.done x') k ih = k
      go (Round.failed x') k ih = k
      go (Round.unexpected x') k ih = k

  abbrev KeptIn : T0 → List ℕ → Option (Exchanged dev) → Type 0
  KeptIn t mem none = Unit
  KeptIn t mem (some e) = (length e.mem ≡ length mem) × (e.t0.max_nulls ≡ t.max_nulls)

  finish-KeptIn :
      (x : Xfer dev) (r : Round dev) → Keeps x r → KeptIn x.t0 x.rbuf.base (finish dev r)
  unfolding finish
  finish-KeptIn x (Round.again y) k = tt
  finish-KeptIn x (Round.done y) k = k
  finish-KeptIn x (Round.failed y) k = k
  finish-KeptIn x (Round.unexpected y) k = k

  KeptIn-weaken :
      (t t' : T0) (mem mem' : List ℕ) (o : Option (Exchanged dev))
      → length mem' ≡ length mem
      → t'.max_nulls ≡ t.max_nulls
      → KeptIn t' mem' o
      → KeptIn t mem o
  KeptIn-weaken t t' mem mem' none a b k = tt
  KeptIn-weaken t t' mem mem' (some e) a b k = (k.0 ∙ a, k.1 ∙ b)

  xcv_block-KeptIn :
      (t : T0) (d : dev.State) (sdata : List ℕ) (slen : ℕ) (mem : List ℕ) (rlen : ℕ)
      → KeptIn t mem (some (xcv_block dev t d sdata slen mem rlen))
  unfolding xcv_block
  xcv_block-KeptIn t d sdata slen mem rlen =
      let d1 = (dev.send d (take slen sdata)).0 in
      elim (Option-cases (dev.recv d1 rlen t.timeout).1) [
        | inl e ↦ ground (arith, e)
        | inr (xs, e) ↦ ground (arith, e, length-store mem 0 xs)
      ]

  xcv-KeptIn :
      (fuel : ℕ) (t : T0) (d : dev.State) (sdata : List ℕ) (slen : ℕ) (mem : List ℕ) (rlen : ℕ)
      → KeptIn t mem (xcv dev fuel t d sdata slen mem rlen)
  unfolding xcv
  xcv-KeptIn fuel t d sdata slen mem rlen =
      pick (not (t.block_oriented == 0)) (send_some dev x (some 5)).1
    where
      x : Xfer dev
      x = xcv_start dev t d sdata slen mem rlen

      y : Xfer dev
      y = (send_some dev x (some 5)).0

      stream : (r : Round dev) → Keeps y r → KeptIn t mem (finish dev r)
      stream r k =
          let s = send_some-Kept x (some 5) in
          KeptIn-weaken t y.t0 mem y.rbuf.base (finish dev r)
            (s.0 ∙ (unfold xcv_start Buffer.init in refl)) (s.1 ∙ (unfold xcv_start in refl))
            (finish-KeptIn y r k)

      pick :
          (block sent : Bool)
          → KeptIn t mem (
              if block
              then some (xcv_block dev t d sdata slen mem rlen)
              else if sent
              then finish dev (loop dev fuel (get_or sdata 1 0) y)
              else finish dev (Round.failed y))
      pick true sent = xcv_block-KeptIn t d sdata slen mem rlen
      pick false true = stream _ (loop-Keeps fuel (get_or sdata 1 0) y)
      pick false false = stream (Round.failed y) (refl, refl)

  -- The command goes out with at most one byte more than it has, and what it expects fits a byte.
  length-command :
      (c : Case) (sbuf : List ℕ) (slen : ℕ)
      → 4 ≤ slen
      → slen ≤ length sbuf
      → let (out, n) = command dev c sbuf slen in (n ≤ length out) × (n ≤ slen + 1)
  length-command case_1 sbuf slen four le =
      ground (arith, length-append (take 4 sbuf) (0 ∷ []), length-take 4 sbuf)
  length-command case_2s sbuf slen four le = omega arith
  length-command case_3s sbuf slen four le = omega arith
  length-command case_4s sbuf slen four le = omega arith

  -- How much is enough: for the buffers, and for the rounds of each of two exchanges.
  abbrev pub Enough : ℕ → T0 → List ℕ → ℕ → List ℕ → ℕ → Type 0
  Enough fuel t sbuf slen mem rlen =
      (slen ≤ length sbuf)
      × (slen < 2 ^ 31 - 1)
      × All (λ b. b < 256) sbuf
      × (rlen ≤ length mem)
      × (258 ≤ length mem)
      × (rlen < 2 ^ 31)
      × (t.max_nulls < 2 ^ 32 - 1)
      × (t.max_nulls + slen + rlen + 264 < fuel)

  after_data_returns :
      (fuel : ℕ) (iso : Iso) (e : Exchanged dev)
      → iso.le ≤ 256
      → 258 ≤ length e.mem
      → e.t0.max_nulls < 2 ^ 32 - 1
      → e.t0.max_nulls + 264 < fuel
      → after_data dev fuel iso e ≢ none
  unfolding after_data get_response
  after_data_returns fuel iso e le room few enough =
      let n = response_len dev iso.le e.mem in
      let ask : List ℕ = iso.cla ∷ 0xC0 ∷ 0 ∷ 0 ∷ u8 n ∷ [] in
      let t : T0 = record e.t0 { state = receiving } in
      let short : n ≤ 256 = ground arith in
      ground (arith, le, xcv_ends dev fuel t e.device ask 5 e.mem (n + 2) (omega (arith, short)))

  exchange_returns :
      (fuel : ℕ) (t : T0) (d : dev.State) (iso : Iso) (sbuf : List ℕ) (slen : ℕ) (mem : List ℕ)
      (rlen : ℕ)
      → 4 ≤ slen
      → iso.le ≤ 256
      → Enough fuel t sbuf slen mem rlen
      → exchange dev fuel t d iso sbuf slen mem rlen ≢ none
  unfolding exchange
  exchange_returns fuel t d iso sbuf slen mem rlen four le enough =
      let (out, n) = command dev iso.cse sbuf slen in
      let c = length-command iso.cse sbuf slen four (omega arith) in
      let ts : T0 = record t { state = sending } in
      let tr : T0 = record t { state = receiving } in
      let first = xcv_ends dev fuel ts d out n mem rlen (omega (arith, c)) in
      let only = xcv_ends dev fuel tr d out n mem (iso.le + 2) (omega (arith, c)) in
      elim (Option-cases (xcv dev fuel ts d out n mem rlen)) [
        | inl lost ↦ absurd (first lost)
        | inr (e, sent) ↦
            let k : KeptIn ts mem (some e) = rw sent at (xcv-KeptIn fuel ts d out n mem rlen) in
            ground (
              arith,
              sent,
              only,
              after_data_returns fuel iso e le (omega (arith, k.0)) (omega (arith, k.1))
                  (omega (arith, k.1)),
            )
      ]

  -- Whatever the device does, the exchange of a command comes to an end: so many rounds are enough as
  -- there are null bytes allowed, bytes of the command and bytes of room, and 265 more, where the array
  -- for the response has 258 bytes.
  pub transceive_returns :
      (fuel : ℕ) (t : T0) (d : dev.State) (sbuf : List ℕ) (slen : ℕ) (mem : List ℕ) (rlen : ℕ)
      → Enough fuel t sbuf slen mem rlen
      → transceive dev fuel t d sbuf slen mem rlen ≢ none
  unfolding transceive
  transceive_returns fuel t d sbuf slen mem rlen enough =
      elim (Option-cases (iso_parse sbuf slen)) [
        | inl bad ↦ ground (arith, bad)
        | inr (iso, e) ↦ elim (Bool-cases (ltb slen 4)) [
          | inl short ↦ ground (arith, short)
          | inr long ↦ ground (
            arith,
            e,
            long,
            exchange_returns fuel t d iso sbuf slen mem rlen (ground (arith, long))
                (iso_parse-le sbuf slen iso enough.2 e) enough,
          )
        ]
      ]

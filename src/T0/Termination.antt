-- ===== src/T0/Termination.antt =====
-- The loop of `t0_xcv` in src/ifd/proto-t0.c ends: every round that goes on uses up one of the null
-- bytes that are allowed, a byte to be sent, or a byte of room for the response.
use openct.Prelude.{not, ◌==◌, ℕ, zero, suc, ◌+◌, ◌-◌, ◌^◌, ◌<◌, ◌≤◌, ◌≡◌, ◌≢◌, refl, arith, true}
use openct.Prelude.{Option, none, some, List, length, get_or, ltb, if◌then◌else◌}
use openct.Prelude.{◌⊎◌, Option-cases, Bool-cases, inl, inr}
use openct.Prelude.Memory.{store, length-store}
use openct.Buffer.{Buf, Source, avail, tailroom}
use openct.Buffer
use openct.Buffer.Inv.{IsValid, set-IsValid, init-IsValid}
use openct.Driver.{Device}
use openct.T0.{T0, Xfer, send_some, recv_some, on_status, on_data}
use openct.T0.{on_byte, Round, round, loop, finish, Exchanged}
use openct.T0.Transceive.{xcv, xcv_start}

put_null_lem :
    (b : Buf) (n : ℕ)
    → IsValid b
    → b.head ≡ 0
    → let b' = (Buffer.put b (Source.null n)).0 in
      IsValid b'
      × (b'.head ≡ 0)
      × (tailroom b' ≡ (if ltb (tailroom b) n then tailroom b else tailroom b - n))
unfolding Buffer.put Buffer.put_room Buffer.compact
put_null_lem b n v h = ground (arith, h)

get_lem :
    (b : Buf) (n : ℕ)
    → IsValid b
    → n ≤ avail b
    → IsValid (Buffer.get b n).0 × (avail (Buffer.get b n).0 ≡ avail b - n)
unfolding Buffer.get
get_lem b n v h = ground arith

module _ (dev : Device) where
  pub record Fine (x : Xfer dev) : Type 0 where
    pub request : IsValid x.sbuf
    pub response : IsValid x.rbuf
    pub front : x.rbuf.head ≡ 0
    pub patient : x.null_count ≤ x.t0.max_nulls
    pub few : x.t0.max_nulls < 2 ^ 32 - 1

  abbrev pub left : Xfer dev → ℕ
  left x = (x.t0.max_nulls - x.null_count) + avail x.sbuf + tailroom x.rbuf

  abbrev Moves : Option ℕ → Type 0
  Moves none = Unit
  Moves (some k) = 0 < k

  -- A round that goes on leaves less to do.
  abbrev Less : Xfer dev → Round dev → Type 0
  Less x (Round.again x') = Fine x' × (left x' < left x)
  Less x (Round.done x') = Unit
  Less x (Round.failed x') = Unit
  Less x (Round.unexpected x') = Unit

  recv_some_lem :
      (x : Xfer dev) (count : Option ℕ)
      → Fine x
      → (recv_some dev x count).1 ≡ true
      → let x' = (recv_some dev x count).0 in
        let n = elim count as (λ _. ℕ) [ none ↦ tailroom x.rbuf | some k ↦ k ] in
        Fine x'
        × (x'.t0 ≡ x.t0)
        × (x'.sbuf ≡ x.sbuf)
        × (x'.null_count ≡ x.null_count)
        × (tailroom x'.rbuf
            ≡ (if ltb (tailroom x.rbuf) n then tailroom x.rbuf else tailroom x.rbuf - n))
  unfolding recv_some
  recv_some_lem x count f e =
      let n : ℕ = elim count as (λ _. ℕ) [ none ↦ tailroom x.rbuf | some k ↦ k ] in
      elim (Option-cases (dev.recv x.device n x.t0.timeout).1) [
        | inl none_came ↦ absurd (ground (arith, e, none_came))
        | inr (xs, came) ↦
            let b : Buf = record x.rbuf { base = store x.rbuf.base x.rbuf.tail xs } in
            let p =
              put_null_lem b n (ground (arith, f, length-store x.rbuf.base x.rbuf.tail xs))
                f.front in
            ground (arith, e, came, f, p)
      ]

  send_some_lem :
      (x : Xfer dev) (count : Option ℕ)
      → Fine x
      → Moves count
      → (send_some dev x count).1 ≡ true
      → let x' = (send_some dev x count).0 in
        Fine x'
        × (x'.t0 ≡ x.t0)
        × (x'.rbuf ≡ x.rbuf)
        × (x'.null_count ≡ x.null_count)
        × (avail x'.sbuf < avail x.sbuf)
  unfolding send_some
  send_some_lem x count f ne e =
      let n : ℕ = elim count as (λ _. ℕ) [ none ↦ avail x.sbuf | some k ↦ k ] in
      ground (arith, e, f, get_lem x.sbuf n f.request)

  on_data-Less :
      (x : Xfer dev) (count : Option ℕ)
      → Fine x
      → (count ≡ none) ⊎ (count ≡ some 1)
      → Less x (on_data dev x count)
  unfolding on_data
  on_data-Less x count f (inl all) = elim (Bool-cases (recv_some dev x none).1) [
    | inl came ↦
        ground (arith, f, all, came, recv_some_lem x none f came, send_some_lem x none f tt)
    | inr lost ↦ ground (arith, f, all, lost, send_some_lem x none f tt)
  ]
  on_data-Less x count f (inr one) = elim (Bool-cases (recv_some dev x (some 1)).1) [
    | inl came ↦ ground (
      arith,
      f,
      one,
      came,
      recv_some_lem x (some 1) f came,
      send_some_lem x (some 1) f (omega arith),
    )
    | inr lost ↦ ground (arith, f, one, lost, send_some_lem x (some 1) f (omega arith))
  ]

  on_byte-Less : (x : Xfer dev) (ins byte : ℕ) → Fine x → Less x (on_byte dev x ins byte)
  unfolding on_byte on_status
  on_byte-Less x ins byte f =
      ground (arith, f, on_data-Less x none f (inl refl), on_data-Less x (some 1) f (inr refl))

  round-Less : (x : Xfer dev) (ins : ℕ) → Fine x → Less x (round dev x ins)
  unfolding round
  round-Less x ins f = elim (Option-cases (dev.recv x.device 1 x.t0.timeout).1) [
    | inl e ↦ ground (arith, e)
    | inr (xs, e) ↦ ground (
      arith,
      e,
      on_byte-Less (record x { device = (dev.recv x.device 1 x.t0.timeout).0 }) ins (get_or xs 0 0)
          (ground (arith, f)),
    )
  ]

  -- Whether the loop came to an end.
  abbrev pub Ends : Round dev → Type 0
  Ends (Round.again x) = ⊥
  Ends (Round.done x) = Unit
  Ends (Round.failed x) = Unit
  Ends (Round.unexpected x) = Unit

  loop-Ends : (fuel ins : ℕ) (x : Xfer dev) → Fine x → left x < fuel → Ends (loop dev fuel ins x)
  unfolding loop
  loop-Ends zero ins x f lt = absurd (omega arith)
  loop-Ends (suc fuel) ins x f lt =
      go (round dev x ins) (round-Less x ins f)
        (λ x' f' lt'. loop-Ends fuel ins x' f' (omega arith))
    where
      go :
          (r : Round dev)
          → Less x r
          → ((x' : Xfer dev) → Fine x' → left x' < left x → Ends (loop dev fuel ins x'))
          → Ends (elim r as (λ _. Round dev) [
            | Round.again x' ↦ loop dev fuel ins x'
            | Round.done x' ↦ Round.done x'
            | Round.failed x' ↦ Round.failed x'
            | Round.unexpected x' ↦ Round.unexpected x'
          ])
      go (Round.again x') l ih = ih x' l.0 l.1
      go (Round.done x') l ih = tt
      go (Round.failed x') l ih = tt
      go (Round.unexpected x') l ih = tt

  finish-some : (r : Round dev) → Ends r → (e : Exchanged dev) × (finish dev r ≡ some e)
  unfolding finish
  finish-some (Round.again x) ends = elim ends [ ]
  finish-some (Round.done x) ends = (_, refl)
  finish-some (Round.failed x) ends = (_, refl)
  finish-some (Round.unexpected x) ends = (_, refl)

  -- The buffers of an exchange, with enough rounds for it.
  abbrev pub Fits : ℕ → T0 → List ℕ → ℕ → List ℕ → ℕ → Type 0
  Fits fuel t sdata slen mem rlen =
      (slen ≤ length sdata)
      × (slen < 2 ^ 31)
      × (rlen ≤ length mem)
      × (rlen < 2 ^ 31)
      × (t.max_nulls < 2 ^ 32 - 1)
      × (t.max_nulls + slen + rlen < fuel)

  pub xcv_ends :
      (fuel : ℕ) (t : T0) (d : dev.State) (sdata : List ℕ) (slen : ℕ) (mem : List ℕ) (rlen : ℕ)
      → Fits fuel t sdata slen mem rlen
      → xcv dev fuel t d sdata slen mem rlen ≢ none
  unfolding xcv finish
  xcv_ends fuel t d sdata slen mem rlen fits = elim (Bool-cases (not (t.block_oriented == 0))) [
    | inl b ↦ λ n. ground (arith, b, n)
    | inr stream ↦ elim (Bool-cases (send_some dev x (some 5)).1) [
      | inl sent ↦
          let s = send_some_lem x (some 5) start (omega arith) sent in
          let (e, p) = finish-some (loop dev fuel (get_or sdata 1 0) (send_some dev x (some 5)).0) (
            loop-Ends fuel (get_or sdata 1 0) (send_some dev x (some 5)).0 s.0
              (ground (arith, s, bound))) in
          λ n. ground (arith, stream, sent, p, n)
      | inr lost ↦ λ n. ground (arith, stream, lost, n, failed_ends (send_some dev x (some 5)).0)
    ]
  ]
    where
      failed_ends : (y : Xfer dev) → finish dev (Round.failed y) ≢ none
      failed_ends y n = cc n

      x : Xfer dev
      x = xcv_start dev t d sdata slen mem rlen

      start : Fine x
      start =
          unfold xcv_start Buffer.set Buffer.init in
          record {
            request = set-IsValid sdata slen (omega arith) (omega arith);
            response = init-IsValid mem rlen (omega arith) (omega arith);
            front = refl;
            patient = omega arith;
            few = omega arith;
          }

      bound : left x < fuel
      bound = unfold xcv_start Buffer.set Buffer.init in omega arith

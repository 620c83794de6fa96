-- ===== src/Atr/Receive/Whole.antt =====
-- A card that sends an answer to reset, in either convention, is read to the end of it.
use openct.Prelude.{ℕ, ◌+◌, ◌<◌, ◌≤◌, ◌≡◌, ◌≢◌, inl, inr, refl, ap, ◌∙◌, arith}
use openct.Prelude.{Bool, true, false, List, [], ◌∷◌, ◌++◌, length, get_or, if◌then◌else◌}
use openct.Prelude.{◌==◌, Bool-cases, append-nil, length-append, append_assoc, All, bit_and}
use openct.Prelude.Memory.{store, length-store, get_or-store_last, get_or-store_before}
use openct.Buffer.{Buf, init, contents}
use openct.Buffer.Inv.{IsValid}
use openct.Buffer.Append.{grown, grown-IsValid, contents-grown}
use openct.Utils.Reversal.{length-revert_bits}
use openct.Atr.Encoding.{
  Group, Chain, upper, chain_bytes, group_bytes, upper-Announces, Answer, encode, trailer,
}
use openct.Atr.Complete.{HasProtocols, last_named, EndsInOrder}
use openct.Atr.Receive.{recv_atr, Groups, read_groups, read_tail, read_rest, read_atr}
use openct.Atr.Receive.Line.{
  IsByte, next_byte, on_line, on_line-append, recv_atr_lem, grown-grown, All-split, read_chain,
}

rest_short : (g : Group) (rest : Chain) → length rest ≤ length (chain_bytes g rest)
rest_short g [] = omega arith
rest_short g ((q, h) ∷ rest) = omega (
  arith,
  rest_short h rest,
  length-append (group_bytes g) ((q + upper h rest) ∷ chain_bytes h rest),
)

-- The historical bytes and the check byte.
read_tail_lem :
    (b : Buf) (inverse : Bool) (proto : ℕ) (historical check more : List ℕ)
    → IsValid b
    → b.tail + length (historical ++ check) ≤ b.size
    → All IsByte (historical ++ check)
    → bit_and (get_or b.base 1 0) 0xF ≡ length historical
    → length check ≡ (if proto == 0 then 0 else 1)
    → read_tail (List ℕ) next_byte (on_line inverse (historical ++ check) ++ more) b proto inverse
      ≡ (more, grown b (historical ++ check), true)
unfolding read_tail
read_tail_lem b inverse proto historical check more v fits bytes count order =
    let size = length-append historical check in
    let two = All-split historical check bytes in
    let fits' : b.tail + length historical ≤ b.size = omega (arith, fits, size) in
    let stream : on_line inverse (historical ++ check) ++ more
        ≡ on_line inverse historical ++ (on_line inverse check ++ more) =
      ap (λ t. t ++ more) (on_line-append inverse historical check)
      ∙ append_assoc (on_line inverse historical) (on_line inverse check) more in
    let first =
      recv_atr_lem b (bit_and (get_or b.base 1 0) 0xF) inverse historical
        (on_line inverse check ++ more) v fits' count two.0 in
    elim (Bool-cases (proto == 0)) [
      | inl t0 ↦
          let empty : check ≡ [] = nothing check (ground (arith, order, t0)) in
          let same : on_line inverse check ≡ [] =
            ap (on_line inverse) empty ∙ on_line-nil inverse in
          ground (arith, stream, first, t0, empty, same, append-nil historical)
      | inr other ↦
          let second =
            recv_atr_lem (grown b historical) 1 inverse check more
              (grown-IsValid b historical v fits') (omega (arith, fits, size))
              (ground (arith, order, other)) two.1 in
          ground (arith, stream, first, second, other, grown-grown b historical check)
    ]
  where
    nothing : (xs : List ℕ) → length xs ≡ 0 → xs ≡ []
    nothing [] h = refl
    nothing (x ∷ xs) h = absurd (omega arith)

    on_line-nil : (i : Bool) → on_line i [] ≡ []
    on_line-nil i = ground (arith, length-revert_bits [])

-- What follows the first byte.
abbrev pub announced : Answer → ℕ
announced a = length a.historical + upper a.head a.rest

abbrev pub behind : Answer → List ℕ
behind a = chain_bytes a.head a.rest ++ (a.historical ++ trailer a)

read_rest_lem :
    (a : Answer) (b : Buf) (inverse : Bool) (more : List ℕ)
    → HasProtocols a.rest
    → length a.historical < 16
    → EndsInOrder a
    → All IsByte (announced a ∷ behind a)
    → IsValid b
    → b.tail ≡ 1
    → 1 + length (announced a ∷ behind a) ≤ b.size
    → b.size ≤ 64
    → read_rest (List ℕ) next_byte (on_line inverse (announced a ∷ behind a) ++ more) b inverse
      ≡ (more, grown b (announced a ∷ behind a), true)
unfolding read_rest
read_rest_lem a b inverse more names few order bytes v at fits short = ground (
  arith,
  first,
  stream,
  stream',
  here,
  groups,
  tail,
  grown-grown b1 chain post,
  grown-grown b (td ∷ []) (behind a),
)
  where
    td : ℕ
    td = announced a

    chain : List ℕ
    chain = chain_bytes a.head a.rest

    post : List ℕ
    post = a.historical ++ trailer a

    b1 : Buf
    b1 = grown b (td ∷ [])

    b2 : Buf
    b2 = grown b1 chain

    size : length (behind a) ≡ length chain + length post
    size = length-append chain post

    two : All IsByte chain × All IsByte post
    two = All-split chain post bytes.1

    v1 : IsValid b1
    v1 = grown-IsValid b (td ∷ []) v (omega (arith, at, fits))

    v2 : IsValid b2
    v2 = grown-IsValid b1 chain v1 (omega (arith, at, fits, size))

    stream :
        on_line inverse (td ∷ behind a) ++ more
        ≡ on_line inverse (td ∷ []) ++ (on_line inverse (behind a) ++ more)
    stream =
        ap (λ t. t ++ more) (on_line-append inverse (td ∷ []) (behind a))
        ∙ append_assoc (on_line inverse (td ∷ [])) (on_line inverse (behind a)) more

    stream' :
        on_line inverse (behind a) ++ more ≡ on_line inverse chain ++ (on_line inverse post ++ more)
    stream' =
        ap (λ t. t ++ more) (on_line-append inverse chain post)
        ∙ append_assoc (on_line inverse chain) (on_line inverse post) more

    first :
        recv_atr
          (List ℕ)
          next_byte
          (on_line inverse (td ∷ []) ++ (on_line inverse (behind a) ++ more))
          b
          1
          inverse
        ≡ (on_line inverse (behind a) ++ more, b1, true)
    first =
        recv_atr_lem b 1 inverse (td ∷ []) (on_line inverse (behind a) ++ more) v
          (omega (arith, at, fits)) refl (bytes.0, tt)

    here : get_or b1.base 1 0 ≡ td
    here = rw at (get_or-store_last b.base 1 1 [] td refl (omega (arith, fits, v)))

    groups :
        read_groups
          (List ℕ)
          next_byte
          64
          (on_line inverse chain ++ (on_line inverse post ++ more))
          b1
          td
          0
          inverse
        ≡ Groups.groups_read (on_line inverse post ++ more) b2 (last_named 0 a.rest)
    groups =
        read_chain 64 b1 inverse (length a.historical) 0 a.head a.rest
          (on_line inverse post ++ more) few names two.0 v1 (omega (arith, at, fits, size))
          (omega (arith, rest_short a.head a.rest, fits, size, short))

    count : bit_and (get_or b2.base 1 0) 0xF ≡ length a.historical
    count =
        ap (λ t. bit_and t 0xF)
          (get_or-store_before b1.base b1.tail 1 chain (omega (arith, at)) ∙ here)
        ∙ (upper-Announces (length a.historical) a.head a.rest few).proto

    tail :
        read_tail (List ℕ) next_byte (on_line inverse post ++ more) b2 (last_named 0 a.rest) inverse
        ≡ (more, grown b2 post, true)
    tail =
        read_tail_lem b2 inverse (last_named 0 a.rest) a.historical (trailer a) more v2
          (omega (arith, at, fits, size)) two.1 count order

-- The first byte as a driver delivers it, 0x03 for the inverse convention.
abbrev pub IsFirst : Bool → ℕ → ℕ → Type 0
IsFirst true ts c = (ts ≡ 0x3F) × (c ≡ 0x03)
IsFirst false ts c = (c ≡ ts) × (ts ≢ 0x03)

-- The buffer over the array of the slot, with its first byte.
abbrev pub begun : Bool → List ℕ → Buf
begun inverse atr = record (init (if inverse then store atr 0 (0x3F ∷ []) else atr) 64) { tail = 1 }

begun-IsValid : (inverse : Bool) (atr : List ℕ) → 64 ≤ length atr → IsValid (begun inverse atr)
unfolding init
begun-IsValid true atr h = omega (arith, length-store atr 0 (0x3F ∷ []))
begun-IsValid false atr h = omega arith

contents-begun :
    (inverse : Bool) (atr : List ℕ) (ts : ℕ)
    → 64 ≤ length atr
    → IsFirst inverse ts (get_or atr 0 0)
    → contents (begun inverse atr) ≡ ts ∷ []
unfolding init
contents-begun inverse [] ts h f = absurd (omega arith)
contents-begun true (x ∷ xs) ts h f = ground (arith, f)
contents-begun false (x ∷ xs) ts h f = ground (arith, f)

-- A card that sends an answer to reset of at most 64 bytes, coded by the standard, in the direct or the
-- inverse convention, with its protocols in an order that ends in T=0 only where no other is named, is
-- read to the end of the answer and no further, and its bytes are the answer.
pub read_atr-encode :
    (a : Answer) (inverse : Bool) (atr more : List ℕ)
    → HasProtocols a.rest
    → length a.historical < 16
    → EndsInOrder a
    → All IsByte (encode a)
    → length (encode a) ≤ 64
    → 64 ≤ length atr
    → IsFirst inverse a.ts (get_or atr 0 0)
    → (b : Buf) × (read_atr
          (List ℕ)
          next_byte
          (on_line inverse (announced a ∷ behind a) ++ more)
          atr
        ≡ (more, b, true))
      × (contents b ≡ encode a)
unfolding read_atr
read_atr-encode a inverse atr more names few order bytes short room first = (
  grown (begun inverse atr) (announced a ∷ behind a),
  elim inverse
        as (λ i.
          IsFirst i a.ts (get_or atr 0 0)
          → read_rest (List ℕ) next_byte (on_line i (announced a ∷ behind a) ++ more) (begun i atr)
              i
            ≡ (more, grown (begun i atr) (announced a ∷ behind a), true)
          → read_atr (List ℕ) next_byte (on_line i (announced a ∷ behind a) ++ more) atr
            ≡ (more, grown (begun i atr) (announced a ∷ behind a), true)) [
              | true ↦ λ f e. ground (arith, f, e)
              | false ↦ λ f e. ground (arith, f, e)
            ]
      first read,
  contents-grown (begun inverse atr) (announced a ∷ behind a) v fits
      ∙ ap (λ t. t ++ (announced a ∷ behind a)) (contents-begun inverse atr a.ts room first),
)
  where
    v : IsValid (begun inverse atr)
    v = begun-IsValid inverse atr room

    size : (begun inverse atr).size ≡ 64
    size = unfold init in refl

    fits : (begun inverse atr).tail + length (announced a ∷ behind a) ≤ (begun inverse atr).size
    fits = omega (arith, size, short)

    read :
        read_rest
          (List ℕ)
          next_byte
          (on_line inverse (announced a ∷ behind a) ++ more)
          (begun inverse atr)
          inverse
        ≡ (more, grown (begun inverse atr) (announced a ∷ behind a), true)
    read =
        read_rest_lem a (begun inverse atr) inverse more names few order bytes.1 v refl fits
          (omega (arith, size))

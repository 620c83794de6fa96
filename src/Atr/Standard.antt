-- ===== src/Atr/Standard.antt =====
-- Every answer to reset that ISO 7816-3 codes with at most four groups, in `ifd_atr_parse` of src/ifd/atr.c.
--
-- The last byte that announces a group may announce nothing; `IsCoded` leaves these answers out.
use openct.Prelude.{ℕ, zero, suc, ◌+◌, ◌-◌, ◌^◌, ◌<◌, ◌≤◌, ◌≡◌, ◌≢◌, refl, ap, sym, ◌∙◌, arith}
use openct.Prelude.{
  Bool, true, false, not, ◌&&◌, none, some, List, [], ◌∷◌, ◌++◌, length, drop, get_or,
}
use openct.Prelude.{◌==◌, if◌then◌else◌, Bool-cases, inl, inr, ◌⊎◌, bit_or, bit_and, get_or-drop}
use openct.Prelude.Bits.{bit_or_positive, bit_or_small}
use openct.Prelude.Outcome.{Error, ok, err}
use openct.Atr.{Info, blank, groups, round, or_t0, parse}
use openct.Atr.Encoding.{Group, Chain, upper, group_bytes, chain_bytes, fill, name_protocol, learn}
use openct.Atr.Encoding.{IsCoded, named, upper-Announces}
use openct.Atr.Encoding.{check_bytes, Answer, content, trailer, encode}
use openct.Atr.Encoding.{length-encode}
use openct.Atr.Groups.{named-later, chain_head, chain_drop, groups_step, groups_lem}
use openct.Prelude.Masks.{mask_0f}

-- A protocol is four bits.
abbrev pub IsChain : Chain → Type 0
IsChain [] = Unit
IsChain ((p, g) ∷ rest) = (p < 16) × IsChain rest

-- Whether the last byte that announces a group announces nothing.
abbrev pub is_silent : Group → Chain → Bool
is_silent g [] = upper g [] == 0
is_silent g ((p, h) ∷ rest) = is_silent h rest

coded : (g : Group) (rest : Chain) → IsChain rest → is_silent g rest ≡ false → IsCoded g rest
coded g [] c e = ground (arith, e)
coded g ((p, h) ∷ rest) c e = (c.0, coded h rest c.1 e)

-- Protocols are known exactly where there is a default.
unfoldable pub HasDefault : Info → Type 0
HasDefault info =
    ((info.supported ≡ 0) × (info.default_protocol ≡ none))
    ⊎ ((info.supported ≢ 0) × ((p : ℕ) × (info.default_protocol ≡ some p)))

pub named-HasDefault : (info : Info) (p : ℕ) → HasDefault info → HasDefault (name_protocol info p)
unfolding HasDefault
named-HasDefault info p h = inr (omega (arith, bit_or_positive info.supported p), first_named)
  where
    first_named : (q : ℕ) × ((name_protocol info p).default_protocol ≡ some q)
    first_named = elim h [
      | inl (none_yet, e) ↦ (p, ground (arith, e))
      | inr (some_yet, (q, e)) ↦ (q, ground (arith, e))
    ]

pub fill-HasDefault :
    (info : Info) (n p m : ℕ) (g : Group) → HasDefault info → HasDefault (fill (named n info p) m g)
unfolding HasDefault named
fill-HasDefault info n p m g h = elim (Bool-cases (n == 2)) [
  | inl e ↦ rw e h
  | inr e ↦ rw e (named-HasDefault info p h)
]

pub learn-HasDefault :
    (info : Info) (m : ℕ) (g : Group) (rest : Chain)
    → HasDefault info
    → HasDefault (learn info m g rest)
unfolding HasDefault
learn-HasDefault info m g [] h = h
learn-HasDefault info m g ((p, g') ∷ rest) h =
    learn-HasDefault (name_protocol (fill info m g) p) (m + 1) g' rest
      (named-HasDefault (fill info m g) p h)

-- T=0 is what is supposed where it is not named.
pub t0_named :
    (info : Info) (p : ℕ)
    → HasDefault info
    → check_bytes (name_protocol info p).supported ≡ 0
    → or_t0 info ≡ or_t0 (name_protocol info p)
unfolding HasDefault or_t0
t0_named info p h e =
    let few : bit_or info.supported (2 ^ p) ≤ 1 = ground (arith, e) in
    let small = bit_or_small info.supported p few in
    elim h [
      | inl (x, y) ↦ ground (arith, small, few, x, y, bit_or_positive info.supported p)
      | inr (x, (q, y)) ↦ ground (arith, small, few, x, y, bit_or_positive info.supported p)
    ]

pub fill-silent : (info : Info) (m : ℕ) (g : Group) → upper g [] ≡ 0 → fill info m g ≡ info
fill-silent info m g e = ground (arith, e)

pub bytes-silent : (g : Group) → upper g [] ≡ 0 → length (group_bytes g) ≡ 0
bytes-silent g e = ground (arith, e)

-- More bytes than the groups take: the byte that announces nothing is looked at.
groups_refused :
    (left : ℕ) (info : Info) (atr : List ℕ) (len m n p : ℕ) (g : Group) (rest : Chain)
    (post : List ℕ)
    → p < 16
    → IsChain rest
    → is_silent g rest ≡ true
    → length rest ≤ left
    → 2 ≤ n
    → drop (n - 1) atr ≡ (p + upper g rest) ∷ (chain_bytes g rest ++ post)
    → n + length (chain_bytes g rest) < len
    → groups (suc left) info atr len m n ≡ err Error.invalid_atr
unfolding groups round
groups_refused left info atr len m n p g [] post lt c s few le at more =
    let v = upper-Announces p g [] lt in
    let here = get_or-drop (n - 1) 0 (n - 1) atr 0 (omega arith) ∙ ap (λ xs. get_or xs 0 0) at in
    ground (arith, v, here, s, more, bytes-silent g (ground (arith, s)))
groups_refused zero info atr len m n p g ((q, h) ∷ rest) post lt c s few le at more =
    absurd (omega arith)
groups_refused (suc left) info atr len m n p g ((q, h) ∷ rest) post lt c s few le at more =
    groups_step (suc left) info atr len m n p q g h rest post lt le at (omega arith)
    ∙ groups_refused left (fill (named n info p) m g) atr len (m + 1)
        (n + length (group_bytes g) + 1) q h rest post c.0 c.1 s (omega arith) (omega arith)
        (chain_drop atr n p q g h rest post le at) (omega (arith, more, chain_head g h q rest))

-- No more bytes: it is not looked at, and what it names is T=0.
groups_quiet :
    (left : ℕ) (info : Info) (atr : List ℕ) (len m n p : ℕ) (g : Group) (rest : Chain)
    (post : List ℕ)
    → p < 16
    → IsChain rest
    → is_silent g rest ≡ true
    → length rest ≤ left
    → 2 ≤ n
    → drop (n - 1) atr ≡ (p + upper g rest) ∷ (chain_bytes g rest ++ post)
    → len ≡ n + length (chain_bytes g rest)
    → check_bytes (learn (named n info p) m g rest).supported ≡ 0
    → HasDefault info
    → (out : Info) × (groups (suc left) info atr len m n ≡ ok out)
      × (or_t0 out ≡ or_t0 (learn (named n info p) m g rest))
unfolding groups named
groups_quiet left info atr len m n p g [] post lt c s few le at size check d =
    let none_here : upper g [] ≡ 0 = ground (arith, s) in
    (
      info,
      ground (arith, size, bytes-silent g none_here),
      elim (Bool-cases (n == 2)) [
        | inl e ↦ ap or_t0 (sym (fill-silent info m g none_here) ∙ ground (arith, e))
        | inr e ↦
            t0_named info p d (ground (arith, e, check))
            ∙ ap or_t0 (sym (fill-silent (name_protocol info p) m g none_here) ∙ ground (arith, e))
      ],
    )
groups_quiet zero info atr len m n p g ((q, h) ∷ rest) post lt c s few le at size check d =
    absurd (omega arith)
groups_quiet (suc left) info atr len m n p g ((q, h) ∷ rest) post lt c s few le at size check d =
    let next = n + length (group_bytes g) + 1 in
    let info' = fill (named n info p) m g in
    let same : named next info' q ≡ name_protocol info' q =
      named-later next info' q (omega arith) in
    let rec =
      groups_quiet left info' atr len (m + 1) next q h rest post c.0 c.1 s (omega arith)
        (omega arith) (chain_drop atr n p q g h rest post le at)
        (omega (arith, size, chain_head g h q rest)) (rw same check)
        (fill-HasDefault info n p m g d) in
    (
      rec.0,
      groups_step (suc left) info atr len m n p q g h rest post lt le at (omega (arith, size))
          ∙ rec.1,
      rec.2 ∙ ap (λ i. or_t0 (learn i (m + 1) h rest)) same,
    )

abbrev pub IsAnswer : Answer → Type 0
IsAnswer a = IsChain a.rest × (length a.rest ≤ 3) × (length a.historical < 16)

-- Nothing is announced last, and a check byte is there.
abbrev pub is_refused : Answer → Bool
is_refused a = is_silent a.head a.rest && not (check_bytes (content a).supported == 0)

pub blank-HasDefault : HasDefault blank
unfolding HasDefault
blank-HasDefault = inl (refl, refl)

pub named-blank : (k : ℕ) → named 2 blank k ≡ blank
unfolding named
named-blank k = refl

-- An answer to reset of at most four groups of interface bytes, coded by the standard, is taken apart
-- into the bytes of each group, the protocols it names and the first of these, T=0 where it names none;
-- but it is refused where the last byte that announces groups announces nothing and a protocol other
-- than T=0 is named, so that a check byte follows.
pub parse-encode :
    (a : Answer)
    → IsAnswer a
    → parse (encode a) (length (encode a))
      ≡ (if is_refused a then err Error.invalid_atr else ok (or_t0 (content a)))
unfolding parse
parse-encode a v = elim (Bool-cases (is_silent a.head a.rest)) [
  | inr e ↦
      let done =
        groups_lem 3 blank (encode a) len 0 2 k a.head a.rest post v.2 (coded a.head a.rest v.0 e)
          v.1 (omega arith) refl (rw (named-blank k) size) in
      ground (arith, done, named-blank k, size, mask_0f td, td_low, e)
  | inl e ↦ elim (Bool-cases (check_bytes (content a).supported == 0)) [
    | inl no_check ↦
        let (out, done, same) =
          groups_quiet 3 blank (encode a) len 0 2 k a.head a.rest post v.2 v.0 e v.1 (omega arith)
            refl (ground (arith, size, no_check)) (rw (named-blank k) (ground (arith, no_check)))
            blank-HasDefault in
        ground (arith, done, same, named-blank k, size, mask_0f td, td_low, e, no_check)
    | inr check ↦
        let done =
          groups_refused 3 blank (encode a) len 0 2 k a.head a.rest post v.2 v.0 e v.1 (omega arith)
            refl (ground (arith, size, check)) in
        ground (arith, done, size, mask_0f td, td_low, e, check)
  ]
]
  where
    k : ℕ
    k = length a.historical

    td : ℕ
    td = k + upper a.head a.rest

    len : ℕ
    len = length (encode a) - k

    post : List ℕ
    post = a.historical ++ trailer a

    size : len ≡ 2 + length (chain_bytes a.head a.rest) + check_bytes (content a).supported
    size = length-encode a

    td_low : bit_and td 0x0f ≡ k
    td_low = (upper-Announces k a.head a.rest v.2).proto

-- ===== src/Protocol/Steps.antt =====
-- The loop of `ifd_protocol_select` of src/ifd/protocol.c over the groups of an answer to reset.
use openct.Prelude.{ℕ, zero, suc, ◌+◌, ◌-◌, ◌<◌, ◌≤◌, ◌≡◌, refl, ap, ◌∙◌, arith}
use openct.Prelude.{some, List, [], ◌∷◌, ◌++◌, length, drop, get_or, ltb}
use openct.Prelude.{if◌then◌else◌, get_or-drop, inl, inr}
use openct.Prelude.{◌⊎◌, sym, true, false}
use openct.Atr.{Info, or_t0}
use openct.Atr.Encoding.{Group, Chain, upper, chain_bytes, group_bytes, upper-Announces}
use openct.Atr.Encoding.{check_bytes, fill}
use openct.Atr.Encoding.{learn, named, name_protocol}
use openct.Atr.Groups.{chain_head, chain_drop, named-later}
use openct.Atr.Standard.{IsChain, is_silent, HasDefault, fill-HasDefault, t0_named}
use openct.Atr.Standard.{fill-silent, bytes-silent}
use openct.Protocol.{Offer, add_offer, offer_loop, or_first}

-- What an analysis knows of the protocols.
abbrev pub offer_of : Info → Offer
offer_of info = record { supported = info.supported; def_proto = info.default_protocol }

chain_nonempty :
    (g : Group) (rest : Chain) → is_silent g rest ≡ false → 1 ≤ length (chain_bytes g rest)
chain_nonempty g [] e = ground (arith, e)
chain_nonempty g ((q, h) ∷ rest) e = omega (arith, chain_head g h q rest)

-- A byte that announces the group behind another one.
offer_step :
    (fuel : ℕ) (info : Info) (atr : List ℕ) (len m n p q : ℕ) (g h : Group) (rest : Chain)
    (post : List ℕ)
    → p < 16
    → 2 ≤ n
    → drop (n - 1) atr ≡ (p + upper g ((q, h) ∷ rest)) ∷ (chain_bytes g ((q, h) ∷ rest) ++ post)
    → offer_loop (suc fuel) atr len n (offer_of info) ≡ (
        if ltb (n + length (group_bytes g) + 1) len
        then offer_loop fuel atr len
            (n + length (group_bytes g) + 1)
            (offer_of (fill (named n info p) m g))
        else some (offer_of (fill (named n info p) m g)))
unfolding offer_loop add_offer named
offer_step fuel info atr len m n p q g h rest post lt two at =
    let v = upper-Announces p g ((q, h) ∷ rest) lt in
    let here = get_or-drop (n - 1) 0 (n - 1) atr 0 (omega arith) ∙ ap (λ xs. get_or xs 0 0) at in
    ground (arith, v, here)

offer_last :
    (fuel : ℕ) (info : Info) (atr : List ℕ) (len m n p : ℕ) (g : Group) (post : List ℕ)
    → p < 16
    → 2 ≤ n
    → drop (n - 1) atr ≡ (p + upper g []) ∷ (chain_bytes g [] ++ post)
    → offer_loop (suc fuel) atr len n (offer_of info) ≡ some (offer_of (fill (named n info p) m g))
unfolding offer_loop add_offer named
offer_last fuel info atr len m n p g post lt two at =
    let v = upper-Announces p g [] lt in
    let here = get_or-drop (n - 1) 0 (n - 1) atr 0 (omega arith) ∙ ap (λ xs. get_or xs 0 0) at in
    ground (arith, v, here)

-- All groups are seen where there are interface bytes behind the last byte that announces them, or a
-- check byte.
pub offer_chain :
    (fuel : ℕ) (info : Info) (atr : List ℕ) (len m n p : ℕ) (g : Group) (rest : Chain)
    (post : List ℕ)
    → p < 16
    → IsChain rest
    → 2 ≤ n
    → len < n + fuel
    → n + length (chain_bytes g rest) ≤ len
    → (is_silent g rest ≡ false) ⊎ (n + length (chain_bytes g rest) < len)
    → drop (n - 1) atr ≡ (p + upper g rest) ∷ (chain_bytes g rest ++ post)
    → offer_loop fuel atr len n (offer_of info) ≡ some (offer_of (learn (named n info p) m g rest))
offer_chain zero info atr len m n p g rest post lt c two enough fits seen at = absurd (omega arith)
offer_chain (suc fuel) info atr len m n p g [] post lt c two enough fits seen at =
    offer_last fuel info atr len m n p g post lt two at
offer_chain (suc fuel) info atr len m n p g ((q, h) ∷ rest) post lt c two enough fits seen at =
    let next = n + length (group_bytes g) + 1 in
    let info' = fill (named n info p) m g in
    let total = chain_head g h q rest in
    let seen' : (is_silent h rest ≡ false) ⊎ (next + length (chain_bytes h rest) < len) =
      elim seen [ inl e ↦ inl e | inr e ↦ inr (omega (arith, e, total)) ] in
    let rec =
      offer_chain fuel info' atr len (m + 1) next q h rest post c.0 c.1 (omega arith) (omega arith)
        (omega (arith, fits, total)) seen' (chain_drop atr n p q g h rest post two at) in
    let goes : next < len = elim seen [
      | inl e ↦ omega (arith, fits, total, chain_nonempty h rest e)
      | inr e ↦ omega (arith, e, total)
    ] in
    offer_step fuel info atr len m n p q g h rest post lt two at
    ∙ ground (arith, goes, rec)
    ∙ ap (λ i. some (offer_of (learn i (m + 1) h rest))) (named-later next info' q (omega arith))

pub or_first_lem :
    (info : Info) → HasDefault info → or_first (offer_of info) ≡ offer_of (or_t0 info)
unfolding or_first or_t0 HasDefault
or_first_lem info d = ground (arith, d)

-- The last group is not seen where it is empty and nothing is behind it; it would name T=0.
pub offer_quiet :
    (fuel : ℕ) (info : Info) (atr : List ℕ) (len m n p : ℕ) (g : Group) (rest : Chain)
    (post : List ℕ)
    → p < 16
    → IsChain rest
    → is_silent g rest ≡ true
    → 2 ≤ n
    → len < n + fuel
    → 0 < fuel
    → len ≡ n + length (chain_bytes g rest)
    → check_bytes (learn (named n info p) m g rest).supported ≡ 0
    → HasDefault info
    → drop (n - 1) atr ≡ (p + upper g rest) ∷ (chain_bytes g rest ++ post)
    → (out : Info) × (offer_loop fuel atr len n (offer_of info) ≡ some (offer_of out))
      × HasDefault out
      × (or_t0 out ≡ or_t0 (learn (named n info p) m g rest))
offer_quiet zero info atr len m n p g rest post lt c s two enough pos size check d at =
    absurd (omega arith)
offer_quiet (suc fuel) info atr len m n p g [] post lt c s two enough pos size check d at = (
  fill (named n info p) m g,
  offer_last fuel info atr len m n p g post lt two at,
  fill-HasDefault info n p m g d,
  refl,
)
offer_quiet (suc fuel) info atr len m n p g ((q, h) ∷ []) post lt c s two enough pos size check d
      at =
    let next = n + length (group_bytes g) + 1 in
    let info' = fill (named n info p) m g in
    let none_here : upper h [] ≡ 0 = ground (arith, s) in
    let same : named next info' q ≡ name_protocol info' q =
      named-later next info' q (omega arith) in
    let empty = fill-silent (name_protocol info' q) (m + 1) h none_here in
    (
      info',
      offer_step fuel info atr len m n p q g h [] post lt two at
          ∙ ground (arith, size, chain_head g h q [], bytes-silent h none_here),
      fill-HasDefault info n p m g d,
      t0_named info' q (fill-HasDefault info n p m g d)
            (ap (λ (i : Info). check_bytes i.supported) (sym empty) ∙ check)
          ∙ ap or_t0 (sym empty),
    )
offer_quiet (suc fuel) info atr len m n p g ((q, h) ∷ (x ∷ rest)) post lt c s two enough pos size
      check d at =
    let next = n + length (group_bytes g) + 1 in
    let info' = fill (named n info p) m g in
    let same : named next info' q ≡ name_protocol info' q =
      named-later next info' q (omega arith) in
    let total = chain_head g h q (x ∷ rest) in
    let goes : next < len = omega (arith, size, total, chain_head h x.1 x.0 rest) in
    let rec =
      offer_quiet fuel info' atr len (m + 1) next q h (x ∷ rest) post c.0 c.1 s (omega arith)
        (omega arith) (omega (arith, goes)) (omega (arith, size, total)) (rw same check)
        (fill-HasDefault info n p m g d) (chain_drop atr n p q g h (x ∷ rest) post two at) in
    (
      rec.0,
      offer_step fuel info atr len m n p q g h (x ∷ rest) post lt two at
          ∙ ground (arith, goes, rec.1),
      rec.2,
      rec.3 ∙ ap (λ i. or_t0 (learn i (m + 1) h (x ∷ rest))) same,
    )

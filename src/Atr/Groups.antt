-- ===== src/Atr/Groups.antt =====
-- The loop of `ifd_atr_parse` of src/ifd/atr.c over the groups of an answer to reset.
use openct.Prelude.{ℕ, zero, suc, ◌+◌, ◌-◌, ◌<◌, ◌≤◌, ◌≡◌, ◌≢◌, refl, ap, sym, ◌∙◌}
use openct.Prelude.{List, [], ◌∷◌}
use openct.Prelude.{◌++◌, length, drop, get_or, arith, length-append}
use openct.Prelude.{get_or-drop, drop-append, drop-drop, append_assoc}
use openct.Prelude.Outcome.{ok}
use openct.Atr.{Info, add_protocol, take_bytes, round_end, round}
use openct.Atr.{groups}
use openct.Atr.Encoding.{
  Group, Chain, group_bytes, chain_bytes, upper, fill, name_protocol, learn, IsCoded, Announces,
  upper-Announces, named, check_bytes,
}

-- Where a suffix starts with the byte that announces a group, the group's bytes are taken.
take_bytes_lem :
    (info : Info) (atr : List ℕ) (td p m n : ℕ) (g : Group) (rest : Chain) (post : List ℕ)
    → Announces td p g rest
    → drop n atr ≡ group_bytes g ++ post
    → take_bytes info atr td m n ≡ (fill info m g, n + length (group_bytes g))
unfolding take_bytes
take_bytes_lem info atr td p m n g rest post v at = ground (
  arith,
  v,
  at,
  get_or-drop n 0 n atr 0,
  get_or-drop n 1 (n + 1) atr 0,
  get_or-drop n 2 (n + 1 + 1) atr 0,
)

round_lem :
    (info : Info) (atr : List ℕ) (len td p m n : ℕ) (g : Group) (rest : Chain) (post : List ℕ)
    → Announces td p g rest
    → get_or atr (n - 1) 0 ≡ td
    → drop n atr ≡ group_bytes g ++ post
    → upper g rest ≢ 0
    → n + length (group_bytes g) + (elim rest [ [] ↦ 0 | _ ↦ 1 ]) ≤ len
    → round info atr len m n
      ≡ round_end (fill (named n info p) m g) td len (n + length (group_bytes g))
unfolding round add_protocol named
round_lem info atr len td p m n g rest post v here at some_bits fits =
    ground (arith, v, here, take_bytes_lem (named n info p) atr td p m n g rest post v at)

pub next_drop :
    (n j : ℕ) (atr : List ℕ) (td : ℕ) (xs ys : List ℕ)
    → 1 ≤ n
    → drop (n - 1) atr ≡ td ∷ (xs ++ ys)
    → j ≡ n + length xs
    → drop j atr ≡ ys
next_drop n j atr td xs ys le e h =
    sym (drop-drop (n - 1) (suc (length xs)) j atr (omega arith))
    ∙ ap (drop (suc (length xs))) e
    ∙ drop-append (length xs) xs ys refl

-- Behind the second byte every byte that announces a group names a protocol.
pub named-later : (n : ℕ) (info : Info) (p : ℕ) → 2 < n → named n info p ≡ name_protocol info p
unfolding named
named-later n info p lt = ground arith

pub chain_head :
    (g h : Group) (q : ℕ) (rest : Chain)
    → length (chain_bytes g ((q, h) ∷ rest))
      ≡ length (group_bytes g) + 1 + length (chain_bytes h rest)
chain_head g h q rest =
    omega (arith, length-append (group_bytes g) ((q + upper h rest) ∷ chain_bytes h rest))

pub chain_drop :
    (atr : List ℕ) (n p q : ℕ) (g h : Group) (rest : Chain) (post : List ℕ)
    → 2 ≤ n
    → drop (n - 1) atr ≡ (p + upper g ((q, h) ∷ rest)) ∷ (chain_bytes g ((q, h) ∷ rest) ++ post)
    → drop (n + length (group_bytes g) + 1 - 1) atr
      ≡ (q + upper h rest) ∷ (chain_bytes h rest ++ post)
chain_drop atr n p q g h rest post le at =
    next_drop n (n + length (group_bytes g) + 1 - 1) atr (p + upper g ((q, h) ∷ rest))
      (group_bytes g) ((q + upper h rest) ∷ (chain_bytes h rest ++ post)) (omega arith)
      (at
        ∙ ap (λ xs. (p + upper g ((q, h) ∷ rest)) ∷ xs)
            (append_assoc (group_bytes g) ((q + upper h rest) ∷ chain_bytes h rest) post))
      (omega arith)

-- A group behind which another one comes.
pub groups_step :
    (left : ℕ) (info : Info) (atr : List ℕ) (len m n p q : ℕ) (g h : Group) (rest : Chain)
    (post : List ℕ)
    → p < 16
    → 2 ≤ n
    → drop (n - 1) atr ≡ (p + upper g ((q, h) ∷ rest)) ∷ (chain_bytes g ((q, h) ∷ rest) ++ post)
    → n + length (chain_bytes g ((q, h) ∷ rest)) ≤ len
    → groups (suc left) info atr len m n
      ≡ groups left (fill (named n info p) m g) atr len (m + 1) (n + length (group_bytes g) + 1)
unfolding groups round_end
groups_step left info atr len m n p q g h rest post lt le at fits =
    let td = p + upper g ((q, h) ∷ rest) in
    let v = upper-Announces p g ((q, h) ∷ rest) lt in
    let total = chain_head g h q rest in
    let this =
      round_lem info atr len td p m n g ((q, h) ∷ rest)
        ((q + upper h rest) ∷ (chain_bytes h rest ++ post)) v
        (get_or-drop (n - 1) 0 (n - 1) atr 0 (omega arith) ∙ ap (λ xs. get_or xs 0 0) at)
        (next_drop n n atr td []
          (group_bytes g ++ ((q + upper h rest) ∷ (chain_bytes h rest ++ post))) (omega arith)
          (at
            ∙ ap (λ xs. td ∷ xs)
                (append_assoc (group_bytes g) ((q + upper h rest) ∷ chain_bytes h rest) post))
          (omega arith))
        (omega arith) (omega (arith, fits, total)) in
    ground (arith, this, v, fits, total)

pub groups_lem :
    (left : ℕ) (info : Info) (atr : List ℕ) (len m n p : ℕ) (g : Group) (rest : Chain)
    (post : List ℕ)
    → p < 16
    → IsCoded g rest
    → length rest ≤ left
    → 2 ≤ n
    → drop (n - 1) atr ≡ (p + upper g rest) ∷ (chain_bytes g rest ++ post)
    → len
      ≡ n + length (chain_bytes g rest) + check_bytes (learn (named n info p) m g rest).supported
    → groups (suc left) info atr len m n ≡ ok (learn (named n info p) m g rest)
unfolding groups round_end
groups_lem left info atr len m n p g [] post lt coded few le at size =
    let v = upper-Announces p g [] lt in
    ground (
      arith,
      v,
      size,
      coded,
      round_lem info atr len (p + upper g []) p m n g [] post v
          (get_or-drop (n - 1) 0 (n - 1) atr 0 (omega arith) ∙ ap (λ xs. get_or xs 0 0) at)
          (next_drop n n atr (p + upper g []) [] (group_bytes g ++ post) (omega arith) at
            (omega arith)),
    )
groups_lem zero info atr len m n p g ((q, h) ∷ rest) post lt coded few le at size =
    absurd (omega arith)
groups_lem (suc left) info atr len m n p g ((q, h) ∷ rest) post lt coded few le at size =
    let total = chain_head g h q rest in
    let info' = fill (named n info p) m g in
    let next = n + length (group_bytes g) + 1 in
    groups_step (suc left) info atr len m n p q g h rest post lt le at (omega (arith, size))
    ∙ groups_lem left info' atr len (m + 1) next q h rest post coded.0 coded.1 (omega arith)
        (omega arith) (chain_drop atr n p q g h rest post le at)
        (rw (named-later next info' q (omega arith)) (omega (arith, size, total)))
    ∙ ap (λ i. ok (learn i (m + 1) h rest)) (named-later next info' q (omega arith))

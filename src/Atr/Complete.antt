-- ===== src/Atr/Complete.antt =====
-- `ifd_atr_complete` of src/ifd/reader.c: whether the whole answer to reset has come.
--
-- `atr` is the array and `len` how many of its bytes have come. The loop has one round more than bytes:
-- each round but the last moves the index.
use openct.Prelude.{
  ℕ, zero, suc, ◌+◌, ◌-◌, ◌<◌, ◌≤◌, ◌≡◌, ◌≢◌, ◌⊎◌, inl, inr, refl, ap, ◌∙◌, bit_and,
}
use openct.Prelude.{Bool, true, false, not, ◌&&◌, List, [], ◌∷◌, ◌++◌, length, drop}
use openct.Prelude.{
  get_or, ltb, ◌==◌, if◌then◌else◌, arith, length-append, get_or-drop, append_assoc, All,
}
use openct.Prelude.{get_or-All, Bool-cases}
use openct.Prelude.Masks.{mask_80}
use openct.Utils.{count_bits}
use openct.Utils.Counts.{count_f0}
use openct.Atr.{is_set}
use openct.Atr.Encoding.{Group, Chain, upper, chain_bytes, group_bytes, upper-Announces}
use openct.Atr.Encoding.{Answer, encode, trailer}
use openct.Atr.Groups.{next_drop}

-- `return 0` in the loop, or the index and the protocol behind it.
pub data Scan : Type 0 where
  incomplete stuck : Scan
  scanned : ℕ → ℕ → Scan

pub scan : ℕ → List ℕ → ℕ → ℕ → ℕ → Scan
scan zero atr len j proto = stuck
scan (suc fuel) atr len j proto =
    let c = get_or atr (j - 1) 0 in
    let proto' = if ltb 2 j then bit_and c 0xF else proto in
    let j' = j + count_bits (bit_and c 0xF0) in
    elim (ltb len j) [
      | true ↦ incomplete
      | false ↦ elim (is_set c 0x80) [
        | true ↦ scan fuel atr len j' proto'
        | false ↦ scanned j' proto'
      ]
    ]

-- The historical bytes, and the check byte of a protocol other than T=0.
pub atr_complete : List ℕ → ℕ → Bool
atr_complete atr len = elim (scan (suc len) atr len 2 0) [
  | incomplete ↦ false
  | stuck ↦ false
  | scanned j proto ↦
      let j' = j + bit_and (get_or atr 1 0) 0xF in
      if ltb len j' then false else not (not (proto == 0) && ltb len (j' + 1))
]

abbrev IsByte : ℕ → Type 0
IsByte b = b < 256

-- A byte with the highest bit moves the index.
pub byte_moves : (c : ℕ) → c < 256 → is_set c 0x80 ≡ true → 1 ≤ count_bits (bit_and c 0xF0)
byte_moves c b h = ground (arith, h, mask_80 c b, count_f0 c b)

-- The loop ends before its rounds are used up.
scan_ends :
    (fuel : ℕ) (atr : List ℕ) (len j proto : ℕ)
    → All IsByte atr
    → len + 1 < j + fuel
    → 0 < fuel
    → scan fuel atr len j proto ≢ stuck
unfolding scan
scan_ends zero atr len j proto bytes enough pos = absurd (omega arith)
scan_ends (suc fuel) atr len j proto bytes enough pos =
    let c = get_or atr (j - 1) 0 in
    let b : c < 256 = get_or-All IsByte (j - 1) atr 0 bytes (omega arith) in
    let j' = j + count_bits (bit_and c 0xF0) in
    elim (Bool-cases (ltb len j)) [
      | inl far ↦ ground (arith, far)
      | inr near ↦ elim (Bool-cases (is_set c 0x80)) [
        | inr last ↦ ground (arith, near, last)
        | inl more ↦
            let m = byte_moves c b more in
            let rec =
              scan_ends fuel atr len j' (if ltb 2 j then bit_and c 0xF else proto) bytes
                (ground (arith, near, m)) (ground (arith, near)) in
            ground (arith, near, more, rec)
      ]
    ]

pub atr_complete_ends :
    (atr : List ℕ) (len : ℕ) → All IsByte atr → scan (suc len) atr len 2 0 ≢ stuck
atr_complete_ends atr len bytes = scan_ends (suc len) atr len 2 0 bytes (omega arith) (omega arith)

abbrev pub HasProtocols : Chain → Type 0
HasProtocols [] = Unit
HasProtocols ((p, g) ∷ rest) = (p < 16) × HasProtocols rest

-- The protocol that is named last, if any is.
abbrev pub last_named : ℕ → Chain → ℕ
last_named p [] = p
last_named p ((q, g) ∷ rest) = last_named q rest

scan_chain :
    (fuel : ℕ) (atr : List ℕ) (len j proto p : ℕ) (g : Group) (rest : Chain) (post : List ℕ)
    → p < 16
    → HasProtocols rest
    → 2 ≤ j
    → len + 1 < j + fuel
    → 0 < fuel
    → drop (j - 1) atr ≡ (p + upper g rest) ∷ (chain_bytes g rest ++ post)
    → ((scan fuel atr len j proto ≡ incomplete) × (len < j + length (chain_bytes g rest)))
      ⊎ (scan fuel atr len j proto
          ≡ scanned
              (j + length (chain_bytes g rest))
              (last_named (if ltb 2 j then p else proto) rest))
unfolding scan
scan_chain zero atr len j proto p g rest post lt names two enough pos at = absurd (omega arith)
scan_chain (suc fuel) atr len j proto p g [] post lt names two enough pos at =
    let v = upper-Announces p g [] lt in
    let here = get_or-drop (j - 1) 0 (j - 1) atr 0 (omega arith) ∙ ap (λ xs. get_or xs 0 0) at in
    elim (Bool-cases (ltb len j)) [
      | inl far ↦ inl (ground (arith, far), ground (arith, far))
      | inr near ↦ inr (ground (arith, v, here, near))
    ]
scan_chain (suc fuel) atr len j proto p g ((q, h) ∷ rest) post lt names two enough pos at =
    let td = p + upper g ((q, h) ∷ rest) in
    let next = j + length (group_bytes g) + 1 in
    let v = upper-Announces p g ((q, h) ∷ rest) lt in
    let here = get_or-drop (j - 1) 0 (j - 1) atr 0 (omega arith) ∙ ap (λ xs. get_or xs 0 0) at in
    let total = length-append (group_bytes g) ((q + upper h rest) ∷ chain_bytes h rest) in
    let at' : drop (next - 1) atr ≡ (q + upper h rest) ∷ (chain_bytes h rest ++ post) =
      next_drop j (next - 1) atr td (group_bytes g)
        ((q + upper h rest) ∷ (chain_bytes h rest ++ post)) (omega arith)
        (at
          ∙ ap (λ xs. td ∷ xs)
              (append_assoc (group_bytes g) ((q + upper h rest) ∷ chain_bytes h rest) post))
        (omega arith) in
    elim (Bool-cases (ltb len j)) [
      | inl far ↦ inl (ground (arith, far), ground (arith, far))
      | inr near ↦
          let rec =
            scan_chain fuel atr len next (if ltb 2 j then p else proto) q h rest post names.0
              names.1 (omega arith) (ground (arith, near)) (ground (arith, near)) at' in
          ground (arith, v, here, near, total, rec)
    ]

-- The last protocol that is named is T=0 only where no other is.
abbrev pub EndsInOrder : Answer → Type 0
EndsInOrder a = length (trailer a) ≡ (if last_named 0 a.rest == 0 then 0 else 1)

-- Of an answer to reset that is coded by the standard, with its protocols in an order that ends in T=0
-- only where no other is named, the first n bytes count as complete exactly where they are all of it.
pub atr_complete-encode :
    (a : Answer) (n : ℕ)
    → HasProtocols a.rest
    → length a.historical < 16
    → EndsInOrder a
    → atr_complete (encode a) n ≡ not (ltb n (length (encode a)))
unfolding atr_complete
atr_complete-encode a n names few order =
    let post = a.historical ++ trailer a in
    let td = length a.historical + upper a.head a.rest in
    let proto = (upper-Announces (length a.historical) a.head a.rest few).proto in
    let total = length-append (chain_bytes a.head a.rest) post in
    let behind = length-append a.historical (trailer a) in
    elim (scan_chain (suc n) (encode a) n 2 0 (length a.historical) a.head a.rest post few names
      (omega arith) (omega arith) (omega arith) refl) [
        | inl (e, far) ↦ ground (arith, e, far, total, behind)
        | inr e ↦ ground (arith, e, proto, order, total, behind)
      ]

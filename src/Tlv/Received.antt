-- ===== src/Tlv/Received.antt =====
-- What a parser says of items that came with large tags, whatever was in it before: the client library
-- does not initialize its parsers.
use openct.Prelude.{ℕ, zero, suc, ◌+◌, ◌*◌, ◌/◌, ◌%◌, ◌<◌, ◌≤◌, ◌≡◌, refl, ap, ◌∙◌, arith, ◌||◌}
use openct.Prelude.{true, some, List, [], ◌∷◌, ◌++◌, length, take, drop, All, ltb, ◌==◌}
use openct.Prelude.{Bool-cases, Option-cases, inl, inr}
use openct.Prelude.Memory.{load}
use openct.Buffer.{Buf, contents, avail}
use openct.Buffer
use openct.Buffer.Inv.{IsValid, length-contents}
use openct.Tlv.{
  Parser, Parsed, Header, header, store_item, parse_loop, parse, get_opaque, get_bytes,
}
use openct.Tlv.Grammar.{Item, find_last}
use openct.Tlv.Parse.{run_encoded, header-large, from_head}
use openct.Tlv.RoundTrip.{IsItem, encode, Encodes-encode, length-encode_cons}

store_item_keeps :
    (p : Parser) (b : Buf) (h : Header)
    → p.use_large_tags ≡ true
    → (store_item p b h).use_large_tags ≡ true
unfolding store_item
store_item_keeps p b h e = ground (arith, e)

-- The flag of large tags stays once it is set.
parse_loop_keeps :
    (fuel : ℕ) (p q : Parser) (b left : Buf)
    → parse_loop fuel p b ≡ Parsed.done q left
    → p.use_large_tags ≡ true
    → q.use_large_tags ≡ true
unfolding parse_loop
parse_loop_keeps zero p q b left e f = ground (arith, e, f)
parse_loop_keeps (suc fuel) p q b left e f = elim (Bool-cases (avail b == 0)) [
  | inl z ↦ ground (arith, e, f, z)
  | inr nz ↦ elim (Option-cases (header (avail b) (drop b.head b.base))) [
    | inl n ↦ ground (arith, e, nz, n)
    | inr (h, s) ↦ elim (Bool-cases (h.len == 0 || ltb (avail b) (h.size + h.len))) [
      | inl bad ↦ ground (arith, e, nz, s, bad)
      | inr good ↦
          parse_loop_keeps fuel (store_item p b h) q (Buffer.get b (h.size + h.len)).0 left
            (ground (arith, e, nz, s, good)) (store_item_keeps p b h f)
    ]
  ]
]

parse_loop_flags :
    (fuel : ℕ) (p q : Parser) (b left : Buf) (h : Header)
    → parse_loop fuel p b ≡ Parsed.done q left
    → 0 < avail b
    → header (avail b) (drop b.head b.base) ≡ some h
    → h.large ≡ true
    → q.use_large_tags ≡ true
unfolding parse_loop
parse_loop_flags zero p q b left h e pos s l = ground (arith, e)
parse_loop_flags (suc fuel) p q b left h e pos s l =
    elim (Bool-cases (h.len == 0 || ltb (avail b) (h.size + h.len))) [
      | inl bad ↦ ground (arith, e, s, bad)
      | inr good ↦
          parse_loop_keeps fuel (store_item p b h) q (Buffer.get b (h.size + h.len)).0 left
            (ground (arith, e, s, good)) (unfold store_item in ground (arith, l))
    ]

-- Items with large tags, the first of them (t, v).
pub record Received (p : Parser) (b : Buf) (t : ℕ) (v : List ℕ) (items : List Item) : Type 0 where
  pub parser : Parser
  pub left : Buf
  pub ends : parse p b ≡ Parsed.done parser left
  pub flagged : parser.use_large_tags ≡ true
  pub values :
      (tag : ℕ)
      → get_opaque parser b.base tag ≡ find_last tag ((t, v) ∷ items) (get_opaque p b.base tag)

pub parse-encode :
    (p : Parser) (b : Buf) (t : ℕ) (v : List ℕ) (items : List Item)
    → IsValid b
    → contents b ≡ encode true ((t, v) ∷ items)
    → All (IsItem true) ((t, v) ∷ items)
    → Received p b t v items
unfolding parse
parse-encode p b t v items valid e ok_items =
    let r =
      run_encoded (avail b) p b valid (omega arith) e
        (Encodes-encode true ((t, v) ∷ items) ok_items) in
    let long : 3 ≤ avail b =
      omega (arith, ap length e, length-contents valid, length-encode_cons true t v items) in
    let z = from_head b (encode true ((t, v) ∷ items)) e in
    let h : Header = record {
      large = true;
      tag = t;
      size = 3;
      len = length v / 256 * 256 + length v % 256;
    } in
    let read : header (avail b) (drop b.head b.base) ≡ some h =
      ap (header (avail b)) z.1
      ∙ header-large (avail b) t (length v / 256) (length v % 256) ((v ++ encode true items) ++ z.0)
          long ok_items.0.0 (omega (arith, ok_items.0.2)) (omega arith) in
    record {
      parser = r.parser;
      left = r.left;
      ends = r.ends;
      flagged =
          parse_loop_flags (avail b) p r.parser b r.left h r.ends (omega (arith, long)) read refl;
      values = r.values;
    }

-- A prefix of m bytes that are no more than n is the prefix of n.
take_short : (n m : ℕ) (xs : List ℕ) → n < m → length (take m xs) ≤ n → take n xs ≡ take m xs
take_short zero (suc m) [] lt h = refl
take_short (suc n) (suc m) [] lt h = refl
take_short n zero [] lt h = absurd (omega arith)
take_short n zero (x ∷ xs) lt h = absurd (omega arith)
take_short zero (suc m) (x ∷ xs) lt h = absurd (omega arith)
take_short (suc n) (suc m) (x ∷ xs) lt h =
    ap (◌∷◌ x) (take_short n m xs (omega arith) (omega arith))

-- `ct_tlv_get_bytes` gives what `ct_tlv_get_opaque` gives, cut to the size.
pub get_bytes_lem :
    (p : Parser) (mem : List ℕ) (tag size : ℕ) (bs : List ℕ)
    → get_opaque p mem tag ≡ some bs
    → length bs ≤ size
    → get_bytes p mem tag size ≡ some bs
unfolding get_bytes get_opaque
get_bytes_lem p mem tag size bs e fits = elim (Option-cases (p.val tag)) [
  | inl n ↦ ground (arith, e, n)
  | inr (at, s) ↦ elim (Bool-cases (ltb size (p.len tag))) [
    | inr near ↦ ground (arith, e, s, near)
    | inl far ↦
        let same : load mem at (p.len tag) ≡ bs = ground (arith, e, s) in
        let short =
          take_short size (p.len tag) (drop at mem) (ground (arith, far))
            (omega (arith, ap length same)) in
        ground (arith, e, s, far, short)
  ]
]

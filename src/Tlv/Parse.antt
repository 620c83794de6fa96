-- ===== src/Tlv/Parse.antt =====
-- `ct_tlv_parse` of src/ct/tlv.c against the grammar.
use openct.Prelude.{ℕ, zero, suc, ◌+◌, ◌-◌, ◌*◌, ◌/◌, ◌%◌, ◌≤◌, ◌<◌, ◌≡◌, refl, sym}
use openct.Prelude.{ap, ◌∙◌, arith, true, false, none, some, List, [], ◌∷◌, ◌++◌}
use openct.Prelude.{length, take, drop, ◌==◌, if◌then◌else◌}
use openct.Prelude.{length-append, take-append-drop, append_assoc, drop-drop, drop-append}
use openct.Prelude.{take-append, bit_and}
use openct.Prelude.Bits.{bit_or_byte, agree_lem, agree}
use openct.Prelude.Memory.{load, add32}
use openct.Buffer.{Buf, contents, avail}
use openct.Buffer
use openct.Buffer.Inv.{IsValid, length-contents, get-IsValid}
use openct.Buffer.Lines.{contents_advance, get_fits}
use openct.Tlv.{Parser, Header, Parsed, header, store_item, parse_loop, parse, get_opaque, no_items}
use openct.Tlv.Grammar.{Item, IsTag, Encodes, find_last}

large_bit : (t : ℕ) → t < 256 → bit_and t 0x40 ≡ t / 64 % 2 * 64
unfolding agree
large_bit = agree_lem 256 (λ t. bit_and t 0x40) (λ t. t / 64 % 2 * 64) refl

clear_bit : (t : ℕ) → t < 256 → bit_and t 0xbf ≡ t - t / 64 % 2 * 64
unfolding agree
clear_bit = agree_lem 256 (λ t. bit_and t 0xbf) (λ t. t - t / 64 % 2 * 64) refl

header-small :
    (room t n : ℕ) (p : List ℕ)
    → 2 ≤ room
    → IsTag t
    → header room (t ∷ n ∷ p) ≡ some (record { large = false; tag = t; size = 2; len = n })
unfolding header
header-small room t n p h k = ground (arith, large_bit t)

pub header-large :
    (room t hi lo : ℕ) (p : List ℕ)
    → 3 ≤ room
    → IsTag t
    → hi < 256
    → lo < 256
    → header room ((t + 64) ∷ hi ∷ lo ∷ p)
      ≡ some (record { large = true; tag = t; size = 3; len = hi * 256 + lo })
unfolding header
header-large room t hi lo p h k a b =
    ground (arith, large_bit (t + 64), clear_bit (t + 64), bit_or_byte hi lo)

-- The memory from the head on begins with the contents.
pub from_head :
    (b : Buf) (xs : List ℕ) → contents b ≡ xs → (z : List ℕ) × (drop b.head b.base ≡ xs ++ z)
from_head b xs e =
    let z = drop (avail b) (drop b.head b.base) in
    (z, sym (take-append-drop (avail b) (drop b.head b.base)) ∙ ap (λ t. t ++ z) e)

-- What `ct_buf_get` with NULL takes, for contents in three pieces: a header, a value and the rest.
record Taken (b b' : Buf) (hs v rest : List ℕ) : Type 0 where
  valid : IsValid b'
  base : b'.base ≡ b.base
  remaining : contents b' ≡ rest
  value : load b.base (b.head + length hs) (length v) ≡ v
  shorter : avail b' + (length hs + length v) ≡ avail b

take_item :
    (b : Buf) (hs v rest : List ℕ)
    → IsValid b
    → contents b ≡ hs ++ (v ++ rest)
    → Taken b (Buffer.get b (length hs + length v)).0 hs v rest
take_item b hs v rest valid e = record {
  valid = get-IsValid k valid;
  base = ap (λ (c : Buf). c.base) moved;
  remaining =
      ap contents moved
      ∙ contents_advance k valid fits
      ∙ ap (drop k) (e ∙ sym (append_assoc hs v rest))
      ∙ drop-append k (hs ++ v) rest (sym (length-append hs v));
  value =
      sym (ap (take (length v)) (drop-drop b.head (length hs) (b.head + length hs) b.base refl))
      ∙ ap (λ t. take (length v) (drop (length hs) t))
          (start ∙ append_assoc hs (v ++ rest) z ∙ ap (λ t. hs ++ t) (append_assoc v rest z))
      ∙ ap (take (length v)) (drop-append (length hs) hs (v ++ (rest ++ z)) refl)
      ∙ take-append (length v) v (rest ++ z) refl;
  shorter = rw moved (omega (arith, fits));
}
  where
    k : ℕ
    k = length hs + length v

    len : length (contents b) ≡ k + length rest
    len = omega (arith, ap length e, length-append hs (v ++ rest), length-append v rest)

    fits : k ≤ avail b
    fits = omega (arith, len, length-contents valid)

    moved : (Buffer.get b k).0 ≡ record b { head = add32 b.head k }
    moved = get_fits b k fits

    z : List ℕ
    z = (from_head b (hs ++ (v ++ rest)) e).0

    start : drop b.head b.base ≡ (hs ++ (v ++ rest)) ++ z
    start = (from_head b (hs ++ (v ++ rest)) e).1

get_opaque-store_item :
    (p : Parser) (b : Buf) (h : Header) (mem : List ℕ) (tag : ℕ)
    → get_opaque (store_item p b h) mem tag
      ≡ (if tag == h.tag then some (load mem (b.head + h.size) h.len) else get_opaque p mem tag)
unfolding get_opaque store_item
get_opaque-store_item p b h mem tag = ground arith

-- A run of the loop that ends well: the buffer is empty, and each tag has the value that the items
-- give it, or else the one that it had.
pub record Reads (fuel : ℕ) (p : Parser) (b : Buf) (items : List Item) : Type 0 where
  pub parser : Parser
  pub left : Buf
  pub ends : parse_loop fuel p b ≡ Parsed.done parser left
  pub empty : contents left ≡ []
  pub values :
      (tag : ℕ) → get_opaque parser b.base tag ≡ find_last tag items (get_opaque p b.base tag)

parse_round :
    (fuel : ℕ) (p : Parser) (b : Buf) (h : Header)
    → 0 < avail b
    → header (avail b) (drop b.head b.base) ≡ some h
    → 0 < h.len
    → h.size + h.len ≤ avail b
    → parse_loop (suc fuel) p b
      ≡ parse_loop fuel (store_item p b h) (Buffer.get b (h.size + h.len)).0
unfolding parse_loop
parse_round fuel p b h some_left e pos fits = ground (arith, e)

-- One item in front of a run.
run_item :
    (fuel : ℕ) (p : Parser) (b : Buf) (h : Header) (hs v rest : List ℕ) (items : List Item)
    → IsValid b
    → contents b ≡ hs ++ (v ++ rest)
    → header (avail b) (drop b.head b.base) ≡ some h
    → h.size ≡ length hs
    → h.len ≡ length v
    → 0 < length v
    → Reads fuel (store_item p b h) (Buffer.get b (length hs + length v)).0 items
    → Reads (suc fuel) p b ((h.tag, v) ∷ items)
run_item fuel p b h hs v rest items valid e he es el pos r = record {
  parser = r.parser;
  left = r.left;
  ends =
      parse_round fuel p b h (omega (arith, taken.shorter)) he (omega arith)
        (omega (arith, taken.shorter))
      ∙ ap (λ n. parse_loop fuel (store_item p b h) (Buffer.get b n).0) (omega arith)
      ∙ r.ends;
  empty = r.empty;
  values = λ tag.
      ground (arith, r.values tag, taken.base, taken.value, get_opaque-store_item p b h b.base tag);
}
  where
    taken : Taken b (Buffer.get b (length hs + length v)).0 hs v rest
    taken = take_item b hs v rest valid e

run_empty : (fuel : ℕ) (p : Parser) (b : Buf) → IsValid b → contents b ≡ [] → Reads fuel p b []
unfolding parse_loop
run_empty fuel p b valid e = record {
  parser = p;
  left = b;
  ends = ends fuel;
  empty = e;
  values = λ tag. refl;
}
  where
    none_left : avail b ≡ 0
    none_left = omega (arith, ap length e, length-contents valid)

    ends : (f : ℕ) → parse_loop f p b ≡ Parsed.done p b
    ends zero = rw none_left
    ends (suc f) = ground (arith, none_left)

pub run_encoded :
    (fuel : ℕ) (p : Parser) (b : Buf) {bs : List ℕ} {items : List Item}
    → IsValid b
    → avail b ≤ fuel
    → contents b ≡ bs
    → Encodes bs items
    → Reads fuel p b items
run_encoded fuel p b valid f e Encodes.nil = run_empty fuel p b valid e
run_encoded zero p b valid f e (Encodes.small t v rest items bs eb it pos lt r) =
    absurd (omega (arith, ap length (e ∙ eb), length-contents valid))
run_encoded zero p b valid f e (Encodes.large t v rest items bs eb it pos lt r) =
    absurd (omega (arith, ap length (e ∙ eb), length-contents valid))
run_encoded (suc fuel) p b valid f e (Encodes.small t v rest items bs eb it pos lt r) =
    run_item fuel p b h hs v rest items valid (e ∙ eb) he refl refl pos (
      run_encoded fuel (store_item p b h) (Buffer.get b (length hs + length v)).0 taken.valid
        (omega (arith, taken.shorter)) taken.remaining r)
  where
    hs : List ℕ
    hs = t ∷ length v ∷ []

    h : Header
    h = record { large = false; tag = t; size = 2; len = length v }

    taken : Taken b (Buffer.get b (length hs + length v)).0 hs v rest
    taken = take_item b hs v rest valid (e ∙ eb)

    he : header (avail b) (drop b.head b.base) ≡ some h
    he =
        rw (from_head b (hs ++ (v ++ rest)) (e ∙ eb)).1
          (header-small (avail b) t (length v) _ (omega (arith, taken.shorter)) it)
run_encoded (suc fuel) p b valid f e (Encodes.large t v rest items bs eb it pos lt r) =
    run_item fuel p b h hs v rest items valid (e ∙ eb) he refl (omega arith) pos (
      run_encoded fuel (store_item p b h) (Buffer.get b (length hs + length v)).0 taken.valid
        (omega (arith, taken.shorter)) taken.remaining r)
  where
    hs : List ℕ
    hs = (t + 64) ∷ (length v / 256) ∷ (length v % 256) ∷ []

    h : Header
    h = record { large = true; tag = t; size = 3; len = length v / 256 * 256 + length v % 256 }

    taken : Taken b (Buffer.get b (length hs + length v)).0 hs v rest
    taken = take_item b hs v rest valid (e ∙ eb)

    he : header (avail b) (drop b.head b.base) ≡ some h
    he = rw (from_head b (hs ++ (v ++ rest)) (e ∙ eb)).1 (
        header-large (avail b) t (length v / 256) (length v % 256) _ (omega (arith, taken.shorter))
          it (omega arith) (omega arith))

-- What encodes a list of items is parsed to the end, and every tag then has the value of its last
-- item, or none.
pub parse-Encodes :
    (b : Buf) {bs : List ℕ} {items : List Item}
    → IsValid b
    → contents b ≡ bs
    → Encodes bs items
    → (p : Parser) × (left : Buf) × (parse no_items b ≡ Parsed.done p left)
      × (contents left ≡ [])
      × ((tag : ℕ) → get_opaque p b.base tag ≡ find_last tag items none)
unfolding parse
parse-Encodes b valid e enc =
    let r = run_encoded (avail b) no_items b valid (omega arith) e enc in
    (r.parser, r.left, r.ends, r.empty, λ tag. r.values tag ∙ unfold get_opaque in refl)

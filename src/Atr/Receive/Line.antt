-- ===== src/Atr/Receive/Line.antt =====
-- The bytes of a card in either convention, and the loop over the groups of its answer.
use openct.Prelude.{ℕ, zero, suc, ◌+◌, ◌-◌, ◌<◌, ◌≤◌, ◌≡◌, refl, ap, sym, ◌∙◌, arith}
use openct.Prelude.{
  Bool, true, false, Option, none, some, List, [], ◌∷◌, ◌++◌, length, if◌then◌else◌,
}
use mathlib.Core.Path.{subst}
use openct.Prelude.{length-append, append_assoc, All, bit_and}
use openct.Prelude.Memory.{store-store, get_or-store_last}
use openct.Buffer.{Buf, put, put_room}
use openct.Buffer.Inv.{IsValid}
use openct.Buffer.Append.{grown, grown-IsValid}
use openct.Utils.{count_bits, revert_bits}
use openct.Utils.Reversal.{revert_bits-revert_bits, length-revert_bits, revert_bits-append}
use openct.Atr.Encoding.{Group, Chain, upper, chain_bytes, group_bytes, upper-Announces}
use openct.Atr.Complete.{HasProtocols, last_named}
use openct.Atr.Receive.{recv_bytes, recv_atr, Groups, read_groups}

abbrev pub IsByte : ℕ → Type 0
IsByte b = b < 256

-- A card is the bytes that it still sends.
abbrev pub next_byte : List ℕ → List ℕ × Option ℕ
next_byte [] = ([], none)
next_byte (x ∷ xs) = (xs, some x)

-- Bytes as they are on the line, in the inverse convention or not.
abbrev pub on_line : Bool → List ℕ → List ℕ
on_line inverse xs = if inverse then revert_bits xs else xs

pub on_line-append :
    (inverse : Bool) (xs ys : List ℕ)
    → on_line inverse (xs ++ ys) ≡ on_line inverse xs ++ on_line inverse ys
on_line-append true xs ys = revert_bits-append xs ys
on_line-append false xs ys = refl

recv_bytes_lem :
    (n : ℕ) (xs ys : List ℕ)
    → n ≡ length xs
    → recv_bytes (List ℕ) next_byte n (xs ++ ys) ≡ (ys, xs, true)
unfolding recv_bytes
recv_bytes_lem zero [] ys e = refl
recv_bytes_lem (suc n) [] ys e = absurd (omega arith)
recv_bytes_lem zero (x ∷ xs) ys e = absurd (omega arith)
recv_bytes_lem (suc n) (x ∷ xs) ys e = ground (arith, recv_bytes_lem n xs ys (omega arith))

pub recv_atr_lem :
    (b : Buf) (n : ℕ) (inverse : Bool) (xs ys : List ℕ)
    → IsValid b
    → b.tail + length xs ≤ b.size
    → n ≡ length xs
    → All IsByte xs
    → recv_atr (List ℕ) next_byte (on_line inverse xs ++ ys) b n inverse ≡ (ys, grown b xs, true)
unfolding recv_atr put put_room
recv_atr_lem b n true xs ys v fits e bytes = ground (
  arith,
  recv_bytes_lem n (revert_bits xs) ys (omega (arith, length-revert_bits xs)),
  revert_bits-revert_bits xs bytes,
)
recv_atr_lem b n false xs ys v fits e bytes = ground (arith, recv_bytes_lem n xs ys e)

pub grown-grown : (b : Buf) (xs ys : List ℕ) → grown (grown b xs) ys ≡ grown b (xs ++ ys)
grown-grown b xs ys =
    ground (arith, store-store b.base b.tail (b.tail + length xs) xs ys refl, length-append xs ys)

pub All-split : (xs ys : List ℕ) → All IsByte (xs ++ ys) → All IsByte xs × All IsByte ys
All-split [] ys h = (tt, h)
All-split (x ∷ xs) ys h = let r = All-split xs ys h.1 in ((h.0, r.0), r.1)

pub read_chain :
    (fuel : ℕ) (b : Buf) (inverse : Bool) (p proto : ℕ) (g : Group) (rest : Chain) (more : List ℕ)
    → p < 16
    → HasProtocols rest
    → All IsByte (chain_bytes g rest)
    → IsValid b
    → b.tail + length (chain_bytes g rest) ≤ b.size
    → length rest < fuel
    → read_groups
        (List ℕ)
        next_byte
        fuel
        (on_line inverse (chain_bytes g rest) ++ more)
        b
        (p + upper g rest)
        proto
        inverse
      ≡ Groups.groups_read more (grown b (chain_bytes g rest)) (last_named proto rest)
unfolding read_groups
read_chain zero b inverse p proto g rest more lt names bytes v fits few = absurd (omega arith)
read_chain (suc fuel) b inverse p proto g [] more lt names bytes v fits few =
    let a = upper-Announces p g [] lt in
    let first =
      recv_atr_lem b (count_bits (bit_and (p + upper g []) 0xF0)) inverse (group_bytes g) more v
        fits (omega (arith, a.count)) bytes in
    ground (arith, a.goes_on, first)
read_chain (suc fuel) b inverse p proto g ((q, h) ∷ rest) more lt names bytes v fits few =
    let td = p + upper g ((q, h) ∷ rest) in
    let td' = q + upper h rest in
    let xs = group_bytes g ++ td' ∷ [] in
    let n = count_bits (bit_and td 0xF0) in
    let a = upper-Announces p g ((q, h) ∷ rest) lt in
    let whole : group_bytes g ++ td' ∷ chain_bytes h rest ≡ xs ++ chain_bytes h rest =
      sym (append_assoc (group_bytes g) (td' ∷ []) (chain_bytes h rest)) in
    let size = length-append (group_bytes g) (td' ∷ []) in
    let size' = length-append (group_bytes g) (td' ∷ chain_bytes h rest) in
    let two : All IsByte xs × All IsByte (chain_bytes h rest) =
      All-split xs (chain_bytes h rest) (subst (All IsByte) whole bytes) in
    let fits' : b.tail + length xs ≤ b.size = omega (arith, fits, size, size') in
    let first =
      recv_atr_lem b n inverse xs (on_line inverse (chain_bytes h rest) ++ more) v fits'
        (omega (arith, a.count, size)) two.0 in
    let last =
      get_or-store_last b.base b.tail (b.tail + length xs - 1) (group_bytes g) td'
        (omega (arith, size)) (omega (arith, size)) in
    let stream : on_line inverse (group_bytes g ++ td' ∷ chain_bytes h rest) ++ more
        ≡ on_line inverse xs ++ (on_line inverse (chain_bytes h rest) ++ more) =
      ap (λ t. on_line inverse t ++ more) whole
      ∙ ap (λ t. t ++ more) (on_line-append inverse xs (chain_bytes h rest))
      ∙ append_assoc (on_line inverse xs) (on_line inverse (chain_bytes h rest)) more in
    let rec =
      read_chain fuel (grown b xs) inverse q q h rest more names.0 names.1 two.1
        (grown-IsValid b xs v fits') (omega (arith, fits, size, size')) (omega arith) in
    let next = upper-Announces q h rest names.0 in
    ground (
      arith,
      a.goes_on,
      next.proto,
      first,
      last,
      stream,
      rec,
      size,
      grown-grown b xs (chain_bytes h rest),
      whole,
    )

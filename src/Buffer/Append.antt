-- ===== src/Buffer/Append.antt =====
-- `ct_buf_put` of src/ct/buffer.c where the bytes fit behind the tail, and writes into the contents.
use openct.Prelude.{ℕ, ◌+◌, ◌≤◌, ◌<◌, ◌≡◌, refl, ap, ◌∙◌, arith, some, List, [], ◌∷◌, ◌++◌, length}
use openct.Prelude.Memory.{store, length-store, load-store, load-store_end, store-append}
use openct.Prelude.Memory.{store-zero-append}
use openct.Buffer.{Buf, Source, contents, avail, put, put_room, putc}
use openct.Buffer.Inv.{IsValid}

-- A `put` that fits behind the tail moves nothing.
abbrev pub grown : Buf → List ℕ → Buf
grown b xs = record b { base = store b.base b.tail xs; tail = b.tail + length xs }

pub put_fits :
    (b : Buf) (xs : List ℕ)
    → IsValid b
    → b.tail + length xs ≤ b.size
    → put b (Source.bytes xs) ≡ (grown b xs, some (length xs))
unfolding put put_room
put_fits b xs v h = ground arith

pub grown-IsValid :
    (b : Buf) (xs : List ℕ) → IsValid b → b.tail + length xs ≤ b.size → IsValid (grown b xs)
grown-IsValid b xs v h = omega (arith, length-store b.base b.tail xs)

pub contents-grown :
    (b : Buf) (xs : List ℕ)
    → IsValid b
    → b.tail + length xs ≤ b.size
    → contents (grown b xs) ≡ contents b ++ xs
contents-grown b xs v h =
    load-store_end b.base b.head (avail b) b.tail (avail (grown b xs)) xs (omega arith)
      (omega arith) (omega arith)

-- Bytes written over a part of the contents.
pub contents-patch :
    (b : Buf) (o : ℕ) (xs old new ys : List ℕ)
    → contents b ≡ xs ++ (old ++ ys)
    → length old ≡ length new
    → o ≡ b.head + length xs
    → contents (record b { base = store b.base o new }) ≡ xs ++ (new ++ ys)
contents-patch b o xs old new ys e len at =
    load-store b.base b.head (avail b) o (length xs) new at
    ∙ ap (λ t. store t (length xs) new) e
    ∙ store-append xs (old ++ ys) (length xs) new refl
    ∙ ap (λ t. xs ++ t) (store-zero-append old ys new len)

pub putc_fits :
    (b : Buf) (c : ℕ)
    → IsValid b
    → b.tail + 1 ≤ b.size
    → c < 256
    → putc b c ≡ (grown b (c ∷ []), some 1)
unfolding putc
putc_fits b c v h lt = ground (arith, put_fits b (c ∷ []) v)

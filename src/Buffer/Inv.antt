-- ===== src/Buffer/Inv.antt =====
-- The invariant of `ct_buf_t`, kept by every operation of src/ct/buffer.c.
use openct.Prelude.{ℕ, zero, suc, ◌+◌, ◌-◌, ◌^◌, ◌≤◌, ◌<◌, ◌≡◌, refl, arith, Option, some}
use openct.Prelude.{List, [], ◌∷◌, length, Option-cases, inl, inr, ltb, Bool-cases, drop}
use openct.Prelude.Memory.{sub32, length-store, length-load}
use openct.Buffer.{Buf, Source, source_len, copy_in, init, set, clear, compact, contents, avail}
use openct.Buffer.{tailroom, get, put_room, put, push, line_len, eat_line, gets_limit, gets, read}

-- The window lies in the array, which is smaller than 2 ^ 31 bytes (so that a length fits `int`).
pub record IsValid (b : Buf) : Type 0 where
  pub window : b.head ≤ b.tail
  pub room : b.tail ≤ b.size
  pub storage : b.size ≤ length b.base
  pub small : b.size < 2 ^ 31

pub length-copy_in :
    (base : List ℕ) (off : ℕ) (src : Source) → length (copy_in base off src) ≡ length base
length-copy_in base off (Source.bytes xs) = length-store base off xs
length-copy_in base off (Source.null n) = refl

pub avail_lem : {b : Buf} → IsValid b → avail b ≡ b.tail - b.head
avail_lem v = omega arith

pub length-contents : {b : Buf} → IsValid b → length (contents b) ≡ b.tail - b.head
length-contents {b} v = omega (arith, length-load b.base b.head (avail b) (omega arith))

pub init-IsValid :
    (mem : List ℕ) (len : ℕ) → len ≤ length mem → len < 2 ^ 31 → IsValid (init mem len)
unfolding init
init-IsValid mem len h k = omega arith

pub set-IsValid : (mem : List ℕ) (len : ℕ) → len ≤ length mem → len < 2 ^ 31 → IsValid (set mem len)
unfolding set
set-IsValid mem len h k = omega arith

pub clear-IsValid : {b : Buf} → IsValid b → IsValid (clear b)
unfolding clear
clear-IsValid v = omega arith

pub compact-IsValid : {b : Buf} → IsValid b → IsValid (compact b)
unfolding compact
compact-IsValid {b} v = ground (arith, length-store b.base 0 (contents b))

pub get-IsValid : {b : Buf} (len : ℕ) → IsValid b → IsValid (get b len).0
unfolding get
get-IsValid len v = ground arith

pub put_room-IsValid : {b : Buf} (src : Source) → IsValid b → IsValid (put_room b src).0
unfolding put_room
put_room-IsValid {b} src v = ground (arith, length-copy_in b.base b.tail src)

pub put-IsValid : {b : Buf} (src : Source) → IsValid b → IsValid (put b src).0
unfolding put
put-IsValid {b} src v = elim (Bool-cases (ltb (tailroom b) (source_len src))) [
  | inl e ↦ rw e (put_room-IsValid src (compact-IsValid v))
  | inr e ↦ rw e (put_room-IsValid src v)
]

pub push-IsValid : {b : Buf} (src : Source) → IsValid b → IsValid (push b src).0
unfolding push
push-IsValid {b} src v = ground (arith, length-copy_in b.base (sub32 b.head (source_len src)) src)

pub line_len-le : (k : ℕ) (s : List ℕ) → line_len k s ≤ k
unfolding line_len
line_len-le zero s = omega arith
line_len-le (suc k) [] = omega arith
line_len-le (suc k) (c ∷ s) = ground (arith, line_len-le k s)

pub eat_line-le : (k : ℕ) (s : List ℕ) → eat_line k s ≤ k
unfolding eat_line
eat_line-le zero s = omega arith
eat_line-le (suc k) [] = omega arith
eat_line-le (suc k) (c ∷ s) = ground (arith, eat_line-le k s)

gets_limit-le : (b : Buf) (size : ℕ) → gets_limit b size ≤ avail b
gets_limit-le b size = ground arith

-- What `gets` takes from the buffer.
pub gets_taken-le :
    (b : Buf) (size : ℕ) (s t : List ℕ)
    → let n = line_len (gets_limit b size) s in n + eat_line (avail b - n) t ≤ avail b
gets_taken-le b size s t =
    let n : ℕ = line_len (gets_limit b size) s in
    omega
      (arith, line_len-le (gets_limit b size) s, eat_line-le (avail b - n) t, gets_limit-le b size)

pub gets-IsValid : {b : Buf} (size : ℕ) → IsValid b → IsValid (gets b size).0
unfolding gets
gets-IsValid {b} size v =
    let s : List ℕ = drop b.head b.base in
    omega (arith, gets_taken-le b size s (drop (line_len (gets_limit b size) s) s))

pub read-IsValid :
    (sys_read : ℕ → Option (List ℕ)) {b : Buf}
    → ((n : ℕ) (xs : List ℕ) → sys_read n ≡ some xs → length xs ≤ n)
    → IsValid b
    → IsValid (read sys_read b).0
unfolding read
read-IsValid sys_read {b} reads v = elim (Option-cases (sys_read (tailroom (compact b)))) [
  | inl e ↦ rw (e, read) (compact-IsValid v)
  | inr (xs, e) ↦
      rw (e, read)
        (omega (
          arith,
          compact-IsValid v,
          reads _ xs e,
          length-store (compact b).base (compact b).tail xs,
        ))
]

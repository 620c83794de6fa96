-- ===== src/Buffer.antt =====
-- The byte buffer `ct_buf_t` of src/ct/buffer.c and src/include/openct/buffer.h: a window
-- `head .. tail` of an array of `size` bytes.
--
-- `base` is the array itself; a pointer into it is an offset. A function that changes `*bp` returns
-- the new buffer beside its result; the result -1 is `none`. The fields are `unsigned int`, so sums
-- and differences wrap at 2 ^ 32; a length argument is a `size_t`.
pub mod Inv
pub mod Fifo
pub mod Refine
pub mod Lines
pub mod Append
mod Runs
use openct.Prelude.{ℕ, zero, suc, ◌+◌, ◌-◌, ◌%◌, ◌^◌, Option, none, some, List, [], ◌∷◌, ltb}
use openct.Prelude.{◌==◌, if◌then◌else◌, length, take, drop}
use openct.Prelude.Memory.{u8, u32, add32, sub32, load, store}

pub record Buf : Type 0 where
  pub base : List ℕ
  pub head : ℕ
  pub tail : ℕ
  pub size : ℕ
  pub overrun : ℕ

-- A `const void *mem` with its length: bytes, or the null pointer.
pub data Source : Type 0 where
  bytes : List ℕ → Source
  null : ℕ → Source

abbrev pub source_len : Source → ℕ
source_len (bytes xs) = length xs
source_len (null n) = n

-- `if (mem) memcpy(base + off, mem, len)`
abbrev pub copy_in : List ℕ → ℕ → Source → List ℕ
copy_in base off (bytes xs) = store base off xs
copy_in base off (null n) = base

unfoldable pub init : List ℕ → ℕ → Buf
init mem len = record { base = mem; head = 0; tail = 0; size = u32 len; overrun = 0 }

unfoldable pub set : List ℕ → ℕ → Buf
unfolding init
set mem len = record (init mem len) { tail = u32 len }

unfoldable pub clear : Buf → Buf
clear b = record b { head = 0; tail = 0 }

abbrev pub avail : Buf → ℕ
avail b = sub32 b.tail b.head

abbrev pub tailroom : Buf → ℕ
tailroom b = sub32 b.size b.tail

-- The bytes that a caller has to come: `ct_buf_head` with `ct_buf_avail`.
abbrev pub contents : Buf → List ℕ
contents b = load b.base b.head (avail b)

unfoldable pub compact : Buf → Buf
compact b =
    if b.head == 0
    then b
    else record b { base = store b.base 0 (contents b); tail = sub32 b.tail b.head; head = 0 }

-- The option holds what goes through `mem`; a caller that passes NULL drops it.
unfoldable pub get : Buf → ℕ → Buf × Option (List ℕ)
get b len =
    if ltb (avail b) len
    then (b, none)
    else (record b { head = add32 b.head len }, some (load b.base b.head len))

-- The second half of `ct_buf_put`, after the buffer may have been compacted.
unfoldable pub put_room : Buf → Source → Buf × Option ℕ
put_room b src = if ltb (tailroom b) (source_len src) then (record b { overrun = 1 }, none) else (
  record b { base = copy_in b.base b.tail src; tail = add32 b.tail (source_len src) },
  some (source_len src),
)

unfoldable pub put : Buf → Source → Buf × Option ℕ
put b src = put_room (if ltb (tailroom b) (source_len src) then compact b else b) src

pub push : Buf → Source → Buf × Option ℕ
push b src =
    if ltb b.head (source_len src)
    then (b, none)
    else let head = sub32 b.head (source_len src) in
      (record b { base = copy_in b.base head src; head = head }, some (source_len src))

unfoldable pub putc : Buf → ℕ → Buf × Option ℕ
putc b byte = put b (bytes (u8 byte ∷ []))

-- The string without its NUL.
pub puts : Buf → List ℕ → Buf × Option ℕ
puts b string = put b (bytes string)

abbrev pub newline : ℕ
newline = 10

-- `for (n = 0; n < size && s[n] != '\n'; n++) ;` with the rounds left, from `s` on.
pub line_len : ℕ → List ℕ → ℕ
line_len zero s = 0
line_len (suc k) [] = 0
line_len (suc k) (c ∷ s) = if c == newline then 0 else suc (line_len k s)

-- `while (n < avail && s[n++] != '\n') ;`: how far `n` moves in the rounds left.
pub eat_line : ℕ → List ℕ → ℕ
eat_line zero s = 0
eat_line (suc k) [] = 0
eat_line (suc k) (c ∷ s) = if c == newline then 1 else suc (eat_line k s)

-- `size -= 1` on a `size_t`, cut to what the buffer has.
abbrev pub gets_limit : Buf → ℕ → ℕ
gets_limit b size =
    let room = (size + 2 ^ 64 - 1) % 2 ^ 64 in if ltb (avail b) room then avail b else room

-- The list is what is copied to `buffer`, to which the code adds a NUL.
pub gets : Buf → ℕ → Buf × List ℕ
gets b size =
    let s = drop b.head b.base in
    let n = line_len (gets_limit b size) s in
    (record b { head = add32 b.head (n + eat_line (avail b - n) (drop n s)) }, take n s)

-- `read` is the system call on `fd`: what it delivers of at most so many bytes, `none` for -1.
pub read : (ℕ → Option (List ℕ)) → Buf → Buf × Option ℕ
read sys_read b =
    let c = compact b in
    elim (sys_read (tailroom c)) [
      | none ↦ (c, none)
      | some xs ↦
          (record c { base = store c.base c.tail xs; tail = add32 c.tail (length xs) }, some 0)
    ]

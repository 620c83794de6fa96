-- ===== src/Buffer/Lines.antt =====
-- `ct_buf_gets` of src/ct/buffer.c reads a line, and `ct_buf_push` takes back what `ct_buf_get` gave.
use openct.Prelude.{ℕ, zero, suc, ◌+◌, ◌-◌, ◌^◌, ◌≤◌, ◌<◌, ◌≡◌, ◌≢◌, refl, sym, ap, ◌∙◌, arith}
use openct.Prelude.{List, [], ◌∷◌, ◌++◌, length, take, drop, All, length-append, append_assoc}
use openct.Prelude.{take-append-drop, take-append_le, drop-append_le, drop-append}
use openct.Prelude.{All-drop, length-drop, drop-drop, drop-take, some}
use openct.Prelude.{drop-all}
use openct.Prelude.{take-take, take-min, take-add, min}
use openct.Prelude.Memory.{load, add32, load-store, length-load, store-zero-append}
use openct.Buffer.{Buf, Source, contents, avail, get, push, line_len, eat_line, gets_limit, gets}
use openct.Buffer.{newline}
use openct.Buffer.Inv.{IsValid, length-contents, gets_taken-le, get-IsValid}

abbrev pub IsInLine : ℕ → Type 0
IsInLine c = c ≢ newline

line_len-clear : (k : ℕ) (l r : List ℕ) → All IsInLine l → k ≤ length l → line_len k (l ++ r) ≡ k
unfolding line_len
line_len-clear zero l r a h = refl
line_len-clear (suc k) [] r a h = absurd (omega arith)
line_len-clear (suc k) (c ∷ l) r a h = ground (arith, line_len-clear k l r a.1)

line_len-line :
    (k : ℕ) (l r : List ℕ) → All IsInLine l → line_len k (l ++ (newline ∷ r)) ≡ min k (length l)
unfolding line_len
line_len-line zero l r a = omega arith
line_len-line (suc k) [] r a = omega arith
line_len-line (suc k) (c ∷ l) r a = ground (arith, line_len-line k l r a.1)

eat_line-clear : (k : ℕ) (l r : List ℕ) → All IsInLine l → k ≤ length l → eat_line k (l ++ r) ≡ k
unfolding eat_line
eat_line-clear zero l r a h = refl
eat_line-clear (suc k) [] r a h = absurd (omega arith)
eat_line-clear (suc k) (c ∷ l) r a h = ground (arith, eat_line-clear k l r a.1)

eat_line-line :
    (k : ℕ) (l r : List ℕ)
    → All IsInLine l
    → length l < k
    → eat_line k (l ++ (newline ∷ r)) ≡ length l + 1
unfolding eat_line
eat_line-line zero l r a h = absurd (omega arith)
eat_line-line (suc k) [] r a h = omega arith
eat_line-line (suc k) (c ∷ l) r a h = ground (arith, eat_line-line k l r a.1)

-- The array from the head on: the contents, and what lies behind them.
split_base : (b : Buf) → drop b.head b.base ≡ contents b ++ drop (avail b) (drop b.head b.base)
split_base b = sym (take-append-drop (avail b) (drop b.head b.base))

gets_limit_lem :
    (b : Buf) (size : ℕ) → 0 < size → size < 2 ^ 64 → gets_limit b size ≡ min (size - 1) (avail b)
gets_limit_lem b size p q = ground arith

-- Moving the head on drops bytes from the contents.
pub contents_advance :
    {b : Buf} (k : ℕ)
    → IsValid b
    → k ≤ avail b
    → contents (record b { head = add32 b.head k }) ≡ drop k (contents b)
contents_advance {b} k v h = ground (
  arith,
  drop-take k (avail b) (avail b - k) (drop b.head b.base),
  drop-drop b.head k (b.head + k) b.base,
)

-- `gets` gives the front of the line up to `n` bytes, and the contents lose the line.
gets_at :
    {b : Buf} (size n e : ℕ) (s : List ℕ)
    → IsValid b
    → s ≡ drop b.head b.base
    → n ≡ line_len (gets_limit b size) s
    → e ≡ eat_line (avail b - n) (drop n s)
    → ((gets b size).1 ≡ take n s) × (contents (gets b size).0 ≡ drop (n + e) (contents b))
unfolding gets
gets_at {b} size n e s v es en ee = rw (ee, en, es) (refl, moved)
  where
    t : List ℕ
    t = drop b.head b.base

    m : ℕ
    m = line_len (gets_limit b size) t

    moved :
        contents (record b { head = add32 b.head (m + eat_line (avail b - m) (drop m t)) })
        ≡ drop (m + eat_line (avail b - m) (drop m t)) (contents b)
    moved = contents_advance _ v (gets_taken-le b size t (drop m t))

-- A line that ends in the buffer: the caller gets its first `size - 1` bytes, and line and newline
-- are gone.
gets_line :
    {b : Buf} (size : ℕ) (l r : List ℕ)
    → IsValid b
    → 0 < size
    → size < 2 ^ 64
    → All IsInLine l
    → contents b ≡ l ++ (newline ∷ r)
    → let (b', line) = gets b size in (line ≡ take (size - 1) l) × (contents b' ≡ r)
gets_line {b} size l r v pos fits a e = ground (
  arith,
  gets_at {b = b} size n (length (drop n l) + 1) s v es en ee,
  take-append_le n l (newline ∷ (r ++ z)),
  take-min n (size - 1) l,
  length-drop n l,
  drop-append (length l + 1) (l ++ (newline ∷ [])) r,
  length-append l (newline ∷ []),
  append_assoc l (newline ∷ []) r,
)
  where
    n : ℕ
    n = min (size - 1) (length l)

    z : List ℕ
    z = drop (avail b) (drop b.head b.base)

    s : List ℕ
    s = l ++ (newline ∷ (r ++ z))

    es : s ≡ drop b.head b.base
    es = sym (split_base b ∙ ap (λ t. t ++ z) e ∙ append_assoc l (newline ∷ r) z)

    shorter : length l < avail b
    shorter = omega (arith, length-contents v, ap length e, length-append l (newline ∷ r))

    en : n ≡ line_len (gets_limit b size) s
    en = ground (arith, line_len-line (gets_limit b size) l (r ++ z) a, shorter)

    ee : length (drop n l) + 1 ≡ eat_line (avail b - n) (drop n s)
    ee = ground (
      arith,
      drop-append_le n l (newline ∷ (r ++ z)),
      eat_line-line (avail b - n) (drop n l) (r ++ z) (All-drop IsInLine n l a),
      length-drop n l,
      shorter,
    )

-- No newline in the buffer: the caller gets the first `size - 1` bytes, and the buffer is empty.
pub gets_rest :
    {b : Buf} (size : ℕ)
    → IsValid b
    → 0 < size
    → size < 2 ^ 64
    → All IsInLine (contents b)
    → let (b', line) = gets b size in (line ≡ take (size - 1) (contents b)) × (contents b' ≡ [])
gets_rest {b} size v pos fits a = ground (
  arith,
  gets_at {b = b} size n (avail b - n) s v refl en ee,
  split_base b,
  take-append_le n (contents b) z,
  take-min n (size - 1) (contents b),
  length-contents v,
  drop-all (n + (avail b - n)) (contents b),
)
  where
    n : ℕ
    n = min (size - 1) (avail b)

    z : List ℕ
    z = drop (avail b) (drop b.head b.base)

    s : List ℕ
    s = drop b.head b.base

    len : length (contents b) ≡ avail b
    len = omega (arith, length-contents v)

    en : n ≡ line_len (gets_limit b size) s
    en = rw (split_base b) (
        omega (
          arith,
          line_len-clear (gets_limit b size) (contents b) z a,
          gets_limit_lem b size pos fits,
          len,
        ))

    ee : avail b - n ≡ eat_line (avail b - n) (drop n s)
    ee = ground (
      arith,
      split_base b,
      drop-append_le n (contents b) z,
      eat_line-clear (avail b - n) (drop n (contents b)) z (All-drop IsInLine n (contents b) a),
      length-drop n (contents b),
      len,
    )

-- `ct_buf_push` puts the bytes in front of the contents, if there is room below the head.
pub push_lem :
    {b : Buf} (xs : List ℕ)
    → IsValid b
    → length xs ≤ b.head
    → let (b', r) = push b (Source.bytes xs) in
      (r ≡ some (length xs)) × (contents b' ≡ xs ++ contents b)
unfolding push
push_lem {b} xs v h = ground (
  arith,
  load-store b.base o (length xs + avail b) o 0 xs,
  take-add (length xs) (length xs + avail b) (avail b) (drop o b.base),
  drop-drop o (length xs) b.head b.base,
  length-load b.base o (length xs),
  store-zero-append (load b.base o (length xs)) (contents b) xs,
)
  where
    o : ℕ
    o = b.head - length xs

got_bytes :
    (b b' : Buf) (xs : List ℕ) (n : ℕ)
    → get b n ≡ (b', some xs)
    → (n ≤ avail b) × (b' ≡ record b { head = add32 b.head n }) × (xs ≡ load b.base b.head n)
unfolding get
got_bytes b b' xs n e = ground arith

get-eq-get : (b b' : Buf) (xs : List ℕ) (n : ℕ) → get b n ≡ (b', some xs) → (get b n).0 ≡ b'
get-eq-get b b' xs n e = rw e

-- `ct_buf_push` of the bytes that `ct_buf_get` gave restores the buffer's contents.
pub push-get :
    {b b' : Buf} {xs : List ℕ} (n : ℕ)
    → IsValid b
    → get b n ≡ (b', some xs)
    → contents (push b' (Source.bytes xs)).0 ≡ contents b
push-get {b} {b'} {xs} n v e = ground (
  arith,
  got_bytes b b' xs n e,
  push_lem {b = b'} xs (rw (get-eq-get b b' xs n e) at (get-IsValid n v)),
  contents_advance {b = b} n v,
  take-append-drop n (contents b),
  take-take n (avail b) (drop b.head b.base),
  length-load b.base b.head n,
)

pub get_fits : (b : Buf) (n : ℕ) → n ≤ avail b → (get b n).0 ≡ record b { head = add32 b.head n }
unfolding get
get_fits b n h = ground arith

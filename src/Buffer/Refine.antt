-- ===== src/Buffer/Refine.antt =====
-- A valid `ct_buf_t` behaves as the bounded queue of its contents, wherever its window lies.
use openct.Prelude.{ap₂, ℕ, ◌+◌, ◌-◌, ◌≤◌, ◌<◌, ◌≡◌, refl, ap, ◌∙◌, arith, none, some}
use openct.Prelude.{List, [], ◌∷◌, ◌++◌, length, drop, ltb, Bool-cases, inl, inr}
use openct.Prelude.{◌==◌, drop-take, take-take, drop-drop}
use openct.Prelude.Memory.{load, store, u8, sub32, load-store_end}
use openct.Buffer.{Buf, Source, clear, compact, contents, avail, tailroom, get, put_room, put}
use openct.Buffer.{putc}
use openct.Buffer.Inv.{IsValid, length-contents, compact-IsValid, get-IsValid}
use openct.Buffer.Inv.{put-IsValid, clear-IsValid}
use openct.Buffer.Fifo.{Fifo, Op, Reply, fifo_get, fifo_put, fifo_step, fifo_run}

abbrev pub view : Buf → Fifo
view b = record { items = contents b; overrun = b.overrun }

load_len : (mem : List ℕ) (off n k : ℕ) → n ≡ k → load mem off n ≡ load mem off k
load_len mem off n k e = ap (load mem off) e

-- `ct_buf_compact` moves the window to the front of the array, and leaves the bytes in it.
pub compact_lem :
    {b : Buf}
    → IsValid b
    → ((compact b).head ≡ 0)
      × ((compact b).tail ≡ b.tail - b.head)
      × ((compact b).size ≡ b.size)
      × ((compact b).overrun ≡ b.overrun)
unfolding compact
compact_lem {b} v = ground arith

pub contents-compact : {b : Buf} → IsValid b → contents (compact b) ≡ contents b
unfolding compact
contents-compact {b} v = elim (Bool-cases (b.head == 0)) [ inl e ↦ rw e | inr e ↦ rw e moved ]
  where
    moved : load (store b.base 0 (contents b)) 0 (sub32 (avail b) 0) ≡ contents b
    moved =
        load-store_end b.base 0 0 0 (sub32 (avail b) 0) (contents b) (omega arith)
          (omega (arith, length-contents v)) (omega arith)

put_room_full :
    (b : Buf) (xs : List ℕ)
    → tailroom b < length xs
    → put_room b (Source.bytes xs) ≡ (record b { overrun = 1 }, none)
unfolding put_room
put_room_full b xs h = ground arith

put_room_fits :
    {b : Buf} (xs : List ℕ)
    → IsValid b
    → length xs ≤ b.size - b.tail
    → let (b', r) = put_room b (Source.bytes xs) in
      (contents b' ≡ contents b ++ xs) × (b'.overrun ≡ b.overrun) × (r ≡ some (length xs))
unfolding put_room
put_room_fits {b} xs v h =
    ground
      (arith, load-store_end b.base b.head (avail b) b.tail (sub32 (b.tail + length xs) b.head) xs)

put_room_refines :
    {b : Buf} (xs : List ℕ)
    → IsValid b
    → b.head ≡ 0
    → let (b', r) = put_room b (Source.bytes xs) in (view b', r) ≡ fifo_put b.size (view b) xs
unfolding fifo_put
put_room_refines {b} xs v e =
    ground (arith, put_room_fits xs v, put_room_full b xs, length-contents v)

size-put_room : (b : Buf) (src : Source) → (put_room b src).0.size ≡ b.size
unfolding put_room
size-put_room b src = ground arith

view-compact : {b : Buf} → IsValid b → view (compact b) ≡ view b
view-compact v = ground (arith, contents-compact v, compact_lem v)

-- `ct_buf_put` of given bytes.
pub put_refines :
    {b : Buf} (xs : List ℕ)
    → IsValid b
    → let (b', r) = put b (Source.bytes xs) in (view b', r) ≡ fifo_put b.size (view b) xs
unfolding put
put_refines {b} xs v = elim (Bool-cases (ltb (tailroom b) (length xs))) [
  | inl e ↦ rw e (
      put_room_refines xs (compact-IsValid v) (compact_lem v).0
      ∙ ap₂ (λ k q. fifo_put k q xs) (compact_lem v).2 (view-compact v))
  | inr e ↦ rw e (unfold fifo_put in ground (arith, put_room_fits xs v, length-contents v))
]

pub get_refines :
    {b : Buf} (n : ℕ) → IsValid b → let (b', r) = get b n in (view b', r) ≡ fifo_get (view b) n
unfolding get fifo_get
get_refines {b} n v = ground (
  arith,
  length-contents v,
  drop-take n (avail b) (avail b - n) (drop b.head b.base),
  drop-drop b.head n (b.head + n) b.base,
  take-take n (avail b) (drop b.head b.base),
)

pub size-put : {b : Buf} (src : Source) → IsValid b → (put b src).0.size ≡ b.size
unfolding put
size-put {b} src v =
    ground (arith, compact_lem v, size-put_room b src, size-put_room (compact b) src)

size-get : (b : Buf) (n : ℕ) → (get b n).0.size ≡ b.size
unfolding get
size-get b n = ground arith

-- One call of a client.
unfoldable pub step : Buf → Op → Buf × Reply
step b (Op.get n) = let (b', r) = get b n in (b', Reply.bytes r)
step b (Op.put xs) = let (b', r) = put b (Source.bytes xs) in (b', Reply.count r)
step b (Op.putc c) = let (b', r) = putc b c in (b', Reply.count r)
step b Op.clear = (clear b, Reply.done)
step b Op.compact = (compact b, Reply.done)

unfoldable pub run : Buf → List Op → List Reply
run b [] = []
run b (op ∷ ops) = let (b', r) = step b op in r ∷ run b' ops

pub step-IsValid :
    {b : Buf} (op : Op) → IsValid b → IsValid (step b op).0 × ((step b op).0.size ≡ b.size)
unfolding step
step-IsValid {b} (Op.get n) v = (get-IsValid n v, size-get b n)
step-IsValid (Op.put xs) v = (put-IsValid (Source.bytes xs) v, size-put (Source.bytes xs) v)
step-IsValid (Op.putc c) v =
    unfold putc in (put-IsValid (Source.bytes (u8 c ∷ [])) v, size-put (Source.bytes (u8 c ∷ [])) v)
step-IsValid Op.clear v = (clear-IsValid v, unfold clear in refl)
step-IsValid Op.compact v = (compact-IsValid v, (compact_lem v).2)

step_refines :
    {b : Buf} (op : Op)
    → IsValid b
    → let (b', r) = step b op in (view b', r) ≡ fifo_step b.size (view b) op
unfolding step fifo_step
step_refines (Op.get n) v = ground (arith, get_refines n v)
step_refines (Op.put xs) v = ground (arith, put_refines xs v)
step_refines (Op.putc c) v = unfold putc in ground (arith, put_refines (u8 c ∷ []) v)
step_refines Op.clear v = unfold clear in ground arith
step_refines Op.compact v = ground (arith, view-compact v)

-- No sequence of calls tells a valid buffer, wherever its window lies, from the bounded queue of
-- its contents with the capacity `size`: every `get` and `put` answers as the queue does.
pub run_refines : (ops : List Op) {b : Buf} → IsValid b → run b ops ≡ fifo_run b.size (view b) ops
unfolding run fifo_run
run_refines [] v = refl
run_refines (op ∷ ops) v =
    rw (run_refines ops (step-IsValid op v).0, ← step_refines op v, (step-IsValid op v).1)

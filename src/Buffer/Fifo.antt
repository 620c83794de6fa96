-- ===== src/Buffer/Fifo.antt =====
-- What a client may know of a `ct_buf_t`: a queue of at most `cap` bytes, oldest first, with a flag
-- that records a refused `put`.
use openct.Prelude.{ℕ, ◌-◌, Option, none, some, List, [], ◌∷◌, ◌++◌, ltb, if◌then◌else◌}
use openct.Prelude.{length, take, drop}
use openct.Prelude.Memory.{u8}

pub record Fifo : Type 0 where
  pub items : List ℕ
  pub overrun : ℕ

-- The calls of a client, and what it sees of each.
pub data Op : Type 0 where
  get : ℕ → Op
  put : List ℕ → Op
  putc : ℕ → Op
  clear : Op
  compact : Op

pub data Reply : Type 0 where
  bytes : Option (List ℕ) → Reply
  count : Option ℕ → Reply
  done : Reply

unfoldable pub fifo_get : Fifo → ℕ → Fifo × Option (List ℕ)
fifo_get q n =
    if ltb (length q.items) n
    then (q, none)
    else (record q { items = drop n q.items }, some (take n q.items))

module _ (cap : ℕ) where
  unfoldable pub fifo_put : Fifo → List ℕ → Fifo × Option ℕ
  fifo_put q xs =
      if ltb (cap - length q.items) (length xs)
      then (record q { overrun = 1 }, none)
      else (record q { items = q.items ++ xs }, some (length xs))

  unfoldable pub fifo_step : Fifo → Op → Fifo × Reply
  fifo_step q (get n) = let (q', r) = fifo_get q n in (q', bytes r)
  fifo_step q (put xs) = let (q', r) = fifo_put q xs in (q', count r)
  fifo_step q (putc c) = let (q', r) = fifo_put q (u8 c ∷ []) in (q', count r)
  fifo_step q clear = (record q { items = [] }, done)
  fifo_step q compact = (q, done)

  unfoldable pub fifo_run : Fifo → List Op → List Reply
  fifo_run q [] = []
  fifo_run q (op ∷ ops) = let (q', r) = fifo_step q op in r ∷ fifo_run q' ops

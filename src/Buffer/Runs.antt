-- ===== src/Buffer/Runs.antt =====
-- Runs of the buffer, and its theorems at concrete inputs.
use openct.Prelude.{ℕ, ◌≡◌, refl, none, some, List, [], ◌∷◌, take, arith}
use openct.Prelude.{Option}
use openct.Buffer.{Buf, compact, get, put_room, put}
use openct.Buffer.{line_len, eat_line, gets}
use openct.Buffer.Inv.{IsValid}
use openct.Buffer.Fifo.{Op, Reply, fifo_run}
use openct.Buffer.Refine.{run, step, view, run_refines}

-- Five bytes of an array of six are used up to index 5, the first two of them already taken.
abbrev sample : Buf
sample = record { base = 1 ∷ 2 ∷ 65 ∷ 66 ∷ 10 ∷ 9 ∷ []; head = 2; tail = 5; size = 6; overrun = 0 }

sample-IsValid : IsValid sample
sample-IsValid = omega arith

script : List Op
script = Op.put (7 ∷ 8 ∷ []) ∷ Op.get 2 ∷ Op.put (1 ∷ 2 ∷ 3 ∷ 4 ∷ []) ∷ Op.get 9 ∷ []

-- The second `put` does not fit, also after the buffer is compacted.
script_runs :
    run sample script
    ≡ Reply.count (some 2)
      ∷ Reply.bytes (some (65 ∷ 66 ∷ []))
      ∷ Reply.count none
      ∷ Reply.bytes none
      ∷ []
unfolding script run step put put_room compact get
script_runs = refl

line_read : gets sample 80 ≡ (record sample { head = 5 }, 65 ∷ 66 ∷ [])
unfolding gets line_len eat_line
line_read = refl

run_refines_example : run sample script ≡ fifo_run 6 (view sample) script
run_refines_example = run_refines script sample-IsValid

-- A read that delivers at most two bytes.
abbrev two_bytes : ℕ → Option (List ℕ)
two_bytes n = some (take n (take 2 (3 ∷ 4 ∷ [])))

-- ===== src/T1/Line.antt =====
-- The exchange of one block, `t1_xcv` of src/ifd/proto-t1.c.
pub use openct.Driver.{Device}
use openct.Prelude.{not, ◌==◌, ℕ, ◌+◌, ◌*◌}
use openct.Prelude.{◌||◌, Option, none, some, List}
use openct.Prelude.{ltb, if◌then◌else◌, length, take, get_or}
use openct.Prelude.Memory.{u32, store}
use openct.T1.{T1}

module _ (dev : Device) where
  open dev use {State, send, recv}

  pub record Received : Type 0 where
    pub t1 : T1
    pub device : State
    pub block : List ℕ
    pub count : Option ℕ

  -- The response en bloc.
  unfoldable pub recv_block : T1 → State → List ℕ → ℕ → ℕ → Received
  recv_block t d block rmax timeout =
      let rlen = u32 (3 + t.ifsd + t.rc_bytes + 1) in
      let (d', got) = recv d (if ltb rlen rmax then rlen else rmax) timeout in
      elim got [
        | none ↦ record { t1 = t; device = d'; block = block; count = none }
        | some xs ↦
            let block' = store block 0 xs in
            let m = get_or block' 2 0 + 3 + t.rc_bytes in
            record {
              t1 = t;
              device = d';
              block = block';
              count = some (if ltb m (length xs) then m else length xs);
            }
      ]

  -- What follows the three bytes of the header.
  pub recv_rest : T1 → State → List ℕ → ℕ → Received
  recv_rest t d block rmax =
      let n = get_or block 2 0 + t.rc_bytes in
      let (d', got) = recv d n t.timeout in
      if ltb rmax (n + 3) || ltb 253 (get_or block 2 0)
      then record { t1 = t; device = d; block = block; count = none }
      else elim got [
        | none ↦ record { t1 = t; device = d'; block = block; count = none }
        | some xs ↦ record { t1 = t; device = d'; block = store block 3 xs; count = some (n + 3) }
      ]

  -- The header, and then the rest.
  pub recv_parts : T1 → State → List ℕ → ℕ → ℕ → Received
  recv_parts t d block rmax timeout =
      let (d', got) = recv d 3 timeout in
      elim got [
        | none ↦ record { t1 = t; device = d'; block = block; count = none }
        | some xs ↦ recv_rest t d' (store block 0 xs) rmax
      ]

  unfoldable pub xcv : T1 → State → List ℕ → ℕ → ℕ → Received
  unfolding recv_block recv_rest recv_parts
  xcv t d block slen rmax =
      let (d', failed) = send d (take slen block) in
      let timeout = u32 (t.timeout + 1000 * t.wtx) in
      let t' = record t { wtx = 0 } in
      if failed
      then record { t1 = t; device = d'; block = block; count = none }
      else if not (t.block_oriented == 0)
      then recv_block t' d' block rmax timeout
      else recv_parts t' d' block rmax timeout

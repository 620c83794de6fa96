-- ===== src/Gbp/Line.antt =====
-- The exchange of one block, `gbp_xcv` of src/ifd/proto-gbp.c.
pub use openct.Driver.{Device}
use openct.Prelude.{
  not, ◌==◌, ℕ, ◌+◌, ◌*◌, ◌||◌, Option, none, some, List, ltb, if◌then◌else◌, length, take, get_or,
}
use openct.Prelude.Memory.{u32, store}
use openct.Gbp.{Gbp}

module _ (dev : Device) where
  open dev use {State, send, recv}

  -- `count` is what the function returns; none is a negative one.
  pub record Received : Type 0 where
    pub gbp : Gbp
    pub device : State
    pub block : List ℕ
    pub count : Option ℕ

  -- The response en bloc.
  unfoldable pub recv_block : Gbp → State → List ℕ → ℕ → ℕ → Received
  recv_block g d block rmax timeout =
      let rlen = 3 + 256 + 1 + 1 in
      let (d', got) = recv d (if ltb rlen rmax then rlen else rmax) timeout in
      elim got [
        | none ↦ record { gbp = g; device = d'; block = block; count = none }
        | some xs ↦
            let block' = store block 0 xs in
            let m = get_or block' 2 0 + 3 + 1 in
            record {
              gbp = g;
              device = d';
              block = block';
              count = some (if ltb m (length xs) then m else length xs);
            }
      ]

  -- What follows the three bytes of the header.
  unfoldable pub recv_rest : Gbp → State → List ℕ → ℕ → Received
  recv_rest g d block rmax =
      let n = get_or block 2 0 + 1 in
      let (d', got) = recv d n g.timeout in
      if ltb rmax (n + 3) || ltb 253 (get_or block 2 0)
      then record { gbp = g; device = d; block = block; count = none }
      else elim got [
        | none ↦ record { gbp = g; device = d'; block = block; count = none }
        | some xs ↦ record { gbp = g; device = d'; block = store block 3 xs; count = some (n + 3) }
      ]

  -- The header, and then the rest.
  unfoldable pub recv_parts : Gbp → State → List ℕ → ℕ → ℕ → Received
  unfolding recv_rest
  recv_parts g d block rmax timeout =
      let (d', got) = recv d 3 timeout in
      elim got [
        | none ↦ record { gbp = g; device = d'; block = block; count = none }
        | some xs ↦ recv_rest g d' (store block 0 xs) rmax
      ]

  unfoldable pub xcv : Gbp → State → List ℕ → ℕ → ℕ → Received
  unfolding recv_block recv_parts
  xcv g d block slen rmax =
      let (d', failed) = send d (take slen block) in
      let timeout = u32 (g.timeout + 1000 * g.wtx) in
      let g' = record g { wtx = 0 } in
      if failed
      then record { gbp = g; device = d'; block = block; count = none }
      else if not (g.block_oriented == 0)
      then recv_block g' d' block rmax timeout
      else recv_parts g' d' block rmax timeout

-- ===== src/Gbp/Card.antt =====
-- A reader that answers each block with another, over the line of src/ifd/proto-gbp.c.
use openct.Prelude.{◌≢◌, ℕ, ◌+◌, ◌<◌, ◌≡◌, ◌∙◌, arith, false, some, List, length}
use openct.Prelude.Memory.{store, length-store}
use openct.Gbp.{Gbp, buffer_size}
use openct.Gbp.Line.{Device, recv_block, xcv}
use openct.Gbp.Blocks.{frame, length-frame, sent_lem, front_lem}

-- Its state is the block that was sent last.
abbrev pub answering : (List ℕ → List ℕ) → Device
answering f = record {
  State = List ℕ;
  send = λ s block. (block, false);
  recv = λ s n timeout. (s, some (f s));
}

-- The exchange of a block, en bloc, with one that is answered by a block.
pub xcv_lem :
    (f : List ℕ → List ℕ) (g : Gbp) (d sdata : List ℕ) (pcb pcb' : ℕ) (bytes bytes' : List ℕ)
    → g.block_oriented ≢ 0
    → length sdata ≡ buffer_size
    → length bytes < 256
    → length bytes' < 256
    → f (frame pcb bytes) ≡ frame pcb' bytes'
    → let block = store sdata 0 (frame pcb bytes) in
      xcv (answering f) g d block (length bytes + 4) buffer_size ≡ record {
        gbp = record g { wtx = 0 };
        device = frame pcb bytes;
        block = store block 0 (frame pcb' bytes');
        count = some (length bytes' + 4);
      }
unfolding xcv recv_block
xcv_lem f g d sdata pcb pcb' bytes bytes' oriented size few few' e =
    let block = store sdata 0 (frame pcb bytes) in
    let size' : length block ≡ buffer_size = length-store sdata 0 (frame pcb bytes) ∙ size in
    ground (
      arith,
      oriented,
      sent_lem sdata pcb bytes (omega (arith, size)),
      e,
      (front_lem block pcb' bytes' (omega (arith, size'))).1,
      length-frame pcb' bytes',
    )

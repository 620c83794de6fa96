-- ===== src/Gbp/Stuck.antt =====
-- What `gbp_transceive` of src/ifd/proto-gbp.c does after the numbers were reset.
use openct.Prelude.{ℕ, ◌<◌, List, [], length}
use openct.Prelude.{if◌then◌else◌, get_or, ◌==◌}
use openct.Buffer.{init}
use openct.Gbp.{Gbp, build, i_block}
use openct.Gbp.Blocks.{frame}
use openct.Gbp.Transceive.{Run}
use openct.Gbp.Rounds.{card, answered}

-- A reader that starts over when it is told to, and answers a command with `bytes`, under the number 0
-- as after any start.
abbrev pub restarting : List ℕ → List ℕ → List ℕ
restarting bytes block = if get_or block 1 0 == 0xC0 then frame 0xE0 [] else frame 0 bytes

module _ (bytes : List ℕ) (short : length bytes < 256) where
  abbrev honest : List ℕ → List ℕ
  honest = restarting bytes

  -- After an answer, with the array that it is in.
  abbrev after : Run (card honest) → ℕ → List ℕ → ℕ → List ℕ → Run (card honest)
  after r pcb sent pcb' bytes' = answered honest r (frame pcb sent) pcb' bytes'

  -- The loop's variables where the state is dead, before the block that tells the reader to start over.
  abbrev begun : Gbp → List ℕ → List ℕ → List ℕ → List ℕ → ℕ → Run (card honest)
  begun g d sdata snd rcv rcv_len = record {
    gbp = record g { ns = 0 };
    device = d;
    sdata = (build g sdata i_block snd).0;
    slen = (build g sdata i_block snd).1;
    sbuf = snd;
    rbuf = init rcv rcv_len;
    retries = g.retries;
    resyncs = 3;
    send_seq = g.ns;
  }

-- ===== src/Gbp/Runs.antt =====
-- The Gemplus block protocol with a small reader.
use openct.Prelude.{ℕ, List, [], ◌∷◌, replicate}
use openct.Gbp.{Gbp, alive, dead}
use openct.Gbp.Blocks.{frame}

abbrev sdata : List ℕ
sdata = replicate 261 0

abbrev select : List ℕ
select = 0x00 ∷ 0xa4 ∷ 0x00 ∷ 0x00 ∷ []

abbrev status : List ℕ
status = 0x90 ∷ 0x00 ∷ []

-- The second command of a session, and a session that was given up before its second command.
abbrev second_turn : Gbp
second_turn = record {
  state = alive;
  block_oriented = 1;
  ns = 1;
  timeout = 20000;
  wtx = 0;
  retries = 3;
}

abbrev given_up : Gbp
given_up = record second_turn { state = dead }

-- It answers every block with the status, under the number 1.
abbrev second_answer : List ℕ → List ℕ
second_answer block = frame 0x40 status

-- ===== src/Client/Runs.antt =====
-- Commands of a client, run against a small reader.
use openct.Locks.{Table}
use openct.Prelude.{
  true, ℕ, ◌≡◌, refl, arith, false, some, none, List, [], ◌∷◌, replicate, ◌==◌, if◌then◌else◌,
}
use openct.Prelude.Outcome.{Error, ok, err}
use openct.Tlv.{Parser, no_items}
use openct.Process.{Reader}
use openct.Process.Example.{counting, alice, held}
use openct.Process.Tags.{tag_atr}
use openct.Client.{card_transact, card_reset}
use openct.Client.Server.{Server, direct}
use openct.Client.Transact.{transact_delivered, long_command_refused}
use openct.Client.Unset.{reset_reads_junk}

abbrev table : Table
table = record { locks = held ∷ []; lock_handle = 1 }

abbrev no_locks : Table
no_locks = record { locks = []; lock_handle = 0 }

abbrev server_start : Server counting
server_start = record { locks = table; reader = 0; large = false }

abbrev server_mem : List ℕ
server_mem = replicate 4160 0

abbrev client_mem : List ℕ
client_mem = replicate 4096 0

-- SELECT FILE, without a body.
abbrev select : List ℕ
select = 0x00 ∷ 0xa4 ∷ 0x00 ∷ 0x00 ∷ []

transact_delivered_example :
    card_transact
      (direct counting false server_mem alice)
      client_mem
      no_items
      server_start
      0
      select
      258
    ≡ some (record { locks = table; reader = 10101; large = true }, ok (0x90 ∷ 0x00 ∷ []))
transact_delivered_example =
    transact_delivered counting false server_mem client_mem alice server_start 100 101 no_items 0
      258 select (0x90 ∷ 0x00 ∷ []) (omega arith) (omega arith) (omega arith) (omega arith)
      (omega arith) refl (omega arith) refl (omega arith) (omega arith) (omega arith)

-- A reader with a memory card, which gives no answer to reset.
abbrev mute : Reader
mute = record counting { card_request = λ s slot timeout message size. (s, ok []) }

abbrev mute_start : Server mute
mute_start = record { locks = no_locks; reader = 0; large = false }

-- What a stack may hold: an answer to reset of three bytes at the front of the array.
abbrev stray : Parser
stray = record {
  use_large_tags = false;
  val = λ tag. if tag == tag_atr then some 0 else none;
  len = λ tag. 3;
}

reset_reads_junk_example :
    card_reset (direct mute false server_mem alice) (7 ∷ 8 ∷ replicate 254 9) stray mute_start 0 33
    ≡ some (record { locks = no_locks; reader = 10100; large = false }, ok (0x10 ∷ 0 ∷ 9 ∷ []))
reset_reads_junk_example =
    reset_reads_junk mute false server_mem (7 ∷ 8 ∷ replicate 254 9) alice mute_start 100 100 stray
      0 33 0 3 (omega arith) (omega arith) (omega arith) refl (omega arith) refl refl refl
      (omega arith) (omega arith)

long_command_refused_example :
    card_transact
      (direct counting false server_mem alice)
      client_mem
      no_items
      server_start
      0
      (replicate 4080 0)
      258
    ≡ some (server_start, err Error.buffer_too_small)
long_command_refused_example =
    long_command_refused counting false server_mem client_mem alice server_start no_items 0 258
      (replicate 4080 0) (omega arith) (omega arith) (omega arith) (omega arith)

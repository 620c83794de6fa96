-- ===== src/Process/Example.antt =====
-- A reader and two clients, on which the commands are run.
use openct.Prelude.{ℕ, ◌+◌, true, [], ◌∷◌}
use openct.Prelude.Outcome.{ok}
use openct.Locks.{Socket, Lock}
use openct.Process.{Reader}

-- A reader with one slot. It counts the commands that go to the card, by hundreds how often it was
-- made ready, and by ten thousands how often a command was over.
abbrev pub counting : Reader
counting = record {
  State = ℕ;
  name = λ s. 0x52 ∷ [];
  nslots = λ s. 1;
  flags = λ s. 0;
  before_command = λ s. (s + 100, ok tt);
  after_command = λ s. s + 10000;
  activate = λ s. (s, ok tt);
  card_status = λ s slot. (s, ok 1);
  output = λ s message. (s, ok tt);
  card_request = λ s slot timeout message size. (s, ok (0x3b ∷ 0 ∷ []));
  card_eject = λ s slot timeout message. (s, ok tt);
  perform_verify = λ s slot timeout message pin size. (s + 1, ok (0x90 ∷ 0 ∷ []));
  card_command = λ s slot apdu size. (s + 1, ok (0x90 ∷ 0 ∷ []));
  set_protocol = λ s slot protocol. (s, ok tt);
  write_memory = λ s slot address bytes. (s, ok tt);
  read_memory = λ s slot address size. (s, ok []);
}

abbrev pub alice : Socket
alice = record { id = 100; client_uid = 1 }

abbrev pub bob : Socket
bob = record { id = 200; client_uid = 2 }

abbrev pub held : Lock
held = record { slot = 0; uid = 1; handle = 0; owner = 100; exclusive = true }

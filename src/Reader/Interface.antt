-- ===== src/Reader/Interface.antt =====
-- The reader of src/ifd/reader.c as the commands of clients see it.
use openct.Prelude.{ℕ, ◌-◌, ◌^◌, Option, none, some, ◌==◌, if◌then◌else◌}
use openct.Process
use openct.Reader.{Ifd, Ops, Calls}
use openct.Reader.Commands.{activate, card_status, output, card_eject, perform_verify, card_command}
use openct.Reader.Commands.{set_protocol, write_memory, read_memory, before_command, after_command}
use openct.Reader.Request.{card_request}

-- The `unsigned int` of a client as an `int`, of which only -1 has a meaning that is negative.
abbrev pub as_protocol : ℕ → Option ℕ
as_protocol p = if p == 2 ^ 32 - 1 then none else some p

module _ {D P : Type 0} (ops : Ops D P) (calls : Calls D P) where
  -- The size of the caller's array is not looked at when a card is reset.
  abbrev pub ifd_reader : Process.Reader
  ifd_reader = record {
    State = Ifd D P;
    name = λ r. r.name;
    nslots = λ r. r.nslots;
    flags = λ r. r.flags;
    before_command = before_command ops calls;
    after_command = after_command ops calls;
    activate = activate ops calls;
    card_status = card_status ops calls;
    output = output ops calls;
    card_request = λ r idx timeout message size. card_request ops calls r idx timeout message;
    card_eject = card_eject ops calls;
    perform_verify = perform_verify ops calls;
    card_command = card_command ops calls;
    set_protocol = λ r idx p. set_protocol ops calls r idx (as_protocol p);
    write_memory = write_memory ops calls;
    read_memory = read_memory ops calls;
  }

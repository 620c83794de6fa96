-- ===== src/Process/Runs.antt =====
-- Runs of the commands on a reader that counts, and the theorems at concrete inputs.
use openct.Prelude.{ℕ, ◌≡◌, ◌≢◌, refl, arith, true, false, some, List, [], ◌∷◌, inl}
use openct.Prelude.Outcome.{Error, ok, err}
use openct.Buffer.{Buf}
use openct.Buffer
use openct.Tlv
use openct.Locks.{Socket, Lock, Table, check_lock, check_locks}
use openct.Locks
use openct.Locks.Exclusion.{AllCompatible, Reach, no_locks}
use openct.Process.Example.{counting, alice, bob, held}
use openct.Process.Handlers
use openct.Process.Dispatch
use openct.Process.Dispatch.{Command, Processed, command_of, process}
use openct.Process.Locking.{process-Reach, transact_old_refused}
use openct.Process.Unguarded.{unknown_not_released}

abbrev table : Table
table = record { locks = held ∷ []; lock_handle = 1 }

abbrev message : List ℕ → ℕ → ℕ → Buf
message bytes from len = record { base = bytes; head = from; tail = len; size = len; overrun = 0 }

-- Room for eight bytes.
abbrev room : Buf
room = record {
  base = 0 ∷ 0 ∷ 0 ∷ 0 ∷ 0 ∷ 0 ∷ 0 ∷ 0 ∷ [];
  head = 0;
  tail = 0;
  size = 8;
  overrun = 0;
}

-- A request for the exclusive lock.
abbrev lock_bytes : List ℕ
lock_bytes = 0x01 ∷ 0 ∷ 0x82 ∷ 1 ∷ 1 ∷ []

abbrev locked : Processed counting
locked = record {
  locks = table;
  reader = 10100;
  large = false;
  resbuf = record room { base = 0x04 ∷ 1 ∷ 0 ∷ 0 ∷ 0 ∷ 0 ∷ 0 ∷ 0 ∷ []; tail = 3 };
  rc = ok tt;
}

locked_lem :
    process counting true no_locks alice false 0 (message lock_bytes 0 5) room ≡ some locked
unfolding process command_of Dispatch.dispatch Dispatch.with_tlv Dispatch.conclude Handlers.do_lock
    Buffer.get Tlv.parse Tlv.parse_loop Tlv.header Tlv.store_item Tlv.get_int Tlv.get_opaque
    Tlv.int_value Tlv.put_int Tlv.top_byte Tlv.add_int Tlv.put_tag Tlv.put_length Tlv.add_byte
    Tlv.add_bytes Tlv.patch_length Tlv.builder_init Buffer.putc Locks.lock Locks.check_lock
    Locks.check_locks Buffer.put Buffer.put_room
locked_lem = refl

process-Reach_example : Reach table × AllCompatible table.locks
process-Reach_example =
    process-Reach counting true no_locks alice false 0 (message lock_bytes 0 5) room locked
      Reach.start locked_lem

-- The other client sends a command for the card, in the old form.
abbrev old_bytes : List ℕ
old_bytes = 0x20 ∷ 0 ∷ 0 ∷ 0xa4 ∷ 0 ∷ 0 ∷ []

old_got : Buffer.get (message old_bytes 0 6) 1 ≡ (message old_bytes 1 6, some (0x20 ∷ []))
unfolding Buffer.get
old_got = refl

old_got_unit : Buffer.get (message old_bytes 1 6) 1 ≡ (message old_bytes 2 6, some (0 ∷ []))
unfolding Buffer.get
old_got_unit = refl

transact_old_refused_example :
    process counting true table bob false 0 (message old_bytes 0 6) room
    ≡ some
        (record { locks = table; reader = 0; large = false; resbuf = room; rc = err Error.locked })
transact_old_refused_example =
    transact_old_refused counting true table bob false 0 (message old_bytes 0 6)
      (message old_bytes 1 6) (message old_bytes 2 6) room 0 100 old_got old_got_unit (omega arith)
      (inl (refl, refl, refl))

-- The same command in the current form.
abbrev new_bytes : List ℕ
new_bytes = 0x21 ∷ 0 ∷ 0x84 ∷ 4 ∷ 0 ∷ 0xa4 ∷ 0 ∷ 0 ∷ []

-- It reaches the card although the slot is locked.
abbrev transacted : Processed counting
transacted = record {
  locks = table;
  reader = 10101;
  large = false;
  resbuf = record room { base = 0x05 ∷ 2 ∷ 0x90 ∷ 0 ∷ 0 ∷ 0 ∷ 0 ∷ 0 ∷ []; tail = 4 };
  rc = ok tt;
}

transacted_lem :
    process counting true table bob false 0 (message new_bytes 0 8) room ≡ some transacted
unfolding process command_of Dispatch.dispatch Dispatch.with_tlv Dispatch.conclude
    Handlers.do_transact Buffer.get Tlv.parse Tlv.parse_loop Tlv.header Tlv.store_item Tlv.get_int
    Tlv.get_opaque Tlv.put_tag Tlv.put_length Tlv.add_byte Tlv.add_bytes Tlv.patch_length
    Tlv.builder_init Buffer.putc Buffer.put Buffer.put_room
transacted_lem = refl

-- CHANGE_PIN, which has no handler.
abbrev change_bytes : List ℕ
change_bytes = 0x15 ∷ 0 ∷ []

abbrev unknown_command : Processed counting
unknown_command = record {
  locks = no_locks;
  reader = 100;
  large = false;
  resbuf = room;
  rc = err Error.invalid_cmd;
}

unknown_lem :
    process counting true no_locks bob false 0 (message change_bytes 0 2) room
    ≡ some unknown_command
unfolding process command_of Dispatch.dispatch Dispatch.with_tlv Dispatch.conclude Buffer.get
    Tlv.parse Tlv.parse_loop Tlv.builder_init
unknown_lem = refl

change_got : Buffer.get (message change_bytes 0 2) 1 ≡ (message change_bytes 1 2, some (0x15 ∷ []))
unfolding Buffer.get
change_got = refl

change_got_unit :
    Buffer.get (message change_bytes 1 2) 1 ≡ (message change_bytes 2 2, some (0 ∷ []))
unfolding Buffer.get
change_got_unit = refl

change_unknown : command_of 0x15 ≡ Command.unknown 0x15
unfolding command_of
change_unknown = refl

unknown_not_released_example :
    (unknown_command.reader ≡ (counting.before_command 0).0)
    × (unknown_command.locks ≡ no_locks)
    × (unknown_command.resbuf ≡ room)
    × (unknown_command.rc ≢ ok tt)
unknown_not_released_example =
    unknown_not_released counting true no_locks bob false 0 (message change_bytes 0 2)
      (message change_bytes 1 2) (message change_bytes 2 2) room 0x15 0x15 0 change_got
      change_got_unit change_unknown unknown_command unknown_lem

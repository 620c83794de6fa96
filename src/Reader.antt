-- ===== src/Reader.antt =====
-- The readers of src/ifd/reader.c: a driver's operations, the slots, and the card in each.
--
-- A function pointer that may be NULL is an option. `P` is the objects of protocols and `D` the driver's
-- own state; `slots` is the array of the slots, and `seqs` and `card_seq` are `ct_card` of the status
-- file and the counter of `ifd_slot_status_update`. `now` is what time(2) says.
pub mod Commands
pub mod Request
pub mod Interface
pub mod Poll
pub mod Selected
pub mod Seen
mod Runs
use openct.Prelude.{ℕ, Bool, Option, List, ◌==◌, if◌then◌else◌}
use openct.Prelude.Outcome.{Outcome}

pub record Slot (P : Type 0) : Type 0 where
  pub status : ℕ
  pub next_update : ℕ
  pub dad : ℕ
  pub atr_len : ℕ
  pub atr : List ℕ
  pub proto : Option P

pub record Ifd (D P : Type 0) : Type 0 where
  pub name : List ℕ
  pub flags : ℕ
  pub nslots : ℕ
  pub slots : ℕ → Slot P
  pub device : Option ℕ
  pub seqs : ℕ → ℕ
  pub card_seq : ℕ
  pub own : D

-- `struct ifd_driver_ops`. Where C has a buffer to fill, the bytes come back; a protocol of none is
-- `IFD_PROTOCOL_DEFAULT`.
pub record Ops (D P : Type 0) : Type 0 where
  pub default_protocol : ℕ
  pub activate : Option (Ifd D P → Ifd D P × Outcome (Unit {0}))
  pub deactivate : Option (Ifd D P → Ifd D P × Outcome (Unit {0}))
  pub output : Option (Ifd D P → Option (List ℕ) → Ifd D P × Outcome (Unit {0}))
  pub card_status : Option (Ifd D P → ℕ → Ifd D P × Outcome ℕ)
  pub card_reset : Option (Ifd D P → ℕ → Ifd D P × Outcome (List ℕ))
  pub card_request : Option (Ifd D P → ℕ → ℕ → Option (List ℕ) → Ifd D P × Outcome (List ℕ))
  pub change_parity : Option (Ifd D P → ℕ → Ifd D P × Outcome (Unit {0}))
  pub card_eject : Option (Ifd D P → ℕ → ℕ → Option (List ℕ) → Ifd D P × Outcome (Unit {0}))
  pub perform_verify :
      Option (Ifd D P → ℕ → ℕ → Option (List ℕ) → List ℕ → ℕ → Ifd D P × Outcome (List ℕ))
  pub set_protocol : Option (Ifd D P → ℕ → Option ℕ → Ifd D P × Outcome (Unit {0}))
  pub before_command : Option (Ifd D P → Ifd D P × Outcome (Unit {0}))
  pub after_command : Option (Ifd D P → Ifd D P)
  pub event : Option (Ifd D P → Ifd D P × (ℕ → ℕ) × Outcome (Unit {0}))

-- What reader.c calls of src/ifd/protocol.c and src/ifd/device.c. The calls of a protocol are given the
-- slot that it is in; `create` is `ifd_protocol_new`, and `recv` is `ifd_device_recv` for one byte.
pub record Calls (D P : Type 0) : Type 0 where
  pub id : P → ℕ
  pub create : ℕ → ℕ → Option P
  pub transceive : Ifd D P → ℕ → ℕ → List ℕ → ℕ → Ifd D P × Outcome (List ℕ)
  pub read_memory : Ifd D P → ℕ → ℕ → ℕ → Ifd D P × Outcome (List ℕ)
  pub write_memory : Ifd D P → ℕ → ℕ → List ℕ → Ifd D P × Outcome (Unit {0})
  pub recv : Ifd D P → Ifd D P × Option ℕ
  pub now : Ifd D P → ℕ

-- A slot of the array is changed.
abbrev pub set_slot : {D P : Type 0} → Ifd D P → ℕ → Slot P → Ifd D P
set_slot r idx s = record r { slots = λ k. if k == idx then s else r.slots k }

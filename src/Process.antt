-- ===== src/Process.antt =====
-- The commands of clients, `ifdhandler_process` of src/ifd/process.c: one handler for each command.
--
-- What the handlers call of src/ifd/reader.c is the record `Reader`; a result there is an error or what
-- the function delivers. `mem` is the array of the message, into which the parser points. A handler's
-- `none` is the undefined behaviour of `ct_tlv_put_int`.
pub mod Tags
pub mod Handlers
pub mod Dispatch
pub mod Locking
pub mod Unguarded
pub mod Example
mod Runs
use openct.Prelude.{ℕ, Option, List, Bool}
use openct.Prelude.Outcome.{Outcome}
use openct.Tlv.{Builder}
use openct.Locks.{Table}

-- `message` is the bytes of the string with its NUL; none is NULL.
pub record Reader : Type 1 where
  pub State : Type 0
  pub name : State → List ℕ
  pub nslots : State → ℕ
  pub flags : State → ℕ
  pub before_command : State → State × Outcome (Unit {0})
  pub after_command : State → State
  pub activate : State → State × Outcome (Unit {0})
  pub card_status : State → ℕ → State × Outcome ℕ
  pub output : State → Option (List ℕ) → State × Outcome (Unit {0})
  pub card_request : State → ℕ → ℕ → Option (List ℕ) → ℕ → State × Outcome (List ℕ)
  pub card_eject : State → ℕ → ℕ → Option (List ℕ) → State × Outcome (Unit {0})
  pub perform_verify : State → ℕ → ℕ → Option (List ℕ) → List ℕ → ℕ → State × Outcome (List ℕ)
  pub card_command : State → ℕ → List ℕ → ℕ → State × Outcome (List ℕ)
  pub set_protocol : State → ℕ → ℕ → State × Outcome (Unit {0})
  pub write_memory : State → ℕ → ℕ → List ℕ → State × Outcome (Unit {0})
  pub read_memory : State → ℕ → ℕ → ℕ → State × Outcome (List ℕ)

-- What a handler leaves: the reader, the response as far as it is built, and its result.
pub record Handled (rd : Reader) : Type 0 where
  pub reader : rd.State
  pub resp : Builder
  pub rc : Outcome (Unit {0})

-- ===== src/Driver.antt =====
-- What the protocols use of a reader's driver, which sends and receives through function pointers
-- (src/ifd/reader.c, `ifd_send_command` and `ifd_recv_response`).
use openct.Prelude.{ℕ, Bool, Option, List}

-- `ifd_send_command` and `ifd_recv_response` on a device: the bytes to send, and whether it failed;
-- the number of bytes asked for and the timeout, and the bytes received or none for a failure.
pub record Device : Type 1 where
  pub State : Type 0
  pub send : State → List ℕ → State × Bool
  pub recv : State → ℕ → ℕ → State × Option (List ℕ)

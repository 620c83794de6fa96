-- ===== src/Client/Server.antt =====
-- A client that is connected to a handler: what `ifdhandler_recv` of src/ifd/ifdhandler.c does with a
-- command that has arrived, and a socket between the two that loses nothing.
use openct.Prelude.{ℕ, ◌+◌, ◌-◌, Option, none, some, Bool, List, ltb, if◌then◌else◌}
use openct.Prelude.Outcome.{Error, Outcome, ok, err}
use openct.Buffer.{Buf, Source, init, set, clear, contents, avail, tailroom, put}
use openct.Locks.{Table, Socket, unlock_all}
use openct.Process.{Reader}
use openct.Process.Dispatch.{process}
use openct.Client.{Transport}

-- `CT_SOCKET_BUFSIZ`, less the 12 bytes of `header_t`: what fits the buffer of a socket that has nothing to
-- send.
abbrev pub socket_room : ℕ
socket_room = 4096 - 12

module _ (rd : Reader) where
  -- What the handler keeps, the flag of the client's socket among it.
  pub record Server : Type 0 where
    pub locks : Table
    pub reader : rd.State
    pub large : Bool

  -- The command in `args` is processed, and the response is what then stands in `resp`. `mem` is what
  -- the array `buffer` holds, and `memory` is whether `calloc` succeeds.
  unfoldable pub serve :
      Bool → List ℕ → Socket → Server → Buf → Option (Server × Buf × Outcome (Unit {0}))
  serve memory mem sock s args =
      elim (process rd memory s.locks sock s.large s.reader args (init mem (4096 + 64))) [
        | none ↦ none
        | some p ↦
            let s' : Server = record { locks = p.locks; reader = p.reader; large = p.large } in
            elim p.rc [
              | err e ↦ some (s', clear p.resbuf, err e)
              | ok _ ↦ some (s', p.resbuf, ok tt)
            ]
      ]

  -- The packet's bytes at the other end, and what `ct_socket_call` makes of the response. A command that
  -- does not fit the buffer is refused; where the response does not, the handler closes the socket, which
  -- gives the client's locks back, and the client reads the end of the stream.
  unfoldable pub deliver :
      Bool → List ℕ → Socket → Server → Buf → Buf → Option (Server × Buf × Outcome ℕ)
  unfolding serve
  deliver memory mem sock s args resp =
      if ltb socket_room (avail args)
      then some (s, resp, err Error.buffer_too_small)
      else elim (serve memory mem sock s (set (contents args) (avail args))) [
        | none ↦ none
        | some (s', answer, rc) ↦
            if ltb socket_room (avail answer)
            then some
                (record s' { locks = unlock_all s'.locks sock }, clear resp, err Error.generic)
            else elim rc [
              | err e ↦ some (s', clear resp, err e)
              | ok _ ↦
                  if ltb (tailroom (clear resp)) (avail answer)
                  then some (s', clear resp, err Error.buffer_too_small)
                  else some
                      (s', (put (clear resp) (Source.bytes (contents answer))).0, ok (avail answer))
            ]
      ]

  abbrev pub direct : Bool → List ℕ → Socket → Transport
  direct memory mem sock = record { World = Server; call = deliver memory mem sock }

-- ===== src/Process/Dispatch.antt =====
-- `ifdhandler_process` of src/ifd/process.c: from the bytes of a message to the response.
--
-- The socket's `use_large_tags` is the argument `large`, and `memory` is whether `calloc` succeeds. The
-- message is used up, whatever its result.
use openct.Prelude.{ℕ, ◌||◌, Bool, true, false, Option, none, some, List, ◌==◌}
use openct.Prelude.{if◌then◌else◌, get_or, length}
use openct.Prelude.Memory.{store}
use openct.Prelude.Outcome.{Error, Outcome, ok, err}
use openct.Buffer.{Buf, Source, contents, tailroom}
use openct.Buffer
use openct.Tlv.{Parser, Parsed, Builder, builder_init, parse, no_items}
use openct.Locks.{Table, Socket, check_lock, lock_exclusive}
use openct.Process.{Reader, Handled}
use openct.Process.Handlers.{
  do_status, do_output, do_lock, do_unlock, do_reset, do_eject, do_verify,
}
use openct.Process.Handlers.{do_transact, do_set_protocol, do_memory_write, do_memory_read}

-- The commands of src/include/openct/protocol.h that are handled.
pub data Command : Type 0 where
  status lock unlock reset eject output perform_verify : Command
  memory_read memory_write transact_old transact set_protocol : Command
  unknown : ℕ → Command

unfoldable pub command_of : ℕ → Command
command_of c =
    if c == 0x00
    then status
    else if c == 0x01
    then lock
    else if c == 0x02
    then unlock
    else if c == 0x10 || c == 0x11
    then reset
    else if c == 0x12
    then eject
    else if c == 0x13
    then output
    else if c == 0x14
    then perform_verify
    else if c == 0x16
    then memory_read
    else if c == 0x17
    then memory_write
    else if c == 0x20
    then transact_old
    else if c == 0x21
    then transact
    else if c == 0x22
    then set_protocol
    else unknown c

module _ (rd : Reader) where
  -- What the call leaves: the locks, the reader, `use_large_tags`, the response and the result.
  pub record Processed : Type 0 where
    pub locks : Table
    pub reader : rd.State
    pub large : Bool
    pub resbuf : Buf
    pub rc : Outcome (Unit {0})

  -- The answer of the card goes straight into the response buffer.
  unfoldable pub do_transact_old : rd.State → ℕ → Buf → Buf → rd.State × Buf × Outcome (Unit {0})
  do_transact_old s unit argbuf resbuf =
      let (s', came) = rd.card_command s unit (contents argbuf) (tailroom resbuf) in
      elim came [
        | err e ↦ (s', resbuf, err e)
        | ok bs ↦
            let b = record resbuf { base = store resbuf.base resbuf.tail bs } in
            (s', (Buffer.put b (Source.null (length bs))).0, ok tt)
      ]

  -- The switch; a command that is not known has no handler.
  unfoldable pub dispatch :
      Bool
      → Table
      → Socket
      → rd.State
      → Command
      → ℕ
      → Parser
      → List ℕ
      → Builder
      → Table × Option (Handled rd)
  dispatch memory t sock s status unit args mem r = (t, do_status rd s unit r)
  dispatch memory t sock s lock unit args mem r = do_lock rd memory t sock s unit args mem r
  dispatch memory t sock s unlock unit args mem r =
      let (t', h) = do_unlock rd t sock s unit args mem r in (t', some h)
  dispatch memory t sock s reset unit args mem r = (t, some (do_reset rd s unit args mem r))
  dispatch memory t sock s eject unit args mem r = (t, some (do_eject rd s unit args mem r))
  dispatch memory t sock s output unit args mem r = (t, some (do_output rd s unit args mem r))
  dispatch memory t sock s perform_verify unit args mem r =
      (t, some (do_verify rd s unit args mem r))
  dispatch memory t sock s memory_read unit args mem r =
      (t, some (do_memory_read rd s unit args mem r))
  dispatch memory t sock s memory_write unit args mem r =
      (t, some (do_memory_write rd s unit args mem r))
  dispatch memory t sock s transact unit args mem r = (t, some (do_transact rd s unit args mem r))
  dispatch memory t sock s set_protocol unit args mem r =
      (t, some (do_set_protocol rd s unit args mem r))
  dispatch memory t sock s transact_old unit args mem r =
      (t, some (record { reader = s; resp = r; rc = err Error.invalid_cmd }))
  dispatch memory t sock s (unknown c) unit args mem r =
      (t, some (record { reader = s; resp = r; rc = err Error.invalid_cmd }))

  abbrev pub is_known : Command → Bool
  is_known (unknown c) = false
  is_known _ = true

  -- `if (rc >= 0) rc = resp.error;`
  abbrev pub final_rc : Handled rd → Outcome (Unit {0})
  final_rc h = elim h.rc [
    | err e ↦ err e
    | ok _ ↦ if h.resp.error then err Error.generic else ok tt
  ]

  -- What follows the switch; an unknown command returns before that.
  unfoldable pub conclude : Command → Table → Bool → Handled rd → Processed
  conclude cmd t large h =
      if is_known cmd
      then record {
        locks = t;
        reader = rd.after_command h.reader;
        large = large;
        resbuf = h.resp.buf;
        rc = final_rc h;
      }
      else record { locks = t; reader = h.reader; large = large; resbuf = h.resp.buf; rc = h.rc }

  -- A command with TLV coded arguments. `none` where `ct_tlv_put_int` is undefined.
  unfoldable pub with_tlv :
      Bool → Table → Socket → Bool → rd.State → Command → ℕ → Buf → Buf → Option Processed
  unfolding conclude
  with_tlv memory t sock large s cmd unit argbuf resbuf =
      let (s1, ready) = rd.before_command s in
      let invalid : Processed = record {
        locks = t;
        reader = s1;
        large = large;
        resbuf = resbuf;
        rc = err Error.invalid_msg;
      } in
      elim ready [
        | err e ↦
            some (record { locks = t; reader = s1; large = large; resbuf = resbuf; rc = err e })
        | ok _ ↦ elim (parse no_items argbuf) [
          | Parsed.done args left ↦
              let large' = args.use_large_tags || large in
              let (t', h) =
                dispatch memory t sock s1 cmd unit args argbuf.base (builder_init resbuf large') in
              elim h [ none ↦ none | some h' ↦ some (conclude cmd t' large' h') ]
          | Parsed.malformed ↦ some invalid
          | Parsed.stuck ↦ some invalid
        ]
      ]

  -- CT_CMD_TRANSACT_OLD, whose arguments are the command for the card.
  unfoldable pub old_command : Table → Socket → Bool → rd.State → ℕ → Buf → Buf → Processed
  unfolding do_transact_old
  old_command t sock large s unit argbuf resbuf =
      let (s', b, rc) = do_transact_old s unit argbuf resbuf in
      elim (check_lock t sock unit lock_exclusive) [
        | err e ↦ record { locks = t; reader = s; large = large; resbuf = resbuf; rc = err e }
        | ok _ ↦ record { locks = t; reader = s'; large = large; resbuf = b; rc = rc }
      ]

  abbrev pub is_old : Command → Bool
  is_old transact_old = true
  is_old _ = false

  -- The two bytes before the arguments: the command and the unit.
  unfoldable pub process : Bool → Table → Socket → Bool → rd.State → Buf → Buf → Option Processed
  unfolding with_tlv old_command
  process memory t sock large s argbuf resbuf =
      let (b1, got) = Buffer.get argbuf 1 in
      let (b2, got2) = Buffer.get b1 1 in
      let short : Processed = record {
        locks = t;
        reader = s;
        large = large;
        resbuf = resbuf;
        rc = err Error.invalid_msg;
      } in
      elim got [
        | none ↦ some short
        | some c ↦ elim got2 [
          | none ↦ some short
          | some u ↦
              let cmd = command_of (get_or c 0 0) in
              let unit = get_or u 0 0 in
              if is_old cmd
              then some (old_command t sock large s unit b2 resbuf)
              else with_tlv memory t sock large s cmd unit b2 resbuf
        ]
      ]

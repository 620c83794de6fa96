-- ===== src/Process/Locking.antt =====
-- What the commands of src/ifd/process.c do to the locks, and what the locks do to the commands.
use openct.Prelude.{ℕ, ◌||◌, ◌≡◌, ◌≢◌, ◌⊎◌, sym, Bool, true, false, Option, none, some, List}
use openct.Prelude.{arith, if◌then◌else◌, get_or, Option-cases, inl, inr, Bool-cases, ltb}
use openct.Prelude.{◌∷◌, []}
use mathlib.Core.Path.{subst}
use openct.Prelude.Outcome.{Error, Outcome, ok, err}
use openct.Buffer.{Buf}
use openct.Buffer
use openct.Tlv.{Parser, Parsed, Builder, builder_init, parse, no_items, get_int}
use openct.Locks.{Table, Socket, check_lock, lock_exclusive}
use openct.Locks
use openct.Locks.Exclusion.{AllCompatible, Step, Reach, Reach-AllCompatible}
use openct.Locks.Release.{HoldsExclusive, exclusive_blocks}
use openct.Process.{Reader, Handled}
use openct.Process.Handlers.{do_lock, do_unlock}
use openct.Process.Tags.{tag_locktype, tag_lock}
use openct.Process.Dispatch.{
  Command, command_of, Processed, dispatch, conclude, with_tlv, old_command,
}
use openct.Process.Dispatch.{process, is_old, is_known}

module _ (rd : Reader) where
  -- A table that the clients' calls have reached goes to such a table.
  do_lock_cases :
      (memory : Bool) (t : Table) (sock : Socket) (s : rd.State) (unit : ℕ) (args : Parser)
      (mem : List ℕ) (r : Builder)
      → let t' = (do_lock rd memory t sock s unit args mem r).0 in
        (t' ≡ t) ⊎ ((type : ℕ) × (t' ≡ (Locks.lock memory t sock unit type).0))
  unfolding do_lock
  do_lock_cases memory t sock s unit args mem r = elim (Bool-cases (ltb (rd.nslots s) unit)) [
    | inl far ↦ inl (ground (arith, far))
    | inr near ↦ elim (Option-cases (get_int args mem tag_locktype)) [
      | inl n ↦ inl (ground (arith, near, n))
      | inr (type, e) ↦ inr (type, ground (arith, near, e))
    ]
  ]

  do_unlock_cases :
      (t : Table) (sock : Socket) (s : rd.State) (unit : ℕ) (args : Parser) (mem : List ℕ)
      (r : Builder)
      → let t' = (do_unlock rd t sock s unit args mem r).0 in
        (t' ≡ t) ⊎ ((handle : ℕ) × (t' ≡ (Locks.unlock t sock unit handle).0))
  unfolding do_unlock
  do_unlock_cases t sock s unit args mem r = elim (Bool-cases (ltb (rd.nslots s) unit)) [
    | inl far ↦ inl (ground (arith, far))
    | inr near ↦ elim (Option-cases (get_int args mem tag_lock)) [
      | inl n ↦ inl (ground (arith, near, n))
      | inr (handle, e) ↦ inr (handle, ground (arith, near, e))
    ]
  ]

  dispatch-Reach :
      (memory : Bool) (t : Table) (sock : Socket) (s : rd.State) (cmd : Command) (unit : ℕ)
      (args : Parser) (mem : List ℕ) (r : Builder)
      → Reach t
      → Reach (dispatch rd memory t sock s cmd unit args mem r).0
  unfolding dispatch
  dispatch-Reach memory t sock s Command.lock unit args mem r h =
      elim (do_lock_cases memory t sock s unit args mem r) [
        | inl e ↦ subst Reach (sym e) h
        | inr (type, e) ↦ subst Reach (sym e) (Reach.next h (Step.locked memory sock unit type))
      ]
  dispatch-Reach memory t sock s Command.unlock unit args mem r h =
      elim (do_unlock_cases t sock s unit args mem r) [
        | inl e ↦ subst Reach (sym e) h
        | inr (handle, e) ↦ subst Reach (sym e) (Reach.next h (Step.unlocked sock unit handle))
      ]
  dispatch-Reach memory t sock s Command.status unit args mem r h = h
  dispatch-Reach memory t sock s Command.reset unit args mem r h = h
  dispatch-Reach memory t sock s Command.eject unit args mem r h = h
  dispatch-Reach memory t sock s Command.output unit args mem r h = h
  dispatch-Reach memory t sock s Command.perform_verify unit args mem r h = h
  dispatch-Reach memory t sock s Command.memory_read unit args mem r h = h
  dispatch-Reach memory t sock s Command.memory_write unit args mem r h = h
  dispatch-Reach memory t sock s Command.transact unit args mem r h = h
  dispatch-Reach memory t sock s Command.transact_old unit args mem r h = h
  dispatch-Reach memory t sock s Command.set_protocol unit args mem r h = h
  dispatch-Reach memory t sock s (Command.unknown c) unit args mem r h = h

  -- What is left of the locks when a result is there.
  abbrev ReachIn : Option (Processed rd) → Type 0
  ReachIn none = Unit
  ReachIn (some p) = Reach p.locks

  concluded :
      (cmd : Command) (large : Bool) (x : Table × Option (Handled rd))
      → Reach x.0
      → ReachIn (elim x.1 [ none ↦ none | some h ↦ some (conclude rd cmd x.0 large h) ])
  unfolding conclude
  concluded cmd large (t, none) r = tt
  concluded cmd large (t, some h) r = elim (Bool-cases (is_known rd cmd)) [
    | inl e ↦ subst Reach (ground (arith, e)) r
    | inr e ↦ subst Reach (ground (arith, e)) r
  ]

  with_tlv-ReachIn :
      (memory : Bool) (t : Table) (sock : Socket) (large : Bool) (s : rd.State) (cmd : Command)
      (unit : ℕ) (argbuf resbuf : Buf)
      → Reach t
      → ReachIn (with_tlv rd memory t sock large s cmd unit argbuf resbuf)
  unfolding with_tlv
  with_tlv-ReachIn memory t sock large s cmd unit argbuf resbuf r =
      go (rd.before_command s).1 (parse no_items argbuf)
    where
      s1 : rd.State
      s1 = (rd.before_command s).0

      invalid : Processed rd
      invalid = record {
        locks = t;
        reader = s1;
        large = large;
        resbuf = resbuf;
        rc = err Error.invalid_msg;
      }

      go :
          (ready : Outcome (Unit {0})) (parsed : Parsed)
          → ReachIn (elim ready [
            | err e ↦
                some (record { locks = t; reader = s1; large = large; resbuf = resbuf; rc = err e })
            | ok _ ↦ elim parsed [
              | Parsed.done args left ↦
                  let x =
                    dispatch rd memory t sock s1 cmd unit args argbuf.base
                      (builder_init resbuf (args.use_large_tags || large)) in
                  elim x.1 [
                    | none ↦ none
                    | some h ↦ some (conclude rd cmd x.0 (args.use_large_tags || large) h)
                  ]
              | Parsed.malformed ↦ some invalid
              | Parsed.stuck ↦ some invalid
            ]
          ])
      go (err e) parsed = r
      go (ok u) Parsed.malformed = r
      go (ok u) Parsed.stuck = r
      go (ok u) (Parsed.done args left) = concluded cmd (args.use_large_tags || large) _ (
          dispatch-Reach memory t sock s1 cmd unit args argbuf.base
            (builder_init resbuf (args.use_large_tags || large)) r)

  old_command-locks :
      (t : Table) (sock : Socket) (large : Bool) (s : rd.State) (unit : ℕ) (argbuf resbuf : Buf)
      → (old_command rd t sock large s unit argbuf resbuf).locks ≡ t
  unfolding old_command
  old_command-locks t sock large s unit argbuf resbuf = ground arith

  process-ReachIn :
      (memory : Bool) (t : Table) (sock : Socket) (large : Bool) (s : rd.State)
      (argbuf resbuf : Buf)
      → Reach t
      → ReachIn (process rd memory t sock large s argbuf resbuf)
  unfolding process
  process-ReachIn memory t sock large s argbuf resbuf r =
      go (Buffer.get argbuf 1).1 (Buffer.get b1 1).1
    where
      b1 : Buf
      b1 = (Buffer.get argbuf 1).0

      b2 : Buf
      b2 = (Buffer.get b1 1).0

      short : Processed rd
      short = record {
        locks = t;
        reader = s;
        large = large;
        resbuf = resbuf;
        rc = err Error.invalid_msg;
      }

      go :
          (got got2 : Option (List ℕ))
          → ReachIn (elim got [
            | none ↦ some short
            | some c ↦ elim got2 [
              | none ↦ some short
              | some u ↦
                  if is_old rd (command_of (get_or c 0 0))
                  then some (old_command rd t sock large s (get_or u 0 0) b2 resbuf)
                  else with_tlv rd memory t sock large s
                      (command_of (get_or c 0 0))
                      (get_or u 0 0)
                      b2
                      resbuf
            ]
          ])
      go none got2 = r
      go (some c) none = r
      go (some c) (some u) =
          elim (is_old rd (command_of (get_or c 0 0)))
            as (λ b. ReachIn (
              if b
              then some (old_command rd t sock large s (get_or u 0 0) b2 resbuf)
              else with_tlv rd memory t sock large s (command_of (get_or c 0 0)) (get_or u 0 0) b2
                  resbuf)) [
                    | true ↦
                        subst Reach
                          (sym (old_command-locks t sock large s (get_or u 0 0) b2 resbuf)) r
                    | false ↦
                        with_tlv-ReachIn memory t sock large s (command_of (get_or c 0 0))
                          (get_or u 0 0) b2 resbuf r
                  ]

  -- Whatever a client sends, the locks go on to a table that lock, unlock and close calls reach; so
  -- two locks on one slot that different clients hold are still both shared and of one user.
  pub process-Reach :
      (memory : Bool) (t : Table) (sock : Socket) (large : Bool) (s : rd.State)
      (argbuf resbuf : Buf) (p : Processed rd)
      → Reach t
      → process rd memory t sock large s argbuf resbuf ≡ some p
      → Reach p.locks × AllCompatible p.locks.locks
  process-Reach memory t sock large s argbuf resbuf p r e =
      let q = subst ReachIn e (process-ReachIn memory t sock large s argbuf resbuf r) in
      (q, Reach-AllCompatible q)

  -- While a client holds an exclusive lock on a slot, the old form of a card command (0x20) of any
  -- other client to that slot is refused as locked: the reader, the locks and the response stay.
  pub transact_old_refused :
      (memory : Bool) (t : Table) (sock : Socket) (large : Bool) (s : rd.State)
      (argbuf b1 b2 resbuf : Buf) (unit id : ℕ)
      → Buffer.get argbuf 1 ≡ (b1, some (0x20 ∷ []))
      → Buffer.get b1 1 ≡ (b2, some (unit ∷ []))
      → id ≢ sock.id
      → HoldsExclusive id unit t.locks
      → process rd memory t sock large s argbuf resbuf
        ≡ some (record {
          locks = t;
          reader = s;
          large = large;
          resbuf = resbuf;
          rc = err Error.locked;
        })
  unfolding process old_command command_of
  transact_old_refused memory t sock large s argbuf b1 b2 resbuf unit id c u ne holds =
      ground (arith, c, u, exclusive_blocks memory t sock unit lock_exclusive id ne holds)

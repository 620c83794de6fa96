-- ===== src/Process/Unguarded.antt =====
-- Which commands of src/ifd/process.c do not look at the locks, and which leave the reader as it was
-- made ready.
use openct.Prelude.{ℕ, ◌≡◌, ◌≢◌, ◌⊎◌, refl, Bool, true, false, Option, none, some, [], ◌∷◌, arith}
use openct.Prelude.{inl, inr}
use openct.Prelude.Outcome.{Outcome, ok, Outcome-cases}
use openct.Buffer.{Buf}
use openct.Buffer
use openct.Tlv.{Parser, Parsed, builder_init, parse, no_items}
use openct.Locks.{Table, Socket}
use openct.Process.{Reader}
use openct.Process.Dispatch.{Command, command_of, Processed, dispatch, conclude, with_tlv, process}

parsed_cases :
    (r : Parsed)
    → ((args : Parser) × (left : Buf) × (r ≡ Parsed.done args left))
      ⊎ ((r ≡ Parsed.malformed) ⊎ (r ≡ Parsed.stuck))
parsed_cases (Parsed.done args left) = inl (args, left, refl)
parsed_cases Parsed.malformed = inr (inl refl)
parsed_cases Parsed.stuck = inr (inr refl)

module _ (rd : Reader) where
  -- The commands that are not about locks, the current form of a card command (0x21) among them.
  abbrev pub is_lock_free : Command → Bool
  is_lock_free Command.lock = false
  is_lock_free Command.unlock = false
  is_lock_free Command.transact_old = false
  is_lock_free _ = true

  -- A result with another table in it.
  abbrev pub with_locks : Table → Option (Processed rd) → Option (Processed rd)
  with_locks t none = none
  with_locks t (some p) = some (record p { locks = t })

  -- A message with an unknown command leaves the reader as it was when it was made ready, and gets an
  -- error: what follows a command is not called.
  pub unknown_not_released :
      (memory : Bool) (t : Table) (sock : Socket) (large : Bool) (s : rd.State)
      (argbuf b1 b2 resbuf : Buf) (c k unit : ℕ)
      → Buffer.get argbuf 1 ≡ (b1, some (c ∷ []))
      → Buffer.get b1 1 ≡ (b2, some (unit ∷ []))
      → command_of c ≡ Command.unknown k
      → (p : Processed rd) → process rd memory t sock large s argbuf resbuf ≡ some p
      → (p.reader ≡ (rd.before_command s).0) × (p.locks ≡ t) × (p.resbuf ≡ resbuf) × (p.rc ≢ ok tt)
  unfolding process with_tlv dispatch conclude builder_init
  unknown_not_released memory t sock large s argbuf b1 b2 resbuf c k unit e g n p done =
      elim (Outcome-cases (rd.before_command s).1) [
        | inr (bad, r) ↦ ground (arith, e, g, n, done, r)
        | inl (u, r) ↦ elim (parsed_cases (parse no_items b2)) [
          | inl (args, left, q) ↦ ground (arith, e, g, n, done, r, q)
          | inr (inl q) ↦ ground (arith, e, g, n, done, r, q)
          | inr (inr q) ↦ ground (arith, e, g, n, done, r, q)
        ]
      ]

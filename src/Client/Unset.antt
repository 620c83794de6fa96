-- ===== src/Client/Unset.antt =====
-- What the client library makes of a response that lacks the item it looks for.
use openct.Prelude.{ℕ, ◌+◌, ◌<◌, ◌≤◌, ◌≡◌, refl, ap, ◌∙◌, arith, Bool, none, some}
use openct.Prelude.{List, [], ◌∷◌, length, drop}
use openct.Prelude.Memory.{load, store-nil}
use openct.Prelude.Outcome.{ok}
use openct.Buffer.{Buf, init, set, clear, contents, avail}
use openct.Buffer.Append.{grown, putc_fits, grown-IsValid}
use openct.Buffer.Inv.{IsValid, init-IsValid, length-contents}
use openct.Tlv.{
  Parser, Parsed, builder_init, no_items, parse, parse_loop, get_int, get_string, get_bytes,
}
use openct.Locks.{Table, Socket}
use openct.Process.{Reader}
use openct.Process.Tags.{tag_atr}
use openct.Process.Handlers.{do_reset}
use openct.Process.Dispatch.{Command, process, with_tlv, dispatch, conclude, command_of}
use openct.Client.{begin, ask_bytes, bytes_of, card_reset, card_request}
use openct.Client.{optional_args}
use openct.Client.Server.{Server, serve, deliver, direct}
use openct.Client.Messages.{Holds, begin-Holds, Arrived, arrive}
use openct.Client.Answers.{Carries, deliver_lem}

-- A parser that has nothing to read stays what it was.
parse-nil : (p : Parser) (b : Buf) → IsValid b → contents b ≡ [] → parse p b ≡ Parsed.done p b
unfolding parse parse_loop
parse-nil p b v e = ground (arith, ap length e, length-contents v)

reset_handled :
    (rd : Reader) (memory : Bool) (t : Table) (sock : Socket) (large : Bool) (s s1 s2 : rd.State)
    (slot : ℕ) (rest resbuf : Buf)
    → rd.before_command s ≡ (s1, ok tt)
    → parse no_items rest ≡ Parsed.done no_items rest
    → slot ≤ rd.nslots s1
    → rd.card_request s1 slot 0 none 64 ≡ (s2, ok [])
    → with_tlv rd memory t sock large s Command.reset slot rest resbuf
      ≡ some (record {
        locks = t;
        reader = rd.after_command s2;
        large = large;
        resbuf = resbuf;
        rc = ok tt;
      })
unfolding with_tlv dispatch do_reset conclude builder_init get_int get_string
reset_handled rd memory t sock large s s1 s2 slot rest resbuf before parsed near request =
    ground (arith, before, parsed, near, request)

-- The array of a command, and of the empty response that comes back in it.
array_lem :
    (mem : List ℕ) (cmd slot : ℕ)
    → 256 ≤ length mem
    → cmd < 256
    → slot < 256
    → (grown (clear (init (begin mem 256 cmd slot).base 256)) []).base ≡ cmd ∷ slot ∷ drop 2 mem
unfolding begin init clear
array_lem [] cmd slot room c s = absurd (omega arith)
array_lem (x ∷ []) cmd slot room c s = absurd (omega arith)
array_lem (x ∷ y ∷ mem) cmd slot room c s =
    let start = init (x ∷ y ∷ mem) 256 in
    let v = init-IsValid (x ∷ y ∷ mem) 256 room (omega arith) in
    let first = putc_fits start cmd v (omega arith) c in
    let v' = grown-IsValid start (cmd ∷ []) v (omega arith) in
    let second = putc_fits (grown start (cmd ∷ [])) slot v' (omega arith) s in
    ground (arith, first, second, store-nil mem 0)

-- Where a reset succeeds without an answer, as it does for a synchronous card, the client takes for the
-- answer what its uninitialized parser points at: where that is in the client's array, bytes of the command that it
-- sent and, behind these, of what the array held before the call.
pub reset_reads_junk :
    (rd : Reader) (memory : Bool) (mem' mem : List ℕ) (sock : Socket) (srv : Server rd)
    (s1 s2 : rd.State) (junk : Parser) (slot atr_len off n : ℕ)
    → 4160 ≤ length mem'
    → 256 ≤ length mem
    → slot < 256
    → rd.before_command srv.reader ≡ (s1, ok tt)
    → slot ≤ rd.nslots s1
    → rd.card_request s1 slot 0 none 64 ≡ (s2, ok [])
    → junk.val tag_atr ≡ some off
    → junk.len tag_atr ≡ n
    → n ≤ atr_len
    → off + n ≤ 256
    → card_reset (direct rd memory mem' sock) mem junk srv slot atr_len
      ≡ some (
        record { locks = srv.locks; reader = rd.after_command s2; large = srv.large },
        ok (load (0x10 ∷ slot ∷ drop 2 mem) off n),
      )
unfolding card_reset card_request optional_args ask_bytes bytes_of get_bytes
reset_reads_junk rd memory mem' mem sock srv s1 s2 junk slot atr_len off n room room' lt before near
      request points many fits inside =
    ground (
      arith,
      back.0,
      parse-nil junk resp back.1.valid back.1.bytes,
      array_lem mem 0x10 slot room' (omega arith) lt,
      points,
      many,
      fits,
    )
  where
    args : Buf
    args = begin mem 256 0x10 slot

    h : Holds args 256 (0x10 ∷ slot ∷ [])
    h = begin-Holds mem 256 0x10 slot room' (omega arith) (omega arith) (omega arith) lt

    at : Arrived args 0x10 slot []
    at = arrive 0x10 slot h

    after : Server rd
    after = record { locks = srv.locks; reader = rd.after_command s2; large = srv.large }

    empty : Buf
    empty = init mem' 4160

    whole :
        process rd memory srv.locks sock srv.large srv.reader
          (set (contents args) (avail args))
          empty
        ≡ some (record {
          locks = srv.locks;
          reader = rd.after_command s2;
          large = srv.large;
          resbuf = empty;
          rc = ok tt;
        })
    whole =
        at.processed rd memory srv.locks sock srv.large srv.reader empty (unfold command_of in refl)
        ∙ ap (λ c. with_tlv rd memory srv.locks sock srv.large srv.reader c slot at.rest empty)
            {x = command_of 0x10} {y = Command.reset} (unfold command_of in refl)
        ∙ reset_handled rd memory srv.locks sock srv.large srv.reader s1 s2 slot at.rest empty
            before (parse-nil no_items at.rest at.valid at.bytes) near request

    served :
        serve rd memory mem' sock srv (set (contents args) (avail args))
        ≡ some (after, empty, ok tt)
    served = unfold serve in ground (arith, whole)

    resp : Buf
    resp = grown (clear (init args.base 256)) []

    back :
        deliver rd memory mem' sock srv args (init args.base 256) ≡ some (after, resp, ok 0)
        × Carries resp []
    back =
        deliver_lem rd memory mem' args.base sock srv after args empty 256 [] served
          (record {
            valid = init-IsValid mem' 4160 room (omega arith);
            bytes = unfold init in refl;
          })
          (omega (arith, h.valid, length-contents h.valid, ap length h.bytes)) (omega arith)
          (omega (arith, h.valid, h.sized)) (omega arith) (omega arith)

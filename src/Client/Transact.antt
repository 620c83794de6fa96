-- ===== src/Client/Transact.antt =====
-- Commands from the client library through the handler to the reader, and their answers back.
use openct.Prelude.{ℕ, ◌+◌, ◌<◌, ◌≤◌, ◌≡◌, refl, ap, ◌∙◌, arith, true, false, Bool, some}
use openct.Prelude.{List, [], ◌∷◌, length, length-append}
use openct.Prelude.Outcome.{Error, ok, err}
use openct.Buffer.{Buf, init, set, contents, avail}
use openct.Buffer.Inv.{init-IsValid, length-contents}
use openct.Tlv.{
  Builder, Parser, Parsed, builder_init, no_items, put_tag, add_bytes, parse, get_opaque,
}
use openct.Tlv.RoundTrip.{encode, IsItem}
use openct.Tlv.Received.{Received, parse-encode}
use openct.Locks.{Table, Socket}
use openct.Process.{Reader}
use openct.Process.Tags.{tag_card_request, tag_card_response}
use openct.Process.Handlers.{do_transact}
use openct.Process.Dispatch.{Command, Processed, process, with_tlv, dispatch, conclude, command_of}
use openct.Client.{begin, args_opaque, ask_bytes, card_transact}
use openct.Client.Server.{Server, serve, deliver, direct}
use openct.Client.Messages.{Holds, begin-Holds, args_opaque-Holds, Arrived, arrive}
use openct.Client.Answers.{Carries, answer-Carries, ask_bytes_lem}

-- A card command whose parts are known.
transact_handled :
    (rd : Reader) (memory : Bool) (t : Table) (sock : Socket) (large : Bool) (s s1 s2 : rd.State)
    (slot : ℕ) (rest left resbuf : Buf) (args : Parser) (apdu bs : List ℕ)
    → rd.before_command s ≡ (s1, ok tt)
    → parse no_items rest ≡ Parsed.done args left
    → args.use_large_tags ≡ true
    → get_opaque args rest.base tag_card_request ≡ some apdu
    → slot ≤ rd.nslots s1
    → rd.card_command s1 slot apdu 514 ≡ (s2, ok bs)
    → let r = add_bytes (put_tag (builder_init resbuf true) tag_card_response) bs in
      r.error ≡ false
      → with_tlv rd memory t sock large s Command.transact slot rest resbuf
        ≡ some (record {
          locks = t;
          reader = rd.after_command s2;
          large = true;
          resbuf = r.buf;
          rc = ok tt;
        })
unfolding with_tlv dispatch do_transact conclude
transact_handled rd memory t sock large s s1 s2 slot rest left resbuf args apdu bs before parsed
      flag item near command fine =
    ground (arith, before, parsed, flag, item, command, fine)

-- The handler with the command of a card in its hands.
transact_served :
    (rd : Reader) (memory : Bool) (mem : List ℕ) (sock : Socket) (srv : Server rd)
    (s1 s2 : rd.State) (args : Buf) (size slot : ℕ) (apdu bs : List ℕ)
    → Holds args size (0x21 ∷ slot ∷ encode true ((tag_card_request, apdu) ∷ []))
    → IsItem true (tag_card_request, apdu)
    → 4160 ≤ length mem
    → slot ≤ rd.nslots s1
    → rd.before_command srv.reader ≡ (s1, ok tt)
    → rd.card_command s1 slot apdu 514 ≡ (s2, ok bs)
    → IsItem true (tag_card_response, bs)
    → length bs ≤ 4000
    → (answer : Buf) × (serve rd memory mem sock srv (set (contents args) (avail args))
        ≡ some (
          record { locks = srv.locks; reader = rd.after_command s2; large = true },
          answer,
          ok tt,
        ))
      × Carries answer (encode true ((tag_card_response, bs) ∷ []))
unfolding serve
transact_served rd memory mem sock srv s1 s2 args size slot apdu bs h it room near before command
      it' short =
    (answer.buf, served, built.1)
  where
    at : Arrived args 0x21 slot (encode true ((tag_card_request, apdu) ∷ []))
    at = arrive 0x21 slot h

    got : Received no_items at.rest tag_card_request apdu []
    got = parse-encode no_items at.rest tag_card_request apdu [] at.valid at.bytes (it, tt)

    empty : Buf
    empty = init mem 4160

    answer : Builder
    answer = add_bytes (put_tag (builder_init empty true) tag_card_response) bs

    built : (answer.error ≡ false) × Carries answer.buf (encode true ((tag_card_response, bs) ∷ []))
    built =
        answer-Carries empty tag_card_response bs
          (record { valid = init-IsValid mem 4160 room (omega arith); bytes = unfold init in refl })
          it' (unfold init in omega arith)

    done : Processed rd
    done = record {
      locks = srv.locks;
      reader = rd.after_command s2;
      large = true;
      resbuf = answer.buf;
      rc = ok tt;
    }

    item : get_opaque got.parser at.rest.base tag_card_request ≡ some apdu
    item = got.values tag_card_request

    whole :
        process rd memory srv.locks sock srv.large srv.reader
          (set (contents args) (avail args))
          empty
        ≡ some done
    whole =
        at.processed rd memory srv.locks sock srv.large srv.reader empty (unfold command_of in refl)
        ∙ ap (λ c. with_tlv rd memory srv.locks sock srv.large srv.reader c slot at.rest empty)
            {x = command_of 0x21} {y = Command.transact} (unfold command_of in refl)
        ∙ transact_handled rd memory srv.locks sock srv.large srv.reader s1 s2 slot at.rest got.left
            empty got.parser apdu bs before got.ends got.flagged item near command built.0

    served :
        serve rd memory mem sock srv (set (contents args) (avail args))
        ≡ some (
          record { locks = srv.locks; reader = rd.after_command s2; large = true },
          answer.buf,
          ok tt,
        )
    served = ground (arith, whole)

-- The command as it stands in the client's buffer.
request-Holds :
    (mem : List ℕ) (slot : ℕ) (apdu : List ℕ)
    → 4096 ≤ length mem
    → slot < 256
    → 0 < length apdu
    → length apdu ≤ 4091
    → Holds
        (args_opaque (begin mem 4096 0x21 slot) tag_card_request apdu)
        4096
        (0x21 ∷ slot ∷ encode true ((tag_card_request, apdu) ∷ []))
request-Holds mem slot apdu room lt pos few =
    args_opaque-Holds tag_card_request apdu
      (begin-Holds mem 4096 0x21 slot room (omega arith) (omega arith) (omega arith) lt)
      (omega arith, pos, omega arith) (omega arith)

request_avail :
    (mem : List ℕ) (slot : ℕ) (apdu : List ℕ)
    → 4096 ≤ length mem
    → slot < 256
    → 0 < length apdu
    → length apdu ≤ 4091
    → avail (args_opaque (begin mem 4096 0x21 slot) tag_card_request apdu) ≡ 5 + length apdu
request_avail mem slot apdu room lt pos few =
    let h = request-Holds mem slot apdu room lt pos few in
    omega (arith, h.valid, length-contents h.valid, ap length h.bytes, length-append apdu [])

-- A card command that a client sends to a slot of the reader reaches the reader unchanged, and the
-- client gets the reader's answer unchanged: up to 4079 bytes in the command, and up to 514, or what
-- the client has room for, in the answer, and no locks change. The reader was made ready before, and
-- is released afterwards.
pub transact_delivered :
    (rd : Reader) (memory : Bool) (mem' mem : List ℕ) (sock : Socket) (srv : Server rd)
    (s1 s2 : rd.State) (junk : Parser) (slot recv_size : ℕ) (apdu bs : List ℕ)
    → 4160 ≤ length mem'
    → 4096 ≤ length mem
    → slot < 256
    → 0 < length apdu
    → length apdu ≤ 4079
    → rd.before_command srv.reader ≡ (s1, ok tt)
    → slot ≤ rd.nslots s1
    → rd.card_command s1 slot apdu 514 ≡ (s2, ok bs)
    → 0 < length bs
    → length bs ≤ 514
    → length bs ≤ recv_size
    → card_transact (direct rd memory mem' sock) mem junk srv slot apdu recv_size
      ≡ some (record { locks = srv.locks; reader = rd.after_command s2; large = true }, ok bs)
unfolding card_transact
transact_delivered rd memory mem' mem sock srv s1 s2 junk slot recv_size apdu bs room room' lt pos
      few before near command pos' few' fits =
    let it : IsItem true (tag_card_request, apdu) = (omega arith, pos, omega arith) in
    let it' : IsItem true (tag_card_response, bs) = (omega arith, pos', omega arith) in
    let h = request-Holds mem slot apdu room' lt pos (omega arith) in
    let served =
      transact_served rd memory mem' sock srv s1 s2
        (args_opaque (begin mem 4096 0x21 slot) tag_card_request apdu) 4096 slot apdu bs h it room
        near before command it' (omega arith) in
    ask_bytes_lem rd memory mem' sock srv
      (record { locks = srv.locks; reader = rd.after_command s2; large = true }) junk
      (args_opaque (begin mem 4096 0x21 slot) tag_card_request apdu) served.0 4096 tag_card_response
      recv_size bs served.1 served.2 it'
      (omega (arith, request_avail mem slot apdu room' lt pos (omega arith))) (omega arith) fits
      (omega arith) (omega (arith, h.valid, h.sized)) (omega arith)

-- A card command of 4080 to 4091 bytes fits the client's array, but not the buffer of its socket: the
-- client gets IFD_ERROR_BUFFER_TOO_SMALL, and the handler and the card do not learn of it.
pub long_command_refused :
    (rd : Reader) (memory : Bool) (mem' mem : List ℕ) (sock : Socket) (srv : Server rd)
    (junk : Parser) (slot recv_size : ℕ) (apdu : List ℕ)
    → 4096 ≤ length mem
    → slot < 256
    → 4080 ≤ length apdu
    → length apdu ≤ 4091
    → card_transact (direct rd memory mem' sock) mem junk srv slot apdu recv_size
      ≡ some (srv, err Error.buffer_too_small)
unfolding card_transact ask_bytes deliver
long_command_refused rd memory mem' mem sock srv junk slot recv_size apdu room lt long few =
    ground (arith, request_avail mem slot apdu room lt (omega arith) few)

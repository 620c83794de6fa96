-- ===== src/Ccid/Exchange.antt =====
-- A block for the card and its answer, over the messages of src/ifd/ifd-ccid.c.
use openct.Prelude.{
  ℕ, zero, suc, ◌+◌, ◌*◌, ◌/◌, ◌^◌, ◌≤◌, ◌<◌, ◌≡◌, ◌≢◌, ◌⊎◌, inl, inr, refl, sym, ◌∙◌, arith, false,
  Option, none, some, List, [], ◌∷◌, ◌++◌, length, take, drop, get_or,
}
use openct.Prelude.{take-all}
use openct.Prelude.Memory.{u8}
use openct.Prelude.Outcome.{ok}
use openct.Ccid.{
  Ccid, Device, fine, more_time, checkresponse, le4, message, prepare_cmd, extract_data, await,
  command, run_cmd, exchange_ctl, exchange,
}

-- A message: its type, slot and number, three bytes by its type, and data.
abbrev pub framed : ℕ → ℕ → ℕ → ℕ → ℕ → ℕ → List ℕ → List ℕ
framed type slot seq a b c bytes = type ∷ (le4 (length bytes) ++ (slot ∷ seq ∷ a ∷ b ∷ c ∷ bytes))

le4_lem :
    (n : ℕ)
    → n < 2 ^ 31
    → u8 n + 2 ^ 8 * u8 (n / 2 ^ 8) + 2 ^ 16 * u8 (n / 2 ^ 16) + 2 ^ 24 * u8 (n / 2 ^ 24) ≡ n
le4_lem n h = omega arith

-- The data of a message are what was put into it.
pub extract_data-framed :
    (type slot seq a b c outlen : ℕ) (bytes : List ℕ)
    → length bytes < 2 ^ 31
    → length bytes ≤ outlen
    → extract_data (framed type slot seq a b c bytes) outlen ≡ ok bytes
unfolding extract_data
extract_data-framed type slot seq a b c outlen [] small room = ground arith
extract_data-framed type slot seq a b c outlen (x ∷ xs) small room =
    ground
      (arith, le4_lem (length (x ∷ xs)) small, take-all (length (x ∷ xs)) (x ∷ xs) (omega arith))

-- What was sent, and what is still to be received.
pub record Line : Type 0 where
  pub sent : List (List ℕ)
  pub answers : List (List ℕ)

abbrev pub next : ℕ → List (List ℕ) → Option (List ℕ)
next n [] = none
next n (m ∷ ms) = some (take n m)

abbrev pub scripted : Device
scripted = record {
  State = Line;
  send = λ s bytes. (record s { sent = bytes ∷ s.sent }, false);
  recv = λ s n timeout. (record s { answers = drop 1 s.answers }, next n s.answers);
}

-- Messages that are passed over: of another command, or a request for more time.
abbrev pub PassedOver : ℕ → ℕ → List (List ℕ) → Type 0
PassedOver seq n [] = Unit
PassedOver seq n (m ∷ ms) =
    (9 ≤ length m)
    × (length m ≤ n)
    × ((get_or m 6 0 ≢ seq) ⊎ (checkresponse m ≡ more_time))
    × PassedOver seq n ms

await_pass :
    (rounds : ℕ) (sent ms : List (List ℕ)) (cmd m : List ℕ) (n seq : ℕ)
    → 9 ≤ length m
    → length m ≤ n
    → get_or cmd 6 0 ≡ seq
    → (get_or m 6 0 ≢ seq) ⊎ (checkresponse m ≡ more_time)
    → await scripted (suc rounds) (record { sent = sent; answers = m ∷ ms }) cmd n
      ≡ await scripted rounds (record { sent = sent; answers = ms }) cmd n
unfolding await
await_pass rounds sent ms cmd m n seq long whole mine (inl other) =
    ground (arith, long, mine, other, take-all n m whole)
await_pass rounds sent ms cmd m n seq long whole mine (inr more) =
    ground (arith, long, mine, more, take-all n m whole)

await_found :
    (rounds : ℕ) (sent ms : List (List ℕ)) (cmd m : List ℕ) (n : ℕ)
    → 9 ≤ length m
    → length m ≤ n
    → get_or cmd 5 0 ≡ get_or m 5 0
    → get_or cmd 6 0 ≡ get_or m 6 0
    → checkresponse m ≡ fine
    → await scripted (suc rounds) (record { sent = sent; answers = m ∷ ms }) cmd n
      ≡ some (record { sent = sent; answers = ms }, ok m)
unfolding await
await_found rounds sent ms cmd m n long whole slot seq good =
    ground (arith, long, slot, seq, good, take-all n m whole)

await_lem :
    (others later sent : List (List ℕ)) (cmd m : List ℕ) (n seq rounds : ℕ)
    → PassedOver seq n others
    → 9 ≤ length m
    → length m ≤ n
    → get_or cmd 5 0 ≡ get_or m 5 0
    → get_or cmd 6 0 ≡ seq
    → get_or m 6 0 ≡ seq
    → checkresponse m ≡ fine
    → length others < rounds
    → await scripted rounds (record { sent = sent; answers = others ++ (m ∷ later) }) cmd n
      ≡ some (record { sent = sent; answers = later }, ok m)
await_lem others later sent cmd m n seq zero passed long whole slot mine his good enough =
    absurd (omega arith)
await_lem [] later sent cmd m n seq (suc rounds) passed long whole slot mine his good enough =
    await_found rounds sent later cmd m n long whole slot (mine ∙ sym his) good
await_lem (o ∷ os) later sent cmd m n seq (suc rounds) passed long whole slot mine his good enough =
    await_pass rounds sent (os ++ (m ∷ later)) cmd o n seq passed.0 passed.1 mine passed.2
    ∙ await_lem os later sent cmd m n seq rounds passed.3 long whole slot mine his good
        (omega arith)

-- A block for a card, of up to ten bytes less than the longest message, is sent as one message; the
-- device may ask for more time or answer other commands first, and then answers with data that the
-- caller has room for: these are what the caller gets, and the next command has the next number.
pub exchange_answered :
    (rounds : ℕ) (st : Ccid) (others later sent : List (List ℕ)) (slot rlen a c : ℕ)
    (snd bytes : List ℕ)
    → slot < st.nslots
    → slot < 256
    → st.seq < 256
    → length snd + 10 ≤ st.maxmsg
    → length bytes + 10 ≤ st.maxmsg
    → length bytes < 2 ^ 31
    → length bytes ≤ rlen
    → a < 64
    → PassedOver st.seq st.maxmsg others
    → length others < rounds
    → exchange scripted rounds st
        (record { sent = sent; answers = others ++ (framed 0x80 slot st.seq a 0 c bytes ∷ later) })
        slot
        snd
        rlen
      ≡ some (
        record st { seq = u8 (st.seq + 1) },
        record {
          sent = message 0x6F slot st.seq (exchange_ctl scripted st.reader_type rlen) snd ∷ sent;
          answers = later;
        },
        ok bytes,
      )
unfolding exchange run_cmd prepare_cmd command
exchange_answered rounds st others later sent slot rlen a c snd bytes near small number fits fits'
      few room good passed enough =
    let m = framed 0x80 slot st.seq a 0 c bytes in
    let cmd = message 0x6F slot st.seq (exchange_ctl scripted st.reader_type rlen) snd in
    let waited =
      await_lem others later (cmd ∷ sent) cmd m st.maxmsg st.seq rounds passed (omega arith)
        (omega arith) (omega arith) (omega arith) refl (unfold checkresponse in ground arith)
        enough in
    let taken = extract_data-framed 0x80 slot st.seq a 0 c rlen bytes few room in
    ground (arith, near, fits, waited, taken)

-- ===== src/Ccid.antt =====
-- The messages of the CCID driver, src/ifd/ifd-ccid.c: a header of ten bytes, and data.
--
-- `Ccid` is what `ccid_status_t` has to do with messages, with the number of slots of the reader. A message
-- is the list of its bytes; where C has a buffer to fill, the bytes come back. `ccid_command` waits as long
-- as the device sends something else, so it takes a number of rounds, and none is that they are used up.
pub mod Exchange
mod Runs
pub use openct.Driver.{Device}
use openct.Prelude.{
  ℕ, zero, suc, ◌+◌, ◌-◌, ◌*◌, ◌/◌, ◌%◌, ◌^◌, Bool, true, false, not, ◌||◌, ◌&&◌, Option, none,
  some, List, [], ◌∷◌, ◌++◌,
}
use openct.Prelude.{◌==◌, if◌then◌else◌, ltb, length, take, drop, get_or}
use openct.Prelude.Memory.{u8}
use openct.Prelude.Outcome.{Error, Outcome, ok, err}

-- `reader_type`
pub data Level : Type 0 where
  apdu_level tpdu_level char_level : Level

pub record Ccid : Type 0 where
  pub reader_type : Level
  pub nslots : ℕ
  pub maxmsg : ℕ
  pub seq : ℕ
  pub icc_proto : ℕ → ℕ
  pub sbuf : ℕ → Option (List ℕ)

-- 0, -300, or an error.
pub data Checked : Type 0 where
  fine more_time : Checked
  refused : Error → Checked

-- What the error byte of a failed command means.
pub error_of : ℕ → Error
error_of e =
    if e == 0xFE
    then Error.no_card
    else if e == 0xFD || e == 0xFC
    then Error.comm_error
    else if e == 0xF8 || e == 0xF7
    then Error.no_atr
    else if e == 0xF6 || e == 0xF5
    then Error.incompatible_device
    else if e == 0xF4
    then Error.invalid_arg
    else if e == 0xF2 || e == 0xE0
    then Error.timeout
    else if e == 0xF0
    then Error.user_timeout
    else if e == 0xEF
    then Error.user_abort
    else if e == 0
    then Error.not_supported
    else if e == 5
    then Error.invalid_slot
    else Error.generic

unfoldable pub checkresponse : List ℕ → Checked
unfolding error_of
checkresponse p =
    let status = get_or p 7 0 / 2 ^ 6 % 4 in
    if status == 0
    then fine
    else if status == 2
    then more_time
    else refused (error_of (get_or p 8 0))

-- The four bytes of a length, the lowest first.
abbrev pub le4 : ℕ → List ℕ
le4 n = u8 n ∷ u8 (n / 2 ^ 8) ∷ u8 (n / 2 ^ 16) ∷ u8 (n / 2 ^ 24) ∷ []

-- `ctl` is the three bytes behind the number, of which NULL makes zeros.
abbrev pub ctl_bytes : Option (List ℕ) → List ℕ
ctl_bytes none = 0 ∷ 0 ∷ 0 ∷ []
ctl_bytes (some ctl) = take 3 ctl

abbrev pub message : ℕ → ℕ → ℕ → Option (List ℕ) → List ℕ → List ℕ
message cmd slot seq ctl snd =
    cmd ∷ (le4 (length snd) ++ (u8 slot ∷ u8 seq ∷ (ctl_bytes ctl ++ snd)))

unfoldable pub prepare_cmd : Ccid → ℕ → ℕ → ℕ → Option (List ℕ) → List ℕ → Ccid × Outcome (List ℕ)
prepare_cmd st outsz slot cmd ctl snd =
    if not (ltb slot st.nslots)
    then (st, err Error.invalid_slot)
    else if ltb outsz (length snd + 10)
    then (st, err Error.not_supported)
    else (record st { seq = u8 (st.seq + 1) }, ok (message cmd slot st.seq ctl snd))

-- `dlen[0] | dlen[1] << 8 | …`, an int that becomes a `size_t`.
abbrev pub data_len : List ℕ → ℕ
data_len m =
    let n = get_or m 1 0 + 2 ^ 8 * get_or m 2 0 + 2 ^ 16 * get_or m 3 0 + 2 ^ 24 * get_or m 4 0 in
    if ltb n (2 ^ 31) then n else n + 2 ^ 64 - 2 ^ 32

unfoldable pub extract_data : List ℕ → ℕ → Outcome (List ℕ)
extract_data m outlen =
    let len = data_len m in
    if ltb (length m) 5
    then err Error.buffer_too_small
    else if len == 0
    then ok []
    else if ltb (length m) ((len + 10) % 2 ^ 64)
    then err Error.buffer_too_small
    else if ltb outlen len
    then err Error.buffer_too_small
    else ok (take len (drop 10 m))

-- `msg_expected`, by the number of the command above `CCID_CMD_FIRST`.
abbrev pub msg_expected : List ℕ
msg_expected =
    0 ∷ 0x82 ∷ 0x80 ∷ 0x81 ∷ 0 ∷ 0x81 ∷ 0 ∷ 0 ∷ 0 ∷ 0x80 ∷ 0x81 ∷ 0x83 ∷ 0x82 ∷ 0x82 ∷ 0x81 ∷ 0x80
    ∷ 0 ∷ 0x81 ∷ 0x81 ∷ 0x84 ∷ []

module _ (dev : Device) where
  -- The messages until the one that answers `cmd`.
  unfoldable pub await : ℕ → dev.State → List ℕ → ℕ → Option (dev.State × Outcome (List ℕ))
  unfolding checkresponse
  await zero d cmd res_len = none
  await (suc rounds) d cmd res_len =
      let (d1, got) = dev.recv d res_len 10000 in
      let rest = await rounds d1 cmd res_len in
      elim got [
        | none ↦ some (d1, err Error.generic)
        | some res ↦
            if ltb (length res) 9
            then some (d1, err Error.generic)
            else if get_or cmd 5 0 == get_or res 5 0 && get_or cmd 6 0 == get_or res 6 0
            then elim (checkresponse res) [
              | fine ↦ some (d1, ok res)
              | more_time ↦ rest
              | refused e ↦ some (d1, err e)
            ]
            else rest
      ]

  unfoldable pub command : ℕ → dev.State → List ℕ → ℕ → Option (dev.State × Outcome (List ℕ))
  unfolding await
  command rounds d cmd res_len =
      let (d1, failed) = dev.send d cmd in
      let rest = await rounds d1 cmd res_len in
      if length cmd == 0 || res_len == 0
      then some (d, err Error.invalid_arg)
      else if failed
      then some (d1, err Error.generic)
      else rest

  -- A command and the message that answers it.
  abbrev pub Answered : Type 0
  Answered = Option (Ccid × dev.State × Outcome (List ℕ))

  unfoldable pub run_cmd : ℕ → Ccid → dev.State → ℕ → ℕ → ℕ → Option (List ℕ) → List ℕ → Answered
  unfolding prepare_cmd command
  run_cmd rounds st d outsz slot cmd ctl snd =
      let (st1, made) = prepare_cmd st outsz slot cmd ctl snd in
      elim made [
        | err e ↦ some (st1, d, err e)
        | ok m ↦ elim (command rounds d m st.maxmsg) [
          | none ↦ none
          | some (d1, rc) ↦ some (st1, d1, rc)
        ]
      ]

  -- The type of the answer has to be the one that belongs to the command.
  unfoldable pub expected : ℕ → Outcome (List ℕ) → Outcome (List ℕ)
  expected cmd (err e) = err e
  expected cmd (ok m) =
      if get_or m 0 0 == get_or msg_expected (cmd - 0x60) 0 then ok m else err Error.generic

  abbrev pub data_of : Outcome (List ℕ) → ℕ → Outcome (List ℕ)
  data_of (err e) outlen = err e
  data_of (ok m) outlen = extract_data m outlen

  pub simple_rcommand : ℕ → Ccid → dev.State → ℕ → ℕ → Option (List ℕ) → ℕ → Answered
  unfolding run_cmd expected
  simple_rcommand rounds st d slot cmd ctl res_len = elim (run_cmd rounds st d 10 slot cmd ctl []) [
    | none ↦ none
    | some (st1, d1, rc) ↦
        let m = expected cmd rc in some (st1, d1, if res_len == 0 then m else data_of m res_len)
  ]

  pub simple_wcommand : ℕ → Ccid → dev.State → ℕ → ℕ → Option (List ℕ) → List ℕ → Answered
  unfolding run_cmd expected
  simple_wcommand rounds st d slot cmd ctl snd =
      elim (run_cmd rounds st d st.maxmsg slot cmd ctl snd) [
        | none ↦ none
        | some (st1, d1, rc) ↦ some (st1, d1, expected cmd rc)
      ]

  -- What a reader that works on characters is told: how many to wait for.
  abbrev pub exchange_ctl : Level → ℕ → Option (List ℕ)
  exchange_ctl char_level rlen = some (0 ∷ u8 rlen ∷ u8 (rlen / 2 ^ 8) ∷ [])
  exchange_ctl _ rlen = none

  unfoldable pub exchange : ℕ → Ccid → dev.State → ℕ → List ℕ → ℕ → Answered
  unfolding run_cmd
  exchange rounds st d slot snd rlen =
      elim (run_cmd rounds st d st.maxmsg slot 0x6F (exchange_ctl st.reader_type rlen) snd) [
        | none ↦ none
        | some (st1, d1, rc) ↦ some (st1, d1, data_of rc rlen)
      ]

  -- Only a reader that takes whole commands, or T=0 ones, passes them on.
  pub transparent : ℕ → Ccid → dev.State → ℕ → List ℕ → ℕ → Answered
  unfolding exchange
  transparent rounds st d slot snd rlen =
      let may : Bool = elim st.reader_type [
        | apdu_level ↦ true
        | tpdu_level ↦ st.icc_proto slot == 0
        | char_level ↦ false
      ] in
      let rest = exchange rounds st d slot snd rlen in
      if may then rest else some (st, d, err Error.not_supported)

  -- What a protocol sends is kept for the `recv` that follows; the memory is there.
  pub send : Ccid → ℕ → List ℕ → Ccid
  send st dad bytes = record st { sbuf = λ k. if k == dad then some bytes else st.sbuf k }

  pub recv : ℕ → Ccid → dev.State → ℕ → ℕ → Answered
  unfolding exchange
  recv rounds st d dad len =
      let kept : List ℕ = elim (st.sbuf dad) [ none ↦ [] | some bytes ↦ bytes ] in
      elim (exchange rounds st d dad kept len) [
        | none ↦ none
        | some (st1, d1, rc) ↦
            some (record st1 { sbuf = λ k. if k == dad then none else st1.sbuf k }, d1, rc)
      ]

-- ===== src/Atr.antt =====
-- The answer to reset of src/ifd/atr.c.
--
-- A field of `ifd_atr_info_t` that may be -1 is an option. The bytes of the answer are a list, of which
-- `len` are given.
pub mod Pts
pub mod Encoding
pub mod Groups
pub mod Standard
pub mod Bounds
pub mod Complete
pub mod Receive
mod Runs
use openct.Prelude.{ℕ, zero, suc, ◌+◌, ◌-◌, ◌^◌, bit_and, bit_or, Bool, true, false, not, ◌||◌}
use openct.Prelude.{Option, none, some, List, [], ◌∷◌, get_or, ltb, ◌==◌, if◌then◌else◌}
use openct.Prelude.Outcome.{Error, Outcome, ok, err}
use openct.Utils.{count_bits}

pub record Info : Type 0 where
  pub ta : List (Option ℕ)
  pub tb : List (Option ℕ)
  pub tc : List (Option ℕ)
  pub supported : ℕ
  pub default_protocol : Option ℕ

-- A write into an array of four.
abbrev pub set_at : List (Option ℕ) → ℕ → ℕ → List (Option ℕ)
set_at [] m v = []
set_at (x ∷ xs) zero v = some v ∷ xs
set_at (x ∷ xs) (suc m) v = x ∷ set_at xs m v

-- `memset`, and the loop over the first three of four entries.
abbrev pub no_bytes : List (Option ℕ)
no_bytes = none ∷ none ∷ none ∷ some 0 ∷ []

abbrev pub blank : Info
blank = record {
  ta = no_bytes;
  tb = no_bytes;
  tc = no_bytes;
  supported = 0;
  default_protocol = none;
}

abbrev pub is_set : ℕ → ℕ → Bool
is_set byte mask = not (bit_and byte mask == 0)

-- A TD byte after the first names a protocol; the first that does is the default.
pub add_protocol : Info → ℕ → Info
add_protocol info td =
    let prot = bit_and td 0x0f in
    record info {
      default_protocol = elim info.default_protocol [ none ↦ some prot | some p ↦ some p ];
      supported = bit_or info.supported (2 ^ prot);
    }

-- The loop goes on at the index, has ended with so much of `len`, or fails.
pub data Round : Type 0 where
  again : Info → ℕ → Round
  stop : Info → Round
  bad : Round

-- The interface bytes that `td` announces: `if (TDi & 0x10) info->TA[m] = atr[n++];` and so on, and
-- the index behind them.
pub take_bytes : Info → List ℕ → ℕ → ℕ → ℕ → Info × ℕ
take_bytes info atr td m n =
    let n1 = if is_set td 0x10 then n + 1 else n in
    let n2 = if is_set td 0x20 then n1 + 1 else n1 in
    let n3 = if is_set td 0x40 then n2 + 1 else n2 in
    (
      record info {
        ta = if is_set td 0x10 then set_at info.ta m (get_or atr n 0) else info.ta;
        tb = if is_set td 0x20 then set_at info.tb m (get_or atr n1 0) else info.tb;
        tc = if is_set td 0x40 then set_at info.tc m (get_or atr n2 0) else info.tc;
      },
      n3,
    )

-- What follows the interface bytes: another round behind the next TD byte, or the end, less the check
-- byte.
pub round_end : Info → ℕ → ℕ → ℕ → Round
round_end info td len n =
    if is_set td 0x80
    then again info (n + 1)
    else let len' = if info.supported == 0 || info.supported == 1 then len else len - 1 in
      if ltb n len' then bad else stop info

pub round : Info → List ℕ → ℕ → ℕ → ℕ → Round
unfolding add_protocol take_bytes round_end
round info atr len m n =
    let td = get_or atr (n - 1) 0 in
    let info1 = if n == 2 then info else add_protocol info td in
    let k = count_bits (bit_and td 0xF0) in
    let (info2, n2) = take_bytes info1 atr td m n in
    if k == 0 || ltb len (n + k) then bad else round_end info2 td len n2

-- `left` counts the groups that may still come, and `m` those that came.
pub groups : ℕ → Info → List ℕ → ℕ → ℕ → ℕ → Outcome Info
groups zero info atr len m n = if ltb n len then err Error.invalid_atr else ok info
groups (suc left) info atr len m n = elim (ltb n len) [
  | false ↦ ok info
  | true ↦ elim (round info atr len m n) [
    | bad ↦ err Error.invalid_atr
    | stop info' ↦ ok info'
    | again info' n' ↦ groups left info' atr len (m + 1) n'
  ]
]

-- T=0 where no protocol was named.
unfoldable pub or_t0 : Info → Info
or_t0 info =
    if info.supported == 0 then record info { supported = 1; default_protocol = some 0 } else info

pub parse : List ℕ → ℕ → Outcome Info
unfolding or_t0 groups
parse atr len =
    let historical = bit_and (get_or atr 1 0) 0x0f in
    if ltb len (2 + historical)
    then err Error.invalid_atr
    else elim (groups 4 blank atr (len - historical) 0 2) [
      | err e ↦ err e
      | ok info ↦ ok (or_t0 info)
    ]

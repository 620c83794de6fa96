-- ===== src/Apdu.antt =====
-- The command APDUs of src/ifd/apdu.c: which of the four short cases a command is, and its parts.
pub mod Encoding
mod Runs
use openct.Prelude.{ℕ, ◌+◌, ◌-◌, Option, none, some, List, [], drop, get_or, ltb, ◌==◌}
use openct.Prelude.{if◌then◌else◌}
use openct.Prelude.Memory.{u8}

pub data Case : Type 0 where
  case_1 case_2s case_3s case_4s : Case

-- `data` is the bytes from where the pointer points; `len` counts those of the command.
pub record Iso : Type 0 where
  pub cse : Case
  pub cla : ℕ
  pub ins : ℕ
  pub p1 : ℕ
  pub p2 : ℕ
  pub lc : ℕ
  pub le : ℕ
  pub sw : ℕ
  pub data_at : List ℕ
  pub len : ℕ

-- `memset(iso, 0, sizeof(*iso))`
abbrev pub blank : Iso
blank = record {
  cse = case_1;
  cla = 0;
  ins = 0;
  p1 = 0;
  p2 = 0;
  lc = 0;
  le = 0;
  sw = 0;
  data_at = [];
  len = 0;
}

-- A length byte, where zero means 256.
abbrev pub or_256 : ℕ → ℕ
or_256 b = if b == 0 then 256 else b

unfoldable pub check : List ℕ → ℕ → Option Iso
check buf size =
    let b = get_or buf 4 0 in
    let len = size - 5 in
    let from = drop 5 buf in
    let with_data = record blank { lc = or_256 b; len = len; data_at = from } in
    if ltb size 5
    then some (record blank { cse = case_1 })
    else if len == 0
    then some (record blank { cse = case_2s; le = or_256 b })
    else if len == or_256 b
    then some (record with_data { cse = case_3s })
    else if len == or_256 b + 1
    then some
        (record with_data { cse = case_4s; le = or_256 (get_or from (or_256 b) 0); len = len - 1 })
    else none

-- `none` is -1.
pub apdu_case : List ℕ → ℕ → Option Case
unfolding check
apdu_case buf size = elim (check buf size) [ none ↦ none | some iso ↦ some iso.cse ]

unfoldable pub iso_parse : List ℕ → ℕ → Option Iso
unfolding check
iso_parse buf size = if ltb size 4 then none else elim (check buf size) [
  | none ↦ none
  | some iso ↦ some (record iso {
    cla = get_or buf 0 0;
    ins = get_or buf 1 0;
    p1 = get_or buf 2 0;
    p2 = get_or buf 3 0;
  })
]

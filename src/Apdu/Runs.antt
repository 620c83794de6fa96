-- ===== src/Apdu/Runs.antt =====
-- Runs of the APDU analysis, and its theorems at concrete inputs.
use openct.Prelude.{
  ℕ, ◌+◌, ◌≡◌, ◌≢◌, ◌<◌, ◌↔◌, ◌⊎◌, refl, arith, none, some, List, [], ◌∷◌, take, get_or,
}
use openct.Apdu.{Iso, case_4s, or_256, iso_parse, apdu_case, check}
use openct.Apdu.Encoding.{Command, iso_parse-encode, iso_parse_refuses}

-- SELECT FILE with two bytes of data, and room for any answer.
abbrev select : Command
select = record { cla = 0; ins = 0xa4; p1 = 0; p2 = 0; body = 0x3f ∷ 0 ∷ []; expected = 256 }

abbrev select_bytes : List ℕ
select_bytes = 0 ∷ 0xa4 ∷ 0 ∷ 0 ∷ 2 ∷ 0x3f ∷ 0 ∷ 0 ∷ []

select_case : apdu_case select_bytes 8 ≡ some case_4s
unfolding apdu_case check
select_case = refl

iso_parse-encode_example :
    (iso : Iso) × (iso_parse select_bytes 8 ≡ some iso)
    × (iso.cse ≡ case_4s)
    × ((iso.cla ≡ 0) × (iso.ins ≡ 0xa4) × (iso.p1 ≡ 0) × (iso.p2 ≡ 0))
    × (iso.lc ≡ 2)
    × (iso.le ≡ 256)
    × (take iso.len iso.data_at ≡ 0x3f ∷ 0 ∷ [])
iso_parse-encode_example = iso_parse-encode select (omega arith, omega arith)

iso_parse_refuses_example : iso_parse select_bytes 6 ≡ none ↔ (
    (6 < 4)
    ⊎ ((5 < 6)
        × (6 ≢ 5 + or_256 (get_or select_bytes 4 0))
        × (6 ≢ 6 + or_256 (get_or select_bytes 4 0))))
iso_parse_refuses_example = iso_parse_refuses select_bytes 6

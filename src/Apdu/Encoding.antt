-- ===== src/Apdu/Encoding.antt =====
-- The coding of short commands by ISO 7816-4, which src/ifd/apdu.c takes apart.
use openct.Prelude.{
  All, All-drop, get_or-All, drop, ℕ, zero, suc, ◌+◌, ◌≤◌, ◌<◌, ◌≡◌, ◌≢◌, ◌↔◌, ◌⊎◌, refl, arith,
}
use openct.Prelude.{none, some, List, [], ◌∷◌, ◌++◌, length, take, get_or}
use openct.Prelude.{take-append, length-append, append-nil}
use openct.Prelude.Memory.{u8}
use openct.Apdu.{Case, case_1, case_2s, case_3s, case_4s, Iso, or_256, check, iso_parse}

-- A command: its header, its data, and how many bytes of response it expects.
pub record Command : Type 0 where
  pub cla : ℕ
  pub ins : ℕ
  pub p1 : ℕ
  pub p2 : ℕ
  pub body : List ℕ
  pub expected : ℕ

abbrev pub IsShort : Command → Type 0
IsShort c = (length c.body ≤ 256) × (c.expected ≤ 256)

-- No byte for none, and a zero for 256.
abbrev pub trailer : ℕ → List ℕ
trailer zero = []
trailer (suc n) = u8 (suc n) ∷ []

abbrev pub lead : List ℕ → List ℕ
lead [] = []
lead (b ∷ bs) = u8 (length (b ∷ bs)) ∷ b ∷ bs

abbrev pub encode : Command → List ℕ
encode c = c.cla ∷ c.ins ∷ c.p1 ∷ c.p2 ∷ lead c.body ++ trailer c.expected

abbrev pub kind : List ℕ → ℕ → Case
kind [] zero = case_1
kind [] (suc n) = case_2s
kind (b ∷ bs) zero = case_3s
kind (b ∷ bs) (suc n) = case_4s

or_256-u8 : (n : ℕ) → n ≢ 0 → n ≤ 256 → or_256 (u8 n) ≡ n
or_256-u8 n ne h = ground arith

get_or-append : (xs : List ℕ) (y : ℕ) → get_or (xs ++ y ∷ []) (length xs) 0 ≡ y
get_or-append [] y = refl
get_or-append (x ∷ xs) y = ground (arith, get_or-append xs y)

-- What `data` points to.
abbrev pub pointed : List ℕ → ℕ → List ℕ
pointed [] n = []
pointed (b ∷ bs) n = (b ∷ bs) ++ trailer n

abbrev pub parts : Command → Iso
parts c = record {
  cse = kind c.body c.expected;
  cla = c.cla;
  ins = c.ins;
  p1 = c.p1;
  p2 = c.p2;
  lc = length c.body;
  le = c.expected;
  sw = 0;
  data_at = pointed c.body c.expected;
  len = length c.body;
}

iso_parse_lem :
    (cla ins p1 p2 : ℕ) (body : List ℕ) (n : ℕ)
    → length body ≤ 256
    → n ≤ 256
    → let c : Command = record {
      cla = cla;
      ins = ins;
      p1 = p1;
      p2 = p2;
      body = body;
      expected = n;
    } in
      iso_parse (encode c) (length (encode c)) ≡ some (parts c)
unfolding iso_parse check
iso_parse_lem cla ins p1 p2 [] zero few le = refl
iso_parse_lem cla ins p1 p2 [] (suc n) few le = ground (arith, or_256-u8 (suc n))
iso_parse_lem cla ins p1 p2 (b ∷ bs) zero few le =
    ground (arith, or_256-u8 (suc (length bs)), append-nil bs)
iso_parse_lem cla ins p1 p2 (b ∷ bs) (suc n) few le = ground (
  arith,
  or_256-u8 (suc (length bs)),
  or_256-u8 (suc n),
  length-append bs (u8 (suc n) ∷ []),
  get_or-append (b ∷ bs) (u8 (suc n)),
)

-- A command of at most 256 bytes of data that expects at most 256 bytes, coded by the standard, is
-- taken apart into its parts, with the case that goes with them.
pub iso_parse-encode :
    (c : Command)
    → IsShort c
    → (iso : Iso) × (iso_parse (encode c) (length (encode c)) ≡ some iso)
      × (iso.cse ≡ kind c.body c.expected)
      × ((iso.cla ≡ c.cla) × (iso.ins ≡ c.ins) × (iso.p1 ≡ c.p1) × (iso.p2 ≡ c.p2))
      × (iso.lc ≡ length c.body)
      × (iso.le ≡ c.expected)
      × (take iso.len iso.data_at ≡ c.body)
iso_parse-encode c s = (
  parts c,
  iso_parse_lem c.cla c.ins c.p1 c.p2 c.body c.expected s.0 s.1,
  refl,
  (refl, refl, refl, refl),
  refl,
  refl,
  whole c.body,
)
  where
    whole : (bs : List ℕ) → take (length bs) (pointed bs c.expected) ≡ bs
    whole [] = refl
    whole (b ∷ bs) = take-append (suc (length bs)) (b ∷ bs) (trailer c.expected) refl

-- A command is refused exactly when it has fewer than four bytes, or when it has more than five and its
-- length is neither that of the data announced nor one more.
pub iso_parse_refuses :
    (buf : List ℕ) (size : ℕ)
    → iso_parse buf size ≡ none ↔ (
        (size < 4)
        ⊎ ((5 < size)
            × (size ≢ 5 + or_256 (get_or buf 4 0))
            × (size ≢ 6 + or_256 (get_or buf 4 0))))
unfolding iso_parse check
iso_parse_refuses buf size = ground arith

or_256-le : (b : ℕ) → b < 256 → or_256 b ≤ 256
or_256-le b h = ground arith

-- No more than 256 bytes are expected.
pub iso_parse-le :
    (buf : List ℕ) (size : ℕ) (iso : Iso)
    → All (λ b. b < 256) buf
    → iso_parse buf size ≡ some iso
    → iso.le ≤ 256
unfolding iso_parse check
iso_parse-le buf size iso bytes e =
    let short = λ (bs : List ℕ) (i : ℕ) (h : All (λ b. b < 256) bs).
      or_256-le (get_or bs i 0) (get_or-All (λ b. b < 256) i bs 0 h (omega arith)) in
    ground (
      arith,
      e,
      short buf 4 bytes,
      short (drop 5 buf) (or_256 (get_or buf 4 0)) (All-drop (λ b. b < 256) 5 buf bytes),
    )

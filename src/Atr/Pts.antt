-- ===== src/Atr/Pts.antt =====
-- Protocol type selection of src/ifd/atr.c: the request, the card's answer, and when it is complete.
pub mod Echo
use openct.Prelude.{ℕ, zero, suc, ◌+◌, ◌-◌, ◌^◌, bit_and, bit_or, bit_xor, Bool, true, false, not}
use openct.Prelude.{◌&&◌, ◌||◌, Option, none, some, List, [], ◌∷◌, ◌++◌, length, take, get_or, ltb}
use openct.Prelude.{◌==◌, if◌then◌else◌}
use openct.Prelude.Memory.{u8}
use openct.Prelude.Outcome.{Error, Outcome, ok, err}
use openct.Utils.{count_bits}
use openct.Atr.{Info, is_set, set_at}

-- `info->TA[0]`, and the like.
abbrev pub first : List (Option ℕ) → Option ℕ
first [] = none
first (x ∷ xs) = x

abbrev pub is_255 : Option ℕ → Bool
is_255 none = false
is_255 (some v) = v == 255

abbrev pub is_some : Option ℕ → Bool
is_some none = false
is_some (some v) = true

abbrev pub ta_byte : Option ℕ → List ℕ
ta_byte none = []
ta_byte (some v) = u8 v ∷ []

-- `for (n = 0, pck = 0; n < ptslen; n++) pck ^= ptsbuf[n];`
unfoldable pub pck_loop : ℕ → List ℕ → ℕ
pck_loop pck [] = pck
pck_loop pck (b ∷ bs) = pck_loop (bit_xor pck b) bs

-- The bytes before the check byte.
abbrev pub pts_head : Info → ℕ → List ℕ
pts_head info protocol =
    let p = u8 protocol in
    let p1 = if is_some (first info.ta) then bit_or p 0x10 else p in
    let p2 = if is_255 (first info.tc) then bit_or p1 0x20 else p1 in
    0xFF ∷ p2 ∷ (ta_byte (first info.ta) ++ (if is_255 (first info.tc) then 1 ∷ [] else []))

-- The bytes of the request, for a buffer of `len` bytes.
unfoldable pub build_pts : Info → ℕ → ℕ → Outcome (List ℕ)
unfolding pck_loop
build_pts info protocol len =
    let pts = pts_head info protocol ++ pck_loop 0 (pts_head info protocol) ∷ [] in
    if bit_and info.supported (2 ^ protocol) == 0
    then err Error.not_supported
    else if ltb len (length pts)
    then err Error.buffer_too_small
    else ok pts

-- `ptsr`, and the index behind the parameters, from parameter `i` and index `n` on; `left` is 3 - i.
pub ptsr_loop : ℕ → ℕ → ℕ → List ℕ → ℕ → List (Option ℕ) → List (Option ℕ) × ℕ
ptsr_loop zero i n buf len ptsr = (ptsr, n)
ptsr_loop (suc left) i n buf len ptsr = elim (ltb n (len - 1)) [
  | false ↦ (ptsr, n)
  | true ↦ elim (is_set (get_or buf 1 0) (2 ^ (i + 4))) [
    | true ↦ ptsr_loop left (i + 1) (n + 1) buf len (set_at ptsr i (get_or buf n 0))
    | false ↦ ptsr_loop left (i + 1) n buf len ptsr
  ]
]

abbrev pub second : List (Option ℕ) → Option ℕ
second [] = none
second (x ∷ xs) = first xs

-- `info->TA[0] = -1`
abbrev pub forget_ta : Info → Info
forget_ta info = record info { ta = elim info.ta [ [] ↦ [] | x ∷ xs ↦ none ∷ xs ] }

abbrev pub same_byte : Option ℕ → Option ℕ → Bool
same_byte none none = true
same_byte none (some b) = false
same_byte (some a) none = false
same_byte (some a) (some b) = a == b

-- `ptsr[1] == -1 || (ptsr[1] & 1) == 0`
abbrev pub is_refused : Option ℕ → Bool
is_refused none = true
is_refused (some v) = bit_and v 1 == 0

-- The tests on the parameters of the answer.
pub check_params : Info → List (Option ℕ) → Info × Outcome (Unit {0})
check_params info ptsr =
    let info' =
      if is_some (first info.ta) && not (same_byte (first ptsr) (first info.ta))
      then forget_ta info
      else info in
    if is_255 (first info'.tc) && is_refused (second ptsr)
    then (info', err Error.incompatible_device)
    else (info', ok tt)

pub verify_pts : Info → List ℕ → ℕ → Info × Outcome (Unit {0})
unfolding pck_loop ptsr_loop check_params
verify_pts info buf len =
    let (ptsr, n) = ptsr_loop 3 0 2 buf len (none ∷ none ∷ none ∷ []) in
    if ltb len 3
    then (info, err Error.buffer_too_small)
    else if not (get_or buf 0 0 == 0xFF)
    then (info, err Error.incompatible_device)
    else if not (pck_loop 0 (take len buf) == 0)
    then (info, err Error.comm_error)
    else if ltb n (len - 1)
    then (info, err Error.incompatible_device)
    else check_params info ptsr

-- `j = +ifd_count_bits(...)` assigns, where the sign stands for `+=`.
pub pts_complete : List ℕ → ℕ → Bool
pts_complete pts len =
    let j = count_bits (bit_and (get_or pts 1 0) 0x70) + 1 in
    if ltb len 2 then false else not (ltb len j)

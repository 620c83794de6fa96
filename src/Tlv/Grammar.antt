-- ===== src/Tlv/Grammar.antt =====
-- The coding itself, apart from buffers and pointers: which bytes are which list of items.
use openct.Prelude.{ℕ, ◌+◌, ◌*◌, ◌/◌, ◌%◌, ◌<◌, ◌≡◌}
use openct.Prelude.{Option, some, List, [], ◌∷◌, ◌++◌, length, ◌==◌, if◌then◌else◌}

-- A tag and its value.
abbrev pub Item : Type 0
Item = ℕ × List ℕ

-- A tag byte whose flag bit 6 is not set.
abbrev pub IsTag : ℕ → Type 0
IsTag t = (t < 256) × (t / 64 % 2 ≡ 0)

-- The bytes on the left are the items on the right. An item with the flag has two length bytes, most
-- significant first, any other has one; no value is empty.
pub data Encodes : List ℕ → List Item → Type 0 where
  nil : Encodes [] []
  small :
      (t : ℕ) (v rest : List ℕ) (items : List Item) (bs : List ℕ)
      → bs ≡ t ∷ length v ∷ (v ++ rest)
      → IsTag t
      → 0 < length v
      → length v < 256
      → Encodes rest items
      → Encodes bs ((t, v) ∷ items)
  large :
      (t : ℕ) (v rest : List ℕ) (items : List Item) (bs : List ℕ)
      → bs ≡ (t + 64) ∷ (length v / 256) ∷ (length v % 256) ∷ (v ++ rest)
      → IsTag t
      → 0 < length v
      → length v < 256 * 256
      → Encodes rest items
      → Encodes bs ((t, v) ∷ items)

-- The value of a tag is that of its last item.
abbrev pub find_last : ℕ → List Item → Option (List ℕ) → Option (List ℕ)
find_last tag [] found = found
find_last tag ((t, v) ∷ items) found = find_last tag items (if tag == t then some v else found)

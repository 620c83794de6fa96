-- ===== src/Atr/Encoding.antt =====
-- The coding of an answer to reset by ISO 7816-3, which src/ifd/atr.c takes apart.
use openct.Prelude.{ℕ, ◌+◌, ◌-◌, ◌^◌, ◌<◌, ◌≡◌, ◌≢◌}
use openct.Prelude.{bit_and, bit_or, true, false, ◌||◌, Option, none, some, List, [], ◌∷◌}
use openct.Prelude.{◌++◌, length, ◌==◌, if◌then◌else◌, arith, length-append}
use openct.Prelude.Masks.{mask_0f, mask_10, mask_20, mask_40, mask_80}
use openct.Utils.{count_bits}
use openct.Utils.Counts.{count_f0}
use openct.Atr.{Info, set_at, is_set}
use openct.Atr.{blank}

-- The interface bytes of one group.
pub record Group : Type 0 where
  pub a : Option ℕ
  pub b : Option ℕ
  pub c : Option ℕ

abbrev pub one : Option ℕ → List ℕ
one none = []
one (some v) = v ∷ []

abbrev pub group_bytes : Group → List ℕ
group_bytes g = one g.a ++ (one g.b ++ one g.c)

abbrev pub flag : Option ℕ → ℕ → ℕ
flag none k = 0
flag (some v) k = k

-- Each further group is announced with a protocol.
abbrev pub Chain : Type 0
Chain = List (ℕ × Group)

-- The upper four bits of the byte that announces a group.
abbrev pub more : Chain → ℕ
more [] = 0
more (x ∷ xs) = 128

abbrev pub upper : Group → Chain → ℕ
upper g rest = flag g.a 16 + flag g.b 32 + flag g.c 64 + more rest

abbrev pub chain_bytes : Group → Chain → List ℕ
chain_bytes g [] = group_bytes g
chain_bytes g ((p, g') ∷ rest) = group_bytes g ++ (p + upper g' rest) ∷ chain_bytes g' rest

-- What the groups say, from group `m` on.
abbrev pub note : List (Option ℕ) → ℕ → Option ℕ → List (Option ℕ)
note xs m none = xs
note xs m (some v) = set_at xs m v

abbrev pub fill : Info → ℕ → Group → Info
fill info m g = record info {
  ta = note info.ta m g.a;
  tb = note info.tb m g.b;
  tc = note info.tc m g.c;
}

abbrev pub name_protocol : Info → ℕ → Info
name_protocol info p = record info {
  default_protocol = elim info.default_protocol [ none ↦ some p | some q ↦ some q ];
  supported = bit_or info.supported (2 ^ p);
}

abbrev pub learn : Info → ℕ → Group → Chain → Info
learn info m g [] = fill info m g
learn info m g ((p, g') ∷ rest) = learn (name_protocol (fill info m g) p) (m + 1) g' rest

-- A protocol is four bits, and the last byte that announces a group does not announce nothing.
abbrev pub IsCoded : Group → Chain → Type 0
IsCoded g [] = upper g [] ≢ 0
IsCoded g ((p, g') ∷ rest) = (p < 16) × IsCoded g' rest

-- A byte that announces a group, read back.
pub record Announces (td : ℕ) (p : ℕ) (g : Group) (rest : Chain) : Type 0 where
  pub proto : bit_and td 0x0f ≡ p
  pub has_a : is_set td 0x10 ≡ (elim g.a [ none ↦ false | some _ ↦ true ])
  pub has_b : is_set td 0x20 ≡ (elim g.b [ none ↦ false | some _ ↦ true ])
  pub has_c : is_set td 0x40 ≡ (elim g.c [ none ↦ false | some _ ↦ true ])
  pub goes_on : is_set td 0x80 ≡ (elim rest [ [] ↦ false | _ ↦ true ])
  pub count : count_bits (bit_and td 0xF0) ≡ length (group_bytes g) + (elim rest [ [] ↦ 0 | _ ↦ 1 ])

pub upper-Announces :
    (p : ℕ) (g : Group) (rest : Chain) → p < 16 → Announces (p + upper g rest) p g rest
upper-Announces p g rest lt =
    let t = p + upper g rest in
    ground (arith, small, mask_0f t, mask_10 t, mask_20 t, mask_40 t, mask_80 t, count_f0 t)
  where
    small : p + upper g rest < 256
    small = ground arith

-- Everything that an announced group says is in the next state.
unfoldable pub named : ℕ → Info → ℕ → Info
named n info p = if n == 2 then info else name_protocol info p

-- Whether a check byte follows, by the protocols that are named.
abbrev pub check_bytes : ℕ → ℕ
check_bytes supported = if supported == 0 || supported == 1 then 0 else 1

-- An answer to reset. `check` is sent where a protocol other than T=0 is named.
pub record Answer : Type 0 where
  pub ts : ℕ
  pub head : Group
  pub rest : Chain
  pub historical : List ℕ
  pub check : ℕ

-- What the groups say together.
abbrev pub content : Answer → Info
content a = learn blank 0 a.head a.rest

abbrev pub trailer : Answer → List ℕ
trailer a = if check_bytes (content a).supported == 0 then [] else a.check ∷ []

abbrev pub encode : Answer → List ℕ
encode a =
    a.ts
    ∷ (length a.historical + upper a.head a.rest)
    ∷ (chain_bytes a.head a.rest ++ (a.historical ++ trailer a))

-- The interface bytes, and the check byte.
pub length-encode :
    (a : Answer)
    → length (encode a) - length a.historical
      ≡ 2 + length (chain_bytes a.head a.rest) + check_bytes (content a).supported
length-encode a = ground (
  arith,
  length-append (chain_bytes a.head a.rest) (a.historical ++ trailer a),
  length-append a.historical (trailer a),
)

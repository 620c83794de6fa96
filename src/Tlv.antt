-- ===== src/Tlv.antt =====
-- The tag-length-value coding of src/ct/tlv.c and src/include/openct/tlv.h, in which clients and the
-- handler exchange arguments and results.
--
-- A parser holds for each tag a pointer into the parsed buffer, here an offset into its array
-- (`none` for NULL), and a length; the readers take that array. A builder writes into a `ct_buf_t`,
-- and keeps in `lenp` the place of the length bytes of the item at hand.
pub mod Grammar
pub mod Parse
pub mod Build
pub mod RoundTrip
pub mod Integers
pub mod Received
mod Runs
use openct.Prelude.{ℕ, zero, suc, ◌+◌, ◌-◌, ◌*◌, ◌/◌, ◌%◌, ◌^◌, bit_and, bit_or, min}
use openct.Prelude.{Bool, true, false, not, ◌||◌, Option, none, some, List, [], ◌∷◌, ◌++◌}
use openct.Prelude.{ltb, ◌==◌, if◌then◌else◌, length, take, drop, get_or, replicate}
use openct.Prelude.Memory.{u8, u32, add32, load, store}
use openct.Buffer.{Buf, Source, avail}
use openct.Buffer

-- `__CT_TAG_LARGE`
abbrev pub tag_large : ℕ
tag_large = 0x40

pub record Parser : Type 0 where
  pub use_large_tags : Bool
  pub val : ℕ → Option ℕ
  pub len : ℕ → ℕ

-- `memset(&args, 0, sizeof(args))`, which the handler does first; the client library does not.
abbrev pub no_items : Parser
no_items = record { use_large_tags = false; val = λ _. none; len = λ _. 0 }

abbrev pub assign {ℓ} : {A : Type ℓ} → (ℕ → A) → ℕ → A → ℕ → A
assign f k v j = if j == k then v else f j

-- What a round of the loop reads at `p`: the tag with its flag, and the length.
pub record Header : Type 0 where
  pub large : Bool
  pub tag : ℕ
  pub size : ℕ
  pub len : ℕ

-- `none` where the code returns -1. The list is the memory from `p` on.
unfoldable pub header : ℕ → List ℕ → Option Header
header room p =
    let tag = get_or p 0 0 in
    let len = get_or p 1 0 in
    if ltb room 2
    then none
    else if bit_and tag tag_large == 0
    then some (record { large = false; tag = tag; size = 2; len = len })
    else if ltb room 3
    then none
    else some (record {
      large = true;
      tag = bit_and tag 0xbf;
      size = 3;
      len = u32 (bit_or (u32 (len * 2 ^ 8)) (get_or p 2 0));
    })

-- How the loop ends: the buffer is used up (0), or malformed (-1). `stuck` is out of fuel.
pub data Parsed : Type 0 where
  done : Parser → Buf → Parsed
  malformed : Parsed
  stuck : Parsed

unfoldable pub store_item : Parser → Buf → Header → Parser
store_item p bp h = record {
  use_large_tags = h.large || p.use_large_tags;
  val = assign p.val h.tag (some (bp.head + h.size));
  len = assign p.len h.tag h.len;
}

unfoldable pub parse_loop : ℕ → Parser → Buf → Parsed
parse_loop zero p bp = if avail bp == 0 then done p bp else stuck
parse_loop (suc fuel) p bp = elim (avail bp == 0) [
  | true ↦ done p bp
  | false ↦ elim (header (avail bp) (drop bp.head bp.base)) [
    | none ↦ malformed
    | some h ↦ elim (h.len == 0 || ltb (avail bp) (h.size + h.len)) [
      | true ↦ malformed
      | false ↦ parse_loop fuel (store_item p bp h) (Buffer.get bp (h.size + h.len)).0
    ]
  ]
]

-- Each round takes three bytes at least.
unfoldable pub parse : Parser → Buf → Parsed
parse p bp = parse_loop (avail bp) p bp

unfoldable pub get_opaque : Parser → List ℕ → ℕ → Option (List ℕ)
get_opaque p mem tag = elim (p.val tag) [ none ↦ none | some at ↦ some (load mem at (p.len tag)) ]

unfoldable pub get_bytes : Parser → List ℕ → ℕ → ℕ → Option (List ℕ)
get_bytes p mem tag size = elim (p.val tag) [
  | none ↦ none
  | some at ↦ some (load mem at (if ltb size (p.len tag) then size else p.len tag))
]

-- `while (len--) { *value <<= 8; *value |= *p++; }`
unfoldable pub int_value : ℕ → List ℕ → ℕ
int_value value [] = value
int_value value (b ∷ bs) = int_value (bit_or (u32 (value * 2 ^ 8)) b) bs

-- The value is 0 where the tag is missing.
unfoldable pub get_int : Parser → List ℕ → ℕ → Option ℕ
get_int p mem tag = elim (p.val tag) [
  | none ↦ none
  | some at ↦ some (int_value 0 (load mem at (p.len tag)))
]

-- `strncpy(buf, p, len)`: stops after a NUL, and fills up with NULs.
pub copy_string : List ℕ → List ℕ
copy_string [] = []
copy_string (c ∷ cs) = if c == 0 then replicate (suc (length cs)) 0 else c ∷ copy_string cs

-- The list is what stands in `buf` afterwards, its NUL included.
unfoldable pub get_string : Parser → List ℕ → ℕ → ℕ → Option (List ℕ)
get_string p mem tag size = elim (p.val tag) [
  | none ↦ none
  | some at ↦
      let room = (size + 2 ^ 64 - 1) % 2 ^ 64 in
      let len = if ltb room (p.len tag) then room else p.len tag in
      some (copy_string (load mem at len) ++ (0 ∷ []))
]

pub record Builder : Type 0 where
  pub error : Bool
  pub use_large_tags : Bool
  pub buf : Buf
  pub len : ℕ
  pub lenp : Option ℕ

unfoldable pub builder_init : Buf → Bool → Builder
builder_init bp large_tags = record {
  error = false;
  use_large_tags = large_tags;
  buf = bp;
  len = 0;
  lenp = none;
}

-- The rest of `ct_tlv_put_tag` after the tag byte: zeros in the place of the length.
unfoldable pub put_length : Builder → Builder
put_length r =
    let (b1, first) = Buffer.putc r.buf 0 in
    let (b2, second) = Buffer.putc b1 0 in
    elim first [
      | none ↦ record r { buf = b1; error = true }
      | some _ ↦
          if r.use_large_tags
          then elim second [
            | none ↦ record r { buf = b2; error = true }
            | some _ ↦ record r { buf = b2 }
          ]
          else record r { buf = b1 }
    ]

unfoldable pub put_tag : Builder → ℕ → Builder
put_tag r tag =
    let t = if r.use_large_tags then bit_or tag tag_large else tag in
    let (b1, put) = Buffer.putc r.buf t in
    if r.error then r else elim put [
      | none ↦ record r { buf = b1; error = true }
      | some _ ↦ put_length (record r { buf = b1; len = 0; lenp = some b1.tail })
    ]

-- The length bytes of the item, written at `at` once its bytes are in the buffer.
unfoldable pub patch_length : Builder → ℕ → Builder
patch_length r at =
    if r.use_large_tags
    then if ltb 65535 r.len then record r { error = true } else record r {
      buf = record r.buf { base = store r.buf.base at (u8 (r.len / 2 ^ 8) ∷ u8 r.len ∷ []) };
    }
    else if ltb 266 r.len
    then record r { error = true }
    else record r { buf = record r.buf { base = store r.buf.base at (u8 r.len ∷ []) } }

unfoldable pub add_bytes : Builder → List ℕ → Builder
add_bytes r bs =
    let (b1, put) = Buffer.put r.buf (Source.bytes bs) in
    let r1 = record r { len = add32 r.len (length bs); buf = b1 } in
    if r.error then r else elim r.lenp [
      | none ↦ record r { error = true }
      | some at ↦ elim put [ none ↦ record r1 { error = true } | some _ ↦ patch_length r1 at ]
    ]

unfoldable pub add_byte : Builder → ℕ → Builder
add_byte r byte = add_bytes r (u8 byte ∷ [])

unfoldable pub put_opaque : Builder → ℕ → List ℕ → Builder
put_opaque r tag bs = if r.error then r else record (add_bytes (put_tag r tag) bs) { lenp = none }

-- `string` without its NUL.
pub put_string : Builder → ℕ → List ℕ → Builder
put_string r tag string =
    if r.error then r else record (add_bytes (put_tag r tag) string) { lenp = none }

-- `for (n = 0; (value >> (n + 8)) != 0; n += 8) ;` in bytes, with the rounds left before a shift by
-- 32 bits, which C does not define: `none`.
unfoldable pub top_byte : ℕ → ℕ → ℕ → Option ℕ
top_byte zero value k = none
top_byte (suc left) value k =
    let rest = top_byte left value (k + 1) in
    if value / 2 ^ (8 * (k + 1)) == 0 then some k else rest

-- `do { ct_tlv_add_byte(builder, value >> n); n -= 8; } while (n >= 0);` from byte `k` down.
unfoldable pub add_int : ℕ → Builder → ℕ → Builder
add_int zero r value = add_byte r value
add_int (suc k) r value = add_int k (add_byte r (value / 2 ^ (8 * suc k))) value

-- `none` where the behaviour is undefined.
unfoldable pub put_int : Builder → ℕ → ℕ → Option Builder
put_int r tag value = if r.error then some r else elim (top_byte 3 value 0) [
  | none ↦ none
  | some k ↦ some (record (add_int k (put_tag r tag) value) { lenp = none })
]

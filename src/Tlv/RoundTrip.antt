-- ===== src/Tlv/RoundTrip.antt =====
-- What the builder of src/ct/tlv.c writes is what its parser reads, within the limits of the coding.
use openct.Prelude.{ℕ, ◌+◌, ◌-◌, ◌^◌, ◌≤◌, ◌<◌, ◌≡◌, refl, sym, ap, ◌∙◌}
use mathlib.Core.Path.{subst}
use openct.Prelude.{arith, Bool, true, false, none, List, [], ◌∷◌, ◌++◌, length, All}
use openct.Prelude.{append_assoc, append-nil, length-append}
use openct.Buffer.{Buf, contents, init}
use openct.Buffer.Inv.{IsValid, init-IsValid}
use openct.Tlv.{Builder, Parser, Parsed, builder_init, put_opaque}
use openct.Tlv.{parse, no_items, get_opaque}
use openct.Tlv.Grammar.{Item, IsTag, Encodes, find_last}
use openct.Tlv.Build.{Added, header_bytes, header_size, max_length, max_value, put_opaque-Added}
use openct.Tlv.Parse.{parse-Encodes}

-- A sequence of `ct_tlv_put_opaque` calls, and the bytes that it should write.
pub put_all : Builder → List Item → Builder
put_all r [] = r
put_all r ((t, v) ∷ items) = put_all (put_opaque r t v) items

abbrev pub encode : Bool → List Item → List ℕ
encode large [] = []
encode large ((t, v) ∷ items) = header_bytes large t (length v) ++ (v ++ encode large items)

-- What can be coded: a tag without the flag bit, and a value that is not empty and not too long.
abbrev pub IsItem : Bool → Item → Type 0
IsItem large (t, v) = IsTag t × (0 < length v) × (length v ≤ max_length large)

header-length : (large : Bool) (t n : ℕ) → length (header_bytes large t n) ≡ header_size large
header-length false t n = refl
header-length true t n = refl

max-le : (large : Bool) (n : ℕ) → n ≤ max_length large → n ≤ max_value large
max-le false n h = omega arith
max-le true n h = h

pub length-encode_cons :
    (large : Bool) (t : ℕ) (v : List ℕ) (items : List Item)
    → length (encode large ((t, v) ∷ items))
      ≡ header_size large + length v + length (encode large items)
length-encode_cons large t v items = omega (
  arith,
  length-append (header_bytes large t (length v)) (v ++ encode large items),
  length-append v (encode large items),
  header-length large t (length v),
)

Added-trans :
    {r r1 r2 : Builder} (large : Bool) (t : ℕ) (bs more : List ℕ)
    → Added r r1 (header_bytes large t (length bs) ++ bs)
    → Added r1 r2 more
    → Added r r2 (header_bytes large t (length bs) ++ (bs ++ more))
Added-trans {r} large t bs more first later = record {
  no_error = later.no_error;
  same_tags = later.same_tags ∙ first.same_tags;
  valid = later.valid;
  same_size = later.same_size ∙ first.same_size;
  longer = omega (
    arith,
    later.longer,
    first.longer,
    length-append hs bs,
    length-append hs (bs ++ more),
    length-append bs more,
  );
  added =
      later.added
      ∙ ap (λ x. x ++ more) first.added
      ∙ append_assoc (contents r.buf) (hs ++ bs) more
      ∙ ap (λ x. contents r.buf ++ x) (append_assoc hs bs more);
}
  where
    hs : List ℕ
    hs = header_bytes large t (length bs)

put_first :
    (r : Builder) (large : Bool) (t : ℕ) (bs : List ℕ)
    → r.error ≡ false
    → r.use_large_tags ≡ large
    → IsValid r.buf
    → IsTag t
    → r.buf.tail + (header_size large + length bs) ≤ r.buf.size
    → length bs ≤ max_value large
    → Added r (put_opaque r t bs) (header_bytes large t (length bs) ++ bs)
put_first r large t bs e s v it room lim =
    subst (λ l. Added r (put_opaque r t bs) (header_bytes l t (length bs) ++ bs)) s
      (put_opaque-Added r t bs e v it (rw s room) (rw s lim))

put_all-Added :
    (r : Builder) (large : Bool) (items : List Item)
    → r.error ≡ false
    → r.use_large_tags ≡ large
    → IsValid r.buf
    → All (IsItem large) items
    → r.buf.tail + length (encode large items) ≤ r.buf.size
    → Added r (put_all r items) (encode large items)
unfolding put_all
put_all-Added r large [] e s v h fits = record {
  no_error = e;
  same_tags = refl;
  valid = v;
  same_size = refl;
  longer = omega arith;
  added = sym (append-nil (contents r.buf));
}
put_all-Added r large ((t, bs) ∷ items) e s v h fits =
    let room : r.buf.tail + (header_size large + length bs) + length (encode large items)
        ≤ r.buf.size =
      omega (arith, fits, length-encode_cons large t bs items) in
    let first : Added r (put_opaque r t bs) (header_bytes large t (length bs) ++ bs) =
      put_first r large t bs e s v h.0.0 (omega (arith, room)) (max-le large (length bs) h.0.2) in
    Added-trans large t bs (encode large items) first (
      put_all-Added (put_opaque r t bs) large items first.no_error (first.same_tags ∙ s) first.valid
        h.1
        (omega (
          arith,
          room,
          first.longer,
          first.same_size,
          length-append (header_bytes large t (length bs)) bs,
          header-length large t (length bs),
        )))

pub Encodes-encode :
    (large : Bool) (items : List Item)
    → All (IsItem large) items
    → Encodes (encode large items) items
Encodes-encode large [] h = Encodes.nil
Encodes-encode false ((t, v) ∷ items) ((it, pos, lim), hs) =
    Encodes.small t v (encode false items) items _
      (ap (λ n. t ∷ n ∷ (v ++ encode false items)) (omega arith)) it pos (omega arith)
      (Encodes-encode false items hs)
Encodes-encode true ((t, v) ∷ items) ((it, pos, lim), hs) =
    Encodes.large t v (encode true items) items _ refl it pos (omega arith)
      (Encodes-encode true items hs)

-- Items that are put, one after the other, into a builder on an empty buffer with room for them are
-- all there without an error, and a parser of that buffer takes it to the end: every tag has the
-- value of its last item, and a tag that was not put has none.
pub parse-put_all :
    (mem : List ℕ) (size : ℕ) (large : Bool) (items : List Item)
    → size ≤ length mem
    → size < 2 ^ 31
    → All (IsItem large) items
    → length (encode large items) ≤ size
    → let r = put_all (builder_init (init mem size) large) items in
      (r.error ≡ false)
      × ((p : Parser) × (left : Buf) × (parse no_items r.buf ≡ Parsed.done p left)
          × (contents left ≡ [])
          × ((tag : ℕ) → get_opaque p r.buf.base tag ≡ find_last tag items none))
parse-put_all mem size large items fits small h room = (
  added.no_error,
  parse-Encodes (put_all start items).buf added.valid whole (Encodes-encode large items h),
)
  where
    start : Builder
    start = builder_init (init mem size) large

    added : Added start (put_all start items) (encode large items)
    added =
        put_all-Added start large items (unfold builder_init in refl) (unfold builder_init in refl)
          (unfold builder_init in init-IsValid mem size fits small) h
          (unfold init builder_init in omega (arith, room))

    whole : contents (put_all start items).buf ≡ encode large items
    whole = added.added ∙ unfold init builder_init in refl

-- Without large tags, a value of 256 to 266 bytes is written with no error, but its length byte says
-- 256 less than it has.
pub put_opaque-truncates :
    (r : Builder) (tag : ℕ) (bs : List ℕ)
    → r.error ≡ false
    → r.use_large_tags ≡ false
    → IsValid r.buf
    → IsTag tag
    → r.buf.tail + (2 + length bs) ≤ r.buf.size
    → 255 < length bs
    → length bs ≤ 266
    → let r' = put_opaque r tag bs in
      (r'.error ≡ false) × (contents r'.buf ≡ contents r.buf ++ (tag ∷ (length bs - 256) ∷ bs))
put_opaque-truncates r tag bs e s v it h lo hi =
    (a.no_error, a.added ∙ ap (λ n. contents r.buf ++ (tag ∷ n ∷ bs)) (omega arith))
  where
    a : Added r (put_opaque r tag bs) (header_bytes false tag (length bs) ++ bs)
    a = put_first r false tag bs e s v it h hi

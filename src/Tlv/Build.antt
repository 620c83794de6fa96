-- ===== src/Tlv/Build.antt =====
-- The builder of src/ct/tlv.c against the grammar: what one call appends to the buffer.
use openct.Prelude.{ℕ, ◌+◌, ◌-◌, ◌*◌, ◌/◌, ◌%◌, ◌≤◌, ◌<◌, ◌≡◌, refl}
use openct.Prelude.{ap, ◌∙◌, arith, Bool, true, false, none, some, List, [], ◌∷◌, ◌++◌}
use openct.Prelude.{length, if◌then◌else◌, Bool-cases, inl, inr}
use openct.Prelude.{append_assoc, length-append, bit_or}
use openct.Prelude.Bits.{agree_lem, agree}
use openct.Prelude.Memory.{store, u8, length-store}
use openct.Buffer.{Buf, contents}
use openct.Buffer.Inv.{IsValid, length-contents}
use openct.Buffer.Append.{grown, put_fits, putc_fits, grown-IsValid, contents-grown}
use openct.Buffer.Append.{contents-patch}
use openct.Tlv.{Builder, put_tag, put_length, add_bytes, patch_length, put_opaque}
use openct.Tlv.Grammar.{IsTag}

set_bit : (t : ℕ) → t < 256 → bit_or t 0x40 ≡ t + 64 - t / 64 % 2 * 64
unfolding agree
set_bit = agree_lem 256 (λ t. bit_or t 0x40) (λ t. t + 64 - t / 64 % 2 * 64) refl

-- The buffer when tag and length place are in it.
abbrev opened : Bool → Buf → ℕ → Buf
opened false b tag = grown (grown b (tag ∷ [])) (0 ∷ [])
opened true b tag = grown (grown (grown b ((tag + 64) ∷ [])) (0 ∷ [])) (0 ∷ [])

abbrev pub header_size : Bool → ℕ
header_size false = 2
header_size true = 3

put_tag_small :
    (r : Builder) (tag : ℕ)
    → r.error ≡ false
    → r.use_large_tags ≡ false
    → IsValid r.buf
    → IsTag tag
    → r.buf.tail + 2 ≤ r.buf.size
    → put_tag r tag
      ≡ record r { buf = opened false r.buf tag; len = 0; lenp = some (r.buf.tail + 1) }
unfolding put_tag put_length
put_tag_small r tag e sm v it h = ground (
  arith,
  putc_fits r.buf tag v,
  grown-IsValid r.buf (tag ∷ []) v (omega arith),
  putc_fits (grown r.buf (tag ∷ [])) 0 (grown-IsValid r.buf (tag ∷ []) v (omega arith)),
)

put_tag_large :
    (r : Builder) (tag : ℕ)
    → r.error ≡ false
    → r.use_large_tags ≡ true
    → IsValid r.buf
    → IsTag tag
    → r.buf.tail + 3 ≤ r.buf.size
    → put_tag r tag
      ≡ record r { buf = opened true r.buf tag; len = 0; lenp = some (r.buf.tail + 1) }
unfolding put_tag put_length
put_tag_large r tag e lg v it h =
    let b1 : Buf = grown r.buf ((tag + 64) ∷ []) in
    let b2 : Buf = grown b1 (0 ∷ []) in
    let v1 : IsValid b1 = grown-IsValid r.buf ((tag + 64) ∷ []) v (omega arith) in
    let v2 : IsValid b2 = grown-IsValid b1 (0 ∷ []) v1 (omega arith) in
    ground (arith, set_bit tag, putc_fits r.buf (tag + 64) v, putc_fits b1 0 v1, putc_fits b2 0 v2)

-- The bytes that stand for an item in front of its value.
abbrev pub header_bytes : Bool → ℕ → ℕ → List ℕ
header_bytes false tag n = tag ∷ n % 256 ∷ []
header_bytes true tag n = (tag + 64) ∷ n / 256 ∷ n % 256 ∷ []

-- The longest value that `ct_tlv_add_bytes` takes.
abbrev pub max_value : Bool → ℕ
max_value false = 266
max_value true = 65535

-- The longest value that the length bytes can tell.
abbrev pub max_length : Bool → ℕ
max_length false = 255
max_length true = 65535

-- What a call leaves when it succeeds.
pub record Added (r r' : Builder) (more : List ℕ) : Type 0 where
  pub no_error : r'.error ≡ false
  pub same_tags : r'.use_large_tags ≡ r.use_large_tags
  pub valid : IsValid r'.buf
  pub same_size : r'.buf.size ≡ r.buf.size
  pub longer : r'.buf.tail ≡ r.buf.tail + length more
  pub added : contents r'.buf ≡ contents r.buf ++ more

add_bytes_fits :
    (r : Builder) (at : ℕ) (bs : List ℕ)
    → r.error ≡ false
    → r.len ≡ 0
    → r.lenp ≡ some at
    → IsValid r.buf
    → r.buf.tail + length bs ≤ r.buf.size
    → length bs ≤ max_value r.use_large_tags
    → add_bytes r bs ≡ record r {
      len = length bs;
      buf = record (grown r.buf bs) {
        base = store (grown r.buf bs).base at (
            if r.use_large_tags
            then u8 (length bs / 256) ∷ u8 (length bs) ∷ []
            else u8 (length bs) ∷ []);
      };
    }
unfolding add_bytes patch_length
add_bytes_fits r at bs e z p v h lim = elim (Bool-cases r.use_large_tags) [
  | inl lg ↦ ground (arith, put_fits r.buf bs v, lim, lg)
  | inr sm ↦ ground (arith, put_fits r.buf bs v, lim, sm)
]

-- The item's bytes and then its length, written over the zeros.
finish :
    (b c : Buf) (t : ℕ) (zeros new bs : List ℕ)
    → IsValid b
    → IsValid c
    → contents c ≡ (contents b ++ (t ∷ [])) ++ zeros
    → length zeros ≡ length new
    → c.head ≡ b.head
    → c.tail + length bs ≤ c.size
    → let d = record (grown c bs) { base = store (grown c bs).base (b.tail + 1) new } in
      IsValid d × (contents d ≡ contents b ++ (t ∷ (new ++ bs)))
finish b c t zeros new bs vb vc e len hd fits = (
  omega (arith, grown-IsValid c bs vc fits, length-store (grown c bs).base (b.tail + 1) new),
  contents-patch (grown c bs) (b.tail + 1) (contents b ++ (t ∷ [])) zeros new bs whole len place
      ∙ append_assoc (contents b) (t ∷ []) (new ++ bs),
)
  where
    whole : contents (grown c bs) ≡ (contents b ++ (t ∷ [])) ++ (zeros ++ bs)
    whole =
        contents-grown c bs vc fits
        ∙ ap (λ s. s ++ bs) e
        ∙ append_assoc (contents b ++ (t ∷ [])) zeros bs

    place : b.tail + 1 ≡ c.head + length (contents b ++ (t ∷ []))
    place = omega (arith, hd, length-append (contents b) (t ∷ []), length-contents vb)

-- The tag byte and `zeros` after it.
opened-contents :
    (large : Bool) (b : Buf) (tag : ℕ)
    → IsValid b
    → b.tail + header_size large ≤ b.size
    → IsValid (opened large b tag)
      × (contents (opened large b tag)
          ≡ (contents b ++ ((if large then tag + 64 else tag) ∷ []))
            ++ (if large then 0 ∷ 0 ∷ [] else 0 ∷ []))
opened-contents false b tag v h =
    let b1 : Buf = grown b (tag ∷ []) in
    let v1 : IsValid b1 = grown-IsValid b (tag ∷ []) v (omega arith) in
    (
      grown-IsValid b1 (0 ∷ []) v1 (omega arith),
      contents-grown b1 (0 ∷ []) v1 (omega arith)
          ∙ ap (λ s. s ++ (0 ∷ [])) (contents-grown b (tag ∷ []) v (omega arith)),
    )
opened-contents true b tag v h =
    let b1 : Buf = grown b ((tag + 64) ∷ []) in
    let b2 : Buf = grown b1 (0 ∷ []) in
    let v1 : IsValid b1 = grown-IsValid b ((tag + 64) ∷ []) v (omega arith) in
    let v2 : IsValid b2 = grown-IsValid b1 (0 ∷ []) v1 (omega arith) in
    (
      grown-IsValid b2 (0 ∷ []) v2 (omega arith),
      contents-grown b2 (0 ∷ []) v2 (omega arith)
          ∙ ap (λ s. s ++ (0 ∷ []))
              (contents-grown b1 (0 ∷ []) v1 (omega arith)
                ∙ ap (λ s. s ++ (0 ∷ [])) (contents-grown b ((tag + 64) ∷ []) v (omega arith)))
          ∙ append_assoc (contents b ++ ((tag + 64) ∷ [])) (0 ∷ []) (0 ∷ []),
    )

-- The builder when `ct_tlv_put_opaque` is done.
abbrev finished : Bool → Builder → ℕ → List ℕ → List ℕ → Builder
finished large r tag new bs = record r {
  len = length bs;
  lenp = none;
  buf = record (grown (opened large r.buf tag) bs) {
    base = store (grown (opened large r.buf tag) bs).base (r.buf.tail + 1) new;
  };
}

put_opaque-small :
    (r : Builder) (tag : ℕ) (bs : List ℕ)
    → r.error ≡ false
    → r.use_large_tags ≡ false
    → IsValid r.buf
    → IsTag tag
    → r.buf.tail + (2 + length bs) ≤ r.buf.size
    → length bs ≤ 266
    → put_opaque r tag bs ≡ finished false r tag (length bs % 256 ∷ []) bs
unfolding put_opaque
put_opaque-small r tag bs e sm v it h lim =
    let r1 : Builder = record r {
      buf = opened false r.buf tag;
      len = 0;
      lenp = some (r.buf.tail + 1);
    } in
    let v1 : IsValid (opened false r.buf tag) =
      (opened-contents false r.buf tag v (omega arith)).0 in
    ground (
      arith,
      put_tag_small r tag e sm v it (omega arith),
      add_bytes_fits r1 (r.buf.tail + 1) bs e refl refl v1 (omega arith),
      sm,
    )

put_opaque-large :
    (r : Builder) (tag : ℕ) (bs : List ℕ)
    → r.error ≡ false
    → r.use_large_tags ≡ true
    → IsValid r.buf
    → IsTag tag
    → r.buf.tail + (3 + length bs) ≤ r.buf.size
    → length bs ≤ 65535
    → put_opaque r tag bs ≡ finished true r tag (length bs / 256 ∷ length bs % 256 ∷ []) bs
unfolding put_opaque
put_opaque-large r tag bs e lg v it h lim =
    let r1 : Builder = record r {
      buf = opened true r.buf tag;
      len = 0;
      lenp = some (r.buf.tail + 1);
    } in
    let v1 : IsValid (opened true r.buf tag) = (opened-contents true r.buf tag v (omega arith)).0 in
    ground (
      arith,
      put_tag_large r tag e lg v it (omega arith),
      add_bytes_fits r1 (r.buf.tail + 1) bs e refl refl v1 (omega arith),
      lg,
    )

-- The length bytes of an item.
abbrev pub length_bytes : Bool → ℕ → List ℕ
length_bytes false n = n % 256 ∷ []
length_bytes true n = n / 256 ∷ n % 256 ∷ []

finished-Added :
    (large : Bool) (r : Builder) (tag : ℕ) (bs : List ℕ)
    → r.error ≡ false
    → IsValid r.buf
    → r.buf.tail + (header_size large + length bs) ≤ r.buf.size
    → Added r
        (finished large r tag (length_bytes large (length bs)) bs)
        (header_bytes large tag (length bs) ++ bs)
finished-Added false r tag bs e v h =
    let o = opened-contents false r.buf tag v (omega arith) in
    let done =
      finish r.buf (opened false r.buf tag) tag (0 ∷ []) (length bs % 256 ∷ []) bs v o.0 o.1 refl
        refl (omega arith) in
    record {
      no_error = e;
      same_tags = refl;
      valid = done.0;
      same_size = refl;
      longer = omega arith;
      added = done.1;
    }
finished-Added true r tag bs e v h =
    let o = opened-contents true r.buf tag v (omega arith) in
    let done =
      finish r.buf (opened true r.buf tag) (tag + 64) (0 ∷ 0 ∷ [])
        (length bs / 256 ∷ length bs % 256 ∷ []) bs v o.0 o.1 refl refl (omega arith) in
    record {
      no_error = e;
      same_tags = refl;
      valid = done.0;
      same_size = refl;
      longer = omega arith;
      added = done.1;
    }

-- An item that fits is appended: tag, length and value. The length bytes hold the length only up
-- to 255 (65535 with large tags), and a value without the large tags may have up to 266.
pub put_opaque-Added :
    (r : Builder) (tag : ℕ) (bs : List ℕ)
    → r.error ≡ false
    → IsValid r.buf
    → IsTag tag
    → r.buf.tail + (header_size r.use_large_tags + length bs) ≤ r.buf.size
    → length bs ≤ max_value r.use_large_tags
    → Added r (put_opaque r tag bs) (header_bytes r.use_large_tags tag (length bs) ++ bs)
put_opaque-Added r tag bs e v it h lim = split r.use_large_tags refl h lim
  where
    split :
        (large : Bool)
        → r.use_large_tags ≡ large
        → r.buf.tail + (header_size large + length bs) ≤ r.buf.size
        → length bs ≤ max_value large
        → Added r (put_opaque r tag bs) (header_bytes large tag (length bs) ++ bs)
    split false s h lim =
        rw (put_opaque-small r tag bs e s v it h lim) (finished-Added false r tag bs e v h)
    split true s h lim =
        rw (put_opaque-large r tag bs e s v it h lim) (finished-Added true r tag bs e v h)

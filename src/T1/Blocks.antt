-- ===== src/T1/Blocks.antt =====
-- Blocks of src/ifd/proto-t1.c: what is built verifies, fits the buffer, and carries the data.
use openct.Prelude.{ℕ, ◌+◌, ◌≤◌, ◌≡◌, refl, sym}
use openct.Prelude.{ap, ◌∙◌, arith, true, Option, none, some}
use openct.Prelude.{List, [], ◌∷◌, ◌++◌, length, take}
use openct.Prelude.{take-all}
use openct.Prelude.Memory.{u8, store, length-store, load-store_end, load-store_after}
use openct.Prelude.Memory.{length-load}
use openct.Buffer.{Buf}
use openct.Buffer.Inv.{IsValid}
use openct.Checksum.{lrc_compute, crc_compute}
use openct.T1.{T1, Checksum, lrc, crc, checksum_of, compute_checksum, same_bytes, verify_checksum}
use openct.T1.{build, add_seq, block_data, block_len, block_pcb}

-- The length of the checksum goes with its kind, as `t1_set_checksum` sets them.
abbrev pub IsMatched : T1 → Type 0
IsMatched t = t.rc_bytes ≡ (elim t.checksum [ lrc ↦ 1 | crc ↦ 2 ])

length-checksum_of :
    (c : Checksum) (bs : List ℕ) → length (checksum_of c bs) ≡ (elim c [ lrc ↦ 1 | crc ↦ 2 ])
unfolding checksum_of
length-checksum_of lrc bs = unfold lrc_compute in refl
length-checksum_of crc bs = unfold crc_compute in refl

same_bytes_refl : (bs : List ℕ) → same_bytes bs bs ≡ true
unfolding same_bytes
same_bytes_refl [] = refl
same_bytes_refl (b ∷ bs) = ground (arith, same_bytes_refl bs)

-- A checksum that was computed is found right, over any bytes with room for it behind them.
pub verify-compute_checksum :
    (t : T1) (block : List ℕ) (len : ℕ)
    → IsMatched t
    → len + t.rc_bytes ≤ length block
    → let (block', n) = compute_checksum t block len in verify_checksum t block' n ≡ true
unfolding compute_checksum verify_checksum
verify-compute_checksum t block len m fits = ground (
  arith,
  k,
  load-store_end block len 0 len t.rc_bytes sum,
  load-store_after block 0 len len sum,
  take-all t.rc_bytes sum,
  same_bytes_refl sum,
)
  where
    sum : List ℕ
    sum = checksum_of t.checksum (take len block)

    k : length sum ≡ t.rc_bytes
    k = length-checksum_of t.checksum (take len block) ∙ sym m

-- A block holds at most `ifsc` bytes of data.
block_len-le : (t : T1) (bp : Option Buf) → block_len t bp ≤ t.ifsc
block_len-le t none = omega arith
block_len-le t (some bp) = ground arith

-- The bytes of the block before its checksum: the header, and the data.
abbrev pub frame : T1 → ℕ → ℕ → Option Buf → List ℕ
frame t dad pcb bp = dad ∷ add_seq t (block_pcb t pcb bp) ∷ u8 (block_len t bp) ∷ block_data t bp

abbrev pub IsValidOr : Option Buf → Type 0
IsValidOr none = Unit
IsValidOr (some bp) = IsValid bp

length-block_data :
    (t : T1) (bp : Option Buf) → IsValidOr bp → length (block_data t bp) ≡ block_len t bp
length-block_data t none v = refl
length-block_data t (some bp) v = length-load bp.base bp.head (block_len t (some bp)) (ground arith)

-- A block that is built, over whatever stood in the array, begins with the header and the data, of
-- which there are at most `ifsc` bytes; its length counts these and the checksum; and it passes the
-- checksum test.
pub build_lem :
    (t : T1) (block : List ℕ) (dad pcb : ℕ) (bp : Option Buf)
    → IsMatched t
    → IsValidOr bp
    → 3 + t.ifsc + t.rc_bytes ≤ length block
    → let (block', slen, sent) = build t block dad pcb bp in
      (take (sent + 3) block' ≡ frame t dad pcb bp)
      × (sent ≤ t.ifsc)
      × (slen ≡ sent + 3 + t.rc_bytes)
      × (verify_checksum t block' slen ≡ true)
unfolding build
build_lem t block dad pcb bp m v fits = (
  start,
  few,
  (unfold compute_checksum in ap (λ k. len + 3 + k) kind),
  verify-compute_checksum t whole (len + 3) m (omega (arith, few, size)),
)
  where
    len : ℕ
    len = block_len t bp

    few : len ≤ t.ifsc
    few = block_len-le t bp

    header : List ℕ
    header = dad ∷ add_seq t (block_pcb t pcb bp) ∷ u8 len ∷ []

    whole : List ℕ
    whole = store (store block 0 header) 3 (block_data t bp)

    size : length whole ≡ length block
    size = length-store (store block 0 header) 3 (block_data t bp) ∙ length-store block 0 header

    sum : List ℕ
    sum = checksum_of t.checksum (take (len + 3) whole)

    kind : length sum ≡ t.rc_bytes
    kind = length-checksum_of t.checksum (take (len + 3) whole) ∙ sym m

    start : take (len + 3) (compute_checksum t whole (len + 3)).0 ≡ header ++ block_data t bp
    start =
        unfold compute_checksum in
        load-store_after whole 0 (len + 3) (len + 3) sum (omega arith)
        ∙ load-store_end (store block 0 header) 0 3 3 (len + 3) (block_data t bp) refl
            (omega (arith, length-block_data t bp v))
            (omega (arith, few, length-store block 0 header))
        ∙ ap (λ s. s ++ block_data t bp)
            (load-store_end block 0 0 0 3 header refl refl (omega arith))

-- ===== src/Gbp/Blocks.antt =====
-- Blocks of the Gemplus block protocol as lists of bytes, and what src/ifd/proto-gbp.c builds and checks.
use openct.Prelude.{
  ℕ, ◌+◌, ◌≤◌, ◌≡◌, refl, ap, sym, ◌∙◌, arith, true, List, ◌∷◌, ◌++◌, length, take, drop, get_or,
}
use openct.Prelude.{take-append, append_assoc, length-append, ◌==◌}
use openct.Prelude.Memory.{u8, store, store-store, store_front, take-store_front}
use openct.Checksum.{lrc_compute, lrc_loop}
use openct.Checksum.Laws.{lrc_loop-lrc_compute}
use openct.Gbp.{Gbp, build, compute_checksum, verify_checksum, numbered}

abbrev pub header : ℕ → List ℕ → List ℕ
header pcb bytes = 0x42 ∷ pcb ∷ u8 (length bytes) ∷ bytes

-- A block on the line.
abbrev pub frame : ℕ → List ℕ → List ℕ
frame pcb bytes = header pcb bytes ++ lrc_compute (header pcb bytes)

pub length-frame : (pcb : ℕ) (bytes : List ℕ) → length (frame pcb bytes) ≡ length bytes + 4
unfolding lrc_compute
length-frame pcb bytes =
    omega (arith, length-append (header pcb bytes) (lrc_compute (header pcb bytes)))

-- What is built is the block at the front of the array.
pub build_lem :
    (g : Gbp) (sdata : List ℕ) (pcb : ℕ) (bytes : List ℕ)
    → length bytes + 4 ≤ length sdata
    → build g sdata pcb bytes ≡ (store sdata 0 (frame (numbered g.ns pcb) bytes), length bytes + 4)
unfolding build compute_checksum
build_lem g sdata pcb bytes fits =
    let hd = header (numbered g.ns pcb) bytes in
    let front : take (length bytes + 3) (store sdata 0 hd) ≡ hd =
      ap (λ k. take k (store sdata 0 hd)) {y = length hd} (omega arith)
      ∙ take-store_front sdata hd (omega arith) in
    let whole : store (store sdata 0 hd) (length bytes + 3) (lrc_compute hd)
        ≡ store sdata 0 (hd ++ lrc_compute hd) =
      store-store sdata 0 (length bytes + 3) hd (lrc_compute hd) (omega arith) in
    ap (λ t. (store (store sdata 0 hd) (length bytes + 3) (lrc_compute t), length bytes + 3 + 1))
      front
    ∙ ap (λ t. (t, length bytes + 3 + 1)) whole
    ∙ ap (λ n. (store sdata 0 (hd ++ lrc_compute hd), n)) (omega arith)

-- The bytes that are sent of an array with a block.
pub sent_lem :
    (sdata : List ℕ) (pcb : ℕ) (bytes : List ℕ)
    → length bytes + 4 ≤ length sdata
    → take (length bytes + 4) (store sdata 0 (frame pcb bytes)) ≡ frame pcb bytes
sent_lem sdata pcb bytes fits =
    ap (λ k. take k (store sdata 0 (frame pcb bytes))) (sym (length-frame pcb bytes))
    ∙ take-store_front sdata (frame pcb bytes) (omega (arith, length-frame pcb bytes))

-- A block passes the checksum test.
pub verify-frame :
    (sdata : List ℕ) (pcb : ℕ) (bytes : List ℕ)
    → length bytes + 4 ≤ length sdata
    → verify_checksum (store sdata 0 (frame pcb bytes)) (length bytes + 4) ≡ true
unfolding verify_checksum
verify-frame sdata pcb bytes fits =
    ap (λ t. lrc_loop 0 t == 0) (sent_lem sdata pcb bytes fits)
    ∙ ap (λ n. n == 0) (lrc_loop-lrc_compute (header pcb bytes))

-- The first three bytes of the array, and the data.
pub front_lem :
    (sdata : List ℕ) (pcb : ℕ) (bytes : List ℕ)
    → length bytes + 4 ≤ length sdata
    → let s = store sdata 0 (frame pcb bytes) in
      (get_or s 1 0 ≡ pcb)
      × (get_or s 2 0 ≡ u8 (length bytes))
      × (take (length bytes) (drop 3 s) ≡ bytes)
front_lem sdata pcb bytes fits =
    let f = store_front sdata (frame pcb bytes) (omega (arith, length-frame pcb bytes)) in
    (
      ap (λ s. get_or s 1 0) f,
      ap (λ s. get_or s 2 0) f,
      ap (λ s. take (length bytes) (drop 3 s)) f
          ∙ ap (take (length bytes)) (
              append_assoc bytes (lrc_compute (header pcb bytes))
                (drop (length (frame pcb bytes)) sdata))
          ∙ take-append (length bytes) bytes
              (lrc_compute (header pcb bytes) ++ drop (length (frame pcb bytes)) sdata) refl,
    )

-- ===== src/Atr/Receive.antt =====
-- Receiving an answer to reset byte by byte: `ifd_recv_atr` of src/ifd/reader.c, and the part of
-- `ifd_card_request` that reads on where a driver delivers the first byte only.
--
-- `recv` is `ifd_device_recv` for one byte; none is a failure. The loop over the groups has as many
-- rounds as the array has bytes, 64: a round but the last takes one or more.
pub mod Line
pub mod Whole
pub mod Ends
use openct.Prelude.{
  ℕ, zero, suc, ◌+◌, ◌-◌, bit_and, Bool, true, false, not, Option, none, some, List, [], ◌∷◌,
}
use openct.Prelude.{get_or, ltb, ◌==◌, if◌then◌else◌, length}
use openct.Prelude.Memory.{store}
use openct.Buffer.{Buf, Source, tailroom, init}
use openct.Buffer
use openct.Utils.{count_bits, revert_bits}
use openct.Atr.{is_set}

module _ (S : Type 0) (recv : S → S × Option ℕ) where
  -- The loop of `ifd_recv_atr`: what came, and whether it is all.
  unfoldable pub recv_bytes : ℕ → S → S × List ℕ × Bool
  recv_bytes zero s = (s, [], true)
  recv_bytes (suc n) s =
      let (s1, got) = recv s in
      let (s2, rest, all) = recv_bytes n s1 in
      elim got [ none ↦ (s1, [], false) | some c ↦ (s2, c ∷ rest, all) ]

  -- `ifd_recv_atr`, and whether it succeeds.
  unfoldable pub recv_atr : S → Buf → ℕ → Bool → S × Buf × Bool
  unfolding recv_bytes
  recv_atr s b count revert =
      let (s', xs, all) = recv_bytes count s in
      let b1 = record b { base = store b.base b.tail (if revert then revert_bits xs else xs) } in
      if ltb (tailroom b) count
      then (s, b, false)
      else if all
      then (s', (Buffer.put b1 (Source.null count)).0, true)
      else (s', record b { base = store b.base b.tail xs }, false)

  -- The end of the loop: with the protocol that was named last, or a failure.
  pub data Groups : Type 0 where
    groups_read : S → Buf → ℕ → Groups
    groups_failed : S → Buf → Groups
    out_of_rounds : Groups

  unfoldable pub read_groups : ℕ → S → Buf → ℕ → ℕ → Bool → Groups
  unfolding recv_atr
  read_groups zero s b c proto revert = out_of_rounds
  read_groups (suc fuel) s b c proto revert =
      let (s', b', went) = recv_atr s b (count_bits (bit_and c 0xF0)) revert in
      let c' = get_or b'.base (b'.tail - 1) 0 in
      elim went [
        | false ↦ groups_failed s' b'
        | true ↦ elim (is_set c 0x80) [
          | true ↦ read_groups fuel s' b' c' (bit_and c' 0xF) revert
          | false ↦ groups_read s' b' proto
        ]
      ]

  -- Historical bytes, and the check byte of a protocol other than T=0.
  unfoldable pub read_tail : S → Buf → ℕ → Bool → S × Buf × Bool
  unfolding recv_atr
  read_tail s b proto revert =
      let (s1, b1, went) = recv_atr s b (bit_and (get_or b.base 1 0) 0xF) revert in
      if not went
      then (s1, b1, false)
      else if proto == 0
      then (s1, b1, true)
      else recv_atr s1 b1 1 revert

  -- What comes behind the first byte.
  unfoldable pub read_rest : S → Buf → Bool → S × Buf × Bool
  unfolding recv_atr
  read_rest s b revert =
      let (s1, b1, went) = recv_atr s b 1 revert in
      elim went [
        | false ↦ (s1, b1, false)
        | true ↦ elim (read_groups 64 s1 b1 (get_or b1.base 1 0) 0 revert) [
          | groups_failed s2 b2 ↦ (s2, b2, false)
          | out_of_rounds ↦ (s1, b1, false)
          | groups_read s2 b2 proto ↦ read_tail s2 b2 proto revert
        ]
      ]

  -- The array of the slot, whose first byte has come. 0x03 is 0x3F of the inverse convention.
  unfoldable pub read_atr : S → List ℕ → S × Buf × Bool
  read_atr s atr =
      let revert = get_or atr 0 0 == 0x03 in
      let atr' = if revert then store atr 0 (0x3F ∷ []) else atr in
      read_rest s (record (init atr' 64) { tail = 1 }) revert

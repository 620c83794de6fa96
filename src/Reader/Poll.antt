-- ===== src/Reader/Poll.antt =====
-- Looking for cards that come and go: `ifd_slot_status_update`, `ifd_poll` and `ifd_event` of
-- src/ifd/reader.c.
use openct.Prelude.{ℕ, zero, suc, ◌+◌, none, some, ltb, ◌==◌, if◌then◌else◌, bit_and, ◌||◌, not}
use openct.Prelude.Memory.{u32}
use openct.Prelude.Outcome.{Error, Outcome, ok, err}
use openct.Reader.{Ifd, Ops, Calls, set_slot}
use openct.Reader.Commands.{card_status, card_present, card_changed}

-- The numbers of the cards in the slots, and the counter that gives a new card its number.
pub record Numbers : Type 0 where
  pub seqs : ℕ → ℕ
  pub card_seq : ℕ

abbrev pub set_seq : Numbers → ℕ → ℕ → Numbers
set_seq n slot seq = record n { seqs = λ k. if k == slot then seq else n.seqs k }

-- A card that is there without a number, or that has changed, gets the next one.
unfoldable pub slot_status_update : Numbers → ℕ → ℕ → Numbers
slot_status_update n slot status =
    if bit_and status card_present == 0
    then set_seq n slot 0
    else if n.seqs slot == 0 || not (bit_and status card_changed == 0)
    then record (set_seq n slot n.card_seq) { card_seq = u32 (n.card_seq + 1) }
    else n

module _ {D P : Type 0} (ops : Ops D P) (calls : Calls D P) where
  abbrev pub R : Type 0
  R = Ifd D P

  abbrev pub update : R → ℕ → ℕ → R
  update r slot status =
      let n = slot_status_update (record { seqs = r.seqs; card_seq = r.card_seq }) slot status in
      record r { seqs = n.seqs; card_seq = n.card_seq }

  -- A slot that was looked at a second ago, or that a client uses, is left alone.
  pub poll_slot : R → ℕ → R
  poll_slot r slot =
      let r1 = set_slot r slot (record (r.slots slot) { next_update = calls.now r + 1 }) in
      let (r2, rc) = card_status ops calls r1 slot in
      if ltb (calls.now r) (r.slots slot).next_update
      then r
      else elim rc [ err e ↦ r2 | ok status ↦ update r2 slot status ]

  -- The loop over the slots, with those left.
  pub poll_slots : ℕ → R → ℕ → R
  unfolding poll_slot
  poll_slots zero r slot = r
  poll_slots (suc left) r slot = poll_slots left (poll_slot r slot) (slot + 1)

  pub poll : R → R
  unfolding poll_slots
  poll r = poll_slots r.nslots r 0

  pub update_all : ℕ → R → ℕ → (ℕ → ℕ) → R
  update_all zero r slot status = r
  update_all (suc left) r slot status =
      update_all left (update r slot (status slot)) (slot + 1) status

  -- What a driver reports of all slots is taken over, whether it reports an error or not.
  pub event : R → R × Outcome (Unit {0})
  unfolding update_all
  event r = elim ops.event [
    | none ↦ (r, err Error.not_supported)
    | some f ↦ let (r', status, rc) = f r in (update_all r'.nslots r' 0 status, rc)
  ]

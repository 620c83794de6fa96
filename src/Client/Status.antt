-- ===== src/Client/Status.antt =====
-- `ct_card_status` of src/ct/client.c: the client compares the sequence numbers of the cards in the status
-- file with those that it saw last.
use openct.Prelude.{ℕ, ltb, ◌==◌, if◌then◌else◌, bit_or}
use openct.Prelude.Outcome.{Error, Outcome, ok, err}

-- The `ct_card` array of `ct_info_t`, with `ct_slots`.
pub record Cards : Type 0 where
  pub slots : ℕ
  pub seq : ℕ → ℕ

-- `IFD_CARD_PRESENT` and `IFD_CARD_STATUS_CHANGED`
abbrev pub card_present : ℕ
card_present = 1

abbrev pub card_changed : ℕ
card_changed = 2

-- The sequence numbers that the handle has seen, then the status.
unfoldable pub card_status : (ℕ → ℕ) → Cards → ℕ → (ℕ → ℕ) × Outcome ℕ
card_status seen info slot =
    let seq = info.seq slot in
    if ltb info.slots slot then (seen, err Error.invalid_arg) else (
      λ k. if k == slot then seq else seen k,
      ok (
          if seq == 0
          then 0
          else if seq == seen slot
          then card_present
          else bit_or card_present card_changed),
    )

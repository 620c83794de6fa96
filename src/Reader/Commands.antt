-- ===== src/Reader/Commands.antt =====
-- The operations of a reader other than the reset of a card.
use openct.Prelude.{
  ℕ, ◌+◌, ◌-◌, ◌^◌, ◌%◌, Bool, false, Option, none, some, List, ltb, ◌==◌, if◌then◌else◌, bit_and,
  bit_or,
}
use openct.Prelude.Outcome.{Error, Outcome, ok, err}
use openct.Reader.{Ifd, Ops, Calls, set_slot}

abbrev pub reader_active : ℕ
reader_active = 0x0001

abbrev pub card_present : ℕ
card_present = 1

abbrev pub card_changed : ℕ
card_changed = 2

module _ {D P : Type 0} (ops : Ops D P) (calls : Calls D P) where
  abbrev pub R : Type 0
  R = Ifd D P

  -- The protocol of the slot is replaced, where there is one with that number.
  unfoldable pub install : R → ℕ → ℕ → R × Outcome (Unit {0})
  install r idx prot = elim (calls.create prot (r.slots idx).dad) [
    | none ↦ (r, err Error.generic)
    | some p ↦ (set_slot r idx (record (r.slots idx) { proto = some p }), ok tt)
  ]

  abbrev pub has_protocol : Option P → ℕ → Bool
  has_protocol none prot = false
  has_protocol (some p) prot = calls.id p == prot

  unfoldable pub set_protocol : R → ℕ → Option ℕ → R × Outcome (Unit {0})
  unfolding install
  set_protocol r idx prot =
      let prot' : ℕ = elim prot [ none ↦ ops.default_protocol | some p ↦ p ] in
      if ltb r.nslots idx then (r, err Error.generic) else elim ops.set_protocol [
        | some f ↦ f r idx prot
        | none ↦ if has_protocol (r.slots idx).proto prot' then (r, ok tt) else install r idx prot'
      ]

  unfoldable pub activate : R → R × Outcome (Unit {0})
  activate r =
      let (r', rc) = elim ops.activate as (λ _. R × Outcome (Unit {0})) [
        | none ↦ (r, ok tt)
        | some f ↦ f r
      ] in
      (record r' { flags = bit_or r'.flags reader_active }, rc)

  pub deactivate : R → R × Outcome (Unit {0})
  deactivate r =
      let (r', rc) = elim ops.deactivate as (λ _. R × Outcome (Unit {0})) [
        | none ↦ (r, ok tt)
        | some f ↦ f r
      ] in
      (record r' { flags = bit_and r'.flags (2 ^ 32 - 1 - reader_active) }, rc)

  pub output : R → Option (List ℕ) → R × Outcome (Unit {0})
  output r message = elim ops.output [ none ↦ (r, err Error.not_supported) | some f ↦ f r message ]

  -- What the driver says of the card. An answer to reset is forgotten when the card has changed.
  unfoldable pub card_status : R → ℕ → R × Outcome ℕ
  card_status r idx = if ltb r.nslots idx then (r, err Error.generic) else elim ops.card_status [
    | none ↦ (r, err Error.not_supported)
    | some f ↦
        let (r', rc) = f r idx in
        elim rc [
          | err e ↦ (r', err e)
          | ok status ↦
              let s = r'.slots idx in
              let len = if bit_and status card_changed == 0 then s.atr_len else 0 in
              (set_slot r' idx (record s { atr_len = len; status = status }), ok status)
        ]
  ]

  pub card_eject : R → ℕ → ℕ → Option (List ℕ) → R × Outcome (Unit {0})
  card_eject r idx timeout message =
      if ltb r.nslots idx
      then (r, err Error.generic)
      else elim ops.card_eject [ none ↦ (r, ok tt) | some f ↦ f r idx timeout message ]

  pub perform_verify : R → ℕ → ℕ → Option (List ℕ) → List ℕ → ℕ → R × Outcome (List ℕ)
  perform_verify r idx timeout message pin size =
      if ltb r.nslots idx then (r, err Error.generic) else elim ops.perform_verify [
        | none ↦ (r, err Error.not_supported)
        | some f ↦ f r idx timeout message pin size
      ]

  -- The next poll of the slot is put off.
  abbrev pub talking : R → ℕ → R
  talking r idx = set_slot r idx (record (r.slots idx) { next_update = calls.now r + 1 })

  -- A call of the slot's protocol, where there is one.
  abbrev pub by_protocol {ℓ} : {A : Type ℓ} → R → ℕ → (R → R × Outcome A) → R × Outcome A
  by_protocol r idx f =
      if ltb r.nslots idx
      then (r, err Error.generic)
      else elim (r.slots idx).proto [ none ↦ (r, err Error.generic) | some p ↦ f (talking r idx) ]

  unfoldable pub card_command : R → ℕ → List ℕ → ℕ → R × Outcome (List ℕ)
  card_command r idx apdu size =
      by_protocol r idx (λ r'. calls.transceive r' idx (r.slots idx).dad apdu size)

  -- The address is an `unsigned short`.
  unfoldable pub read_memory : R → ℕ → ℕ → ℕ → R × Outcome (List ℕ)
  read_memory r idx addr size =
      by_protocol r idx (λ r'. calls.read_memory r' idx (addr % 2 ^ 16) size)

  unfoldable pub write_memory : R → ℕ → ℕ → List ℕ → R × Outcome (Unit {0})
  write_memory r idx addr bytes =
      by_protocol r idx (λ r'. calls.write_memory r' idx (addr % 2 ^ 16) bytes)

  pub before_command : R → R × Outcome (Unit {0})
  before_command r = elim ops.before_command [ none ↦ (r, ok tt) | some f ↦ f r ]

  pub after_command : R → R
  after_command r = elim ops.after_command [ none ↦ r | some f ↦ f r ]

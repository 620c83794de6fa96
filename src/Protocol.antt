-- ===== src/Protocol.antt =====
-- The choice of a protocol by the answer to reset, src/ifd/protocol.c.
pub mod Steps
pub mod Offers
mod Runs
use openct.Prelude.{
  ℕ, zero, suc, ◌+◌, ◌-◌, ◌^◌, bit_and, bit_or, true, false, ◌&&◌, Option, none, some, List,
}
use openct.Prelude.{get_or, ltb, ◌==◌, if◌then◌else◌}
use openct.Utils.{count_bits}
use openct.Atr.{is_set}

-- The protocols that the answer offers, as bits, and the first of them.
pub record Offer : Type 0 where
  pub supported : ℕ
  pub def_proto : Option ℕ

pub add_offer : Offer → ℕ → Offer
add_offer o prot = record {
  supported = bit_or o.supported (2 ^ prot);
  def_proto = elim o.def_proto [ none ↦ some prot | some p ↦ some p ];
}

-- The loop of `ifd_protocol_select`; none where the rounds are used up.
pub offer_loop : ℕ → List ℕ → ℕ → ℕ → Offer → Option Offer
offer_loop zero atr len n o = none
offer_loop (suc fuel) atr len n o =
    let td = get_or atr (n - 1) 0 in
    let o' = if n == 2 then o else add_offer o (bit_and td 0x0f) in
    let n' = n + count_bits (bit_and td 0xF0) in
    elim (ltb n' len && is_set td 0x80) [ true ↦ offer_loop fuel atr len n' o' | false ↦ some o' ]

-- T=0 where nothing is offered.
pub or_first : Offer → Offer
or_first o = record {
  supported = if o.supported == 0 then 1 else o.supported;
  def_proto = elim o.def_proto [ none ↦ some 0 | some p ↦ some p ];
}

-- The first half of `ifd_protocol_select`, with `len` bytes in the array of the slot.
pub offers : List ℕ → ℕ → Option Offer
offers atr len =
    if ltb len 2
    then none
    else elim (offer_loop (suc len) atr (len - bit_and (get_or atr 1 0) 0x0f) 2
        (record { supported = 0; def_proto = none })) [ none ↦ none | some o ↦ some (or_first o) ]

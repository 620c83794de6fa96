-- ===== src/Atr/Bounds.antt =====
-- `ifd_atr_parse` of src/ifd/atr.c reads no byte behind the length it is given.
use openct.Prelude.{ℕ, zero, suc, ◌+◌, ◌-◌, ◌<◌, ◌≤◌, ◌≡◌, refl, ap, ap₂, sym, ◌∙◌}
use openct.Prelude.{bit_and, true, List, take}
use openct.Prelude.{
  get_or, get_or-take, get_or-All, ltb, ◌==◌, if◌then◌else◌, arith, All, Bool-cases, inl, inr,
}
use openct.Prelude.Masks.{mask_10, mask_20, mask_40}
use openct.Utils.Counts.{count_f0}
use openct.Prelude.Outcome.{Error, ok, err}
use openct.Utils.{count_bits}
use openct.Atr.{Info, add_protocol, Round, again, stop, bad, take_bytes, round_end, round}
use openct.Atr.{groups, or_t0, parse, blank}

module _ (xs ys : List ℕ) (byte : (i : ℕ) → get_or xs i 0 < 256) where
  -- The same bytes below a bound.
  abbrev Same : ℕ → Type 0
  Same len = (i : ℕ) → i < len → get_or xs i 0 ≡ get_or ys i 0

  take_bytes-Same :
      (info : Info) (len td m n : ℕ)
      → Same len
      → td < 256
      → n + count_bits (bit_and td 0xF0) ≤ len
      → take_bytes info xs td m n ≡ take_bytes info ys td m n
  unfolding take_bytes
  take_bytes-Same info len td m n same small fits = ground (
    arith,
    count_f0 td small,
    mask_10 td,
    mask_20 td,
    mask_40 td,
    same n,
    same (n + 1),
    same (n + 1 + 1),
  )

  round-Same :
      (info : Info) (len m n : ℕ)
      → Same len
      → 1 ≤ n
      → n < len
      → round info xs len m n ≡ round info ys len m n
  unfolding round
  round-Same info len m n same one lt =
      let td = get_or xs (n - 1) 0 in
      ground (
        arith,
        same (n - 1) (omega arith),
        take_bytes-Same (if n == 2 then info else add_protocol info td) len td m n same
            (byte (n - 1)),
      )

  round_moves :
      (info info' : Info) (len m n n' : ℕ) → round info xs len m n ≡ again info' n' → 1 ≤ n'
  unfolding round round_end
  round_moves info info' len m n n' e = ground (arith, e)

  groups-Same :
      (left : ℕ) (info : Info) (len m n : ℕ)
      → Same len
      → 1 ≤ n
      → groups left info xs len m n ≡ groups left info ys len m n
  unfolding groups
  groups-Same zero info len m n same one = refl
  groups-Same (suc left) info len m n same one = elim (Bool-cases (ltb n len)) [
    | inr over ↦ ground (arith, over)
    | inl lt ↦ next (round info xs len m n) refl lt (λ info' n' e.
        groups-Same left info' len (m + 1) n' same (round_moves info info' len m n n' e))
  ]
    where
      next :
          (r : Round)
          → round info xs len m n ≡ r
          → ltb n len ≡ true
          → ((info' : Info) (n' : ℕ)
              → round info xs len m n ≡ again info' n'
              → groups left info' xs len (m + 1) n' ≡ groups left info' ys len (m + 1) n')
          → groups (suc left) info xs len m n ≡ groups (suc left) info ys len m n
      next bad e lt ih = ground (arith, e, lt, round-Same info len m n same one)
      next (stop info') e lt ih = ground (arith, e, lt, round-Same info len m n same one)
      next (again info' n') e lt ih =
          ground (arith, e, lt, round-Same info len m n same one, ih info' n' e)

-- What the answer to reset says depends on its first `len` bytes alone, where there are two.
pub parse_bounds :
    (xs ys : List ℕ) (len : ℕ)
    → 2 ≤ len
    → All (λ b. b < 256) xs
    → take len xs ≡ take len ys
    → parse xs len ≡ parse ys len
unfolding parse
parse_bounds xs ys len two bytes front =
    ap₂
      (λ h g.
        if ltb len (2 + h)
        then err Error.invalid_atr
        else elim g [ err e ↦ err e | ok info ↦ ok (or_t0 info) ])
      counted below
  where
    same : (i : ℕ) → i < len → get_or xs i 0 ≡ get_or ys i 0
    same i lt =
        sym (get_or-take len i xs 0 lt) ∙ ap (λ zs. get_or zs i 0) front ∙ get_or-take len i ys 0 lt

    counted : bit_and (get_or xs 1 0) 0x0f ≡ bit_and (get_or ys 1 0) 0x0f
    counted = ap (λ b. bit_and b 0x0f) (same 1 (omega arith))

    below :
        groups 4 blank xs (len - bit_and (get_or xs 1 0) 0x0f) 0 2
        ≡ groups 4 blank ys (len - bit_and (get_or ys 1 0) 0x0f) 0 2
    below =
        groups-Same xs ys (λ i. get_or-All (λ b. b < 256) i xs 0 bytes (omega arith)) 4 blank
          (len - bit_and (get_or xs 1 0) 0x0f) 0 2 (λ i lt. same i (omega arith)) (omega arith)
        ∙ ap (λ h. groups 4 blank ys (len - h) 0 2) counted

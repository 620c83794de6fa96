-- ===== src/Atr/Receive/Ends.antt =====
-- Whatever a device sends, the reading of an answer to reset comes to an end.
use openct.Prelude.{ℕ, zero, suc, ◌+◌, ◌-◌, ◌<◌, ◌≤◌, ◌≡◌, ◌≢◌, sym, arith, inl, inr}
use openct.Prelude.{Bool, true, false, Option, none, some, List, [], ◌∷◌, get_or, if◌then◌else◌}
use mathlib.Core.Path.{subst}
use openct.Prelude.{◌^◌, All, get_or-All, bit_and, Bool-cases}
use openct.Prelude.Memory.{store}
use openct.Buffer.{Buf, put, put_room}
use openct.Utils.{count_bits, revert_bits}
use openct.Utils.Reversal.{revert_bits-IsByte}
use openct.Atr.{is_set}
use openct.Atr.Complete.{byte_moves}
use openct.Atr.Receive.{recv_bytes, recv_atr, Groups, read_groups}
use openct.Atr.Receive.Line.{IsByte}

store-IsByte :
    (mem : List ℕ) (o : ℕ) (xs : List ℕ)
    → All IsByte mem
    → All IsByte xs
    → All IsByte (store mem o xs)
store-IsByte [] o xs h k = tt
store-IsByte (m ∷ mem) zero [] h k = h
store-IsByte (m ∷ mem) zero (x ∷ xs) h k = (k.0, store-IsByte mem zero xs h.1 k.1)
store-IsByte (m ∷ mem) (suc o) xs h k = (h.0, store-IsByte mem o xs h.1 k)

-- What a device may deliver: a byte.
abbrev pub Delivers : Option ℕ → Type 0
Delivers none = Unit
Delivers (some c) = c < 256

module _ (S : Type 0) (recv : S → S × Option ℕ) (sound : (s : S) → Delivers (recv s).1) where
  recv_bytes-IsByte : (n : ℕ) (s : S) → All IsByte (recv_bytes S recv n s).1
  unfolding recv_bytes
  recv_bytes-IsByte zero s = tt
  recv_bytes-IsByte (suc n) s = go (recv s).1 (sound s) (recv_bytes-IsByte n (recv s).0)
    where
      go :
          (got : Option ℕ)
          → Delivers got
          → All IsByte (recv_bytes S recv n (recv s).0).1
          → All IsByte
              (elim got as (λ _. S × List ℕ × Bool) [
                | none ↦ ((recv s).0, [], false)
                | some c ↦ (
                  (recv_bytes S recv n (recv s).0).0,
                  c ∷ (recv_bytes S recv n (recv s).0).1,
                  (recv_bytes S recv n (recv s).0).2,
                )
              ]).1
      go none d rest = tt
      go (some c) d rest = (d, rest)

  -- What a call that succeeds has stored.
  stored : S → Buf → ℕ → Bool → List ℕ
  stored s b n inverse =
      if inverse then revert_bits (recv_bytes S recv n s).1 else (recv_bytes S recv n s).1

  stored-IsByte : (s : S) (b : Buf) (n : ℕ) (inverse : Bool) → All IsByte (stored s b n inverse)
  unfolding stored
  stored-IsByte s b n true = revert_bits-IsByte (recv_bytes S recv n s).1 (recv_bytes-IsByte n s)
  stored-IsByte s b n false = recv_bytes-IsByte n s

  recv_atr_stores :
      (s : S) (b : Buf) (n : ℕ) (inverse : Bool)
      → b.tail ≤ b.size
      → b.size < 2 ^ 31
      → (recv_atr S recv s b n inverse).2 ≡ true
      → ((recv_atr S recv s b n inverse).1
          ≡ record b { base = store b.base b.tail (stored s b n inverse); tail = b.tail + n })
        × (b.tail + n ≤ b.size)
  unfolding recv_atr put put_room stored
  recv_atr_stores s b n inverse room small went = ground (arith, went)

  -- The loop over the groups ends before its rounds are used up.
  read_groups_ends :
      (fuel : ℕ) (s : S) (b : Buf) (c proto : ℕ) (inverse : Bool)
      → c < 256
      → b.tail ≤ b.size
      → b.size < 2 ^ 31
      → All IsByte b.base
      → b.size < b.tail + fuel
      → read_groups S recv fuel s b c proto inverse ≢ Groups.out_of_rounds
  unfolding read_groups
  read_groups_ends zero s b c proto inverse byte room small bytes enough = absurd (omega arith)
  read_groups_ends (suc fuel) s b c proto inverse byte room small bytes enough =
      let n = count_bits (bit_and c 0xF0) in
      let r = recv_atr S recv s b n inverse in
      elim (Bool-cases r.2) [
        | inr failed ↦ ground (arith, failed)
        | inl went ↦ elim (Bool-cases (is_set c 0x80)) [
          | inr last ↦ ground (arith, went, last)
          | inl more ↦
              let st = recv_atr_stores s b n inverse room small went in
              let moves = byte_moves c byte more in
              let bytes' : All IsByte r.1.base =
                subst (λ (x : Buf). All IsByte x.base) (sym st.0)
                  (store-IsByte b.base b.tail (stored s b n inverse) bytes
                    (stored-IsByte s b n inverse)) in
              let c' = get_or r.1.base (r.1.tail - 1) 0 in
              let rec =
                read_groups_ends fuel r.0 r.1 c' (bit_and c' 0xF) inverse
                  (get_or-All IsByte (r.1.tail - 1) r.1.base 0 bytes' (omega arith))
                  (ground (arith, st)) (ground (arith, st)) bytes' (ground (arith, st, moves)) in
              ground (arith, went, more, rec)
        ]
      ]

  -- Whatever bytes a device sends into an array of at most 64 bytes, of which two have come, the 64
  -- rounds of the loop over the groups are enough.
  pub atr_groups_end :
      (s : S) (b : Buf) (c : ℕ) (inverse : Bool)
      → c < 256
      → 2 ≤ b.tail
      → b.tail ≤ b.size
      → b.size ≤ 64
      → All IsByte b.base
      → read_groups S recv 64 s b c 0 inverse ≢ Groups.out_of_rounds
  atr_groups_end s b c inverse byte two room small bytes =
      read_groups_ends 64 s b c 0 inverse byte room (omega (arith, small)) bytes
        (omega (arith, two, small))

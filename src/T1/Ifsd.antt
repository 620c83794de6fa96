-- ===== src/T1/Ifsd.antt =====
-- `t1_negotiate_ifsd` of src/ifd/proto-t1.c, and its loop that does not count its retries.
use openct.Prelude.{ℕ, zero, suc, ◌≡◌, ◌≢◌, refl, arith, bit_or, Bool, true, false, not, ◌&&◌, ◌||◌}
use openct.Prelude.{none, some, List, [], ◌∷◌, ◌==◌, if◌then◌else◌, get_or, replicate}
use openct.Prelude.Memory.{u8}
use openct.Buffer
use openct.T1.{
  T1, dead, build, verify_checksum, buffer_size, s_block, s_kind, s_type, s_is_response,
}
use openct.T1.{block_type}
use openct.T1.Line.{Device, xcv, Received}
use openct.T1.Resync.{resynchronize}

-- The number of bytes of the answer, or -1; `out` where the rounds are used up.
pub data Negotiated : Type 0 where
  agreed : ℕ → Negotiated
  refused : Negotiated
  out : Negotiated

module _ (dev : Device) where
  -- `t1_xcv` of the request for a size of `ifsd`.
  unfoldable pub ask : T1 → dev.State → List ℕ → ℕ → ℕ → Received dev
  ask t d sdata dad ifsd =
      let (block, slen, sent) =
        build t sdata dad (bit_or s_block 0x01) (some (Buffer.set (u8 ifsd ∷ []) 1)) in
      xcv dev t d block slen buffer_size

  -- `error:`
  pub give_up : T1 → dev.State → ℕ → T1 × dev.State × Negotiated
  give_up t d dad =
      let (t', d', found) = resynchronize dev t d (replicate 4 0) dad in (t', d', refused)

  pub is_answer : ℕ → Bool
  is_answer pcb =
      (elim (block_type pcb) [ s_kind ↦ true | _ ↦ false ])
      && s_type pcb == 0x01
      && s_is_response pcb

  pub negotiate_loop : ℕ → T1 → dev.State → List ℕ → ℕ → ℕ → ℕ → T1 × dev.State × Negotiated
  unfolding ask
  negotiate_loop zero t d sdata dad ifsd retries = (t, d, out)
  negotiate_loop (suc fuel) t d sdata dad ifsd retries =
      let got = ask t d sdata dad ifsd in
      let rest = negotiate_loop fuel got.t1 got.device got.block dad ifsd retries in
      let stop = give_up got.t1 got.device dad in
      elim got.count [
        | none ↦ give_up (record got.t1 { state = dead }) got.device dad
        | some n ↦
            if not (verify_checksum got.t1 got.block n)
            then (if retries == 0 then stop else rest)
            else if is_answer (get_or got.block 1 0)
            then (if not (get_or got.block 2 0 == 1) || not (get_or got.block 3 0 == ifsd)
                then stop
                else (got.t1, got.device, agreed n))
            else if retries == 0
            then stop
            else rest
      ]

  pub negotiate_ifsd : ℕ → T1 → dev.State → List ℕ → ℕ → ℕ → T1 × dev.State × Negotiated
  unfolding negotiate_loop
  negotiate_ifsd fuel t d sdata dad ifsd = negotiate_loop fuel t d sdata dad ifsd t.retries

  -- On a device that keeps giving answers that fail the checksum test, the negotiation does not end
  -- in any number of rounds, unless there was no retry to begin with: it does not count them.
  pub negotiation_never_ends :
      (Garbling : T1 → dev.State → List ℕ → Type 0) (dad ifsd : ℕ)
      → ((t : T1) (d : dev.State) (sdata : List ℕ)
          → Garbling t d sdata
          → let got = ask t d sdata dad ifsd in
            (n : ℕ) × (got.count ≡ some n)
            × (verify_checksum got.t1 got.block n ≡ false)
            × Garbling got.t1 got.device got.block)
      → (fuel : ℕ) (t : T1) (d : dev.State) (sdata : List ℕ) → Garbling t d sdata
      → t.retries ≢ 0
      → (negotiate_ifsd fuel t d sdata dad ifsd).2 ≡ out
  unfolding negotiate_ifsd negotiate_loop
  negotiation_never_ends Garbling dad ifsd garbled fuel t d sdata g some_left =
      go fuel t.retries some_left t d sdata g
    where
      go :
          (fuel retries : ℕ)
          → retries ≢ 0
          → (t : T1) (d : dev.State) (sdata : List ℕ) → Garbling t d sdata
          → (negotiate_loop fuel t d sdata dad ifsd retries).2 ≡ out
      go zero retries ne t d sdata g = refl
      go (suc fuel) retries ne t d sdata g =
          let (n, c, v, g') = garbled t d sdata g in
          let got = ask t d sdata dad ifsd in
          ground (arith, c, v, ne, go fuel retries ne got.t1 got.device got.block g')

-- ===== src/T1/Resync.antt =====
-- `t1_resynchronize` of src/ifd/proto-t1.c.
use openct.Prelude.{ℕ, zero, suc, ◌==◌, bit_or, if◌then◌else◌, Bool, true, false, List, [], ◌∷◌}
use openct.Prelude.{get_or, none, some, not}
use openct.Prelude.Memory.{store}
use openct.T1.{T1, dead, compute_checksum, verify_checksum, s_block, s_response}
use openct.T1.Line.{Device, xcv}

module _ (dev : Device) where
  -- `char block[4]` is four bytes; the loop has three rounds.
  pub resync_loop : ℕ → T1 → dev.State → List ℕ → ℕ → T1 × dev.State × Bool
  resync_loop zero t d block nad = (record t { state = dead }, d, false)
  resync_loop (suc left) t d block nad =
      let t1 = record t { ns = 0; nr = 0 } in
      let (sent, n) = compute_checksum t1 (store block 0 (nad ∷ s_block ∷ 0 ∷ [])) 3 in
      let got = xcv dev t1 d sent 4 4 in
      let rest = resync_loop left got.t1 got.device got.block nad in
      let stop : T1 × dev.State × Bool = (record got.t1 { state = dead }, got.device, false) in
      elim got.count [
        | none ↦ stop
        | some k ↦
            if not (k == 4)
            then stop
            else if not (verify_checksum got.t1 got.block 4)
            then rest
            else if get_or got.block 1 0 == bit_or s_block s_response
            then (got.t1, got.device, true)
            else rest
      ]

  -- The flushed device is `d`.
  pub resynchronize : T1 → dev.State → List ℕ → ℕ → T1 × dev.State × Bool
  unfolding resync_loop
  resynchronize t d block nad = resync_loop 3 t d block nad

-- ===== src/Checksum/Runs.antt =====
-- Runs of the checksums, and their theorems at concrete inputs.
use openct.Prelude.{ℕ, ◌≡◌, ◌≢◌, refl, arith, List, [], ◌∷◌, ◌++◌, get_or}
use openct.Checksum.{crctab, lrc_loop, lrc_compute, crc_step, crc_loop, crc_compute}
use openct.Checksum.Laws.{crc_bits, crctab_lem, lrc_detects_byte}

block : List ℕ
block = 0 ∷ 0xc1 ∷ 1 ∷ 0x20 ∷ []

block_lrc : lrc_compute block ≡ 0xe0 ∷ []
unfolding lrc_compute lrc_loop block
block_lrc = refl

block_crc : crc_compute (0x31 ∷ 0x32 ∷ 0x33 ∷ []) ≡ 0x63 ∷ 0x4b ∷ []
unfolding crc_compute crc_loop crc_step
block_crc = refl

crctab_lem_example : get_or crctab 7 0 ≡ crc_bits 8 7
crctab_lem_example = crctab_lem 7 (omega arith)

lrc_detects_byte_example :
    lrc_compute ((0 ∷ []) ++ (0xc1 ∷ 1 ∷ [])) ≢ lrc_compute ((0 ∷ []) ++ (0xc2 ∷ 1 ∷ []))
lrc_detects_byte_example = lrc_detects_byte (0 ∷ []) (1 ∷ []) 0xc1 0xc2 (omega arith)

-- ===== src/Gbp.antt =====
-- The Gemplus block protocol of src/ifd/proto-gbp.c: state, and blocks.
--
-- `gbp_state_t` is `Gbp`; a function that writes into `block` or `sdata` returns the new array, of which a
-- prefix is in use.
pub mod Line
pub mod Transceive
pub mod Blocks
pub mod Card
pub mod Rounds
pub mod Stuck
pub mod Accepted
mod Runs
use openct.Prelude.{
  ℕ, ◌+◌, ◌*◌, ◌/◌, ◌%◌, ◌^◌, bit_and, bit_or, Bool, true, false, Option, none, some, List, [], ◌∷◌,
}
use openct.Prelude.{◌==◌, if◌then◌else◌, length, take}
use openct.Prelude.Memory.{u8, store}
use openct.Checksum.{lrc_compute, lrc_loop}

pub data Phase : Type 0 where
  alive resynch dead : Phase

pub record Gbp : Type 0 where
  pub state : Phase
  pub block_oriented : ℕ
  pub ns : ℕ
  pub timeout : ℕ
  pub wtx : ℕ
  pub retries : ℕ

pub set_defaults : Gbp → Gbp
set_defaults g = record g { retries = 3; timeout = 20000; ns = 0 }

-- `serial` is whether the device's type is `IFD_DEVICE_TYPE_SERIAL`.
pub gbp_init : Gbp → Bool → Gbp
gbp_init g serial =
    if serial then set_defaults g else record (set_defaults g) { block_oriented = 1 }

-- `IFD_PROTOCOL_RECV_TIMEOUT`, `IFD_PROTOCOL_BLOCK_ORIENTED`, and the others; a value for an `int` is below 2 ^ 31.
pub data Param : Type 0 where
  recv_timeout oriented other : Param

pub set_param : Gbp → Param → ℕ → Option Gbp
set_param g recv_timeout value = some (record g { timeout = value % 2 ^ 32 })
set_param g oriented value = some (record g { block_oriented = value % 2 ^ 32 })
set_param g other value = none

pub get_param : Gbp → Param → Option ℕ
get_param g recv_timeout = some g.timeout
get_param g oriented = some g.block_oriented
get_param g other = none

-- `GBP_I_BLOCK`, `GBP_R_BLOCK` and `GBP_S_BLOCK`, with `GBP_S_RESYNC`, which is 0.
abbrev pub i_block : ℕ
i_block = 0x00

abbrev pub r_block : ℕ
r_block = 0x80

abbrev pub s_block : ℕ
s_block = 0xC0

abbrev pub edc_error : ℕ
edc_error = 0x01

abbrev pub other_error : ℕ
other_error = 0x02

-- `GBP_BUFFER_SIZE`
abbrev pub buffer_size : ℕ
buffer_size = 3 + 256 + 2

pub data Kind : Type 0 where
  i_kind r_kind s_kind : Kind

abbrev pub block_type : ℕ → Kind
block_type pcb =
    if bit_and pcb 0xC0 == r_block
    then r_kind
    else if bit_and pcb 0xC0 == s_block
    then s_kind
    else i_kind

unfoldable pub seq : ℕ → ℕ
seq pcb = elim (block_type pcb) [
  | i_kind ↦ bit_and (pcb / 2 ^ 6) 1
  | r_kind ↦ bit_and (pcb / 2 ^ 4) 1
  | s_kind ↦ 0
]

-- `GBP_S_IS_RESPONSE`
abbrev pub s_is_response : ℕ → Bool
s_is_response pcb = if bit_and pcb 0x20 == 0 then false else true

-- The sequence number in its place.
abbrev pub numbered : ℕ → ℕ → ℕ
numbered ns pcb = elim (block_type pcb) [
  | i_kind ↦ u8 (bit_or pcb (ns * 2 ^ 6))
  | r_kind ↦ u8 (bit_or pcb (ns * 2 ^ 4))
  | s_kind ↦ pcb
]

unfoldable pub compute_checksum : List ℕ → ℕ → List ℕ × ℕ
compute_checksum block len = (store block len (lrc_compute (take len block)), len + 1)

unfoldable pub verify_checksum : List ℕ → ℕ → Bool
verify_checksum block len = lrc_loop 0 (take len block) == 0

-- The array with the block, and the block's length. A `bp` of NULL is no bytes.
unfoldable pub build : Gbp → List ℕ → ℕ → List ℕ → List ℕ × ℕ
unfolding compute_checksum
build g block pcb bytes =
    compute_checksum (store block 0 (0x42 ∷ numbered g.ns pcb ∷ u8 (length bytes) ∷ bytes))
      (length bytes + 3)

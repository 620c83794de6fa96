-- ===== src/T1.antt =====
-- The T=1 block protocol of src/ifd/proto-t1.c: state, and blocks.
--
-- `t1_state_t` is `T1`; a block is an array of bytes of which a prefix is in use, and a function that
-- writes into `block` or `sdata` returns the new array.
pub mod Line
pub mod Transceive
pub mod Blocks
pub mod Steps
pub mod Resync
pub mod Errors
pub mod Ifsd
mod Runs
use openct.Prelude.{ℕ, zero, suc, ◌+◌, ◌-◌, ◌*◌, ◌/◌, ◌%◌, ◌^◌, bit_and, bit_or, bit_xor}
use openct.Prelude.{Bool, true, false, not, ◌&&◌, ◌||◌, Option, none, some, List, [], ◌∷◌, ◌++◌}
use openct.Prelude.{ltb, ◌==◌, if◌then◌else◌, length, take, drop, get_or}
use openct.Prelude.Memory.{u8, u32, load, store}
use openct.Buffer.{Buf, avail, contents}
use openct.Checksum.{lrc_compute, crc_compute}

pub data Phase : Type 0 where
  sending receiving resynch dead : Phase

pub data Checksum : Type 0 where
  lrc crc : Checksum

pub record T1 : Type 0 where
  pub state : Phase
  pub block_oriented : ℕ
  pub ns : ℕ
  pub nr : ℕ
  pub ifsc : ℕ
  pub ifsd : ℕ
  pub timeout : ℕ
  pub wtx : ℕ
  pub retries : ℕ
  pub rc_bytes : ℕ
  pub checksum : Checksum

pub set_defaults : T1 → T1
set_defaults t = record t {
  retries = 3;
  timeout = 20000;
  ifsc = 32;
  ifsd = 32;
  nr = 0;
  ns = 0;
  wtx = 0;
}

pub set_checksum : T1 → Checksum → T1
set_checksum t lrc = record t { rc_bytes = 1; checksum = lrc }
set_checksum t crc = record t { rc_bytes = 2; checksum = crc }

-- `serial` is whether the device's type is `IFD_DEVICE_TYPE_SERIAL`.
pub t1_init : T1 → Bool → T1
unfolding set_defaults set_checksum
t1_init t serial =
    let t' = set_checksum (set_defaults t) lrc in
    if serial then t' else record t' { block_oriented = 1 }

-- The parameters that `t1_set_param` knows, with their values; those that become an `int` are below 2 ^ 31.
pub data Param : Type 0 where
  recv_timeout : ℕ → Param
  set_block_oriented : ℕ → Param
  checksum_lrc : Param
  checksum_crc : Param
  set_ifsc : ℕ → Param
  set_ifsd : ℕ → Param
  other : ℕ → Param

-- `none` is -1, with the state unchanged.
pub set_param : T1 → Param → Option T1
unfolding set_checksum
set_param t (recv_timeout v) = some (record t { timeout = u32 v })
set_param t (set_block_oriented v) = some (record t { block_oriented = u32 v })
set_param t checksum_lrc = some (set_checksum t lrc)
set_param t checksum_crc = some (set_checksum t crc)
set_param t (set_ifsc v) = some (record t { ifsc = u32 v })
set_param t (set_ifsd v) = some (record t { ifsd = u32 v })
set_param t (other type) = none

-- `T1_BUFFER_SIZE`, and the bits of the protocol control byte.
abbrev pub buffer_size : ℕ
buffer_size = 3 + 254 + 2

abbrev pub i_block : ℕ
i_block = 0x00

abbrev pub r_block : ℕ
r_block = 0x80

abbrev pub s_block : ℕ
s_block = 0xC0

abbrev pub more_blocks : ℕ
more_blocks = 0x20

abbrev pub edc_error : ℕ
edc_error = 0x01

abbrev pub other_error : ℕ
other_error = 0x02

abbrev pub s_response : ℕ
s_response = 0x20

abbrev pub is_error : ℕ → ℕ
is_error pcb = bit_and pcb 0x0f

abbrev pub s_is_response : ℕ → Bool
s_is_response pcb = not (bit_and pcb s_response == 0)

abbrev pub s_type : ℕ → ℕ
s_type pcb = bit_and pcb 0x0f

pub data BlockType : Type 0 where
  i_kind r_kind s_kind : BlockType

pub block_type : ℕ → BlockType
block_type pcb =
    if bit_and pcb 0xC0 == r_block
    then r_kind
    else if bit_and pcb 0xC0 == s_block
    then s_kind
    else i_kind

pub seq : ℕ → ℕ
unfolding block_type
seq pcb = elim (block_type pcb) [
  | r_kind ↦ bit_and (pcb / 2 ^ 4) 1
  | s_kind ↦ 0
  | i_kind ↦ bit_and (pcb / 2 ^ 6) 1
]

pub checksum_of : Checksum → List ℕ → List ℕ
checksum_of lrc bs = lrc_compute bs
checksum_of crc bs = crc_compute bs

-- The checksum of the first `len` bytes, written behind them, and the length with it.
pub compute_checksum : T1 → List ℕ → ℕ → List ℕ × ℕ
unfolding checksum_of
compute_checksum t block len =
    let sum = checksum_of t.checksum (take len block) in (store block len sum, len + length sum)

-- `memcmp(a, b, n) == 0`
pub same_bytes : List ℕ → List ℕ → Bool
same_bytes [] [] = true
same_bytes [] (b ∷ bs) = false
same_bytes (a ∷ as') [] = false
same_bytes (a ∷ as') (b ∷ bs) = a == b && same_bytes as' bs

pub verify_checksum : T1 → List ℕ → ℕ → Bool
verify_checksum t block len =
    if ltb len t.rc_bytes
    then false
    else same_bytes (load block (len - t.rc_bytes) t.rc_bytes)
        (take t.rc_bytes (checksum_of t.checksum (take (len - t.rc_bytes) block)))

-- The sequence bit that goes with a block of that type.
pub add_seq : T1 → ℕ → ℕ
add_seq t pcb = elim (block_type pcb) [
  | r_kind ↦ u8 (bit_or pcb (t.nr * 2 ^ 4))
  | i_kind ↦ u8 (bit_or pcb (t.ns * 2 ^ 6))
  | s_kind ↦ pcb
]

-- The bytes that go into a block: at most `ifsc` of what the buffer has (`none` for NULL).
abbrev pub block_data : T1 → Option Buf → List ℕ
block_data t none = []
block_data t (some bp) = load bp.base bp.head (if ltb t.ifsc (avail bp) then t.ifsc else avail bp)

abbrev pub block_len : T1 → Option Buf → ℕ
block_len t none = 0
block_len t (some bp) = if ltb t.ifsc (avail bp) then t.ifsc else avail bp

abbrev pub block_pcb : T1 → ℕ → Option Buf → ℕ
block_pcb t pcb none = pcb
block_pcb t pcb (some bp) = if ltb t.ifsc (avail bp) then bit_or pcb more_blocks else pcb

-- The new `block`, the return value, and what is stored at `lenp`.
pub build : T1 → List ℕ → ℕ → ℕ → Option Buf → List ℕ × ℕ × ℕ
unfolding add_seq
build t block dad pcb bp =
    let len = block_len t bp in
    let header = dad ∷ add_seq t (block_pcb t pcb bp) ∷ u8 len ∷ [] in
    let (done, slen) =
      compute_checksum t (store (store block 0 header) 3 (block_data t bp)) (len + 3) in
    (done, slen, len)

-- `none` is -1.
pub get_param : T1 → Param → Option ℕ
get_param t (recv_timeout v) = some t.timeout
get_param t (set_block_oriented v) = some t.block_oriented
get_param t checksum_lrc = none
get_param t checksum_crc = none
get_param t (set_ifsc v) = none
get_param t (set_ifsd v) = none
get_param t (other type) = none

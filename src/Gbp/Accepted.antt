-- ===== src/Gbp/Accepted.antt =====
-- A command and its answer, as `gbp_transceive` of src/ifd/proto-gbp.c exchanges them.
use openct.Gbp.{Gbp}

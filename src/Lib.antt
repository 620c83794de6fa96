-- ===== src/Lib.antt =====
-- OpenCT lets programs talk to smart card readers. A handler process drives one reader: clients send
-- it commands over a socket, as TLV coded messages in a byte buffer; it checks the clients' slot locks
-- and runs the command on the card, whose answers to reset (ATR) and commands (APDU) it takes apart.
--
-- Parts:
--   Prelude   shared names, lists and byte arrays over native numbers, bit operations; Prelude/Outcome
--             has the codes of src/include/openct/error.h.
--   Buffer    src/ct/buffer.c: `ct_buf_t` is `Buf`, and `ct_buf_put` is `Buffer.put`, and so on.
--             Buffer/Inv has the invariant, Buffer/Fifo the queue that a client sees, Buffer/Refine the
--             refinement, Buffer/Lines reading lines and pushing back, Buffer/Append writes in place.
--   Tlv       src/ct/tlv.c: `ct_tlv_parse` is `Tlv.parse`, `ct_tlv_put_opaque` is `Tlv.put_opaque`, and
--             so on. Tlv/Grammar has the coding apart from buffers, Tlv/Parse and Tlv/Build relate
--             parser and builder to it, Tlv/RoundTrip and Tlv/Integers state what follows.
--   Locks     src/ifd/locks.c: `ifdhandler_lock` is `Locks.lock`, and so on. Locks/Exclusion has the
--             invariant of all reachable tables, Locks/Release what a call leaves to the others.
--   Checksum  src/ifd/checksum.c: the LRC, and the CRC with its table. Checksum/Laws relates the table
--             to the bitwise division.
--   T1        src/ifd/proto-t1.c: the state, its parameters, and blocks. T1/Line has `t1_xcv` over a
--             driver interface, T1/Transceive `t1_transceive`, one function per kind of block, and
--             T1/Resync `t1_resynchronize`, and T1/Ifsd `t1_negotiate_ifsd`. T1/Blocks, T1/Steps and
--             T1/Errors have theorems.
--   Apdu      src/ifd/apdu.c: `ifd_iso_apdu_parse` is `Apdu.iso_parse`, and so on. Apdu/Encoding has the
--             coding of short commands.
--   Utils     src/ifd/utils.c: `ifd_count_bits`, and `ifd_revert_bits` with Utils/Reversal.
--   Atr       src/ifd/atr.c: `ifd_atr_parse` is `Atr.parse`. Atr/Encoding has the coding of an answer to
--             reset, Atr/Groups and Atr/Standard the parser on it, Atr/Bounds which bytes are read,
--             Atr/Pts protocol type selection, and Atr/Pts/Echo the card that repeats the request.
--   Driver    what the protocols use of src/ifd/reader.c: sending and receiving.
--   T0        src/ifd/proto-t0.c: the state and the loop of `t0_xcv`. T0/Transceive has `t0_transceive`,
--             T0/Termination and T0/Total that it returns, T0/Receive what it makes of a card.
--   Process   src/ifd/process.c: `ifdhandler_process` is `Process.Dispatch.process`, its handlers are in
--             Process/Handlers, and what they call of src/ifd/reader.c is the record `Reader`.
--             Process/Locking and Process/Unguarded have what the locks do to the commands.
--   Atr/Complete, Atr/Receive   src/ifd/reader.c: `ifd_atr_complete`, and how `ifd_card_request` reads an
--             answer to reset byte by byte; Atr/Receive/Whole is about a card that sends one, and
--             Atr/Receive/Ends about the rounds of the loop.
--   Protocol  src/ifd/protocol.c: the analysis of the answer to reset in `ifd_protocol_select` is
--             `Protocol.offers`. Protocol/Steps is about its loop,
--             Protocol/Offers relates it to `Atr.parse`.
--   Reader    src/ifd/reader.c: the readers, over a driver's operations. Reader/Commands and Reader/Request
--             have `ifd_card_command`, `ifd_card_request` and so on, Reader/Interface is the `Reader` of
--             Process, Reader/Poll has `ifd_poll` and `ifd_slot_status_update`. Reader/Selected is about
--             the protocol after a reset, Reader/Seen about what a client learns of the cards.
--   Client    src/ct/client.c: `ct_card_transact` is `card_transact`, and so on. Client/Server has
--             `ifdhandler_recv` of src/ifd/ifdhandler.c, Client/Status `ct_card_status`. Client/Messages
--             relates commands to what the handler reads, Client/Answers is about the way back,
--             Client/Transact and Client/Unset are about
--             a call from end to end; `deliver` is a socket that has nothing else to send, with the
--             room of its buffer.
--   Sockets   src/ct/socket.c: packets, and the buffers of a socket: `ct_socket_put_packet` is `put_packet`,
--             and so on. Sockets/Calls has `ct_socket_call` and the handlers of a server. Sockets/Pipe is a
--             stream that cuts what is sent as it likes; Sockets/Packets, Filled, Sent and Put are about one
--             function each on it, Sockets/Replied about a call and Sockets/Drained about a server.
--   Gbp       src/ifd/proto-gbp.c: the Gemplus block protocol; Gbp/Line has `gbp_xcv`, Gbp/Transceive
--             `gbp_transceive` and `gbp_resynchronize`. Gbp/Blocks, Gbp/Card and Gbp/Rounds are about blocks
--             and rounds with a reader that answers, Gbp/Accepted and Gbp/Stuck about a whole command.
--   Ccid      src/ifd/ifd-ccid.c: messages and their answers, `ccid_exchange`, `ccid_transparent`, `ccid_send` and
--             `ccid_recv`; Ccid/Exchange is about a block for a card.
--
-- The Runs modules hold runs and the theorems at concrete inputs.
--
-- Numbers are the native ones; `unsigned int` sums and differences wrap at 2 ^ 32 and `size_t` ones at
-- 2 ^ 64 where the code can reach that. A pointer into a buffer is an offset into its array. Buffers
-- are smaller than 2 ^ 31 bytes (`Buffer.Inv.IsValid`), so a length fits `int`. The loop of
-- `ct_tlv_parse` has as much fuel as the buffer has bytes: each round takes three or more. The loop of
-- `t1_transceive` has a bound in the source only on some paths, so `T1.Transceive.loop` takes a number
-- of rounds, and `out_of_rounds` is an answer of its own; so do `Gbp.Transceive.loop`, and `T1.Ifsd.negotiate_loop`, with `out`.
-- `T0.loop` takes a number of rounds; T0/Total says how many are enough. The loops over the groups of an
-- answer to reset have as many rounds as bytes, or 64, the size of the array.
--
-- The loops of src/ct/socket.c take a number of rounds: more than the send buffer has bytes, and in
-- `wait` two for each byte that is to come (`enough_rounds`), are enough.
--
-- Not modelled: the configuration file, the reader drivers but for the messages of CCID (of which
-- `Ccid.await` takes a number of rounds, more than the messages that come first), the operating system
-- (files, processes, serial lines, USB), logging, and the tools. What the modelled code takes from the
-- operating system is an argument: the bytes that read(2) delivers, whether calloc succeeds, and what a
-- device answers. What the commands call of src/ifd/reader.c is an argument too, the record
-- `Process.Reader`, and Reader/Interface has one made of a driver.
pub mod Apdu
pub mod Atr
pub mod Buffer
pub mod Ccid
pub mod Checksum
pub mod Client
pub mod Driver
pub mod Gbp
pub mod Locks
pub mod Prelude
pub mod Process
pub mod Protocol
pub mod Reader
pub mod Sockets
pub mod T0
pub mod T1
pub mod Tlv
pub mod Utils

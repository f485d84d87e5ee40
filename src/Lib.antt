-- ===== src/Lib.antt =====
-- A reliable transport over UDP with file transfer on top: this development models the wire protocol
-- (crates/udp-protocol), the parts of a connection that keep state (crates/reliable-core), the cookies
-- that guard the handshake (crates/reliable-udp), and the control messages of the file transfer
-- (crates/transfer-protocol).
--
-- The parts and how they meet. A packet is a header of 30 bytes with a CRC32C over the datagram, and
-- 1 to 64 frames, each a type, a length as a varint, and a body. A connection writes application data
-- into a send stream, which cuts it into items; an item goes out as a STREAM_DATA frame if the
-- congestion window and the connection's flow control window allow it, goes back to the queue when
-- its packet is lost, and is put in order by the peer's receive stream. Acknowledgements are ranges of
-- packet numbers, and drive the round trip estimate and the congestion window. Client, server and peer
-- agree on a transfer by control messages, each an envelope of 16 bytes and a body.
--
-- Base: tests, lists, results, machine words, bits and slices over the native numbers; a cursor
--   (`&[u8]` with `&mut usize`, and `&mut Vec<u8>`) for any type of errors; UTF-8.
-- UdpProtocol, of crates/udp-protocol/src:
--   Error: error.rs and the errors of crypto.rs. Cursor: the cursor with those errors.
--   Varint: varint.rs (`encoded_len`, `encode`, `decode`).
--   Reader: `Reader` and `write_blob` of frame.rs. Frame: the frames of frame.rs with their codecs.
--   Ack: ack.rs (`AckRange`, `AckRanges`, `AckFrame`). Checksum: checksum.rs.
--   Packet: packet.rs. Codec: codec.rs, its plain packets and the two peeks.
-- TimeWheel.Error: crates/time-wheel/src/error.rs, whose values a core error carries.
-- TimeWheel.Config: crates/time-wheel/src/config.rs, the builder as a function of the tick in
-- nanoseconds and the slots of each level.
-- ReliableCore, of crates/reliable-core/src:
--   Error: error.rs and the error of config.rs. Config: `ConnectionConfig` of config.rs.
--   SendFlow and ReceiveFlow: flow_control.rs.
--   Congestion: congestion.rs. Rtt: rtt.rs. SendStream: send.rs. ReceiveStream: receive.rs.
--   ReceivedPackets: ack.rs. StreamManager: connection/streams.rs and stream.rs.
--   EndToEnd: a send stream and a receive stream over a network.
-- ReliableUdp, of crates/reliable-udp/src:
--   Retry: the cookies of retry.rs. What its proofs rely on of the hmac, sha2 and subtle packages stands
--   in the record `Crypto`: a code has 32 bytes, and two slices compare equal if they are the same.
-- TransferProtocol, of crates/transfer-protocol/src:
--   Error: error.rs. Types: types.rs, but for its random values. Kind: `MessageType`. Enums: the
--   enumerations of one byte, with their laws as an instance. Message: the messages of message.rs, with
--   Validate (`validate`) and Typed (what the Rust types of the fields say of their values).
--   Wire: `Writer` and `Reader` of codec.rs. Codec: `encode_*` and `decode_*` of codec.rs, with
--   Envelope for a whole message.
-- Runs: runs at concrete inputs.
--
-- Conventions. A method with `&mut self` is a function that returns the new state, with the result in
-- a pair or in a `Result` where it can fail; `?` is `>>=` of a do block. In `write` and `insert` no
-- error follows a change that remains, other than errors that the checks before them rule out. Ids,
-- packet numbers and flags are their numbers, a byte string is a list of numbers, and a `Duration` is
-- its nanoseconds. Additions that the source checks or saturates are checked or saturated at the
-- width of the source; `usize` has 64 bits. A `BTreeMap` is a list of pairs in the order of the keys.
--
-- Loops. Those over a slice are recursion on the list. `chunks` and `deliver_contiguous` run on fuel,
-- the number of bytes and of waiting segments, which each round lowers. `decode_frames` is
-- recursion on the number of frames that it still accepts, which the source bounds by 64.
-- `is_power_of_two` halves a `usize` at most 63 times, which is enough to reach its highest bit.
--
-- Not modelled: the encrypted packets and keys of crypto.rs; the connection of
-- crates/reliable-core/src/connection.rs and connection/, but for its streams, with its timers and
-- handshake; wheel.rs of crates/time-wheel; the runtime of crates/reliable-udp, but for its cookies; the
-- other transfer crates (transfer-core, transfer-storage, transfer-server, transfer-client); random ids,
-- codes and secrets; and the sockets, tasks, probes and applications around them, which are input and
-- output. Allocation and the panics of `Duration` arithmetic are not modelled.
pub mod Base
pub mod UdpProtocol
pub mod TimeWheel
pub mod ReliableCore
pub mod ReliableUdp
pub mod TransferProtocol
mod Runs

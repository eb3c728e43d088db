-- ===== src/Lib.antt =====
-- A verification library for rtmp-rs, an RTMP server and client library in Rust.
--
-- The program. A connection begins with the handshake (src/protocol/handshake.rs) and then carries
-- messages, cut into chunks that several chunk streams share (src/protocol/chunk.rs). The server
-- decodes the bytes that it reads in a loop (src/server/connection.rs), parses each message
-- (src/protocol/message.rs) and handles it over the state of its session (src/session), on which the
-- application (src/server/handler.rs) decides. A publisher's audio and video become FLV tags
-- (src/media/flv.rs); the registry (src/registry/store.rs) keeps, for every stream, who publishes it,
-- how many subscribe, the last sequence headers and a buffer of the frames since the last keyframe
-- (src/media/gop.rs), and hands every frame to the subscribers over a broadcast channel. One who
-- joins late gets the headers and the buffered frames first. Commands and metadata
-- are AMF0 values (src/amf/amf0.rs).
--
-- The modules.
--   Prelude: the names that all modules share, Boolean tests, lists over native numbers
--     (Prelude/Lists), Rust's results with panics as values (Prelude/Results) and hash maps as
--     association lists (Prelude/Map).
--   Bytes: buffers as lists of bytes, and the reads and writes of big-endian and little-endian
--     numbers.
--   Constants, Error: src/protocol/constants.rs and src/error.rs, as far as they are used;
--     Message.Types has the errors of messages and handlers.
--   Chunk: src/protocol/chunk.rs. State has `RtmpChunk` and `ChunkStreamState`; Peek the half of
--     `decode` that only looks (`parse_basic_header`, the sizes, whether the chunk is whole); Decoder
--     the half that takes (`read_message_header` to `finish_chunk`), `set_chunk_size` and `abort`;
--     Encoder `encode`, `select_format` and the writers; Receive the loop of `read_and_process`.
--     Fields, Sync, Open, Rounds and RoundTrip carry the round trip of one message, Pair that of
--     sequences; Safety and Robust what holds on any bytes; Progress what a call takes; Fragments
--     and Splits what more bytes change.
--   Handshake: src/protocol/handshake.rs. Machine has the state machine (`generate_initial`,
--     `process`), Packets what each end makes of a whole packet, Exchange a run of both ends, Waits
--     the reachable states, short input and versions.
--   Media: src/media/flv.rs (Flv, Codes) and src/media/gop.rs (Gop, Window, Catchup, Whole).
--   Registry: src/registry/. Frame has frame.rs and error.rs, Entry has entry.rs and config.rs, Store
--     the operations of `StreamRegistry`; Keys, Expiry, Publishing, Owner, Subscribers and Join are
--     about its maps, what `cleanup` removes, its invariant, publishers, subscribers and late
--     joiners.
--   Amf: src/amf/amf0.rs and src/amf/value.rs. Value has the values, Text the test of
--     `String::from_utf8` and the numbers, Encoder the encoder, Reads the guarded reads, strings and
--     single values of the decoder, Decoder the rest of it; Encodable says which values
--     the format holds, Texts, Levels, Loops and RoundTrip carry the round trip, Ends and Total are
--     about arbitrary input.
--   Message: src/protocol/message.rs. Types has the messages, Encode `encode`, Parse `from_chunk` and
--     what it calls, Connect the parameters of `connect`, Commands the responses; Sendable says which
--     messages their encoding can hold, Arguments and RoundTrip carry the round trip, Total is about
--     any chunk. Amf/Access has the accessors of values.
--   Enhanced: src/media/fourcc.rs (FourCc), src/protocol/enhanced.rs and the capabilities of
--     src/server/config.rs (Capabilities), and what two ends agree on (Negotiation).
--   Quirks: src/protocol/quirks.rs; Timestamps is about the normalizer.
--   Session: src/session/state.rs (State) and src/session/stream.rs (Stream); Acknowledgement and
--     Streams are about received bytes and stream ids.
--   Server: src/server/connection.rs. Handler has the application and the session's context,
--     Connection the state and the `send_` functions, Commands the handlers of commands (those in
--     front of publishing and playing in Commands/Setup), Publisher
--     those of media and metadata, Subscriber frames, lag, pause and the cleanup, Receive the dispatch
--     and `read_and_process`, Run the main loop of `run`. Wire and Naturality are about the
--     decoder and the read buffer beside the handlers, Channel about the loop and the chunk codec,
--     Delivery about the loop and the messages of a client. Ownership, Soundness, Media, Publishing, Life
--     and End are about the stream that a connection publishes, Slow and Resume about slow and paused subscribers.
--   The modules named Tests hold runs and the theorems at concrete inputs.
--
-- How the code is modelled. A method is a function from the state and its arguments to the new state
-- and what it returns; `Err` and a panic are values of `Result`. A machine integer is a native
-- natural number, and where the code wraps, the `%` is written out (`u8`, `u32`, `wrapping_sub`,
-- `fetch_add`, `fetch_sub`). Where the model has a plain `+` or `-` panic on overflow, it is that
-- of a build with overflow checks; the default release profile, which Cargo.toml leaves as it is, has
-- none and wraps, as `add_bytes_received_with` writes out for the count of received bytes.
-- A read past the end of a buffer and an index out of range panic in every build, and stand behind
-- their guards as in the code. `usize` sums are sizes of data in memory and do not wrap. A `HashMap` is
-- an association list; its order is observed by the AMF0 encoder, which iterates over the properties
-- of an object, by `from_amf`, and by `find_publishing_stream` where several streams publish. A
-- `String` is the list of its bytes, a clock is an argument, and a float is the 64 bits of its
-- representation. An operation of the registry is one step, since it holds the
-- lock of the map to its end.
--
-- Bounds and fuel. The loop of `encode` takes as fuel the length of the payload, enough where the
-- chunk size is positive; the receiving loops take one more than the length of the buffer, enough
-- since a round that goes on has taken a byte; the AMF0 decoder takes one more than the length of
-- the buffer for its nested calls, of which each takes a byte or is the last. All other loops are
-- structural.
--
-- Conditions. A message is sendable (`Sendable`, Chunk/Sync) on a chunk stream that the headers can
-- name, with a timestamp below 0xFFFFFF that does not go back, a payload that is neither empty nor
-- over 24 bits, and, where the full header is chosen, on a chunk stream whose timestamp is 0.
-- Outside these conditions encoder and decoder may disagree.
--
-- Parameters. The effect of handling a message on the decoder is a parameter of the receiving loop.
-- tokio's broadcast channel is the parameter `Broadcast` of the registry: a sender, and what
-- `channel`, `subscribe` and `send` make of it; no law of it is used.
--
-- What the application decides in `on_connect`, `on_fc_publish`, `on_publish` and `on_play` is the
-- parameter `Handler`, functions of which nothing is assumed; what it is told is output.
--
-- Not modelled. Sockets, logging, timers and tasks are I/O: writes succeed, and what a connection
-- sends is the list of its chunks and of the changes of its encoder, in order (`Output`). The select
-- of `run` is a list of events, so that an arriving frame does not cancel `read_and_process`. Of
-- `handle_audio` and `handle_video` the codec for the log and the delivery of media to the
-- application are left out, and with these the parsers (src/media/h264.rs, aac.rs,
-- enhanced_video.rs, enhanced_audio.rs). AMF3 (src/amf/amf3.rs), which no message uses, the client
-- (src/client), the listener (src/server/listener.rs) and src/stats have no module. Of the buffer's
-- reports, `utilization` and `gop_duration` are left out.
pub mod Prelude
pub mod Bytes
pub mod Constants
pub mod Error
pub mod Chunk
pub mod Media
pub mod Handshake
pub mod Registry
pub mod Amf
pub mod Enhanced
pub mod Message
pub mod Quirks
pub mod Server
pub mod Session

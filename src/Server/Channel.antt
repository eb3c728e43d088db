-- ===== src/Server/Channel.antt =====
-- The receiving loop of a connection hands the messages of the chunk codec to their handlers, in
-- order (server/connection.rs, protocol/chunk.rs, protocol/message.rs).
use rtmp_rs.Prelude.{
  ℕ, zero, suc, Bool, true, false, ◌≡◌, refl, sym, ap, ◌∙◌, Option, none, some, List, [], ◌∷◌,
  if◌then◌else◌, ltb, length, Result, ok, err, panic,
}
use rtmp_rs.Bytes.{Bytes}
use rtmp_rs.Error.{ProtocolError}
use rtmp_rs.Chunk.State.{RtmpChunk}
use rtmp_rs.Chunk.Decoder
use rtmp_rs.Chunk.Decoder.{ChunkDecoder, Decoded}
use rtmp_rs.Chunk.Receive.{Drained, hand_on, hand_on_all, drain, drain_all}
use rtmp_rs.Chunk.Receive
use rtmp_rs.Registry.Entry.{Broadcast}
use rtmp_rs.Message.Types.{
  Error, RtmpMessage, set_chunk_size, abort, acknowledgement, window_ack_size, user_control,
  set_peer_bandwidth, audio, video, command, command_amf3, data_message, data_amf3, aggregate,
  unknown_message, protocol,
}
use rtmp_rs.Message.Parse.{Parsed, from_chunk}
use rtmp_rs.Server.Handler.{Handler}
use rtmp_rs.Server.Connection.{Connection, Outcome, done, and_then}
use rtmp_rs.Server.Receive.{
  handle_message, handle_chunk, parsed_on, stopped, round, process, process_buffer,
}
use rtmp_rs.Message.Types
use rtmp_rs.Server.Wire.{with_wire, wired}
use rtmp_rs.Server.Naturality.{
  message_effect, parsed_effect, chunk_effect, handle_audio-with_wire, handle_video-with_wire,
  handle_data-with_wire, handle_command-with_wire,
}

module _ (B : Broadcast) (h : Handler) (now : ℕ) where
  handle_message-with_wire :
      (m : RtmpMessage) (d : ChunkDecoder) (b : Bytes) (c : Connection B)
      → handle_message B h now m (with_wire B d b c)
        ≡ wired B (message_effect m d) b (handle_message B h now m c)
  unfolding handle_message message_effect
  handle_message-with_wire (set_chunk_size size) d b c = refl
  handle_message-with_wire (abort csid) d b c = refl
  handle_message-with_wire (acknowledgement n) d b c = refl
  handle_message-with_wire (window_ack_size size) d b c = refl
  handle_message-with_wire (user_control (Types.ping_request ts)) d b c = refl
  handle_message-with_wire (user_control (Types.ping_response ts)) d b c = refl
  handle_message-with_wire (user_control (Types.stream_begin n)) d b c = refl
  handle_message-with_wire (user_control (Types.stream_eof n)) d b c = refl
  handle_message-with_wire (user_control (Types.stream_dry n)) d b c = refl
  handle_message-with_wire (user_control (Types.stream_is_recorded n)) d b c = refl
  handle_message-with_wire (user_control (Types.set_buffer_length n ms)) d b c = refl
  handle_message-with_wire (user_control (Types.unknown_event n bytes)) d b c = refl
  handle_message-with_wire (set_peer_bandwidth size limit_type) d b c = refl
  handle_message-with_wire (audio timestamp bytes) d b c =
      handle_audio-with_wire B h now d b timestamp bytes c
  handle_message-with_wire (video timestamp bytes) d b c =
      handle_video-with_wire B h now d b timestamp bytes c
  handle_message-with_wire (command cmd) d b c = handle_command-with_wire B h now d b cmd c
  handle_message-with_wire (command_amf3 cmd) d b c = handle_command-with_wire B h now d b cmd c
  handle_message-with_wire (data_message m) d b c = handle_data-with_wire B h now d b m c
  handle_message-with_wire (data_amf3 m) d b c = handle_data-with_wire B h now d b m c
  handle_message-with_wire (aggregate bytes) d b c = refl
  handle_message-with_wire (unknown_message t bytes) d b c = refl

  parsed_on-with_wire :
      (p : Parsed RtmpMessage) (d : ChunkDecoder) (b : Bytes) (c : Connection B)
      → parsed_on B h now (with_wire B d b c) p
        ≡ wired B (parsed_effect p d) b (parsed_on B h now c p)
  parsed_on-with_wire none d b c = refl
  parsed_on-with_wire (some (ok m)) d b c = handle_message-with_wire m d b c
  parsed_on-with_wire (some (err e)) d b c = refl
  parsed_on-with_wire (some panic) d b c = refl

  -- Handling a chunk does to the decoder what its message says, and otherwise does not depend on it.
  pub handle_chunk-with_wire :
      (x : RtmpChunk) (d : ChunkDecoder) (b : Bytes) (c : Connection B)
      → handle_chunk B h now x (with_wire B d b c)
        ≡ wired B (chunk_effect x d) b (handle_chunk B h now x c)
  unfolding handle_chunk chunk_effect
  handle_chunk-with_wire x d b c = parsed_on-with_wire (from_chunk x) d b c

  -- The handlers of several messages, in order, up to the first that fails.
  unfoldable pub handle_all : List RtmpChunk → Connection B → Outcome B
  handle_all [] c = done B c
  handle_all (x ∷ xs) c = and_then B (handle_chunk B h now x c) (handle_all xs)

  -- How the loop ends where the handlers succeed.
  abbrev pub status : Result ProtocolError (Option RtmpChunk) → Result Error (Unit {0})
  status (ok o) = ok tt
  status (err e) = err (protocol e)
  status panic = panic

  abbrev Refines : Drained → Connection B → Outcome B → Type 0
  Refines r c o =
      (c' : Connection B)
      → handle_all r.messages c ≡ done B c'
      → o ≡ (with_wire B r.last.decoder r.last.buf c', status r.last.result)

  -- The first message's handler succeeds where all do.
  first_succeeds :
      (o : Outcome B) (xs : List RtmpChunk) (c' : Connection B)
      → and_then B o (handle_all xs) ≡ done B c'
      → (o ≡ done B o.0) × (handle_all xs o.0 ≡ done B c')
  first_succeeds (c, ok u) xs c' p = (refl, p)
  first_succeeds (c, err e) xs c' p = cc
  first_succeeds (c, panic) xs c' p = cc

  -- The loop ends with this call of `decode`.
  stop_refines :
      (r : Decoded) (d : ChunkDecoder) (b : Bytes) (c c' : Connection B)
      (o : Result ProtocolError (Option RtmpChunk))
      → r.result ≡ o
      → done B c ≡ done B c'
      → stopped B h now (with_wire B d b c) r o ≡ (with_wire B r.decoder r.buf c', status r.result)
  stop_refines r d b c c' o e p =
      same o
      ∙ ap (λ x. (with_wire B r.decoder r.buf x.0, status o)) p
      ∙ ap (λ q. (with_wire B r.decoder r.buf c', status q)) (sym e)
    where
      same :
          (o : Result ProtocolError (Option RtmpChunk))
          → stopped B h now (with_wire B d b c) r o ≡ (with_wire B r.decoder r.buf c, status o)
      same (ok o) = refl
      same (err e) = refl
      same panic = refl

  module _ (fuel : ℕ)
      (rec : (d : ChunkDecoder) (b : Bytes) (c : Connection B)
        → Refines (drain fuel chunk_effect d b) c (process B h now fuel (with_wire B d b c))) where
    round-Refines :
        (r : Decoded) (d : ChunkDecoder) (b : Bytes) (c : Connection B)
        (o : Result ProtocolError (Option RtmpChunk))
        → r.result ≡ o
        → Refines
            (Receive.round (drain fuel chunk_effect) chunk_effect b r o)
            c
            (round B h now (process B h now fuel) (with_wire B d b c) r o)
    unfolding handle_all
    round-Refines r d b c (ok (some x)) e c' p =
        let rest = (drain fuel chunk_effect (chunk_effect x r.decoder) r.buf).messages in
        let q = first_succeeds (handle_chunk B h now x c) rest c' p in
        ap (λ o. and_then B o (process B h now fuel))
          (handle_chunk-with_wire x r.decoder r.buf c
            ∙ ap (wired B (chunk_effect x r.decoder) r.buf) q.0)
        ∙ rec (chunk_effect x r.decoder) r.buf (handle_chunk B h now x c).0 c' q.1
    round-Refines r d b c (ok none) e c' p = on (ltb (length r.buf) (length b)) p
      where
        on :
            (t : Bool)
            → let more = drain fuel chunk_effect r.decoder r.buf in
              let end : Drained = if t then more else record { messages = []; last = r } in
              handle_all end.messages c ≡ done B c'
              → (if t
                  then process B h now fuel (with_wire B r.decoder r.buf c)
                  else stopped B h now (with_wire B d b c) r (ok none))
                ≡ (with_wire B end.last.decoder end.last.buf c', status end.last.result)
        on true p = rec r.decoder r.buf c c' p
        on false p = stop_refines r d b c c' (ok none) e p
    round-Refines r d b c (err x) e c' p = stop_refines r d b c c' (err x) e p
    round-Refines r d b c panic e c' p = stop_refines r d b c c' panic e p

  process-Refines :
      (fuel : ℕ) (d : ChunkDecoder) (b : Bytes) (c : Connection B)
      → Refines (drain fuel chunk_effect d b) c (process B h now fuel (with_wire B d b c))
  unfolding process drain handle_all
  process-Refines zero d b c c' p =
      let r = Decoder.decode d b in stop_refines r d b c c' r.result refl p
  process-Refines (suc fuel) d b c c' p =
      let r = Decoder.decode d b in
      round-Refines fuel (process-Refines fuel) r d b c r.result refl c' p

  -- On any decoder and any read buffer: where the handlers of the messages that the chunk codec takes
  -- off the buffer succeed, in their order, the first loop of `read_and_process` leaves the
  -- connection as they do, but for the decoder and the buffer, which are as the codec leaves them;
  -- it fails exactly where the codec's last call of `decode` does.
  pub process_buffer_refines :
      (d : ChunkDecoder) (b : Bytes) (c c' : Connection B)
      → handle_all (drain_all chunk_effect d b).messages c ≡ done B c'
      → process_buffer B h now (with_wire B d b c) ≡ (
        with_wire B
            (drain_all chunk_effect d b).last.decoder
            (drain_all chunk_effect d b).last.buf
            c',
        status (drain_all chunk_effect d b).last.result,
      )
  unfolding process_buffer drain_all
  process_buffer_refines d b c c' p = process-Refines (suc (length b)) d b c c' p

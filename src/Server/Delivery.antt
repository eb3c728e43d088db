-- ===== src/Server/Delivery.antt =====
-- From a client's messages to the handlers of the server, through both codecs
-- (protocol/message.rs, protocol/chunk.rs, server/connection.rs).
use rtmp_rs.Prelude.{
  ℕ, Bool, true, false, ◌≡◌, refl, sym, ap, ◌∙◌, none, some, List, [], ◌∷◌, ◌++◌, append-nil, All,
  ok,
}
use mathlib.Core.Path.{fun_ext}
use rtmp_rs.Bytes.{Bytes}
use rtmp_rs.Chunk.State.{RtmpChunk}
use rtmp_rs.Chunk.Peek.{parse_basic_header}
use rtmp_rs.Chunk.Decoder
use rtmp_rs.Chunk.Decoder.{ChunkDecoder}
use rtmp_rs.Chunk.Receive.{Drained, hand_on_all, drain, drain_all}
use rtmp_rs.Chunk.Encoder.{ChunkEncoder}
use rtmp_rs.Chunk.Pair.{Paired, encode_all, AllSendable, drain_all-encode_all}
use rtmp_rs.Registry.Entry.{Broadcast}
use rtmp_rs.Message.Types.{
  RtmpMessage, set_chunk_size, abort, acknowledgement, window_ack_size, user_control,
  set_peer_bandwidth, audio, video, command, command_amf3, data_message, data_amf3, aggregate,
  unknown_message,
}
use rtmp_rs.Message.RoundTrip.{chunk_of, from_chunk-encode}
use rtmp_rs.Message.Sendable.{IsSendable, arrives}
use rtmp_rs.Server.Handler.{Handler}
use rtmp_rs.Server.Connection.{Connection, Outcome, done, and_then}
use rtmp_rs.Server.Receive.{handle_message, handle_chunk, parsed_on, process_buffer}
use rtmp_rs.Server.Wire.{with_wire}
use rtmp_rs.Server.Naturality.{message_effect, parsed_effect, chunk_effect}
use rtmp_rs.Server.Channel.{handle_all, status, process_buffer_refines}

-- A message and where it is sent.
pub record Sending : Type 0 where
  pub csid : ℕ
  pub timestamp : ℕ
  pub stream_id : ℕ
  pub message : RtmpMessage

abbrev pub chunk_for : Sending → RtmpChunk
chunk_for s = chunk_of s.csid s.timestamp s.stream_id s.message

unfoldable pub chunks_for : List Sending → List RtmpChunk
chunks_for [] = []
chunks_for (s ∷ ss) = chunk_for s ∷ chunks_for ss

abbrev pub as_received : Sending → RtmpMessage
as_received s = arrives s.timestamp s.stream_id s.message

-- Messages that leave the decoder alone.
abbrev pub leaves_decoder : RtmpMessage → Bool
leaves_decoder (set_chunk_size size) = false
leaves_decoder (abort csid) = false
leaves_decoder _ = true

abbrev pub IsDeliverable : Sending → Type 0
IsDeliverable s = IsSendable s.message × (leaves_decoder s.message ≡ true)

hand_on_all-messages :
    (cs : List RtmpChunk) (r : Drained) → (hand_on_all cs r).messages ≡ cs ++ r.messages
hand_on_all-messages [] r = refl
hand_on_all-messages (x ∷ cs) r = ap (λ l. x ∷ l) (hand_on_all-messages cs r)

hand_on_all-last : (cs : List RtmpChunk) (r : Drained) → (hand_on_all cs r).last ≡ r.last
hand_on_all-last [] r = refl
hand_on_all-last (x ∷ cs) r = hand_on_all-last cs r

abbrev drained : ChunkDecoder → Drained
drained d = record { messages = []; last = record { decoder = d; buf = []; result = ok none } }

drain_all-nil :
    (f : RtmpChunk → ChunkDecoder → ChunkDecoder) (d : ChunkDecoder) → drain_all f d [] ≡ drained d
unfolding drain_all drain Decoder.decode parse_basic_header
drain_all-nil f d = refl

arrives-effect :
    (ts sid : ℕ) (m : RtmpMessage) (d : ChunkDecoder)
    → leaves_decoder m ≡ true
    → message_effect (arrives ts sid m) d ≡ d
unfolding message_effect
arrives-effect ts sid (set_chunk_size size) d h = cc
arrives-effect ts sid (abort csid) d h = cc
arrives-effect ts sid (acknowledgement n) d h = refl
arrives-effect ts sid (window_ack_size n) d h = refl
arrives-effect ts sid (user_control e) d h = refl
arrives-effect ts sid (set_peer_bandwidth n l) d h = refl
arrives-effect ts sid (audio t bytes) d h = refl
arrives-effect ts sid (video t bytes) d h = refl
arrives-effect ts sid (command c) d h = refl
arrives-effect ts sid (command_amf3 c) d h = refl
arrives-effect ts sid (data_message c) d h = refl
arrives-effect ts sid (data_amf3 c) d h = refl
arrives-effect ts sid (aggregate bytes) d h = refl
arrives-effect ts sid (unknown_message t bytes) d h = refl

chunk_for-effect :
    (s : Sending) (d : ChunkDecoder) → IsDeliverable s → chunk_effect (chunk_for s) d ≡ d
unfolding chunk_effect
chunk_for-effect s d (sendable, quiet) =
    ap (λ p. parsed_effect p d)
      (from_chunk-encode s.csid s.timestamp s.stream_id s.message sendable)
    ∙ arrives-effect s.timestamp s.stream_id s.message d quiet

chunks_quiet :
    (ss : List Sending)
    → All IsDeliverable ss
    → All (λ x. (d : ChunkDecoder) → chunk_effect x d ≡ d) (chunks_for ss)
unfolding chunks_for
chunks_quiet [] h = tt
chunks_quiet (s ∷ ss) (h, hs) = ((λ d. chunk_for-effect s d h), chunks_quiet ss hs)

module _ (B : Broadcast) (h : Handler) (now : ℕ) where
  -- The handlers of the messages as they were sent, in order.
  unfoldable pub handle_messages : List Sending → Connection B → Outcome B
  handle_messages [] c = done B c
  handle_messages (s ∷ ss) c =
      and_then B (handle_message B h now (as_received s) c) (handle_messages ss)

  handle_chunk-message :
      (s : Sending) (c : Connection B)
      → IsSendable s.message
      → handle_chunk B h now (chunk_for s) c ≡ handle_message B h now (as_received s) c
  unfolding handle_chunk
  handle_chunk-message s c sendable =
      ap (parsed_on B h now c) (from_chunk-encode s.csid s.timestamp s.stream_id s.message sendable)

  handle_all-chunks :
      (ss : List Sending)
      → All IsDeliverable ss
      → handle_all B h now (chunks_for ss) ≡ handle_messages ss
  unfolding handle_all handle_messages chunks_for
  handle_all-chunks [] d = refl
  handle_all-chunks (s ∷ ss) (d, ds) = fun_ext (λ c.
      ap (λ o. and_then B o (handle_all B h now (chunks_for ss))) (handle_chunk-message s c d.0)
      ∙ ap (and_then B (handle_message B h now (as_received s) c)) (handle_all-chunks ss ds))

  -- What a client sends over an encoder that is paired with the connection's decoder, the
  -- connection handles as the messages that were sent, in their order: with all the bytes in the
  -- read buffer, the first loop of `read_and_process` does what the handlers of the messages do one
  -- after the other, takes all bytes, and leaves the two ends paired. The conditions: the encoding
  -- of each message can hold it and the message does not change the decoder (`IsDeliverable`); each
  -- can be sent at its turn (`Sendable`): its chunk stream is one that the headers can name, its
  -- timestamp is below 0xFFFFFF and does not go back on its chunk stream, its payload is not empty
  -- and below 2^24 bytes, and where it needs the full header, the chunk stream's last timestamp is
  -- 0; and the handlers succeed.
  pub process_buffer-encode_all :
      (ss : List Sending) (e : ChunkEncoder) (c c' : Connection B)
      → Paired e c.chunk_decoder
      → All IsDeliverable ss
      → AllSendable e (chunks_for ss)
      → handle_messages ss c ≡ done B c'
      → (e' : ChunkEncoder) × (bytes : Bytes) × (d' : ChunkDecoder) × (encode_all e (chunks_for ss)
          ≡ some (e', bytes))
        × Paired e' d'
        × (process_buffer B h now (with_wire B c.chunk_decoder bytes c)
            ≡ done B (with_wire B d' [] c'))
  process_buffer-encode_all ss e c c' pair deliverable sendable handled =
      let (e', bytes, d', written, pair', got) =
        drain_all-encode_all chunk_effect (chunks_for ss) e c.chunk_decoder pair sendable
          (chunks_quiet ss deliverable) in
      let all : drain_all chunk_effect c.chunk_decoder bytes
          ≡ hand_on_all (chunks_for ss) (drained d') =
        ap (drain_all chunk_effect c.chunk_decoder) (sym (append-nil bytes))
        ∙ got []
        ∙ ap (hand_on_all (chunks_for ss)) (drain_all-nil chunk_effect d') in
      let messages : (drain_all chunk_effect c.chunk_decoder bytes).messages ≡ chunks_for ss =
        ap (λ r. r.messages) all
        ∙ hand_on_all-messages (chunks_for ss) (drained d')
        ∙ append-nil (chunks_for ss) in
      let last : (drain_all chunk_effect c.chunk_decoder bytes).last ≡ (drained d').last =
        ap (λ r. r.last) all ∙ hand_on_all-last (chunks_for ss) (drained d') in
      (
        e',
        bytes,
        d',
        written,
        pair',
        process_buffer_refines B h now c.chunk_decoder bytes c c' (
              ap (λ l. handle_all B h now l c) messages
              ∙ ap (λ f. f c) (handle_all-chunks ss deliverable)
              ∙ handled)
            ∙ ap (λ l. (with_wire B l.decoder l.buf c', status B h now l.result)) last,
      )

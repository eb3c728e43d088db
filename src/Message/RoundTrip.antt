-- ===== src/Message/RoundTrip.antt =====
-- What `RtmpMessage::encode` writes, `from_chunk` reads back (protocol/message.rs).
use rtmp_rs.Prelude.{
  ℕ, ◌≤◌, ◌<◌, ◌≡◌, refl, ap, ◌∙◌, some, [], ◌∷◌, ◌++◌, length, length-append, ok, arith,
}
use rtmp_rs.Bytes.{Bytes, get_u32, put_u32, be32-put_u32}
use rtmp_rs.Chunk.State.{RtmpChunk}
use rtmp_rs.Amf.Text.{be16-put_u16}
use rtmp_rs.Amf.Value.{string, number}
use rtmp_rs.Amf.Encoder
use rtmp_rs.Amf.Encoder.{encode_elements}
use rtmp_rs.Amf.Decoder
use rtmp_rs.Amf.Reads.{Amf0Decoder}
use rtmp_rs.Amf.Decoder.{decode}
use rtmp_rs.Amf.Encodable.{normal, IsEncodable, with_references}
use rtmp_rs.Amf.RoundTrip.{encode-length}
use rtmp_rs.Message.Types.{
  UserControlEvent, stream_begin, stream_eof, stream_dry, stream_is_recorded, ping_request,
  ping_response, set_buffer_length, unknown_event, Command, DataMessage, RtmpMessage,
  set_chunk_size, abort, acknowledgement, window_ack_size, user_control, set_peer_bandwidth, audio,
  video, command, command_amf3, data_message, data_amf3, aggregate, unknown_message,
}
use rtmp_rs.Message.Encode.{encode_command, encode_data, encode_event, encode}
use rtmp_rs.Message.Parse.{
  Parsed, and_then, map_parsed, parse_object, with_object, with_name, with_handler, parse_command,
  parse_data, transaction_of, command_of, data_of, with_u32, parse_user_control, from_chunk,
  parse_values,
}
use rtmp_rs.Message.Sendable.{
  normal_command, normal_data, IsSendableCommand, IsSendableData, IsSendableEvent, IsSendable,
  arrives,
}
use rtmp_rs.Message.Arguments.{decode_front, rest_back}

parse_object-filled :
    (stream_id : ℕ) (name : Bytes) (transaction : ℕ) (d : Amf0Decoder) (buf : Bytes)
    → 1 ≤ length buf
    → parse_object stream_id name transaction d buf
      ≡ and_then (decode d buf) (with_object stream_id name transaction)
unfolding parse_values
parse_object-filled stream_id name transaction d [] h = absurd (omega arith)
parse_object-filled stream_id name transaction d (m ∷ buf) h = refl

pub parse_command-encode_command :
    (c : Command) (stream_id : ℕ)
    → IsSendableCommand c
    → parse_command (encode_command c) stream_id ≡ some (ok (normal_command stream_id c))
unfolding parse_command encode_command Decoder.new normal IsEncodable
parse_command-encode_command c stream_id (name, transaction, value, arguments) =
    let rest₂ = Encoder.encode c.command_object ++ encode_elements c.arguments in
    let rest₁ = Encoder.encode (number c.transaction_id) ++ rest₂ in
    let (refs, h) =
      decode_front (string c.name) Decoder.new rest₁ (with_name stream_id) name refl in
    let d₁ = with_references Decoder.new refs in
    let (refs₂, h₂) =
      decode_front (number c.transaction_id) d₁ rest₂
        (λ d' buf' v. parse_object stream_id c.name (transaction_of v) d' buf')
        (omega arith, transaction) refl in
    let d₂ = with_references d₁ refs₂ in
    let (refs₃, h₃) =
      decode_front c.command_object d₂ (encode_elements c.arguments)
        (with_object stream_id c.name c.transaction_id) value refl in
    let d₃ = with_references d₂ refs₃ in
    h
    ∙ h₂
    ∙ parse_object-filled stream_id c.name c.transaction_id d₂ rest₂ (
        omega (
          arith,
          encode-length c.command_object,
          length-append (Encoder.encode c.command_object) (encode_elements c.arguments),
        ))
    ∙ h₃
    ∙ ap (map_parsed (command_of stream_id c.name c.transaction_id (normal c.command_object)))
        (rest_back c.arguments d₃ arguments refl)

pub parse_data-encode_data :
    (m : DataMessage) (stream_id : ℕ)
    → IsSendableData m
    → parse_data (encode_data m) stream_id ≡ some (ok (normal_data stream_id m))
unfolding parse_data encode_data Decoder.new normal IsEncodable
parse_data-encode_data m stream_id (name, values) =
    let (refs, h) =
      decode_front (string m.name) Decoder.new (encode_elements m.values) (with_handler stream_id)
        name refl in
    h
    ∙ ap (map_parsed (data_of stream_id m.name))
        (rest_back m.values (with_references Decoder.new refs) values refl)

-- Four bytes of a number are that number.
with_u32-put_u32 :
    {A : Type 0} (n : ℕ) (rest : Bytes) (make : ℕ → Bytes → Parsed A)
    → n < 4294967296
    → with_u32 make (get_u32 (put_u32 n ++ rest)) ≡ make n rest
with_u32-put_u32 n rest make h = ap (λ k. make k rest) (be32-put_u32 n h)

parse_user_control-encode_event :
    (event : UserControlEvent)
    → IsSendableEvent event
    → parse_user_control (encode_event event) ≡ some (ok (user_control event))
unfolding parse_user_control encode_event
parse_user_control-encode_event (stream_begin n) h =
    ap (λ k. some (ok (user_control (stream_begin k)))) (be32-put_u32 n h)
parse_user_control-encode_event (stream_eof n) h =
    ap (λ k. some (ok (user_control (stream_eof k)))) (be32-put_u32 n h)
parse_user_control-encode_event (stream_dry n) h =
    ap (λ k. some (ok (user_control (stream_dry k)))) (be32-put_u32 n h)
parse_user_control-encode_event (stream_is_recorded n) h =
    ap (λ k. some (ok (user_control (stream_is_recorded k)))) (be32-put_u32 n h)
parse_user_control-encode_event (ping_request n) h =
    ap (λ k. some (ok (user_control (ping_request k)))) (be32-put_u32 n h)
parse_user_control-encode_event (ping_response n) h =
    ap (λ k. some (ok (user_control (ping_response k)))) (be32-put_u32 n h)
parse_user_control-encode_event (set_buffer_length id ms) h =
    ground (arith, be32-put_u32 id, be32-put_u32 ms)
parse_user_control-encode_event (unknown_event event_type bytes) h =
    ground (arith, be16-put_u16 event_type)

-- The chunk that carries a message.
abbrev pub chunk_of : ℕ → ℕ → ℕ → RtmpMessage → RtmpChunk
chunk_of csid timestamp stream_id m = record {
  csid = csid;
  timestamp = timestamp;
  message_type = (encode m).0;
  stream_id = stream_id;
  payload = (encode m).1;
}

-- Every message that its encoding can hold is parsed again from a chunk that carries it: media take
-- the timestamp of the chunk, commands and data messages its stream id and the values that AMF0
-- gives back.
pub from_chunk-encode :
    (csid timestamp stream_id : ℕ) (m : RtmpMessage)
    → IsSendable m
    → from_chunk (chunk_of csid timestamp stream_id m) ≡ some (ok (arrives timestamp stream_id m))
unfolding from_chunk encode
from_chunk-encode csid ts sid (set_chunk_size size) h = ground (arith, be32-put_u32 size)
from_chunk-encode csid ts sid (abort n) h = ap (λ k. some (ok (abort k))) (be32-put_u32 n h)
from_chunk-encode csid ts sid (acknowledgement n) h =
    ap (λ k. some (ok (acknowledgement k))) (be32-put_u32 n h)
from_chunk-encode csid ts sid (window_ack_size n) h =
    ap (λ k. some (ok (window_ack_size k))) (be32-put_u32 n h)
from_chunk-encode csid ts sid (user_control event) h = parse_user_control-encode_event event h
from_chunk-encode csid ts sid (set_peer_bandwidth size limit_type) h =
    ground (arith, be32-put_u32 size)
from_chunk-encode csid ts sid (audio _ bytes) h = refl
from_chunk-encode csid ts sid (video _ bytes) h = refl
from_chunk-encode csid ts sid (command c) h =
    ap (map_parsed command) (parse_command-encode_command c sid h)
from_chunk-encode csid ts sid (command_amf3 c) h =
    ap (map_parsed command_amf3) (parse_command-encode_command c sid h)
from_chunk-encode csid ts sid (data_message m) h =
    ap (map_parsed data_message) (parse_data-encode_data m sid h)
from_chunk-encode csid ts sid (data_amf3 m) h =
    ap (map_parsed data_amf3) (parse_data-encode_data m sid h)
from_chunk-encode csid ts sid (aggregate bytes) h = refl
from_chunk-encode csid ts sid (unknown_message type_id bytes) h = ground arith

-- ===== src/Message/Parse.antt =====
-- The parsing of a message from a chunk (`RtmpMessage::from_chunk`, protocol/message.rs).
use rtmp_rs.Prelude.{
  ℕ, zero, suc, ◌%◌, Option, none, some, [], ◌∷◌, if◌then◌else◌, ltb, ◌==◌, length, is_empty,
  Result, ok, err, panic,
}
use rtmp_rs.Bytes.{Bytes, get_u8, get_u32}
use rtmp_rs.Constants.{
  msg_set_chunk_size, msg_abort, msg_acknowledgement, msg_user_control, msg_window_ack_size,
  msg_set_peer_bandwidth, msg_audio, msg_video, msg_data_amf3, msg_command_amf3, msg_data_amf0,
  msg_command_amf0, msg_aggregate, uc_stream_begin, uc_stream_eof, uc_stream_dry,
  uc_set_buffer_length, uc_stream_is_recorded, uc_ping_request, uc_ping_response,
}
use rtmp_rs.Error.{invalid_chunk_header, invalid_command}
use rtmp_rs.Chunk.State.{RtmpChunk}
use rtmp_rs.Amf.Text.{get_u16}
use rtmp_rs.Amf.Value.{AmfValue, null, number, string, Elements, no_elements, push_element}
use rtmp_rs.Amf.Decoder
use rtmp_rs.Amf.Reads.{AmfError, unexpected_eof, Amf0Decoder, Step}
use rtmp_rs.Amf.Decoder.{decode}
use rtmp_rs.Message.Types.{
  UserControlEvent, stream_begin, stream_eof, stream_dry, stream_is_recorded, ping_request,
  ping_response, set_buffer_length, unknown_event, Command, DataMessage, RtmpMessage,
  set_chunk_size, abort, acknowledgement, window_ack_size, user_control, set_peer_bandwidth, audio,
  video, command, command_amf3, data_message, data_amf3, aggregate, unknown_message, Error,
  protocol, amf,
}

-- What a parser returns; `none` where the fuel of the AMF decoder does not suffice.
abbrev pub Parsed : Type 0 → Type 0
Parsed A = Option (Result Error A)

abbrev pub refused : {A : Type 0} → Parsed A
refused = some (err (protocol invalid_chunk_header))

-- A read of 32 bits that panics on a short buffer, and what is made of the number.
abbrev pub with_u32 : {A : Type 0} → (ℕ → Bytes → Parsed A) → Option (ℕ × Bytes) → Parsed A
with_u32 make none = some panic
with_u32 make (some (n, rest)) = make n rest

-- The messages of one number, behind the test of their length.
abbrev pub parse_u32 : (ℕ → RtmpMessage) → Bytes → Parsed RtmpMessage
parse_u32 make payload =
    if ltb (length payload) 4
    then refused
    else with_u32 (λ n _. some (ok (make n))) (get_u32 payload)

abbrev limit_of : ℕ → Option (ℕ × Bytes) → Parsed RtmpMessage
limit_of size none = some panic
limit_of size (some (limit_type, _)) = some (ok (set_peer_bandwidth size limit_type))

abbrev pub parse_bandwidth : Bytes → Parsed RtmpMessage
parse_bandwidth payload =
    if ltb (length payload) 5
    then refused
    else with_u32 (λ size rest. limit_of size (get_u8 rest)) (get_u32 payload)

abbrev event_of : (ℕ → UserControlEvent) → Bytes → Parsed RtmpMessage
event_of make rest = with_u32 (λ n _. some (ok (user_control (make n)))) (get_u32 rest)

abbrev buffer_length_of : Bytes → Parsed RtmpMessage
buffer_length_of rest =
    if ltb (length rest) 8
    then refused
    else with_u32
        (λ id more.
          with_u32 (λ ms _. some (ok (user_control (set_buffer_length id ms)))) (get_u32 more))
        (get_u32 rest)

abbrev parse_event : Option (ℕ × Bytes) → Parsed RtmpMessage
parse_event none = some panic
parse_event (some (event_type, rest)) =
    if event_type == uc_stream_begin
    then event_of stream_begin rest
    else if event_type == uc_stream_eof
    then event_of stream_eof rest
    else if event_type == uc_stream_dry
    then event_of stream_dry rest
    else if event_type == uc_set_buffer_length
    then buffer_length_of rest
    else if event_type == uc_stream_is_recorded
    then event_of stream_is_recorded rest
    else if event_type == uc_ping_request
    then event_of ping_request rest
    else if event_type == uc_ping_response
    then event_of ping_response rest
    else some (ok (user_control (unknown_event event_type rest)))

unfoldable pub parse_user_control : Bytes → Parsed RtmpMessage
parse_user_control payload =
    if ltb (length payload) 6 then refused else parse_event (get_u16 payload)

-- The rest of a parser behind a call of `decode`, `?` on its result.
abbrev pub decoded :
    {A : Type 0}
    → (Amf0Decoder → Bytes → AmfValue → Parsed A)
    → Step AmfValue
    → Result AmfError AmfValue
    → Parsed A
decoded go s (ok v) = go s.decoder s.buf v
decoded go s (err e) = some (err (amf e))
decoded go s panic = some panic

abbrev pub and_then :
    {A : Type 0} → Option (Step AmfValue) → (Amf0Decoder → Bytes → AmfValue → Parsed A) → Parsed A
and_then none go = none
and_then (some s) go = decoded go s s.result

abbrev pub after_value :
    (Amf0Decoder → Bytes → Elements → Parsed Elements)
    → Elements
    → Step AmfValue
    → Result AmfError AmfValue
    → Parsed Elements
after_value go vs s (ok v) = go s.decoder s.buf (push_element vs v)
after_value go vs s (err unexpected_eof) = some (ok vs)
after_value go vs s (err e) = some (err (amf e))
after_value go vs s panic = some panic

abbrev pub next_value :
    (Amf0Decoder → Bytes → Elements → Parsed Elements)
    → Elements
    → Option (Step AmfValue)
    → Parsed Elements
next_value go vs none = none
next_value go vs (some s) = after_value go vs s s.result

-- The loop over the values that are left. A value that is cut off ends it and is dropped.
unfoldable pub parse_values : ℕ → Amf0Decoder → Bytes → Elements → Parsed Elements
parse_values fuel d [] vs = some (ok vs)
parse_values zero d (m ∷ buf) vs = none
parse_values (suc fuel) d (m ∷ buf) vs =
    next_value (λ d' buf' vs'. parse_values fuel d' buf' vs') vs (decode d (m ∷ buf))

-- Every value takes a byte at least.
abbrev pub parse_rest : Amf0Decoder → Bytes → Parsed Elements
parse_rest d buf = parse_values (length buf) d buf no_elements

abbrev pub map_parsed : {A B : Type 0} → (A → B) → Parsed A → Parsed B
map_parsed f none = none
map_parsed f (some (ok a)) = some (ok (f a))
map_parsed f (some (err e)) = some (err e)
map_parsed f (some panic) = some panic

abbrev pub transaction_of : AmfValue → ℕ
transaction_of (number n) = n
transaction_of _ = 0

abbrev pub command_of : ℕ → Bytes → ℕ → AmfValue → Elements → Command
command_of stream_id name transaction_id command_object arguments = record {
  name = name;
  transaction_id = transaction_id;
  command_object = command_object;
  arguments = arguments;
  stream_id = stream_id;
}

abbrev pub with_object : ℕ → Bytes → ℕ → Amf0Decoder → Bytes → AmfValue → Parsed Command
with_object stream_id name transaction d buf value =
    map_parsed (command_of stream_id name transaction value) (parse_rest d buf)

-- The command object, null where nothing is left, and the arguments.
abbrev pub parse_object : ℕ → Bytes → ℕ → Amf0Decoder → Bytes → Parsed Command
parse_object stream_id name transaction d buf =
    if is_empty buf
    then with_object stream_id name transaction d buf null
    else and_then (decode d buf) (with_object stream_id name transaction)

abbrev pub with_name : ℕ → Amf0Decoder → Bytes → AmfValue → Parsed Command
with_name stream_id d buf (string name) =
    and_then (decode d buf) (λ d' buf' v. parse_object stream_id name (transaction_of v) d' buf')
with_name stream_id d buf _ = some (err (protocol (invalid_command "Expected command name")))

unfoldable pub parse_command : Bytes → ℕ → Parsed Command
unfolding Decoder.new parse_values
parse_command payload stream_id = and_then (decode Decoder.new payload) (with_name stream_id)

abbrev pub name_of : AmfValue → Bytes
name_of (string s) = s
name_of _ = []

abbrev pub data_of : ℕ → Bytes → Elements → DataMessage
data_of stream_id name values = record { name = name; values = values; stream_id = stream_id }

abbrev pub with_handler : ℕ → Amf0Decoder → Bytes → AmfValue → Parsed DataMessage
with_handler stream_id d buf v = map_parsed (data_of stream_id (name_of v)) (parse_rest d buf)

unfoldable pub parse_data : Bytes → ℕ → Parsed DataMessage
unfolding Decoder.new parse_values
parse_data payload stream_id = and_then (decode Decoder.new payload) (with_handler stream_id)

-- The marker in front of AMF3 messages.
abbrev pub skip_marker : Bytes → Bytes
skip_marker [] = []
skip_marker (m ∷ payload) = if m == 0 then payload else m ∷ payload

-- The parser for a message type.
unfoldable pub parse : ℕ → ℕ → ℕ → Bytes → Parsed RtmpMessage
unfolding parse_user_control parse_command parse_data
parse message_type timestamp stream_id payload =
    if message_type == msg_set_chunk_size
    then parse_u32 (λ n. set_chunk_size (n % 2147483648)) payload
    else if message_type == msg_abort
    then parse_u32 abort payload
    else if message_type == msg_acknowledgement
    then parse_u32 acknowledgement payload
    else if message_type == msg_user_control
    then parse_user_control payload
    else if message_type == msg_window_ack_size
    then parse_u32 window_ack_size payload
    else if message_type == msg_set_peer_bandwidth
    then parse_bandwidth payload
    else if message_type == msg_audio
    then some (ok (audio timestamp payload))
    else if message_type == msg_video
    then some (ok (video timestamp payload))
    else if message_type == msg_command_amf0
    then map_parsed command (parse_command payload stream_id)
    else if message_type == msg_command_amf3
    then map_parsed command_amf3 (parse_command (skip_marker payload) stream_id)
    else if message_type == msg_data_amf0
    then map_parsed data_message (parse_data payload stream_id)
    else if message_type == msg_data_amf3
    then map_parsed data_amf3 (parse_data (skip_marker payload) stream_id)
    else if message_type == msg_aggregate
    then some (ok (aggregate payload))
    else some (ok (unknown_message message_type payload))

unfoldable pub from_chunk : RtmpChunk → Parsed RtmpMessage
unfolding parse
from_chunk c = parse c.message_type c.timestamp c.stream_id c.payload

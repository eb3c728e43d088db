-- ===== src/Message/Sendable.antt =====
-- The messages that their encoding can hold, and what they are when they arrive
-- (protocol/message.rs).
use rtmp_rs.Prelude.{ℕ, ◌≤◌, ◌<◌, ◌≡◌, Bool, false, ◌&&◌, ◌||◌, ◌⊎◌, ◌==◌, leb, length}
use rtmp_rs.Amf.Value.{string}
use rtmp_rs.Amf.Encodable.{normal, normal_elements, IsEncodable, AllEncodable}
use rtmp_rs.Message.Types.{
  UserControlEvent, stream_begin, stream_eof, stream_dry, stream_is_recorded, ping_request,
  ping_response, set_buffer_length, unknown_event, Command, DataMessage, RtmpMessage,
  set_chunk_size, abort, acknowledgement, window_ack_size, user_control, set_peer_bandwidth, audio,
  video, command, command_amf3, data_message, data_amf3, aggregate, unknown_message,
}

-- A command as it arrives: with its values after a round trip, and the stream id of its chunk.
abbrev pub normal_command : ℕ → Command → Command
normal_command stream_id c = record c {
  command_object = normal c.command_object;
  arguments = normal_elements c.arguments;
  stream_id = stream_id;
}

abbrev pub normal_data : ℕ → DataMessage → DataMessage
normal_data stream_id m = record m { values = normal_elements m.values; stream_id = stream_id }

-- Commands and data messages whose values AMF0 can hold.
abbrev pub IsSendableCommand : Command → Type 0
IsSendableCommand c =
    IsEncodable 64 (string c.name)
    × (c.transaction_id < 18446744073709551616)
    × IsEncodable 64 c.command_object
    × AllEncodable 64 c.arguments

abbrev pub IsSendableData : DataMessage → Type 0
IsSendableData m = IsEncodable 64 (string m.name) × AllEncodable 64 m.values

-- The types of messages that have a form of their own.
abbrev pub known_type : ℕ → Bool
known_type t =
    (leb 1 t && leb t 6)
    || (t == 8 || (t == 9 || (t == 15 || (t == 17 || (t == 18 || (t == 20 || t == 22))))))

abbrev pub IsSendableEvent : UserControlEvent → Type 0
IsSendableEvent (stream_begin n) = n < 4294967296
IsSendableEvent (stream_eof n) = n < 4294967296
IsSendableEvent (stream_dry n) = n < 4294967296
IsSendableEvent (stream_is_recorded n) = n < 4294967296
IsSendableEvent (ping_request n) = n < 4294967296
IsSendableEvent (ping_response n) = n < 4294967296
IsSendableEvent (set_buffer_length id ms) = (id < 4294967296) × (ms < 4294967296)
IsSendableEvent (unknown_event event_type bytes) =
    ((event_type ≡ 5) ⊎ (7 < event_type)) × (event_type < 65536) × (4 ≤ length bytes)

-- A message that its encoding can hold, the marker of AMF3 messages included.
abbrev pub IsSendable : RtmpMessage → Type 0
IsSendable (set_chunk_size size) = size < 2147483648
IsSendable (abort csid) = csid < 4294967296
IsSendable (acknowledgement sequence) = sequence < 4294967296
IsSendable (window_ack_size size) = size < 4294967296
IsSendable (user_control event) = IsSendableEvent event
IsSendable (set_peer_bandwidth size limit_type) = (size < 4294967296) × (limit_type < 256)
IsSendable (audio timestamp bytes) = Unit {0}
IsSendable (video timestamp bytes) = Unit {0}
IsSendable (command c) = IsSendableCommand c
IsSendable (command_amf3 c) = IsSendableCommand c
IsSendable (data_message m) = IsSendableData m
IsSendable (data_amf3 m) = IsSendableData m
IsSendable (aggregate bytes) = Unit {0}
IsSendable (unknown_message type_id bytes) = known_type type_id ≡ false

-- A message as it arrives in a chunk with this timestamp and stream id.
abbrev pub arrives : ℕ → ℕ → RtmpMessage → RtmpMessage
arrives timestamp stream_id (audio _ bytes) = audio timestamp bytes
arrives timestamp stream_id (video _ bytes) = video timestamp bytes
arrives timestamp stream_id (command c) = command (normal_command stream_id c)
arrives timestamp stream_id (command_amf3 c) = command_amf3 (normal_command stream_id c)
arrives timestamp stream_id (data_message m) = data_message (normal_data stream_id m)
arrives timestamp stream_id (data_amf3 m) = data_amf3 (normal_data stream_id m)
arrives timestamp stream_id m = m

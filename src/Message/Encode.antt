-- ===== src/Message/Encode.antt =====
-- The encoding of a message: its type and its payload (`RtmpMessage::encode`, protocol/message.rs).
use rtmp_rs.Prelude.{ℕ, [], ◌∷◌, ◌++◌}
use rtmp_rs.Bytes.{Bytes, u8, put_u32}
use rtmp_rs.Constants.{
  msg_set_chunk_size, msg_abort, msg_acknowledgement, msg_user_control, msg_window_ack_size,
  msg_set_peer_bandwidth, msg_audio, msg_video, msg_data_amf3, msg_command_amf3, msg_data_amf0,
  msg_command_amf0, msg_aggregate, uc_stream_begin, uc_stream_eof, uc_stream_dry,
  uc_set_buffer_length, uc_stream_is_recorded, uc_ping_request, uc_ping_response,
}
use rtmp_rs.Amf.Text.{put_u16}
use rtmp_rs.Amf.Value.{string, number}
use rtmp_rs.Amf.Encoder
use rtmp_rs.Amf.Encoder.{encode_elements}
use rtmp_rs.Message.Types.{
  UserControlEvent, stream_begin, stream_eof, stream_dry, stream_is_recorded, ping_request,
  ping_response, set_buffer_length, unknown_event, Command, DataMessage, RtmpMessage,
  set_chunk_size, abort, acknowledgement, window_ack_size, user_control, set_peer_bandwidth, audio,
  video, command, command_amf3, data_message, data_amf3, aggregate, unknown_message,
}

unfoldable pub encode_command : Command → Bytes
encode_command c =
    Encoder.encode (string c.name)
    ++ (Encoder.encode (number c.transaction_id)
        ++ (Encoder.encode c.command_object ++ encode_elements c.arguments))

unfoldable pub encode_data : DataMessage → Bytes
encode_data m = Encoder.encode (string m.name) ++ encode_elements m.values

unfoldable pub encode_event : UserControlEvent → Bytes
encode_event (stream_begin id) = put_u16 uc_stream_begin ++ put_u32 id
encode_event (stream_eof id) = put_u16 uc_stream_eof ++ put_u32 id
encode_event (stream_dry id) = put_u16 uc_stream_dry ++ put_u32 id
encode_event (set_buffer_length id ms) = put_u16 uc_set_buffer_length ++ (put_u32 id ++ put_u32 ms)
encode_event (stream_is_recorded id) = put_u16 uc_stream_is_recorded ++ put_u32 id
encode_event (ping_request ts) = put_u16 uc_ping_request ++ put_u32 ts
encode_event (ping_response ts) = put_u16 uc_ping_response ++ put_u32 ts
encode_event (unknown_event event_type bytes) = put_u16 event_type ++ bytes

unfoldable pub encode : RtmpMessage → ℕ × Bytes
unfolding encode_command encode_data encode_event
encode (set_chunk_size size) = (msg_set_chunk_size, put_u32 size)
encode (abort csid) = (msg_abort, put_u32 csid)
encode (acknowledgement sequence) = (msg_acknowledgement, put_u32 sequence)
encode (window_ack_size size) = (msg_window_ack_size, put_u32 size)
encode (set_peer_bandwidth size limit_type) =
    (msg_set_peer_bandwidth, put_u32 size ++ (u8 limit_type ∷ []))
encode (user_control event) = (msg_user_control, encode_event event)
encode (audio timestamp bytes) = (msg_audio, bytes)
encode (video timestamp bytes) = (msg_video, bytes)
encode (command c) = (msg_command_amf0, encode_command c)
encode (command_amf3 c) = (msg_command_amf3, 0 ∷ encode_command c)
encode (data_message m) = (msg_data_amf0, encode_data m)
encode (data_amf3 m) = (msg_data_amf3, 0 ∷ encode_data m)
encode (aggregate bytes) = (msg_aggregate, bytes)
encode (unknown_message type_id bytes) = (type_id, bytes)

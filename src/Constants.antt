-- ===== src/Constants.antt =====
-- The numbers of protocol/constants.rs that the modelled code uses.
use rtmp_rs.Prelude.{ℕ, ◌*◌}

abbrev pub rtmp_version : ℕ
rtmp_version = 3

abbrev pub handshake_size : ℕ
handshake_size = 1536

abbrev pub default_chunk_size : ℕ
default_chunk_size = 128

abbrev pub max_chunk_size : ℕ
max_chunk_size = 0xFFFFFF

abbrev pub max_message_size : ℕ
max_message_size = 16 * 1024 * 1024

abbrev pub extended_timestamp_threshold : ℕ
extended_timestamp_threshold = 0xFFFFFF

-- The message types.
abbrev pub msg_set_chunk_size : ℕ
msg_set_chunk_size = 1

abbrev pub msg_abort : ℕ
msg_abort = 2

abbrev pub msg_acknowledgement : ℕ
msg_acknowledgement = 3

abbrev pub msg_user_control : ℕ
msg_user_control = 4

abbrev pub msg_window_ack_size : ℕ
msg_window_ack_size = 5

abbrev pub msg_set_peer_bandwidth : ℕ
msg_set_peer_bandwidth = 6

abbrev pub msg_audio : ℕ
msg_audio = 8

abbrev pub msg_video : ℕ
msg_video = 9

abbrev pub msg_data_amf3 : ℕ
msg_data_amf3 = 15

abbrev pub msg_command_amf3 : ℕ
msg_command_amf3 = 17

abbrev pub msg_data_amf0 : ℕ
msg_data_amf0 = 18

abbrev pub msg_command_amf0 : ℕ
msg_command_amf0 = 20

abbrev pub msg_aggregate : ℕ
msg_aggregate = 22

-- The events of user control messages.
abbrev pub uc_stream_begin : ℕ
uc_stream_begin = 0

abbrev pub uc_stream_eof : ℕ
uc_stream_eof = 1

abbrev pub uc_stream_dry : ℕ
uc_stream_dry = 2

abbrev pub uc_set_buffer_length : ℕ
uc_set_buffer_length = 3

abbrev pub uc_stream_is_recorded : ℕ
uc_stream_is_recorded = 4

abbrev pub uc_ping_request : ℕ
uc_ping_request = 6

abbrev pub uc_ping_response : ℕ
uc_ping_response = 7

abbrev pub bandwidth_limit_dynamic : ℕ
bandwidth_limit_dynamic = 2

-- The chunk stream ids of the server.
abbrev pub csid_protocol_control : ℕ
csid_protocol_control = 2

abbrev pub csid_command : ℕ
csid_command = 3

abbrev pub csid_audio : ℕ
csid_audio = 4

abbrev pub csid_video : ℕ
csid_video = 6

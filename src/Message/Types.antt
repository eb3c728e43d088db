-- ===== src/Message/Types.antt =====
-- The parsed messages (protocol/message.rs) and the errors that parsing and handling return
-- (error.rs). A `String` is the list of its bytes, a float its 64 bits.
use rtmp_rs.Prelude.{ℕ}
use rtmp_rs.Bytes.{Bytes}
use rtmp_rs.Error.{ProtocolError}
use rtmp_rs.Amf.Value.{AmfValue, Elements}
use rtmp_rs.Amf.Reads.{AmfError}

pub data UserControlEvent : Type 0 where
  stream_begin stream_eof stream_dry stream_is_recorded : ℕ → UserControlEvent
  ping_request ping_response : ℕ → UserControlEvent
  set_buffer_length : ℕ → ℕ → UserControlEvent  -- stream_id, buffer_ms
  unknown_event : ℕ → Bytes → UserControlEvent  -- event_type, data

pub record Command : Type 0 where
  pub name : Bytes
  pub transaction_id : ℕ  -- f64
  pub command_object : AmfValue
  pub arguments : Elements
  pub stream_id : ℕ  -- u32

pub record DataMessage : Type 0 where
  pub name : Bytes
  pub values : Elements
  pub stream_id : ℕ  -- u32

-- `audio` and `video` hold the timestamp, `set_peer_bandwidth` the size and the limit type,
-- `unknown_message` the type.
pub data RtmpMessage : Type 0 where
  set_chunk_size abort acknowledgement window_ack_size : ℕ → RtmpMessage
  user_control : UserControlEvent → RtmpMessage
  set_peer_bandwidth : ℕ → ℕ → RtmpMessage
  audio video : ℕ → Bytes → RtmpMessage
  command command_amf3 : Command → RtmpMessage
  data_message data_amf3 : DataMessage → RtmpMessage
  aggregate : Bytes → RtmpMessage
  unknown_message : ℕ → Bytes → RtmpMessage

-- The kinds of `Error` that the modelled code returns; `rejected` without its text.
pub data Error : Type 0 where
  protocol : ProtocolError → Error
  amf : AmfError → Error
  rejected : Error

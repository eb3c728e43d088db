-- ===== src/Server/Connection.antt =====
-- The state of a connection and what it sends (`Connection`, server/connection.rs). Writes to the
-- socket succeed. The codec last seen, which is kept for the log alone, is not modelled.
use rtmp_rs.Prelude.{
  ℕ, Bool, false, Option, none, some, List, [], ◌∷◌, ◌++◌, is_empty, if◌then◌else◌, Result, ok, err,
  panic,
}
use rtmp_rs.Prelude.Map.{HashMap}
use rtmp_rs.Bytes.{Bytes, u32}
use rtmp_rs.Constants.{
  csid_protocol_control, csid_command, csid_audio, csid_video, bandwidth_limit_dynamic,
}
use rtmp_rs.Chunk.State.{RtmpChunk}
use rtmp_rs.Chunk.Decoder
use rtmp_rs.Chunk.Decoder.{ChunkDecoder}
use rtmp_rs.Amf.Value.{null, string, object, no_elements, element}
use rtmp_rs.Message.Types.{
  Error, Command, DataMessage, RtmpMessage, UserControlEvent, set_chunk_size, acknowledgement,
  window_ack_size, set_peer_bandwidth, user_control, audio, video, command, data_message,
  ping_response,
}
use rtmp_rs.Message.Commands.{
  error, cmd_on_metadata, nc_connect_rejected, new_builder, enhanced_capabilities, build,
  status_info, with_text,
}
use rtmp_rs.Prelude.Text.{codes}
use rtmp_rs.Message.RoundTrip.{chunk_of}
use rtmp_rs.Enhanced.Capabilities.{
  EnhancedCapabilities, EnhancedRtmpMode, EnhancedServerCapabilities,
}
use rtmp_rs.Registry.Frame.{StreamKey}
use rtmp_rs.Registry.Entry.{Broadcast}
use rtmp_rs.Registry.Store.{StreamRegistry}
use rtmp_rs.Session.State
use rtmp_rs.Session.State.{SessionState, mark_ack_sent}
use rtmp_rs.Server.Handler.{SessionContext, new_context, Notice}

-- The settings that a connection reads.
pub record ServerConfig : Type 0 where
  pub chunk_size : ℕ
  pub window_ack_size : ℕ
  pub peer_bandwidth : ℕ
  pub enhanced_rtmp : EnhancedRtmpMode
  pub enhanced_capabilities : EnhancedServerCapabilities

-- The thresholds for slow subscribers (registry/config.rs).
pub record LagConfig : Type 0 where
  pub lag_threshold_low : ℕ
  pub max_consecutive_lag_events : ℕ

pub data SubscriberState : Type 0 where
  normal skipping_to_keyframe : SubscriberState

-- What a connection does to its encoder and tells the application, in order.
pub data Output : Type 0 where
  sent : RtmpChunk → Output
  encoder_reset : Output
  encoder_chunk_size : ℕ → Output
  notified : Notice → Output

module _ (B : Broadcast) where
  pub record Connection : Type 0 where
    pub state : SessionState
    pub context : SessionContext
    pub read_buf : Bytes
    pub chunk_decoder : ChunkDecoder
    pub config : ServerConfig
    pub lag_config : LagConfig
    pub registry : StreamRegistry B
    pub pending_fc : HashMap Bytes ℕ
    pub publishing_to : Option StreamKey
    pub subscribed_to : Option StreamKey
    pub last_audio_ts : Option ℕ
    pub last_video_ts : Option ℕ
    pub frame_rx : Option B.Receiver
    pub subscriber_state : SubscriberState
    pub consecutive_lag_count : ℕ
    pub playback_stream_id : Option ℕ
    pub is_paused : Bool
    pub frames_dropped_while_paused : ℕ
    pub skip_audio_until_keyframe : Bool
    pub output : List Output

  unfoldable pub new : ℕ → ℕ → ServerConfig → LagConfig → StreamRegistry B → Connection
  unfolding State.new new_context Decoder.new
  new now session_id config lag_config registry = record {
    state = State.new now session_id;
    context = new_context session_id;
    read_buf = [];
    chunk_decoder = Decoder.new;
    config = config;
    lag_config = lag_config;
    registry = registry;
    pending_fc = [];
    publishing_to = none;
    subscribed_to = none;
    last_audio_ts = none;
    last_video_ts = none;
    frame_rx = none;
    subscriber_state = normal;
    consecutive_lag_count = 0;
    playback_stream_id = none;
    is_paused = false;
    frames_dropped_while_paused = 0;
    skip_audio_until_keyframe = false;
    output = [];
  }

  -- A handler leaves the connection as it is where it returns, also where it fails.
  abbrev pub Outcome : Type 0
  Outcome = Connection × Result Error (Unit {0})

  abbrev pub done : Connection → Outcome
  done c = (c, ok tt)

  abbrev pub then_on : Connection → Result Error (Unit {0}) → (Connection → Outcome) → Outcome
  then_on c (ok u) go = go c
  then_on c (err e) go = (c, err e)
  then_on c panic go = (c, panic)

  -- The rest of a function behind `?`.
  abbrev pub and_then : Outcome → (Connection → Outcome) → Outcome
  and_then (c, r) go = then_on c r go

  abbrev pub put_out : Output → Connection → Connection
  put_out o c = record c { output = c.output ++ (o ∷ []) }

  abbrev pub notify : Notice → Connection → Connection
  notify n c = put_out (notified n) c

  -- A message at time 0 on a chunk stream and a message stream.
  abbrev pub send_message : ℕ → ℕ → RtmpMessage → Connection → Connection
  send_message csid stream_id m c = put_out (sent (chunk_of csid 0 stream_id m)) c

  abbrev pub send_control : RtmpMessage → Connection → Connection
  send_control m c = send_message csid_protocol_control 0 m c

  unfoldable pub send_command : ℕ → Command → Connection → Connection
  send_command stream_id cmd c = send_message csid_command stream_id (command cmd) c

  unfoldable pub send_set_chunk_size : ℕ → Connection → Connection
  send_set_chunk_size size c = send_control (set_chunk_size size) c

  unfoldable pub send_window_ack_size : ℕ → Connection → Connection
  send_window_ack_size size c = send_control (window_ack_size size) c

  unfoldable pub send_peer_bandwidth : ℕ → Connection → Connection
  send_peer_bandwidth size c = send_control (set_peer_bandwidth size bandwidth_limit_dynamic) c

  unfoldable pub send_user_control : UserControlEvent → Connection → Connection
  send_user_control event c = send_control (user_control event) c

  unfoldable pub send_ping_response : ℕ → Connection → Connection
  unfolding send_user_control
  send_ping_response timestamp c = send_user_control (ping_response timestamp) c

  abbrev acked : Connection → Connection
  acked c = record c { state = mark_ack_sent c.state }

  unfoldable pub send_acknowledgement : Connection → Connection
  unfolding mark_ack_sent
  send_acknowledgement c = acked (send_control (acknowledgement (u32 c.state.bytes_received)) c)

  abbrev with_negotiated : Option EnhancedCapabilities → ℕ → Command
  with_negotiated none transaction = build new_builder transaction
  with_negotiated (some caps) transaction =
      build (if caps.enabled then enhanced_capabilities new_builder caps else new_builder)
        transaction

  unfoldable pub send_connect_result_with_ertmp :
      ℕ → Option EnhancedCapabilities → Connection → Connection
  unfolding build new_builder enhanced_capabilities send_command
  send_connect_result_with_ertmp transaction caps c =
      send_command 0 (with_negotiated caps transaction) c

  unfoldable pub send_connect_error : ℕ → Bytes → Connection → Connection
  unfolding status_info error send_command
  send_connect_error transaction reason c =
      send_command 0
        (error transaction null (object (status_info (codes "error") nc_connect_rejected reason))) c

  unfoldable pub send_connect_redirect : ℕ → Bytes → Connection → Connection
  unfolding status_info error send_command
  send_connect_redirect transaction url c =
      send_command 0
        (error transaction null (
          object (
            with_text (status_info (codes "error") nc_connect_rejected (codes "Redirect"))
              (codes "ex.redirect") url)))
        c

  unfoldable pub send_video : ℕ → ℕ → Bytes → Connection → Connection
  send_video stream_id timestamp bytes c =
      put_out (sent (chunk_of csid_video timestamp stream_id (video timestamp bytes))) c

  unfoldable pub send_audio : ℕ → ℕ → Bytes → Connection → Connection
  send_audio stream_id timestamp bytes c =
      put_out (sent (chunk_of csid_audio timestamp stream_id (audio timestamp bytes))) c

  abbrev metadata_message : ℕ → DataMessage
  metadata_message stream_id = record {
    name = cmd_on_metadata;
    values = element (string (codes "onMetaData")) no_elements;
    stream_id = stream_id;
  }

  abbrev metadata_chunk : ℕ → Bytes → RtmpChunk
  metadata_chunk stream_id bytes =
      let chunk = chunk_of csid_command 0 stream_id (data_message (metadata_message stream_id)) in
      record chunk { payload = if is_empty bytes then chunk.payload else bytes }

  unfoldable pub send_metadata_frame : ℕ → Bytes → Connection → Connection
  send_metadata_frame stream_id bytes c = put_out (sent (metadata_chunk stream_id bytes)) c

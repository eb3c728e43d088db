-- ===== src/Server/Subscriber.antt =====
-- The side of a connection that plays a stream: frames, lag, pause, and the end of the stream
-- (server/connection.rs).
use rtmp_rs.Prelude.{
  ℕ, ◌+◌, Bool, true, false, ◌||◌, Option, none, some, List, [], ◌∷◌, if◌then◌else◌, ltb, leb, err,
}
use rtmp_rs.Bytes.{Bytes}
use rtmp_rs.Prelude.Text.{codes}
use rtmp_rs.Amf.Access.{as_bool, unwrap_or, get_element}
use rtmp_rs.Amf.Access
use rtmp_rs.Message.Types.{Command, rejected, stream_begin, stream_eof, stream_dry}
use rtmp_rs.Message.Commands.{on_status, ns_pause_notify, ns_unpause_notify, ns_play_stop}
use rtmp_rs.Registry.Frame.{
  StreamKey, BroadcastFrame, FrameType, video_frame, audio_frame, metadata_frame,
}
use rtmp_rs.Registry.Entry.{Broadcast}
use rtmp_rs.Registry.Store.{get_sequence_headers, unsubscribe, unregister_publisher}
use rtmp_rs.Server.Handler.{paused, unpaused}
use rtmp_rs.Server.Connection.{
  SubscriberState, normal, skipping_to_keyframe, encoder_reset, Connection, Outcome, done, put_out,
  notify, send_command, send_user_control, send_video, send_audio, send_metadata_frame,
}

abbrev pub is_skipping : SubscriberState → Bool
is_skipping skipping_to_keyframe = true
is_skipping normal = false

abbrev pub key_name : Option StreamKey → Bytes
key_name none = []
key_name (some k) = k.name

-- The flag of a pause command.
abbrev pub pause_flag : Command → Bool
pause_flag cmd = unwrap_or (Access.and_then (get_element cmd.arguments 0) as_bool) true

module _ (B : Broadcast) where
  -- A frame goes out by its type.
  abbrev pub forward : ℕ → FrameType → BroadcastFrame → Connection B → Connection B
  forward stream_id video_frame f c = send_video B stream_id f.timestamp f.payload c
  forward stream_id audio_frame f c = send_audio B stream_id f.timestamp f.payload c
  forward stream_id metadata_frame f c = send_metadata_frame B stream_id f.payload c

  abbrev pub resumed : Connection B → Connection B
  resumed c = record c { subscriber_state = normal; skip_audio_until_keyframe = false }

  -- A frame while the connection skips to a keyframe.
  abbrev pub skip_frame : ℕ → FrameType → BroadcastFrame → Connection B → Connection B
  skip_frame stream_id video_frame f c =
      if f.is_keyframe || f.is_header then forward stream_id video_frame f (resumed c) else c
  skip_frame stream_id audio_frame f c =
      if c.skip_audio_until_keyframe then c else forward stream_id audio_frame f c
  skip_frame stream_id metadata_frame f c = forward stream_id metadata_frame f c

  unfoldable pub send_broadcast_frame : BroadcastFrame → Connection B → Connection B
  unfolding send_video send_audio send_metadata_frame
  send_broadcast_frame f c =
      let stream_id = unwrap_or c.playback_stream_id 1 in
      if c.is_paused
      then record c { frames_dropped_while_paused = c.frames_dropped_while_paused + 1 }
      else if is_skipping c.subscriber_state
      then skip_frame stream_id f.frame_type f c
      else forward stream_id f.frame_type f c

  unfoldable pub send_frames : List BroadcastFrame → Connection B → Connection B
  unfolding send_broadcast_frame
  send_frames [] c = c
  send_frames (f ∷ fs) c = send_frames fs (send_broadcast_frame f c)

  -- The count is a u32; a connection that lags as often is closed long before it could overflow.
  abbrev pub counted : Connection B → Connection B
  counted c = record c { consecutive_lag_count = c.consecutive_lag_count + 1 }

  abbrev pub skipping : Connection B → Connection B
  skipping c = record c { subscriber_state = skipping_to_keyframe }

  unfoldable pub handle_lag : ℕ → Connection B → Outcome B
  handle_lag skipped c =
      let next = counted c in
      if ltb skipped c.lag_config.lag_threshold_low
      then done B next
      else if leb c.lag_config.max_consecutive_lag_events next.consecutive_lag_count
      then (skipping next, err rejected)
      else done B (skipping next)

  abbrev pub stop_notice : Option ℕ → Connection B → Connection B
  stop_notice none c = c
  stop_notice (some stream_id) c =
      send_command B stream_id
        (on_status stream_id (codes "status") ns_play_stop (codes "Stream ended"))
        (send_user_control B (stream_eof stream_id) c)

  unfoldable pub handle_stream_ended : Connection B → Connection B
  unfolding send_command send_user_control
  handle_stream_ended c =
      stop_notice c.playback_stream_id (put_out B encoder_reset (record c { is_paused = false }))

  unfoldable pub do_pause : ℕ → Connection B → Connection B
  unfolding send_command send_user_control
  do_pause stream_id c =
      if c.is_paused
      then c
      else notify B (paused stream_id (key_name c.subscribed_to)) (
          send_user_control B (stream_dry stream_id) (
            send_command B stream_id
              (on_status stream_id (codes "status") ns_pause_notify (codes "Playback paused"))
              (record c { is_paused = true; frames_dropped_while_paused = 0 })))

  abbrev pub resend : ℕ → FrameType → BroadcastFrame → Connection B → Connection B
  resend stream_id video_frame f c = send_video B stream_id f.timestamp f.payload c
  resend stream_id audio_frame f c = send_audio B stream_id f.timestamp f.payload c
  resend stream_id metadata_frame f c = c

  unfoldable pub resend_headers : ℕ → List BroadcastFrame → Connection B → Connection B
  unfolding send_video send_audio
  resend_headers stream_id [] c = c
  resend_headers stream_id (f ∷ fs) c =
      resend_headers stream_id fs (resend stream_id f.frame_type f c)

  abbrev pub headers_again : ℕ → Option StreamKey → Connection B → Connection B
  headers_again stream_id none c = c
  headers_again stream_id (some key) c =
      resend_headers stream_id (get_sequence_headers B c.registry key) c

  abbrev pub dropped_reset : Connection B → Connection B
  dropped_reset c = record c { frames_dropped_while_paused = 0 }

  abbrev pub unpause_begins : ℕ → Connection B → Connection B
  unpause_begins stream_id c = send_user_control B (stream_begin stream_id) (
      send_command B stream_id
        (on_status stream_id (codes "status") ns_unpause_notify (codes "Playback resumed"))
        (record c {
          is_paused = false;
          subscriber_state = skipping_to_keyframe;
          skip_audio_until_keyframe = true;
        }))

  abbrev pub unpausing : ℕ → Connection B → Connection B
  unpausing stream_id c = dropped_reset (
      notify B (unpaused stream_id (key_name c.subscribed_to))
        (headers_again stream_id c.subscribed_to (unpause_begins stream_id c)))

  unfoldable pub do_unpause : ℕ → Connection B → Connection B
  unfolding send_command send_user_control resend_headers get_sequence_headers
  do_unpause stream_id c = if c.is_paused then unpausing stream_id c else c

  abbrev pub pause_on : Option ℕ → Command → Connection B → Connection B
  pause_on none cmd c = c
  pause_on (some stream_id) cmd c =
      if pause_flag cmd then do_pause stream_id c else do_unpause stream_id c

  unfoldable pub handle_pause : Command → Connection B → Outcome B
  unfolding do_pause do_unpause get_element
  handle_pause cmd c = done B (pause_on c.playback_stream_id cmd c)

  abbrev pub released : ℕ → Option StreamKey → Connection B → Connection B
  released now none c = c
  released now (some key) c = record c {
    registry = unregister_publisher B now c.registry key c.state.id;
  }

  abbrev pub unsubscribed : Option StreamKey → Connection B → Connection B
  unsubscribed none c = c
  unsubscribed (some key) c = record c { registry = unsubscribe B c.registry key }

  unfoldable pub cleanup_on_disconnect : ℕ → Connection B → Connection B
  cleanup_on_disconnect now c = unsubscribed c.subscribed_to (released now c.publishing_to c)

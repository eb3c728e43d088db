-- ===== src/Server/Wire.antt =====
-- The handlers do not look at the decoder and the read buffer, and change them by `set_chunk_size`
-- and `abort` alone (server/connection.rs).
use rtmp_rs.Prelude.{
  ℕ, Bool, true, false, inl, inr, Bool-cases, ◌≡◌, refl, ap, ◌∙◌, Option, none, some, List, [], ◌∷◌,
  if◌then◌else◌, Result, ok, err, panic, arith,
}
use rtmp_rs.Bytes.{Bytes}
use rtmp_rs.Chunk.Decoder.{ChunkDecoder}
use rtmp_rs.Registry.Frame.{
  BroadcastFrame, StreamKey, RegistryError, FrameType, video_frame, audio_frame, metadata_frame,
}
use rtmp_rs.Session.State.{SessionState, allocate_stream_id, remove_stream}
use rtmp_rs.Session.Stream.{StreamState}
use rtmp_rs.Amf.Access.{u32_of_f64}
use rtmp_rs.Prelude.Text.{codes}
use rtmp_rs.Registry.Entry.{Broadcast}
use rtmp_rs.Registry.Store.{register_publisher, subscribe, get_sequence_headers}
use rtmp_rs.Message.Connect.{ConnectParams, from_amf}
use rtmp_rs.Message.Types.{Error, Command}
use rtmp_rs.Enhanced.Capabilities.{EnhancedCapabilities, negotiate}
use rtmp_rs.Server.Handler.{Handler, AuthResult, accept, reject, redirect, unpaused}
use rtmp_rs.Server.Connection.{
  Connection, Outcome, done, notify, send_command, send_user_control, send_window_ack_size,
  send_peer_bandwidth, send_connect_result_with_ertmp, send_connect_error, send_connect_redirect,
}
use rtmp_rs.Server.Subscriber.{
  send_broadcast_frame, send_frames, do_pause, do_unpause, handle_pause, resend_headers, resend,
  pause_on, pause_flag, headers_again, dropped_reset, unpausing, unpause_begins, key_name,
}
use rtmp_rs.Server.Commands.{
  connect_on, negotiated_on, handle_connect, created, handle_create_stream, unpublished,
  handle_delete_stream, number_at, text_at, bool_at, fc_publish_on, handle_fc_publish,
  handle_fc_unpublish, registered_on, publish_on, handle_publish, key_of, playing, subscribed_on,
  play_on, handle_play, handle_close_stream,
}

module _ (B : Broadcast) (d : ChunkDecoder) (b : Bytes) where
  -- A connection with another decoder and another read buffer.
  abbrev pub with_wire : Connection B → Connection B
  with_wire c = record c { chunk_decoder = d; read_buf = b }

  abbrev pub wired : Outcome B → Outcome B
  wired (c, r) = (with_wire c, r)

  send_broadcast_frame-with_wire :
      (f : BroadcastFrame) (c : Connection B)
      → send_broadcast_frame B f (with_wire c) ≡ with_wire (send_broadcast_frame B f c)
  unfolding send_broadcast_frame
  send_broadcast_frame-with_wire f c = ground arith

  connect_on-with_wire :
      (a : AuthResult) (t : ℕ) (p : ConnectParams) (caps : Option EnhancedCapabilities)
      (c : Connection B)
      → connect_on B a t p caps (with_wire c) ≡ wired (connect_on B a t p caps c)
  unfolding send_connect_result_with_ertmp send_connect_error send_connect_redirect
      send_user_control send_peer_bandwidth send_window_ack_size
  connect_on-with_wire accept t p none c = refl
  connect_on-with_wire accept t p (some caps) c = refl
  connect_on-with_wire (reject reason) t p caps c = refl
  connect_on-with_wire (redirect url) t p caps c = refl

  pub handle_connect-with_wire :
      (h : Handler) (cmd : Command) (c : Connection B)
      → handle_connect B h cmd (with_wire c) ≡ wired (handle_connect B h cmd c)
  unfolding handle_connect
  handle_connect-with_wire h cmd c = on (
      negotiate c.config.enhanced_rtmp c.config.enhanced_capabilities (from_amf cmd.command_object))
    where
      on :
          (r : Result Error (Option EnhancedCapabilities))
          → negotiated_on B h cmd.transaction_id (from_amf cmd.command_object) (with_wire c) r
            ≡ wired (negotiated_on B h cmd.transaction_id (from_amf cmd.command_object) c r)
      on (ok caps) =
          connect_on-with_wire (h.on_connect c.context (from_amf cmd.command_object))
            cmd.transaction_id (from_amf cmd.command_object) caps c
      on (err e) = refl
      on panic = refl

  send_frames-with_wire :
      (fs : List BroadcastFrame) (c : Connection B)
      → send_frames B fs (with_wire c) ≡ with_wire (send_frames B fs c)
  unfolding send_frames
  send_frames-with_wire [] c = refl
  send_frames-with_wire (f ∷ fs) c =
      ap (send_frames B fs) (send_broadcast_frame-with_wire f c)
      ∙ send_frames-with_wire fs (send_broadcast_frame B f c)

  resend_headers-with_wire :
      (id : ℕ) (fs : List BroadcastFrame) (c : Connection B)
      → resend_headers B id fs (with_wire c) ≡ with_wire (resend_headers B id fs c)
  unfolding resend_headers
  resend_headers-with_wire id [] c = refl
  resend_headers-with_wire id (f ∷ fs) c =
      ap (resend_headers B id fs) (on f.frame_type)
      ∙ resend_headers-with_wire id fs (resend B id f.frame_type f c)
    where
      on : (t : FrameType) → resend B id t f (with_wire c) ≡ with_wire (resend B id t f c)
      on video_frame = refl
      on audio_frame = refl
      on metadata_frame = refl

  pub handle_create_stream-with_wire :
      (cmd : Command) (c : Connection B)
      → handle_create_stream B cmd (with_wire c) ≡ wired (handle_create_stream B cmd c)
  unfolding handle_create_stream
  handle_create_stream-with_wire cmd c = on (allocate_stream_id c.state)
    where
      on :
          (o : Option (SessionState × ℕ))
          → created B cmd (with_wire c) o ≡ wired (created B cmd c o)
      on none = refl
      on (some (state, id)) = refl

  pub handle_delete_stream-with_wire :
      (cmd : Command) (c : Connection B)
      → handle_delete_stream B cmd (with_wire c) ≡ wired (handle_delete_stream B cmd c)
  unfolding handle_delete_stream
  handle_delete_stream-with_wire cmd c =
      let id = u32_of_f64 (number_at cmd 0 0) in
      on id (record c { state = (remove_stream c.state id).0 }) (remove_stream c.state id).1
    where
      on :
          (id : ℕ) (c : Connection B) (o : Option StreamState)
          → done B (unpublished B id o (with_wire c)) ≡ wired (done B (unpublished B id o c))
      on id c none = refl
      on id c (some s) = ground arith

  pub handle_fc_publish-with_wire :
      (h : Handler) (cmd : Command) (c : Connection B)
      → handle_fc_publish B h cmd (with_wire c) ≡ wired (handle_fc_publish B h cmd c)
  unfolding handle_fc_publish
  handle_fc_publish-with_wire h cmd c = on (h.on_fc_publish c.context (text_at cmd 0 []))
    where
      on :
          (a : AuthResult)
          → fc_publish_on B a cmd (text_at cmd 0 []) (with_wire c)
            ≡ wired (fc_publish_on B a cmd (text_at cmd 0 []) c)
      on accept = refl
      on (reject reason) = refl
      on (redirect url) = refl

  pub handle_fc_unpublish-with_wire :
      (cmd : Command) (c : Connection B)
      → handle_fc_unpublish B cmd (with_wire c) ≡ wired (handle_fc_unpublish B cmd c)
  unfolding handle_fc_unpublish
  handle_fc_unpublish-with_wire cmd c = refl

  registered_on-with_wire :
      (now : ℕ) (cmd : Command) (name kind : Bytes) (key : StreamKey) (c : Connection B)
      (r : Result RegistryError (Unit {0}))
      → registered_on B now cmd name kind key (with_wire c) r
        ≡ wired (registered_on B now cmd name kind key c r)
  unfolding send_command send_user_control
  registered_on-with_wire now cmd name kind key c (ok u) = refl
  registered_on-with_wire now cmd name kind key c (err e) = refl
  registered_on-with_wire now cmd name kind key c panic = refl

  publish_on-with_wire :
      (a : AuthResult) (now : ℕ) (cmd : Command) (name kind : Bytes) (c : Connection B)
      → publish_on B a now cmd name kind (with_wire c) ≡ wired (publish_on B a now cmd name kind c)
  unfolding send_command
  publish_on-with_wire accept now cmd name kind c =
      let key = key_of c.context.app name in
      let r = register_publisher B now c.registry key c.state.id in
      registered_on-with_wire now cmd name kind key (record c { registry = r.0 }) r.1
  publish_on-with_wire (reject reason) now cmd name kind c = refl
  publish_on-with_wire (redirect url) now cmd name kind c = refl

  pub handle_publish-with_wire :
      (h : Handler) (now : ℕ) (cmd : Command) (c : Connection B)
      → handle_publish B h now cmd (with_wire c) ≡ wired (handle_publish B h now cmd c)
  unfolding handle_publish
  handle_publish-with_wire h now cmd c =
      publish_on-with_wire (h.on_publish c.context _) now cmd (text_at cmd 0 [])
        (text_at cmd 1 (codes "live")) c

  playing-with_wire :
      (now : ℕ) (cmd : Command) (name : Bytes) (reset : Bool) (key : StreamKey) (rx : B.Receiver)
      (c : Connection B)
      → playing B now cmd name reset key rx (with_wire c)
        ≡ with_wire (playing B now cmd name reset key rx c)
  unfolding send_command send_user_control
  playing-with_wire now cmd name true key rx c = refl
  playing-with_wire now cmd name false key rx c = refl

  subscribed_on-with_wire :
      (now : ℕ) (cmd : Command) (name : Bytes) (reset : Bool) (key : StreamKey) (c : Connection B)
      (r : Result RegistryError (B.Receiver × List BroadcastFrame))
      → subscribed_on B now cmd name reset key (with_wire c) r
        ≡ wired (subscribed_on B now cmd name reset key c r)
  unfolding send_command
  subscribed_on-with_wire now cmd name reset key c (ok (rx, fs)) =
      ap (λ x. done B (send_frames B fs x)) (playing-with_wire now cmd name reset key rx c)
      ∙ ap (done B) (send_frames-with_wire fs (playing B now cmd name reset key rx c))
  subscribed_on-with_wire now cmd name reset key c (err e) = refl
  subscribed_on-with_wire now cmd name reset key c panic = refl

  play_on-with_wire :
      (a : AuthResult) (now : ℕ) (cmd : Command) (name : Bytes) (reset : Bool) (c : Connection B)
      → play_on B a now cmd name reset (with_wire c) ≡ wired (play_on B a now cmd name reset c)
  unfolding send_command
  play_on-with_wire accept now cmd name reset c =
      let key = key_of c.context.app name in
      let r = subscribe B c.registry key in
      subscribed_on-with_wire now cmd name reset key (record c { registry = r.0 }) r.1
  play_on-with_wire (reject reason) now cmd name reset c = refl
  play_on-with_wire (redirect url) now cmd name reset c = refl

  pub handle_play-with_wire :
      (h : Handler) (now : ℕ) (cmd : Command) (c : Connection B)
      → handle_play B h now cmd (with_wire c) ≡ wired (handle_play B h now cmd c)
  unfolding handle_play
  handle_play-with_wire h now cmd c =
      play_on-with_wire (h.on_play c.context _) now cmd (text_at cmd 0 []) (bool_at cmd 3 true) c

  do_pause-with_wire :
      (id : ℕ) (c : Connection B) → do_pause B id (with_wire c) ≡ with_wire (do_pause B id c)
  unfolding do_pause
  do_pause-with_wire id c = ground arith

  headers_again-with_wire :
      (id : ℕ) (key : Option StreamKey) (c : Connection B)
      → headers_again B id key (with_wire c) ≡ with_wire (headers_again B id key c)
  headers_again-with_wire id none c = refl
  headers_again-with_wire id (some key) c =
      resend_headers-with_wire id (get_sequence_headers B c.registry key) c

  unpausing-with_wire :
      (id : ℕ) (c : Connection B) → unpausing B id (with_wire c) ≡ with_wire (unpausing B id c)
  unfolding send_command send_user_control
  unpausing-with_wire id c =
      ap (λ x. dropped_reset B (notify B (unpaused id (key_name c.subscribed_to)) x))
        (headers_again-with_wire id c.subscribed_to (unpause_begins B id c))

  do_unpause-with_wire :
      (id : ℕ) (c : Connection B) → do_unpause B id (with_wire c) ≡ with_wire (do_unpause B id c)
  unfolding do_unpause
  do_unpause-with_wire id c = on c.is_paused
    where
      on :
          (t : Bool)
          → (if t then unpausing B id (with_wire c) else with_wire c)
            ≡ with_wire (if t then unpausing B id c else c)
      on true = unpausing-with_wire id c
      on false = refl

  pub handle_pause-with_wire :
      (cmd : Command) (c : Connection B)
      → handle_pause B cmd (with_wire c) ≡ wired (handle_pause B cmd c)
  unfolding handle_pause
  handle_pause-with_wire cmd c = on c.playback_stream_id
    where
      on :
          (o : Option ℕ)
          → done B (pause_on B o cmd (with_wire c)) ≡ wired (done B (pause_on B o cmd c))
      on none = refl
      on (some id) = elim (Bool-cases (pause_flag cmd)) [
        | inl t ↦ rw t (ap (done B) (do_pause-with_wire id c))
        | inr f ↦ rw f (ap (done B) (do_unpause-with_wire id c))
      ]

  pub handle_close_stream-with_wire :
      (cmd : Command) (c : Connection B)
      → handle_close_stream B cmd (with_wire c) ≡ wired (handle_close_stream B cmd c)
  unfolding handle_close_stream
  handle_close_stream-with_wire cmd c = refl

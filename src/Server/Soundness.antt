-- ===== src/Server/Soundness.antt =====
-- The handlers that touch neither the registry nor what is published (server/connection.rs).
use rtmp_rs.Prelude.{
  ℕ, Bool, true, false, ◌≡◌, refl, ◌∙◌, Option, none, some, List, [], ◌∷◌, if◌then◌else◌, Result,
  ok, err, panic, arith,
}
use rtmp_rs.Amf.Access.{u32_of_f64}
use rtmp_rs.Registry.Frame.{
  StreamKey, BroadcastFrame, FrameType, video_frame, audio_frame, metadata_frame,
}
use rtmp_rs.Registry.Entry.{Broadcast}
use rtmp_rs.Registry.Store.{get_sequence_headers}
use rtmp_rs.Session.Stream.{StreamState, stop}
use rtmp_rs.Session.State.{
  SessionState, allocate_stream_id, update_stream, remove_stream, on_connect,
}
use rtmp_rs.Prelude.Map.{nat_eq}
use rtmp_rs.Message.Connect.{ConnectParams, from_amf}
use rtmp_rs.Message.Types.{Error, Command}
use rtmp_rs.Enhanced.Capabilities.{EnhancedCapabilities, negotiate}
use rtmp_rs.Server.Handler.{Handler, AuthResult, accept, reject, redirect}
use rtmp_rs.Server.Connection.{
  Connection, send_command, send_user_control, send_window_ack_size, send_peer_bandwidth,
  send_connect_result_with_ertmp, send_connect_error, send_connect_redirect,
}
use rtmp_rs.Server.Commands.{
  connect_on, negotiated_on, handle_connect, created, handle_create_stream, unpublished,
  handle_delete_stream, number_at, text_at, fc_publish_on, handle_fc_publish, handle_close_stream,
}
use rtmp_rs.Server.Subscriber.{
  send_broadcast_frame, send_frames, do_pause, do_unpause, handle_pause, resend_headers, resend,
  pause_on, pause_flag, headers_again, unpausing, unpause_begins,
}
use rtmp_rs.Server.Ownership.{IsSound, same-IsSound}

-- No change of a stream changes the session's id.
pub update_stream-id :
    (s : SessionState) (i : ℕ) (f : StreamState → StreamState) → (update_stream s i f).id ≡ s.id
unfolding update_stream
update_stream-id s i f = ground arith

allocate_stream_id-id :
    (s s' : SessionState) (i : ℕ) → allocate_stream_id s ≡ some (s', i) → s'.id ≡ s.id
unfolding allocate_stream_id
allocate_stream_id-id s s' i e = ground arith

module _ (B : Broadcast) where
  -- What is sent and kept beside the registry does not matter.
  abbrev pub Same : Connection B → Connection B → Type 0
  Same c c' =
      (c'.registry ≡ c.registry) × (c'.state.id ≡ c.state.id) × (c'.publishing_to ≡ c.publishing_to)

  abbrev pub same : (c : Connection B) → Same c c
  same c = (refl, refl, refl)

  pub trans-Same : (c d e : Connection B) → Same c d → Same d e → Same c e
  trans-Same c d e (r, i, p) (r', i', p') = (r' ∙ r, i' ∙ i, p' ∙ p)

  pub by_Same : (c c' : Connection B) → Same c c' → IsSound B c → IsSound B c'
  by_Same c c' (r, i, p) s = same-IsSound B c c' r i p s

  pub send_broadcast_frame-Same :
      (f : BroadcastFrame) (c : Connection B) → Same c (send_broadcast_frame B f c)
  unfolding send_broadcast_frame
  send_broadcast_frame-Same f c = ground arith

  pub send_frames-Same : (fs : List BroadcastFrame) (c : Connection B) → Same c (send_frames B fs c)
  unfolding send_frames
  send_frames-Same [] c = same c
  send_frames-Same (f ∷ fs) c =
      trans-Same c (send_broadcast_frame B f c) (send_frames B fs (send_broadcast_frame B f c))
        (send_broadcast_frame-Same f c) (send_frames-Same fs (send_broadcast_frame B f c))

  pub resend_headers-Same :
      (id : ℕ) (fs : List BroadcastFrame) (c : Connection B) → Same c (resend_headers B id fs c)
  unfolding resend_headers
  resend_headers-Same id [] c = same c
  resend_headers-Same id (f ∷ fs) c =
      trans-Same c (resend B id f.frame_type f c)
        (resend_headers B id fs (resend B id f.frame_type f c)) (on f.frame_type)
        (resend_headers-Same id fs (resend B id f.frame_type f c))
    where
      on : (t : FrameType) → Same c (resend B id t f c)
      on video_frame = same c
      on audio_frame = same c
      on metadata_frame = same c

  pub connect_on-Same :
      (a : AuthResult) (t : ℕ) (p : ConnectParams) (caps : Option EnhancedCapabilities)
      (c : Connection B)
      → Same c (connect_on B a t p caps c).0
  unfolding send_connect_result_with_ertmp send_connect_error send_connect_redirect
      send_user_control send_peer_bandwidth send_window_ack_size on_connect
  connect_on-Same accept t p none c = same c
  connect_on-Same accept t p (some caps) c = same c
  connect_on-Same (reject reason) t p caps c = same c
  connect_on-Same (redirect url) t p caps c = same c

  pub handle_connect-Same :
      (h : Handler) (cmd : Command) (c : Connection B) → Same c (handle_connect B h cmd c).0
  unfolding handle_connect
  handle_connect-Same h cmd c = on (
      negotiate c.config.enhanced_rtmp c.config.enhanced_capabilities (from_amf cmd.command_object))
    where
      on :
          (r : Result Error (Option EnhancedCapabilities))
          → Same c (negotiated_on B h cmd.transaction_id (from_amf cmd.command_object) c r).0
      on (ok caps) =
          connect_on-Same (h.on_connect c.context (from_amf cmd.command_object)) cmd.transaction_id
            (from_amf cmd.command_object) caps c
      on (err e) = same c
      on panic = same c

  pub handle_create_stream-Same :
      (cmd : Command) (c : Connection B) → Same c (handle_create_stream B cmd c).0
  unfolding handle_create_stream
  handle_create_stream-Same cmd c = on (allocate_stream_id c.state) refl
    where
      on :
          (o : Option (SessionState × ℕ))
          → allocate_stream_id c.state ≡ o
          → Same c (created B cmd c o).0
      on none e = same c
      on (some (state, id)) e = (refl, allocate_stream_id-id c.state state id e, refl)

  pub handle_delete_stream-Same :
      (cmd : Command) (c : Connection B) → Same c (handle_delete_stream B cmd c).0
  unfolding handle_delete_stream remove_stream
  handle_delete_stream-Same cmd c =
      let id = u32_of_f64 (number_at cmd 0 0) in
      on id (record c { state = (remove_stream c.state id).0 }) (remove_stream c.state id).1
    where
      on : (id : ℕ) (c : Connection B) (o : Option StreamState) → Same c (unpublished B id o c)
      on id c none = same c
      on id c (some s) = ground arith

  pub handle_fc_publish-Same :
      (h : Handler) (cmd : Command) (c : Connection B) → Same c (handle_fc_publish B h cmd c).0
  unfolding handle_fc_publish
  handle_fc_publish-Same h cmd c = on (h.on_fc_publish c.context (text_at cmd 0 []))
    where
      on : (a : AuthResult) → Same c (fc_publish_on B a cmd (text_at cmd 0 []) c).0
      on accept = same c
      on (reject reason) = same c
      on (redirect url) = same c

  pub unpausing-Same : (id : ℕ) (c : Connection B) → Same c (unpausing B id c)
  unfolding send_command send_user_control
  unpausing-Same id c = on c.subscribed_to
    where
      on : (k : Option StreamKey) → Same c (headers_again B id k (unpause_begins B id c))
      on none = same c
      on (some key) =
          resend_headers-Same id (get_sequence_headers B c.registry key) (unpause_begins B id c)

  pub do_pause-Same : (id : ℕ) (c : Connection B) → Same c (do_pause B id c)
  unfolding do_pause
  do_pause-Same id c = ground arith

  pub if-Same :
      (t : Bool) (c x y : Connection B) → Same c x → Same c y → Same c (if t then x else y)
  if-Same true c x y h k = h
  if-Same false c x y h k = k

  pub handle_pause-Same : (cmd : Command) (c : Connection B) → Same c (handle_pause B cmd c).0
  unfolding handle_pause
  handle_pause-Same cmd c = on c.playback_stream_id
    where
      on : (o : Option ℕ) → Same c (pause_on B o cmd c)
      on none = same c
      on (some id) =
          if-Same (pause_flag cmd) c (do_pause B id c) (do_unpause B id c) (do_pause-Same id c)
            (if-Same c.is_paused c (unpausing B id c) c (unpausing-Same id c) (same c))

  pub handle_close_stream-Same :
      (cmd : Command) (c : Connection B) → Same c (handle_close_stream B cmd c).0
  unfolding handle_close_stream
  handle_close_stream-Same cmd c = (refl, update_stream-id c.state cmd.stream_id stop, refl)

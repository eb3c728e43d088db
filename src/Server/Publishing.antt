-- ===== src/Server/Publishing.antt =====
-- A connection keeps the stream that it publishes until it disconnects (server/connection.rs,
-- registry/store.rs).
use rtmp_rs.Prelude.{ℕ, true, ◌≡◌, refl, none, some, [], Result, ok, err, panic, arith}
use rtmp_rs.Prelude.Text.{codes}
use rtmp_rs.Bytes.{Bytes}
use rtmp_rs.Chunk.State.{RtmpChunk}
use rtmp_rs.Registry.Frame.{StreamKey, RegistryError, key_eq}
use rtmp_rs.Registry.Entry.{Broadcast}
use rtmp_rs.Registry.Store.{StreamRegistry, register_publisher}
use rtmp_rs.Registry.Publishing.{register_op, apply}
use rtmp_rs.Registry.Owner.{Owns}
use rtmp_rs.Session.Stream.{start_publish}
use rtmp_rs.Prelude.Map.{get, nat_eq}
use rtmp_rs.Message.Types.{
  Error, Command, DataMessage, UserControlEvent, RtmpMessage, set_chunk_size, abort,
  acknowledgement, window_ack_size, user_control, set_peer_bandwidth, audio, video, command,
  command_amf3, data_message, data_amf3, aggregate, unknown_message,
}
use rtmp_rs.Message.Types
use rtmp_rs.Message.Parse.{Parsed, from_chunk}
use rtmp_rs.Server.Handler.{Handler, AuthResult, accept, reject, redirect}
use rtmp_rs.Server.Connection.{Connection, send_command, send_user_control}
use rtmp_rs.Server.Commands.{
  handle_connect, handle_create_stream, handle_delete_stream, number_at, text_at, bool_at,
  handle_fc_publish, handle_fc_unpublish, registered_on, publish_on, handle_publish, key_of,
  handle_play, handle_close_stream, minus_one, minus_two,
}
use rtmp_rs.Server.Subscriber.{handle_pause}
use rtmp_rs.Server.Receive.{
  CommandName, connect, create_stream, delete_stream, publish, play, fc_publish, fc_unpublish,
  release_stream, pause, close_stream, unknown_command, command_name, dispatch, handle_user_control,
  handle_command, handle_message, handle_chunk, parsed_on,
}
use rtmp_rs.Server.Ownership.{IsSound, operation-IsSound}
use rtmp_rs.Server.Soundness.{
  update_stream-id, Same, same, by_Same, handle_connect-Same, handle_create_stream-Same,
  handle_delete_stream-Same, handle_fc_publish-Same, handle_pause-Same, handle_close_stream-Same,
}
use rtmp_rs.Registry.Owner.{register_at-owned, register_at-result}
use rtmp_rs.Server.Media.{
  handle_audio-IsSound, handle_video-IsSound, handle_data-IsSound, play_on-IsSound,
}

module _ (B : Broadcast) where
  -- A registration that succeeds makes the session the owner.
  register_publisher-Owns :
      (now : ℕ) (r : StreamRegistry B) (key : StreamKey) (session : ℕ)
      → (register_publisher B now r key session).1 ≡ ok tt
      → Owns B (register_publisher B now r key session).0 key session
  unfolding register_publisher
  register_publisher-Owns now r key session e =
      let at = get r.streams key in
      ground
        (arith, register_at-owned B at now r key session, register_at-result B at now r key session)

  registered_on-IsSound :
      (now : ℕ) (cmd : Command) (name kind : Bytes) (key : StreamKey) (c : Connection B)
      (r : Result RegistryError (Unit {0}))
      → (r ≡ ok tt → Owns B c.registry key c.state.id)
      → IsSound B c
      → IsSound B (registered_on B now cmd name kind key c r).0
  unfolding send_command send_user_control
  registered_on-IsSound now cmd name kind key c (ok u) o s =
      by_Same B (record c { publishing_to = some key })
        (registered_on B now cmd name kind key c (ok u)).0
        (refl, update_stream-id c.state cmd.stream_id (λ s. start_publish now s name kind), refl)
        (record { valid = s.valid; owned = o refl })
  registered_on-IsSound now cmd name kind key c (err e) o s = by_Same B c _ (same B c) s
  registered_on-IsSound now cmd name kind key c panic o s = s

  publish_on-IsSound :
      (a : AuthResult) (now : ℕ) (cmd : Command) (name kind : Bytes) (c : Connection B)
      → IsSound B c
      → IsSound B (publish_on B a now cmd name kind c).0
  unfolding send_command apply
  publish_on-IsSound accept now cmd name kind c s =
      let key = key_of c.context.app name in
      let r = register_publisher B now c.registry key c.state.id in
      let c' = record c { registry = r.0 } in
      registered_on-IsSound now cmd name kind key c' r.1
        (register_publisher-Owns now c.registry key c.state.id)
        (operation-IsSound B c c' (register_op now key c.state.id) refl refl refl refl s)
  publish_on-IsSound (reject reason) now cmd name kind c s = by_Same B c _ (same B c) s
  publish_on-IsSound (redirect url) now cmd name kind c s = s

  module _ (h : Handler) (now : ℕ) where
    dispatch-IsSound :
        (n : CommandName) (cmd : Command) (c : Connection B)
        → IsSound B c
        → IsSound B (dispatch B h now n cmd c).0
    unfolding dispatch handle_publish handle_play handle_fc_unpublish
    dispatch-IsSound connect cmd c s =
        by_Same B c (handle_connect B h cmd c).0 (handle_connect-Same B h cmd c) s
    dispatch-IsSound create_stream cmd c s =
        by_Same B c (handle_create_stream B cmd c).0 (handle_create_stream-Same B cmd c) s
    dispatch-IsSound delete_stream cmd c s =
        by_Same B c (handle_delete_stream B cmd c).0 (handle_delete_stream-Same B cmd c) s
    dispatch-IsSound publish cmd c s =
        publish_on-IsSound
          (h.on_publish c.context (record {
            stream_key = text_at cmd 0 [];
            publish_type = text_at cmd 1 (codes "live");
            stream_id = cmd.stream_id;
          }))
          now cmd (text_at cmd 0 []) (text_at cmd 1 (codes "live")) c s
    dispatch-IsSound play cmd c s =
        play_on-IsSound B
          (h.on_play c.context (record {
            stream_name = text_at cmd 0 [];
            start = number_at cmd 1 minus_two;
            duration = number_at cmd 2 minus_one;
            reset = bool_at cmd 3 true;
            stream_id = cmd.stream_id;
          }))
          now cmd (text_at cmd 0 []) (bool_at cmd 3 true) c s
    dispatch-IsSound fc_publish cmd c s =
        by_Same B c (handle_fc_publish B h cmd c).0 (handle_fc_publish-Same B h cmd c) s
    dispatch-IsSound fc_unpublish cmd c s = by_Same B c (handle_fc_unpublish B cmd c).0 (same B c) s
    dispatch-IsSound release_stream cmd c s = s
    dispatch-IsSound pause cmd c s =
        by_Same B c (handle_pause B cmd c).0 (handle_pause-Same B cmd c) s
    dispatch-IsSound close_stream cmd c s =
        by_Same B c (handle_close_stream B cmd c).0 (handle_close_stream-Same B cmd c) s
    dispatch-IsSound unknown_command cmd c s = s

    handle_user_control-Same :
        (e : UserControlEvent) (c : Connection B) → Same B c (handle_user_control B h now e c)
    unfolding handle_user_control
    handle_user_control-Same (Types.ping_request ts) c = same B c
    handle_user_control-Same _ c = same B c

    handle_message-IsSound :
        (m : RtmpMessage) (c : Connection B)
        → IsSound B c
        → IsSound B (handle_message B h now m c).0
    unfolding handle_message handle_command
    handle_message-IsSound (set_chunk_size size) c s = by_Same B c _ (same B c) s
    handle_message-IsSound (abort csid) c s = by_Same B c _ (same B c) s
    handle_message-IsSound (acknowledgement n) c s = s
    handle_message-IsSound (window_ack_size size) c s = by_Same B c _ (same B c) s
    handle_message-IsSound (user_control e) c s =
        by_Same B c (handle_user_control B h now e c) (handle_user_control-Same e c) s
    handle_message-IsSound (set_peer_bandwidth size limit_type) c s = by_Same B c _ (same B c) s
    handle_message-IsSound (audio timestamp bytes) c s = handle_audio-IsSound B timestamp bytes c s
    handle_message-IsSound (video timestamp bytes) c s = handle_video-IsSound B timestamp bytes c s
    handle_message-IsSound (command cmd) c s = dispatch-IsSound (command_name cmd.name) cmd c s
    handle_message-IsSound (command_amf3 cmd) c s = dispatch-IsSound (command_name cmd.name) cmd c s
    handle_message-IsSound (data_message m) c s = handle_data-IsSound B m c s
    handle_message-IsSound (data_amf3 m) c s = handle_data-IsSound B m c s
    handle_message-IsSound (aggregate bytes) c s = s
    handle_message-IsSound (unknown_message t bytes) c s = s

    -- Whatever chunk arrives and whatever the application decides, also where the handling fails: a
    -- sound connection stays sound, so the stream that it publishes is active and its own.
    pub handle_chunk-IsSound :
        (x : RtmpChunk) (c : Connection B) → IsSound B c → IsSound B (handle_chunk B h now x c).0
    unfolding handle_chunk
    handle_chunk-IsSound x c s = on (from_chunk x)
      where
        on : (p : Parsed RtmpMessage) → IsSound B (parsed_on B h now c p).0
        on none = s
        on (some (ok m)) = handle_message-IsSound m c s
        on (some (err e)) = s
        on (some panic) = s

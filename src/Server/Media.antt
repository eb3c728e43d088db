-- ===== src/Server/Media.antt =====
-- Every handler keeps a connection sound, and so does what other connections do to the registry
-- (server/connection.rs, registry/store.rs).
use rtmp_rs.Prelude.{
  ℕ, Bool, true, false, ◌&&◌, not, length, refl, Option, none, some, List, [], ◌∷◌, if◌then◌else◌,
  Result, ok, err, panic, arith,
}
use rtmp_rs.Bytes.{Bytes}
use rtmp_rs.Amf.Value.{string, Elements, element, Properties, no_properties}
use rtmp_rs.Amf.Access.{u32_of_f64, as_object, unwrap_or, get_element}
use rtmp_rs.Amf.Access
use rtmp_rs.Registry.Frame.{
  StreamKey, BroadcastFrame, RegistryError, bytes_beq, new_audio, new_video,
}
use rtmp_rs.Registry.Entry.{Broadcast}
use rtmp_rs.Registry.Store.{subscribe}
use rtmp_rs.Registry.Publishing.{subscribe_op, broadcast_op, apply}
use rtmp_rs.Session.Stream.{StreamState, on_audio, on_video, on_metadata, start_play}
use rtmp_rs.Session.State.{update_stream, get_stream}
use rtmp_rs.Prelude.Map.{nat_eq}
use rtmp_rs.Message.Types.{Command, DataMessage}
use rtmp_rs.Message.Commands.{cmd_set_data_frame, cmd_on_metadata}
use rtmp_rs.Server.Handler.{AuthResult, accept, reject, redirect}
use rtmp_rs.Server.Connection.{Connection, done, send_command, send_user_control}
use rtmp_rs.Server.Commands.{key_of, playing, subscribed_on, play_on}
use rtmp_rs.Server.Subscriber.{send_frames}
use rtmp_rs.Server.Publisher.{
  publishing_in, spread, audio_on, handle_audio, tell_keyframe, video_on, handle_video, keep_video,
  audio_is_header, keep_audio_header, stream_key_of, tell_metadata, handle_metadata, data_frame,
  handle_data, video_is_keyframe, video_is_header,
}
use rtmp_rs.Server.Ownership.{IsSound, operation-IsSound}
use rtmp_rs.Server.Soundness.{update_stream-id, Same, same, by_Same, trans-Same, send_frames-Same}

module _ (B : Broadcast) where
  -- A frame goes to the subscribers of what the connection publishes.
  spread-IsSound :
      (key : Option StreamKey) (f : BroadcastFrame) (c : Connection B)
      → IsSound B c
      → IsSound B (spread B key f c)
  unfolding apply
  spread-IsSound none f c s = s
  spread-IsSound (some key) f c s =
      operation-IsSound B c (spread B (some key) f c) (broadcast_op key f) refl refl refl refl s

  audio_on-IsSound :
      (o : Option ℕ) (timestamp x : ℕ) (rest : Bytes) (c : Connection B)
      → IsSound B c
      → IsSound B (audio_on B o timestamp x rest c).0
  audio_on-IsSound none timestamp x rest c s = s
  audio_on-IsSound (some id) timestamp x rest c s =
      let header = audio_is_header x rest in
      let change : StreamState → StreamState = λ s.
        keep_audio_header header timestamp (x ∷ rest)
          (on_audio s timestamp header (length (x ∷ rest))) in
      let c' = record c { state = update_stream c.state id change } in
      spread-IsSound c.publishing_to (new_audio timestamp (x ∷ rest) header) c'
        (by_Same B c c' (refl, update_stream-id c.state id change, refl) s)

  pub handle_audio-IsSound :
      (timestamp : ℕ) (bytes : Bytes) (c : Connection B)
      → IsSound B c
      → IsSound B (handle_audio B timestamp bytes c).0
  unfolding handle_audio
  handle_audio-IsSound timestamp [] c s = s
  handle_audio-IsSound timestamp (x ∷ rest) c s =
      let c' = record c { last_audio_ts = some timestamp } in
      audio_on-IsSound (publishing_in c.state.streams) timestamp x rest c'
        (by_Same B c c' (same B c) s)

  tell_keyframe-Same :
      (t : Bool) (id : ℕ) (key : Bytes) (timestamp : ℕ) (c : Connection B)
      → Same B c (tell_keyframe B t id key timestamp c)
  tell_keyframe-Same true id key timestamp c = same B c
  tell_keyframe-Same false id key timestamp c = same B c

  video_on-IsSound :
      (o : Option ℕ) (timestamp x : ℕ) (rest : Bytes) (c : Connection B)
      → IsSound B c
      → IsSound B (video_on B o timestamp x rest c).0
  video_on-IsSound none timestamp x rest c s = s
  video_on-IsSound (some id) timestamp x rest c s =
      let header = video_is_header x rest in
      let key = video_is_keyframe x in
      let change : StreamState → StreamState = λ s.
        keep_video header timestamp (x ∷ rest)
          (on_video s timestamp key header (length (x ∷ rest))) in
      let c₁ = record c { state = update_stream c.state id change } in
      let name = stream_key_of B (get_stream c.state id) in
      let c₂ = tell_keyframe B (key && not header) id name timestamp c₁ in
      spread-IsSound c.publishing_to (new_video timestamp (x ∷ rest) key header) c₂ (
        by_Same B c₁ c₂ (tell_keyframe-Same (key && not header) id name timestamp c₁)
          (by_Same B c c₁ (refl, update_stream-id c.state id change, refl) s))

  pub handle_video-IsSound :
      (timestamp : ℕ) (bytes : Bytes) (c : Connection B)
      → IsSound B c
      → IsSound B (handle_video B timestamp bytes c).0
  unfolding handle_video
  handle_video-IsSound timestamp [] c s = s
  handle_video-IsSound timestamp (x ∷ rest) c s =
      let c' = record c { last_video_ts = some timestamp } in
      video_on-IsSound (publishing_in c.state.streams) timestamp x rest c'
        (by_Same B c c' (same B c) s)

  handle_metadata-Same :
      (id : ℕ) (vs : Elements) (c : Connection B) → Same B c (handle_metadata B id vs c)
  unfolding handle_metadata
  handle_metadata-Same id vs c =
      let state = update_stream c.state id on_metadata in
      trans-Same B c (record c { state = state }) (handle_metadata B id vs c)
        (refl, update_stream-id c.state id on_metadata, refl)
        (on (record c { state = state }) (get_stream state id)
          (unwrap_or (Access.and_then (get_element vs 0) as_object) no_properties))
    where
      on :
          (c : Connection B) (o : Option StreamState) (values : Properties)
          → Same B c (tell_metadata B id o values c)
      on c none values = same B c
      on c (some s) values = ground arith

  if-IsSound :
      (t : Bool) (x y : Connection B) → IsSound B x → IsSound B y → IsSound B (if t then x else y)
  if-IsSound true x y h k = h
  if-IsSound false x y h k = k

  data_frame-IsSound :
      (id : ℕ) (vs : Elements) (c : Connection B) → IsSound B c → IsSound B (data_frame B id vs c)
  data_frame-IsSound id (element (string name) values) c s =
      if-IsSound (bytes_beq name cmd_on_metadata) (handle_metadata B id values c) c
        (by_Same B c (handle_metadata B id values c) (handle_metadata-Same id values c) s) s
  data_frame-IsSound id _ c s = s

  pub handle_data-IsSound :
      (m : DataMessage) (c : Connection B) → IsSound B c → IsSound B (handle_data B m c).0
  unfolding handle_data
  handle_data-IsSound m c s =
      on (bytes_beq m.name cmd_set_data_frame) (bytes_beq m.name cmd_on_metadata)
    where
      on :
          (t u : Bool)
          → IsSound B
              (if t
                then done B (data_frame B m.stream_id m.values c)
                else if u
                then done B (handle_metadata B m.stream_id m.values c)
                else done B c).0
      on true u = data_frame-IsSound m.stream_id m.values c s
      on false true =
          by_Same B c (handle_metadata B m.stream_id m.values c)
            (handle_metadata-Same m.stream_id m.values c) s
      on false false = s

  playing-Same :
      (now : ℕ) (cmd : Command) (name : Bytes) (reset : Bool) (key : StreamKey) (rx : B.Receiver)
      (c : Connection B)
      → Same B c (playing B now cmd name reset key rx c)
  unfolding send_command send_user_control
  playing-Same now cmd name true key rx c =
      (refl, update_stream-id c.state cmd.stream_id (λ s. start_play now s name), refl)
  playing-Same now cmd name false key rx c =
      (refl, update_stream-id c.state cmd.stream_id (λ s. start_play now s name), refl)

  subscribed_on-Same :
      (now : ℕ) (cmd : Command) (name : Bytes) (reset : Bool) (key : StreamKey) (c : Connection B)
      (r : Result RegistryError (B.Receiver × List BroadcastFrame))
      → Same B c (subscribed_on B now cmd name reset key c r).0
  unfolding send_command
  subscribed_on-Same now cmd name reset key c (ok (rx, fs)) =
      let c' = playing B now cmd name reset key rx c in
      trans-Same B c c' (send_frames B fs c') (playing-Same now cmd name reset key rx c)
        (send_frames-Same B fs c')
  subscribed_on-Same now cmd name reset key c (err e) = same B c
  subscribed_on-Same now cmd name reset key c panic = same B c

  pub play_on-IsSound :
      (a : AuthResult) (now : ℕ) (cmd : Command) (name : Bytes) (reset : Bool) (c : Connection B)
      → IsSound B c
      → IsSound B (play_on B a now cmd name reset c).0
  unfolding send_command apply
  play_on-IsSound accept now cmd name reset c s =
      let key = key_of c.context.app name in
      let r = subscribe B c.registry key in
      let c' = record c { registry = r.0 } in
      by_Same B c' (subscribed_on B now cmd name reset key c' r.1).0
        (subscribed_on-Same now cmd name reset key c' r.1)
        (operation-IsSound B c c' (subscribe_op key) refl refl refl refl s)
  play_on-IsSound (reject reason) now cmd name reset c s = by_Same B c _ (same B c) s
  play_on-IsSound (redirect url) now cmd name reset c s = s

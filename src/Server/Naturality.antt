-- ===== src/Server/Naturality.antt =====
-- What a message does to the decoder, and that the rest of its handling does not depend on the
-- decoder and the read buffer (server/connection.rs).
use rtmp_rs.Prelude.{
  ℕ, Bool, true, false, ◌&&◌, not, length, ◌≡◌, refl, ap, Option, none, some, [], ◌∷◌,
  if◌then◌else◌, ok, arith,
}
use rtmp_rs.Bytes.{Bytes}
use rtmp_rs.Chunk.State.{RtmpChunk}
use rtmp_rs.Chunk.Decoder
use rtmp_rs.Chunk.Decoder.{ChunkDecoder}
use rtmp_rs.Amf.Value.{string, Elements, element, Properties, no_properties}
use rtmp_rs.Amf.Access.{as_object, unwrap_or, get_element}
use rtmp_rs.Amf.Access
use rtmp_rs.Registry.Frame.{BroadcastFrame, StreamKey, bytes_beq, new_video}
use rtmp_rs.Registry.Entry.{Broadcast}
use rtmp_rs.Session.Stream.{StreamState, on_video, on_metadata}
use rtmp_rs.Session.State.{get_stream, update_stream}
use rtmp_rs.Message.Types.{Command, DataMessage, RtmpMessage, set_chunk_size, abort}
use rtmp_rs.Message.Parse.{Parsed, from_chunk}
use rtmp_rs.Message.Commands.{cmd_set_data_frame, cmd_on_metadata}
use rtmp_rs.Server.Handler.{Handler}
use rtmp_rs.Server.Connection.{Connection, done}
use rtmp_rs.Server.Publisher.{
  publishing_in, spread, audio_on, handle_audio, tell_keyframe, video_on, handle_video, keep_video,
  stream_key_of, tell_metadata, handle_metadata, data_frame, handle_data, video_is_keyframe,
  video_is_header,
}
use rtmp_rs.Server.Receive.{
  CommandName, connect, create_stream, delete_stream, publish, play, fc_publish, fc_unpublish,
  release_stream, pause, close_stream, unknown_command, command_name, dispatch, handle_command,
}
use rtmp_rs.Server.Wire.{
  with_wire, wired, handle_connect-with_wire, handle_create_stream-with_wire,
  handle_delete_stream-with_wire, handle_publish-with_wire, handle_play-with_wire,
  handle_fc_publish-with_wire, handle_fc_unpublish-with_wire, handle_pause-with_wire,
  handle_close_stream-with_wire,
}

-- What handling a message does to the decoder.
unfoldable pub message_effect : RtmpMessage → ChunkDecoder → ChunkDecoder
message_effect (set_chunk_size size) d = Decoder.set_chunk_size d size
message_effect (abort csid) d = Decoder.abort d csid
message_effect _ d = d

abbrev pub parsed_effect : Parsed RtmpMessage → ChunkDecoder → ChunkDecoder
parsed_effect (some (ok m)) d = message_effect m d
parsed_effect _ d = d

unfoldable pub chunk_effect : RtmpChunk → ChunkDecoder → ChunkDecoder
chunk_effect chunk d = parsed_effect (from_chunk chunk) d

module _ (B : Broadcast) (h : Handler) (now : ℕ) (d : ChunkDecoder) (b : Bytes) where
  pub handle_audio-with_wire :
      (timestamp : ℕ) (bytes : Bytes) (c : Connection B)
      → handle_audio B timestamp bytes (with_wire B d b c)
        ≡ wired B d b (handle_audio B timestamp bytes c)
  unfolding handle_audio
  handle_audio-with_wire timestamp [] c = refl
  handle_audio-with_wire timestamp (x ∷ rest) c = on (publishing_in c.state.streams) c.publishing_to
    where
      on :
          (o : Option ℕ) (key : Option StreamKey)
          → audio_on B o timestamp x rest
              (with_wire B d b (record c { last_audio_ts = some timestamp; publishing_to = key }))
            ≡ wired B d b (
                audio_on B o timestamp x rest
                  (record c { last_audio_ts = some timestamp; publishing_to = key }))
      on none key = refl
      on (some id) none = refl
      on (some id) (some key) = refl

  finish_video-with_wire :
      (key : Option StreamKey) (t : Bool) (f : BroadcastFrame) (id : ℕ) (name : Bytes)
      (timestamp : ℕ) (c : Connection B)
      → spread B key f (tell_keyframe B t id name timestamp (with_wire B d b c))
        ≡ with_wire B d b (spread B key f (tell_keyframe B t id name timestamp c))
  finish_video-with_wire none true f id name timestamp c = refl
  finish_video-with_wire none false f id name timestamp c = refl
  finish_video-with_wire (some key) true f id name timestamp c = refl
  finish_video-with_wire (some key) false f id name timestamp c = refl

  video_on-with_wire :
      (o : Option ℕ) (timestamp x : ℕ) (rest : Bytes) (c : Connection B)
      → video_on B o timestamp x rest (with_wire B d b c)
        ≡ wired B d b (video_on B o timestamp x rest c)
  video_on-with_wire none timestamp x rest c = refl
  video_on-with_wire (some id) timestamp x rest c =
      let header = video_is_header x rest in
      let key = video_is_keyframe x in
      ap (done B) (
        finish_video-with_wire c.publishing_to (key && not header)
          (new_video timestamp (x ∷ rest) key header) id (stream_key_of B (get_stream c.state id))
          timestamp
          (record c {
            state = update_stream c.state id (λ s.
                keep_video header timestamp (x ∷ rest)
                  (on_video s timestamp key header (length (x ∷ rest))));
          }))

  pub handle_video-with_wire :
      (timestamp : ℕ) (bytes : Bytes) (c : Connection B)
      → handle_video B timestamp bytes (with_wire B d b c)
        ≡ wired B d b (handle_video B timestamp bytes c)
  unfolding handle_video
  handle_video-with_wire timestamp [] c = refl
  handle_video-with_wire timestamp (x ∷ rest) c =
      video_on-with_wire (publishing_in c.state.streams) timestamp x rest
        (record c { last_video_ts = some timestamp })

  tell_metadata-with_wire :
      (id : ℕ) (o : Option StreamState) (values : Properties) (c : Connection B)
      → tell_metadata B id o values (with_wire B d b c)
        ≡ with_wire B d b (tell_metadata B id o values c)
  tell_metadata-with_wire id none values c = refl
  tell_metadata-with_wire id (some s) values c = ground arith

  handle_metadata-with_wire :
      (id : ℕ) (values : Elements) (c : Connection B)
      → handle_metadata B id values (with_wire B d b c)
        ≡ with_wire B d b (handle_metadata B id values c)
  unfolding handle_metadata
  handle_metadata-with_wire id values c =
      let state = update_stream c.state id on_metadata in
      tell_metadata-with_wire id (get_stream state id)
        (unwrap_or (Access.and_then (get_element values 0) as_object) no_properties)
        (record c { state = state })

  if-with_wire :
      (t : Bool) (x y x' y' : Connection B)
      → x ≡ with_wire B d b x'
      → y ≡ with_wire B d b y'
      → (if t then x else y) ≡ with_wire B d b (if t then x' else y')
  if-with_wire true x y x' y' p q = p
  if-with_wire false x y x' y' p q = q

  data_frame-with_wire :
      (id : ℕ) (vs : Elements) (c : Connection B)
      → data_frame B id vs (with_wire B d b c) ≡ with_wire B d b (data_frame B id vs c)
  data_frame-with_wire id (element (string name) values) c =
      if-with_wire (bytes_beq name cmd_on_metadata)
        (handle_metadata B id values (with_wire B d b c)) (with_wire B d b c)
        (handle_metadata B id values c) c (handle_metadata-with_wire id values c) refl
  data_frame-with_wire id _ c = refl

  pub handle_data-with_wire :
      (m : DataMessage) (c : Connection B)
      → handle_data B m (with_wire B d b c) ≡ wired B d b (handle_data B m c)
  unfolding handle_data
  handle_data-with_wire m c =
      on (bytes_beq m.name cmd_set_data_frame) (bytes_beq m.name cmd_on_metadata)
    where
      on :
          (t u : Bool)
          → (if t
              then done B (data_frame B m.stream_id m.values (with_wire B d b c))
              else if u
              then done B (handle_metadata B m.stream_id m.values (with_wire B d b c))
              else done B (with_wire B d b c))
            ≡ wired B d b (
                if t
                then done B (data_frame B m.stream_id m.values c)
                else if u
                then done B (handle_metadata B m.stream_id m.values c)
                else done B c)
      on true u = ap (done B) (data_frame-with_wire m.stream_id m.values c)
      on false true = ap (done B) (handle_metadata-with_wire m.stream_id m.values c)
      on false false = refl

  dispatch-with_wire :
      (n : CommandName) (cmd : Command) (c : Connection B)
      → dispatch B h now n cmd (with_wire B d b c) ≡ wired B d b (dispatch B h now n cmd c)
  unfolding dispatch
  dispatch-with_wire connect cmd c = handle_connect-with_wire B d b h cmd c
  dispatch-with_wire create_stream cmd c = handle_create_stream-with_wire B d b cmd c
  dispatch-with_wire delete_stream cmd c = handle_delete_stream-with_wire B d b cmd c
  dispatch-with_wire publish cmd c = handle_publish-with_wire B d b h now cmd c
  dispatch-with_wire play cmd c = handle_play-with_wire B d b h now cmd c
  dispatch-with_wire fc_publish cmd c = handle_fc_publish-with_wire B d b h cmd c
  dispatch-with_wire fc_unpublish cmd c = handle_fc_unpublish-with_wire B d b cmd c
  dispatch-with_wire release_stream cmd c = refl
  dispatch-with_wire pause cmd c = handle_pause-with_wire B d b cmd c
  dispatch-with_wire close_stream cmd c = handle_close_stream-with_wire B d b cmd c
  dispatch-with_wire unknown_command cmd c = refl

  pub handle_command-with_wire :
      (cmd : Command) (c : Connection B)
      → handle_command B h now cmd (with_wire B d b c) ≡ wired B d b (handle_command B h now cmd c)
  unfolding handle_command
  handle_command-with_wire cmd c = dispatch-with_wire (command_name cmd.name) cmd c

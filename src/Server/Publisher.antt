-- ===== src/Server/Publisher.antt =====
-- The side of a connection that publishes: metadata, audio and video (server/connection.rs). The
-- delivery of media to the application, and with it the length of the NALU prefixes, is left out.
use rtmp_rs.Prelude.{
  ℕ, ◌/◌, ◌%◌, Bool, true, false, ◌&&◌, ◌||◌, not, Option, none, some, [], ◌∷◌, if◌then◌else◌, ◌==◌,
  length, is_empty, get_or, err,
}
use rtmp_rs.Prelude.Map.{HashMap}
use rtmp_rs.Bytes.{Bytes}
use rtmp_rs.Error.{stream_not_found}
use rtmp_rs.Media.Flv
use rtmp_rs.Media.Gop
use rtmp_rs.Amf.Value.{string, Elements, element, Properties, no_properties}
use rtmp_rs.Amf.Access.{as_object, unwrap_or, get_element}
use rtmp_rs.Amf.Access
use rtmp_rs.Message.Types.{DataMessage, protocol}
use rtmp_rs.Message.Commands.{cmd_set_data_frame, cmd_on_metadata}
use rtmp_rs.Registry.Frame.{StreamKey, BroadcastFrame, bytes_beq, new_audio, new_video}
use rtmp_rs.Registry.Entry.{Broadcast}
use rtmp_rs.Registry.Store.{broadcast}
use rtmp_rs.Session.Stream.{StreamState, is_publishing, on_audio, on_video, on_metadata}
use rtmp_rs.Session.State.{get_stream, update_stream}
use rtmp_rs.Server.Handler.{metadata, keyframe}
use rtmp_rs.Server.Connection.{Connection, Outcome, done, notify}

-- The first stream in publish mode, in the order in which the map is iterated.
unfoldable pub publishing_in : HashMap ℕ StreamState → Option ℕ
publishing_in [] = none
publishing_in ((id, s) ∷ m) = if is_publishing s then some id else publishing_in m

-- `EnhancedAudioData::is_enhanced` and `EnhancedVideoData::is_enhanced`.
abbrev pub is_enhanced_audio : ℕ → Bool
is_enhanced_audio b = b / 16 == 9

abbrev pub is_enhanced_video : ℕ → Bool
is_enhanced_video b = not (b / 128 % 2 == 0)

-- What the first bytes say of audio.
abbrev pub audio_is_header : ℕ → Bytes → Bool
audio_is_header b rest =
    if is_enhanced_audio b
    then b % 16 == 0
    else not (is_empty rest) && ((b / 16 == 10) && (get_or rest 0 0 == 0))

abbrev pub video_is_keyframe : ℕ → Bool
video_is_keyframe b =
    if is_enhanced_video b then (b / 16 % 8 == 1) || (b / 16 % 8 == 4) else b / 16 == 1

abbrev pub video_is_header : ℕ → Bytes → Bool
video_is_header b rest =
    if is_enhanced_video b
    then b % 16 == 0
    else not (is_empty rest) && ((b % 16 == 7) && (get_or rest 0 0 == 0))

abbrev pub keep_audio_header : Bool → ℕ → Bytes → StreamState → StreamState
keep_audio_header header timestamp bytes s =
    if header
    then record s { gop_buffer = Gop.set_audio_header s.gop_buffer (Flv.new_audio timestamp bytes) }
    else s

abbrev pub keep_video : Bool → ℕ → Bytes → StreamState → StreamState
keep_video header timestamp bytes s =
    if header
    then record s { gop_buffer = Gop.set_video_header s.gop_buffer (Flv.new_video timestamp bytes) }
    else record s { gop_buffer = (Gop.push s.gop_buffer (Flv.new_video timestamp bytes)).0 }

module _ (B : Broadcast) where
  abbrev pub spread : Option StreamKey → BroadcastFrame → Connection B → Connection B
  spread none f c = c
  spread (some key) f c = record c { registry = broadcast B c.registry key f }

  abbrev pub audio_on : Option ℕ → ℕ → ℕ → Bytes → Connection B → Outcome B
  audio_on none timestamp b rest c = (c, err (protocol (stream_not_found 0)))
  audio_on (some id) timestamp b rest c =
      let header = audio_is_header b rest in
      done B (
        spread c.publishing_to (new_audio timestamp (b ∷ rest) header) (record c {
          state = update_stream c.state id (λ s.
              keep_audio_header header timestamp (b ∷ rest)
                (on_audio s timestamp header (length (b ∷ rest))));
        }))

  unfoldable pub handle_audio : ℕ → Bytes → Connection B → Outcome B
  unfolding publishing_in update_stream on_audio broadcast new_audio
  handle_audio timestamp [] c = done B c
  handle_audio timestamp (b ∷ rest) c =
      audio_on (publishing_in c.state.streams) timestamp b rest
        (record c { last_audio_ts = some timestamp })

  abbrev pub stream_key_of : Option StreamState → Bytes
  stream_key_of none = []
  stream_key_of (some s) = unwrap_or s.stream_key []

  abbrev pub tell_keyframe : Bool → ℕ → Bytes → ℕ → Connection B → Connection B
  tell_keyframe true id key timestamp c = notify B (keyframe id key timestamp) c
  tell_keyframe false id key timestamp c = c

  abbrev pub video_on : Option ℕ → ℕ → ℕ → Bytes → Connection B → Outcome B
  video_on none timestamp b rest c = (c, err (protocol (stream_not_found 0)))
  video_on (some id) timestamp b rest c =
      let header = video_is_header b rest in
      let key = video_is_keyframe b in
      done B (
        spread c.publishing_to (new_video timestamp (b ∷ rest) key header) (
          tell_keyframe (key && not header) id (stream_key_of (get_stream c.state id)) timestamp
            (record c {
              state = update_stream c.state id (λ s.
                  keep_video header timestamp (b ∷ rest)
                    (on_video s timestamp key header (length (b ∷ rest))));
            })))

  unfoldable pub handle_video : ℕ → Bytes → Connection B → Outcome B
  unfolding publishing_in update_stream get_stream on_video broadcast new_video
  handle_video timestamp [] c = done B c
  handle_video timestamp (b ∷ rest) c =
      video_on (publishing_in c.state.streams) timestamp b rest
        (record c { last_video_ts = some timestamp })

  abbrev pub tell_metadata : ℕ → Option StreamState → Properties → Connection B → Connection B
  tell_metadata id none values c = c
  tell_metadata id (some s) values c =
      if is_publishing s then notify B (metadata id (unwrap_or s.stream_key []) values) c else c

  unfoldable pub handle_metadata : ℕ → Elements → Connection B → Connection B
  unfolding update_stream get_stream on_metadata get_element
  handle_metadata id values c =
      let state = update_stream c.state id on_metadata in
      tell_metadata id (get_stream state id)
        (unwrap_or (Access.and_then (get_element values 0) as_object) no_properties)
        (record c { state = state })

  -- The name behind `@setDataFrame`, and the metadata.
  abbrev pub data_frame : ℕ → Elements → Connection B → Connection B
  data_frame id (element (string name) values) c =
      if bytes_beq name cmd_on_metadata then handle_metadata id values c else c
  data_frame id _ c = c

  unfoldable pub handle_data : DataMessage → Connection B → Outcome B
  unfolding handle_metadata
  handle_data m c =
      if bytes_beq m.name cmd_set_data_frame
      then done B (data_frame m.stream_id m.values c)
      else if bytes_beq m.name cmd_on_metadata
      then done B (handle_metadata m.stream_id m.values c)
      else done B c

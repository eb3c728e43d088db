-- ===== src/Registry/Join.antt =====
-- What a subscriber that joins late gets, after any frames that were broadcast (registry/entry.rs,
-- registry/store.rs, media/gop.rs).
use rtmp_rs.Prelude.{
  ◌≡◌, refl, ap, ◌∙◌, Bool, true, false, ◌&&◌, not, Option, none, some, List, [], ◌∷◌, ◌++◌,
  if◌then◌else◌, arith, ok, ◌>>=◌,
}
use rtmp_rs.Prelude.Map.{get, get-insert_self}
use rtmp_rs.Media.Flv
use rtmp_rs.Media.Flv.{FlvTag}
use rtmp_rs.Media.Gop
use rtmp_rs.Media.Gop.{GopBuffer, is_some, to_list, tags, get_catchup_data}
use rtmp_rs.Media.Window
use rtmp_rs.Media.Catchup.{current_gop, replay}
use rtmp_rs.Media.Whole.{FitsAll, replay_catchup}
use rtmp_rs.Registry.Frame.{
  StreamKey, key_eq, BroadcastFrame, FrameType, audio_frame, metadata_frame,
}
use rtmp_rs.Registry.Entry.{
  Broadcast, StreamEntry, update_caches, get_catchup_frames, frames_of, is_video_frame,
}
use rtmp_rs.Registry.Store.{StreamRegistry, subscribe, broadcast, is_idle, cast}

-- The last frame of a list that passes a test, or `before`.
unfoldable pub last_of :
    (BroadcastFrame → Bool) → Option BroadcastFrame → List BroadcastFrame → Option BroadcastFrame
last_of p before [] = before
last_of p before (f ∷ fs) = last_of p (if p f then some f else before) fs

abbrev pub is_audio_type : FrameType → Bool
is_audio_type audio_frame = true
is_audio_type _ = false

abbrev pub is_metadata_type : FrameType → Bool
is_metadata_type metadata_frame = true
is_metadata_type _ = false

abbrev pub video_config : BroadcastFrame → Bool
video_config f = is_video_frame f.frame_type && f.is_header

abbrev pub audio_config : BroadcastFrame → Bool
audio_config f = is_audio_type f.frame_type && f.is_header

abbrev pub is_metadata : BroadcastFrame → Bool
is_metadata f = is_metadata_type f.frame_type

-- The video frames that are not headers, as tags.
unfoldable pub video_tags : List BroadcastFrame → List FlvTag
video_tags [] = []
video_tags (f ∷ fs) =
    if is_video_frame f.frame_type && not f.is_header
    then Flv.new_video f.timestamp f.payload ∷ video_tags fs
    else video_tags fs

replay-if :
    (b : Bool) (g : GopBuffer) (t : FlvTag) (ts : List FlvTag)
    → replay (if b then (Gop.push g t).0 else g) ts ≡ replay g (if b then t ∷ ts else ts)
unfolding replay
replay-if true g t ts = refl
replay-if false g t ts = refl

module _ (B : Broadcast) where
  -- Frames that are broadcast on a stream, one after the other.
  unfoldable pub broadcast_all :
      StreamRegistry B → StreamKey → List BroadcastFrame → StreamRegistry B
  broadcast_all r key [] = r
  broadcast_all r key (f ∷ fs) = broadcast_all (broadcast B r key f) key fs

  unfoldable pub cast_all : StreamEntry B → List BroadcastFrame → StreamEntry B
  cast_all e [] = e
  cast_all e (f ∷ fs) = cast_all (cast B e f) fs

  get-broadcast :
      (r : StreamRegistry B) (key : StreamKey) (e : StreamEntry B) (f : BroadcastFrame)
      → get r.streams key ≡ some e
      → get (broadcast B r key f).streams key ≡ some (cast B e f)
  unfolding broadcast
  get-broadcast r key e f g = rw g (get-insert_self r.streams key (cast B e f))

  get-broadcast_all :
      (fs : List BroadcastFrame) (r : StreamRegistry B) (key : StreamKey) (e : StreamEntry B)
      → get r.streams key ≡ some e
      → get (broadcast_all r key fs).streams key ≡ some (cast_all e fs)
  unfolding broadcast_all cast_all
  get-broadcast_all [] r key e g = g
  get-broadcast_all (f ∷ fs) r key e g =
      get-broadcast_all fs (broadcast B r key f) key (cast B e f) (get-broadcast r key e f g)

  -- What a frame leaves in the caches.
  cast-caches :
      (e : StreamEntry B) (f : BroadcastFrame)
      → ((cast B e f).video_header ≡ (if video_config f then some f else e.video_header))
        × ((cast B e f).audio_header ≡ (if audio_config f then some f else e.audio_header))
        × ((cast B e f).metadata ≡ (if is_metadata f then some f else e.metadata))
        × ((cast B e f).state ≡ e.state)
        × ((cast B e f).gop_buffer ≡ (
            if is_video_frame f.frame_type && not f.is_header
            then (Gop.push e.gop_buffer (Flv.new_video f.timestamp f.payload)).0
            else e.gop_buffer))
  unfolding update_caches
  cast-caches e f = ground arith

  cast_all-caches :
      (fs : List BroadcastFrame) (e : StreamEntry B)
      → ((cast_all e fs).video_header ≡ last_of video_config e.video_header fs)
        × ((cast_all e fs).audio_header ≡ last_of audio_config e.audio_header fs)
        × ((cast_all e fs).metadata ≡ last_of is_metadata e.metadata fs)
        × ((cast_all e fs).state ≡ e.state)
        × ((cast_all e fs).gop_buffer ≡ replay e.gop_buffer (video_tags fs))
  unfolding cast_all last_of replay video_tags
  cast_all-caches [] e = (refl, refl, refl, refl, refl)
  cast_all-caches (f ∷ fs) e =
      let (video, audio, meta, state, gop) = cast-caches e f in
      let (videos, audios, metas, states, gops) = cast_all-caches fs (cast B e f) in
      (
        videos ∙ ap (λ o. last_of video_config o fs) video,
        audios ∙ ap (λ o. last_of audio_config o fs) audio,
        metas ∙ ap (λ o. last_of is_metadata o fs) meta,
        states ∙ state,
        gops
            ∙ (ap (λ g. replay g (video_tags fs)) gop
                ∙ replay-if (is_video_frame f.frame_type && not f.is_header) e.gop_buffer
                    (Flv.new_video f.timestamp f.payload) (video_tags fs)),
      )

  subscribe-catchup :
      (r : StreamRegistry B) (key : StreamKey) (e : StreamEntry B)
      → get r.streams key ≡ some e
      → is_idle e.state ≡ false
      → ((subscribe B r key).1 >>= λ got. ok got.1) ≡ ok (get_catchup_frames B e)
  unfolding subscribe
  subscribe-catchup r key e g i = rw (g, i) refl

  catchup_frames :
      (e : StreamEntry B)
      → get_catchup_frames B e
        ≡ to_list e.metadata
          ++ (to_list e.video_header
              ++ (to_list e.audio_header ++ frames_of (get_catchup_data e.gop_buffer)))
  unfolding get_catchup_frames
  catchup_frames e = refl

  -- A stream that exists, with the entry `e`, gets any frames, and then someone subscribes: the
  -- subscriber's catchup frames are the last metadata, the last video and audio configuration, and
  -- the video frames since the last one that `FlvTag::is_keyframe` recognises, in order. Keyframes
  -- of enhanced video are not among these, so that there are none where all video is enhanced. The
  -- conditions: the entry is not idle, its buffer is valid and has no headers of its own, and at
  -- every frame those since the last recognised keyframe fit the buffer.
  pub subscribe-broadcast_all :
      (fs : List BroadcastFrame) (r : StreamRegistry B) (key : StreamKey) (e : StreamEntry B)
      → get r.streams key ≡ some e
      → is_idle e.state ≡ false
      → Window.IsValid e.gop_buffer
      → e.gop_buffer.video_header ≡ none
      → e.gop_buffer.audio_header ≡ none
      → FitsAll e.gop_buffer.max_size (tags e.gop_buffer.frames) (video_tags fs)
      → ((subscribe B (broadcast_all r key fs) key).1 >>= λ got. ok got.1)
        ≡ ok (
            to_list (last_of is_metadata e.metadata fs)
            ++ (to_list (last_of video_config e.video_header fs)
                ++ (to_list (last_of audio_config e.audio_header fs)
                    ++ frames_of (current_gop (tags e.gop_buffer.frames) (video_tags fs)))))
  subscribe-broadcast_all fs r key e g i v hv ha fits =
      let (videos, audios, metas, states, gops) = cast_all-caches fs e in
      subscribe-catchup (broadcast_all r key fs) key (cast_all e fs)
        (get-broadcast_all fs r key e g) (ap is_idle states ∙ i)
      ∙ ap ok (
          catchup_frames (cast_all e fs)
          ∙ rw
              (
                metas,
                videos,
                audios,
                gops,
                replay_catchup (video_tags fs) e.gop_buffer v fits,
                hv,
                ha,
              )
              refl)

-- ===== src/Registry/Entry.antt =====
-- The entry of a stream and the configuration (registry/entry.rs, registry/config.rs).
-- `tokio::sync::broadcast` is a parameter: a sender, what `channel`, `subscribe` and `send` make of
-- it. A point in time is the number of nanoseconds since some start.
use rtmp_rs.Prelude.{
  ℕ, Bool, true, false, ◌&&◌, not, Option, none, some, List, [], ◌∷◌, ◌++◌, if◌then◌else◌,
}
use rtmp_rs.Media.Flv
use rtmp_rs.Media.Flv.{FlvTag}
use rtmp_rs.Media.Gop
use rtmp_rs.Media.Gop.{GopBuffer, with_max_size, get_catchup_data, to_list}
use rtmp_rs.Registry.Frame.{
  BroadcastFrame, FrameType, video_frame, audio_frame, metadata_frame, from_flv_tag,
}

-- The channel that carries frames to subscribers.
pub record Broadcast : Type 1 where
  pub Sender : Type 0
  pub Receiver : Type 0
  pub channel : ℕ → Sender
  pub subscribe : Sender → Sender × Receiver
  pub send : Sender → BroadcastFrame → Sender

pub record RegistryConfig : Type 0 where
  pub broadcast_capacity : ℕ
  pub publisher_grace_period : ℕ
  pub idle_stream_timeout : ℕ
  pub max_gop_size : ℕ

pub data StreamState : Type 0 where
  active grace_period idle : StreamState

abbrev pub frames_of : List FlvTag → List BroadcastFrame
frames_of [] = []
frames_of (t ∷ ts) = from_flv_tag t ∷ frames_of ts

abbrev pub is_video_frame : FrameType → Bool
is_video_frame video_frame = true
is_video_frame _ = false

module _ (B : Broadcast) where
  pub record StreamEntry : Type 0 where
    pub gop_buffer : GopBuffer
    pub video_header : Option BroadcastFrame
    pub audio_header : Option BroadcastFrame
    pub metadata : Option BroadcastFrame
    pub publisher_id : Option ℕ
    pub tx : B.Sender
    pub subscriber_count : ℕ  -- u32
    pub publisher_disconnected_at : Option ℕ
    pub created_at : ℕ
    pub state : StreamState

  unfoldable pub new_entry : RegistryConfig → ℕ → StreamEntry
  new_entry config now = record {
    gop_buffer = with_max_size config.max_gop_size;
    video_header = none;
    audio_header = none;
    metadata = none;
    publisher_id = none;
    tx = B.channel config.broadcast_capacity;
    subscriber_count = 0;
    publisher_disconnected_at = none;
    created_at = now;
    state = idle;
  }

  unfoldable pub get_catchup_frames : StreamEntry → List BroadcastFrame
  get_catchup_frames e =
      to_list e.metadata
      ++ (to_list e.video_header
          ++ (to_list e.audio_header ++ frames_of (get_catchup_data e.gop_buffer)))

  -- The header or the metadata that a frame replaces.
  abbrev cache_header : FrameType → StreamEntry → BroadcastFrame → StreamEntry
  cache_header video_frame e f = if f.is_header then record e { video_header = some f } else e
  cache_header audio_frame e f = if f.is_header then record e { audio_header = some f } else e
  cache_header metadata_frame e f = record e { metadata = some f }

  -- A video frame that is not a header goes to the buffer of the current group.
  abbrev buffer_frame : StreamEntry → BroadcastFrame → StreamEntry
  buffer_frame e f =
      if is_video_frame f.frame_type && not f.is_header
      then record e { gop_buffer = (Gop.push e.gop_buffer (Flv.new_video f.timestamp f.payload)).0 }
      else e

  unfoldable pub update_caches : StreamEntry → BroadcastFrame → StreamEntry
  update_caches e f = buffer_frame (cache_header f.frame_type e f) f

-- ===== src/Session/Stream.antt =====
-- The state of one message stream (`StreamState`, session/stream.rs). A point in time is a number.
use rtmp_rs.Prelude.{ℕ, ◌+◌, Bool, true, false, ◌||◌, Option, none, some, if◌then◌else◌}
use rtmp_rs.Bytes.{Bytes}
use rtmp_rs.Media.Gop
use rtmp_rs.Media.Gop.{GopBuffer}

pub data StreamMode : Type 0 where
  idle publishing playing : StreamMode

pub record StreamState : Type 0 where
  pub id : ℕ
  pub mode : StreamMode
  pub stream_key : Option Bytes
  pub publish_type : Option Bytes
  pub started_at : Option ℕ
  pub has_video_header : Bool
  pub has_audio_header : Bool
  pub has_metadata : Bool
  pub last_video_ts : ℕ
  pub last_audio_ts : ℕ
  pub video_frames : ℕ
  pub audio_frames : ℕ
  pub keyframes : ℕ
  pub bytes_received : ℕ
  pub gop_buffer : GopBuffer
  pub video_nalu_length_size : ℕ

unfoldable pub new : ℕ → StreamState
unfolding Gop.new
new id = record {
  id = id;
  mode = idle;
  stream_key = none;
  publish_type = none;
  started_at = none;
  has_video_header = false;
  has_audio_header = false;
  has_metadata = false;
  last_video_ts = 0;
  last_audio_ts = 0;
  video_frames = 0;
  audio_frames = 0;
  keyframes = 0;
  bytes_received = 0;
  gop_buffer = Gop.new;
  video_nalu_length_size = 4;
}

unfoldable pub start_publish : ℕ → StreamState → Bytes → Bytes → StreamState
start_publish now s key kind = record s {
  mode = publishing;
  stream_key = some key;
  publish_type = some kind;
  started_at = some now;
}

unfoldable pub start_play : ℕ → StreamState → Bytes → StreamState
start_play now s name = record s { mode = playing; stream_key = some name; started_at = some now }

unfoldable pub stop : StreamState → StreamState
stop s = record s { mode = idle }

abbrev publishes : StreamMode → Bool
publishes publishing = true
publishes _ = false

abbrev plays : StreamMode → Bool
plays playing = true
plays _ = false

abbrev pub is_publishing : StreamState → Bool
is_publishing s = publishes s.mode

abbrev pub is_playing : StreamState → Bool
is_playing s = plays s.mode

abbrev pub is_ready : StreamState → Bool
is_ready s = s.has_video_header || s.has_audio_header

-- The counters of 64 bits count what has arrived.
unfoldable pub on_video : StreamState → ℕ → Bool → Bool → ℕ → StreamState
on_video s timestamp is_keyframe is_header size = record s {
  last_video_ts = timestamp;
  video_frames = s.video_frames + 1;
  bytes_received = s.bytes_received + size;
  has_video_header = if is_header then true else s.has_video_header;
  keyframes = if is_keyframe then s.keyframes + 1 else s.keyframes;
}

unfoldable pub on_audio : StreamState → ℕ → Bool → ℕ → StreamState
on_audio s timestamp is_header size = record s {
  last_audio_ts = timestamp;
  audio_frames = s.audio_frames + 1;
  bytes_received = s.bytes_received + size;
  has_audio_header = if is_header then true else s.has_audio_header;
}

unfoldable pub on_metadata : StreamState → StreamState
on_metadata s = record s { has_metadata = true }

-- ===== src/Media/Gop.antt =====
-- The buffer of the current group of pictures (`GopBuffer`, media/gop.rs). `usize` is ℕ: its sums
-- are sizes of data that is in memory.
use rtmp_rs.Prelude.{
  ℕ, ◌+◌, ◌-◌, ◌*◌, Bool, true, false, ◌&&◌, Option, none, some, List, [], ◌∷◌, ◌++◌, if◌then◌else◌,
  ltb, length,
}
use rtmp_rs.Bytes.{Bytes}
use rtmp_rs.Media.Flv
use rtmp_rs.Media.Flv.{FlvTag, is_keyframe}

pub record BufferedFrame : Type 0 where
  pub tag : FlvTag
  pub size : ℕ

pub record GopBuffer : Type 0 where
  pub max_size : ℕ
  pub current_size : ℕ
  pub video_header : Option FlvTag
  pub audio_header : Option FlvTag
  pub metadata : Option Bytes
  pub frames : List BufferedFrame
  pub has_complete_gop : Bool

unfoldable pub with_max_size : ℕ → GopBuffer
with_max_size max = record {
  max_size = max;
  current_size = 0;
  video_header = none;
  audio_header = none;
  metadata = none;
  frames = [];
  has_complete_gop = false;
}

unfoldable pub new : GopBuffer
unfolding with_max_size
new = with_max_size (4 * 1024 * 1024)

unfoldable pub set_video_header : GopBuffer → FlvTag → GopBuffer
set_video_header g t = record g { video_header = some t }

unfoldable pub set_audio_header : GopBuffer → FlvTag → GopBuffer
set_audio_header g t = record g { audio_header = some t }

unfoldable pub set_metadata : GopBuffer → Bytes → GopBuffer
set_metadata g m = record g { metadata = some m }

unfoldable pub clear_frames : GopBuffer → GopBuffer
clear_frames g = record g { frames = []; current_size = 0; has_complete_gop = false }

unfoldable pub clear : GopBuffer → GopBuffer
unfolding clear_frames
clear g = record (clear_frames g) { video_header = none; audio_header = none; metadata = none }

-- The loop that drops the oldest frames until a frame of `size` bytes fits, or none is left: the
-- size and the frames that remain.
unfoldable pub make_room : ℕ → ℕ → ℕ → List BufferedFrame → ℕ × List BufferedFrame
make_room max size current [] = (current, [])
make_room max size current (old ∷ frames) =
    let rest = make_room max size (current - old.size) frames in
    if ltb max (current + size) then rest else (current, old ∷ frames)

-- The buffer when `push` has dealt with a keyframe.
unfoldable pub on_keyframe : GopBuffer → FlvTag → GopBuffer
unfolding clear_frames
on_keyframe g t = if is_keyframe t then record (clear_frames g) { has_complete_gop = true } else g

-- The frame joins those that remain, or is rejected where it is still too big.
abbrev pub settle : GopBuffer → FlvTag → ℕ → ℕ × List BufferedFrame → GopBuffer × Bool
settle h t size (current, frames) =
    if ltb h.max_size (current + size)
    then (record h { current_size = current; frames = frames }, false)
    else (
      record h {
        current_size = current + size;
        frames = frames ++ (record { tag = t; size = size } ∷ []);
      },
      true,
    )

unfoldable pub add_frame : GopBuffer → FlvTag → GopBuffer × Bool
add_frame h t = settle h t (Flv.size t) (make_room h.max_size (Flv.size t) h.current_size h.frames)

-- The new buffer, and whether the frame was added.
unfoldable pub push : GopBuffer → FlvTag → GopBuffer × Bool
push g t = add_frame (on_keyframe g t) t

abbrev pub is_some {ℓ} : {A : Type ℓ} → Option A → Bool
is_some none = false
is_some (some _) = true

unfoldable pub is_ready : GopBuffer → Bool
is_ready g = is_some g.video_header && g.has_complete_gop

abbrev pub to_list {ℓ} : {A : Type ℓ} → Option A → List A
to_list none = []
to_list (some a) = a ∷ []

abbrev pub tags : List BufferedFrame → List FlvTag
tags [] = []
tags (f ∷ fs) = f.tag ∷ tags fs

unfoldable pub get_catchup_data : GopBuffer → List FlvTag
get_catchup_data g = to_list g.video_header ++ (to_list g.audio_header ++ tags g.frames)

unfoldable pub frame_count : GopBuffer → ℕ
frame_count g = length g.frames

abbrev last_timestamp : BufferedFrame → List BufferedFrame → ℕ
last_timestamp f [] = f.tag.timestamp
last_timestamp f (g ∷ fs) = last_timestamp g fs

abbrev range_of : List BufferedFrame → Option (ℕ × ℕ)
range_of [] = none
range_of (f ∷ fs) = some (f.tag.timestamp, last_timestamp f fs)

unfoldable pub timestamp_range : GopBuffer → Option (ℕ × ℕ)
timestamp_range g = range_of g.frames

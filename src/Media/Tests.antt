-- ===== src/Media/Tests.antt =====
-- The theorems on the buffer and the tag fields at small streams of frames.
use rtmp_rs.Prelude.{◌≡◌, refl, true, false, List, [], ◌∷◌, ◌++◌, arith}
use rtmp_rs.Media.Flv.{FlvTag, is_keyframe, new_video}
use rtmp_rs.Media.Gop.{
  GopBuffer, with_max_size, push, tags, get_catchup_data, to_list, is_ready, is_some,
}
use rtmp_rs.Media.Codes.{is_keyframe_enhanced}
use rtmp_rs.Media.Window.{IsValid, push-IsValid, with_max_size-IsValid}
use rtmp_rs.Media.Catchup.{replay, current_gop}
use rtmp_rs.Media.Whole.{FitsAll, replay_catchup, push_oversized}

-- A keyframe of three bytes, and another frame of four.
abbrev key : FlvTag
key = new_video 40 (23 ∷ 1 ∷ 0 ∷ [])

abbrev inter : FlvTag
inter = new_video 80 (39 ∷ 1 ∷ 0 ∷ 5 ∷ [])

abbrev small_buffer : GopBuffer
small_buffer = with_max_size 8

small_buffer-IsValid : IsValid small_buffer
small_buffer-IsValid = with_max_size-IsValid 8

abbrev frames : List FlvTag
frames = key ∷ inter ∷ key ∷ inter ∷ []

frames-FitsAll : FitsAll small_buffer.max_size (tags small_buffer.frames) frames
unfolding with_max_size is_keyframe new_video
frames-FitsAll = (omega arith, (omega arith, (omega arith, (omega arith, tt))))

replay_catchup_example :
    get_catchup_data (replay small_buffer frames)
    ≡ to_list small_buffer.video_header
      ++ (to_list small_buffer.audio_header ++ current_gop (tags small_buffer.frames) frames)
replay_catchup_example = replay_catchup frames small_buffer small_buffer-IsValid frames-FitsAll

push-IsValid_example : IsValid (push small_buffer key).0
push-IsValid_example = push-IsValid small_buffer key small_buffer-IsValid

push_oversized_example :
    let (h, added) = push (with_max_size 2) key in
    (added ≡ false)
    × (h.frames ≡ [])
    × (h.has_complete_gop ≡ true)
    × (is_ready h ≡ is_some (with_max_size 2).video_header)
unfolding with_max_size is_keyframe new_video
push_oversized_example = push_oversized (with_max_size 2) key refl (omega arith)

is_keyframe_enhanced_example : is_keyframe (new_video 40 (145 ∷ 104 ∷ [])) ≡ false
unfolding new_video
is_keyframe_enhanced_example =
    is_keyframe_enhanced (new_video 40 (145 ∷ 104 ∷ [])) 145 (104 ∷ []) refl (omega arith)
      (omega arith)

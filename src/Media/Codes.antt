-- ===== src/Media/Codes.antt =====
-- The codec fields of a tag's first byte against the numbers of the enumerations (media/flv.rs).
use rtmp_rs.Prelude.{ℕ, ◌≤◌, ◌<◌, false, ◌/◌, ◌%◌, ◌≡◌, ◌↔◌, ◌⊎◌, true, some, ◌∷◌, arith}
use rtmp_rs.Bytes.{Bytes}
use rtmp_rs.Media.Flv.{
  FlvTag, VideoFrameType, VideoCodec, AudioFormat, AudioSampleRate, frame_type_code,
  video_codec_code, audio_format_code, sample_rate_code, frame_type_from_byte,
  video_codec_from_byte, audio_format_from_byte, sample_rate_from_byte, is_keyframe, is_video,
}

-- The frame type is read from a byte exactly when its high four bits are the type's number.
pub frame_type_from_byte_iff :
    (b : ℕ) (f : VideoFrameType)
    → (frame_type_from_byte b ≡ some f) ↔ (b / 16 % 16 ≡ frame_type_code f)
unfolding frame_type_from_byte frame_type_code
frame_type_from_byte_iff b f = (λ h. ground arith, λ h. ground arith)

-- The codec is read from a byte exactly when its low four bits are the codec's number.
pub video_codec_from_byte_iff :
    (b : ℕ) (c : VideoCodec) → (video_codec_from_byte b ≡ some c) ↔ (b % 16 ≡ video_codec_code c)
unfolding video_codec_from_byte video_codec_code
video_codec_from_byte_iff b c = (λ h. ground arith, λ h. ground arith)

-- The audio format is read from a byte exactly when its high four bits are the format's number.
pub audio_format_from_byte_iff :
    (b : ℕ) (f : AudioFormat)
    → (audio_format_from_byte b ≡ some f) ↔ (b / 16 % 16 ≡ audio_format_code f)
unfolding audio_format_from_byte audio_format_code
audio_format_from_byte_iff b f = (λ h. ground arith, λ h. ground arith)

pub sample_rate_from_byte_iff :
    (b : ℕ) (r : AudioSampleRate) → (sample_rate_from_byte b ≡ r) ↔ (b / 4 % 4 ≡ sample_rate_code r)
unfolding sample_rate_from_byte sample_rate_code
sample_rate_from_byte_iff b r = (λ h. ground arith, λ h. ground arith)

-- A tag is a keyframe exactly when it is a video tag and the high four bits of its first byte are
-- 1 or 4.
pub is_keyframe_iff :
    (t : FlvTag) (b : ℕ) (more : Bytes)
    → t.payload ≡ b ∷ more
    → (is_keyframe t ≡ true) ↔ ((is_video t ≡ true) × ((b / 16 % 16 ≡ 1) ⊎ (b / 16 % 16 ≡ 4)))
unfolding is_keyframe
is_keyframe_iff t b more h = (λ k. ground arith, λ k. ground arith)

-- A tag in the enhanced format, whose first byte has the high bit set, is never a keyframe, whatever
-- frame type the byte has.
pub is_keyframe_enhanced :
    (t : FlvTag) (b : ℕ) (more : Bytes)
    → t.payload ≡ b ∷ more
    → 128 ≤ b
    → b < 256
    → is_keyframe t ≡ false
unfolding is_keyframe frame_type_from_byte
is_keyframe_enhanced t b more h lo hi = ground arith

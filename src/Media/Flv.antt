-- ===== src/Media/Flv.antt =====
-- FLV tags and the codec fields of their first bytes (media/flv.rs).
use rtmp_rs.Prelude.{
  ℕ, ◌/◌, ◌%◌, Bool, true, false, ◌&&◌, Option, none, some, [], ◌∷◌, if◌then◌else◌, ◌==◌, length,
}
use rtmp_rs.Bytes.{Bytes}

pub data FlvTagType : Type 0 where
  audio video script : FlvTagType

pub record FlvTag : Type 0 where
  pub tag_type : FlvTagType
  pub timestamp : ℕ  -- u32
  pub payload : Bytes

pub data VideoFrameType : Type 0 where
  keyframe inter_frame disposable_inter_frame generated_keyframe video_info_frame : VideoFrameType

pub data VideoCodec : Type 0 where
  sorenson_h263 screen_video vp6 vp6_alpha screen_video_v2 avc hevc av1 : VideoCodec

pub data AudioFormat : Type 0 where
  linear_pcm_platform adpcm mp3 linear_pcm_le nellymoser16k_mono : AudioFormat
  nellymoser8k_mono nellymoser g711_a_law g711_mu_law aac speex mp38k device_specific : AudioFormat

pub data AudioSampleRate : Type 0 where
  rate5512 rate11025 rate22050 rate44100 : AudioSampleRate

-- The numbers that the source gives to the constructors.
unfoldable pub frame_type_code : VideoFrameType → ℕ
frame_type_code keyframe = 1
frame_type_code inter_frame = 2
frame_type_code disposable_inter_frame = 3
frame_type_code generated_keyframe = 4
frame_type_code video_info_frame = 5

unfoldable pub video_codec_code : VideoCodec → ℕ
video_codec_code sorenson_h263 = 2
video_codec_code screen_video = 3
video_codec_code vp6 = 4
video_codec_code vp6_alpha = 5
video_codec_code screen_video_v2 = 6
video_codec_code avc = 7
video_codec_code hevc = 12
video_codec_code av1 = 13

unfoldable pub audio_format_code : AudioFormat → ℕ
audio_format_code linear_pcm_platform = 0
audio_format_code adpcm = 1
audio_format_code mp3 = 2
audio_format_code linear_pcm_le = 3
audio_format_code nellymoser16k_mono = 4
audio_format_code nellymoser8k_mono = 5
audio_format_code nellymoser = 6
audio_format_code g711_a_law = 7
audio_format_code g711_mu_law = 8
audio_format_code aac = 10
audio_format_code speex = 11
audio_format_code mp38k = 14
audio_format_code device_specific = 15

unfoldable pub sample_rate_code : AudioSampleRate → ℕ
sample_rate_code rate5512 = 0
sample_rate_code rate11025 = 1
sample_rate_code rate22050 = 2
sample_rate_code rate44100 = 3

-- `(b >> 4) & 0x0F`
unfoldable pub frame_type_from_byte : ℕ → Option VideoFrameType
frame_type_from_byte b =
    let n = b / 16 % 16 in
    if n == 1
    then some keyframe
    else if n == 2
    then some inter_frame
    else if n == 3
    then some disposable_inter_frame
    else if n == 4
    then some generated_keyframe
    else if n == 5
    then some video_info_frame
    else none

abbrev pub frame_type_is_keyframe : VideoFrameType → Bool
frame_type_is_keyframe keyframe = true
frame_type_is_keyframe generated_keyframe = true
frame_type_is_keyframe _ = false

-- `b & 0x0F`
unfoldable pub video_codec_from_byte : ℕ → Option VideoCodec
video_codec_from_byte b =
    let n = b % 16 in
    if n == 2
    then some sorenson_h263
    else if n == 3
    then some screen_video
    else if n == 4
    then some vp6
    else if n == 5
    then some vp6_alpha
    else if n == 6
    then some screen_video_v2
    else if n == 7
    then some avc
    else if n == 12
    then some hevc
    else if n == 13
    then some av1
    else none

unfoldable pub audio_format_from_byte : ℕ → Option AudioFormat
audio_format_from_byte b =
    let n = b / 16 % 16 in
    if n == 0
    then some linear_pcm_platform
    else if n == 1
    then some adpcm
    else if n == 2
    then some mp3
    else if n == 3
    then some linear_pcm_le
    else if n == 4
    then some nellymoser16k_mono
    else if n == 5
    then some nellymoser8k_mono
    else if n == 6
    then some nellymoser
    else if n == 7
    then some g711_a_law
    else if n == 8
    then some g711_mu_law
    else if n == 10
    then some aac
    else if n == 11
    then some speex
    else if n == 14
    then some mp38k
    else if n == 15
    then some device_specific
    else none

-- `(b >> 2) & 0x03`
unfoldable pub sample_rate_from_byte : ℕ → AudioSampleRate
sample_rate_from_byte b =
    let n = b / 4 % 4 in
    if n == 0
    then rate5512
    else if n == 1
    then rate11025
    else if n == 2
    then rate22050
    else rate44100

unfoldable pub to_hz : AudioSampleRate → ℕ
to_hz rate5512 = 5512
to_hz rate11025 = 11025
to_hz rate22050 = 22050
to_hz rate44100 = 44100

abbrev pub is_video : FlvTag → Bool
is_video t = elim t.tag_type [ video ↦ true | _ ↦ false ]

abbrev pub is_audio : FlvTag → Bool
is_audio t = elim t.tag_type [ audio ↦ true | _ ↦ false ]

-- A field of the first byte, where there is one.
abbrev first_byte {ℓ} : {A : Type ℓ} → (ℕ → Option A) → Bytes → Option A
first_byte f [] = none
first_byte f (b ∷ _) = f b

unfoldable pub video_frame_type : FlvTag → Option VideoFrameType
unfolding frame_type_from_byte
video_frame_type t = if is_video t then first_byte frame_type_from_byte t.payload else none

unfoldable pub video_codec : FlvTag → Option VideoCodec
unfolding video_codec_from_byte
video_codec t = if is_video t then first_byte video_codec_from_byte t.payload else none

unfoldable pub audio_format : FlvTag → Option AudioFormat
unfolding audio_format_from_byte
audio_format t = if is_audio t then first_byte audio_format_from_byte t.payload else none

abbrev keyframe_or_not : Option VideoFrameType → Bool
keyframe_or_not none = false
keyframe_or_not (some ft) = frame_type_is_keyframe ft

unfoldable pub is_keyframe : FlvTag → Bool
unfolding video_frame_type
is_keyframe t = keyframe_or_not (video_frame_type t)

abbrev is_avc : Option VideoCodec → Bool
is_avc (some avc) = true
is_avc _ = false

abbrev is_aac : Option AudioFormat → Bool
is_aac (some aac) = true
is_aac _ = false

abbrev second_is_zero : Bytes → Bool
second_is_zero (_ ∷ b ∷ _) = b == 0
second_is_zero _ = false

unfoldable pub is_avc_sequence_header : FlvTag → Bool
unfolding video_codec_from_byte
is_avc_sequence_header t =
    is_video t && is_avc (first_byte video_codec_from_byte t.payload) && second_is_zero t.payload

unfoldable pub is_aac_sequence_header : FlvTag → Bool
unfolding audio_format_from_byte
is_aac_sequence_header t =
    is_audio t && is_aac (first_byte audio_format_from_byte t.payload) && second_is_zero t.payload

abbrev pub size : FlvTag → ℕ
size t = length t.payload

unfoldable pub new_video : ℕ → Bytes → FlvTag
new_video timestamp payload = record { tag_type = video; timestamp = timestamp; payload = payload }

unfoldable pub new_audio : ℕ → Bytes → FlvTag
new_audio timestamp payload = record { tag_type = audio; timestamp = timestamp; payload = payload }

-- ===== src/Enhanced/FourCc.antt =====
-- Codecs and their FourCCs (media/fourcc.rs). A FourCC is the list of its four bytes.
use rtmp_rs.Prelude.{
  ℕ, ◌≡◌, refl, ap, ◌↔◌, ◌∙◌, sym, Bool, true, ◌&&◌, Option, none, some, [], ◌∷◌, if◌then◌else◌,
  ltb, ◌==◌, ==_iff, length, take,
}
use rtmp_rs.Prelude.Map.{Eq}
use rtmp_rs.Prelude.Text.{codes}
use rtmp_rs.Bytes.{Bytes}
use rtmp_rs.Registry.Frame.{bytes_beq}

unfoldable pub all_ascii : Bytes → Bool
all_ascii [] = true
all_ascii (b ∷ s) = ltb b 128 && all_ascii s

-- `FourCC::from_str`.
unfoldable pub fourcc_of : Bytes → Option Bytes
unfolding all_ascii
fourcc_of s = if (length s == 4) && all_ascii s then some s else none

pub data VideoFourCc : Type 0 where
  avc hevc av1 vp9 vp8 : VideoFourCc

-- `as_fourcc_str`, the bytes of `fourcc`.
unfoldable pub video_fourcc : VideoFourCc → Bytes
video_fourcc avc = codes "avc1"
video_fourcc hevc = codes "hvc1"
video_fourcc av1 = codes "av01"
video_fourcc vp9 = codes "vp09"
video_fourcc vp8 = codes "vp08"

-- `from_fourcc`.
unfoldable pub video_from_fourcc : Bytes → Option VideoFourCc
video_from_fourcc s =
    if bytes_beq s (codes "avc1")
    then some avc
    else if bytes_beq s (codes "hvc1")
    then some hevc
    else if bytes_beq s (codes "av01")
    then some av1
    else if bytes_beq s (codes "vp09")
    then some vp9
    else if bytes_beq s (codes "vp08")
    then some vp8
    else none

unfoldable pub video_from_bytes : Bytes → Option VideoFourCc
unfolding video_from_fourcc
video_from_bytes bytes = if ltb (length bytes) 4 then none else video_from_fourcc (take 4 bytes)

abbrev video_of : Option Bytes → Option VideoFourCc
video_of none = none
video_of (some s) = video_from_fourcc s

-- `from_fourcc_str`.
unfoldable pub video_from_str : Bytes → Option VideoFourCc
unfolding fourcc_of video_from_fourcc
video_from_str s = video_of (fourcc_of s)

pub video_from_str-video_fourcc : (c : VideoFourCc) → video_from_str (video_fourcc c) ≡ some c
unfolding video_from_str video_fourcc bytes_beq
video_from_str-video_fourcc avc = refl
video_from_str-video_fourcc hevc = refl
video_from_str-video_fourcc av1 = refl
video_from_str-video_fourcc vp9 = refl
video_from_str-video_fourcc vp8 = refl

abbrev video_index : VideoFourCc → ℕ
video_index avc = 0
video_index hevc = 1
video_index av1 = 2
video_index vp9 = 3
video_index vp8 = 4

-- Derived equality.
abbrev video_beq : VideoFourCc → VideoFourCc → Bool
video_beq c d = video_index c == video_index d

abbrev video_at : ℕ → VideoFourCc
video_at i =
    if i == 0
    then avc
    else if i == 1
    then hevc
    else if i == 2
    then av1
    else if i == 3
    then vp9
    else vp8

video_at-video_index : (c : VideoFourCc) → video_at (video_index c) ≡ c
video_at-video_index avc = refl
video_at-video_index hevc = refl
video_at-video_index av1 = refl
video_at-video_index vp9 = refl
video_at-video_index vp8 = refl

pub video_beq_iff : (c d : VideoFourCc) → (video_beq c d ≡ true) ↔ (c ≡ d)
video_beq_iff c d = (
  λ h. sym (video_at-video_index c) ∙ ap video_at ((==_iff _ _).0 h) ∙ video_at-video_index d,
  λ h. (==_iff _ _).1 (ap video_index h),
)

instance abbrev pub video_eq : Eq VideoFourCc
video_eq = record { beq = video_beq; beq_iff = video_beq_iff }

pub data AudioFourCc : Type 0 where
  aac opus flac ac3 eac3 mp3 : AudioFourCc

-- `as_fourcc_str`, the bytes of `fourcc`.
unfoldable pub audio_fourcc : AudioFourCc → Bytes
audio_fourcc aac = codes "mp4a"
audio_fourcc opus = codes "Opus"
audio_fourcc flac = codes "fLaC"
audio_fourcc ac3 = codes "ac-3"
audio_fourcc eac3 = codes "ec-3"
audio_fourcc mp3 = codes ".mp3"

-- `from_fourcc`.
unfoldable pub audio_from_fourcc : Bytes → Option AudioFourCc
audio_from_fourcc s =
    if bytes_beq s (codes "mp4a")
    then some aac
    else if bytes_beq s (codes "Opus")
    then some opus
    else if bytes_beq s (codes "fLaC")
    then some flac
    else if bytes_beq s (codes "ac-3")
    then some ac3
    else if bytes_beq s (codes "ec-3")
    then some eac3
    else if bytes_beq s (codes ".mp3")
    then some mp3
    else none

unfoldable pub audio_from_bytes : Bytes → Option AudioFourCc
unfolding audio_from_fourcc
audio_from_bytes bytes = if ltb (length bytes) 4 then none else audio_from_fourcc (take 4 bytes)

abbrev audio_of : Option Bytes → Option AudioFourCc
audio_of none = none
audio_of (some s) = audio_from_fourcc s

-- `from_fourcc_str`.
unfoldable pub audio_from_str : Bytes → Option AudioFourCc
unfolding fourcc_of audio_from_fourcc
audio_from_str s = audio_of (fourcc_of s)

pub audio_from_str-audio_fourcc : (c : AudioFourCc) → audio_from_str (audio_fourcc c) ≡ some c
unfolding audio_from_str audio_fourcc bytes_beq
audio_from_str-audio_fourcc aac = refl
audio_from_str-audio_fourcc opus = refl
audio_from_str-audio_fourcc flac = refl
audio_from_str-audio_fourcc ac3 = refl
audio_from_str-audio_fourcc eac3 = refl
audio_from_str-audio_fourcc mp3 = refl

abbrev audio_index : AudioFourCc → ℕ
audio_index aac = 0
audio_index opus = 1
audio_index flac = 2
audio_index ac3 = 3
audio_index eac3 = 4
audio_index mp3 = 5

-- Derived equality.
abbrev audio_beq : AudioFourCc → AudioFourCc → Bool
audio_beq c d = audio_index c == audio_index d

abbrev audio_at : ℕ → AudioFourCc
audio_at i =
    if i == 0
    then aac
    else if i == 1
    then opus
    else if i == 2
    then flac
    else if i == 3
    then ac3
    else if i == 4
    then eac3
    else mp3

audio_at-audio_index : (c : AudioFourCc) → audio_at (audio_index c) ≡ c
audio_at-audio_index aac = refl
audio_at-audio_index opus = refl
audio_at-audio_index flac = refl
audio_at-audio_index ac3 = refl
audio_at-audio_index eac3 = refl
audio_at-audio_index mp3 = refl

pub audio_beq_iff : (c d : AudioFourCc) → (audio_beq c d ≡ true) ↔ (c ≡ d)
audio_beq_iff c d = (
  λ h. sym (audio_at-audio_index c) ∙ ap audio_at ((==_iff _ _).0 h) ∙ audio_at-audio_index d,
  λ h. (==_iff _ _).1 (ap audio_index h),
)

instance abbrev pub audio_eq : Eq AudioFourCc
audio_eq = record { beq = audio_beq; beq_iff = audio_beq_iff }

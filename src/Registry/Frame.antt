-- ===== src/Registry/Frame.antt =====
-- Stream keys and the frames that go to subscribers (registry/frame.rs, registry/error.rs). A
-- `String` is the list of its bytes.
use rtmp_rs.Prelude.{ℕ, ◌≡◌, ◌↔◌, Bool, true, false, ◌&&◌, [], ◌∷◌, ◌==◌, ==_iff, arith}
use rtmp_rs.Prelude.Map.{Eq}
use rtmp_rs.Bytes.{Bytes}
use rtmp_rs.Media.Flv
use rtmp_rs.Media.Flv.{
  FlvTagType, FlvTag, audio, video, script, is_avc_sequence_header, is_aac_sequence_header,
}

pub record StreamKey : Type 0 where
  pub app : Bytes
  pub name : Bytes

pub data RegistryError : Type 0 where
  stream_not_found stream_already_publishing stream_not_active : StreamKey → RegistryError
  publisher_mismatch : RegistryError

unfoldable pub bytes_beq : Bytes → Bytes → Bool
bytes_beq [] [] = true
bytes_beq [] (_ ∷ _) = false
bytes_beq (_ ∷ _) [] = false
bytes_beq (a ∷ more) (b ∷ bs) = (a == b) && bytes_beq more bs

pub bytes_beq_iff : (xs ys : Bytes) → (bytes_beq xs ys ≡ true) ↔ (xs ≡ ys)
unfolding bytes_beq
bytes_beq_iff [] [] = ground arith
bytes_beq_iff [] (b ∷ bs) = ground arith
bytes_beq_iff (a ∷ more) [] = ground arith
bytes_beq_iff (a ∷ more) (b ∷ bs) = ground (arith, ==_iff a b, bytes_beq_iff more bs)

instance abbrev pub bytes_eq : Eq Bytes
bytes_eq = record { beq = bytes_beq; beq_iff = bytes_beq_iff }

abbrev key_beq : StreamKey → StreamKey → Bool
key_beq j k = bytes_beq j.app k.app && bytes_beq j.name k.name

pub key_beq_iff : (j k : StreamKey) → (key_beq j k ≡ true) ↔ (j ≡ k)
key_beq_iff j k = ground (arith, bytes_beq_iff j.app k.app, bytes_beq_iff j.name k.name)

instance abbrev pub key_eq : Eq StreamKey
key_eq = record { beq = key_beq; beq_iff = key_beq_iff }

pub data FrameType : Type 0 where
  video_frame audio_frame metadata_frame : FrameType

pub record BroadcastFrame : Type 0 where
  pub frame_type : FrameType
  pub timestamp : ℕ
  pub payload : Bytes
  pub is_keyframe : Bool
  pub is_header : Bool

unfoldable pub new_video : ℕ → Bytes → Bool → Bool → BroadcastFrame
new_video timestamp bytes keyframe header = record {
  frame_type = video_frame;
  timestamp = timestamp;
  payload = bytes;
  is_keyframe = keyframe;
  is_header = header;
}

unfoldable pub new_audio : ℕ → Bytes → Bool → BroadcastFrame
new_audio timestamp bytes header = record {
  frame_type = audio_frame;
  timestamp = timestamp;
  payload = bytes;
  is_keyframe = false;
  is_header = header;
}

unfoldable pub new_metadata : Bytes → BroadcastFrame
new_metadata bytes = record {
  frame_type = metadata_frame;
  timestamp = 0;
  payload = bytes;
  is_keyframe = false;
  is_header = false;
}

abbrev from_tag_type : FlvTagType → FlvTag → BroadcastFrame
from_tag_type video t =
    new_video t.timestamp t.payload (Flv.is_keyframe t) (is_avc_sequence_header t)
from_tag_type audio t = new_audio t.timestamp t.payload (is_aac_sequence_header t)
from_tag_type script t = new_metadata t.payload

unfoldable pub from_flv_tag : FlvTag → BroadcastFrame
from_flv_tag t = from_tag_type t.tag_type t

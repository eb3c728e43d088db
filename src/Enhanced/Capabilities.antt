-- ===== src/Enhanced/Capabilities.antt =====
-- The capabilities of two ends and their negotiation (protocol/enhanced.rs, server/config.rs, and
-- `to_enhanced_capabilities` of protocol/message.rs). Bitmasks are numbers.
use Prim.Native.Nat.{bit_and, bit_or}
use rtmp_rs.Prelude.{
  ℕ, Bool, true, false, ◌&&◌, not, Option, none, some, List, [], ◌∷◌, if◌then◌else◌, ◌==◌, Result,
  ok, err,
}
use rtmp_rs.Prelude.Map.{HashMap, Eq, get, insert}
use rtmp_rs.Bytes.{Bytes}
use rtmp_rs.Media.Gop.{is_some}
use rtmp_rs.Amf.Access.{unwrap_or}
use rtmp_rs.Message.Connect.{ConnectParams, has_enhanced_rtmp}
use rtmp_rs.Message.Types.{Error, rejected}
use rtmp_rs.Enhanced.FourCc.{
  VideoFourCc, AudioFourCc, video_from_str, audio_from_str, video_eq, audio_eq,
}
use rtmp_rs.Enhanced.FourCc

abbrev pub caps_reconnect : ℕ
caps_reconnect = 1

abbrev pub caps_multitrack : ℕ
caps_multitrack = 2

abbrev pub caps_modex : ℕ
caps_modex = 4

abbrev pub can_forward : ℕ
can_forward = 4

-- Decode, encode and forward.
abbrev pub full_capability : ℕ
full_capability = 7

-- `CapsEx::contains`.
unfoldable pub has_flag : ℕ → ℕ → Bool
has_flag bits flag = not (bit_and bits flag == 0)

abbrev pub Codecs : Type 0 → Type 0
Codecs C = HashMap C ℕ

pub record EnhancedCapabilities : Type 0 where
  pub enabled : Bool
  pub caps_ex : ℕ
  pub video_codecs : Codecs VideoFourCc
  pub audio_codecs : Codecs AudioFourCc
  pub video_function : ℕ

unfoldable pub new : EnhancedCapabilities
new = record {
  enabled = false;
  caps_ex = 0;
  video_codecs = [];
  audio_codecs = [];
  video_function = 0;
}

unfoldable pub supports_multitrack : EnhancedCapabilities → Bool
unfolding has_flag
supports_multitrack c = c.enabled && has_flag c.caps_ex caps_multitrack

unfoldable pub supports_reconnect : EnhancedCapabilities → Bool
unfolding has_flag
supports_reconnect c = c.enabled && has_flag c.caps_ex caps_reconnect

module _ {C : Type 0} ⦃e : Eq C⦄ where
  -- One round of the loop over the codecs of one end, `other` what the other end can do with it.
  abbrev pub common : C → ℕ → Option ℕ → Codecs C → Codecs C
  common c bits none acc = acc
  common c bits (some other) acc =
      if bit_and bits other == 0 then acc else insert acc c (bit_and bits other)

  unfoldable pub intersect_codecs : Codecs C → Codecs C → Codecs C → Codecs C
  intersect_codecs [] others acc = acc
  intersect_codecs ((c, bits) ∷ m) others acc =
      intersect_codecs m others (common c bits (get others c) acc)

  -- The codecs of an info map, those with a known FourCC.
  abbrev inserted : (Option C) → ℕ → Codecs C → Codecs C
  inserted none bits acc = acc
  inserted (some c) bits acc = insert acc c bits

  unfoldable pub codecs_of_map : (Bytes → Option C) → HashMap Bytes ℕ → Codecs C → Codecs C
  codecs_of_map parse [] acc = acc
  codecs_of_map parse ((name, bits) ∷ m) acc =
      codecs_of_map parse m (inserted (parse name) bits acc)

  abbrev entry_or_full : Option C → Codecs C → Codecs C
  entry_or_full none acc = acc
  entry_or_full (some c) acc = if is_some (get acc c) then acc else insert acc c full_capability

  unfoldable pub codecs_of_list : (Bytes → Option C) → List Bytes → Codecs C → Codecs C
  codecs_of_list parse [] acc = acc
  codecs_of_list parse (name ∷ names) acc =
      codecs_of_list parse names (entry_or_full (parse name) acc)

  -- The codecs of a list of pairs, in their order.
  unfoldable pub insert_codecs : List (C × ℕ) → Codecs C → Codecs C
  insert_codecs [] acc = acc
  insert_codecs ((c, bits) ∷ m) acc = insert_codecs m (insert acc c bits)

-- `EnhancedCapabilities::intersect`.
unfoldable pub intersect : EnhancedCapabilities → EnhancedCapabilities → EnhancedCapabilities
unfolding new intersect_codecs
intersect a b =
    if a.enabled && b.enabled
    then record {
      enabled = true;
      caps_ex = bit_and a.caps_ex b.caps_ex;
      video_codecs = intersect_codecs a.video_codecs b.video_codecs [];
      audio_codecs = intersect_codecs a.audio_codecs b.audio_codecs [];
      video_function = bit_and a.video_function b.video_function;
    }
    else new

abbrev from_map : {C : Type 0} ⦃e : Eq C⦄ → (Bytes → Option C) → Option (HashMap Bytes ℕ) → Codecs C
from_map parse none = []
from_map parse (some m) = codecs_of_map parse m []

-- The list of FourCCs counts only where there is no info map.
abbrev with_list :
    {C : Type 0} ⦃e : Eq C⦄ → (Bytes → Option C) → ConnectParams → Codecs C → Codecs C
with_list parse p acc = elim p.fourcc_list [
  | none ↦ acc
  | some names ↦
      if is_some p.video_fourcc_info_map
      then acc
      else if is_some p.audio_fourcc_info_map
      then acc
      else codecs_of_list parse names acc
]

-- `ConnectParams::to_enhanced_capabilities`.
unfoldable pub client_capabilities : ConnectParams → EnhancedCapabilities
unfolding has_enhanced_rtmp new codecs_of_map codecs_of_list
client_capabilities p =
    if has_enhanced_rtmp p
    then record {
      enabled = true;
      caps_ex = unwrap_or p.caps_ex 0;
      video_codecs = with_list video_from_str p (from_map video_from_str p.video_fourcc_info_map);
      audio_codecs = with_list audio_from_str p (from_map audio_from_str p.audio_fourcc_info_map);
      video_function = 0;
    }
    else new

pub record EnhancedServerCapabilities : Type 0 where
  pub reconnect : Bool
  pub multitrack : Bool
  pub modex : Bool
  pub video_codecs : List (VideoFourCc × ℕ)
  pub audio_codecs : List (AudioFourCc × ℕ)

abbrev pub default_server : EnhancedServerCapabilities
default_server = record {
  reconnect = false;
  multitrack = false;
  modex = true;
  video_codecs =
      (FourCc.avc, can_forward)
      ∷ ((FourCc.hevc, can_forward)
          ∷ ((FourCc.av1, can_forward) ∷ ((FourCc.vp9, can_forward) ∷ [])));
  audio_codecs = (FourCc.aac, can_forward) ∷ ((FourCc.opus, can_forward) ∷ []);
}

abbrev flag_if : Bool → ℕ → ℕ → ℕ
flag_if b flag bits = if b then bit_or bits flag else bits

unfoldable pub to_caps_ex : EnhancedServerCapabilities → ℕ
to_caps_ex s =
    flag_if s.modex caps_modex
      (flag_if s.multitrack caps_multitrack (flag_if s.reconnect caps_reconnect 0))

-- `EnhancedServerCapabilities::to_enhanced_capabilities`.
unfoldable pub server_capabilities : EnhancedServerCapabilities → EnhancedCapabilities
unfolding to_caps_ex insert_codecs
server_capabilities s = record {
  enabled = true;
  caps_ex = to_caps_ex s;
  video_codecs = insert_codecs s.video_codecs [];
  audio_codecs = insert_codecs s.audio_codecs [];
  video_function = 0;
}

pub data EnhancedRtmpMode : Type 0 where
  auto legacy_only enhanced_only : EnhancedRtmpMode

abbrev negotiated : EnhancedServerCapabilities → ConnectParams → EnhancedCapabilities
negotiated s p = intersect (server_capabilities s) (client_capabilities p)

-- `Connection::negotiate_enhanced_rtmp`.
unfoldable pub negotiate :
    EnhancedRtmpMode
    → EnhancedServerCapabilities
    → ConnectParams
    → Result Error (Option EnhancedCapabilities)
negotiate legacy_only s p = ok none
negotiate enhanced_only s p =
    if has_enhanced_rtmp p then ok (some (negotiated s p)) else err rejected
negotiate auto s p =
    if has_enhanced_rtmp p
    then (if (negotiated s p).enabled then ok (some (negotiated s p)) else ok none)
    else ok none

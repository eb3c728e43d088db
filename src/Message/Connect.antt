-- ===== src/Message/Connect.antt =====
-- The parameters of the connect command (`ConnectParams`, protocol/message.rs).
use rtmp_rs.Prelude.{ℕ, Bool, false, ◌||◌, Option, none, some, List, [], ◌∷◌, if◌then◌else◌}
use Prim.Native.String.{String}
use rtmp_rs.Prelude.Text.{codes}
use rtmp_rs.Prelude.Map.{HashMap}
use mathlib.Core.Option
use rtmp_rs.Bytes.{Bytes}
use rtmp_rs.Media.Gop.{is_some}
use rtmp_rs.Registry.Frame.{bytes_beq}
use rtmp_rs.Amf.Value.{
  AmfValue, array, Elements, no_elements, element, Properties, no_properties, property,
  insert_property,
}
use rtmp_rs.Amf.Access.{as_str, as_number, as_bool, as_object, unwrap_or, u32_of_f64}

pub record ConnectParams : Type 0 where
  pub app : Bytes
  pub flash_ver : Option Bytes
  pub swf_url : Option Bytes
  pub tc_url : Option Bytes
  pub fpad : Bool
  pub audio_codecs : ℕ
  pub video_codecs : ℕ
  pub video_function : ℕ
  pub page_url : Option Bytes
  pub object_encoding : ℕ  -- f64
  pub extra : Properties
  pub fourcc_list : Option (List Bytes)
  pub video_fourcc_info_map : Option (HashMap Bytes ℕ)
  pub audio_fourcc_info_map : Option (HashMap Bytes ℕ)
  pub caps_ex : Option ℕ

unfoldable pub default_params : ConnectParams
default_params = record {
  app = [];
  flash_ver = none;
  swf_url = none;
  tc_url = none;
  fpad = false;
  audio_codecs = 0;
  video_codecs = 0;
  video_function = 0;
  page_url = none;
  object_encoding = 0;
  extra = no_properties;
  fourcc_list = none;
  video_fourcc_info_map = none;
  audio_fourcc_info_map = none;
  caps_ex = none;
}

abbrev cons_some : {A : Type 0} → Option A → List A → List A
cons_some none xs = xs
cons_some (some x) xs = x ∷ xs

abbrev non_empty : {A : Type 0} → List A → Option (List A)
non_empty [] = none
non_empty (x ∷ xs) = some (x ∷ xs)

-- The strings of an array.
unfoldable pub strings_of : Elements → List Bytes
strings_of no_elements = []
strings_of (element v vs) = cons_some (as_str v) (strings_of vs)

unfoldable pub parse_fourcc_list : AmfValue → Option (List Bytes)
unfolding strings_of
parse_fourcc_list (array vs) = non_empty (strings_of vs)
parse_fourcc_list _ = none

-- The numbers of a map, with their keys.
unfoldable pub numbers_of : Properties → HashMap Bytes ℕ
numbers_of no_properties = []
numbers_of (property k v ps) =
    cons_some (Option.map (λ n. (k, u32_of_f64 n)) (as_number v)) (numbers_of ps)

abbrev info_map_of : Option Properties → Option (HashMap Bytes ℕ)
info_map_of none = none
info_map_of (some ps) = non_empty (numbers_of ps)

unfoldable pub parse_fourcc_info_map : AmfValue → Option (HashMap Bytes ℕ)
unfolding numbers_of
parse_fourcc_info_map v = info_map_of (as_object v)

abbrev is_key : Bytes → String → Bool
is_key key name = bytes_beq key (codes name)

abbrev is_either : Bytes → String → String → Bool
is_either key name old = is_key key name || is_key key old

abbrev number_of : AmfValue → ℕ
number_of v = u32_of_f64 (unwrap_or (as_number v) 0)

-- One round of the loop of `from_amf`.
unfoldable pub set_param : ConnectParams → Bytes → AmfValue → ConnectParams
unfolding parse_fourcc_list parse_fourcc_info_map
set_param p key v =
    if is_key key "app"
    then record p { app = unwrap_or (as_str v) p.app }
    else if is_either key "flashVer" "flashver"
    then record p { flash_ver = as_str v }
    else if is_either key "swfUrl" "swfurl"
    then record p { swf_url = as_str v }
    else if is_either key "tcUrl" "tcurl"
    then record p { tc_url = as_str v }
    else if is_key key "fpad"
    then record p { fpad = unwrap_or (as_bool v) false }
    else if is_either key "audioCodecs" "audiocodecs"
    then record p { audio_codecs = number_of v }
    else if is_either key "videoCodecs" "videocodecs"
    then record p { video_codecs = number_of v }
    else if is_either key "videoFunction" "videofunction"
    then record p { video_function = number_of v }
    else if is_either key "pageUrl" "pageurl"
    then record p { page_url = as_str v }
    else if is_either key "objectEncoding" "objectencoding"
    then record p { object_encoding = unwrap_or (as_number v) 0 }
    else if is_key key "fourCcList"
    then record p { fourcc_list = parse_fourcc_list v }
    else if is_key key "videoFourCcInfoMap"
    then record p { video_fourcc_info_map = parse_fourcc_info_map v }
    else if is_key key "audioFourCcInfoMap"
    then record p { audio_fourcc_info_map = parse_fourcc_info_map v }
    else if is_key key "capsEx"
    then record p { caps_ex = Option.map u32_of_f64 (as_number v) }
    else record p { extra = insert_property p.extra key v }

unfoldable pub set_params : ConnectParams → Properties → ConnectParams
unfolding set_param
set_params p no_properties = p
set_params p (property k v ps) = set_params (set_param p k v) ps

abbrev params_of : Option Properties → ConnectParams
params_of none = default_params
params_of (some ps) = set_params default_params ps

unfoldable pub from_amf : AmfValue → ConnectParams
unfolding set_params
from_amf v = params_of (as_object v)

unfoldable pub has_enhanced_rtmp : ConnectParams → Bool
has_enhanced_rtmp p =
    is_some p.fourcc_list
    || (is_some p.video_fourcc_info_map || (is_some p.audio_fourcc_info_map || is_some p.caps_ex))

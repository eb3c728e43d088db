-- ===== src/Message/Commands.antt =====
-- The commands that the server sends (`Command::result` and its siblings, protocol/message.rs), and
-- the names and status codes of protocol/constants.rs.
use rtmp_rs.Prelude.{ℕ, Option, none, some, [], ◌∷◌, if◌then◌else◌, is_empty}
use rtmp_rs.Prelude.Text.{codes}
use rtmp_rs.Bytes.{Bytes}
use rtmp_rs.Amf.Value.{
  AmfValue, null, number, string, object, no_elements, element, Properties, no_properties, property,
  insert_property,
}
use rtmp_rs.Amf.Access.{f64_of_u32}
use rtmp_rs.Message.Types.{Command}
use rtmp_rs.Enhanced.FourCc.{video_fourcc, audio_fourcc}
use rtmp_rs.Enhanced.Capabilities.{EnhancedCapabilities, Codecs}

abbrev pub cmd_connect : Bytes
cmd_connect = codes "connect"

abbrev pub cmd_close : Bytes
cmd_close = codes "close"

abbrev pub cmd_create_stream : Bytes
cmd_create_stream = codes "createStream"

abbrev pub cmd_delete_stream : Bytes
cmd_delete_stream = codes "deleteStream"

abbrev pub cmd_play : Bytes
cmd_play = codes "play"

abbrev pub cmd_publish : Bytes
cmd_publish = codes "publish"

abbrev pub cmd_pause : Bytes
cmd_pause = codes "pause"

abbrev pub cmd_result : Bytes
cmd_result = codes "_result"

abbrev pub cmd_error : Bytes
cmd_error = codes "_error"

abbrev pub cmd_on_status : Bytes
cmd_on_status = codes "onStatus"

abbrev pub cmd_fc_publish : Bytes
cmd_fc_publish = codes "FCPublish"

abbrev pub cmd_fc_unpublish : Bytes
cmd_fc_unpublish = codes "FCUnpublish"

abbrev pub cmd_release_stream : Bytes
cmd_release_stream = codes "releaseStream"

abbrev pub cmd_on_fc_publish : Bytes
cmd_on_fc_publish = codes "onFCPublish"

abbrev pub cmd_on_fc_unpublish : Bytes
cmd_on_fc_unpublish = codes "onFCUnpublish"

abbrev pub cmd_set_data_frame : Bytes
cmd_set_data_frame = codes "@setDataFrame"

abbrev pub cmd_on_metadata : Bytes
cmd_on_metadata = codes "onMetaData"

abbrev pub nc_connect_success : Bytes
nc_connect_success = codes "NetConnection.Connect.Success"

abbrev pub nc_connect_rejected : Bytes
nc_connect_rejected = codes "NetConnection.Connect.Rejected"

abbrev pub ns_publish_start : Bytes
ns_publish_start = codes "NetStream.Publish.Start"

abbrev pub ns_publish_bad_name : Bytes
ns_publish_bad_name = codes "NetStream.Publish.BadName"

abbrev pub ns_play_start : Bytes
ns_play_start = codes "NetStream.Play.Start"

abbrev pub ns_play_reset : Bytes
ns_play_reset = codes "NetStream.Play.Reset"

abbrev pub ns_play_stop : Bytes
ns_play_stop = codes "NetStream.Play.Stop"

abbrev pub ns_play_stream_not_found : Bytes
ns_play_stream_not_found = codes "NetStream.Play.StreamNotFound"

abbrev pub ns_pause_notify : Bytes
ns_pause_notify = codes "NetStream.Pause.Notify"

abbrev pub ns_unpause_notify : Bytes
ns_unpause_notify = codes "NetStream.Unpause.Notify"

-- A map of strings, filled in this order.
abbrev pub with_text : Properties → Bytes → Bytes → Properties
with_text ps key s = insert_property ps key (string s)

-- The info object of a status.
unfoldable pub status_info : Bytes → Bytes → Bytes → Properties
unfolding insert_property
status_info level code description =
    with_text (with_text (with_text no_properties (codes "level") level) (codes "code") code)
      (codes "description") description

-- `Command::result` and `Command::error`.
abbrev reply : Bytes → ℕ → AmfValue → AmfValue → Command
reply name transaction_id properties info = record {
  name = name;
  transaction_id = transaction_id;
  command_object = properties;
  arguments = element info no_elements;
  stream_id = 0;
}

unfoldable pub result : ℕ → AmfValue → AmfValue → Command
result transaction_id properties info = reply cmd_result transaction_id properties info

unfoldable pub error : ℕ → AmfValue → AmfValue → Command
error transaction_id properties info = reply cmd_error transaction_id properties info

unfoldable pub on_status : ℕ → Bytes → Bytes → Bytes → Command
unfolding status_info
on_status stream_id level code description = record {
  name = cmd_on_status;
  transaction_id = 0;
  command_object = null;
  arguments = element (object (status_info level code description)) no_elements;
  stream_id = stream_id;
}

-- A command with nothing but its name.
unfoldable pub bare : Bytes → Command
bare name = record {
  name = name;
  transaction_id = 0;
  command_object = null;
  arguments = no_elements;
  stream_id = 0;
}

-- The info map of the codecs.
unfoldable pub info_map : {C : Type 0} → (C → Bytes) → Codecs C → Properties
info_map name [] = no_properties
info_map name ((c, bits) ∷ m) = property (name c) (number (f64_of_u32 bits)) (info_map name m)

abbrev with_map : {C : Type 0} → Bytes → (C → Bytes) → Codecs C → Properties → Properties
with_map key name m ps =
    if is_empty m then ps else insert_property ps key (object (info_map name m))

abbrev with_caps : Option EnhancedCapabilities → Properties → Properties
with_caps none ps = ps
with_caps (some caps) ps = with_map (codes "audioFourCcInfoMap") audio_fourcc caps.audio_codecs (
    with_map (codes "videoFourCcInfoMap") video_fourcc caps.video_codecs
      (insert_property ps (codes "capsEx") (number (f64_of_u32 caps.caps_ex))))

-- `ConnectResponseBuilder`.
pub record ConnectResponseBuilder : Type 0 where
  pub fms_ver : Bytes
  pub capabilities : ℕ
  pub enhanced_caps : Option EnhancedCapabilities

unfoldable pub new_builder : ConnectResponseBuilder
new_builder = record { fms_ver = codes "FMS/3,5,7,7009"; capabilities = 31; enhanced_caps = none }

unfoldable pub enhanced_capabilities :
    ConnectResponseBuilder → EnhancedCapabilities → ConnectResponseBuilder
enhanced_capabilities b caps = if caps.enabled then record b { enhanced_caps = some caps } else b

unfoldable pub build_properties : ConnectResponseBuilder → AmfValue
unfolding insert_property f64_of_u32 info_map
build_properties b = object (
    with_caps b.enhanced_caps (
      insert_property (with_text no_properties (codes "fmsVer") b.fms_ver) (codes "capabilities")
        (number (f64_of_u32 b.capabilities))))

unfoldable pub build : ConnectResponseBuilder → ℕ → Command
unfolding build_properties status_info result
build b transaction_id = result transaction_id (build_properties b) (
    object (
      insert_property
        (status_info (codes "status") nc_connect_success (codes "Connection succeeded."))
        (codes "objectEncoding") (number 0)))

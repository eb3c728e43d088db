-- ===== src/Server/Handler.antt =====
-- What the application behind the server decides and is told (server/handler.rs), and what the
-- connection keeps for it (session/context.rs). The decisions are a parameter.
use rtmp_rs.Prelude.{ℕ, Bool, Option, none, some, [], if◌then◌else◌}
use rtmp_rs.Bytes.{Bytes}
use rtmp_rs.Amf.Value.{Properties}
use rtmp_rs.Message.Connect.{ConnectParams}
use rtmp_rs.Enhanced.Capabilities.{EnhancedCapabilities}
use rtmp_rs.Quirks.{EncoderType, unknown}

pub data AuthResult : Type 0 where
  accept : AuthResult
  reject redirect : Bytes → AuthResult

pub record PublishParams : Type 0 where
  pub stream_key : Bytes
  pub publish_type : Bytes
  pub stream_id : ℕ

pub record PlayParams : Type 0 where
  pub stream_name : Bytes
  pub start : ℕ  -- f64
  pub duration : ℕ  -- f64
  pub reset : Bool
  pub stream_id : ℕ

pub record SessionContext : Type 0 where
  pub session_id : ℕ
  pub app : Bytes
  pub encoder_type : EncoderType
  pub connect_params : Option ConnectParams
  pub enhanced_capabilities : Option EnhancedCapabilities

unfoldable pub new_context : ℕ → SessionContext
new_context id = record {
  session_id = id;
  app = [];
  encoder_type = unknown;
  connect_params = none;
  enhanced_capabilities = none;
}

unfoldable pub with_connect : SessionContext → ConnectParams → EncoderType → SessionContext
with_connect c params encoder = record c {
  app = params.app;
  encoder_type = encoder;
  connect_params = some params;
}

unfoldable pub with_enhanced_capabilities : SessionContext → EnhancedCapabilities → SessionContext
with_enhanced_capabilities c caps =
    if caps.enabled then record c { enhanced_capabilities = some caps } else c

-- The callbacks of `RtmpHandler` that decide something.
pub record Handler : Type 0 where
  pub on_connect : SessionContext → ConnectParams → AuthResult
  pub on_fc_publish : SessionContext → Bytes → AuthResult
  pub on_publish : SessionContext → PublishParams → AuthResult
  pub on_play : SessionContext → PlayParams → AuthResult

-- The callbacks that are told something, with the stream and its key.
pub data Notice : Type 0 where
  publish_stop unpublish paused unpaused : ℕ → Bytes → Notice
  metadata : ℕ → Bytes → Properties → Notice
  keyframe : ℕ → Bytes → ℕ → Notice

-- ===== src/Error.antt =====
-- The error types of error.rs that the modelled code returns.
use Prim.Native.String.{String}
use rtmp_rs.Prelude.{ℕ}

-- `message_too_large` holds the size and the maximum.
pub data ProtocolError : Type 0 where
  invalid_chunk_header : ProtocolError
  unknown_message_type : ℕ → ProtocolError
  message_too_large : ℕ → ℕ → ProtocolError
  invalid_chunk_stream_id : ℕ → ProtocolError
  unexpected_message missing_field invalid_command : String → ProtocolError
  stream_not_found : ℕ → ProtocolError
